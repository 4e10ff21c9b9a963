-- ===== src/Http.antt =====
-- lib/http.js: the router of the control plane and of the signer. Texts are lists of code units; a
-- handler, the parser of JSON and `decodeURIComponent` are left open.
pub mod Laws
mod Tests
use circuit_agent_cloud.Prelude.{
  ℕ, ◌+◌, Bool, true, false, not, ◌&&◌, ◌||◌, String, ◌==◌, List, [], ◌∷◌, ◌++◌, Option, none, some,
  length, includes, same, ltb, nat_eq, if◌then◌else◌,
}
use circuit_agent_cloud.Base58.{codes}
use circuit_agent_cloud.Bundle.Pull.{starts_with}

abbrev pub Text : Type 0
Text = List ℕ

abbrev cons_part : Text → List Text → List Text
cons_part [] parts = parts
cons_part (c ∷ part) parts = (c ∷ part) ∷ parts

-- `path.split('/').filter(Boolean)`, with the part that is being read.
unfoldable pub segments : Text → Text → List Text
segments part [] = cons_part part []
segments part (c ∷ cs) =
    let next = cons_part part (segments [] cs) in
    let longer = segments (part ++ c ∷ []) cs in if nat_eq c b'/' then next else longer

pub record Route {ℓ} (H : Type ℓ) : Type ℓ where
  pub method : String
  pub parts : List Text
  pub handler : H
  pub raw : Bool

-- `add`.
unfoldable pub add {ℓ} : {H : Type ℓ} → String → Text → H → Bool → List (Route H) → List (Route H)
unfolding segments
add method pattern handler raw routes =
    routes
    ++ record { method = method; parts = segments [] pattern; handler = handler; raw = raw } ∷ []

abbrev pub Params : Type 0
Params = List (Text × Text)

-- What the loop over the parts of a route makes of a path: its parameters in their order (the source
-- writes them to an object), no match, or the error that `decodeURIComponent` throws.
pub data Fit : Type 0 where
  fits : Params → Fit
  differs throws : Fit

abbrev pub with_param : Text → Text → Fit → Fit
with_param name value (fits params) = fits ((name, value) ∷ params)
with_param name value differs = differs
with_param name value throws = throws

-- The lists are of the same length.
unfoldable pub fit : (Text → Option Text) → List Text → List Text → Fit
unfolding starts_with
fit decode [] segs = fits []
fit decode (p ∷ parts) [] = differs
fit decode ([] ∷ parts) (s ∷ segs) = if same [] s then fit decode parts segs else differs
fit decode ((c ∷ name) ∷ parts) (s ∷ segs) =
    let rest = fit decode parts segs in
    if nat_eq c b':'
    then elim (decode s) [ none ↦ throws | some value ↦ with_param name value rest ]
    else if same (c ∷ name) s
    then rest
    else differs

pub data Match {ℓ} (H : Type ℓ) : Type ℓ where
  found : Route H → Params → Match H
  not_found thrown : Match H

abbrev pub answer {ℓ} : {H : Type ℓ} → Route H → Fit → Match H → Match H
answer r (fits params) rest = found r params
answer r differs rest = rest
answer r throws rest = thrown

-- Routes of another method or length are passed over.
abbrev pub is_candidate {ℓ} : {H : Type ℓ} → String → List Text → Route H → Bool
is_candidate method segs r = r.method == method && nat_eq (length r.parts) (length segs)

-- `_match`, on the parts of the path.
unfoldable pub match {ℓ} :
    {H : Type ℓ} → (Text → Option Text) → String → List Text → List (Route H) → Match H
unfolding fit
match decode method segs [] = not_found
match decode method segs (r ∷ routes) =
    let rest = match decode method segs routes in
    if is_candidate method segs r then answer r (fit decode r.parts segs) rest else rest

pub data Body : Type 0 where
  parsed : Text → Body
  too_large invalid_json : Body

-- `readBody`: what is held in the end, and how the promise is settled. The handler of `data` goes on
-- after it rejected; an empty body is `{}`.
unfoldable pub read_chunks : ℕ → Text → Bool → List Text → Text × Bool
read_chunks limit data_read over [] = (data_read, over)
read_chunks limit data_read over (c ∷ chunks) =
    let longer : Text = data_read ++ c in
    read_chunks limit longer (over || ltb limit (length longer)) chunks

unfoldable pub read_body : (Text → Bool) → ℕ → List Text → Text × Body
unfolding read_chunks
read_body is_json limit chunks =
    let (held, over) = read_chunks limit [] false chunks in
    (
      held,
      if over
          then too_large
          else if same held []
          then parsed (codes "{}")
          else if is_json held
          then parsed held
          else invalid_json,
    )

-- How a handler ends: with a value or without one, or with an error and its status (0 if it has none,
-- else one that a response can have), and in each case whether it ended the response itself.
pub data Ending : Type 0 where
  returns_value returns_nothing : Bool → Ending
  raises : ℕ → Bool → Ending

pub data Served : Type 0 where
  -- The status of the response that the router sends.
  sends : ℕ → Served
  -- The handler answers, or will.
  left_to_handler : Served
  -- The promise of the listener is rejected, and nothing catches that.
  unhandled : Served

abbrev reads_body : String → Bool → Bool
reads_body method raw = not raw && includes method ("POST" ∷ "PUT" ∷ "PATCH" ∷ [])

-- `sendJson(res, e.status || 400, ...)`.
unfoldable pub conclude : Ending → Served
conclude (returns_value ended) = if ended then left_to_handler else sends 200
conclude (returns_nothing ended) = left_to_handler
conclude (raises status ended) =
    if ended then left_to_handler else sends (if nat_eq status 0 then 400 else status)

-- The listener of `listen` on the path of the URL; the match is made outside its `try`. `run` is the
-- handler on its parameters and its body.
unfoldable pub serve {ℓ} :
    {H : Type ℓ}
    → (Text → Option Text)
    → (Text → Bool)
    → (H → Params → Text → Ending)
    → List (Route H)
    → String
    → Text
    → List Text
    → Served
unfolding match segments read_body conclude
serve decode is_json run routes method path chunks =
    elim (match decode method (segments [] path) routes) [
      | not_found ↦ sends 404
      | thrown ↦ unhandled
      | found r params ↦
          let body : Body = (read_body is_json 1_000_000 chunks).1 in
          let read : Served = elim body [
            | parsed text ↦ conclude (run r.handler params text)
            | _ ↦ conclude (raises 0 false)
          ] in
          if reads_body method r.raw then read else conclude (run r.handler params (codes "{}"))
    ]

-- The whole listener. `pathname` is that of `new URL(url, 'http://x')`, and `none` where this throws,
-- outside the `try` too.
unfoldable pub listener {ℓ} :
    {H : Type ℓ}
    → (Text → Option Text)
    → (Text → Option Text)
    → (Text → Bool)
    → (H → Params → Text → Ending)
    → List (Route H)
    → String
    → Text
    → List Text
    → Served
unfolding serve
listener pathname decode is_json run routes method url chunks = elim (pathname url) [
  | none ↦ unhandled
  | some path ↦ serve decode is_json run routes method path chunks
]
