-- ===== src/Http/Laws.antt =====
-- Which handler answers a request, and which request none answers.
use circuit_agent_cloud.Prelude.{
  ◌≡◌, refl, ap, ◌∙◌, ◌⊎◌, ◌≢◌, inl, inr, Bool, true, false, String, List, [], ◌∷◌, ◌++◌, Option,
  none, some, All, nat_eq, same, arith,
}
use circuit_agent_cloud.Http.{
  Text, Route, Params, fits, differs, throws, fit, answer, is_candidate, match, segments, Ending,
  sends, unhandled, conclude, serve, Body, parsed, too_large, invalid_json, read_body, reads_body,
}

module _ {ℓ} {H : Type ℓ} (decode : Text → Option Text) (method : String) (segs : List Text) where
  -- A route that the router passes over.
  abbrev pub IsPassed : Route H → Type 0
  IsPassed r = (is_candidate method segs r ≡ false) ⊎ (fit decode r.parts segs ≡ differs)

  -- The first route that is not passed over decides.
  pub match-passed :
      (before : List (Route H)) (r : Route H) (after : List (Route H))
      → All IsPassed before
      → is_candidate method segs r ≡ true
      → match decode method segs (before ++ r ∷ after)
        ≡ answer r (fit decode r.parts segs) (match decode method segs after)
  unfolding match
  match-passed [] r after passed here = ground (arith, here)
  match-passed (b ∷ before) r after (inl other, passed) here =
      ground (arith, other, match-passed before r after passed here)
  match-passed (b ∷ before) r after (inr other, passed) here =
      ground (arith, other, match-passed before r after passed here)

-- A part that is no parameter.
abbrev pub IsLiteral : Text → Type 0
IsLiteral [] = ⊥
IsLiteral (c ∷ cs) = nat_eq c b':' ≡ false

same_self : (t : Text) → same t t ≡ true
unfolding same
same_self [] = refl
same_self (c ∷ cs) = ground (arith, same_self cs)

-- A parameter that cannot be decoded, after parts that are the same in the route and in the path.
fit-throws :
    (decode : Text → Option Text) (literals : List Text) (name seg : Text) (more more' : List Text)
    → All IsLiteral literals
    → decode seg ≡ none
    → fit decode (literals ++ (b':' ∷ name) ∷ more) (literals ++ seg ∷ more') ≡ throws
unfolding fit
fit-throws decode [] name seg more more' literal bad = ground (arith, bad)
fit-throws decode ([] ∷ ls) name seg more more' (literal, rest) bad = absurd literal
fit-throws decode ((c ∷ cs) ∷ ls) name seg more more' (literal, rest) bad =
    ground (arith, literal, same_self (c ∷ cs), fit-throws decode ls name seg more more' rest bad)

-- Parts that decode.
abbrev pub Decodes : (Text → Option Text) → List Text → Type 0
Decodes decode = All (λ s. (t : Text) × (decode s ≡ some t))

Body-cases : (b : Body) → ((text : Text) × (b ≡ parsed text)) ⊎ (b ≡ too_large) ⊎ (b ≡ invalid_json)
Body-cases (parsed text) = inl (text, refl)
Body-cases too_large = inr (inl refl)
Body-cases invalid_json = inr (inr refl)

module _ {ℓ} {H : Type ℓ} (decode : Text → Option Text) (is_json : Text → Bool)
    (run : H → Params → Text → Ending) (method : String) (path : Text) (chunks : List Text) where
  -- The request comes to this route, and to no route before it.
  pub record Reaches (before : List (Route H)) (r : Route H) : Type ℓ where
    pub passed : All (IsPassed decode method (segments [] path)) before
    pub candidate : is_candidate method (segments [] path) r ≡ true

  reached :
      (before : List (Route H)) (r : Route H) (after : List (Route H))
      → Reaches before r
      → match decode method (segments [] path) (before ++ r ∷ after)
        ≡ answer r
            (fit decode r.parts (segments [] path))
            (match decode method (segments [] path) after)
  reached before r after w =
      match-passed decode method (segments [] path) before r after w.passed w.candidate

  -- A body that is too large or no JSON is answered with 400, whatever the handler is.
  pub serve_bad_body :
      (before : List (Route H)) (r : Route H) (after : List (Route H)) (params : Params)
      → Reaches before r
      → fit decode r.parts (segments [] path) ≡ fits params
      → reads_body method r.raw ≡ true
      → ((text : Text) → (read_body is_json 1_000_000 chunks).1 ≢ parsed text)
      → serve decode is_json run (before ++ r ∷ after) method path chunks ≡ sends 400
  unfolding serve conclude
  serve_bad_body before r after params w fitted reads bad =
      elim (Body-cases (read_body is_json 1_000_000 chunks).1) [
        | inl (text, body) ↦ absurd (bad text body)
        | inr (inl body) ↦ ground (arith, reached before r after w, fitted, body, reads)
        | inr (inr body) ↦ ground (arith, reached before r after w, fitted, body, reads)
      ]

  -- A request whose path has, where the route that it comes to has a parameter, a part that cannot be
  -- decoded is answered by nothing: the error leaves the listener.
  pub serve-unhandled :
      (before : List (Route H)) (r : Route H) (after : List (Route H)) (literals : List Text)
      (name seg : Text) (more more' : List Text)
      → Reaches before r
      → r.parts ≡ literals ++ (b':' ∷ name) ∷ more
      → segments [] path ≡ literals ++ seg ∷ more'
      → All IsLiteral literals
      → decode seg ≡ none
      → serve decode is_json run (before ++ r ∷ after) method path chunks ≡ unhandled
  unfolding serve
  serve-unhandled before r after literals name seg more more' w parts segs literal bad =
      let thrown_here : fit decode r.parts (segments [] path) ≡ throws =
        ap (λ (xs : List Text). fit decode xs (segments [] path)) parts
        ∙ ap (λ (xs : List Text). fit decode (literals ++ (b':' ∷ name) ∷ more) xs) segs
        ∙ fit-throws decode literals name seg more more' literal bad in
      ground (arith, reached before r after w, thrown_here)
