-- ===== src/NodeHost/Egress.antt =====
-- node-host/egress-proxy.js: which hosts an agent may reach, over texts as lists of code points, and
-- `assertPublicHost` of lib/netguard.js, which it asks. Sockets are left out: the proxy's answer to a
-- CONNECT request is the address that it connects to.
pub mod Laws
mod Tests
use circuit_agent_cloud.Prelude.{
  ℕ, zero, suc, ◌+◌, ◌-◌, Bool, true, false, not, ◌&&◌, ◌||◌, String, List, [], ◌∷◌, ◌++◌, Option,
  none, some, length, map, drop, any, same, leb, ltb, nat_eq, if◌then◌else◌,
}
use circuit_agent_cloud.Base58.{codes}
use circuit_agent_cloud.Netguard.{V4, V6, is_private_v4, is_private_v6}

pub data Ip : Type 0 where
  ip4 : V4 → Ip
  ip6 : V6 → Ip

-- The network of the runtime: `net.isIP` with what the ranges are checked on, the best effort of
-- `isPrivateIp` on a text that is no literal, and DNS (`none` for a lookup that throws).
pub record Net : Type 0 where
  pub parse : List ℕ → Option Ip
  pub unclean : List ℕ → Bool
  pub resolve_dns : List ℕ → Option (List (List ℕ))

unfoldable pub is_private : Ip → Bool
is_private (ip4 a) = is_private_v4 a
is_private (ip6 a) = is_private_v6 a

-- `isPrivateIp`.
unfoldable pub is_private_ip : Net → List ℕ → Bool
unfolding is_private
is_private_ip net ip = elim (net.parse ip) [ none ↦ net.unclean ip | some a ↦ is_private a ]

-- `text.replace(/^\[/, '')`, for one code, and the same at the end.
unfoldable pub strip_first : ℕ → List ℕ → List ℕ
strip_first c [] = []
strip_first c (x ∷ xs) = if nat_eq x c then xs else x ∷ xs

unfoldable pub strip_last : ℕ → List ℕ → List ℕ
strip_last c [] = []
strip_last c (x ∷ []) = if nat_eq x c then [] else x ∷ []
strip_last c (x ∷ (y ∷ ys)) = x ∷ strip_last c (y ∷ ys)

unfoldable pub strip_brackets : List ℕ → List ℕ
unfolding strip_first strip_last
strip_brackets h = strip_last b']' (strip_first b'[' h)

-- `toLowerCase`, on ASCII.
abbrev to_lower : ℕ → ℕ
to_lower c = if leb b'A' c && leb c b'Z' then c + 32 else c

-- `normHost`.
unfoldable pub norm_host : List ℕ → List ℕ
unfolding strip_brackets
norm_host h = strip_brackets (strip_last b'.' (map to_lower h))

-- `text.endsWith(end)`.
unfoldable pub ends_with : List ℕ → List ℕ → Bool
ends_with h end = leb (length end) (length h) && same (drop (length h - length end) h) end

unfoldable pub is_local_name : List ℕ → Bool
unfolding ends_with
is_local_name h =
    same h []
    || same h (codes "localhost")
    || ends_with h (codes ".localhost")
    || ends_with h (codes ".internal")
    || ends_with h (codes ".local")

-- `assertPublicHost`: the vetted addresses, or `none` where it throws.
unfoldable pub assert_public_host : Net → List ℕ → Option (List (List ℕ))
unfolding is_local_name strip_brackets is_private_ip
assert_public_host net host =
    let h : List ℕ = strip_brackets host in
    if is_local_name h then none else elim (net.parse h) [
      | some a ↦ if is_private_ip net h then none else some (h ∷ [])
      | none ↦ elim (net.resolve_dns h) [
        | none ↦ none
        | some addresses ↦
            if leb (length addresses) 0 || any (is_private_ip net) addresses
            then none
            else some addresses
      ]
    ]

pub data Decision : Type 0 where
  -- The address to connect to, which is missing only from an empty list.
  permit : Option (List ℕ) → Decision
  no_host not_allowlisted blocked : Decision

abbrev first_of : List (List ℕ) → Option (List ℕ)
first_of [] = none
first_of (a ∷ rest) = some a

-- `egressDecision`.
unfoldable pub egress_decision : Net → List (List ℕ) → List ℕ → Decision
unfolding norm_host assert_public_host
egress_decision net allowed host =
    let h : List ℕ = norm_host host in
    if same h []
    then no_host
    else if not (any (same h) (map norm_host allowed))
    then not_allowlisted
    else elim (assert_public_host net h) [
      | none ↦ blocked
      | some addresses ↦ permit (first_of addresses)
    ]

-- What becomes of a CONNECT request.
pub data Outcome : Type 0 where
  bad_request forbidden : Outcome
  connects : ℕ → Option (List ℕ) → Outcome

-- The handler of `connect`. The authority is what the URL parser makes of it: a host, and a port if
-- one is written.
unfoldable pub connect : Net → List (List ℕ) → Option (List ℕ × Option ℕ) → Outcome
unfolding egress_decision
connect net allowed none = bad_request
connect net allowed (some (host, port)) =
    let p : ℕ = elim port [ none ↦ 443 | some p ↦ p ] in
    if not (nat_eq p 443)
    then forbidden
    else elim (egress_decision net allowed host) [ permit ip ↦ connects p ip | _ ↦ forbidden ]

-- `out.add(host)` of a `Set`, in the order of insertion.
unfoldable pub add_host : List ℕ → List (List ℕ) → List (List ℕ)
add_host h out = if any (same h) out then out else out ++ h ∷ []

-- `resolveEgressHosts`: what the node has for each class, with the parser of its URLs.
unfoldable pub resolve_egress_hosts :
    (String → Option String)
    → (String → Option (List ℕ))
    → List String
    → List (List ℕ)
    → List (List ℕ)
unfolding norm_host add_host
resolve_egress_hosts endpoints hostname [] out = out
resolve_egress_hosts endpoints hostname (c ∷ classes) out =
    let next : List (List ℕ) = elim (endpoints c) [
      | none ↦ out
      | some url ↦ elim (hostname url) [ none ↦ out | some h ↦ add_host (norm_host h) out ]
    ] in
    resolve_egress_hosts endpoints hostname classes next
