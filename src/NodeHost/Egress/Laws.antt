-- ===== src/NodeHost/Egress/Laws.antt =====
-- Where the egress proxy lets an agent go.
use circuit_agent_cloud.Prelude.{
  ℕ, ◌≡◌, refl, ◌⊎◌, inl, inr, Bool, true, false, String, List, [], ◌∷◌, ◌++◌, Option, some, map,
  any, same, includes, eq_refl, arith, Bool-cases, Option-cases,
}
use circuit_agent_cloud.NodeHost.Egress.{
  Net, is_private_ip, norm_host, assert_public_host, egress_decision, connects, connect, add_host,
  resolve_egress_hosts,
}

-- A host that passed has at least one address, and the first one is not private.
assert_public_host-first :
    (net : Net) (h : List ℕ) (addresses : List (List ℕ))
    → assert_public_host net h ≡ some addresses
    → (a : List ℕ) × (rest : List (List ℕ)) × (addresses ≡ a ∷ rest) × (is_private_ip net a ≡ false)
unfolding assert_public_host
assert_public_host-first net h [] e = absurd (ground arith)
assert_public_host-first net h (a ∷ rest) e = (a, rest, refl, ground arith)

any-add_last :
    (q : List ℕ → Bool) (h : List ℕ) (xs : List (List ℕ))
    → any q (map norm_host (xs ++ h ∷ [])) ≡ true
    → (any q (map norm_host xs) ≡ true) ⊎ (q (norm_host h) ≡ true)
any-add_last q h [] f = inr (ground arith)
any-add_last q h (x ∷ xs) f = elim (Bool-cases (q (norm_host x))) [
  | inl found ↦ inl (ground arith)
  | inr absent ↦ elim (any-add_last q h xs (ground arith)) [
    | inl later ↦ inl (ground arith)
    | inr it ↦ inr it
  ]
]

add_host-cases :
    (q : List ℕ → Bool) (h : List ℕ) (out : List (List ℕ))
    → any q (map norm_host (add_host h out)) ≡ true
    → (any q (map norm_host out) ≡ true) ⊎ (q (norm_host h) ≡ true)
unfolding add_host
add_host-cases q h out e = elim (Bool-cases (any (same h) out)) [
  | inl there ↦ inl (ground arith)
  | inr fresh ↦ any-add_last q h out (ground arith)
]

module _ (endpoints : String → Option String) (hostname : String → Option (List ℕ)) where
  -- The class is named, and the node has an endpoint for it whose host passes the test.
  abbrev pub FromClass : List String → (List ℕ → Bool) → Type 0
  FromClass classes q =
      (c : String) × (url : String) × (h : List ℕ) × (includes c classes ≡ true)
      × (endpoints c ≡ some url)
      × (hostname url ≡ some h)
      × (q (norm_host (norm_host h)) ≡ true)

  later-FromClass :
      (c : String) (classes : List String) (q : List ℕ → Bool)
      → FromClass classes q
      → FromClass (c ∷ classes) q
  later-FromClass c classes q (d, url, h, there, e, f, g) =
      (d, url, h, ground (arith, there), e, f, g)

  resolve_egress_hosts-FromClass :
      (classes : List String) (q : List ℕ → Bool) (out : List (List ℕ))
      → any q (map norm_host (resolve_egress_hosts endpoints hostname classes out)) ≡ true
      → (any q (map norm_host out) ≡ true) ⊎ FromClass classes q
  unfolding resolve_egress_hosts
  resolve_egress_hosts-FromClass [] q out e = inl e
  resolve_egress_hosts-FromClass (c ∷ classes) q out e = elim (Option-cases (endpoints c)) [
    | inl off ↦ elim (resolve_egress_hosts-FromClass classes q out (ground (arith, e))) [
      | inl before ↦ inl before
      | inr from ↦ inr (later-FromClass c classes q from)
    ]
    | inr (url, on) ↦ elim (Option-cases (hostname url)) [
      | inl malformed ↦ elim (resolve_egress_hosts-FromClass classes q out (ground (arith, e))) [
        | inl before ↦ inl before
        | inr from ↦ inr (later-FromClass c classes q from)
      ]
      | inr (h, parsed) ↦
          elim (resolve_egress_hosts-FromClass classes q (add_host (norm_host h) out)
            (ground (arith, e))) [
              | inr from ↦ inr (later-FromClass c classes q from)
              | inl added ↦ elim (add_host-cases q (norm_host h) out added) [
                | inl before ↦ inl before
                | inr it ↦ inr (c, url, h, ground (arith, eq_refl c), on, parsed, it)
              ]
            ]
    ]
  ]

  -- If the proxy of an agent connects, it is on port 443, to an address that is given and not private;
  -- and the host that was asked for, normalised, is the host of the node's endpoint for one of the
  -- classes that the agent's manifest names, normalised twice.
  pub connect-FromClass :
      (net : Net) (classes : List String) (host : List ℕ) (port : Option ℕ) (p : ℕ)
      (ip : Option (List ℕ))
      → connect net (resolve_egress_hosts endpoints hostname classes []) (some (host, port))
        ≡ connects p ip
      → (p ≡ 443)
        × ((a : List ℕ) × (ip ≡ some a) × (is_private_ip net a ≡ false))
        × FromClass classes (same (norm_host host))
  unfolding connect egress_decision
  connect-FromClass net classes host port p ip h =
      elim (Option-cases (assert_public_host net (norm_host host))) [
        | inl blocked ↦ absurd (ground arith)
        | inr (addresses, found) ↦
            let (a, rest, e, public) =
              assert_public_host-first net (norm_host host) addresses found in
            (
              ground arith,
              (a, ground (arith, found, e), public),
              elim (resolve_egress_hosts-FromClass classes (same (norm_host host)) []
                  (ground arith)) [ inl nothing ↦ absurd (ground arith) | inr from ↦ from ],
            )
      ]
