-- ===== src/ControlPlane/Quota/Laws.antt =====
-- The rate limit and the size of a log.
use circuit_agent_cloud.Prelude.{
  ℕ, zero, suc, ◌-◌, ◌+◌, ◌≤◌, ◌<◌, ◌≡◌, ◌≢◌, sym, subst, Bool, true, String, List, [], ◌∷◌, ◌++◌,
  some, length, drop, length-append, keep, All, insert, lookup-insert, lookup-insert_self, inl, inr,
  arith, eq_iff, Bool-cases, ap, min,
}
use circuit_agent_cloud.ControlPlane.Quota.{
  Hits, hits_of, is_recent, rate_limit, append_logs, log_ring,
}

keep-All : {A : Type 0} (f : A → Bool) (xs : List A) → All (λ x. f x ≡ true) (keep f xs)
keep-All f [] = tt
keep-All f (x ∷ xs) = elim (Bool-cases (f x)) [
  | inl fits ↦ rw fits (fits, keep-All f xs)
  | inr unfit ↦ rw unfit (keep-All f xs)
]

All-append : {A : Type 0} (P : A → Type 0) (xs ys : List A) → All P xs → All P ys → All P (xs ++ ys)
All-append P [] ys a b = b
All-append P (x ∷ xs) ys (p, a) b = (p, All-append P xs ys a b)

-- When a limit is set and a request of an owner passes: the owner's recorded requests, this one
-- included, are all of the last minute and at most the limit, and the other owners' are as before.
pub rate_limit-within :
    (limit t : ℕ) (owner : String) (hits hits' : Hits)
    → 0 < limit
    → rate_limit limit t (some owner) hits ≡ some hits'
    → (length (hits_of owner hits') ≤ limit)
      × All (λ x. is_recent t x ≡ true) (hits_of owner hits')
      × ((other : String) → other ≢ owner → hits_of other hits' ≡ hits_of other hits)
unfolding rate_limit
rate_limit-within limit t owner hits hits' set h =
    let recent : List ℕ = keep (is_recent t) (hits_of owner hits) in
    let room : length recent < limit = ground arith in
    let after : insert owner (recent ++ t ∷ []) hits ≡ hits' = ground arith in
    let now_on_file : hits_of owner hits' ≡ recent ++ t ∷ [] =
      subst (λ w. hits_of owner w ≡ recent ++ t ∷ []) after
        (ground (arith, lookup-insert_self owner (recent ++ t ∷ []) hits)) in
    (
      omega (arith, ap (λ (w : List ℕ). length w) now_on_file, length-append recent (t ∷ []), room),
      subst (All (λ x. is_recent t x ≡ true)) (sym now_on_file) (
          All-append (λ x. is_recent t x ≡ true) recent (t ∷ [])
            (keep-All (is_recent t) (hits_of owner hits)) (ground arith, tt)),
      λ other distinct.
          subst (λ w. hits_of other w ≡ hits_of other hits) after
            (ground (arith, eq_iff owner other, lookup-insert owner other (recent ++ t ∷ []) hits)),
    )

length-drop : {A : Type 0} (n : ℕ) (xs : List A) → length (drop n xs) ≡ length xs - n
unfolding drop
length-drop zero xs = omega arith
length-drop (suc n) [] = omega arith
length-drop (suc n) (x ∷ xs) = omega (arith, length-drop n xs)

-- However many lines a node reports, an agent's log then has as many lines as before and the new ones
-- together, but at most 500.
pub length-append_logs :
    (buf lines : List String)
    → length (append_logs buf lines) ≡ min (length buf + length lines) log_ring
unfolding append_logs
length-append_logs buf lines =
    omega (
      arith,
      length-append buf lines,
      length-drop (length (buf ++ lines) - log_ring) (buf ++ lines),
    )
