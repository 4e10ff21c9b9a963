-- ===== src/ControlPlane/Heartbeat/Quiet.antt =====
-- What a heartbeat's loop starts, and when it has nothing to do.
use circuit_agent_cloud.Prelude.{
  ℕ, ◌≡◌, refl, subst, ap, inl, inr, true, false, String, ◌==◌, List, [], ◌∷◌, none, some, includes,
  lookup, arith, Bool-cases, eq_iff, eq_refl,
}
use circuit_agent_cloud.ControlPlane.State.{Agent, Distinct}
use circuit_agent_cloud.ControlPlane.Heartbeat.{Custody, resides, visit, reconcile, is_orphan}
use circuit_agent_cloud.ControlPlane.Heartbeat.Loop.{
  started_by, started_by-append, visit-other, visit-started, reconcile-absent,
}

-- An entry stands behind another one.
lookup-behind :
    (k : String) (a : Agent) (rest : List (String × Agent)) (id : String) (b : Agent)
    → lookup k rest ≡ none
    → lookup id rest ≡ some b
    → lookup id ((k, a) ∷ rest) ≡ some b
unfolding lookup
lookup-behind k a rest id b fresh found = elim (Bool-cases (k == id)) [
  | inl same ↦
      let gone = subst (λ (x : String). lookup x rest ≡ none) ((eq_iff k id).0 same) fresh in
      absurd (ground (arith, gone))
  | inr other ↦ ground arith
]

module _ (c : Custody) (node : String) (r : List String) where
  -- What is started is on the node.
  pub started-resides :
      (slots : ℕ) (agents : List (String × Agent)) (id : String)
      → Distinct agents
      → started_by (reconcile c node r slots agents).1 id ≡ true
      → is_orphan node (reconcile c node r slots agents).0 id ≡ false
  unfolding reconcile lookup is_orphan started_by
  started-resides slots [] id d s = absurd (ground arith)
  started-resides slots ((k, a) ∷ rest) id (fresh, d) s = elim (Bool-cases (k == id)) [
    | inl same ↦
        let e : k ≡ id = (eq_iff k id).0 same in
        let (v, left, issued) = visit c r slots k a in
        let (m, x, y) =
          reconcile-absent c node r left rest id
            (subst (λ (x : String). lookup x rest ≡ none) e fresh) in
        let (m', x', y') =
          reconcile-absent c node r slots rest id
            (subst (λ (x : String). lookup x rest ≡ none) e fresh) in
        let at : started_by issued k ≡ started_by issued id = ap (started_by issued) e in
        ground (
          arith,
          y,
          y',
          at,
          same,
          started_by-append issued (reconcile c node r left rest).1 id,
          visit-started c node r slots k a,
        )
    | inr other ↦
        let (v, left, issued) = visit c r slots k a in
        let (_, t) = visit-other c node r slots k a id other in
        ground (
          arith,
          t,
          started_by-append issued (reconcile c node r left rest).1 id,
          started-resides left rest id d,
          started-resides slots rest id d,
        )
  ]

  -- Where every agent of the node is served already, the loop assigns nothing and moves nothing.
  pub reconcile_quiet :
      (slots : ℕ) (agents : List (String × Agent))
      → Distinct agents
      → ((id : String) (a : Agent)
          → lookup id agents ≡ some a
          → resides node a ≡ true
          → a.desired ≡ includes id r)
      → ((reconcile c node r slots agents).1 ≡ [])
        × ((id : String)
            → is_orphan node (reconcile c node r slots agents).0 id ≡ is_orphan node agents id)
  unfolding reconcile lookup is_orphan visit
  reconcile_quiet slots [] d h = (refl, λ id. refl)
  reconcile_quiet slots ((k, a) ∷ rest) (fresh, d) h =
      let tail : (id : String) (b : Agent)
          → lookup id rest ≡ some b
          → resides node b ≡ true
          → b.desired ≡ includes id r =
        λ id b found home. h id b (lookup-behind k a rest id b fresh found) home in
      let (v, left, issued) = visit c r slots k a in
      let (q, o) = reconcile_quiet left rest d tail in
      let (q', o') = reconcile_quiet slots rest d tail in
      elim (Bool-cases (resides node a)) [
        | inr away ↦ (ground (arith, q'), λ id. ground (arith, o' id))
        | inl here ↦
            let served = h k a (ground (arith, eq_refl k)) here in
            (ground (arith, q, served), λ id. ground (arith, o id, served))
      ]
