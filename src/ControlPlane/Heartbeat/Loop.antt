-- ===== src/ControlPlane/Heartbeat/Loop.antt =====
-- The loop of the heartbeat over the agents of a node.
use circuit_agent_cloud.Prelude.{
  ℕ, ◌+◌, ◌≤◌, ◌≡◌, refl, subst, inl, inr, Bool, true, false, not, ◌&&◌, ◌||◌, String, ◌==◌, List,
  [], ◌∷◌, ◌++◌, none, some, includes, any, lookup, arith, Bool-cases, eq_iff, eq_refl,
}
use circuit_agent_cloud.ControlPlane.State.{Agent, Distinct}
use circuit_agent_cloud.ControlPlane.Heartbeat.{
  Custody, Assignment, starts, stops, resides, ensure_session, visit, reconcile,
}

is_start : String → Assignment → Bool
is_start id (starts k owner runtime block) = k == id
is_start id (stops k) = false

is_stop : String → Assignment → Bool
is_stop id (starts k owner runtime block) = false
is_stop id (stops k) = k == id

-- Is this agent started, or stopped, by the assignments?
unfoldable pub started_by : List Assignment → String → Bool
unfolding is_start
started_by issued id = any (is_start id) issued

unfoldable pub stopped_by : List Assignment → String → Bool
unfolding is_stop
stopped_by issued id = any (is_stop id) issued

abbrev pub one_start : Assignment → ℕ
one_start (starts k owner runtime block) = 1
one_start (stops k) = 0

unfoldable pub count_starts : List Assignment → ℕ
count_starts [] = 0
count_starts (x ∷ xs) = one_start x + count_starts xs

any-append {ℓ} :
    {A : Type ℓ} (p : A → Bool) (xs ys : List A) → any p (xs ++ ys) ≡ (any p xs || any p ys)
any-append p [] ys = refl
any-append p (x ∷ xs) ys = ground (arith, any-append p xs ys)

pub started_by-append :
    (xs ys : List Assignment) (id : String)
    → started_by (xs ++ ys) id ≡ (started_by xs id || started_by ys id)
unfolding started_by
started_by-append xs ys id = any-append (is_start id) xs ys

pub stopped_by-append :
    (xs ys : List Assignment) (id : String)
    → stopped_by (xs ++ ys) id ≡ (stopped_by xs id || stopped_by ys id)
unfolding stopped_by
stopped_by-append xs ys id = any-append (is_stop id) xs ys

pub count_starts-append :
    (xs ys : List Assignment) → count_starts (xs ++ ys) ≡ count_starts xs + count_starts ys
unfolding count_starts
count_starts-append [] ys = omega arith
count_starts-append (x ∷ xs) ys = omega (arith, count_starts-append xs ys)

pub ensure_session-node :
    (c : Custody) (id : String) (a : Agent) → (ensure_session c id a).node_id ≡ a.node_id
unfolding ensure_session
ensure_session-node c id a = ground arith

ensure_session-desired :
    (c : Custody) (id : String) (a : Agent) → (ensure_session c id a).desired ≡ a.desired
unfolding ensure_session
ensure_session-desired c id a = ground arith

module _ (c : Custody) (node : String) (r : List String) where
  visit_slots :
      (slots : ℕ) (id : String) (a : Agent)
      → count_starts (visit c r slots id a).2 + (visit c r slots id a).1 ≤ slots
  unfolding visit count_starts
  visit_slots slots id a = ground arith

  pub reconcile_slots :
      (slots : ℕ) (agents : List (String × Agent))
      → count_starts (reconcile c node r slots agents).1 ≤ slots
  unfolding reconcile count_starts
  reconcile_slots slots [] = omega arith
  reconcile_slots slots ((id, a) ∷ rest) =
      let (a', left, issued) = visit c r slots id a in
      ground (
        arith,
        visit_slots slots id a,
        count_starts-append issued (reconcile c node r left rest).1,
        reconcile_slots left rest,
        reconcile_slots slots rest,
      )

  -- The branches assign nothing about other agents.
  pub visit-other :
      (slots : ℕ) (k : String) (a : Agent) (id : String)
      → (k == id) ≡ false
      → (stopped_by (visit c r slots k a).2 id ≡ false)
        × (started_by (visit c r slots k a).2 id ≡ false)
  unfolding visit stopped_by started_by
  visit-other slots k a id other = (ground arith, ground arith)

  -- What the branches assign is what the agent lacks, where it stays on the node.
  visit_self :
      (slots : ℕ) (k : String) (a : Agent)
      → resides node (visit c r slots k a).0 ≡ true
      → (visit c r slots k a).0.desired ≡ (
          (includes k r && not (stopped_by (visit c r slots k a).2 k))
          || started_by (visit c r slots k a).2 k)
  unfolding visit stopped_by started_by
  visit_self slots k a home = ground (arith, ensure_session-desired c k a, eq_refl k)

  pub visit-started :
      (slots : ℕ) (k : String) (a : Agent)
      → resides node a ≡ true
      → started_by (visit c r slots k a).2 k ≡ true
      → resides node (visit c r slots k a).0 ≡ true
  unfolding visit started_by
  visit-started slots k a home s = ground (arith, ensure_session-node c k a)

  pub reconcile-absent :
      (slots : ℕ) (agents : List (String × Agent)) (id : String)
      → lookup id agents ≡ none
      → (lookup id (reconcile c node r slots agents).0 ≡ none)
        × (stopped_by (reconcile c node r slots agents).1 id ≡ false)
        × (started_by (reconcile c node r slots agents).1 id ≡ false)
  unfolding reconcile lookup stopped_by started_by
  reconcile-absent slots [] id h = (refl, refl, refl)
  reconcile-absent slots ((k, a) ∷ rest) id h =
      let (a', left, issued) = visit c r slots k a in
      let other : (k == id) ≡ false = ground arith in
      let (s, t) = visit-other slots k a id other in
      let (m, x, y) = reconcile-absent left rest id (ground arith) in
      let (m', x', y') = reconcile-absent slots rest id (ground arith) in
      (
        ground (arith, m, m'),
        ground (arith, s, x, x', stopped_by-append issued (reconcile c node r left rest).1 id),
        ground (arith, t, y, y', started_by-append issued (reconcile c node r left rest).1 id),
      )

  -- An agent of the node should run exactly if it is running and not stopped, or is started.
  abbrev pub Served : ℕ → List (String × Agent) → String → Agent → Type 0
  Served slots agents id a' =
      lookup id (reconcile c node r slots agents).0 ≡ some a'
      → resides node a' ≡ true
      → a'.desired ≡ (
          (includes id r && not (stopped_by (reconcile c node r slots agents).1 id))
          || started_by (reconcile c node r slots agents).1 id)

  first-Served :
      (slots : ℕ) (k : String) (a a' : Agent) (rest : List (String × Agent))
      → lookup k rest ≡ none
      → Served slots ((k, a) ∷ rest) k a'
  unfolding reconcile lookup
  first-Served slots k a a' rest fresh found home =
      let (v, left, issued) = visit c r slots k a in
      let (m, x, y) = reconcile-absent left rest k fresh in
      elim (Bool-cases (resides node a)) [
        | inr away ↦ absurd (ground (arith, eq_refl k))
        | inl here ↦
            let same : v ≡ a' = ground (arith, eq_refl k) in
            let own = visit_self slots k a (ground (arith, same)) in
            ground (
              arith,
              same,
              own,
              x,
              y,
              stopped_by-append issued (reconcile c node r left rest).1 k,
              started_by-append issued (reconcile c node r left rest).1 k,
            )
      ]

  pub reconcile-Served :
      (slots : ℕ) (agents : List (String × Agent)) (id : String) (a' : Agent)
      → Distinct agents
      → Served slots agents id a'
  unfolding reconcile lookup
  reconcile-Served slots [] id a' d found home = absurd (ground arith)
  reconcile-Served slots ((k, a) ∷ rest) id a' (fresh, d) found home = elim (Bool-cases (k == id)) [
    | inl same ↦
        let e : k ≡ id = (eq_iff k id).0 same in
        subst (λ (x : String). Served slots ((k, a) ∷ rest) x a') e
          (first-Served slots k a a' rest fresh) found home
    | inr other ↦
        let (v, left, issued) = visit c r slots k a in
        let (s, t) = visit-other slots k a id other in
        elim (Bool-cases (resides node a)) [
          | inr away ↦ ground (arith, reconcile-Served slots rest id a' d (ground arith) home)
          | inl here ↦ ground (
            arith,
            s,
            t,
            reconcile-Served left rest id a' d (ground arith) home,
            stopped_by-append issued (reconcile c node r left rest).1 id,
            started_by-append issued (reconcile c node r left rest).1 id,
          )
        ]
  ]
