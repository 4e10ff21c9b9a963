-- ===== src/NodeHost/Host/Fits.antt =====
-- Assignments, one after the other, as the list of the agents that run sees them.
use circuit_agent_cloud.Prelude.{
  ℕ, suc, ◌+◌, ◌≤◌, ◌≡◌, refl, ap, sym, ◌∙◌, Bool, true, false, not, ◌&&◌, String, ◌==◌, List, [],
  ◌∷◌, ◌++◌, append_assoc, Option, includes, length, keep, max, length-append, arith, eq_iff,
  eq_refl,
}
use circuit_agent_cloud.ControlPlane.Heartbeat.{SignerBlock, Assignment, starts, stops}
use circuit_agent_cloud.ControlPlane.Heartbeat.Loop.{started_by, stopped_by, count_starts}
use circuit_agent_cloud.ControlPlane.Heartbeat.Laws.{started, obey, includes-append, includes-keep}
use circuit_agent_cloud.ControlPlane.Heartbeat.Apart.{StartsOnce}

keep-keep :
    (p q : String → Bool) (xs : List String) → keep p (keep q xs) ≡ keep (λ x. q x && p x) xs
keep-keep p q [] = refl
keep-keep p q (x ∷ xs) = ground (arith, keep-keep p q xs)

keep-append : (p : String → Bool) (xs ys : List String) → keep p (xs ++ ys) ≡ keep p xs ++ keep p ys
keep-append p [] ys = refl
keep-append p (x ∷ xs) ys = ground (arith, keep-append p xs ys)

keep_same :
    (p q : String → Bool) (xs : List String) → ((x : String) → p x ≡ q x) → keep p xs ≡ keep q xs
keep_same p q [] same = refl
keep_same p q (x ∷ xs) same = ground (arith, same x, keep_same p q xs same)

-- One assignment at a time.
pub obey-starts :
    (r : List String) (id : String) (owner runtime : Option String) (block : Option SignerBlock)
    (rest : List Assignment)
    → stopped_by rest id ≡ false
    → obey r (starts id owner runtime block ∷ rest) ≡ obey (r ++ id ∷ []) rest
unfolding obey started stopped_by
obey-starts r id owner runtime block rest stays =
    let p : String → Bool = λ x. not (stopped_by rest x) in
    let kept : keep p (id ∷ []) ≡ id ∷ [] = ground (arith, stays) in
    let e : keep p (r ++ id ∷ []) ≡ keep p r ++ id ∷ [] =
      keep-append p r (id ∷ []) ∙ ap (λ (xs : List String). keep p r ++ xs) kept in
    sym (
      ap (λ (xs : List String). xs ++ started rest) e
      ∙ append_assoc (keep p r) (id ∷ []) (started rest))

pub obey-stops :
    (r : List String) (id : String) (rest : List Assignment)
    → obey r (stops id ∷ rest) ≡ obey (keep (λ k. not (k == id)) r) rest
unfolding obey started stopped_by
obey-stops r id rest =
    let p : String → Bool = λ x. not (stopped_by rest x) in
    let here : String → Bool = λ x. not (x == id) in
    let e : keep (λ x. not (stopped_by (stops id ∷ rest) x)) r ≡ keep p (keep here r) =
      keep_same (λ x. not (stopped_by (stops id ∷ rest) x)) (λ x. here x && p x) r
        (λ x. ground (arith, eq_iff x id, eq_iff id x))
      ∙ sym (keep-keep p here r) in
    ap (λ (xs : List String). xs ++ started rest) e

length-keep : (p : String → Bool) (xs : List String) → length (keep p xs) ≤ length xs
length-keep p [] = omega arith
length-keep p (x ∷ xs) = ground (arith, length-keep p xs)

pub obey-nil : (r : List String) → obey r [] ≡ r
unfolding obey started stopped_by
obey-nil [] = refl
obey-nil (x ∷ xs) = ap (◌∷◌ x) (obey-nil xs)

-- The assignments start nothing that runs or that they stop, nothing twice, and not more than there
-- is room for.
pub record Fits (budget : ℕ) (issued : List Assignment) (r : List String) : Type 0 where
  pub once : StartsOnce issued
  pub fresh : (id : String) → started_by issued id ≡ true → includes id r ≡ false
  pub stays : (id : String) → started_by issued id ≡ true → stopped_by issued id ≡ false
  pub room : count_starts issued + length r ≤ max budget (length r)

pub Fits-starts :
    (budget : ℕ) (id : String) (owner runtime : Option String) (block : Option SignerBlock)
    (rest : List Assignment) (r : List String)
    → Fits budget (starts id owner runtime block ∷ rest) r
    → Fits budget rest (r ++ id ∷ [])
unfolding started_by stopped_by count_starts
Fits-starts budget id owner runtime block rest r f = record {
  once = f.once.1;
  fresh = λ k s. ground (arith, s, f.fresh k, f.once.0, eq_iff id k, includes-append k r (id ∷ []));
  stays = λ k s. ground (arith, s, f.stays k);
  room = ground (arith, f.room, length-append r (id ∷ []));
}

-- What it says of the first start.
module _ {budget : ℕ} {id : String} {owner runtime : Option String} {block : Option SignerBlock}
    {rest : List Assignment} {r : List String}
    (f : Fits budget (starts id owner runtime block ∷ rest) r) where
  pub starts-fresh : includes id r ≡ false
  unfolding started_by
  starts-fresh = f.fresh id (ground (arith, eq_refl id))

  pub starts-stays : stopped_by rest id ≡ false
  unfolding started_by stopped_by
  starts-stays = f.stays id (ground (arith, eq_refl id))

  pub starts-room : suc (length r) ≤ budget
  unfolding count_starts
  starts-room = ground (arith, f.room)

pub Fits-stops :
    (budget : ℕ) (id : String) (rest : List Assignment) (r : List String)
    → Fits budget (stops id ∷ rest) r
    → Fits budget rest (keep (λ k. not (k == id)) r)
unfolding started_by stopped_by count_starts
Fits-stops budget id rest r f = record {
  once = f.once;
  fresh = λ k s. ground (arith, s, f.fresh k, includes-keep (λ x. not (x == id)) k r);
  stays = λ k s. ground (arith, s, f.stays k);
  room = ground (arith, f.room, length-keep (λ x. not (x == id)) r);
}
