-- ===== src/ControlPlane/Create/Laws.antt =====
-- What a created agent is, and two gaps between the control plane and the signer.
use circuit_agent_cloud.Prelude.{
  ℕ, ◌≡◌, ◌≢◌, refl, sym, ap, ◌∙◌, inl, inr, Bool, true, false, String, Option, none, some, lookup,
  lookup-insert_self, insert, arith, eq_iff, Option-cases,
}
use circuit_agent_cloud.Base58.{codes}
use circuit_agent_cloud.ControlPlane.State.{Manifest, BundleSpec, Agent, Cloud}
use circuit_agent_cloud.ControlPlane.Quota.{Hits}
use circuit_agent_cloud.ControlPlane.Access.{bound_to}
use circuit_agent_cloud.ControlPlane.Access.Laws.{Binds, bound_to_iff}
use circuit_agent_cloud.ControlPlane.Create.{
  NewAgent, drafted, either_owner, is_agent_id, manifest_id, choose_id, draft, prepare, provisioned,
  complete, signer_failed, hand_over,
}

-- A draft with a bundle: what was checked.
prepare-drafted :
    (verify : Manifest → Bool) (limit now : ℕ) (caller : Option String) (new_id : String)
    (n : NewAgent) (c : Cloud) (hits hits' : Hits) (a : Agent)
    → prepare verify limit now caller new_id n c hits ≡ (hits', drafted a)
    → (choose_id new_id c n.bundle ≡ some a.id)
      × (a.owner ≡ either_owner caller n.owner)
      × (a.bundle ≡ n.bundle)
      × (a.desired ≡ false)
      × (bound_to verify n.bundle a.owner a.id ≡ true)
unfolding prepare draft
prepare-drafted verify limit now caller new_id n c hits hits' a h =
    (ground arith, ground arith, ground arith, ground arith, ground arith)

-- The agent that a verified owner creates with a bundle is that owner's and is not to run yet, and its
-- bundle's manifest is signed, names the owner and the agent's id, and the hash and runtime of the
-- bundle; the id is new and well formed.
pub created_bundle :
    (verify : Manifest → Bool) (limit now : ℕ) (owner new_id : String) (n : NewAgent)
    (b : BundleSpec) (c : Cloud) (hits hits' : Hits) (a : Agent)
    → n.bundle ≡ some b
    → prepare verify limit now (some owner) new_id n c hits ≡ (hits', drafted a)
    → a.id ≢ ""
    → (a.owner ≡ some owner)
      × (a.desired ≡ false)
      × ((m : Manifest) × (b.manifest ≡ some m) × Binds verify b owner a.id m)
      × (lookup a.id c.agents ≡ none)
      × (is_agent_id (codes a.id) ≡ true)
unfolding choose_id manifest_id
created_bundle verify limit now owner new_id n b c hits hits' a with_bundle h named =
    let (chosen, owned, same, idle, bound) =
      prepare-drafted verify limit now (some owner) new_id n c hits hits' a h in
    let is_bound : bound_to verify (some b) (some owner) a.id ≡ true =
      ap (λ x. bound_to verify x (some owner) a.id) (sym with_bundle)
      ∙ (ap (λ x. bound_to verify n.bundle x a.id) (sym owned) ∙ bound) in
    let (m, e, p) = (bound_to_iff verify b owner a.id).0 is_bound in
    (
      owned,
      idle,
      (m, e, p),
      ground (arith, chosen, with_bundle, e, p.2, named, eq_iff m.agent_id ""),
      ground (arith, chosen, with_bundle, e, p.2, named, eq_iff m.agent_id ""),
    )

-- Two creations that run at once can take the same id: both pass the check before either has its
-- wallet, and the agent on record is then that of the second.
pub created_twice :
    (verify : Manifest → Bool) (limit now : ℕ) (first second : String) (new1 new2 : String)
    (n1 n2 : NewAgent) (c : Cloud) (hits hits1 hits2 : Hits) (a1 a2 : Agent)
    (address1 address2 : String) (paper1 paper2 : Bool)
    → prepare verify limit now (some first) new1 n1 c hits ≡ (hits1, drafted a1)
    → prepare verify limit now (some second) new2 n2 c hits1 ≡ (hits2, drafted a2)
    → a1.id ≡ a2.id
    → (a' : Agent) × (lookup a1.id
          (complete a2
            (provisioned address2 paper2)
            (complete a1 (provisioned address1 paper1) c).0).0.agents
        ≡ some a')
      × (a'.owner ≡ some second)
      × (a'.address ≡ some address2)
unfolding complete
created_twice verify limit now first second new1 new2 n1 n2 c hits hits1 hits2 a1 a2 address1
      address2 paper1 paper2 h1 h2 same =
    let (_, owned, _, _, _) =
      prepare-drafted verify limit now (some second) new2 n2 c hits1 hits2 a2 h2 in
    let a' : Agent = record a2 { address = some address2; paper = paper2 } in
    (
      a',
      ground (
        arith,
        same,
        lookup-insert_self a2.id a'
            (insert a1.id (record a1 { address = some address1; paper = paper1 }) c.agents),
      ),
      owned,
      refl,
    )

-- A change of owner of which the signer knows nothing: if the signer's call fails, the request fails,
-- but the agent on record has the new owner.
pub hand_over_half_done :
    (verify : Manifest → Bool) (strict : Bool) (caller : Option String) (id : String)
    (owner : Option String) (c c' : Cloud)
    → hand_over verify strict caller id owner false c ≡ (c', signer_failed)
    → (a' : Agent) × (lookup id c'.agents ≡ some a') × (a'.owner ≡ owner)
unfolding hand_over
hand_over_half_done verify strict caller id owner c c' h =
    elim (Option-cases (lookup id c.agents)) [
      | inl missing ↦ absurd (ground arith)
      | inr (a, found) ↦
          let a' : Agent = record a { owner = owner } in
          (a', ground (arith, found, lookup-insert_self id a' c.agents), refl)
    ]
