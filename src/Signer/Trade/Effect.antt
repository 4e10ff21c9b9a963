-- ===== src/Signer/Trade/Effect.antt =====
-- What a trade request changes.
use circuit_agent_cloud.Prelude.{
  ℕ, ◌+◌, ◌<◌, some, ◌≡◌, refl, ◌⊎◌, inl, inr, String, ◌==◌, lookup, arith, Option-cases,
  Bool-cases, subst, sym, ◌∙◌,
}
use circuit_agent_cloud.Signer.State.{Result, ok, fail, Agent, Signer, Runtime}
use circuit_agent_cloud.Signer.Change.{
  Change, kept, updated, created, removed, Continues, Keyed, epoch_of,
}
use circuit_agent_cloud.Signer.Trade.{
  Body, Pending, put, roll_day, settle, trade, intent, finish, fence, gate, policy_checks,
  amount_checks, holds_session, refused,
}

Continues-refl : (a : Agent) → Continues a a
Continues-refl a = record { same_id = refl; same_address = refl; no_older = omega arith }

roll_day-Continues : (now : ℕ) (a : Agent) → Continues a (roll_day now a)
unfolding roll_day
roll_day-Continues now a = ground arith

-- Writing an agent back under its id.
put-Change :
    {gone : String → Type 0} (rt : Runtime) (s : Signer) (a a' : Agent)
    → lookup a.id s.agents ≡ some a
    → Continues a a'
    → Change rt gone s (put s a')
put-Change rt s a a' found goes_on = updated a'.id a a' (rw goes_on.same_id found) goes_on refl refl

settle-put :
    (rt : Runtime) (now : ℕ) (s : Signer) (a : Agent) (b : Body) (size : ℕ)
    → ((settle rt now s a b size).0 ≡ put s a)
      ⊎ ((settle rt now s a b size).0
          ≡ put s (record a { day_spent_sol = a.day_spent_sol + size; last_trade_ts = now }))
unfolding settle
settle-put rt now s a b size = ground arith

settle-Change :
    {gone : String → Type 0} (rt : Runtime) (now : ℕ) (s : Signer) (a a' : Agent) (b : Body)
    (size : ℕ)
    → lookup a.id s.agents ≡ some a
    → Continues a a'
    → Change rt gone s (settle rt now s a' b size).0
settle-Change rt now s a a' b size found goes_on = elim (settle-put rt now s a' b size) [
  | inl e ↦ rw e (put-Change rt s a a' found goes_on)
  | inr e ↦ rw e (
      put-Change rt s a (record a' { day_spent_sol = a'.day_spent_sol + size; last_trade_ts = now })
        found
        (record {
          same_id = goes_on.same_id;
          same_address = goes_on.same_address;
          no_older = goes_on.no_older;
        }))
]

pub Result-cases {ℓ} :
    {A : Type ℓ} (r : Result A)
    → ((a : A) × (r ≡ ok a)) ⊎ ((status : ℕ) × (code : String) × (r ≡ fail status code))
Result-cases (ok a) = inl (a, refl)
Result-cases (fail status code) = inr (status, code, refl)

pub trade-Change :
    {gone : String → Type 0} (rt : Runtime) (now : ℕ) (s : Signer) (a : Agent) (b : Body)
    → lookup a.id s.agents ≡ some a
    → Change rt gone s (trade rt now s a b).0
unfolding trade
trade-Change rt now s a b found = elim (Result-cases (policy_checks now a b.intent)) [
  | inr (status, code, e) ↦ rw (e, trade) (kept refl refl)
  | inl (_, e) ↦ elim (Result-cases (amount_checks rt (roll_day now a) b)) [
    | inr (status, code, f) ↦
        rw (e, f, trade) (put-Change rt s a (roll_day now a) found (roll_day-Continues now a))
    | inl (size, f) ↦
        rw (e, f, trade)
          (settle-Change rt now s a (roll_day now a) b size found (roll_day-Continues now a))
  ]
]

-- A step that touches only the nonces first makes no difference to the change.
Change-after_nonces :
    {gone : String → Type 0} (rt : Runtime) (s t u : Signer)
    → t.agents ≡ s.agents
    → t.keys ≡ s.keys
    → Change rt gone t u
    → Change rt gone s u
Change-after_nonces rt s t u ea ek (kept p q) = kept (p ∙ ea) (q ∙ ek)
Change-after_nonces rt s t u ea ek (updated id a a' found goes_on p q) =
    updated id a a' (rw (← ea) found) goes_on (rw (← ea) p) (q ∙ ek)
Change-after_nonces rt s t u ea ek (created id a seed free same_id address p q) =
    created id a seed (rw (← ea) free) same_id address (rw (← ea) p) (rw (← ek) q)
Change-after_nonces rt s t u ea ek (removed id g p q) = removed id g (rw (← ea) p) (rw (← ek) q)

found_by_own_id :
    (s : Signer)
    → Keyed s
    → (id : String) (a : Agent) → lookup id s.agents ≡ some a
    → lookup a.id s.agents ≡ some a
found_by_own_id s keyed id a e = subst (λ k. lookup k s.agents ≡ some a) (sym (keyed id a e)) e

pub intent-Change :
    {gone : String → Type 0} (rt : Runtime) (now : ℕ) (id : String) (b : Body) (s : Signer)
    → Keyed s
    → Change rt gone s (intent rt now id b s).0
unfolding intent
intent-Change rt now id b s keyed = elim (Option-cases (lookup id s.agents)) [
  | inl e ↦ rw (e, intent) (kept refl refl)
  | inr (a, e) ↦ elim (Result-cases (fence rt a b)) [
    | inr (status, code, f) ↦ rw (e, f, intent) (kept refl refl)
    | inl (_, f) ↦ elim (Result-cases (gate rt now a b s.nonces).0) [
      | inr (status, code, g) ↦ rw (e, f, g, intent) (kept refl refl)
      | inl (_, g) ↦
          let s' : Signer = record s { nonces = (gate rt now a b s.nonces).1 } in
          rw (e, f, g, intent)
            (Change-after_nonces rt s s' _ refl refl
              (trade-Change rt now s' a b (found_by_own_id s keyed id a e)))
    ]
  ]
]

pub finish-Change :
    {gone : String → Type 0} (rt : Runtime) (p : Pending) (sol_value : ℕ) (s : Signer)
    → Keyed s
    → Change rt gone s (finish p sol_value s)
unfolding finish
finish-Change rt p sol_value s keyed = elim (Option-cases (lookup p.agent_id s.agents)) [
  | inl e ↦ rw (e, finish) (kept refl refl)
  | inr (a, e) ↦ elim (Bool-cases (a.address == p.address)) [
    | inr other ↦ rw (e, other, finish) (kept refl refl)
    | inl same ↦
        rw (e, same, finish)
          (put-Change rt s a
            (record a { day_spent_sol = a.day_spent_sol + sol_value; last_trade_ts = p.ts })
            (found_by_own_id s keyed p.agent_id a e)
            (record { same_id = refl; same_address = refl; no_older = omega arith }))
  ]
]

fence_older :
    (rt : Runtime) (a : Agent) (b : Body) (e : ℕ)
    → b.epoch ≡ some e
    → e < epoch_of a
    → fence rt a b ≡ fail 403 "fenced"
unfolding fence holds_session
fence_older rt a b e sent older = ground arith

pub intent_older :
    (rt : Runtime) (now : ℕ) (id : String) (b : Body) (s : Signer) (a : Agent) (e : ℕ)
    → lookup id s.agents ≡ some a
    → b.epoch ≡ some e
    → e < epoch_of a
    → intent rt now id b s ≡ (s, refused 403 "fenced")
unfolding intent
intent_older rt now id b s a e found sent older =
    rw (found, fence_older rt a b e sent older, intent) refl
