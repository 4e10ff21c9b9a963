-- ===== src/Signer/Transfer/Laws.antt =====
-- What a withdrawal pays, to whom, and how the RPC fails over.
use circuit_agent_cloud.Prelude.{
  ℕ, zero, suc, ◌+◌, ◌-◌, ◌^◌, ◌≤◌, ◌<◌, ◌≡◌, refl, sym, ap, subst, ◌∙◌, ◌⊎◌, inl, inr, true,
  String, ◌==◌, List, [], ◌∷◌, ◌++◌, Option, none, some, All, arith, length, ltb, Bool-cases,
  Option-cases,
}
use circuit_agent_cloud.Base58.{codes, base58decode}
use circuit_agent_cloud.Signer.Transfer.Message.{
  compact_u16, build_sol_transfer_message, read_message, then_do,
}
use circuit_agent_cloud.Signer.Transfer.Readback.{read_message-build_sol_transfer_message}
use circuit_agent_cloud.Signer.Transfer.{
  Response, no_answer, http_error, rpc_error, answer, RpcResult, result, unavailable, method_error,
  is_transient, rpc, fee_reserve, plan_withdrawal, send, Withdrawal, withdrawn, Status, confirm,
  Chain, sign_transfer_tx, transfer_message, broadcast_signed, send_to_owner, withdraw_between,
  withdraw_sol, Plan, nothing_to_send, insufficient,
}

module _ {A : Type 0} where
  -- Endpoints that fail for availability, in front of one that answers, do not show: the answer comes
  -- through.
  pub rpc_failover :
      (bad : List (Response A)) (a : A) (rest : List (Response A))
      → All (λ r. is_transient r ≡ true) bad
      → rpc (bad ++ answer a ∷ rest) ≡ result a
  unfolding rpc is_transient
  rpc_failover [] a rest h = refl
  rpc_failover (answer b ∷ bad) a rest h = cc
  rpc_failover (no_answer ∷ bad) a rest h = rpc_failover bad a rest h.1
  rpc_failover (http_error s ∷ []) a rest h = ground arith
  rpc_failover (http_error s ∷ r ∷ bad) a rest h = ground (arith, rpc_failover (r ∷ bad) a rest h.1)
  rpc_failover (rpc_error c ∷ []) a rest h = ground arith
  rpc_failover (rpc_error c ∷ r ∷ bad) a rest h = ground (arith, rpc_failover (r ∷ bad) a rest h.1)

plan_withdrawal-send :
    (balance : ℕ) (requested : Option ℕ) (amount : ℕ)
    → plan_withdrawal balance requested ≡ send amount
    → (0 < amount)
      × (amount + fee_reserve ≤ balance)
      × ((requested ≡ some amount) ⊎ ((requested ≡ none) × (amount + fee_reserve ≡ balance)))
unfolding plan_withdrawal
plan_withdrawal-send balance none amount h = ground arith
plan_withdrawal-send balance (some n) amount h = ground arith

confirm-withdrawn :
    (n : ℕ) (polls : List (List (Response Status))) (done : Withdrawal) (to signature : String)
    (lamports remaining : ℕ)
    → confirm n polls done ≡ withdrawn to signature lamports remaining
    → done ≡ withdrawn to signature lamports remaining
unfolding confirm
confirm-withdrawn zero polls done to signature lamports remaining h = h
confirm-withdrawn (suc n) [] done to signature lamports remaining h = h
confirm-withdrawn (suc n) (p ∷ polls) done to signature lamports remaining h =
    ground (arith, confirm-withdrawn n polls done to signature lamports remaining)

RpcResult-cases {ℓ} :
    {A : Type ℓ} (r : RpcResult A)
    → ((a : A) × (r ≡ result a)) ⊎ ((r ≡ unavailable) ⊎ (r ≡ method_error))
RpcResult-cases (result a) = inl (a, refl)
RpcResult-cases unavailable = inr (inl refl)
RpcResult-cases method_error = inr (inr refl)

Plan-cases : (p : Plan) → ((n : ℕ) × (p ≡ send n)) ⊎ ((p ≡ nothing_to_send) ⊎ (p ≡ insufficient))
Plan-cases (send n) = inl (n, refl)
Plan-cases nothing_to_send = inr (inl refl)
Plan-cases insufficient = inr (inr refl)

built_lengths :
    (from to blockhash message : List ℕ) (amount : ℕ)
    → build_sol_transfer_message from to amount blockhash ≡ some message
    → (length from ≡ 32) × (length to ≡ 32) × (length blockhash ≡ 32)
unfolding build_sol_transfer_message
built_lengths from to blockhash message amount h = (ground arith, ground arith, ground arith)

-- What a reader of the format finds in the message.
abbrev pub Says : List ℕ → List ℕ → List ℕ → ℕ → Type 0
Says message from to amount =
    (blockhash : List ℕ) × (read_message message
      ≡ some (record { from = from; to = to; lamports = amount; blockhash = blockhash }))

built-Says :
    (from to blockhash message : List ℕ) (amount : ℕ)
    → build_sol_transfer_message from to amount blockhash ≡ some message
    → amount < 2 ^ 64
    → Says message from to amount
built-Says from to blockhash message amount built small =
    let (from_32, to_32, hash_32) = built_lengths from to blockhash message amount built in
    let reads =
      read_message-build_sol_transfer_message from to blockhash amount from_32 to_32 hash_32
        small in
    (blockhash, sym (ap (λ o. then_do o read_message) built) ∙ reads)

transfer_message-Says :
    (from to message : List ℕ) (amount : ℕ) (hash : String)
    → transfer_message from to amount hash ≡ some message
    → amount < 2 ^ 64
    → Says message from to amount
unfolding transfer_message
transfer_message-Says from to message amount hash built small =
    elim (Option-cases (base58decode (codes hash))) [
      | inl e ↦ absurd (ground arith)
      | inr (blockhash, e) ↦ built-Says from to blockhash message amount (ground arith) small
    ]

module _ (sign : List ℕ → List ℕ) (net : Chain) where
  -- A signed message that says what is asked was broadcast, under the signature of the reply.
  abbrev pub Broadcast : List ℕ → List ℕ → ℕ → String → Type 0
  Broadcast from to amount signature =
      (message : List ℕ) × Says message from to amount
      × (rpc (net.broadcast (compact_u16 1 ++ (sign message ++ message))) ≡ result signature)

  broadcast_signed-withdrawn :
      (owner : String) (balance amount : ℕ) (message : List ℕ) (to signature : String)
      (lamports remaining : ℕ)
      → broadcast_signed sign net owner balance amount message
        ≡ withdrawn to signature lamports remaining
      → (to ≡ owner)
        × (lamports ≡ amount)
        × (remaining ≡ balance - amount - fee_reserve)
        × (rpc (net.broadcast (compact_u16 1 ++ (sign message ++ message))) ≡ result signature)
  unfolding broadcast_signed sign_transfer_tx
  broadcast_signed-withdrawn owner balance amount message to signature lamports remaining h =
      elim (RpcResult-cases (rpc (net.broadcast (sign_transfer_tx sign message)))) [
        | inr (inl f) ↦ absurd (ground arith)
        | inr (inr f) ↦ absurd (ground arith)
        | inl (sig, f) ↦
            let done = withdrawn owner sig amount (balance - amount - fee_reserve) in
            let polled : confirm 15 net.polls done ≡ withdrawn to signature lamports remaining =
              ground arith in
            let same = confirm-withdrawn 15 net.polls done to signature lamports remaining polled in
            (
              ground (arith, same),
              ground (arith, same),
              ground (arith, same),
              f ∙ ap result (ground (arith, same)),
            )
      ]

  send_to_owner-withdrawn :
      (from to : List ℕ) (owner : String) (balance amount : ℕ) (named signature : String)
      (lamports remaining : ℕ)
      → send_to_owner sign net from to owner balance amount
        ≡ withdrawn named signature lamports remaining
      → (named ≡ owner)
        × (lamports ≡ amount)
        × (remaining ≡ balance - amount - fee_reserve)
        × Broadcast from to amount signature
  unfolding send_to_owner
  send_to_owner-withdrawn from to owner balance amount named signature lamports remaining h =
      elim (RpcResult-cases (rpc net.blockhash)) [
        | inr (inl e) ↦ absurd (ground arith)
        | inr (inr e) ↦ absurd (ground arith)
        | inl (hash, e) ↦ elim (Option-cases (transfer_message from to amount hash)) [
          | inl f ↦ absurd (ground arith)
          | inr (message, f) ↦ elim (Bool-cases (ltb amount (2 ^ 64))) [
            | inr large ↦ absurd (ground arith)
            | inl small ↦
                let sent : broadcast_signed sign net owner balance amount message
                    ≡ withdrawn named signature lamports remaining =
                  ground arith in
                let (label, same, rest, executed) =
                  broadcast_signed-withdrawn owner balance amount message named signature lamports
                    remaining sent in
                let says =
                  transfer_message-Says from to message amount hash f (ground (arith, small)) in
                (label, same, rest, (message, says, executed))
          ]
        ]
      ]

  -- What a withdrawal that succeeds did.
  abbrev pub Withdrew :
      List ℕ → List ℕ → String → String → Option ℕ → String → String → ℕ → ℕ → Type 0
  Withdrew from to address owner requested named signature lamports remaining =
      (named ≡ owner)
      × Broadcast from to lamports signature
      × ((balance : ℕ) × (rpc (net.balance address) ≡ result balance)
          × (0 < lamports)
          × (lamports + remaining + fee_reserve ≡ balance)
          × ((requested ≡ some lamports) ⊎ ((requested ≡ none) × (remaining ≡ 0))))

  withdraw_between-Withdrew :
      (from to : List ℕ) (address owner : String) (requested : Option ℕ) (named signature : String)
      (lamports remaining : ℕ)
      → withdraw_between sign net from to address owner requested
        ≡ withdrawn named signature lamports remaining
      → Withdrew from to address owner requested named signature lamports remaining
  unfolding withdraw_between
  withdraw_between-Withdrew from to address owner requested named signature lamports remaining h =
      elim (RpcResult-cases (rpc (net.balance address))) [
        | inr (inl e) ↦ absurd (ground arith)
        | inr (inr e) ↦ absurd (ground arith)
        | inl (balance, e) ↦ elim (Plan-cases (plan_withdrawal balance requested)) [
          | inr (inl p) ↦ absurd (ground arith)
          | inr (inr p) ↦ absurd (ground arith)
          | inl (amount, p) ↦
              let sent : send_to_owner sign net from to owner balance amount
                  ≡ withdrawn named signature lamports remaining =
                ground arith in
              let (label, same, rest, executed) =
                send_to_owner-withdrawn from to owner balance amount named signature lamports
                  remaining sent in
              let (positive, fits, asked) = plan_withdrawal-send balance requested amount p in
              (
                label,
                subst (λ n. Broadcast from to n signature) (sym same) executed,
                (balance, e, omega arith, omega arith, ground arith),
              )
        ]
      ]

  -- A withdrawal that succeeds broadcast one signed transaction, which was given the signature of the
  -- reply; a reader of the message format finds in its message a transfer of the amount of the reply
  -- from the key that the agent's address spells to the key that the owner's address spells. Amount,
  -- fee reserve and remainder add up to the balance that was read, and the amount is the one
  -- requested, or everything but the fee.
  pub withdraw_sol-withdrawn :
      (address owner : String) (requested : Option ℕ) (named signature : String)
      (lamports remaining : ℕ)
      → withdraw_sol sign net address owner requested ≡ withdrawn named signature lamports remaining
      → (from : List ℕ) × (to : List ℕ) × (base58decode (codes address) ≡ some from)
        × (base58decode (codes owner) ≡ some to)
        × Withdrew from to address owner requested named signature lamports remaining
  unfolding withdraw_sol
  withdraw_sol-withdrawn address owner requested named signature lamports remaining h =
      elim (Bool-cases (owner == "")) [
        | inl empty ↦ absurd (ground arith)
        | inr present ↦ elim (Option-cases (base58decode (codes address))) [
          | inl e ↦ absurd (ground arith)
          | inr (from, e) ↦ elim (Option-cases (base58decode (codes owner))) [
            | inl f ↦ absurd (ground arith)
            | inr (to, f) ↦
                let went : withdraw_between sign net from to address owner requested
                    ≡ withdrawn named signature lamports remaining =
                  ground arith in
                let did =
                  withdraw_between-Withdrew from to address owner requested named signature lamports
                    remaining went in
                (from, to, e, f, did)
          ]
        ]
      ]
