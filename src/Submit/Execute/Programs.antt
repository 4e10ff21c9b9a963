-- ===== src/Submit/Execute/Programs.antt =====
-- What `executeUltraSwap` of signer/submit.js can have signed, over the bytes of a transaction.
use circuit_agent_cloud.Prelude.{
  same, ℕ, ◌<◌, ◌≡◌, ◌≢◌, refl, subst, sym, ap, ◌∙◌, ◌⊎◌, inl, inr, true, String, List, [], ◌∷◌,
  Option, none, some, length, map, get_elem?, any, All, arith, Option-cases, Bool-cases,
}
use circuit_agent_cloud.Base58.{base58, codes, base58decode}
use circuit_agent_cloud.Proto.Value.{Convert}
use circuit_agent_cloud.Signer.State.{ok}
use circuit_agent_cloud.Signer.Trade.{Pending}
use circuit_agent_cloud.Submit.Inspect.{
  index_of_text, resolve, Program, refused, allowed, unresolved, Inspection,
}
use circuit_agent_cloud.Submit.Transaction.{
  Instruction, Transaction, collect, unresolved_of, analysis, signed, print_message,
  print_transaction, IsTransaction,
}
use circuit_agent_cloud.Submit.Transaction.Readback.{inspect_transaction-print_transaction}
use circuit_agent_cloud.Submit.Transaction.Signing.{sign_serialized_tx-print_transaction}
use circuit_agent_cloud.Submit.Execute.{
  Broker, Order, Executed, Swap, amount_of, request_of, execute_ultra_swap,
}
use circuit_agent_cloud.Submit.Execute.Landing.{>>=-eq-ok, Sent, execute_ultra_swap-Landed}

-- The program of an instruction stands behind the static keys, or on the list.
abbrev pub IsAllowed : List (List ℕ) → List (List ℕ) → Instruction → Type 0
IsAllowed allowlist keys i =
    (get_elem? keys i.program ≡ none)
    ⊎ ((program : List ℕ) × (get_elem? keys i.program ≡ some program)
        × (any (λ t. same t program) allowlist ≡ true))

resolve-IsAllowed :
    (allowlist keys : List (List ℕ)) (i : Instruction)
    → IsAllowed allowlist keys i ⊎ (resolve allowlist keys (some i.program) ≡ refused)
unfolding resolve
resolve-IsAllowed allowlist keys i = elim (Option-cases (get_elem? keys i.program)) [
  | inl gone ↦ inl (inl gone)
  | inr (program, found) ↦ elim (Bool-cases (any (λ t. same t program) allowlist)) [
    | inl on ↦ inl (inr (program, found, on))
    | inr off ↦ inr (ground (arith, found, off))
  ]
]

collect-eq-some :
    (program : Program) (i : ℕ) (rest : Option (List (Option ℕ))) (found : List (Option ℕ))
    → collect program i rest ≡ some found
    → (program ≢ refused) × (r : List (Option ℕ)) × (rest ≡ some r)
collect-eq-some refused i rest found h = cc
collect-eq-some allowed i rest found h = (λ e. cc, found, h)
collect-eq-some unresolved i none found h = cc
collect-eq-some unresolved i (some r) found h = (λ e. cc, r, refl)

unresolved_of-IsAllowed :
    (allowlist keys : List (List ℕ)) (is : List Instruction) (found : List (Option ℕ))
    → unresolved_of allowlist keys is ≡ some found
    → All (IsAllowed allowlist keys) is
unfolding unresolved_of
unresolved_of-IsAllowed allowlist keys [] found h = tt
unresolved_of-IsAllowed allowlist keys (i ∷ is) found h =
    let (kept, r, e) =
      collect-eq-some (resolve allowlist keys (some i.program)) i.program
        (unresolved_of allowlist keys is) found h in
    let rest = unresolved_of-IsAllowed allowlist keys is r e in
    elim (resolve-IsAllowed allowlist keys i) [
      | inl good ↦ (good, rest)
      | inr off ↦ absurd (kept off)
    ]

-- What the analysis of a transaction demands where it succeeds.
analysis-eq-ok :
    (allowlist : List (List ℕ)) (t : Transaction) (pubkey : List ℕ) (found : Inspection)
    → analysis allowlist t pubkey ≡ ok found
    → (index_of_text (base58 pubkey) (map base58 t.keys) ≡ some found.signer_index)
      × (found.signer_index < t.num_req_sig)
      × (unresolved_of allowlist (map base58 t.keys) t.instructions ≡ some found.unresolved)
unfolding analysis
analysis-eq-ok allowlist t pubkey found h = (ground arith, ground arith, ground arith)

module _ (broker : Broker) (c : Convert) (sign : List ℕ → List ℕ) (allowlist : List (List ℕ))
    (base : String) (size : (m : List ℕ) → length (sign m) ≡ 64) where
  -- What the broker executed, for the bytes of a transaction.
  Sent-signed :
      (pubkey : List ℕ) (o : Order) (t : Transaction)
      → IsTransaction t
      → Sent broker sign allowlist base pubkey o (print_transaction t)
      → (t' : Transaction) × (answer : Executed) × (signed sign t pubkey ≡ ok t')
        × (broker.execute base (print_transaction t') o.request_id ≡ some answer)
  Sent-signed pubkey o t v w =
      let law = sign_serialized_tx-print_transaction sign t pubkey v (size (print_message t)) in
      let (t', is_signed, bytes) =
        >>=-eq-ok (signed sign t pubkey) (λ x. ok (print_transaction x)) (sym law ∙ w.signed) in
      let printed : print_transaction t' ≡ w.sent = cc in
      (t', w.answer, is_signed, ap (λ x. broker.execute base x o.request_id) printed ∙ w.executed)

  -- If a swap lands whose order carries the bytes of a transaction whose parts have the sizes of the
  -- format, then the wallet's key is a static key among the required signers, every instruction runs a
  -- program that stands behind the static keys or on the allow list, and what the broker executed is
  -- the same transaction with the agent's signature in its slot. Signatures have 64 bytes.
  pub execute_ultra_swap-programs :
      (p : Pending) (s : Swap) (amount : ℕ) (o : Order) (t : Transaction)
      → IsTransaction t
      → amount_of c p ≡ ok amount
      → broker.order base (request_of p amount) ≡ some o
      → o.transaction ≡ some (print_transaction t)
      → execute_ultra_swap broker c sign allowlist base p ≡ ok s
      → (pubkey : List ℕ) × (i : ℕ) × (t' : Transaction) × (answer : Executed) × (base58decode
            (codes p.address)
          ≡ some pubkey)
        × (index_of_text (base58 pubkey) (map base58 t.keys) ≡ some i)
        × (i < t.num_req_sig)
        × All (IsAllowed allowlist (map base58 t.keys)) t.instructions
        × (signed sign t pubkey ≡ ok t')
        × (broker.execute base (print_transaction t') o.request_id ≡ some answer)
  execute_ultra_swap-programs p s amount o t v priced ordered carries h =
      let l = execute_ultra_swap-Landed broker c sign allowlist base p s h in
      let same_amount : l.amount ≡ amount = ground (arith, l.priced) in
      let same_order : l.given ≡ o = ground (arith, same_amount, l.ordered) in
      let same_bytes : l.raw ≡ print_transaction t = ground (arith, same_order, l.carries) in
      let way =
        subst (λ x. Sent broker sign allowlist base l.pubkey x (print_transaction t)) same_order
          (subst (Sent broker sign allowlist base l.pubkey l.given) same_bytes l.on_the_way) in
      let (t', answer, is_signed, executed) = Sent-signed l.pubkey o t v way in
      let read =
        sym (inspect_transaction-print_transaction allowlist t l.pubkey v) ∙ way.inspected in
      let (mine, below, found) = analysis-eq-ok allowlist t l.pubkey way.found read in
      (
        l.pubkey,
        way.found.signer_index,
        t',
        answer,
        l.is_key,
        mine,
        below,
        unresolved_of-IsAllowed allowlist (map base58 t.keys) t.instructions way.found.unresolved
            found,
        is_signed,
        executed,
      )
