-- ===== src/Submit/Transaction/Loop.antt =====
-- The loop of `inspectTransaction` of signer/submit.js over printed instructions.
use circuit_agent_cloud.Prelude.{
  ℕ, ◌+◌, ◌≡◌, refl, ap, ◌∙◌, false, List, [], ◌∷◌, ◌++◌, Option, none, some, length, All,
  if◌then◌else◌, arith, ℤ, pos,
}
use circuit_agent_cloud.Signer.State.{Result, ok, fail}
use circuit_agent_cloud.Signer.Transfer.Message.{compact_u16}
use circuit_agent_cloud.Submit.Wire.{plus, head, byte_at, read_compact_u16}
use circuit_agent_cloud.Submit.Wire.Laws.{Stands, Stands-behind, read_compact_u16-Stands}
use circuit_agent_cloud.Submit.Inspect.{
  resolve, overruns, walk, Program, refused, allowed, unresolved, judge,
}
use circuit_agent_cloud.Submit.Transaction.{
  Instruction, print_instructions, IsInstruction, collect, unresolved_of,
}

abbrev pub from_option : Option (List (Option ℕ)) → Result (List (Option ℕ))
from_option none = fail 403 "tx-rejected"
from_option (some found) = ok found

judge-from_option :
    (program : Program) (i : ℕ) (rest : Option (List (Option ℕ)))
    → judge program (some i) (from_option rest) ≡ from_option (collect program i rest)
judge-from_option refused i rest = refl
judge-from_option allowed i rest = refl
judge-from_option unresolved i none = refl
judge-from_option unresolved i (some found) = refl

overruns-Stands : (m : List ℕ) (p : ℕ) (s : List ℕ) → Stands m p s → overruns m (pos p) ≡ false
unfolding overruns
overruns-Stands m p s (e, l) = ground arith

-- One round of the loop, by its reads.
abbrev round :
    (List (List ℕ)) → List (List ℕ) → List ℕ → ℕ → Option ℕ → ℤ × ℤ → Result (List (Option ℕ))
round allowlist keys m n index content =
    let next : ℤ = plus content.1 content.0 in
    if overruns m next
    then fail 403 "tx-rejected"
    else judge (resolve allowlist keys index) index (walk allowlist keys m n next)

-- The loop over printed instructions.
pub walk-print_instructions :
    (allowlist keys : List (List ℕ)) (m : List ℕ) (is : List Instruction) (s : List ℕ) (p : ℕ)
    → All IsInstruction is
    → Stands m p (print_instructions is s)
    → walk allowlist keys m (length is) (pos p) ≡ from_option (unresolved_of allowlist keys is)
unfolding walk unresolved_of print_instructions plus byte_at
walk-print_instructions allowlist keys m [] s p a st = refl
walk-print_instructions allowlist keys m (i ∷ is) s p ((short, short'), a) st =
    let rest : List ℕ = print_instructions is s in
    let tail : List ℕ = compact_u16 (length i.content) ++ (i.content ++ rest) in
    let lists : List ℕ = compact_u16 (length i.accounts) ++ (i.accounts ++ tail) in
    let first = Stands-behind m p 1 (i.program ∷ []) lists refl st in
    let (q, e, st') =
      read_compact_u16-Stands m (p + 1) (length i.accounts) (i.accounts ++ tail) short first in
    let second = Stands-behind m q (length i.accounts) i.accounts tail refl st' in
    let (r, f, st'') =
      read_compact_u16-Stands m (q + length i.accounts) (length i.content) (i.content ++ rest)
        short' second in
    let third = Stands-behind m r (length i.content) i.content rest refl st'' in
    let more = walk-print_instructions allowlist keys m is s (r + length i.content) a third in
    let fits = overruns-Stands m (r + length i.content) rest third in
    let index : byte_at m (pos p) ≡ some i.program = ap head st.0 in
    let turn : Option ℕ → ℤ × ℤ → Result (List (Option ℕ)) = round allowlist keys m (length is) in
    ap (λ (x : ℤ × ℤ). turn (byte_at m (pos p)) (read_compact_u16 m (plus x.1 x.0))) e
    ∙ (ap (turn (byte_at m (pos p))) f
        ∙ (ap (λ (x : Option ℕ). turn x (pos (length i.content), pos r)) index
            ∙ rw (fits, more)
                (judge-from_option (resolve allowlist keys (some i.program)) i.program
                  (unresolved_of allowlist keys is))))
