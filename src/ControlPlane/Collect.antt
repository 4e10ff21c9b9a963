-- ===== src/ControlPlane/Collect.antt =====
-- control-plane/server.js: `bundleGcSweep`, which collects bundle files that no agent refers to. Names
-- are lists of code points, and times are milliseconds; every file can be read and removed.
pub mod Laws
mod Tests
use circuit_agent_cloud.Prelude.{
  ℕ, zero, suc, ◌+◌, ◌-◌, Bool, true, false, not, ◌&&◌, ◌||◌, String, ◌==◌, List, [], ◌∷◌, ◌++◌,
  Option, none, some, length, take, drop, any, all, same, leb, ltb, nat_eq, if◌then◌else◌,
}
use circuit_agent_cloud.Base58.{codes}
use circuit_agent_cloud.ControlPlane.State.{Agent}

pub record File : Type 0 where
  pub name : List ℕ
  pub size : ℕ
  pub mtime : ℕ

-- `bytes` and `age` of a candidate; the age is in milliseconds here.
pub record Candidate : Type 0 where
  pub sha : List ℕ
  pub bytes : ℕ
  pub age : ℕ

pub record Report : Type 0 where
  pub kept : ℕ
  pub candidates : List Candidate
  pub freed_bytes : ℕ
  pub total_bytes : ℕ

abbrev hex_digit : ℕ → Bool
hex_digit c = (leb b'0' c && leb c b'9') || (leb b'a' c && leb c b'f')

abbrev pub tgz : List ℕ
tgz = codes ".tgz"

-- `/^[0-9a-f]{64}\.tgz$/`.
unfoldable pub is_blob : List ℕ → Bool
is_blob name =
    nat_eq (length (take 64 name)) 64 && all hex_digit (take 64 name) && same (drop 64 name) tgz

-- `f.endsWith('.tmp')`.
unfoldable pub is_temporary : List ℕ → Bool
is_temporary [] = false
is_temporary (c ∷ rest) =
    let later = is_temporary rest in if same (c ∷ rest) (codes ".tmp") then true else later

-- The names that the agents refer to.
unfoldable pub live_names : List (String × Agent) → List (List ℕ)
live_names [] = []
live_names ((id, a) ∷ rest) =
    let others = live_names rest in
    elim a.bundle [
      | none ↦ others
      | some b ↦ if b.sha256 == "" then others else (codes b.sha256 ++ tgz) ∷ others
    ]

-- `st.mtimeMs < cutoff`, where the cutoff is a grace before now.
abbrev pub is_stale : ℕ → ℕ → File → Bool
is_stale now grace f = ltb (f.mtime + grace) now

-- `live.has(f) || st.mtimeMs > cutoff`.
abbrev pub is_kept : ℕ → ℕ → List (List ℕ) → File → Bool
is_kept now grace live f = any (same f.name) live || ltb now (f.mtime + grace)

abbrev pub no_report : Report
no_report = record { kept = 0; candidates = []; freed_bytes = 0; total_bytes = 0 }

abbrev with_kept : File → Report → Report
with_kept f r = record r { kept = r.kept + 1; total_bytes = r.total_bytes + f.size }

abbrev with_candidate : ℕ → File → Report → Report
with_candidate age f r = record r {
  candidates = record { sha = take 12 f.name; bytes = f.size; age = age } ∷ r.candidates;
  freed_bytes = r.freed_bytes + f.size;
  total_bytes = r.total_bytes + f.size;
}

-- The loop over the files: those that are left, and the report.
unfoldable pub sweep_files : Bool → ℕ → ℕ → List (List ℕ) → List File → List File × Report
unfolding is_blob is_temporary
sweep_files do_delete now grace live [] = ([], no_report)
sweep_files do_delete now grace live (f ∷ rest) =
    let (files, r) = sweep_files do_delete now grace live rest in
    if is_temporary f.name
    then (if is_stale now grace f then (files, r) else (f ∷ files, r))
    else if not (is_blob f.name)
    then (f ∷ files, r)
    else if is_kept now grace live f
    then (f ∷ files, with_kept f r)
    else (if do_delete then files else f ∷ files, with_candidate (now - f.mtime) f r)

unfoldable pub bundle_gc_sweep :
    Bool → ℕ → ℕ → List (String × Agent) → List File → List File × Report
unfolding sweep_files live_names
bundle_gc_sweep do_delete now grace agents files =
    sweep_files do_delete now grace (live_names agents) files
