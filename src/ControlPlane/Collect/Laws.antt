-- ===== src/ControlPlane/Collect/Laws.antt =====
-- What the collection of bundle files removes.
use circuit_agent_cloud.Prelude.{
  ℕ, ◌+◌, ◌≤◌, ◌≡◌, ◌≢◌, refl, sym, subst, inl, inr, Bool, true, false, not, ◌&&◌, ◌||◌, String,
  ◌==◌, List, [], ◌∷◌, ◌++◌, some, length, keep, any, same, lookup, if◌then◌else◌, arith,
  Bool-cases, eq_iff,
}
use circuit_agent_cloud.Base58.{codes}
use circuit_agent_cloud.ControlPlane.State.{Agent, BundleSpec}
use circuit_agent_cloud.ControlPlane.Collect.{
  File, is_blob, is_temporary, live_names, is_stale, is_kept, sweep_files, bundle_gc_sweep, tgz,
}

-- The files that a sweep removes: temporary files past their grace and, if it deletes, the bundles past
-- theirs to which no agent refers.
unfoldable pub is_garbage : Bool → ℕ → ℕ → List (List ℕ) → File → Bool
is_garbage do_delete now grace live f =
    (is_temporary f.name && is_stale now grace f)
    || (do_delete && is_blob f.name && not (is_temporary f.name) && not (is_kept now grace live f))

unfoldable pub blobs : List File → ℕ
blobs [] = 0
blobs (f ∷ rest) =
    let others = blobs rest in
    if is_blob f.name && not (is_temporary f.name) then others + 1 else others

sweep_files_lem :
    (do_delete : Bool) (now grace : ℕ) (live : List (List ℕ)) (files : List File)
    → ((sweep_files do_delete now grace live files).0
        ≡ keep (λ f. not (is_garbage do_delete now grace live f)) files)
      × ((sweep_files do_delete now grace live files).1.kept
            + length (sweep_files do_delete now grace live files).1.candidates
          ≡ blobs files)
      × ((sweep_files do_delete now grace live files).1.freed_bytes
          ≤ (sweep_files do_delete now grace live files).1.total_bytes)
unfolding sweep_files is_garbage blobs
sweep_files_lem do_delete now grace live [] = (refl, omega arith, omega arith)
sweep_files_lem do_delete now grace live (f ∷ rest) =
    let (a, b, c) = sweep_files_lem do_delete now grace live rest in
    (ground (arith, a), ground (arith, b), ground (arith, c))

same_refl : (xs : List ℕ) → same xs xs ≡ true
unfolding same
same_refl [] = refl
same_refl (x ∷ xs) = ground (arith, same_refl xs)

same-eq : (xs ys : List ℕ) → same xs ys ≡ true → xs ≡ ys
unfolding same
same-eq [] [] h = refl
same-eq [] (y ∷ ys) h = absurd (ground arith)
same-eq (x ∷ xs) [] h = absurd (ground arith)
same-eq (x ∷ xs) (y ∷ ys) h = ground (arith, same-eq xs ys)

same-tgz : (xs : List ℕ) → same (xs ++ tgz) [] ≡ false
unfolding same
same-tgz [] = refl
same-tgz (x ∷ xs) = refl

-- A name of a bundle is not that of a temporary file.
not_temporary : (xs : List ℕ) → is_temporary (xs ++ tgz) ≡ false
unfolding is_temporary same
not_temporary [] = refl
not_temporary (x ∷ []) = ground (arith, not_temporary [])
not_temporary (x ∷ (y ∷ [])) = ground (arith, not_temporary (y ∷ []))
not_temporary (x ∷ (y ∷ (z ∷ []))) = ground (arith, not_temporary (y ∷ (z ∷ [])))
not_temporary (x ∷ (y ∷ (z ∷ (w ∷ xs)))) =
    ground (arith, same-tgz xs, not_temporary (y ∷ (z ∷ (w ∷ xs))))

live_names-live :
    (agents : List (String × Agent)) (id : String) (a : Agent) (b : BundleSpec)
    → lookup id agents ≡ some a
    → a.bundle ≡ some b
    → b.sha256 ≢ ""
    → any (same (codes b.sha256 ++ tgz)) (live_names agents) ≡ true
unfolding lookup live_names
live_names-live [] id a b found with_bundle named = absurd (ground arith)
live_names-live ((k, c) ∷ rest) id a b found with_bundle named = elim (Bool-cases (k == id)) [
  | inl same_id ↦
      let e : c ≡ a = ground arith in
      ground (arith, e, with_bundle, named, eq_iff b.sha256 "", same_refl (codes b.sha256 ++ tgz))
  | inr other ↦ ground (arith, live_names-live rest id a b (ground arith) with_bundle named)
]

abbrev pub has_file : List ℕ → List File → Bool
has_file name files = any (λ f. same f.name name) files

any-keep :
    (p q : File → Bool) (files : List File)
    → ((f : File) → p f ≡ true → q f ≡ true)
    → any p files ≡ true
    → any p (keep q files) ≡ true
any-keep p q [] h e = e
any-keep p q (f ∷ rest) h e = elim (Bool-cases (p f)) [
  | inl hit ↦ ground (arith, h f hit)
  | inr miss ↦ ground (arith, any-keep p q rest h)
]

-- The file of a bundle that some agent on record refers to is still there after a sweep, at whatever
-- time, with whatever grace, and whether the sweep deletes or only reports.
pub live_bundle_stays :
    (do_delete : Bool) (now grace : ℕ) (agents : List (String × Agent)) (files : List File)
    (id : String) (a : Agent) (b : BundleSpec)
    → lookup id agents ≡ some a
    → a.bundle ≡ some b
    → b.sha256 ≢ ""
    → has_file (codes b.sha256 ++ tgz) files ≡ true
    → has_file (codes b.sha256 ++ tgz) (bundle_gc_sweep do_delete now grace agents files).0 ≡ true
unfolding bundle_gc_sweep is_garbage
live_bundle_stays do_delete now grace agents files id a b found with_bundle named there =
    let live : List (List ℕ) = live_names agents in
    let name : List ℕ = codes b.sha256 ++ tgz in
    let is_live = live_names-live agents id a b found with_bundle named in
    let spare : File → Bool = λ f. not (is_garbage do_delete now grace live f) in
    let (left, _, _) = sweep_files_lem do_delete now grace live files in
    let safe : (f : File) → same f.name name ≡ true → spare f ≡ true = λ f e.
      let it : f.name ≡ name = same-eq f.name name e in
      let not_tmp : is_temporary f.name ≡ false =
        subst (λ x. is_temporary x ≡ false) (sym it) (not_temporary (codes b.sha256)) in
      let alive : any (same f.name) live ≡ true =
        subst (λ x. any (same x) live ≡ true) (sym it) is_live in
      ground (arith, not_tmp, alive) in
    subst (λ (x : List File). has_file name x ≡ true) (sym left)
      (any-keep (λ f. same f.name name) spare files safe there)

-- A sweep leaves, in order, the files that are no garbage: temporary files past their grace are, also
-- when the sweep only reports, and when it deletes the bundles past theirs to which no agent refers.
-- What it counts as kept and as candidates are all the bundles there were, and it frees at most their
-- total size.
pub sweep_report :
    (do_delete : Bool) (now grace : ℕ) (agents : List (String × Agent)) (files : List File)
    → ((bundle_gc_sweep do_delete now grace agents files).0
        ≡ keep (λ f. not (is_garbage do_delete now grace (live_names agents) f)) files)
      × ((bundle_gc_sweep do_delete now grace agents files).1.kept
            + length (bundle_gc_sweep do_delete now grace agents files).1.candidates
          ≡ blobs files)
      × ((bundle_gc_sweep do_delete now grace agents files).1.freed_bytes
          ≤ (bundle_gc_sweep do_delete now grace agents files).1.total_bytes)
unfolding bundle_gc_sweep
sweep_report do_delete now grace agents files =
    sweep_files_lem do_delete now grace (live_names agents) files
