-- ===== src/ControlPlane/Collect/Tests.antt =====
-- A collection over one bundle that is referred to, one that is not, and a temporary file.
use circuit_agent_cloud.Prelude.{
  ◌+◌, ◌≤◌, ◌≡◌, refl, true, false, not, same, String, List, [], ◌∷◌, ◌++◌, none, some, length,
  keep, lookup, arith, eq_iff,
}
use circuit_agent_cloud.Base58.{codes}
use circuit_agent_cloud.ControlPlane.State.{Agent, BundleSpec}
use circuit_agent_cloud.ControlPlane.Toy.{guest}
use circuit_agent_cloud.ControlPlane.Collect.{File, live_names, bundle_gc_sweep, tgz}
use circuit_agent_cloud.ControlPlane.Collect.Laws.{
  is_garbage, blobs, has_file, live_bundle_stays, sweep_report,
}

abbrev sha : String
sha = "00112233445566778899aabbccddeeff00112233445566778899aabbccddeeff"

abbrev spec : BundleSpec
spec = record { manifest = none; sha256 = sha; runtime = "" }

abbrev owner_of_it : Agent
owner_of_it = record guest { bundle = some spec }

abbrev agents : List (String × Agent)
agents = ("a", owner_of_it) ∷ []

abbrev files : List File
files =
    record { name = codes sha ++ tgz; size = 10; mtime = 0 }
    ∷ record {
      name = codes "ff112233445566778899aabbccddeeff00112233445566778899aabbccddeeff" ++ tgz;
      size = 20;
      mtime = 0;
    }
    ∷ record { name = codes "upload.tmp"; size = 5; mtime = 0 }
    ∷ []

live_bundle_stays_example :
    has_file (codes sha ++ tgz) (bundle_gc_sweep true 9000 1000 agents files).0 ≡ true
unfolding lookup same
live_bundle_stays_example =
    live_bundle_stays true 9000 1000 agents files "a" owner_of_it spec refl refl
      (ground (arith, eq_iff sha "")) refl

sweep_report_example :
    ((bundle_gc_sweep false 9000 1000 agents files).0
      ≡ keep (λ f. not (is_garbage false 9000 1000 (live_names agents) f)) files)
    × ((bundle_gc_sweep false 9000 1000 agents files).1.kept
          + length (bundle_gc_sweep false 9000 1000 agents files).1.candidates
        ≡ blobs files)
    × ((bundle_gc_sweep false 9000 1000 agents files).1.freed_bytes
        ≤ (bundle_gc_sweep false 9000 1000 agents files).1.total_bytes)
sweep_report_example = sweep_report false 9000 1000 agents files
