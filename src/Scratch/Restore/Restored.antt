-- ===== src/Scratch/Restore/Restored.antt =====
-- When scratch-restore.py may destroy what a path names.
use krg_infra.Prelude.{ℕ, String, true, List, ◌≡◌, ◌⊎◌}
use krg_infra.Effects.{Result, ok}
use krg_infra.Scratch.Os.{Failure, Stat, Event, did, stat, rename, unlink, Host}
use krg_infra.Scratch.Trace.{After}
use krg_infra.Scratch.Copying.{same_file}
use krg_infra.Scratch.Copying.ReadBack.{Synced, Published}
use krg_infra.Scratch.Restore.{under_any}

module _ (H : Host) (cold_roots : List String) (p : String) where
  -- The event replaces what is there by a copy, verified and synced, of a file of the cold area.
  abbrev pub IsReplacement : Event → List Event → Type 0
  IsReplacement e t =
      (target part : String) × (r : Result Failure (Unit {0})) × (tst : Stat) × (fd : ℕ) × (e
        ≡ did (rename part p) r)
      × (under_any target cold_roots ≡ true)
      × Synced H target tst part fd t

  -- The event removes a file of the cold area, of which a copy, verified and synced, is in its place,
  -- and which was the same after that.
  abbrev pub IsRemoval : Event → List Event → Type 0
  IsRemoval e t =
      (link part : String) × (r : Result Failure (Unit {0})) × (tst tst2 : Stat) × (fd : ℕ) × (e
        ≡ did (unlink p) r)
      × (under_any p cold_roots ≡ true)
      × (same_file tst2 tst ≡ true)
      × After (did (stat p) (ok tst2)) (Published H p link tst part fd) t

  abbrev pub IsRestoring : Event → List Event → Type 0
  IsRestoring e t = IsReplacement e t ⊎ IsRemoval e t
