-- ===== src/Scratch/Overflow/Sweep/Safety.antt =====
-- A whole run of scratch-overflow.py is safe for every file.
use text.Mathlib.TextEquality.{eq_iff}
use krg_infra.Prelude.{
  ℕ, ◌+◌, String, ◌<>◌, ◌≢◌, false, ◌==◌, text_eq, nat_eq, List, [], ◌∷◌, Option, none, some, ◌≡◌,
  refl, Bool-cases, inl, inr, leb,
}
use krg_infra.Effects.Triple.{Keeps, Keeps-bind, Keeps-if, Keeps-pure, Keeps-throw}
use krg_infra.Scratch.Os.{Event, Host, Run, World, clock, is_mount}
use krg_infra.Scratch.Paths.{join}
use krg_infra.Scratch.Steps.{Traced, Keeps-finally}
use krg_infra.Scratch.Trace.{
  IsClosed-IsAsked, IsClosed, Guarded-IsClosed, Keeps-perform, Keeps-close, Keeps-open_null,
}
use krg_infra.Scratch.Copying.Quiet.{quiet_rules}
use krg_infra.Scratch.Overflow.{archive_dir, note_name, archive_one}
use krg_infra.Scratch.Overflow.Quiet.{Keeps-open_manifest, Keeps-write_note}
use krg_infra.Scratch.Overflow.Archived.{IsSwap, Safe}
use krg_infra.Scratch.Overflow.Replacement.{IsLocal}
use krg_infra.Scratch.Overflow.Safety.{Keeps-archive_one}
use krg_infra.Scratch.Overflow.Others.{Keeps-archive_other}
use krg_infra.Scratch.Overflow.Candidates.{Candidate}
use krg_infra.Scratch.Overflow.Candidates.Quiet.{Keeps-gather_candidates}
use krg_infra.Scratch.Overflow.Sweep.{
  Args, Pool, pool_or_die, pool_bytes, ttl_pass, capacity_pass, pool_after, passes,
  manifest_or_null, pick_manifest, finish, sweep, run_job, main,
}

module _ (H : Host) {p : String} {T : List Event → Type 0} (closed : IsClosed p T) where
  Keeps-pool_or_die : (pool : Option Pool) → Keeps (Traced H T) (pool_or_die H pool)
  unfolding pool_or_die
  Keeps-pool_or_die none = Keeps-throw _
  Keeps-pool_or_die (some pool) = Keeps-pure pool

  Keeps-pool_bytes : (zpool pool : String) → Keeps (Traced H T) (pool_bytes H zpool pool)
  unfolding pool_bytes
  Keeps-pool_bytes zpool pool = search (quiet_rules, Keeps-pool_or_die) depth 8

-- A file of the scratch area: its path is not that of a temporary file, of a cold copy, of the
-- manifest or of the note.
pub record IsScratchFile (H : Host) (args : Args) (path : String) : Type 0 where
  pub not_temporary : (front : String) → front <> ".tmp" ≢ path
  pub cold_apart : (q : String) → (join args.cold (H.relpath q args.scratch) == path) ≡ false
  pub manifest_apart : (join (join args.scratch archive_dir) "manifest.jsonl" == path) ≡ false
  pub note_apart : (join args.scratch note_name == path) ≡ false

-- Where the copy of a file goes.
abbrev pub cold_path : Host → Args → String → String
cold_path H args path = join args.cold (H.relpath path args.scratch)

module _ (H : Host) (args : Args) (path : String) (file : IsScratchFile H args path) where
  abbrev SafeRun : {A : Type 0} → Run H A → Type 0
  SafeRun m = Keeps (Traced H (Safe H path (cold_path H args path))) m

  local : IsLocal path (cold_path H args path)
  local = record { cold_apart = file.cold_apart path; not_temporary = file.not_temporary }

  abbrev closed' : IsClosed path (Safe H path (cold_path H args path))
  closed' = Guarded-IsClosed (IsSwap H path (cold_path H args path)) path

  module _ (fuel manifest : ℕ) where
    SafeRun-archive_one :
        (q reason : String)
        → SafeRun (archive_one H fuel q args.scratch args.cold manifest args.dry_run reason)
    SafeRun-archive_one q reason = elim (Bool-cases (q == path)) [
      | inl same ↦
          rw ((eq_iff q path).0 same) (
            Keeps-archive_one H path args.scratch args.cold local fuel manifest args.dry_run reason)
      | inr other ↦
          Keeps-archive_other H path (cold_path H args path) local q _ other (file.cold_apart q)
            fuel manifest args.dry_run reason args.scratch args.cold refl
    ]

    SafeRun-ttl_pass :
        (cs : List Candidate) (totals : ℕ × ℕ) → SafeRun (ttl_pass H fuel args manifest cs totals)
    unfolding ttl_pass
    SafeRun-ttl_pass [] totals = Keeps-pure totals
    SafeRun-ttl_pass (c ∷ cs) (freed, moved) =
        Keeps-bind _ _ (SafeRun-archive_one c.path "ttl") λ got. SafeRun-ttl_pass cs _

    SafeRun-capacity_pass :
        (to_free cap_freed : ℕ) (cs : List Candidate) (totals : ℕ × ℕ)
        → SafeRun (capacity_pass H fuel args manifest to_free cap_freed cs totals)
    unfolding capacity_pass
    SafeRun-capacity_pass to_free cap_freed [] totals = Keeps-pure totals
    SafeRun-capacity_pass to_free cap_freed (c ∷ cs) (freed, moved) =
        Keeps-if (leb to_free cap_freed) _ _ (Keeps-pure (freed, moved)) (
          Keeps-bind _ _ (SafeRun-archive_one c.path "capacity")
            λ got. SafeRun-capacity_pass to_free (cap_freed + got) cs _)

    SafeRun-pool_after :
        (pool : Pool) (freed : ℕ) → SafeRun (pool_after H fuel args manifest pool freed)
    unfolding pool_after
    SafeRun-pool_after pool freed =
        Keeps-if args.dry_run _ _ (Keeps-pure _) (Keeps-pool_bytes H closed' args.zpool args.pool)

    SafeRun-passes :
        (pool : Pool) (ttl_list cap_list : List Candidate)
        → SafeRun (passes H fuel args manifest pool ttl_list cap_list)
    unfolding passes
    SafeRun-passes pool ttl_list cap_list =
        Keeps-bind _ _ (SafeRun-ttl_pass ttl_list (0, 0)) λ (freed, moved).
          Keeps-bind _ _ (SafeRun-pool_after pool freed) λ pool'.
            Keeps-if _ _ _ (SafeRun-capacity_pass _ 0 cap_list (freed, moved)) (Keeps-pure _)

  SafeRun-manifest_or_null : (o : Option ℕ) → SafeRun (manifest_or_null H o)
  unfolding manifest_or_null
  SafeRun-manifest_or_null none = Keeps-open_null H closed'
  SafeRun-manifest_or_null (some fd) = Keeps-pure fd

  SafeRun-pick_manifest : SafeRun (pick_manifest H args (join args.scratch archive_dir))
  unfolding pick_manifest
  SafeRun-pick_manifest = Keeps-if args.dry_run _ _ (Keeps-open_null H closed') (
      Keeps-bind _ _ (Keeps-open_manifest H closed' _ file.manifest_apart) SafeRun-manifest_or_null)

  SafeRun-finish : (moved : ℕ) → SafeRun (finish H args moved)
  unfolding finish
  SafeRun-finish moved =
      Keeps-if _ _ _
        (Keeps-bind _ _ (Keeps-write_note H closed' args.scratch args.cold file.note_apart)
          λ _. Keeps-bind _ _ (Keeps-pool_bytes H closed' args.zpool args.pool) λ _. Keeps-pure 0)
        (Keeps-pure 0)

  SafeRun-sweep :
      (fuel now : ℕ) (pool : Pool) (cs : List Candidate) → SafeRun (sweep H fuel now args pool cs)
  unfolding sweep
  SafeRun-sweep fuel now pool [] = Keeps-pure 0
  SafeRun-sweep fuel now pool (c ∷ cs) = Keeps-bind _ _ SafeRun-pick_manifest λ manifest.
      Keeps-bind _ _
        (Keeps-finally H _ _ (SafeRun-passes fuel manifest pool _ _)
          (Keeps-close H closed' manifest))
        λ (freed, moved). SafeRun-finish moved

  SafeRun-run_job : (fuel : ℕ) → SafeRun (run_job H fuel args)
  unfolding run_job
  SafeRun-run_job fuel = Keeps-bind _ _ (Keeps-pool_bytes H closed' args.zpool args.pool) λ pool.
      Keeps-if _ _ _ (Keeps-pure 0) (
        Keeps-bind _ _ (Keeps-perform H closed' clock (λ r. refl)) λ now.
          Keeps-bind _ _
            (Keeps-gather_candidates H (IsClosed-IsAsked H closed') _ fuel args.scratch)
            λ cs. SafeRun-sweep fuel now pool cs)

  SafeRun-main : (fuel : ℕ) → SafeRun (main H fuel args)
  unfolding main
  SafeRun-main fuel =
      Keeps-bind _ _ (Keeps-perform H closed' (is_mount args.scratch) (λ r. refl)) λ there.
        Keeps-if _ _ _ (Keeps-pure 0) (
          Keeps-bind _ _ (Keeps-perform H closed' (is_mount args.cold) (λ r. refl)) λ cold_there.
            Keeps-if _ _ _ (Keeps-throw _) (Keeps-if _ _ _ (SafeRun-run_job fuel) (Keeps-throw _)))

  -- In a whole run of `main`, however it ends and whatever the system answers, nothing removes,
  -- moves, overwrites or opens for writing a file of the scratch area, but for a renaming that puts
  -- a link to its cold copy there. Before that the copy was read back with the hash and the length of
  -- what had been read of the file and written to it, then synced and put in its place, and after
  -- that the file was seen to be the one that had been looked at before it was read. The path is
  -- assumed to be none of a temporary file, of a cold copy, of the manifest or of the note.
  pub main-Safe :
      (fuel : ℕ) (w : World H)
      → Safe H path (cold_path H args path) w.trace
      → Safe H path (cold_path H args path) (main H fuel args w).1.trace
  main-Safe fuel w h = (SafeRun-main fuel).at w h
