-- ===== src/Scratch/Overflow/Sweep/DryRun.antt =====
-- A dry run of scratch-overflow.py.
use krg_infra.Prelude.{
  ℕ, ◌+◌, String, Bool, true, List, [], ◌∷◌, Option, none, some, ◌≡◌, refl, All, leb,
}
use krg_infra.Effects.Triple.{Keeps, Keeps-bind, Keeps-if, Keeps-pure, Keeps-throw}
use krg_infra.Scratch.Os.{
  Stat, Call, Event, did, stat, is_mount, close, clock, open_null, run, World, Host, Run, perform,
}
use krg_infra.Scratch.Paths.{join}
use krg_infra.Scratch.Steps.{Traced, Keeps-finally, Keeps-attempt}
use krg_infra.Scratch.Trace.{asks, IsAsked}
use krg_infra.Scratch.Overflow.{archive_dir, archive_found, archive_one}
use krg_infra.Scratch.Overflow.Candidates.{Candidate}
use krg_infra.Scratch.Overflow.Candidates.Quiet.{Keeps-gather_candidates}
use krg_infra.Scratch.Overflow.Sweep.{
  Args, Pool, pool_or_die, pool_bytes, ttl_pass, capacity_pass, pool_after, passes, pick_manifest,
  finish, sweep, run_job, main,
}

abbrev is_asking : Event → Bool
is_asking (did c r) = asks c

-- Every event is a call that changes nothing.
abbrev pub Untouched : List Event → Type 0
Untouched = All (λ e. is_asking e ≡ true)

module _ (H : Host) where
  abbrev Asks : {A : Type 0} → Run H A → Type 0
  Asks m = Keeps (Traced H Untouched) m

  ask : (c : Call) → asks c ≡ true → Asks (perform H c)
  unfolding perform
  ask c h = record { at = λ w t. (h, t) }

  abbrev asked : IsAsked H Untouched
  asked = record { at = ask }

  Asks-pool_or_die : (pool : Option Pool) → Asks (pool_or_die H pool)
  unfolding pool_or_die
  Asks-pool_or_die none = Keeps-throw _
  Asks-pool_or_die (some pool) = Keeps-pure pool

  Asks-pool_bytes : (zpool pool : String) → Asks (pool_bytes H zpool pool)
  unfolding pool_bytes
  Asks-pool_bytes zpool pool =
      Keeps-bind _ _
        (ask (run (zpool ∷ "list" ∷ "-Hp" ∷ "-o" ∷ "size,alloc,free" ∷ pool ∷ [])) refl)
        λ (code, out). Keeps-if _ _ _ (Keeps-throw _) (Asks-pool_or_die _)

  module _ (args : Args) (dry : args.dry_run ≡ true) (fuel manifest : ℕ) where
    Asks-found :
        (q reason : String) (found : Option Stat)
        → Asks (archive_found H fuel q args.scratch args.cold manifest args.dry_run reason found)
    unfolding archive_found
    Asks-found q reason none = Keeps-pure 0
    Asks-found q reason (some st) = rw dry (Keeps-pure _)

    Asks-archive_one :
        (q reason : String)
        → Asks (archive_one H fuel q args.scratch args.cold manifest args.dry_run reason)
    unfolding archive_one
    Asks-archive_one q reason =
        Keeps-bind _ _ (Keeps-attempt H _ (ask (stat q) refl)) (Asks-found q reason)

    Asks-ttl_pass :
        (cs : List Candidate) (totals : ℕ × ℕ) → Asks (ttl_pass H fuel args manifest cs totals)
    unfolding ttl_pass
    Asks-ttl_pass [] totals = Keeps-pure totals
    Asks-ttl_pass (c ∷ cs) (freed, moved) =
        Keeps-bind _ _ (Asks-archive_one c.path "ttl") λ got. Asks-ttl_pass cs _

    Asks-capacity_pass :
        (to_free cap_freed : ℕ) (cs : List Candidate) (totals : ℕ × ℕ)
        → Asks (capacity_pass H fuel args manifest to_free cap_freed cs totals)
    unfolding capacity_pass
    Asks-capacity_pass to_free cap_freed [] totals = Keeps-pure totals
    Asks-capacity_pass to_free cap_freed (c ∷ cs) (freed, moved) =
        Keeps-if (leb to_free cap_freed) _ _ (Keeps-pure (freed, moved)) (
          Keeps-bind _ _ (Asks-archive_one c.path "capacity")
            λ got. Asks-capacity_pass to_free (cap_freed + got) cs _)

    Asks-passes :
        (pool : Pool) (ttl_list cap_list : List Candidate)
        → Asks (passes H fuel args manifest pool ttl_list cap_list)
    unfolding passes pool_after
    Asks-passes pool ttl_list cap_list =
        Keeps-bind _ _ (Asks-ttl_pass ttl_list (0, 0)) λ (freed, moved).
          Keeps-bind _ _
            (Keeps-if args.dry_run _ _ (Keeps-pure _) (Asks-pool_bytes args.zpool args.pool))
            λ pool'. Keeps-if _ _ _ (Asks-capacity_pass _ 0 cap_list (freed, moved)) (Keeps-pure _)

  module _ (args : Args) (dry : args.dry_run ≡ true) (fuel : ℕ) where
    Asks-pick_manifest : Asks (pick_manifest H args (join args.scratch archive_dir))
    unfolding pick_manifest
    Asks-pick_manifest = rw dry (ask open_null refl)

    Asks-finish : (moved : ℕ) → Asks (finish H args moved)
    unfolding finish
    Asks-finish moved = rw dry (Keeps-pure 0)

    Asks-sweep :
        (now : ℕ) (pool : Pool) (cs : List Candidate) → Asks (sweep H fuel now args pool cs)
    unfolding sweep
    Asks-sweep now pool [] = Keeps-pure 0
    Asks-sweep now pool (c ∷ cs) = Keeps-bind _ _ Asks-pick_manifest λ manifest.
        Keeps-bind _ _
          (Keeps-finally H _ _ (Asks-passes args dry fuel manifest pool _ _)
            (ask (close manifest) refl))
          λ (freed, moved). Asks-finish moved

    Asks-run_job : Asks (run_job H fuel args)
    unfolding run_job
    Asks-run_job = Keeps-bind _ _ (Asks-pool_bytes args.zpool args.pool) λ pool.
        Keeps-if _ _ _ (Keeps-pure 0) (
          Keeps-bind _ _ (ask clock refl) λ now.
            Keeps-bind _ _ (Keeps-gather_candidates H asked _ fuel args.scratch)
              λ cs. Asks-sweep now pool cs)

    -- A run of `main` with --dry-run, however it ends, makes only calls that change nothing: it
    -- looks at files, lists directories, asks for the time and for the pool, and opens and closes
    -- the null device.
    pub main-Untouched : (w : World H) → Untouched w.trace → Untouched (main H fuel args w).1.trace
    unfolding main
    main-Untouched w h =
        (Keeps-bind _ _ (ask (is_mount args.scratch) refl) λ there. Keeps-if _ _ _ (Keeps-pure 0) (
            Keeps-bind _ _ (ask (is_mount args.cold) refl) λ cold_there.
              Keeps-if _ _ _ (Keeps-throw _) (Keeps-if _ _ _ Asks-run_job (Keeps-throw _)))).at
          w h
