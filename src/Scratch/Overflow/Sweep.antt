-- ===== src/Scratch/Overflow/Sweep.antt =====
-- `pool_bytes`, `capacity_pct` and `main` of scratch-overflow.py.
pub mod Safety
pub mod DryRun
use Prim.Native.Char.{code}
use krg_infra.Prelude.{
  ℕ, zero, suc, ◌+◌, ◌-◌, ◌*◌, ◌/◌, String, ◌<>◌, Bool, true, false, not, ◌&&◌, ◌||◌, Option, none,
  some, List, [], ◌∷◌, ◌==◌, ltb, leb, text_eq, nat_eq, if◌then◌else◌, keep,
}
use krg_infra.Text.{split}
use krg_infra.Effects.{Result, ok, pure, throw, ◌>>=◌, ◌>>◌}
use krg_infra.Scratch.Os.{
  Failure, system_exit, is_mount, open_null, close, clock, run, Host, Run, perform, finally,
}
use krg_infra.Scratch.Paths.{join}
use krg_infra.Scratch.Overflow.{archive_dir, note_name, open_manifest, write_note, archive_one}
use krg_infra.Scratch.Overflow.Candidates.{Candidate, gather_candidates}

-- The command line. The marks are whole percents, the ages nanoseconds.
pub record Args : Type 0 where
  pub pool : String
  pub scratch : String
  pub cold : String
  pub high : ℕ
  pub low : ℕ
  pub min_age : ℕ
  pub max_idle : ℕ
  pub zpool : String
  pub dry_run : Bool

pub record Pool : Type 0 where
  pub size : ℕ
  pub alloc : ℕ
  pub free : ℕ

-- A number in plain digits, which is what `zpool list -p` prints.
digits_from : ℕ → String → Option ℕ
digits_from n String.[] = some n
digits_from n (String.◌∷◌ c s) =
    if leb 48 (code c) && leb (code c) 57 then digits_from (n * 10 + (code c - 48)) s else none

number : String → Option ℕ
unfolding digits_from
number s = if s == "" then none else digits_from 0 s

three : Option ℕ → Option ℕ → Option ℕ → Option Pool
three (some size) (some alloc) (some free) = some record { size = size; alloc = alloc; free = free }
three _ _ _ = none

read_pool : List String → Option Pool
unfolding three number
read_pool (size ∷ alloc ∷ free ∷ []) = three (number size) (number alloc) (number free)
read_pool _ = none

-- Whether the pool is at least `high` percent full.
abbrev pub is_over : Pool → ℕ → Bool
is_over p high = if p.size == 0 then leb high 0 else leb (high * p.size) (100 * (p.size - p.free))

-- The bytes to free until the pool is down to `low` percent.
abbrev pub bytes_to_free : Pool → ℕ → ℕ
bytes_to_free p low = p.size * (100 - low) / 100 - p.free

-- Whether a file has been idle for longer than `max_idle`, if that is on.
abbrev pub is_idle : (now max_idle : ℕ) → Candidate → Bool
is_idle now max_idle c = ltb 0 max_idle && ltb (c.used + max_idle) now

module _ (H : Host) where
  pool_or_die : Option Pool → Run H Pool
  pool_or_die none = throw (system_exit 1)
  pool_or_die (some p) = pure p

  pool_bytes : String → String → Run H Pool
  unfolding split read_pool pool_or_die
  pool_bytes zpool pool = do
    (code, out) ← perform H (run (zpool ∷ "list" ∷ "-Hp" ∷ "-o" ∷ "size,alloc,free" ∷ pool ∷ []))
    if not (code == 0) then throw (system_exit 1) else pool_or_die (read_pool (split out))

  module _ (fuel : ℕ) (args : Args) (manifest : ℕ) where
    -- The bytes freed and the files moved by a pass, behind those before it.
    ttl_pass : List Candidate → ℕ × ℕ → Run H (ℕ × ℕ)
    ttl_pass [] totals = pure totals
    ttl_pass (c ∷ cs) (freed, moved) =
        archive_one H fuel c.path args.scratch args.cold manifest args.dry_run "ttl" >>= λ got.
        ttl_pass cs (if got == 0 then (freed, moved) else (freed + got, moved + 1))

    -- The capacity pass, which stops when `cap_freed` has reached the goal.
    capacity_pass : (to_free cap_freed : ℕ) → List Candidate → ℕ × ℕ → Run H (ℕ × ℕ)
    capacity_pass to_free cap_freed [] totals = pure totals
    capacity_pass to_free cap_freed (c ∷ cs) (freed, moved) =
        let go_on =
          archive_one H fuel c.path args.scratch args.cold manifest args.dry_run "capacity"
          >>= λ got.
              capacity_pass to_free (cap_freed + got) cs
                (if got == 0 then (freed, moved) else (freed + got, moved + 1)) in
        if leb to_free cap_freed then pure (freed, moved) else go_on

    -- The fullness behind the first pass: measured, or estimated in a dry run.
    pool_after : Pool → ℕ → Run H Pool
    unfolding pool_bytes
    pool_after p freed =
        if args.dry_run
        then pure (record p { free = p.free + freed })
        else pool_bytes args.zpool args.pool

    -- The two passes over the candidates.
    passes : Pool → (ttl_list cap_list : List Candidate) → Run H (ℕ × ℕ)
    unfolding ttl_pass capacity_pass pool_after
    passes p ttl_list cap_list = do
      (freed, moved) ← ttl_pass ttl_list (0, 0)
      p' ← pool_after p freed
      if is_over p' args.high
          then capacity_pass (bytes_to_free p' args.low) 0 cap_list (freed, moved)
          else pure (freed, moved)

  manifest_or_null : Option ℕ → Run H ℕ
  manifest_or_null none = perform H open_null
  manifest_or_null (some fd) = pure fd

  -- The manifest of a run: none in a dry run.
  pick_manifest : Args → String → Run H ℕ
  unfolding manifest_or_null
  pick_manifest args state_dir =
      if args.dry_run then perform H open_null else (open_manifest H state_dir >>= manifest_or_null)

  finish : Args → ℕ → Run H ℕ
  unfolding pool_bytes
  finish args moved =
      if not args.dry_run && not (moved == 0)
      then (do write_note H args.scratch args.cold; _p ← pool_bytes args.zpool args.pool; pure 0)
      else pure 0

  -- What is done with the candidates that were found at `now`.
  sweep : (fuel now : ℕ) → Args → Pool → List Candidate → Run H ℕ
  unfolding pick_manifest passes finish
  sweep fuel now args p [] = pure 0
  sweep fuel now args p (c ∷ cs) = do
    let state_dir = join args.scratch archive_dir
    let ttl_list = keep (is_idle now args.max_idle) (c ∷ cs)
    let cap_list = keep (λ d. not (is_idle now args.max_idle d)) (c ∷ cs)
    manifest ← pick_manifest args state_dir
    (freed, moved) ←
        finally H (passes fuel args manifest p ttl_list cap_list) (perform H (close manifest))
    finish args moved

  -- `main` behind its checks.
  run_job : (fuel : ℕ) → Args → Run H ℕ
  unfolding pool_bytes sweep
  run_job fuel args = do
    p ← pool_bytes args.zpool args.pool
    if not (is_over p args.high) && not (ltb 0 args.max_idle) then pure 0 else do
      now ← perform H clock
      cands ←
          gather_candidates H
            (record {
              skip_dir_prefixes = (join args.scratch archive_dir <> "/") ∷ [];
              skip_exact = join args.scratch note_name ∷ [];
              now = now;
              min_age = args.min_age;
            })
            fuel args.scratch
      sweep fuel now args p cands

  unfoldable pub main : (fuel : ℕ) → Args → Run H ℕ
  unfolding run_job
  main fuel args = do
    scratch_there ← perform H (is_mount args.scratch)
    if not scratch_there then pure 0 else do
      cold_there ← perform H (is_mount args.cold)
      if not cold_there
          then throw (system_exit 1)
          else if ltb 0 args.low && ltb args.low args.high && leb args.high 100
          then run_job fuel args
          else throw (system_exit 1)
