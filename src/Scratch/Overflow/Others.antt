-- ===== src/Scratch/Overflow/Others.antt =====
-- `archive_one` is safe for the files that it does not archive.
use krg_infra.Prelude.{
  ℕ, String, Bool, true, false, ◌==◌, text_eq, nat_eq, List, Option, none, some, ◌≡◌, refl, ◌||◌,
}
use krg_infra.Effects.{◌>>=◌}
use krg_infra.Effects.Triple.{Keeps, Keeps-bind, Keeps-if, Keeps-pure}
use krg_infra.Scratch.Os.{Stat, Event, stat, realpath, Host, Run}
use krg_infra.Scratch.Paths.{join}
use krg_infra.Scratch.Steps.{
  Keeps-except_os_error, Steps-given, Keeps-attempt, Keeps-of_Steps, Steps-bind, Steps-weaken,
  Steps-of_Keeps, Traced,
}
use krg_infra.Scratch.Trace.{Guarded-IsClosed, IsClosed, Keeps-perform}
use krg_infra.Scratch.Copying.{tmp_sibling}
use krg_infra.Scratch.Copying.Quiet.{
  Keeps-fd_sha256, Keeps-copy_and_hash, quiet_rules, Keeps-fsync_dir, Keeps-unlink_stale,
  Keeps-discard,
}
use krg_infra.Scratch.Overflow.{
  escapes, seal, verify, publish, swap_and_note, swap, replace_local, after_publish, archive,
  archive_found, archive_one,
}
use krg_infra.Scratch.Overflow.Quiet.{Keeps-makedirs_mirror, Keeps-note_archived}
use krg_infra.Scratch.Overflow.Archived.{IsSwap, Safe}
use krg_infra.Scratch.Guarding.{Anything-Lasts}
use krg_infra.Scratch.Overflow.Replacement.{IsLocal, tmp_sibling-Steps}

module _ (H : Host) {p : String} {T : List Event → Type 0} (closed : IsClosed p T) where
  Keeps-seal : (part : String) (st : Stat) (fd : ℕ) → Keeps (Traced H T) (seal H part st fd)
  unfolding seal
  Keeps-seal part st fd = search quiet_rules depth 16

  module _ (part : String) (apart : (part == p) ≡ false) where
    Keeps-verify :
        (fuel : ℕ) (st : Stat) (sha : String) (n fd : ℕ)
        → Keeps (Traced H T) (verify H fuel part st sha n fd)
    unfolding verify
    Keeps-verify fuel st sha n fd = search (quiet_rules, Keeps-seal, Keeps-fd_sha256) depth 12

    Keeps-publish :
        (fuel : ℕ) (path scratch cold rel dest : String) (st : Stat)
        → (dest == p) ≡ false
        → Keeps (Traced H T) (publish H fuel path scratch cold rel dest part st)
    unfolding publish
    Keeps-publish fuel path scratch cold rel dest st cold_apart =
        let elsewhere : (part == p || dest == p) ≡ false = rw apart cold_apart in
        search
          (
            quiet_rules, Keeps-makedirs_mirror, Keeps-unlink_stale, Keeps-copy_and_hash,
            Keeps-verify, Keeps-fsync_dir,
          )
          depth 14

    Keeps-swap :
        (path dest : String) → (path == p) ≡ false → Keeps (Traced H T) (swap H path dest part)
    unfolding swap
    Keeps-swap path dest other =
        let elsewhere : (part == p || path == p) ≡ false = rw apart other in
        search (quiet_rules, Keeps-unlink_stale, Keeps-fsync_dir) depth 12

module _ (H : Host) (p dest' : String) (local : IsLocal p dest') (path dest : String)
    (other : (path == p) ≡ false) (cold_apart : (dest == p) ≡ false) where
  abbrev closed : IsClosed p (Safe H p dest')
  closed = Guarded-IsClosed (IsSwap H p dest') p

  -- The temporary file has another path than `p`.
  with_tmp :
      {A : Type 0} (base : String) (f : String → Run H A)
      → ((tmp : String) → (tmp == p) ≡ false → Keeps (Traced H (Safe H p dest')) (f tmp))
      → Keeps (Traced H (Safe H p dest')) (tmp_sibling H base "so" >>= f)
  with_tmp base f go = Keeps-of_Steps H _ (
      Steps-weaken H _ (λ t h. (h, tt)) (λ _ t h. h) (λ t h. h)
        (Steps-bind H _ _ _ (tmp_sibling-Steps H p dest' local base Anything-Lasts) λ tmp.
          Steps-given H _ (λ t h. h.0)
            λ apart.
              Steps-weaken H _ (λ t h. h.1.0) (λ _ t h. h) (λ t h. h)
                (Steps-of_Keeps H _ (λ t h. h) (go tmp apart))))

  module _ (manifest : ℕ) (reason : String) (st : Stat) where
    Keeps-swap_and_note :
        (sha : String)
        → Keeps (Traced H (Safe H p dest')) (swap_and_note H manifest reason path dest sha st)
    unfolding swap_and_note
    Keeps-swap_and_note sha = with_tmp path _ λ tmp apart.
        Keeps-bind _ _
          (Keeps-except_os_error H _ _
            (Keeps-bind _ _ (Keeps-swap H closed tmp apart path dest other) λ _. Keeps-pure true)
            (λ _. Keeps-bind _ _ (Keeps-discard H closed tmp apart) λ _. Keeps-pure false))
          λ swapped.
            Keeps-if swapped _ _
              (Keeps-bind _ _ (Keeps-note_archived H closed manifest reason path dest sha st)
                λ _. Keeps-pure true)
              (Keeps-pure false)

    Keeps-replace_local :
        (sha : String)
        → Keeps (Traced H (Safe H p dest')) (replace_local H manifest reason path dest sha st)
    unfolding replace_local
    Keeps-replace_local sha = search (quiet_rules, closed, Keeps-swap_and_note) depth 10

    Keeps-after_publish :
        (o : Option String)
        → Keeps (Traced H (Safe H p dest')) (after_publish H manifest reason path dest st o)
    unfolding after_publish
    Keeps-after_publish none = Keeps-pure false
    Keeps-after_publish (some sha) = Keeps-replace_local sha

    Keeps-archive :
        (fuel : ℕ) (scratch cold : String)
        → dest ≡ join cold (H.relpath path scratch)
        → Keeps (Traced H (Safe H p dest')) (archive H fuel manifest reason path scratch cold st)
    unfolding archive
    Keeps-archive fuel scratch cold same = rw (← same) (
        Keeps-bind _ _ (Keeps-perform H closed (realpath cold) (λ r. refl)) λ cold_real.
          Keeps-bind _ _ (Keeps-perform H closed (realpath dest) (λ r. refl)) λ dest_real.
            Keeps-if (escapes cold_real dest_real) _ _ (Keeps-pure false) (
              with_tmp dest _ λ tmp apart.
                Keeps-bind _ _
                  (Keeps-except_os_error H _ _
                    (Keeps-publish H closed tmp apart fuel path scratch cold _ dest st cold_apart)
                    (λ _. Keeps-bind _ _ (Keeps-discard H closed tmp apart) λ _. Keeps-pure none))
                  Keeps-after_publish))

  module _ (fuel manifest : ℕ) (dry_run : Bool) (reason scratch cold : String)
      (same : dest ≡ join cold (H.relpath path scratch)) where
    Keeps-found :
        (found : Option Stat)
        → Keeps
            (Traced H (Safe H p dest'))
            (archive_found H fuel path scratch cold manifest dry_run reason found)
    unfolding archive_found
    Keeps-found none = Keeps-pure 0
    Keeps-found (some st) = Keeps-if dry_run _ _ (Keeps-pure _) (
        Keeps-bind _ _ (Keeps-archive manifest reason st fuel scratch cold same)
          λ archived. Keeps-pure _)

    pub Keeps-archive_other :
        Keeps
          (Traced H (Safe H p dest'))
          (archive_one H fuel path scratch cold manifest dry_run reason)
    unfolding archive_one
    Keeps-archive_other =
        Keeps-bind _ _ (Keeps-attempt H _ (Keeps-perform H closed (stat path) (λ r. refl)))
          Keeps-found
