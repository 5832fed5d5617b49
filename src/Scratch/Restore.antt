-- ===== src/Scratch/Restore.antt =====
-- scratch-restore.py: `under_any`, `restore_one`, `walk_links` and `main`.
pub mod Command
pub mod Restored
pub mod Fetched
pub mod Target
pub mod Safety
use Prim.Native.Char.{code}
use text.Mathlib.Text.{starts_with}
use krg_infra.Prelude.{
  ℕ, zero, suc, ◌+◌, String, ◌<>◌, Bool, true, false, not, ◌&&◌, ◌||◌, Option, none, some, List, [],
  ◌∷◌, ◌++◌, ◌==◌, leb, text_eq, nat_eq, list_eq, option_eq, if◌then◌else◌, keep, any,
}
use krg_infra.Text.{split_at, text_le}
use krg_infra.Sorted.{sorted, dedup}
use krg_infra.Effects.{pure, throw, map_exec, ◌>>=◌, ◌>>◌}
use krg_infra.Scratch.Os.{
  fuel_spent, os_error, other_error, is_regular, is_symlink, Stat, stat, lstat, is_link, is_dir,
  realpath, readlink, unlink, list_dir, rename, fsync, close, fstat, fchown, utime, fchmod, clock,
  geteuid, Host, Run, perform, finally, except_os_error, attempt,
}
use krg_infra.Scratch.Paths.{dirname, basename, join}
use krg_infra.Scratch.Copying.{
  copy_and_hash, tmp_sibling, fd_sha256, fsync_dir, unlink_stale, discard, unchanged, max,
}

-- Whether a path is one of the roots or lies below one.
abbrev pub under_any : String → List String → Bool
under_any path roots = any (λ r. path == r || starts_with path (r <> "/")) roots

-- Where restoring is allowed: the scratch areas, the cold areas, and the pairs of them.
pub record Areas : Type 0 where
  pub scratch_roots : List String
  pub cold_roots : List String
  pub pairs : List (String × String)

-- A link's text as a path: relative to the directory of the link.
abbrev pub absolute : String → String → String
absolute link target = if starts_with target "/" then target else join (dirname link) target

module _ (H : Host) where
  -- The canonical place of a link's archive, by the first pair whose scratch area holds the link.
  expected_target :
      (link_parent link_real : String) → List (String × String) → Run H (Option String)
  expected_target link_parent link_real [] = pure none
  expected_target link_parent link_real ((sroot, croot) ∷ pairs) =
      let here =
        perform H (realpath (join croot (H.relpath link_real sroot))) >>= λ (expected : String).
        pure (some expected) in
      let rest = expected_target link_parent link_real pairs in
      if under_any link_parent (sroot ∷ []) then here else rest

  -- Whether the target is the canonical place, if pairs are known.
  is_pinned : (link link_parent target : String) → List (String × String) → Run H Bool
  unfolding expected_target
  is_pinned link link_parent target [] = pure true
  is_pinned link link_parent target (pair ∷ pairs) = do
    expected ← expected_target link_parent (join link_parent (basename link)) (pair ∷ pairs)
    pure (expected == some target)

  -- The owner and the times of the restored file, and its sync.
  stamp : Stat → ℕ → Run H (Unit {0})
  stamp tst fd = do
    perform H (fchmod fd tst.mode)
    now ← perform H clock
    perform H (utime fd (max now tst.atime) tst.mtime)
    euid ← perform H geteuid
    if euid == 0 then perform H (fchown fd tst.uid tst.gid) else pure tt
    perform H (fsync fd)

  -- Fails if `part` is no longer the file that is open.
  ensure_same : String → ℕ → Run H (Unit {0})
  ensure_same part fd = do
    lp ← perform H (lstat part)
    if is_symlink lp.kind then throw (os_error other_error) else do
      fst ← perform H (fstat fd)
      if lp.ino == fst.ino then pure tt else throw (os_error other_error)

  -- What follows the hash of the restored file.
  accept : (target part : String) → Stat → ℕ → Run H Bool
  unfolding stamp ensure_same
  accept target part tst fd = do
    stamp tst fd
    tcur ← attempt H (perform H (stat target))
    if not (unchanged tst tcur)
        then perform H (unlink part) >> pure false
        else ensure_same part fd >> pure true

  -- Whether the copy in `part` is the archived file.
  pub check : (fuel : ℕ) → (target part : String) → Stat → String → ℕ → ℕ → Run H Bool
  unfolding accept
  check fuel target part tst src_sha n fd =
      if not (n == tst.size) then perform H (unlink part) >> pure false else do
        sha ← fd_sha256 H fuel fd
        if sha == src_sha then accept target part tst fd else perform H (unlink part) >> pure false

  -- Puts the file in the place of its link.
  pub fetch : (fuel : ℕ) → (link target part : String) → Stat → Run H Bool
  unfolding check
  fetch fuel link target part tst = do
    unlink_stale H part
    (src_sha, n, fd) ← copy_and_hash H fuel target part
    good ← finally H (check fuel target part tst src_sha n fd) (perform H (close fd))
    if good
        then (do perform H (rename part link); fsync_dir H (dirname link); pure true)
        else pure false

  -- Removes the cold copy if it is still the file that was restored.
  pub remove_cold : String → Stat → Run H (Unit {0})
  remove_cold target tst = do
    tst2 ← attempt H (perform H (stat target))
    if unchanged tst tst2
        then except_os_error H (perform H (unlink target) >> fsync_dir H (dirname target))
            (λ _. pure tt)
        else pure tt

  -- The restoring of a link whose target may be restored.
  pub restore_target : (fuel : ℕ) → Bool → (link target : String) → Option Stat → Run H Bool
  unfolding fetch remove_cold
  restore_target fuel keep_cold link target none = pure false
  restore_target fuel keep_cold link target (some tst) =
      if not (is_regular tst.kind) then pure false else do
        part ← tmp_sibling H link "sr"
        restored ←
            except_os_error H (fetch fuel link target part tst) (λ _. discard H part >> pure false)
        if not restored
            then pure false
            else if keep_cold
            then pure true
            else remove_cold target tst >> pure true

  -- What follows once the link's directory is known to lie in the scratch area.
  restore_link : (fuel : ℕ) → Areas → Bool → (link link_parent : String) → Run H Bool
  unfolding is_pinned restore_target
  restore_link fuel areas keep_cold link link_parent = do
    text ← perform H (readlink link)
    target ← perform H (realpath (absolute link text))
    if not (under_any target areas.cold_roots) then pure false else do
      pinned ← is_pinned link link_parent target areas.pairs
      if not pinned then pure false else do
        tst ← attempt H (perform H (stat target))
        restore_target fuel keep_cold link target tst

  unfoldable pub restore_one : (fuel : ℕ) → Areas → Bool → String → Run H Bool
  unfolding restore_link
  restore_one fuel areas keep_cold link = do
    linked ← perform H (is_link link)
    if not linked then pure false else do
      link_parent ← perform H (realpath (dirname link))
      if not (areas.scratch_roots == []) && not (under_any link_parent areas.scratch_roots)
          then pure false
          else restore_link fuel areas keep_cold link link_parent
