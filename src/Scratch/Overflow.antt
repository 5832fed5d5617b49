-- ===== src/Scratch/Overflow.antt =====
-- scratch-overflow.py: the manifest, the note, the mirrored directories, and `archive_one`.
pub mod Quiet
pub mod Archived
pub mod Publication
pub mod Replacement
pub mod Safety
pub mod Others
pub mod Candidates
pub mod Sweep
use text.Mathlib.Text.{starts_with}
use krg_infra.Prelude.{
  ℕ, zero, suc, ◌+◌, ◌*◌, ◌/◌, String, ◌<>◌, Bool, true, false, not, ◌&&◌, ◌||◌, Option, none, some,
  List, [], ◌∷◌, ◌==◌, leb, text_eq, nat_eq, if◌then◌else◌,
}
use krg_infra.Text.{split_at}
use krg_infra.Effects.{Result, ok, Exec, pure, throw, catch, ◌>>=◌, ◌>>◌}
use krg_infra.Scratch.Os.{
  OsError, file_not_found, other_error, Failure, os_error, is_regular, is_directory, is_symlink,
  FileKind, Stat, Entry, stat, lstat, realpath, unlink, open_append, open_truncated, symlink,
  rename, mkdir, chmod, lchown, fsync, close, fstat, fchown, utime, fchmod, clock, write_text,
  write_entry, Host, Run, perform, finally, except_os_error, attempt,
}
use krg_infra.Scratch.Paths.{dirname, join}
use krg_infra.Scratch.Copying.{
  copy_and_hash, tmp_sibling, fd_sha256, fsync_dir, unlink_stale, discard, unchanged, max,
}

abbrev pub note_name : String
note_name = "WHERE-IS-MY-DATA.txt"

abbrev pub archive_dir : String
archive_dir = ".scratch-overflow"

abbrev note_text : String → String
note_text cold =
    "Some files under this scratch directory have been moved to network storage (NFS):\n"
    <> "either they had not been touched in a long time, or they were the coldest files when\n"
    <> "scratch filled up and space had to be freed.\n\n"
    <> "A moved file now appears as a SYMLINK pointing into " <> cold
    <> ".\nReading it still works exactly as before — the data is just served over the\n"
    <> "network, so it is slower. Nothing has been lost.\n\n"
    <> "To pull a file (or a whole directory) back to fast local storage:\n\n"
    <> "    scratch-restore PATH [PATH ...]\n\n"
    <> "Anything you are actively using will stay local; only cold files get moved.\n"
    <> "This is automatic and reversible — you never need to ask an admin.\n"

unfoldable pub last_use : Stat → ℕ
last_use st = max (max st.atime st.mtime) st.ctime

abbrev pub nanoseconds : ℕ
nanoseconds = 1000000000

-- Whether the resolved destination lies outside the resolved cold area.
abbrev escapes : String → String → Bool
escapes cold_real dest_real =
    not (dest_real == cold_real) && not (starts_with dest_real (cold_real <> "/"))

abbrev is_some : {A : Type 0} → Option A → Bool
is_some none = false
is_some (some a) = true

module _ (H : Host) where
  abbrev if_missing : {A : Type 0} → Run H A → Failure → Run H A
  if_missing h (os_error file_not_found) = h
  if_missing h e = throw e

  -- `try: m except FileNotFoundError: h`
  unfoldable pub except_missing : {A : Type 0} → Run H A → Run H A → Run H A
  except_missing m h = catch m (if_missing h)

  -- Whether the state directory is there and may be used.
  prepare_state_dir : String → Run H Bool
  unfolding except_missing
  prepare_state_dir state_dir =
      except_missing
        (do
          ds ← perform H (lstat state_dir)
          if is_symlink ds.kind || not (is_directory ds.kind) || not (ds.uid == 0)
              then pure false
              else perform H (chmod state_dir 0o700) >> pure true)
        (do made ← attempt H (perform H (mkdir state_dir 0o700)); pure (is_some made))

  unfoldable pub open_manifest : String → Run H (Option ℕ)
  unfolding prepare_state_dir
  open_manifest state_dir = do
    usable ← prepare_state_dir state_dir
    if usable
        then attempt H (perform H (open_append (join state_dir "manifest.jsonl")))
        else pure none

  unfoldable pub write_note : String → String → Run H (Unit {0})
  write_note scratch cold =
      except_os_error H
        (do
          fd ← perform H (open_truncated (join scratch note_name))
          finally H (perform H (write_text fd (note_text cold))) (perform H (close fd)))
        (λ _. pure tt)

  -- What is done with a component of the cold path by its kind, if it is there.
  make_or_check : String → Option FileKind → Run H (Unit {0})
  make_or_check cur_cold none = perform H (mkdir cur_cold 0o777)
  make_or_check cur_cold (some kind) =
      if is_symlink kind || not (is_directory kind) then throw (os_error other_error) else pure tt

  -- Makes sure that a component of the cold path is a directory and no link.
  ensure_directory : String → Run H (Unit {0})
  unfolding except_missing make_or_check
  ensure_directory cur_cold =
      except_missing (do cst ← perform H (lstat cur_cold); pure (some cst.kind)) (pure none)
      >>= make_or_check cur_cold

  -- The owner and the mode of the source's directory, as far as they can be set.
  copy_owner : String → String → Run H (Unit {0})
  copy_owner cur_src cur_cold =
      except_os_error H
        (do
          sst ← perform H (stat cur_src)
          perform H (lchown cur_cold sst.uid sst.gid)
          perform H (chmod cur_cold sst.mode))
        (λ _. pure tt)

  mirror_parts : String → String → List String → Run H (Unit {0})
  unfolding ensure_directory copy_owner
  mirror_parts cur_src cur_cold [] = pure tt
  mirror_parts cur_src cur_cold (part ∷ parts) =
      let src = join cur_src part in
      let cold = join cur_cold part in
      let below = mirror_parts src cold parts in
      let skipped = mirror_parts cur_src cur_cold parts in
      if part == "" then skipped else do ensure_directory cold; copy_owner src cold; below

  unfoldable pub makedirs_mirror : String → String → String → Run H (Unit {0})
  unfolding mirror_parts
  makedirs_mirror scratch cold rel =
      let sub = dirname rel in
      if sub == "" then pure tt else mirror_parts scratch cold (split_at 47 sub)

  -- The owner, the mode and the times of the copy, and the check that `part` is still the copy.
  seal : String → Stat → ℕ → Run H (Unit {0})
  seal part st fd = do
    perform H (fchown fd st.uid st.gid)
    perform H (fchmod fd st.mode)
    perform H (utime fd st.atime st.mtime)
    perform H (fsync fd)
    lp ← perform H (lstat part)
    if is_symlink lp.kind then throw (os_error other_error) else do
      fst ← perform H (fstat fd)
      if lp.ino == fst.ino then pure tt else throw (os_error other_error)

  -- Whether the copy is the file that was looked at: its size and its hash.
  verify : (fuel : ℕ) → String → Stat → String → ℕ → ℕ → Run H Bool
  unfolding seal
  verify fuel part st src_sha nbytes fd =
      if not (nbytes == st.size) then perform H (unlink part) >> pure false else do
        sha ← fd_sha256 H fuel fd
        if sha == src_sha
            then seal part st fd >> pure true
            else perform H (unlink part) >> pure false

  -- The cold copy beside its place, verified, and then put there; the hash of its contents.
  pub publish : (fuel : ℕ) (path scratch cold rel dest part : String) → Stat → Run H (Option String)
  unfolding verify
  publish fuel path scratch cold rel dest part st = do
    makedirs_mirror scratch cold rel
    unlink_stale H part
    (src_sha, nbytes, fd) ← copy_and_hash H fuel path part
    good ← finally H (verify fuel part st src_sha nbytes fd) (perform H (close fd))
    if good
        then (do perform H (rename part dest); fsync_dir H (dirname dest); pure (some src_sha))
        else pure none

  -- Replaces the local file by a link to its copy.
  swap : (path dest link_tmp : String) → Run H (Unit {0})
  swap path dest link_tmp = do
    unlink_stale H link_tmp
    perform H (symlink dest link_tmp)
    perform H (rename link_tmp path)
    fsync_dir H (dirname path)

  pub note_archived : (manifest : ℕ) (reason path dest sha : String) → Stat → Run H (Unit {0})
  unfolding last_use
  note_archived manifest reason path dest sha st = do
    now ← perform H clock
    perform H (
        write_entry manifest record {
          ts = now / nanoseconds;
          reason = reason;
          path = path;
          dest = dest;
          size = st.size;
          sha256 = sha;
          atime = st.atime / nanoseconds;
          last_use = last_use st / nanoseconds;
        })

  -- Whether the local file was replaced, which then is noted.
  swap_and_note : (manifest : ℕ) (reason path dest sha : String) → Stat → Run H Bool
  unfolding swap note_archived
  swap_and_note manifest reason path dest sha st = do
    link_tmp ← tmp_sibling H path "so"
    swapped ←
        except_os_error H (swap path dest link_tmp >> pure true)
          (λ _. discard H link_tmp >> pure false)
    if swapped then note_archived manifest reason path dest sha st >> pure true else pure false

  -- What follows the publication: the local file is replaced if it is still as it was.
  pub replace_local : (manifest : ℕ) (reason path dest sha : String) → Stat → Run H Bool
  unfolding swap_and_note
  replace_local manifest reason path dest sha st = do
    st2 ← attempt H (perform H (stat path))
    if not (unchanged st st2)
        then attempt H (perform H (unlink dest)) >> pure false
        else swap_and_note manifest reason path dest sha st

  after_publish : (manifest : ℕ) (reason path dest : String) → Stat → Option String → Run H Bool
  unfolding replace_local
  after_publish manifest reason path dest st none = pure false
  after_publish manifest reason path dest st (some sha) =
      replace_local manifest reason path dest sha st

  -- The archiving of a file that was found: whether it was replaced.
  archive : (fuel manifest : ℕ) (reason path scratch cold : String) → Stat → Run H Bool
  unfolding publish after_publish
  archive fuel manifest reason path scratch cold st =
      let rel = H.relpath path scratch in
      let dest = join cold rel in
      do
        cold_real ← perform H (realpath cold)
        dest_real ← perform H (realpath dest)
        if escapes cold_real dest_real then pure false else do
          part ← tmp_sibling H dest "so"
          published ←
              except_os_error H (publish fuel path scratch cold rel dest part st)
                (λ _. discard H part >> pure none)
          after_publish manifest reason path dest st published

  archive_found :
      (fuel : ℕ) (path scratch cold : String) (manifest : ℕ) → Bool → String → Option Stat → Run H ℕ
  unfolding archive
  archive_found fuel path scratch cold manifest dry_run reason none = pure 0
  archive_found fuel path scratch cold manifest dry_run reason (some st) =
      let freed = st.blocks * 512 in
      if dry_run then pure freed else do
        archived ← archive fuel manifest reason path scratch cold st
        pure (if archived then freed else 0)

  -- The bytes that archiving the file at `path` has freed, 0 if it was not archived.
  unfoldable pub archive_one :
      (fuel : ℕ) (path scratch cold : String) (manifest : ℕ) → Bool → String → Run H ℕ
  unfolding archive_found
  archive_one fuel path scratch cold manifest dry_run reason =
      attempt H (perform H (stat path))
      >>= archive_found fuel path scratch cold manifest dry_run reason
