-- ===== src/Scratch/Copying.antt =====
-- The functions that scratch-overflow.py and scratch-restore.py share: `copy_and_hash`,
-- `fd_sha256`, `tmp_sibling` and `fsync_dir`, and the removal of a temporary file.
pub mod Quiet
pub mod Contents
pub mod Temporary
pub mod ReadBack
use krg_infra.Prelude.{
  ℕ, zero, suc, ◌+◌, String, ◌<>◌, Option, none, some, List, [], ◌∷◌, ◌++◌, length, ◌==◌, text_eq,
  nat_eq, list_eq, if◌then◌else◌, Bool, false, ◌&&◌, leb,
}
use krg_infra.Effects.{Result, ok, Exec, pure, throw, catch, ◌>>=◌, ◌>>◌}
use krg_infra.Scratch.Os.{
  Failure, fuel_spent, Bytes, open_read, open_new, open_dir, lexists, unlink, read, write, fsync,
  close, rewind, urandom, Stat, Host, Run, perform, finally, attempt,
}
use krg_infra.Scratch.Paths.{dirname, join}

abbrev pub drop : ℕ → Bytes → Bytes
drop zero bs = bs
drop (suc n) [] = []
drop (suc n) (b ∷ bs) = drop n bs

abbrev pub or_dot : String → String
or_dot d = if d == "" then "." else d

-- The temporary path beside `path` for a tag and the random digits.
abbrev pub sibling : String → String → String → String
sibling path tag digits = join (or_dot (dirname path)) ("." <> tag <> "-" <> digits <> ".tmp")

-- Whether two reports are on one file with the same contents, as far as they tell.
abbrev pub same_file : Stat → Stat → Bool
same_file a b = a.ino == b.ino && a.size == b.size && a.mtime == b.mtime && a.ctime == b.ctime

abbrev pub unchanged : Stat → Option Stat → Bool
unchanged st none = false
unchanged st (some st2) = same_file st2 st

abbrev pub max : ℕ → ℕ → ℕ
max a b = if leb a b then b else a

module _ (H : Host) where
  -- `while mv: mv = mv[os.write(dst_fd, mv):]`
  drain : (fuel fd : ℕ) → Bytes → Run H (Unit {0})
  drain fuel fd [] = pure tt
  drain zero fd (b ∷ bs) = throw fuel_spent
  drain (suc fuel) fd (b ∷ bs) =
      perform H (write fd (b ∷ bs)) >>= λ k. drain fuel fd (drop k (b ∷ bs))

  -- The reading loop behind the bytes that the hash was fed so far, and their number.
  copy_loop : (fuel src_fd dst_fd : ℕ) → Bytes → ℕ → Run H (Bytes × ℕ)
  unfolding drain
  copy_loop zero src_fd dst_fd fed n = throw fuel_spent
  copy_loop (suc fuel) src_fd dst_fd fed n = perform H (read src_fd) >>= λ (buf : Bytes).
      let go_on =
        drain fuel dst_fd buf >> copy_loop fuel src_fd dst_fd (fed ++ buf) (n + length buf) in
      if buf == [] then pure (fed, n) else go_on

  -- The loop between the two files, which closes the source, and the sync of the copy.
  copy_contents : (fuel src_fd dst_fd : ℕ) → Run H (Bytes × ℕ)
  unfolding copy_loop
  copy_contents fuel src_fd dst_fd = do
    copied ← finally H (copy_loop fuel src_fd dst_fd [] 0) (perform H (close src_fd))
    perform H (fsync dst_fd)
    pure copied

  abbrev close_and_raise : {A : Type 0} → ℕ → Failure → Run H A
  close_and_raise fd e = perform H (close fd) >> throw e

  -- The hash of the source, the number of its bytes, and the descriptor of the copy.
  unfoldable pub copy_and_hash : (fuel : ℕ) → String → String → Run H (String × ℕ × ℕ)
  unfolding copy_contents
  copy_and_hash fuel src dst = do
    src_fd ← perform H (open_read src)
    dst_fd ← catch (perform H (open_new dst)) (close_and_raise src_fd)
    (fed, n) ← catch (copy_contents fuel src_fd dst_fd) (close_and_raise dst_fd)
    pure (H.sha256 fed, n, dst_fd)

  unfoldable pub tmp_sibling : String → String → Run H String
  tmp_sibling path tag = do digits ← perform H urandom; pure (sibling path tag digits)

  hash_loop : (fuel fd : ℕ) → Bytes → Run H Bytes
  hash_loop zero fd fed = throw fuel_spent
  hash_loop (suc fuel) fd fed = perform H (read fd) >>= λ (b : Bytes).
      let go_on = hash_loop fuel fd (fed ++ b) in if b == [] then pure fed else go_on

  unfoldable pub fd_sha256 : (fuel fd : ℕ) → Run H String
  unfolding hash_loop
  fd_sha256 fuel fd = do perform H (rewind fd); fed ← hash_loop fuel fd []; pure (H.sha256 fed)

  abbrev sync_and_close : Option ℕ → Run H (Unit {0})
  sync_and_close none = pure tt
  sync_and_close (some fd) =
      finally H (attempt H (perform H (fsync fd)) >> pure tt) (perform H (close fd))

  unfoldable pub fsync_dir : String → Run H (Unit {0})
  fsync_dir path = attempt H (perform H (open_dir path)) >>= sync_and_close

  -- `if os.path.lexists(part): os.unlink(part)`
  unfoldable pub unlink_stale : String → Run H (Unit {0})
  unlink_stale part = do
    there ← perform H (lexists part)
    if there then perform H (unlink part) else pure tt

  -- The same in the handler of an error, where an `OSError` is passed over.
  unfoldable pub discard : String → Run H (Unit {0})
  unfolding unlink_stale
  discard part = attempt H (unlink_stale part) >> pure tt
