-- ===== src/Scratch/Copying/Quiet.antt =====
-- The functions of Copying.antt destroy nothing but the temporary file that they are given.
use krg_infra.Prelude.{
  ℕ, zero, suc, list_beq, nat_eq, String, false, ◌++◌, ◌==◌, text_eq, ◌≡◌, ◌∷◌, [], ◌+◌, length,
  Option, none, some, List,
}
use krg_infra.Effects.Triple.{Keeps, Keeps-bind, Keeps-if, Keeps-pure, keeps_rules}
use krg_infra.Effects.{pure}
use krg_infra.Scratch.Os.{Bytes, Failure, Event, Host}
use krg_infra.Scratch.Copying.{
  drain, copy_loop, copy_contents, close_and_raise, copy_and_hash, tmp_sibling, hash_loop,
  fd_sha256, sync_and_close, fsync_dir, unlink_stale, discard, drop,
}
use krg_infra.Scratch.Steps.{Traced, Keeps-finally, Keeps-except_os_error, Keeps-attempt}
use krg_infra.Scratch.Trace.{
  IsClosed, Keeps-perform, Keeps-close, Keeps-unlink, Keeps-mkdir, Keeps-chmod, Keeps-write_text,
  Keeps-write_entry, Keeps-open_append, Keeps-open_null,
}

pub ruleset quiet_rules = (
  keeps_rules, Keeps-finally, Keeps-except_os_error, Keeps-attempt, Keeps-perform, Keeps-close,
  Keeps-unlink, Keeps-mkdir, Keeps-chmod, Keeps-write_text, Keeps-write_entry, Keeps-open_append,
  Keeps-open_null,
)

module _ (H : Host) {p : String} {T : List Event → Type 0} (closed : IsClosed p T) where
  Keeps-drain : (fuel fd : ℕ) (bs : Bytes) → Keeps (Traced H T) (drain H fuel fd bs)
  unfolding drain
  Keeps-drain fuel fd [] = search quiet_rules
  Keeps-drain zero fd (b ∷ bs) = search quiet_rules
  Keeps-drain (suc fuel) fd (b ∷ bs) =
      search (quiet_rules, λ (k : ℕ). Keeps-drain fuel fd (drop k (b ∷ bs)))

  Keeps-copy_loop :
      (fuel src fd : ℕ) (fed : Bytes) (n : ℕ) → Keeps (Traced H T) (copy_loop H fuel src fd fed n)
  unfolding copy_loop
  Keeps-copy_loop zero src fd fed n = search quiet_rules
  Keeps-copy_loop (suc fuel) src fd fed n = Keeps-bind _ _ (search quiet_rules) λ (buf : Bytes).
      Keeps-if (list_beq buf []) (pure (fed, n)) _ (Keeps-pure _) (
        Keeps-bind _ _ (Keeps-drain fuel fd buf)
          λ _. Keeps-copy_loop fuel src fd (fed ++ buf) (n + length buf))

  Keeps-close_and_raise :
      {A : Type 0} (fd : ℕ) (e : Failure) → Keeps (Traced H T) (close_and_raise H {A = A} fd e)
  Keeps-close_and_raise fd e = search quiet_rules

  Keeps-copy_contents : (fuel src fd : ℕ) → Keeps (Traced H T) (copy_contents H fuel src fd)
  unfolding copy_contents
  Keeps-copy_contents fuel src fd = search (quiet_rules, Keeps-copy_loop) depth 8

  pub Keeps-copy_and_hash :
      (fuel : ℕ) (src dst : String) → Keeps (Traced H T) (copy_and_hash H fuel src dst)
  unfolding copy_and_hash
  Keeps-copy_and_hash fuel src dst =
      search (quiet_rules, Keeps-copy_contents, Keeps-close_and_raise) depth 10

  pub Keeps-tmp_sibling : (path tag : String) → Keeps (Traced H T) (tmp_sibling H path tag)
  unfolding tmp_sibling
  Keeps-tmp_sibling path tag = search quiet_rules

  Keeps-hash_loop : (fuel fd : ℕ) (fed : Bytes) → Keeps (Traced H T) (hash_loop H fuel fd fed)
  unfolding hash_loop
  Keeps-hash_loop zero fd fed = search quiet_rules
  Keeps-hash_loop (suc fuel) fd fed = Keeps-bind _ _ (search quiet_rules) λ (b : Bytes).
      Keeps-if (list_beq b []) (pure fed) _ (Keeps-pure _) (Keeps-hash_loop fuel fd (fed ++ b))

  pub Keeps-fd_sha256 : (fuel fd : ℕ) → Keeps (Traced H T) (fd_sha256 H fuel fd)
  unfolding fd_sha256
  Keeps-fd_sha256 fuel fd = search (quiet_rules, Keeps-hash_loop) depth 8

  Keeps-sync_and_close : (fd : Option ℕ) → Keeps (Traced H T) (sync_and_close H fd)
  Keeps-sync_and_close none = search quiet_rules
  Keeps-sync_and_close (some fd) = search quiet_rules depth 10

  pub Keeps-fsync_dir : (path : String) → Keeps (Traced H T) (fsync_dir H path)
  unfolding fsync_dir
  Keeps-fsync_dir path = search (quiet_rules, Keeps-sync_and_close) depth 8

  module _ (part : String) (apart : (part == p) ≡ false) where
    pub Keeps-unlink_stale : Keeps (Traced H T) (unlink_stale H part)
    unfolding unlink_stale
    Keeps-unlink_stale = search quiet_rules depth 8

    pub Keeps-discard : Keeps (Traced H T) (discard H part)
    unfolding discard
    Keeps-discard = search (quiet_rules, Keeps-unlink_stale) depth 8
