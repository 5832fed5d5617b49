-- ===== src/Scratch/Copying/ReadBack.antt =====
-- A file is copied and the copy is read back, while another path, or the same, is guarded.
use krg_infra.Prelude.{ℕ, String, Bool, List, length, ◌≡◌, refl, sym, ap, ◌∙◌, inr}
use krg_infra.Effects.{ok}
use krg_infra.Scratch.Os.{
  Bytes, Stat, Event, did, stat, rename, fsync, close, Host, Run, perform, finally,
}
use krg_infra.Scratch.Steps.{Steps, Steps-weaken, Steps-finally, Steps-of_Keeps}
use krg_infra.Scratch.Trace.{
  Guarded, Guarded-IsClosed, Lasts, read_from, Earlier, Earlier-now, Earlier-Lasts, After,
  After-Lasts, Keeps-close,
}
use krg_infra.Scratch.Guarding.{Anything, IfTrue, IfTrue-Lasts, SafeAnd, SafeAnd-IsClosed, call}
use krg_infra.Scratch.Copying.{copy_and_hash, fd_sha256}
use krg_infra.Scratch.Copying.Contents.{
  Transfers, Transfers-map, copy_and_hash-Hashed, fd_sha256-Read,
}

-- The file was looked at.
abbrev pub LookedAt : String → Stat → List Event → Type 0
LookedAt path st = After (did (stat path) (ok st)) Anything

-- The contents that `fd` gives have just been read back in full. They have the hash of the bytes
-- that were read from the file and written to `part`, as many as the file had when it was looked at.
abbrev pub ReadBack : Host → (path : String) → Stat → (part : String) (fd : ℕ) → List Event → Type 0
ReadBack H path st part fd t =
    (bytes : Bytes) × (H.sha256 (read_from fd t) ≡ H.sha256 bytes)
    × (length bytes ≡ st.size)
    × Earlier (Transfers path part fd bytes (LookedAt path st)) t

-- After that the copy was synced.
abbrev pub Synced : Host → (path : String) → Stat → (part : String) (fd : ℕ) → List Event → Type 0
Synced H path st part fd = After (did (fsync fd) (ok tt)) (Earlier (ReadBack H path st part fd))

-- And then it was put in its place.
abbrev pub Published :
    Host → (path dest : String) → Stat → (part : String) (fd : ℕ) → List Event → Type 0
Published H path dest st part fd = After (did (rename part dest) (ok tt)) (Synced H path st part fd)

module _ (H : Host) (Allowed : Event → List Event → Type 0) (p path part : String) (st : Stat) where
  abbrev pub Transferred : ℕ → Bytes → List Event → Type 0
  Transferred fd bytes = Earlier (Transfers path part fd bytes (LookedAt path st))

  -- The contents have been read back, if the hash is right.
  abbrev pub IfHash : ℕ → (sha back : String) → List Event → Type 0
  IfHash fd sha back t = back ≡ sha → Earlier (ReadBack H path st part fd) t

  pub IfHash-Lasts : (fd : ℕ) (sha back : String) → Lasts (IfHash fd sha back)
  IfHash-Lasts fd sha back = record { add = λ e t h same. inr (h same) }

  pub hash-Steps :
      (fuel fd : ℕ) (sha : String) (bytes : Bytes)
      → sha ≡ H.sha256 bytes
      → length bytes ≡ st.size
      → Steps H
          (SafeAnd H Allowed p (Transferred fd bytes))
          (fd_sha256 H fuel fd)
          (λ back. SafeAnd H Allowed p (IfHash fd sha back))
          (Guarded Allowed p)
  hash-Steps fuel fd sha bytes hash count =
      Steps-weaken H _ (λ t h. h)
        (λ back t (read, e, r, h). (
          h.0,
          λ same.
              Earlier-now (ReadBack H path st part fd) t
                (bytes, ap H.sha256 r ∙ sym e ∙ same ∙ hash, count, h.1),
        ))
        (λ t h. h.0)
        (fd_sha256-Read H
          (SafeAnd-IsClosed H Allowed p
            (Earlier-Lasts (Transfers path part fd bytes (LookedAt path st))))
          fuel fd)

  -- `copy_and_hash`, its result spelled out.
  pub copy-Steps :
      (fuel : ℕ)
      → Steps H
          (SafeAnd H Allowed p (LookedAt path st))
          (copy_and_hash H fuel path part)
          (λ (sha, n, fd) t.
            (bytes : Bytes) × (((sha ≡ H.sha256 bytes) × (n ≡ length bytes))
              × SafeAnd H Allowed p (Transferred fd bytes) t))
          (Guarded Allowed p)
  copy-Steps fuel =
      let looked = After-Lasts (did (stat path) (ok st)) Anything in
      let both = SafeAnd H Allowed p (LookedAt path st) in
      Steps-weaken H _ (λ t h. h)
        (λ (sha, n, fd) t ((bytes, hash, count, moved), (g, l)). (
          bytes,
          (
            (hash, count),
            (g, Transfers-map path part fd bytes both (LookedAt path st) t (λ t h. h.1) moved),
          ),
        ))
        (λ t h. h.0) (copy_and_hash-Hashed H (SafeAnd-IsClosed H Allowed p looked) fuel path part)

  -- The descriptor is closed behind the check of the copy.
  pub closing-Steps :
      (fd : ℕ) (bytes : Bytes) (m : Run H Bool)
      → Steps H
          (SafeAnd H Allowed p (Transferred fd bytes))
          m
          (λ good. SafeAnd H Allowed p (IfTrue good (Synced H path st part fd)))
          (Guarded Allowed p)
      → Steps H
          (SafeAnd H Allowed p (Transferred fd bytes))
          (finally H m (perform H (close fd)))
          (λ good. SafeAnd H Allowed p (IfTrue good (Synced H path st part fd)))
          (Guarded Allowed p)
  closing-Steps fd bytes m checked =
      Steps-finally H _ _ checked
        (λ good. call H Allowed p (IfTrue-Lasts good (After-Lasts _ _)) (close fd) (λ r. refl))
        (Steps-of_Keeps H _ (λ t h. h) (Keeps-close H (Guarded-IsClosed Allowed p) fd))
