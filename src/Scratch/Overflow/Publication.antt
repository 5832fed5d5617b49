-- ===== src/Scratch/Overflow/Publication.antt =====
-- `publish` of the model: the copy is in its place, verified and synced, when it returns a hash.
use krg_infra.Prelude.{
  ℕ, String, true, false, not, ◌==◌, text_eq, nat_eq, List, Option, none, some, length, ◌≡◌, refl,
  sym, ◌||◌, ◌∙◌, inl, arith,
}
use text.Mathlib.TextEquality.{eq_iff}
use krg_infra.Effects.{ok, pure, ◌>>◌}
use krg_infra.Scratch.Os.{
  finally, Bytes, Stat, Event, did, stat, rename, fsync, unlink, close, fchown, fchmod, utime, Host,
  perform,
}
use krg_infra.Scratch.Paths.{dirname}
use krg_infra.Scratch.Steps.{
  Steps, Steps-perform, Steps-pure, Steps-if, Steps-given, Steps-some, Steps-bind, Steps-weaken,
}
use krg_infra.Scratch.Trace.{Lasts, Earlier, Earlier-Lasts, After, After-Lasts, Keeps-unlink}
use krg_infra.Scratch.Copying.{fsync_dir}
use krg_infra.Scratch.Copying.Quiet.{quiet_rules, Keeps-fsync_dir, Keeps-unlink_stale}
use krg_infra.Scratch.Copying.Contents.{Transfers}
use krg_infra.Scratch.Overflow.{seal, verify, publish}
use krg_infra.Scratch.Overflow.Quiet.{Keeps-makedirs_mirror}
use krg_infra.Scratch.Copying.ReadBack.{
  LookedAt, ReadBack, Synced, Published, Transferred, IfHash-Lasts, hash-Steps, copy-Steps,
  closing-Steps,
}
use krg_infra.Scratch.Overflow.Archived.{
  IfSome, IsSwap, Safe, SafeAnd, SafeAnd-IsClosed, quiet, call,
}
use krg_infra.Scratch.Guarding.{Anything, IfTrue}

module _ (H : Host) (path dest : String) where
  module _ {S : List Event → Type 0} (lasts : Lasts S) (part : String) (st : Stat) (fd : ℕ) where
    seal-Steps :
        Steps H
          ((SafeAnd H path dest) S)
          (seal H part st fd)
          (λ _. (SafeAnd H path dest) (After (did (fsync fd) (ok tt)) S))
          (Safe H path dest)
    unfolding seal
    seal-Steps =
        Steps-bind H _ _ _ (call H path dest lasts (fchown fd st.uid st.gid) (λ r. refl)) λ _.
          Steps-bind H _ _ _ (call H path dest lasts (fchmod fd st.mode) (λ r. refl)) λ _.
            Steps-bind H _ _ _ (call H path dest lasts (utime fd st.atime st.mtime) (λ r. refl))
              λ _.
                Steps-bind H (λ _. (SafeAnd H path dest) (After (did (fsync fd) (ok tt)) S)) _ _
                  (Steps-perform H (fsync fd) (λ _ t (g, s). (((λ d. cc), g), inl (refl, s)))
                    (λ e t (g, s). ((λ d. cc), g)))
                  λ _.
                    let sealed = After-Lasts (did (fsync fd) (ok tt)) S in
                    quiet H path dest sealed _
                      (search (quiet_rules, (SafeAnd-IsClosed H path dest) sealed) depth 12)

  module _ (part : String) (apart : (part == path) ≡ false) (st : Stat) where
    give_up-Steps :
        {S : List Event → Type 0} (fd : ℕ)
        → Lasts S
        → Steps H
            ((SafeAnd H path dest) S)
            (perform H (unlink part) >> pure false)
            (λ good. (SafeAnd H path dest) (IfTrue good (Synced H path st part fd)))
            (Safe H path dest)
    give_up-Steps {S} fd lasts =
        Steps-bind H (λ _. (SafeAnd H path dest) S) _ _
          (quiet H path dest lasts _
            (Keeps-unlink H ((SafeAnd-IsClosed H path dest) lasts) part apart))
          (λ _. Steps-pure H false (λ t h. (h.0, (λ p. cc))))

    accept-Steps :
        (fd : ℕ)
        → Steps H
            ((SafeAnd H path dest) (Earlier (ReadBack H path st part fd)))
            (seal H part st fd >> pure true)
            (λ good. (SafeAnd H path dest) (IfTrue good (Synced H path st part fd)))
            (Safe H path dest)
    accept-Steps fd =
        Steps-bind H (λ _. (SafeAnd H path dest) (Synced H path st part fd)) _ _
          (seal-Steps (Earlier-Lasts (ReadBack H path st part fd)) part st fd)
          (λ _. Steps-pure H true (λ t h. (h.0, (λ p. h.1))))

    verify-Steps :
        (fuel n fd : ℕ) (sha : String) (bytes : Bytes)
        → (sha ≡ H.sha256 bytes) × (n ≡ length bytes)
        → Steps H
            ((SafeAnd H path dest) (Transferred H (IsSwap H path dest) path path part st fd bytes))
            (verify H fuel part st sha n fd)
            (λ good. (SafeAnd H path dest) (IfTrue good (Synced H path st part fd)))
            (Safe H path dest)
    unfolding verify
    verify-Steps fuel n fd sha bytes (hash, count) =
        Steps-if H (not (n == st.size)) _ _
          (λ _. give_up-Steps fd (Earlier-Lasts (Transfers path part fd bytes (LookedAt path st))))
          (λ same.
            Steps-bind H _ _ _
              (hash-Steps H (IsSwap H path dest) path path part st fuel fd sha bytes hash
                (sym count ∙ ground (arith, same)))
              λ back.
                Steps-if H (back == sha) _ _
                  (λ equal.
                    Steps-weaken H _ (λ t h. (h.0, h.1 ((eq_iff back sha).0 equal))) (λ _ t h. h)
                      (λ t h. h) (accept-Steps fd))
                  (λ _.
                    give_up-Steps fd
                      (IfHash-Lasts H (IsSwap H path dest) path path part st fd sha back)))

    -- The cold copy has been published if there is a hash.
    abbrev pub IfPublished : Option String → List Event → Type 0
    IfPublished o = IfSome o (λ t. (fd : ℕ) × Published H path dest st part fd t)

    module _ (cold_apart : (dest == path) ≡ false) (fd : ℕ) where
      put-Steps :
          (sha : String)
          → Steps H
              (SafeAnd H path dest (Synced H path st part fd))
              (perform H (rename part dest) >> (fsync_dir H (dirname dest) >> pure (some sha)))
              (λ o. SafeAnd H path dest (IfPublished o))
              (Safe H path dest)
      put-Steps sha =
          let elsewhere : (part == path || dest == path) ≡ false = rw apart cold_apart in
          let there = After-Lasts (did (rename part dest) (ok tt)) (Synced H path st part fd) in
          Steps-bind H (λ _. SafeAnd H path dest (Published H path dest st part fd)) _ _
            (Steps-perform H (rename part dest) (λ _ t (g, s). (((λ d. cc), g), inl (refl, s)))
              (λ e t (g, s). ((λ d. cc), g)))
            λ _.
              Steps-bind H _ _ _
                (quiet H path dest there _
                  (Keeps-fsync_dir H (SafeAnd-IsClosed H path dest there) (dirname dest)))
                λ _. Steps-pure H (some sha) (λ t h. (h.0, (fd, h.1)))

      verified-Steps :
          (fuel n : ℕ) (sha : String) (bytes : Bytes)
          → (sha ≡ H.sha256 bytes) × (n ≡ length bytes)
          → Steps H
              (SafeAnd H path dest (Transferred H (IsSwap H path dest) path path part st fd bytes))
              (finally H (verify H fuel part st sha n fd) (perform H (close fd)))
              (λ good. SafeAnd H path dest (IfTrue good (Synced H path st part fd)))
              (Safe H path dest)
      verified-Steps fuel n sha bytes facts =
          closing-Steps H (IsSwap H path dest) path path part st fd bytes _
            (verify-Steps fuel n fd sha bytes facts)

    pub publish-Steps :
        (fuel : ℕ) (scratch cold rel : String)
        → (dest == path) ≡ false
        → Steps H
            (SafeAnd H path dest (LookedAt path st))
            (publish H fuel path scratch cold rel dest part st)
            (λ o. SafeAnd H path dest (IfPublished o))
            (Safe H path dest)
    unfolding publish
    publish-Steps fuel scratch cold rel cold_apart =
        let looked = After-Lasts (did (stat path) (ok st)) Anything in
        let closed = SafeAnd-IsClosed H path dest looked in
        Steps-bind H _ _ _
          (quiet H path dest looked _ (Keeps-makedirs_mirror H closed scratch cold rel))
          λ _.
            Steps-bind H _ _ _ (quiet H path dest looked _ (Keeps-unlink_stale H closed part apart))
              λ _.
                Steps-bind H _ _ _ (copy-Steps H (IsSwap H path dest) path path part st fuel)
                  λ (sha, n, fd). Steps-some H _ λ bytes.
                    Steps-given H _ (λ t h. h.0)
                      λ facts.
                        Steps-bind H
                          (λ good. SafeAnd H path dest (IfTrue good (Synced H path st part fd))) _ _
                          (Steps-weaken H _ (λ t h. h.1) (λ _ t h. h) (λ t h. h)
                            (verified-Steps cold_apart fd fuel n sha bytes facts))
                          λ good.
                            Steps-if H good _ _
                              (λ yes_good.
                                Steps-weaken H _ (λ t h. (h.0, h.1 yes_good)) (λ _ t h. h)
                                  (λ t h. h) (put-Steps cold_apart fd sha))
                              (λ _. Steps-pure H none (λ t h. (h.0, tt)))
