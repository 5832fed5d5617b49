-- ===== src/Scratch/Restore/Fetched.antt =====
-- `check` and `fetch` of the model, while a path is guarded.
use text.Mathlib.TextEquality.{eq_iff}
use krg_infra.Prelude.{
  ℕ, String, Bool, true, false, not, ◌==◌, text_eq, nat_eq, List, ◌∷◌, length, ◌≡◌, refl, sym, ◌∙◌,
  inl, arith,
}
use krg_infra.Effects.{Result, ok, raised, pure, ◌>>◌}
use krg_infra.Scratch.Os.{
  Failure, Bytes, Stat, Event, did, stat, rename, unlink, fsync, fchmod, clock, utime, geteuid,
  fchown, Host, perform,
}
use krg_infra.Scratch.Paths.{dirname}
use krg_infra.Scratch.Steps.{
  Steps, Steps-perform, Steps-pure, Steps-if, Steps-given, Steps-some, Steps-bind, Steps-weaken,
  Keeps-attempt,
}
use krg_infra.Scratch.Trace.{
  Guarded, Guarded-IsClosed, Lasts, Earlier, Earlier-Lasts, After, After-Lasts, Keeps-unlink,
  Keeps-perform,
}
use krg_infra.Scratch.Guarding.{Anything, IfTrue, SafeAnd, SafeAnd-IsClosed, quiet, call, calm}
use krg_infra.Scratch.Copying.{fsync_dir, max}
use krg_infra.Scratch.Copying.Quiet.{quiet_rules, Keeps-fsync_dir, Keeps-unlink_stale}
use krg_infra.Scratch.Copying.ReadBack.{
  LookedAt, ReadBack, Synced, Published, Transferred, hash-Steps, copy-Steps, closing-Steps,
}
use krg_infra.Scratch.Restore.{stamp, ensure_same, accept, check, fetch}

module _ (H : Host) (Allowed : Event → List Event → Type 0) (p target part : String) (tst : Stat)
    (apart : (part == p) ≡ false) where
  abbrev Checked : ℕ → Bool → List Event → Type 0
  Checked fd good = SafeAnd H Allowed p (IfTrue good (Synced H target tst part fd))

  give_up-Steps :
      {S : List Event → Type 0} (fd : ℕ)
      → Steps H
          (SafeAnd H Allowed p S)
          (perform H (unlink part) >> pure false)
          (Checked fd)
          (Guarded Allowed p)
  give_up-Steps fd =
      Steps-bind H (λ _. Guarded Allowed p) _ _
        (calm H Allowed p _ (Keeps-unlink H (Guarded-IsClosed Allowed p) part apart) (λ _ t h. h))
        (λ _. Steps-pure H false (λ t h. (h, (λ e. cc))))

  stamp-Steps :
      {S : List Event → Type 0} (fd : ℕ)
      → Lasts S
      → Steps H
          (SafeAnd H Allowed p S)
          (stamp H tst fd)
          (λ _. SafeAnd H Allowed p (After (did (fsync fd) (ok tt)) S))
          (Guarded Allowed p)
  unfolding stamp
  stamp-Steps {S} fd lasts =
      let closed = SafeAnd-IsClosed H Allowed p lasts in
      Steps-bind H _ _ _ (call H Allowed p lasts (fchmod fd tst.mode) (λ r. refl)) λ _.
        Steps-bind H _ _ _ (call H Allowed p lasts clock (λ r. refl)) λ now.
          Steps-bind H _ _ _
            (call H Allowed p lasts (utime fd (max now tst.atime) tst.mtime) (λ r. refl))
            λ _. Steps-bind H _ _ _ (call H Allowed p lasts geteuid (λ r. refl)) λ euid.
              Steps-bind H (λ _. SafeAnd H Allowed p S) _ _
                (Steps-if H _ _ _
                  (λ _. call H Allowed p lasts (fchown fd tst.uid tst.gid) (λ r. refl))
                  (λ _. Steps-pure H tt (λ t h. h)))
                λ _.
                  Steps-perform H (fsync fd) (λ _ t (g, s). (((λ d. cc), g), inl (refl, s)))
                    (λ e t (g, s). ((λ d. cc), g))

  accept-Steps :
      (fd : ℕ)
      → Steps H
          (SafeAnd H Allowed p (Earlier (ReadBack H target tst part fd)))
          (accept H target part tst fd)
          (Checked fd)
          (Guarded Allowed p)
  unfolding accept ensure_same
  accept-Steps fd =
      let synced = After-Lasts (did (fsync fd) (ok tt)) (Earlier (ReadBack H target tst part fd)) in
      let closed = SafeAnd-IsClosed H Allowed p synced in
      Steps-bind H (λ _. SafeAnd H Allowed p (Synced H target tst part fd)) _ _
        (stamp-Steps fd (Earlier-Lasts (ReadBack H target tst part fd)))
        λ _.
          Steps-bind H (λ _. SafeAnd H Allowed p (Synced H target tst part fd)) _ _
            (quiet H Allowed p synced _
              (Keeps-attempt H _ (Keeps-perform H closed (stat target) (λ r. refl))))
            λ tcur.
              Steps-if H _ _ _ (λ _. give_up-Steps fd)
                (λ _.
                  Steps-bind H (λ _. SafeAnd H Allowed p (Synced H target tst part fd))
                    (ensure_same H part fd) _
                    (quiet H Allowed p synced (ensure_same H part fd)
                      (search (quiet_rules, closed) depth 12))
                    (λ _. Steps-pure H true (λ t h. (h.0, (λ e. h.1)))))

  check-Steps :
      (fuel n fd : ℕ) (sha : String) (bytes : Bytes)
      → (sha ≡ H.sha256 bytes) × (n ≡ length bytes)
      → Steps H
          (SafeAnd H Allowed p (Transferred H Allowed p target part tst fd bytes))
          (check H fuel target part tst sha n fd)
          (Checked fd)
          (Guarded Allowed p)
  unfolding check
  check-Steps fuel n fd sha bytes (hash, count) =
      Steps-if H (not (n == tst.size)) _ _ (λ _. give_up-Steps fd)
        (λ same.
          Steps-bind H _ _ _
            (hash-Steps H Allowed p target part tst fuel fd sha bytes hash
              (sym count ∙ ground (arith, same)))
            λ back.
              Steps-if H (back == sha) _ _
                (λ equal.
                  Steps-weaken H _ (λ t h. (h.0, h.1 ((eq_iff back sha).0 equal))) (λ _ t h. h)
                    (λ t h. h) (accept-Steps fd))
                (λ _. give_up-Steps fd))

  -- The restored file is in the place of the link, if that is allowed where it is guarded.
  module _ (link : String)
      (put : (fd : ℕ) (r : Result Failure (Unit {0})) (t : List Event)
        → SafeAnd H Allowed p (Synced H target tst part fd) t
        → Guarded Allowed p (did (rename part link) r ∷ t)) where
    abbrev pub IfFetched : Bool → List Event → Type 0
    IfFetched good = IfTrue good (λ t. (fd : ℕ) × Published H target link tst part fd t)

    put-Steps :
        (fd : ℕ)
        → Steps H
            (SafeAnd H Allowed p (Synced H target tst part fd))
            (perform H (rename part link) >> (fsync_dir H (dirname link) >> pure true))
            (λ good. SafeAnd H Allowed p (IfFetched good))
            (Guarded Allowed p)
    put-Steps fd =
        let there = After-Lasts (did (rename part link) (ok tt)) (Synced H target tst part fd) in
        Steps-bind H (λ _. SafeAnd H Allowed p (Published H target link tst part fd)) _ _
          (Steps-perform H (rename part link) (λ _ t h. (put fd (ok tt) t h, inl (refl, h.1)))
            (λ e t h. put fd (raised e) t h))
          λ _.
            Steps-bind H _ _ _
              (quiet H Allowed p there _
                (Keeps-fsync_dir H (SafeAnd-IsClosed H Allowed p there) (dirname link)))
              λ _. Steps-pure H true (λ t h. (h.0, (λ e. (fd, h.1))))

    pub fetch-Steps :
        (fuel : ℕ)
        → Steps H
            (SafeAnd H Allowed p (LookedAt target tst))
            (fetch H fuel link target part tst)
            (λ good. SafeAnd H Allowed p (IfFetched good))
            (Guarded Allowed p)
    unfolding fetch
    fetch-Steps fuel =
        let looked = After-Lasts (did (stat target) (ok tst)) Anything in
        let closed = SafeAnd-IsClosed H Allowed p looked in
        Steps-bind H _ _ _ (quiet H Allowed p looked _ (Keeps-unlink_stale H closed part apart))
          λ _. Steps-bind H _ _ _ (copy-Steps H Allowed p target part tst fuel) λ (sha, n, fd).
            Steps-some H _ λ bytes.
              Steps-given H _ (λ t h. h.0)
                λ facts.
                  Steps-bind H (Checked fd) _ _
                    (Steps-weaken H _ (λ t h. h.1) (λ _ t h. h) (λ t h. h)
                      (closing-Steps H Allowed p target part tst fd bytes _
                        (check-Steps fuel n fd sha bytes facts)))
                    λ good.
                      Steps-if H good _ _
                        (λ yes_good.
                          Steps-weaken H _ (λ t h. (h.0, h.1 yes_good)) (λ _ t h. h) (λ t h. h)
                            (put-Steps fd))
                        (λ _. Steps-pure H false (λ t h. (h.0, (λ e. cc))))
