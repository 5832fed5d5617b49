-- ===== src/Scratch/Overflow/Safety.antt =====
-- `archive_one` is safe for the file that it archives.
use krg_infra.Prelude.{
  ℕ, String, Bool, false, ◌==◌, text_eq, nat_eq, List, Option, none, some, ◌≡◌, refl, inl,
}
use krg_infra.Effects.{ok}
use krg_infra.Effects.Triple.{Keeps}
use krg_infra.Scratch.Os.{World, Stat, Event, did, stat, realpath, Host}
use krg_infra.Scratch.Paths.{join}
use krg_infra.Scratch.Steps.{
  Steps, Steps-perform, Steps-pure, Steps-if, Steps-given, Steps-attempt, Keeps-of_Steps,
  Steps-some, Steps-bind, Steps-weaken, Steps-except_os_error, Traced,
}
use krg_infra.Scratch.Trace.{After-Lasts}
use krg_infra.Scratch.Overflow.{after_publish, archive, archive_found, archive_one}
use krg_infra.Scratch.Copying.ReadBack.{LookedAt}
use krg_infra.Scratch.Overflow.Archived.{Safe, SafeAnd, call}
use krg_infra.Scratch.Guarding.{Anything}
use krg_infra.Scratch.Overflow.Publication.{IfPublished, publish-Steps}
use krg_infra.Scratch.Overflow.Replacement.{
  IsLocal, tmp_sibling-Steps, discard-Steps, replace_local-Steps,
}

module _ (H : Host) (path scratch cold : String)
    (local : IsLocal path (join cold (H.relpath path scratch))) where
  abbrev dest : String
  dest = join cold (H.relpath path scratch)

  module _ (fuel manifest : ℕ) (reason : String) (st : Stat) where
    after_publish-Steps :
        (part : String) (apart : (part == path) ≡ false) (o : Option String)
        → Steps H
            (SafeAnd H path dest (IfPublished H path dest part apart st o))
            (after_publish H manifest reason path dest st o)
            (λ _. Safe H path dest)
            (Safe H path dest)
    unfolding after_publish
    after_publish-Steps part apart none = Steps-pure H false (λ t h. h.0)
    after_publish-Steps part apart (some sha) =
        Steps-weaken H _ (λ t (g, (fd, h)). (fd, (g, h))) (λ _ t h. h) (λ t h. h)
          (Steps-some H _
            λ fd. replace_local-Steps H path dest local manifest reason sha st part fd)

    archive-Steps :
        Steps H
          (SafeAnd H path dest (LookedAt path st))
          (archive H fuel manifest reason path scratch cold st)
          (λ _. Safe H path dest)
          (Safe H path dest)
    unfolding archive
    archive-Steps =
        let looked = After-Lasts (did (stat path) (ok st)) Anything in
        Steps-bind H _ _ _ (call H path dest looked (realpath cold) (λ r. refl)) λ cold_real.
          Steps-bind H _ _ _ (call H path dest looked (realpath dest) (λ r. refl)) λ dest_real.
            Steps-if H _ _ _ (λ _. Steps-pure H false (λ t h. h.0))
              λ _. Steps-bind H _ _ _ (tmp_sibling-Steps H path dest local dest looked) λ part.
                Steps-given H _ (λ t h. h.0)
                  λ apart.
                    Steps-bind H
                      (λ o. SafeAnd H path dest (IfPublished H path dest part apart st o)) _ _
                      (Steps-except_os_error H (Safe H path dest) _ _
                        (Steps-weaken H _ (λ t h. h.1) (λ _ t h. h) (λ t h. h)
                          (publish-Steps H path dest part apart st fuel scratch cold
                            (H.relpath path scratch) local.cold_apart))
                        (λ t h. h)
                        (λ _. discard-Steps H path dest local part none apart (λ t h. (h, tt))))
                      (after_publish-Steps part apart)

  module _ (fuel manifest : ℕ) (dry_run : Bool) (reason : String) where
    abbrev Found : Option Stat → List Event → Type 0
    Found none t = Unit
    Found (some st) t = LookedAt path st t

    Found-Steps :
        (found : Option Stat)
        → Steps H
            (SafeAnd H path dest (Found found))
            (archive_found H fuel path scratch cold manifest dry_run reason found)
            (λ _. Safe H path dest)
            (Safe H path dest)
    unfolding archive_found
    Found-Steps none = Steps-pure H 0 (λ t h. h.0)
    Found-Steps (some st) =
        Steps-if H dry_run _ _ (λ _. Steps-pure H _ (λ t h. h.0))
          (λ _.
            Steps-bind H (λ _. Safe H path dest) _ _ (archive-Steps fuel manifest reason st)
              (λ archived. Steps-pure H _ (λ t h. h)))

    archive_one-Steps :
        Steps H
          (Safe H path dest)
          (archive_one H fuel path scratch cold manifest dry_run reason)
          (λ _. Safe H path dest)
          (Safe H path dest)
    unfolding archive_one
    archive_one-Steps =
        Steps-bind H (λ found. SafeAnd H path dest (Found found)) _ _
          (Steps-attempt H (λ found. SafeAnd H path dest (Found found)) (Safe H path dest) _
            (Steps-perform H (stat path) (λ st t g. (((λ d. cc), g), inl (refl, tt)))
              (λ e t g. ((λ d. cc), g)))
            (λ t h. (h, tt)) (λ t h. h))
          Found-Steps

    pub Keeps-archive_one :
        Keeps
          (Traced H (Safe H path dest))
          (archive_one H fuel path scratch cold manifest dry_run reason)
    Keeps-archive_one = Keeps-of_Steps H _ archive_one-Steps

    -- However `archive_one` ends and whatever the system answers, the file is not removed, moved,
    -- overwritten or opened for writing, but for a renaming that puts a link to its cold copy there.
    -- Before that the copy was read back with the hash and the length of what had been read of the
    -- file and written to it, then synced and put in its place, and after that the file was seen to
    -- be the one that had been looked at before it was read. The path is assumed to be none of a
    -- temporary file, and the cold copy to have another.
    pub archive_one-Safe :
        (w : World H)
        → Safe H path dest w.trace
        → Safe H path dest (archive_one H fuel path scratch cold manifest dry_run reason w).1.trace
    archive_one-Safe w h = Keeps-archive_one.at w h
