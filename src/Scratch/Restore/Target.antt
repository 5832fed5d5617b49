-- ===== src/Scratch/Restore/Target.antt =====
-- What `restore_one` does with a target that may be restored: it destroys what a path names only by
-- putting a verified copy there, or by removing a cold file of which a verified copy is in place.
use text.Mathlib.TextEquality.{eq_iff}
use krg_infra.Prelude.{
  ℕ, String, ◌<>◌, Bool, true, false, not, ◌||◌, ◌==◌, text_eq, nat_eq, list_eq, List, ◌∷◌, Option,
  none, some, ◌≡◌, ◌≢◌, refl, ap, subst, inl, inr, arith,
}
use krg_infra.Effects.{Result, ok, raised, pure, ◌>>◌}
use krg_infra.Scratch.Os.{
  Failure, Stat, Event, did, stat, rename, unlink, urandom, Host, perform, except_os_error,
}
use krg_infra.Scratch.Paths.{dirname}
use krg_infra.Scratch.Steps.{
  Steps, Steps-perform, Steps-pure, Steps-if, Steps-given, Steps-some, Steps-bind, Steps-weaken,
  Steps-attempt, Steps-except_os_error, Steps-of_Keeps,
}
use krg_infra.Scratch.Trace.{Guarded, Guarded-IsClosed, IsClosed, Lasts, After, After-Lasts}
use krg_infra.Scratch.Guarding.{Anything, SafeAnd, call}
use krg_infra.Scratch.Copying.{same_file, unchanged, tmp_sibling, fsync_dir, discard}
use krg_infra.Scratch.Copying.Quiet.{Keeps-fsync_dir, Keeps-discard}
use krg_infra.Scratch.Copying.Temporary.{sibling-ne}
use krg_infra.Scratch.Copying.ReadBack.{LookedAt, Synced, Published}
use krg_infra.Scratch.Restore.{Areas, under_any, fetch, remove_cold, restore_target}
use krg_infra.Scratch.Restore.Restored.{IsRestoring}
use krg_infra.Scratch.Restore.Fetched.{IfFetched, fetch-Steps}

module _ (H : Host) (areas : Areas) (p : String)
    (not_temporary : (front : String) → front <> ".tmp" ≢ p) where
  abbrev pub Allowed : Event → List Event → Type 0
  Allowed = IsRestoring H areas.cold_roots p

  abbrev pub Safe : List Event → Type 0
  Safe = Guarded Allowed p

  abbrev closed : IsClosed p Safe
  closed = Guarded-IsClosed Allowed p

  -- The temporary file of a link has another path than `p`.
  tmp-Steps :
      {S : List Event → Type 0} (base : String)
      → Lasts S
      → Steps H
          (SafeAnd H Allowed p S)
          (tmp_sibling H base "sr")
          (λ tmp t. ((tmp == p) ≡ false) × SafeAnd H Allowed p S t)
          Safe
  unfolding tmp_sibling
  tmp-Steps base lasts =
      Steps-bind H _ _ _ (call H Allowed p lasts urandom (λ r. refl))
        (λ digits. Steps-pure H _ (λ t h. (sibling-ne p not_temporary base "sr" digits, h)))

  module _ (link target : String) (inside : under_any target areas.cold_roots ≡ true)
      (tst : Stat) where
    module _ (part : String) (apart : (part == p) ≡ false) where
      -- The link is replaced: that is allowed if it is what is guarded.
      put-Allowed :
          (fd : ℕ) (r : Result Failure (Unit {0})) (t : List Event)
          → SafeAnd H Allowed p (Synced H target tst part fd) t
          → Guarded Allowed p (did (rename part link) r ∷ t)
      put-Allowed fd r t (g, s) = (λ d. inl (target, part, r, tst, fd, same d, inside, s), g)
        where
          same : (part == p || link == p) ≡ true → did (rename part link) r ≡ did (rename part p) r
          same d =
              let here : link ≡ p = (eq_iff link p).0 (ground (arith, apart, d)) in
              ap (λ (q : String). did (rename part q) r) here

      abbrev Fetched : Bool → List Event → Type 0
      Fetched = IfFetched H Allowed p target part tst apart link put-Allowed

      -- What the last look at the cold copy has shown.
      abbrev Seen : ℕ → Option Stat → List Event → Type 0
      Seen fd none t = Unit
      Seen fd (some tst2) t =
          After (did (stat target) (ok tst2)) (Published H target link tst part fd) t

      -- The cold copy is removed: that is allowed if it is what is guarded.
      remove-Allowed :
          (fd : ℕ) (tst2 : Stat) (r : Result Failure (Unit {0})) (t : List Event)
          → same_file tst2 tst ≡ true
          → SafeAnd H Allowed p (Seen fd (some tst2)) t
          → Guarded Allowed p (did (unlink target) r ∷ t)
      remove-Allowed fd tst2 r t same (g, s) = (
        λ d.
            let here : target ≡ p = (eq_iff target p).0 d in
            let moved =
              subst
                (λ q.
                  (did (unlink target) r ≡ did (unlink q) r)
                  × (under_any q areas.cold_roots ≡ true)
                  × After (did (stat q) (ok tst2)) (Published H q link tst part fd) t)
                here (refl, inside, s) in
            inr (link, part, r, tst, tst2, fd, moved.0, moved.1, same, moved.2),
        g,
      )

      unlink-Steps :
          (fd : ℕ) (tst2 : Option Stat)
          → unchanged tst tst2 ≡ true
          → Steps H
              (SafeAnd H Allowed p (Seen fd tst2))
              (except_os_error H
                (perform H (unlink target) >> fsync_dir H (dirname target))
                (λ _. pure tt))
              (λ _. Safe)
              Safe
      unlink-Steps fd none same = cc
      unlink-Steps fd (some tst2) same =
          Steps-except_os_error H Safe _ _
            (Steps-bind H (λ _. Safe) _ _
              (Steps-perform H (unlink target) (λ _ t h. remove-Allowed fd tst2 (ok tt) t same h)
                (λ e t h. remove-Allowed fd tst2 (raised e) t same h))
              (λ _. Steps-of_Keeps H _ (λ t h. h) (Keeps-fsync_dir H closed (dirname target))))
            (λ t h. h) (λ _. Steps-pure H tt (λ t h. h))

      remove_cold-Steps :
          Steps H
            (SafeAnd H Allowed p (λ t. (fd : ℕ) × Published H target link tst part fd t))
            (remove_cold H target tst)
            (λ _. Safe)
            Safe
      unfolding remove_cold
      remove_cold-Steps =
          Steps-weaken H _ (λ t (g, (fd, h)). (fd, (g, h))) (λ _ t h. h) (λ t h. h)
            (Steps-some H
              {P = λ (fd : ℕ). SafeAnd H Allowed p (Published H target link tst part fd)} _
              λ fd.
                Steps-bind H (λ tst2. SafeAnd H Allowed p (Seen fd tst2)) _ _
                  (Steps-attempt H (λ tst2. SafeAnd H Allowed p (Seen fd tst2)) Safe _
                    (Steps-perform H (stat target)
                      (λ tst2 t (g, s). (((λ d. cc), g), inl (refl, s)))
                      (λ e t (g, s). ((λ d. cc), g)))
                    (λ t h. (h, tt)) (λ t h. h))
                  λ tst2.
                    Steps-if H _ _ _ (λ same. unlink-Steps fd tst2 same)
                      (λ _. Steps-pure H tt (λ t h. h.0)))

      tried-Steps :
          (fuel : ℕ)
          → Steps H
              (SafeAnd H Allowed p (LookedAt target tst))
              (except_os_error H
                (fetch H fuel link target part tst)
                (λ _. discard H part >> pure false))
              (λ good. SafeAnd H Allowed p (Fetched good))
              Safe
      tried-Steps fuel =
          Steps-except_os_error H Safe _ _
            (fetch-Steps H Allowed p target part tst apart link put-Allowed fuel) (λ t h. h)
            (λ _.
              Steps-bind H (λ _. Safe) _ _
                (Steps-of_Keeps H _ (λ t h. h) (Keeps-discard H closed part apart))
                (λ _. Steps-pure H false (λ t h. (h, (λ e. cc)))))

  module _ (link target : String) (inside : under_any target areas.cold_roots ≡ true) (fuel : ℕ)
      (keep_cold : Bool) where
    -- What the first look at the target has shown.
    abbrev pub Found : Option Stat → List Event → Type 0
    Found none t = Unit
    Found (some tst) t = LookedAt target tst t

    pub restore_target-Steps :
        (found : Option Stat)
        → Steps H
            (SafeAnd H Allowed p (Found found))
            (restore_target H fuel keep_cold link target found)
            (λ _. Safe)
            Safe
    unfolding restore_target
    restore_target-Steps none = Steps-pure H false (λ t h. h.0)
    restore_target-Steps (some tst) =
        Steps-if H _ _ _ (λ _. Steps-pure H false (λ t h. h.0))
          λ _.
            Steps-bind H _ _ _ (tmp-Steps link (After-Lasts (did (stat target) (ok tst)) Anything))
              λ part.
                Steps-given H _ (λ t h. h.0)
                  λ apart.
                    Steps-bind H
                      (λ good. SafeAnd H Allowed p (Fetched link target inside tst part apart good))
                      _ _
                      (Steps-weaken H _ (λ t h. h.1) (λ _ t h. h) (λ t h. h)
                        (tried-Steps link target inside tst part apart fuel))
                      λ good.
                        Steps-if H (not good) _ _ (λ _. Steps-pure H false (λ t h. h.0))
                          λ fetched.
                            Steps-if H keep_cold _ _ (λ _. Steps-pure H true (λ t h. h.0))
                              λ _.
                                Steps-bind H (λ _. Safe) _ _
                                  (Steps-weaken H _ (λ t h. (h.0, h.1 (ground (arith, fetched))))
                                    (λ _ t h. h) (λ t h. h)
                                    (remove_cold-Steps link target inside tst part apart))
                                  (λ _. Steps-pure H true (λ t h. h))
