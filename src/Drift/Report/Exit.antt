-- ===== src/Drift/Report/Exit.antt =====
-- What the exit code of drift_detector.py says.
use krg_infra.Prelude.{
  ℕ, String, true, false, List, [], ◌∷◌, ◌++◌, ◌≡◌, refl, subst, ◌⊎◌, inl, inr, All, Among,
  Among-All, Bool-cases, ◌↔◌, arith,
}
use krg_infra.Effects.{ok}
use krg_infra.Effects.Fallible.{Gives, Gives-bind, Gives-ok, bind_ok}
use krg_infra.Drift.State.{Drift}
use krg_infra.Drift.Report.{
  Files, Resource, resources, Status, in_sync, drifted, no_snapshot, failed, Results, check_one,
  check_all, run, all_checked, is_filled, exit_of, Args, Outcome, main, write_metrics,
  render_prometheus,
}
use krg_infra.Drift.Report.Meaning.{
  IsClean, Differs, IsUnknown, Found, check_one-Found, IsClean-Differs, IsClean-IsUnknown,
  Differs-IsUnknown,
}

module _ (F : Files) (spec_dir snapshot_dir host : String) where
  -- What the results and the drifts of some resources say of them.
  abbrev Ends : List Resource → Results × List Drift → Type 0
  Ends rs out =
      (all_checked out.0 ≡ true
        → is_filled out.1 ≡ false
        → All (IsClean F spec_dir snapshot_dir host) rs)
      × (all_checked out.0 ≡ true
          → All
              (λ r.
                (IsClean F spec_dir snapshot_dir host) r ⊎ (Differs F spec_dir snapshot_dir host) r)
              rs)
      × (all_checked out.0 ≡ true
          → is_filled out.1 ≡ true
          → (r : Resource) × Among r rs × (Differs F spec_dir snapshot_dir host) r)
      × (all_checked out.0 ≡ false
          → (r : Resource) × Among r rs × (IsUnknown F spec_dir snapshot_dir host) r)

  later :
      {P : Resource → Type 0} (r : Resource) (rs : List Resource)
      → (q : Resource) × Among q rs × P q
      → (q : Resource) × Among q (r ∷ rs) × P q
  later r rs (q, among, p) = (q, inr among, p)

  step-Ends :
      (r : Resource) (status : Status) (found : List Drift) (rs : List Resource) (results : Results)
      (drifts : List Drift)
      → (Found F spec_dir snapshot_dir host) r (status, found)
      → Ends rs (results, drifts)
      → Ends (r ∷ rs) ((r, status) ∷ results, found ++ drifts)
  step-Ends r in_sync [] rs results drifts (none_found, clean)
        (all_clean, each, some_differ, unknown) =
      (
        λ checked empty. (clean, all_clean checked empty),
        (λ checked. (inl clean, each checked)),
        (λ checked filled. later r rs (some_differ checked filled)),
        (λ unchecked. later r rs (unknown unchecked)),
      )
  step-Ends r in_sync (d ∷ ds) rs results drifts (none_found, clean) ends = cc
  step-Ends r drifted [] rs results drifts (some_found, differs) ends = cc
  step-Ends r drifted (d ∷ ds) rs results drifts (some_found, differs)
        (all_clean, each, some_differ, unknown) =
      (
        λ checked empty. cc,
        (λ checked. (inr differs, each checked)),
        (λ checked filled. (r, inl refl, differs)),
        (λ unchecked. later r rs (unknown unchecked)),
      )
  step-Ends r no_snapshot found rs results drifts (none_found, unknown) ends = (
    λ checked empty. cc,
    (λ checked. cc),
    (λ checked filled. cc),
    (λ unchecked. (r, inl refl, unknown)),
  )
  step-Ends r failed found rs results drifts (none_found, unknown) ends = (
    λ checked empty. cc,
    (λ checked. cc),
    (λ checked filled. cc),
    (λ unchecked. (r, inl refl, unknown)),
  )

  check_all-Ends :
      (rs : List Resource) → Gives (Ends rs) (check_all F spec_dir snapshot_dir host rs)
  unfolding check_all
  check_all-Ends [] =
      (λ checked empty. tt, (λ checked. tt), (λ checked filled. cc), (λ unchecked. cc))
  check_all-Ends (r ∷ rs) =
      Gives-bind ((Found F spec_dir snapshot_dir host) r) (Ends (r ∷ rs))
        (check_one F spec_dir snapshot_dir host r) _
        (check_one-Found F spec_dir snapshot_dir host r)
        (λ (status, found) says.
          Gives-bind (Ends rs) (Ends (r ∷ rs)) (check_all F spec_dir snapshot_dir host rs) _
            (check_all-Ends rs)
            (λ (results, drifts) ends. step-Ends r status found rs results drifts says ends))

  -- The state of the resources that an exit code stands for.
  abbrev pub AllClean : Type 0
  AllClean = All (IsClean F spec_dir snapshot_dir host) resources

  abbrev pub SomeDrift : Type 0
  SomeDrift =
      All (λ r. (IsClean F spec_dir snapshot_dir host) r ⊎ (Differs F spec_dir snapshot_dir host) r)
        resources
      × ((r : Resource) × Among r resources × (Differs F spec_dir snapshot_dir host) r)

  abbrev pub SomeUnknown : Type 0
  SomeUnknown = (r : Resource) × Among r resources × (IsUnknown F spec_dir snapshot_dir host) r

  -- What the three exit codes say.
  abbrev ExitSays : ℕ → Type 0
  ExitSays code = (code ≡ 0 × AllClean) ⊎ ((code ≡ 1 × SomeDrift) ⊎ (code ≡ 2 × SomeUnknown))

  exit_of-Says :
      (results : Results) (drifts : List Drift)
      → Ends resources (results, drifts)
      → ExitSays (exit_of results drifts)
  exit_of-Says results drifts (all_clean, each, some_differ, unknown) =
      elim (Bool-cases (all_checked results)) [
        | inr unchecked ↦ rw unchecked (inr (inr (refl, unknown unchecked)))
        | inl checked ↦ elim (Bool-cases (is_filled drifts)) [
          | inr empty ↦ rw checked (rw empty (inl (refl, all_clean checked empty)))
          | inl filled ↦
              rw checked (rw filled (inr (inl (refl, (each checked, some_differ checked filled)))))
        ]
      ]

  clean_no_drift : AllClean → SomeDrift → ⊥
  clean_no_drift clean (each, (r, among, differs)) =
      IsClean-Differs F spec_dir snapshot_dir host r
        (Among-All (IsClean F spec_dir snapshot_dir host) resources r clean among) differs

  clean_no_unknown : AllClean → SomeUnknown → ⊥
  clean_no_unknown clean (r, among, unknown) =
      IsClean-IsUnknown F spec_dir snapshot_dir host r
        (Among-All (IsClean F spec_dir snapshot_dir host) resources r clean among) unknown

  drift_no_unknown : SomeDrift → SomeUnknown → ⊥
  drift_no_unknown (each, some_differ) (r, among, unknown) =
      elim (Among-All
        (λ r. (IsClean F spec_dir snapshot_dir host) r ⊎ (Differs F spec_dir snapshot_dir host) r)
        resources r each among) [
          | inl clean ↦ IsClean-IsUnknown F spec_dir snapshot_dir host r clean unknown
          | inr differs ↦ Differs-IsUnknown F spec_dir snapshot_dir host r differs unknown
        ]

  exit_iff :
      (code : ℕ)
      → ExitSays code
      → ((code ≡ 0) ↔ AllClean) × ((code ≡ 1) ↔ SomeDrift) × ((code ≡ 2) ↔ SomeUnknown)
  exit_iff code (inl (zero_code, clean)) = (
    (λ e. clean, λ c. zero_code),
    (λ e. absurd (omega arith), λ drift. absurd (clean_no_drift clean drift)),
    (λ e. absurd (omega arith), λ unknown. absurd (clean_no_unknown clean unknown)),
  )
  exit_iff code (inr (inl (one, drift))) = (
    (λ e. absurd (omega arith), λ clean. absurd (clean_no_drift clean drift)),
    (λ e. drift, λ d. one),
    (λ e. absurd (omega arith), λ unknown. absurd (drift_no_unknown drift unknown)),
  )
  exit_iff code (inr (inr (two, unknown))) = (
    (λ e. absurd (omega arith), λ clean. absurd (clean_no_unknown clean unknown)),
    (λ e. absurd (omega arith), λ drift. absurd (drift_no_unknown drift unknown)),
    (λ e. unknown, λ u. two),
  )

-- If no exception leaves `main`, its exit code is 0 just if each resource is clean: its
-- specification was read and asks for nothing, or its snapshot was there and was read and compared
-- without a drift. It is 1 just if each resource is clean or differs and some differs, and it is 2
-- just if some specification could not be read, or some snapshot that is asked for is missing or
-- could not be read or compared.
pub main-Exit :
    (F : Files) (args : Args) (out : Outcome)
    → main F args ≡ ok out
    → ((out.exit ≡ 0) ↔ AllClean F args.spec_dir args.snapshot_dir args.host)
      × ((out.exit ≡ 1) ↔ SomeDrift F args.spec_dir args.snapshot_dir args.host)
      × ((out.exit ≡ 2) ↔ SomeUnknown F args.spec_dir args.snapshot_dir args.host)
unfolding main run
main-Exit F args out given =
    let (ran, ran_ok, more) =
      bind_ok (run F args.spec_dir args.snapshot_dir args.host) _ out given in
    let (metrics, written, same) =
      bind_ok (write_metrics F args.metrics_file (render_prometheus F.now args.host ran.0 ran.1)) _
        out more in
    let ends =
      Gives-ok (Ends F args.spec_dir args.snapshot_dir args.host resources) _ ran ran_ok
        (check_all-Ends F args.spec_dir args.snapshot_dir args.host resources) in
    let says = exit_of-Says F args.spec_dir args.snapshot_dir args.host ran.0 ran.1 ends in
    let code : exit_of ran.0 ran.1 ≡ out.exit = cc in
    exit_iff F args.spec_dir args.snapshot_dir args.host out.exit
      (subst (ExitSays F args.spec_dir args.snapshot_dir args.host) code says)
