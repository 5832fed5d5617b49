-- ===== src/Drift/Report/Meaning.antt =====
-- The three states that a resource may be in, of which it is in one, and how they are found.
use krg_infra.Prelude.{
  String, true, false, not, List, [], ◌∷◌, ◌≡◌, refl, ap, ◌⊎◌, inl, inr, if◌then◌else◌, Bool-cases,
}
use krg_infra.Effects.{Result, ok, raised}
use krg_infra.Effects.Fallible.{◌>>=◌, Gives, bind_ok}
use krg_infra.Drift.Parsers.{Failure, caught, uncaught}
use krg_infra.Drift.State.{Spec, Snapshot, Drift}
use krg_infra.Drift.Report.{
  Files, Resource, Status, in_sync, drifted, no_snapshot, failed, or_failed, status_of, diff,
  check_one, has_work, spec_path, snapshot_path, is_filled,
}

module _ (F : Files) (spec_dir snapshot_dir host : String) where
  -- The specification of a resource is read, and asks for nothing, or for what the snapshot has.
  abbrev pub IsClean : Resource → Type 0
  IsClean r =
      (spec : Spec) × (F.spec_at (spec_path F spec_dir snapshot_dir host r) ≡ ok spec)
      × ((has_work r spec ≡ false)
          ⊎ ((snap : Snapshot) × (F.exists (snapshot_path F spec_dir snapshot_dir host r) ≡ true)
              × (F.snapshot_at (snapshot_path F spec_dir snapshot_dir host r) ≡ ok snap)
              × (diff F r spec snap ≡ ok [])))

  -- Both are read, and they differ.
  abbrev pub Differs : Resource → Type 0
  Differs r =
      (spec : Spec) × (snap : Snapshot) × (d : Drift) × (ds : List Drift) × (F.spec_at
          (spec_path F spec_dir snapshot_dir host r)
        ≡ ok spec)
      × (has_work r spec ≡ true)
      × (F.exists (snapshot_path F spec_dir snapshot_dir host r) ≡ true)
      × (F.snapshot_at (snapshot_path F spec_dir snapshot_dir host r) ≡ ok snap)
      × (diff F r spec snap ≡ ok (d ∷ ds))

  -- The specification cannot be read, or the snapshot is missing or cannot be read or compared.
  abbrev pub IsUnknown : Resource → Type 0
  IsUnknown r =
      (F.spec_at (spec_path F spec_dir snapshot_dir host r) ≡ raised caught)
      ⊎ ((spec : Spec) × (F.spec_at (spec_path F spec_dir snapshot_dir host r) ≡ ok spec)
          × (has_work r spec ≡ true)
          × ((F.exists (snapshot_path F spec_dir snapshot_dir host r) ≡ false)
              ⊎ ((F.snapshot_at (snapshot_path F spec_dir snapshot_dir host r) >>= diff F r spec)
                  ≡ raised caught)))

  -- What each result of a resource says.
  abbrev pub Found : Resource → Status × List Drift → Type 0
  Found r (in_sync, ds) = (ds ≡ []) × IsClean r
  Found r (drifted, ds) = (is_filled ds ≡ true) × Differs r
  Found r (no_snapshot, ds) = (ds ≡ []) × IsUnknown r
  Found r (failed, ds) = (ds ≡ []) × IsUnknown r

  compare_found :
      (r : Resource) (spec : Spec)
      → F.spec_at (spec_path F spec_dir snapshot_dir host r) ≡ ok spec
      → has_work r spec ≡ true
      → F.exists (snapshot_path F spec_dir snapshot_dir host r) ≡ true
      → (m : Result Failure (List Drift))
      → (F.snapshot_at (snapshot_path F spec_dir snapshot_dir host r) >>= diff F r spec) ≡ m
      → Gives (Found r) (or_failed m (λ found. ok (status_of found, found)))
  compare_found r spec read busy there (ok []) given =
      let (snap, read_snap, same) =
        bind_ok (F.snapshot_at (snapshot_path F spec_dir snapshot_dir host r)) (diff F r spec) []
          given in
      (refl, (spec, read, inr (snap, there, read_snap, same)))
  compare_found r spec read busy there (ok (d ∷ ds)) given =
      let (snap, read_snap, same) =
        bind_ok (F.snapshot_at (snapshot_path F spec_dir snapshot_dir host r)) (diff F r spec)
          (d ∷ ds) given in
      (refl, (spec, snap, d, ds, read, busy, there, read_snap, same))
  compare_found r spec read busy there (raised caught) given =
      (refl, inr (spec, read, busy, inr given))
  compare_found r spec read busy there (raised uncaught) given = tt

  check_spec :
      (r : Resource) (m : Result Failure Spec)
      → F.spec_at (spec_path F spec_dir snapshot_dir host r) ≡ m
      → Gives (Found r) (
          or_failed m (λ spec.
            if not (has_work r spec)
            then ok (in_sync, [])
            else if not (F.exists (snapshot_path F spec_dir snapshot_dir host r))
            then ok (no_snapshot, [])
            else or_failed
                (F.snapshot_at (snapshot_path F spec_dir snapshot_dir host r) >>= diff F r spec)
                (λ found. ok (status_of found, found))))
  check_spec r (raised caught) given = (refl, inl given)
  check_spec r (raised uncaught) given = tt
  check_spec r (ok spec) given = elim (Bool-cases (has_work r spec)) [
    | inr idle ↦ rw idle (refl, (spec, given, inl idle))
    | inl busy ↦ elim (Bool-cases (F.exists (snapshot_path F spec_dir snapshot_dir host r))) [
      | inr absent ↦ rw busy (rw absent (refl, inr (spec, given, busy, inl absent)))
      | inl there ↦ rw busy (rw there (compare_found r spec given busy there _ refl))
    ]
  ]

  pub check_one-Found : (r : Resource) → Gives (Found r) (check_one F spec_dir snapshot_dir host r)
  unfolding check_one
  check_one-Found r = check_spec r (F.spec_at (spec_path F spec_dir snapshot_dir host r)) refl

  -- Both files are there, and the comparison gives a value: then it has not failed.
  not_failing :
      (r : Resource) (spec spec' : Spec) (snap : Snapshot) (ds : List Drift)
      → F.spec_at (spec_path F spec_dir snapshot_dir host r) ≡ ok spec
      → F.snapshot_at (snapshot_path F spec_dir snapshot_dir host r) ≡ ok snap
      → diff F r spec snap ≡ ok ds
      → F.spec_at (spec_path F spec_dir snapshot_dir host r) ≡ ok spec'
      → (F.snapshot_at (snapshot_path F spec_dir snapshot_dir host r) >>= diff F r spec')
        ≡ raised caught
      → ⊥
  not_failing r spec spec' snap ds read read_snap same read' fails =
      let same_spec : spec ≡ spec' = cc in
      let compared = ap (λ m. m >>= diff F r spec') read_snap in
      let again = ap (λ sp. diff F r sp snap) same_spec in cc

  pub IsClean-Differs : (r : Resource) → IsClean r → Differs r → ⊥
  IsClean-Differs r (spec, read, inl idle)
        (spec', snap, d, ds, read', busy, there, read_snap, differ) =
      let same_spec : spec ≡ spec' = cc in let work = ap (has_work r) same_spec in cc
  IsClean-Differs r (spec, read, inr (snap, there, read_snap, same))
        (spec', snap', d, ds, read', busy, there', read_snap', differ) =
      let same_spec : spec ≡ spec' = cc in
      let same_snap : snap ≡ snap' = cc in
      let again = ap (λ sp. diff F r sp snap) same_spec in
      let again' = ap (λ sn. diff F r spec' sn) same_snap in cc

  pub IsClean-IsUnknown : (r : Resource) → IsClean r → IsUnknown r → ⊥
  IsClean-IsUnknown r (spec, read, clean) (inl unread) = cc
  IsClean-IsUnknown r (spec, read, inl idle) (inr (spec', read', busy, why)) =
      let same_spec : spec ≡ spec' = cc in let work = ap (has_work r) same_spec in cc
  IsClean-IsUnknown r (spec, read, inr (snap, there, read_snap, same))
        (inr (spec', read', busy, inl absent)) =
      cc
  IsClean-IsUnknown r (spec, read, inr (snap, there, read_snap, same))
        (inr (spec', read', busy, inr fails)) =
      not_failing r spec spec' snap [] read read_snap same read' fails

  pub Differs-IsUnknown : (r : Resource) → Differs r → IsUnknown r → ⊥
  Differs-IsUnknown r (spec, snap, d, ds, read, busy, there, read_snap, differ) (inl unread) = cc
  Differs-IsUnknown r (spec, snap, d, ds, read, busy, there, read_snap, differ)
        (inr (spec', read', busy', inl absent)) =
      cc
  Differs-IsUnknown r (spec, snap, d, ds, read, busy, there, read_snap, differ)
        (inr (spec', read', busy', inr fails)) =
      not_failing r spec spec' snap (d ∷ ds) read read_snap differ read' fails
