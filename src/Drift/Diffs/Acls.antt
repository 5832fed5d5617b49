-- ===== src/Drift/Diffs/Acls.antt =====
-- `diff_acls` reports nothing just if the live tiers of each share are those that its grants declare.
use krg_infra.Prelude.{
  String, Bool, true, false, some, List, [], ◌∷◌, ◌++◌, ◌≡◌, refl, ap, sym, ◌∙◌, ◌↔◌, inl, inr,
  arith, option_eq, subst, text_eq, contains, contains-Among, all, All, Among, if◌then◌else◌,
  and-eq-true,
}
use krg_infra.Effects.{ok}
use krg_infra.Effects.Fallible.{bind_ok}
use krg_infra.Drift.Parsers.{Tier, rw_tier, ro_tier, na_tier, Tiers, or_key_error}
use krg_infra.Drift.State.{Spec, Snapshot, Drift, ShareAcl}
use krg_infra.Drift.Diffs.{
  desired_tiers, live_tiers_from, tier_drifts, acl_drifts, diff_acls, same_set, all_tiers,
}
use krg_infra.Drift.Diffs.Granted.{IsGranted, desired_tiers-Granted}
use krg_infra.Drift.Diffs.LastRow.{
  key_given, Rows, last_lines, tiers_of, live_tiers, live_tiers_last,
}

all_iff {ℓ} :
    {A : Type ℓ} (p : A → Bool) (xs : List A)
    → (all p xs ≡ true) ↔ ((a : A) → Among a xs → p a ≡ true)
all_iff p [] = (λ h a among. absurd among.1, λ h. refl)
all_iff p (x ∷ xs) = (
  λ h a among.
      let (here, rest) = and-eq-true (p x) (all p xs) h in
      elim among [ inl same ↦ ap p (sym same) ∙ here | inr later ↦ (all_iff p xs).0 rest a later ],
  λ h.
      let here = h x (inl refl) in
      let rest = (all_iff p xs).1 (λ a later. h a (inr later)) in ground arith,
)

same_set_iff :
    (xs ys : List String)
    → (same_set xs ys ≡ true) ↔ ((n : String) → (contains xs n ≡ true) ↔ (contains ys n ≡ true))
same_set_iff xs ys = (
  λ h n.
      let (there, back) = and-eq-true (all (contains ys) xs) (all (contains xs) ys) h in
      (
        λ in_xs. (all_iff (contains ys) xs).0 there n ((contains-Among xs n).0 in_xs),
        λ in_ys. (all_iff (contains xs) ys).0 back n ((contains-Among ys n).0 in_ys),
      ),
  λ h.
      let there =
        (all_iff (contains ys) xs).1 (λ n among. (h n).0 ((contains-Among xs n).1 among)) in
      let back =
        (all_iff (contains xs) ys).1 (λ n among. (h n).1 ((contains-Among ys n).1 among)) in
      ground arith,
)

-- The declared and the live principals of a tier are the same.
abbrev SameAt : Tiers → Tiers → Tier → Type 0
SameAt desired live t =
    (n : String) → (contains (desired t) n ≡ true) ↔ (contains (live t) n ≡ true)

unless_empty :
    {A : Type 0} (b : Bool) (x : A) (rest : List A)
    → ((if b then rest else x ∷ rest) ≡ []) ↔ ((b ≡ true) × (rest ≡ []))
unless_empty true x rest = (λ e. (refl, e), λ both. both.1)
unless_empty false x rest = (λ e. cc, λ both. cc)

tier_drifts_iff :
    (share : String) (desired live : Tiers) (ts : List Tier)
    → (tier_drifts share desired live ts ≡ []) ↔ All (SameAt desired live) ts
unfolding tier_drifts
tier_drifts_iff share desired live [] = (λ e. tt, λ all. refl)
tier_drifts_iff share desired live (t ∷ ts) =
    let (there, back) = unless_empty (same_set (desired t) (live t)) _ _ in
    let (same, from_same) = same_set_iff (desired t) (live t) in
    let (rest, from_rest) = tier_drifts_iff share desired live ts in
    (λ e. (same (there e).0, rest (there e).1), λ all. back (from_same all.0, from_rest all.1))

append-empty : {A : Type 0} (xs ys : List A) → ((xs ++ ys) ≡ []) ↔ ((xs ≡ []) × (ys ≡ []))
append-empty [] ys = (λ e. (refl, e), λ both. both.1)
append-empty (x ∷ xs) ys = (λ e. cc, λ both. cc)

-- In each tier the live principals of the share are just those that its grants declare.
abbrev MatchesIn : (String → Tiers) → ShareAcl → Type 0
MatchesIn live entry =
    (share : String) × (entry.share ≡ some share)
    × ((t : Tier) (n : String) → (contains (live share t) n ≡ true) ↔ IsGranted entry.grants t n)

-- The snapshot's last row for the share has, in each tier, just the principals that its grants
-- declare.
abbrev pub Matches : Rows → ShareAcl → Type 0
Matches rows = MatchesIn (λ share. tiers_of (last_lines share rows))

each_tier : (P : Tier → Type 0) → All P all_tiers ↔ ((t : Tier) → P t)
each_tier P = (pick, λ each. (each rw_tier, (each ro_tier, (each na_tier, tt))))
  where
    pick : All P all_tiers → (t : Tier) → P t
    pick all rw_tier = all.0
    pick all ro_tier = all.1.0
    pick all na_tier = all.1.1.0

entry_iff :
    (live_by_share : List (String × Tiers)) (entry : ShareAcl) (share : String) (des : Tiers)
    → entry.share ≡ some share
    → desired_tiers entry.grants ≡ ok des
    → (tier_drifts share des (live_tiers live_by_share share) all_tiers ≡ [])
      ↔ MatchesIn (live_tiers live_by_share) entry
entry_iff live_by_share entry share des named tiered =
    let live = live_tiers live_by_share share in
    let (there, back) = tier_drifts_iff share des live all_tiers in
    let (pick, build) = each_tier (SameAt des live) in
    let granted = desired_tiers-Granted entry.grants des tiered in
    (
      λ e. (
        share,
        named,
        λ t n.
            let same = pick (there e) t n in
            (λ h. (granted t n).0 (same.1 h), λ g. same.0 ((granted t n).1 g)),
      ),
      λ (share', named', same).
          let equal : share' ≡ share = cc in
          let lives = ap (λ s. live_tiers live_by_share s) equal in
          back (
            build (λ t n.
              let at_t : contains (live_tiers live_by_share share' t) n ≡ contains (live t) n =
                ap (λ (tiers : Tiers). contains (tiers t) n) lives in
              (
                λ h. sym at_t ∙ (same t n).1 ((granted t n).0 h),
                λ h. (granted t n).1 ((same t n).0 (at_t ∙ h)),
              ))),
    )

acl_drifts_iff :
    (live_by_share : List (String × Tiers)) (entries : List ShareAcl) (found : List Drift)
    → acl_drifts live_by_share entries ≡ ok found
    → (found ≡ []) ↔ All (MatchesIn (live_tiers live_by_share)) entries
unfolding acl_drifts
acl_drifts_iff live_by_share [] found given = (λ e. tt, λ all. cc)
acl_drifts_iff live_by_share (entry ∷ entries) found given =
    let (share, keyed, more) = bind_ok (or_key_error entry.share) _ found given in
    let (des, tiered, more') = bind_ok (desired_tiers entry.grants) _ found more in
    let (rest, read, built) = bind_ok (acl_drifts live_by_share entries) _ found more' in
    let named = key_given entry.share share keyed in
    let (here, from_here) = entry_iff live_by_share entry share des named tiered in
    let (later, from_later) = acl_drifts_iff live_by_share entries rest read in
    let own = tier_drifts share des (live_tiers live_by_share share) all_tiers in
    let (split, join) = append-empty own rest in
    let same : own ++ rest ≡ found = cc in
    (
      λ e. let both = split (same ∙ e) in (here both.0, later both.1),
      λ all. sym same ∙ join (from_here all.0, from_later all.1),
    )

-- If `diff_acls` gives a list of drifts, it is empty just if, for each share with declared grants,
-- the live principals of each tier are those that a grant gives it and no others. The live
-- principals are what `parse_list_acl` reads in the lines of the last row that the snapshot has for
-- the share, and there are none if it has no such row.
pub diff_acls-Exact :
    (spec : Spec) (snap : Snapshot) (found : List Drift)
    → diff_acls spec snap ≡ ok found
    → (found ≡ []) ↔ All (Matches snap.share_acls) spec.acls
unfolding diff_acls
diff_acls-Exact spec snap found given =
    let (live_by_share, read, compared) =
      bind_ok (live_tiers_from [] snap.share_acls) _ found given in
    subst (λ live. (found ≡ []) ↔ All (MatchesIn live) spec.acls)
      (live_tiers_last snap.share_acls live_by_share read)
      (acl_drifts_iff live_by_share spec.acls found compared)
