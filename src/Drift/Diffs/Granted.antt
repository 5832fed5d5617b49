-- ===== src/Drift/Diffs/Granted.antt =====
-- The tiers that grants declare: `desired_tiers`.
use krg_infra.Prelude.{
  String, true, List, [], ◌∷◌, ◌≡◌, ◌≢◌, refl, ap, sym, ◌∙◌, subst, ◌↔◌, ◌⊎◌, inl, inr, arith,
  text_eq, contains, Among, if◌then◌else◌, Bool-cases,
}
use krg_infra.Effects.{ok}
use krg_infra.Effects.Fallible.{◌>>=◌, bind_ok}
use krg_infra.Drift.Parsers.{Tier, rw_tier, ro_tier, na_tier, Tiers, or_key_error}
use krg_infra.Drift.State.{Grant}
use krg_infra.Drift.Diffs.{
  principal, tier_of, same_tier, desired_from, desired_tiers, no_principals,
}

-- A grant gives the tier `t` to the principal `n`.
abbrev pub IsGranted : List Grant → Tier → String → Type 0
IsGranted grants t n =
    (g : Grant) × Among g grants
    × (principal g ≡ ok n)
    × ((or_key_error g.access >>= tier_of) ≡ ok t)

same_tier_iff : (s t : Tier) → (same_tier s t ≡ true) ↔ (s ≡ t)
same_tier_iff rw_tier rw_tier = (λ e. refl, λ e. refl)
same_tier_iff ro_tier ro_tier = (λ e. refl, λ e. refl)
same_tier_iff na_tier na_tier = (λ e. refl, λ e. refl)
same_tier_iff rw_tier ro_tier = (λ e. cc, λ e. cc)
same_tier_iff rw_tier na_tier = (λ e. cc, λ e. cc)
same_tier_iff ro_tier rw_tier = (λ e. cc, λ e. cc)
same_tier_iff ro_tier na_tier = (λ e. cc, λ e. cc)
same_tier_iff na_tier rw_tier = (λ e. cc, λ e. cc)
same_tier_iff na_tier ro_tier = (λ e. cc, λ e. cc)

-- What a grant adds to the tiers.
abbrev added : Tiers → Tier → String → Tiers
added tiers tier name t = if same_tier t tier then name ∷ tiers t else tiers t

added_iff :
    (tiers : Tiers) (tier : Tier) (name : String) (t : Tier) (n : String)
    → (contains (added tiers tier name t) n ≡ true)
      ↔ (((tier ≡ t) × (name ≡ n)) ⊎ (contains (tiers t) n ≡ true))
added_iff tiers tier name t n = elim (Bool-cases (same_tier t tier)) [
  | inl same ↦
      let here : tier ≡ t = sym ((same_tier_iff t tier).0 same) in
      rw same (ground (arith, text_eq.equal_iff name n))
  | inr other ↦
      let apart : tier ≢ t = λ e. cc ((same_tier_iff t tier).1 (sym e)) in rw other (ground arith)
]

desired_from-Granted :
    (tiers : Tiers) (grants : List Grant) (des : Tiers)
    → desired_from tiers grants ≡ ok des
    → (t : Tier) (n : String)
    → (contains (des t) n ≡ true) ↔ ((contains (tiers t) n ≡ true) ⊎ IsGranted grants t n)
unfolding desired_from
desired_from-Granted tiers [] des given t n =
    let same : tiers ≡ des = cc in
    subst (λ des. (contains (des t) n ≡ true) ↔ ((contains (tiers t) n ≡ true) ⊎ IsGranted [] t n))
      same
      (
        λ h. inl h,
        λ cause. elim cause [ inl h ↦ h | inr (g, among, named, tiered) ↦ absurd among.1 ],
      )
desired_from-Granted tiers (g ∷ grants) des given t n =
    let (name, named, more) = bind_ok (principal g) _ des given in
    let (access, accessed, more') = bind_ok (or_key_error g.access) _ des more in
    let (tier, tiered, more'') = bind_ok (tier_of access) _ des more' in
    let rec = desired_from-Granted (added tiers tier name) grants des more'' t n in
    let first = added_iff tiers tier name t n in
    let bound = ap (λ m. m >>= tier_of) accessed ∙ tiered in
    (
      λ h. elim (rec.0 h) [
        | inl now ↦ elim (first.0 now) [
          | inl (same_t, same_n) ↦ inr (g, inl refl, named ∙ ap ok same_n, bound ∙ ap ok same_t)
          | inr before ↦ inl before
        ]
        | inr (q, among, named_q, tier_q) ↦ inr (q, inr among, named_q, tier_q)
      ],
      λ cause. rec.1 (elim cause [
        | inl before ↦ inl (first.1 (inr before))
        | inr (q, inl same, named_q, tier_q) ↦
            let named' = ap principal same ∙ named_q in
            let bound' = ap (λ (g : Grant). or_key_error g.access >>= tier_of) same ∙ tier_q in
            inl (first.1 (inl (cc, cc)))
        | inr (q, inr later, named_q, tier_q) ↦ inr (q, later, named_q, tier_q)
      ]),
    )

pub desired_tiers-Granted :
    (grants : List Grant) (des : Tiers)
    → desired_tiers grants ≡ ok des
    → (t : Tier) (n : String) → (contains (des t) n ≡ true) ↔ IsGranted grants t n
unfolding desired_tiers
desired_tiers-Granted grants des given t n =
    let (there, back) = desired_from-Granted no_principals grants des given t n in
    (
      λ h. elim (there h) [ inl none_before ↦ cc | inr granted ↦ granted ],
      λ granted. back (inr granted),
    )
