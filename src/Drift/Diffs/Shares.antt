-- ===== src/Drift/Diffs/Shares.antt =====
-- `diff_shares` reports exactly the shares that are missing or unmanaged.
use krg_infra.Prelude.{
  String, Bool, true, false, not, ◌&&◌, Option, none, some, List, [], ◌∷◌, ◌++◌, ◌≡◌, refl, ap, sym,
  ◌∙◌, subst, ◌↔◌, ◌⊎◌, inl, inr, arith, text_eq, keep, map, contains, contains-Among, Among,
  Among-map, contains-keep, and-eq-true,
}
use krg_infra.Text.{text_le}
use krg_infra.Sorted.{sorted, dedup, contains-sorted, contains-dedup}
use krg_infra.Effects.{ok}
use krg_infra.Effects.Fallible.{bind_ok}
use krg_infra.Drift.Parsers.{parse_enum}
use krg_infra.Drift.State.{Spec, Snapshot, Drift}
use krg_infra.Drift.Diffs.{
  auto_shares, missing_share, extra_share, names_of, share_drifts, diff_shares,
}

module _ {ℓ} {A : Type ℓ} where
  Among-append : (xs ys : List A) (a : A) → Among a (xs ++ ys) ↔ (Among a xs ⊎ Among a ys)
  Among-append xs ys a = (there xs, back xs)
    where
      there : (xs : List A) → Among a (xs ++ ys) → Among a xs ⊎ Among a ys
      there [] h = inr h
      there (x ∷ xs) h = ground (arith, there xs)

      back : (xs : List A) → Among a xs ⊎ Among a ys → Among a (xs ++ ys)
      back [] h = ground arith
      back (x ∷ xs) h = ground (arith, back xs)

map-Among {ℓ} :
    {A B : Type ℓ} (f : A → B) (xs : List A) (b : B)
    → Among b (map f xs)
    → (a : A) × Among a xs × (b ≡ f a)
map-Among f [] b among = absurd among.1
map-Among f (x ∷ xs) b (inl same) = (x, inl refl, sym same)
map-Among f (x ∷ xs) b (inr later) =
    let (a, there, same) = map-Among f xs b later in (a, inr there, same)

-- The names that a test picks from a set, made into drifts.
picked-Among :
    (f : String → Drift) (p : String → Bool) (xs : List String) (d : Drift)
    → Among d (map f (sorted text_le (keep p (dedup xs))))
      ↔ (n : String) × (d ≡ f n) × (contains xs n ≡ true) × (p n ≡ true)
picked-Among f p xs d = (there, back)
  where
    inside : (n : String) → contains (sorted text_le (keep p (dedup xs))) n ≡ (contains xs n && p n)
    inside n =
        contains-sorted text_le (keep p (dedup xs)) n
        ∙ contains-keep p (dedup xs) n
        ∙ ap (λ b. b && p n) (contains-dedup xs n)

    there :
        Among d (map f (sorted text_le (keep p (dedup xs))))
        → (n : String) × (d ≡ f n) × (contains xs n ≡ true) × (p n ≡ true)
    there among =
        let (n, found, same) = map-Among f (sorted text_le (keep p (dedup xs))) d among in
        let listed = (contains-Among (sorted text_le (keep p (dedup xs))) n).1 found in
        let both = and-eq-true (contains xs n) (p n) (sym (inside n) ∙ listed) in
        (n, same, both.0, both.1)

    back :
        ((n : String) × (d ≡ f n) × (contains xs n ≡ true) × (p n ≡ true))
        → Among d (map f (sorted text_le (keep p (dedup xs))))
    back (n, same, there_n, yes_n) =
        let listed : contains (sorted text_le (keep p (dedup xs))) n ≡ true =
          ground (arith, inside n) in
        let found = (contains-Among (sorted text_le (keep p (dedup xs))) n).0 listed in
        subst (λ c. Among c (map f (sorted text_le (keep p (dedup xs))))) (sym same)
          (Among-map f (sorted text_le (keep p (dedup xs))) n found)

names_of-Among :
    (rows : List (Option String)) (names : List String)
    → names_of rows ≡ ok names
    → (n : String) → (contains names n ≡ true) ↔ Among (some n) rows
unfolding names_of
names_of-Among [] names given n =
    let same : [] ≡ names = cc in
    subst (λ names. (contains names n ≡ true) ↔ (Unit {0} × ⊥)) same
      (λ h. cc, λ among. absurd among.1)
names_of-Among (none ∷ rows) names given n = cc
names_of-Among (some m ∷ rows) names given n =
    let (rest, read_rest, built) = bind_ok (names_of rows) (λ names. ok (m ∷ names)) names given in
    let same : m ∷ rest ≡ names = cc in
    subst (λ names. (contains names n ≡ true) ↔ Among (some n) (some m ∷ rows)) same
      (ground (arith, text_eq.equal_iff m n, names_of-Among rows rest read_rest n))

not_iff : (b : Bool) → (not b ≡ true) ↔ (b ≡ false)
not_iff b = ground arith

neither_iff : (a b : Bool) → ((not a && not b) ≡ true) ↔ ((a ≡ false) × (b ≡ false))
neither_iff a b = ground arith

refuted_iff : {P : Type 0} (b : Bool) → (b ≡ true) ↔ P → (b ≡ false) ↔ (¬ P)
refuted_iff true h = (λ e. cc, λ no. absurd (no (h.0 refl)))
refuted_iff false h = (λ e p. cc (h.1 p), λ no. refl)

share_drifts-Among :
    (names listed : List String) (d : Drift)
    → Among d (share_drifts names listed) ↔ (
        ((n : String) × (d ≡ missing_share n)
          × (contains names n ≡ true)
          × (not (contains listed n) ≡ true))
        ⊎ ((n : String) × (d ≡ extra_share n)
            × (contains listed n ≡ true)
            × ((not (contains names n) && not (contains auto_shares n)) ≡ true)))
unfolding share_drifts
share_drifts-Among names listed d =
    let p : String → Bool = λ n. not (contains listed n) in
    let q : String → Bool = λ n. not (contains names n) && not (contains auto_shares n) in
    let (there, back) =
      Among-append (map missing_share (sorted text_le (keep p (dedup names))))
        (map extra_share (sorted text_le (keep q (dedup listed)))) d in
    let (missing, to_missing) = picked-Among missing_share p names d in
    let (extra, to_extra) = picked-Among extra_share q listed d in
    (
      λ among. elim (there among) [ inl m ↦ inl (missing m) | inr m ↦ inr (extra m) ],
      λ cause. back (elim cause [ inl m ↦ inl (to_missing m) | inr m ↦ inr (to_extra m) ]),
    )

-- What is declared and not listed.
abbrev pub IsMissing : List (Option String) → List String → Drift → Type 0
IsMissing rows listed d =
    (n : String) × (d ≡ missing_share n) × Among (some n) rows × (contains listed n ≡ false)

-- What is listed, and neither declared nor created by the system itself.
abbrev pub IsUnmanaged : List (Option String) → List String → Drift → Type 0
IsUnmanaged rows listed d =
    (n : String) × (d ≡ extra_share n)
    × (contains listed n ≡ true)
    × (¬ Among (some n) rows)
    × (contains auto_shares n ≡ false)

-- If `diff_shares` gives a list of drifts, it reports just two kinds of shares and each of these
-- once or more: one that is declared and not listed, and one that is listed, is not declared and is
-- not among those that the system creates itself.
pub diff_shares-Exact :
    (spec : Spec) (snap : Snapshot) (found : List Drift)
    → diff_shares spec snap ≡ ok found
    → (d : Drift)
    → Among d found ↔ (
        IsMissing spec.shares (parse_enum snap.shares_raw) d
        ⊎ IsUnmanaged spec.shares (parse_enum snap.shares_raw) d)
unfolding diff_shares
diff_shares-Exact spec snap found given d =
    let listed = parse_enum snap.shares_raw in
    let (names, read, built) =
      bind_ok (names_of spec.shares) (λ names. ok (share_drifts names listed)) found given in
    let same : share_drifts names listed ≡ found = cc in
    let declared = names_of-Among spec.shares names read in
    let (there, back) = share_drifts-Among names listed d in
    subst
      (λ found. Among d found ↔ (IsMissing spec.shares listed d ⊎ IsUnmanaged spec.shares listed d))
      same
      (
        λ among. elim (there among) [
          | inl (n, e, in_names, unlisted) ↦
              inl (n, e, (declared n).0 in_names, (not_iff _).0 unlisted)
          | inr (n, e, in_list, neither) ↦
              let (undeclared, no_auto) = (neither_iff _ _).0 neither in
              inr (n, e, in_list, (refuted_iff _ (declared n)).0 undeclared, no_auto)
        ],
        λ cause. back (elim cause [
          | inl (n, e, in_names, unlisted) ↦
              inl (n, e, (declared n).1 in_names, (not_iff _).1 unlisted)
          | inr (n, e, in_list, undeclared, no_auto) ↦ inr (
            n,
            e,
            in_list,
            (neither_iff _ _).1 ((refuted_iff _ (declared n)).1 undeclared, no_auto),
          )
        ]),
      )
