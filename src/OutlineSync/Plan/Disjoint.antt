-- ===== src/OutlineSync/Plan/Disjoint.antt =====
-- The rounds of `plan_sync` plan for different groups.
use text.Mathlib.Text.{starts_with}
use text.Mathlib.TextEquality.{eq_iff}
use text.Mathlib.TextPositions.{starts_with-append}
use text.Mathlib.TextLemmas.{append_cancel_left}
use krg_infra.Prelude.{
  String, ◌<>◌, true, false, List, ◌≡◌, refl, sym, ◌∙◌, ◌==◌, text_eq, contains, map, Bool-cases,
  inl, inr, beq_refl,
}
use krg_infra.OutlineSync.Rows.{LdapGroup}
use krg_infra.OutlineSync.Plan.Rounds.{Location, new, found}

abbrev pub keys_of : List (String × LdapGroup) → List String
keys_of = map (λ e. e.0)

-- Where the calls planned from `used` on are: for a group to be created for one of the keys, or for
-- one that is there, was not used before, and is used after.
pub data Site (prefix : String) (keys : List String) (used used' : List String) (id : String)
    : Type 0 where
  to_create :
      (pk : String) → contains keys pk ≡ true → id ≡ prefix <> pk → Site prefix keys used used' id
  to_use :
      starts_with id prefix ≡ false
      → contains used id ≡ false
      → contains used' id ≡ true
      → Site prefix keys used used' id

pub differ : (a b : String) → (a ≡ b → ⊥) → (a == b) ≡ false
differ a b ne = elim (Bool-cases (a == b)) [
  | inl same ↦ absurd (ne ((eq_iff a b).0 same))
  | inr h ↦ h
]

pub apart_sym : (a b : String) → (a == b) ≡ false → (b == a) ≡ false
apart_sym a b h = differ b a λ p. let same : (a == b) ≡ true = (eq_iff a b).1 (sym p) in cc

-- A group that does not look like one of the tool's is none that it creates.
pub real-ne-created :
    (prefix id pk : String) → starts_with id prefix ≡ false → id ≡ prefix <> pk → ⊥
real-ne-created prefix id pk real same =
    let created : starts_with id prefix ≡ true = rw same (starts_with-append prefix pk) in cc

contained-ne :
    (used : List String) (a b : String)
    → contains used a ≡ true
    → contains used b ≡ false
    → a ≡ b
    → ⊥
contained-ne used a b in_it out same = let also : contains used b ≡ true = rw (← same) in_it in cc

-- A round's group is none of those of later rounds.
pub located_apart :
    (prefix pk id : String) (keys used used1 used' : List String) (other : String)
    → Location prefix pk id used used1
    → contains keys pk ≡ false
    → Site prefix keys used1 used' other
    → (id == other) ≡ false
located_apart prefix pk id keys used used1 used' other (new created same) absent
      (to_create pk' present e) =
    differ id other λ p.
      let equal : pk ≡ pk' = append_cancel_left prefix pk pk' (sym created ∙ p ∙ e) in
      contained-ne keys pk' pk present absent (sym equal)
located_apart prefix pk id keys used used1 used' other (new created same) absent
      (to_use real unused later) =
    differ id other λ p. real-ne-created prefix other pk real (sym p ∙ created)
located_apart prefix pk id keys used used1 used' other (found real unused grown) absent
      (to_create pk' present e) =
    differ id other λ p. real-ne-created prefix id pk' real (p ∙ e)
located_apart prefix pk id keys used used1 used' other (found real unused grown) absent
      (to_use real' unused' later) =
    differ id other λ p.
      let here : contains used1 id ≡ true = rw (grown, beq_refl id) refl in
      contained-ne used1 id other here unused' p
