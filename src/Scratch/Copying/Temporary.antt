-- ===== src/Scratch/Copying/Temporary.antt =====
-- The temporary paths of `tmp_sibling` are told from others by their ending.
use text.Mathlib.Text.{starts_with}
use text.Mathlib.TextLemmas.{append_assoc}
use text.Mathlib.TextEquality.{eq_iff}
use krg_infra.Prelude.{
  String, ◌<>◌, Bool, true, false, ◌||◌, ◌==◌, text_eq, ◌≡◌, ◌≢◌, refl, sym, ap, ◌∙◌, Bool-cases,
  inl, inr, if◌then◌else◌,
}
use krg_infra.Scratch.Paths.{ends_with_slash, dirname, join}
use krg_infra.Scratch.Copying.{sibling, or_dot}

abbrev EndsIn : String → String → Type 0
EndsIn ending s = (front : String) × (s ≡ front <> ending)

EndsIn-append : (ending a b : String) → EndsIn ending b → EndsIn ending (a <> b)
EndsIn-append ending a b (front, e) =
    (a <> front, ap (λ s. a <> s) e ∙ sym (append_assoc a front ending))

EndsIn-if :
    (ending : String) (c : Bool) (a b : String)
    → EndsIn ending a
    → EndsIn ending b
    → EndsIn ending (if c then a else b)
EndsIn-if ending true a b h k = h
EndsIn-if ending false a b h k = k

EndsIn-join : (ending a b : String) → EndsIn ending b → EndsIn ending (join a b)
unfolding join
EndsIn-join ending a b h = EndsIn-if ending (starts_with b "/") _ _ h (
    EndsIn-if ending (a == "" || ends_with_slash a) _ _ (EndsIn-append ending a b h)
      (EndsIn-append ending a _ (EndsIn-append ending "/" b h)))

sibling-EndsIn : (path tag digits : String) → EndsIn ".tmp" (sibling path tag digits)
sibling-EndsIn path tag digits = EndsIn-join ".tmp" (or_dot (dirname path)) _ (
    EndsIn-append ".tmp" "." _ (
      EndsIn-append ".tmp" tag _
        (EndsIn-append ".tmp" "-" _ (EndsIn-append ".tmp" digits ".tmp" ("", refl)))))

-- A path that does not end like a temporary path is none.
pub sibling-ne :
    (p : String)
    → ((front : String) → front <> ".tmp" ≢ p)
    → (path tag digits : String) → (sibling path tag digits == p) ≡ false
sibling-ne p other path tag digits = elim (Bool-cases (sibling path tag digits == p)) [
  | inl same ↦
      let (front, e) = sibling-EndsIn path tag digits in
      absurd (other front (sym e ∙ (eq_iff _ p).0 same))
  | inr differ ↦ differ
]
