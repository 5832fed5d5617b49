-- ===== src/Drift/Parsers/Listing.antt =====
-- `parse_enum` reads what `synoshare --enum` prints.
use krg_infra.Prelude.{
  String, Bool, true, false, List, [], ◌∷◌, ◌++◌, ◌==◌, ◌≡◌, refl, ap, ◌∙◌, text_eq, All,
}
use krg_infra.Text.{strip}
use krg_infra.Drift.Parsers.{ends_with, names_from, parse_enum}

-- A name that is printed as it is: not blank, and without space around it.
abbrev pub IsName : String → Type 0
IsName n = (strip n ≡ n) × ((n == "") ≡ false)

-- Whether a line, stripped, ends with "Listed:".
abbrev pub is_header : String → Bool
is_header line = ends_with (strip line) "Listed:"

names_from-names : (names : List String) → All IsName names → names_from true names ≡ names
unfolding names_from
names_from-names [] h = refl
names_from-names (n ∷ names) ((same, filled), h) =
    rw same (rw filled (ap (λ ns. n ∷ ns) (names_from-names names h)))

-- What stands before the line "N Listed:" is passed over, and the lines behind it are the names.
pub parse_enum-listing :
    (before : List String) (header : String) (names : List String)
    → All (λ l. is_header l ≡ false) before
    → is_header header ≡ true
    → All IsName names
    → parse_enum (before ++ header ∷ names) ≡ names
unfolding parse_enum names_from
parse_enum-listing [] header names none_before last listed =
    ap (λ b. names_from b names) last ∙ names_from-names names listed
parse_enum-listing (l ∷ before) header names (plain, none_before) last listed =
    ap (λ b. names_from b (before ++ header ∷ names)) plain
    ∙ parse_enum-listing before header names none_before last listed
