-- ===== src/Drift/Parsers.antt =====
-- The parsers of drift_detector.py: `webapi_data`, `parse_enum` and `parse_list_acl`.
pub mod Listing
use Prim.Native.Char.{Char, code}
use text.Mathlib.Text.{starts_with}
use krg_infra.Prelude.{
  String, ◌<>◌, Bool, true, false, not, ◌||◌, Option, none, some, List, [], ◌∷◌, ◌==◌, nat_eq,
  text_eq, if◌then◌else◌, keep,
}
use krg_infra.Text.{is_space, strip, strip_left, split_at}
use krg_infra.Effects.{Result, ok, raised}
use krg_infra.Drift.Json.{Json, object, Members, find}

-- An exception that `run` catches (OSError, YAMLError, ValueError, KeyError), or another.
pub data Failure : Type 0 where
  caught uncaught : Failure

-- `d[k]`
abbrev pub or_key_error {ℓ} : {A : Type ℓ} → Option A → Result Failure A
or_key_error none = raised caught
or_key_error (some a) = ok a

-- The lines from the first that begins with a brace, if there is one.
from_brace : List String → Option (List String)
from_brace [] = none
from_brace (ln ∷ lines) =
    if starts_with (strip_left ln) "{" then some (ln ∷ lines) else from_brace lines

-- `"\n".join(lines)`
unfoldable pub join_lines : List String → String
join_lines [] = ""
join_lines (l ∷ []) = l
join_lines (l ∷ m ∷ ls) = l <> "\n" <> join_lines (m ∷ ls)

data_of : Option Json → Result Failure Members
data_of none = raised caught
data_of (some (object ms)) = or_object (find "data" ms)
  where
    or_object : Option Json → Result Failure Members
    or_object none = raised caught
    or_object (some (object body)) = ok body
    or_object (some _) = raised uncaught
data_of (some _) = raised uncaught

unfoldable pub webapi_data : (String → Option Json) → List String → Result Failure Members
unfolding from_brace join_lines data_of
webapi_data json_loads lines = elim (from_brace lines) [
  | none ↦ raised caught
  | some rest ↦ data_of (json_loads (join_lines rest))
]

-- `s.endswith(t)`
unfoldable pub ends_with : String → String → Bool
ends_with String.[] t = t == ""
ends_with (String.◌∷◌ c s) t = String.◌∷◌ c s == t || ends_with s t

-- The names behind the line "N Listed:", by whether it has been seen.
names_from : Bool → List String → List String
unfolding strip ends_with
names_from seen [] = []
names_from false (ln ∷ lines) = names_from (ends_with (strip ln) "Listed:") lines
names_from true (ln ∷ lines) =
    let rest = names_from true lines in if strip ln == "" then rest else strip ln ∷ rest

unfoldable pub parse_enum : List String → List String
unfolding names_from
parse_enum lines = names_from false lines

-- The tiers of `synoshare --list_acl`: RW, RO and NA.
pub data Tier : Type 0 where
  rw_tier ro_tier na_tier : Tier

abbrev pub tier_name : Tier → String
tier_name rw_tier = "RW"
tier_name ro_tier = "RO"
tier_name na_tier = "NA"

-- What follows a word at the beginning of a text.
after_word : String → String → Option String
after_word String.[] s = some s
after_word (String.◌∷◌ c w) String.[] = none
after_word (String.◌∷◌ c w) (String.◌∷◌ d s) = if code c == code d then after_word w s else none

skip : (Char → Bool) → String → String
skip p String.[] = ""
skip p (String.◌∷◌ c s) = if p c then skip p s else String.◌∷◌ c s

-- `(.*?)\]`: up to the first bracket, which must stand on the line.
up_to_bracket : String → Option String
up_to_bracket String.[] = none
up_to_bracket (String.◌∷◌ c s) =
    let rest = up_to_bracket s in
    if code c == 93
    then some ""
    else if code c == 10
    then none
    else elim rest [ none ↦ none | some t ↦ some (String.◌∷◌ c t) ]

-- `\[(.*?)\]`
bracketed : String → Option String
unfolding up_to_bracket
bracketed String.[] = none
bracketed (String.◌∷◌ c s) = if code c == 91 then up_to_bracket s else none

-- `ACL <tier> List\s*\.*\[(.*?)\]` at the beginning of a text
match_list : Tier → String → Option String
unfolding after_word skip bracketed is_space
match_list t s = elim (after_word ("ACL " <> tier_name t <> " List") s) [
  | none ↦ none
  | some rest ↦ bracketed (skip (λ c. code c == 46) (skip is_space rest))
]

-- `re.search` for it
search_list : Tier → String → Option String
unfolding match_list
search_list t String.[] = none
search_list t (String.◌∷◌ c s) =
    let later = search_list t s in
    elim (match_list t (String.◌∷◌ c s)) [ none ↦ later | some found ↦ some found ]

-- The principals of each tier, a set as the list of its elements.
abbrev pub Tiers : Type 0
Tiers = Tier → List String

abbrev pub items_of : Option String → List String
items_of none = []
items_of (some listed) = if listed == "" then [] else split_at 44 listed

unfoldable pub parse_list_acl : String → Tiers
unfolding search_list split_at
parse_list_acl s t = keep (λ x. not (x == "")) (items_of (search_list t s))
