-- ===== src/Compose/Docker/Recreated.antt =====
-- The regular expression of `changed_services`, `Container (\S+)\s+Recreate\b`, with `finditer`.
use Prim.Native.Char.{Char, code}
use Prim.Native.String.{count}
use krg_infra.Prelude.{
  ℕ, zero, suc, ◌+◌, ◌-◌, String, Bool, true, ◌&&◌, ◌||◌, not, Option, none, some, List, [], ◌∷◌,
  ◌==◌, leb, if◌then◌else◌, text_eq, nat_eq,
}
use krg_infra.Text.{is_space}

-- The characters of `\w` that are ASCII.
is_word : Char → Bool
is_word c =
    let n = code c in
    leb b'a' n && leb n b'z' || leb b'A' n && leb n b'Z' || leb b'0' n && leb n b'9' || n == b'_'

-- `\b` behind a word character: the text ends, or goes on with another kind of character.
at_boundary : String → Bool
unfolding is_word
at_boundary String.[] = true
at_boundary (String.◌∷◌ c s) = not (is_word c)

-- The text behind a given beginning.
after : String → String → Option String
after String.[] s = some s
after (String.◌∷◌ p ps) String.[] = none
after (String.◌∷◌ p ps) (String.◌∷◌ c s) =
    let rest = after ps s in if code p == code c then rest else none

-- The longest run of characters that pass a test, and what is behind it.
span : (Char → Bool) → String → String × String
span test String.[] = ("", "")
span test (String.◌∷◌ c s) =
    let (w, rest) = span test s in if test c then (String.◌∷◌ c w, rest) else ("", String.◌∷◌ c s)

-- Behind the name: spaces, then "Recreate" as a whole word. `\S+` and `\s+` can only match whole
-- runs, since what follows each is of the other kind. Gives the name and the match's length.
with_name : String × String → Option (String × ℕ)
unfolding span after at_boundary
with_name (name, behind) =
    let (spaces, tail) = span is_space behind in
    elim (after "Recreate" tail) [
      | none ↦ none
      | some rest ↦
          if not (name == "") && not (spaces == "") && at_boundary rest
          then some (name, 10 + count name + count spaces + 8)
          else none
    ]

-- A match that begins where the text does.
match_here : String → Option (String × ℕ)
unfolding with_name
match_here s = elim (after "Container " s) [
  | none ↦ none
  | some rest ↦ with_name (span (λ c. not (is_space c)) rest)
]

-- The matches from left to right. The number counts the characters that a match has taken.
matches_from : String → ℕ → List String
matches_from String.[] k = []
matches_from (String.◌∷◌ c s) (suc k) = matches_from s k
matches_from (String.◌∷◌ c s) zero = elim (match_here (String.◌∷◌ c s)) [
  | none ↦ matches_from s 0
  | some (name, taken) ↦ name ∷ matches_from s (taken - 1)
]

-- `[m.group(1) for m in re.finditer(r"Container (\S+)\s+Recreate\b", out)]`
unfoldable pub recreated_names : String → List String
unfolding match_here matches_from
recreated_names out = matches_from out 0
