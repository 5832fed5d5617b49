-- ===== src/Text.antt =====
-- Python's string methods, where the source calls them: `split`, `splitlines`, `in`, `strip`,
-- decimal formatting and `sorted`.
mod Tests
use Prim.Native.Nat.{Ordering}
use Prim.Native.Char.{Char, code}
use Prim.Native.String.{compare}
use text.Mathlib.Text.{starts_with}
use krg_infra.Prelude.{
  ℕ, zero, suc, ◌+◌, ◌/◌, ◌%◌, String, ◌<>◌, Bool, true, false, ◌&&◌, ◌||◌, Option, none, some,
  List, [], ◌∷◌, ◌==◌, ltb, leb, if◌then◌else◌, contains, text_eq, nat_eq,
}

-- The characters for which `str.isspace` holds, by their numbers.
unfoldable pub is_space : Char → Bool
is_space c =
    let n = code c in
    leb 9 n && leb n 13
    || leb 28 n && leb n 32
    || n == 0x85
    || n == 0xa0
    || n == 0x1680
    || leb 0x2000 n && leb n 0x200a
    || n == 0x2028
    || n == 0x2029
    || n == 0x202f
    || n == 0x205f
    || n == 0x3000

-- The characters at which `str.splitlines` ends a line.
unfoldable pub is_line_end : Char → Bool
is_line_end c =
    let n = code c in
    leb 10 n && leb n 13 || leb 28 n && leb n 30 || n == 0x85 || n == 0x2028 || n == 0x2029

abbrev cons_word : String → List String → List String
cons_word w ws = if w == "" then ws else w ∷ ws

-- The word that a text begins with, and those behind it.
words : String → String × List String
words String.[] = ("", [])
words (String.◌∷◌ c s) =
    let (w, ws) = words s in if is_space c then ("", cons_word w ws) else (String.◌∷◌ c w, ws)

-- `s.split()`
unfoldable pub split : String → List String
unfolding words is_space
split s = let (w, ws) = words s in cons_word w ws

-- The part before the first character of a kind, and the parts behind it.
parts : (Char → Bool) → String → String × List String
parts is_end String.[] = ("", [])
parts is_end (String.◌∷◌ c s) =
    let (w, ws) = parts is_end s in if is_end c then ("", w ∷ ws) else (String.◌∷◌ c w, ws)

-- `s.split(c)` at one character
unfoldable pub split_at : ℕ → String → List String
unfolding parts
split_at n s = let (w, ws) = parts (λ c. code c == n) s in w ∷ ws

-- "\r\n" is one line end.
join_crlf : String → String
join_crlf String.[] = ""
join_crlf (String.◌∷◌ c s) =
    let rest = join_crlf s in if code c == 13 && starts_with s "\n" then rest else String.◌∷◌ c rest

drop_last_empty : List String → List String
drop_last_empty [] = []
drop_last_empty (l ∷ []) = if l == "" then [] else l ∷ []
drop_last_empty (l ∷ m ∷ ls) = l ∷ drop_last_empty (m ∷ ls)

-- `s.splitlines()`
unfoldable pub split_lines : String → List String
unfolding parts join_crlf drop_last_empty is_line_end
split_lines s = let (w, ws) = parts is_line_end (join_crlf s) in drop_last_empty (w ∷ ws)

-- `t in s`
unfoldable pub has_text : String → String → Bool
has_text t String.[] = t == ""
has_text t (String.◌∷◌ c s) = starts_with (String.◌∷◌ c s) t || has_text t s

-- `s.lstrip()`
unfoldable pub strip_left : String → String
unfolding is_space
strip_left String.[] = ""
strip_left (String.◌∷◌ c s) = let rest = strip_left s in if is_space c then rest else String.◌∷◌ c s

-- `s.rstrip()`
unfoldable pub strip_right : String → String
unfolding is_space
strip_right String.[] = ""
strip_right (String.◌∷◌ c s) =
    let rest = strip_right s in if is_space c && rest == "" then "" else String.◌∷◌ c rest

-- `s.strip()`
unfoldable pub strip : String → String
unfolding strip_left strip_right
strip s = strip_right (strip_left s)

digit : ℕ → String
digit d = elim d [
  | zero ↦ "0"
  | suc zero ↦ "1"
  | suc (suc zero) ↦ "2"
  | suc (suc (suc zero)) ↦ "3"
  | suc (suc (suc (suc zero))) ↦ "4"
  | suc (suc (suc (suc (suc zero)))) ↦ "5"
  | suc (suc (suc (suc (suc (suc zero))))) ↦ "6"
  | suc (suc (suc (suc (suc (suc (suc zero)))))) ↦ "7"
  | suc (suc (suc (suc (suc (suc (suc (suc zero))))))) ↦ "8"
  | _ ↦ "9"
]

-- `str(n)`: as many rounds as `n` has digits are enough, and `n` has at most `n + 1`.
decimal_from : ℕ → ℕ → String → String
unfolding digit
decimal_from zero n tail = tail
decimal_from (suc f) n tail =
    let more = decimal_from f (n / 10) (digit (n % 10) <> tail) in
    if ltb n 10 then digit n <> tail else more

unfoldable pub decimal : ℕ → String
unfolding decimal_from
decimal n = decimal_from (n + 1) n ""

-- The order of `sorted` on texts: by the numbers of their characters.
abbrev pub text_le : String → String → Bool
text_le s t = elim (compare s t) [ Ordering.gt ↦ false | _ ↦ true ]
