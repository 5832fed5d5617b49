-- ===== src/Scratch/Paths.antt =====
-- The parts of `os.path` that work on texts: `dirname`, `basename` and `join`.
use Prim.Native.Char.{code}
use text.Mathlib.Text.{starts_with}
use krg_infra.Prelude.{String, ◌<>◌, Bool, false, ◌==◌, ◌&&◌, ◌||◌, if◌then◌else◌, text_eq, nat_eq}

-- The text up to its last "/", which is "" if there is none.
head_of : String → String
head_of String.[] = ""
head_of (String.◌∷◌ c s) =
    let head = head_of s in
    if head == "" then (if code c == 47 then "/" else "") else String.◌∷◌ c head

strip_slashes : String → String
strip_slashes String.[] = ""
strip_slashes (String.◌∷◌ c s) =
    let rest = strip_slashes s in if rest == "" && code c == 47 then "" else String.◌∷◌ c rest

-- A path of slashes alone keeps them.
unfoldable pub dirname : String → String
unfolding head_of strip_slashes
dirname p =
    let head = head_of p in let short = strip_slashes head in if short == "" then head else short

unfoldable pub basename : String → String
unfolding head_of
basename String.[] = ""
basename (String.◌∷◌ c s) =
    let rest = basename s in
    if head_of s == "" then (if code c == 47 then s else String.◌∷◌ c s) else rest

pub ends_with_slash : String → Bool
ends_with_slash String.[] = false
ends_with_slash (String.◌∷◌ c s) =
    let rest = ends_with_slash s in if s == "" then code c == 47 else rest

unfoldable pub join : String → String → String
unfolding ends_with_slash
join a b =
    if starts_with b "/" then b else if a == "" || ends_with_slash a then a <> b else a <> "/" <> b
