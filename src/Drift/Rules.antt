-- ===== src/Drift/Rules.antt =====
-- `_norm_rules` of drift_detector.py.
use krg_infra.Prelude.{
  String, Bool, true, false, ◌&&◌, List, [], ◌∷◌, ◌==◌, text_eq, if◌then◌else◌, map,
}
use krg_infra.Text.{text_le}
use krg_infra.Sorted.{sorted}
use krg_infra.Effects.{Result, ok, raised}
use krg_infra.Effects.Fallible.{◌>>=◌}
use krg_infra.Drift.Json.{
  Json, string, list, object, Jsons, no_items, item, Members, no_members, find, get,
  canonical_members, same_members,
}
use krg_infra.Drift.Parsers.{Failure, uncaught}

abbrev text_of : Json → String
text_of (string s) = s
text_of _ = ""

-- `r.get("client", "")`
unfoldable pub client : Members → String
unfolding find
client rule = text_of (get "client" rule)

objects : Jsons → Result Failure (List Members)
objects no_items = ok []
objects (item (object ms) xs) = do rest ← objects xs; ok (ms ∷ rest)
objects (item _ xs) = raised uncaught

-- The rules of a share, each of which must be a mapping.
rules_of : Json → Result Failure (List Members)
unfolding objects
rules_of (list xs) = objects xs
rules_of (object no_members) = ok []
rules_of (string s) = if s == "" then ok [] else raised uncaught
rules_of _ = raised uncaught

-- The rules sorted by client, and each by its keys.
unfoldable pub norm_rules : Json → Result Failure (List Members)
unfolding rules_of client sorted canonical_members
norm_rules v = do
  rules ← rules_of v
  ok (map canonical_members (sorted (λ a b. text_le (client a) (client b)) rules))

unfoldable pub same_rules : List Members → List Members → Bool
unfolding same_members
same_rules [] [] = true
same_rules (a ∷ xs) (b ∷ ys) = same_members a b && same_rules xs ys
same_rules _ _ = false
