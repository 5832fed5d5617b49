-- ===== src/Drift/Json.antt =====
-- The values that `json.loads` and `yaml.safe_load` give to drift_detector.py: its numbers are natural.
use krg_infra.Prelude.{
  ℕ, String, Bool, true, false, ◌&&◌, Option, none, some, List, [], ◌∷◌, ◌==◌, nat_eq, text_eq,
  bool_eq, option_eq, if◌then◌else◌,
}
use krg_infra.Text.{text_le}

mutual
  pub data Json : Type 0 where
    null : Json
    boolean : Bool → Json
    number : ℕ → Json
    string : String → Json
    list : Jsons → Json
    object : Members → Json

  pub data Jsons : Type 0 where
    no_items : Jsons
    item : Json → Jsons → Jsons

  pub data Members : Type 0 where
    no_members : Members
    member : String → Json → Members → Members

-- Whether two values are the same, member by member.
unfoldable mutual
  pub same_json : Json → Json → Bool
  same_json null null = true
  same_json (boolean a) (boolean b) = a == b
  same_json (number a) (number b) = a == b
  same_json (string a) (string b) = a == b
  same_json (list a) (list b) = same_items a b
  same_json (object a) (object b) = same_members a b
  same_json _ _ = false

  pub same_items : Jsons → Jsons → Bool
  same_items no_items no_items = true
  same_items (item x xs) (item y ys) = same_json x y && same_items xs ys
  same_items _ _ = false

  pub same_members : Members → Members → Bool
  same_members no_members no_members = true
  same_members (member j u ms) (member k v ns) = j == k && same_json u v && same_members ms ns
  same_members _ _ = false

insert_member : String → Json → Members → Members
insert_member k v no_members = member k v no_members
insert_member k v (member j u ms) =
    let rest = insert_member k v ms in
    if text_le k j then member k v (member j u ms) else member j u rest

-- What `json.dumps(..., sort_keys=True)` writes out: the members sorted by their keys, at every depth.
unfoldable mutual
  unfolding insert_member

  pub canonical : Json → Json
  canonical (list xs) = list (canonical_items xs)
  canonical (object ms) = object (canonical_members ms)
  canonical v = v

  pub canonical_items : Jsons → Jsons
  canonical_items no_items = no_items
  canonical_items (item x xs) = item (canonical x) (canonical_items xs)

  pub canonical_members : Members → Members
  canonical_members no_members = no_members
  canonical_members (member k v ms) = insert_member k (canonical v) (canonical_members ms)

-- `d[k]`, if the key is there
unfoldable pub find : String → Members → Option Json
find k no_members = none
find k (member j v ms) = if j == k then some v else find k ms

-- `d.get(k)`
abbrev pub get : String → Members → Json
get k ms = elim (find k ms) [ none ↦ null | some v ↦ v ]

-- The number that a value is to Python's `==`, for which True is 1 and False is 0.
abbrev pub numeric : Json → Option ℕ
numeric (boolean true) = some 1
numeric (boolean false) = some 0
numeric (number n) = some n
numeric _ = none

-- `v == live` for a declared value that is a Boolean, a number or a text
unfoldable pub same_value : Json → Json → Bool
unfolding same_json
same_value v live = elim (numeric v) [ none ↦ same_json v live | some n ↦ numeric live == some n ]

abbrev items : List String → Jsons
items [] = no_items
items (s ∷ ss) = item (string s) (items ss)

-- A list of texts.
abbrev pub texts : List String → Json
texts names = list (items names)
