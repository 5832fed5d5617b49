-- ===== src/Drift/Diffs/LastRow.antt =====
-- `live_tiers_from` knows of each share what the last row for it says.
use krg_infra.Prelude.{
  String, Option, none, some, List, [], ◌∷◌, ◌≡◌, refl, ap, sym, ◌∙◌, inl, inr, ◌==◌, option_eq,
  Bool-cases, text_eq, lookup, if◌then◌else◌,
}
use krg_infra.Effects.{ok}
use krg_infra.Effects.Fallible.{bind_ok}
use krg_infra.Drift.Parsers.{Tiers, or_key_error, join_lines, parse_list_acl}
use krg_infra.Drift.State.{or_default}
use krg_infra.Drift.Diffs.{live_tiers_from, no_principals}

pub key_given : {A : Type 0} (o : Option A) (a : A) → or_key_error o ≡ ok a → o ≡ some a
key_given none a h = cc
key_given (some b) a h = cc

-- The rows of a snapshot's ACLs: a share's name and the lines that list its ACL.
abbrev pub Rows : Type 0
Rows = List (Option String × Option (List String))

-- The lines of the last row for the share.
abbrev pub last_lines : (share : String) → Rows → Option (List String)
last_lines share [] = none
last_lines share ((name, lines) ∷ rows) = elim (last_lines share rows) [
  | some later ↦ some later
  | none ↦ if name == some share then lines else none
]

-- What those lines say, and nothing in any tier if there is no such row.
abbrev pub tiers_of : Option (List String) → Tiers
tiers_of none = no_principals
tiers_of (some lines) = parse_list_acl (join_lines lines)

-- The live tiers of a share: nothing in any tier, if the share is in no snapshot.
abbrev pub live_tiers : List (String × Tiers) → String → Tiers
live_tiers live_by_share share = or_default no_principals (lookup share live_by_share)

abbrev behind : Option (List String) → Tiers → Tiers
behind none before = before
behind (some lines) before = parse_list_acl (join_lines lines)

behind-none : (o : Option (List String)) → behind o no_principals ≡ tiers_of o
behind-none none = refl
behind-none (some lines) = refl

-- Behind a row, what is known of a share is what the row says if it is the share's, and else what
-- was known before.
row_known :
    (share name : String) (lines : List String) (known : List (String × Tiers))
    (later : Option (List String))
    → behind later (live_tiers ((name, parse_list_acl (join_lines lines)) ∷ known) share)
      ≡ behind
          (elim later [
            | some ls ↦ some ls
            | none ↦ if some name == some share then some lines else none
          ])
          (live_tiers known share)
row_known share name lines known (some ls) = refl
row_known share name lines known none = elim (Bool-cases (name == share)) [
  | inl same ↦ rw same refl
  | inr other ↦ rw other refl
]

live_tiers_known :
    (rows : Rows) (known live_by_share : List (String × Tiers))
    → live_tiers_from known rows ≡ ok live_by_share
    → (share : String)
    → live_tiers live_by_share share ≡ behind (last_lines share rows) (live_tiers known share)
unfolding live_tiers_from
live_tiers_known [] known live_by_share given share =
    let same : known ≡ live_by_share = cc in ap (λ l. live_tiers l share) (sym same)
live_tiers_known ((name, list_acl) ∷ rows) known live_by_share given share =
    let (s, named, more) = bind_ok (or_key_error name) _ live_by_share given in
    let (lines, listed, rest) = bind_ok (or_key_error list_acl) _ live_by_share more in
    let is_name : name ≡ some s = key_given name s named in
    let is_listed : list_acl ≡ some lines = key_given list_acl lines listed in
    live_tiers_known rows ((s, parse_list_acl (join_lines lines)) ∷ known) live_by_share rest share
    ∙ row_known share s lines known (last_lines share rows)
    ∙ ap (λ n. behind (last_lines share ((n, some lines) ∷ rows)) (live_tiers known share))
        (sym is_name)
    ∙ ap (λ l. behind (last_lines share ((name, l) ∷ rows)) (live_tiers known share))
        (sym is_listed)

-- What is known in the end is what the last row for each share says.
pub live_tiers_last :
    (rows : Rows) (live_by_share : List (String × Tiers))
    → live_tiers_from [] rows ≡ ok live_by_share
    → ◌≡◌ {A = String → Tiers}
        (live_tiers live_by_share)
        (λ share. tiers_of (last_lines share rows))
live_tiers_last rows live_by_share given i share =
    (live_tiers_known rows [] live_by_share given share ∙ behind-none (last_lines share rows)) i
