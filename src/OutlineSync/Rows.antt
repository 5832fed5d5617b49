-- ===== src/OutlineSync/Rows.antt =====
-- The rows that the two APIs return, as far as sync.py reads them, `index_unique` and `email`.
pub mod Index
mod Tests
use krg_infra.Prelude.{
  String, Bool, true, false, ◌||◌, Option, none, some, List, [], ◌∷◌, ◌==◌, if◌then◌else◌, text_eq,
  contains,
}
use krg_infra.Text.{strip}
use krg_infra.Effects.{Result, ok, raised}
use krg_infra.Effects.Fallible.{◌>>=◌}

-- Why a snapshot is refused: a `SyncError` by its message, or the KeyError of a group whose
-- memberships were not read.
pub data SyncError : Type 0 where
  missing_or_duplicate_identity rename_collides other_owner shared_target now_external : SyncError
  unread_memberships : SyncError

-- A group of the directory.
pub record LdapGroup : Type 0 where
  pub pk : String
  pub name : String

-- A user of Authentik. `email` is absent where the row has no text there.
pub record AkUser : Type 0 where
  pub pk : String
  pub email : Option String
  pub is_active : Bool
  pub type : String
  pub groups : List String

-- A user of Outline.
pub record OutlineUser : Type 0 where
  pub id : String
  pub email : Option String
  pub is_suspended : Bool
  pub role : String

-- A group of Outline. An `externalId` that is absent is `null`.
pub record OutlineGroup : Type 0 where
  pub id : String
  pub name : String
  pub external_id : Option String
  pub external_group : Bool

-- `index_unique`, behind the rows whose keys are `seen`.
index_from :
    {A : Type 0} → (A → String) → List String → List A → Result SyncError (List (String × A))
index_from key seen [] = ok []
index_from key seen (row ∷ rows) =
    let value = key row in
    let rest = index_from key (value ∷ seen) rows in
    if value == "" || contains seen value
    then raised missing_or_duplicate_identity
    else rest >>= λ index. ok ((value, row) ∷ index)

-- The dict from each row's key to the row.
unfoldable pub index_unique :
    {A : Type 0} → (A → String) → List A → Result SyncError (List (String × A))
unfolding index_from
index_unique key rows = index_from key [] rows

-- `email`, by a row's value; `casefold` is the string method of that name.
abbrev pub address : (casefold : String → String) → Option String → String
address casefold none = ""
address casefold (some value) = casefold (strip value)
