-- ===== src/OutlineSync/Plan.antt =====
-- `plan_sync` of sync.py: the operations that bring Outline's groups in line with the directory.
pub mod Replay
pub mod Rounds
pub mod Disjoint
pub mod Convergence
pub mod Desired
pub mod Removed
pub mod Target
pub mod Entitlement
pub mod Operations
pub mod Snapshot
pub mod Correct
pub mod Scoped
pub mod Scope
mod Tests
use text.Mathlib.Text.{starts_with}
use krg_infra.Prelude.{
  String, ◌<>◌, Bool, true, false, not, ◌&&◌, ◌||◌, Option, none, some, List, [], ◌∷◌, ◌++◌, ◌==◌,
  if◌then◌else◌, text_eq, option_eq, contains, keep, lookup, map,
}
use krg_infra.Text.{text_le}
use krg_infra.Sorted.{sorted}
use krg_infra.Effects.{Result, ok, raised}
use krg_infra.Effects.Fallible.{◌>>=◌, ◌>>◌}
use krg_infra.OutlineSync.Rows.{
  SyncError, rename_collides, other_owner, shared_target, now_external, unread_memberships,
  LdapGroup, AkUser, OutlineUser, OutlineGroup, index_unique, address,
}

-- A call of Outline's API. The id of a group that is still to be created is its external id.
pub data Operation : Type 0 where
  create : (name external_id : String) → Operation
  update : (id name external_id : String) → Operation
  add_user remove_user : (id user_id : String) → Operation

-- A set of user ids for each key.
abbrev pub Members : Type 0
Members = List (String × List String)

-- `members[pk].add(user)`, if the key is there.
add_member : String → String → Members → Members
add_member pk user [] = []
add_member pk user ((k, users) ∷ members) =
    let rest = add_member pk user members in
    if k == pk
    then (k, if contains users user then users else user ∷ users) ∷ members
    else (k, users) ∷ rest

grant : String → List String → Members → Members
unfolding add_member
grant user [] members = members
grant user (pk ∷ pks) members = grant user pks (add_member pk user members)

-- Whether a user of Authentik may be a member at all.
abbrev pub is_member : Option AkUser → Bool
is_member none = false
is_member (some ak) = ak.is_active && ak.type == "internal"

abbrev pub is_barred : OutlineUser → Bool
is_barred user = user.is_suspended || user.role == "guest"

abbrev groups_of : Option AkUser → List String
groups_of none = []
groups_of (some ak) = ak.groups

grant_all : List (String × AkUser) → List (String × OutlineUser) → Members → Members
unfolding grant
grant_all ak_by_email [] members = members
grant_all ak_by_email ((address, user) ∷ users) members =
    let ak = lookup address ak_by_email in
    grant_all ak_by_email users (
      if not (is_member ak) || is_barred user
      then members
      else grant user.id (groups_of ak) members)

-- `desired_members`
unfoldable pub desired_members :
    List (String × LdapGroup) → List (String × AkUser) → List (String × OutlineUser) → Members
unfolding grant_all
desired_members groups ak_by_email ol_by_email =
    grant_all ak_by_email ol_by_email (map (λ (pk, group). (pk, [])) groups)

-- `a - b` of two sets
abbrev pub without : List String → List String → List String
without a b = keep (λ x. not (contains b x)) a

-- The calls that turn the members `current` of a group into `desired`.
unfoldable pub member_changes : String → (desired current : List String) → List Operation
member_changes id desired current =
    map (add_user id) (sorted text_le (without desired current))
    ++ map (remove_user id) (sorted text_le (without current desired))

abbrev pub or_unread : Option (List String) → Result SyncError (List String)
or_unread none = raised unread_memberships
or_unread (some users) = ok users

-- `memberships[id]`
abbrev pub members_at : Members → String → Result SyncError (List String)
members_at members id = or_unread (lookup id members)

abbrev pub or_empty : Option (List String) → List String
or_empty none = []
or_empty (some users) = users

-- `desired_members[pk]`, which is there for each group of the directory.
abbrev pub members_of : Members → String → List String
members_of members pk = or_empty (lookup pk members)

abbrev or_else : Option OutlineGroup → Option OutlineGroup → Option OutlineGroup
or_else none other = other
or_else (some group) other = some group

abbrev collide : Option OutlineGroup → Option OutlineGroup → Bool
collide (some a) (some b) = not (a.id == b.id)
collide _ _ = false

-- Whether a group's `externalId` is `None`, "" or the one given.
abbrev pub may_adopt : String → OutlineGroup → Bool
may_adopt external_id group =
    not group.external_group
    && (group.external_id == none
        || group.external_id == some ""
        || group.external_id == some external_id)

-- The update of a group that is managed from now on, or was renamed.
abbrev renaming : OutlineGroup → LdapGroup → String → List Operation
renaming group source external_id =
    if not (group.external_id == some external_id) || not (group.name == source.name)
    then update group.id source.name external_id ∷ []
    else []

-- Whether a group's `externalId` begins with the tool's prefix.
abbrev pub is_managed : String → OutlineGroup → Bool
is_managed prefix group = elim group.external_id [ none ↦ false | some id ↦ starts_with id prefix ]

module _ (prefix : String) (by_name by_external : List (String × OutlineGroup))
    (desired memberships : Members) where
  -- What is planned for a group that is there, with the ids used so far.
  plan_target :
      String
      → LdapGroup
      → OutlineGroup
      → List String
      → Result SyncError (List Operation × List String)
  plan_target pk source group used =
      let external_id = prefix <> pk in
      if not (may_adopt external_id group)
      then raised other_owner
      else if contains used group.id
      then raised shared_target
      else members_at memberships group.id >>= λ current. ok (
        renaming group source external_id
            ++ member_changes group.id (members_of desired pk) current,
        group.id ∷ used,
      )

  plan_new : String → LdapGroup → List String → Result SyncError (List Operation × List String)
  plan_new pk source used =
      let external_id = prefix <> pk in
      ok (
        create source.name external_id ∷ member_changes external_id (members_of desired pk) [],
        used,
      )

  plan_choice :
      String
      → LdapGroup
      → List String
      → Option OutlineGroup
      → Result SyncError (List Operation × List String)
  unfolding plan_target plan_new
  plan_choice pk source used none = plan_new pk source used
  plan_choice pk source used (some group) = plan_target pk source group used

  -- One round of the loop over the directory's groups.
  pub plan_group :
      String → LdapGroup → List String → Result SyncError (List Operation × List String)
  unfolding plan_choice
  plan_group pk source used =
      let target = lookup (prefix <> pk) by_external in
      let same_name = lookup source.name by_name in
      if collide target same_name
      then raised rename_collides
      else plan_choice pk source used (or_else target same_name)

  pub plan_groups :
      List (String × LdapGroup) → List String → Result SyncError (List Operation × List String)
  unfolding plan_group
  plan_groups [] used = ok ([], used)
  plan_groups ((pk, source) ∷ groups) used = plan_group pk source used >>= λ (operations, used').
      plan_groups groups used' >>= λ (rest, used''). ok (operations ++ rest, used'')

  -- The groups that are managed and have left the directory are emptied.
  pub empty_removed : List OutlineGroup → List String → Result SyncError (List Operation)
  empty_removed [] used = ok []
  empty_removed (group ∷ groups) used =
      let rest = empty_removed groups used in
      if is_managed prefix group && not (contains used group.id)
      then if group.external_group
        then raised now_external
        else (members_at memberships group.id >>= λ current. rest >>= λ operations.
            ok (map (remove_user group.id) (sorted text_le current) ++ operations))
      else rest

  pub plan_operations :
      List (String × LdapGroup) → List OutlineGroup → Result SyncError (List Operation)
  unfolding plan_groups empty_removed
  plan_operations desired_groups outline_groups =
      plan_groups (sorted (λ a b. text_le a.0 b.0) desired_groups) [] >>= λ (operations, used).
      empty_removed outline_groups used >>= λ removals. ok (operations ++ removals)

abbrev has_external_id : OutlineGroup → Bool
has_external_id group = elim group.external_id [ none ↦ false | some id ↦ not (id == "") ]

abbrev external_id_of : OutlineGroup → String
external_id_of group = elim group.external_id [ none ↦ "" | some id ↦ id ]

unfoldable pub plan_sync :
    (casefold : String → String)
    → (source_id : String) → List LdapGroup
    → List AkUser
    → List OutlineGroup
    → List OutlineUser
    → Members
    → Result SyncError (List Operation)
unfolding plan_operations
plan_sync casefold source_id ldap_groups ak_users outline_groups outline_users memberships = do
  let prefix = "krg-ldap:" <> source_id <> ":"
  desired_groups ← index_unique (λ g. g.pk) ldap_groups
  index_unique (λ g. g.name) ldap_groups
  by_name ← index_unique (λ g. g.name) outline_groups
  by_external ← index_unique external_id_of (keep has_external_id outline_groups)
  ak_by_email ←
      index_unique (λ u. address casefold u.email)
        (keep (λ u. not (address casefold u.email == "")) ak_users)
  ol_by_email ← index_unique (λ u. address casefold u.email) outline_users
  let desired = desired_members desired_groups ak_by_email ol_by_email
  plan_operations prefix by_name by_external desired memberships desired_groups outline_groups
