-- ===== src/OutlineSync/Plan/Rounds.antt =====
-- One round of `plan_sync` over the directory's groups: it plans for one group of Outline, and
-- brings that group's members to the desired ones.
use text.Mathlib.Text.{starts_with}
use krg_infra.Prelude.{
  String, ◌<>◌, Bool, false, not, ◌||◌, Option, none, some, List, [], ◌∷◌, ◌≡◌, refl, ap, ◌∙◌, ◌==◌,
  text_eq, option_eq, contains, lookup, map, All, All-map, All-append, All-Among, beq_refl,
  Bool-cases, inl, inr,
}
use krg_infra.Effects.Fallible.{Gives, Gives-bind, Gives-if}
use krg_infra.OutlineSync.Rows.{LdapGroup, OutlineGroup}
use krg_infra.OutlineSync.Plan.{
  Operation, create, add_user, remove_user, Members, member_changes, members_at, or_else, collide,
  may_adopt, renaming, or_unread, or_empty, members_of, plan_target, plan_new, plan_choice,
  plan_group,
}
use krg_infra.OutlineSync.Plan.Replay.{
  group_of, effect, replay, replay-append, replay-member_changes,
}

-- All calls are about one group.
abbrev pub Only : String → List Operation → Type 0
Only id = All (λ operation. group_of operation ≡ id)

pub member_changes-Only :
    (id : String) (desired current : List String) → Only id (member_changes id desired current)
unfolding member_changes
member_changes-Only id desired current =
    All-append _ (map (add_user id) _) (map (remove_user id) _)
      (All-map _ (add_user id) _ (All-Among _ _ (λ x h. refl)))
      (All-map _ (remove_user id) _ (All-Among _ _ (λ x h. refl)))

found_members :
    (o : Option (List String))
    → Gives
        (λ users. (user : String) → contains (or_empty o) user ≡ contains users user)
        (or_unread o)
found_members none = tt
found_members (some users) = λ user. refl

effect-create : (name id user : String) (was : Bool) → effect id user (create name id) was ≡ false
effect-create name id user was = rw (beq_refl id)

pub renaming-Only :
    (group : OutlineGroup) (source : LdapGroup) (external_id : String)
    → Only group.id (renaming group source external_id)
renaming-Only group source external_id =
    elim (Bool-cases
      (not (group.external_id == some external_id) || not (group.name == source.name))) [
        | inl h ↦ rw h (refl, tt)
        | inr h ↦ rw h tt
      ]

replay-renaming :
    (group : OutlineGroup) (source : LdapGroup) (external_id id user : String) (was : Bool)
    → replay id user (renaming group source external_id) was ≡ was
replay-renaming group source external_id id user was =
    elim (Bool-cases
      (not (group.external_id == some external_id) || not (group.name == source.name))) [
        | inl h ↦ rw h
        | inr h ↦ rw h
      ]

-- The id of the group that is there, or of the one that is created.
abbrev pub target_id : String → Option OutlineGroup → String
target_id external_id none = external_id
target_id external_id (some group) = group.id

-- Where a round finds the group: it is one to be created, or one that is there and was not used
-- before.
pub data Location (prefix pk id : String) (used used' : List String) : Type 0 where
  new : id ≡ prefix <> pk → used' ≡ used → Location prefix pk id used used'
  found :
      starts_with id prefix ≡ false
      → contains used id ≡ false
      → used' ≡ id ∷ used
      → Location prefix pk id used used'

pub record Round (prefix : String) (desired memberships : Members) (pk id : String)
    (used : List String) (operations : List Operation) (used' : List String) : Type 0 where
  pub located : Location prefix pk id used used'
  pub only : Only id operations
  pub reached :
      (user : String)
      → replay id user operations (contains (members_of memberships id) user)
        ≡ contains (members_of desired pk) user

module _ (prefix : String) (by_name by_external : List (String × OutlineGroup))
    (desired memberships : Members) where
  plan_new-Round :
      (pk : String) (source : LdapGroup) (used : List String)
      → Gives
          (λ (operations, used').
            Round prefix desired memberships pk (prefix <> pk) used operations used')
          (plan_new prefix by_name by_external desired memberships pk source used)
  unfolding plan_new
  plan_new-Round pk source used =
      let id = prefix <> pk in
      record {
        located = new refl refl;
        only = (refl, member_changes-Only id (members_of desired pk) []);
        reached = λ user.
            ap (replay id user (member_changes id (members_of desired pk) []))
              (effect-create source.name id user (contains (members_of memberships id) user))
            ∙ replay-member_changes id user (members_of desired pk) [];
      }

  plan_target-Round :
      (pk : String) (source : LdapGroup) (group : OutlineGroup) (used : List String)
      → starts_with group.id prefix ≡ false
      → Gives
          (λ (operations, used').
            Round prefix desired memberships pk group.id used operations used')
          (plan_target prefix by_name by_external desired memberships pk source group used)
  unfolding plan_target
  plan_target-Round pk source group used real =
      Gives-if _ (not (may_adopt (prefix <> pk) group)) _ _ (λ _. tt)
        (λ adopted.
          Gives-if _ (contains used group.id) _ _ (λ _. tt)
            (λ unused.
              Gives-bind
                (λ current.
                  (user : String)
                  → contains (members_of memberships group.id) user ≡ contains current user)
                _ (members_at memberships group.id) _ (found_members (lookup group.id memberships))
                (λ current same. record {
                  located = found real unused refl;
                  only =
                      All-append _ (renaming group source (prefix <> pk)) _
                        (renaming-Only group source (prefix <> pk))
                        (member_changes-Only group.id (members_of desired pk) current);
                  reached = λ user.
                      rw
                        (
                          replay-append group.id user (renaming group source (prefix <> pk)) _ _,
                          replay-renaming group source (prefix <> pk) group.id user _,
                          same user,
                        )
                        (replay-member_changes group.id user (members_of desired pk) current);
                })))

  -- The id of the group that a group of the directory is mapped to.
  abbrev pub id_of : String → LdapGroup → String
  id_of pk source =
      target_id (prefix <> pk)
        (or_else (lookup (prefix <> pk) by_external) (lookup source.name by_name))

  -- The dicts of Outline's groups hold no id that looks like one of this tool's.
  abbrev pub RealIds : List (String × OutlineGroup) → Type 0
  RealIds index =
      (key : String) (group : OutlineGroup)
      → lookup key index ≡ some group
      → starts_with group.id prefix ≡ false

  module _ (real_names : RealIds by_name) (real_externals : RealIds by_external) where
    plan_found-Round :
        (pk : String) (source : LdapGroup) (used : List String)
        (by_id same_name : Option OutlineGroup)
        → ((group : OutlineGroup) → by_id ≡ some group → starts_with group.id prefix ≡ false)
        → ((group : OutlineGroup) → same_name ≡ some group → starts_with group.id prefix ≡ false)
        → Gives
            (λ (operations, used').
              Round prefix desired memberships pk
                (target_id (prefix <> pk) (or_else by_id same_name))
                used
                operations
                used')
            (plan_choice prefix by_name by_external desired memberships pk source used
              (or_else by_id same_name))
    unfolding plan_choice
    plan_found-Round pk source used none none real real' = plan_new-Round pk source used
    plan_found-Round pk source used none (some group) real real' =
        plan_target-Round pk source group used (real' group refl)
    plan_found-Round pk source used (some group) same_name real real' =
        plan_target-Round pk source group used (real group refl)

    pub plan_group-Round :
        (pk : String) (source : LdapGroup) (used : List String)
        → Gives
            (λ (operations, used').
              Round prefix desired memberships pk (id_of pk source) used operations used')
            (plan_group prefix by_name by_external desired memberships pk source used)
    unfolding plan_group
    plan_group-Round pk source used =
        let target = lookup (prefix <> pk) by_external in
        let same_name = lookup source.name by_name in
        Gives-if _ (collide target same_name) _ _ (λ _. tt)
          (λ _.
            plan_found-Round pk source used target same_name (real_externals (prefix <> pk))
              (real_names source.name))
