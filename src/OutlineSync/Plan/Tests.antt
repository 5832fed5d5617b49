-- ===== src/OutlineSync/Plan/Tests.antt =====
-- `plan_sync` for a directory with two groups, one of which Outline does not have.
use text.Mathlib.Text.{starts_with}
use krg_infra.Prelude.{
  String, true, false, none, some, List, [], ◌∷◌, ◌≡◌, refl, inl, Among, Among-All, text_eq,
}
use krg_infra.Sorted.{sorted}
use krg_infra.Text.{strip}
use krg_infra.Effects.{ok}
use krg_infra.OutlineSync.Rows.{LdapGroup, AkUser, OutlineUser, OutlineGroup, index_unique}
use krg_infra.OutlineSync.Plan.{
  Operation, create, update, add_user, remove_user, Members, desired_members, member_changes,
  plan_operations, plan_sync,
}
use krg_infra.OutlineSync.Plan.Target.{prefix_of}
use krg_infra.Effects.Fallible.{Gives}
use krg_infra.OutlineSync.Plan.Scope.{AllInScope, plan_sync-InScope}
use krg_infra.OutlineSync.Plan.Correct.{Settled, plan_sync-Settled}

abbrev lab : LdapGroup
lab = record { pk = "1"; name = "lab" }

abbrev staff : LdapGroup
staff = record { pk = "2"; name = "staff" }

abbrev ak_ada : AkUser
ak_ada = record {
  pk = "7";
  email = some " ada@x.org";
  is_active = true;
  type = "internal";
  groups = "1" ∷ "2" ∷ [];
}

abbrev ak_bob : AkUser
ak_bob = record {
  pk = "8";
  email = some "bob@x.org";
  is_active = false;
  type = "internal";
  groups = "1" ∷ [];
}

abbrev ada : OutlineUser
ada = record { id = "u1"; email = some "ada@x.org"; is_suspended = false; role = "member" }

abbrev bob : OutlineUser
bob = record { id = "u2"; email = some "bob@x.org"; is_suspended = false; role = "member" }

abbrev lab_group : OutlineGroup
lab_group = record { id = "g1"; name = "lab"; external_id = none; external_group = false }

abbrev gone_group : OutlineGroup
gone_group = record {
  id = "g2";
  name = "old";
  external_id = some "krg-ldap:s:9";
  external_group = false;
}

abbrev before : Members
before = ("g1", "u2" ∷ []) ∷ ("g2", "u1" ∷ []) ∷ []

abbrev fold : String → String
fold s = s

abbrev planned_calls : List Operation
planned_calls =
    update "g1" "lab" "krg-ldap:s:1"
    ∷ add_user "g1" "u1"
    ∷ remove_user "g1" "u2"
    ∷ create "staff" "krg-ldap:s:2"
    ∷ add_user "krg-ldap:s:2" "u1"
    ∷ remove_user "g2" "u1"
    ∷ []

plan_two :
    plan_sync fold "s"
      (staff ∷ lab ∷ [])
      (ak_ada ∷ ak_bob ∷ [])
      (lab_group ∷ gone_group ∷ [])
      (ada ∷ bob ∷ [])
      before
    ≡ ok planned_calls
unfolding plan_sync desired_members index_unique sorted strip plan_operations member_changes
plan_two = refl

real_ids :
    (group : OutlineGroup)
    → Among group (lab_group ∷ gone_group ∷ [])
    → starts_with group.id (prefix_of "s") ≡ false
real_ids group there =
    Among-All (λ (g : OutlineGroup). starts_with g.id (prefix_of "s") ≡ false)
      (lab_group ∷ gone_group ∷ []) group (refl, (refl, tt)) there

plan_sync-Settled_example :
    Settled fold "s"
      (ak_ada ∷ ak_bob ∷ [])
      (lab_group ∷ gone_group ∷ [])
      (ada ∷ bob ∷ [])
      before
      planned_calls
      staff
plan_sync-Settled_example =
    plan_sync-Settled fold "s" (staff ∷ lab ∷ []) (ak_ada ∷ ak_bob ∷ [])
      (lab_group ∷ gone_group ∷ []) (ada ∷ bob ∷ []) before real_ids planned_calls plan_two staff
      (inl refl)

plan_sync-InScope_example :
    Gives
      (AllInScope fold "s"
        (staff ∷ lab ∷ [])
        (ak_ada ∷ ak_bob ∷ [])
        (lab_group ∷ gone_group ∷ [])
        (ada ∷ bob ∷ [])
        before)
      (plan_sync fold "s"
        (staff ∷ lab ∷ [])
        (ak_ada ∷ ak_bob ∷ [])
        (lab_group ∷ gone_group ∷ [])
        (ada ∷ bob ∷ [])
        before)
plan_sync-InScope_example =
    plan_sync-InScope fold "s" (staff ∷ lab ∷ []) (ak_ada ∷ ak_bob ∷ [])
      (lab_group ∷ gone_group ∷ []) (ada ∷ bob ∷ []) before
