-- ===== src/ShareAcls/Tests.antt =====
-- Runs on a concrete system.
use krg_infra.Prelude.{true, false, none, some, [], ◌∷◌, ◌≡◌, refl, All}
use krg_infra.Sorted.{sorted, dedup}
use krg_infra.Effects.{ok, ◌>>=◌}
use krg_infra.Drift.Parsers.{parse_list_acl, rw_tier, Tier, Tiers}
use krg_infra.Drift.State.{Grant, word}
use krg_infra.Drift.Diffs.{desired_tiers, same_set}
use krg_infra.ShareAcls.{
  Command, Event, list_acl, set_tier, add_tier, Host, World, Action, setuser, admin_grants,
  comma_joined, call, main,
}
use krg_infra.ShareAcls.Complete.{command, HasSucceeded, setuser-Complete}
use krg_infra.ShareAcls.Commands.{Allowed}
use krg_infra.ShareAcls.Scope.{main-Allowed}

-- A system that always lists the same principals.
abbrev system : Host
system = record {
  State = Unit {0};
  answer = λ c s. ((0, "ACL RW List ...[@maya,bob]\nACL RO List .....[]\nACL NA List .....[]"), s);
  is_dir = λ path s. true;
}

-- A command that it has run.
abbrev answered : Command → Event
answered c = record { command = c; result = (system.answer c tt).0 }

abbrev fresh_world : World system
fresh_world = record { host = tt; trace = [] }

abbrev grant_to_maya : Grant
grant_to_maya = record { group = some "maya"; user = none; access = some (word "RW") }

abbrev maya_only : Action
maya_only = setuser "data" (grant_to_maya ∷ [])

-- "bob" is taken from the tier.
setuser_runs :
    (main system false maya_only fresh_world).1.trace
    ≡ answered (set_tier "data" rw_tier "@maya") ∷ answered (list_acl "data") ∷ []
unfolding main call sorted dedup parse_list_acl desired_tiers comma_joined ◌>>=◌
setuser_runs = refl

-- "bob" stays, and only what is missing is added.
admin_grants_run :
    (main system false
      (admin_grants ("data" ∷ []) ("@adm" ∷ "@maya" ∷ []) rw_tier)
      fresh_world).1.trace
    ≡ answered (add_tier "data" rw_tier "@adm") ∷ answered (list_acl "data") ∷ []
unfolding main call sorted dedup parse_list_acl comma_joined ◌>>=◌
admin_grants_run = refl

main-Allowed_example :
    All
      (λ (e : Event). Allowed false maya_only e.command)
      (main system false maya_only fresh_world).1.trace
main-Allowed_example = main-Allowed system false maya_only fresh_world refl

setuser_succeeds : (main system false maya_only fresh_world).0 ≡ ok 0
unfolding main call sorted dedup parse_list_acl desired_tiers comma_joined ◌>>=◌
setuser_succeeds = refl

setuser-Complete_example :
    (desired : Tiers) × (desired_tiers (grant_to_maya ∷ []) ≡ ok desired)
    × ((t : Tier)
        → same_set
            (parse_list_acl "ACL RW List ...[@maya,bob]\nACL RO List .....[]\nACL NA List .....[]"
              t)
            (desired t)
          ≡ false
        → HasSucceeded
            (command system "data" desired t)
            (main system false maya_only fresh_world).1.trace)
setuser-Complete_example =
    setuser-Complete system "data" (grant_to_maya ∷ []) fresh_world setuser_succeeds
