-- ===== src/OutlineSync/Plan/Operations.antt =====
-- All the planned calls together: the calls for other groups do not disturb those for one group.
use text.Mathlib.Text.{starts_with}
use krg_infra.Prelude.{
  String, Bool, false, List, [], ◌∷◌, ◌++◌, ◌≡◌, text_eq, option_eq, contains, keep, All, Among,
  Among-keep, UniqueKeys,
}
use krg_infra.Text.{text_le}
use krg_infra.Sorted.{sorted, sorted-UniqueKeys}
use krg_infra.Effects.Fallible.{Gives, Gives-bind}
use krg_infra.OutlineSync.Rows.{LdapGroup, OutlineGroup}
use krg_infra.OutlineSync.Rows.Index.{IsIndex, IsIndex-lookup}
use krg_infra.OutlineSync.Plan.{
  Operation, Members, members_of, has_external_id, external_id_of, plan_operations,
}
use krg_infra.OutlineSync.Plan.Replay.{replay, replay-append, replay-Elsewhere}
use krg_infra.OutlineSync.Plan.Rounds.{RealIds, id_of}
use krg_infra.OutlineSync.Plan.Disjoint.{keys_of, Site}
use krg_infra.OutlineSync.Plan.Convergence.{Converged, Reaches, plan_groups-Converged}
use krg_infra.OutlineSync.Plan.Removed.{IsUnused, empty_removed-Unused, unused-Elsewhere}

abbrev pub by_key : String × LdapGroup → String × LdapGroup → Bool
by_key a b = text_le a.0 b.0

module _ (prefix : String) (outline_groups : List OutlineGroup)
    (by_name by_external : List (String × OutlineGroup)) (desired memberships : Members)
    (names : IsIndex (λ (g : OutlineGroup). g.name) outline_groups by_name)
    (externals : IsIndex external_id_of (keep has_external_id outline_groups) by_external)
    (real : (group : OutlineGroup)
      → Among group outline_groups
      → starts_with group.id prefix ≡ false) where
  real_names : RealIds prefix by_name by_external desired memberships by_name
  real_names key group found =
      real group (IsIndex-lookup (λ (g : OutlineGroup). g.name) _ by_name key group names found).0

  real_externals : RealIds prefix by_name by_external desired memberships by_external
  real_externals key group found =
      let there = (IsIndex-lookup external_id_of _ by_external key group externals found).0 in
      real group (Among-keep has_external_id outline_groups group there).0

  Reaches-after :
      (keys used used' : List String) (operations removals : List Operation)
      (groups : List (String × LdapGroup))
      → All (Reaches prefix by_name by_external desired memberships operations) groups
      → All
          (λ (pk, source).
            Site prefix keys used used'
              (id_of prefix by_name by_external desired memberships pk source))
          groups
      → All (IsUnused prefix by_name by_external desired memberships used') removals
      → All (Reaches prefix by_name by_external desired memberships (operations ++ removals)) groups
  Reaches-after keys used used' operations removals [] goals sites unused = tt
  Reaches-after keys used used' operations removals ((pk, source) ∷ groups) (goal, goals)
        (site, sites) unused =
      let id = id_of prefix by_name by_external desired memberships pk source in
      (
        (λ user.
            rw
              (
                replay-append id user operations removals
                    (contains (members_of memberships id) user),
                replay-Elsewhere id user removals
                    (replay id user operations (contains (members_of memberships id) user))
                    (unused-Elsewhere prefix by_name by_external desired memberships keys used used'
                      id removals site unused),
              )
              (goal user)),
        Reaches-after keys used used' operations removals groups goals sites unused,
      )

  pub plan_operations-Reaches :
      (groups : List (String × LdapGroup))
      → UniqueKeys groups
      → Gives
          (λ operations.
            All
              (Reaches prefix by_name by_external desired memberships operations)
              (sorted by_key groups))
          (plan_operations prefix by_name by_external desired memberships groups outline_groups)
  unfolding plan_operations
  plan_operations-Reaches groups unique =
      Gives-bind
        (λ (operations, used).
          Converged prefix by_name by_external desired memberships (sorted by_key groups) []
            operations used)
        _ _ _
        (plan_groups-Converged prefix by_name by_external desired memberships real_names
          real_externals (sorted by_key groups) [] (sorted-UniqueKeys by_key groups unique))
        (λ (operations, used) converged.
          Gives-bind _ _ _ _
            (empty_removed-Unused prefix by_name by_external desired memberships outline_groups used
              real)
            (λ removals unused.
              Reaches-after (keys_of (sorted by_key groups)) [] used operations removals
                (sorted by_key groups) converged.goals converged.located unused))
