-- ===== src/OutlineSync/Plan/Scope.antt =====
-- `plan_sync` leaves the groups of other sources alone.
use text.Mathlib.Text.{starts_with}
use text.Mathlib.TextPositions.{starts_with-append}
use krg_infra.Prelude.{
  String, ◌<>◌, true, false, not, ◌&&◌, ◌||◌, Option, none, some, List, [], ◌∷◌, ◌≡◌, refl, arith,
  ◌==◌, text_eq, option_eq, contains, lookup, map, All-map, All-append, All-Among, Among,
  Among-keep, inl, inr, Bool-cases, option_beq_iff, and-eq-true,
}
use krg_infra.Text.{text_le}
use krg_infra.Sorted.{sorted}
use krg_infra.Effects.Fallible.{Gives, Gives-bind, Gives-if, Gives-any}
use krg_infra.OutlineSync.Rows.{LdapGroup, AkUser, OutlineUser, OutlineGroup}
use krg_infra.OutlineSync.Rows.Index.{IsIndex-lookup}
use krg_infra.OutlineSync.Plan.{
  Operation, create, remove_user, Members, members_of, member_changes, members_at, or_else, collide,
  may_adopt, renaming, is_managed, plan_target, plan_new, plan_choice, plan_group, plan_groups,
  empty_removed, plan_operations, has_external_id, external_id_of, desired_members, plan_sync,
}
use krg_infra.OutlineSync.Plan.Replay.{group_of}
use krg_infra.OutlineSync.Plan.Rounds.{member_changes-Only, renaming-Only}
use krg_infra.OutlineSync.Plan.Target.{prefix_of}
use krg_infra.OutlineSync.Plan.Snapshot.{plan_sync_rule}
use krg_infra.OutlineSync.Plan.Scoped.{MayChange, InScope, Scoped, Scoped-append, Only-Scoped}

managed_by :
    (prefix pk : String) (o : Option String)
    → o ≡ some (prefix <> pk)
    → (elim o [ none ↦ false | some id ↦ starts_with id prefix ]) ≡ true
managed_by prefix pk none e = cc
managed_by prefix pk (some id) e =
    let same : id ≡ prefix <> pk = cc in rw same (starts_with-append prefix pk)

adopted_scope :
    (prefix pk : String) (o : Option String)
    → (o == none || o == some "" || o == some (prefix <> pk)) ≡ true
    → (o == none || o == some "" || (elim o [ none ↦ false | some id ↦ starts_with id prefix ]))
      ≡ true
adopted_scope prefix pk o h = elim (Bool-cases (o == some (prefix <> pk))) [
  | inl own ↦
      let managed = managed_by prefix pk o ((option_beq_iff o (some (prefix <> pk))).0 own) in
      ground arith
  | inr other ↦ ground arith
]

adopted-MayChange :
    (prefix pk : String) (group : OutlineGroup)
    → may_adopt (prefix <> pk) group ≡ true
    → MayChange prefix group
adopted-MayChange prefix pk group h =
    let (inside, allowed) =
      and-eq-true (not group.external_group)
        (group.external_id == none
          || group.external_id == some ""
          || group.external_id == some (prefix <> pk))
        h in
    (ground arith, adopted_scope prefix pk group.external_id allowed)

module _ (prefix : String) (groups : List OutlineGroup)
    (by_name by_external : List (String × OutlineGroup)) (desired memberships : Members) where
  plan_new-Scoped :
      (pk : String) (source : LdapGroup) (used : List String)
      → Gives
          (λ (operations, used'). Scoped prefix groups [] operations)
          (plan_new prefix by_name by_external desired memberships pk source used)
  unfolding plan_new
  plan_new-Scoped pk source used =
      let made = create source.name (prefix <> pk) in
      let scope : (o : Operation)
          → group_of o ≡ prefix <> pk
          → InScope prefix groups (made ∷ []) o =
        λ o same. inl (pk, source.name, same, inl refl) in
      (
        scope made refl,
        Only-Scoped prefix groups (prefix <> pk) (made ∷ [])
            (member_changes (prefix <> pk) (members_of desired pk) []) scope
            (member_changes-Only (prefix <> pk) (members_of desired pk) []),
      )

  plan_target-Scoped :
      (pk : String) (source : LdapGroup) (group : OutlineGroup) (used : List String)
      → Among group groups
      → Gives
          (λ (operations, used'). Scoped prefix groups [] operations)
          (plan_target prefix by_name by_external desired memberships pk source group used)
  unfolding plan_target
  plan_target-Scoped pk source group used there =
      Gives-if _ (not (may_adopt (prefix <> pk) group)) _ _ (λ _. tt)
        (λ adopted.
          Gives-if _ (contains used group.id) _ _ (λ _. tt)
            (λ unused.
              Gives-bind (λ _. Unit {0}) _ (members_at memberships group.id) _
                (Gives-any (members_at memberships group.id))
                (λ current _.
                  let may = adopted-MayChange prefix pk group (ground arith) in
                  Only-Scoped prefix groups group.id [] _
                    (λ operation here. inr (group, there, here, may))
                    (All-append (λ operation. group_of operation ≡ group.id)
                      (renaming group source (prefix <> pk)) _
                      (renaming-Only group source (prefix <> pk))
                      (member_changes-Only group.id (members_of desired pk) current)))))

  -- The dicts of Outline's groups hold those groups.
  abbrev Holds : List (String × OutlineGroup) → Type 0
  Holds index =
      (key : String) (group : OutlineGroup) → lookup key index ≡ some group → Among group groups

  module _ (names : Holds by_name) (externals : Holds by_external) where
    plan_choice-Scoped :
        (pk : String) (source : LdapGroup) (used : List String)
        (by_id same_name : Option OutlineGroup)
        → ((group : OutlineGroup) → by_id ≡ some group → Among group groups)
        → ((group : OutlineGroup) → same_name ≡ some group → Among group groups)
        → Gives
            (λ (operations, used'). Scoped prefix groups [] operations)
            (plan_choice prefix by_name by_external desired memberships pk source used
              (or_else by_id same_name))
    unfolding plan_choice
    plan_choice-Scoped pk source used none none held held' = plan_new-Scoped pk source used
    plan_choice-Scoped pk source used none (some group) held held' =
        plan_target-Scoped pk source group used (held' group refl)
    plan_choice-Scoped pk source used (some group) same_name held held' =
        plan_target-Scoped pk source group used (held group refl)

    plan_groups-Scoped :
        (sources : List (String × LdapGroup)) (used : List String)
        → Gives
            (λ (operations, used'). Scoped prefix groups [] operations)
            (plan_groups prefix by_name by_external desired memberships sources used)
    unfolding plan_groups plan_group
    plan_groups-Scoped [] used = tt
    plan_groups-Scoped ((pk, source) ∷ sources) used =
        let target = lookup (prefix <> pk) by_external in
        let same_name = lookup source.name by_name in
        Gives-bind (λ (operations, used'). Scoped prefix groups [] operations) _ _ _
          (Gives-if _ (collide target same_name) _ _ (λ _. tt)
            (λ _.
              plan_choice-Scoped pk source used target same_name (externals (prefix <> pk))
                (names source.name)))
          (λ (first, used1) h.
            Gives-bind (λ (operations, used'). Scoped prefix groups [] operations) _ _ _
              (plan_groups-Scoped sources used1)
              (λ (operations, used') h'. Scoped-append prefix groups [] first operations h h'))

  empty_removed-Scoped :
      (rest : List OutlineGroup) (used : List String)
      → ((group : OutlineGroup) → Among group rest → Among group groups)
      → Gives
          (Scoped prefix groups [])
          (empty_removed prefix by_name by_external desired memberships rest used)
  unfolding empty_removed
  empty_removed-Scoped [] used inside = tt
  empty_removed-Scoped (group ∷ rest) used inside =
      let later = empty_removed-Scoped rest used (λ g there. inside g (inr there)) in
      Gives-if _ (is_managed prefix group && not (contains used group.id)) _ _
        (λ removed.
          Gives-if _ group.external_group _ _ (λ _. tt)
            (λ ours.
              Gives-bind (λ _. Unit {0}) _ (members_at memberships group.id) _
                (Gives-any (members_at memberships group.id))
                (λ current _. Gives-bind (Scoped prefix groups []) _ _ _ later (λ operations h.
                  let may : MayChange prefix group = (ours, ground arith) in
                  Scoped-append prefix groups []
                    (map (remove_user group.id) (sorted text_le current)) operations
                    (Only-Scoped prefix groups group.id [] _
                      (λ operation here. inr (group, inside group (inl refl), here, may))
                      (All-map (λ operation. group_of operation ≡ group.id) (remove_user group.id)
                        (sorted text_le current)
                        (All-Among (λ user. group.id ≡ group.id) (sorted text_le current)
                          (λ user h. refl))))
                    h))))
        (λ _. later)

  plan_operations-Scoped :
      (sources : List (String × LdapGroup))
      → Holds by_name
      → Holds by_external
      → Gives
          (Scoped prefix groups [])
          (plan_operations prefix by_name by_external desired memberships sources groups)
  unfolding plan_operations
  plan_operations-Scoped sources names externals =
      Gives-bind (λ (operations, used'). Scoped prefix groups [] operations) _ _ _
        (plan_groups-Scoped names externals (sorted (λ a b. text_le a.0 b.0) sources) [])
        (λ (operations, used) h.
          Gives-bind (Scoped prefix groups []) _ _ _
            (empty_removed-Scoped groups used (λ g there. there))
            (λ removals h'. Scoped-append prefix groups [] operations removals h h'))

module _ (casefold : String → String) (source_id : String) (ldap_groups : List LdapGroup)
    (ak_users : List AkUser) (outline_groups : List OutlineGroup) (outline_users : List OutlineUser)
    (memberships : Members) where
  abbrev pub AllInScope : List Operation → Type 0
  AllInScope operations = Scoped (prefix_of source_id) outline_groups [] operations

  -- If `plan_sync` accepts a snapshot, every call that it plans is about a group that this call or
  -- one planned before it creates, under an id that begins with the tool's prefix, or about a group
  -- of Outline that no external provider manages and whose external id is missing, blank, or begins
  -- with the tool's prefix: groups of other sources are not touched.
  pub plan_sync-InScope :
      Gives AllInScope
        (plan_sync casefold source_id ldap_groups ak_users outline_groups outline_users memberships)
  plan_sync-InScope =
      plan_sync_rule casefold source_id ldap_groups ak_users outline_groups outline_users
        memberships AllInScope
        (λ desired_groups by_name by_external ak_by_email ol_by_email pks names externals aks ols.
          plan_operations-Scoped (prefix_of source_id) outline_groups by_name by_external
            (desired_members desired_groups ak_by_email ol_by_email) memberships desired_groups
            (λ key group found.
              (IsIndex-lookup (λ (g : OutlineGroup). g.name) _ by_name key group names found).0)
            (λ key group found.
              (Among-keep has_external_id outline_groups group
                (IsIndex-lookup external_id_of _ by_external key group externals found).0).0))
