-- ===== src/OutlineSync/Plan/Correct.antt =====
-- `plan_sync` plans what brings Outline's groups in line with the directory.
use text.Mathlib.Text.{starts_with}
use krg_infra.Prelude.{
  String, true, false, not, List, ◌≡◌, ◌↔◌, sym, ◌∙◌, ◌==◌, text_eq, option_eq, contains, keep, All,
  Among, Among-All, subst, keys-Among,
}
use krg_infra.Sorted.{sorted, Among-sorted}
use krg_infra.Effects.{ok}
use krg_infra.Effects.Fallible.{Gives, Gives-weaken}
use krg_infra.OutlineSync.Rows.{LdapGroup, AkUser, OutlineUser, OutlineGroup, address}
use krg_infra.OutlineSync.Rows.Index.{IsIndex, IsIndex-found}
use krg_infra.OutlineSync.Plan.{
  Operation, Members, members_of, has_external_id, external_id_of, desired_members, plan_sync,
}
use krg_infra.OutlineSync.Plan.Replay.{replay}
use krg_infra.OutlineSync.Plan.Rounds.{id_of}
use krg_infra.OutlineSync.Plan.Convergence.{Reaches}
use krg_infra.OutlineSync.Plan.Desired.{desired_members_lem}
use krg_infra.OutlineSync.Plan.Target.{prefix_of, IsTarget, id_of-IsTarget}
use krg_infra.OutlineSync.Plan.Entitlement.{Entitled, granted-Entitled, Entitled-granted}
use krg_infra.OutlineSync.Plan.Snapshot.{plan_sync_rule}
use krg_infra.OutlineSync.Plan.Operations.{by_key, plan_operations-Reaches}

-- What a plan makes of one group of the directory: a user is a member of its group of Outline,
-- after the planned calls, just if the user belongs into it.
abbrev pub Settled :
    (casefold : String → String) (source_id : String) (ak_users : List AkUser)
    (outline_groups : List OutlineGroup) (outline_users : List OutlineUser) (memberships : Members)
    (operations : List Operation) (source : LdapGroup)
    → Type 0
Settled casefold source_id ak_users outline_groups outline_users memberships operations source =
    (id : String) × IsTarget (prefix_of source_id) outline_groups source id
    × ((uid : String)
        → (replay id uid operations (contains (members_of memberships id) uid) ≡ true)
          ↔ Entitled casefold ak_users outline_users source.pk uid)

module _ (casefold : String → String) (source_id : String) (ldap_groups : List LdapGroup)
    (ak_users : List AkUser) (outline_groups : List OutlineGroup) (outline_users : List OutlineUser)
    (memberships : Members) where
  -- What holds of the operations where the real ids do not begin with the prefix.
  abbrev AllSettled : List Operation → Type 0
  AllSettled operations =
      (source : LdapGroup)
      → Among source ldap_groups
      → Settled casefold source_id ak_users outline_groups outline_users memberships operations
          source

  module _
      (real : (group : OutlineGroup)
        → Among group outline_groups
        → starts_with group.id (prefix_of source_id) ≡ false) where
    settle :
        (desired_groups : List (String × LdapGroup))
        (by_name by_external : List (String × OutlineGroup)) (ak_by_email : List (String × AkUser))
        (ol_by_email : List (String × OutlineUser))
        → IsIndex (λ (g : LdapGroup). g.pk) ldap_groups desired_groups
        → IsIndex (λ (g : OutlineGroup). g.name) outline_groups by_name
        → IsIndex external_id_of (keep has_external_id outline_groups) by_external
        → IsIndex
            (λ (u : AkUser). address casefold u.email)
            (keep (λ u. not (address casefold u.email == "")) ak_users)
            ak_by_email
        → IsIndex (λ (u : OutlineUser). address casefold u.email) outline_users ol_by_email
        → (operations : List Operation)
        → All
            (Reaches
              (prefix_of source_id)
              by_name
              by_external
              (desired_members desired_groups ak_by_email ol_by_email)
              memberships
              operations)
            (sorted by_key desired_groups)
        → AllSettled operations
    settle desired_groups by_name by_external ak_by_email ol_by_email pks names externals aks ols
          operations reaches source there =
        let desired = desired_members desired_groups ak_by_email ol_by_email in
        let (_, among) =
          IsIndex-found (λ (g : LdapGroup). g.pk) ldap_groups desired_groups source pks there in
        let goal =
          Among-All _ (sorted by_key desired_groups) (source.pk, source) reaches
            (Among-sorted by_key desired_groups (source.pk, source) among) in
        let present = keys-Among source.pk source desired_groups among in
        (
          id_of (prefix_of source_id) by_name by_external desired memberships source.pk source,
          id_of-IsTarget (prefix_of source_id) outline_groups by_name by_external desired
              memberships names externals source,
          λ uid.
              let named =
                desired_members_lem source.pk uid desired_groups ak_by_email ol_by_email present in
              (
                (λ h.
                    granted-Entitled casefold ak_users outline_users ak_by_email ol_by_email aks ols
                      source.pk uid (sym named ∙ sym (goal uid) ∙ h)),
                (λ h.
                    goal uid
                    ∙ named
                    ∙ Entitled-granted casefold ak_users outline_users ak_by_email ol_by_email aks
                        ols source.pk uid h),
              ),
        )

    plan_sync-AllSettled :
        Gives AllSettled (
          plan_sync casefold source_id ldap_groups ak_users outline_groups outline_users
            memberships)
    plan_sync-AllSettled =
        plan_sync_rule casefold source_id ldap_groups ak_users outline_groups outline_users
          memberships AllSettled
          (λ desired_groups by_name by_external ak_by_email ol_by_email pks names externals aks ols.
            let desired = desired_members desired_groups ak_by_email ol_by_email in
            Gives-weaken _ _ _
              (settle desired_groups by_name by_external ak_by_email ol_by_email pks names externals
                aks ols)
              (plan_operations-Reaches (prefix_of source_id) outline_groups by_name by_external
                desired memberships names externals real desired_groups pks.unique))

  -- If `plan_sync` accepts a snapshot, then the calls that it plans settle every group of the
  -- directory: there is a group of Outline for it (the one with its external id, one of its name,
  -- or, if there is none of its name, one that is created), and after the calls a user is a member
  -- of that group exactly if the user is entitled to it. It is assumed that no id of a group of
  -- Outline begins with the prefix of the external ids that the tool gives.
  pub plan_sync-Settled :
      ((group : OutlineGroup)
        → Among group outline_groups
        → starts_with group.id (prefix_of source_id) ≡ false)
      → (operations : List Operation)
      → plan_sync casefold source_id ldap_groups ak_users outline_groups outline_users memberships
        ≡ ok operations
      → (source : LdapGroup) → Among source ldap_groups
      → Settled casefold source_id ak_users outline_groups outline_users memberships operations
          source
  plan_sync-Settled real operations planned source there =
      subst (Gives AllSettled) planned (plan_sync-AllSettled real) source there
