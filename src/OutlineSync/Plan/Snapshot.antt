-- ===== src/OutlineSync/Plan/Snapshot.antt =====
-- A rule for `plan_sync`: what holds of the planned calls for all indexes of the snapshot's rows
-- holds of its result.
use krg_infra.Prelude.{String, not, List, ◌==◌, text_eq, keep}
use krg_infra.Effects.Fallible.{Gives, Gives-bind, Gives-then}
use krg_infra.OutlineSync.Rows.{LdapGroup, AkUser, OutlineUser, OutlineGroup, address, index_unique}
use krg_infra.OutlineSync.Rows.Index.{IsIndex, index_unique-IsIndex}
use krg_infra.OutlineSync.Plan.{
  Operation, Members, has_external_id, external_id_of, desired_members, plan_operations, plan_sync,
}
use krg_infra.OutlineSync.Plan.Target.{prefix_of}

module _ (casefold : String → String) (source_id : String) (ldap_groups : List LdapGroup)
    (ak_users : List AkUser) (outline_groups : List OutlineGroup) (outline_users : List OutlineUser)
    (memberships : Members) where
  pub plan_sync_rule :
      (Q : List Operation → Type 0)
      → ((desired_groups : List (String × LdapGroup))
            (by_name by_external : List (String × OutlineGroup))
            (ak_by_email : List (String × AkUser)) (ol_by_email : List (String × OutlineUser))
          → IsIndex (λ (g : LdapGroup). g.pk) ldap_groups desired_groups
          → IsIndex (λ (g : OutlineGroup). g.name) outline_groups by_name
          → IsIndex external_id_of (keep has_external_id outline_groups) by_external
          → IsIndex
              (λ (u : AkUser). address casefold u.email)
              (keep (λ u. not (address casefold u.email == "")) ak_users)
              ak_by_email
          → IsIndex (λ (u : OutlineUser). address casefold u.email) outline_users ol_by_email
          → Gives Q (
              plan_operations
                (prefix_of source_id)
                by_name
                by_external
                (desired_members desired_groups ak_by_email ol_by_email)
                memberships
                desired_groups
                outline_groups))
      → Gives Q (
          plan_sync casefold source_id ldap_groups ak_users outline_groups outline_users
            memberships)
  unfolding plan_sync
  plan_sync_rule Q plans =
      Gives-bind _ _ _ _ (index_unique-IsIndex (λ (g : LdapGroup). g.pk) ldap_groups)
        (λ desired_groups pks.
          Gives-then Q (index_unique (λ (g : LdapGroup). g.name) ldap_groups) _ (
            Gives-bind _ _ _ _ (index_unique-IsIndex (λ (g : OutlineGroup). g.name) outline_groups)
              (λ by_name names.
                Gives-bind _ _ _ _
                  (index_unique-IsIndex external_id_of (keep has_external_id outline_groups))
                  (λ by_external externals.
                    Gives-bind _ _ _ _
                      (index_unique-IsIndex (λ (u : AkUser). address casefold u.email)
                        (keep (λ u. not (address casefold u.email == "")) ak_users))
                      (λ ak_by_email aks.
                        Gives-bind _ _ _ _
                          (index_unique-IsIndex (λ (u : OutlineUser). address casefold u.email)
                            outline_users)
                          (λ ol_by_email ols.
                            plans desired_groups by_name by_external ak_by_email ol_by_email pks
                              names externals aks ols))))))
