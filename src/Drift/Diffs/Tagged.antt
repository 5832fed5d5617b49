-- ===== src/Drift/Diffs/Tagged.antt =====
-- Each comparison reports drifts of its own resource.
use krg_infra.Prelude.{
  String, Option, List, [], ◌∷◌, ◌≡◌, refl, map, lookup, All, All-append, text_eq, arith,
}
use krg_infra.Effects.Fallible.{Gives, Gives-bind, Gives-after}
use krg_infra.Drift.Json.{Json, list, no_items, Members}
use krg_infra.Drift.Parsers.{Tier, Tiers, or_key_error, webapi_data, parse_enum}
use krg_infra.Drift.Rules.{norm_rules}
use krg_infra.Drift.State.{Spec, Snapshot, Drift, Export, ShareAcl, or_default}
use krg_infra.Drift.Diffs.{
  names_of, share_drifts, diff_shares, diff_smb, diff_nfs, diff_acls, value_drifts, tier_drifts,
  smb_desired, export_drifts, acl_drifts, missing_share, extra_share, missing_names,
  unmanaged_names, norm_rules, desired_tiers, no_principals, live_tiers_from, live_rules_from,
  nfs_desired, no_nfs, no_smb, all_tiers,
}

abbrev IsOf : String → Drift → Type 0
IsOf name d = d.resource ≡ name

-- Each drift is one of the resource.
abbrev pub Tagged : String → List Drift → Type 0
Tagged name ds = All (IsOf name) ds

Tagged-map :
    (name : String) (f : String → Drift) (ns : List String)
    → ((n : String) → IsOf name (f n))
    → Tagged name (map f ns)
Tagged-map name f [] h = tt
Tagged-map name f (n ∷ ns) h = (h n, Tagged-map name f ns h)

share_drifts-Tagged : (names listed : List String) → Tagged "shares" (share_drifts names listed)
unfolding share_drifts
share_drifts-Tagged names listed =
    All-append (IsOf "shares") (map missing_share (missing_names names listed))
      (map extra_share (unmanaged_names names listed))
      (Tagged-map "shares" missing_share (missing_names names listed) (λ n. refl))
      (Tagged-map "shares" extra_share (unmanaged_names names listed) (λ n. refl))

pub diff_shares-Tagged :
    (spec : Spec) (snap : Snapshot) → Gives (Tagged "shares") (diff_shares spec snap)
unfolding diff_shares
diff_shares-Tagged spec snap =
    Gives-after (Tagged "shares") (names_of spec.shares) _
      (λ names. share_drifts-Tagged names (parse_enum snap.shares_raw))

value_drifts-Tagged :
    (resource prefix : String) (live : Members) (desired : List (String × Json))
    → Tagged resource (value_drifts resource prefix live desired)
unfolding value_drifts
value_drifts-Tagged resource prefix live [] = tt
value_drifts-Tagged resource prefix live ((k, v) ∷ desired) =
    ground (arith, value_drifts-Tagged resource prefix live desired)

tier_drifts-Tagged :
    (share : String) (desired live : Tiers) (ts : List Tier)
    → Tagged "acls" (tier_drifts share desired live ts)
unfolding tier_drifts
tier_drifts-Tagged share desired live [] = tt
tier_drifts-Tagged share desired live (t ∷ ts) =
    ground (arith, tier_drifts-Tagged share desired live ts)

module _ (json_loads : String → Option Json) where
  pub diff_smb-Tagged :
      (spec : Spec) (snap : Snapshot) → Gives (Tagged "smb") (diff_smb json_loads spec snap)
  unfolding diff_smb
  diff_smb-Tagged spec snap =
      Gives-after (Tagged "smb") (smb_desired (or_default no_smb spec.smb)) _ (λ desired.
        Gives-after (Tagged "smb") (webapi_data json_loads snap.smb_raw) _
          (λ live. value_drifts-Tagged "smb" "" live desired))

  export_drifts-Tagged :
      (live_rules : List (String × Json)) (exports : List Export)
      → Gives (Tagged "nfs") (export_drifts json_loads live_rules exports)
  unfolding export_drifts
  export_drifts-Tagged live_rules [] = tt
  export_drifts-Tagged live_rules (exp ∷ exports) =
      let Q = Tagged "nfs" in
      Gives-after Q (or_key_error exp.share) _ (λ share.
        Gives-after Q (norm_rules (or_default (list no_items) exp.rules)) _ (λ wanted.
          Gives-after Q (norm_rules (or_default (list no_items) (lookup share live_rules))) _
            (λ found.
              Gives-bind Q Q (export_drifts json_loads live_rules exports) _
                (export_drifts-Tagged live_rules exports) (λ rest tagged. ground arith))))

  pub diff_nfs-Tagged :
      (spec : Spec) (snap : Snapshot) → Gives (Tagged "nfs") (diff_nfs json_loads spec snap)
  unfolding diff_nfs
  diff_nfs-Tagged spec snap =
      let Q = Tagged "nfs" in
      Gives-after Q (webapi_data json_loads snap.nfs_global_raw) _ (λ live.
        Gives-after Q (live_rules_from json_loads [] snap.nfs_rules_raw) _ (λ live_rules.
          Gives-bind Q Q (export_drifts json_loads live_rules spec.exports) _
            (export_drifts-Tagged live_rules spec.exports)
            (λ rules tagged.
              All-append (IsOf "nfs") _ rules
                (value_drifts-Tagged "nfs" "global." live
                  (nfs_desired (or_default no_nfs spec.nfs)))
                tagged)))

acl_drifts-Tagged :
    (live_by_share : List (String × Tiers)) (entries : List ShareAcl)
    → Gives (Tagged "acls") (acl_drifts live_by_share entries)
unfolding acl_drifts
acl_drifts-Tagged live_by_share [] = tt
acl_drifts-Tagged live_by_share (entry ∷ entries) =
    let Q = Tagged "acls" in
    Gives-after Q (or_key_error entry.share) _ (λ share.
      Gives-after Q (desired_tiers entry.grants) _ (λ des.
        Gives-bind Q Q (acl_drifts live_by_share entries) _
          (acl_drifts-Tagged live_by_share entries)
          (λ rest tagged.
            All-append (IsOf "acls") _ rest
              (tier_drifts-Tagged share des (or_default no_principals (lookup share live_by_share))
                all_tiers)
              tagged)))

pub diff_acls-Tagged : (spec : Spec) (snap : Snapshot) → Gives (Tagged "acls") (diff_acls spec snap)
unfolding diff_acls
diff_acls-Tagged spec snap =
    Gives-after (Tagged "acls") (live_tiers_from [] snap.share_acls) _
      (λ live_by_share. acl_drifts-Tagged live_by_share spec.acls)
