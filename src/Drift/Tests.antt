-- ===== src/Drift/Tests.antt =====
-- Runs of drift_detector.py on concrete files.
use krg_infra.Prelude.{
  String, true, none, some, List, [], ◌∷◌, ◌==◌, ◌≡◌, refl, ◌↔◌, ◌⊎◌, All, Among, text_eq,
}
use krg_infra.Sorted.{sorted, dedup}
use krg_infra.Effects.{ok}
use krg_infra.Scratch.Paths.{join}
use krg_infra.Drift.Json.{texts}
use krg_infra.Drift.Parsers.{parse_enum, parse_list_acl, rw_tier}
use krg_infra.Drift.State.{Spec, Snapshot, Drift, Grant, word}
use krg_infra.Drift.Diffs.{diff_shares, diff_acls, missing_share, extra_share}
use krg_infra.Drift.Diffs.Shares.{IsMissing, IsUnmanaged, diff_shares-Exact}
use krg_infra.Drift.Diffs.Acls.{Matches, diff_acls-Exact}
use krg_infra.Drift.Parsers.Listing.{parse_enum-listing}
use krg_infra.Drift.Report.{
  Files, Args, Outcome, Resource, Status, main, run, shares, smb, nfs, acls, resources,
  resource_name, drifted, in_sync, no_snapshot, gauge,
}
use krg_infra.Drift.Report.Exit.{AllClean, SomeDrift, SomeUnknown, main-Exit}
use krg_infra.Drift.Report.Tagged.{run-Agrees}

abbrev acl_lines : List String
acl_lines =
    "\t ACL RW List .....[@maya,bob]" ∷ "\t ACL RO List .....[]" ∷ "\t ACL NA List .....[]" ∷ []

abbrev maya_grant : Grant
maya_grant = record { group = some "maya"; user = none; access = some (word "rw") }

-- Two shares are declared, and the grants of one of them.
abbrev declared : Spec
declared = record {
  shares = some "maya" ∷ some "admin" ∷ [];
  smb = none;
  nfs = none;
  exports = [];
  acls = record { share = some "maya"; grants = maya_grant ∷ [] } ∷ [];
}

abbrev live : Snapshot
live = record {
  shares_raw = "Share Enum Arguments: ALL" ∷ "3 Listed:" ∷ "maya" ∷ "homes" ∷ "rogue" ∷ [];
  smb_raw = [];
  nfs_global_raw = [];
  nfs_rules_raw = [];
  share_acls = (some "maya", some acl_lines) ∷ [];
}

abbrev share_drifts_found : List Drift
share_drifts_found = missing_share "admin" ∷ extra_share "rogue" ∷ []

shares_differ : diff_shares declared live ≡ ok share_drifts_found
unfolding diff_shares sorted dedup
shares_differ = refl

diff_shares-Exact_example : Among (extra_share "rogue") share_drifts_found ↔ (
    IsMissing declared.shares (parse_enum live.shares_raw) (extra_share "rogue")
    ⊎ IsUnmanaged declared.shares (parse_enum live.shares_raw) (extra_share "rogue"))
diff_shares-Exact_example =
    diff_shares-Exact declared live share_drifts_found shares_differ (extra_share "rogue")

tiers_read : parse_list_acl "\t ACL RW List .....[@maya,bob]" rw_tier ≡ "@maya" ∷ "bob" ∷ []
unfolding parse_list_acl
tiers_read = refl

parse_enum-listing_example :
    parse_enum ("ALL" ∷ "2 Listed:" ∷ "maya" ∷ "bom_aws" ∷ []) ≡ "maya" ∷ "bom_aws" ∷ []
unfolding parse_enum
parse_enum-listing_example =
    parse_enum-listing ("ALL" ∷ []) "2 Listed:" ("maya" ∷ "bom_aws" ∷ []) (refl, tt) refl
      ((refl, refl), ((refl, refl), tt))

-- One snapshot serves for all resources, and there is none for the ACLs.
abbrev files : Files
files = record {
  spec_at = λ path. ok declared;
  snapshot_at = λ path. ok live;
  json_loads = λ text. none;
  exists = λ path. path == "/var/nas-shares.yml";
  writable = λ path. true;
  now = 0;
}

abbrev args : Args
args = record { spec_dir = "spec"; snapshot_dir = "/var"; host = "nas"; metrics_file = none }

ran :
    run files "spec" "/var" "nas"
    ≡ ok (
      (shares, drifted) ∷ (smb, in_sync) ∷ (nfs, in_sync) ∷ (acls, no_snapshot) ∷ [],
      share_drifts_found,
    )
unfolding run join diff_shares sorted dedup
ran = refl

run-Agrees_example :
    (shares ∷ smb ∷ nfs ∷ acls ∷ [] ≡ resources)
    × All
        (λ (p : Resource × Status).
          (p.1 ≡ drifted) ↔ (gauge (resource_name p.0) share_drifts_found ≡ 1))
        ((shares, drifted) ∷ (smb, in_sync) ∷ (nfs, in_sync) ∷ (acls, no_snapshot) ∷ [])
run-Agrees_example =
    run-Agrees files "spec" "/var" "nas"
      ((shares, drifted) ∷ (smb, in_sync) ∷ (nfs, in_sync) ∷ (acls, no_snapshot) ∷ [])
      share_drifts_found ran

abbrev outcome : Outcome
outcome = record { metrics = none; exit = 2 }

main_ran : main files args ≡ ok outcome
unfolding main run join diff_shares sorted dedup
main_ran = refl

main-Exit_example :
    ((outcome.exit ≡ 0) ↔ AllClean files "spec" "/var" "nas")
    × ((outcome.exit ≡ 1) ↔ SomeDrift files "spec" "/var" "nas")
    × ((outcome.exit ≡ 2) ↔ SomeUnknown files "spec" "/var" "nas")
main-Exit_example = main-Exit files args outcome main_ran

abbrev acl_drifts_found : List Drift
acl_drifts_found =
    record {
      resource = "acls";
      key = "maya.RW";
      desired = texts ("@maya" ∷ []);
      live = texts ("@maya" ∷ "bob" ∷ []);
    }
    ∷ []

acls_differ : diff_acls declared live ≡ ok acl_drifts_found
unfolding diff_acls sorted dedup parse_list_acl
acls_differ = refl

diff_acls-Exact_example : (acl_drifts_found ≡ []) ↔ All (Matches live.share_acls) declared.acls
diff_acls-Exact_example = diff_acls-Exact declared live acl_drifts_found acls_differ
