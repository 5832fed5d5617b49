-- ===== src/Drift/Report.antt =====
-- `run`, `render_prometheus` and `main` of drift_detector.py.
pub mod Tagged
pub mod Meaning
pub mod Exit
use Prim.Native.Char.{code}
use krg_infra.Prelude.{
  ℕ, String, ◌<>◌, Bool, true, false, not, ◌||◌, Option, none, some, List, [], ◌∷◌, ◌++◌, ◌==◌,
  nat_eq, text_eq, if◌then◌else◌, keep, all, length,
}
use krg_infra.Text.{decimal}
use krg_infra.Effects.{Result, ok, raised}
use krg_infra.Effects.Fallible.{◌>>=◌}
use krg_infra.Scratch.Paths.{join}
use krg_infra.Drift.Json.{Json}
use krg_infra.Drift.Parsers.{Failure, caught, uncaught}
use krg_infra.Drift.State.{Spec, Snapshot, Drift}
use krg_infra.Drift.Diffs.{diff_shares, diff_smb, diff_nfs, diff_acls}

-- What lies outside the tool: `yaml.safe_load` of a file, `json.loads`, whether a path exists, whether
-- it can be opened for writing, and the time in seconds.
pub record Files : Type 0 where
  pub spec_at : String → Result Failure Spec
  pub snapshot_at : String → Result Failure Snapshot
  pub json_loads : String → Option Json
  pub exists : String → Bool
  pub writable : String → Bool
  pub now : ℕ

-- The entries of RESOURCES.
pub data Resource : Type 0 where
  shares smb nfs acls : Resource

abbrev pub resources : List Resource
resources = shares ∷ smb ∷ nfs ∷ acls ∷ []

abbrev pub resource_name : Resource → String
resource_name shares = "shares"
resource_name smb = "smb"
resource_name nfs = "nfs"
resource_name acls = "acls"

abbrev pub spec_file : Resource → String
spec_file shares = "shares.yml"
spec_file smb = "smb-globals.yml"
spec_file nfs = "nfs-exports.yml"
spec_file acls = "acls.yml"

abbrev is_given {ℓ} : {A : Type ℓ} → Option A → Bool
is_given none = false
is_given (some a) = true

abbrev is_filled {ℓ} : {A : Type ℓ} → List A → Bool
is_filled [] = false
is_filled (x ∷ xs) = true

-- Whether there is something to check.
abbrev pub has_work : Resource → Spec → Bool
has_work shares sp = is_filled sp.shares
has_work smb sp = is_given sp.smb
has_work nfs sp = is_given sp.nfs || is_filled sp.exports
has_work acls sp = is_filled sp.acls

-- What `run` says of a resource: "ok", "drift", "no-snapshot" or "error: ...".
pub data Status : Type 0 where
  in_sync drifted no_snapshot failed : Status

abbrev pub Results : Type 0
Results = List (Resource × Status)

-- The result of a resource and its drifts, for an attempt in which `run` catches exceptions.
abbrev pub or_failed :
    {A : Type 0}
    → Result Failure A
    → (A → Result Failure (Status × List Drift))
    → Result Failure (Status × List Drift)
or_failed (ok a) f = f a
or_failed (raised caught) f = ok (failed, [])
or_failed (raised uncaught) f = raised uncaught

abbrev pub status_of : List Drift → Status
status_of [] = in_sync
status_of (d ∷ ds) = drifted

module _ (F : Files) where
  abbrev pub diff : Resource → Spec → Snapshot → Result Failure (List Drift)
  diff shares = diff_shares
  diff smb = diff_smb F.json_loads
  diff nfs = diff_nfs F.json_loads
  diff acls = diff_acls

  module _ (spec_dir snapshot_dir host : String) where
    abbrev pub spec_path : Resource → String
    spec_path r = join spec_dir (spec_file r)

    abbrev pub snapshot_path : Resource → String
    snapshot_path r = join snapshot_dir (host <> "-" <> resource_name r <> ".yml")

    -- The body of the loop over the resources.
    unfoldable pub check_one : Resource → Result Failure (Status × List Drift)
    check_one r = or_failed (F.spec_at (spec_path r)) (λ spec.
        if not (has_work r spec)
        then ok (in_sync, [])
        else if not (F.exists (snapshot_path r))
        then ok (no_snapshot, [])
        else or_failed (F.snapshot_at (snapshot_path r) >>= diff r spec)
            (λ found. ok (status_of found, found)))

    check_all : List Resource → Result Failure (Results × List Drift)
    unfolding check_one
    check_all [] = ok ([], [])
    check_all (r ∷ rs) = do
      (status, found) ← check_one r
      (results, drifts) ← check_all rs
      ok ((r, status) ∷ results, found ++ drifts)

    unfoldable pub run : Result Failure (Results × List Drift)
    unfolding check_all
    run = check_all resources

-- `s.replace("\\", "\\\\").replace('"', '\\"')`
escape : String → String
escape String.[] = ""
escape (String.◌∷◌ c s) =
    let rest = escape s in
    if code c == 92 || code c == 34 then "\\" <> String.◌∷◌ c rest else String.◌∷◌ c rest

-- How many drifts a resource has.
abbrev pub count : String → List Drift → ℕ
count name drifts = length (keep (λ d. d.resource == name) drifts)

abbrev pub is_unknown : Status → Bool
is_unknown no_snapshot = true
is_unknown failed = true
is_unknown _ = false

-- Whether each resource could be checked.
abbrev pub all_checked : Results → Bool
all_checked results = all (λ (r : Resource × Status). not (is_unknown r.1)) results

-- The value of a resource's gauge: 1 if it has drifts.
abbrev pub gauge : String → List Drift → ℕ
gauge name drifts = if count name drifts == 0 then 0 else 1

abbrev joined : List String → String
joined [] = ""
joined (l ∷ ls) = l <> "\n" <> joined ls

abbrev resource_lines : String → List Drift → List Resource → List String
resource_lines host drifts [] = []
resource_lines host drifts (r ∷ rs) =
    let name = resource_name r in
    let rest = resource_lines host drifts rs in
    ("krg_synology_drift{host=\""
      <> host
      <> "\",resource=\""
      <> name
      <> "\"} "
      <> decimal (gauge name drifts))
    ∷ ("krg_synology_drift_items{host=\""
        <> host
        <> "\",resource=\""
        <> name
        <> "\"} "
        <> decimal (count name drifts))
    ∷ rest

unfoldable pub render_prometheus : (now : ℕ) → (host : String) → Results → List Drift → String
unfolding escape decimal
render_prometheus now host results drifts =
    let ok_value = if all_checked results then "1" else "0" in
    joined (
      "# HELP krg_synology_drift Live DSM state diverges from spec (1=drift)."
        ∷ "# TYPE krg_synology_drift gauge"
        ∷ resource_lines (escape host) drifts resources
      ++ "# HELP krg_synology_drift_check_success Detector ran with all snapshots present+parsed."
        ∷ "# TYPE krg_synology_drift_check_success gauge"
        ∷ ("krg_synology_drift_check_success{host=\"" <> escape host <> "\"} " <> ok_value)
        ∷ "# HELP krg_synology_drift_check_timestamp_seconds Unix time of this check."
        ∷ "# TYPE krg_synology_drift_check_timestamp_seconds gauge"
        ∷ ("krg_synology_drift_check_timestamp_seconds{host=\""
            <> escape host
            <> "\"} "
            <> decimal now)
        ∷ [])

pub record Args : Type 0 where
  pub spec_dir : String
  pub snapshot_dir : String
  pub host : String
  pub metrics_file : Option String

-- What a run leaves: the file of metrics, if one was asked for, and the exit code.
pub record Outcome : Type 0 where
  pub metrics : Option (String × String)
  pub exit : ℕ

abbrev pub exit_of : Results → List Drift → ℕ
exit_of results drifts = if not (all_checked results) then 2 else if is_filled drifts then 1 else 0

module _ (F : Files) where
  write_metrics : Option String → String → Result Failure (Option (String × String))
  write_metrics none content = ok none
  write_metrics (some path) content =
      if F.writable path then ok (some (path, content)) else raised uncaught

  unfoldable pub main : Args → Result Failure Outcome
  unfolding run write_metrics render_prometheus
  main args = do
    (results, drifts) ← run F args.spec_dir args.snapshot_dir args.host
    metrics ← write_metrics args.metrics_file (render_prometheus F.now args.host results drifts)
    ok (record { metrics = metrics; exit = exit_of results drifts })
