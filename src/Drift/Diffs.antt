-- ===== src/Drift/Diffs.antt =====
-- The comparisons of drift_detector.py, one for each resource.
pub mod Shares
pub mod Granted
pub mod LastRow
pub mod Acls
pub mod Tagged
use Prim.Native.Char.{code}
use krg_infra.Prelude.{
  ℕ, ◌+◌, String, ◌<>◌, Bool, true, false, not, ◌&&◌, Option, none, some, List, [], ◌∷◌, ◌++◌, ◌==◌,
  nat_eq, text_eq, list_eq, leb, if◌then◌else◌, keep, map, contains, all, lookup,
}
use krg_infra.Text.{text_le}
use krg_infra.Sorted.{sorted, dedup}
use krg_infra.Effects.{Result, ok, raised}
use krg_infra.Effects.Fallible.{◌>>=◌}
use krg_infra.Drift.Json.{
  Json, boolean, number, string, list, object, Jsons, no_items, item, Members, no_members, find,
  get, canonical_members, same_members, same_value, texts,
}
use krg_infra.Drift.State.{
  Smb, Nfs, Export, Access, word, flag, Grant, ShareAcl, Spec, Snapshot, Drift, or_default,
}
use krg_infra.Drift.Rules.{norm_rules, same_rules}
use krg_infra.Drift.Parsers.{
  Failure, caught, uncaught, or_key_error, webapi_data, join_lines, parse_enum, Tier, rw_tier,
  ro_tier, na_tier, tier_name, Tiers, parse_list_acl,
}

abbrev pub auto_shares : List String
auto_shares =
    "homes" ∷ "home" ∷ "NetBackup" ∷ "photo" ∷ "web" ∷ "surveillance" ∷ "ActiveBackupforBusiness"
    ∷ []

-- Each name, or the KeyError of a share without one.
names_of : List (Option String) → Result Failure (List String)
names_of [] = ok []
names_of (row ∷ rows) = do name ← or_key_error row; names ← names_of rows; ok (name ∷ names)

abbrev pub missing_share : String → Drift
missing_share n = record {
  resource = "shares";
  key = n;
  desired = string "present";
  live = string "absent";
}

abbrev pub extra_share : String → Drift
extra_share n = record {
  resource = "shares";
  key = n;
  desired = string "absent (unmanaged)";
  live = string "present";
}

-- `sorted(desired - live)`
abbrev pub missing_names : (names listed : List String) → List String
missing_names names listed = sorted text_le (keep (λ n. not (contains listed n)) (dedup names))

-- `sorted(live - desired - AUTO_SHARES)`
abbrev pub unmanaged_names : (names listed : List String) → List String
unmanaged_names names listed =
    sorted text_le
      (keep (λ n. not (contains names n) && not (contains auto_shares n)) (dedup listed))

unfoldable pub share_drifts : (names listed : List String) → List Drift
share_drifts names listed =
    map missing_share (missing_names names listed) ++ map extra_share (unmanaged_names names listed)

unfoldable pub diff_shares : Spec → Snapshot → Result Failure (List Drift)
unfolding names_of share_drifts parse_enum
diff_shares spec snap = do
  names ← names_of spec.shares
  ok (share_drifts names (parse_enum snap.shares_raw))

-- `PROTO[...]`
protocol : String → Result Failure ℕ
protocol p =
    if p == "SMB1"
    then ok 1
    else if p == "SMB2"
    then ok 2
    else if p == "SMB3"
    then ok 3
    else raised caught

unfoldable pub smb_desired : Smb → Result Failure (List (String × Json))
unfolding protocol
smb_desired s = do
  min ← protocol (or_default "SMB2" s.min_protocol)
  max ← protocol (or_default "SMB3" s.max_protocol)
  ok (
      ("enable_samba", boolean (or_default true s.enable))
      ∷ ("smb_min_protocol", number min)
      ∷ ("smb_max_protocol", number max)
      ∷ ("enable_server_signing", number (if or_default true s.server_signing then 1 else 0))
      ∷ ("enable_ntlmv1_auth", boolean (or_default false s.ntlmv1_auth))
      ∷ [])

-- `[D(resource, prefix + k, v, live.get(k)) for k, v in desired.items() if live.get(k) != v]`
unfoldable pub value_drifts :
    (resource prefix : String) → Members → List (String × Json) → List Drift
unfolding same_value find
value_drifts resource prefix live [] = []
value_drifts resource prefix live ((k, v) ∷ desired) =
    let rest = value_drifts resource prefix live desired in
    if same_value v (get k live)
    then rest
    else record { resource = resource; key = prefix <> k; desired = v; live = get k live } ∷ rest

abbrev pub no_smb : Smb
no_smb = record {
  enable = none;
  min_protocol = none;
  max_protocol = none;
  server_signing = none;
  ntlmv1_auth = none;
}

abbrev pub no_nfs : Nfs
no_nfs = record { enable = none; nfsv4 = none; v4_domain = none }

abbrev pub nfs_desired : Nfs → List (String × Json)
nfs_desired n =
    ("enable_nfs", boolean (or_default true n.enable))
    ∷ ("enable_nfs_v4", boolean (or_default true n.nfsv4))
    ∷ ("nfs_v4_domain", string (or_default "" n.v4_domain))
    ∷ []

module _ (json_loads : String → Option Json) where
  unfoldable pub diff_smb : Spec → Snapshot → Result Failure (List Drift)
  unfolding smb_desired webapi_data value_drifts
  diff_smb spec snap = do
    desired ← smb_desired (or_default no_smb spec.smb)
    live ← webapi_data json_loads snap.smb_raw
    ok (value_drifts "smb" "" live desired)

  -- The rules of each share, the last that a share has first.
  live_rules_from :
      List (String × Json)
      → List (Option String × Option (List String))
      → Result Failure (List (String × Json))
  unfolding webapi_data find
  live_rules_from known [] = ok known
  live_rules_from known ((name, load) ∷ rows) = do
    share ← or_key_error name
    lines ← or_key_error load
    data_members ← webapi_data json_loads lines
    rule ← or_key_error (find "rule" data_members)
    live_rules_from ((share, rule) ∷ known) rows

  export_drifts : List (String × Json) → List Export → Result Failure (List Drift)
  unfolding norm_rules same_rules
  export_drifts live_rules [] = ok []
  export_drifts live_rules (exp ∷ exports) = do
    share ← or_key_error exp.share
    let desired = or_default (list no_items) exp.rules
    let live = or_default (list no_items) (lookup share live_rules)
    wanted ← norm_rules desired
    found ← norm_rules live
    rest ← export_drifts live_rules exports
    ok (
        if same_rules wanted found
        then rest
        else record { resource = "nfs"; key = "rules." <> share; desired = desired; live = live }
          ∷ rest)

  unfoldable pub diff_nfs : Spec → Snapshot → Result Failure (List Drift)
  unfolding webapi_data value_drifts live_rules_from export_drifts
  diff_nfs spec snap = do
    live ← webapi_data json_loads snap.nfs_global_raw
    live_rules ← live_rules_from [] snap.nfs_rules_raw
    rules ← export_drifts live_rules spec.exports
    ok (value_drifts "nfs" "global." live (nfs_desired (or_default no_nfs spec.nfs)) ++ rules)

-- `str.lower` as far as the words of the tiers need it: the numbers of the lower case letters.
lower_codes : String → List ℕ
lower_codes String.[] = []
lower_codes (String.◌∷◌ c s) =
    (if leb 65 (code c) && leb (code c) 90 then code c + 32 else code c) ∷ lower_codes s

-- `tier[str(g["access"]).lower()]`
pub tier_of : Access → Result Failure Tier
unfolding lower_codes
tier_of (flag b) = raised caught
tier_of (word s) =
    let low = lower_codes s in
    if low == lower_codes "rw"
    then ok rw_tier
    else if low == lower_codes "ro"
    then ok ro_tier
    else if low == lower_codes "no"
    then ok na_tier
    else raised caught

abbrev pub same_tier : Tier → Tier → Bool
same_tier rw_tier rw_tier = true
same_tier ro_tier ro_tier = true
same_tier na_tier na_tier = true
same_tier _ _ = false

abbrev pub principal : Grant → Result Failure String
principal g = elim g.group [ none ↦ or_key_error g.user | some group ↦ ok ("@" <> group) ]

abbrev pub no_principals : Tiers
no_principals t = []

desired_from : Tiers → List Grant → Result Failure Tiers
unfolding tier_of
desired_from tiers [] = ok tiers
desired_from tiers (g ∷ grants) = do
  name ← principal g
  access ← or_key_error g.access
  tier ← tier_of access
  desired_from (λ t. if same_tier t tier then name ∷ tiers t else tiers t) grants

unfoldable pub desired_tiers : List Grant → Result Failure Tiers
unfolding desired_from
desired_tiers grants = desired_from no_principals grants

-- The live tiers of each share, the last that a share has first.
pub live_tiers_from :
    List (String × Tiers)
    → List (Option String × Option (List String))
    → Result Failure (List (String × Tiers))
unfolding parse_list_acl join_lines
live_tiers_from known [] = ok known
live_tiers_from known ((name, list_acl) ∷ rows) = do
  share ← or_key_error name
  lines ← or_key_error list_acl
  live_tiers_from ((share, parse_list_acl (join_lines lines)) ∷ known) rows

-- `a == b` on sets
abbrev pub same_set : List String → List String → Bool
same_set xs ys = all (contains ys) xs && all (contains xs) ys

-- The tiers in which two matrices differ.
unfoldable pub tier_drifts : (share : String) (desired live : Tiers) → List Tier → List Drift
tier_drifts share desired live [] = []
tier_drifts share desired live (t ∷ ts) =
    let rest = tier_drifts share desired live ts in
    if same_set (desired t) (live t)
    then rest
    else record {
      resource = "acls";
      key = share <> "." <> tier_name t;
      desired = texts (sorted text_le (dedup (desired t)));
      live = texts (sorted text_le (dedup (live t)));
    }
      ∷ rest

abbrev pub all_tiers : List Tier
all_tiers = rw_tier ∷ ro_tier ∷ na_tier ∷ []

acl_drifts : List (String × Tiers) → List ShareAcl → Result Failure (List Drift)
unfolding desired_tiers tier_drifts
acl_drifts live_by_share [] = ok []
acl_drifts live_by_share (entry ∷ entries) = do
  share ← or_key_error entry.share
  des ← desired_tiers entry.grants
  rest ← acl_drifts live_by_share entries
  ok (
      tier_drifts share des (or_default no_principals (lookup share live_by_share)) all_tiers
      ++ rest)

unfoldable pub diff_acls : Spec → Snapshot → Result Failure (List Drift)
unfolding live_tiers_from acl_drifts
diff_acls spec snap = do
  live_by_share ← live_tiers_from [] snap.share_acls
  acl_drifts live_by_share spec.acls
