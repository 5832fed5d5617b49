-- ===== src/Drift/State.antt =====
-- What drift_detector.py reads, the specification and the snapshots, and what it reports.
use krg_infra.Prelude.{Option, none, some, Bool, String, List}
use krg_infra.Drift.Json.{Json}

-- What a specification declares. `none` is a key that is missing.
pub record Smb : Type 0 where
  pub enable : Option Bool
  pub min_protocol : Option String
  pub max_protocol : Option String
  pub server_signing : Option Bool
  pub ntlmv1_auth : Option Bool

pub record Nfs : Type 0 where
  pub enable : Option Bool
  pub nfsv4 : Option Bool
  pub v4_domain : Option String

pub record Export : Type 0 where
  pub share : Option String
  pub rules : Option Json

-- `access: no` is the Boolean `false` to YAML.
pub data Access : Type 0 where
  word : String → Access
  flag : Bool → Access

pub record Grant : Type 0 where
  pub group : Option String
  pub user : Option String
  pub access : Option Access

pub record ShareAcl : Type 0 where
  pub share : Option String
  pub grants : List Grant

-- The files of the specification as one record: a missing or empty part is empty here. Of a share,
-- its name.
pub record Spec : Type 0 where
  pub shares : List (Option String)
  pub smb : Option Smb
  pub nfs : Option Nfs
  pub exports : List Export
  pub acls : List ShareAcl

-- The snapshots of the exporters, in the same way.
pub record Snapshot : Type 0 where
  pub shares_raw : List String
  pub smb_raw : List String
  pub nfs_global_raw : List String
  pub nfs_rules_raw : List (Option String × Option (List String))
  pub share_acls : List (Option String × Option (List String))

-- A difference between the specification and the live state.
pub record Drift : Type 0 where
  pub resource : String
  pub key : String
  pub desired : Json
  pub live : Json

-- `d.get(k, default)`
abbrev pub or_default {ℓ} : {A : Type ℓ} → A → Option A → A
or_default a none = a
or_default a (some b) = b
