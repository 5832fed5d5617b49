-- ===== src/Compose/Mounts.antt =====
-- Bind-mounted config: `mount_fingerprints`, `mounts_changed`, `load_state` and `save_state` of
-- compose-reload.py.
pub mod Saving
pub mod Reference
pub mod Changed
pub mod RoundTrip
mod Tests
use text.Mathlib.Text.{starts_with}
use krg_infra.Prelude.{
  ℕ, String, ◌<>◌, Bool, false, not, ◌&&◌, Option, none, some, List, [], ◌∷◌, ◌==◌, if◌then◌else◌,
  text_eq, nat_eq, list_eq, option_eq, lookup,
}
use krg_infra.Text.{text_le}
use krg_infra.Sorted.{sorted}
use krg_infra.Effects.{Result, ok, raised, ◌>>◌}
use krg_infra.Compose.Docker.{
  Volume, short, long, Specs, Mounts, StateText, unreadable, not_object, object, Host, Failure,
  other_error, Run, wrote, replaced,
}

abbrev pub state_version : ℕ
state_version = 2

abbrev pub store_path : String
store_path = "/nix/store/"

-- The file system as `mount_fingerprints` reads it: `os.path.realpath`, `os.path.exists`, and the
-- hash of what is at a path.
pub record Files : Type 0 where
  pub resolve : String → String
  pub exists : String → Bool
  pub content_hash : String → String

-- The source of a bind mount, if it has one: `isinstance(v, dict)` with type "bind" and a source.
unfoldable pub bind_source : Volume → Option String
bind_source (short text) = none
bind_source (long kind none) = none
bind_source (long kind (some source)) =
    if kind == some "bind" && not (source == "") then some source else none

abbrev pub Cache : Type 0
Cache = List (String × String)

module _ (files : Files) where
  -- The content hash of a path, by what the cache holds of it.
  abbrev cached : String → Cache → Option String → String × Cache
  cached real cache (some known) = (known, cache)
  cached real cache none =
      let hash = "sha256:" <> files.content_hash real in (hash, (real, hash) ∷ cache)

  -- One source's fingerprint, with the cache of content hashes.
  fingerprint : String → Cache → String × Cache
  fingerprint source cache =
      let real = files.resolve source in
      if starts_with real store_path && files.exists real
      then cached real cache (lookup real cache)
      else (real, cache)

  fingerprints_of : List Volume → Cache → List String × Cache
  unfolding fingerprint
  fingerprints_of [] cache = ([], cache)
  fingerprints_of (v ∷ volumes) cache = elim (bind_source v) [
    | none ↦ fingerprints_of volumes cache
    | some source ↦
        let (fp, cache') = fingerprint source cache in
        let (fps, cache'') = fingerprints_of volumes cache' in (fp ∷ fps, cache'')
  ]

  mount_fingerprints_from : Specs → Cache → Mounts
  unfolding fingerprints_of
  mount_fingerprints_from [] cache = []
  mount_fingerprints_from ((svc, spec) ∷ specs) cache =
      let (fps, cache') = fingerprints_of spec.volumes cache in
      (svc, sorted text_le fps) ∷ mount_fingerprints_from specs cache'

  unfoldable pub mount_fingerprints : Specs → Mounts
  unfolding mount_fingerprints_from
  mount_fingerprints specs = mount_fingerprints_from specs []

-- Whether a service had other fingerprints in the last state.
moved : Mounts → String → List String → Bool
moved prev svc srcs = elim (lookup svc prev) [ none ↦ false | some old ↦ not (old == srcs) ]

changed_from : Mounts → Mounts → List String
unfolding moved
changed_from prev [] = []
changed_from prev ((svc, srcs) ∷ cur) =
    let rest = changed_from prev cur in if moved prev svc srcs then svc ∷ rest else rest

-- A set, in the order of `cur`.
unfoldable pub mounts_changed : Option Mounts → Mounts → List String
unfolding changed_from
mounts_changed none cur = []
mounts_changed (some prev) cur = changed_from prev cur

-- `state.get` on JSON that is no object raises AttributeError, which is not caught.
unfoldable pub load_state : StateText → Result Failure (Option Mounts)
load_state unreadable = ok none
load_state not_object = raised other_error
load_state (object version mounts) = if version == some state_version then ok mounts else ok none

-- `{"version": STATE_VERSION, "mounts": mounts}`
abbrev pub state_of : Mounts → StateText
state_of mounts = object (some state_version) (some mounts)

module _ (H : Host) where
  write_file : String → StateText → Run H (Unit {0})
  write_file path text w =
      let (r, host) = H.write_file path text w.host in
      (r, record { host = host; trace = wrote path text r ∷ w.trace })

  replace_file : String → String → Run H (Unit {0})
  replace_file from to w =
      let (r, host) = H.replace_file from to w.host in
      (r, record { host = host; trace = replaced from to r ∷ w.trace })

  pub save_state : String → Mounts → Run H (Unit {0})
  unfolding write_file replace_file
  save_state path mounts = do
    write_file (path <> ".tmp") (state_of mounts)
    replace_file (path <> ".tmp") path
