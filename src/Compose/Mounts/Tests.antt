-- ===== src/Compose/Mounts/Tests.antt =====
-- Two services, of which one mounts a file of the store twice.
use krg_infra.Prelude.{
  String, true, false, none, some, List, [], ◌∷◌, ◌≡◌, refl, sym, subst, beq_refl, contains,
  text_eq, lookup, ◌==◌, if◌then◌else◌,
}
use krg_infra.Effects.{ok, ◌>>=◌}
use krg_infra.Compose.Docker.{
  Spec, Specs, Volume, long, short, Mounts, StateText, unreadable, not_object, object, Host, World,
}
use krg_infra.Compose.Mounts.{
  Files, mount_fingerprints, mounts_changed, write_file, replace_file, save_state,
}
use krg_infra.Compose.Mounts.Reference.{identities, mount_fingerprints_lem}
use krg_infra.Compose.Mounts.Changed.{differs_in, mounts_changed_lem}
use krg_infra.Compose.Mounts.RoundTrip.{ReadsAs, KeepsFiles, IsUnmoved, saved_state_forces_nothing}

abbrev store_files : Files
store_files = record {
  resolve = λ path. if path == "./web.conf" then "/nix/store/x-web.conf" else path;
  exists = λ path. true;
  content_hash = λ path. "00";
}

abbrev spec_of : List Volume → Spec
spec_of volumes = record {
  labels = [];
  build = false;
  image = "";
  depends_on = [];
  container_name = "";
  ports = [];
  healthcheck = none;
  volumes = volumes;
}

abbrev bind : String → Volume
bind source = long (some "bind") (some source)

abbrev two_specs : Specs
two_specs =
    ("web", spec_of (bind "./web.conf" ∷ short "data:/data" ∷ bind "./web.conf" ∷ []))
    ∷ ("db", spec_of (bind "/srv/db" ∷ []))
    ∷ []

abbrev old_mounts : Mounts
old_mounts = ("web", "sha256:ff" ∷ []) ∷ ("gone", []) ∷ []

abbrev new_mounts : Mounts
new_mounts = ("web", "sha256:00" ∷ []) ∷ ("db", "/srv/db" ∷ []) ∷ []

mount_fingerprints_example :
    mount_fingerprints store_files two_specs ≡ identities store_files two_specs
mount_fingerprints_example = mount_fingerprints_lem store_files two_specs

mounts_changed_example :
    contains (mounts_changed (some old_mounts) new_mounts) "web"
    ≡ differs_in (lookup "web" old_mounts) (lookup "web" new_mounts)
mounts_changed_example = mounts_changed_lem old_mounts new_mounts "web" (refl, (refl, tt))

-- A host that keeps the files that are written to it.
abbrev read_file : String → List (String × StateText) → StateText
read_file path files = elim (lookup path files) [ none ↦ unreadable | some text ↦ text ]

abbrev file_host : Host
file_host = record {
  State = List (String × StateText);
  run = λ args stderr timeout files. (ok "", files);
  sleep = λ ticks files. files;
  now = λ files. 0;
  spawn = λ args files. (ok tt, files);
  load_file = read_file;
  write_file = λ path text files. (ok tt, (path, text) ∷ files);
  replace_file = λ from to files. (ok tt, (to, read_file from files) ∷ files);
  read_services = λ text. ok [];
}

abbrev no_files : World file_host
no_files = record { host = []; trace = [] }

ReadsAs-refl : (text : StateText) → ReadsAs text text
ReadsAs-refl unreadable = refl
ReadsAs-refl not_object = refl
ReadsAs-refl (object version none) = refl
ReadsAs-refl (object version (some mounts)) = (refl, λ svc. refl)

read_first :
    (path : String) (text : StateText) (files : List (String × StateText))
    → read_file path ((path, text) ∷ files) ≡ text
read_first path text files = rw (read_file, beq_refl path) refl

file_host_keeps : KeepsFiles file_host
file_host_keeps = record {
  written = λ path text files p.
      subst (λ read. ReadsAs read text) (sym (read_first path text files)) (ReadsAs-refl text);
  moved = λ from to files p. read_first to (read_file from files) files;
}

save_succeeds : (save_state file_host "state.json" new_mounts no_files).0 ≡ ok tt
unfolding save_state write_file replace_file ◌>>=◌
save_succeeds = refl

saved_state_example : IsUnmoved new_mounts (
    file_host.load_file "state.json" (save_state file_host "state.json" new_mounts no_files).1.host)
saved_state_example =
    saved_state_forces_nothing file_host file_host_keeps "state.json" new_mounts no_files
      (refl, (refl, tt)) save_succeeds
