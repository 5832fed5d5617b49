-- ===== src/Compose/Reload/Tests.antt =====
-- Runs of `main` for a stack with one service.
use krg_infra.Prelude.{ℕ, ◌+◌, Bool, true, false, none, some, [], ◌∷◌, refl, text_eq}
use krg_infra.Effects.{ok}
use krg_infra.Compose.Docker.{Spec, long, Host, World, object}
use krg_infra.Compose.Mounts.{Files}
use krg_infra.Compose.Reload.{Args, main}
use krg_infra.Compose.Reload.Steps.{Asked}
use krg_infra.Compose.Reload.Outcome.{Outcome, main-Outcome, main-Asked}

abbrev web : Spec
web = record {
  labels = [];
  build = false;
  image = "web:1";
  depends_on = [];
  container_name = "";
  ports = [];
  healthcheck = none;
  volumes = long (some "bind") (some "/srv/web.conf") ∷ [];
}

-- A host that answers every command with nothing, and whose last state has other fingerprints.
abbrev quiet_host : Host
quiet_host = record {
  State = ℕ;
  run = λ args stderr timeout now. (ok "", now);
  sleep = λ ticks now. now + ticks;
  now = λ now. now;
  spawn = λ args now. (ok tt, now);
  load_file = λ path now. object (some 2) (some (("web", "/srv/old.conf" ∷ []) ∷ []));
  write_file = λ path mounts now. (ok tt, now);
  replace_file = λ from to now. (ok tt, now);
  read_services = λ text. ok (("web", web) ∷ []);
}

abbrev plain_files : Files
plain_files = record { resolve = λ path. path; exists = λ path. true; content_hash = λ path. "00" }

abbrev options : Bool → Args
options dry_run = record {
  timeout = 180;
  drain = 5;
  state = "/var/lib/state.json";
  dry_run = dry_run;
  compose = "--" ∷ "docker" ∷ "compose" ∷ [];
}

abbrev start : World quiet_host
start = record { host = 0; trace = [] }

main-Outcome_example :
    Outcome plain_files
      (options false)
      (main quiet_host plain_files 1 2 (options false) start).0
      (main quiet_host plain_files 1 2 (options false) start).1.trace
main-Outcome_example = main-Outcome quiet_host plain_files 1 2 (options false) start tt

main-Asked_example : Asked (main quiet_host plain_files 1 2 (options true) start).1.trace
main-Asked_example = main-Asked quiet_host plain_files 1 2 (options true) start tt refl
