-- ===== src/Compose/Plan/Tests.antt =====
-- `plan` for a service whose mounts have changed.
use krg_infra.Prelude.{ℕ, ◌+◌, false, some, [], ◌∷◌, text_eq, contains, if◌then◌else◌}
use krg_infra.Effects.{ok}
use krg_infra.Compose.Docker.{Spec, shell, Host, World, Stack, unreadable, rollout_label}
use krg_infra.Compose.Plan.{plan}
use krg_infra.Compose.Plan.Eligible.{Planned}
use krg_infra.Compose.Plan.Choice.{plan-Planned}

abbrev web : Spec
web = record {
  labels = (rollout_label, "handoff") ∷ [];
  build = false;
  image = "web:1";
  depends_on = [];
  container_name = "";
  ports = [];
  healthcheck = some (record { disable = false; test = some (shell "wget -q localhost") });
  volumes = [];
}

abbrev one_host : Host
one_host = record {
  State = ℕ;
  run = λ args stderr timeout now. (ok (if contains args "ps" then "4f2a\n" else ""), now);
  sleep = λ ticks now. now + ticks;
  now = λ now. now;
  spawn = λ args now. (ok tt, now);
  load_file = λ path now. unreadable;
  write_file = λ path mounts now. (ok tt, now);
  replace_file = λ from to now. (ok tt, now);
  read_services = λ text. ok (("web", web) ∷ []);
}

abbrev web_stack : Stack
web_stack = record { docker = "docker"; compose_args = "compose" ∷ [] }

abbrev start : World one_host
start = record { host = 0; trace = [] }

plan-Planned_example :
    Planned one_host
      ("web" ∷ [])
      (plan one_host web_stack ("web" ∷ []) start).0
      (plan one_host web_stack ("web" ∷ []) start).1.trace
plan-Planned_example = plan-Planned one_host web_stack ("web" ∷ []) start
