-- ===== src/Compose/Handoff/Tests.antt =====
-- Runs of `handoff` and `_safe_handoff` on hosts that answer every call with a fixed text.
use krg_infra.Prelude.{
  ℕ, ◌+◌, String, true, List, [], ◌∷◌, ◌≡◌, ◌≢◌, refl, arith, text_eq, contains, if◌then◌else◌,
  Bool-cases, inl, inr,
}
use krg_infra.Text.{split, decimal, has_text}
use krg_infra.Effects.{Result, ok, raised, ◌>>=◌, map_exec}
use krg_infra.Compose.Docker
use krg_infra.Compose.Docker.{
  Failure, timeout_expired, called_process_error, fuel_spent, Host, World, Stack, health_format,
  unreadable,
}
use krg_infra.Compose.Handoff.{
  await_ready, finish, drain_old, drain_targets, start_drain, retire, scale_up, new_containers,
  any_running, cleanup, handoff, safe_handoff,
}
use krg_infra.Compose.Handoff.Completion.{Completed, handoff-Completed}
use krg_infra.Compose.Handoff.Recovery.{safe_handoff_escapes}
use krg_infra.Compose.Handoff.Deadline.{KeepsTime}
use krg_infra.Compose.Handoff.Total.{handoff_total}

-- What a host answers on which a service has one old and one new container, and `report` is the
-- health of each.
abbrev answer : String → List String → Result Failure String
answer report args =
    if contains args "ps"
    then ok "old new"
    else if contains args health_format
    then ok report
    else ok ""

-- A clock that counts the sleeps, and calls that `run` answers.
abbrev simple_host : (List String → Result Failure String) → Host
simple_host run = record {
  State = ℕ;
  run = λ args stderr timeout now. (run args, now);
  sleep = λ ticks now. now + ticks;
  now = λ now. now;
  spawn = λ args now. (ok tt, now);
  load_file = λ path now. unreadable;
  write_file = λ path mounts now. (ok tt, now);
  replace_file = λ from to now. (ok tt, now);
  read_services = λ text. ok [];
}

abbrev healthy_host : Host
healthy_host = simple_host (answer "running healthy")

abbrev crashing_host : Host
crashing_host = simple_host (answer "exited none")

abbrev hanging_host : Host
hanging_host = simple_host (λ args. raised timeout_expired)

abbrev web_stack : Stack
web_stack = record { docker = "docker"; compose_args = "compose" ∷ [] }

abbrev healthy_start : World healthy_host
healthy_start = record { host = 0; trace = [] }

abbrev crashing_start : World crashing_host
crashing_start = record { host = 0; trace = [] }

abbrev hanging_start : World hanging_host
hanging_start = record { host = 0; trace = [] }

health_succeeds :
    (handoff healthy_host web_stack 3 "web" ("old" ∷ []) 4 1 2 healthy_start).0 ≡ ok true
unfolding handoff scale_up new_containers finish drain_old drain_targets start_drain await_ready
    retire map_exec ◌>>=◌ Docker.compose Docker.all_containers Docker.clock Docker.health
    Docker.docker_cmd Docker.drains Docker.sleep decimal split has_text
health_succeeds = refl

handoff-Completed_example :
    Completed "web"
      ("old" ∷ [])
      1
      (handoff healthy_host web_stack 3 "web" ("old" ∷ []) 4 1 2 healthy_start).1.trace
handoff-Completed_example =
    handoff-Completed healthy_host web_stack 3 "web" ("old" ∷ []) 4 1 2 healthy_start
      health_succeeds

cleanup_hangs :
    (handoff hanging_host web_stack 3 "web" ("old" ∷ []) 4 1 2 hanging_start).0
      ≡ raised timeout_expired
    × ((cleanup hanging_host web_stack "web"
          ("old" ∷ [])
          (handoff hanging_host web_stack 3 "web" ("old" ∷ []) 4 1 2 hanging_start).1).0
        ≡ raised timeout_expired)
unfolding handoff scale_up cleanup any_running ◌>>=◌ Docker.compose Docker.running Docker.docker_cmd
    decimal
cleanup_hangs = (refl, refl)

safe_handoff_escapes_example :
    (safe_handoff hanging_host web_stack 3 "web" ("old" ∷ []) 4 1 2 hanging_start).0
    ≡ raised timeout_expired
safe_handoff_escapes_example =
    (safe_handoff_escapes hanging_host web_stack 3 "web" ("old" ∷ []) 4 1 2 hanging_start
        timeout_expired).1
      (timeout_expired, cleanup_hangs.0, cleanup_hangs.1, λ p. cc)

answer_honest : (report : String) (args : List String) → answer report args ≢ raised fuel_spent
answer_honest report args = elim (Bool-cases (contains args "ps")) [
  | inl h ↦ λ p. cc
  | inr h ↦ elim (Bool-cases (contains args health_format)) [ inl k ↦ λ p. cc | inr k ↦ λ p. cc ]
]

healthy_time : KeepsTime healthy_host
healthy_time = record {
  run_later = λ args stderr timeout now. omega arith;
  sleep_later = λ ticks now. omega arith;
  run_honest = λ args stderr timeout now. answer_honest "running healthy" args;
}

handoff_total_example :
    ((handoff healthy_host web_stack 3 "web" ("old" ∷ []) 4 1 2 healthy_start).0
      ≢ raised fuel_spent)
    × ((safe_handoff healthy_host web_stack 3 "web" ("old" ∷ []) 4 1 2 healthy_start).0
        ≢ raised fuel_spent)
handoff_total_example =
    handoff_total healthy_host web_stack 2 "web" ("old" ∷ []) 4 1 2 healthy_start healthy_time
      (omega arith)
