-- ===== src/Compose/Docker.antt =====
-- Class `Stack` of compose-reload.py, and what it runs on.
pub mod Recreated
pub mod Named
pub mod Reported
pub mod Footprint
pub mod Asking
use krg_infra.Prelude.{
  ℕ, String, Bool, true, false, not, Option, none, some, List, [], ◌∷◌, ◌++◌, ◌==◌, if◌then◌else◌,
  text_eq, list_eq, lookup,
}
use krg_infra.Text.{split, split_at, split_lines, has_text, strip, text_le}
use krg_infra.Sorted.{sorted}
use krg_infra.Effects.{Result, ok, Exec, pure, lift, gets, ◌>>=◌, ◌>>◌}
use Recreated.{recreated_names}

-- The exceptions that the code tells apart. The last one is not Python's: it marks a loop of the
-- model whose fuel is spent.
pub data Failure : Type 0 where
  called_process_error timeout_expired other_error fuel_spent : Failure

-- A healthcheck's `test`: a command line, or a list of arguments.
pub data HealthTest : Type 0 where
  shell : String → HealthTest
  argv : List String → HealthTest

pub record Healthcheck : Type 0 where
  pub disable : Bool
  pub test : Option HealthTest

-- A service's volume: a short "source:target" text, or a mapping with its `type` and `source`.
pub data Volume : Type 0 where
  short : String → Volume
  long : (kind source : Option String) → Volume

-- A service of the resolved compose file. A field that is missing, `null` or empty is `none`,
-- `false`, "" or `[]`: the code tests each by its truth value only. `depends_on` gives each
-- dependency its `condition`.
pub record Spec : Type 0 where
  pub labels : List (String × String)
  pub build : Bool
  pub image : String
  pub depends_on : List (String × Option String)
  pub container_name : String
  pub ports : List String
  pub healthcheck : Option Healthcheck
  pub volumes : List Volume

abbrev pub Specs : Type 0
Specs = List (String × Spec)

-- The fingerprints of each service's mount sources.
abbrev pub Mounts : Type 0
Mounts = List (String × List String)

-- What the state file holds: nothing that `open` and `json.load` can read, JSON that is no object,
-- or an object with its "version" and "mounts".
pub data StateText : Type 0 where
  unreadable not_object : StateText
  object : (version : Option ℕ) (mounts : Option Mounts) → StateText

-- What the tool runs on and does not implement. `run` is `run` of an argument list, with its timeout
-- in seconds and whether stderr is returned too; `spawn` is `subprocess.run(…, check=True)`. The
-- clock counts ticks of one length, in which all waits are measured. `load_file`, `write_file` and
-- `replace_file` are `open` with `json.load` or `json.dump`, and `os.replace`. `read_services` is
-- `json.loads` of the compose configuration, and its "services".
pub record Host : Type 1 where
  pub State : Type 0
  pub run : List String → Bool → ℕ → State → Result Failure String × State
  pub sleep : ℕ → State → State
  pub now : State → ℕ
  pub spawn : List String → State → Result Failure (Unit {0}) × State
  pub load_file : String → State → StateText
  pub write_file : String → StateText → State → Result Failure (Unit {0}) × State
  pub replace_file : String → String → State → Result Failure (Unit {0}) × State
  pub read_services : String → Result Failure Specs

-- What the tool has done, the last first: a compose or a docker call with its arguments behind the
-- base command and its outcome, a wait, a compose command of `main`, and the writing of a state file.
pub data Event : Type 0 where
  compose_call docker_call : List String → Result Failure String → Event
  slept : ℕ → Event
  spawned : List String → Result Failure (Unit {0}) → Event
  wrote : String → StateText → Result Failure (Unit {0}) → Event
  replaced : String → String → Result Failure (Unit {0}) → Event

pub record World (H : Host) : Type 0 where
  pub host : H.State
  pub trace : List Event

abbrev pub Run : Host → Type 0 → Type 0
Run H A = Exec Failure (World H) A

abbrev pub rollout_label : String
rollout_label = "krg.rollout"

abbrev pub drain_file : String
drain_file = "/tmp/krg-drain"

abbrev pub dry_run_timeout : ℕ
dry_run_timeout = 300

abbrev pub pull_timeout : ℕ
pull_timeout = 1800

abbrev pub call_timeout : ℕ
call_timeout = 600

-- The stack's base compose command: `docker`, which is its first word, and the words behind it.
pub record Stack : Type 0 where
  pub docker : String
  pub compose_args : List String

-- (state, health): two words, or "unknown" twice.
pub health_words : List String → String × String
health_words (state ∷ health ∷ []) = (state, health)
health_words _ = ("unknown", "unknown")

abbrev pub health_format : String
health_format = "{{.State.Status}} {{if .State.Health}}{{.State.Health.Status}}{{else}}none{{end}}"

-- One line of `ps --format "{{.Name}}\t{{.Service}}"` added to the dict from container to service.
note_service : List String → List (String × String) → List (String × String)
note_service (name ∷ service ∷ []) svc_of = (name, service) ∷ svc_of
note_service _ svc_of = svc_of

-- Later lines overwrite earlier ones, so they stand first.
pub services_by_name : List String → List (String × String) → List (String × String)
unfolding note_service
services_by_name [] svc_of = svc_of
services_by_name (line ∷ lines) svc_of =
    services_by_name lines (note_service (split_at 9 line) svc_of)

-- `{svc_of[n] for n in names if n in svc_of}`
pub services_of : List (String × String) → List String → List String
services_of svc_of [] = []
services_of svc_of (n ∷ names) =
    let rest = services_of svc_of names in
    elim (lookup n svc_of) [ none ↦ rest | some svc ↦ svc ∷ rest ]

module _ (H : Host) (stack : Stack) where
  record_call : (Result Failure String → Event) → List String → Bool → ℕ → Run H String
  record_call event arguments stderr timeout w =
      let (r, host) = H.run arguments stderr timeout w.host in
      (r, record { host = host; trace = event r ∷ w.trace })

  unfoldable pub compose_with : List String → Bool → ℕ → Run H String
  unfolding record_call
  compose_with args stderr timeout =
      record_call (compose_call args) (stack.docker ∷ stack.compose_args ++ args) stderr timeout

  unfoldable pub compose : List String → Run H String
  unfolding compose_with
  compose args = compose_with args false call_timeout

  unfoldable pub docker_cmd : List String → Run H String
  unfolding record_call
  docker_cmd args = record_call (docker_call args) (stack.docker ∷ args) false call_timeout

  unfoldable pub specs : Run H Specs
  specs = do text ← compose ("config" ∷ "--format" ∷ "json" ∷ []); lift (H.read_services text)

  -- The answer is a set: it may name a service twice.
  unfoldable pub changed_services : List String → Run H (List String)
  unfolding services_of services_by_name
  changed_services [] = pure []
  changed_services (s ∷ services) = do
    compose_with ("pull" ∷ "--quiet" ∷ "--policy" ∷ "missing" ∷ "--ignore-buildable" ∷ []) true
        pull_timeout
    out ←
        compose_with ("--dry-run" ∷ "up" ∷ "--detach" ∷ "--no-deps" ∷ sorted text_le (s ∷ services))
          true dry_run_timeout
    let names = recreated_names out
    if names == [] then pure [] else do
      listing ← compose ("ps" ∷ "--all" ∷ "--format" ∷ "{{.Name}}\t{{.Service}}" ∷ [])
      pure (services_of (services_by_name (split_lines listing) []) names)

  unfoldable pub has_image : String → Run H Bool
  has_image image = if image == "" then pure false else do
    out ← docker_cmd ("image" ∷ "ls" ∷ "--quiet" ∷ image ∷ [])
    pure (not (strip out == ""))

  -- The services to build, in the dict's order. `has_image` is asked only where `build` is set.
  pub missing_builds : Specs → Run H (List String)
  missing_builds [] = pure []
  missing_builds ((svc, spec) ∷ rest) =
      if spec.build
      then (do
        present ← has_image spec.image
        todo ← missing_builds rest
        pure (if present then todo else svc ∷ todo))
      else missing_builds rest

  unfoldable pub build_missing : Specs → Run H (List String)
  unfolding missing_builds
  build_missing services = do
    missing ← missing_builds services
    let todo = sorted text_le missing
    if todo == [] then pure todo else do compose_with ("build" ∷ todo) true pull_timeout; pure todo

  unfoldable pub running : String → Run H (List String)
  running service = do out ← compose ("ps" ∷ "--quiet" ∷ service ∷ []); pure (split out)

  unfoldable pub all_containers : String → Run H (List String)
  all_containers service = do
    out ← compose ("ps" ∷ "--all" ∷ "--quiet" ∷ service ∷ [])
    pure (split out)

  unfoldable pub drains : String → Run H Bool
  drains cid = do
    out ← docker_cmd ("inspect" ∷ "--format" ∷ "{{json .Config.Healthcheck}}" ∷ cid ∷ [])
    pure (has_text drain_file out)

  unfoldable pub health : String → Run H (String × String)
  unfolding health_words
  health cid = do
    out ← docker_cmd ("inspect" ∷ "--format" ∷ health_format ∷ cid ∷ [])
    pure (health_words (split out))

  unfoldable pub image : String → Run H String
  image cid = do
    out ← docker_cmd ("inspect" ∷ "--format" ∷ "{{.Config.Image}}" ∷ cid ∷ [])
    pure (strip out)

  unfoldable pub sleep : ℕ → Run H (Unit {0})
  sleep ticks w = (ok tt, record { host = H.sleep ticks w.host; trace = slept ticks ∷ w.trace })

  unfoldable pub clock : Run H ℕ
  clock = gets (λ w. H.now w.host)

  unfoldable pub spawn : List String → Run H (Unit {0})
  spawn args w =
      let (r, host) = H.spawn (stack.docker ∷ stack.compose_args ++ args) w.host in
      (r, record { host = host; trace = spawned args r ∷ w.trace })
