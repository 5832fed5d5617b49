-- ===== src/Compose/Handoff.antt =====
-- `handoff`, `_drain`, `_abort` and `_safe_handoff` of compose-reload.py: a new container is started
-- beside the old one, and the old one is retired once the new one is healthy.
pub mod Working
pub mod Seen
pub mod Listed
pub mod Rule
pub mod Safety
pub mod Completion
pub mod Recovery
pub mod Deadline
pub mod Fuel
pub mod Commands
pub mod Total
mod Tests
use krg_infra.Prelude.{
  ℕ, zero, suc, ◌+◌, ◌*◌, String, ◌<>◌, Bool, true, false, not, ◌&&◌, ◌||◌, List, [], ◌∷◌, ◌==◌,
  leb, if◌then◌else◌, text_eq, nat_eq, list_eq, contains, keep, any, all, length,
}
use krg_infra.Text.{decimal}
use krg_infra.Effects.{Exec, pure, throw, catch, map_exec, ◌>>=◌, ◌>>◌}
use krg_infra.Compose.Docker
use krg_infra.Compose.Docker.{
  Host, Failure, called_process_error, timeout_expired, other_error, fuel_spent, World, Run, Stack,
  drain_file,
}

-- `except subprocess.CalledProcessError: return default`
abbrev pub or_on_process_error : {S A : Type 0} → A → Failure → Exec Failure S A
or_on_process_error default called_process_error = pure default
or_on_process_error default e = throw e

abbrev pub is_ready : String × String → Bool
is_ready (state, health) = state == "running" && health == "healthy"

abbrev pub has_failed : String × String → Bool
has_failed (state, health) = not (state == "running") || health == "unhealthy"

module _ (H : Host) (stack : Stack) where
  -- The logs of each failed container are read for the journal.
  pub read_logs : List String → Run H (Unit {0})
  read_logs [] = pure tt
  read_logs (c ∷ new) = do
    catch (Docker.docker_cmd H stack ("logs" ∷ "--tail" ∷ "50" ∷ c ∷ []) >> pure tt)
        (or_on_process_error tt)
    read_logs new

  -- `docker stop` and `docker rm` of the same containers.
  pub retire : List String → Run H (Unit {0})
  retire cids = do
    Docker.docker_cmd H stack ("stop" ∷ cids)
    Docker.docker_cmd H stack ("rm" ∷ cids)
    pure tt

  unfoldable pub abort : List String → Run H Bool
  abort new = do read_logs new; if new == [] then pure false else (do retire new; pure false)

  -- The `while True` loop: whether every new container became healthy, by its first failure or by
  -- the deadline.
  pub await_ready : (fuel : ℕ) → List String → (deadline poll : ℕ) → Run H Bool
  await_ready zero new deadline poll = throw fuel_spent
  await_ready (suc fuel) new deadline poll = do
    states ← map_exec (Docker.health H stack) new
    if all is_ready states then pure true else if any has_failed states then pure false else do
      now ← Docker.clock H stack
      if leb deadline now
          then pure false
          else do Docker.sleep H stack poll; await_ready fuel new deadline poll

  -- Creates the drain file in each old container whose healthcheck honours it.
  pub start_drain : String → Run H Bool
  start_drain c = do
    opted_in ← Docker.drains H stack c
    if opted_in
        then (do Docker.docker_cmd H stack ("exec" ∷ c ∷ "touch" ∷ drain_file ∷ []); pure true)
        else pure false

  pub drain_targets : List String → Run H (List String)
  drain_targets [] = pure []
  drain_targets (c ∷ old) = do
    draining ← catch (start_drain c) (or_on_process_error false)
    targets ← drain_targets old
    pure (if draining then c ∷ targets else targets)

  pub await_drained : (fuel : ℕ) → List String → (deadline poll : ℕ) → Run H (Unit {0})
  await_drained zero targets deadline poll = throw fuel_spent
  await_drained (suc fuel) targets deadline poll = do
    states ← map_exec (Docker.health H stack) targets
    if all has_failed states then pure tt else do
      now ← Docker.clock H stack
      if leb deadline now
          then pure tt
          else do Docker.sleep H stack poll; await_drained fuel targets deadline poll

  pub drain_old : (fuel : ℕ) → List String → (timeout poll : ℕ) → Run H (Unit {0})
  drain_old fuel old timeout poll = do
    targets ← drain_targets old
    if targets == []
        then pure tt
        else do now ← Docker.clock H stack; await_drained fuel targets (now + timeout) poll

  -- `[c for c in stack.all_containers(svc) if c not in old]`
  pub new_containers : String → List String → Run H (List String)
  new_containers svc old = do
    containers ← Docker.all_containers H stack svc
    pure (keep (λ c. not (contains old c)) containers)

  pub scale_up : String → List String → Run H String
  scale_up svc old = Docker.compose H stack (
      "up"
      ∷ "--detach"
      ∷ "--no-deps"
      ∷ "--no-recreate"
      ∷ "--scale"
      ∷ (svc <> "=" <> decimal (2 * length old))
      ∷ svc
      ∷ [])

  -- What follows once the new containers are healthy.
  pub finish : (fuel : ℕ) → List String → (timeout drain poll : ℕ) → Run H Bool
  finish fuel old timeout drain poll = do
    drain_old fuel old timeout poll
    Docker.sleep H stack drain
    retire old
    pure true

  -- `poll` is in the clock's ticks, as `timeout` and `drain` are.
  unfoldable pub handoff : (fuel : ℕ) → String → List String → (timeout drain poll : ℕ) → Run H Bool
  handoff fuel svc old timeout drain poll = do
    scale_up svc old
    new ← new_containers svc old
    if not (length new == length old) then abort new else do
      now ← Docker.clock H stack
      ready ← await_ready fuel new (now + timeout) poll
      if ready then finish fuel old timeout drain poll else abort new

  -- The cleanup after an unexpected error: `any(c in stack.running(svc) for c in old)` reads the
  -- running containers once for each old one, up to the first that runs.
  pub any_running : String → List String → Run H Bool
  any_running svc [] = pure false
  any_running svc (c ∷ old) = do
    ids ← Docker.running H stack svc
    if contains ids c then pure true else any_running svc old

  pub cleanup : String → List String → Run H Bool
  cleanup svc old = do
    serving ← any_running svc old
    if serving then (do new ← new_containers svc old; abort new) else pure false

  -- `except Exception` catches every failure; the cleanup's own handler catches one kind.
  unfoldable pub safe_handoff :
      (fuel : ℕ) → String → List String → (timeout drain poll : ℕ) → Run H Bool
  safe_handoff fuel svc old timeout drain poll =
      catch (handoff fuel svc old timeout drain poll)
        λ _. catch (cleanup svc old) (or_on_process_error false)
