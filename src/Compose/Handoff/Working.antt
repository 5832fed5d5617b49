-- ===== src/Compose/Handoff/Working.antt =====
-- The parts of a handoff that stop no container keep every property that such work cannot break.
use krg_infra.Prelude.{
  ℕ, zero, suc, String, true, false, List, [], ◌∷◌, refl, all, any, leb, contains, text_eq, list_eq,
  ◌==◌,
}
use krg_infra.Effects.{Result}
use krg_infra.Effects.Triple.{Keeps, Keeps-pure, Keeps-bind, Keeps-if, Keeps-map_exec, keeps_rules}
use krg_infra.Compose.Docker
use krg_infra.Compose.Docker.{
  Failure, called_process_error, timeout_expired, other_error, fuel_spent, Event, compose_call,
  docker_call, slept, Host, World, Stack, drain_file,
}
use krg_infra.Compose.Docker.Footprint.{is_working, asking_closed, IsClosed, Traced}
use krg_infra.Compose.Docker.Asking.{
  Keeps-compose, Keeps-docker_cmd, Keeps-sleep, Keeps-running, Keeps-all_containers, Keeps-drains,
  Keeps-health, Keeps-logs, Keeps-clock,
}
use krg_infra.Compose.Handoff.{
  is_ready, has_failed, or_on_process_error, read_logs, await_ready, start_drain, drain_targets,
  await_drained, drain_old, new_containers, scale_up, any_running, retire, abort,
}

pub Keeps-or_on_process_error :
    {S A : Type 0} {P : S → Type 0} (default : A) (e : Failure)
    → Keeps P (or_on_process_error default e)
Keeps-or_on_process_error default called_process_error = search keeps_rules
Keeps-or_on_process_error default _ = search keeps_rules

module _ (H : Host) (stack : Stack) {T : List Event → Type 0} (closed : IsClosed is_working T) where
  working_health : (c : String) → Keeps (Traced H T) (Docker.health H stack c)
  working_health c = Keeps-health H stack (asking_closed closed) c

  working_sleep : (n : ℕ) → Keeps (Traced H T) (Docker.sleep H stack n)
  working_sleep n = Keeps-sleep H stack T n (λ t. closed.add _ t refl)

  working_clock : Keeps (Traced H T) (Docker.clock H stack)
  working_clock = Keeps-clock H stack (asking_closed closed)

  pub Keeps-read_logs : (new : List String) → Keeps (Traced H T) (read_logs H stack new)
  unfolding read_logs
  Keeps-read_logs [] = search keeps_rules
  Keeps-read_logs (c ∷ new) =
      Keeps-bind _ _
        (search (keeps_rules, Keeps-or_on_process_error, Keeps-logs H stack (asking_closed closed))
          depth 8)
        (λ _. Keeps-read_logs new)

  pub Keeps-await_ready :
      (fuel : ℕ) (new : List String) (deadline poll : ℕ)
      → Keeps (Traced H T) (await_ready H stack fuel new deadline poll)
  unfolding await_ready
  Keeps-await_ready zero new deadline poll = search keeps_rules
  Keeps-await_ready (suc fuel) new deadline poll =
      Keeps-bind _ _ (Keeps-map_exec _ new working_health) λ states.
        Keeps-if (all is_ready states) _ _ (Keeps-pure true) (
          Keeps-if (any has_failed states) _ _ (Keeps-pure false) (
            Keeps-bind _ _ working_clock λ now. Keeps-if (leb deadline now) _ _ (Keeps-pure false) (
              Keeps-bind _ _ (working_sleep poll) (λ _. Keeps-await_ready fuel new deadline poll))))

  Keeps-start_drain : (c : String) → Keeps (Traced H T) (start_drain H stack c)
  unfolding start_drain
  Keeps-start_drain c = Keeps-bind _ _ (Keeps-drains H stack (asking_closed closed) c) λ opted_in.
      Keeps-if opted_in _ _
        (Keeps-bind _ _
          (Keeps-docker_cmd H stack T ("exec" ∷ c ∷ "touch" ∷ drain_file ∷ [])
            (λ r t. closed.add _ t refl))
          (λ _. search keeps_rules))
        (search keeps_rules)

  Keeps-drain_targets : (old : List String) → Keeps (Traced H T) (drain_targets H stack old)
  unfolding drain_targets
  Keeps-drain_targets [] = search keeps_rules
  Keeps-drain_targets (c ∷ old) =
      Keeps-bind _ _ (search (keeps_rules, Keeps-or_on_process_error, Keeps-start_drain))
        λ draining. search (keeps_rules, Keeps-drain_targets old)

  Keeps-await_drained :
      (fuel : ℕ) (targets : List String) (deadline poll : ℕ)
      → Keeps (Traced H T) (await_drained H stack fuel targets deadline poll)
  unfolding await_drained
  Keeps-await_drained zero targets deadline poll = search keeps_rules
  Keeps-await_drained (suc fuel) targets deadline poll =
      Keeps-bind _ _ (Keeps-map_exec _ targets working_health) λ states.
        Keeps-if (all has_failed states) _ _ (Keeps-pure tt) (
          Keeps-bind _ _ working_clock λ now. Keeps-if (leb deadline now) _ _ (Keeps-pure tt) (
            Keeps-bind _ _ (working_sleep poll)
              (λ _. Keeps-await_drained fuel targets deadline poll)))

  pub Keeps-drain_old :
      (fuel : ℕ) (old : List String) (timeout poll : ℕ)
      → Keeps (Traced H T) (drain_old H stack fuel old timeout poll)
  unfolding drain_old
  Keeps-drain_old fuel old timeout poll =
      search (keeps_rules, Keeps-drain_targets, working_clock, Keeps-await_drained) depth 8

  pub Keeps-new_containers :
      (svc : String) (old : List String) → Keeps (Traced H T) (new_containers H stack svc old)
  unfolding new_containers
  Keeps-new_containers svc old =
      search (keeps_rules, Keeps-all_containers H stack (asking_closed closed)) depth 8

  pub Keeps-scale_up :
      (svc : String) (old : List String) → Keeps (Traced H T) (scale_up H stack svc old)
  unfolding scale_up
  Keeps-scale_up svc old = Keeps-compose H stack T _ (λ r t. closed.add _ t refl)

  pub Keeps-any_running :
      (svc : String) (old : List String) → Keeps (Traced H T) (any_running H stack svc old)
  unfolding any_running
  Keeps-any_running svc [] = search keeps_rules
  Keeps-any_running svc (c ∷ old) =
      Keeps-bind _ _ (Keeps-running H stack (asking_closed closed) svc)
        λ ids. Keeps-if (contains ids c) _ _ (Keeps-pure true) (Keeps-any_running svc old)

  -- Stopping and removing containers keeps a property that those two calls do not break.
  module _ (cids : List String)
      (stop : (r : Result Failure String) (t : List Event)
        → T t
        → T (docker_call ("stop" ∷ cids) r ∷ t))
      (rm : (r : Result Failure String) (t : List Event)
        → T t
        → T (docker_call ("rm" ∷ cids) r ∷ t)) where
    pub Keeps-retire : Keeps (Traced H T) (retire H stack cids)
    unfolding retire
    Keeps-retire =
        Keeps-bind _ _ (Keeps-docker_cmd H stack T _ stop)
          λ _. Keeps-bind _ _ (Keeps-docker_cmd H stack T _ rm) λ _. Keeps-pure tt

    pub Keeps-abort : Keeps (Traced H T) (abort H stack cids)
    unfolding abort
    Keeps-abort = Keeps-bind _ _ (Keeps-read_logs cids) λ _.
        Keeps-if (cids == []) _ _ (Keeps-pure false)
          (Keeps-bind _ _ Keeps-retire (λ _. Keeps-pure false))
