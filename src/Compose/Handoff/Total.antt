-- ===== src/Compose/Handoff/Total.antt =====
-- `handoff` and `_safe_handoff` end: with fuel for the polls that fit into the timeout, no loop of
-- theirs runs out of it.
use krg_infra.Prelude.{
  ℕ, suc, ◌+◌, ◌*◌, ◌≤◌, String, true, false, not, List, [], ◌∷◌, ◌≢◌, arith, ◌==◌, list_eq,
  text_eq, nat_eq, contains, length, if◌then◌else◌,
}
use krg_infra.Effects.{raised, ◌>>=◌}
use krg_infra.Effects.Triple.{Triple, Triple-bind}
use krg_infra.Compose.Docker
use krg_infra.Compose.Docker.{
  Failure, called_process_error, timeout_expired, other_error, fuel_spent, Host, World, Run, Stack,
  call_timeout, drain_file,
}
use krg_infra.Compose.Handoff.{
  read_logs, retire, abort, await_ready, await_drained, start_drain, drain_targets, drain_old,
  new_containers, scale_up, finish, handoff, any_running, cleanup, safe_handoff,
}
use krg_infra.Compose.Handoff.Fuel.{
  IsTotal, IsTotal-pure, IsTotal-if, IsTotal-catch, IsTotal-or_on_process_error, IsTotal-bind,
  total_rules,
}
use krg_infra.Compose.Handoff.Deadline.{KeepsTime, await_ready_total, await_drained_total}

module _ (H : Host) (stack : Stack) (time : KeepsTime H) where
  IsTotal-docker : (args : List String) → IsTotal (Docker.docker_cmd H stack args)
  unfolding Docker.docker_cmd
  IsTotal-docker args = record {
    at = λ w. time.run_honest (stack.docker ∷ args) false call_timeout w.host;
  }

  IsTotal-compose : (args : List String) → IsTotal (Docker.compose H stack args)
  unfolding Docker.compose
  IsTotal-compose args = record { at = λ w. time.run_honest _ false call_timeout w.host }

  IsTotal-sleep : (n : ℕ) → IsTotal (Docker.sleep H stack n)
  unfolding Docker.sleep
  IsTotal-sleep n = record { at = λ w p. cc }

  IsTotal-running : (svc : String) → IsTotal (Docker.running H stack svc)
  unfolding Docker.running
  IsTotal-running svc = search (total_rules, IsTotal-compose) depth 8

  IsTotal-read_logs : (new : List String) → IsTotal (read_logs H stack new)
  unfolding read_logs
  IsTotal-read_logs [] = search total_rules
  IsTotal-read_logs (c ∷ new) =
      IsTotal-bind _ _ (search (total_rules, IsTotal-docker) depth 8) (λ _. IsTotal-read_logs new)

  IsTotal-retire : (cids : List String) → IsTotal (retire H stack cids)
  unfolding retire
  IsTotal-retire cids = search (total_rules, IsTotal-docker) depth 8

  IsTotal-abort : (new : List String) → IsTotal (abort H stack new)
  unfolding abort
  IsTotal-abort new = search (total_rules, IsTotal-read_logs, IsTotal-retire) depth 8

  IsTotal-drain_targets : (old : List String) → IsTotal (drain_targets H stack old)
  unfolding drain_targets start_drain Docker.drains
  IsTotal-drain_targets [] = search total_rules
  IsTotal-drain_targets (c ∷ old) =
      IsTotal-bind _ _ (search (total_rules, IsTotal-docker) depth 10)
        (λ draining. IsTotal-bind _ _ (IsTotal-drain_targets old) (λ targets. search total_rules))

  IsTotal-new_containers :
      (svc : String) (old : List String) → IsTotal (new_containers H stack svc old)
  unfolding new_containers Docker.all_containers
  IsTotal-new_containers svc old = search (total_rules, IsTotal-compose) depth 8

  IsTotal-any_running : (svc : String) (old : List String) → IsTotal (any_running H stack svc old)
  unfolding any_running
  IsTotal-any_running svc [] = search total_rules
  IsTotal-any_running svc (c ∷ old) =
      IsTotal-bind _ _ (IsTotal-running svc)
        (λ ids. IsTotal-if (contains ids c) _ _ (IsTotal-pure true) (IsTotal-any_running svc old))

  IsTotal-cleanup : (svc : String) (old : List String) → IsTotal (cleanup H stack svc old)
  unfolding cleanup
  IsTotal-cleanup svc old =
      search (total_rules, IsTotal-any_running, IsTotal-new_containers, IsTotal-abort) depth 8

  module _ (fuel timeout poll : ℕ) (enough : timeout ≤ fuel * poll) where
    -- The deadline is read off the clock just before the loop begins.
    deadline-IsTotal :
        {A : Type 0} (loop : ℕ → Run H A)
        → ((deadline : ℕ)
            → Triple
                (λ w. deadline ≤ H.now w.host + fuel * poll)
                (loop deadline)
                (λ r w. r ≢ raised fuel_spent))
        → IsTotal (Docker.clock H stack >>= λ now. loop (now + timeout))
    unfolding Docker.clock ◌>>=◌
    deadline-IsTotal loop ends = record {
      at = λ w. (ends (H.now w.host + timeout)).at w (omega (arith, enough));
    }

    IsTotal-drain_old :
        (old : List String) → IsTotal (drain_old H stack (suc fuel) old timeout poll)
    unfolding drain_old
    IsTotal-drain_old old = IsTotal-bind _ _ (IsTotal-drain_targets old) (λ targets.
        IsTotal-if (targets == []) _ _ (IsTotal-pure tt) (
          deadline-IsTotal (λ deadline. await_drained H stack (suc fuel) targets deadline poll)
            (λ deadline. await_drained_total H stack time fuel targets deadline poll)))

    IsTotal-finish :
        (old : List String) (drain : ℕ) → IsTotal (finish H stack (suc fuel) old timeout drain poll)
    unfolding finish
    IsTotal-finish old drain =
        search (total_rules, IsTotal-drain_old, IsTotal-sleep, IsTotal-retire) depth 8

    IsTotal-supervise :
        (old new : List String) (drain : ℕ)
        → IsTotal (do
          now ← Docker.clock H stack
          ready ← await_ready H stack (suc fuel) new (now + timeout) poll
          if ready then finish H stack (suc fuel) old timeout drain poll else abort H stack new)
    IsTotal-supervise old new drain =
        deadline-IsTotal
          (λ deadline. do
            ready ← await_ready H stack (suc fuel) new deadline poll
            if ready then finish H stack (suc fuel) old timeout drain poll else abort H stack new)
          (λ deadline.
            Triple-bind _ _ _ (await_ready_total H stack time fuel new deadline poll)
              (λ ready. record {
                at = λ w h.
                    (IsTotal-if ready _ _ (IsTotal-finish old drain) (IsTotal-abort new)).at w;
              })
              (λ e w h p. h (cc p)))

    IsTotal-handoff :
        (svc : String) (old : List String) (drain : ℕ)
        → IsTotal (handoff H stack (suc fuel) svc old timeout drain poll)
    unfolding handoff scale_up
    IsTotal-handoff svc old drain = IsTotal-bind _ _ (IsTotal-compose _) (λ _.
        IsTotal-bind _ _ (IsTotal-new_containers svc old) (λ new.
          IsTotal-if (not (length new == length old)) _ _ (IsTotal-abort new)
            (IsTotal-supervise old new drain)))

    IsTotal-safe_handoff :
        (svc : String) (old : List String) (drain : ℕ)
        → IsTotal (safe_handoff H stack (suc fuel) svc old timeout drain poll)
    unfolding safe_handoff
    IsTotal-safe_handoff svc old drain =
        IsTotal-catch _ _ (IsTotal-handoff svc old drain)
          (λ _ _. IsTotal-catch _ _ (IsTotal-cleanup svc old) (IsTotal-or_on_process_error false))

module _ (H : Host) (stack : Stack) (fuel : ℕ) (svc : String) (old : List String)
    (timeout drain poll : ℕ) (w : World H) where
  -- On a host whose clock keeps time, fuel for one round more than the polls that fit into the
  -- timeout is enough for a handoff, and for `_safe_handoff`: neither ends by spent fuel.
  pub handoff_total :
      KeepsTime H
      → timeout ≤ fuel * poll
      → ((handoff H stack (suc fuel) svc old timeout drain poll w).0 ≢ raised fuel_spent)
        × ((safe_handoff H stack (suc fuel) svc old timeout drain poll w).0 ≢ raised fuel_spent)
  handoff_total time enough = (
    (IsTotal-handoff H stack time fuel timeout poll enough svc old drain).at w,
    (IsTotal-safe_handoff H stack time fuel timeout poll enough svc old drain).at w,
  )
