-- ===== src/Compose/Handoff/Commands.antt =====
-- All the calls of a handoff: it keeps every property of traces that working calls, and the stopping
-- and removing of containers, cannot break.
use krg_infra.Prelude.{ℕ, String, Bool, true, false, List, ◌∷◌, ◌≡◌, refl}
use krg_infra.Effects.Triple.{
  Keeps, Keeps-pure, Keeps-bind, Keeps-if, Keeps-catch, Triple-weaken, Triple-of_Keeps,
}
use krg_infra.Compose.Docker.{
  Event, docker_call, compose_call, slept, spawned, wrote, replaced, Host, Stack,
}
use krg_infra.Compose.Docker.Footprint.{is_working, IsClosed, Traced}
use krg_infra.Compose.Docker.Asking.{Keeps-sleep}
use krg_infra.Compose.Handoff.{finish, handoff, cleanup, safe_handoff}
use krg_infra.Compose.Handoff.Working.{
  Keeps-drain_old, Keeps-retire, Keeps-abort, Keeps-any_running, Keeps-new_containers,
  Keeps-or_on_process_error,
}
use krg_infra.Compose.Handoff.Rule.{SparesRemoval, handoff_rule}

-- Whether an event is one of a handoff's: a call of docker or compose, or a wait.
abbrev pub is_command : Event → Bool
is_command (docker_call args r) = true
is_command e = is_working e

working_is_command : (e : Event) → is_working e ≡ true → is_command e ≡ true
working_is_command (docker_call args r) h = refl
working_is_command (compose_call args r) h = h
working_is_command (slept n) h = h
working_is_command (spawned args r) h = h
working_is_command (wrote path mounts r) h = h
working_is_command (replaced from to r) h = h

pub command_closed : {T : List Event → Type 0} → IsClosed is_command T → IsClosed is_working T
command_closed closed = record { add = λ e t h. closed.add e t (working_is_command e h) }

module _ (H : Host) (stack : Stack) {T : List Event → Type 0} (closed : IsClosed is_command T) where
  Keeps-finish :
      (fuel : ℕ) (old : List String) (timeout drain poll : ℕ)
      → Keeps (Traced H T) (finish H stack fuel old timeout drain poll)
  unfolding finish
  Keeps-finish fuel old timeout drain poll =
      Keeps-bind _ _ (Keeps-drain_old H stack (command_closed closed) fuel old timeout poll) λ _.
        Keeps-bind _ _ (Keeps-sleep H stack T drain (λ t. closed.add (slept drain) t refl)) λ _.
          Keeps-bind _ _
            (Keeps-retire H stack (command_closed closed) old
              (λ r t. closed.add (docker_call ("stop" ∷ old) r) t refl)
              (λ r t. closed.add (docker_call ("rm" ∷ old) r) t refl))
            λ _. Keeps-pure true

  Keeps-removal : (cids : List String) → SparesRemoval T cids
  Keeps-removal cids = record {
    stop = λ r t. closed.add (docker_call ("stop" ∷ cids) r) t refl;
    rm = λ r t. closed.add (docker_call ("rm" ∷ cids) r) t refl;
  }

  Keeps-handoff :
      (fuel : ℕ) (svc : String) (old : List String) (timeout drain poll : ℕ)
      → Keeps (Traced H T) (handoff H stack fuel svc old timeout drain poll)
  Keeps-handoff fuel svc old timeout drain poll = record {
    at =
        (handoff_rule H stack svc old T (λ _. T) (command_closed closed)
          (λ new _. Keeps-removal new) (λ r t _ h. h) fuel timeout drain poll
          (λ new _ _.
            Triple-weaken _ (λ w h. h.0.0) (λ r w h. h)
              (Triple-of_Keeps (Keeps-finish fuel old timeout drain poll)))).at;
  }

  Keeps-cleanup : (svc : String) (old : List String) → Keeps (Traced H T) (cleanup H stack svc old)
  unfolding cleanup
  Keeps-cleanup svc old =
      Keeps-bind _ _ (Keeps-any_running H stack (command_closed closed) svc old) λ serving.
        Keeps-if serving _ _
          (Keeps-bind _ _ (Keeps-new_containers H stack (command_closed closed) svc old) λ new.
            let spare = Keeps-removal new in
            Keeps-abort H stack (command_closed closed) new spare.stop spare.rm)
          (Keeps-pure false)

  pub Keeps-safe_handoff :
      (fuel : ℕ) (svc : String) (old : List String) (timeout drain poll : ℕ)
      → Keeps (Traced H T) (safe_handoff H stack fuel svc old timeout drain poll)
  unfolding safe_handoff
  Keeps-safe_handoff fuel svc old timeout drain poll =
      Keeps-catch _ _ (Keeps-handoff fuel svc old timeout drain poll)
        λ _. Keeps-catch _ _ (Keeps-cleanup svc old) (λ e. Keeps-or_on_process_error false e)
