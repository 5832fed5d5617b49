-- ===== src/Compose/Handoff/Completion.antt =====
-- What a successful handoff has done.
use krg_infra.Prelude.{ℕ, String, true, false, List, ◌∷◌, ◌≡◌, refl, ap, length}
use krg_infra.Effects.{Result, ok, ◌>>=◌}
use krg_infra.Effects.Triple.{Triple, Triple-bind, Triple-of_Keeps, Triple-weaken}
use krg_infra.Compose.Docker
use krg_infra.Compose.Docker.{Failure, Event, docker_call, slept, Host, World, Run, Stack}
use krg_infra.Compose.Docker.Footprint.{is_working, IsClosed, Traced}
use krg_infra.Compose.Handoff.{finish, handoff, retire}
use krg_infra.Compose.Handoff.Working.{Keeps-drain_old}
use krg_infra.Compose.Handoff.Seen.{AllSeen, AllSeen-cons}
use krg_infra.Compose.Handoff.Listed.{IsListed, IsListed-cons}
use krg_infra.Compose.Handoff.Rule.{overlaps, handoff_rule}

-- The last events are a wait and the two calls that retire the old containers, both without an
-- error. Before them, a listing has shown as many other containers, and each has been seen ready.
pub record Completed (svc : String) (old : List String) (drain : ℕ) (trace : List Event)
    : Type 0 where
  pub new : List String
  pub before : List Event
  pub stop_output : String
  pub rm_output : String
  pub last :
      trace
      ≡ docker_call ("rm" ∷ old) (ok rm_output)
        ∷ docker_call ("stop" ∷ old) (ok stop_output)
        ∷ slept drain
        ∷ before
  pub same_number : length new ≡ length old
  pub are_new : overlaps old new ≡ false
  pub listed : IsListed svc old new before
  pub ready : AllSeen new before

module _ (svc : String) (old new : List String) (drain : ℕ) where
  -- The new containers have been listed and seen.
  abbrev Replacing : List Event → Type 0
  Replacing t = IsListed svc old new t × AllSeen new t

  Replacing-closed : IsClosed is_working Replacing
  Replacing-closed = record {
    add = λ e t _ (listed, seen). (IsListed-cons svc old new e t listed, AllSeen-cons new e t seen);
  }

  abbrev Waited : List Event → Type 0
  Waited t = (before : List Event) × (t ≡ slept drain ∷ before) × Replacing before

  abbrev Stopped : Result Failure String → List Event → Type 0
  Stopped r t =
      (before : List Event) × (t ≡ docker_call ("stop" ∷ old) r ∷ slept drain ∷ before)
      × Replacing before

  abbrev Removed : String → Result Failure String → List Event → Type 0
  Removed out r t =
      (before : List Event) × (t
        ≡ docker_call ("rm" ∷ old) r ∷ docker_call ("stop" ∷ old) (ok out) ∷ slept drain ∷ before)
      × Replacing before

module _ (H : Host) (stack : Stack) (svc : String) (old new : List String) (drain : ℕ)
    (fresh : overlaps old new ≡ false) (same : length new ≡ length old) where
  sleep-Waited :
      Triple
        (Traced H (Replacing svc old new drain))
        (Docker.sleep H stack drain)
        (λ _ w. Waited svc old new drain w.trace)
  unfolding Docker.sleep
  sleep-Waited = record { at = λ w h. (w.trace, refl, h) }

  stop-Stopped :
      Triple
        (λ w. Waited svc old new drain w.trace)
        (Docker.docker_cmd H stack ("stop" ∷ old))
        (λ r w. Stopped svc old new drain r w.trace)
  unfolding Docker.docker_cmd
  stop-Stopped = record {
    at = λ w h.
        let r = (Docker.docker_cmd H stack ("stop" ∷ old) w).0 in
        (h.0, ap (λ t. docker_call ("stop" ∷ old) r ∷ t) h.1, h.2);
  }

  rm-Removed :
      (out : String)
      → Triple
          (λ w. Stopped svc old new drain (ok out) w.trace)
          (Docker.docker_cmd H stack ("rm" ∷ old))
          (λ r w. Removed svc old new drain out r w.trace)
  unfolding Docker.docker_cmd
  rm-Removed out = record {
    at = λ w h.
        let r = (Docker.docker_cmd H stack ("rm" ∷ old) w).0 in
        (h.0, ap (λ t. docker_call ("rm" ∷ old) r ∷ t) h.1, h.2);
  }

  retire-Completed :
      Triple
        (λ w. Waited svc old new drain w.trace)
        (retire H stack old)
        (λ r w. r ≡ ok tt → Completed svc old drain w.trace)
  unfolding retire ◌>>=◌
  retire-Completed =
      Triple-bind _ _ _ stop-Stopped
        (λ out.
          Triple-bind _ _ _ (rm-Removed out)
            (λ out'. record {
              at = λ w h p. record {
                new = new;
                before = h.0;
                stop_output = out;
                rm_output = out';
                last = h.1;
                same_number = same;
                are_new = fresh;
                listed = h.2.0;
                ready = h.2.1;
              };
            })
            (λ e w h p. cc))
        (λ e w h p. cc)

  finish-Completed :
      (fuel timeout poll : ℕ)
      → Triple
          (Traced H (Replacing svc old new drain))
          (finish H stack fuel old timeout drain poll)
          (λ r w. r ≡ ok true → Completed svc old drain w.trace)
  unfolding finish ◌>>=◌
  finish-Completed fuel timeout poll =
      Triple-bind (λ _ w. Replacing svc old new drain w.trace) _ _
        (Triple-of_Keeps
          (Keeps-drain_old H stack (Replacing-closed svc old new drain) fuel old timeout poll))
        (λ _.
          Triple-bind (λ _ w. Waited svc old new drain w.trace) _ _ sleep-Waited
            (λ _.
              Triple-bind (λ r w. r ≡ ok tt → Completed svc old drain w.trace) _ _ retire-Completed
                (λ u. record { at = λ w h _. h refl }) (λ e w h p. cc))
            (λ e w h p. cc))
        (λ e w h p. cc)

module _ (H : Host) (stack : Stack) (fuel : ℕ) (svc : String) (old : List String)
    (timeout drain poll : ℕ) (w : World H) where
  -- A handoff that reports success ends with a wait of the drain time and with the stop and the
  -- removal of the old containers, neither of which failed; before that wait, a listing of the
  -- service's containers has shown as many others as there were old ones, and each of those others
  -- has been reported running and healthy.
  pub handoff-Completed :
      (handoff H stack fuel svc old timeout drain poll w).0 ≡ ok true
      → Completed svc old drain (handoff H stack fuel svc old timeout drain poll w).1.trace
  handoff-Completed =
      (handoff_rule H stack svc old (λ _. Unit {0}) (λ r t. r ≡ ok true → Completed svc old drain t)
          (record { add = λ e t h u. tt })
          (λ new fresh. record { stop = λ r t h. tt; rm = λ r t h. tt })
          (λ r t no _ p. absurd (no p)) fuel timeout drain poll
          (λ new fresh same.
            Triple-weaken _ (λ w h. (h.0.1, h.1)) (λ r w h. h)
              (finish-Completed H stack svc old new drain fresh same fuel timeout poll))).at
        w tt
