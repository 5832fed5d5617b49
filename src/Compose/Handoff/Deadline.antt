-- ===== src/Compose/Handoff/Deadline.antt =====
-- The waiting loops end by their deadline: fuel for the polls that fit before it is enough.
use krg_infra.Prelude.{
  ℕ, zero, suc, ◌+◌, ◌*◌, ◌≤◌, String, Bool, false, List, [], ◌∷◌, ◌≡◌, ◌≢◌, refl, arith, list_eq,
  text_eq, nat_eq, all, any, leb, if◌then◌else◌,
}
use krg_infra.Effects.{Result, ok, raised, pure, map_exec, gets, ◌>>=◌, ◌>>◌}
use krg_infra.Effects.Triple.{Triple, Triple-bind, Triple-if, Triple-weaken}
use krg_infra.Compose.Docker
use krg_infra.Compose.Docker.{
  Failure, called_process_error, timeout_expired, other_error, fuel_spent, Host, World, Run, Stack,
  call_timeout,
}
use krg_infra.Compose.Handoff.{is_ready, has_failed, await_ready, await_drained}

-- What Python documents of its clock and of `time.sleep`: a monotonic clock cannot go backwards
-- while a command runs, and a sleep lasts at least as long as it is told to. No command raises the
-- model's own failure.
pub record KeepsTime (H : Host) : Type 0 where
  pub run_later :
      (args : List String) (stderr : Bool) (timeout : ℕ) (s : H.State)
      → H.now s ≤ H.now (H.run args stderr timeout s).1
  pub sleep_later : (ticks : ℕ) (s : H.State) → H.now s + ticks ≤ H.now (H.sleep ticks s)
  pub run_honest :
      (args : List String) (stderr : Bool) (timeout : ℕ) (s : H.State)
      → (H.run args stderr timeout s).0 ≢ raised fuel_spent

-- A reading of the clock.
abbrev Read : (H : Host) → Result Failure ℕ → World H → Type 0
Read H (ok now) w = now ≡ H.now w.host
Read H (raised e) w = ⊥

module _ (H : Host) (stack : Stack) (time : KeepsTime H) (bound : ℕ) where
  -- The clock, with what is still to be waited, has reached a bound; and the fuel is not spent.
  abbrev Near : ℕ → World H → Type 0
  Near left w = bound ≤ H.now w.host + left

  pub docker-Near :
      (left : ℕ) (args : List String)
      → Triple
          (Near left)
          (Docker.docker_cmd H stack args)
          (λ r w. Near left w × (r ≢ raised fuel_spent))
  unfolding Docker.docker_cmd
  docker-Near left args = record {
    at = λ w h.
        let later = time.run_later (stack.docker ∷ args) false call_timeout w.host in
        (omega (arith, h, later), time.run_honest (stack.docker ∷ args) false call_timeout w.host);
  }

  health-Near :
      (left : ℕ) (c : String)
      → Triple (Near left) (Docker.health H stack c) (λ r w. Near left w × (r ≢ raised fuel_spent))
  unfolding Docker.health ◌>>=◌
  health-Near left c =
      Triple-bind _ _ _ (docker-Near left _) (λ out. record { at = λ w h. (h.0, λ p. cc) })
        (λ e w h. (h.0, λ p. h.1 (cc p)))

  map_health-Near :
      (left : ℕ) (cids : List String)
      → Triple
          (Near left)
          (map_exec (Docker.health H stack) cids)
          (λ r w. Near left w × (r ≢ raised fuel_spent))
  unfolding map_exec ◌>>=◌
  map_health-Near left [] = record { at = λ w h. (h, λ p. cc) }
  map_health-Near left (c ∷ cids) =
      Triple-bind _ _ _ (health-Near left c)
        (λ state.
          Triple-bind (λ r w. Near left w × (r ≢ raised fuel_spent)) _ _
            (Triple-weaken _ (λ w h. h.0) (λ r w h. h) (map_health-Near left cids))
            (λ states. record { at = λ w h. (h.0, λ p. cc) }) (λ e w h. (h.0, λ p. h.1 (cc p))))
        (λ e w h. (h.0, λ p. h.1 (cc p)))

  clock-Near :
      (left : ℕ) → Triple (Near left) (Docker.clock H stack) (λ r w. Near left w × Read H r w)
  unfolding Docker.clock gets
  clock-Near left = record { at = λ w h. (h, refl) }

  sleep-Near :
      (left ticks : ℕ)
      → Triple
          (Near (left + ticks))
          (Docker.sleep H stack ticks)
          (λ r w. Near left w × (r ≢ raised fuel_spent))
  unfolding Docker.sleep
  sleep-Near left ticks = record {
    at = λ w h. (omega (arith, h, time.sleep_later ticks w.host), λ p. cc);
  }

module _ (H : Host) (stack : Stack) (time : KeepsTime H) {A : Type 0} (deadline poll : ℕ) (b : A)
    (rest : Run H A) (now : ℕ) where
  -- The end of a round: the deadline has passed, or the loop waits and goes on.
  abbrev round_end : Run H A
  round_end = if leb deadline now then pure b else (do Docker.sleep H stack poll; rest)

  last_round :
      Triple
        (λ w. Near H stack time deadline 0 w × (now ≡ H.now w.host))
        round_end
        (λ r w. r ≢ raised fuel_spent)
  unfolding ◌>>=◌
  last_round = record { at = λ w (near, read). ground arith }

  next_round :
      (left : ℕ)
      → Triple (Near H stack time deadline left) rest (λ r w. r ≢ raised fuel_spent)
      → Triple
          (λ w. Near H stack time deadline (left + poll) w × (now ≡ H.now w.host))
          round_end
          (λ r w. r ≢ raised fuel_spent)
  unfolding pure
  next_round left more =
      Triple-if (leb deadline now) _ _ (λ _. record { at = λ w h p. cc })
        (λ _.
          Triple-bind _ _ _
            (Triple-weaken _ (λ w h. h.0) (λ r w h. h) (sleep-Near H stack time deadline left poll))
            (λ _. Triple-weaken _ (λ w h. h.0) (λ r w h. h) more) (λ e w h p. h.1 (cc p)))

module _ (H : Host) (stack : Stack) (time : KeepsTime H) (fuel deadline poll left : ℕ) where
  await_ready_round :
      (new : List String)
      → ((now : ℕ)
          → Triple
              (λ w. Near H stack time deadline left w × (now ≡ H.now w.host))
              (round_end H stack time deadline poll false
                (await_ready H stack fuel new deadline poll)
                now)
              (λ r w. r ≢ raised fuel_spent))
      → Triple
          (Near H stack time deadline left)
          (await_ready H stack (suc fuel) new deadline poll)
          (λ r w. r ≢ raised fuel_spent)
  unfolding await_ready pure
  await_ready_round new goes_on =
      Triple-bind _ _ _ (map_health-Near H stack time deadline left new)
        (λ states.
          Triple-if (all is_ready states) _ _ (λ _. record { at = λ w h p. cc })
            (λ _.
              Triple-if (any has_failed states) _ _ (λ _. record { at = λ w h p. cc })
                (λ _.
                  Triple-bind _ _ _
                    (Triple-weaken _ (λ w h. h.0) (λ r w h. h)
                      (clock-Near H stack time deadline left))
                    goes_on (λ e w h p. absurd h.1))))
        (λ e w h p. h.1 (cc p))

  await_drained_round :
      (targets : List String)
      → ((now : ℕ)
          → Triple
              (λ w. Near H stack time deadline left w × (now ≡ H.now w.host))
              (round_end H stack time deadline poll tt
                (await_drained H stack fuel targets deadline poll)
                now)
              (λ r w. r ≢ raised fuel_spent))
      → Triple
          (Near H stack time deadline left)
          (await_drained H stack (suc fuel) targets deadline poll)
          (λ r w. r ≢ raised fuel_spent)
  unfolding await_drained pure
  await_drained_round targets goes_on =
      Triple-bind _ _ _ (map_health-Near H stack time deadline left targets)
        (λ states.
          Triple-if (all has_failed states) _ _ (λ _. record { at = λ w h p. cc })
            (λ _.
              Triple-bind _ _ _
                (Triple-weaken _ (λ w h. h.0) (λ r w h. h) (clock-Near H stack time deadline left))
                goes_on (λ e w h p. absurd h.1)))
        (λ e w h p. h.1 (cc p))

module _ (H : Host) (stack : Stack) (time : KeepsTime H) where
  -- Fuel for one more round than the polls that fit before the deadline is enough to decide
  -- whether the new containers become ready.
  pub await_ready_total :
      (fuel : ℕ) (new : List String) (deadline poll : ℕ)
      → Triple
          (λ w. deadline ≤ H.now w.host + fuel * poll)
          (await_ready H stack (suc fuel) new deadline poll)
          (λ r w. r ≢ raised fuel_spent)
  await_ready_total zero new deadline poll =
      Triple-weaken _ (λ w h. omega (arith, h)) (λ r w h. h)
        (await_ready_round H stack time zero deadline poll 0 new
          (λ now. last_round H stack time deadline poll false _ now))
  await_ready_total (suc fuel) new deadline poll =
      Triple-weaken _ (λ w h. grind arith) (λ r w h. h)
        (await_ready_round H stack time (suc fuel) deadline poll (fuel * poll + poll) new (λ now.
          next_round H stack time deadline poll false _ now (fuel * poll)
            (await_ready_total fuel new deadline poll)))

  pub await_drained_total :
      (fuel : ℕ) (targets : List String) (deadline poll : ℕ)
      → Triple
          (λ w. deadline ≤ H.now w.host + fuel * poll)
          (await_drained H stack (suc fuel) targets deadline poll)
          (λ r w. r ≢ raised fuel_spent)
  await_drained_total zero targets deadline poll =
      Triple-weaken _ (λ w h. omega (arith, h)) (λ r w h. h)
        (await_drained_round H stack time zero deadline poll 0 targets
          (λ now. last_round H stack time deadline poll tt _ now))
  await_drained_total (suc fuel) targets deadline poll =
      Triple-weaken _ (λ w h. grind arith) (λ r w h. h)
        (await_drained_round H stack time (suc fuel) deadline poll (fuel * poll + poll) targets
          (λ now.
            next_round H stack time deadline poll tt _ now (fuel * poll)
              (await_drained_total fuel targets deadline poll)))
