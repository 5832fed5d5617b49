-- ===== src/Compose/Handoff/Seen.antt =====
-- `await_ready` says yes only once the health of every new container has been read as ready.
use krg_infra.Prelude.{
  ℕ, zero, suc, String, Bool, true, false, ◌&&◌, List, [], ◌∷◌, ◌≡◌, arith, ◌==◌, list_eq, text_eq,
  beq_refl, and-eq-true, any, all, All, leb,
}
use krg_infra.Text.{split}
use krg_infra.Effects.{Result, ok, raised, map_exec, ◌>>=◌}
use krg_infra.Effects.Triple.{
  Triple, Triple-bind, Triple-if, Triple-and, Triple-of_Keeps, Triple-weaken, Keeps-map_exec,
}
use krg_infra.Compose.Docker
use krg_infra.Compose.Docker.{
  Failure, Event, docker_call, Host, World, Run, Stack, health_words, health_format,
}
use krg_infra.Compose.Docker.Footprint.{is_asking, IsClosed}
use krg_infra.Compose.Docker.Asking.{Keeps-health}
use krg_infra.Compose.Handoff.{is_ready, has_failed, await_ready}

-- Whether a call of docker has failed to give a report, or has reported a container ready.
abbrev pub reports_ready : Result Failure String → Bool
reports_ready (ok out) = is_ready (health_words (split out))
reports_ready (raised e) = false

abbrev pub seen_ready : String → Event → Bool
seen_ready c (docker_call args r) =
    args == "inspect" ∷ "--format" ∷ health_format ∷ c ∷ [] && reports_ready r
seen_ready c _ = false

-- The trace holds a report that each of the containers is ready.
abbrev pub AllSeen : List String → List Event → Type 0
AllSeen new trace = All (λ c. any (seen_ready c) trace ≡ true) new

pub AllSeen-cons :
    (new : List String) (e : Event) (trace : List Event)
    → AllSeen new trace
    → AllSeen new (e ∷ trace)
AllSeen-cons [] e trace h = tt
AllSeen-cons (c ∷ new) e trace h = (ground arith, AllSeen-cons new e trace h.1)

-- One report, by its result.
abbrev OneSeen : String → Result Failure (String × String) → List Event → Type 0
OneSeen c (ok state) trace = is_ready state ≡ true → any (seen_ready c) trace ≡ true
OneSeen c (raised e) trace = Unit

-- The reports of a list of containers, by their results.
abbrev ListSeen : List String → Result Failure (List (String × String)) → List Event → Type 0
ListSeen new (ok states) trace = all is_ready states ≡ true → AllSeen new trace
ListSeen new (raised e) trace = Unit

OneSeen-closed : (c : String) (state : String × String) → IsClosed is_asking (OneSeen c (ok state))
OneSeen-closed c state = record { add = λ e t k h p. let seen = h p in ground arith }

module _ (H : Host) (stack : Stack) where
  inspect-seen :
      (c : String)
      → Triple
          (λ _. Unit {0})
          (Docker.docker_cmd H stack ("inspect" ∷ "--format" ∷ health_format ∷ c ∷ []))
          (λ r w. reports_ready r ≡ true → any (seen_ready c) w.trace ≡ true)
  unfolding Docker.docker_cmd
  inspect-seen c = record { at = λ w h p. ground (arith, beq_refl c) }

  health-OneSeen :
      (c : String) → Triple (λ _. Unit {0}) (Docker.health H stack c) (λ r w. OneSeen c r w.trace)
  unfolding Docker.health ◌>>=◌
  health-OneSeen c =
      Triple-bind _ _ _ (inspect-seen c) (λ out. record { at = λ w h. h }) (λ e w h. tt)

  map_health-ListSeen :
      (new : List String)
      → Triple
          (λ _. Unit {0})
          (map_exec (Docker.health H stack) new)
          (λ r w. ListSeen new r w.trace)
  unfolding map_exec ◌>>=◌
  map_health-ListSeen [] = record { at = λ w h _. tt }
  map_health-ListSeen (c ∷ new) =
      Triple-bind (λ r w. OneSeen c r w.trace) _ _ (health-OneSeen c)
        (λ state.
          Triple-bind (λ r w. OneSeen c (ok state) w.trace × ListSeen new r w.trace) _ _
            (Triple-and
              (Triple-of_Keeps
                (Keeps-map_exec _ new (Keeps-health H stack (OneSeen-closed c state))))
              (Triple-weaken _ (λ w h. tt) (λ r w h. h) (map_health-ListSeen new)))
            (λ states. record {
              at = λ w h p. let (now, later) = and-eq-true _ _ p in (h.0 now, h.1 later);
            })
            (λ e w h. tt))
        (λ e w h. tt)

  -- The answer "ready" stands behind a report of each container.
  pub await_ready-AllSeen :
      (fuel : ℕ) (new : List String) (deadline poll : ℕ)
      → Triple
          (λ _. Unit {0})
          (await_ready H stack fuel new deadline poll)
          (λ r w. r ≡ ok true → AllSeen new w.trace)
  unfolding await_ready ◌>>=◌
  await_ready-AllSeen zero new deadline poll = record { at = λ w h p. cc }
  await_ready-AllSeen (suc fuel) new deadline poll =
      Triple-bind (λ r w. ListSeen new r w.trace) _ _ (map_health-ListSeen new)
        (λ states.
          Triple-if (all is_ready states) _ _ (λ ready. record { at = λ w h _. h ready })
            (λ _.
              Triple-if (any has_failed states) _ _ (λ _. record { at = λ w h p. cc })
                (λ _.
                  Triple-bind (λ _ _. Unit {0}) _ _ (record { at = λ w h. tt })
                    (λ now.
                      Triple-if (leb deadline now) _ _ (λ _. record { at = λ w h p. cc })
                        (λ _.
                          Triple-bind (λ _ _. Unit {0}) _ _ (record { at = λ w h. tt })
                            (λ _. await_ready-AllSeen fuel new deadline poll) (λ e w h p. cc)))
                    (λ e w h p. cc))))
        (λ e w h p. cc)
