-- ===== src/Compose/Reload/Steps.antt =====
-- What the steps of `main` add to the trace.
use krg_infra.Prelude.{
  ℕ, zero, suc, String, ◌<>◌, true, not, List, [], ◌∷◌, ◌++◌, ◌≡◌, refl, ◌==◌, if◌then◌else◌,
  text_eq, list_eq, All, Bool-cases, inl, inr,
}
use krg_infra.Effects.{Result, ok, raised, pure, ◌>>=◌}
use krg_infra.Effects.Triple.{
  Triple, Triple-bind, Triple-if, Triple-of_Keeps, Triple-weaken, Keeps, Keeps-pure, Keeps-bind,
  Keeps-if, keeps_rules,
}
use krg_infra.Compose.Docker
use krg_infra.Compose.Docker.{
  Failure, Event, compose_call, docker_call, slept, spawned, wrote, replaced, Mounts, Specs, Host,
  World, Run, Stack,
}
use krg_infra.Compose.Docker.Footprint.{is_asking, IsClosed, Traced}
use krg_infra.Compose.Docker.Asking.{Keeps-specs}
use krg_infra.Compose.Handoff.Commands.{is_command, Keeps-safe_handoff}
use krg_infra.Compose.Mounts.{Files, state_of}
use krg_infra.Compose.Mounts.Saving.{save_state-Triple}
use krg_infra.Compose.Reload.{
  Args, read_mounts, read_state, hand_off_all, recreate_in_place, save, bring_up, apply_changes,
}

-- No compose command of `main` itself has been run, and no state file touched.
abbrev pub Untouched : List Event → Type 0
Untouched = All (λ e. is_command e ≡ true)

-- Nothing but queries, downloads, builds and dry runs.
abbrev pub Asked : List Event → Type 0
Asked = All (λ e. is_asking e ≡ true)

abbrev pub final_up : List String
final_up = "up" ∷ "--detach" ∷ "--remove-orphans" ∷ []

abbrev pub recreation : List String → List Event
recreation recreate =
    if recreate == []
    then []
    else spawned ("up" ∷ "--detach" ∷ "--no-deps" ∷ "--force-recreate" ∷ recreate) (ok tt) ∷ []

abbrev pub saving : String → Mounts → List Event
saving state mounts =
    if state == ""
    then []
    else replaced (state <> ".tmp") state (ok tt)
      ∷ wrote (state <> ".tmp") (state_of mounts) (ok tt)
      ∷ []

-- The end of a reload that succeeds, the last first: the saving of the state, the final `up`, and
-- the recreation in place, none of which failed.
abbrev pub BroughtUp : String → Mounts → List String → List Event → Type 0
BroughtUp state mounts recreate trace =
    (before : List Event) × (trace
      ≡ saving state mounts ++ (spawned final_up (ok tt) ∷ (recreation recreate ++ before)))
    × Untouched before

-- What an exit code behind the handoffs means: success, or that nothing but handoffs was done.
abbrev pub ExitOf : Args → Mounts → List String → Result Failure ℕ → List Event → Type 0
ExitOf args mounts recreate (ok zero) t = BroughtUp args.state mounts recreate t
ExitOf args mounts recreate (ok (suc n)) t = Untouched t
ExitOf args mounts recreate (raised e) t = Unit

join_trace :
    (state : String) (mounts : Mounts) (recreate : List String) (trace t u before : List Event)
    → trace ≡ saving state mounts ++ t
    → t ≡ spawned final_up (ok tt) ∷ u
    → u ≡ recreation recreate ++ before
    → trace ≡ saving state mounts ++ (spawned final_up (ok tt) ∷ (recreation recreate ++ before))
join_trace state mounts recreate trace t u before last up first = rw (last, up, first)

asking_is_command : (e : Event) → is_asking e ≡ true → is_command e ≡ true
asking_is_command (docker_call args r) h = refl
asking_is_command (compose_call args r) h = refl
asking_is_command _ h = cc

pub Untouched-command : IsClosed is_command Untouched
Untouched-command = record { add = λ e t h k. (h, k) }

pub Untouched-asking : IsClosed is_asking Untouched
Untouched-asking = record { add = λ e t h k. (asking_is_command e h, k) }

pub Asked-asking : IsClosed is_asking Asked
Asked-asking = record { add = λ e t h k. (h, k) }

module _ (H : Host) (files : Files) (stack : Stack) where
  pub Keeps-read_mounts :
      (T : List Event → Type 0)
      → IsClosed is_asking T
      → (state : String) → Keeps (Traced H T) (read_mounts H files stack state)
  unfolding read_mounts
  Keeps-read_mounts T closed state =
      Keeps-if (state == "") _ _ (Keeps-pure [])
        (Keeps-bind _ _ (Keeps-specs H stack closed) λ specs. Keeps-pure _)

  pub Keeps-read_state :
      (T : List Event → Type 0) (state : String)
      → Keeps (Traced H T) (read_state H files stack state)
  unfolding read_state
  Keeps-read_state T state = search keeps_rules depth 8

  Keeps-hand_off_all :
      (T : List Event → Type 0)
      → IsClosed is_command T
      → (fuel poll : ℕ) (args : Args) (todo : List (String × List String))
      → Keeps (Traced H T) (hand_off_all H files stack fuel poll args todo)
  unfolding hand_off_all
  Keeps-hand_off_all T closed fuel poll args [] = search keeps_rules
  Keeps-hand_off_all T closed fuel poll args ((svc, old) ∷ todo) =
      Keeps-bind _ _ (Keeps-safe_handoff H stack closed fuel svc old _ _ poll) λ done.
        Keeps-bind _ _ (Keeps-hand_off_all T closed fuel poll args todo) λ failed. Keeps-pure _

  -- Each command behind the handoffs, by its result.
  spawned-Triple :
      (words : List String) (T : List Event → Type 0)
      → Triple
          (Traced H T)
          (Docker.spawn H stack words)
          (λ r w. (before : List Event) × (w.trace ≡ spawned words r ∷ before) × T before)
  unfolding Docker.spawn
  spawned-Triple words T = record { at = λ w h. (w.trace, refl, h) }

  recreated :
      (recreate : List String)
      → Triple (Traced H Untouched) (recreate_in_place H files stack recreate) (λ r w.
        (r ≡ ok tt)
        → (before : List Event) × (w.trace ≡ recreation recreate ++ before) × Untouched before)
  unfolding recreate_in_place pure
  recreated [] = record { at = λ w h _. (w.trace, refl, h) }
  recreated (svc ∷ recreate) =
      Triple-weaken _ (λ w h. h) (λ r w (before, last, h) e. (before, cc, h))
        (spawned-Triple _ Untouched)

  saved :
      (state : String) (mounts : Mounts) (T : List Event → Type 0)
      → Triple (Traced H T) (save H files stack state mounts) (λ r w.
        (r ≡ ok tt) → (before : List Event) × (w.trace ≡ saving state mounts ++ before) × T before)
  unfolding save pure
  saved state mounts T = elim (Bool-cases (state == "")) [
    | inl e ↦ rw e (record { at = λ w h _. (w.trace, refl, h) })
    | inr e ↦ rw e (save_state-Triple H T mounts state)
  ]

  -- Behind the recreation in place, and behind the final `up`, by what they gave.
  abbrev Recreated : List String → List Event → Type 0
  Recreated recreate t =
      (before : List Event) × (t ≡ recreation recreate ++ before) × Untouched before

  abbrev Updated : List String → Result Failure (Unit {0}) → List Event → Type 0
  Updated recreate r t =
      (before : List Event) × (t ≡ spawned final_up r ∷ before) × Recreated recreate before

  bring_up-ExitOf :
      (args : Args) (mounts : Mounts) (recreate : List String)
      → Triple
          (Traced H Untouched)
          (bring_up H files stack args mounts recreate)
          (λ r w. ExitOf args mounts recreate r w.trace)
  unfolding bring_up pure ◌>>=◌
  bring_up-ExitOf args mounts recreate =
      Triple-bind _ _ _ (recreated recreate)
        (λ _.
          Triple-bind (λ r w. Updated recreate r w.trace) _ _
            (Triple-weaken _ (λ w h. h refl) (λ r w h. h)
              (spawned-Triple final_up (Recreated recreate)))
            (λ _.
              Triple-bind _ _ _ (saved args.state mounts (Updated recreate (ok tt)))
                (λ _. record {
                  at = λ w h.
                      let (t, last, (u, up, (before, first, untouched))) = h refl in
                      (
                        before,
                        join_trace args.state mounts recreate w.trace t u before last up first,
                        untouched,
                      );
                })
                (λ e w h. tt))
            (λ e w h. tt))
        (λ e w h. tt)

  pub apply_changes-ExitOf :
      (fuel poll : ℕ) (args : Args) (mounts : Mounts) (todo : List (String × List String))
      (recreate : List String)
      → Triple
          (Traced H Untouched)
          (apply_changes H files stack fuel poll args mounts todo recreate)
          (λ r w. ExitOf args mounts recreate r w.trace)
  unfolding apply_changes pure
  apply_changes-ExitOf fuel poll args mounts todo recreate =
      Triple-bind (λ _ w. Untouched w.trace) _ _
        (Triple-of_Keeps (Keeps-hand_off_all Untouched Untouched-command fuel poll args todo))
        (λ failed.
          Triple-if (not (failed == [])) _ _ (λ _. record { at = λ w h. h })
            (λ _. bring_up-ExitOf args mounts recreate))
        (λ e w h. tt)
