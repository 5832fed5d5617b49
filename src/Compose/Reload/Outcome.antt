-- ===== src/Compose/Reload/Outcome.antt =====
-- What an exit code of `main` says about what was done.
use krg_infra.Prelude.{
  ℕ, zero, suc, String, true, false, List, [], ◌∷◌, ◌≡◌, ◌==◌, if◌then◌else◌, text_eq, list_eq,
  Bool-cases, inl, inr,
}
use krg_infra.Effects.{Result, ok, raised, pure, ◌>>=◌}
use krg_infra.Effects.Triple.{
  Triple, Triple-and, Triple-bind, Triple-if, Triple-of_Keeps, Triple-weaken, Keeps, Keeps-pure,
  Keeps-bind,
}
use krg_infra.Compose.Docker
use krg_infra.Compose.Docker.{
  Failure, Event, compose_call, docker_call, slept, spawned, wrote, replaced, Mounts, Specs, Host,
  World, Run, Stack,
}
use krg_infra.Compose.Docker.Footprint.{Traced}
use krg_infra.Compose.Plan.Asking.{Keeps-plan}
use krg_infra.Compose.Mounts.{Files, mount_fingerprints}
use krg_infra.Compose.Reload.{Args, read_mounts, reload, run_command, base_command, main}
use krg_infra.Compose.Reload.Steps.{
  Untouched, Asked, BroughtUp, ExitOf, Untouched-asking, Asked-asking, Keeps-read_mounts,
  Keeps-read_state, apply_changes-ExitOf,
}

-- What the exit code of `main` means. The saved fingerprints are those of a compose configuration
-- that was read.
abbrev pub Outcome : Files → Args → Result Failure ℕ → List Event → Type 0
Outcome files args (ok zero) t =
    args.dry_run ≡ false
    → (specs : Specs) × (recreate : List String) × BroughtUp args.state
        (if args.state == "" then [] else mount_fingerprints files specs) recreate t
Outcome files args (ok (suc n)) t = Untouched t
Outcome files args (raised e) t = Unit

module _ (H : Host) (files : Files) (stack : Stack) where
  -- The fingerprints that are read are those of a configuration.
  abbrev Fingerprinted : String → Result Failure Mounts → Type 0
  Fingerprinted state (ok mounts) =
      (specs : Specs) × (mounts ≡ (if state == "" then [] else mount_fingerprints files specs))
  Fingerprinted state (raised e) = Unit

  read_mounts-Fingerprinted :
      (state : String)
      → Triple (λ _. Unit {0}) (read_mounts H files stack state) (λ r _. Fingerprinted state r)
  unfolding read_mounts pure ◌>>=◌
  read_mounts-Fingerprinted state = elim (Bool-cases (state == "")) [
    | inl e ↦ rw e (record { at = λ w h. ([], rw e) })
    | inr e ↦ rw e (
        Triple-bind (λ _ _. Unit {0}) (Docker.specs H stack)
          (λ specs. pure (mount_fingerprints files specs)) (record { at = λ w h. tt })
          (λ specs. record { at = λ w h. (specs, rw e) }) (λ e w h. tt))
  ]

  exit-Outcome :
      (args : Args) (mounts : Mounts) (recreate : List String) (r : Result Failure ℕ)
      (t : List Event)
      → Fingerprinted args.state (ok mounts)
      → ExitOf args mounts recreate r t
      → Outcome files args r t
  exit-Outcome args mounts recreate (ok zero) t (specs, same) h =
      λ _. (specs, recreate, rw (← same) h)
  exit-Outcome args mounts recreate (ok (suc n)) t origin h = h
  exit-Outcome args mounts recreate (raised e) t origin h = tt

  reload-Outcome :
      (fuel poll : ℕ) (args : Args)
      → Triple
          (Traced H Untouched)
          (reload H files stack fuel poll args)
          (λ r w. Outcome files args r w.trace)
  unfolding reload pure
  reload-Outcome fuel poll args =
      Triple-bind (λ r w. Untouched w.trace × Fingerprinted args.state r) _ _
        (Triple-and
          (Triple-of_Keeps (Keeps-read_mounts H files stack Untouched Untouched-asking args.state))
          (Triple-weaken _ (λ w h. tt) (λ r w h. h) (read_mounts-Fingerprinted args.state)))
        (λ mounts. record {
          at = λ w (untouched, origin).
              (Triple-bind (λ _ w. Untouched w.trace) _ _
                  (Triple-of_Keeps (Keeps-read_state H files stack Untouched args.state))
                  (λ prev.
                    Triple-bind (λ _ w. Untouched w.trace) _ _
                      (Triple-of_Keeps (Keeps-plan H stack Untouched-asking _))
                      (λ todo.
                        Triple-if args.dry_run _ _ (λ dry. record { at = λ w h wet. cc })
                          (λ _.
                            Triple-weaken _ (λ w h. h)
                              (λ r w h. exit-Outcome args mounts _ r w.trace origin h)
                              (apply_changes-ExitOf H files stack fuel poll args mounts todo _)))
                      (λ e w h. tt))
                  (λ e w h. tt)).at
                w untouched;
        })
        (λ e w h. tt)

  -- A dry run only asks.
  reload-Asked :
      (fuel poll : ℕ) (args : Args)
      → args.dry_run ≡ true
      → Keeps (Traced H Asked) (reload H files stack fuel poll args)
  unfolding reload
  reload-Asked fuel poll args dry = rw dry (
      Keeps-bind _ _ (Keeps-read_mounts H files stack Asked Asked-asking args.state) λ mounts.
        Keeps-bind _ _ (Keeps-read_state H files stack Asked args.state)
          λ prev. Keeps-bind _ _ (Keeps-plan H stack Asked-asking _) λ todo. Keeps-pure 0)

module _ (H : Host) (files : Files) (fuel poll : ℕ) (args : Args) where
  run_command-Outcome :
      (words : List String)
      → Triple
          (Traced H Untouched)
          (run_command H files fuel poll args words)
          (λ r w. Outcome files args r w.trace)
  unfolding run_command pure
  run_command-Outcome [] = record { at = λ w h. h }
  run_command-Outcome (docker ∷ words) = reload-Outcome H files _ fuel poll args

  run_command-Asked :
      args.dry_run ≡ true
      → (words : List String) → Keeps (Traced H Asked) (run_command H files fuel poll args words)
  unfolding run_command
  run_command-Asked dry [] = Keeps-pure 2
  run_command-Asked dry (docker ∷ words) = reload-Asked H files _ fuel poll args dry

  module _ (w : World H) where
    -- What the exit code of `main` means, for a trace in which nothing but docker and compose calls
    -- and waits stood before. A code other than 0: no compose command of `main` itself (the final
    -- `up`, the forced recreation) was run and the state file was not touched. Code 0, without
    -- --dry-run: the last commands were the forced recreation of some services or of none, the
    -- final `up`, and, with --state, the writing of the fingerprints of a configuration to the
    -- temporary file and its renaming; none of them failed, and there were no others.
    pub main-Outcome :
        Untouched w.trace
        → Outcome files args
            (main H files fuel poll args w).0
            (main H files fuel poll args w).1.trace
    unfolding main
    main-Outcome untouched = (run_command-Outcome (base_command args.compose)).at w untouched

    -- With --dry-run, `main` does nothing but query, download and build, however it ends.
    pub main-Asked :
        Asked w.trace → args.dry_run ≡ true → Asked (main H files fuel poll args w).1.trace
    unfolding main
    main-Asked asked dry = (run_command-Asked dry (base_command args.compose)).at w asked
