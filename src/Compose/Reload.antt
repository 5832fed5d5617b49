-- ===== src/Compose/Reload.antt =====
-- `main` of compose-reload.py, behind the reading of its command line.
pub mod Steps
pub mod Outcome
mod Tests
use krg_infra.Prelude.{
  ℕ, String, Bool, not, Option, none, List, [], ◌∷◌, ◌==◌, if◌then◌else◌, text_eq, list_eq,
  contains, keep, map,
}
use krg_infra.Text.{text_le}
use krg_infra.Sorted.{sorted}
use krg_infra.Effects.{pure, lift, gets, ◌>>=◌, ◌>>◌}
use krg_infra.Compose.Docker
use krg_infra.Compose.Docker.{Host, Specs, Mounts, Run, Stack}
use krg_infra.Compose.Mounts.{Files, mount_fingerprints, mounts_changed, load_state, save_state}
use krg_infra.Compose.Plan.{plan}
use krg_infra.Compose.Handoff.{safe_handoff}

-- The options, with the words of the base compose command behind "--". An absent `--state` is "".
pub record Args : Type 0 where
  pub timeout : ℕ
  pub drain : ℕ
  pub state : String
  pub dry_run : Bool
  pub compose : List String

-- `args.compose[1:] if args.compose[:1] == ["--"] else args.compose`
base_command : List String → List String
base_command [] = []
base_command (w ∷ ws) = if w == "--" then ws else w ∷ ws

module _ (H : Host) (files : Files) (stack : Stack) where
  pub read_mounts : String → Run H Mounts
  read_mounts state =
      if state == ""
      then pure []
      else do specs ← Docker.specs H stack; pure (mount_fingerprints files specs)

  pub read_state : String → Run H (Option Mounts)
  read_state state =
      if state == ""
      then pure none
      else do text ← gets (λ w. H.load_file state w.host); lift (load_state text)

  -- `[svc for svc, old in todo if not _safe_handoff(stack, svc, old, args)]`
  hand_off_all : (fuel poll : ℕ) → Args → List (String × List String) → Run H (List String)
  hand_off_all fuel poll args [] = pure []
  hand_off_all fuel poll args ((svc, old) ∷ todo) = do
    done ← safe_handoff H stack fuel svc old args.timeout args.drain poll
    failed ← hand_off_all fuel poll args todo
    pure (if done then failed else svc ∷ failed)

  recreate_in_place : List String → Run H (Unit {0})
  recreate_in_place recreate =
      if recreate == []
      then pure tt
      else Docker.spawn H stack ("up" ∷ "--detach" ∷ "--no-deps" ∷ "--force-recreate" ∷ recreate)

  save : String → Mounts → Run H (Unit {0})
  save state mounts = if state == "" then pure tt else save_state H state mounts

  -- The commands behind the handoffs, once all have succeeded.
  bring_up : Args → Mounts → List String → Run H ℕ
  unfolding recreate_in_place save
  bring_up args mounts recreate = do
    recreate_in_place recreate
    Docker.spawn H stack ("up" ∷ "--detach" ∷ "--remove-orphans" ∷ [])
    save args.state mounts
    pure 0

  pub apply_changes :
      (fuel poll : ℕ) → Args → Mounts → List (String × List String) → List String → Run H ℕ
  unfolding hand_off_all bring_up
  apply_changes fuel poll args mounts todo recreate = do
    failed ← hand_off_all fuel poll args todo
    if not (failed == []) then pure 1 else bring_up args mounts recreate

  reload : (fuel poll : ℕ) → Args → Run H ℕ
  unfolding read_mounts read_state apply_changes
  reload fuel poll args = do
    mounts ← read_mounts args.state
    prev ← read_state args.state
    let forced = mounts_changed prev mounts
    todo ← plan H stack forced
    let handed = map (λ (svc, old). svc) todo
    let recreate = sorted text_le (keep (λ s. not (contains handed s)) forced)
    if args.dry_run then pure 0 else apply_changes fuel poll args mounts todo recreate

module _ (H : Host) (files : Files) where
  -- `parser.error` exits with status 2.
  run_command : (fuel poll : ℕ) → Args → List String → Run H ℕ
  unfolding reload
  run_command fuel poll args [] = pure 2
  run_command fuel poll args (docker ∷ words) =
      reload H files (record { docker = docker; compose_args = words }) fuel poll args

  unfoldable pub main : (fuel poll : ℕ) → Args → Run H ℕ
  unfolding run_command base_command
  main fuel poll args = run_command fuel poll args (base_command args.compose)
