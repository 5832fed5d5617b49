-- ===== src/Compose/Plan.antt =====
-- `ineligible`, `changed_oneshots` and `plan` of compose-reload.py: which services are handed off.
pub mod Asking
pub mod Eligible
pub mod Choice
mod Tests
use krg_infra.Prelude.{
  String, Bool, true, false, not, ◌&&◌, ◌||◌, Option, none, some, List, [], ◌∷◌, ◌==◌, ltb,
  if◌then◌else◌, text_eq, list_eq, option_eq, lookup, contains, all, length,
}
use krg_infra.Text.{text_le}
use krg_infra.Sorted.{sorted}
use krg_infra.Effects.{pure, ◌>>=◌, ◌>>◌}
use krg_infra.Compose.Docker
use krg_infra.Compose.Docker.{
  HealthTest, shell, argv, Healthcheck, Spec, Specs, Host, Run, Stack, rollout_label,
}

-- `(spec.get("labels") or {}).get(ROLLOUT_LABEL) == "handoff"`
abbrev pub is_labelled : Spec → Bool
is_labelled spec = lookup rollout_label spec.labels == some "handoff"

abbrev is_none_test : Option HealthTest → Bool
is_none_test none = false
is_none_test (some (shell line)) = line == "NONE"
is_none_test (some (argv words)) = words == "NONE" ∷ []

-- No healthcheck, or one that is turned off.
abbrev has_no_check : Option Healthcheck → Bool
has_no_check none = true
has_no_check (some check) = check.disable || is_none_test check.test

-- Why a labelled service cannot be handed off.
unfoldable pub ineligible : Spec → Option String
ineligible spec =
    if not (spec.container_name == "")
    then some "has container_name (two containers can't share a name)"
    else if not (spec.ports == [])
    then some "publishes host ports (two containers can't bind the same port)"
    else if has_no_check spec.healthcheck
    then some "has no healthcheck (nothing to tell when the new container is ready)"
    else none

-- The image of a service, "" where there is none.
abbrev image_of : Option Spec → String
image_of none = ""
image_of (some spec) = spec.image

module _ (H : Host) (stack : Stack) where
  -- `{stack.image(c) for c in containers}`
  images_of : List String → Run H (List String)
  images_of [] = pure []
  images_of (c ∷ containers) = do
    image ← Docker.image H stack c
    images ← images_of containers
    pure (image ∷ images)

  -- Whether `have != {want}`: no image, or another one.
  abbrev differs : String → List String → Bool
  differs want have = have == [] || not (all (λ image. image == want) have)

  pending_oneshots : Specs → List (String × Option String) → Run H (List String)
  unfolding images_of
  pending_oneshots specs [] = pure []
  pending_oneshots specs ((dep, condition) ∷ deps) =
      let want = image_of (lookup dep specs) in
      if not (condition == some "service_completed_successfully") || want == ""
      then pending_oneshots specs deps
      else do
        containers ← Docker.all_containers H stack dep
        have ← images_of containers
        rest ← pending_oneshots specs deps
        pure (if differs want have then dep ∷ rest else rest)

  pub changed_oneshots : Spec → Specs → Run H (List String)
  unfolding pending_oneshots
  changed_oneshots spec specs = do
    pending ← pending_oneshots specs spec.depends_on
    pure (sorted text_le pending)

  -- The body of the loop over services: the old containers, if the service is handed off.
  pub consider :
      (changed forced : List String) → Specs → String → Spec → Run H (Option (List String))
  consider changed forced specs svc spec = if not (is_labelled spec) then pure none else do
    old ← Docker.running H stack svc
    if old == []
        then pure none
        else if not (contains forced svc) && not (contains changed svc)
        then pure none
        else if ltb 1 (length old)
        then pure none
        else if not (ineligible spec == none)
        then pure none
        else do
          pending ← changed_oneshots spec specs
          pure (if pending == [] then some old else none)

  abbrev add_to_plan :
      String → Option (List String) → List (String × List String) → List (String × List String)
  add_to_plan svc none todo = todo
  add_to_plan svc (some old) todo = (svc, old) ∷ todo

  pub plan_each :
      (changed forced : List String) → Specs → Specs → Run H (List (String × List String))
  plan_each changed forced specs [] = pure []
  plan_each changed forced specs ((svc, spec) ∷ rest) = do
    choice ← consider changed forced specs svc spec
    todo ← plan_each changed forced specs rest
    pure (add_to_plan svc choice todo)

  abbrev pub labelled : Specs → List String
  labelled [] = []
  labelled ((svc, spec) ∷ specs) =
      let rest = labelled specs in if is_labelled spec then svc ∷ rest else rest

  pub plan : List String → Run H (List (String × List String))
  unfolding plan_each
  plan forced = do
    specs ← Docker.specs H stack
    Docker.build_missing H stack specs
    changed ← Docker.changed_services H stack (labelled specs)
    plan_each changed forced specs (sorted (λ a b. text_le a.0 b.0) specs)
