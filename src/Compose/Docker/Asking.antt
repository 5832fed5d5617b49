-- ===== src/Compose/Docker/Asking.antt =====
-- The calls of class `Stack` that only ask keep every property that asking cannot break.
use krg_infra.Prelude.{ℕ, String, Bool, true, List, [], ◌∷◌, ◌≡◌, refl, list_eq, text_eq}
use krg_infra.Effects.{Result}
use krg_infra.Effects.Triple.{Keeps, Keeps-bind, Keeps-if, keeps_rules}
use krg_infra.Compose.Docker
use krg_infra.Compose.Docker.{
  Failure, Event, compose_call, docker_call, slept, spawned, Spec, Specs, Host, World, Stack,
}
use krg_infra.Compose.Docker.Footprint.{is_asking, IsClosed, Traced}

module _ (H : Host) (stack : Stack) (T : List Event → Type 0) where
  pub Keeps-compose_with :
      (args : List String) (stderr : Bool) (timeout : ℕ)
      → ((r : Result Failure String) (t : List Event) → T t → T (compose_call args r ∷ t))
      → Keeps (Traced H T) (Docker.compose_with H stack args stderr timeout)
  unfolding Docker.compose_with
  Keeps-compose_with args stderr timeout add = record { at = λ w h. add _ _ h }

  pub Keeps-compose :
      (args : List String)
      → ((r : Result Failure String) (t : List Event) → T t → T (compose_call args r ∷ t))
      → Keeps (Traced H T) (Docker.compose H stack args)
  unfolding Docker.compose
  Keeps-compose args add = record { at = λ w h. add _ _ h }

  pub Keeps-docker_cmd :
      (args : List String)
      → ((r : Result Failure String) (t : List Event) → T t → T (docker_call args r ∷ t))
      → Keeps (Traced H T) (Docker.docker_cmd H stack args)
  unfolding Docker.docker_cmd
  Keeps-docker_cmd args add = record { at = λ w h. add _ _ h }

  pub Keeps-sleep :
      (ticks : ℕ)
      → ((t : List Event) → T t → T (slept ticks ∷ t))
      → Keeps (Traced H T) (Docker.sleep H stack ticks)
  unfolding Docker.sleep
  Keeps-sleep ticks add = record { at = λ w h. add _ h }

  pub Keeps-spawn :
      (args : List String)
      → ((r : Result Failure (Unit {0})) (t : List Event) → T t → T (spawned args r ∷ t))
      → Keeps (Traced H T) (Docker.spawn H stack args)
  unfolding Docker.spawn
  Keeps-spawn args add = record { at = λ w h. add _ _ h }

module _ (H : Host) (stack : Stack) {T : List Event → Type 0} (closed : IsClosed is_asking T) where
  asking_compose :
      (args : List String)
      → ((r : Result Failure String) → is_asking (compose_call args r) ≡ true)
      → Keeps (Traced H T) (Docker.compose H stack args)
  asking_compose args h = Keeps-compose H stack T args (λ r t. closed.add _ t (h r))

  asking_compose_with :
      (args : List String) (stderr : Bool) (timeout : ℕ)
      → ((r : Result Failure String) → is_asking (compose_call args r) ≡ true)
      → Keeps (Traced H T) (Docker.compose_with H stack args stderr timeout)
  asking_compose_with args stderr timeout h =
      Keeps-compose_with H stack T args stderr timeout (λ r t. closed.add _ t (h r))

  asking_docker :
      (args : List String)
      → ((r : Result Failure String) → is_asking (docker_call args r) ≡ true)
      → Keeps (Traced H T) (Docker.docker_cmd H stack args)
  asking_docker args h = Keeps-docker_cmd H stack T args (λ r t. closed.add _ t (h r))

  pub Keeps-specs : Keeps (Traced H T) (Docker.specs H stack)
  unfolding Docker.specs
  Keeps-specs = search (keeps_rules, asking_compose) depth 8

  pub Keeps-changed_services :
      (services : List String) → Keeps (Traced H T) (Docker.changed_services H stack services)
  unfolding Docker.changed_services
  Keeps-changed_services [] = search keeps_rules
  Keeps-changed_services (s ∷ services) =
      search (keeps_rules, asking_compose, asking_compose_with) depth 12

  pub Keeps-has_image : (image : String) → Keeps (Traced H T) (Docker.has_image H stack image)
  unfolding Docker.has_image
  Keeps-has_image image = search (keeps_rules, asking_docker) depth 8

  Keeps-missing_builds : (specs : Specs) → Keeps (Traced H T) (Docker.missing_builds H stack specs)
  unfolding Docker.missing_builds
  Keeps-missing_builds [] = search keeps_rules
  Keeps-missing_builds ((svc, spec) ∷ rest) =
      Keeps-if spec.build _ _
        (Keeps-bind _ _ (Keeps-has_image spec.image)
          λ present. Keeps-bind _ _ (Keeps-missing_builds rest) λ todo. search keeps_rules)
        (Keeps-missing_builds rest)

  pub Keeps-build_missing :
      (specs : Specs) → Keeps (Traced H T) (Docker.build_missing H stack specs)
  unfolding Docker.build_missing
  Keeps-build_missing specs =
      search (keeps_rules, asking_compose_with, Keeps-missing_builds) depth 8

  pub Keeps-running : (svc : String) → Keeps (Traced H T) (Docker.running H stack svc)
  unfolding Docker.running
  Keeps-running svc = search (keeps_rules, asking_compose) depth 8

  pub Keeps-all_containers : (svc : String) → Keeps (Traced H T) (Docker.all_containers H stack svc)
  unfolding Docker.all_containers
  Keeps-all_containers svc = search (keeps_rules, asking_compose) depth 8

  pub Keeps-drains : (cid : String) → Keeps (Traced H T) (Docker.drains H stack cid)
  unfolding Docker.drains
  Keeps-drains cid = search (keeps_rules, asking_docker) depth 8

  pub Keeps-health : (cid : String) → Keeps (Traced H T) (Docker.health H stack cid)
  unfolding Docker.health
  Keeps-health cid = search (keeps_rules, asking_docker) depth 8

  pub Keeps-image : (cid : String) → Keeps (Traced H T) (Docker.image H stack cid)
  unfolding Docker.image
  Keeps-image cid = search (keeps_rules, asking_docker) depth 8

  pub Keeps-logs :
      (cid : String)
      → Keeps (Traced H T) (Docker.docker_cmd H stack ("logs" ∷ "--tail" ∷ "50" ∷ cid ∷ []))
  Keeps-logs cid = asking_docker _ (λ r. refl)

  pub Keeps-clock : Keeps (Traced H T) (Docker.clock H stack)
  unfolding Docker.clock
  Keeps-clock = search keeps_rules
