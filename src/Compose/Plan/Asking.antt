-- ===== src/Compose/Plan/Asking.antt =====
-- `plan` only asks: it keeps every property of traces that queries, downloads and builds cannot
-- break.
use krg_infra.Prelude.{String, List, [], ◌∷◌, Option, text_eq, option_eq, list_eq}
use krg_infra.Effects.Triple.{Keeps, Keeps-pure, Keeps-bind, Keeps-if, keeps_rules}
use krg_infra.Compose.Docker.{Event, Spec, Specs, Host, Stack}
use krg_infra.Compose.Docker.Footprint.{is_asking, IsClosed, Traced}
use krg_infra.Compose.Docker.Asking.{
  Keeps-specs, Keeps-build_missing, Keeps-changed_services, Keeps-running, Keeps-all_containers,
  Keeps-image,
}
use krg_infra.Compose.Plan.{
  images_of, pending_oneshots, changed_oneshots, consider, plan_each, plan,
}

module _ (H : Host) (stack : Stack) {T : List Event → Type 0} (closed : IsClosed is_asking T) where
  Keeps-images_of : (cids : List String) → Keeps (Traced H T) (images_of H stack cids)
  unfolding images_of
  Keeps-images_of [] = search keeps_rules
  Keeps-images_of (c ∷ cids) =
      Keeps-bind _ _ (Keeps-image H stack closed c)
        λ image. Keeps-bind _ _ (Keeps-images_of cids) λ images. Keeps-pure _

  Keeps-pending_oneshots :
      (specs : Specs) (deps : List (String × Option String))
      → Keeps (Traced H T) (pending_oneshots H stack specs deps)
  unfolding pending_oneshots
  Keeps-pending_oneshots specs [] = search keeps_rules
  Keeps-pending_oneshots specs ((dep, condition) ∷ deps) =
      Keeps-if _ _ _ (Keeps-pending_oneshots specs deps) (
        Keeps-bind _ _ (Keeps-all_containers H stack closed dep) λ cids.
          Keeps-bind _ _ (Keeps-images_of cids)
            λ have. Keeps-bind _ _ (Keeps-pending_oneshots specs deps) λ rest. Keeps-pure _)

  pub Keeps-changed_oneshots :
      (spec : Spec) (specs : Specs) → Keeps (Traced H T) (changed_oneshots H stack spec specs)
  unfolding changed_oneshots
  Keeps-changed_oneshots spec specs = search (keeps_rules, Keeps-pending_oneshots) depth 8

  pub Keeps-consider :
      (changed forced : List String) (specs : Specs) (svc : String) (spec : Spec)
      → Keeps (Traced H T) (consider H stack changed forced specs svc spec)
  unfolding consider
  Keeps-consider changed forced specs svc spec =
      search (keeps_rules, Keeps-changed_oneshots, Keeps-running H stack closed) depth 14

  pub Keeps-plan_each :
      (changed forced : List String) (specs todo : Specs)
      → Keeps (Traced H T) (plan_each H stack changed forced specs todo)
  unfolding plan_each
  Keeps-plan_each changed forced specs [] = search keeps_rules
  Keeps-plan_each changed forced specs ((svc, spec) ∷ rest) =
      Keeps-bind _ _ (Keeps-consider changed forced specs svc spec)
        λ choice. Keeps-bind _ _ (Keeps-plan_each changed forced specs rest) λ todo. Keeps-pure _

  pub Keeps-plan : (forced : List String) → Keeps (Traced H T) (plan H stack forced)
  unfolding plan
  Keeps-plan forced = Keeps-bind _ _ (Keeps-specs H stack closed) λ specs.
      Keeps-bind _ _ (Keeps-build_missing H stack closed specs) λ built.
        Keeps-bind _ _ (Keeps-changed_services H stack closed _)
          λ changed. Keeps-plan_each changed forced specs _
