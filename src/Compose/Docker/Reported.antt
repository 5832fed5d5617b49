-- ===== src/Compose/Docker/Reported.antt =====
-- What the calls of a trace have reported of a stack: its configuration, the running containers of a
-- service, and the services that a dry run would recreate.
use krg_infra.Prelude.{
  ℕ, String, Bool, true, false, List, [], ◌∷◌, ◌≡◌, refl, ◌==◌, text_eq, list_eq, lookup-Among,
  contains, Among, inl, inr,
}
use krg_infra.Text.{split, split_at, split_lines, text_le}
use krg_infra.Sorted.{sorted}
use krg_infra.Effects.{Result, ok, raised, ◌>>=◌}
use krg_infra.Effects.Triple.{
  Triple, Triple-bind, Triple-if, Triple-and, Triple-of_Keeps, Triple-weaken,
}
use krg_infra.Compose.Docker
use krg_infra.Compose.Docker.{Failure, Event, compose_call, Specs, Host, World, Stack}
use krg_infra.Compose.Docker.Recreated.{recreated_names}
use krg_infra.Compose.Docker.Footprint.{is_asking, IsClosed}
use krg_infra.Compose.Docker.Asking.{Keeps-compose}
use krg_infra.Compose.Docker.Named.{services_of_lem, services_by_name_lem}

-- The trace holds a call of compose with these arguments that has put out this text.
abbrev pub HasShown : List String → String → List Event → Type 0
HasShown args out trace = Among (compose_call args (ok out)) trace

-- The configuration that was read.
abbrev pub IsConfigured : Host → Specs → List Event → Type 0
IsConfigured H specs trace =
    (text : String) × HasShown ("config" ∷ "--format" ∷ "json" ∷ []) text trace
    × (H.read_services text ≡ ok specs)

-- The containers of the service that were listed as running.
abbrev pub AreRunning : (svc : String) → List String → List Event → Type 0
AreRunning svc old trace =
    (out : String) × HasShown ("ps" ∷ "--quiet" ∷ svc ∷ []) out trace × (split out ≡ old)

-- A dry run of `up` has named a container that it would recreate, and a listing of all containers
-- has a line that gives that container to the service.
abbrev pub IsReported : (svc : String) → List Event → Type 0
IsReported svc trace =
    (services : List String) × (out : String) × (listing : String) × (name : String)
    × (line : String) × HasShown ("--dry-run" ∷ "up" ∷ "--detach" ∷ "--no-deps" ∷ services) out
        trace
    × HasShown ("ps" ∷ "--all" ∷ "--format" ∷ "{{.Name}}\t{{.Service}}" ∷ []) listing trace
    × Among name (recreated_names out)
    × Among line (split_lines listing)
    × (split_at 9 line ≡ name ∷ svc ∷ [])

-- Each of the services has been reported.
abbrev pub AreReported : List String → List Event → Type 0
AreReported changed trace = (svc : String) → contains changed svc ≡ true → IsReported svc trace

pub IsConfigured-closed : (H : Host) (specs : Specs) → IsClosed is_asking (IsConfigured H specs)
IsConfigured-closed H specs = record { add = λ e t _ (text, shown, read). (text, inr shown, read) }

pub AreRunning-closed : (svc : String) (old : List String) → IsClosed is_asking (AreRunning svc old)
AreRunning-closed svc old = record { add = λ e t _ (out, shown, same). (out, inr shown, same) }

pub IsReported-cons :
    (svc : String) (e : Event) (t : List Event) → IsReported svc t → IsReported svc (e ∷ t)
IsReported-cons svc e t (services, out, listing, name, line, dry, listed, named, in_lines, given) =
    (services, out, listing, name, line, inr dry, inr listed, named, in_lines, given)

pub AreReported-closed : (changed : List String) → IsClosed is_asking (AreReported changed)
AreReported-closed changed = record {
  add = λ e t _ h svc held. IsReported-cons svc e t (h svc held);
}

none-AreReported : (trace : List Event) → AreReported [] trace
none-AreReported trace svc held = cc

module _ (H : Host) (stack : Stack) where
  abbrev OutShown : List String → Result Failure String → List Event → Type 0
  OutShown args (ok out) trace = HasShown args out trace
  OutShown args (raised e) trace = Unit

  call_shown :
      (args : List String) (r : Result Failure String) (trace : List Event)
      → OutShown args r (compose_call args r ∷ trace)
  call_shown args (ok out) trace = inl refl
  call_shown args (raised e) trace = tt

  compose_with-Shown :
      (args : List String) (stderr : Bool) (timeout : ℕ)
      → Triple
          (λ _. Unit {0})
          (Docker.compose_with H stack args stderr timeout)
          (λ r w. OutShown args r w.trace)
  unfolding Docker.compose_with Docker.record_call
  compose_with-Shown args stderr timeout = record {
    at = λ w h. call_shown args (Docker.compose_with H stack args stderr timeout w).0 w.trace;
  }

  compose-Shown :
      (args : List String)
      → Triple (λ _. Unit {0}) (Docker.compose H stack args) (λ r w. OutShown args r w.trace)
  unfolding Docker.compose
  compose-Shown args = compose_with-Shown args false Docker.call_timeout

  abbrev pub ResultRunning : String → Result Failure (List String) → List Event → Type 0
  ResultRunning svc (ok old) trace = AreRunning svc old trace
  ResultRunning svc (raised e) trace = Unit

  pub running-AreRunning :
      (svc : String)
      → Triple (λ _. Unit {0}) (Docker.running H stack svc) (λ r w. ResultRunning svc r w.trace)
  unfolding Docker.running ◌>>=◌
  running-AreRunning svc =
      Triple-bind _ _ _ (compose-Shown ("ps" ∷ "--quiet" ∷ svc ∷ []))
        (λ out. record { at = λ w shown. (out, shown, refl) }) (λ e w h. tt)

  abbrev pub ResultConfigured : Result Failure Specs → List Event → Type 0
  ResultConfigured (ok specs) trace = IsConfigured H specs trace
  ResultConfigured (raised e) trace = Unit

  read_as :
      (text : String) (r : Result Failure Specs) (trace : List Event)
      → H.read_services text ≡ r
      → HasShown ("config" ∷ "--format" ∷ "json" ∷ []) text trace
      → ResultConfigured r trace
  read_as text (ok specs) trace read shown = (text, shown, read)
  read_as text (raised e) trace read shown = tt

  pub specs-IsConfigured :
      Triple (λ _. Unit {0}) (Docker.specs H stack) (λ r w. ResultConfigured r w.trace)
  unfolding Docker.specs ◌>>=◌
  specs-IsConfigured =
      Triple-bind _ _ _ (compose-Shown ("config" ∷ "--format" ∷ "json" ∷ []))
        (λ text. record { at = λ w shown. read_as text (H.read_services text) w.trace refl shown })
        (λ e w h. tt)

  abbrev pub ResultReported : Result Failure (List String) → List Event → Type 0
  ResultReported (ok changed) trace = AreReported changed trace
  ResultReported (raised e) trace = Unit

  -- The services of the names that a dry run has given, by the lines of a listing.
  listing_reports :
      (services : List String) (out listing : String) (trace : List Event)
      → HasShown ("--dry-run" ∷ "up" ∷ "--detach" ∷ "--no-deps" ∷ services) out trace
      → HasShown ("ps" ∷ "--all" ∷ "--format" ∷ "{{.Name}}\t{{.Service}}" ∷ []) listing trace
      → AreReported
          (Docker.services_of
            (Docker.services_by_name (split_lines listing) [])
            (recreated_names out))
          trace
  listing_reports services out listing trace dry listed svc held =
      let svc_of = Docker.services_by_name (split_lines listing) [] in
      let (name, named, found) = services_of_lem svc_of (recreated_names out) svc held in
      elim (services_by_name_lem (split_lines listing) [] name svc
        (lookup-Among name svc svc_of found)) [
          | inl (line, in_lines, given) ↦
              (services, out, listing, name, line, dry, listed, named, in_lines, given)
          | inr nowhere ↦ absurd nowhere.1
        ]

  pub changed_services-AreReported :
      (services : List String)
      → Triple
          (λ _. Unit {0})
          (Docker.changed_services H stack services)
          (λ r w. ResultReported r w.trace)
  unfolding Docker.changed_services ◌>>=◌
  changed_services-AreReported [] = record { at = λ w h. none-AreReported w.trace }
  changed_services-AreReported (s ∷ services) =
      let asked = sorted text_le (s ∷ services) in
      let dry = "--dry-run" ∷ "up" ∷ "--detach" ∷ "--no-deps" ∷ asked in
      let listed = "ps" ∷ "--all" ∷ "--format" ∷ "{{.Name}}\t{{.Service}}" ∷ [] in
      Triple-bind (λ _ _. Unit {0}) _ _ (record { at = λ w h. tt })
        (λ _.
          Triple-bind (λ r w. OutShown dry r w.trace) _ _ (compose_with-Shown dry true _)
            (λ out.
              Triple-if (recreated_names out == []) _ _
                (λ _. record { at = λ w h. none-AreReported w.trace })
                (λ _.
                  Triple-bind (λ r w. HasShown dry out w.trace × OutShown listed r w.trace) _ _
                    (Triple-and
                      (Triple-of_Keeps
                        (Keeps-compose H stack (HasShown dry out) listed (λ r t shown. inr shown)))
                      (Triple-weaken _ (λ w h. tt) (λ r w h. h) (compose-Shown listed)))
                    (λ listing. record {
                      at = λ w h. listing_reports asked out listing w.trace h.0 h.1;
                    })
                    (λ e w h. tt)))
            (λ e w h. tt))
        (λ e w h. tt)
