-- ===== src/Compose/Plan/Choice.antt =====
-- What `plan` chooses.
use krg_infra.Prelude.{
  String, Bool, true, false, not, ◌&&◌, Option, none, some, List, [], ◌∷◌, refl, arith, ◌==◌, ltb,
  if◌then◌else◌, text_eq, list_eq, option_eq, contains, length, All, inl, inr,
}
use krg_infra.Text.{text_le}
use krg_infra.Sorted.{sorted}
use krg_infra.Effects.{Result, ok, raised, pure}
use krg_infra.Effects.Triple.{
  Triple, Triple-bind, Triple-if, Triple-and, Triple-of_Keeps, Triple-weaken,
}
use krg_infra.Compose.Docker.{Failure, Spec, Specs, Event, Host, World, Stack}
use krg_infra.Compose.Docker.Footprint.{is_asking, IsClosed, Traced}
use krg_infra.Compose.Docker.Asking.{Keeps-build_missing, Keeps-changed_services, Keeps-running}
use krg_infra.Compose.Docker.Reported.{
  IsConfigured, AreRunning, AreReported, IsConfigured-closed, AreRunning-closed, IsReported-cons,
  AreReported-closed, ResultRunning, running-AreRunning, ResultConfigured, specs-IsConfigured,
  ResultReported, changed_services-AreReported,
}
use krg_infra.Compose.Plan.{
  is_labelled, ineligible, consider, add_to_plan, plan_each, labelled, plan,
}
use krg_infra.Compose.Plan.Asking.{Keeps-changed_oneshots, Keeps-consider, Keeps-plan_each}
use krg_infra.Compose.Plan.Eligible.{
  MayHandOff, IsPlanned, Planned, IsPlanned-cons, IsPlanned-sorted, one_container, is_moved,
}

abbrev Considered :
    (forced : List String)
    → String
    → Spec
    → Result Failure (Option (List String))
    → List Event
    → Type 0
Considered forced svc spec (ok (some old)) trace = MayHandOff forced svc spec old trace
Considered forced svc spec _ trace = Unit

abbrev AllPlanned :
    (forced : List String)
    → Specs
    → Result Failure (List (String × List String))
    → List Event
    → Type 0
AllPlanned forced specs (ok todo) trace = All (IsPlanned forced specs trace) todo
AllPlanned forced specs (raised e) trace = Unit

Considered-closed :
    (forced : List String) (svc : String) (spec : Spec) (choice : Option (List String))
    → IsClosed is_asking (Considered forced svc spec (ok choice))
Considered-closed forced svc spec none = record { add = λ e t asks h. tt }
Considered-closed forced svc spec (some old) = record {
  add = λ e t asks (asked, moved, (out, shown, same), one, eligible). (
    asked,
    elim moved [ inl force ↦ inl force | inr reported ↦ inr (IsReported-cons svc e t reported) ],
    (out, inr shown, same),
    one,
    eligible,
  );
}

Considered-if :
    (forced : List String) (svc : String) (spec : Spec) (old : List String) (trace : List Event)
    (done : Bool)
    → MayHandOff forced svc spec old trace
    → Considered forced svc spec (ok (if done then some old else none)) trace
Considered-if forced svc spec old trace true h = h
Considered-if forced svc spec old trace false h = tt

add_to_plan-AllPlanned :
    (H : Host) (stack : Stack) (forced : List String) (svc : String) (spec : Spec) (rest : Specs)
    (trace : List Event) (choice : Option (List String)) (todo : List (String × List String))
    → Considered forced svc spec (ok choice) trace
    → All (IsPlanned forced rest trace) todo
    → All (IsPlanned forced ((svc, spec) ∷ rest) trace) (add_to_plan H stack svc choice todo)
add_to_plan-AllPlanned H stack forced svc spec rest trace none todo h planned =
    IsPlanned-cons forced svc spec rest trace todo planned
add_to_plan-AllPlanned H stack forced svc spec rest trace (some old) todo h planned =
    ((spec, inl refl, h), IsPlanned-cons forced svc spec rest trace todo planned)

module _ (H : Host) (stack : Stack) (changed forced : List String) where
  -- What stays while the old containers of a service are looked at.
  abbrev Looking : String → List String → List Event → Type 0
  Looking svc old trace = AreReported changed trace × AreRunning svc old trace

  Looking-closed : (svc : String) (old : List String) → IsClosed is_asking (Looking svc old)
  Looking-closed svc old = record {
    add = λ e t asks (reported, running). (
      (AreReported-closed changed).add e t asks reported,
      (AreRunning-closed svc old).add e t asks running,
    );
  }

  consider-MayHandOff :
      (specs : Specs) (svc : String) (spec : Spec)
      → Triple
          (Traced H (AreReported changed))
          (consider H stack changed forced specs svc spec)
          (λ r w. Considered forced svc spec r w.trace)
  unfolding consider pure
  consider-MayHandOff specs svc spec =
      Triple-if (not (is_labelled spec)) _ _ (λ _. record { at = λ w h. tt })
        (λ asks.
          Triple-bind (λ r w. AreReported changed w.trace × ResultRunning H stack svc r w.trace) _ _
            (Triple-and (Triple-of_Keeps (Keeps-running H stack (AreReported-closed changed) svc))
              (Triple-weaken _ (λ w h. tt) (λ r w h. h) (running-AreRunning H stack svc)))
            (λ old.
              Triple-if (old == []) _ _ (λ _. record { at = λ w h. tt })
                (λ some_run.
                  Triple-if (not (contains forced svc) && not (contains changed svc)) _ _
                    (λ _. record { at = λ w h. tt })
                    (λ moved.
                      Triple-if (ltb 1 (length old)) _ _ (λ _. record { at = λ w h. tt })
                        (λ few.
                          Triple-if (not (ineligible spec == none)) _ _
                            (λ _. record { at = λ w h. tt })
                            (λ eligible.
                              Triple-bind (λ _ w. Looking svc old w.trace) _ _
                                (Triple-of_Keeps (
                                  Keeps-changed_oneshots H stack (Looking-closed svc old) spec
                                    specs))
                                (λ (pending : List String). record {
                                  at = λ w h.
                                      Considered-if forced svc spec old w.trace (pending == []) (
                                        ground arith,
                                        is_moved changed forced svc w.trace moved h.0,
                                        h.1,
                                        one_container old some_run few,
                                        ground arith,
                                      );
                                })
                                (λ e w h. tt))))))
            (λ e w h. tt))

  plan_each-AllPlanned :
      (specs todo : Specs)
      → Triple
          (Traced H (AreReported changed))
          (plan_each H stack changed forced specs todo)
          (λ r w. AllPlanned forced todo r w.trace)
  unfolding plan_each pure
  plan_each-AllPlanned specs [] = record { at = λ w h. tt }
  plan_each-AllPlanned specs ((svc, spec) ∷ rest) =
      Triple-bind (λ r w. AreReported changed w.trace × Considered forced svc spec r w.trace) _ _
        (Triple-and
          (Triple-of_Keeps
            (Keeps-consider H stack (AreReported-closed changed) changed forced specs svc spec))
          (consider-MayHandOff specs svc spec))
        (λ choice.
          Triple-bind
            (λ r w.
              AllPlanned forced rest r w.trace × Considered forced svc spec (ok choice) w.trace)
            _ _
            (Triple-and
              (Triple-weaken _ (λ w h. h.0) (λ r w h. h) (plan_each-AllPlanned specs rest))
              (Triple-weaken _ (λ w h. h.1) (λ r w h. h)
                (Triple-of_Keeps (
                  Keeps-plan_each H stack (Considered-closed forced svc spec choice) changed forced
                    specs rest))))
            (λ todo. record {
              at = λ w h.
                  add_to_plan-AllPlanned H stack forced svc spec rest w.trace choice todo h.1 h.0;
            })
            (λ e w h. tt))
        (λ e w h. tt)

abbrev by_name : String × Spec → String × Spec → Bool
by_name a b = text_le a.0 b.0

Planned-sorted :
    (H : Host) (forced : List String) (specs : Specs)
    (r : Result Failure (List (String × List String))) (trace : List Event)
    → IsConfigured H specs trace
    → AllPlanned forced (sorted by_name specs) r trace
    → Planned H forced r trace
Planned-sorted H forced specs (ok todo) trace read h =
    (specs, read, IsPlanned-sorted forced by_name specs trace todo h)
Planned-sorted H forced specs (raised e) trace read h = tt

module _ (H : Host) (stack : Stack) (forced : List String) where
  plan_sorted :
      (specs : Specs) (changed : List String)
      → Triple
          (λ w. IsConfigured H specs w.trace × AreReported changed w.trace)
          (plan_each H stack changed forced specs (sorted by_name specs))
          (λ r w. Planned H forced r w.trace)
  plan_sorted specs changed =
      Triple-weaken _ (λ w h. h) (λ r w h. Planned-sorted H forced specs r w.trace h.0 h.1)
        (Triple-and
          (Triple-weaken _ (λ w h. h.0) (λ r w h. h)
            (Triple-of_Keeps (
              Keeps-plan_each H stack (IsConfigured-closed H specs) changed forced specs
                (sorted by_name specs))))
          (Triple-weaken _ (λ w h. h.1) (λ r w h. h)
            (plan_each-AllPlanned H stack changed forced specs (sorted by_name specs))))

  plan-Triple : Triple (λ _. Unit {0}) (plan H stack forced) (λ r w. Planned H forced r w.trace)
  unfolding plan
  plan-Triple =
      Triple-bind (λ r w. ResultConfigured H stack r w.trace) _ _ (specs-IsConfigured H stack)
        (λ specs.
          Triple-bind (λ _ w. IsConfigured H specs w.trace) _ _
            (Triple-of_Keeps (Keeps-build_missing H stack (IsConfigured-closed H specs) specs))
            (λ built.
              Triple-bind (λ r w. IsConfigured H specs w.trace × ResultReported H stack r w.trace) _
                _
                (Triple-and
                  (Triple-of_Keeps (
                    Keeps-changed_services H stack (IsConfigured-closed H specs)
                      (labelled H stack specs)))
                  (Triple-weaken _ (λ w h. tt) (λ r w h. h)
                    (changed_services-AreReported H stack (labelled H stack specs))))
                (λ changed. plan_sorted specs changed) (λ e w h. tt))
            (λ e w h. tt))
        (λ e w h. tt)

  -- If `plan` gives a list, then each service of it stands with the label for a handoff in a
  -- configuration that compose has put out, is forced or has a container that a dry run has named
  -- as one to recreate, has as its containers those that a listing has shown as running, just one,
  -- and is not ineligible.
  pub plan-Planned :
      (w : World H) → Planned H forced (plan H stack forced w).0 (plan H stack forced w).1.trace
  plan-Planned w = plan-Triple.at w tt
