-- ===== src/Compose/Plan/Eligible.antt =====
-- Which services `plan` may hand off, by what the calls of a trace have reported.
use krg_infra.Prelude.{
  String, Bool, true, false, not, ◌&&◌, none, List, [], ◌∷◌, ◌≡◌, refl, arith, ◌==◌, ltb, text_eq,
  list_eq, option_eq, contains, length, All, Among, ◌⊎◌, inl, inr, Bool-cases,
}
use krg_infra.Sorted.{sorted, sorted-Among}
use krg_infra.Effects.{Result, ok, raised}
use krg_infra.Compose.Docker.{Failure, Spec, Specs, Event, Host}
use krg_infra.Compose.Docker.Reported.{IsConfigured, AreRunning, IsReported, AreReported}
use krg_infra.Compose.Plan.{is_labelled, ineligible}

-- A service that may be handed off, with its old containers: it asks for it, its mounts have changed
-- or a dry run has reported it, its containers were listed as running and are just one, and nothing
-- makes it ineligible.
abbrev pub MayHandOff : (forced : List String) → String → Spec → List String → List Event → Type 0
MayHandOff forced svc spec old trace =
    (is_labelled spec ≡ true)
    × ((contains forced svc ≡ true) ⊎ IsReported svc trace)
    × AreRunning svc old trace
    × (length old ≡ 1)
    × (ineligible spec ≡ none)

-- An entry of the plan, with the service's part of the configuration.
abbrev pub IsPlanned : (forced : List String) → Specs → List Event → String × List String → Type 0
IsPlanned forced specs trace (svc, old) =
    (spec : Spec) × Among (svc, spec) specs × MayHandOff forced svc spec old trace

-- What a result of `plan` means: the configuration has been read, and each entry is one that may be
-- handed off.
abbrev pub Planned :
    (H : Host) → List String → Result Failure (List (String × List String)) → List Event → Type 0
Planned H forced (ok todo) trace =
    (specs : Specs) × IsConfigured H specs trace × All (IsPlanned forced specs trace) todo
Planned H forced (raised e) trace = Unit

pub IsPlanned-cons :
    (forced : List String) (svc : String) (spec : Spec) (specs : Specs) (trace : List Event)
    (todo : List (String × List String))
    → All (IsPlanned forced specs trace) todo
    → All (IsPlanned forced ((svc, spec) ∷ specs) trace) todo
IsPlanned-cons forced svc spec specs trace [] h = tt
IsPlanned-cons forced svc spec specs trace (_ ∷ todo) ((spec', among, may), h) =
    ((spec', inr among, may), IsPlanned-cons forced svc spec specs trace todo h)

pub IsPlanned-sorted :
    (forced : List String) (le : String × Spec → String × Spec → Bool) (specs : Specs)
    (trace : List Event) (todo : List (String × List String))
    → All (IsPlanned forced (sorted le specs) trace) todo
    → All (IsPlanned forced specs trace) todo
IsPlanned-sorted forced le specs trace [] h = tt
IsPlanned-sorted forced le specs trace ((svc, old) ∷ todo) ((spec, among, may), h) = (
  (spec, sorted-Among le specs (svc, spec) among, may),
  IsPlanned-sorted forced le specs trace todo h,
)

pub one_container :
    (old : List String) → (old == []) ≡ false → ltb 1 (length old) ≡ false → length old ≡ 1
one_container [] some_run few = cc
one_container (c ∷ []) some_run few = refl
one_container (c ∷ d ∷ old) some_run few = ground arith

-- A service that is not passed over as unchanged is forced or reported.
pub is_moved :
    (changed forced : List String) (svc : String) (trace : List Event)
    → (not (contains forced svc) && not (contains changed svc)) ≡ false
    → AreReported changed trace
    → (contains forced svc ≡ true) ⊎ IsReported svc trace
is_moved changed forced svc trace moved reported = elim (Bool-cases (contains forced svc)) [
  | inl force ↦ inl force
  | inr unforced ↦ inr (reported svc (ground arith))
]
