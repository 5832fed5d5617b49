-- ===== src/Compose/Handoff/Safety.antt =====
-- A failed handoff leaves the old containers alone, and no handoff stops one before every new
-- container has been seen healthy.
use krg_infra.Prelude.{
  String, Bool, true, false, ◌&&◌, List, [], ◌∷◌, ◌≡◌, refl, arith, All, length,
}
use krg_infra.Effects.Triple.{Triple}
use krg_infra.Compose.Docker.{Event, docker_call}
use krg_infra.Compose.Docker.Footprint.{is_working, is_retiring, IsClosed}
use krg_infra.Compose.Handoff.Seen.{AllSeen}
use krg_infra.Compose.Handoff.Listed.{IsListed}
use krg_infra.Compose.Handoff.Rule.{overlaps, SparesRemoval}

-- Whether an event stops or removes one of the old containers.
abbrev pub retires : List String → Event → Bool
retires old (docker_call (verb ∷ cids) r) = is_retiring verb && overlaps old cids
retires old _ = false

-- No event stops or removes an old container.
abbrev pub Spared : List String → List Event → Type 0
Spared old = All (λ e. retires old e ≡ false)

-- All the containers that a listing of the service has shown beside the old ones, as many as those,
-- have each been seen ready.
abbrev pub Replaced : String → List String → List Event → Type 0
Replaced svc old trace =
    (new : List String) × (length new ≡ length old)
    × (overlaps old new ≡ false)
    × IsListed svc old new trace
    × AllSeen new trace

-- Each event that stops or removes an old container comes after the reports on its replacement.
abbrev pub Guarded : String → List String → List Event → Type 0
Guarded svc old [] = Unit
Guarded svc old (e ∷ trace) =
    (retires old e ≡ true → Replaced svc old trace) × Guarded svc old trace

working_spares : (old : List String) (e : Event) → is_working e ≡ true → retires old e ≡ false
working_spares old (docker_call [] r) h = refl
working_spares old (docker_call (verb ∷ cids) r) h = ground arith
working_spares old _ h = refl

pub Spared-closed : (old : List String) → IsClosed is_working (Spared old)
Spared-closed old = record { add = λ e t h spared. (working_spares old e h, spared) }

pub Guarded-closed : (svc : String) (old : List String) → IsClosed is_working (Guarded svc old)
Guarded-closed svc old = record {
  add = λ e t h guarded. let spared = working_spares old e h in ((λ p. cc), guarded);
}

pub Guarded-removal :
    (svc : String) (old new : List String)
    → overlaps old new ≡ false
    → SparesRemoval (Guarded svc old) new
Guarded-removal svc old new fresh = record {
  stop = λ r t h. ((λ p. cc), h);
  rm = λ r t h. ((λ p. cc), h);
}

-- While the old containers are retired, their replacement has been listed and seen.
abbrev Retiring : String → List String → List String → List Event → Type 0
Retiring svc old new trace =
    (Guarded svc old trace × IsListed svc old new trace) × AllSeen new trace
