-- ===== src/Compose/Handoff/Listed.antt =====
-- `new_containers` gives what a listing of the service's containers has shown beside the old ones.
use krg_infra.Prelude.{
  String, Bool, true, false, not, ◌&&◌, List, [], ◌∷◌, ◌≡◌, arith, ◌==◌, list_eq, text_eq, beq_refl,
  contains, keep, any,
}
use krg_infra.Text.{split}
use krg_infra.Effects.{Result, ok, raised, ◌>>=◌}
use krg_infra.Effects.Triple.{Triple, Triple-bind}
use krg_infra.Compose.Docker
use krg_infra.Compose.Docker.{Failure, Event, compose_call, Host, World, Stack}
use krg_infra.Compose.Handoff.{new_containers}

-- Whether an event is a listing of all the service's containers that has shown, apart from the old
-- ones, just the given containers, each as often as it is given.
abbrev pub shows : (svc : String) (old new : List String) → Event → Bool
shows svc old new (compose_call args (ok out)) =
    args == "ps" ∷ "--all" ∷ "--quiet" ∷ svc ∷ []
    && keep (λ c. not (contains old c)) (split out) == new
shows svc old new _ = false

-- The trace holds such a listing.
abbrev pub IsListed : (svc : String) (old new : List String) → List Event → Type 0
IsListed svc old new trace = any (shows svc old new) trace ≡ true

pub IsListed-cons :
    (svc : String) (old new : List String) (e : Event) (trace : List Event)
    → IsListed svc old new trace
    → IsListed svc old new (e ∷ trace)
IsListed-cons svc old new e trace h = ground arith

-- The same of a result.
abbrev pub AreListed :
    (svc : String) (old : List String) → Result Failure (List String) → List Event → Type 0
AreListed svc old (ok new) trace = IsListed svc old new trace
AreListed svc old (raised e) trace = Unit

-- The listing of a result.
abbrev AreShown :
    (svc : String) (old : List String) → Result Failure (List String) → List Event → Type 0
AreShown svc old (ok cids) trace = IsListed svc old (keep (λ c. not (contains old c)) cids) trace
AreShown svc old (raised e) trace = Unit

abbrev OutShown : (svc : String) (old : List String) → Result Failure String → List Event → Type 0
OutShown svc old (ok out) trace =
    IsListed svc old (keep (λ c. not (contains old c)) (split out)) trace
OutShown svc old (raised e) trace = Unit

module _ (H : Host) (stack : Stack) (svc : String) (old : List String) where
  listing_shows :
      (r : Result Failure String) (trace : List Event)
      → OutShown svc old r (compose_call ("ps" ∷ "--all" ∷ "--quiet" ∷ svc ∷ []) r ∷ trace)
  listing_shows (ok out) trace =
      ground (arith, beq_refl svc, beq_refl (keep (λ c. not (contains old c)) (split out)))
  listing_shows (raised e) trace = tt

  listing-OutShown :
      Triple
        (λ _. Unit {0})
        (Docker.compose H stack ("ps" ∷ "--all" ∷ "--quiet" ∷ svc ∷ []))
        (λ r w. OutShown svc old r w.trace)
  unfolding Docker.compose
  listing-OutShown = record {
    at = λ w h.
        listing_shows (Docker.compose H stack ("ps" ∷ "--all" ∷ "--quiet" ∷ svc ∷ []) w).0 w.trace;
  }

  all_containers-AreShown :
      Triple (λ _. Unit {0}) (Docker.all_containers H stack svc) (λ r w. AreShown svc old r w.trace)
  unfolding Docker.all_containers ◌>>=◌
  all_containers-AreShown =
      Triple-bind _ _ _ listing-OutShown (λ out. record { at = λ w h. h }) (λ e w h. tt)

  pub new_containers-AreListed :
      Triple (λ _. Unit {0}) (new_containers H stack svc old) (λ r w. AreListed svc old r w.trace)
  unfolding new_containers ◌>>=◌
  new_containers-AreListed =
      Triple-bind _ _ _ all_containers-AreShown (λ cids. record { at = λ w h. h }) (λ e w h. tt)
