-- ===== src/Compose/Mounts/Changed.antt =====
-- What `mounts_changed` answers.
use text.Mathlib.TextEquality.{eq_iff}
use krg_infra.Prelude.{
  String, Bool, false, not, Option, none, some, List, [], ◌∷◌, ◌≡◌, refl, arith, ◌==◌, text_eq,
  nat_eq, list_eq, option_eq, lookup, map, contains, UniqueKeys,
}
use krg_infra.Compose.Docker.{Mounts}
use krg_infra.Compose.Mounts.{moved, changed_from, mounts_changed}

lookup_fresh : (d : Mounts) (k : String) → contains (map (λ e. e.0) d) k ≡ false → lookup k d ≡ none
lookup_fresh [] k h = refl
lookup_fresh ((j, v) ∷ d) k h = ground (arith, lookup_fresh d k)

-- Whether a service's fingerprints differ, where both states have it.
abbrev pub differs_in : Option (List String) → Option (List String) → Bool
differs_in (some old) (some srcs) = not (old == srcs)
differs_in _ _ = false

changed_fresh :
    (prev cur : Mounts) (svc : String)
    → contains (map (λ e. e.0) cur) svc ≡ false
    → contains (changed_from prev cur) svc ≡ false
unfolding changed_from
changed_fresh prev [] svc h = refl
changed_fresh prev ((s, srcs) ∷ cur) svc h = ground (arith, changed_fresh prev cur svc)

moved-lookup :
    (prev : Mounts) (svc : String) (srcs : List String)
    → moved prev svc srcs ≡ differs_in (lookup svc prev) (some srcs)
unfolding moved
moved-lookup prev svc srcs = ground arith

changed-lookup :
    (prev cur : Mounts) (svc : String)
    → UniqueKeys cur
    → contains (changed_from prev cur) svc ≡ differs_in (lookup svc prev) (lookup svc cur)
unfolding changed_from
changed-lookup prev [] svc h = ground arith
changed-lookup prev ((s, srcs) ∷ cur) svc h = ground (
  arith,
  changed-lookup prev cur svc h.1,
  changed_fresh prev cur s h.0,
  moved-lookup prev s srcs,
  eq_iff s svc,
)

-- A service is forced exactly where both the last state and the current fingerprints have it and
-- its fingerprints differ. `cur` holds each service once, as a dict does.
pub mounts_changed_lem :
    (prev cur : Mounts) (svc : String)
    → UniqueKeys cur
    → contains (mounts_changed (some prev) cur) svc ≡ differs_in (lookup svc prev) (lookup svc cur)
unfolding mounts_changed
mounts_changed_lem prev cur svc h = changed-lookup prev cur svc h
