-- ===== src/Scratch/Restore/Safety.antt =====
-- `restore_one` destroys what a path names only by restoring: it puts a verified copy there, or
-- removes a cold file of which a verified copy is in place.
use krg_infra.Prelude.{
  ℕ, String, ◌<>◌, Bool, true, false, text_eq, nat_eq, list_eq, List, [], ◌∷◌, none, some, ◌≡◌, ◌≢◌,
  refl, Bool-cases, inl, inr,
}
use krg_infra.Effects.{◌>>=◌}
use krg_infra.Effects.Triple.{Keeps, Keeps-bind, Keeps-if, Keeps-pure}
use krg_infra.Scratch.Os.{Event, stat, is_link, realpath, readlink, Host, perform, attempt}
use krg_infra.Scratch.Paths.{dirname, join}
use krg_infra.Scratch.Steps.{Traced, Steps-perform, Steps-bind, Steps-attempt, Keeps-of_Steps}
use krg_infra.Scratch.Trace.{Guarded, Guarded-IsClosed, IsClosed, Keeps-perform}
use krg_infra.Scratch.Guarding.{SafeAnd}
use krg_infra.Scratch.Restore.{
  Areas, under_any, absolute, expected_target, is_pinned, restore_target, restore_link, restore_one,
}
use krg_infra.Scratch.Restore.Restored.{IsRestoring}
use krg_infra.Scratch.Restore.Target.{Found, restore_target-Steps}

module _ (H : Host) (areas : Areas) (p : String)
    (not_temporary : (front : String) → front <> ".tmp" ≢ p) where
  abbrev Allowed : Event → List Event → Type 0
  Allowed = IsRestoring H areas.cold_roots p

  abbrev Safe : List Event → Type 0
  Safe = Guarded Allowed p

  abbrev closed : IsClosed p Safe
  closed = Guarded-IsClosed Allowed p

  module _ (fuel : ℕ) (keep_cold : Bool) where
    Keeps-expected_target :
        (link_parent link_real : String) (pairs : List (String × String))
        → Keeps (Traced H Safe) (expected_target H link_parent link_real pairs)
    unfolding expected_target
    Keeps-expected_target link_parent link_real [] = Keeps-pure none
    Keeps-expected_target link_parent link_real ((sroot, croot) ∷ pairs) =
        Keeps-if _ _ _
          (Keeps-bind _ _
            (Keeps-perform H closed (realpath (join croot (H.relpath link_real sroot))) (λ r. refl))
            λ (expected : String). Keeps-pure (some expected))
          (Keeps-expected_target link_parent link_real pairs)

    Keeps-is_pinned :
        (link link_parent target : String) (pairs : List (String × String))
        → Keeps (Traced H Safe) (is_pinned H link link_parent target pairs)
    unfolding is_pinned
    Keeps-is_pinned link link_parent target [] = Keeps-pure true
    Keeps-is_pinned link link_parent target (pair ∷ pairs) =
        Keeps-bind _ _ (Keeps-expected_target _ _ (pair ∷ pairs)) λ expected. Keeps-pure _

    Keeps-restore_target :
        (link target : String)
        → under_any target areas.cold_roots ≡ true
        → Keeps
            (Traced H Safe)
            (attempt H (perform H (stat target)) >>= restore_target H fuel keep_cold link target)
    Keeps-restore_target link target inside = Keeps-of_Steps H _ (
        Steps-bind H
          (λ found.
            SafeAnd H Allowed p
              (Found H areas p not_temporary link target inside fuel keep_cold found))
          _ _
          (Steps-attempt H
            (λ found.
              SafeAnd H Allowed p
                (Found H areas p not_temporary link target inside fuel keep_cold found))
            Safe _
            (Steps-perform H (stat target) (λ tst t g. (((λ d. cc), g), inl (refl, tt)))
              (λ e t g. ((λ d. cc), g)))
            (λ t h. (h, tt)) (λ t h. h))
          (restore_target-Steps H areas p not_temporary link target inside fuel keep_cold))

    Keeps-restore_link :
        (link link_parent : String)
        → Keeps (Traced H Safe) (restore_link H fuel areas keep_cold link link_parent)
    unfolding restore_link
    Keeps-restore_link link link_parent =
        Keeps-bind _ _ (Keeps-perform H closed (readlink link) (λ r. refl)) λ text.
          Keeps-bind _ _ (Keeps-perform H closed (realpath (absolute link text)) (λ r. refl))
            λ (target : String). elim (Bool-cases (under_any target areas.cold_roots)) [
              | inl inside ↦ rw inside (
                  Keeps-bind _ _ (Keeps-is_pinned link link_parent target areas.pairs) λ pinned.
                    Keeps-if _ _ _ (Keeps-pure false) (Keeps-restore_target link target inside))
              | inr outside ↦ rw outside (Keeps-pure false)
            ]

    pub Keeps-restore_one :
        (link : String) → Keeps (Traced H Safe) (restore_one H fuel areas keep_cold link)
    unfolding restore_one
    Keeps-restore_one link =
        Keeps-bind _ _ (Keeps-perform H closed (is_link link) (λ r. refl)) λ linked.
          Keeps-if _ _ _ (Keeps-pure false) (
            Keeps-bind _ _ (Keeps-perform H closed (realpath (dirname link)) (λ r. refl))
              λ link_parent.
                Keeps-if _ _ _ (Keeps-pure false) (Keeps-restore_link link link_parent))
