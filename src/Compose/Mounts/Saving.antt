-- ===== src/Compose/Mounts/Saving.antt =====
-- What `save_state` adds to the trace.
use krg_infra.Prelude.{String, ◌<>◌, List, ◌∷◌, ◌≡◌, refl, ap}
use krg_infra.Effects.{Result, ok}
use krg_infra.Effects.Triple.{Triple, Triple-bind, Triple-weaken}
use krg_infra.Compose.Docker.{Failure, Event, wrote, replaced, Mounts, Host}
use krg_infra.Compose.Docker.Footprint.{Traced}
use krg_infra.Compose.Mounts.{state_of, write_file, replace_file, save_state}

module _ (H : Host) (T : List Event → Type 0) (mounts : Mounts) where
  write_file-Triple :
      (path : String)
      → Triple (Traced H T) (write_file H path (state_of mounts)) (λ r w.
        (before : List Event) × (w.trace ≡ wrote path (state_of mounts) r ∷ before) × T before)
  unfolding write_file
  write_file-Triple path = record { at = λ w h. (w.trace, refl, h) }

  replace_file-Triple :
      (from to : String) (r : Result Failure (Unit {0}))
      → Triple
          (λ w.
            (before : List Event) × (w.trace ≡ wrote from (state_of mounts) r ∷ before) × T before)
          (replace_file H from to)
          (λ r' w.
            (before : List Event) × (w.trace
              ≡ replaced from to r' ∷ wrote from (state_of mounts) r ∷ before)
            × T before)
  unfolding replace_file
  replace_file-Triple from to r = record {
    at = λ w (before, last, h).
        let r' = (replace_file H from to w).0 in
        (before, ap (λ t. replaced from to r' ∷ t) last, h);
  }

  pub save_state-Triple :
      (path : String)
      → Triple (Traced H T) (save_state H path mounts) (λ r w.
        (r ≡ ok tt)
        → (before : List Event) × (w.trace
            ≡ replaced (path <> ".tmp") path (ok tt)
              ∷ wrote (path <> ".tmp") (state_of mounts) (ok tt)
              ∷ before)
          × T before)
  unfolding save_state
  save_state-Triple path =
      Triple-bind _ _ _ (write_file-Triple (path <> ".tmp"))
        (λ _.
          Triple-weaken _ (λ w h. h) (λ r w (before, last, h) e. (before, cc, h))
            (replace_file-Triple (path <> ".tmp") path (ok tt)))
        (λ e w h p. cc)
