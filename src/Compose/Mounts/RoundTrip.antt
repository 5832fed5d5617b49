-- ===== src/Compose/Mounts/RoundTrip.antt =====
-- The round trip of the state file: `load_state` behind `save_state`.
use krg_infra.Prelude.{
  String, ◌<>◌, false, Option, none, some, List, [], ◌∷◌, ◌≡◌, refl, sym, ◌∙◌, ap, subst, arith,
  text_eq, nat_eq, list_eq, option_eq, lookup, contains, UniqueKeys, beq_refl,
}
use krg_infra.Effects.{ok}
use krg_infra.Effects.Triple.{Triple, Triple-bind}
use krg_infra.Compose.Docker.{Mounts, StateText, unreadable, not_object, object, Host, World}
use krg_infra.Compose.Mounts.{
  state_of, write_file, replace_file, save_state, mounts_changed, load_state,
}
use krg_infra.Compose.Mounts.Changed.{differs_in, mounts_changed_lem}

-- What is read where a text was written: the same, but for the order of a dict's keys, which the
-- writing sorts.
abbrev pub ReadsAs : (read written : StateText) → Type 0
ReadsAs (object version (some read)) (object version' (some written)) =
    (version ≡ version') × ((svc : String) → lookup svc read ≡ lookup svc written)
ReadsAs read written = read ≡ written

-- The files behave: what was written is read, and a file that replaces another is read in its place.
pub record KeepsFiles (H : Host) : Type 0 where
  pub written :
      (path : String) (text : StateText) (s : H.State)
      → (H.write_file path text s).0 ≡ ok tt
      → ReadsAs (H.load_file path (H.write_file path text s).1) text
  pub moved :
      (from to : String) (s : H.State)
      → (H.replace_file from to s).0 ≡ ok tt
      → H.load_file to (H.replace_file from to s).1 ≡ H.load_file from s

differs_in_same : (o : Option (List String)) → differs_in o o ≡ false
differs_in_same none = refl
differs_in_same (some srcs) = rw (beq_refl srcs)

none_contained : (xs : List String) → ((a : String) → contains xs a ≡ false) → xs ≡ []
none_contained [] h = refl
none_contained (x ∷ xs) h = let first = h x in ground (arith, beq_refl x)

-- Fingerprints by which no service has changed.
abbrev pub IsUnmoved : Mounts → StateText → Type 0
IsUnmoved mounts text =
    (prev : Mounts) × (load_state text ≡ ok (some prev))
    × ((svc : String) → lookup svc prev ≡ lookup svc mounts)
    × (mounts_changed (some prev) mounts ≡ [])

ReadsAs-IsUnmoved :
    (mounts : Mounts) (text : StateText)
    → UniqueKeys mounts
    → ReadsAs text (state_of mounts)
    → IsUnmoved mounts text
unfolding load_state
ReadsAs-IsUnmoved mounts unreadable unique h = cc
ReadsAs-IsUnmoved mounts not_object unique h = cc
ReadsAs-IsUnmoved mounts (object version none) unique h = cc
ReadsAs-IsUnmoved mounts (object version (some prev)) unique (same, lookups) = (
  prev,
  rw same refl,
  lookups,
  none_contained (mounts_changed (some prev) mounts) (λ svc.
      mounts_changed_lem prev mounts svc unique
      ∙ ap (λ o. differs_in o (lookup svc mounts)) (lookups svc)
      ∙ differs_in_same (lookup svc mounts)),
)

module _ (H : Host) (files : KeepsFiles H) (path : String) (mounts : Mounts) where
  abbrev Holds : String → World H → Type 0
  Holds at w = ReadsAs (H.load_file at w.host) (state_of mounts)

  write_file-Holds :
      (at : String)
      → Triple (λ _. Unit {0}) (write_file H at (state_of mounts)) (λ r w. r ≡ ok tt → Holds at w)
  unfolding write_file
  write_file-Holds at = record { at = λ w h p. files.written at (state_of mounts) w.host p }

  replace_file-Holds :
      (from to : String)
      → Triple (λ w. Holds from w) (replace_file H from to) (λ r w. r ≡ ok tt → Holds to w)
  unfolding replace_file
  replace_file-Holds from to = record {
    at = λ w h p.
        subst (λ text. ReadsAs text (state_of mounts)) (sym (files.moved from to w.host p)) h;
  }

  save_state-Holds :
      Triple (λ _. Unit {0}) (save_state H path mounts) (λ r w. r ≡ ok tt → Holds path w)
  unfolding save_state
  save_state-Holds =
      Triple-bind (λ r w. r ≡ ok tt → Holds (path <> ".tmp") w) _ _
        (write_file-Holds (path <> ".tmp"))
        (λ _. record { at = λ w h. (replace_file-Holds (path <> ".tmp") path).at w (h refl) })
        (λ e w h p. cc)

  -- On files that give back what is written and moved, up to the order of a dict's keys, if
  -- `save_state` ends without an error, then `load_state` reads in its file fingerprints that have
  -- the same entry for each service as those that were saved, and by them the same fingerprints
  -- force no service. `mounts` holds each service once, as a dict does.
  pub saved_state_forces_nothing :
      (w : World H)
      → UniqueKeys mounts
      → (save_state H path mounts w).0 ≡ ok tt
      → IsUnmoved mounts (H.load_file path (save_state H path mounts w).1.host)
  saved_state_forces_nothing w unique saved =
      ReadsAs-IsUnmoved mounts _ unique (save_state-Holds.at w tt saved)
