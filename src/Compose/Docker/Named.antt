-- ===== src/Compose/Docker/Named.antt =====
-- The services that `services_of` and `services_by_name` find for names of containers.
use text.Mathlib.TextEquality.{eq_iff}
use krg_infra.Prelude.{
  String, true, Option, none, some, List, [], ◌∷◌, ◌≡◌, refl, ap, arith, ◌==◌, text_eq, list_eq,
  lookup, contains, Among, inl, inr, ◌⊎◌, Bool-cases,
}
use krg_infra.Text.{split_at}
use krg_infra.Compose.Docker
use krg_infra.Compose.Docker.{Failure, Event, compose_call, Specs, Host, World, Stack}

-- A service that is found comes from one of the names.
pub services_of_lem :
    (svc_of : List (String × String)) (names : List String) (svc : String)
    → contains (Docker.services_of svc_of names) svc ≡ true
    → (name : String) × Among name names × (lookup name svc_of ≡ some svc)
unfolding Docker.services_of
services_of_lem svc_of [] svc held = cc
services_of_lem svc_of (n ∷ names) svc held =
    let later : contains (Docker.services_of svc_of names) svc ≡ true
        → (name : String) × Among name (n ∷ names) × (lookup name svc_of ≡ some svc) =
      λ h.
        let (name, among, found) = services_of_lem svc_of names svc h in (name, inr among, found) in
    by_entry (lookup n svc_of) refl later held
  where
    by_entry :
        (o : Option String)
        → lookup n svc_of ≡ o
        → (contains (Docker.services_of svc_of names) svc ≡ true
            → (name : String) × Among name (n ∷ names) × (lookup name svc_of ≡ some svc))
        → contains
            (elim o [
              | none ↦ Docker.services_of svc_of names
              | some s ↦ s ∷ Docker.services_of svc_of names
            ])
            svc
          ≡ true
        → (name : String) × Among name (n ∷ names) × (lookup name svc_of ≡ some svc)
    by_entry none e later h = later h
    by_entry (some s) e later h = elim (Bool-cases (s == svc)) [
      | inl same ↦ let equal : s ≡ svc = (eq_iff s svc).0 same in (n, inl refl, cc)
      | inr other ↦ later (ground arith)
    ]

note_service_lem :
    (words : List String) (known : List (String × String)) (name svc : String)
    → Among (name, svc) (Docker.note_service words known)
    → (words ≡ name ∷ svc ∷ []) ⊎ Among (name, svc) known
unfolding Docker.note_service
note_service_lem [] known name svc among = inr among
note_service_lem (a ∷ []) known name svc among = inr among
note_service_lem (a ∷ b ∷ []) known name svc (inl same) =
    inl (ap (λ (p : String × String). p.0 ∷ p.1 ∷ []) same)
note_service_lem (a ∷ b ∷ []) known name svc (inr among) = inr among
note_service_lem (a ∷ b ∷ c ∷ words) known name svc among = inr among

-- An entry of the dict comes from one of the lines.
pub services_by_name_lem :
    (lines : List String) (known : List (String × String)) (name svc : String)
    → Among (name, svc) (Docker.services_by_name lines known)
    → ((line : String) × Among line lines × (split_at 9 line ≡ name ∷ svc ∷ []))
      ⊎ Among (name, svc) known
unfolding Docker.services_by_name
services_by_name_lem [] known name svc among = inr among
services_by_name_lem (line ∷ lines) known name svc among =
    elim (services_by_name_lem lines (Docker.note_service (split_at 9 line) known) name svc among) [
      | inl (l, there, given) ↦ inl (l, inr there, given)
      | inr noted ↦ elim (note_service_lem (split_at 9 line) known name svc noted) [
        | inl given ↦ inl (line, inl refl, given)
        | inr before ↦ inr before
      ]
    ]
