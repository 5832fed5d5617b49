-- ===== src/Compose/Docker/Footprint.antt =====
-- Which events the calls of compose-reload.py add to the trace, as invariants that they keep.
use text.Mathlib.TextEquality.{eq_iff}
use krg_infra.Prelude.{
  String, Bool, true, false, not, List, [], ◌∷◌, ◌≡◌, refl, ◌==◌, contains, text_eq, Bool-cases,
  inl, inr, arith,
}
use krg_infra.Compose.Docker.{Event, compose_call, docker_call, slept, Host, World}

abbrev pub first_word : List String → String
first_word [] = ""
first_word (w ∷ ws) = w

-- Calls that start, stop and change no container: queries, downloads, builds and dry runs.
abbrev pub is_asking : Event → Bool
is_asking (compose_call args r) =
    contains ("config" ∷ "ps" ∷ "pull" ∷ "--dry-run" ∷ "build" ∷ []) (first_word args)
is_asking (docker_call args r) = contains ("inspect" ∷ "image" ∷ "logs" ∷ []) (first_word args)
is_asking _ = false

-- Whether a docker call stops or removes containers.
abbrev pub is_retiring : String → Bool
is_retiring verb = contains ("stop" ∷ "rm" ∷ []) verb

-- What a handoff does without stopping a container by name: it asks, waits, starts containers and
-- creates drain files.
abbrev pub is_working : Event → Bool
is_working (compose_call args r) = true
is_working (docker_call args r) = not (is_retiring (first_word args))
is_working (slept n) = true
is_working _ = false

asking-ne-retiring :
    (verb : String)
    → contains ("inspect" ∷ "image" ∷ "logs" ∷ []) verb ≡ true
    → is_retiring verb ≡ false
asking-ne-retiring verb h = elim (Bool-cases ("inspect" == verb)) [
  | inl e ↦ rw (← (eq_iff "inspect" verb).0 e)
  | inr e ↦ elim (Bool-cases ("image" == verb)) [
    | inl f ↦ rw (← (eq_iff "image" verb).0 f)
    | inr f ↦ elim (Bool-cases ("logs" == verb)) [
      | inl g ↦ rw (← (eq_iff "logs" verb).0 g)
      | inr g ↦ ground arith
    ]
  ]
]

pub asking_is_working : (e : Event) → is_asking e ≡ true → is_working e ≡ true
asking_is_working (docker_call args r) h = rw (asking-ne-retiring (first_word args) h)
asking_is_working (compose_call args r) h = refl
asking_is_working _ h = cc

-- A property of traces that no event of a kind can break.
pub record IsClosed (kind : Event → Bool) (T : List Event → Type 0) : Type 0 where
  pub add : (e : Event) (trace : List Event) → kind e ≡ true → T trace → T (e ∷ trace)

pub asking_closed : {T : List Event → Type 0} → IsClosed is_working T → IsClosed is_asking T
asking_closed closed = record { add = λ e t h. closed.add e t (asking_is_working e h) }

abbrev pub Traced : (H : Host) → (List Event → Type 0) → World H → Type 0
Traced H T w = T w.trace
