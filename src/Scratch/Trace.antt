-- ===== src/Scratch/Trace.antt =====
-- How the traces of the two tools are read: which events may destroy what a path names, and what
-- has been read from and written to a descriptor.
use krg_infra.Prelude.{
  ℕ, zero, suc, String, Bool, true, false, ◌||◌, List, [], ◌∷◌, ◌++◌, ◌==◌, text_eq, nat_eq,
  if◌then◌else◌, ◌≡◌, refl, ◌⊎◌, inl, inr,
}
use krg_infra.Effects.{Result, ok}
use krg_infra.Effects.Triple.{Keeps}
use krg_infra.Scratch.Os.{
  Failure, Bytes, Entry, Call, stat, lstat, is_link, is_dir, is_mount, realpath, readlink, list_dir,
  run, clock, close, mkdir, chmod, write_text, write_entry, open_null, unlink, rename, open_read,
  open_new, open_append, open_truncated, read, rewind, write, Reply, Event, did, Host, perform,
}
use krg_infra.Scratch.Steps.{Traced}

-- Whether a call may remove, replace or change what a path names, or move it away. (`open_new` and
-- `symlink` fail where something is there.)
abbrev pub destroys : String → Event → Bool
destroys p (did (unlink q) r) = q == p
destroys p (did (rename from to) r) = from == p || to == p
destroys p (did (open_append q) r) = q == p
destroys p (did (open_truncated q) r) = q == p
destroys p _ = false

-- The calls that change nothing on any file system.
abbrev pub asks : Call → Bool
asks (stat p) = true
asks (lstat p) = true
asks (is_link p) = true
asks (is_dir p) = true
asks (is_mount p) = true
asks (realpath p) = true
asks (readlink p) = true
asks (list_dir p) = true
asks (run args) = true
asks clock = true
asks open_null = true
asks (close fd) = true
asks _ = false

pub asking_spares :
    (p : String) (c : Call) (r : Result Failure (Reply c))
    → asks c ≡ true
    → destroys p (did c r) ≡ false
asking_spares p (unlink q) r h = cc
asking_spares p (rename from to) r h = cc
asking_spares p (open_append q) r h = cc
asking_spares p (open_truncated q) r h = cc
asking_spares p _ r h = refl

-- An invariant of the calls that only ask.
pub record IsAsked (H : Host) (T : List Event → Type 0) : Type 0 where
  pub at : (c : Call) → asks c ≡ true → Keeps (Traced H T) (perform H c)

-- Each event that may destroy what `p` names is one that is safe after the trace before it.
abbrev pub Guarded : (Event → List Event → Type 0) → String → List Event → Type 0
Guarded Safe p [] = Unit
Guarded Safe p (e ∷ t) = (destroys p e ≡ true → Safe e t) × Guarded Safe p t

-- `P` held at some time.
abbrev pub Earlier : (List Event → Type 0) → List Event → Type 0
Earlier P [] = P []
Earlier P (e ∷ t) = P (e ∷ t) ⊎ Earlier P t

-- The event happened at a time at which `P` held.
abbrev pub After : Event → (List Event → Type 0) → List Event → Type 0
After e P [] = Unit {0} × ⊥
After e P (d ∷ t) = ((d ≡ e) × P t) ⊎ After e P t

pub Earlier-now : (P : List Event → Type 0) (t : List Event) → P t → Earlier P t
Earlier-now P [] h = h
Earlier-now P (e ∷ t) h = inl h

pub Earlier-map :
    (P Q : List Event → Type 0) (t : List Event)
    → ((t : List Event) → P t → Q t)
    → Earlier P t
    → Earlier Q t
Earlier-map P Q [] f h = f [] h
Earlier-map P Q (e ∷ t) f (inl h) = inl (f (e ∷ t) h)
Earlier-map P Q (e ∷ t) f (inr h) = inr (Earlier-map P Q t f h)

-- A fact that does not depend on the time.
pub Earlier-fact :
    {C : Type 0} (P : List Event → Type 0) (t : List Event)
    → ((t : List Event) → P t → C)
    → Earlier P t
    → C
Earlier-fact P [] f h = f [] h
Earlier-fact P (e ∷ t) f (inl h) = f (e ∷ t) h
Earlier-fact P (e ∷ t) f (inr h) = Earlier-fact P t f h

pub After-map :
    (e : Event) (P Q : List Event → Type 0) (t : List Event)
    → ((t : List Event) → P t → Q t)
    → After e P t
    → After e Q t
After-map e P Q [] f h = absurd h.1
After-map e P Q (d ∷ t) f (inl h) = inl (h.0, f t h.1)
After-map e P Q (d ∷ t) f (inr h) = inr (After-map e P Q t f h)

-- The first bytes of a buffer.
abbrev pub take : ℕ → Bytes → Bytes
take zero bs = []
take (suc n) [] = []
take (suc n) (b ∷ bs) = b ∷ take n bs

-- The bytes read from a descriptor since it was opened for reading or rewound.
abbrev pub read_from : ℕ → List Event → Bytes
read_from fd [] = []
read_from fd (did (open_read q) (ok n) ∷ t) =
    let earlier = read_from fd t in if n == fd then [] else earlier
read_from fd (did (rewind n) (ok u) ∷ t) =
    let earlier = read_from fd t in if n == fd then [] else earlier
read_from fd (did (read n) (ok bs) ∷ t) =
    let earlier = read_from fd t in if n == fd then earlier ++ bs else earlier
read_from fd (_ ∷ t) = read_from fd t

-- The bytes written to a descriptor since a new file was opened for it; `os.write` says how many it
-- has taken.
abbrev pub written_to : ℕ → List Event → Bytes
written_to fd [] = []
written_to fd (did (open_new q) (ok n) ∷ t) =
    let earlier = written_to fd t in if n == fd then [] else earlier
written_to fd (did (write n bs) (ok k) ∷ t) =
    let earlier = written_to fd t in if n == fd then earlier ++ take k bs else earlier
written_to fd (_ ∷ t) = written_to fd t

-- A property of traces that only an event that may destroy what `p` names can break.
pub record IsClosed (p : String) (T : List Event → Type 0) : Type 0 where
  pub add : (e : Event) (t : List Event) → destroys p e ≡ false → T t → T (e ∷ t)

-- A property of traces that nothing can break.
pub record Lasts (T : List Event → Type 0) : Type 0 where
  pub add : (e : Event) (t : List Event) → T t → T (e ∷ t)

pub Guarded-IsClosed :
    (Safe : Event → List Event → Type 0) (p : String) → IsClosed p (Guarded Safe p)
Guarded-IsClosed Safe p = record { add = λ e t h g. ((λ d. cc), g) }

pub Guarded-and-IsClosed :
    (Safe : Event → List Event → Type 0) (S : List Event → Type 0) (p : String)
    → Lasts S
    → IsClosed p (λ t. Guarded Safe p t × S t)
Guarded-and-IsClosed Safe S p lasts = record {
  add = λ e t h (g, s). (((λ d. cc), g), lasts.add e t s);
}

pub Earlier-Lasts : (P : List Event → Type 0) → Lasts (Earlier P)
Earlier-Lasts P = record { add = λ e t h. inr h }

pub After-Lasts : (e : Event) (P : List Event → Type 0) → Lasts (After e P)
After-Lasts e P = record { add = λ d t h. inr h }

pub with-IsClosed :
    {p : String} (S T : List Event → Type 0) → Lasts S → IsClosed p T → IsClosed p (λ t. S t × T t)
with-IsClosed S T lasts closed = record {
  add = λ e t h (s, k). (lasts.add e t s, closed.add e t h k);
}

module _ (H : Host) {p : String} {T : List Event → Type 0} (closed : IsClosed p T) where
  pub Keeps-perform :
      (c : Call)
      → ((r : Result Failure (Reply c)) → destroys p (did c r) ≡ false)
      → Keeps (Traced H T) (perform H c)
  unfolding perform
  Keeps-perform c h = record { at = λ w t. closed.add _ _ (h _) t }

  pub IsClosed-IsAsked : IsAsked H T
  IsClosed-IsAsked = record { at = λ c h. Keeps-perform c (λ r. asking_spares p c r h) }

  -- The same for calls that stand where an action with no value, or with a number, is wanted.
  pub Keeps-close : (fd : ℕ) → Keeps {A = Unit {0}} (Traced H T) (perform H (close fd))
  Keeps-close fd = Keeps-perform (close fd) (λ r. refl)

  pub Keeps-unlink :
      (q : String) → (q == p) ≡ false → Keeps {A = Unit {0}} (Traced H T) (perform H (unlink q))
  Keeps-unlink q h = Keeps-perform (unlink q) (λ r. h)

  pub Keeps-mkdir :
      (q : String) (mode : ℕ) → Keeps {A = Unit {0}} (Traced H T) (perform H (mkdir q mode))
  Keeps-mkdir q mode = Keeps-perform (mkdir q mode) (λ r. refl)

  pub Keeps-chmod :
      (q : String) (mode : ℕ) → Keeps {A = Unit {0}} (Traced H T) (perform H (chmod q mode))
  Keeps-chmod q mode = Keeps-perform (chmod q mode) (λ r. refl)

  pub Keeps-write_text :
      (fd : ℕ) (text : String) → Keeps {A = Unit {0}} (Traced H T) (perform H (write_text fd text))
  Keeps-write_text fd text = Keeps-perform (write_text fd text) (λ r. refl)

  pub Keeps-write_entry :
      (fd : ℕ) (entry : Entry)
      → Keeps {A = Unit {0}} (Traced H T) (perform H (write_entry fd entry))
  Keeps-write_entry fd entry = Keeps-perform (write_entry fd entry) (λ r. refl)

  pub Keeps-open_append :
      (q : String) → (q == p) ≡ false → Keeps {A = ℕ} (Traced H T) (perform H (open_append q))
  Keeps-open_append q h = Keeps-perform (open_append q) (λ r. h)

  pub Keeps-open_null : Keeps {A = ℕ} (Traced H T) (perform H open_null)
  Keeps-open_null = Keeps-perform open_null (λ r. refl)
