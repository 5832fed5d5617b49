-- ===== src/Scratch/Guarding.antt =====
-- Proofs that what a path names is only destroyed by allowed events, in the presence of a fact that
-- lasts.
use krg_infra.Prelude.{◌≡◌, Bool, true, false, String, List}
use krg_infra.Effects.{Result}
use krg_infra.Effects.Triple.{Keeps}
use krg_infra.Scratch.Os.{Failure, Call, Reply, Event, did, Host, Run, perform}
use krg_infra.Scratch.Steps.{Traced, Steps, Steps-weaken, Steps-of_Keeps}
use krg_infra.Scratch.Trace.{
  destroys, Guarded, Guarded-and-IsClosed, IsClosed, Lasts, Keeps-perform,
}

abbrev pub Anything : List Event → Type 0
Anything t = Unit

pub Anything-Lasts : Lasts Anything
Anything-Lasts = record { add = λ e t h. tt }

-- What is known if a test came out true.
abbrev pub IfTrue : Bool → (List Event → Type 0) → List Event → Type 0
IfTrue b P t = b ≡ true → P t

pub IfTrue-Lasts : {P : List Event → Type 0} (b : Bool) → Lasts P → Lasts (IfTrue b P)
IfTrue-Lasts b lasts = record { add = λ e t h yes_b. lasts.add e t (h yes_b) }

module _ (H : Host) (Allowed : Event → List Event → Type 0) (path : String) where
  abbrev pub SafeAnd : (List Event → Type 0) → List Event → Type 0
  SafeAnd S t = Guarded Allowed path t × S t

  pub SafeAnd-IsClosed : {S : List Event → Type 0} → Lasts S → IsClosed path (SafeAnd S)
  SafeAnd-IsClosed {S} lasts = Guarded-and-IsClosed Allowed S path lasts

  -- An action that destroys nothing.
  pub quiet :
      {A : Type 0} {S : List Event → Type 0} (lasts : Lasts S) (m : Run H A)
      → Keeps (Traced H (SafeAnd S)) m
      → Steps H (SafeAnd S) m (λ _. SafeAnd S) (Guarded Allowed path)
  quiet lasts m k = Steps-of_Keeps H m (λ t h. h.0) k

  pub call :
      {S : List Event → Type 0} (lasts : Lasts S) (c : Call)
      → ((r : Result Failure (Reply c)) → destroys path (did c r) ≡ false)
      → Steps H (SafeAnd S) (perform H c) (λ _. SafeAnd S) (Guarded Allowed path)
  call lasts c h = quiet lasts _ (Keeps-perform H (SafeAnd-IsClosed lasts) c h)

  -- An action behind which no more than safety is wanted.
  pub calm :
      {A : Type 0} {S : List Event → Type 0} {Q : A → List Event → Type 0} (m : Run H A)
      → Keeps (Traced H (Guarded Allowed path)) m
      → ((a : A) (t : List Event) → Guarded Allowed path t → Q a t)
      → Steps H (SafeAnd S) m Q (Guarded Allowed path)
  calm m k good = Steps-weaken H m (λ t h. h.0) good (λ t h. h) (Steps-of_Keeps H m (λ t h. h) k)
