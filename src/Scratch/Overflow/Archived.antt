-- ===== src/Scratch/Overflow/Archived.antt =====
-- What has happened before `archive_one` replaces a local file.
use krg_infra.Prelude.{ℕ, String, true, false, text_eq, nat_eq, List, Option, none, some, ◌≡◌, inr}
use krg_infra.Effects.{Result, ok}
use krg_infra.Effects.Triple.{Keeps}
use krg_infra.Scratch.Os.{
  Failure, Stat, Event, did, Call, Reply, stat, symlink, rename, Host, Run, perform,
}
use krg_infra.Scratch.Steps.{Steps, Traced}
use krg_infra.Scratch.Trace.{destroys, Guarded, IsClosed, Lasts, After}
use krg_infra.Scratch.Copying.{same_file}
use krg_infra.Scratch.Guarding
use krg_infra.Scratch.Copying.ReadBack.{Published}
use krg_infra.Scratch.Guarding.{Anything}

-- What is known of an optional value.
abbrev pub IfSome : Option String → (List Event → Type 0) → List Event → Type 0
IfSome none P t = Unit
IfSome (some a) P t = P t

pub IfSome-Lasts : {P : List Event → Type 0} (o : Option String) → Lasts P → Lasts (IfSome o P)
IfSome-Lasts none lasts = record { add = λ e t h. tt }
IfSome-Lasts (some a) lasts = record { add = lasts.add }

module _ (H : Host) (path dest : String) where
  -- And then the file was looked at again, and was the same.
  abbrev pub Archived : List Event → Type 0
  Archived t =
      (st st2 : Stat) × (part : String) × (fd : ℕ) × (same_file st2 st ≡ true)
      × After (did (stat path) (ok st2)) (Published H path dest st part fd) t

  pub Archived-Lasts : Lasts Archived
  Archived-Lasts = record {
    add = λ e t (st, st2, part, fd, same, h). (st, st2, part, fd, same, inr h);
  }

  -- The file may only be replaced, by a link to the copy, and when the copy is there.
  abbrev pub IsSwap : Event → List Event → Type 0
  IsSwap e t =
      (tmp : String) × (r : Result Failure (Unit {0})) × (e ≡ did (rename tmp path) r)
      × After (did (symlink dest tmp) (ok tt)) Archived t

  abbrev pub Safe : List Event → Type 0
  Safe = Guarded IsSwap path

  abbrev pub SafeAnd : (List Event → Type 0) → List Event → Type 0
  SafeAnd = Guarding.SafeAnd H IsSwap path

  pub SafeAnd-IsClosed : {S : List Event → Type 0} → Lasts S → IsClosed path (SafeAnd S)
  SafeAnd-IsClosed lasts = Guarding.SafeAnd-IsClosed H IsSwap path lasts

  pub quiet :
      {A : Type 0} {S : List Event → Type 0} (lasts : Lasts S) (m : Run H A)
      → Keeps (Traced H (SafeAnd S)) m
      → Steps H (SafeAnd S) m (λ _. SafeAnd S) Safe
  quiet lasts m k = Guarding.quiet H IsSwap path lasts m k

  pub call :
      {S : List Event → Type 0} (lasts : Lasts S) (c : Call)
      → ((r : Result Failure (Reply c)) → destroys path (did c r) ≡ false)
      → Steps H (SafeAnd S) (perform H c) (λ _. SafeAnd S) Safe
  call lasts c h = Guarding.call H IsSwap path lasts c h
