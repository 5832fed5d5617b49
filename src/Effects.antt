-- ===== src/Effects.antt =====
-- Python code that acts on the outside world and may raise: an action takes the state before and
-- gives its result, a value or the exception that left it, beside the state after.
pub mod Triple
pub mod Fallible
use krg_infra.Prelude.{List, [], ◌∷◌}

pub data Result {ℓ κ} (E : Type ℓ) (A : Type κ) : Type (ℓ ⊔ κ) where
  ok : A → Result E A
  raised : E → Result E A

abbrev pub Exec {ℓ κ μ} : Type ℓ → Type κ → Type μ → Type (ℓ ⊔ κ ⊔ μ)
Exec E S A = S → Result E A × S

module _ {ℓ} {E S A : Type ℓ} where
  unfoldable pub pure : A → Exec E S A
  pure a s = (ok a, s)

  unfoldable pub throw : E → Exec E S A
  throw e s = (raised e, s)

  -- A value that does not touch the state, or the exception of computing it.
  unfoldable pub lift : Result E A → Exec E S A
  lift r s = (r, s)

  unfoldable pub gets : (S → A) → Exec E S A
  gets f s = (ok (f s), s)

  -- What happens after an action has ended in `r`, with a handler for exceptions.
  abbrev pub recover : Result E A → (E → Exec E S A) → Exec E S A
  recover (ok a) h s = (ok a, s)
  recover (raised e) h s = h e s

  -- `try: m except e: h(e)`; a handler passes on what it does not catch.
  unfoldable pub catch : Exec E S A → (E → Exec E S A) → Exec E S A
  catch m h s = let (r, s') = m s in recover r h s'

module _ {ℓ} {E S A B : Type ℓ} where
  abbrev pub proceed : Result E A → (A → Exec E S B) → Exec E S B
  proceed (ok a) f s = f a s
  proceed (raised e) f s = (raised e, s)

  infixl 10 ◌>>=◌ ◌>>◌
  unfoldable pub ◌>>=◌ : Exec E S A → (A → Exec E S B) → Exec E S B
  unfolding pure throw lift gets catch
  ◌>>=◌ m f s = let (r, s') = m s in proceed r f s'

  abbrev pub ◌>>◌ : Exec E S A → Exec E S B → Exec E S B
  m >> k = m >>= λ _. k

module _ {ℓ} {E S A B : Type ℓ} where
  -- `[f(x) for x in xs]`
  unfoldable pub map_exec : (A → Exec E S B) → List A → Exec E S (List B)
  map_exec f [] = pure []
  map_exec f (x ∷ xs) = do y ← f x; ys ← map_exec f xs; pure (y ∷ ys)
