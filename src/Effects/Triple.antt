-- ===== src/Effects/Triple.antt =====
-- What an action guarantees: from a state with `P`, its result and the state after are related by
-- `Q`. One rule for each way to build an action; `Keeps` is the case of an invariant.
use krg_infra.Prelude.{◌≡◌, refl, Bool, true, false, if◌then◌else◌, List, [], ◌∷◌}
use krg_infra.Effects.{
  Result, ok, raised, Exec, pure, throw, lift, gets, catch, recover, proceed, ◌>>=◌, map_exec,
}

pub record Triple {ℓ} {E S A : Type ℓ} (P : S → Type ℓ) (m : Exec E S A)
    (Q : Result E A → S → Type ℓ) : Type ℓ where
  pub at : (s : S) → P s → Q (m s).0 (m s).1

pub record Keeps {ℓ} {E S A : Type ℓ} (P : S → Type ℓ) (m : Exec E S A) : Type ℓ where
  pub at : (s : S) → P s → P (m s).1

module _ {ℓ} {E S A : Type ℓ} {P : S → Type ℓ} where
  pub Keeps-pure : (a : A) → Keeps P (pure {E = E} a)
  unfolding pure
  Keeps-pure a = record { at = λ s h. h }

  pub Keeps-throw : (e : E) → Keeps P (throw {A = A} e)
  unfolding throw
  Keeps-throw e = record { at = λ s h. h }

  pub Keeps-lift : (r : Result E A) → Keeps P (lift r)
  unfolding lift
  Keeps-lift r = record { at = λ s h. h }

  pub Keeps-gets : (f : S → A) → Keeps P (gets {E = E} f)
  unfolding gets
  Keeps-gets f = record { at = λ s h. h }

  pub Keeps-if :
      (b : Bool) (m n : Exec E S A) → Keeps P m → Keeps P n → Keeps P (if b then m else n)
  Keeps-if true m n km kn = km
  Keeps-if false m n km kn = kn

  recover-keeps :
      (r : Result E A) (h : E → Exec E S A) (s : S)
      → ((e : E) → Keeps P (h e))
      → P s
      → P (recover r h s).1
  recover-keeps (ok a) h s kh p = p
  recover-keeps (raised e) h s kh p = (kh e).at s p

  pub Keeps-catch :
      (m : Exec E S A) (h : E → Exec E S A)
      → Keeps P m
      → ((e : E) → Keeps P (h e))
      → Keeps P (catch m h)
  unfolding catch
  Keeps-catch m h km kh = record {
    at = λ s p. let (r, s') = m s in recover-keeps r h s' kh (km.at s p);
  }

module _ {ℓ} {E S A B : Type ℓ} {P : S → Type ℓ} where
  proceed-keeps :
      (r : Result E A) (f : A → Exec E S B) (s : S)
      → ((a : A) → Keeps P (f a))
      → P s
      → P (proceed r f s).1
  proceed-keeps (ok a) f s kf p = (kf a).at s p
  proceed-keeps (raised e) f s kf p = p

  pub Keeps-bind :
      (m : Exec E S A) (f : A → Exec E S B)
      → Keeps P m
      → ((a : A) → Keeps P (f a))
      → Keeps P (m >>= f)
  unfolding ◌>>=◌
  Keeps-bind m f km kf = record {
    at = λ s p. let (r, s') = m s in proceed-keeps r f s' kf (km.at s p);
  }

pub ruleset keeps_rules =
    (Keeps-pure, Keeps-throw, Keeps-lift, Keeps-gets, Keeps-if, Keeps-catch, Keeps-bind)

module _ {ℓ} {E S A B : Type ℓ} {P : S → Type ℓ} where
  pub Keeps-map_exec :
      (f : A → Exec E S B) (xs : List A) → ((a : A) → Keeps P (f a)) → Keeps P (map_exec f xs)
  unfolding map_exec
  Keeps-map_exec f [] kf = Keeps-pure []
  Keeps-map_exec f (x ∷ xs) kf =
      Keeps-bind (f x) _ (kf x)
        λ y. Keeps-bind (map_exec f xs) _ (Keeps-map_exec f xs kf) λ ys. Keeps-pure (y ∷ ys)

module _ {ℓ} {E S A : Type ℓ} {P : S → Type ℓ} where
  -- An invariant holds beside every result.
  pub Triple-of_Keeps : {m : Exec E S A} → Keeps P m → Triple P m (λ _. P)
  Triple-of_Keeps k = record { at = k.at }

module _ {ℓ} {E S A B : Type ℓ} {Q : Result E B → S → Type ℓ} where
  proceed-triple :
      (R : Result E A → S → Type ℓ) (r : Result E A) (f : A → Exec E S B) (s : S)
      → ((a : A) → Triple (R (ok a)) (f a) Q)
      → ((e : E) (s : S) → R (raised e) s → Q (raised e) s)
      → R r s
      → Q (proceed r f s).0 (proceed r f s).1
  proceed-triple R (ok a) f s tf fail p = (tf a).at s p
  proceed-triple R (raised e) f s tf fail p = fail e s p

  pub Triple-bind :
      {P : S → Type ℓ} (R : Result E A → S → Type ℓ) (m : Exec E S A) (f : A → Exec E S B)
      → Triple P m R
      → ((a : A) → Triple (R (ok a)) (f a) Q)
      → ((e : E) (s : S) → R (raised e) s → Q (raised e) s)
      → Triple P (m >>= f) Q
  unfolding ◌>>=◌
  Triple-bind R m f tm tf fail = record {
    at = λ s p. let (r, s') = m s in proceed-triple R r f s' tf fail (tm.at s p);
  }

module _ {ℓ} {E S A : Type ℓ} {P : S → Type ℓ} {Q : Result E A → S → Type ℓ} where
  -- Each branch knows how the test came out.
  pub Triple-if :
      (b : Bool) (m n : Exec E S A)
      → (b ≡ true → Triple P m Q)
      → (b ≡ false → Triple P n Q)
      → Triple P (if b then m else n) Q
  Triple-if true m n tm tn = tm refl
  Triple-if false m n tm tn = tn refl

  pub Triple-weaken :
      {P' : S → Type ℓ} {Q' : Result E A → S → Type ℓ} (m : Exec E S A)
      → ((s : S) → P s → P' s)
      → ((r : Result E A) (s : S) → Q' r s → Q r s)
      → Triple P' m Q'
      → Triple P m Q
  Triple-weaken m pre post t = record { at = λ s h. post _ _ (t.at s (pre s h)) }

module _ {ℓ} {E S A : Type ℓ} {P : S → Type ℓ} {Q R : Result E A → S → Type ℓ} where
  -- Two guarantees of one action hold together.
  pub Triple-and :
      {m : Exec E S A} → Triple P m Q → Triple P m R → Triple P m (λ r s. Q r s × R r s)
  Triple-and t u = record { at = λ s h. (t.at s h, u.at s h) }
