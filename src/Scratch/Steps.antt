-- ===== src/Scratch/Steps.antt =====
-- What the actions of the two tools guarantee about the trace: from a trace with `P`, an action ends
-- with `Q` of its value, or raises with `F`.
use krg_infra.Prelude.{
  ◌≡◌, refl, subst, Bool, true, false, if◌then◌else◌, Option, none, some, List, ◌∷◌,
}
use krg_infra.Effects.{Result, ok, raised, pure, throw, lift, catch, recover, proceed, ◌>>=◌}
use krg_infra.Effects.Triple.{Keeps, Keeps-bind, Keeps-lift, Keeps-pure, Keeps-throw, Keeps-catch}
use krg_infra.Scratch.Os.{
  OsError, Failure, os_error, system_exit, other_exception, fuel_spent, Call, Reply, Event, did,
  Host, World, Run, perform, finally, on_os_error, except_os_error, attempt,
}

abbrev pub Traced : (H : Host) → (List Event → Type 0) → World H → Type 0
Traced H T w = T w.trace

abbrev pub Outcome :
    {A : Type 0}
    → (A → List Event → Type 0)
    → (List Event → Type 0)
    → Result Failure A
    → List Event
    → Type 0
Outcome Q F (ok a) t = Q a t
Outcome Q F (raised e) t = F t

pub record Steps {A : Type 0} (H : Host) (P : List Event → Type 0) (m : Run H A)
    (Q : A → List Event → Type 0) (F : List Event → Type 0) : Type 0 where
  pub at : (w : World H) → P w.trace → Outcome Q F (m w).0 (m w).1.trace

module _ (H : Host) where
  Outcome-of_perform :
      (c : Call) (P F : List Event → Type 0) (Q : Reply c → List Event → Type 0) (t : List Event)
      → ((a : Reply c) → P t → Q a (did c (ok a) ∷ t))
      → ((e : Failure) → P t → F (did c (raised e) ∷ t))
      → P t
      → (r : Result Failure (Reply c)) → Outcome Q F r (did c r ∷ t)
  Outcome-of_perform c P F Q t good bad h (ok a) = good a h
  Outcome-of_perform c P F Q t good bad h (raised e) = bad e h

  pub Steps-perform :
      {P F : List Event → Type 0} (c : Call) {Q : Reply c → List Event → Type 0}
      → ((a : Reply c) (t : List Event) → P t → Q a (did c (ok a) ∷ t))
      → ((e : Failure) (t : List Event) → P t → F (did c (raised e) ∷ t))
      → Steps H P (perform H c) Q F
  unfolding perform
  Steps-perform {P} {F} c {Q} good bad = record {
    at = λ w h.
        Outcome-of_perform c P F Q w.trace (λ a. good a w.trace) (λ e. bad e w.trace) h
          (H.answer c w.host).0;
  }

  module _ {A : Type 0} {F : List Event → Type 0} {Q : A → List Event → Type 0} where
    pub Steps-pure :
        {P : List Event → Type 0} (a : A)
        → ((t : List Event) → P t → Q a t)
        → Steps H P (pure a) Q F
    unfolding pure
    Steps-pure a f = record { at = λ w h. f w.trace h }

    pub Steps-throw :
        {P : List Event → Type 0} (e : Failure)
        → ((t : List Event) → P t → F t)
        → Steps H P (throw e) Q F
    unfolding throw
    Steps-throw e f = record { at = λ w h. f w.trace h }

    -- Each branch knows how the test came out.
    pub Steps-if :
        {P : List Event → Type 0} (b : Bool) (m n : Run H A)
        → (b ≡ true → Steps H P m Q F)
        → (b ≡ false → Steps H P n Q F)
        → Steps H P (if b then m else n) Q F
    Steps-if true m n tm tn = tm refl
    Steps-if false m n tm tn = tn refl

    -- A fact that the state before shows and that does not change.
    pub Steps-given :
        {C : Type 0} {P : List Event → Type 0} (m : Run H A)
        → ((t : List Event) → P t → C)
        → (C → Steps H P m Q F)
        → Steps H P m Q F
    Steps-given m fact go = record { at = λ w h. (go (fact w.trace h)).at w h }

    -- Something that the state before names.
    pub Steps-some :
        {X : Type 0} {P : X → List Event → Type 0} (m : Run H A)
        → ((x : X) → Steps H (P x) m Q F)
        → Steps H (λ t. (x : X) × P x t) m Q F
    Steps-some m go = record { at = λ w h. (go h.0).at w h.1 }

    weaken-Outcome :
        {Q' : A → List Event → Type 0} {F' : List Event → Type 0} (r : Result Failure A)
        (t : List Event)
        → ((a : A) (t : List Event) → Q' a t → Q a t)
        → ((t : List Event) → F' t → F t)
        → Outcome Q' F' r t
        → Outcome Q F r t
    weaken-Outcome (ok a) t good bad h = good a t h
    weaken-Outcome (raised e) t good bad h = bad t h

    pub Steps-weaken :
        {P : List Event → Type 0} {P' F' : List Event → Type 0} {Q' : A → List Event → Type 0}
        (m : Run H A)
        → ((t : List Event) → P t → P' t)
        → ((a : A) (t : List Event) → Q' a t → Q a t)
        → ((t : List Event) → F' t → F t)
        → Steps H P' m Q' F'
        → Steps H P m Q F
    Steps-weaken {F' = F'} {Q' = Q'} m pre good bad steps = record {
      at = λ w h.
          weaken-Outcome {Q' = Q'} {F' = F'} (m w).0 (m w).1.trace good bad
            (steps.at w (pre w.trace h));
    }

  module _ {A B : Type 0} {F : List Event → Type 0} {Q : B → List Event → Type 0} where
    Outcome-of_proceed :
        (R : A → List Event → Type 0) (f : A → Run H B)
        → ((a : A) → Steps H (R a) (f a) Q F)
        → (r : Result Failure A) (w : World H) → Outcome R F r w.trace
        → Outcome Q F (proceed r f w).0 (proceed r f w).1.trace
    Outcome-of_proceed R f go (ok a) w h = (go a).at w h
    Outcome-of_proceed R f go (raised e) w h = h

    pub Steps-bind :
        {P : List Event → Type 0} (R : A → List Event → Type 0) (m : Run H A) (f : A → Run H B)
        → Steps H P m R F
        → ((a : A) → Steps H (R a) (f a) Q F)
        → Steps H P (m >>= f) Q F
    unfolding ◌>>=◌
    Steps-bind R m f first go = record {
      at = λ w h. Outcome-of_proceed R f go (m w).0 (m w).1 (first.at w h);
    }

  module _ {A : Type 0} {F : List Event → Type 0} {Q : A → List Event → Type 0} where
    Outcome-of_recover :
        (G : List Event → Type 0) (h : Failure → Run H A)
        → ((e : Failure) → Steps H G (h e) Q F)
        → (r : Result Failure A) (w : World H) → Outcome Q G r w.trace
        → Outcome Q F (recover r h w).0 (recover r h w).1.trace
    Outcome-of_recover G h go (ok a) w p = p
    Outcome-of_recover G h go (raised e) w p = (go e).at w p

    pub Steps-catch :
        {P : List Event → Type 0} (G : List Event → Type 0) (m : Run H A) (h : Failure → Run H A)
        → Steps H P m Q G
        → ((e : Failure) → Steps H G (h e) Q F)
        → Steps H P (catch m h) Q F
    unfolding catch
    Steps-catch G m h first go = record {
      at = λ w p. Outcome-of_recover G h go (m w).0 (m w).1 (first.at w p);
    }

    Steps-on_os_error :
        (G : List Event → Type 0) (h : OsError → Run H A)
        → ((t : List Event) → G t → F t)
        → ((e : OsError) → Steps H G (h e) Q F)
        → (e : Failure) → Steps H G (on_os_error H h e) Q F
    Steps-on_os_error G h pass go (os_error e) = go e
    Steps-on_os_error G h pass go (system_exit n) = Steps-throw _ pass
    Steps-on_os_error G h pass go other_exception = Steps-throw _ pass
    Steps-on_os_error G h pass go fuel_spent = Steps-throw _ pass

    pub Steps-except_os_error :
        {P : List Event → Type 0} (G : List Event → Type 0) (m : Run H A) (h : OsError → Run H A)
        → Steps H P m Q G
        → ((t : List Event) → G t → F t)
        → ((e : OsError) → Steps H G (h e) Q F)
        → Steps H P (except_os_error H m h) Q F
    unfolding except_os_error
    Steps-except_os_error G m h first pass go =
        Steps-catch G m (on_os_error H h) first (Steps-on_os_error G h pass go)

    Outcome-of_finally :
        (k : Run H (Unit {0}))
        → ((a : A) → Steps H (Q a) k (λ _. Q a) F)
        → Steps H F k (λ _. F) F
        → (r : Result Failure A) (w : World H) → Outcome Q F r w.trace
        → Outcome Q F ((k >>= λ _. lift r) w).0 ((k >>= λ _. lift r) w).1.trace
    unfolding lift
    Outcome-of_finally k good bad (ok a) w h =
        (Steps-bind {Q = Q} (λ _. Q a) k (λ _. lift (ok a)) (good a)
            (λ _. record { at = λ w h. h })).at
          w h
    Outcome-of_finally k good bad (raised e) w h =
        (Steps-bind {Q = Q} (λ _. F) k (λ _. lift (raised e)) bad
            (λ _. record { at = λ w h. h })).at
          w h

    pub Steps-finally :
        {P : List Event → Type 0} (m : Run H A) (k : Run H (Unit {0}))
        → Steps H P m Q F
        → ((a : A) → Steps H (Q a) k (λ _. Q a) F)
        → Steps H F k (λ _. F) F
        → Steps H P (finally H m k) Q F
    unfolding finally
    Steps-finally m k first good bad = record {
      at = λ w h. Outcome-of_finally k good bad (m w).0 (m w).1 (first.at w h);
    }

  pub Steps-attempt :
      {A : Type 0} {F : List Event → Type 0} {P : List Event → Type 0}
      (Q : Option A → List Event → Type 0) (G : List Event → Type 0) (m : Run H A)
      → Steps H P m (λ a. Q (some a)) G
      → ((t : List Event) → G t → Q none t)
      → ((t : List Event) → G t → F t)
      → Steps H P (attempt H m) Q F
  unfolding attempt
  Steps-attempt Q G m first missing pass =
      Steps-except_os_error G _ _
        (Steps-bind (λ a. Q (some a)) m _ first (λ a. Steps-pure (some a) (λ t h. h))) pass
        (λ _. Steps-pure none missing)

  module _ {A : Type 0} {K F : List Event → Type 0} where
    Outcome-of_kept :
        ((t : List Event) → K t → F t)
        → (r : Result Failure A) (t : List Event) → K t
        → Outcome (λ _. K) F r t
    Outcome-of_kept pass (ok a) t h = h
    Outcome-of_kept pass (raised e) t h = pass t h

    pub Steps-of_Keeps :
        (m : Run H A)
        → ((t : List Event) → K t → F t)
        → Keeps (Traced H K) m
        → Steps H K m (λ _. K) F
    Steps-of_Keeps m pass kept = record {
      at = λ w h. Outcome-of_kept pass (m w).0 (m w).1.trace (kept.at w h);
    }

  -- What is guaranteed of a value that was returned.
  pub Steps-value :
      {A : Type 0} (P F : List Event → Type 0) (Q : A → List Event → Type 0) (m : Run H A)
      → Steps H P m Q F
      → (w : World H) (a : A) → P w.trace
      → (m w).0 ≡ ok a
      → Q a (m w).1.trace
  Steps-value P F Q m steps w a h e = subst (λ r. Outcome Q F r (m w).1.trace) e (steps.at w h)

  module _ {A : Type 0} where
    kept_of_outcome :
        (K : List Event → Type 0) (r : Result Failure A) (t : List Event)
        → Outcome (λ _. K) K r t
        → K t
    kept_of_outcome K (ok a) t h = h
    kept_of_outcome K (raised e) t h = h

    pub Keeps-of_Steps :
        {K : List Event → Type 0} (m : Run H A) → Steps H K m (λ _. K) K → Keeps (Traced H K) m
    Keeps-of_Steps {K} m steps = record {
      at = λ w h. kept_of_outcome K (m w).0 (m w).1.trace (steps.at w h);
    }

  -- The rules for invariants of the actions of this model.
  module _ {A : Type 0} {T : World H → Type 0} where
    pub Keeps-finally :
        (m : Run H A) (k : Run H (Unit {0})) → Keeps T m → Keeps T k → Keeps T (finally H m k)
    unfolding finally
    Keeps-finally m k km kk = record {
      at = λ w h.
          (Keeps-bind {P = T} k (λ _. lift (m w).0) kk (λ _. Keeps-lift (m w).0)).at (m w).1
            (km.at w h);
    }

    Keeps-on_os_error :
        (h : OsError → Run H A)
        → ((e : OsError) → Keeps T (h e))
        → (e : Failure) → Keeps T (on_os_error H h e)
    Keeps-on_os_error h kh (os_error e) = kh e
    Keeps-on_os_error h kh (system_exit n) = Keeps-throw _
    Keeps-on_os_error h kh other_exception = Keeps-throw _
    Keeps-on_os_error h kh fuel_spent = Keeps-throw _

    pub Keeps-except_os_error :
        (m : Run H A) (h : OsError → Run H A)
        → Keeps T m
        → ((e : OsError) → Keeps T (h e))
        → Keeps T (except_os_error H m h)
    unfolding except_os_error
    Keeps-except_os_error m h km kh = Keeps-catch m _ km (Keeps-on_os_error h kh)

  module _ {A : Type 0} {T : World H → Type 0} where
    pub Keeps-attempt : (m : Run H A) → Keeps T m → Keeps T (attempt H m)
    unfolding attempt
    Keeps-attempt m km =
        Keeps-except_os_error _ _ (Keeps-bind m _ km (λ a. Keeps-pure (some a)))
          (λ _. Keeps-pure none)
