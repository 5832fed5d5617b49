-- ===== src/Compose/Handoff/Fuel.antt =====
-- Actions that never end by spent fuel, one rule for each way to build an action.
use krg_infra.Prelude.{Bool, true, false, ◌≢◌, refl, if◌then◌else◌}
use krg_infra.Effects.{Result, ok, raised, pure, throw, catch, recover, ◌>>=◌}
use krg_infra.Effects.Triple.{Triple, Triple-bind}
use krg_infra.Compose.Docker.{
  Failure, called_process_error, timeout_expired, other_error, fuel_spent, Host, World, Run,
}
use krg_infra.Compose.Handoff.{or_on_process_error}

-- The action does not end by spent fuel.
pub record IsTotal {H : Host} {A : Type 0} (m : Run H A) : Type 0 where
  pub at : (w : World H) → (m w).0 ≢ raised fuel_spent

module _ {H : Host} {A : Type 0} where
  pub IsTotal-pure : (a : A) → IsTotal (pure {E = Failure} {S = World H} a)
  unfolding pure
  IsTotal-pure a = record { at = λ w p. cc }

  pub IsTotal-if : (b : Bool) (m n : Run H A) → IsTotal m → IsTotal n → IsTotal (if b then m else n)
  IsTotal-if true m n tm tn = tm
  IsTotal-if false m n tm tn = tn

  recover_total :
      (r : Result Failure A) (h : Failure → Run H A) (w : World H)
      → r ≢ raised fuel_spent
      → ((e : Failure) → e ≢ fuel_spent → IsTotal (h e))
      → (recover r h w).0 ≢ raised fuel_spent
  recover_total (ok a) h w tr th = λ p. cc
  recover_total (raised e) h w tr th = (th e (λ p. tr (cc p))).at w

  pub IsTotal-catch :
      (m : Run H A) (h : Failure → Run H A)
      → IsTotal m
      → ((e : Failure) → e ≢ fuel_spent → IsTotal (h e))
      → IsTotal (catch m h)
  unfolding catch
  IsTotal-catch m h tm th = record {
    at = λ w. let (r, w') = m w in recover_total r h w' (tm.at w) th;
  }

  pub IsTotal-or_on_process_error :
      (default : A) (e : Failure) → e ≢ fuel_spent → IsTotal {H = H} (or_on_process_error default e)
  unfolding pure throw
  IsTotal-or_on_process_error default called_process_error h = record { at = λ w p. cc }
  IsTotal-or_on_process_error default timeout_expired h = record { at = λ w p. cc }
  IsTotal-or_on_process_error default other_error h = record { at = λ w p. cc }
  IsTotal-or_on_process_error default fuel_spent h = absurd (h refl)

module _ {H : Host} {A B : Type 0} where
  pub IsTotal-bind :
      (m : Run H A) (f : A → Run H B) → IsTotal m → ((a : A) → IsTotal (f a)) → IsTotal (m >>= f)
  IsTotal-bind m f tm tf =
      let t : Triple (λ _. Unit {0}) (m >>= f) (λ r w. r ≢ raised fuel_spent) =
        Triple-bind (λ r w. r ≢ raised fuel_spent) m f (record { at = λ w h. tm.at w })
          (λ a. record { at = λ w h. (tf a).at w }) (λ e w h p. h (cc p)) in
      record { at = λ w. t.at w tt }

pub ruleset total_rules =
    (IsTotal-pure, IsTotal-if, IsTotal-catch, IsTotal-or_on_process_error, IsTotal-bind)
