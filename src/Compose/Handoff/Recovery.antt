-- ===== src/Compose/Handoff/Recovery.antt =====
-- `_safe_handoff`: what it guarantees where a handoff ends in an unexpected error.
use krg_infra.Prelude.{ℕ, String, Bool, false, List, ◌≡◌, ◌≢◌, ◌↔◌, refl}
use krg_infra.Effects.{Result, ok, raised, Exec, pure, throw, catch, recover}
use krg_infra.Effects.Triple.{Triple}
use krg_infra.Compose.Docker.{
  Failure, called_process_error, timeout_expired, other_error, fuel_spent, Host, World, Stack,
}
use krg_infra.Compose.Handoff.{or_on_process_error, cleanup, handoff, safe_handoff}

-- What the handler of one exception lets through.
handler_escapes :
    {S : Type 0} (r : Result Failure Bool) (s : S) (e : Failure)
    → ((recover r (or_on_process_error false) s).0 ≡ raised e)
      ↔ ((r ≡ raised e) × (e ≢ called_process_error))
unfolding pure throw
handler_escapes (ok b) s e = (λ p. cc, λ p. cc p.0)
handler_escapes (raised called_process_error) s e = (λ p. cc, λ (p, ne). absurd (ne (cc p)))
handler_escapes (raised timeout_expired) s e = (λ p. (p, λ q. cc), λ p. p.0)
handler_escapes (raised other_error) s e = (λ p. (p, λ q. cc), λ p. p.0)
handler_escapes (raised fuel_spent) s e = (λ p. (p, λ q. cc), λ p. p.0)

recovery_escapes :
    {S : Type 0} (r : Result Failure Bool) (clean : Exec Failure S Bool) (s : S) (e : Failure)
    → ((recover r (λ _. catch clean (or_on_process_error false)) s).0 ≡ raised e) ↔ (
        (first : Failure) × (r ≡ raised first)
        × ((clean s).0 ≡ raised e)
        × (e ≢ called_process_error))
unfolding catch
recovery_escapes (ok b) clean s e = (λ p. cc, λ p. cc p.1)
recovery_escapes (raised first) clean s e =
    let (to, from) = handler_escapes (clean s).0 (clean s).1 e in
    (λ p. (first, refl, (to p).0, (to p).1), λ p. from (p.2, p.3))

module _ (H : Host) (stack : Stack) (fuel : ℕ) (svc : String) (old : List String)
    (timeout drain poll : ℕ) (w : World H) where
  -- What escapes `_safe_handoff`: exactly an error of the cleanup behind a handoff that raised,
  -- unless it is a CalledProcessError.
  pub safe_handoff_escapes :
      (e : Failure)
      → ((safe_handoff H stack fuel svc old timeout drain poll w).0 ≡ raised e) ↔ (
          (first : Failure) × ((handoff H stack fuel svc old timeout drain poll w).0 ≡ raised first)
          × ((cleanup H stack svc old (handoff H stack fuel svc old timeout drain poll w).1).0
              ≡ raised e)
          × (e ≢ called_process_error))
  unfolding safe_handoff catch
  safe_handoff_escapes e =
      let (r, w') = handoff H stack fuel svc old timeout drain poll w in
      recovery_escapes r (cleanup H stack svc old) w' e
