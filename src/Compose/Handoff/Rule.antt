-- ===== src/Compose/Handoff/Rule.antt =====
-- A rule for `handoff`: what holds of it follows from what holds behind its two ways to end, the
-- retirement of the old containers and the removal of the new ones.
use krg_infra.Prelude.{
  ℕ, ◌+◌, String, Bool, true, false, not, List, [], ◌∷◌, ◌≡◌, refl, ap, arith, ◌==◌, if◌then◌else◌,
  list_eq, text_eq, nat_eq, contains, keep, any, length,
}
use krg_infra.Effects.{Result, ok, raised, pure, ◌>>=◌}
use krg_infra.Effects.Triple.{
  Triple, Triple-bind, Triple-if, Triple-and, Triple-of_Keeps, Triple-weaken,
}
use krg_infra.Compose.Docker
use krg_infra.Compose.Docker.{Failure, Event, docker_call, Host, World, Run, Stack}
use krg_infra.Compose.Docker.Footprint.{is_working, asking_closed, IsClosed, Traced}
use krg_infra.Compose.Docker.Asking.{Keeps-all_containers, Keeps-clock}
use krg_infra.Compose.Handoff.{abort, await_ready, new_containers, finish, handoff}
use krg_infra.Compose.Handoff.Working.{Keeps-scale_up, Keeps-abort, Keeps-await_ready}
use krg_infra.Compose.Handoff.Seen.{AllSeen, await_ready-AllSeen}
use krg_infra.Compose.Handoff.Listed.{IsListed, IsListed-cons, AreListed, new_containers-AreListed}

-- Whether two lists share a container.
abbrev pub overlaps : List String → List String → Bool
overlaps old cids = any (contains old) cids

pub overlaps-keep :
    (old cids : List String) → overlaps old (keep (λ c. not (contains old c)) cids) ≡ false
overlaps-keep old [] = refl
overlaps-keep old (c ∷ cids) = ground (arith, overlaps-keep old cids)

-- What removing containers adds to the trace cannot break `T`.
pub record SparesRemoval (T : List Event → Type 0) (cids : List String) : Type 0 where
  pub stop :
      (r : Result Failure String) (t : List Event) → T t → T (docker_call ("stop" ∷ cids) r ∷ t)
  pub rm : (r : Result Failure String) (t : List Event) → T t → T (docker_call ("rm" ∷ cids) r ∷ t)

-- A result that brings new containers brings none of the old ones.
abbrev pub AreNew : List String → Result Failure (List String) → Type 0
AreNew old (ok new) = overlaps old new ≡ false
AreNew old (raised e) = Unit

module _ (H : Host) (stack : Stack) where
  -- Whatever property the listing keeps, it brings none of the old containers.
  pub new_containers-AreNew :
      (svc : String) (old : List String) (T : List Event → Type 0)
      → IsClosed is_working T
      → Triple (Traced H T) (new_containers H stack svc old) (λ r w. T w.trace × AreNew old r)
  unfolding new_containers ◌>>=◌
  new_containers-AreNew svc old T closed =
      Triple-bind _ _ _ (Triple-of_Keeps (Keeps-all_containers H stack (asking_closed closed) svc))
        (λ cids. record { at = λ w h. (h, overlaps-keep old cids) }) (λ e w h. (h, tt))

  -- Any action that gives a fixed value in the end gives no other.
  pub gives_only :
      {A : Type 0} (m : Run H A) (b : Bool)
      → Triple (λ _. Unit {0}) (m >>= λ _. pure b) (λ r w. r ≡ ok (not b) → ⊥)
  unfolding ◌>>=◌
  gives_only m b =
      Triple-bind (λ _ _. Unit {0}) m _ (record { at = λ w h. tt })
        (λ a. record { at = λ w h e. ground arith }) (λ e w h p. cc)

  abort-ne-done :
      (new : List String) → Triple (λ _. Unit {0}) (abort H stack new) (λ r w. r ≡ ok true → ⊥)
  unfolding abort ◌>>=◌
  abort-ne-done new =
      Triple-bind (λ _ _. Unit {0}) _ _ (record { at = λ w h. tt })
        (λ _.
          Triple-if (new == []) _ _ (λ _. record { at = λ w h p. cc }) (λ _. gives_only _ false))
        (λ e w h p. cc)

-- Behind the listing: the new containers are fixed, and what is kept may say what they are.
module _ (H : Host) (stack : Stack) (old new : List String) (fresh : overlaps old new ≡ false)
    (T : List Event → Type 0) (Q : Result Failure Bool → List Event → Type 0)
    (closed : IsClosed is_working T) (spare : SparesRemoval T new)
    (stays : (r : Result Failure Bool) (t : List Event) → (r ≡ ok true → ⊥) → T t → Q r t) where
  abort-Triple : Triple (Traced H T) (abort H stack new) (λ r w. Q r w.trace)
  abort-Triple =
      Triple-weaken _ (λ w h. h) (λ r w (h, failed). stays r w.trace failed h)
        (Triple-and (Triple-of_Keeps (Keeps-abort H stack closed new spare.stop spare.rm))
          (Triple-weaken _ (λ w h. tt) (λ r w h. h) (abort-ne-done H stack new)))

  module _ (fuel timeout drain poll : ℕ)
      (finishes : length new ≡ length old
        → Triple
            (λ w. T w.trace × AllSeen new w.trace)
            (finish H stack fuel old timeout drain poll)
            (λ r w. Q r w.trace)) where
    ready_rule :
        (deadline : ℕ)
        → length new ≡ length old
        → Triple
            (Traced H T)
            (await_ready H stack fuel new deadline poll >>= λ ready.
              if ready then finish H stack fuel old timeout drain poll else abort H stack new)
            (λ r w. Q r w.trace)
    ready_rule deadline same =
        Triple-bind (λ r w. T w.trace × (r ≡ ok true → AllSeen new w.trace)) _ _
          (Triple-and (Triple-of_Keeps (Keeps-await_ready H stack closed fuel new deadline poll)) (
            Triple-weaken _ (λ w h. tt) (λ r w h. h)
              (await_ready-AllSeen H stack fuel new deadline poll)))
          (λ ready.
            Triple-if ready _ _
              (λ e. Triple-weaken _ (λ w h. (h.0, h.1 (ap ok e))) (λ r w q. q) (finishes same))
              (λ _. Triple-weaken _ (λ w h. h.0) (λ r w q. q) abort-Triple))
          (λ e w h. stays _ _ (λ p. cc) h.0)

    supervise_rule :
        Triple
          (Traced H T)
          (if not (length new == length old) then abort H stack new else do
            now ← Docker.clock H stack
            ready ← await_ready H stack fuel new (now + timeout) poll
            if ready then finish H stack fuel old timeout drain poll else abort H stack new)
          (λ r w. Q r w.trace)
    supervise_rule =
        Triple-if (not (length new == length old)) _ _ (λ _. abort-Triple)
          (λ same.
            Triple-bind (λ _ w. T w.trace) _ _
              (Triple-of_Keeps (Keeps-clock H stack (asking_closed closed)))
              (λ now. ready_rule (now + timeout) (ground arith)) (λ e w h. stays _ _ (λ p. cc) h))

-- While the new containers are supervised, the listing that has shown them stays in the trace.
abbrev Supervised :
    (svc : String) (old new : List String) → (List Event → Type 0) → List Event → Type 0
Supervised svc old new T trace = T trace × IsListed svc old new trace

module _ (svc : String) (old new : List String) (T : List Event → Type 0) where
  Supervised-closed : IsClosed is_working T → IsClosed is_working (Supervised svc old new T)
  Supervised-closed closed = record {
    add = λ e t h (kept, listed). (closed.add e t h kept, IsListed-cons svc old new e t listed);
  }

  Supervised-removal :
      (cids : List String) → SparesRemoval T cids → SparesRemoval (Supervised svc old new T) cids
  Supervised-removal cids spare = record {
    stop = λ r t (kept, listed).
        (spare.stop r t kept, IsListed-cons svc old new (docker_call ("stop" ∷ cids) r) t listed);
    rm = λ r t (kept, listed).
        (spare.rm r t kept, IsListed-cons svc old new (docker_call ("rm" ∷ cids) r) t listed);
  }

module _ (H : Host) (stack : Stack) (svc : String) (old : List String) (T : List Event → Type 0)
    (Q : Result Failure Bool → List Event → Type 0) (closed : IsClosed is_working T)
    (spares : (new : List String) → overlaps old new ≡ false → SparesRemoval T new)
    (stays : (r : Result Failure Bool) (t : List Event) → (r ≡ ok true → ⊥) → T t → Q r t)
    (fuel timeout drain poll : ℕ)
    (finishes : (new : List String)
      → overlaps old new ≡ false
      → length new ≡ length old
      → Triple
          (λ w. (T w.trace × IsListed svc old new w.trace) × AllSeen new w.trace)
          (finish H stack fuel old timeout drain poll)
          (λ r w. Q r w.trace)) where
  pub handoff_rule :
      Triple (Traced H T) (handoff H stack fuel svc old timeout drain poll) (λ r w. Q r w.trace)
  unfolding handoff
  handoff_rule =
      Triple-bind (λ _ w. T w.trace) _ _ (Triple-of_Keeps (Keeps-scale_up H stack closed svc old))
        (λ _.
          Triple-bind (λ r w. (T w.trace × AreNew old r) × AreListed svc old r w.trace) _ _
            (Triple-and (new_containers-AreNew H stack svc old T closed)
              (Triple-weaken _ (λ w h. tt) (λ r w h. h) (new_containers-AreListed H stack svc old)))
            (λ new. record {
              at = λ w h.
                  (supervise_rule H stack old new h.0.1 (Supervised svc old new T) Q
                      (Supervised-closed svc old new T closed)
                      (Supervised-removal svc old new T new (spares new h.0.1))
                      (λ r t no k. stays r t no k.0) fuel timeout drain poll
                      (finishes new h.0.1)).at
                    w (h.0.0, h.1);
            })
            (λ e w h. stays _ _ (λ p. cc) h.0.0))
        (λ e w h. stays _ _ (λ p. cc) h)
