-- ===== src/ShareAcls/Complete.antt =====
-- What has been set when `setuser` has succeeded.
use krg_infra.Prelude.{
  ℕ, String, Bool, true, false, not, List, [], ◌∷◌, ◌==◌, ◌≡◌, refl, ap, sym, ◌∙◌, subst, inl, inr,
  arith, nat_eq, if◌then◌else◌, keep-Among, Among,
}
use krg_infra.Effects.{Result, ok, raised, pure, ◌>>=◌}
use krg_infra.Drift.Parsers.{
  Failure as ReadFailure, Tier, rw_tier, ro_tier, na_tier, Tiers, parse_list_acl,
}
use krg_infra.Drift.State.{Grant}
use krg_infra.Drift.Diffs.{desired_tiers, same_set, all_tiers}
use krg_infra.ShareAcls.{
  Command, Event, list_acl, set_tier, Host, World, Run, comma_joined, as_sorted, setuser, call,
  declared, or_exit, current_tiers, set_tiers, differing, is_empty, do_setuser, main,
}

go_on :
    {H : Host} (b : Bool) (rest : Run H ℕ) (w : World H)
    → ((if b then rest else pure 1) w).0 ≡ ok 0
    → (b ≡ true) × ((if b then rest else pure 1) w ≡ rest w)
unfolding pure
go_on true rest w done = (refl, refl)
go_on false rest w done = cc

-- The trace holds the command, and the system has answered it with the exit code 0.
abbrev pub HasSucceeded : Command → List Event → Type 0
HasSucceeded c trace = (out : String) × Among (record { command = c; result = (0, out) }) trace

event_of_zero :
    (c : Command) (code : ℕ) (out : String) (trace : List Event)
    → code == 0 ≡ true
    → Among (record { command = c; result = (code, out) }) trace
    → HasSucceeded c trace
event_of_zero c code out trace zero among =
    let is_zero : code ≡ 0 = ground arith in
    (
      out,
      subst (λ n. Among {A = Event} (record { command = c; result = (n, out) }) trace) is_zero
          among,
    )

module _ (H : Host) (share : String) (desired : Tiers) where
  abbrev pub command : Tier → Command
  command t = set_tier share t (comma_joined (as_sorted (desired t)))

  abbrev Covers : List Tier → World H → World H → Type 0
  Covers ts w w' =
      ((e : Event) → Among e w.trace → Among e w'.trace)
      × ((t : Tier) → Among t ts → HasSucceeded (command t) w'.trace)

  set_tiers-Covers :
      (ts : List Tier) (w : World H)
      → (set_tiers H share desired ts w).0 ≡ ok 0
      → Covers ts w (set_tiers H share desired ts w).1
  unfolding set_tiers call ◌>>=◌ pure
  set_tiers-Covers [] w done = (λ e among. among, λ t among. absurd among.1)
  set_tiers-Covers (t ∷ ts) w done =
      let (r, s) = H.answer (command t) w.host in
      let event : Event = record { command = command t; result = r } in
      let w1 : World H = record { host = s; trace = event ∷ w.trace } in
      let (zero, same) : (r.0 == 0 ≡ true)
          × (set_tiers H share desired (t ∷ ts) w ≡ set_tiers H share desired ts w1) =
        go_on (r.0 == 0) (set_tiers H share desired ts) w1 done in
      let (older, newer) = set_tiers-Covers ts w1 (sym (ap (λ p. p.0) same) ∙ done) in
      subst (Covers (t ∷ ts) w) (sym (ap (λ p. p.1) same)) (
        λ e among. older e (inr among),
        λ q among. elim among [
          | inl here ↦
              subst (λ q. HasSucceeded (command q) (set_tiers H share desired ts w1).1.trace) here
                (event_of_zero (command t) r.0 r.1 _ zero (older event (inl refl)))
          | inr later ↦ newer q later
        ],
      )

  each_tier : (t : Tier) → Among t all_tiers
  each_tier rw_tier = inl refl
  each_tier ro_tier = inr (inl refl)
  each_tier na_tier = inr (inr (inl refl))

  change_tiers-Covers :
      (current : Tiers) (w : World H)
      → ((if is_empty H (differing H current desired)
            then pure 0
            else set_tiers H share desired (differing H current desired))
          w).0
        ≡ ok 0
      → (t : Tier) → same_set (current t) (desired t) ≡ false
      → HasSucceeded
          (command t)
          ((if is_empty H (differing H current desired)
              then pure 0
              else set_tiers H share desired (differing H current desired))
            w).1.trace
  change_tiers-Covers current w done t differs = by_list (differing H current desired) done there
    where
      there : Among t (differing H current desired)
      there =
          keep-Among (λ t. not (same_set (current t) (desired t))) all_tiers t (each_tier t)
            (ap not differs)

      by_list :
          (ts : List Tier)
          → ((if is_empty H ts then pure 0 else set_tiers H share desired ts) w).0 ≡ ok 0
          → Among t ts
          → HasSucceeded
              (command t)
              ((if is_empty H ts then pure 0 else set_tiers H share desired ts) w).1.trace
      by_list [] done among = absurd among.1
      by_list (q ∷ ts) done among = (set_tiers-Covers (q ∷ ts) w done).1 t among

module _ (H : Host) (share : String) (grants : List Grant) (w : World H) where
  -- `do_setuser` behind the reading of the grants.
  abbrev set_to : Tiers → Run H ℕ
  set_to desired = do
    current ← current_tiers H share
    if is_empty H (differing H current desired)
        then pure 0
        else set_tiers H share desired (differing H current desired)

  abbrev Changed : World H → Type 0
  Changed w' =
      (desired : Tiers) × (desired_tiers grants ≡ ok desired)
      × ((t : Tier)
          → same_set (parse_list_acl (H.answer (list_acl share) w.host).0.1 t) (desired t) ≡ false
          → HasSucceeded (command H share desired t) w'.trace)

  set_to-Changed :
      (r : Result ReadFailure Tiers)
      → desired_tiers grants ≡ r
      → ((or_exit H r >>= set_to) w).0 ≡ ok 0
      → Changed ((or_exit H r >>= set_to) w).1
  unfolding or_exit current_tiers call ◌>>=◌ pure
  set_to-Changed (ok desired) given done =
      let (r, s) = H.answer (list_acl share) w.host in
      let listed : Event = record { command = list_acl share; result = r } in
      let w1 : World H = record { host = s; trace = listed ∷ w.trace } in
      (desired, given, change_tiers-Covers H share desired (parse_list_acl r.1) w1 done)
  set_to-Changed (raised e) given done = cc

-- If a run of `setuser` without --check ends with 0, then its grants declare some tiers, and each
-- tier that differs from what the system has listed for the share was set to what is declared, by
-- a command that the system has answered with the exit code 0.
pub setuser-Complete :
    (H : Host) (share : String) (grants : List Grant) (w : World H)
    → (main H false (setuser share grants) w).0 ≡ ok 0
    → (desired : Tiers) × (desired_tiers grants ≡ ok desired)
      × ((t : Tier)
          → same_set (parse_list_acl (H.answer (list_acl share) w.host).0.1 t) (desired t) ≡ false
          → HasSucceeded
              (command H share desired t)
              (main H false (setuser share grants) w).1.trace)
unfolding main do_setuser declared or_exit current_tiers call ◌>>=◌ pure
setuser-Complete H share grants w done =
    set_to-Changed H share grants w (desired_tiers grants) refl done
