-- ===== src/ShareAcls/Scope.antt =====
-- A run makes only the commands that its action may run.
use krg_infra.Prelude.{
  String, Bool, true, false, not, List, [], ◌∷◌, ◌==◌, ◌≡◌, refl, sym, subst, ◌∙◌, inl, inr, nat_eq,
  text_eq, if◌then◌else◌, keep, contains, contains-Among, Among, Among-keep, All, All-Among,
  Among-All, Bool-cases,
}
use krg_infra.Text.{text_le}
use krg_infra.Sorted.{sorted, dedup, sorted-Among, contains-dedup}
use krg_infra.Effects.{Result, ok, raised, pure, throw}
use krg_infra.Effects.Triple.{
  Triple, Keeps, Keeps-pure, Keeps-if, Keeps-bind, Triple-bind, Triple-of_Keeps,
}
use krg_infra.Effects.Fallible.{Gives}
use krg_infra.Drift.Parsers.{Failure as ReadFailure, Tier, Tiers}
use krg_infra.Drift.State.{Grant}
use krg_infra.Drift.Diffs.{desired_tiers}
use krg_infra.ShareAcls.{
  Event, set_tier, add_tier, reset, Host, World, comma_joined, as_sorted, Missing, put, by_share,
  Action, setuser, admin_grants, recursive_stamp, call, check_dir, or_exit, declared, current_tiers,
  set_tiers, differing, is_empty, do_setuser, missing_from, add_missing, do_admin_grants,
  do_recursive_stamp, main,
}
use krg_infra.ShareAcls.Commands.{
  IsSound, Allowed, Kept, Keeps-call, Keeps-check_dir, Keeps-current_tiers, Keeps-unless_check,
}

module _ (H : Host) (check : Bool) (path : String) where
  Keeps-do_recursive_stamp :
      Keeps (Kept H check (recursive_stamp path)) (do_recursive_stamp H check path)
  unfolding do_recursive_stamp
  Keeps-do_recursive_stamp =
      Keeps-bind (check_dir H path) _ (Keeps-check_dir H check (recursive_stamp path) path)
        λ directory. Keeps-unless_check H check (recursive_stamp path) (not directory) 1 _ (λ real.
          Keeps-bind (call H (reset path)) _
            (Keeps-call H check (recursive_stamp path) (reset path) (real, refl))
            λ r. Keeps-pure (if r.0 == 0 then 0 else 1))

module _ (H : Host) (check : Bool) (share : String) (grants : List Grant) where
  Keeps-set_tiers :
      (desired : Tiers) (ts : List Tier)
      → desired_tiers grants ≡ ok desired
      → check ≡ false
      → Keeps (Kept H check (setuser share grants)) (set_tiers H share desired ts)
  unfolding set_tiers
  Keeps-set_tiers desired [] given real = Keeps-pure 0
  Keeps-set_tiers desired (t ∷ ts) given real =
      Keeps-bind (call H (set_tier share t (comma_joined (as_sorted (desired t))))) _
        (Keeps-call H check (setuser share grants) _ (real, refl, (desired, given, refl)))
        λ r. Keeps-if (r.0 == 0) _ _ (Keeps-set_tiers desired ts given real) (Keeps-pure 1)

  -- What is declared is what the grants say.
  declared-Triple :
      (r : Result ReadFailure Tiers)
      → desired_tiers grants ≡ r
      → Triple (Kept H check (setuser share grants)) (or_exit H r) (λ r w.
        Kept H check (setuser share grants) w
        × Gives (λ desired. desired_tiers grants ≡ ok desired) r)
  unfolding or_exit pure throw
  declared-Triple (ok desired) given = record { at = λ w h. (h, given) }
  declared-Triple (raised e) given = record { at = λ w h. (h, tt) }

  Keeps-do_setuser : Keeps (Kept H check (setuser share grants)) (do_setuser H check share grants)
  unfolding do_setuser declared
  Keeps-do_setuser =
      let P = Kept H check (setuser share grants) in
      let t : Triple P (do_setuser H check share grants) (λ r w. P w) =
        Triple-bind (λ r w. P w × Gives (λ desired. desired_tiers grants ≡ ok desired) r)
          (declared H grants) _ (declared-Triple (desired_tiers grants) refl)
          (λ desired. record {
            at = λ w h.
                (Keeps-bind (current_tiers H share) _
                    (Keeps-current_tiers H check (setuser share grants) share refl)
                    (λ current.
                      Keeps-unless_check H check (setuser share grants)
                        (is_empty H (differing H current desired)) 0 _
                        (Keeps-set_tiers desired (differing H current desired) h.1))).at
                  w h.0;
          })
          (λ e w h. h.0) in
      record { at = t.at }

module _ (H : Host) (check : Bool) (shares grants : List String) (tier : Tier) where
  abbrev Granting : World H → Type 0
  Granting w = Kept H check (admin_grants shares grants tier) w

  -- The lists that are picked from the grants.
  as_sorted-All :
      (current : List String)
      → All (λ n. Among n grants) (as_sorted (keep (λ n. not (contains current n)) grants))
  as_sorted-All current =
      let picked = keep (λ n. not (contains current n)) grants in
      All-Among (λ n. Among n grants) (as_sorted picked)
        (λ n among.
          let in_dedup = sorted-Among text_le (dedup picked) n among in
          let held = (contains-Among (dedup picked) n).1 in_dedup in
          let in_picked = (contains-Among picked n).0 (sym (contains-dedup picked n) ∙ held) in
          (Among-keep (λ n. not (contains current n)) grants n in_picked).0)

  put-IsSound :
      (share : String) (missing : List String) (d : Missing)
      → IsSound shares grants (share, missing)
      → All (IsSound shares grants) d
      → All (IsSound shares grants) (put share missing d)
  put-IsSound share missing [] sound h = (sound, tt)
  put-IsSound share missing ((s, ms) ∷ d) sound (here, h) = elim (Bool-cases (s == share)) [
    | inl same ↦ rw same (sound, h)
    | inr other ↦ rw other (here, put-IsSound share missing d sound h)
  ]

  unless-Sound :
      (idle : Bool) (share : String) (missing : List String) (d : Missing)
      → IsSound shares grants (share, missing)
      → All (IsSound shares grants) d
      → All (IsSound shares grants) (if idle then d else put share missing d)
  unless-Sound true share missing d sound h = h
  unless-Sound false share missing d sound h = put-IsSound share missing d sound h

  missing_from-Triple :
      (per_share : Missing) (ss : List String)
      → ((s : String) → Among s ss → Among s shares)
      → All (IsSound shares grants) per_share
      → Triple Granting
          (missing_from H tier grants per_share ss)
          (λ r w. Granting w × Gives (All (IsSound shares grants)) r)
  unfolding missing_from pure
  missing_from-Triple per_share [] inside sound = record { at = λ w h. (h, sound) }
  missing_from-Triple per_share (s ∷ ss) inside sound =
      Triple-bind (λ r w. Granting w) (current_tiers H s) _
        (Triple-of_Keeps
          (Keeps-current_tiers H check (admin_grants shares grants tier) s (inside s (inl refl))))
        (λ current.
          let missing = as_sorted (keep (λ n. not (contains (current tier) n)) grants) in
          missing_from-Triple (if is_empty H missing then per_share else put s missing per_share) ss
            (λ q among. inside q (inr among))
            (unless-Sound (is_empty H missing) s missing per_share
              (inside s (inl refl), as_sorted-All (current tier)) sound))
        (λ e w h. (h, tt))

  sorted-IsSound :
      (per_share : Missing)
      → All (IsSound shares grants) per_share
      → All (IsSound shares grants) (sorted by_share per_share)
  sorted-IsSound per_share sound =
      All-Among (IsSound shares grants) (sorted by_share per_share) (λ e among.
        Among-All (IsSound shares grants) per_share e sound
          (sorted-Among by_share per_share e among))

  Keeps-add_missing :
      (per_share : Missing)
      → All (IsSound shares grants) per_share
      → check ≡ false
      → Keeps Granting (add_missing H tier per_share)
  unfolding add_missing
  Keeps-add_missing [] sound real = Keeps-pure 0
  Keeps-add_missing ((share, missing) ∷ rest) (here, sound) real =
      Keeps-bind (call H (add_tier share tier (comma_joined missing))) _
        (Keeps-call H check (admin_grants shares grants tier) _ (real, refl, (missing, here, refl)))
        λ r. Keeps-if (r.0 == 0) _ _ (Keeps-add_missing rest sound real) (Keeps-pure 1)

  Keeps-do_admin_grants : Keeps Granting (do_admin_grants H check shares grants tier)
  unfolding do_admin_grants
  Keeps-do_admin_grants =
      let t : Triple Granting (do_admin_grants H check shares grants tier) (λ r w. Granting w) =
        Triple-bind (λ r w. Granting w × Gives (All (IsSound shares grants)) r)
          (missing_from H tier grants [] shares) _
          (missing_from-Triple [] shares (λ s among. among) tt)
          (λ per_share. record {
            at = λ w h.
                (Keeps-unless_check H check (admin_grants shares grants tier) (is_empty H per_share)
                    0 _
                    (Keeps-add_missing (sorted by_share per_share)
                      (sorted-IsSound per_share h.1))).at
                  w h.0;
          })
          (λ e w h. h.0) in
      record { at = t.at }

-- Whatever the system answers and however it ends, a run adds only allowed commands. `setuser` lists
-- the ACL of its share, and sets tiers of that share to just what its grants declare for them.
-- `admin_grants` lists the ACLs of its shares, and adds some of its grants to its tier there: it
-- neither removes a principal nor touches another tier. `recursive_stamp` resets its path. With
-- --check no more than the lists are run.
pub main-Allowed :
    (H : Host) (check : Bool) (action : Action) (w : World H)
    → w.trace ≡ []
    → All (λ (e : Event). Allowed check action e.command) (main H check action w).1.trace
unfolding main do_recursive_stamp
main-Allowed H check (setuser share grants) w fresh =
    (Keeps-do_setuser H check share grants).at w
      (subst (All (λ (e : Event). Allowed check (setuser share grants) e.command)) (sym fresh) tt)
main-Allowed H check (admin_grants shares grants tier) w fresh =
    (Keeps-do_admin_grants H check shares grants tier).at w (
      subst (All (λ (e : Event). Allowed check (admin_grants shares grants tier) e.command))
        (sym fresh) tt)
main-Allowed H check (recursive_stamp path) w fresh =
    (Keeps-do_recursive_stamp H check path).at w
      (subst (All (λ (e : Event). Allowed check (recursive_stamp path) e.command)) (sym fresh) tt)
