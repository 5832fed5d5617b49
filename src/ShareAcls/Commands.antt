-- ===== src/ShareAcls/Commands.antt =====
-- The commands that an action may run, and the rules by which a run keeps to them.
use krg_infra.Prelude.{
  ℕ, String, Bool, true, false, List, ◌≡◌, refl, nat_eq, text_eq, if◌then◌else◌, Among, All,
}
use krg_infra.Effects.{ok, pure}
use krg_infra.Effects.Triple.{Keeps, Keeps-pure, Keeps-if, Keeps-bind}
use krg_infra.Drift.Parsers.{Tiers, parse_list_acl}
use krg_infra.Drift.Diffs.{desired_tiers}
use krg_infra.ShareAcls.{
  Command, list_acl, set_tier, add_tier, reset, Host, World, Run, comma_joined, as_sorted, Action,
  setuser, admin_grants, recursive_stamp, call, check_dir, current_tiers,
}

-- A share and what it is to get: one of the shares, and some of the grants.
abbrev pub IsSound : (shares grants : List String) → String × List String → Type 0
IsSound shares grants (share, missing) = Among share shares × All (λ n. Among n grants) missing

-- The commands that an action may run. Those that change something are for a run without --check.
abbrev pub Allowed : Bool → Action → Command → Type 0
Allowed check (setuser share grants) (list_acl s) = s ≡ share
Allowed check (setuser share grants) (set_tier s t names) =
    (check ≡ false)
    × (s ≡ share)
    × ((desired : Tiers) × (desired_tiers grants ≡ ok desired)
        × (names ≡ comma_joined (as_sorted (desired t))))
Allowed check (setuser share grants) _ = Unit {0} × ⊥
Allowed check (admin_grants shares grants tier) (list_acl s) = Among s shares
Allowed check (admin_grants shares grants tier) (add_tier s t names) =
    (check ≡ false)
    × (t ≡ tier)
    × ((missing : List String) × IsSound shares grants (s, missing)
        × (names ≡ comma_joined missing))
Allowed check (admin_grants shares grants tier) _ = Unit {0} × ⊥
Allowed check (recursive_stamp path) (reset p) = (check ≡ false) × (p ≡ path)
Allowed check (recursive_stamp path) _ = Unit {0} × ⊥

module _ (H : Host) (check : Bool) (action : Action) where
  -- Each command of the run so far is allowed.
  abbrev pub Kept : World H → Type 0
  Kept w = All (λ e. Allowed check action e.command) w.trace

  pub Keeps-call : (c : Command) → Allowed check action c → Keeps Kept (call H c)
  unfolding call
  Keeps-call c allowed = record { at = λ w h. (allowed, h) }

  pub Keeps-check_dir : (path : String) → Keeps Kept (check_dir H path)
  unfolding check_dir
  Keeps-check_dir path = record { at = λ w h. h }

  pub Keeps-current_tiers :
      (share : String) → Allowed check action (list_acl share) → Keeps Kept (current_tiers H share)
  unfolding current_tiers
  Keeps-current_tiers share allowed =
      Keeps-bind (call H (list_acl share)) _ (Keeps-call (list_acl share) allowed)
        λ r. Keeps-pure (parse_list_acl r.1)

  -- In a run with --check the rest is left out.
  pub Keeps-unless_check :
      (idle : Bool) (code : ℕ) (m : Run H ℕ)
      → (check ≡ false → Keeps Kept m)
      → Keeps Kept (if idle then pure code else if check then pure 0 else m)
  Keeps-unless_check idle code m k = Keeps-if idle _ _ (Keeps-pure code) (by_case check refl)
    where
      by_case : (b : Bool) → check ≡ b → Keeps Kept (if b then pure 0 else m)
      by_case true e = Keeps-pure 0
      by_case false e = k e
