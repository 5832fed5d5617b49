-- ===== src/ShareAcls.antt =====
-- ansible/synology/roles/synology_acls/files/apply_acls.py: sets the grants of a share, adds those of
-- administrators to many shares, or resets the ACLs below a path.
pub mod Commands
pub mod Scope
pub mod Complete
mod Tests
use krg_infra.Prelude.{
  ℕ, String, ◌<>◌, Bool, true, false, not, Option, none, some, List, [], ◌∷◌, ◌++◌, ◌==◌, nat_eq,
  text_eq, list_eq, if◌then◌else◌, keep, contains,
}
use krg_infra.Text.{text_le}
use krg_infra.Sorted.{sorted, dedup}
use krg_infra.Effects.{Result, ok, raised, Exec, pure, throw, ◌>>=◌, ◌>>◌}
use krg_infra.Drift.Parsers.{Tier, Tiers, parse_list_acl}
use krg_infra.Drift.State.{Grant}
use krg_infra.Drift.Diffs.{desired_tiers, same_set, all_tiers}

-- A command with its arguments: `synoshare --list_acl`, `synoshare --setuser` with "=" and with "+",
-- and `synoacltool -reset -R`.
pub data Command : Type 0 where
  list_acl : String → Command
  set_tier add_tier : String → Tier → String → Command
  reset : String → Command

-- The exception of a grant that cannot be read.
pub data Failure : Type 0 where
  system_exit : Failure

-- The system: what a command gives, its exit code and its output, and whether a path is a directory.
pub record Host : Type 1 where
  pub State : Type 0
  pub answer : Command → State → (ℕ × String) × State
  pub is_dir : String → State → Bool

-- A command that was run, with its exit code and its output.
pub record Event : Type 0 where
  pub command : Command
  pub result : ℕ × String

-- The system, and the commands that were run, the last first.
pub record World (H : Host) : Type 0 where
  pub host : H.State
  pub trace : List Event

abbrev pub Run : Host → Type 0 → Type 0
Run H A = Exec Failure (World H) A

-- `",".join(names)`
unfoldable pub comma_joined : List String → String
comma_joined [] = ""
comma_joined (n ∷ []) = n
comma_joined (n ∷ m ∷ ns) = n <> "," <> comma_joined (m ∷ ns)

-- `sorted(set(names))`
abbrev pub as_sorted : List String → List String
as_sorted names = sorted text_le (dedup names)

-- The principals of a share that are to be added, in a dict with the shares as keys.
abbrev pub Missing : Type 0
Missing = List (String × List String)

-- `d[share] = missing`
abbrev put : String → List String → Missing → Missing
put share missing [] = (share, missing) ∷ []
put share missing ((s, ms) ∷ d) =
    if s == share then (share, missing) ∷ d else (s, ms) ∷ put share missing d

abbrev by_share : String × List String → String × List String → Bool
by_share a b = text_le a.0 b.0

-- The subcommands, without their flag `--check`.
pub data Action : Type 0 where
  setuser : (share : String) → List Grant → Action
  admin_grants : (shares grants : List String) → Tier → Action
  recursive_stamp : (path : String) → Action

module _ (H : Host) where
  unfoldable pub call : Command → Run H (ℕ × String)
  call c w =
      let (r, s) = H.answer c w.host in
      let event : Event = record { command = c; result = r } in
      (ok r, record { host = s; trace = event ∷ w.trace })

  unfoldable pub check_dir : String → Run H Bool
  check_dir path w = (ok (H.is_dir path w.host), w)

  -- A grant without a principal or a tier ends the program.
  or_exit : {E A : Type 0} → Result E A → Run H A
  or_exit (ok a) = pure a
  or_exit (raised e) = throw system_exit

  declared : List Grant → Run H Tiers
  unfolding or_exit desired_tiers
  declared grants = or_exit (desired_tiers grants)

  pub current_tiers : String → Run H Tiers
  unfolding parse_list_acl
  current_tiers share = do (code, out) ← call (list_acl share); pure (parse_list_acl out)

  -- Sets each of the tiers exactly, until a command fails.
  set_tiers : String → Tiers → List Tier → Run H ℕ
  set_tiers share desired [] = pure 0
  set_tiers share desired (t ∷ ts) =
      let rest = set_tiers share desired ts in
      call (set_tier share t (comma_joined (as_sorted (desired t)))) >>= λ (r : ℕ × String).
      if r.0 == 0 then rest else pure 1

  -- The tiers that differ.
  abbrev differing : Tiers → Tiers → List Tier
  differing current desired = keep (λ t. not (same_set (current t) (desired t))) all_tiers

  abbrev is_empty : {A : Type 0} → List A → Bool
  is_empty [] = true
  is_empty (x ∷ xs) = false

  do_setuser : (check : Bool) → String → List Grant → Run H ℕ
  unfolding declared current_tiers set_tiers
  do_setuser check share grants = do
    desired ← declared grants
    current ← current_tiers share
    if is_empty (differing current desired)
        then pure 0
        else if check
        then pure 0
        else set_tiers share desired (differing current desired)

  -- What each share lacks of the grants.
  missing_from : Tier → List String → Missing → List String → Run H Missing
  unfolding current_tiers
  missing_from tier desired per_share [] = pure per_share
  missing_from tier desired per_share (share ∷ shares) =
      current_tiers share >>= λ (current : Tiers).
      let missing = as_sorted (keep (λ n. not (contains (current tier) n)) desired) in
      missing_from tier desired
        (if is_empty missing then per_share else put share missing per_share) shares

  add_missing : Tier → Missing → Run H ℕ
  add_missing tier [] = pure 0
  add_missing tier ((share, missing) ∷ rest) =
      let later = add_missing tier rest in
      call (add_tier share tier (comma_joined missing)) >>= λ (r : ℕ × String).
      if r.0 == 0 then later else pure 1

  do_admin_grants : (check : Bool) → (shares grants : List String) → Tier → Run H ℕ
  unfolding missing_from add_missing
  do_admin_grants check shares grants tier = do
    per_share ← missing_from tier grants [] shares
    if is_empty per_share
        then pure 0
        else if check
        then pure 0
        else add_missing tier (sorted by_share per_share)

  do_recursive_stamp : (check : Bool) → String → Run H ℕ
  do_recursive_stamp check path = do
    directory ← check_dir path
    if not directory
        then pure 1
        else if check
        then pure 0
        else do (code, out) ← call (reset path); pure (if code == 0 then 0 else 1)

  unfoldable pub main : (check : Bool) → Action → Run H ℕ
  unfolding do_setuser do_admin_grants do_recursive_stamp
  main check (setuser share grants) = do_setuser check share grants
  main check (admin_grants shares grants tier) = do_admin_grants check shares grants tier
  main check (recursive_stamp path) = do_recursive_stamp check path
