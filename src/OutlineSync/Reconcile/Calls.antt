-- ===== src/OutlineSync/Reconcile/Calls.antt =====
-- When `reconcile` changes anything.
use krg_infra.Prelude.{
  ℕ, String, Bool, true, false, ◌||◌, List, [], ◌∷◌, ◌≡◌, refl, ◌⊎◌, inl, inr, if◌then◌else◌,
  text_eq, list_eq, contains,
}
use krg_infra.Effects.{Result, ok, raised, Exec, pure, proceed, ◌>>=◌, ◌>>◌}
use krg_infra.Effects.Triple.{Keeps, Keeps-pure, Keeps-bind, Keeps-if, keeps_rules}
use krg_infra.OutlineSync.Rows.{LdapGroup, OutlineGroup}
use krg_infra.OutlineSync.Pages.{ReadError}
use krg_infra.OutlineSync.Plan.{Operation, is_managed}
use krg_infra.OutlineSync.Reconcile.{
  Stop, Servers, World, Status, reading, check_status, read_memberships, plan_for, make_plan,
  reconcile, apply_plan,
}

-- The changing calls sent so far.
abbrev Sent : (V : Servers) → List Operation → World V → Type 0
Sent V calls w = w.calls ≡ calls

module _ (V : Servers) (calls : List Operation) where
  Keeps-reading : {A : Type 0} (m : Exec ReadError V.State A) → Keeps (Sent V calls) (reading V m)
  unfolding reading
  Keeps-reading m = record { at = λ w h. h }

  Keeps-check_status :
      (max_age : ℕ) (status : Status) → Keeps (Sent V calls) (check_status V max_age status)
  unfolding check_status
  Keeps-check_status max_age status = search keeps_rules depth 8

  Keeps-read_memberships :
      (fuel : ℕ) (relevant : List String) (prefix : String) (groups : List OutlineGroup)
      → Keeps (Sent V calls) (read_memberships V fuel relevant prefix groups)
  unfolding read_memberships
  Keeps-read_memberships fuel relevant prefix [] = search keeps_rules
  Keeps-read_memberships fuel relevant prefix (group ∷ groups) =
      Keeps-if (contains relevant group.name || is_managed prefix group) _ _
        (Keeps-bind _ _ (Keeps-reading _) λ rows.
          Keeps-bind _ _ (Keeps-read_memberships fuel relevant prefix groups) λ rest. Keeps-pure _)
        (Keeps-read_memberships fuel relevant prefix groups)

  Keeps-plan_for :
      (fuel max_age : ℕ) (source_id : String) (before : Status) (groups : List LdapGroup)
      → Keeps (Sent V calls) (plan_for V fuel max_age source_id before groups)
  unfolding plan_for
  Keeps-plan_for fuel max_age source_id before groups =
      search (keeps_rules, Keeps-reading, Keeps-check_status, Keeps-read_memberships) depth 20

  Keeps-make_plan : (fuel max_age : ℕ) → Keeps (Sent V calls) (make_plan V fuel max_age)
  unfolding make_plan
  Keeps-make_plan fuel max_age =
      search (keeps_rules, Keeps-reading, Keeps-check_status, Keeps-plan_for) depth 20

-- Either no call was sent, or changes were asked for and the plan was made.
abbrev pub Changes :
    (V : Servers)
    → (apply : Bool) → Result Stop (List Operation)
    → (before after : World V) → Type 0
Changes V apply planned before after =
    (after.calls ≡ before.calls)
    ⊎ ((apply ≡ true) × ((operations : List Operation) × (planned ≡ ok operations)))

module _ (V : Servers) (fuel max_age : ℕ) where
  finish-Changes :
      (apply : Bool) (before after : World V) (planned : Result Stop (List Operation))
      → after.calls ≡ before.calls
      → Changes V apply planned before
          (proceed planned
            (λ operations.
              if apply then (apply_plan V operations >> pure operations) else pure operations)
            after).1
  unfolding pure
  finish-Changes apply before after (raised e) same = inl same
  finish-Changes true before after (ok operations) same = inr (refl, (operations, refl))
  finish-Changes false before after (ok operations) same = inl same

  -- `reconcile` sends no changing call to Outline, unless it was asked to apply changes and every
  -- read and check before has succeeded and given a plan: a run that refuses the snapshot, or that
  -- is not asked to apply, changes nothing.
  pub reconcile-Changes :
      (apply : Bool) (w : World V)
      → Changes V apply (make_plan V fuel max_age w).0 w (reconcile V fuel max_age apply w).1
  unfolding reconcile ◌>>=◌
  reconcile-Changes apply w =
      finish-Changes apply w (make_plan V fuel max_age w).1 (make_plan V fuel max_age w).0
        ((Keeps-make_plan V w.calls fuel max_age).at w refl)
