-- ===== src/OutlineSync/Plan/Replay.antt =====
-- What Outline's members are once it has carried out planned operations.
use text.Mathlib.TextEquality.{eq_iff}
use krg_infra.Prelude.{
  String, Bool, true, false, not, ◌&&◌, ◌||◌, List, [], ◌∷◌, ◌++◌, ◌≡◌, refl, arith, ◌==◌,
  if◌then◌else◌, text_eq, contains, contains-keep, map, All,
}
use krg_infra.Text.{text_le}
use krg_infra.Sorted.{sorted, contains-sorted}
use krg_infra.OutlineSync.Plan.{
  Operation, create, update, add_user, remove_user, without, member_changes,
}

-- The group that a call is about.
abbrev pub group_of : Operation → String
group_of (create name external_id) = external_id
group_of (update id name external_id) = id
group_of (add_user id user) = id
group_of (remove_user id user) = id

-- No call is about this group.
abbrev pub Elsewhere : String → List Operation → Type 0
Elsewhere id = All (λ operation. (group_of operation == id) ≡ false)

module _ (id user : String) where
  -- Whether the user is a member of the group after a call, by whether it was one before. A group
  -- that is created has no members; the other calls do as their names say.
  abbrev pub effect : Operation → Bool → Bool
  effect (create name external_id) was = if external_id == id then false else was
  effect (update id' name external_id) was = was
  effect (add_user id' user') was = if id' == id && user' == user then true else was
  effect (remove_user id' user') was = if id' == id && user' == user then false else was

  -- The same for calls one after another.
  abbrev pub replay : List Operation → Bool → Bool
  replay [] was = was
  replay (operation ∷ operations) was = replay operations (effect operation was)

  pub replay-append :
      (a b : List Operation) (was : Bool) → replay (a ++ b) was ≡ replay b (replay a was)
  replay-append [] b was = refl
  replay-append (operation ∷ a) b was = replay-append a b (effect operation was)

  effect_elsewhere :
      (operation : Operation) (was : Bool)
      → (group_of operation == id) ≡ false
      → effect operation was ≡ was
  effect_elsewhere (create name external_id) was h = ground arith
  effect_elsewhere (update id' name external_id) was h = refl
  effect_elsewhere (add_user id' user') was h = ground arith
  effect_elsewhere (remove_user id' user') was h = ground arith

  pub replay-Elsewhere :
      (operations : List Operation) (was : Bool)
      → Elsewhere id operations
      → replay operations was ≡ was
  replay-Elsewhere [] was h = refl
  replay-Elsewhere (operation ∷ operations) was h =
      rw (effect_elsewhere operation was h.0) (replay-Elsewhere operations was h.1)

  replay_additions :
      (users : List String) (was : Bool)
      → replay (map (add_user id) users) was ≡ (was || contains users user)
  replay_additions [] was = ground arith
  replay_additions (x ∷ users) was =
      ground (arith, replay_additions users true, replay_additions users was, eq_iff id id)

  pub replay_removals :
      (users : List String) (was : Bool)
      → replay (map (remove_user id) users) was ≡ (was && not (contains users user))
  replay_removals [] was = ground arith
  replay_removals (x ∷ users) was =
      ground (arith, replay_removals users false, replay_removals users was, eq_iff id id)

  -- The changes planned for a group turn its current members into the desired ones.
  pub replay-member_changes :
      (desired current : List String)
      → replay (member_changes id desired current) (contains current user) ≡ contains desired user
  unfolding member_changes
  replay-member_changes desired current =
      let added = sorted text_le (without desired current) in
      let removed = sorted text_le (without current desired) in
      let was = contains current user in
      rw
        (
          replay-append (map (add_user id) added) (map (remove_user id) removed) was,
          replay_additions added was,
          replay_removals removed (was || contains added user),
          contains-sorted text_le (without desired current) user,
          contains-sorted text_le (without current desired) user,
          contains-keep (λ x. not (contains current x)) desired user,
          contains-keep (λ x. not (contains desired x)) current user,
        )
        (ground arith)
