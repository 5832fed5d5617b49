-- ===== src/OutlineSync/Plan/Removed.antt =====
-- The groups that have left the directory: what `plan_sync` removes from them is about no group
-- that the directory has.
use text.Mathlib.Text.{starts_with}
use krg_infra.Prelude.{
  String, true, false, not, ◌&&◌, List, [], ◌∷◌, ◌≡◌, refl, arith, ◌==◌, ◌∙◌, text_eq, contains,
  map, All, All-append, All-map, All-Among, Among, inl, inr,
}
use krg_infra.Text.{text_le}
use krg_infra.Sorted.{sorted}
use krg_infra.Effects.Fallible.{Gives, Gives-bind, Gives-if, Gives-any}
use krg_infra.OutlineSync.Rows.{OutlineGroup}
use krg_infra.OutlineSync.Plan.{
  Operation, remove_user, Members, members_at, is_managed, empty_removed,
}
use krg_infra.OutlineSync.Plan.Replay.{group_of, Elsewhere}
use krg_infra.OutlineSync.Plan.Disjoint.{Site, to_create, to_use, differ, real-ne-created}

module _ (prefix : String) (by_name by_external : List (String × OutlineGroup))
    (desired memberships : Members) where
  -- A call on a group that is there and was not used.
  abbrev pub IsUnused : List String → Operation → Type 0
  IsUnused used operation =
      (starts_with (group_of operation) prefix ≡ false)
      × (contains used (group_of operation) ≡ false)

  pub empty_removed-Unused :
      (groups : List OutlineGroup) (used : List String)
      → ((group : OutlineGroup) → Among group groups → starts_with group.id prefix ≡ false)
      → Gives
          (All (IsUnused used))
          (empty_removed prefix by_name by_external desired memberships groups used)
  unfolding empty_removed
  empty_removed-Unused [] used real = tt
  empty_removed-Unused (group ∷ groups) used real =
      let rest = empty_removed-Unused groups used (λ g among. real g (inr among)) in
      Gives-if _ (is_managed prefix group && not (contains used group.id)) _ _
        (λ removed.
          Gives-if _ group.external_group _ _ (λ _. tt)
            (λ _.
              Gives-bind (λ _. Unit {0}) _ (members_at memberships group.id) _
                (Gives-any (members_at memberships group.id))
                (λ current _. Gives-bind _ _ _ _ rest (λ operations unused.
                  All-append (IsUnused used) (map (remove_user group.id) (sorted text_le current))
                    operations
                    (All-map (IsUnused used) (remove_user group.id) (sorted text_le current) (
                      All-Among (λ x. IsUnused used (remove_user group.id x))
                        (sorted text_le current) (λ x h. (real group (inl refl), ground arith))))
                    unused))))
        (λ _. rest)

  -- Such calls are elsewhere for every group that is used or created.
  pub unused-Elsewhere :
      (keys used used' : List String) (id : String) (operations : List Operation)
      → Site prefix keys used used' id
      → All (IsUnused used') operations
      → Elsewhere id operations
  unused-Elsewhere keys used used' id [] site unused = tt
  unused-Elsewhere keys used used' id (operation ∷ operations) site ((real, out), unused) =
      (apart site, unused-Elsewhere keys used used' id operations site unused)
    where
      apart : Site prefix keys used used' id → (group_of operation == id) ≡ false
      apart (to_create pk present created) =
          differ _ _ λ p. real-ne-created prefix (group_of operation) pk real (p ∙ created)
      apart (to_use real' unused' later) =
          differ _ _ λ p. let same : contains used' (group_of operation) ≡ true = rw p later in cc
