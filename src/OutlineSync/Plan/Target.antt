-- ===== src/OutlineSync/Plan/Target.antt =====
-- Which group of Outline `plan_sync` takes for a group of the directory.
use krg_infra.Prelude.{
  String, ◌<>◌, true, false, not, Option, none, some, List, ◌≡◌, ◌≢◌, refl, ap, ◌==◌, text_eq,
  option_eq, lookup, keep, Among, Among-keep,
}
use krg_infra.OutlineSync.Rows.{LdapGroup, OutlineGroup}
use krg_infra.OutlineSync.Rows.Index.{IsIndex, IsIndex-lookup, IsIndex-found}
use krg_infra.OutlineSync.Plan.{Members, or_else, has_external_id, external_id_of}
use krg_infra.OutlineSync.Plan.Rounds.{id_of, target_id}

-- The prefix of the external ids that the tool gives.
abbrev pub prefix_of : String → String
prefix_of source_id = "krg-ldap:" <> source_id <> ":"

-- Which group of Outline a group of the directory is mapped to: the one that carries its external
-- id, one of its name, or, where no group has its name, one that is created.
pub data IsTarget (prefix : String) (outline_groups : List OutlineGroup) (source : LdapGroup)
    (id : String) : Type 0 where
  owned :
      (group : OutlineGroup)
      → Among group outline_groups
      → group.external_id ≡ some (prefix <> source.pk)
      → id ≡ group.id
      → IsTarget prefix outline_groups source id
  adopted :
      (group : OutlineGroup)
      → Among group outline_groups
      → group.name ≡ source.name
      → id ≡ group.id
      → IsTarget prefix outline_groups source id
  created :
      ((group : OutlineGroup) → Among group outline_groups → group.name ≢ source.name)
      → id ≡ prefix <> source.pk
      → IsTarget prefix outline_groups source id

owned_id :
    (o : Option String) (k : String)
    → (elim o [ none ↦ false | some id ↦ not (id == "") ]) ≡ true
    → (elim o [ none ↦ "" | some id ↦ id ]) ≡ k
    → o ≡ some k
owned_id none k has same = cc
owned_id (some id) k has same = ap some same

module _ (prefix : String) (outline_groups : List OutlineGroup)
    (by_name by_external : List (String × OutlineGroup)) (desired memberships : Members)
    (names : IsIndex (λ (g : OutlineGroup). g.name) outline_groups by_name)
    (externals : IsIndex external_id_of (keep has_external_id outline_groups) by_external) where
  found-IsTarget :
      (source : LdapGroup) (by_id same_name : Option OutlineGroup)
      → lookup (prefix <> source.pk) by_external ≡ by_id
      → lookup source.name by_name ≡ same_name
      → IsTarget prefix outline_groups source
          (target_id (prefix <> source.pk) (or_else by_id same_name))
  found-IsTarget source (some group) same_name e e' =
      let (there, same) = IsIndex-lookup external_id_of _ by_external _ group externals e in
      let (there', has) = Among-keep has_external_id outline_groups group there in
      owned group there' (owned_id group.external_id _ has same) refl
  found-IsTarget source none (some group) e e' =
      let (there, same) =
        IsIndex-lookup (λ (g : OutlineGroup). g.name) _ by_name _ group names e' in
      adopted group there same refl
  found-IsTarget source none none e e' =
      created
        (λ group there same.
          let (found, _) =
            IsIndex-found (λ (g : OutlineGroup). g.name) _ by_name group names there in
          let found' : lookup source.name by_name ≡ some group = rw (← same) found in cc)
        refl

  pub id_of-IsTarget :
      (source : LdapGroup)
      → IsTarget prefix outline_groups source
          (id_of prefix by_name by_external desired memberships source.pk source)
  id_of-IsTarget source = found-IsTarget source _ _ refl refl
