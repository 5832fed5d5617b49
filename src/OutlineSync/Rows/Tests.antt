-- ===== src/OutlineSync/Rows/Tests.antt =====
-- An index of two rows.
use krg_infra.Prelude.{List, [], ◌∷◌}
use krg_infra.Effects.Fallible.{Gives}
use krg_infra.OutlineSync.Rows.{LdapGroup, index_unique}
use krg_infra.OutlineSync.Rows.Index.{IsIndex, index_unique-IsIndex}

abbrev two_groups : List LdapGroup
two_groups = record { pk = "1"; name = "lab" } ∷ record { pk = "2"; name = "staff" } ∷ []

index_unique-IsIndex_example :
    Gives
      (IsIndex (λ (g : LdapGroup). g.name) two_groups)
      (index_unique (λ (g : LdapGroup). g.name) two_groups)
index_unique-IsIndex_example = index_unique-IsIndex (λ (g : LdapGroup). g.name) two_groups
