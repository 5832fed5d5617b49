-- ===== src/OutlineSync/Rows/Index.antt =====
-- What `index_unique` returns.
use krg_infra.Prelude.{
  String, false, ◌||◌, some, List, [], ◌∷◌, ◌≡◌, refl, ap, sym, subst, arith, ◌==◌, text_eq,
  contains, lookup, map, All, Among, UniqueKeys, Among-All, Among-map, Among-unmap, Among-lookup,
  lookup-Among,
}
use text.Mathlib.TextEquality.{eq_iff}
use krg_infra.Effects.Fallible.{Gives, Gives-bind, Gives-if, Gives-weaken}
use krg_infra.OutlineSync.Rows.{index_from, index_unique}

-- An index of rows by their keys: it holds the rows in their order, each under its key, which is
-- not blank, and no key twice.
pub record IsIndex {A : Type 0} (key : A → String) (rows : List A) (index : List (String × A))
    : Type 0 where
  pub same_rows : map (λ e. e.1) index ≡ rows
  pub under_keys : All (λ e. (e.0 ≡ key e.1) × ((e.0 == "") ≡ false)) index
  pub unique : UniqueKeys index

module _ {A : Type 0} (key : A → String) where
  -- The keys of an index are none of those seen before.
  abbrev Fresh : List String → List (String × A) → Type 0
  Fresh seen index = All (λ e. contains seen e.0 ≡ false) index

  Fresh-unique :
      (k : String) (seen : List String) (index : List (String × A))
      → Fresh (k ∷ seen) index
      → (contains (map (λ e. e.0) index) k ≡ false) × Fresh seen index
  Fresh-unique k seen [] h = (refl, tt)
  Fresh-unique k seen ((j, row) ∷ index) h =
      let (later, fresh) = Fresh-unique k seen index h.1 in ground (arith, eq_iff j k, eq_iff k j)

  index_from-IsIndex :
      (seen : List String) (rows : List A)
      → Gives (λ index. IsIndex key rows index × Fresh seen index) (index_from key seen rows)
  unfolding index_from
  index_from-IsIndex seen [] = (record { same_rows = refl; under_keys = tt; unique = tt }, tt)
  index_from-IsIndex seen (row ∷ rows) =
      Gives-if _ (key row == "" || contains seen (key row)) _ _ (λ _. tt)
        (λ good.
          Gives-bind _ _ (index_from key (key row ∷ seen) rows) _
            (index_from-IsIndex (key row ∷ seen) rows)
            (λ index (h, fresh).
              let (new, fresh') = Fresh-unique (key row) seen index fresh in
              (
                record {
                  same_rows = ap (λ rest. row ∷ rest) h.same_rows;
                  under_keys = ((refl, ground arith), h.under_keys);
                  unique = (new, h.unique);
                },
                (ground arith, fresh'),
              )))

  -- If `index_unique` accepts the rows, it returns an index of them: all the rows in their order,
  -- each under its key, no key blank and none twice.
  pub index_unique-IsIndex : (rows : List A) → Gives (IsIndex key rows) (index_unique key rows)
  unfolding index_unique
  index_unique-IsIndex rows =
      Gives-weaken (λ index. IsIndex key rows index × Fresh [] index) _ (index_from key [] rows)
        (λ index h. h.0) (index_from-IsIndex [] rows)

  -- A row that is found under a key is one of the rows, and its key is that one.
  pub IsIndex-lookup :
      (rows : List A) (index : List (String × A)) (k : String) (row : A)
      → IsIndex key rows index
      → lookup k index ≡ some row
      → Among row rows × (key row ≡ k)
  IsIndex-lookup rows index k row h found =
      let among = lookup-Among k row index found in
      (
        subst (Among row) h.same_rows (Among-map (λ e. e.1) index (k, row) among),
        sym (Among-All _ index (k, row) h.under_keys among).0,
      )

  -- Each of the rows is found under its key.
  pub IsIndex-found :
      (rows : List A) (index : List (String × A)) (row : A)
      → IsIndex key rows index
      → Among row rows
      → (lookup (key row) index ≡ some row) × Among (key row, row) index
  IsIndex-found rows index row h among =
      let (k, there) = Among-unmap row index (subst (Among row) (sym h.same_rows) among) in
      let under = (Among-All _ index (k, row) h.under_keys there).0 in
      let found = Among-lookup k row index h.unique there in
      (rw (← under) found, rw (← under) there)
