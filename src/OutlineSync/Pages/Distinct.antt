-- ===== src/OutlineSync/Pages/Distinct.antt =====
-- The rows that are read are the announced number of rows, no two with one key.
use text.Mathlib.TextEquality.{eq_iff}
use krg_infra.Prelude.{
  ℕ, zero, suc, ◌+◌, String, false, not, ◌&&◌, ◌||◌, Option, none, some, List, [], ◌∷◌, ◌++◌, ◌≡◌,
  refl, ap, sym, ◌∙◌, arith, ◌==◌, leb, ltb, nat_eq, text_eq, contains, contains-append, length,
  length-append, map, All,
}
use krg_infra.Effects.{Result, ok, raised, Exec, pure, throw, lift, ◌>>=◌}
use krg_infra.Effects.Fallible.{Gives, Gives-if, Gives-weaken}
use krg_infra.Effects.Triple.{Triple, Triple-bind, Triple-if}
use krg_infra.OutlineSync.Pages.{
  ReadError, AuthentikPage, OutlinePage, see_all, is_empty, max, first_numbers, first_total,
  after_authentik_page, after_outline_page, authentik_loop, authentik_list, outline_loop,
  outline_list,
}

-- No element twice.
abbrev pub IsDistinct : List String → Type 0
IsDistinct [] = Unit
IsDistinct (x ∷ xs) = (contains xs x ≡ false) × IsDistinct xs

-- No element of one list is in another.
abbrev Apart : List String → List String → Type 0
Apart seen = All (λ x. contains seen x ≡ false)

Apart-cons :
    (x : String) (seen xs : List String)
    → Apart (x ∷ seen) xs
    → (contains xs x ≡ false) × Apart seen xs
Apart-cons x seen [] h = (refl, tt)
Apart-cons x seen (y ∷ xs) h =
    let later = Apart-cons x seen xs h.1 in ground (arith, eq_iff x y, eq_iff y x)

Apart-weaken :
    (a b xs : List String) → ((k : String) → contains a k ≡ contains b k) → Apart a xs → Apart b xs
Apart-weaken a b [] same h = tt
Apart-weaken a b (x ∷ xs) same h = (sym (same x) ∙ h.0, Apart-weaken a b xs same h.1)

append-IsDistinct :
    (xs ys : List String) → IsDistinct xs → IsDistinct ys → Apart xs ys → IsDistinct (xs ++ ys)
append-IsDistinct [] ys h k apart = k
append-IsDistinct (x ∷ xs) ys h k apart =
    let (out, apart') = Apart-cons x xs ys apart in
    (ground (arith, contains-append xs ys x), append-IsDistinct xs ys h.1 k apart')

module _ {A : Type 0} (key : A → String) where
  map-append : (xs ys : List A) → map key (xs ++ ys) ≡ map key xs ++ map key ys
  map-append [] ys = refl
  map-append (x ∷ xs) ys = ap (λ rest. key x ∷ rest) (map-append xs ys)

  -- A page without a key that was seen, and the keys seen with it.
  abbrev Added : List A → List String → List String → Type 0
  Added batch seen seen' =
      IsDistinct (map key batch)
      × Apart seen (map key batch)
      × ((k : String) → contains seen' k ≡ (contains (map key batch) k || contains seen k))

  see_all-Added :
      (batch : List A) (seen : List String) → Gives (Added batch seen) (see_all key batch seen)
  unfolding see_all
  see_all-Added [] seen = (tt, tt, λ k. refl)
  see_all-Added (row ∷ rows) seen =
      Gives-if _ (contains seen (key row)) _ _ (λ _. tt)
        (λ fresh.
          Gives-weaken _ _ (see_all key rows (key row ∷ seen))
            (λ seen' (distinct, apart, all_seen).
              let (out, apart') = Apart-cons (key row) seen (map key rows) apart in
              ((out, distinct), (fresh, apart'), λ k. ground (arith, all_seen k)))
            (see_all-Added rows (key row ∷ seen)))

  -- The rows so far have different keys, and those are the keys seen.
  abbrev SoFar : List A → List String → Type 0
  SoFar rows seen =
      IsDistinct (map key rows) × ((k : String) → contains seen k ≡ contains (map key rows) k)

  SoFar-append :
      (rows batch : List A) (seen seen' : List String)
      → SoFar rows seen
      → Added batch seen seen'
      → SoFar (rows ++ batch) seen'
  SoFar-append rows batch seen seen' (distinct, all_seen) (distinct', apart, all_seen') = (
    rw (map-append rows batch) (
        append-IsDistinct (map key rows) (map key batch) distinct distinct'
          (Apart-weaken seen (map key rows) (map key batch) all_seen apart)),
    λ k.
        rw (map-append rows batch) (
          ground
            (arith, all_seen k, all_seen' k, contains-append (map key rows) (map key batch) k)),
  )

  -- A result with so many rows, no two with one key.
  abbrev pub IsComplete : ℕ → Result ReadError (List A) → Type 0
  IsComplete count (ok rows) = (length rows ≡ count) × IsDistinct (map key rows)
  IsComplete count (raised e) = Unit

  module _ {S : Type 0} where
    lift-Added :
        (batch : List A) (seen : List String)
        → Triple {S = S}
            (λ _. Unit {0})
            (lift (see_all key batch seen))
            (λ r _. Gives (Added batch seen) r)
    unfolding lift
    lift-Added batch seen = record { at = λ s h. see_all-Added batch seen }

    after_authentik_page-IsComplete :
        (next : ℕ → Option (ℕ × ℕ) → List A → List String → Exec ReadError S (List A)) (page : ℕ)
        (numbers : Option (ℕ × ℕ)) (rows : List A) (seen : List String) (result : AuthentikPage A)
        → ((page' : ℕ) (rows' : List A) (seen' : List String)
            → SoFar rows' seen'
            → Triple
                (λ _. Unit {0})
                (next page' (some (first_numbers numbers result)) rows' seen')
                (λ r _. IsComplete (first_numbers numbers result).1 r))
        → SoFar rows seen
        → Triple
            (λ _. Unit {0})
            (after_authentik_page key next page numbers rows seen result)
            (λ r _. IsComplete (first_numbers numbers result).1 r)
    unfolding after_authentik_page pure throw
    after_authentik_page-IsComplete next page numbers rows seen result goes_on so_far =
        let (pages, count) = first_numbers numbers result in
        Triple-if (not (result.total_pages == pages && result.count == count)) _ _
          (λ _. record { at = λ s h. tt })
          (λ _.
            Triple-bind _ _ _ (lift-Added result.results seen)
              (λ seen'. record {
                at = λ s added.
                    let so_far' = SoFar-append rows result.results seen seen' so_far added in
                    (Triple-if (not result.has_next) _ _
                        (λ _.
                          Triple-if
                            (not (length (rows ++ result.results) == count)
                              || not (page == max 1 pages))
                            _ _ (λ _. record { at = λ s h. tt })
                            (λ right. record { at = λ s h. (ground arith, so_far'.0) }))
                        (λ _.
                          Triple-if (is_empty result.results || leb pages page) _ _
                            (λ _. record { at = λ s h. tt })
                            (λ _. goes_on (page + 1) (rows ++ result.results) seen' so_far'))).at
                      s tt;
              })
              (λ e s h. tt))

    after_outline_page-IsComplete :
        (next : ℕ → Option ℕ → List A → List String → Exec ReadError S (List A)) (offset : ℕ)
        (known : Option ℕ) (rows : List A) (seen : List String) (result : OutlinePage A)
        → ((offset' : ℕ) (rows' : List A) (seen' : List String)
            → offset' ≡ length rows'
            → SoFar rows' seen'
            → Triple
                (λ _. Unit {0})
                (next offset' (some (first_total known result)) rows' seen')
                (λ r _. IsComplete (first_total known result) r))
        → SoFar rows seen
        → offset ≡ length rows
        → Triple
            (λ _. Unit {0})
            (after_outline_page key next offset known rows seen result)
            (λ r _. IsComplete (first_total known result) r)
    unfolding after_outline_page pure throw
    after_outline_page-IsComplete next offset known rows seen result goes_on so_far at_end =
        let total = first_total known result in
        let offset' = offset + length result.batch in
        let end : offset' ≡ length (rows ++ result.batch) =
          rw (at_end, length-append rows result.batch) in
        Triple-if (not (result.total == total)) _ _ (λ _. record { at = λ s h. tt })
          (λ _.
            Triple-bind _ _ _ (lift-Added result.batch seen)
              (λ seen'. record {
                at = λ s added.
                    let so_far' = SoFar-append rows result.batch seen seen' so_far added in
                    (Triple-if (offset' == total) _ _
                        (λ last. record { at = λ s h. (ground arith, so_far'.0) })
                        (λ _.
                          Triple-if (is_empty result.batch || ltb total offset') _ _
                            (λ _. record { at = λ s h. tt })
                            (λ _. goes_on offset' (rows ++ result.batch) seen' end so_far'))).at
                      s tt;
              })
              (λ e s h. tt))

    module _ (request : ℕ → Exec ReadError S (AuthentikPage A)) where
      authentik_loop-IsComplete :
          (fuel page pages count : ℕ) (rows : List A) (seen : List String)
          → SoFar rows seen
          → Triple
              (λ _. Unit {0})
              (authentik_loop key request fuel page (some (pages, count)) rows seen)
              (λ r _. IsComplete count r)
      unfolding authentik_loop throw
      authentik_loop-IsComplete zero page pages count rows seen so_far = record { at = λ s h. tt }
      authentik_loop-IsComplete (suc fuel) page pages count rows seen so_far =
          Triple-bind (λ _ _. Unit {0}) (request page) _ (record { at = λ s h. tt })
            (λ result.
              after_authentik_page-IsComplete (authentik_loop key request fuel) page
                (some (pages, count)) rows seen result
                (λ page' rows' seen' h.
                  authentik_loop-IsComplete fuel page' pages count rows' seen' h)
                so_far)
            (λ e s h. tt)

      -- What a list that was read from a state is: as many rows as its first page announces.
      abbrev pub AsAnnounced : S → Result ReadError (List A) → Type 0
      AsAnnounced s r =
          (first : AuthentikPage A) → (request 1 s).0 ≡ ok first → IsComplete first.count r

      -- Whatever the server answers, the list of rows that `authentik_list` returns has as many
      -- rows as the first page has announced, and no two of them have one key.
      pub authentik_list-IsComplete :
          (fuel : ℕ) (s : S) → AsAnnounced s (authentik_list key request fuel s).0
      unfolding authentik_list authentik_loop throw ◌>>=◌
      authentik_list-IsComplete zero s first e = tt
      authentik_list-IsComplete (suc fuel) s first e = rw e (
          (after_authentik_page-IsComplete (authentik_loop key request fuel) 1 none [] [] first
              (λ page' rows' seen' h.
                authentik_loop-IsComplete fuel page' first.total_pages first.count rows' seen' h)
              (tt, λ k. refl)).at
            (request 1 s).1 tt)

    module _ (request : ℕ → Exec ReadError S (OutlinePage A)) where
      outline_loop-IsComplete :
          (fuel total offset : ℕ) (rows : List A) (seen : List String)
          → offset ≡ length rows
          → SoFar rows seen
          → Triple
              (λ _. Unit {0})
              (outline_loop key request fuel offset (some total) rows seen)
              (λ r _. IsComplete total r)
      unfolding outline_loop throw
      outline_loop-IsComplete zero total offset rows seen at_end so_far = record { at = λ s h. tt }
      outline_loop-IsComplete (suc fuel) total offset rows seen at_end so_far =
          Triple-bind (λ _ _. Unit {0}) (request offset) _ (record { at = λ s h. tt })
            (λ result.
              after_outline_page-IsComplete (outline_loop key request fuel) offset (some total) rows
                seen result
                (λ offset' rows' seen' end h.
                  outline_loop-IsComplete fuel total offset' rows' seen' end h)
                so_far at_end)
            (λ e s h. tt)

      abbrev pub AsTotalled : S → Result ReadError (List A) → Type 0
      AsTotalled s r =
          (first : OutlinePage A) → (request 0 s).0 ≡ ok first → IsComplete first.total r

      -- Whatever the server answers, the list of rows that `outline_list` returns has as many rows
      -- as the first page gives as the total, and no two of them have one key.
      pub outline_list-IsComplete :
          (fuel : ℕ) (s : S) → AsTotalled s (outline_list key request fuel s).0
      unfolding outline_list outline_loop throw ◌>>=◌
      outline_list-IsComplete zero s first e = tt
      outline_list-IsComplete (suc fuel) s first e = rw e (
          (after_outline_page-IsComplete (outline_loop key request fuel) 0 none [] [] first
              (λ offset' rows' seen' end h.
                outline_loop-IsComplete fuel first.total offset' rows' seen' end h)
              (tt, λ k. refl) refl).at
            (request 0 s).1 tt)
