-- ===== src/OutlineSync/Pages/Total.antt =====
-- The paginated reads end: a round for each announced page, or for each announced row and one more,
-- is enough.
use krg_infra.Prelude.{
  ℕ, zero, suc, ◌+◌, ◌≤◌, ◌<◌, String, false, not, ◌&&◌, ◌||◌, Option, none, some, List, [], ◌∷◌,
  ◌++◌, ◌≡◌, ◌≢◌, refl, arith, ◌==◌, leb, ltb, nat_eq, contains, text_eq, length, Bool-cases, inl,
  inr,
}
use krg_infra.Effects.{Result, ok, raised, Exec, pure, throw, lift, proceed, ◌>>=◌}
use krg_infra.Effects.Triple.{Triple, Triple-bind, Triple-if, Triple-weaken}
use krg_infra.OutlineSync.Pages.{
  ReadError, fuel_spent, AuthentikPage, OutlinePage, see_all, is_empty, max, first_numbers,
  first_total, after_authentik_page, after_outline_page, authentik_loop, authentik_list,
  outline_loop, outline_list,
}

abbrev Ends : {S A : Type 0} → Exec ReadError S A → Type 0
Ends m = Triple (λ _. Unit {0}) m (λ r _. r ≢ raised fuel_spent)

-- No request raises the model's own failure.
pub record IsHonest {S P : Type 0} (request : ℕ → Exec ReadError S P) : Type 0 where
  pub at : (n : ℕ) (s : S) → (request n s).0 ≢ raised fuel_spent

length_positive : {A : Type 0} (xs : List A) → is_empty xs ≡ false → 1 ≤ length xs
length_positive [] h = cc
length_positive (x ∷ xs) h = omega arith

module _ {A : Type 0} (key : A → String) where
  see_all_ends : (batch : List A) (seen : List String) → see_all key batch seen ≢ raised fuel_spent
  unfolding see_all
  see_all_ends [] seen = λ p. cc
  see_all_ends (row ∷ rows) seen = elim (Bool-cases (contains seen (key row))) [
    | inl h ↦ rw h (λ p. cc)
    | inr h ↦ rw h (see_all_ends rows (key row ∷ seen))
  ]

module _ {S A : Type 0} (key : A → String) where
  lift-Ends : (batch : List A) (seen : List String) → Ends {S = S} (lift (see_all key batch seen))
  unfolding lift
  lift-Ends batch seen = record { at = λ s h. see_all_ends key batch seen }

  after_authentik_page-Ends :
      (next : ℕ → Option (ℕ × ℕ) → List A → List String → Exec ReadError S (List A)) (page : ℕ)
      (numbers : Option (ℕ × ℕ)) (rows : List A) (seen : List String) (result : AuthentikPage A)
      → ((rows' : List A) (seen' : List String)
          → page < (first_numbers numbers result).0
          → Ends (next (page + 1) (some (first_numbers numbers result)) rows' seen'))
      → Ends (after_authentik_page key next page numbers rows seen result)
  unfolding after_authentik_page pure throw
  after_authentik_page-Ends next page numbers rows seen result goes_on =
      let (pages, count) = first_numbers numbers result in
      Triple-if (not (result.total_pages == pages && result.count == count)) _ _
        (λ _. record { at = λ s h p. cc })
        (λ _.
          Triple-bind _ _ _ (lift-Ends result.results seen)
            (λ seen'.
              Triple-weaken _ (λ s h. tt) (λ r s h. h)
                (Triple-if (not result.has_next) _ _
                  (λ _.
                    Triple-if
                      (not (length (rows ++ result.results) == count) || not (page == max 1 pages))
                      _ _ (λ _. record { at = λ s h p. cc }) (λ _. record { at = λ s h p. cc }))
                  (λ _.
                    Triple-if (is_empty result.results || leb pages page) _ _
                      (λ _. record { at = λ s h p. cc })
                      (λ more. goes_on (rows ++ result.results) seen' (ground arith)))))
            (λ e s h p. h (cc p)))

  after_outline_page-Ends :
      (next : ℕ → Option ℕ → List A → List String → Exec ReadError S (List A)) (offset : ℕ)
      (known : Option ℕ) (rows : List A) (seen : List String) (result : OutlinePage A)
      → ((offset' : ℕ) (rows' : List A) (seen' : List String)
          → offset < offset'
          → offset' < first_total known result
          → Ends (next offset' (some (first_total known result)) rows' seen'))
      → Ends (after_outline_page key next offset known rows seen result)
  unfolding after_outline_page pure throw
  after_outline_page-Ends next offset known rows seen result goes_on =
      let total = first_total known result in
      let offset' = offset + length result.batch in
      Triple-if (not (result.total == total)) _ _ (λ _. record { at = λ s h p. cc })
        (λ _.
          Triple-bind _ _ _ (lift-Ends result.batch seen)
            (λ seen'.
              Triple-weaken _ (λ s h. tt) (λ r s h. h)
                (Triple-if (offset' == total) _ _ (λ _. record { at = λ s h p. cc })
                  (λ unequal.
                    Triple-if (is_empty result.batch || ltb total offset') _ _
                      (λ _. record { at = λ s h p. cc })
                      (λ more.
                        let some_rows = length_positive result.batch (ground arith) in
                        goes_on offset' (rows ++ result.batch) seen' (omega (arith, some_rows))
                          (ground (arith, unequal, more))))))
            (λ e s h p. h (cc p)))

  module _ (request : ℕ → Exec ReadError S (AuthentikPage A)) (honest : IsHonest request) where
    authentik_loop-Ends :
        (fuel page pages count : ℕ) (rows : List A) (seen : List String)
        → page ≤ pages
        → pages < page + fuel
        → Ends (authentik_loop key request fuel page (some (pages, count)) rows seen)
    unfolding authentik_loop
    authentik_loop-Ends zero page pages count rows seen within enough =
        absurd (omega (arith, within, enough))
    authentik_loop-Ends (suc fuel) page pages count rows seen within enough =
        Triple-bind (λ r _. r ≢ raised fuel_spent) (request page) _
          (record { at = λ s h. honest.at page s })
          (λ result.
            Triple-weaken _ (λ s h. tt) (λ r s h. h)
              (after_authentik_page-Ends (authentik_loop key request fuel) page
                (some (pages, count)) rows seen result
                (λ rows' seen' more.
                  authentik_loop-Ends fuel (page + 1) pages count rows' seen' (omega (arith, more))
                    (omega (arith, enough)))))
          (λ e s h p. h (cc p))

    first_page_ends :
        (fuel : ℕ) (r : Result ReadError (AuthentikPage A)) (s : S)
        → r ≢ raised fuel_spent
        → ((first : AuthentikPage A) → r ≡ ok first → first.total_pages ≤ suc fuel)
        → (proceed r (after_authentik_page key (authentik_loop key request fuel) 1 none [] []) s).0
          ≢ raised fuel_spent
    first_page_ends fuel (raised e) s honest' enough = λ p. honest' (cc p)
    first_page_ends fuel (ok first) s honest' enough =
        (after_authentik_page-Ends (authentik_loop key request fuel) 1 none [] [] first
            (λ rows' seen' more.
              authentik_loop-Ends fuel 2 first.total_pages first.count rows' seen'
                (omega (arith, more)) (omega (arith, enough first refl)))).at
          s tt

    -- If no request raises the model's own failure, and there is fuel for each page that the first
    -- page announces, and for one page at least, then `authentik_list` does not run out of it.
    pub authentik_list_total :
        (fuel : ℕ) (s : S)
        → ((first : AuthentikPage A) → (request 1 s).0 ≡ ok first → first.total_pages ≤ suc fuel)
        → (authentik_list key request (suc fuel) s).0 ≢ raised fuel_spent
    unfolding authentik_list authentik_loop ◌>>=◌
    authentik_list_total fuel s enough =
        first_page_ends fuel (request 1 s).0 (request 1 s).1 (honest.at 1 s) enough

  module _ (request : ℕ → Exec ReadError S (OutlinePage A)) (honest : IsHonest request) where
    outline_loop-Ends :
        (fuel offset total : ℕ) (rows : List A) (seen : List String)
        → offset < total
        → total ≤ offset + fuel
        → Ends (outline_loop key request fuel offset (some total) rows seen)
    unfolding outline_loop
    outline_loop-Ends zero offset total rows seen within enough =
        absurd (omega (arith, within, enough))
    outline_loop-Ends (suc fuel) offset total rows seen within enough =
        Triple-bind (λ r _. r ≢ raised fuel_spent) (request offset) _
          (record { at = λ s h. honest.at offset s })
          (λ result.
            Triple-weaken _ (λ s h. tt) (λ r s h. h)
              (after_outline_page-Ends (outline_loop key request fuel) offset (some total) rows seen
                result
                (λ offset' rows' seen' more within'.
                  outline_loop-Ends fuel offset' total rows' seen' within'
                    (omega (arith, enough, more)))))
          (λ e s h p. h (cc p))

    first_batch_ends :
        (fuel : ℕ) (r : Result ReadError (OutlinePage A)) (s : S)
        → r ≢ raised fuel_spent
        → ((first : OutlinePage A) → r ≡ ok first → first.total ≤ suc fuel)
        → (proceed r (after_outline_page key (outline_loop key request fuel) 0 none [] []) s).0
          ≢ raised fuel_spent
    first_batch_ends fuel (raised e) s honest' enough = λ p. honest' (cc p)
    first_batch_ends fuel (ok first) s honest' enough =
        (after_outline_page-Ends (outline_loop key request fuel) 0 none [] [] first
            (λ offset' rows' seen' more within.
              outline_loop-Ends fuel offset' first.total rows' seen' within
                (omega (arith, more, enough first refl)))).at
          s tt

    -- If no request raises the model's own failure, and there is fuel for each row of the total that
    -- the first page gives, and for one page at least, then `outline_list` does not run out of it.
    pub outline_list_total :
        (fuel : ℕ) (s : S)
        → ((first : OutlinePage A) → (request 0 s).0 ≡ ok first → first.total ≤ suc fuel)
        → (outline_list key request (suc fuel) s).0 ≢ raised fuel_spent
    unfolding outline_list outline_loop ◌>>=◌
    outline_list_total fuel s enough =
        first_batch_ends fuel (request 0 s).0 (request 0 s).1 (honest.at 0 s) enough
