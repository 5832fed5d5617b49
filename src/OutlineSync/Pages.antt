-- ===== src/OutlineSync/Pages.antt =====
-- `API.authentik_list` and `API.outline_list` of sync.py: the rows of all pages, or a refusal.
pub mod Distinct
pub mod Total
mod Tests
use krg_infra.Prelude.{
  ℕ, zero, suc, ◌+◌, String, Bool, true, false, not, ◌&&◌, ◌||◌, Option, none, some, List, [], ◌∷◌,
  ◌++◌, ◌==◌, leb, ltb, if◌then◌else◌, nat_eq, text_eq, contains, length,
}
use krg_infra.Effects.{Result, ok, raised, Exec, pure, throw, lift, ◌>>=◌, ◌>>◌}

-- Why reading stops: a `SyncError` by its message, or a request that failed.
pub data ReadError : Type 0 where
  changed_during_pagination duplicate_result incomplete_pagination invalid_pagination : ReadError
  request_failed : String → ReadError
  fuel_spent : ReadError

-- One page of Authentik's, and one of Outline's.
pub record AuthentikPage (A : Type 0) : Type 0 where
  pub total_pages : ℕ
  pub count : ℕ
  pub has_next : Bool
  pub results : List A

pub record OutlinePage (A : Type 0) : Type 0 where
  pub total : ℕ
  pub batch : List A

-- Adds the keys of a page to those seen, if none of them was seen before.
see_all : {A : Type 0} → (A → String) → List A → List String → Result ReadError (List String)
see_all key [] seen = ok seen
see_all key (row ∷ rows) seen =
    let rest = see_all key rows (key row ∷ seen) in
    if contains seen (key row) then raised duplicate_result else rest

abbrev is_empty : {A : Type 0} → List A → Bool
is_empty [] = true
is_empty (x ∷ xs) = false

abbrev max : ℕ → ℕ → ℕ
max a b = if leb a b then b else a

-- What the first page said of the number of pages and of rows.
abbrev first_numbers : {A : Type 0} → Option (ℕ × ℕ) → AuthentikPage A → ℕ × ℕ
first_numbers none result = (result.total_pages, result.count)
first_numbers (some numbers) result = numbers

abbrev first_total : {A : Type 0} → Option ℕ → OutlinePage A → ℕ
first_total none result = result.total
first_total (some total) result = total

module _ {S A : Type 0} (key : A → String) where
  -- What follows the answer for a page; `next` goes on with the loop.
  after_authentik_page :
      (next : ℕ → Option (ℕ × ℕ) → List A → List String → Exec ReadError S (List A))
      → (page : ℕ) → Option (ℕ × ℕ)
      → List A
      → List String
      → AuthentikPage A
      → Exec ReadError S (List A)
  unfolding see_all
  after_authentik_page next page numbers rows seen result =
      let (pages, count) = first_numbers numbers result in
      if not (result.total_pages == pages && result.count == count)
      then throw changed_during_pagination
      else do
        seen' ← lift (see_all key result.results seen)
        let rows' = rows ++ result.results
        if not result.has_next
            then (if not (length rows' == count) || not (page == max 1 pages)
                then throw incomplete_pagination
                else pure rows')
            else if is_empty result.results || leb pages page
            then throw invalid_pagination
            else next (page + 1) (some (pages, count)) rows' seen'

  after_outline_page :
      (next : ℕ → Option ℕ → List A → List String → Exec ReadError S (List A))
      → (offset : ℕ) → Option ℕ
      → List A
      → List String
      → OutlinePage A
      → Exec ReadError S (List A)
  unfolding see_all
  after_outline_page next offset known rows seen result =
      let total = first_total known result in
      if not (result.total == total) then throw changed_during_pagination else do
        seen' ← lift (see_all key result.batch seen)
        let rows' = rows ++ result.batch
        let offset' = offset + length result.batch
        if offset' == total
            then pure rows'
            else if is_empty result.batch || ltb total offset'
            then throw incomplete_pagination
            else next offset' (some total) rows' seen'

  module _ (request : ℕ → Exec ReadError S (AuthentikPage A)) where
    -- The `while True` loop at page `page`, behind the rows read so far.
    authentik_loop :
        (fuel page : ℕ) → Option (ℕ × ℕ) → List A → List String → Exec ReadError S (List A)
    unfolding after_authentik_page
    authentik_loop zero page numbers rows seen = throw fuel_spent
    authentik_loop (suc fuel) page numbers rows seen =
        request page >>= after_authentik_page (authentik_loop fuel) page numbers rows seen

    unfoldable pub authentik_list : (fuel : ℕ) → Exec ReadError S (List A)
    unfolding authentik_loop
    authentik_list fuel = authentik_loop fuel 1 none [] []

  module _ (request : ℕ → Exec ReadError S (OutlinePage A)) where
    -- The `while True` loop behind the rows read so far, whose number is the offset.
    outline_loop : (fuel offset : ℕ) → Option ℕ → List A → List String → Exec ReadError S (List A)
    unfolding after_outline_page
    outline_loop zero offset known rows seen = throw fuel_spent
    outline_loop (suc fuel) offset known rows seen =
        request offset >>= after_outline_page (outline_loop fuel) offset known rows seen

    unfoldable pub outline_list : (fuel : ℕ) → Exec ReadError S (List A)
    unfolding outline_loop
    outline_list fuel = outline_loop fuel 0 none [] []
