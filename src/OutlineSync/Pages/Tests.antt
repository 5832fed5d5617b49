-- ===== src/OutlineSync/Pages/Tests.antt =====
-- Two pages of each server.
use krg_infra.Prelude.{
  ℕ, ◌+◌, ◌≤◌, String, Bool, true, false, [], ◌∷◌, ◌≡◌, ◌≢◌, refl, arith, ◌==◌, nat_eq,
}
use krg_infra.Effects.{ok, raised, Exec, ◌>>=◌}
use krg_infra.OutlineSync.Pages.{
  ReadError, fuel_spent, AuthentikPage, OutlinePage, authentik_list, outline_list,
}
use krg_infra.OutlineSync.Pages.Distinct.{
  AsAnnounced, AsTotalled, authentik_list-IsComplete, outline_list-IsComplete,
}
use krg_infra.OutlineSync.Pages.Total.{authentik_list_total, outline_list_total}

abbrev same : String → String
same row = row

abbrev authentik_page : Bool → AuthentikPage String
authentik_page true = record {
  total_pages = 2;
  count = 3;
  has_next = true;
  results = "a" ∷ "b" ∷ [];
}
authentik_page false = record { total_pages = 2; count = 3; has_next = false; results = "c" ∷ [] }

abbrev outline_page : Bool → OutlinePage String
outline_page true = record { total = 3; batch = "a" ∷ "b" ∷ [] }
outline_page false = record { total = 3; batch = "c" ∷ [] }

abbrev authentik_pages : ℕ → Exec ReadError ℕ (AuthentikPage String)
authentik_pages page s = (ok (authentik_page (page == 1)), s + 1)

abbrev outline_pages : ℕ → Exec ReadError ℕ (OutlinePage String)
outline_pages offset s = (ok (outline_page (offset == 0)), s + 1)

authentik_three : (authentik_list same authentik_pages 2 0).0 ≡ ok ("a" ∷ "b" ∷ "c" ∷ [])
unfolding authentik_list ◌>>=◌
authentik_three = refl

outline_three : (outline_list same outline_pages 3 0).0 ≡ ok ("a" ∷ "b" ∷ "c" ∷ [])
unfolding outline_list ◌>>=◌
outline_three = refl

authentik_list-IsComplete_example :
    AsAnnounced same authentik_pages 0 (authentik_list same authentik_pages 2 0).0
authentik_list-IsComplete_example = authentik_list-IsComplete same authentik_pages 2 0

outline_list-IsComplete_example :
    AsTotalled same outline_pages 0 (outline_list same outline_pages 3 0).0
outline_list-IsComplete_example = outline_list-IsComplete same outline_pages 3 0

authentik_announced :
    (first : AuthentikPage String) → (authentik_pages 1 0).0 ≡ ok first → first.total_pages ≤ 2
authentik_announced first e =
    let same_page : authentik_page true ≡ first = cc in rw (← same_page) (omega arith)

authentik_list_total_example : (authentik_list same authentik_pages 2 0).0 ≢ raised fuel_spent
authentik_list_total_example =
    authentik_list_total same authentik_pages (record { at = λ n s p. cc }) 1 0 authentik_announced

outline_announced :
    (first : OutlinePage String) → (outline_pages 0 0).0 ≡ ok first → first.total ≤ 3
outline_announced first e =
    let same_page : outline_page true ≡ first = cc in rw (← same_page) (omega arith)

outline_list_total_example : (outline_list same outline_pages 3 0).0 ≢ raised fuel_spent
outline_list_total_example =
    outline_list_total same outline_pages (record { at = λ n s p. cc }) 2 0 outline_announced
