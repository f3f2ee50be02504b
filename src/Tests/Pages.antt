-- ===== src/Tests/Pages.antt =====
-- A server with three elements, two on a page.
use openim_sdk_core.Prelude.{
  ℕ, ◌-◌, ◌*◌, ◌≡◌, ap, arith, refl, List, [], ◌∷◌, ◌++◌, some, take, drop,
}
use openim_sdk_core.Prelude.Outcome.{Outcome, done, ok}
use openim_sdk_core.Paging.{
  Api, get_page_all, page_next, get_page_all_with_max_num, fetch_and_insert_paged_data,
}
use openim_sdk_core.Paging.Whole.{Serves, get_page_all-Whole}
use openim_sdk_core.Paging.Store.{Loaded, fetch_and_insert_paged_data-Loaded}
use openim_sdk_core.Syncer.Full.{FullSyncer, full_sync, full_sync-Loaded}

abbrev all : List ℕ
all = 7 ∷ 8 ∷ 9 ∷ []

abbrev api : Api ℕ
api page show = ok (take show (drop ((page - 1) * show) all))

api-Serves : (show : ℕ) → Serves api show all
api-Serves show n = ap (λ k. ok (take show (drop (k * show) all))) (omega arith)

get_page_all-Whole_example :
    (get_page_all 4 api 2 ≡ some (ok all))
    × (page_next 4 api 2 ≡ some (ok all))
    × (get_page_all_with_max_num 4 api 2 1 ≡ some (ok (7 ∷ [])))
get_page_all-Whole_example = get_page_all-Whole api all 2 1 (api-Serves 2) (api-Serves 2)

abbrev put_all : List ℕ → List ℕ → Outcome (List ℕ)
put_all items w = done (w ++ items)

abbrev put : ℕ → List ℕ → Outcome (List ℕ)
put item w = done (w ++ (item ∷ []))

fetch_and_insert_paged_data-Loaded_example :
    (r : Outcome (List ℕ)) × (fetch_and_insert_paged_data 4 api 2 put_all put 0 (1 ∷ []) ≡ some r)
    × Loaded (λ w. w) 2 0 (1 ∷ []) all r
fetch_and_insert_paged_data-Loaded_example =
    fetch_and_insert_paged_data-Loaded (λ w. w) api 2 put_all put 0 all (1 ∷ []) (λ items w. refl)
      (λ item w. refl) (api-Serves 2)

abbrev full : FullSyncer (List ℕ) ℕ
full = record {
  delete_all = λ id w. done [];
  batch_page_req = λ id. 2;
  api = api;
  batch_insert = put_all;
  insert = put;
  full_sync_limit = 1;
}

full_sync-Loaded_example :
    (r : Outcome (List ℕ)) × (full_sync 4 full "u" (1 ∷ []) ≡ some r) × Loaded (λ w. w) 2 1 [] all r
full_sync-Loaded_example =
    full_sync-Loaded (λ w. w) full "u" all (λ w. refl) (λ items w. refl) (λ item w. refl)
      (api-Serves 2) (1 ∷ [])
