-- ===== src/Paging.antt =====
-- The loops over pages of the server's answers: pkg/network/http_client.go.
pub mod Whole
pub mod Store
use openim_sdk_core.Prelude.{
  ℕ, zero, suc, ◌+◌, Bool, true, false, ◌&&◌, ◌||◌, List, [], ◌∷◌, ◌++◌, Option, none, some, String,
  nat_eq, ◌==◌, ltb, leb, if◌then◌else◌, length, take,
}
use openim_sdk_core.Prelude.Outcome.{Outcome, done, fail, state_of, Result, ok, err}

-- The elements of the answer to a request, by its page number and its number of elements a page.
-- Every round asks for another page, so an answer that depends on the round is one of these.
abbrev pub Api {ℓ} : Type ℓ → Type ℓ
Api C = ℕ → ℕ → Result (List C)

-- `ShowNumber`, or its default where it is not positive.
abbrev pub show_or : ℕ → ℕ → ℕ
show_or default show = if show == 0 then default else show

-- `if err != nil { return nil, err }` in a loop; none is a loop that has no fuel left.
abbrev pub with_page {ℓ} :
    {C : Type ℓ} → Result (List C) → (List C → Option (Result (List C))) → Option (Result (List C))
with_page (err e) f = some (err e)
with_page (ok list) f = f list

-- The cut at `maxItems` after the loop of `GetPageAllWithMaxNum`.
abbrev pub cut {ℓ} : {C : Type ℓ} → ℕ → List C → List C
cut max_items res =
    if ltb 0 max_items && ltb max_items (length res) then take max_items res else res

module _ {ℓ} {C : Type ℓ} (api : Api C) (show : ℕ) where
  -- The loop of `GetPageAll` from round `i` on.
  unfoldable pub all_loop : ℕ → ℕ → List C → Option (Result (List C))
  all_loop zero i res = none
  all_loop (suc fuel) i res = with_page (api (i + 1) show) λ list.
      let rest = all_loop fuel (i + 1) (res ++ list) in
      if ltb (length list) show then some (ok (res ++ list)) else rest

  unfoldable pub max_loop : ℕ → ℕ → ℕ → ℕ → List C → Option (Result (List C))
  max_loop max_items zero i total_fetched res = none
  max_loop max_items (suc fuel) i total_fetched res = with_page (api (i + 1) show) λ list.
      let total = total_fetched + length list in
      let rest = max_loop max_items fuel (i + 1) total (res ++ list) in
      if ltb (length list) show || (ltb 0 max_items && leb max_items total)
      then some (ok (cut max_items (res ++ list)))
      else rest

-- `fuel` bounds the rounds of the loop.
unfoldable pub get_page_all {ℓ} : {C : Type ℓ} → ℕ → Api C → ℕ → Option (Result (List C))
get_page_all fuel api show_number = all_loop api (show_or 50 show_number) fuel 0 []

-- A limit of 0 is none.
unfoldable pub get_page_all_with_max_num {ℓ} :
    {C : Type ℓ} → ℕ → Api C → ℕ → ℕ → Option (Result (List C))
get_page_all_with_max_num fuel api show_number max_items =
    max_loop api (show_or 50 show_number) max_items fuel 0 0 []

-- `PageNext`, once the request has a pagination.
unfoldable pub page_next {ℓ} : {C : Type ℓ} → ℕ → Api C → ℕ → Option (Result (List C))
page_next fuel api show_number = all_loop api (show_or 200 show_number) fuel 0 []

abbrev pub error_of {ℓ} : {W : Type ℓ} → Outcome W → List String
error_of (done w) = []
error_of (fail e w) = e ∷ []

-- `errList[0]`, if there is one.
abbrev pub first_error {ℓ} : {W : Type ℓ} → W × List String → Outcome W
first_error (w, []) = done w
first_error (w, e ∷ errs) = fail e w

-- What `FetchAndInsertPagedData` is given beside the request: the callbacks change the store `W`.
module _ {ℓ} {C W : Type ℓ} (api : Api C) (show : ℕ) (batch_insert : List C → W → Outcome W)
    (insert : C → W → Outcome W) (max_items : ℕ) where
  -- The items of a batch that failed, one by one.
  unfoldable pub insert_each : List C → W → List String → W × List String
  insert_each [] w errs = (w, errs)
  insert_each (item ∷ items) w errs =
      insert_each items (state_of (insert item w)) (errs ++ error_of (insert item w))

  abbrev pub after_batch : List C → List String → Outcome W → W × List String
  after_batch list errs (done w) = (w, errs)
  after_batch list errs (fail e w) = insert_each list w errs

  abbrev pub with_items : Result (List C) → W → (List C → Option (Outcome W)) → Option (Outcome W)
  with_items (err e) w f = some (fail e w)
  with_items (ok list) w f = f list

  unfoldable pub fetch_loop : ℕ → ℕ → ℕ → W → List String → Option (Outcome W)
  fetch_loop zero i total_fetched w errs = none
  fetch_loop (suc fuel) i total_fetched w errs = with_items (api (i + 1) show) w λ list.
      let inserted = after_batch list errs (batch_insert list w) in
      let total = total_fetched + length list in
      let rest = fetch_loop fuel (i + 1) total inserted.0 inserted.1 in
      if ltb (length list) show || (ltb 0 max_items && leb max_items total)
      then some (first_error inserted)
      else rest

unfoldable pub fetch_and_insert_paged_data {ℓ} :
    {C W : Type ℓ}
    → ℕ
    → Api C
    → ℕ
    → (List C → W → Outcome W)
    → (C → W → Outcome W)
    → ℕ
    → W
    → Option (Outcome W)
fetch_and_insert_paged_data fuel api show_number batch_insert insert max_items w =
    fetch_loop api (show_or 50 show_number) batch_insert insert max_items fuel 0 0 w []
