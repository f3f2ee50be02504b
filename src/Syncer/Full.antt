-- ===== src/Syncer/Full.antt =====
-- `FullSync` of pkg/syncer/syncer.go: the table is emptied and filled from the server's pages.
use openim_sdk_core.Prelude.{
  ℕ, ◌+◌, ◌≡◌, refl, ap, subst, List, [], ◌∷◌, Option, none, some, String, length,
}
use openim_sdk_core.Prelude.Outcome.{Outcome, done, fail}
use openim_sdk_core.Paging.{Api, show_or, fetch_and_insert_paged_data}
use openim_sdk_core.Paging.Whole.{Serves}
use openim_sdk_core.Paging.Store.{Stores, Loaded, fetch_and_insert_paged_data-Loaded}

-- The fields of the struct that only `FullSync` uses: the page request's `ShowNumber`, the
-- callbacks and `fullSyncLimit`.
pub record FullSyncer {ℓ} (W T : Type ℓ) : Type ℓ where
  pub delete_all : String → W → Outcome W
  pub batch_page_req : String → ℕ
  pub api : Api T
  pub batch_insert : List T → W → Outcome W
  pub insert : T → W → Outcome W
  pub full_sync_limit : ℕ

-- The error of the fetch, wrapped.
abbrev pub wrap_fetch {ℓ} : {W : Type ℓ} → Option (Outcome W) → Option (Outcome W)
wrap_fetch none = none
wrap_fetch (some (done w)) = some (done w)
wrap_fetch (some (fail e w)) = some (fail "full sync batch insert failed" w)

abbrev pub fill {ℓ} : {W T : Type ℓ} → ℕ → FullSyncer W T → String → Outcome W → Option (Outcome W)
fill fuel s entity_id (fail e w) = some (fail "full sync delete all failed" w)
fill fuel s entity_id (done w) = wrap_fetch (
    fetch_and_insert_paged_data fuel s.api (s.batch_page_req entity_id) s.batch_insert s.insert
      s.full_sync_limit w)

-- `fuel` bounds the pages.
unfoldable pub full_sync {ℓ} : {W T : Type ℓ} → ℕ → FullSyncer W T → String → W → Option (Outcome W)
full_sync fuel s entity_id w = fill fuel s entity_id (s.delete_all entity_id w)

module _ {W T : Type 0} (rows : W → List T) (s : FullSyncer W T) (entity_id : String)
    (all : List T) where
  -- `deleteAll` empties the table or fails.
  abbrev pub Empties : Outcome W → Type 0
  Empties (done w) = rows w ≡ []
  Empties (fail e w) = Unit

  wrap-Loaded :
      (base : List T) (o : Option (Outcome W))
      → (r : Outcome W) × (o ≡ some r)
        × Loaded rows (show_or 50 (s.batch_page_req entity_id)) s.full_sync_limit base all r
      → (r : Outcome W) × (wrap_fetch o ≡ some r)
        × Loaded rows (show_or 50 (s.batch_page_req entity_id)) s.full_sync_limit base all r
  wrap-Loaded base o (done w, e, h) = (done w, ap wrap_fetch e, h)
  wrap-Loaded base o (fail m w, e, h) =
      (fail "full sync batch insert failed" w, ap wrap_fetch e, tt)

  -- With enough fuel for one page an element `FullSync` ends, and when it returns no error the
  -- table holds a front of the server's list and nothing else: all of it, or as many elements as
  -- the limit at least, and with a limit, which 0 is not, less than a page more than it. Each
  -- callback does its whole work or fails and does none, and the server answers each page with its
  -- part of the list.
  pub full_sync-Loaded :
      ((w : W) → Empties (s.delete_all entity_id w))
      → ((items : List T) (w : W) → Stores rows items w (s.batch_insert items w))
      → ((item : T) (w : W) → Stores rows (item ∷ []) w (s.insert item w))
      → Serves s.api (show_or 50 (s.batch_page_req entity_id)) all
      → (w : W)
      → (r : Outcome W) × (full_sync (length all + 1) s entity_id w ≡ some r)
        × Loaded rows (show_or 50 (s.batch_page_req entity_id)) s.full_sync_limit [] all r
  unfolding full_sync
  full_sync-Loaded empties stores_all stores serves w =
      fill-Loaded (s.delete_all entity_id w) (empties w)
    where
      fill-Loaded :
          (o : Outcome W)
          → Empties o
          → (r : Outcome W) × (fill (length all + 1) s entity_id o ≡ some r)
            × Loaded rows (show_or 50 (s.batch_page_req entity_id)) s.full_sync_limit [] all r
      fill-Loaded (fail m w') h = (fail "full sync delete all failed" w', refl, tt)
      fill-Loaded (done w') h = wrap-Loaded [] _ (
          subst
            (λ base.
              (r : Outcome W) × (fetch_and_insert_paged_data (length all + 1) s.api
                  (s.batch_page_req entity_id) s.batch_insert s.insert s.full_sync_limit w'
                ≡ some r)
              × Loaded rows (show_or 50 (s.batch_page_req entity_id)) s.full_sync_limit base all r)
            h
            (fetch_and_insert_paged_data-Loaded rows s.api (s.batch_page_req entity_id)
              s.batch_insert s.insert s.full_sync_limit all w' stores_all stores serves))
