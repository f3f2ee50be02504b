-- ===== src/Tests/Syncing.antt =====
-- `Sync` on two small tables.
use openim_sdk_core.Prelude.{ℕ, ◌≡◌, refl, true, List, [], ◌∷◌, nat_eq, arith}
use openim_sdk_core.Prelude.Map
use openim_sdk_core.Prelude.Map.{Map, lookup}
use openim_sdk_core.Prelude.Outcome.{done}
use openim_sdk_core.Syncer.{
  sync, sync_server, sync_item, sync_delete, delete_item, notify, on_notice, eq, skip_deletion,
}
use openim_sdk_core.Syncer.Table.{find}
use openim_sdk_core.Syncer.Convergence.{Synced, Settles, sync-Synced}
use openim_sdk_core.Syncer.Totality.{sync_converges}
use openim_sdk_core.Tests.Tables.{
  Item, uuid, packages, syncer, arguments, rows, syncer-IsTable, syncer-IsReliable,
}

-- Item 1 is unchanged, 2 has a new value, 3 is gone and 4 is new.
abbrev local_data : List Item
local_data = (1, 10) ∷ (2, 20) ∷ (3, 30) ∷ []

abbrev table : Map ℕ Item
table = (1, (1, 10)) ∷ (2, (2, 20)) ∷ (3, (3, 30)) ∷ []

abbrev server_data : List Item
server_data = (4, 40) ∷ (2, 22) ∷ (1, 10) ∷ []

sync_run :
    sync packages syncer (arguments []) server_data local_data table
    ≡ done ((1, (1, 10)) ∷ (2, (2, 22)) ∷ (4, (4, 40)) ∷ [])
unfolding sync sync_server sync_item sync_delete delete_item notify on_notice eq lookup Map.insert
    Map.delete
sync_run = refl

sync_skip_deletion_run :
    sync packages syncer (arguments (true ∷ [])) server_data local_data table
    ≡ done ((1, (1, 10)) ∷ (2, (2, 22)) ∷ (3, (3, 30)) ∷ (4, (4, 40)) ∷ [])
unfolding sync sync_server sync_item sync_delete delete_item notify on_notice eq lookup Map.insert
    Map.delete
sync_skip_deletion_run = refl

sync_converges_example :
    (w' : Map ℕ Item) × (sync packages syncer (arguments []) server_data local_data table ≡ done w')
    × ((id : ℕ)
        → Settles
            (eq packages syncer)
            (skip_deletion (arguments []))
            (rows table id)
            (find uuid id server_data)
            (rows w' id))
unfolding lookup
sync_converges_example =
    sync_converges packages syncer (arguments []) (syncer-IsReliable []) rows (syncer-IsTable [])
      server_data local_data table (λ id. ground arith) (refl, (refl, (refl, tt)))

sync-Synced_example :
    Synced packages syncer
      (arguments (true ∷ []))
      rows
      (syncer-IsTable (true ∷ []))
      3
      server_data
      table
      (sync packages syncer (arguments (true ∷ [])) server_data local_data table)
unfolding lookup
sync-Synced_example =
    sync-Synced packages syncer (arguments (true ∷ [])) rows (syncer-IsTable (true ∷ []))
      server_data local_data table 3 (λ id. ground arith) (refl, (refl, (refl, tt)))
