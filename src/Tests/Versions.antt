-- ===== src/Tests/Versions.antt =====
-- A table of two rows, the second of which the server updates.
use openim_sdk_core.Prelude.{
  ℕ, ◌≡◌, refl, ap, sym, ◌∙◌, false, List, [], ◌∷◌, map, Option, none, some, String, string_eq,
  arith,
}
use openim_sdk_core.Prelude.Map.{lookup}
use openim_sdk_core.Prelude.Outcome.{done, state_of, ok, err}
use openim_sdk_core.VersionSync.{
  LocalVersionSync, VersionSynchronizer, Datautil, found, put_changes, overlay, incremental_sync,
  check_version_sync,
}
use openim_sdk_core.VersionSync.Stored.{
  IsSeparate, Versioned, Answered, incremental_sync-Versioned, check_version_sync-Versioned,
}
use openim_sdk_core.VersionSync.Overlay.{or_else, last_of_id, lookup-put_changes, lookup-overlay}

abbrev Row : Type 0
Row = String × ℕ

-- The stored version and the rows.
abbrev World : Type 0
World = (String × ℕ) × List Row

abbrev stored : World → String × ℕ
stored w = w.0

abbrev local_version : World → LocalVersionSync
local_version w = record {
  table = "friends";
  entity_id = "u";
  version_id = w.0.0;
  version = w.0.1;
  uid_list = "a" ∷ "b" ∷ [];
}

abbrev synchronizer : VersionSynchronizer World Row (List Row) ℕ
synchronizer = record {
  table_name = "friends";
  entity_id = "u";
  key = λ row. row.0;
  local = λ w. ok w.1;
  server_version = some (("b", 2) ∷ []);
  server = λ lvs w. err "offline";
  full = λ resp. false;
  version = λ resp. ("v", 4);
  delete = λ resp. [];
  update = λ resp. resp;
  insert = λ resp. [];
  extra_data = λ resp. none;
  extra_data_processor = none;
  syncer = λ server local w. done (w.0, server);
  full_syncer = λ w. done w;
  full_id = λ w. ok [];
  id_order_changed = none;
  get_version_sync = λ w. found (local_version w);
  set_version_sync = λ lvs w. done ((lvs.version_id, lvs.version), w.1);
}

abbrev tools : Datautil Row
tools = record {
  delete_elems = λ xs ys. xs;
  slice_sub = λ xs ys. [];
  slice_to_map_any = λ key rows. put_changes key rows [];
  values = λ kv. map (λ entry. entry.1) kv;
}

done_injective : (w w' : World) → done w ≡ done w' → w ≡ w'
done_injective w w' h = ap state_of h

synchronizer-IsSeparate : IsSeparate synchronizer stored
synchronizer-IsSeparate = record {
  syncer_keeps = λ server local w. refl;
  full_syncer_keeps = λ w. refl;
  processor_keeps = λ f x w h. ground (arith, h);
  sets = λ lvs w w' h. ap stored (done_injective w' ((lvs.version_id, lvs.version), w.1) (sym h));
  fails = λ lvs w w' e h. ground (arith, h);
}

abbrev world : World
world = (("v", 3), ("a", 1) ∷ ("b", 1) ∷ [])

incremental_sync-Versioned_example :
    Versioned tools synchronizer stored synchronizer-IsSeparate
      (Answered tools synchronizer stored synchronizer-IsSeparate world)
      world
      (incremental_sync tools synchronizer world)
incremental_sync-Versioned_example =
    incremental_sync-Versioned tools synchronizer stored synchronizer-IsSeparate world

check_version_sync-Versioned_example :
    Versioned tools synchronizer stored synchronizer-IsSeparate
      (Answered tools synchronizer stored synchronizer-IsSeparate world)
      world
      (check_version_sync tools synchronizer (("b", 2) ∷ []) world)
check_version_sync-Versioned_example =
    check_version_sync-Versioned tools synchronizer stored synchronizer-IsSeparate world
      (("b", 2) ∷ []) refl

or_else-none : (o : Option Row) → or_else o none ≡ o
or_else-none none = refl
or_else-none (some v) = refl

tools_map :
    (rows : List Row) (id : String)
    → lookup id (tools.slice_to_map_any synchronizer.key rows) ≡ last_of_id synchronizer.key id rows
unfolding lookup
tools_map rows id =
    lookup-put_changes synchronizer.key id rows []
    ∙ or_else-none (last_of_id synchronizer.key id rows)

lookup-overlay_example :
    lookup "b" (overlay tools synchronizer (("b", 2) ∷ []) ("a" ∷ []) world.1) ≡ some ("b", 2)
lookup-overlay_example =
    lookup-overlay tools synchronizer tools_map (("b", 2) ∷ []) ("a" ∷ []) world.1 "b"
