-- ===== src/VersionSync/Overlay.antt =====
-- The data that a change set asks for.
use openim_sdk_core.Prelude.{
  ◌≡◌, refl, ap, ◌∙◌, Bool, true, false, List, [], ◌∷◌, Option, none, some, String, string_eq, ◌==◌,
  arith, if◌then◌else◌, contains,
}
use openim_sdk_core.Prelude.Map
use openim_sdk_core.Prelude.Map.{Map, lookup, lookup-insert, lookup-delete}
use openim_sdk_core.VersionSync.{VersionSynchronizer, Datautil, put_changes, delete_ids, overlay}

module _ {V : Type 0} where
  abbrev pub or_else : Option V → Option V → Option V
  or_else none o = o
  or_else (some v) o = some v

  -- The last value of an id.
  abbrev pub last_of_id : (V → String) → String → List V → Option V
  last_of_id key id [] = none
  last_of_id key id (v ∷ values) =
      or_else (last_of_id key id values) (if key v == id then some v else none)

  or_else-put :
      (o : Option V) (hit : Bool) (v : V) (old : Option V)
      → or_else o (if hit then some v else old)
        ≡ or_else (or_else o (if hit then some v else none)) old
  or_else-put none true v old = refl
  or_else-put none false v old = refl
  or_else-put (some x) hit v old = refl

  pub lookup-put_changes :
      (key : V → String) (id : String) (changes : List V) (kv : Map String V)
      → lookup id (put_changes key changes kv) ≡ or_else (last_of_id key id changes) (lookup id kv)
  unfolding put_changes
  lookup-put_changes key id [] kv = refl
  lookup-put_changes key id (change ∷ changes) kv =
      lookup-put_changes key id changes (Map.insert (key change) change kv)
      ∙ ap (or_else (last_of_id key id changes)) (lookup-insert (key change) id change kv)
      ∙ or_else-put (last_of_id key id changes) (key change == id) change (lookup id kv)

  lookup-delete_ids :
      (id : String) (ids : List String) (kv : Map String V)
      → lookup id (delete_ids ids kv) ≡ (if contains ids id then none else lookup id kv)
  unfolding delete_ids
  lookup-delete_ids id [] kv = refl
  lookup-delete_ids id (d ∷ ids) kv = ground (
    arith,
    lookup-delete_ids id ids (Map.delete d kv),
    lookup-delete d id kv,
    string_eq.beq_iff d id,
    string_eq.beq_iff id d,
  )

  -- The data that a delta gives to the `Syncer` have, for each id, nothing if the server deleted it,
  -- else the last of its updates and inserts, else the local value: deletion wins over a change of
  -- the same id. `SliceToMapAny` maps a key to the last value that has it.
  pub lookup-overlay :
      {W R E : Type 0} (p : Datautil V) (s : VersionSynchronizer W V R E)
      → ((values : List V) (id : String)
          → lookup id (p.slice_to_map_any s.key values) ≡ last_of_id s.key id values)
      → (changes : List V) (del_ids : List String) (local : List V) (id : String)
      → lookup id (overlay p s changes del_ids local) ≡ (
          if contains del_ids id
          then none
          else or_else (last_of_id s.key id changes) (last_of_id s.key id local))
  unfolding overlay
  lookup-overlay p s to_map changes del_ids local id =
      lookup-delete_ids id del_ids (put_changes s.key changes (p.slice_to_map_any s.key local))
      ∙ ap (λ o. if contains del_ids id then none else o)
          (lookup-put_changes s.key id changes (p.slice_to_map_any s.key local)
            ∙ ap (or_else (last_of_id s.key id changes)) (to_map local id))
