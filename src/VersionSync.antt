-- ===== src/VersionSync.antt =====
-- Incremental synchronisation by versions: pkg/syncer/version_synchronizer.go.
pub mod Stored
pub mod Overlay
use openim_sdk_core.Prelude.{
  ℕ, ◌+◌, Bool, true, false, not, ◌&&◌, List, [], ◌∷◌, ◌++◌, map, Option, none, some, String,
  string_eq, nat_eq, ◌==◌, leb, if◌then◌else◌,
}
use openim_sdk_core.Prelude.Map
use openim_sdk_core.Prelude.Map.{Map}
use openim_sdk_core.Prelude.Outcome.{Outcome, done, fail, ◌>>=◌, Result, ok, err}

-- `model_struct.LocalVersionSync`.
pub record LocalVersionSync : Type 0 where
  pub table : String
  pub entity_id : String
  pub version_id : String
  pub version : ℕ
  pub uid_list : List String

-- What `GetVersionSync` of the database returns.
pub data VersionAnswer : Type 0 where
  found : LocalVersionSync → VersionAnswer
  not_found : LocalVersionSync → VersionAnswer
  failed : String → VersionAnswer

-- The struct: `W` is what the callbacks read and change, `E` the extra data. `IDOrderChanged` and
-- `ExtraDataProcessor` may be nil; `extra_data` is none where `ExtraData` or what it returns is nil.
pub record VersionSynchronizer {ℓ} (W V R E : Type ℓ) : Type ℓ where
  pub table_name : String
  pub entity_id : String
  pub key : V → String
  pub local : W → Result (List V)
  pub server_version : Option R
  pub server : LocalVersionSync → W → Result R
  pub full : R → Bool
  pub version : R → String × ℕ
  pub delete : R → List String
  pub update : R → List V
  pub insert : R → List V
  pub extra_data : R → Option E
  pub extra_data_processor : Option (E → W → Outcome W)
  pub syncer : List V → List V → W → Outcome W
  pub full_syncer : W → Outcome W
  pub full_id : W → Result (List String)
  pub id_order_changed : Option (R → Bool)
  pub get_version_sync : W → VersionAnswer
  pub set_version_sync : LocalVersionSync → W → Outcome W

-- The functions of `datautil` that the code calls.
pub record Datautil {ℓ} (V : Type ℓ) : Type ℓ where
  pub delete_elems : List String → List String → List String
  pub slice_sub : List String → List String → List String
  pub slice_to_map_any : (V → String) → List V → Map String V
  pub values : Map String V → List V

abbrev pub is_empty {ℓ} : {A : Type ℓ} → List A → Bool
is_empty [] = true
is_empty (x ∷ xs) = false

abbrev pub is_none {ℓ} : {A : Type ℓ} → Option A → Bool
is_none none = true
is_none (some x) = false

-- `kv[key] = change` for each change.
unfoldable pub put_changes {ℓ} : {V : Type ℓ} → (V → String) → List V → Map String V → Map String V
put_changes key [] kv = kv
put_changes key (change ∷ changes) kv = put_changes key changes (Map.insert (key change) change kv)

-- `delete(kv, id)` for each id.
unfoldable pub delete_ids {ℓ} : {V : Type ℓ} → List String → Map String V → Map String V
delete_ids [] kv = kv
delete_ids (id ∷ ids) kv = delete_ids ids (Map.delete id kv)

-- `if err != nil { return err }` after a call that returns a value.
abbrev pub with_result {κ ℓ} :
    {A : Type κ} {W : Type ℓ} → Result A → W → (A → Outcome W) → Outcome W
with_result (err e) w f = fail e w
with_result (ok a) w f = f a

module _ {ℓ} {W V R E : Type ℓ} (p : Datautil V) (s : VersionSynchronizer W V R E) where
  abbrev pub get_version_info : W → Result LocalVersionSync
  get_version_info w = elim (s.get_version_sync w) [
    | found lvs ↦ ok lvs
    | not_found lvs ↦ ok lvs
    | failed e ↦ err e
  ]

  pub update_version_info : LocalVersionSync → R → W → Outcome W
  update_version_info lvs resp w =
      s.set_version_sync
        (record lvs {
          table = s.table_name;
          entity_id = s.entity_id;
          version_id = (s.version resp).0;
          version = (s.version resp).1;
        })
        w

  abbrev pub no_data : R → Bool
  no_data resp =
      is_empty (s.delete resp)
      && is_empty (s.update resp)
      && is_empty (s.insert resp)
      && not (s.full resp)
      && is_none (s.extra_data resp)

  -- `lvs.UIDList, err = o.FullID(o.Ctx)`, then the version is stored.
  pub store_ids : LocalVersionSync → R → W → List String → Outcome W
  store_ids lvs resp w ids = update_version_info (record lvs { uid_list = ids }) resp w

  pub store_full_id : LocalVersionSync → R → W → Result (List String) → Outcome W
  store_full_id lvs resp w (err e) = fail e w
  store_full_id lvs resp w (ok ids) = store_ids lvs resp w ids

  pub sync_full : LocalVersionSync → R → W → Outcome W
  sync_full lvs resp w = s.full_syncer w >>= λ w'. store_full_id lvs resp w' (s.full_id w')

  abbrev pub process : Option E → Option (E → W → Outcome W) → W → Outcome W
  process none f w = done w
  process (some x) none w = done w
  process (some x) (some f) w = f x w

  abbrev pub order_changed : Option (R → Bool) → R → Bool
  order_changed none resp = false
  order_changed (some f) resp = f resp

  pub finish_delta : LocalVersionSync → R → W → Outcome W
  finish_delta lvs resp w =
      if order_changed s.id_order_changed resp
      then store_full_id lvs resp w (s.full_id w)
      else update_version_info lvs resp w

  -- The map of the local data with the changes put in and the deleted ids taken out.
  unfoldable pub overlay : List V → List String → List V → Map String V
  overlay changes del_ids local =
      delete_ids del_ids (put_changes s.key changes (p.slice_to_map_any s.key local))

  pub sync_local : LocalVersionSync → List V → R → W → Result (List V) → Outcome W
  sync_local lvs changes resp w (err e) = fail e w
  sync_local lvs changes resp w (ok local) =
      s.syncer (p.values (overlay changes (s.delete resp) local)) local w
      >>= process (s.extra_data resp) s.extra_data_processor
      >>= finish_delta lvs resp

  abbrev pub sync_delta : LocalVersionSync → List V → R → W → Outcome W
  sync_delta lvs changes resp w = sync_local lvs changes resp w (s.local w)

  abbrev pub remove_ids : List String → List String → List String
  remove_ids uids [] = uids
  remove_ids uids (id ∷ del_ids) = p.delete_elems uids (id ∷ del_ids)

  abbrev pub add_keys : List String → List V → List String
  add_keys uids [] = uids
  add_keys uids (change ∷ changes) = uids ++ p.slice_sub (map s.key (change ∷ changes)) uids

  -- `IncrementalSync` once it has the local version and the response.
  pub apply_incremental : LocalVersionSync → R → W → Outcome W
  apply_incremental lvs resp w =
      let changes = s.update resp ++ s.insert resp in
      let uids = add_keys (remove_ids lvs.uid_list (s.delete resp)) changes in
      if no_data resp
      then done w
      else if s.full resp
      then sync_full lvs resp w
      else sync_delta (record lvs { uid_list = uids }) changes resp w

  -- `IncrementalSync` with `ServerVersion` nil.
  pub sync_from_server : W → Outcome W
  sync_from_server w =
      with_result (get_version_info w) w
        λ lvs. with_result (s.server lvs w) w λ resp. apply_incremental lvs resp w

  pub sync_from : Option R → W → Outcome W
  sync_from none w = sync_from_server w
  sync_from (some resp) w = with_result (get_version_info w) w λ lvs. apply_incremental lvs resp w

  abbrev pub incremental_sync : W → Outcome W
  incremental_sync w = sync_from s.server_version w

  -- `CheckVersionSync` for the next version.
  pub apply_next : LocalVersionSync → R → W → Outcome W
  apply_next lvs resp w =
      let uids = remove_ids lvs.uid_list (s.delete resp) ++ map s.key (s.insert resp) in
      sync_delta (record lvs { uid_list = uids }) (s.update resp ++ s.insert resp) resp w

  abbrev pub check_version : LocalVersionSync → R → W → Outcome W
  check_version lvs resp w =
      if no_data resp
      then done w
      else if not ((s.version resp).0 == lvs.version_id)
      then sync_from_server w
      else if lvs.version + 1 == (s.version resp).1
      then apply_next lvs resp w
      else if leb (s.version resp).1 lvs.version
      then done w
      else sync_from_server w

  -- `resp` is what `ServerVersion` returns.
  pub check_version_sync : R → W → Outcome W
  check_version_sync resp w = with_result (get_version_info w) w λ lvs. check_version lvs resp w
