-- ===== src/MsgSyncer/Load.antt =====
-- msg_sync.go: `LoadSeq` reads the synced sequence numbers from the database, the conversations in
-- parts of 20 that are read side by side; and `splitSeqs`.
use openim_sdk_core.Prelude.{
  ℕ, zero, suc, ◌+◌, ◌-◌, ◌*◌, ◌/◌, Bool, true, not, List, [], ◌∷◌, Option, none, some, String,
  ◌==◌, nat_eq, string_eq, ltb, leb, if◌then◌else◌, length, take, drop,
}
use openim_sdk_core.Prelude.Map.{Map, insert}
use openim_sdk_core.Prelude.Outcome.{Outcome, done, fail, Result, ok, err}
use openim_sdk_core.MsgSyncer.{MsgSyncer}

-- The answers of the database. `app_sdk_version` is the `Installed` field, `none` for a record that
-- is not found.
pub record Database : Type 0 where
  pub all_conversation_ids : Result (List String)
  pub app_sdk_version : Result (Option Bool)
  pub normal_msg_seq : String → Result ℕ
  pub notification_all_seqs : Result (List (String × ℕ))

abbrev pub part_size : ℕ
part_size = 20

-- `l[start:end]`
abbrev pub slice {ℓ} : {A : Type ℓ} → List A → ℕ → ℕ → List A
slice l start end = take (end - start) (drop start l)

unfoldable pub currency : List String → ℕ
currency ids = if length ids == 0 then 0 else (length ids - 1) / part_size + 1

-- The part that the `i`-th goroutine reads.
unfoldable pub part : List String → ℕ → List String
part ids i =
    slice ids (i * part_size)
      (if i == currency ids - 1 then length ids else i * part_size + part_size)

-- `for i := 0; i < currency; i++`, with `n` rounds to go.
unfoldable pub parts_from : List String → ℕ → ℕ → List (List String)
unfolding part currency
parts_from ids i zero = []
parts_from ids i (suc n) = part ids i ∷ parts_from ids (i + 1) n

-- What one goroutine leaves in its result map.
unfoldable pub read_part : Database → List String → Map String (Result ℕ) → Map String (Result ℕ)
read_part db [] result = result
read_part db (id ∷ ids) result = read_part db ids (insert id (db.normal_msg_seq id) result)

-- An error is logged and passed over.
abbrev pub merge_one : String → Result ℕ → Map String ℕ → Map String ℕ
merge_one id (ok seq) synced = insert id seq synced
merge_one id (err e) synced = synced

unfoldable pub merge_result : Map String (Result ℕ) → Map String ℕ → Map String ℕ
merge_result [] synced = synced
merge_result ((id, r) ∷ result) synced = merge_result result (merge_one id r synced)

unfoldable pub merge_results : Database → List (List String) → Map String ℕ → Map String ℕ
unfolding read_part merge_result
merge_results db [] synced = synced
merge_results db (ids ∷ parts) synced =
    merge_results db parts (merge_result (read_part db ids []) synced)

unfoldable pub add_notification_seqs : List (String × ℕ) → Map String ℕ → Map String ℕ
add_notification_seqs [] synced = synced
add_notification_seqs ((id, seq) ∷ rest) synced = add_notification_seqs rest (insert id seq synced)

-- `version == nil || !version.Installed`
abbrev not_installed : Option Bool → Bool
not_installed none = true
not_installed (some installed) = not installed

-- With no conversation the app counts as reinstalled unless its version says otherwise.
unfoldable pub check_reinstalled : Database → List String → MsgSyncer → Outcome MsgSyncer
check_reinstalled db (id ∷ ids) m = done m
check_reinstalled db [] m = elim db.app_sdk_version [
  | err e ↦ fail e m
  | ok version ↦ if not_installed version then done (record m { reinstalled = true }) else done m
]

unfoldable pub load_conversations : Database → List String → MsgSyncer → MsgSyncer
unfolding parts_from merge_results
load_conversations db ids m = record m {
  synced_max_seqs = merge_results db (parts_from ids 0 (currency ids)) m.synced_max_seqs;
}

unfoldable pub load_notifications : Database → MsgSyncer → Outcome MsgSyncer
unfolding add_notification_seqs
load_notifications db m = elim db.notification_all_seqs [
  | err e ↦ fail e m
  | ok seqs ↦ done (record m { synced_max_seqs = add_notification_seqs seqs m.synced_max_seqs })
]

abbrev load_rest : Database → List String → Outcome MsgSyncer → Outcome MsgSyncer
load_rest db ids (done m) = load_notifications db (load_conversations db ids m)
load_rest db ids (fail e m) = fail e m

unfoldable pub load_seq : Database → MsgSyncer → Outcome MsgSyncer
unfolding check_reinstalled load_conversations load_notifications
load_seq db m = elim db.all_conversation_ids [
  | err e ↦ fail e m
  | ok ids ↦ load_rest db ids (check_reinstalled db ids m)
]

-- The loop of `splitSeqs`: `i` goes up by `split` while it is below the length.
unfoldable pub split_loop : ℕ → List ℕ → ℕ → ℕ → List (List ℕ)
split_loop split seqs zero i = []
split_loop split seqs (suc fuel) i =
    let end = if ltb (length seqs) (i + split) then length seqs else i + split in
    let rest = split_loop split seqs fuel (i + split) in
    if ltb i (length seqs) then slice seqs i end ∷ rest else []

-- As many rounds as there are sequence numbers are enough for a `split` above 0.
unfoldable pub split_seqs : ℕ → List ℕ → List (List ℕ)
unfolding split_loop
split_seqs split seqs =
    if leb (length seqs) split then seqs ∷ [] else split_loop split seqs (length seqs) 0
