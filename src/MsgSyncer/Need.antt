-- ===== src/MsgSyncer/Need.antt =====
-- msg_sync.go: which sequence numbers are missing (`getSeqsNeedSync`, `getNeedSyncConversations` and
-- the first half of `compareSeqsAndBatchSync`).
use text.Mathlib.Text.{starts_with}
use openim_sdk_core.Prelude.{
  ℕ, zero, suc, ◌+◌, ◌-◌, Bool, true, false, List, [], ◌∷◌, Option, none, some, String, ◌==◌, ltb,
  nat_eq, string_eq, if◌then◌else◌,
}
use openim_sdk_core.Prelude.Map.{Map, lookup, insert}
use openim_sdk_core.MsgSyncer.{MsgSyncer, SeqRange, batch_insert_notification_seq, send}

-- `strings.HasPrefix(conversationID, "n_")`
unfoldable pub is_notification : String → Bool
is_notification conversation_id = starts_with conversation_id "n_"

-- The loop of `getSeqsNeedSync`: `n` more sequence numbers from `i` on.
unfoldable pub seqs_from : ℕ → ℕ → List ℕ
seqs_from i zero = []
seqs_from i (suc n) = i ∷ seqs_from (i + 1) n

-- The loop runs from `syncedMaxSeq + 1` while `i <= maxSeq`.
unfoldable pub get_seqs_need_sync : ℕ → ℕ → List ℕ
unfolding seqs_from
get_seqs_need_sync synced_max_seq max_seq =
    seqs_from (synced_max_seq + 1) (max_seq - synced_max_seq)

-- The body of the loop for messages, for a conversation whose synced sequence number is known or
-- not. Where none is known, a maximum of 0 is passed over unless the app was reinstalled.
unfoldable pub need_sync : Bool → Option ℕ → ℕ → Option SeqRange
need_sync reinstalled (some synced_max_seq) max_seq =
    if ltb synced_max_seq max_seq then some (synced_max_seq + 1, max_seq) else none
need_sync true none max_seq = some (0, max_seq)
need_sync false none max_seq = if max_seq == 0 then none else some (0, max_seq)

abbrev add_need : String → Option SeqRange → Map String SeqRange → Map String SeqRange
add_need id none need = need
add_need id (some range) need = insert id range need

unfoldable pub need_sync_seq_map :
    Bool → Map String ℕ → Map String ℕ → Map String SeqRange → Map String SeqRange
need_sync_seq_map reinstalled synced [] need = need
need_sync_seq_map reinstalled synced ((id, max_seq) ∷ rest) need =
    need_sync_seq_map reinstalled synced rest
      (add_need id (need_sync reinstalled (lookup id synced) max_seq) need)

-- The loop that splits `maxSeqToSync` after a reinstallation, in its two results.
unfoldable pub notification_seqs : Map String ℕ → Map String ℕ → Map String ℕ
notification_seqs [] found = found
notification_seqs ((id, seq) ∷ rest) found =
    notification_seqs rest
      (if is_notification id then (if seq == 0 then found else insert id seq found) else found)

unfoldable pub message_seqs : Map String ℕ → Map String ℕ → Map String ℕ
message_seqs [] found = found
message_seqs ((id, seq) ∷ rest) found =
    message_seqs rest (if is_notification id then found else insert id seq found)

-- `m.syncedMaxSeqs[conversationID] = seq` for each entry.
unfoldable pub set_synced : Map String ℕ → Map String ℕ → Map String ℕ
set_synced [] synced = synced
set_synced ((id, seq) ∷ rest) synced = set_synced rest (insert id seq synced)

abbrev pub store_notification_seqs : Map String ℕ → MsgSyncer → MsgSyncer
store_notification_seqs [] m = m
store_notification_seqs seqs m = send (batch_insert_notification_seq seqs) m

-- After a reinstallation notifications count as synced, and are not pulled.
unfoldable pub skip_notifications : Map String ℕ → MsgSyncer → MsgSyncer
skip_notifications max_seq_to_sync m =
    let seqs = notification_seqs max_seq_to_sync [] in
    store_notification_seqs seqs (record m { synced_max_seqs = set_synced seqs m.synced_max_seqs })

unfoldable pub get_need_sync_conversations :
    Map String ℕ → MsgSyncer → MsgSyncer × Map String SeqRange
get_need_sync_conversations max_seq_to_sync m =
    if m.reinstalled
    then (let m' = skip_notifications max_seq_to_sync m in
        (m', need_sync_seq_map true m'.synced_max_seqs (message_seqs max_seq_to_sync []) []))
    else (m, need_sync_seq_map false m.synced_max_seqs max_seq_to_sync [])
