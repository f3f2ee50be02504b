-- ===== src/MsgSyncer/Pull.antt =====
-- msg_sync.go: pulling messages in batches (`syncAndTriggerMsgs`, `syncAndTriggerReinstallMsgs`,
-- `checkMessagesAndGetLastMessage`) and `compareSeqsAndBatchSync`, which starts them.
use openim_sdk_core.Prelude.{
  ℕ, ◌+◌, ◌-◌, min, Bool, true, false, ◌&&◌, List, [], ◌∷◌, String, ltb, leb, if◌then◌else◌, length,
  string_eq,
}
use openim_sdk_core.Prelude.Map.{Map, insert}
use openim_sdk_core.Prelude.Outcome.{Outcome, done, fail, ◌>>=◌, state_of, Result, ok, err}
use openim_sdk_core.MsgSyncer.{
  MsgData, PullMsgs, SeqRange, PullMessageBySeqsResp, MsgSyncer, Server, send, pull_msg_by_range,
  pull_conv_last_message, new_message, msg_sync_in_reinstall, notification, set_app_sdk_version,
}
use openim_sdk_core.MsgSyncer.Need.{
  is_notification, need_sync_seq_map, message_seqs, skip_notifications,
}

abbrev pub split_pull_msg_num : ℕ
split_pull_msg_num = 100

abbrev pub msg_status_has_deleted : ℕ
msg_status_has_deleted = 4

unfoldable pub trigger_conversation : Map String PullMsgs → MsgSyncer → MsgSyncer
trigger_conversation [] m = m
trigger_conversation msgs m = send (new_message msgs) m

unfoldable pub trigger_reinstall_conversation : Map String PullMsgs → ℕ → MsgSyncer → MsgSyncer
trigger_reinstall_conversation [] total m = m
trigger_reinstall_conversation msgs total m = send (msg_sync_in_reinstall msgs total) m

unfoldable pub trigger_notification : Map String PullMsgs → MsgSyncer → MsgSyncer
trigger_notification [] m = m
trigger_notification msgs m = send (notification msgs) m

-- `m.syncedMaxSeqs[conversationID] = seqs[1]` for each entry of a batch.
unfoldable pub mark_synced : Map String SeqRange → Map String ℕ → Map String ℕ
mark_synced [] synced = synced
mark_synced ((id, seqs) ∷ rest) synced = mark_synced rest (insert id seqs.1 synced)

-- A request of `pullMsgBySeqRange`, and how its answer is delivered.
unfoldable pub pull_batch :
    Server
    → (PullMessageBySeqsResp → MsgSyncer → MsgSyncer)
    → ℕ
    → Map String SeqRange
    → MsgSyncer
    → Outcome MsgSyncer
pull_batch server deliver sync_msg_num temp m =
    let sent = send (pull_msg_by_range temp sync_msg_num) m in
    elim (server.pulled m.log temp sync_msg_num) [
      | err e ↦ fail e sent
      | ok resp ↦
          let after = deliver resp sent in
          done (record after { synced_max_seqs = mark_synced temp after.synced_max_seqs })
    ]

unfoldable pub trigger_msgs : PullMessageBySeqsResp → MsgSyncer → MsgSyncer
unfolding trigger_conversation trigger_notification
trigger_msgs resp m = trigger_notification resp.notification_msgs (trigger_conversation resp.msgs m)

-- How many messages one conversation adds to a batch.
unfoldable pub batch_weight : ℕ → String → SeqRange → ℕ
batch_weight sync_msg_num id seqs =
    let one_conversation_sync_num = seqs.1 + 1 - seqs.0 in
    if is_notification id
    then one_conversation_sync_num
    else min one_conversation_sync_num sync_msg_num

-- The loop of `syncAndTriggerMsgs`, and the pull of what is left after it.
unfoldable pub sync_loop :
    Server → ℕ → Map String SeqRange → Map String SeqRange → ℕ → MsgSyncer → Outcome MsgSyncer
sync_loop server sync_msg_num [] [] msg_num m = done m
sync_loop server sync_msg_num [] (e ∷ temp) msg_num m =
    pull_batch server trigger_msgs sync_msg_num (e ∷ temp) m
sync_loop server sync_msg_num ((id, seqs) ∷ rest) temp msg_num m =
    let msg_num' = msg_num + batch_weight sync_msg_num id seqs in
    let temp' = insert id seqs temp in
    let flushed = pull_batch server trigger_msgs sync_msg_num temp' m >>= λ m'.
    sync_loop server sync_msg_num rest [] 0 m' in
    let kept = sync_loop server sync_msg_num rest temp' msg_num' m in
    if leb split_pull_msg_num msg_num' then flushed else kept

unfoldable pub sync_and_trigger_msgs :
    Server → Map String SeqRange → ℕ → MsgSyncer → Outcome MsgSyncer
sync_and_trigger_msgs server seq_map sync_msg_num m = sync_loop server sync_msg_num seq_map [] 0 m

-- Every message of the conversation is deleted.
abbrev all_deleted : List MsgData → Bool
all_deleted [] = true
all_deleted (d ∷ rest) = leb msg_status_has_deleted d.status && all_deleted rest

abbrev pub invalid_conversations : Map String PullMsgs → List String
invalid_conversations [] = []
invalid_conversations ((id, message) ∷ rest) =
    if all_deleted message.msgs then id ∷ invalid_conversations rest else invalid_conversations rest

abbrev pub put_last_messages : Map String MsgData → Map String PullMsgs → Map String PullMsgs
put_last_messages [] messages = messages
put_last_messages ((id, message) ∷ rest) messages =
    put_last_messages rest
      (insert id (record { msgs = message ∷ []; is_end = false; end_seq = 0 }) messages)

abbrev pub replace_messages :
    Result (Map String MsgData) → Map String PullMsgs → Map String PullMsgs
replace_messages (ok last) messages = put_last_messages last messages
replace_messages (err e) messages = messages

abbrev pub fetch_last :
    Server → List String → Map String PullMsgs → MsgSyncer → MsgSyncer × Map String PullMsgs
fetch_last server [] messages m = (m, messages)
fetch_last server (id ∷ ids) messages m = (
  send (pull_conv_last_message (id ∷ ids)) m,
  replace_messages (server.last_messages m.log (id ∷ ids)) messages,
)

unfoldable pub check_messages_and_get_last_message :
    Server → Map String PullMsgs → MsgSyncer → MsgSyncer × Map String PullMsgs
check_messages_and_get_last_message server messages m =
    fetch_last server (invalid_conversations messages) messages m

unfoldable pub trigger_reinstall_msgs : Server → ℕ → PullMessageBySeqsResp → MsgSyncer → MsgSyncer
unfolding trigger_reinstall_conversation trigger_notification check_messages_and_get_last_message
trigger_reinstall_msgs server total resp m =
    let (m', messages) = check_messages_and_get_last_message server resp.msgs m in
    trigger_notification resp.notification_msgs (trigger_reinstall_conversation messages total m')

-- The loop of `syncAndTriggerReinstallMsgs`: what is left after it is pulled only if it has weight.
unfoldable pub reinstall_loop :
    Server → ℕ → ℕ → Map String SeqRange → Map String SeqRange → ℕ → MsgSyncer → Outcome MsgSyncer
reinstall_loop server total sync_msg_num [] [] msg_num m = done m
reinstall_loop server total sync_msg_num [] (e ∷ temp) msg_num m =
    if ltb 0 msg_num
    then pull_batch server (trigger_reinstall_msgs server total) sync_msg_num (e ∷ temp) m
    else done m
reinstall_loop server total sync_msg_num ((id, seqs) ∷ rest) temp msg_num m =
    let msg_num' = msg_num + min (seqs.1 + 1 - seqs.0) sync_msg_num in
    let temp' = insert id seqs temp in
    let flushed =
      pull_batch server (trigger_reinstall_msgs server total) sync_msg_num temp' m >>= λ m'.
      reinstall_loop server total sync_msg_num rest [] 0 m' in
    let kept = reinstall_loop server total sync_msg_num rest temp' msg_num' m in
    if leb split_pull_msg_num msg_num' then flushed else kept

unfoldable pub sync_and_trigger_reinstall_msgs :
    Server → Map String SeqRange → ℕ → MsgSyncer → Outcome MsgSyncer
sync_and_trigger_reinstall_msgs server seq_map sync_msg_num m =
    reinstall_loop server (length seq_map) sync_msg_num seq_map [] 0 m

-- After a reinstallation the deferred call runs whatever the pull returned.
unfoldable pub compare_seqs_and_batch_sync : Server → Map String ℕ → ℕ → MsgSyncer → MsgSyncer
compare_seqs_and_batch_sync server max_seq_to_sync pull_nums m =
    if m.reinstalled
    then (let m' = skip_notifications max_seq_to_sync m in
        let need = need_sync_seq_map true m'.synced_max_seqs (message_seqs max_seq_to_sync []) [] in
        let after = state_of (sync_and_trigger_reinstall_msgs server need pull_nums m') in
        record (send (set_app_sdk_version true) after) { reinstalled = false })
    else state_of (
        sync_and_trigger_msgs server (need_sync_seq_map false m.synced_max_seqs max_seq_to_sync [])
          pull_nums m)
