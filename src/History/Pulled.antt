-- ===== src/History/Pulled.antt =====
-- Messages that were missing: `fetchAndMergeMissingMessages` and `pullMessageIntoTable` of
-- internal/conversation_msg/message_check.go, for an answer with the one conversation that was
-- asked for.
pub mod Fresh
pub mod Tallied
pub mod Sorting
use openim_sdk_core.Prelude.{
  ℕ, ◌+◌, Bool, true, false, not, ◌&&◌, ◌||◌, List, [], ◌∷◌, ◌++◌, Option, none, some, String,
  string_eq, nat_eq, ◌==◌, leb, if◌then◌else◌, contains, map,
}
use openim_sdk_core.Prelude.Map.{Map, lookup, insert}
use openim_sdk_core.Prelude.Outcome.{Result, ok, err}
use openim_sdk_core.MsgSyncer.{MsgData, PullMsgs}
use openim_sdk_core.MsgSyncer.Pull.{msg_status_has_deleted}
use openim_sdk_core.History.{
  LocalChatLog, LocalConversation, HistoryCallback, err_handle, set_conversation_min_seq,
  merge_sorted_arrays,
}
use openim_sdk_core.History.Exceptions.{handle_exception_messages}

abbrev pub msg_status_send_success : ℕ
msg_status_send_success = 2

-- `MsgDataToLocalChatLog`, of the fields that the checks read.
unfoldable pub msg_data_to_local_chat_log : MsgData → LocalChatLog
msg_data_to_local_chat_log v = record {
  client_msg_id = v.client_msg_id;
  seq = v.seq;
  send_time = v.send_time;
  status = if leb msg_status_has_deleted v.status then v.status else msg_status_send_success;
}

-- What `handleExceptionMessages` generates for a message: an id, its number as a text, a random text.
pub record Generated : Type 0 where
  pub id : MsgData → String
  pub seq_text : MsgData → String
  pub random : MsgData → String

-- The slices and the map of the loop; `msgs` is the messages of the answer as the loop leaves them.
pub record Classes : Type 0 where
  pub insert_message : List LocalChatLog
  pub self_insert_message : List LocalChatLog
  pub others_insert_message : List LocalChatLog
  pub update_message : List LocalChatLog
  pub exception_msg : List LocalChatLog
  pub processed_msg_ids : Map String LocalChatLog
  pub msgs : List MsgData

abbrev pub no_classes : Classes
no_classes = record {
  insert_message = [];
  self_insert_message = [];
  others_insert_message = [];
  update_message = [];
  exception_msg = [];
  processed_msg_ids = [];
  msgs = [];
}

abbrev pub renamed : Generated → Option LocalChatLog → MsgData → LocalChatLog
renamed g existing v =
    handle_exception_messages existing (msg_data_to_local_chat_log v) (g.id v) (g.seq_text v)
      (g.random v)

-- The message under the key of its id, which `handleExceptionMessages` may have changed.
abbrev pub process : LocalChatLog → Classes → Classes
process msg c = record c { processed_msg_ids = insert msg.client_msg_id msg c.processed_msg_ids }

-- A message that there is already.
abbrev pub exceptional : Generated → LocalChatLog → MsgData → Classes → Classes
exceptional g existing v c =
    let msg = renamed g (some existing) v in
    record c {
      exception_msg = c.exception_msg ++ (msg ∷ []);
      insert_message = c.insert_message ++ (msg ∷ []);
      msgs = c.msgs ++ (record v { status = msg.status } ∷ []);
    }

-- A message that the server has deleted.
abbrev pub deleted : Generated → MsgData → Classes → Classes
deleted g v c =
    let msg = renamed g none v in
    record c {
      exception_msg = c.exception_msg ++ (msg ∷ []);
      insert_message = c.insert_message ++ (msg ∷ []);
      msgs = c.msgs ++ (record v { client_msg_id = msg.client_msg_id } ∷ []);
    }

abbrev pub kept : MsgData → Classes → Classes
kept v c = record c { msgs = c.msgs ++ (v ∷ []) }

-- By whether the user sent it, and the stored message with its id.
abbrev pub by_sender : Generated → Bool → Option LocalChatLog → MsgData → Classes → Classes
by_sender g true (some existing) v c =
    let msg = msg_data_to_local_chat_log v in
    let updated =
      process msg (record (kept v c) { update_message = c.update_message ++ (msg ∷ []) }) in
    let twice = process (renamed g (some existing) v) (exceptional g existing v c) in
    if existing.seq == 0 then updated else twice
by_sender g true none v c =
    let msg = msg_data_to_local_chat_log v in
    process msg (record (kept v c) { self_insert_message = c.self_insert_message ++ (msg ∷ []) })
by_sender g false none v c =
    let msg = msg_data_to_local_chat_log v in
    process msg
      (record (kept v c) { others_insert_message = c.others_insert_message ++ (msg ∷ []) })
by_sender g false (some existing) v c =
    process (renamed g (some existing) v) (exceptional g existing v c)

abbrev pub by_processed :
    Generated → String → Map String LocalChatLog → Option LocalChatLog → MsgData → Classes → Classes
by_processed g user stored (some existing) v c = exceptional g existing v c
by_processed g user stored none v c =
    let new = by_sender g (v.send_id == user) (lookup v.client_msg_id stored) v c in
    if v.status == msg_status_has_deleted then deleted g v c else new

abbrev pub classify_one : Generated → String → Map String LocalChatLog → MsgData → Classes → Classes
classify_one g user stored v c =
    by_processed g user stored (lookup v.client_msg_id c.processed_msg_ids) v c

-- The loop over the messages.
unfoldable pub classify_all :
    Generated → String → Map String LocalChatLog → List MsgData → Classes → Classes
classify_all g user stored [] c = c
classify_all g user stored (v ∷ vs) c =
    classify_all g user stored vs (classify_one g user stored v c)

unfoldable pub slice_to_map : List LocalChatLog → Map String LocalChatLog → Map String LocalChatLog
slice_to_map [] m = m
slice_to_map (msg ∷ msgs) m = slice_to_map msgs (insert msg.client_msg_id msg m)

abbrev pub ids_of : List LocalChatLog → List String
ids_of [] = []
ids_of (msg ∷ msgs) = msg.client_msg_id ∷ ids_of msgs

unfoldable pub without : List String → List LocalChatLog → List LocalChatLog
without ids [] = []
without ids (msg ∷ msgs) =
    let rest = without ids msgs in if contains ids msg.client_msg_id then rest else msg ∷ rest

-- What is written, the list that is shown, and the messages of the answer after the loop.
pub record IntoTable : Type 0 where
  pub inserted : List LocalChatLog
  pub updated : List LocalChatLog
  pub list : List LocalChatLog
  pub msgs : List MsgData

-- `in_db` is what `GetMessagesByClientMsgIDs` returns for ids, empty when it fails. Faces and
-- nicknames are no fields of this message.
unfoldable pub pull_message_into_table :
    Generated
    → String
    → (List String → List LocalChatLog)
    → PullMsgs
    → List LocalChatLog
    → IntoTable
pull_message_into_table g user in_db pulls list =
    let ids = map (λ (v : MsgData). v.client_msg_id) pulls.msgs in
    let c = classify_all g user (slice_to_map (in_db ids) []) pulls.msgs no_classes in
    record {
      inserted = c.insert_message ++ (c.self_insert_message ++ c.others_insert_message);
      updated = c.update_message;
      list = without (ids_of c.update_message) list;
      msgs = c.msgs;
    }

unfoldable pub reverse_onto : List LocalChatLog → List LocalChatLog → List LocalChatLog
reverse_onto done [] = done
reverse_onto done (msg ∷ msgs) = reverse_onto (msg ∷ done) msgs

-- The list and the callback after the fetch, what was written to the table of messages, and the rows
-- of the conversation.
pub record Fetched : Type 0 where
  pub list : List LocalChatLog
  pub callback : HistoryCallback
  pub inserted : List LocalChatLog
  pub updated : List LocalChatLog
  pub rows : List LocalConversation

abbrev pub nothing_fetched : List LocalChatLog → HistoryCallback → Fetched
nothing_fetched list callback = record {
  list = list;
  callback = callback;
  inserted = [];
  updated = [];
  rows = [];
}

abbrev pub on_error :
    Option (List LocalChatLog × HistoryCallback) → List LocalChatLog → HistoryCallback → Fetched
on_error none list callback = nothing_fetched list callback
on_error (some after) list callback = nothing_fetched after.0 after.1

abbrev pub on_answer :
    Generated
    → String
    → (List String → List LocalChatLog)
    → Result LocalConversation
    → Bool
    → ℕ
    → Option PullMsgs
    → List LocalChatLog
    → HistoryCallback
    → Fetched
on_answer g user in_db conversation is_reverse count none list callback =
    nothing_fetched list callback
on_answer g user in_db conversation is_reverse count (some pulls) list callback =
    let t = pull_message_into_table g user in_db pulls list in
    let local = map msg_data_to_local_chat_log t.msgs in
    let ordered = if is_reverse then local else reverse_onto [] local in
    record {
      list = merge_sorted_arrays t.list ordered count (not is_reverse);
      callback = callback;
      inserted = t.inserted;
      updated = t.updated;
      rows =
          if pulls.is_end
          then set_conversation_min_seq is_reverse pulls.end_seq conversation
          else [];
    }

-- The answer of the server for the conversation, none when it does not have it.
unfoldable pub fetch_and_merge_missing_messages :
    Generated
    → String
    → (List String → List LocalChatLog)
    → Result LocalConversation
    → Bool
    → List ℕ
    → Bool
    → ℕ
    → ℕ
    → Result (Option PullMsgs)
    → List LocalChatLog
    → HistoryCallback
    → Fetched
fetch_and_merge_missing_messages g user in_db conversation is_connected seqs is_reverse count
      start_time answer list callback =
    if start_time == 0 && not is_connected then nothing_fetched list callback else by_answer answer
  where
    by_answer : Result (Option PullMsgs) → Fetched
    by_answer (err e) = on_error (err_handle seqs list e callback) list callback
    by_answer (ok pulls) = on_answer g user in_db conversation is_reverse count pulls list callback
