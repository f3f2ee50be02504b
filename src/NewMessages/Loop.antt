-- ===== src/NewMessages/Loop.antt =====
-- The loop of `doMsgNew` over the messages: internal/conversation_msg/conversation_msg.go.
use openim_sdk_core.Prelude.{
  ℕ, Bool, true, false, not, ◌&&◌, ◌||◌, List, [], ◌∷◌, ◌++◌, Option, none, some, String, string_eq,
  nat_eq, ◌==◌, if◌then◌else◌,
}
use openim_sdk_core.Prelude.Map.{Map, lookup}
use openim_sdk_core.History.{LocalChatLog}
use openim_sdk_core.History.Exceptions.{handle_exception_messages}
use openim_sdk_core.MsgSyncer.Pull.{msg_status_has_deleted}
use openim_sdk_core.History.Pulled.{msg_status_send_success}
use openim_sdk_core.NewMessages.{
  Incoming, MsgStruct, LocalConversation, get_switch_from_options, incr_seq, is_new_msg,
  msg_struct_to_local_chat_log, msg_status_filtered, self_conversation, other_conversation,
  update_conversation,
}

-- `populate` is the error of `PopulateMsgStructByContentType` and `is_private` the `IsPrivateChat`
-- that it finds in the attached information; the others are what `handleExceptionMessages`
-- generates for a message.
pub record Content : Type 0 where
  pub populate : Incoming → Option String
  pub is_private : Incoming → Bool
  pub id : Incoming → String
  pub seq_text : Incoming → String
  pub random : Incoming → String

-- What the loop gathers over all conversations.
pub record Gathered : Type 0 where
  pub exception_msg : List LocalChatLog
  pub new_messages : List MsgStruct
  pub conversation_set : Map String LocalConversation
  pub online_map : List (String × String)
  pub is_trigger_unread_count : Bool
  pub seqs : Map String ℕ

-- And for the conversation at hand.
pub record Batch : Type 0 where
  pub insert_message : List LocalChatLog
  pub self_insert_message : List LocalChatLog
  pub others_insert_message : List LocalChatLog
  pub update_message : List LocalChatLog
  pub all : Gathered

abbrev pub exceptional : Content → Option LocalChatLog → MsgStruct → Batch → Batch
exceptional content existing msg b =
    let stored =
      handle_exception_messages existing (msg_struct_to_local_chat_log msg) (content.id msg.came)
        (content.seq_text msg.came) (content.random msg.came) in
    record b {
      insert_message = b.insert_message ++ (stored ∷ []);
      all = record b.all { exception_msg = b.all.exception_msg ++ (stored ∷ []) };
    }

abbrev pub announce : MsgStruct → Gathered → Gathered
announce msg g = record g { new_messages = g.new_messages ++ (msg ∷ []) }

abbrev pub with_conversation : LocalConversation → Gathered → Gathered
with_conversation lc g = record g { conversation_set = update_conversation lc g.conversation_set }

-- A message of the user's that is not stored.
abbrev pub self_new : String → Bool → Bool → Bool → MsgStruct → Batch → Batch
self_new id is_history is_update is_sender_update msg b =
    let g =
      if is_sender_update then with_conversation (self_conversation id msg) b.all else b.all in
    let b' = if is_update then record b { all = announce msg g } else b in
    if is_history
    then record b' {
      self_insert_message = b'.self_insert_message ++ (msg_struct_to_local_chat_log msg ∷ []);
    }
    else b'

-- A message of the user's: stored without a number, stored with one, or not stored.
abbrev pub by_self :
    Content → String → Bool → Bool → Bool → Option LocalChatLog → MsgStruct → Batch → Batch
by_self content id is_history is_update is_sender_update (some existing) msg b =
    if existing.seq == 0
    then record b { update_message = b.update_message ++ (msg_struct_to_local_chat_log msg ∷ []) }
    else exceptional content (some existing) msg b
by_self content id is_history is_update is_sender_update none msg b =
    self_new id is_history is_update is_sender_update msg b

-- Whether the message counts as unread.
abbrev pub counts : String → Bool → MsgStruct → Gathered → Bool
counts id is_unread msg g = is_unread && is_new_msg id msg.came.seq g.seqs

abbrev pub count_unread : String → Bool → Gathered → Gathered
count_unread id true g = record g { is_trigger_unread_count = true; seqs = incr_seq id 1 g.seqs }
count_unread id false g = g

abbrev pub one_if : Bool → ℕ
one_if true = 1
one_if false = 0

-- A message from others that is not stored; `unread` is whether it counts.
abbrev pub other_new : String → Bool → Bool → Bool → MsgStruct → Batch → Batch
other_new id is_history is_update unread msg b =
    let g = count_unread id unread b.all in
    let b' = record b {
      all =
          if is_update
          then announce msg (with_conversation (other_conversation id (one_if unread) msg) g)
          else g;
    } in
    if is_history
    then record b' {
      others_insert_message = b'.others_insert_message ++ (msg_struct_to_local_chat_log msg ∷ []);
    }
    else b'

abbrev pub by_other :
    Content → String → Bool → Bool → Bool → Option LocalChatLog → MsgStruct → Batch → Batch
by_other content id is_history is_update is_unread none msg b =
    other_new id is_history is_update (counts id is_unread msg b.all) msg b
by_other content id is_history is_update is_unread (some existing) msg b =
    exceptional content (some existing) msg b

abbrev pub online_only : Bool → MsgStruct → Batch → Batch
online_only true msg b = b
online_only false msg b = record b {
  all = announce msg (record b.all {
    online_map = (msg.came.client_msg_id, msg.came.server_msg_id) ∷ b.all.online_map;
  });
}

-- Whether the status becomes `MsgStatusFiltered`.
abbrev pub is_filtered : Bool → Bool → Option LocalChatLog → Bool
is_filtered is_self is_update none = false
is_filtered is_self is_update (some existing) = is_self && existing.seq == 0 && not is_update

-- A message whose content could be read. The list of new messages has it by reference, and so with
-- the status that it gets in the end.
abbrev pub readable : Content → String → String → Map String LocalChatLog → Incoming → Batch → Batch
readable content user id stored v b =
    let switch = get_switch_from_options v.options in
    let existing = lookup v.client_msg_id stored in
    let msg : MsgStruct = record {
      came = v;
      status =
          if is_filtered (v.send_id == user) (switch "conversationUpdate") existing
          then msg_status_filtered
          else msg_status_send_success;
      is_private_chat = not (switch "notPrivate") || content.is_private v;
    } in
    let b' = online_only (switch "history") msg b in
    if v.send_id == user
    then by_self content id (switch "history") (switch "conversationUpdate")
        (switch "senderConversationUpdate") existing msg b'
    else by_other content id (switch "history") (switch "conversationUpdate") (switch "unreadCount")
        existing msg b'

abbrev pub populated :
    Option String → Content → String → String → Map String LocalChatLog → Incoming → Batch → Batch
populated (some e) content user id stored v b = b
populated none content user id stored v b =
    if id == "" then b else readable content user id stored v b

unfoldable pub parse_message :
    Content → String → String → Map String LocalChatLog → Incoming → Batch → Batch
parse_message content user id stored v b =
    if v.status == msg_status_has_deleted
    then exceptional content none (record { came = v; status = v.status; is_private_chat = false })
        b
    else populated (content.populate v) content user id stored v b

-- The messages of one conversation.
unfoldable pub parse_messages :
    Content → String → String → Map String LocalChatLog → List Incoming → Batch → Batch
parse_messages content user id stored [] b = b
parse_messages content user id stored (v ∷ vs) b =
    parse_messages content user id stored vs (parse_message content user id stored v b)
