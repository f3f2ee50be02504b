-- ===== src/NewMessages.antt =====
-- Messages that come: the loop of `doMsgNew` and `updateConversation` of
-- internal/conversation_msg/conversation_msg.go, and internal/conversation_msg/max_seq_recorder.go.
pub mod Loop
pub mod Stored
pub mod Joined
pub mod Counted
pub mod Dated
pub mod Came
pub mod Differing
pub mod Changed
use openim_sdk_core.Prelude.{
  ℕ, zero, suc, ◌+◌, Bool, true, false, not, ◌&&◌, ◌||◌, List, [], ◌∷◌, ◌++◌, Option, none, some,
  String, string_eq, nat_eq, ◌==◌, ltb, if◌then◌else◌, map,
}
use openim_sdk_core.Prelude.Map.{Map, lookup, insert}
use openim_sdk_core.History.{LocalChatLog}
use openim_sdk_core.History.Exceptions.{handle_exception_messages}
use openim_sdk_core.MsgSyncer.Pull.{msg_status_has_deleted}
use openim_sdk_core.History.Pulled.{msg_status_send_success, slice_to_map}

abbrev pub msg_status_filtered : ℕ
msg_status_filtered = 5

abbrev pub single_chat_type : ℕ
single_chat_type = 1

abbrev pub write_group_chat_type : ℕ
write_group_chat_type = 2

abbrev pub read_group_chat_type : ℕ
read_group_chat_type = 3

abbrev pub notification_chat_type : ℕ
notification_chat_type = 4

-- `sdkws.MsgData`, of the fields that are read here.
pub record Incoming : Type 0 where
  pub client_msg_id : String
  pub server_msg_id : String
  pub send_id : String
  pub recv_id : String
  pub group_id : String
  pub nickname : String
  pub face_url : String
  pub session_type : ℕ
  pub content_type : ℕ
  pub seq : ℕ
  pub send_time : ℕ
  pub status : ℕ
  pub options : Map String Bool

-- `sdk_struct.MsgStruct`: what came, its status, and `IsPrivateChat`.
pub record MsgStruct : Type 0 where
  pub came : Incoming
  pub status : ℕ
  pub is_private_chat : Bool

-- `model_struct.LocalConversation`; `latest_msg` is the message that the JSON text encodes.
pub record LocalConversation : Type 0 where
  pub conversation_id : String
  pub conversation_type : ℕ
  pub user_id : String
  pub group_id : String
  pub show_name : String
  pub face_url : String
  pub unread_count : ℕ
  pub latest_msg : Option MsgStruct
  pub latest_msg_send_time : ℕ
  pub recv_msg_opt : ℕ
  pub group_at_type : ℕ
  pub is_pinned : Bool
  pub is_private_chat : Bool
  pub burn_duration : ℕ
  pub is_not_in_group : Bool
  pub attached_info : String
  pub ex : String
  pub is_msg_destruct : Bool
  pub msg_destruct_time : ℕ

abbrev pub flag_or : Option Bool → Bool
flag_or none = true
flag_or (some flag) = flag

-- `GetSwitchFromOptions`: a switch that is not there is on.
unfoldable pub get_switch_from_options : Map String Bool → String → Bool
get_switch_from_options options key = flag_or (lookup key options)

abbrev pub or_zero : Option ℕ → ℕ
or_zero none = 0
or_zero (some n) = n

-- `MaxSeqRecorder.Get`; the map is the recorder.
unfoldable pub get_seq : String → Map String ℕ → ℕ
get_seq id seqs = or_zero (lookup id seqs)

-- `MaxSeqRecorder.Set`.
unfoldable pub set_seq : String → ℕ → Map String ℕ → Map String ℕ
set_seq id seq seqs = insert id seq seqs

-- `MaxSeqRecorder.Incr`.
unfoldable pub incr_seq : String → ℕ → Map String ℕ → Map String ℕ
incr_seq id num seqs = insert id (or_zero (lookup id seqs) + num) seqs

-- `MaxSeqRecorder.IsNewMsg`.
unfoldable pub is_new_msg : String → ℕ → Map String ℕ → Bool
is_new_msg id seq seqs = ltb (or_zero (lookup id seqs)) seq

abbrev pub msg_struct_to_local_chat_log : MsgStruct → LocalChatLog
msg_struct_to_local_chat_log msg = record {
  client_msg_id = msg.came.client_msg_id;
  seq = msg.came.seq;
  send_time = msg.came.send_time;
  status = msg.status;
}

-- A conversation with the fields that `doMsgNew` sets, and zero values in the others.
abbrev pub conversation_of : String → MsgStruct → LocalConversation
conversation_of id msg = record {
  conversation_id = id;
  conversation_type = msg.came.session_type;
  user_id = "";
  group_id = "";
  show_name = "";
  face_url = "";
  unread_count = 0;
  latest_msg = some msg;
  latest_msg_send_time = msg.came.send_time;
  recv_msg_opt = 0;
  group_at_type = 0;
  is_pinned = false;
  is_private_chat = false;
  burn_duration = 0;
  is_not_in_group = false;
  attached_info = "";
  ex = "";
  is_msg_destruct = false;
  msg_destruct_time = 0;
}

abbrev pub is_group_type : ℕ → Bool
is_group_type t = t == write_group_chat_type || t == read_group_chat_type

-- The `switch` for a message that the user sent.
abbrev pub self_conversation : String → MsgStruct → LocalConversation
self_conversation id msg =
    let lc = conversation_of id msg in
    if msg.came.session_type == single_chat_type
    then record lc { user_id = msg.came.recv_id }
    else if is_group_type msg.came.session_type
    then record lc { group_id = msg.came.group_id }
    else lc

-- And for a message from others, with the unread count.
abbrev pub other_conversation : String → ℕ → MsgStruct → LocalConversation
other_conversation id unread msg =
    let lc = record (conversation_of id msg) { unread_count = unread } in
    if msg.came.session_type == single_chat_type
    then record lc {
      user_id = msg.came.send_id;
      show_name = msg.came.nickname;
      face_url = msg.came.face_url;
    }
    else if is_group_type msg.came.session_type
    then record lc { group_id = msg.came.group_id }
    else if msg.came.session_type == notification_chat_type
    then record lc { user_id = msg.came.send_id }
    else lc

-- One conversation into another: the unread counts are added, and the newer message is the latest.
abbrev pub merged : LocalConversation → LocalConversation → LocalConversation
merged lc old =
    let counted = record old { unread_count = old.unread_count + lc.unread_count } in
    if ltb old.latest_msg_send_time lc.latest_msg_send_time
    then record counted {
      latest_msg = lc.latest_msg;
      latest_msg_send_time = lc.latest_msg_send_time;
    }
    else counted

abbrev pub merged_or : LocalConversation → Option LocalConversation → LocalConversation
merged_or lc none = lc
merged_or lc (some old) = merged lc old

-- `updateConversation`.
unfoldable pub update_conversation :
    LocalConversation → Map String LocalConversation → Map String LocalConversation
update_conversation lc cs =
    insert lc.conversation_id (merged_or lc (lookup lc.conversation_id cs)) cs
