-- ===== src/History/Exceptions.antt =====
-- Messages that cannot be stored as they are: `handleExceptionMessages`.
use openim_sdk_core.Prelude.{
  ◌&&◌, Option, none, some, String, string_eq, nat_eq, ◌==◌, if◌then◌else◌,
}
use Prim.Native.String.{◌++◌ as str_append}
use openim_sdk_core.MsgSyncer.Pull.{msg_status_has_deleted}
use openim_sdk_core.History.{LocalChatLog}

-- `prefix` of `handleExceptionMessages`, and the message's id after a generated one is put in.
abbrev exception_prefix : Option LocalChatLog → LocalChatLog → String → String
exception_prefix none message seq_text =
    if message.status == msg_status_has_deleted
    then (if message.client_msg_id == ""
        then str_append "[SEQ_GAP_+" (str_append seq_text "]")
        else "[DELETED]")
    else "[UNKNOWN]"
exception_prefix (some existing) message seq_text =
    if existing.seq == message.seq then "[SEQ_DUP]" else "[CLIENT_DUP]"

abbrev exception_id : Option LocalChatLog → LocalChatLog → String → String
exception_id none message generated =
    if message.status == msg_status_has_deleted && message.client_msg_id == ""
    then generated
    else message.client_msg_id
exception_id (some existing) message generated = message.client_msg_id

-- `generated` is the new message id, `seq_text` the printed number, `random` the random string.
unfoldable pub handle_exception_messages :
    Option LocalChatLog → LocalChatLog → String → String → String → LocalChatLog
handle_exception_messages existing message generated seq_text random = record message {
  status = msg_status_has_deleted;
  client_msg_id =
      str_append (exception_prefix existing message seq_text)
        (str_append (exception_id existing message generated) (str_append "_" random));
}
