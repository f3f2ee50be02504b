-- ===== src/Tests/Pulling.antt =====
-- Missing messages that are pulled: one twice, one of the user that awaits its number.
use openim_sdk_core.Prelude.{ℕ, ◌≡◌, refl, List, [], ◌∷◌, String, string_eq}
use openim_sdk_core.Prelude.Map.{Map, lookup, insert}
use openim_sdk_core.MsgSyncer.{MsgData}
use openim_sdk_core.History.{LocalChatLog}
use openim_sdk_core.History.Exceptions.{handle_exception_messages}
use openim_sdk_core.History.Pulled.{
  Generated, no_classes, classify_all, msg_data_to_local_chat_log, ids_of,
}

abbrev generated : Generated
generated = record { id = λ v. "g"; seq_text = λ v. "1"; random = λ v. "r" }

abbrev pulled_from : String → String → ℕ → MsgData
pulled_from id sender seq = record {
  client_msg_id = id;
  send_id = sender;
  seq = seq;
  send_time = seq;
  status = 2;
}

abbrev stored : Map String LocalChatLog
stored = ("m", record { client_msg_id = "m"; seq = 0; send_time = 4; status = 2 }) ∷ []

abbrev pulled : List MsgData
pulled = pulled_from "m" "a" 4 ∷ pulled_from "n" "b" 5 ∷ pulled_from "n" "b" 6 ∷ []

others_inserted :
    ids_of (classify_all generated "a" stored pulled no_classes).others_insert_message ≡ "n" ∷ []
unfolding classify_all lookup insert msg_data_to_local_chat_log
others_inserted = refl

renamed_inserted :
    ids_of (classify_all generated "a" stored pulled no_classes).insert_message
    ≡ "[CLIENT_DUP]n_r" ∷ []
unfolding classify_all lookup insert msg_data_to_local_chat_log handle_exception_messages
renamed_inserted = refl
