-- ===== src/Tests/Receiving.antt =====
-- A message from a friend and one of the user's own, in a conversation that is in the table.
use openim_sdk_core.Prelude.{
  ℕ, ◌+◌, ◌≡◌, refl, string_eq, false, List, [], ◌∷◌, none, some, String, max,
}
use openim_sdk_core.Prelude.Map.{Map, lookup, insert}
use openim_sdk_core.Prelude.Outcome.{Result, ok}
use openim_sdk_core.History.{LocalChatLog}
use openim_sdk_core.History.Pulled.{slice_to_map}
use openim_sdk_core.NewMessages.{
  Incoming, LocalConversation, get_switch_from_options, get_seq, incr_seq, is_new_msg,
  update_conversation,
}
use openim_sdk_core.NewMessages.Loop.{Content, parse_message, parse_messages}
use openim_sdk_core.NewMessages.Stored.{
  Faces, Parsed, Written, diff, diff_loop, batch_add_face_url_and_name, by_id, inherit_all,
  new_only, parse_all, write_parsed, do_msg_new,
}
use openim_sdk_core.NewMessages.Came.{CameTo}
use openim_sdk_core.NewMessages.Changed.{time_or, IsLatest, do_msg_new-Counted}

abbrev content : Content
content = record {
  populate = λ v. none;
  is_private = λ v. false;
  id = λ v. "x";
  seq_text = λ v. "";
  random = λ v. "";
}

abbrev faces : Faces
faces = record { users = λ ids. ok []; groups = λ ids. ok [] }

abbrev hello : Incoming
hello = record {
  client_msg_id = "c1";
  server_msg_id = "s1";
  send_id = "bob";
  recv_id = "ann";
  group_id = "";
  nickname = "Bob";
  face_url = "";
  session_type = 1;
  content_type = 101;
  seq = 6;
  send_time = 50;
  status = 2;
  options = [];
}

abbrev reply : Incoming
reply = record hello {
  client_msg_id = "c2";
  server_msg_id = "s2";
  send_id = "ann";
  recv_id = "bob";
  seq = 7;
  send_time = 60;
}

abbrev row : LocalConversation
row = record {
  conversation_id = "si_ann_bob";
  conversation_type = 1;
  user_id = "bob";
  group_id = "";
  show_name = "Bob";
  face_url = "";
  unread_count = 2;
  latest_msg = none;
  latest_msg_send_time = 40;
  recv_msg_opt = 0;
  group_at_type = 0;
  is_pinned = false;
  is_private_chat = false;
  burn_duration = 0;
  is_not_in_group = false;
  attached_info = "";
  ex = "";
  is_msg_destruct = false;
  msg_destruct_time = 0;
}

abbrev all : Map String (List Incoming)
all = ("si_ann_bob", hello ∷ reply ∷ []) ∷ []

abbrev nothing_stored : String → List String → List LocalChatLog
nothing_stored id ids = []

abbrev in_list : List String → Result (List LocalConversation)
in_list ids = ok (row ∷ [])

abbrev seqs : Map String ℕ
seqs = ("si_ann_bob", 5) ∷ []

abbrev parsed : Parsed
parsed = (do_msg_new content faces "ann" nothing_stored in_list all seqs).0

abbrev written : Written
written = write_parsed faces (row ∷ []) parsed

abbrev newer : LocalConversation
newer = record row {
  unread_count = 3;
  latest_msg = some (record { came = reply; status = 2; is_private_chat = false });
  latest_msg_send_time = 60;
}

changes : lookup "si_ann_bob" written.changed ≡ some newer
unfolding lookup insert get_switch_from_options get_seq incr_seq is_new_msg update_conversation
    parse_message parse_messages diff diff_loop batch_add_face_url_and_name by_id inherit_all
    new_only parse_all write_parsed do_msg_new slice_to_map
changes = refl

do_msg_new-Counted_example :
    (3 + 5 ≡ 2 + get_seq "si_ann_bob" parsed.gathered.seqs)
    × (60 ≡ max 40 (time_or (lookup "si_ann_bob" parsed.gathered.conversation_set)))
    × IsLatest
        (CameTo all "si_ann_bob")
        row
        (time_or (lookup "si_ann_bob" parsed.gathered.conversation_set))
        newer
unfolding lookup insert get_switch_from_options get_seq incr_seq is_new_msg update_conversation
    parse_message parse_messages diff diff_loop batch_add_face_url_and_name by_id inherit_all
    new_only parse_all write_parsed do_msg_new slice_to_map
do_msg_new-Counted_example =
    do_msg_new-Counted content faces "ann" nothing_stored in_list all seqs (row ∷ []) "si_ann_bob"
      row newer written ((refl, (refl, tt)), tt) refl refl refl refl
