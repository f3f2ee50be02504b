-- ===== src/NewMessages/Stored.antt =====
-- What `doMsgNew` does after its loop: internal/conversation_msg/conversation_msg.go.
use openim_sdk_core.Prelude.{
  ℕ, Bool, false, ◌||◌, List, [], ◌∷◌, ◌++◌, Option, none, some, String, string_eq, nat_eq, ◌==◌,
  if◌then◌else◌, map,
}
use openim_sdk_core.Prelude.Map.{Map, lookup, insert, values, keys}
use openim_sdk_core.Prelude.Outcome.{Result, ok, err}
use openim_sdk_core.History.{LocalChatLog}
use openim_sdk_core.History.Pulled.{slice_to_map}
use openim_sdk_core.NewMessages.{
  Incoming, LocalConversation, single_chat_type, read_group_chat_type, notification_chat_type,
  merged,
}
use openim_sdk_core.NewMessages.Loop.{Content, Gathered, parse_messages}

-- A conversation in the table is changed, and any other is new.
abbrev pub diff_one :
    Option LocalConversation
    → LocalConversation
    → Map String LocalConversation × List LocalConversation
    → Map String LocalConversation × List LocalConversation
diff_one (some local) v (cc, news) = (insert v.conversation_id (merged v local) cc, news)
diff_one none v (cc, news) = (cc, news ++ (v ∷ []))

-- The loop of `diff`.
unfoldable pub diff_loop :
    Map String LocalConversation
    → Map String LocalConversation
    → Map String LocalConversation × List LocalConversation
    → Map String LocalConversation × List LocalConversation
diff_loop local [] acc = acc
diff_loop local ((k, v) ∷ generated) acc =
    diff_loop local generated (diff_one (lookup v.conversation_id local) v acc)

-- A name and the address of a picture.
pub record Face : Type 0 where
  pub name : String
  pub face_url : String

-- What `batchGetUserNameAndFaceURL` and `GetSpecifiedGroupsInfoSafe` return.
pub record Faces : Type 0 where
  pub users : List String → Result (Map String Face)
  pub groups : List String → Result (Map String Face)

abbrev pub is_user_type : ℕ → Bool
is_user_type t = t == single_chat_type || t == notification_chat_type

abbrev pub user_ids : List LocalConversation → List String
user_ids [] = []
user_ids (c ∷ cs) =
    let rest = user_ids cs in if is_user_type c.conversation_type then c.user_id ∷ rest else rest

abbrev pub group_ids : List LocalConversation → List String
group_ids [] = []
group_ids (c ∷ cs) =
    let rest = group_ids cs in
    if is_user_type c.conversation_type
    then rest
    else if c.conversation_type == read_group_chat_type
    then c.group_id ∷ rest
    else rest

abbrev pub user_face : Option Face → LocalConversation → LocalConversation
user_face none c = record c { face_url = ""; show_name = "UserNotFound" }
user_face (some face) c = record c { face_url = face.face_url; show_name = face.name }

abbrev pub group_face : Option Face → LocalConversation → LocalConversation
group_face none c = c
group_face (some face) c = record c { face_url = face.face_url; show_name = face.name }

abbrev pub add_face : Map String Face → Map String Face → LocalConversation → LocalConversation
add_face users groups c =
    if is_user_type c.conversation_type
    then user_face (lookup c.user_id users) c
    else if c.conversation_type == read_group_chat_type
    then group_face (lookup c.group_id groups) c
    else c

abbrev pub with_faces :
    Result (Map String Face)
    → Result (Map String Face)
    → List LocalConversation
    → Result (List LocalConversation)
with_faces (err e) groups cs = err e
with_faces (ok users) (err e) cs = err e
with_faces (ok users) (ok groups) cs = ok (map (add_face users groups) cs)

-- `batchAddFaceURLAndName`.
unfoldable pub batch_add_face_url_and_name :
    Faces → List LocalConversation → Result (List LocalConversation)
batch_add_face_url_and_name faces [] = ok []
batch_add_face_url_and_name faces (c ∷ cs) =
    with_faces (faces.users (user_ids (c ∷ cs))) (faces.groups (group_ids (c ∷ cs))) (c ∷ cs)

unfoldable pub by_id :
    List LocalConversation → Map String LocalConversation → Map String LocalConversation
by_id [] m = m
by_id (c ∷ cs) m = by_id cs (insert c.conversation_id c m)

abbrev pub named_or_none : Result (List LocalConversation) → Map String LocalConversation
named_or_none (ok cs) = by_id cs []
named_or_none (err e) = []

-- `diff`: the changed conversations and the new ones.
unfoldable pub diff :
    Faces
    → Map String LocalConversation
    → Map String LocalConversation
    → Map String LocalConversation × Map String LocalConversation
diff faces local generated =
    let (cc, news) = diff_loop local generated ([], []) in
    (cc, named_or_none (batch_add_face_url_and_name faces news))

-- The conversations whose latest message has no time.
abbrev pub h_list : List LocalConversation → List LocalConversation
h_list [] = []
h_list (c ∷ cs) = let rest = h_list cs in if c.latest_msg_send_time == 0 then c ∷ rest else rest

-- What a new conversation takes from such a one.
abbrev pub inherit : LocalConversation → LocalConversation → LocalConversation
inherit v nc = record nc {
  recv_msg_opt = v.recv_msg_opt;
  group_at_type = v.group_at_type;
  is_pinned = v.is_pinned;
  is_private_chat = v.is_private_chat;
  burn_duration = if v.is_private_chat then v.burn_duration else nc.burn_duration;
  unread_count = if v.unread_count == 0 then nc.unread_count else v.unread_count;
  is_not_in_group = v.is_not_in_group;
  attached_info = v.attached_info;
  ex = v.ex;
  is_msg_destruct = v.is_msg_destruct;
  msg_destruct_time = v.msg_destruct_time;
}

abbrev pub inherit_found :
    Option LocalConversation
    → LocalConversation
    → Map String LocalConversation × Map String LocalConversation
    → Map String LocalConversation × Map String LocalConversation
inherit_found none v (ph, nc) = (ph, nc)
inherit_found (some c) v (ph, nc) =
    (insert v.conversation_id (inherit v c) ph, insert v.conversation_id (inherit v c) nc)

-- The loop over `hList`: `phConversationChangedSet` and `newConversationSet`, which share their
-- conversations.
unfoldable pub inherit_all :
    List LocalConversation
    → Map String LocalConversation × Map String LocalConversation
    → Map String LocalConversation × Map String LocalConversation
inherit_all [] acc = acc
inherit_all (v ∷ hs) (ph, nc) =
    inherit_all hs (inherit_found (lookup v.conversation_id nc) v (ph, nc))

abbrev pub unless_there :
    Option LocalConversation
    → String
    → LocalConversation
    → Map String LocalConversation
    → Map String LocalConversation
unless_there none k v m = insert k v m
unless_there (some c) k v m = m

-- `phNewConversationSet`.
unfoldable pub new_only :
    Map String LocalConversation
    → Map String LocalConversation
    → Map String LocalConversation
    → Map String LocalConversation
new_only ph [] m = m
new_only ph ((k, v) ∷ nc) m = new_only ph nc (unless_there (lookup v.conversation_id ph) k v m)

-- The messages to insert and to update, by conversation, with what the loop gathered.
pub record Parsed : Type 0 where
  pub insert_msg : Map String (List LocalChatLog)
  pub update_msg : Map String (List LocalChatLog)
  pub gathered : Gathered

abbrev pub unless_empty :
    String → List LocalChatLog → Map String (List LocalChatLog) → Map String (List LocalChatLog)
unless_empty id [] m = m
unless_empty id (msg ∷ msgs) m = insert id (msg ∷ msgs) m

-- `in_db` is what `GetMessagesByClientMsgIDs` returns for a conversation, empty when it fails.
abbrev pub parse_conversation :
    Content
    → String
    → (String → List String → List LocalChatLog)
    → String
    → List Incoming
    → Parsed
    → Parsed
parse_conversation content user in_db id vs p =
    let ids = map (λ (v : Incoming). v.client_msg_id) vs in
    let b = parse_messages content user id (slice_to_map (in_db id ids) []) vs (record {
      insert_message = [];
      self_insert_message = [];
      others_insert_message = [];
      update_message = [];
      all = p.gathered;
    }) in
    record {
      -- The names that `faceURLAndNicknameHandle` fills in are left out.
      insert_msg =
          insert id (b.insert_message ++ (b.self_insert_message ++ b.others_insert_message))
            p.insert_msg;
      update_msg = unless_empty id b.update_message p.update_msg;
      gathered = b.all;
    }

-- The loop over the conversations.
unfoldable pub parse_all :
    Content
    → String
    → (String → List String → List LocalChatLog)
    → Map String (List Incoming)
    → Parsed
    → Parsed
parse_all content user in_db [] p = p
parse_all content user in_db ((id, vs) ∷ all) p =
    parse_all content user in_db all (parse_conversation content user in_db id vs p)

-- What is written and announced.
pub record Written : Type 0 where
  pub insert_msg : Map String (List LocalChatLog)
  pub update_msg : Map String (List LocalChatLog)
  pub changed : Map String LocalConversation
  pub new : Map String LocalConversation
  pub batch_updated : List LocalConversation
  pub batch_inserted : List LocalConversation

abbrev pub list_to_map : List LocalConversation → Map String LocalConversation
list_to_map list = by_id list []

unfoldable pub write_parsed : Faces → List LocalConversation → Parsed → Written
write_parsed faces list p =
    let (cc, nc) = diff faces (list_to_map list) p.gathered.conversation_set in
    let (ph, nc') = inherit_all (h_list list) ([], nc) in
    record {
      insert_msg = p.insert_msg;
      update_msg = p.update_msg;
      changed = cc;
      new = nc';
      batch_updated = values cc ++ values ph;
      batch_inserted = values (new_only ph nc' []);
    }

abbrev pub with_list : Faces → Parsed → Result (List LocalConversation) → Result Written
with_list faces p (err e) = err e
with_list faces p (ok list) = ok (write_parsed faces list p)

abbrev pub nothing_parsed : Map String ℕ → Parsed
nothing_parsed seqs = record {
  insert_msg = [];
  update_msg = [];
  gathered = record {
    exception_msg = [];
    new_messages = [];
    conversation_set = [];
    online_map = [];
    is_trigger_unread_count = false;
    seqs = seqs;
  };
}

-- `doMsgNew` up to what it writes, with what its loop gathered: `in_list` is what
-- `GetMultipleConversationDB` returns; when it fails nothing is written or announced.
unfoldable pub do_msg_new :
    Content
    → Faces
    → String
    → (String → List String → List LocalChatLog)
    → (List String → Result (List LocalConversation))
    → Map String (List Incoming)
    → Map String ℕ
    → Parsed × Result Written
do_msg_new content faces user in_db in_list all seqs =
    let p = parse_all content user in_db all (nothing_parsed seqs) in
    (p, with_list faces p (in_list (keys all)))
