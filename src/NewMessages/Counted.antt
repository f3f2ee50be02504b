-- ===== src/NewMessages/Counted.antt =====
-- Unread counts: the loop of `doMsgNew` of internal/conversation_msg/conversation_msg.go.
use openim_sdk_core.Prelude.{
  ℕ, ◌+◌, ◌≡◌, refl, sym, ap, subst, ◌∙◌, Bool, true, false, not, ◌||◌, List, [], ◌∷◌, ◌++◌, Option,
  none, some, String, string_eq, nat_eq, ◌==◌, if◌then◌else◌, if_both, All, arith,
}
use openim_sdk_core.Prelude.Map.{Map, lookup, insert, lookup-insert, beq_self}
use openim_sdk_core.History.{LocalChatLog}
use openim_sdk_core.MsgSyncer.Pull.{msg_status_has_deleted}
use openim_sdk_core.History.Pulled.{msg_status_send_success}
use openim_sdk_core.NewMessages.{
  Incoming, MsgStruct, LocalConversation, get_switch_from_options, or_zero, incr_seq,
  conversation_of, other_conversation, single_chat_type, is_group_type, notification_chat_type,
  msg_struct_to_local_chat_log, msg_status_filtered,
}
use openim_sdk_core.NewMessages.Loop.{
  Content, Gathered, Batch, exceptional, with_conversation, self_new, by_self, counts, count_unread,
  one_if, other_new, by_other, online_only, is_filtered, readable, populated, parse_message,
  parse_messages,
}
use openim_sdk_core.NewMessages.Joined.{
  seq_at, Counts, Counts-same, Counts-next, joined-Counts, self_joined,
}

-- What holds of each conversation that `other_conversation` may return.
pub other-all :
    (P : LocalConversation → Type 0) (id : String) (n : ℕ) (msg : MsgStruct)
    → ((user group name face : String)
        → P (record (conversation_of id msg) {
          unread_count = n;
          user_id = user;
          group_id = group;
          show_name = name;
          face_url = face;
        }))
    → P (other_conversation id n msg)
other-all P id n msg all =
    let lc = record (conversation_of id msg) { unread_count = n } in
    let t = msg.came.session_type in
    let notified =
      if t == notification_chat_type then record lc { user_id = msg.came.send_id } else lc in
    let grouped =
      if is_group_type t then record lc { group_id = msg.came.group_id } else notified in
    if_both P (t == single_chat_type)
      (record lc {
        user_id = msg.came.send_id;
        show_name = msg.came.nickname;
        face_url = msg.came.face_url;
      })
      grouped (all msg.came.send_id "" msg.came.nickname msg.came.face_url)
      (if_both P (is_group_type t) (record lc { group_id = msg.came.group_id }) notified
        (all "" msg.came.group_id "" "")
        (if_both P (t == notification_chat_type) (record lc { user_id = msg.came.send_id }) lc
          (all msg.came.send_id "" "" "") (all "" "" "" "")))

counted-seq :
    (id : String) (unread : Bool) (g : Gathered)
    → (seq_at id (count_unread id unread g) ≡ seq_at id g + one_if unread)
      × ((other : String)
          → id == other ≡ false
          → lookup other (count_unread id unread g).seqs ≡ lookup other g.seqs)
      × ((count_unread id unread g).conversation_set ≡ g.conversation_set)
unfolding incr_seq
counted-seq id true g =
    let next = or_zero (lookup id g.seqs) + 1 in
    let found : lookup id (insert id next g.seqs) ≡ some next =
      lookup-insert id id next g.seqs ∙ rw (beq_self id) refl in
    (ap or_zero found, λ other apart. lookup-insert id other next g.seqs ∙ rw apart refl, refl)
counted-seq id false g = (omega arith, λ other apart. refl, refl)

-- Where conversations are updated.
other_new-Counts :
    (id : String) (is_history unread : Bool) (msg : MsgStruct) (b : Batch)
    → Counts id b.all (other_new id is_history true unread msg b).all
other_new-Counts id is_history unread msg b =
    let g = count_unread id unread b.all in
    let lc = other_conversation id (one_if unread) msg in
    let (seq, others, same) = counted-seq id unread b.all in
    let joined =
      joined-Counts id lc (one_if unread) b.all g
        (other-all (λ c. c.conversation_id ≡ id) id (one_if unread) msg (λ u g' n f. refl))
        (other-all (λ c. c.unread_count ≡ one_if unread) id (one_if unread) msg (λ u g' n f. refl))
        same seq others in
    history is_history joined
  where
    history :
        (h : Bool)
        → Counts id b.all (
            with_conversation
              (other_conversation id (one_if unread) msg)
              (count_unread id unread b.all))
        → Counts id b.all (other_new id h true unread msg b).all
    history true c = c
    history false c = c

self_new-Counts :
    (id : String) (is_history is_update is_sender_update : Bool) (msg : MsgStruct) (b : Batch)
    → Counts id b.all (self_new id is_history is_update is_sender_update msg b).all
self_new-Counts id true true true msg b = self_joined id msg b.all
self_new-Counts id false true true msg b = self_joined id msg b.all
self_new-Counts id true true false msg b = Counts-same id b.all
self_new-Counts id false true false msg b = Counts-same id b.all
self_new-Counts id true false sender msg b = Counts-same id b.all
self_new-Counts id false false sender msg b = Counts-same id b.all

exceptional-Counts :
    (id : String) (content : Content) (existing : Option LocalChatLog) (msg : MsgStruct) (b : Batch)
    → Counts id b.all (exceptional content existing msg b).all
exceptional-Counts id content existing msg b = Counts-same id b.all

by_self-Counts :
    (content : Content) (id : String) (is_history is_update is_sender_update : Bool)
    (existing : Option LocalChatLog) (msg : MsgStruct) (b : Batch)
    → Counts id b.all (by_self content id is_history is_update is_sender_update existing msg b).all
by_self-Counts content id is_history is_update is_sender_update none msg b =
    self_new-Counts id is_history is_update is_sender_update msg b
by_self-Counts content id is_history is_update is_sender_update (some existing) msg b =
    if_both (λ r. Counts id b.all r.all) (existing.seq == 0)
      (record b { update_message = b.update_message ++ (msg_struct_to_local_chat_log msg ∷ []) })
      (exceptional content (some existing) msg b) (Counts-same id b.all)
      (exceptional-Counts id content (some existing) msg b)

by_other-Counts :
    (content : Content) (id : String) (is_history is_unread : Bool) (existing : Option LocalChatLog)
    (msg : MsgStruct) (b : Batch)
    → Counts id b.all (by_other content id is_history true is_unread existing msg b).all
by_other-Counts content id is_history is_unread none msg b =
    other_new-Counts id is_history (counts id is_unread msg b.all) msg b
by_other-Counts content id is_history is_unread (some existing) msg b =
    exceptional-Counts id content (some existing) msg b

online-Counts :
    (id : String) (is_history : Bool) (msg : MsgStruct) (b : Batch)
    → Counts id b.all (online_only is_history msg b).all
online-Counts id true msg b = Counts-same id b.all
online-Counts id false msg b = Counts-same id b.all

-- The switch "conversationUpdate" is on.
abbrev pub IsUpdating : Incoming → Type 0
IsUpdating v = get_switch_from_options v.options "conversationUpdate" ≡ true

readable-Counts :
    (content : Content) (user id : String) (stored : Map String LocalChatLog) (v : Incoming)
    (b : Batch)
    → IsUpdating v
    → Counts id b.all (readable content user id stored v b).all
readable-Counts content user id stored v b updating =
    let switch = get_switch_from_options v.options in
    let existing = lookup v.client_msg_id stored in
    let msg : MsgStruct = record {
      came = v;
      status =
          if is_filtered (v.send_id == user) (switch "conversationUpdate") existing
          then msg_status_filtered
          else msg_status_send_success;
      is_private_chat = not (switch "notPrivate") || content.is_private v;
    } in
    let b' = online_only (switch "history") msg b in
    Counts-next id b.all b'.all (readable content user id stored v b).all
      (online-Counts id (switch "history") msg b)
      (if_both (λ r. Counts id b'.all r.all) (v.send_id == user)
        (by_self content id (switch "history") (switch "conversationUpdate")
          (switch "senderConversationUpdate") existing msg b')
        (by_other content id (switch "history") (switch "conversationUpdate") (switch "unreadCount")
          existing msg b')
        (by_self-Counts content id (switch "history") (switch "conversationUpdate")
          (switch "senderConversationUpdate") existing msg b')
        (subst
          (λ u.
            Counts id b'.all
              (by_other content id (switch "history") u (switch "unreadCount") existing msg b').all)
          (sym updating)
          (by_other-Counts content id (switch "history") (switch "unreadCount") existing msg b')))

populated-Counts :
    (o : Option String) (content : Content) (user id : String) (stored : Map String LocalChatLog)
    (v : Incoming) (b : Batch)
    → IsUpdating v
    → Counts id b.all (populated o content user id stored v b).all
populated-Counts (some e) content user id stored v b updating = Counts-same id b.all
populated-Counts none content user id stored v b updating =
    if_both (λ r. Counts id b.all r.all) (id == "") b (readable content user id stored v b)
      (Counts-same id b.all) (readable-Counts content user id stored v b updating)

parse_message-Counts :
    (content : Content) (user id : String) (stored : Map String LocalChatLog) (v : Incoming)
    (b : Batch)
    → IsUpdating v
    → Counts id b.all (parse_message content user id stored v b).all
unfolding parse_message
parse_message-Counts content user id stored v b updating =
    let msg : MsgStruct = record { came = v; status = v.status; is_private_chat = false } in
    if_both (λ r. Counts id b.all r.all) (v.status == msg_status_has_deleted)
      (exceptional content none msg b) (populated (content.populate v) content user id stored v b)
      (exceptional-Counts id content none msg b)
      (populated-Counts (content.populate v) content user id stored v b updating)

pub parse_messages-Counts :
    (content : Content) (user id : String) (stored : Map String LocalChatLog) (vs : List Incoming)
    (b : Batch)
    → All IsUpdating vs
    → Counts id b.all (parse_messages content user id stored vs b).all
unfolding parse_messages
parse_messages-Counts content user id stored [] b updating = Counts-same id b.all
parse_messages-Counts content user id stored (v ∷ vs) b updating =
    Counts-next id b.all (parse_message content user id stored v b).all
      (parse_messages content user id stored vs (parse_message content user id stored v b)).all
      (parse_message-Counts content user id stored v b updating.0)
      (parse_messages-Counts content user id stored vs (parse_message content user id stored v b)
        updating.1)
