-- ===== src/NewMessages/Dated.antt =====
-- Latest messages: the loop of `doMsgNew` of internal/conversation_msg/conversation_msg.go.
use openim_sdk_core.Prelude.{
  ℕ, ◌+◌, ◌≡◌, refl, sym, subst, ◌∙◌, Bool, true, false, not, ◌||◌, List, [], ◌∷◌, ◌++◌, Option,
  none, some, String, string_eq, nat_eq, ◌==◌, ltb, if◌then◌else◌, if_both, All, inl, inr,
  Bool-cases,
}
use openim_sdk_core.Prelude.Map.{Map, lookup, lookup-insert}
use openim_sdk_core.History.{LocalChatLog}
use openim_sdk_core.MsgSyncer.Pull.{msg_status_has_deleted}
use openim_sdk_core.History.Pulled.{msg_status_send_success}
use openim_sdk_core.NewMessages.{
  Incoming, MsgStruct, LocalConversation, get_switch_from_options, conversation_of,
  self_conversation, other_conversation, merged, merged_or, update_conversation, single_chat_type,
  is_group_type, msg_struct_to_local_chat_log, msg_status_filtered,
}
use openim_sdk_core.NewMessages.Loop.{
  Content, Gathered, Batch, exceptional, with_conversation, self_new, by_self, counts, count_unread,
  one_if, other_new, by_other, online_only, is_filtered, readable, populated, parse_message,
  parse_messages,
}
use openim_sdk_core.NewMessages.Joined.{self-id}
use openim_sdk_core.NewMessages.Counted.{other-all}

-- The latest message is one that came, and the conversation has its time.
abbrev pub HasLatest : (Incoming → Type 0) → LocalConversation → Type 0
HasLatest P c =
    (msg : MsgStruct) × (c.latest_msg ≡ some msg)
    × (c.latest_msg_send_time ≡ msg.came.send_time)
    × P msg.came

-- So it is in every conversation of the map; what came may depend on the conversation.
abbrev pub IsDated : (String → Incoming → Type 0) → Map String LocalConversation → Type 0
IsDated P cs = (id : String) (c : LocalConversation) → lookup id cs ≡ some c → HasLatest (P id) c

module _ (P : Incoming → Type 0) where
  merged-HasLatest :
      (lc old : LocalConversation) → HasLatest P lc → HasLatest P old → HasLatest P (merged lc old)
  merged-HasLatest lc old new kept =
      let counted = record old { unread_count = old.unread_count + lc.unread_count } in
      if_both (HasLatest P) (ltb old.latest_msg_send_time lc.latest_msg_send_time)
        (record counted {
          latest_msg = lc.latest_msg;
          latest_msg_send_time = lc.latest_msg_send_time;
        })
        counted new kept

  merged_or-HasLatest :
      (lc : LocalConversation) (o : Option LocalConversation)
      → HasLatest P lc
      → ((c : LocalConversation) → o ≡ some c → HasLatest P c)
      → HasLatest P (merged_or lc o)
  merged_or-HasLatest lc none new kept = new
  merged_or-HasLatest lc (some old) new kept = merged-HasLatest lc old new (kept old refl)

  self-HasLatest :
      (id : String) (msg : MsgStruct) → P msg.came → HasLatest P (self_conversation id msg)
  self-HasLatest id msg came =
      let lc = conversation_of id msg in
      let grouped = record lc { group_id = msg.came.group_id } in
      if_both (HasLatest P) (msg.came.session_type == single_chat_type)
        (record lc { user_id = msg.came.recv_id })
        (if is_group_type msg.came.session_type then grouped else lc) (msg, refl, refl, came)
        (if_both (HasLatest P) (is_group_type msg.came.session_type) grouped lc
          (msg, refl, refl, came) (msg, refl, refl, came))

  other-HasLatest :
      (id : String) (n : ℕ) (msg : MsgStruct)
      → P msg.came
      → HasLatest P (other_conversation id n msg)
  other-HasLatest id n msg came =
      other-all (HasLatest P) id n msg (λ user group name face. (msg, refl, refl, came))

conversation_same : (a b : LocalConversation) → some a ≡ some b → a ≡ b
conversation_same a b h = cc

module _ (P : String → Incoming → Type 0) (id : String) where
  -- A conversation of the one at hand joins the others.
  joined-IsDated :
      (lc : LocalConversation) (g : Gathered)
      → lc.conversation_id ≡ id
      → HasLatest (P id) lc
      → IsDated P g.conversation_set
      → IsDated P (with_conversation lc g).conversation_set
  unfolding update_conversation
  joined-IsDated lc g own new dated other c h =
      let key = lc.conversation_id in
      let cs = g.conversation_set in
      let joined = merged_or lc (lookup key cs) in
      elim (Bool-cases (key == other)) [
        | inl same ↦
            let one : key ≡ other = (string_eq.beq_iff key other).0 same in
            let got : some joined ≡ some c =
              sym (lookup-insert key other joined cs ∙ rw same refl) ∙ h in
            subst (λ k. HasLatest (P k) c) (sym own ∙ one)
              (subst (HasLatest (P id)) (conversation_same joined c got) (
                merged_or-HasLatest (P id) lc (lookup key cs) new
                  (λ old e. subst (λ k. HasLatest (P k) old) own (dated key old e))))
        | inr apart ↦ dated other c (sym (lookup-insert key other joined cs ∙ rw apart refl) ∙ h)
      ]

  -- A step keeps it.
  abbrev Keeps : Gathered → Gathered → Type 0
  Keeps g g' = IsDated P g.conversation_set → IsDated P g'.conversation_set

  self_new-Keeps :
      (is_history is_update is_sender_update : Bool) (msg : MsgStruct) (b : Batch)
      → P id msg.came
      → Keeps b.all (self_new id is_history is_update is_sender_update msg b).all
  self_new-Keeps true true true msg b came dated =
      joined-IsDated (self_conversation id msg) b.all (self-id id msg)
        (self-HasLatest (P id) id msg came) dated
  self_new-Keeps false true true msg b came dated =
      joined-IsDated (self_conversation id msg) b.all (self-id id msg)
        (self-HasLatest (P id) id msg came) dated
  self_new-Keeps true true false msg b came dated = dated
  self_new-Keeps false true false msg b came dated = dated
  self_new-Keeps true false sender msg b came dated = dated
  self_new-Keeps false false sender msg b came dated = dated

  counted-Keeps : (unread : Bool) (g : Gathered) → Keeps g (count_unread id unread g)
  counted-Keeps true g dated = dated
  counted-Keeps false g dated = dated

  other_joined :
      (unread : Bool) (msg : MsgStruct) (g : Gathered)
      → P id msg.came
      → Keeps g
          (with_conversation (other_conversation id (one_if unread) msg) (count_unread id unread g))
  other_joined unread msg g came dated =
      joined-IsDated (other_conversation id (one_if unread) msg) (count_unread id unread g)
        (other-all (λ c. c.conversation_id ≡ id) id (one_if unread) msg (λ u g' n f. refl))
        (other-HasLatest (P id) id (one_if unread) msg came) (counted-Keeps unread g dated)

  other_new-Keeps :
      (is_history is_update unread : Bool) (msg : MsgStruct) (b : Batch)
      → P id msg.came
      → Keeps b.all (other_new id is_history is_update unread msg b).all
  other_new-Keeps true true unread msg b came dated = other_joined unread msg b.all came dated
  other_new-Keeps false true unread msg b came dated = other_joined unread msg b.all came dated
  other_new-Keeps true false unread msg b came dated = counted-Keeps unread b.all dated
  other_new-Keeps false false unread msg b came dated = counted-Keeps unread b.all dated

  by_self-Keeps :
      (content : Content) (is_history is_update is_sender_update : Bool)
      (existing : Option LocalChatLog) (msg : MsgStruct) (b : Batch)
      → P id msg.came
      → Keeps b.all (by_self content id is_history is_update is_sender_update existing msg b).all
  by_self-Keeps content is_history is_update is_sender_update none msg b came =
      self_new-Keeps is_history is_update is_sender_update msg b came
  by_self-Keeps content is_history is_update is_sender_update (some existing) msg b came =
      if_both (λ r. Keeps b.all r.all) (existing.seq == 0)
        (record b { update_message = b.update_message ++ (msg_struct_to_local_chat_log msg ∷ []) })
        (exceptional content (some existing) msg b) (λ dated. dated) (λ dated. dated)

  by_other-Keeps :
      (content : Content) (is_history is_update is_unread : Bool) (existing : Option LocalChatLog)
      (msg : MsgStruct) (b : Batch)
      → P id msg.came
      → Keeps b.all (by_other content id is_history is_update is_unread existing msg b).all
  by_other-Keeps content is_history is_update is_unread none msg b came =
      other_new-Keeps is_history is_update (counts id is_unread msg b.all) msg b came
  by_other-Keeps content is_history is_update is_unread (some existing) msg b came = λ dated. dated

  online-Keeps :
      (is_history : Bool) (msg : MsgStruct) (b : Batch)
      → Keeps b.all (online_only is_history msg b).all
  online-Keeps true msg b dated = dated
  online-Keeps false msg b dated = dated

  module _ (content : Content) (user : String) (stored : Map String LocalChatLog) where
    readable-Keeps :
        (v : Incoming) (b : Batch) → P id v → Keeps b.all (readable content user id stored v b).all
    readable-Keeps v b came dated =
        let switch = get_switch_from_options v.options in
        let existing = lookup v.client_msg_id stored in
        let msg : MsgStruct = record {
          came = v;
          status =
              if is_filtered (v.send_id == user) (switch "conversationUpdate") existing
              then msg_status_filtered
              else msg_status_send_success;
          is_private_chat = not (switch "notPrivate") || content.is_private v;
        } in
        let b' = online_only (switch "history") msg b in
        if_both (λ r. IsDated P r.all.conversation_set) (v.send_id == user)
          (by_self content id (switch "history") (switch "conversationUpdate")
            (switch "senderConversationUpdate") existing msg b')
          (by_other content id (switch "history") (switch "conversationUpdate")
            (switch "unreadCount") existing msg b')
          (by_self-Keeps content (switch "history") (switch "conversationUpdate")
            (switch "senderConversationUpdate") existing msg b' came
            (online-Keeps (switch "history") msg b dated))
          (by_other-Keeps content (switch "history") (switch "conversationUpdate")
            (switch "unreadCount") existing msg b' came
            (online-Keeps (switch "history") msg b dated))

    populated-Keeps :
        (o : Option String) (v : Incoming) (b : Batch)
        → P id v
        → Keeps b.all (populated o content user id stored v b).all
    populated-Keeps (some e) v b came dated = dated
    populated-Keeps none v b came dated =
        if_both (λ r. IsDated P r.all.conversation_set) (id == "") b
          (readable content user id stored v b) dated (readable-Keeps v b came dated)

    pub parse_messages-Keeps :
        (vs : List Incoming) (b : Batch)
        → All (P id) vs
        → Keeps b.all (parse_messages content user id stored vs b).all
    unfolding parse_messages parse_message
    parse_messages-Keeps [] b came dated = dated
    parse_messages-Keeps (v ∷ vs) b came dated =
        let msg : MsgStruct = record { came = v; status = v.status; is_private_chat = false } in
        parse_messages-Keeps vs (parse_message content user id stored v b) came.1 (
          if_both (λ r. IsDated P r.all.conversation_set) (v.status == msg_status_has_deleted)
            (exceptional content none msg b)
            (populated (content.populate v) content user id stored v b) dated
            (populated-Keeps (content.populate v) v b came.0 dated))
