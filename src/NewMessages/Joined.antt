-- ===== src/NewMessages/Joined.antt =====
-- Unread counts: the loop of `doMsgNew` of internal/conversation_msg/conversation_msg.go.
use openim_sdk_core.Prelude.{
  ℕ, ◌+◌, ◌≡◌, refl, sym, ap, subst, ◌∙◌, false, Option, none, some, String, string_eq, nat_eq,
  ◌==◌, ltb, if◌then◌else◌, if_both, inl, inr, Bool-cases, arith,
}
use openim_sdk_core.Prelude.Map.{
  Map, lookup, insert, lookup-insert, beq_self, Distinct, insert-Distinct,
}
use openim_sdk_core.NewMessages.{
  MsgStruct, LocalConversation, or_zero, conversation_of, self_conversation, merged, merged_or,
  update_conversation, single_chat_type, is_group_type,
}
use openim_sdk_core.NewMessages.Loop.{Gathered, with_conversation}

abbrev pub unread_or : Option LocalConversation → ℕ
unread_or none = 0
unread_or (some c) = c.unread_count

abbrev pub unread_at : String → Gathered → ℕ
unread_at id g = unread_or (lookup id g.conversation_set)

abbrev pub seq_at : String → Gathered → ℕ
seq_at id g = or_zero (lookup id g.seqs)

abbrev id_or : String → Option LocalConversation → String
id_or default none = default
id_or default (some c) = c.conversation_id

-- The conversations stand under their own ids, each once.
abbrev pub IsKeyed : Map String LocalConversation → Type 0
IsKeyed cs =
    Distinct cs
    × ((id : String) (c : LocalConversation) → lookup id cs ≡ some c → c.conversation_id ≡ id)

-- A step on the conversation `id`: its unread count and the recorder grow alike, and other
-- conversations are as they were.
abbrev pub Counts : String → Gathered → Gathered → Type 0
Counts id g g' =
    (unread_at id g' + seq_at id g ≡ unread_at id g + seq_at id g')
    × ((other : String)
        → id == other ≡ false
        → (lookup other g'.conversation_set ≡ lookup other g.conversation_set)
          × (lookup other g'.seqs ≡ lookup other g.seqs))
    × (IsKeyed g.conversation_set → IsKeyed g'.conversation_set)

pub Counts-same : (id : String) (g : Gathered) → Counts id g g
Counts-same id g = (refl, λ other apart. (refl, refl), λ keyed. keyed)

pub Counts-next : (id : String) (g h k : Gathered) → Counts id g h → Counts id h k → Counts id g k
Counts-next id g h k (total, others, keyed) (total', others', keyed') = (
  omega (arith, total, total'),
  λ other apart. (
    (others' other apart).0 ∙ (others other apart).0,
    (others' other apart).1 ∙ (others other apart).1,
  ),
  λ is_keyed. keyed' (keyed is_keyed),
)

merged_or-unread :
    (lc : LocalConversation) (o : Option LocalConversation)
    → (merged_or lc o).unread_count ≡ unread_or o + lc.unread_count
merged_or-unread lc none = omega arith
merged_or-unread lc (some old) =
    let counted = record old { unread_count = old.unread_count + lc.unread_count } in
    if_both (λ c. c.unread_count ≡ old.unread_count + lc.unread_count)
      (ltb old.latest_msg_send_time lc.latest_msg_send_time)
      (record counted {
        latest_msg = lc.latest_msg;
        latest_msg_send_time = lc.latest_msg_send_time;
      })
      counted refl refl

merged-id : (lc old : LocalConversation) → (merged lc old).conversation_id ≡ old.conversation_id
merged-id lc old =
    let counted = record old { unread_count = old.unread_count + lc.unread_count } in
    if_both (λ c. c.conversation_id ≡ old.conversation_id)
      (ltb old.latest_msg_send_time lc.latest_msg_send_time)
      (record counted {
        latest_msg = lc.latest_msg;
        latest_msg_send_time = lc.latest_msg_send_time;
      })
      counted refl refl

merged_or-id :
    (lc : LocalConversation) (o : Option LocalConversation)
    → ((c : LocalConversation) → o ≡ some c → c.conversation_id ≡ lc.conversation_id)
    → (merged_or lc o).conversation_id ≡ lc.conversation_id
merged_or-id lc none own = refl
merged_or-id lc (some old) own = merged-id lc old ∙ own old refl

update-IsKeyed :
    (lc : LocalConversation) (cs : Map String LocalConversation)
    → IsKeyed cs
    → IsKeyed (update_conversation lc cs)
unfolding update_conversation
update-IsKeyed lc cs (distinct, own) =
    let new = merged_or lc (lookup lc.conversation_id cs) in
    let key : new.conversation_id ≡ lc.conversation_id =
      merged_or-id lc (lookup lc.conversation_id cs) (λ c e. own lc.conversation_id c e) in
    (
      insert-Distinct lc.conversation_id new cs distinct,
      λ id c h. elim (Bool-cases (lc.conversation_id == id)) [
        | inl same ↦
            let got : some new ≡ some c =
              sym (lookup-insert lc.conversation_id id new cs ∙ rw same refl) ∙ h in
            sym (ap (id_or id) got) ∙ key ∙ (string_eq.beq_iff lc.conversation_id id).0 same
        | inr apart ↦
            own id c (sym (lookup-insert lc.conversation_id id new cs ∙ rw apart refl) ∙ h)
      ],
    )

-- A conversation that joins the others.
pub joined-Counts :
    (id : String) (lc : LocalConversation) (n : ℕ) (g g' : Gathered)
    → lc.conversation_id ≡ id
    → lc.unread_count ≡ n
    → g'.conversation_set ≡ g.conversation_set
    → seq_at id g' ≡ seq_at id g + n
    → ((other : String) → id == other ≡ false → lookup other g'.seqs ≡ lookup other g.seqs)
    → Counts id g (with_conversation lc g')
unfolding update_conversation
joined-Counts id lc n g g' own unread same seq others =
    let cs = g'.conversation_set in
    let new = merged_or lc (lookup lc.conversation_id cs) in
    let mine : lookup id (insert lc.conversation_id new cs) ≡ some new =
      lookup-insert lc.conversation_id id new cs
      ∙ ap (λ k. if k == id then some new else lookup id cs) own
      ∙ rw (beq_self id) refl in
    let before : unread_or (lookup lc.conversation_id cs) ≡ unread_at id g =
      ap (λ k. unread_or (lookup k cs)) own ∙ ap (λ m. unread_or (lookup id m)) same in
    let now = merged_or-unread lc (lookup lc.conversation_id cs) in
    (
      rw (ap unread_or mine) (omega (arith, now, before, unread, seq)),
      λ other apart. (
        lookup-insert lc.conversation_id other new cs
            ∙ ap (λ k. if k == other then some new else lookup other cs) own
            ∙ rw apart (ap (lookup other) same),
        others other apart,
      ),
      λ keyed. update-IsKeyed lc cs (subst IsKeyed (sym same) keyed),
    )

pub self-id : (id : String) (msg : MsgStruct) → (self_conversation id msg).conversation_id ≡ id
self-id id msg =
    let lc = conversation_of id msg in
    if_both (λ c. c.conversation_id ≡ id) (msg.came.session_type == single_chat_type)
      (record lc { user_id = msg.came.recv_id })
      (if is_group_type msg.came.session_type
        then record lc { group_id = msg.came.group_id }
        else lc)
      refl
      (if_both (λ c. c.conversation_id ≡ id) (is_group_type msg.came.session_type)
        (record lc { group_id = msg.came.group_id }) lc refl refl)

self-unread : (id : String) (msg : MsgStruct) → (self_conversation id msg).unread_count ≡ 0
self-unread id msg =
    let lc = conversation_of id msg in
    if_both (λ c. c.unread_count ≡ 0) (msg.came.session_type == single_chat_type)
      (record lc { user_id = msg.came.recv_id })
      (if is_group_type msg.came.session_type
        then record lc { group_id = msg.came.group_id }
        else lc)
      refl
      (if_both (λ c. c.unread_count ≡ 0) (is_group_type msg.came.session_type)
        (record lc { group_id = msg.came.group_id }) lc refl refl)

pub self_joined :
    (id : String) (msg : MsgStruct) (g : Gathered)
    → Counts id g (with_conversation (self_conversation id msg) g)
self_joined id msg g =
    joined-Counts id (self_conversation id msg) 0 g g (self-id id msg) (self-unread id msg) refl
      (omega arith) (λ other apart. refl)
