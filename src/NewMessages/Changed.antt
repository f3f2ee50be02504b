-- ===== src/NewMessages/Changed.antt =====
-- The conversations that `doMsgNew` changes: internal/conversation_msg/conversation_msg.go.
use openim_sdk_core.Prelude.{
  ℕ, Bool, ◌+◌, ◌≤◌, ◌<◌, ◌⊎◌, ◌≡◌, refl, sym, ap, subst, ◌∙◌, List, [], Option, none, some, String,
  string_eq, nat_eq, ltb, if◌then◌else◌, if_both, All, inl, inr, Bool-cases, arith, max,
}
use openim_sdk_core.Prelude.Map.{Map, lookup, keys}
use openim_sdk_core.Prelude.Outcome.{Result, ok}
use openim_sdk_core.History.{LocalChatLog}
use openim_sdk_core.NewMessages.{Incoming, LocalConversation, get_seq, merged}
use openim_sdk_core.NewMessages.Loop.{Content}
use openim_sdk_core.NewMessages.Joined.{unread_or, IsKeyed}
use openim_sdk_core.NewMessages.Counted.{IsUpdating}
use openim_sdk_core.NewMessages.Dated.{HasLatest}
use openim_sdk_core.NewMessages.Came.{CameTo, parse_all-IsDated}
use openim_sdk_core.NewMessages.Stored.{
  Faces, Written, diff, list_to_map, parse_all, write_parsed, with_list, nothing_parsed, do_msg_new,
}
use openim_sdk_core.NewMessages.Differing.{
  parse_all-Counts, changed_at, nothing-lookup, diff_loop-lookup,
}

abbrev pub time_or : Option LocalConversation → ℕ
time_or none = 0
time_or (some c) = c.latest_msg_send_time

merged-Counted :
    (v local : LocalConversation)
    → ((merged v local).unread_count ≡ local.unread_count + v.unread_count)
      × ((merged v local).latest_msg_send_time
          ≡ max local.latest_msg_send_time v.latest_msg_send_time)
merged-Counted v local =
    let counted = record local { unread_count = local.unread_count + v.unread_count } in
    let newer = record counted {
      latest_msg = v.latest_msg;
      latest_msg_send_time = v.latest_msg_send_time;
    } in
    let is_newer = ltb local.latest_msg_send_time v.latest_msg_send_time in
    (
      if_both (λ c. c.unread_count ≡ local.unread_count + v.unread_count) is_newer newer counted
          refl refl,
      elim (Bool-cases is_newer) [
        | inl later ↦
            ap (λ b. (if b then newer else counted).latest_msg_send_time) later ∙ ground arith
        | inr not_later ↦
            ap (λ b. (if b then newer else counted).latest_msg_send_time) not_later ∙ ground arith
      ],
    )

conversation_injective : (a b : LocalConversation) → some a ≡ some b → a ≡ b
conversation_injective a b h = cc

written_injective : (a b : Written) → ok a ≡ ok b → a ≡ b
written_injective a b h = cc

nothing-IsKeyed : IsKeyed []
unfolding lookup
nothing-IsKeyed = (tt, λ id c h. absurd (cc))

-- What became of the latest message: it is kept, or one that came to the conversation and is newer
-- is the latest.
abbrev pub IsLatest : (Incoming → Type 0) → LocalConversation → ℕ → LocalConversation → Type 0
IsLatest P local time c =
    ((time ≤ local.latest_msg_send_time) × (c.latest_msg ≡ local.latest_msg))
    ⊎ ((local.latest_msg_send_time < time) × HasLatest P c)

merged-IsLatest :
    (P : Incoming → Type 0) (v local : LocalConversation)
    → HasLatest P v
    → IsLatest P local v.latest_msg_send_time (merged v local)
merged-IsLatest P v local latest =
    let counted = record local { unread_count = local.unread_count + v.unread_count } in
    let newer = record counted {
      latest_msg = v.latest_msg;
      latest_msg_send_time = v.latest_msg_send_time;
    } in
    let result : Bool → Type 0 =
      λ b. IsLatest P local v.latest_msg_send_time (if b then newer else counted) in
    elim (Bool-cases (ltb local.latest_msg_send_time v.latest_msg_send_time)) [
      | inl later ↦ subst result (sym later) (inr (ground arith, latest))
      | inr not_later ↦ subst result (sym not_later) (inl (ground arith, refl))
    ]

-- A changed conversation adds up the counts and has the newer message and its time.
abbrev Changes :
    (Incoming → Type 0) → Option LocalConversation → LocalConversation → LocalConversation → Type 0
Changes P generated local c =
    (c.unread_count ≡ local.unread_count + unread_or generated)
    × (c.latest_msg_send_time ≡ max local.latest_msg_send_time (time_or generated))
    × IsLatest P local (time_or generated) c

changed-Changes :
    (P : Incoming → Type 0) (generated : Option LocalConversation) (local c : LocalConversation)
    → ((v : LocalConversation) → generated ≡ some v → HasLatest P v)
    → changed_at generated (some local) none ≡ some c
    → Changes P generated local c
changed-Changes P none local c latest h = absurd (cc)
changed-Changes P (some v) local c latest h =
    let (counted, time) = merged-Counted v local in
    subst (Changes P (some v) local) (conversation_injective (merged v local) c h)
      (counted, time, merged-IsLatest P v local (latest v refl))

-- The unread count of a conversation in the table grows by just as much as the recorder of its
-- maximal number does, whatever messages come, in however many conversations, with whatever is
-- stored and whatever `PopulateMsgStructByContentType` refuses. Its latest message is kept, and so
-- is its time, unless the one that was gathered from what came is newer; then a message that came
-- to this conversation is the latest, and the time is its own. This is for messages that update
-- their conversations, a table that can be read, and a conversation that is changed.
pub do_msg_new-Counted :
    (content : Content) (faces : Faces) (user : String)
    (in_db : String → List String → List LocalChatLog)
    (in_list : List String → Result (List LocalConversation)) (all : Map String (List Incoming))
    (seqs : Map String ℕ) (list : List LocalConversation) (id : String)
    (local c : LocalConversation) (written : Written)
    → All (λ (batch : String × List Incoming). All IsUpdating batch.1) all
    → in_list (keys all) ≡ ok list
    → lookup id (list_to_map list) ≡ some local
    → (do_msg_new content faces user in_db in_list all seqs).1 ≡ ok written
    → lookup id written.changed ≡ some c
    → let gathered = (do_msg_new content faces user in_db in_list all seqs).0.gathered in
      let time = time_or (lookup id gathered.conversation_set) in
      (c.unread_count + get_seq id seqs ≡ local.unread_count + get_seq id gathered.seqs)
      × (c.latest_msg_send_time ≡ max local.latest_msg_send_time time)
      × IsLatest (CameTo all id) local time c
unfolding do_msg_new write_parsed diff get_seq
do_msg_new-Counted content faces user in_db in_list all seqs list id local c written updating read
      there writes changed =
    let p = parse_all content user in_db all (nothing_parsed seqs) in
    let (total, keyed) =
      parse_all-Counts content user in_db all (nothing_parsed seqs) id updating nothing-IsKeyed in
    let wrote : write_parsed faces list p ≡ written =
      written_injective (write_parsed faces list p) written
        (sym (ap (with_list faces p) read) ∙ writes) in
    let at : changed_at (lookup id p.gathered.conversation_set) (some local) none ≡ some c =
      sym (
        diff_loop-lookup (list_to_map list) p.gathered.conversation_set [] [] id keyed
        ∙ ap (λ o. changed_at (lookup id p.gathered.conversation_set) o (lookup id [])) there
        ∙ ap (changed_at (lookup id p.gathered.conversation_set) (some local)) (nothing-lookup id))
      ∙ ap (λ w. lookup id w.changed) wrote
      ∙ changed in
    let dated = parse_all-IsDated content user in_db all (nothing_parsed seqs) refl in
    let (counted, time, latest) =
      changed-Changes (CameTo all id) (lookup id p.gathered.conversation_set) local c
        (λ v e. dated id v e) at in
    let start = ap unread_or (nothing-lookup id) in
    (omega (arith, total, counted, start), time, latest)
