-- ===== src/History/Pulled/Tallied.antt =====
-- That each pulled message is kept in one place: the branches of `pullMessageIntoTable` of
-- internal/conversation_msg/message_check.go, by the numbers and times of the messages.
use openim_sdk_core.Prelude.{
  ℕ, ◌+◌, ◌≡◌, Bool, true, false, ◌&&◌, List, [], ◌∷◌, ◌++◌, Option, none, some, String, string_eq,
  nat_eq, ◌==◌, if◌then◌else◌, if_both, arith, map,
}
use openim_sdk_core.Prelude.Map.{Map, lookup}
use openim_sdk_core.MsgSyncer.{MsgData}
use openim_sdk_core.MsgSyncer.Pull.{msg_status_has_deleted}
use openim_sdk_core.History.{LocalChatLog}
use openim_sdk_core.History.Exceptions.{handle_exception_messages}
use openim_sdk_core.History.Pulled.{
  Classes, Generated, msg_data_to_local_chat_log, renamed, process, exceptional, deleted, kept,
  by_sender, by_processed, classify_one, classify_all,
}

-- One for a message with the number and the time, and else zero.
abbrev pub one : ℕ → ℕ → LocalChatLog → ℕ
one seq time msg = if msg.seq == seq && msg.send_time == time then 1 else 0

-- How many messages have the number and the time.
abbrev pub tally : ℕ → ℕ → List LocalChatLog → ℕ
tally seq time [] = 0
tally seq time (msg ∷ msgs) = one seq time msg + tally seq time msgs

abbrev pub tally_all : ℕ → ℕ → Classes → ℕ
tally_all seq time c =
    tally seq time c.insert_message
    + tally seq time c.self_insert_message
    + tally seq time c.others_insert_message
    + tally seq time c.update_message

tally-snoc :
    (seq time : ℕ) (msgs : List LocalChatLog) (msg : LocalChatLog)
    → tally seq time (msgs ++ (msg ∷ [])) ≡ tally seq time msgs + one seq time msg
tally-snoc seq time [] msg = omega arith
tally-snoc seq time (x ∷ msgs) msg = omega (arith, tally-snoc seq time msgs msg)

-- The message is kept once more, in one place.
abbrev Adds : ℕ → ℕ → MsgData → Classes → Classes → Type 0
Adds seq time v c c' =
    tally_all seq time c' ≡ tally_all seq time c + one seq time (msg_data_to_local_chat_log v)

exceptional-Adds :
    (seq time : ℕ) (g : Generated) (existing : LocalChatLog) (v : MsgData) (c : Classes)
    → Adds seq time v c (exceptional g existing v c)
unfolding handle_exception_messages
exceptional-Adds seq time g existing v c =
    omega (arith, tally-snoc seq time c.insert_message (renamed g (some existing) v))

deleted-Adds :
    (seq time : ℕ) (g : Generated) (v : MsgData) (c : Classes) → Adds seq time v c (deleted g v c)
unfolding handle_exception_messages
deleted-Adds seq time g v c = omega (arith, tally-snoc seq time c.insert_message (renamed g none v))

by_sender-Adds :
    (seq time : ℕ) (g : Generated) (b : Bool) (o : Option LocalChatLog) (v : MsgData) (c : Classes)
    → Adds seq time v c (by_sender g b o v c)
by_sender-Adds seq time g true none v c =
    omega (arith, tally-snoc seq time c.self_insert_message (msg_data_to_local_chat_log v))
by_sender-Adds seq time g false none v c =
    omega (arith, tally-snoc seq time c.others_insert_message (msg_data_to_local_chat_log v))
by_sender-Adds seq time g false (some existing) v c = exceptional-Adds seq time g existing v c
by_sender-Adds seq time g true (some existing) v c =
    let msg = msg_data_to_local_chat_log v in
    if_both (Adds seq time v c) (existing.seq == 0)
      (process msg (record (kept v c) { update_message = c.update_message ++ (msg ∷ []) }))
      (process (renamed g (some existing) v) (exceptional g existing v c))
      (omega (arith, tally-snoc seq time c.update_message msg))
      (exceptional-Adds seq time g existing v c)

by_processed-Adds :
    (seq time : ℕ) (g : Generated) (user : String) (stored : Map String LocalChatLog)
    (o : Option LocalChatLog) (v : MsgData) (c : Classes)
    → Adds seq time v c (by_processed g user stored o v c)
by_processed-Adds seq time g user stored (some existing) v c =
    exceptional-Adds seq time g existing v c
by_processed-Adds seq time g user stored none v c =
    let new = by_sender g (v.send_id == user) (lookup v.client_msg_id stored) v c in
    if_both (Adds seq time v c) (v.status == msg_status_has_deleted) (deleted g v c) new
      (deleted-Adds seq time g v c)
      (by_sender-Adds seq time g (v.send_id == user) (lookup v.client_msg_id stored) v c)

-- With those there were, as many messages with a number and a time are kept as were pulled.
pub tally-classify_all :
    (seq time : ℕ) (g : Generated) (user : String) (stored : Map String LocalChatLog)
    (vs : List MsgData) (c : Classes)
    → tally_all seq time (classify_all g user stored vs c)
      ≡ tally_all seq time c + tally seq time (map msg_data_to_local_chat_log vs)
unfolding classify_all
tally-classify_all seq time g user stored [] c = omega arith
tally-classify_all seq time g user stored (v ∷ vs) c =
    let next = classify_one g user stored v c in
    let step =
      by_processed-Adds seq time g user stored (lookup v.client_msg_id c.processed_msg_ids) v c in
    omega (arith, tally-classify_all seq time g user stored vs next, step)
