-- ===== src/MsgSyncer/Flags.antt =====
-- The flags that `doConnected` hands to the conversation queue.
use openim_sdk_core.Prelude.{
  ℕ, ◌+◌, ◌-◌, ◌≡◌, refl, ◌∙◌, false, List, [], ◌∷◌, inl, inr, String, leb, ltb, min, Bool-cases,
  string_eq,
}
use openim_sdk_core.Prelude.Map.{Map, insert}
use openim_sdk_core.Prelude.Outcome.{Outcome, done, fail, ◌>>=◌, state_of, Result-cases}
use openim_sdk_core.MsgSyncer.{
  PullMsgs, SeqRange, PullMessageBySeqsResp, MsgSyncer, Server, Event, SyncFlag, send,
  pull_msg_by_range, get_newest_seq, sync_flag,
}
use openim_sdk_core.MsgSyncer.Need.{
  notification_seqs, skip_notifications, store_notification_seqs, set_synced,
}
use openim_sdk_core.MsgSyncer.NeedLaws.{need_sync_seq_map-Distinct}
use openim_sdk_core.MsgSyncer.Pull.{
  split_pull_msg_num, trigger_conversation, trigger_notification, trigger_reinstall_conversation,
  trigger_msgs, trigger_reinstall_msgs, check_messages_and_get_last_message, fetch_last,
  invalid_conversations, pull_batch, batch_weight, sync_loop, reinstall_loop, sync_and_trigger_msgs,
  sync_and_trigger_reinstall_msgs, compare_seqs_and_batch_sync,
}
use openim_sdk_core.MsgSyncer.Batches.{
  Batched, all_pulled, cut_short, sync_and_trigger_msgs-Batched,
}

-- The requests for the server's maxima and the flags, newest first.
pub data Beat : Type 0 where
  ask : Beat
  flag : SyncFlag → Beat

abbrev pub beats : List Event → List Beat
beats [] = []
beats (get_newest_seq ∷ log) = ask ∷ beats log
beats (sync_flag f ∷ log) = flag f ∷ beats log
beats (_ ∷ log) = beats log

-- A step that sends neither.
abbrev IsQuiet : (MsgSyncer → MsgSyncer) → Type 0
IsQuiet f = (m : MsgSyncer) → beats (f m).log ≡ beats m.log

trigger_notification-IsQuiet : (msgs : Map String PullMsgs) → IsQuiet (trigger_notification msgs)
unfolding trigger_notification
trigger_notification-IsQuiet [] m = refl
trigger_notification-IsQuiet (e ∷ msgs) m = refl

trigger_conversation-IsQuiet : (msgs : Map String PullMsgs) → IsQuiet (trigger_conversation msgs)
unfolding trigger_conversation
trigger_conversation-IsQuiet [] m = refl
trigger_conversation-IsQuiet (e ∷ msgs) m = refl

trigger_reinstall-IsQuiet :
    (msgs : Map String PullMsgs) (total : ℕ) → IsQuiet (trigger_reinstall_conversation msgs total)
unfolding trigger_reinstall_conversation
trigger_reinstall-IsQuiet [] total m = refl
trigger_reinstall-IsQuiet (e ∷ msgs) total m = refl

trigger_msgs-IsQuiet : (resp : PullMessageBySeqsResp) → IsQuiet (trigger_msgs resp)
unfolding trigger_msgs
trigger_msgs-IsQuiet resp m =
    trigger_notification-IsQuiet resp.notification_msgs (trigger_conversation resp.msgs m)
    ∙ trigger_conversation-IsQuiet resp.msgs m

fetch_last_quiet :
    (server : Server) (ids : List String) (messages : Map String PullMsgs) (m : MsgSyncer)
    → beats (fetch_last server ids messages m).0.log ≡ beats m.log
fetch_last_quiet server [] messages m = refl
fetch_last_quiet server (id ∷ ids) messages m = refl

trigger_reinstall_msgs-IsQuiet :
    (server : Server) (total : ℕ) (resp : PullMessageBySeqsResp)
    → IsQuiet (trigger_reinstall_msgs server total resp)
unfolding trigger_reinstall_msgs check_messages_and_get_last_message
trigger_reinstall_msgs-IsQuiet server total resp m =
    let r = fetch_last server (invalid_conversations resp.msgs) resp.msgs m in
    trigger_notification-IsQuiet resp.notification_msgs
      (trigger_reinstall_conversation r.1 total r.0)
    ∙ trigger_reinstall-IsQuiet r.1 total r.0
    ∙ fetch_last_quiet server (invalid_conversations resp.msgs) resp.msgs m

module _ (server : Server) (deliver : PullMessageBySeqsResp → MsgSyncer → MsgSyncer)
    (quiet : (resp : PullMessageBySeqsResp) → IsQuiet (deliver resp)) where
  pull_batch_quiet :
      (n : ℕ) (batch : Map String SeqRange) (m : MsgSyncer)
      → beats (state_of (pull_batch server deliver n batch m)).log ≡ beats m.log
  unfolding pull_batch
  pull_batch_quiet n batch m = elim (Result-cases (server.pulled m.log batch n)) [
    | inl (resp, e) ↦ rw (e, pull_batch) (quiet resp (send (pull_msg_by_range batch n) m))
    | inr (x, e) ↦ rw (e, pull_batch) refl
  ]

-- A loop that goes on after its first request.
bind_quiet :
    (r : Outcome MsgSyncer) (k : MsgSyncer → Outcome MsgSyncer) (m : MsgSyncer)
    → beats (state_of r).log ≡ beats m.log
    → ((m' : MsgSyncer) → beats (state_of (k m')).log ≡ beats m'.log)
    → beats (state_of (r >>= k)).log ≡ beats m.log
bind_quiet (done m') k m h next = next m' ∙ h
bind_quiet (fail e m') k m h next = h

sync_loop_quiet :
    (server : Server) (n : ℕ) (rest temp : Map String SeqRange) (num : ℕ) (m : MsgSyncer)
    → beats (state_of (sync_loop server n rest temp num m)).log ≡ beats m.log
unfolding sync_loop
sync_loop_quiet server n [] [] num m = refl
sync_loop_quiet server n [] (e ∷ temp) num m =
    pull_batch_quiet server trigger_msgs trigger_msgs-IsQuiet n (e ∷ temp) m
sync_loop_quiet server n ((id, seqs) ∷ rest) temp num m =
    elim (Bool-cases (leb split_pull_msg_num (num + batch_weight n id seqs))) [
      | inl full ↦ rw full (
          bind_quiet (pull_batch server trigger_msgs n (insert id seqs temp) m)
            (λ m'. sync_loop server n rest [] 0 m') m
            (pull_batch_quiet server trigger_msgs trigger_msgs-IsQuiet n (insert id seqs temp) m)
            (λ m'. sync_loop_quiet server n rest [] 0 m'))
      | inr more ↦
          rw more
            (sync_loop_quiet server n rest (insert id seqs temp) (num + batch_weight n id seqs) m)
    ]

reinstall_loop_quiet :
    (server : Server) (total n : ℕ) (rest temp : Map String SeqRange) (num : ℕ) (m : MsgSyncer)
    → beats (state_of (reinstall_loop server total n rest temp num m)).log ≡ beats m.log
unfolding reinstall_loop
reinstall_loop_quiet server total n [] [] num m = refl
reinstall_loop_quiet server total n [] (e ∷ temp) num m = elim (Bool-cases (ltb 0 num)) [
  | inl some_left ↦ rw some_left (
      pull_batch_quiet server (trigger_reinstall_msgs server total)
        (trigger_reinstall_msgs-IsQuiet server total) n (e ∷ temp) m)
  | inr none_left ↦ rw none_left
]
reinstall_loop_quiet server total n ((id, seqs) ∷ rest) temp num m =
    elim (Bool-cases (leb split_pull_msg_num (num + min (seqs.1 + 1 - seqs.0) n))) [
      | inl full ↦ rw full (
          bind_quiet
            (pull_batch server (trigger_reinstall_msgs server total) n (insert id seqs temp) m)
            (λ m'. reinstall_loop server total n rest [] 0 m') m
            (pull_batch_quiet server (trigger_reinstall_msgs server total)
              (trigger_reinstall_msgs-IsQuiet server total) n (insert id seqs temp) m)
            (λ m'. reinstall_loop_quiet server total n rest [] 0 m'))
      | inr more ↦ rw more (
          reinstall_loop_quiet server total n rest (insert id seqs temp)
            (num + min (seqs.1 + 1 - seqs.0) n) m)
    ]

Batched-reinstalled :
    (all : Map String SeqRange) (m : MsgSyncer) (r : Outcome MsgSyncer)
    → Batched all m r
    → (state_of r).reinstalled ≡ m.reinstalled
Batched-reinstalled all m r (all_pulled m' same _ _) = same
Batched-reinstalled all m r (cut_short _ m' _ _ _ _ same _ _) = same

skip_notifications-IsQuiet : (maxs : Map String ℕ) → IsQuiet (skip_notifications maxs)
unfolding skip_notifications
skip_notifications-IsQuiet maxs m = go (notification_seqs maxs [])
  where
    go :
        (seqs : Map String ℕ)
        → beats
            (store_notification_seqs seqs
              (record m { synced_max_seqs = set_synced seqs m.synced_max_seqs })).log
          ≡ beats m.log
    go [] = refl
    go (e ∷ seqs) = refl

-- `compareSeqsAndBatchSync` sends no flag, and leaves the app not reinstalled.
pub compare_seqs_and_batch_sync_quiet :
    (server : Server) (maxs : Map String ℕ) (n : ℕ) (m : MsgSyncer)
    → (beats (compare_seqs_and_batch_sync server maxs n m).log ≡ beats m.log)
      × ((compare_seqs_and_batch_sync server maxs n m).reinstalled ≡ false)
unfolding compare_seqs_and_batch_sync sync_and_trigger_msgs sync_and_trigger_reinstall_msgs
compare_seqs_and_batch_sync_quiet server maxs n m = elim (Bool-cases m.reinstalled) [
  | inl again ↦ simp again (
    reinstall_loop_quiet server _ n _ [] 0 (skip_notifications maxs m)
        ∙ skip_notifications-IsQuiet maxs m,
    refl,
  )
  | inr first ↦ simp first (
    sync_loop_quiet server n _ [] 0 m,
    Batched-reinstalled _ m _ (
          sync_and_trigger_msgs-Batched server _ n m
            (need_sync_seq_map-Distinct false m.synced_max_seqs maxs [] tt))
        ∙ first,
  )
]
