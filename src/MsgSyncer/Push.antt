-- ===== src/MsgSyncer/Push.antt =====
-- msg_sync.go: pushed messages (`pushTriggerAndSync` and `doPushMsg`).
use openim_sdk_core.Prelude.{
  ℕ, ◌+◌, false, List, [], ◌∷◌, Option, none, some, String, ◌==◌, nat_eq, string_eq, ltb,
  if◌then◌else◌, length,
}
use openim_sdk_core.Prelude.Map.{Map, lookup, insert}
use openim_sdk_core.Prelude.Outcome.{state_of}
use openim_sdk_core.MsgSyncer.{MsgData, PullMsgs, SeqRange, MsgSyncer, Server}
use openim_sdk_core.MsgSyncer.Pull.{
  trigger_conversation, trigger_notification, sync_and_trigger_msgs,
}

abbrev pub default_pull_nums : ℕ
default_pull_nums = 10

-- `triggerFunc`: the method that `doPushMsg` hands over.
abbrev pub Trigger : Type 0
Trigger = Map String PullMsgs → MsgSyncer → MsgSyncer

abbrev pub of_msgs : List MsgData → PullMsgs
of_msgs msgs = record { msgs = msgs; is_end = false; end_seq = 0 }

-- Go's `m.syncedMaxSeqs[conversationID]`, 0 where there is no entry.
abbrev pub or_zero : Option ℕ → ℕ
or_zero none = 0
or_zero (some n) = n

-- The inner loop: messages with no sequence number go out at once, and the others are kept.
unfoldable pub trigger_unnumbered : Trigger → String → List MsgData → MsgSyncer → MsgSyncer
trigger_unnumbered trigger id [] m = m
trigger_unnumbered trigger id (d ∷ rest) m =
    trigger_unnumbered trigger id rest
      (if d.seq == 0 then trigger ((id, of_msgs (d ∷ [])) ∷ []) m else m)

unfoldable pub storage_msgs : List MsgData → List MsgData
storage_msgs [] = []
storage_msgs (d ∷ rest) = if d.seq == 0 then storage_msgs rest else d ∷ storage_msgs rest

-- `lastSeq`, the sequence number of the last message that has one.
unfoldable pub last_seq : List MsgData → ℕ → ℕ
last_seq [] last = last
last_seq (d ∷ rest) last = last_seq rest (if d.seq == 0 then last else d.seq)

-- What becomes of the numbered messages of a conversation.
pub data Decision : Type 0 where
  -- nothing is stored, or the push brings nothing new
  pass : Decision
  -- the push continues what is synced
  take_over : ℕ → Decision
  -- something may be missing: pull the range
  pull : SeqRange → Decision

unfoldable pub decide : ℕ → List MsgData → ℕ → Decision
decide synced [] last = pass
decide synced storage last =
    if last == synced + length storage
    then take_over last
    else if ltb synced last
    then pull (synced + 1, last)
    else pass

-- The variables of the outer loop: `res`, `needSyncSeqMap` and the syncer.
pub record PushLoop : Type 0 where
  pub res : Map String PullMsgs
  pub need : Map String SeqRange
  pub syncer : MsgSyncer

abbrev pub act : String → List MsgData → Decision → PushLoop → PushLoop
act id storage pass l = l
act id storage (take_over last) l = record l {
  res = insert id (of_msgs storage) l.res;
  syncer = record l.syncer { synced_max_seqs = insert id last l.syncer.synced_max_seqs };
}
act id storage (pull range) l = record l { need = insert id range l.need }

unfoldable pub push_conversation : Trigger → String → List MsgData → PushLoop → PushLoop
unfolding trigger_unnumbered storage_msgs last_seq decide
push_conversation trigger id msgs l =
    let m = trigger_unnumbered trigger id msgs l.syncer in
    let synced = or_zero (lookup id m.synced_max_seqs) in
    act id (storage_msgs msgs) (decide synced (storage_msgs msgs) (last_seq msgs 0))
      (record l { syncer = m })

unfoldable pub push_loop : Trigger → Map String PullMsgs → PushLoop → PushLoop
push_loop trigger [] l = l
push_loop trigger ((id, msgs) ∷ rest) l =
    push_loop trigger rest (push_conversation trigger id msgs.msgs l)

-- `if len(res) > 0`
abbrev pub trigger_res : Trigger → PushLoop → MsgSyncer
trigger_res trigger l = elim l.res [ [] ↦ l.syncer | e ∷ res ↦ trigger (e ∷ res) l.syncer ]

unfoldable pub push_trigger_and_sync :
    Server → Trigger → Map String PullMsgs → MsgSyncer → MsgSyncer
push_trigger_and_sync server trigger [] m = m
push_trigger_and_sync server trigger (e ∷ push) m =
    let l = push_loop trigger (e ∷ push) (record { res = []; need = []; syncer = m }) in
    state_of (sync_and_trigger_msgs server l.need default_pull_nums (trigger_res trigger l))

unfoldable pub do_push_msg :
    Server → Map String PullMsgs → Map String PullMsgs → MsgSyncer → MsgSyncer
do_push_msg server msgs notification_msgs m =
    push_trigger_and_sync server trigger_notification notification_msgs
      (push_trigger_and_sync server trigger_conversation msgs m)
