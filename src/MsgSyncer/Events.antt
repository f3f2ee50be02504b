-- ===== src/MsgSyncer/Events.antt =====
-- msg_sync.go: the events that start a synchronisation (`startSync`, `doConnected`,
-- `doWakeupDataSync`, `doIMMessageSync`) and `handlePushMsgAndEvent`. The waits between the
-- attempts of `doConnected` are left out, since nothing reads the clock.
use openim_sdk_core.Prelude.{
  ℕ, zero, suc, Bool, true, false, List, [], ◌∷◌, Option, none, some, String, if◌then◌else◌,
}
use openim_sdk_core.Prelude.Map.{Map}
use openim_sdk_core.Prelude.Outcome.{Result, ok, err}
use openim_sdk_core.MsgSyncer.{
  PullMsgs, MsgSyncer, Server, SyncFlag, msg_sync_begin, msg_sync_end, msg_sync_failed,
  app_data_sync_start, app_data_sync_finish, send, sync_flag, sync_data, get_newest_seq,
  get_conv_max_read_seq,
}
use openim_sdk_core.MsgSyncer.Pull.{compare_seqs_and_batch_sync}
use openim_sdk_core.MsgSyncer.Push.{default_pull_nums, do_push_msg}

abbrev pub connect_pull_nums : ℕ
connect_pull_nums = 1

abbrev pub max_retries : ℕ
max_retries = 3

-- A start is refused while a synchronisation runs. The goroutine that `startSync` leaves behind
-- clears the flag after five seconds.
unfoldable pub start_sync : MsgSyncer → MsgSyncer × Bool
start_sync m = if m.is_syncing then (m, false) else (record m { is_syncing = true }, true)

unfoldable pub sync_timer : MsgSyncer → MsgSyncer
sync_timer m = record m { is_syncing = false }

-- The loop `for retry := range maxRetries`, with the error of the last attempt.
unfoldable pub get_max_seq :
    Server → ℕ → Result (Map String ℕ) → MsgSyncer → MsgSyncer × Result (Map String ℕ)
get_max_seq server zero last m = (m, last)
get_max_seq server (suc n) last m =
    let m' = send get_newest_seq m in
    elim (server.max_seqs m.log) [
      | ok maxs ↦ (m', ok maxs)
      | err e ↦ get_max_seq server n (err e) m'
    ]

abbrev pub begin_flag : Bool → SyncFlag
begin_flag reinstalled = if reinstalled then app_data_sync_start else msg_sync_begin

abbrev pub end_flag : Bool → SyncFlag
end_flag reinstalled = if reinstalled then app_data_sync_finish else msg_sync_end

unfoldable pub after_max_seq : Server → Bool → MsgSyncer × Result (Map String ℕ) → MsgSyncer
after_max_seq server reinstalled (m, err e) = send (sync_flag msg_sync_failed) m
after_max_seq server reinstalled (m, ok maxs) =
    send (sync_flag (end_flag reinstalled))
      (compare_seqs_and_batch_sync server maxs connect_pull_nums m)

unfoldable pub do_connected : Server → MsgSyncer → MsgSyncer
unfolding get_max_seq after_max_seq
do_connected server m =
    after_max_seq server m.reinstalled
      (get_max_seq server max_retries (ok []) (send (sync_flag (begin_flag m.reinstalled)) m))

unfoldable pub do_wakeup_data_sync : Server → MsgSyncer → MsgSyncer
do_wakeup_data_sync server m =
    let m' = send get_newest_seq (send sync_data m) in
    elim (server.max_seqs (sync_data ∷ m.log)) [
      | err e ↦ m'
      | ok maxs ↦ compare_seqs_and_batch_sync server maxs default_pull_nums m'
    ]

unfoldable pub do_im_message_sync : Server → List String → MsgSyncer → MsgSyncer
do_im_message_sync server conversation_ids m =
    let m' = send (get_conv_max_read_seq conversation_ids) m in
    elim (server.conv_max_seqs m.log conversation_ids) [
      | err e ↦ m'
      | ok maxs ↦ compare_seqs_and_batch_sync server maxs default_pull_nums m'
    ]

-- The commands of the channel. `none` is a value that is no list of conversations.
pub data Command : Type 0 where
  conn_success : Command
  wake_up_data_sync : Command
  im_message_sync : Option (List String) → Command
  push_msg : Map String PullMsgs → Map String PullMsgs → Command

abbrev if_started : (MsgSyncer → MsgSyncer) → MsgSyncer × Bool → MsgSyncer
if_started run (m, true) = run m
if_started run (m, false) = m

unfoldable pub handle_push_msg_and_event : Server → Command → MsgSyncer → MsgSyncer
unfolding start_sync
handle_push_msg_and_event server conn_success m = if_started (do_connected server) (start_sync m)
handle_push_msg_and_event server wake_up_data_sync m =
    if_started (do_wakeup_data_sync server) (start_sync m)
handle_push_msg_and_event server (im_message_sync (some ids)) m = do_im_message_sync server ids m
handle_push_msg_and_event server (im_message_sync none) m = m
handle_push_msg_and_event server (push_msg msgs notification_msgs) m =
    do_push_msg server msgs notification_msgs m
