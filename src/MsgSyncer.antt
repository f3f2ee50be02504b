-- ===== src/MsgSyncer.antt =====
-- internal/interaction/msg_sync.go: the state of `MsgSyncer`, the messages, and the server and
-- queue that it talks to. Sequence numbers are Go's int64 counted from 1; they are natural numbers
-- here. What the syncer sends is recorded in a log, newest first, and the server's answer to a
-- request may depend on all that was sent before it.
pub mod Need
pub mod Pull
pub mod NeedLaws
pub mod Reinstall
pub mod Batches
pub mod Advance
pub mod Push
pub mod PushLaws
pub mod PushMonotone
pub mod Events
pub mod Load
pub mod LoadLaws
pub mod Flags
pub mod Connected
use openim_sdk_core.Prelude.{ℕ, Bool, true, false, List, [], ◌∷◌, Option, none, some, String}
use openim_sdk_core.Prelude.Map.{Map}
use openim_sdk_core.Prelude.Outcome.{Result}

-- The fields of `sdkws.MsgData` that the code reads.
pub record MsgData : Type 0 where
  pub client_msg_id : String
  pub send_id : String
  pub seq : ℕ
  pub send_time : ℕ
  pub status : ℕ

-- `sdkws.PullMsgs`.
pub record PullMsgs : Type 0 where
  pub msgs : List MsgData
  pub is_end : Bool
  pub end_seq : ℕ

-- `[2]int64`, the first and last sequence number to pull.
abbrev pub SeqRange : Type 0
SeqRange = ℕ × ℕ

-- `sdkws.PullMessageBySeqsResp`.
pub record PullMessageBySeqsResp : Type 0 where
  pub msgs : Map String PullMsgs
  pub notification_msgs : Map String PullMsgs

-- The flags of `DispatchSyncFlag`.
pub data SyncFlag : Type 0 where
  msg_sync_begin msg_sync_end msg_sync_failed app_data_sync_start app_data_sync_finish : SyncFlag

-- What leaves the syncer: requests, commands for the conversation queue, writes to the database.
pub data Event : Type 0 where
  get_newest_seq : Event
  pull_msg_by_range : Map String SeqRange → ℕ → Event
  pull_conv_last_message : List String → Event
  get_conv_max_read_seq : List String → Event
  new_message : Map String PullMsgs → Event
  msg_sync_in_reinstall : Map String PullMsgs → ℕ → Event
  notification : Map String PullMsgs → Event
  sync_flag : SyncFlag → Event
  sync_data : Event
  batch_insert_notification_seq : Map String ℕ → Event
  set_app_sdk_version : Bool → Event

-- The fields of `MsgSyncer` that its methods change.
pub record MsgSyncer : Type 0 where
  pub synced_max_seqs : Map String ℕ
  pub reinstalled : Bool
  pub is_syncing : Bool
  pub log : List Event

-- The answers of `SendReqWaitResp` to the four requests of the syncer, after what was sent before.
pub record Server : Type 0 where
  pub max_seqs : List Event → Result (Map String ℕ)
  pub pulled : List Event → Map String SeqRange → ℕ → Result PullMessageBySeqsResp
  pub last_messages : List Event → List String → Result (Map String MsgData)
  pub conv_max_seqs : List Event → List String → Result (Map String ℕ)

abbrev pub send : Event → MsgSyncer → MsgSyncer
send e m = record m { log = e ∷ m.log }
