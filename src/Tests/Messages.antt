-- ===== src/Tests/Messages.antt =====
-- `MsgSyncer` with two conversations and a notification conversation.
use openim_sdk_core.Prelude.{
  ℕ, ◌-◌, ◌≤◌, ◌≡◌, refl, false, ◌&&◌, [], ◌∷◌, some, String, nat_eq, string_eq, ltb, leb, contains,
  length,
}
use openim_sdk_core.Prelude.Map.{Map, lookup}
use openim_sdk_core.Prelude.Outcome.{ok, err}
use openim_sdk_core.MsgSyncer.{MsgData, PullMsgs, SeqRange, MsgSyncer, Server}
use openim_sdk_core.MsgSyncer.Need.{get_seqs_need_sync}
use openim_sdk_core.MsgSyncer.NeedLaws.{get_seqs_need_sync_lem}
use openim_sdk_core.MsgSyncer.Pull.{sync_and_trigger_msgs, compare_seqs_and_batch_sync}
use openim_sdk_core.MsgSyncer.Batches.{Batched, sync_and_trigger_msgs-Batched}
use openim_sdk_core.MsgSyncer.Advance.{
  Advances, compare_seqs_and_batch_sync-Advances, compare_seqs_and_batch_sync-caught_up,
}
use openim_sdk_core.MsgSyncer.Push.{do_push_msg}
use openim_sdk_core.MsgSyncer.PushMonotone.{synced_of, do_push_msg_mono}
use openim_sdk_core.MsgSyncer.Events.{do_connected}
use openim_sdk_core.MsgSyncer.Connected.{Ended, do_connected-Ended}

abbrev server_seqs : Map String ℕ
server_seqs = ("si_a_b", 7) ∷ ("n_a_b", 3) ∷ ("sg_c", 2) ∷ []

-- A server that answers everything, with no messages.
abbrev server : Server
server = record {
  max_seqs = λ log. ok server_seqs;
  pulled = λ log ranges n. ok (record { msgs = []; notification_msgs = [] });
  last_messages = λ log ids. ok [];
  conv_max_seqs = λ log ids. err "unused";
}

abbrev client : MsgSyncer
client = record {
  synced_max_seqs = ("si_a_b", 4) ∷ ("sg_c", 2) ∷ [];
  reinstalled = false;
  is_syncing = false;
  log = [];
}

abbrev message : ℕ → MsgData
message n = record { client_msg_id = "m"; send_id = "a"; seq = n; send_time = n; status = 2 }

abbrev ranges : Map String SeqRange
ranges = ("si_a_b", (5, 7)) ∷ ("n_a_b", (0, 3)) ∷ []

get_seqs_need_sync_run : get_seqs_need_sync 4 7 ≡ 5 ∷ 6 ∷ 7 ∷ []
unfolding get_seqs_need_sync
get_seqs_need_sync_run = refl

get_seqs_need_sync_lem_example :
    ((i : ℕ) → contains (get_seqs_need_sync 4 7) i ≡ (ltb 4 i && leb i 7))
    × (length (get_seqs_need_sync 4 7) ≡ 7 - 4)
get_seqs_need_sync_lem_example = get_seqs_need_sync_lem 4 7

sync_and_trigger_msgs-Batched_example :
    Batched ranges client (sync_and_trigger_msgs server ranges 10 client)
sync_and_trigger_msgs-Batched_example =
    sync_and_trigger_msgs-Batched server ranges 10 client (refl, (refl, tt))

compare_seqs_and_batch_sync-Advances_example :
    Advances
      (lookup "si_a_b" server_seqs)
      (lookup "si_a_b" client.synced_max_seqs)
      (lookup "si_a_b" (compare_seqs_and_batch_sync server server_seqs 10 client).synced_max_seqs)
compare_seqs_and_batch_sync-Advances_example =
    compare_seqs_and_batch_sync-Advances server server_seqs 10 client "si_a_b" refl
      (refl, (refl, (refl, tt)))

compare_seqs_and_batch_sync-caught_up_example :
    lookup "si_a_b" (compare_seqs_and_batch_sync server server_seqs 10 client).synced_max_seqs
    ≡ some 7
unfolding lookup
compare_seqs_and_batch_sync-caught_up_example =
    compare_seqs_and_batch_sync-caught_up server (λ log ranges n. (_, refl)) server_seqs 10 client
      "si_a_b" refl (refl, (refl, (refl, tt)))

abbrev pushed : Map String PullMsgs
pushed = ("si_a_b", record { msgs = message 9 ∷ message 8 ∷ []; is_end = false; end_seq = 0 }) ∷ []

do_push_msg_mono_example :
    synced_of "si_a_b" client ≤ synced_of "si_a_b" (do_push_msg server pushed [] client)
do_push_msg_mono_example = do_push_msg_mono server pushed [] client "si_a_b" (refl, tt) tt

do_connected-Ended_example : Ended server client (do_connected server client)
do_connected-Ended_example = do_connected-Ended server client
