-- ===== src/Tests/Batching.antt =====
-- The batcher under a low and a high load.
use openim_sdk_core.Prelude.{ℕ, ◌≡◌, refl, true, false, List, [], ◌∷◌, none, some, string_eq}
use openim_sdk_core.Prelude.Map.{lookup}
use openim_sdk_core.MsgSyncer.{MsgData}
use openim_sdk_core.MessageBatcher.{
  MessageBatcher, PushMessages, new_message_batcher, enqueue, on_timer, close,
}
use openim_sdk_core.MessageBatcher.Merge.{stream}
use openim_sdk_core.MessageBatcher.Stream.{stream-enqueue}
use openim_sdk_core.MessageBatcher.Timer.{
  IsTimed, Call, enqueued, timer_fired, closed, run, run-IsTimed,
}

abbrev message : ℕ → MsgData
message n = record { client_msg_id = "m"; send_id = "a"; seq = n; send_time = n; status = 2 }

abbrev batch : PushMessages
batch = record {
  msgs = ("si_a_b", record { msgs = message 1 ∷ message 2 ∷ []; is_end = false; end_seq = 0 }) ∷ [];
  notification_msgs = [];
}

-- Thirty messages arrived a second ago.
abbrev busy : MessageBatcher
busy = record {
  buffer = none;
  contexts = [];
  has_handler = true;
  handled = [];
  flush_timer = false;
  next_flush_at = 0;
  arrivals = record { ts = 20000000000; count = 30 } ∷ [];
  recent_total = 30;
  first_buffered = 0;
}

stream-enqueue_example :
    stream true "si_a_b" (enqueue (λ n. n) 21000000000 21000000000 21000000000 7 (some batch) busy)
    ≡ message 1 ∷ message 2 ∷ []
unfolding stream lookup
stream-enqueue_example =
    stream-enqueue true "si_a_b" (λ n. n) 21000000000 21000000000 21000000000 7 (some batch) busy
      ((refl, tt), tt) refl

abbrev calls : List Call
calls = enqueued (λ n. n) 1 1 1 7 (some batch) ∷ timer_fired ∷ closed ∷ []

run-IsTimed_example :
    IsTimed (run calls (new_message_batcher true))
    × ((on_timer (run calls (new_message_batcher true))).buffer ≡ none)
    × ((close (run calls (new_message_batcher true))).buffer ≡ none)
run-IsTimed_example = run-IsTimed true calls
