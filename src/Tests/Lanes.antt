-- ===== src/Tests/Lanes.antt =====
-- Texts that arrive out of order, with media among them.
use openim_sdk_core.Prelude.{
  ℕ, ◌+◌, ◌*◌, ap, ◌≤◌, ◌<◌, ◌≡◌, refl, true, false, not, ◌||◌, List, [], ◌∷◌, none, some, nat_eq,
  ◌==◌, length, leb, min, arith,
}
use openim_sdk_core.Prelude.Map.{keys, lookup, insert, delete}
use openim_sdk_core.LongConn.{SendOrderLane, text, media, GeneralWsReq, Message}
use openim_sdk_core.LongConn.Lanes.{
  LaneState, new_lanes, new_lane_state, PumpEvent, arrival, timer_fired, write_pump, pump_step,
  process_incoming_message, receive, flush_lane, flush_loop, settle, has_gap, watch, start_timer,
  stop_timer, deliver, handle_lane_timeout, timeout_loop, greatest,
}
use openim_sdk_core.LongConn.Lanes.Numbers.{seqs, count, Held}
use openim_sdk_core.LongConn.Lanes.Flush.{Ran}
use openim_sdk_core.LongConn.Lanes.Timeout.{IsReady, from, handle_lane_timeout-Skipped}
use openim_sdk_core.LongConn.Lanes.Route.{AreReady, lane_at}
use openim_sdk_core.LongConn.Lanes.Order.{arrivals}
use openim_sdk_core.LongConn.Lanes.Delivery.{write_pump_once}
use openim_sdk_core.SendQueue.{
  MsgStruct, new_task, new_message_sender, SenderEvent, submitted, taken, Floats, sender_run,
  sender_step, submit, decorate, classify, offer, estimate_media_size, is_media_content_type,
}
use openim_sdk_core.SendQueue.Numbering.{messages, sent_in_order}
use openim_sdk_core.SendQueue.Threshold.{InBounds, decorate-bounds}

abbrev req : GeneralWsReq
req = record {
  req_identifier = 1003;
  token = "";
  send_id = "a";
  operation_id = "o";
  msg_incr = "";
  payload = "hi";
}

abbrev ordered_in : SendOrderLane → ℕ → Message
ordered_in lane seq = record {
  message = req;
  resp = seq;
  order = some (record { lane = lane; ordered = true; seq = seq; deadline = 0 });
}

abbrev events : List PumpEvent
events =
    arrival (ordered_in text 2)
    ∷ arrival (ordered_in media 2)
    ∷ timer_fired media
    ∷ arrival (ordered_in text 1)
    ∷ []

abbrev text_msg : MsgStruct
text_msg = record {
  client_msg_id = 1;
  content_type = 101;
  picture_elem = none;
  sound_elem = none;
  video_elem = none;
  file_elem = none;
}

abbrev floats : Floats
floats = record { rate = λ s e. s; scaled = λ r. 3 * r; mix = λ x y. min x y }

abbrev sends : List SenderEvent
sends = submitted 1 (λ i. true) text_msg ∷ taken ∷ submitted 2 (λ i. true) text_msg ∷ []

-- The second text overtakes the first on the way to the pump.
events-run : seqs text (write_pump events new_lanes).1 ≡ 1 ∷ 2 ∷ []
unfolding seqs write_pump pump_step process_incoming_message receive flush_lane flush_loop settle
    has_gap watch start_timer stop_timer deliver new_lane_state lookup insert delete
    handle_lane_timeout timeout_loop greatest
events-run = refl

arrived_numbers : seqs text (arrivals events) ≡ 2 ∷ 1 ∷ []
unfolding seqs arrivals
arrived_numbers = refl

sent_numbers :
    seqs text (messages req 7 (sender_run floats sends new_message_sender).0) ≡ 1 ∷ 2 ∷ []
unfolding seqs messages sender_run sender_step submit decorate classify offer
sent_numbers = refl

numbers_once : (j : ℕ) → count j (seqs text (arrivals events)) ≤ 1
unfolding count
numbers_once j = let same = ap (count j) arrived_numbers in ground (arith, same)

same_numbers :
    (j : ℕ)
    → count j (seqs text (arrivals events))
      ≡ count j (seqs text (messages req 7 (sender_run floats sends new_message_sender).0))
unfolding count
same_numbers j =
    let a = ap (count j) arrived_numbers in
    let b = ap (count j) sent_numbers in ground (arith, a, b)

write_pump_once_example :
    ((j : ℕ)
      → count j (seqs text (write_pump events new_lanes).1)
          + count j (keys (lane_at text (write_pump events new_lanes).0).pending)
        ≡ count j (seqs text (arrivals events)))
    × AreReady (write_pump events new_lanes).0
write_pump_once_example = write_pump_once text events refl numbers_once

sent_in_order_example :
    seqs text (write_pump events new_lanes).1
    ≡ seqs text (messages req 7 (sender_run floats sends new_message_sender).0)
sent_in_order_example = sent_in_order text req 7 floats sends events refl same_numbers (refl, tt)

decorate-bounds_example :
    let m = (sender_run floats sends new_message_sender).1 in
    InBounds m
    × ((decorate (new_task text_msg) m).0.ordered
        ≡ (not (is_media_content_type 101) || leb (estimate_media_size text_msg) m.estimator.value))
decorate-bounds_example =
    decorate-bounds floats sends (new_task text_msg) (λ x y. (omega arith, omega arith))

-- A lane that keeps the messages 3, 4 and 6, and awaits 1.
abbrev gapped : LaneState
gapped = record {
  lane_type = text;
  expected = 1;
  pending = (4, ordered_in text 4) ∷ (3, ordered_in text 3) ∷ (6, ordered_in text 6) ∷ [];
  has_timer = true;
  active = true;
}

gapped-IsReady : IsReady text gapped
unfolding Held
gapped-IsReady = (
  (omega arith, refl, (omega arith, refl, (omega arith, refl, tt))),
  (refl, (refl, (refl, tt))),
  λ t. refl,
  refl,
)

handle_lane_timeout-Skipped_example :
    (start : ℕ) × (1 < start)
    × Held text start gapped.pending
    × Ran text (from start gapped) (handle_lane_timeout gapped)
    × IsReady text (handle_lane_timeout gapped).lane
    × ((length gapped.pending == 0) ≡ false → 0 < length (handle_lane_timeout gapped).sent)
    × ((handle_lane_timeout gapped).flushed ≡ true)
handle_lane_timeout-Skipped_example = handle_lane_timeout-Skipped text gapped gapped-IsReady
