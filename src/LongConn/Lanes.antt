-- ===== src/LongConn/Lanes.antt =====
-- The lanes of ordered messages of the write pump: internal/interaction/long_conn_mgr.go. A dispatch
-- is an element of the list that an operation returns, the first one first.
pub mod Numbers
pub mod Ranges
pub mod Flush
pub mod Idle
pub mod Timeout
pub mod Receive
pub mod Route
pub mod Steps
pub mod Order
pub mod Delivery
use openim_sdk_core.Prelude.{
  ℕ, zero, suc, ◌+◌, max, ◌≡◌, Bool, true, false, not, ◌&&◌, List, [], ◌∷◌, ◌++◌, Option, none,
  some, nat_eq, ◌==◌, ltb, if◌then◌else◌, length,
}
use openim_sdk_core.Prelude.Map.{Map, lookup, insert, delete, keys}
use openim_sdk_core.LongConn.{SendOrderLane, text, media, other, SendOrderInfo, Message}

-- `has_timer` is `timer != nil`.
pub record LaneState : Type 0 where
  pub lane_type : SendOrderLane
  pub expected : ℕ
  pub pending : Map ℕ Message
  pub has_timer : Bool
  pub active : Bool

unfoldable pub new_lane_state : SendOrderLane → LaneState
new_lane_state lane = record {
  lane_type = lane;
  expected = 1;
  pending = [];
  has_timer = false;
  active = false;
}

-- The timer's channel is drained in both, so that what counts is whether the timer is active.
unfoldable pub stop_timer : LaneState → LaneState
stop_timer l = if l.has_timer then record l { active = false } else l

unfoldable pub start_timer : LaneState → LaneState
start_timer l = if l.active then l else record l { has_timer = true; active = true }

abbrev pub is_found : Option Message → Bool
is_found none = false
is_found (some m) = true

unfoldable pub has_gap : LaneState → Bool
has_gap l = if length l.pending == 0 then false else not (is_found (lookup l.expected l.pending))

-- A lane after an operation, what the operation dispatched, and the source's `flushed`.
pub record Flushed : Type 0 where
  pub lane : LaneState
  pub sent : List Message
  pub flushed : Bool

-- The body of the loop of `flushLane`, but for the dispatch.
unfoldable pub deliver : LaneState → LaneState
deliver l =
    let stopped = stop_timer (record l { pending = delete l.expected l.pending }) in
    record stopped { expected = suc stopped.expected }

abbrev pub take_next : Option Message → LaneState → Flushed → Flushed
take_next none l rest = record { lane = l; sent = []; flushed = false }
take_next (some m) l rest = record { lane = rest.lane; sent = m ∷ rest.sent; flushed = true }

-- The loop of `flushLane`, on fuel.
unfoldable pub flush_loop : ℕ → LaneState → Flushed
flush_loop zero l = record { lane = l; sent = []; flushed = false }
flush_loop (suc n) l =
    let rest = flush_loop n (deliver l) in take_next (lookup l.expected l.pending) l rest

unfoldable pub settle : Flushed → Flushed
settle f =
    if has_gap f.lane
    then record f { lane = start_timer f.lane }
    else record f { lane = stop_timer f.lane; flushed = true }

-- A round of the loop takes one pending message away.
unfoldable pub flush_lane : LaneState → Flushed
flush_lane l = settle (flush_loop (length l.pending) l)

abbrev pub advance : LaneState → LaneState
advance l = record l { expected = suc l.expected }

-- The loop of `handleLaneTimeout`, on fuel.
unfoldable pub timeout_loop : ℕ → LaneState → Flushed
timeout_loop zero l = flush_lane l
timeout_loop (suc n) l =
    let f = flush_lane l in
    let rest = timeout_loop n (advance f.lane) in
    if f.flushed then f else record rest { sent = f.sent ++ rest.sent }

unfoldable pub greatest : List ℕ → ℕ
greatest [] = 0
greatest (k ∷ ks) = max k (greatest ks)

-- The loop is over when the expected number is that of the last pending message.
unfoldable pub handle_lane_timeout : LaneState → Flushed
handle_lane_timeout l = timeout_loop (greatest (keys l.pending)) (advance (stop_timer l))

unfoldable pub watch : LaneState → LaneState
watch l = if has_gap l then start_timer l else l

-- The part of `processIncomingMessage` for a message that has a lane.
unfoldable pub receive : ℕ → Message → LaneState → LaneState × List Message
receive seq m l =
    let f = flush_lane (advance (stop_timer l)) in
    if ltb seq l.expected
    then (l, m ∷ [])
    else if seq == l.expected
    then (f.lane, m ∷ f.sent)
    else (watch (record l { pending = insert seq m l.pending }), [])

-- The two lanes of `writePump`.
pub record Lanes : Type 0 where
  pub text_lane : LaneState
  pub media_lane : LaneState

abbrev pub new_lanes : Lanes
new_lanes = record { text_lane = new_lane_state text; media_lane = new_lane_state media }

abbrev pub lane_by_type : SendOrderLane → Lanes → Option LaneState
lane_by_type text s = some s.text_lane
lane_by_type media s = some s.media_lane
lane_by_type (other n) s = none

-- The write through the pointer that `laneByType` returns.
abbrev pub put_lane : SendOrderLane → LaneState → Lanes → Lanes
put_lane text l s = record s { text_lane = l }
put_lane media l s = record s { media_lane = l }
put_lane (other n) l s = s

abbrev pub in_lane : Option LaneState → SendOrderInfo → Message → Lanes → Lanes × List Message
in_lane none o m s = (s, m ∷ [])
in_lane (some l) o m s = let r = receive o.seq m l in (put_lane o.lane r.0 s, r.1)

abbrev pub by_order : Option SendOrderInfo → Message → Lanes → Lanes × List Message
by_order none m s = (s, m ∷ [])
by_order (some o) m s =
    let placed = in_lane (lane_by_type o.lane s) o m s in if o.ordered then placed else (s, m ∷ [])

unfoldable pub process_incoming_message : Message → Lanes → Lanes × List Message
process_incoming_message m s = by_order m.order m s

-- What `writePump` selects on, but for its end.
pub data PumpEvent : Type 0 where
  arrival : Message → PumpEvent
  timer_fired : SendOrderLane → PumpEvent

abbrev pub fire : SendOrderLane → Option LaneState → Lanes → Lanes × List Message
fire lane none s = (s, [])
fire lane (some l) s =
    let f = handle_lane_timeout l in
    if l.active && l.has_timer then (put_lane lane f.lane s, f.sent) else (s, [])

unfoldable pub pump_step : PumpEvent → Lanes → Lanes × List Message
pump_step (arrival m) s = process_incoming_message m s
pump_step (timer_fired lane) s = fire lane (lane_by_type lane s) s

-- The loop of `writePump` up to its end.
unfoldable pub write_pump : List PumpEvent → Lanes → Lanes × List Message
write_pump [] s = (s, [])
write_pump (e ∷ es) s =
    let after = pump_step e s in let rest = write_pump es after.0 in (rest.0, after.1 ++ rest.1)
