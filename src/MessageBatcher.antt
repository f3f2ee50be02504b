-- ===== src/MessageBatcher.antt =====
-- The batcher of pushed messages: internal/interaction/message_batcher.go.
pub mod Merge
pub mod Flush
pub mod Stream
pub mod Window
pub mod Timer
use openim_sdk_core.Prelude.{
  ℕ, ◌+◌, ◌-◌, ◌*◌, Bool, true, false, ◌&&◌, ◌||◌, List, [], ◌∷◌, ◌++◌, Option, none, some, String,
  string_eq, nat_eq, ◌==◌, ltb, leb, if◌then◌else◌, length,
}
use openim_sdk_core.Prelude.Map.{Map, lookup, insert}
use openim_sdk_core.MsgSyncer.{MsgData, PullMsgs}

-- Durations and times are in nanoseconds; the zero `time.Time` is 0.
abbrev pub max_batch_messages : ℕ
max_batch_messages = 400

abbrev pub min_aggregation_delay : ℕ
min_aggregation_delay = 50000000

abbrev pub max_aggregation_delay : ℕ
max_aggregation_delay = 1000000000

abbrev pub low_load_window : ℕ
low_load_window = 10000000000

abbrev pub low_load_message_limit : ℕ
low_load_message_limit = 20

abbrev pub high_load_message_limit : ℕ
high_load_message_limit = 200

abbrev pub millisecond : ℕ
millisecond = 1000000

pub record ArrivalRecord : Type 0 where
  pub ts : ℕ
  pub count : ℕ

-- `sdkws.PushMessages`.
pub record PushMessages : Type 0 where
  pub msgs : Map String PullMsgs
  pub notification_msgs : Map String PullMsgs

-- `context.Context`, of which the batcher only keeps lists.
abbrev pub Context : Type 0
Context = ℕ

-- `has_handler` is `handler != nil`, and `handled` the calls of the handler, the first one first.
pub record MessageBatcher : Type 0 where
  pub buffer : Option PushMessages
  pub contexts : List Context
  pub has_handler : Bool
  pub handled : List (List Context × PushMessages)
  pub flush_timer : Bool
  pub next_flush_at : ℕ
  pub arrivals : List ArrivalRecord
  pub recent_total : ℕ
  pub first_buffered : ℕ

unfoldable pub new_message_batcher : Bool → MessageBatcher
new_message_batcher handler = record {
  buffer = none;
  contexts = [];
  has_handler = handler;
  handled = [];
  flush_timer = false;
  next_flush_at = 0;
  arrivals = [];
  recent_total = 0;
  first_buffered = 0;
}

-- The tests of both `dispatch` functions on the messages.
abbrev pub is_empty : PushMessages → Bool
is_empty p = length p.msgs == 0 && length p.notification_msgs == 0

unfoldable pub dispatch :
    Bool → List Context → Option PushMessages → MessageBatcher → MessageBatcher
dispatch handler ctxs none b = b
dispatch false ctxs (some messages) b = b
dispatch true ctxs (some messages) b =
    if is_empty messages then b else record b { handled = b.handled ++ ((ctxs, messages) ∷ []) }

-- One entry of the source: appended to the entry of its conversation, or a new entry.
abbrev pub append_to : Option PullMsgs → PullMsgs → PullMsgs
append_to none pulls = pulls
append_to (some existing) pulls = record {
  msgs = existing.msgs ++ pulls.msgs;
  is_end = pulls.is_end;
  end_seq = pulls.end_seq;
}

abbrev pub merge_entry : String → PullMsgs → Map String PullMsgs → Map String PullMsgs
merge_entry id pulls destination = insert id (append_to (lookup id destination) pulls) destination

-- `mergePullsLocked`: the destination after it, and the number of messages added.
unfoldable pub merge_pulls : Map String PullMsgs → Map String PullMsgs → Map String PullMsgs × ℕ
merge_pulls [] destination = (destination, 0)
merge_pulls ((id, pulls) ∷ rest) destination =
    let merged = merge_pulls rest (merge_entry id pulls destination) in
    (merged.0, length pulls.msgs + merged.1)

abbrev pub buffer_or_new : Option PushMessages → PushMessages
buffer_or_new none = record { msgs = []; notification_msgs = [] }
buffer_or_new (some buffer) = buffer

unfoldable pub merge : Option PushMessages → MessageBatcher → MessageBatcher × ℕ
merge none b = (b, 0)
merge (some batch) b =
    let buffer = buffer_or_new b.buffer in
    let msgs = merge_pulls batch.msgs buffer.msgs in
    let notifs = merge_pulls batch.notification_msgs buffer.notification_msgs in
    (
      record b { buffer = some (record { msgs = msgs.0; notification_msgs = notifs.0 }) },
      msgs.1 + notifs.1,
    )

-- What `consumeLocked` returns, and the batcher after it.
unfoldable pub consume : MessageBatcher → Option PushMessages × List Context × MessageBatcher
consume b = elim b.buffer [
  | none ↦ (none, [], b)
  | some pending ↦
      (some pending, b.contexts, record b { buffer = none; contexts = []; first_buffered = 0 })
]

unfoldable pub count_pulls : Map String PullMsgs → ℕ
count_pulls [] = 0
count_pulls ((id, pulls) ∷ rest) = length pulls.msgs + count_pulls rest

unfoldable pub count_messages : Option PushMessages → ℕ
count_messages none = 0
count_messages (some batch) = count_pulls batch.msgs + count_pulls batch.notification_msgs

abbrev pub pending_count : MessageBatcher → ℕ
pending_count b = count_messages b.buffer

-- `ensureTimerLocked`, at the clock's readings by `time.Until` and by `time.Now`.
unfoldable pub ensure_timer : ℕ → ℕ → ℕ → MessageBatcher → MessageBatcher
ensure_timer until now target b =
    let target' = if leb target until then now + millisecond else target in
    let set = record b { next_flush_at = target'; flush_timer = true } in
    if b.flush_timer && target' == b.next_flush_at then b else set

unfoldable pub cancel_timer : MessageBatcher → MessageBatcher
cancel_timer b = if b.flush_timer then record b { flush_timer = false; next_flush_at = 0 } else b

-- `consumeLocked` and `cancelTimerLocked`, and the dispatch after the lock is released.
unfoldable pub flush : MessageBatcher → MessageBatcher
flush b =
    let c = consume b in let after = cancel_timer c.2 in dispatch after.has_handler c.1 c.0 after

-- `Close`: the handler is taken before it is detached.
unfoldable pub close : MessageBatcher → MessageBatcher
close b =
    let c = consume b in
    let after = cancel_timer c.2 in
    dispatch after.has_handler c.1 c.0 (record after { has_handler = false })

unfoldable pub on_timer : MessageBatcher → MessageBatcher
on_timer b =
    let c = consume b in
    let after = record c.2 { flush_timer = false; next_flush_at = 0 } in
    dispatch after.has_handler c.1 c.0 after

-- The loop of `recordArrivalLocked` that drops the arrivals before the cutoff.
unfoldable pub expire : ℕ → List ArrivalRecord → ℕ → List ArrivalRecord × ℕ
expire cutoff [] total = ([], total)
expire cutoff (a ∷ rest) total =
    let expired = expire cutoff rest (total - a.count) in
    if ltb a.ts cutoff then expired else (a ∷ rest, total)

unfoldable pub record_arrival : ℕ → ℕ → MessageBatcher → MessageBatcher
record_arrival now count b =
    let kept = expire (now - low_load_window) b.arrivals b.recent_total in
    if leb count 0 then b else record b {
      arrivals = kept.0 ++ (record { ts = now; count = count } ∷ []);
      recent_total = kept.1 + count;
    }

unfoldable pub clamp_duration : ℕ → ℕ → ℕ → ℕ
clamp_duration val min max = if ltb val min then min else if ltb max val then max else val

-- `scaled recent` is `time.Duration(scale*float64(maxAggregationDelay-minAggregationDelay))`, a
-- product of floating-point numbers and its rounding.
unfoldable pub compute_delay : (ℕ → ℕ) → ℕ → ℕ
compute_delay scaled recent =
    if leb high_load_message_limit recent
    then max_aggregation_delay
    else if leb recent low_load_message_limit
    then min_aggregation_delay
    else clamp_duration (min_aggregation_delay + scaled recent) min_aggregation_delay
        max_aggregation_delay

abbrev pub mark_first : ℕ → MessageBatcher → MessageBatcher
mark_first now b = if b.first_buffered == 0 then record b { first_buffered = now } else b

-- The decision on the timer at the end of `Enqueue`.
unfoldable pub schedule : (ℕ → ℕ) → ℕ → ℕ → ℕ → ℕ → MessageBatcher → MessageBatcher
schedule scaled now until again recent b =
    let elapsed = now - b.first_buffered in
    let total_delay = compute_delay scaled recent in
    let target_flush = b.first_buffered + total_delay in
    if leb max_aggregation_delay elapsed || leb total_delay elapsed || ltb target_flush now
    then flush b
    else ensure_timer until again target_flush b

-- The rest of `Enqueue` under a higher load.
unfoldable pub aggregate :
    (ℕ → ℕ) → ℕ → ℕ → ℕ → Context → Option PushMessages → MessageBatcher → MessageBatcher
aggregate scaled now until again ctx batch b =
    let merged = (merge batch (record b { contexts = b.contexts ++ (ctx ∷ []) })).0 in
    if leb max_batch_messages (pending_count merged) && ltb b.recent_total high_load_message_limit
    then flush merged
    else schedule scaled now until again b.recent_total (mark_first now merged)

unfoldable pub enqueue :
    (ℕ → ℕ) → ℕ → ℕ → ℕ → Context → Option PushMessages → MessageBatcher → MessageBatcher
enqueue scaled now until again ctx batch b =
    let b' = record_arrival now (count_messages batch) b in
    let flushed = flush b' in
    if ltb b'.recent_total low_load_message_limit
    then dispatch flushed.has_handler (ctx ∷ []) batch flushed
    else aggregate scaled now until again ctx batch b'
