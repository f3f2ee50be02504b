-- ===== src/MessageBatcher/Stream.antt =====
-- No message is lost, repeated or moved by the batcher.
use openim_sdk_core.Prelude.{
  ℕ, ◌+◌, ◌-◌, ◌≡◌, ◌&&◌, ◌||◌, nat_eq, refl, sym, subst, ◌∙◌, ap, Bool, true, List, [], ◌∷◌, ◌++◌,
  Option, none, some, String, string_eq, ◌==◌, inl, inr, Bool-cases, if◌then◌else◌, ltb, leb,
}
use mathlib.Core.List.{append_assoc, append-nil}
use openim_sdk_core.MessageBatcher.{
  PushMessages, MessageBatcher, Context, dispatch, merge, flush, record_arrival, ensure_timer,
  millisecond, mark_first, schedule, aggregate, enqueue, compute_delay, count_messages,
  pending_count, max_batch_messages, low_load_message_limit, high_load_message_limit,
  max_aggregation_delay,
}
use openim_sdk_core.MessageBatcher.Merge.{received, delivered, stream, IsPush, received-merge}
use openim_sdk_core.MessageBatcher.Flush.{dispatch_keeps, flush-IsFlush, delivered-dispatch}

stream-of_empty :
    (kind : Bool) (id : String) (b : MessageBatcher)
    → b.buffer ≡ none
    → stream kind id b ≡ delivered kind id b.handled
unfolding stream
stream-of_empty kind id b h =
    ap (λ x. delivered kind id b.handled ++ received kind id x) h
    ∙ append-nil (delivered kind id b.handled)

flush_keeps :
    (kind : Bool) (id : String) (b : MessageBatcher)
    → b.has_handler ≡ true
    → stream kind id (flush b) ≡ stream kind id b
flush_keeps kind id b h =
    let f = flush-IsFlush kind id b h in stream-of_empty kind id (flush b) f.empties ∙ f.delivers

ensure_timer_keeps :
    (kind : Bool) (id : String) (until again target : ℕ) (b : MessageBatcher)
    → stream kind id (ensure_timer until again target b) ≡ stream kind id b
unfolding ensure_timer stream
ensure_timer_keeps kind id until again target b =
    elim (Bool-cases (
      b.flush_timer
      && (if leb target until then again + millisecond else target) == b.next_flush_at)) [
        | inl h ↦ rw h
        | inr h ↦ rw h
      ]

mark_first_keeps :
    (kind : Bool) (id : String) (now : ℕ) (b : MessageBatcher)
    → (stream kind id (mark_first now b) ≡ stream kind id b)
      × ((mark_first now b).has_handler ≡ b.has_handler)
unfolding stream
mark_first_keeps kind id now b = elim (Bool-cases (b.first_buffered == 0)) [
  | inl h ↦ rw h (refl, refl)
  | inr h ↦ rw h (refl, refl)
]

schedule_keeps :
    (kind : Bool) (id : String) (scaled : ℕ → ℕ) (now until again recent : ℕ) (b : MessageBatcher)
    → b.has_handler ≡ true
    → stream kind id (schedule scaled now until again recent b) ≡ stream kind id b
unfolding schedule
schedule_keeps kind id scaled now until again recent b h =
    elim (Bool-cases (
      leb max_aggregation_delay (now - b.first_buffered)
      || leb (compute_delay scaled recent) (now - b.first_buffered)
      || ltb (b.first_buffered + compute_delay scaled recent) now)) [
        | inl due ↦ rw due (flush_keeps kind id b h)
        | inr early ↦ rw early (ensure_timer_keeps kind id until again _ b)
      ]

record_arrival_keeps :
    (kind : Bool) (id : String) (now count : ℕ) (b : MessageBatcher)
    → (stream kind id (record_arrival now count b) ≡ stream kind id b)
      × ((record_arrival now count b).has_handler ≡ b.has_handler)
unfolding record_arrival stream
record_arrival_keeps kind id now count b = elim (Bool-cases (leb count 0)) [
  | inl h ↦ rw h (refl, refl)
  | inr h ↦ rw h (refl, refl)
]

merge_keeps_handler :
    (batch : Option PushMessages) (b : MessageBatcher)
    → (merge batch b).0.has_handler ≡ b.has_handler
unfolding merge
merge_keeps_handler none b = refl
merge_keeps_handler (some p) b = refl

merge_keeps_handled :
    (batch : Option PushMessages) (b : MessageBatcher) → (merge batch b).0.handled ≡ b.handled
unfolding merge
merge_keeps_handled none b = refl
merge_keeps_handled (some p) b = refl

stream-merge :
    (kind : Bool) (id : String) (batch : Option PushMessages) (b : MessageBatcher)
    → IsPush batch
    → stream kind id (merge batch b).0 ≡ stream kind id b ++ received kind id batch
unfolding stream
stream-merge kind id batch b d =
    rw (merge_keeps_handled batch b, received-merge kind id batch b d)
      (sym (
        append_assoc (delivered kind id b.handled) (received kind id b.buffer)
          (received kind id batch)))

stream-aggregate :
    (kind : Bool) (id : String) (scaled : ℕ → ℕ) (now until again : ℕ) (ctx : Context)
    (batch : Option PushMessages) (b : MessageBatcher)
    → IsPush batch
    → b.has_handler ≡ true
    → stream kind id (aggregate scaled now until again ctx batch b)
      ≡ stream kind id b ++ received kind id batch
unfolding aggregate stream
stream-aggregate kind id scaled now until again ctx batch b d h =
    let b' = record b { contexts = b.contexts ++ (ctx ∷ []) } in
    let merged = (merge batch b').0 in
    let total = stream-merge kind id batch b' d in
    let handler = merge_keeps_handler batch b' ∙ h in
    elim (Bool-cases (
      leb max_batch_messages (pending_count merged)
      && ltb b.recent_total high_load_message_limit)) [
        | inl full ↦ rw full (flush_keeps kind id merged handler ∙ total)
        | inr later ↦
            let first = mark_first_keeps kind id now merged in
            rw later (
              schedule_keeps kind id scaled now until again b.recent_total (mark_first now merged)
                (first.1 ∙ handler)
              ∙ first.0
              ∙ total)
      ]

stream-dispatch :
    (kind : Bool) (id : String) (handler : Bool) (ctxs : List Context) (batch : Option PushMessages)
    (b : MessageBatcher)
    → handler ≡ true
    → b.buffer ≡ none
    → stream kind id (dispatch handler ctxs batch b)
      ≡ delivered kind id b.handled ++ received kind id batch
stream-dispatch kind id handler ctxs batch b h none_left =
    subst
      (λ x.
        stream kind id (dispatch x ctxs batch b)
        ≡ delivered kind id b.handled ++ received kind id batch)
      (sym h)
      (stream-of_empty kind id (dispatch true ctxs batch b)
          ((dispatch_keeps true ctxs batch b).0 ∙ none_left)
        ∙ delivered-dispatch kind id ctxs batch b)

-- While a handler is attached, `Enqueue` loses no message, repeats none and keeps their order: what
-- was delivered of a conversation, followed by what is buffered of it, grows by just the messages of
-- the batch, whatever the load, the clock and the rounding of the delay. This holds for messages and
-- for notifications. The maps of the batch have distinct keys.
pub stream-enqueue :
    (kind : Bool) (id : String) (scaled : ℕ → ℕ) (now until again : ℕ) (ctx : Context)
    (batch : Option PushMessages) (b : MessageBatcher)
    → IsPush batch
    → b.has_handler ≡ true
    → stream kind id (enqueue scaled now until again ctx batch b)
      ≡ stream kind id b ++ received kind id batch
unfolding enqueue
stream-enqueue kind id scaled now until again ctx batch b d h =
    let b' = record_arrival now (count_messages batch) b in
    let arrival = record_arrival_keeps kind id now (count_messages batch) b in
    let flushed = flush-IsFlush kind id b' (arrival.1 ∙ h) in
    elim (Bool-cases (ltb b'.recent_total low_load_message_limit)) [
      | inl low ↦ rw low (
          stream-dispatch kind id _ (ctx ∷ []) batch (flush b') flushed.keeps_handler
            flushed.empties
          ∙ ap (λ x. x ++ received kind id batch) (flushed.delivers ∙ arrival.0))
      | inr high ↦ rw high (
          stream-aggregate kind id scaled now until again ctx batch b' d (arrival.1 ∙ h)
          ∙ ap (λ x. x ++ received kind id batch) arrival.0)
    ]
