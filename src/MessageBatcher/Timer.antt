-- ===== src/MessageBatcher/Timer.antt =====
-- What is buffered is flushed in the end: a timer is set.
use openim_sdk_core.Prelude.{
  ℕ, ◌+◌, ◌-◌, ◌≡◌, refl, ap, ◌∙◌, Bool, true, false, ◌&&◌, ◌||◌, List, [], ◌∷◌, ◌++◌, Option, none,
  some, ◌==◌, nat_eq, inl, inr, Bool-cases, ltb, leb, if◌then◌else◌,
}
use openim_sdk_core.MessageBatcher.{
  MessageBatcher, PushMessages, Context, dispatch, is_empty, consume, cancel_timer, flush, close,
  on_timer, record_arrival, ensure_timer, millisecond, mark_first, schedule, aggregate, enqueue,
  compute_delay, merge, count_messages, pending_count, max_batch_messages, low_load_message_limit,
  high_load_message_limit, max_aggregation_delay, new_message_batcher,
}

-- A batcher that has messages buffered has a timer.
abbrev timed : Option PushMessages → Bool → Bool
timed none timer = true
timed (some p) timer = timer

abbrev pub IsTimed : MessageBatcher → Type 0
IsTimed b = timed b.buffer b.flush_timer ≡ true

timed-of_none : (o : Option PushMessages) (t : Bool) → o ≡ none → timed o t ≡ true
timed-of_none o t h = ap (λ x. timed x t) h

timed-of_timer : (o : Option PushMessages) (t : Bool) → t ≡ true → timed o t ≡ true
timed-of_timer none t h = refl
timed-of_timer (some p) t h = h

dispatch-buffer :
    (handler : Bool) (ctxs : List Context) (o : Option PushMessages) (b : MessageBatcher)
    → (dispatch handler ctxs o b).buffer ≡ b.buffer
unfolding dispatch
dispatch-buffer handler ctxs none b = refl
dispatch-buffer false ctxs (some p) b = refl
dispatch-buffer true ctxs (some p) b = elim (Bool-cases (is_empty p)) [
  | inl h ↦ rw h
  | inr h ↦ rw h
]

cancel-buffer : (b : MessageBatcher) → (cancel_timer b).buffer ≡ b.buffer
unfolding cancel_timer
cancel-buffer b = elim (Bool-cases b.flush_timer) [ inl h ↦ rw h | inr h ↦ rw h ]

consume-buffer :
    (o : Option PushMessages) (b : MessageBatcher)
    → (consume (record b { buffer = o })).2.buffer ≡ none
unfolding consume
consume-buffer none b = refl
consume-buffer (some p) b = refl

flush-buffer : (b : MessageBatcher) → (flush b).buffer ≡ none
unfolding flush
flush-buffer b =
    dispatch-buffer (cancel_timer (consume b).2).has_handler (consume b).1 (consume b).0
      (cancel_timer (consume b).2)
    ∙ cancel-buffer (consume b).2
    ∙ consume-buffer b.buffer b

and_true : (s t : Bool) (P : Bool → Type 0) → (s ≡ true → t ≡ true → P true) → P false → P (s && t)
and_true true true P both other = both refl refl
and_true true false P both other = other
and_true false t P both other = other

ensure_timer-set :
    (until again target : ℕ) (b : MessageBatcher)
    → (ensure_timer until again target b).flush_timer ≡ true
unfolding ensure_timer
ensure_timer-set until again target b =
    and_true b.flush_timer
      ((if leb target until then again + millisecond else target) == b.next_flush_at)
      (λ x.
        (if x then b else record b {
          next_flush_at = if leb target until then again + millisecond else target;
          flush_timer = true;
        }).flush_timer
        ≡ true)
      (λ h _. h) refl

schedule-IsTimed :
    (scaled : ℕ → ℕ) (now until again recent : ℕ) (b : MessageBatcher)
    → IsTimed (schedule scaled now until again recent b)
unfolding schedule
schedule-IsTimed scaled now until again recent b =
    elim (Bool-cases (
      leb max_aggregation_delay (now - b.first_buffered)
      || leb (compute_delay scaled recent) (now - b.first_buffered)
      || ltb (b.first_buffered + compute_delay scaled recent) now)) [
        | inl due ↦ rw due (timed-of_none (flush b).buffer _ (flush-buffer b))
        | inr early ↦ rw early (
            timed-of_timer _ _
              (ensure_timer-set until again (b.first_buffered + compute_delay scaled recent) b))
      ]

aggregate-IsTimed :
    (scaled : ℕ → ℕ) (now until again : ℕ) (ctx : Context) (batch : Option PushMessages)
    (b : MessageBatcher)
    → IsTimed (aggregate scaled now until again ctx batch b)
unfolding aggregate
aggregate-IsTimed scaled now until again ctx batch b =
    let merged = (merge batch (record b { contexts = b.contexts ++ (ctx ∷ []) })).0 in
    elim (Bool-cases (
      leb max_batch_messages (pending_count merged)
      && ltb b.recent_total high_load_message_limit)) [
        | inl full ↦ rw full (timed-of_none (flush merged).buffer _ (flush-buffer merged))
        | inr later ↦
            rw later
              (schedule-IsTimed scaled now until again b.recent_total (mark_first now merged))
      ]

enqueue-IsTimed :
    (scaled : ℕ → ℕ) (now until again : ℕ) (ctx : Context) (batch : Option PushMessages)
    (b : MessageBatcher)
    → IsTimed (enqueue scaled now until again ctx batch b)
unfolding enqueue
enqueue-IsTimed scaled now until again ctx batch b =
    let b' = record_arrival now (count_messages batch) b in
    elim (Bool-cases (ltb b'.recent_total low_load_message_limit)) [
      | inl low ↦ rw low (
          timed-of_none _ _
            (dispatch-buffer (flush b').has_handler (ctx ∷ []) batch (flush b') ∙ flush-buffer b'))
      | inr high ↦ rw high (aggregate-IsTimed scaled now until again ctx batch b')
    ]

on_timer-buffer : (b : MessageBatcher) → (on_timer b).buffer ≡ none
unfolding on_timer
on_timer-buffer b =
    dispatch-buffer (consume b).2.has_handler (consume b).1 (consume b).0
      (record (consume b).2 { flush_timer = false; next_flush_at = 0 })
    ∙ consume-buffer b.buffer b

close-buffer : (b : MessageBatcher) → (close b).buffer ≡ none
unfolding close
close-buffer b =
    dispatch-buffer (cancel_timer (consume b).2).has_handler (consume b).1 (consume b).0
      (record (cancel_timer (consume b).2) { has_handler = false })
    ∙ cancel-buffer (consume b).2
    ∙ consume-buffer b.buffer b

-- The critical sections of a batcher, in the order they take the lock.
pub data Call : Type 0 where
  enqueued : (ℕ → ℕ) → ℕ → ℕ → ℕ → Context → Option PushMessages → Call
  timer_fired : Call
  closed : Call

unfoldable pub call : Call → MessageBatcher → MessageBatcher
call (enqueued scaled now until again ctx batch) b = enqueue scaled now until again ctx batch b
call timer_fired b = on_timer b
call closed b = close b

unfoldable pub run : List Call → MessageBatcher → MessageBatcher
run [] b = b
run (c ∷ rest) b = run rest (call c b)

call-IsTimed : (c : Call) (b : MessageBatcher) → IsTimed (call c b)
unfolding call
call-IsTimed (enqueued scaled now until again ctx batch) b =
    enqueue-IsTimed scaled now until again ctx batch b
call-IsTimed timer_fired b = timed-of_none _ _ (on_timer-buffer b)
call-IsTimed closed b = timed-of_none _ _ (close-buffer b)

run_keeps : (calls : List Call) (b : MessageBatcher) → IsTimed b → IsTimed (run calls b)
unfolding run
run_keeps [] b h = h
run_keeps (c ∷ rest) b h = run_keeps rest (call c b) (call-IsTimed c b)

-- From a new batcher on, after any sequence of `Enqueue`, firing timers and `Close`, at any clock:
-- whenever messages are buffered a timer is set, and right after a timer fires or the batcher closes
-- nothing is buffered.
pub run-IsTimed :
    (handler : Bool) (calls : List Call)
    → IsTimed (run calls (new_message_batcher handler))
      × ((on_timer (run calls (new_message_batcher handler))).buffer ≡ none)
      × ((close (run calls (new_message_batcher handler))).buffer ≡ none)
unfolding new_message_batcher
run-IsTimed handler calls = (
  run_keeps calls (new_message_batcher handler) refl,
  on_timer-buffer (run calls (new_message_batcher handler)),
  close-buffer (run calls (new_message_batcher handler)),
)
