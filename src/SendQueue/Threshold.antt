-- ===== src/SendQueue/Threshold.antt =====
-- The size up to which internal/conversation_msg/send_queue.go keeps media in order.
use openim_sdk_core.Prelude.{
  ℕ, ◌≤◌, ◌≡◌, refl, ap, ◌∙◌, Bool, true, false, not, ◌||◌, List, [], ◌∷◌, if_both, leb, min, max,
  Bool-cases, inl, inr, arith,
}
use openim_sdk_core.LongConn.{SendOrderLane, text, media, other}
use openim_sdk_core.SendQueue.{
  SendTask, MessageSender, ThresholdEstimator, new_message_sender, current, update, clamp_target,
  should_keep_media_ordered, classify, is_media_content_type, estimate_media_size, decorate, number,
  submit, offer, max_send_enqueue_retry, new_task, Floats, SenderEvent, submitted, taken, ended,
  run_task, sender_step, sender_run, min_media_ordered_bytes, max_media_ordered_bytes,
}

abbrev pub InBounds : MessageSender → Type 0
InBounds m =
    (min_media_ordered_bytes ≤ m.estimator.value) × (m.estimator.value ≤ max_media_ordered_bytes)

-- A weighted mean of two numbers is between them.
abbrev pub IsMean : (ℕ → ℕ → ℕ) → Type 0
IsMean mix = (x y : ℕ) → (min x y ≤ mix x y) × (mix x y ≤ max x y)

clamp_target-bounds :
    (target : ℕ)
    → (min_media_ordered_bytes ≤ clamp_target target)
      × (clamp_target target ≤ max_media_ordered_bytes)
unfolding clamp_target
clamp_target-bounds target = ground arith

update-bounds :
    (f : Floats) (size elapsed : ℕ) (m : MessageSender)
    → IsMean f.mix
    → InBounds m
    → InBounds (record m { estimator = update f.rate f.scaled f.mix size elapsed m.estimator })
unfolding update
update-bounds f size elapsed m mean within = ground (
  arith,
  clamp_target-bounds (f.scaled (f.rate size elapsed)),
  mean (clamp_target (f.scaled (f.rate size elapsed))) m.estimator.value,
)

number_lem :
    (b : Bool) (lane : SendOrderLane) (t : SendTask) (m : MessageSender)
    → ((number b lane t m).1.estimator ≡ m.estimator) × ((number b lane t m).0.ordered ≡ t.ordered)
number_lem false lane t m = (refl, refl)
number_lem true text t m = (refl, refl)
number_lem true media t m = (refl, refl)
number_lem true (other n) t m = (refl, refl)

submit-estimator :
    (now : ℕ) (takes : ℕ → Bool) (t : SendTask) (m : MessageSender)
    → (submit now takes t m).1.estimator ≡ m.estimator
unfolding submit decorate
submit-estimator now takes t m =
    let c = classify (record t { enqueue_at = now }) m in
    let same = (number_lem c.ordered c.lane c m).0 in
    if_both (λ (x : MessageSender). x.estimator ≡ m.estimator)
      (offer max_send_enqueue_retry takes 0) _ _ same same

step-bounds :
    (f : Floats) (e : SenderEvent) (m : MessageSender)
    → IsMean f.mix
    → InBounds m
    → InBounds (sender_step f e m).1
unfolding sender_step run_task
step-bounds f (submitted now takes msg) m mean within =
    rw (submit-estimator now takes (new_task msg) m) within
step-bounds f taken m mean within = within
step-bounds f (ended ok elapsed task) m mean within =
    if_both InBounds _ _ _ (update-bounds f task.media_size elapsed m mean within) within

run-bounds :
    (f : Floats) (es : List SenderEvent) (m : MessageSender)
    → IsMean f.mix
    → InBounds m
    → InBounds (sender_run f es m).1
unfolding sender_run
run-bounds f [] m mean within = within
run-bounds f (e ∷ es) m mean within =
    run-bounds f es (sender_step f e m).1 mean (step-bounds f e m mean within)

current_lem :
    (t : ThresholdEstimator)
    → (min_media_ordered_bytes ≤ t.value) × (t.value ≤ max_media_ordered_bytes)
    → current t ≡ t.value
unfolding current
current_lem t within = ground (arith, within.0, within.1)

classify-ordered :
    (task : SendTask) (m : MessageSender)
    → (classify task m).ordered ≡ (
        not (is_media_content_type task.msg.content_type)
        || leb (estimate_media_size task.msg) (current m.estimator))
unfolding classify should_keep_media_ordered
classify-ordered task m = elim (Bool-cases (is_media_content_type task.msg.content_type)) [
  | inl t ↦ rw t (ground arith)
  | inr f ↦ simp f
]

-- Whatever happens to a new sender, when the mix is between the two values mixed: its threshold stays
-- between 4 KiB and 8 MiB, and a task is ordered just when it is no media or its size is at most the
-- threshold.
pub decorate-bounds :
    (f : Floats) (es : List SenderEvent) (task : SendTask)
    → IsMean f.mix
    → let m = (sender_run f es new_message_sender).1 in
      InBounds m
      × ((decorate task m).0.ordered ≡ (
          not (is_media_content_type task.msg.content_type)
          || leb (estimate_media_size task.msg) m.estimator.value))
unfolding decorate
decorate-bounds f es task mean =
    let m = (sender_run f es new_message_sender).1 in
    let within : InBounds m = run-bounds f es new_message_sender mean (omega arith, omega arith) in
    let c = classify task m in
    let size = estimate_media_size task.msg in
    (
      within,
      (number_lem c.ordered c.lane c m).1
          ∙ classify-ordered task m
          ∙ ap (λ v. not (is_media_content_type task.msg.content_type) || leb size v)
              (current_lem m.estimator within),
    )
