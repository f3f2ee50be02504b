-- ===== src/SendQueue.antt =====
-- The queue of messages to send: internal/conversation_msg/send_queue.go, and the order marks of
-- pkg/ccontext/context.go.
pub mod Numbering
pub mod Threshold
use openim_sdk_core.Prelude.{
  ℕ, zero, suc, ◌+◌, ◌*◌, ◌≡◌, Bool, true, false, not, ◌&&◌, ◌||◌, List, [], ◌∷◌, ◌++◌, Option,
  none, some, nat_eq, ◌==◌, ltb, leb, if◌then◌else◌, length, drop,
}
use openim_sdk_core.LongConn.{
  SendOrderLane, text, media, other, SendOrderInfo, GeneralWsReq, Message,
}

-- In nanoseconds.
abbrev pub send_chain_max_wait : ℕ
send_chain_max_wait = 3000000000

abbrev pub default_media_ordered_bytes : ℕ
default_media_ordered_bytes = 16384

abbrev pub min_media_ordered_bytes : ℕ
min_media_ordered_bytes = 4096

abbrev pub max_media_ordered_bytes : ℕ
max_media_ordered_bytes = 8388608

abbrev pub max_send_enqueue_retry : ℕ
max_send_enqueue_retry = 100

-- The content types of `constant`.
abbrev pub picture : ℕ
picture = 102

abbrev pub sound : ℕ
sound = 103

abbrev pub video : ℕ
video = 104

abbrev pub file : ℕ
file = 105

pub record VideoElem : Type 0 where
  pub video_size : ℕ
  pub snapshot_size : ℕ

-- Of `sdk_struct.MsgStruct`, what the queue reads: a pointer is an option, and an element that only
-- gives a size is that size. A size below zero is treated as 0 is.
pub record MsgStruct : Type 0 where
  pub client_msg_id : ℕ
  pub content_type : ℕ
  pub picture_elem : Option (Option ℕ)
  pub sound_elem : Option ℕ
  pub video_elem : Option VideoElem
  pub file_elem : Option ℕ

abbrev pub is_media_content_type : ℕ → Bool
is_media_content_type t = t == picture || (t == sound || (t == video || t == file))

abbrev pub picture_size : Option (Option ℕ) → ℕ
picture_size (some (some size)) = size
picture_size (some none) = 0
picture_size none = 0

abbrev pub size_or_zero : Option ℕ → ℕ
size_or_zero none = 0
size_or_zero (some size) = size

abbrev pub video_size_of : Option VideoElem → ℕ
video_size_of none = 0
video_size_of (some v) = if ltb 0 v.video_size then v.video_size else v.snapshot_size

unfoldable pub estimate_media_size : MsgStruct → ℕ
estimate_media_size msg =
    if msg.content_type == picture
    then picture_size msg.picture_elem
    else if msg.content_type == sound
    then size_or_zero msg.sound_elem
    else if msg.content_type == video
    then video_size_of msg.video_elem
    else if msg.content_type == file
    then size_or_zero msg.file_elem
    else 0

-- The value is a floating-point number of bytes; here it is a whole one.
pub record ThresholdEstimator : Type 0 where
  pub value : ℕ

abbrev pub new_threshold_estimator : ThresholdEstimator
new_threshold_estimator = record { value = default_media_ordered_bytes }

unfoldable pub current : ThresholdEstimator → ℕ
current t =
    if leb t.value 0
    then default_media_ordered_bytes
    else if ltb max_media_ordered_bytes t.value
    then max_media_ordered_bytes
    else if ltb t.value min_media_ordered_bytes
    then min_media_ordered_bytes
    else t.value

unfoldable pub clamp_target : ℕ → ℕ
clamp_target target =
    let top = if ltb max_media_ordered_bytes target then max_media_ordered_bytes else target in
    if ltb top min_media_ordered_bytes then min_media_ordered_bytes else top

-- `rate size elapsed` is `float64(size) / elapsed.Seconds()`, `scaled` the product with the seconds
-- of `sendChainMaxWait`, and `mix` is `0.6*target + 0.4*value`, in floating-point numbers.
unfoldable pub update :
    (ℕ → ℕ → ℕ) → (ℕ → ℕ) → (ℕ → ℕ → ℕ) → ℕ → ℕ → ThresholdEstimator → ThresholdEstimator
update rate scaled mix size elapsed t =
    let target = clamp_target (scaled (rate size elapsed)) in
    if leb size 0 || leb elapsed 0
    then t
    else if leb (rate size elapsed) 0
    then t
    else if leb t.value 0
    then record { value = target }
    else record { value = mix target t.value }

-- `order` is the mark in the task's context.
pub record SendTask : Type 0 where
  pub msg : MsgStruct
  pub enqueue_at : ℕ
  pub ordered : Bool
  pub lane : SendOrderLane
  pub seq : ℕ
  pub media_size : ℕ
  pub deadline : ℕ
  pub order : Option SendOrderInfo

pub record MessageSender : Type 0 where
  pub queue : List SendTask
  pub text_seq : ℕ
  pub media_seq : ℕ
  pub estimator : ThresholdEstimator

abbrev pub new_message_sender : MessageSender
new_message_sender = record {
  queue = [];
  text_seq = 0;
  media_seq = 0;
  estimator = new_threshold_estimator;
}

unfoldable pub should_keep_media_ordered : ℕ → MessageSender → Bool
should_keep_media_ordered size m = if leb size 0 then true else leb size (current m.estimator)

-- The first part of `decorate`: the lane, the size and whether the task is ordered.
unfoldable pub classify : SendTask → MessageSender → SendTask
classify task m =
    let size = estimate_media_size task.msg in
    if is_media_content_type task.msg.content_type
    then record task { lane = media; media_size = size; ordered = should_keep_media_ordered size m }
    else record task { ordered = true; lane = text }

abbrev pub is_text : SendOrderLane → Bool
is_text text = true
is_text media = false
is_text (other n) = false

abbrev pub with_number : SendOrderLane → ℕ → SendTask → SendTask
with_number lane seq task =
    let deadline = task.enqueue_at + send_chain_max_wait in
    record task {
      seq = seq;
      deadline = deadline;
      order = some (record { lane = lane; ordered = true; seq = seq; deadline = deadline });
    }

-- The second part of `decorate`, by whether the task is ordered and its lane.
abbrev pub number : Bool → SendOrderLane → SendTask → MessageSender → SendTask × MessageSender
number false lane task m = (record task { seq = 0; deadline = 0 }, m)
number true text task m =
    (with_number text (suc m.text_seq) task, record m { text_seq = suc m.text_seq })
number true lane task m =
    (with_number lane (suc m.media_seq) task, record m { media_seq = suc m.media_seq })

unfoldable pub decorate : SendTask → MessageSender → SendTask × MessageSender
decorate task m = let c = classify task m in number c.ordered c.lane c m

-- The attempts that `submit` has left: `takes i` says whether the queue's channel takes the task at
-- attempt `i`, and the result whether one did.
unfoldable pub offer : ℕ → (ℕ → Bool) → ℕ → Bool
offer zero takes i = false
offer (suc n) takes i = let rest = offer n takes (suc i) in if takes i then true else rest

-- The result is whether the task is queued; the source returns an error when it is not.
unfoldable pub submit : ℕ → (ℕ → Bool) → SendTask → MessageSender → Bool × MessageSender
submit now takes task m =
    let d = decorate (record task { enqueue_at = now }) m in
    let queued = offer max_send_enqueue_retry takes 0 in
    (queued, if queued then record d.1 { queue = d.1.queue ++ (d.0 ∷ []) } else d.1)

-- `SendReqWaitResp` puts the order mark of the context on the message.
abbrev pub message_of : GeneralWsReq → ℕ → SendTask → Message
message_of req resp task = record { message = req; resp = resp; order = task.order }

-- A task before `submit`.
abbrev pub new_task : MsgStruct → SendTask
new_task msg = record {
  msg = msg;
  enqueue_at = 0;
  ordered = false;
  lane = other 0;
  seq = 0;
  media_size = 0;
  deadline = 0;
  order = none;
}

-- The functions on floating-point numbers that `update` is given.
pub record Floats : Type 0 where
  pub rate : ℕ → ℕ → ℕ
  pub scaled : ℕ → ℕ
  pub mix : ℕ → ℕ → ℕ

-- `runTask`, when the send is over: `ok` is whether it had no error, after `elapsed` from
-- `enqueueAt`.
unfoldable pub run_task : Floats → Bool → ℕ → SendTask → MessageSender → MessageSender
run_task f ok elapsed task m =
    let measured = not (is_text task.lane) && (ltb 0 task.media_size && (ok && task.ordered)) in
    let after = update f.rate f.scaled f.mix task.media_size elapsed m.estimator in
    if measured then record m { estimator = after } else m

-- A worker takes the first task of the queue, and a task ends.
pub data SenderEvent : Type 0 where
  submitted : ℕ → (ℕ → Bool) → MsgStruct → SenderEvent
  taken : SenderEvent
  ended : Bool → ℕ → SendTask → SenderEvent

-- The sender after an event, and the task that was given its number.
unfoldable pub sender_step : Floats → SenderEvent → MessageSender → List SendTask × MessageSender
sender_step f (submitted now takes msg) m =
    let task = record (new_task msg) { enqueue_at = now } in
    ((decorate task m).0 ∷ [], (submit now takes (new_task msg) m).1)
sender_step f taken m = ([], record m { queue = drop 1 m.queue })
sender_step f (ended ok elapsed task) m = ([], run_task f ok elapsed task m)

unfoldable pub sender_run :
    Floats → List SenderEvent → MessageSender → List SendTask × MessageSender
sender_run f [] m = ([], m)
sender_run f (e ∷ es) m =
    let after = sender_step f e m in
    let rest = sender_run f es after.1 in (after.0 ++ rest.0, rest.1)
