-- ===== src/SendQueue/Numbering.antt =====
-- The numbers that internal/conversation_msg/send_queue.go gives, and the order in which
-- internal/interaction/long_conn_mgr.go sends what has them.
use openim_sdk_core.Prelude.{
  ℕ, suc, ◌+◌, ◌≡◌, refl, sym, ap, ◌∙◌, Bool, true, false, List, [], ◌∷◌, ◌++◌, none, if_both, drop,
  length, arith,
}
use openim_sdk_core.LongConn.{SendOrderLane, text, media, other, GeneralWsReq, Message}
use openim_sdk_core.LongConn.Lanes.{PumpEvent, write_pump, new_lanes}
use openim_sdk_core.LongConn.Lanes.Numbers.{seqs, count, range}
use openim_sdk_core.LongConn.Lanes.Ranges.{runs-append}
use openim_sdk_core.LongConn.Lanes.Route.{is_kept}
use openim_sdk_core.LongConn.Lanes.Order.{arrivals, Untimed}
use openim_sdk_core.LongConn.Lanes.Delivery.{write_pump_in_order}
use openim_sdk_core.SendQueue.{
  SendTask, MessageSender, new_message_sender, classify, decorate, number, is_media_content_type,
  submit, offer, max_send_enqueue_retry, new_task, message_of, Floats, SenderEvent, submitted,
  taken, ended, run_task, sender_step, sender_run,
}

-- The messages of tasks; the request and the channel say nothing of the order.
unfoldable pub messages : GeneralWsReq → ℕ → List SendTask → List Message
messages req resp [] = []
messages req resp (t ∷ ts) = message_of req resp t ∷ messages req resp ts

abbrev pick : SendOrderLane → ℕ → ℕ → ℕ
pick media media_seq text_seq = media_seq
pick lane media_seq text_seq = text_seq

abbrev pub counter : SendOrderLane → MessageSender → ℕ
counter L m = pick L m.media_seq m.text_seq

-- The tasks have the next numbers of the lane, and its counter goes on behind them.
pub Numbered : SendOrderLane → List Message → MessageSender → MessageSender → Type 0
Numbered L ms m m' =
    (seqs L ms ≡ range (suc (counter L m)) (length (seqs L ms)))
    × (counter L m' ≡ counter L m + length (seqs L ms))

messages-append :
    (req : GeneralWsReq) (resp : ℕ) (ts us : List SendTask)
    → messages req resp (ts ++ us) ≡ messages req resp ts ++ messages req resp us
unfolding messages
messages-append req resp [] us = refl
messages-append req resp (t ∷ ts) us =
    ap (λ ms. message_of req resp t ∷ ms) (messages-append req resp ts us)

idle-Numbered :
    (L : SendOrderLane) (m m' : MessageSender) → counter L m' ≡ counter L m → Numbered L [] m m'
unfolding Numbered seqs range
idle-Numbered L m m' same = (refl, omega (arith, same))

number-Numbered :
    (L : SendOrderLane) (req : GeneralWsReq) (resp : ℕ) (b : Bool) (lane : SendOrderLane)
    (task : SendTask) (m : MessageSender)
    → is_kept L ≡ true
    → is_kept lane ≡ true
    → task.order ≡ none
    → Numbered L (message_of req resp (number b lane task m).0 ∷ []) m (number b lane task m).1
unfolding Numbered seqs range
number-Numbered L req resp false lane task m kept known unmarked = rw unmarked (refl, omega arith)
number-Numbered text req resp true text task m kept known unmarked = (refl, omega arith)
number-Numbered text req resp true media task m kept known unmarked = (refl, omega arith)
number-Numbered media req resp true text task m kept known unmarked = (refl, omega arith)
number-Numbered media req resp true media task m kept known unmarked = (refl, omega arith)
number-Numbered (other n) req resp true lane task m kept known unmarked = absurd (cc)
number-Numbered L req resp true (other n) task m kept known unmarked = absurd (cc)

classify_lem :
    (task : SendTask) (m : MessageSender)
    → is_kept (classify task m).lane ≡ true × (classify task m).order ≡ task.order
unfolding classify
classify_lem task m =
    if_both (λ (c : SendTask). is_kept c.lane ≡ true × c.order ≡ task.order)
      (is_media_content_type task.msg.content_type) _ _ (refl, refl) (refl, refl)

pub decorate-Numbered :
    (L : SendOrderLane) (req : GeneralWsReq) (resp : ℕ) (task : SendTask) (m : MessageSender)
    → is_kept L ≡ true
    → task.order ≡ none
    → Numbered L (message_of req resp (decorate task m).0 ∷ []) m (decorate task m).1
unfolding decorate
decorate-Numbered L req resp task m kept unmarked =
    let c = classify task m in
    let (known, same) = classify_lem task m in
    number-Numbered L req resp c.ordered c.lane c m kept known (same ∙ unmarked)

submit-counter :
    (L : SendOrderLane) (now : ℕ) (takes : ℕ → Bool) (task : SendTask) (m : MessageSender)
    → counter L (submit now takes task m).1
      ≡ counter L (decorate (record task { enqueue_at = now }) m).1
unfolding submit
submit-counter L now takes task m =
    if_both (λ x. counter L x ≡ counter L (decorate (record task { enqueue_at = now }) m).1)
      (offer max_send_enqueue_retry takes 0) _ _ refl refl

run_task-counter :
    (L : SendOrderLane) (f : Floats) (ok : Bool) (elapsed : ℕ) (task : SendTask) (m : MessageSender)
    → counter L (run_task f ok elapsed task m) ≡ counter L m
unfolding run_task
run_task-counter L f ok elapsed task m = if_both (λ x. counter L x ≡ counter L m) _ _ _ refl refl

sender_step-Numbered :
    (L : SendOrderLane) (req : GeneralWsReq) (resp : ℕ) (f : Floats) (e : SenderEvent)
    (m : MessageSender)
    → is_kept L ≡ true
    → Numbered L (messages req resp (sender_step f e m).0) m (sender_step f e m).1
unfolding sender_step messages Numbered
sender_step-Numbered L req resp f (submitted now takes msg) m kept =
    let task = record (new_task msg) { enqueue_at = now } in
    let (run, next) = decorate-Numbered L req resp task m kept refl in
    (run, submit-counter L now takes (new_task msg) m ∙ next)
sender_step-Numbered L req resp f taken m kept =
    idle-Numbered L m (record m { queue = drop 1 m.queue }) refl
sender_step-Numbered L req resp f (ended ok elapsed task) m kept =
    idle-Numbered L m (run_task f ok elapsed task m) (run_task-counter L f ok elapsed task m)

new_counter : (L : SendOrderLane) → counter L new_message_sender ≡ 0
new_counter text = refl
new_counter media = refl
new_counter (other n) = refl

append-Numbered :
    (L : SendOrderLane) (ms ns : List Message) (m m' m'' : MessageSender)
    → Numbered L ms m m'
    → Numbered L ns m' m''
    → Numbered L (ms ++ ns) m m''
unfolding Numbered
append-Numbered L ms ns m m' m'' (run, next) (run', next') =
    let (whole, long) =
      runs-append L ms ns (suc (counter L m)) (suc (counter L m')) run run' (omega (arith, next)) in
    (whole, omega (arith, next, next', long))

-- From a new sender, whatever happens to it: the tasks that are ordered in a lane have the numbers 1,
-- 2, 3 and so on, in the order in which they were submitted, and the lane's counter is their number.
pub sender_run-Numbered :
    (L : SendOrderLane) (req : GeneralWsReq) (resp : ℕ) (f : Floats) (es : List SenderEvent)
    (m : MessageSender)
    → is_kept L ≡ true
    → Numbered L (messages req resp (sender_run f es m).0) m (sender_run f es m).1
unfolding sender_run messages
sender_run-Numbered L req resp f [] m kept = idle-Numbered L m m refl
sender_run-Numbered L req resp f (e ∷ es) m kept =
    let r = sender_step f e m in
    let rest = sender_run f es r.1 in
    rw (messages-append req resp r.0 rest.0) (
      append-Numbered L (messages req resp r.0) (messages req resp rest.0) m r.1 rest.1
        (sender_step-Numbered L req resp f e m kept) (sender_run-Numbered L req resp f es r.1 kept))

-- The sender and the write pump together: when the messages of a lane that arrive at the pump are, in
-- any order and among any others, those of the tasks that the sender numbered, and the lane's timer
-- does not fire, the pump dispatches them in the order in which they were submitted.
pub sent_in_order :
    (L : SendOrderLane) (req : GeneralWsReq) (resp : ℕ) (f : Floats) (es : List SenderEvent)
    (ps : List PumpEvent)
    → is_kept L ≡ true
    → ((j : ℕ)
        → count j (seqs L (arrivals ps))
          ≡ count j (seqs L (messages req resp (sender_run f es new_message_sender).0)))
    → Untimed L ps
    → seqs L (write_pump ps new_lanes).1
      ≡ seqs L (messages req resp (sender_run f es new_message_sender).0)
unfolding Numbered
sent_in_order L req resp f es ps kept perm untimed =
    let sent = seqs L (messages req resp (sender_run f es new_message_sender).0) in
    let (run, next) = sender_run-Numbered L req resp f es new_message_sender kept in
    let whole = run ∙ ap (λ x. range (suc x) (length sent)) (new_counter L) in
    (write_pump_in_order L (length sent) ps kept (λ j. perm j ∙ ap (count j) whole) untimed).0
    ∙ sym whole
