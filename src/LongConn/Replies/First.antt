-- ===== src/LongConn/Replies/First.antt =====
-- The first response to a request: `AddCh`, `NotifyResp` and the receivers of
-- internal/interaction/ws_resp_asyn.go.
use openim_sdk_core.Prelude.{
  ℕ, ◌≡◌, sym, ap, subst, ◌∙◌, true, List, [], ◌∷◌, ◌++◌, Option, none, some, String, nat_eq,
  string_eq, All,
}
use openim_sdk_core.Prelude.Map.{lookup, insert, lookup-insert, beq_self}
use openim_sdk_core.LongConn.{GeneralWsResp}
use openim_sdk_core.LongConn.Replies.{
  Chan, WsRespAsyn, new_chan, add_ch_by_incr, if_free, add_ch, get_ch, offer, put, notify_ch,
  Exchange, new_exchange, Event, add, notify, receive, when_free, on_added, on_sent,
  notify_resp_found, take_from, receive_from, step, run,
}
use openim_sdk_core.LongConn.Replies.Owners.{buffer_of}
use openim_sdk_core.LongConn.Replies.Served.{step-IsServed, run-IsServed, new-IsServed}
use openim_sdk_core.LongConn.Replies.Waiting.{is_quiet, HoldsOther, IsWaiting, run-IsWaiting}
use openim_sdk_core.LongConn.Replies.Answered.{leaves, IsAnswered, run-IsAnswered}

-- What `AddCh` returns is registered with a channel of its own.
add_ch-makes :
    (incrs : List String) (incr : String) (u made : WsRespAsyn)
    → add_ch incrs u ≡ some (incr, made)
    → made ≡ add_ch_by_incr incr u
unfolding add_ch
add_ch-makes [] incr u made h = absurd (cc)
add_ch-makes (k ∷ incrs) incr u made h =
    picked (lookup k u.ws_notification) (add_ch-makes incrs incr u made) h
  where
    picked :
        (o : Option ℕ)
        → (add_ch incrs u ≡ some (incr, made) → made ≡ add_ch_by_incr incr u)
        → if_free o (some (k, add_ch_by_incr k u)) (add_ch incrs u) ≡ some (incr, made)
        → made ≡ add_ch_by_incr incr u
    picked none rest e = cc
    picked (some i) rest e = rest e

made-starts :
    (incr : String) (x : Exchange)
    → x.holder ≡ none
    → IsWaiting incr x.ws.made (on_added (some (incr, add_ch_by_incr incr x.ws)) x)
unfolding add_ch_by_incr
made-starts incr x free = (
  lookup-insert incr incr x.ws.made x.ws.ws_notification ∙ rw (beq_self incr),
  lookup-insert x.ws.made x.ws.made new_chan x.ws.chans ∙ rw (beq_self x.ws.made),
  subst (HoldsOther x.ws.made) (sym free) tt,
)

pub add-starts :
    (incrs : List String) (incr : String) (made : WsRespAsyn) (x : Exchange)
    → x.holder ≡ none
    → add_ch incrs x.ws ≡ some (incr, made)
    → IsWaiting incr x.ws.made (step (add incrs) x)
unfolding step
add-starts incrs incr made x free added =
    let steps : step (add incrs) x ≡ on_added (some (incr, add_ch_by_incr incr x.ws)) x =
      ap (λ o. when_free o x (on_added (add_ch incrs x.ws) x)) free
      ∙ ap (λ r. on_added r x) added
      ∙ ap (λ u. on_added (some (incr, u)) x) (add_ch-makes incrs incr x.ws made added) in
    subst (IsWaiting incr x.ws.made) (sym steps) (made-starts incr x free)

-- `NotifyResp` puts the response into the empty channel at once.
notify-IsAnswered :
    (incr : String) (i : ℕ) (resp : GeneralWsResp) (x : Exchange)
    → x.holder ≡ none
    → resp.msg_incr ≡ incr
    → IsWaiting incr i x
    → IsAnswered i resp (step (notify resp) x)
unfolding step notify_ch
notify-IsAnswered incr i resp x free same (registered, empty, others) =
    let steps : step (notify resp) x ≡ on_sent i resp (put i resp new_chan none x.ws) x =
      ap (λ o. when_free o x (notify_resp_found (get_ch resp.msg_incr x.ws) resp x)) free
      ∙ ap (λ o. notify_resp_found o resp x)
          (ap (λ k. lookup k x.ws.ws_notification) same ∙ registered)
      ∙ ap (λ o. on_sent i resp (offer i resp o x.ws) x) empty in
    let full = record new_chan { buffer = some resp } in
    let stored : lookup i (insert i full x.ws.chans) ≡ some full =
      lookup-insert i i full x.ws.chans ∙ rw (beq_self i) in
    ap (λ y. buffer_of (lookup i y.ws.chans)) steps ∙ ap buffer_of stored

receive_from-takes :
    (i : ℕ) (resp : GeneralWsResp) (o : Option Chan) (x : Exchange)
    → buffer_of o ≡ some resp
    → (receive_from i o x).received ≡ x.received ++ ((i, resp) ∷ [])
receive_from-takes i resp none x full = absurd (cc)
receive_from-takes i resp (some chan) x full = ap (λ b. (take_from i chan b x).received) full

receive-takes :
    (i : ℕ) (resp : GeneralWsResp) (x : Exchange)
    → IsAnswered i resp x
    → (step (receive i) x).received ≡ x.received ++ ((i, resp) ∷ [])
unfolding step
receive-takes i resp x full = receive_from-takes i resp (lookup i x.ws.chans) x full

-- The first response to a request reaches the receiver of its channel: after `AddCh` returned a
-- string while nobody held the mutex, and until the response comes, nothing else takes the string,
-- deletes it, responds to it or receives from its channel; then `NotifyResp` gets the mutex; and
-- whatever follows, deletions and further responses too, the next receiver from the channel takes
-- that response.
pub first-received :
    (earlier before after : List Event) (incrs : List String) (incr : String) (made : WsRespAsyn)
    (resp : GeneralWsResp)
    → (run earlier new_exchange).holder ≡ none
    → add_ch incrs (run earlier new_exchange).ws ≡ some (incr, made)
    → All (λ event. is_quiet incr (run earlier new_exchange).ws.made event ≡ true) before
    → (run before (step (add incrs) (run earlier new_exchange))).holder ≡ none
    → resp.msg_incr ≡ incr
    → All (λ event. leaves (run earlier new_exchange).ws.made event ≡ true) after
    → (step (receive (run earlier new_exchange).ws.made) (
        run after
          (step (notify resp) (run before (step (add incrs) (run earlier new_exchange)))))).received
      ≡ (run after
          (step (notify resp) (run before (step (add incrs) (run earlier new_exchange))))).received
        ++ (((run earlier new_exchange).ws.made, resp) ∷ [])
first-received earlier before after incrs incr made resp free added quiet unlocked same kept =
    let x = run earlier new_exchange in
    let served = step-IsServed (add incrs) x (run-IsServed earlier new_exchange new-IsServed) in
    let started = step (add incrs) x in
    let waiting =
      run-IsWaiting incr x.ws.made before started served quiet
        (add-starts incrs incr made x free added) in
    let heard = step (notify resp) (run before started) in
    receive-takes x.ws.made resp (run after heard) (
      run-IsAnswered x.ws.made resp after heard
        (step-IsServed (notify resp) (run before started) (run-IsServed before started served)) kept
        (notify-IsAnswered incr x.ws.made resp (run before started) unlocked same waiting))
