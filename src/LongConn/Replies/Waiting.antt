-- ===== src/LongConn/Replies/Waiting.antt =====
-- A request whose response has not come: `WsRespAsyn` of internal/interaction/ws_resp_asyn.go.
use openim_sdk_core.Prelude.{
  ℕ, ◌≡◌, refl, subst, ◌∙◌, Bool, true, false, not, List, [], ◌∷◌, Option, none, some, String,
  nat_eq, string_eq, ◌==◌, All, if_both, Bool-cases, inl, inr, arith,
}
use openim_sdk_core.Prelude.Map.{lookup, lookup-insert, lookup-delete}
use openim_sdk_core.LongConn.{GeneralWsResp}
use openim_sdk_core.LongConn.Replies.{
  Chan, WsRespAsyn, new_chan, set_chan, add_ch_by_incr, if_free, add_ch, get_ch, close_ch, forget,
  del_found, del_ch, panics, put, offer, notify_ch, Exchange, Event, add, add_by_incr, notify,
  retry, receive, del, when_free, on_added, on_deleted, on_sent, notify_resp_found, retry_held,
  take_from, receive_from, step, run,
}
use openim_sdk_core.LongConn.Replies.Owners.{IsServed}
use openim_sdk_core.LongConn.Replies.Served.{step-IsServed}
use openim_sdk_core.LongConn.Replies.Apart.{apart_of, set_other, later}

-- The event neither registers the string anew nor deletes it, responds to it or receives from the
-- channel.
abbrev pub is_quiet : String → ℕ → Event → Bool
is_quiet incr i (add incrs) = true
is_quiet incr i (add_by_incr k) = not (k == incr)
is_quiet incr i (notify resp) = not (resp.msg_incr == incr)
is_quiet incr i retry = true
is_quiet incr i (receive j) = not (j == i)
is_quiet incr i (del k) = not (k == incr)

abbrev pub HoldsOther : ℕ → Option (ℕ × GeneralWsResp) → Type 0
HoldsOther i none = Unit
HoldsOther i (some (j, resp)) = j == i ≡ false

-- The string is registered with the channel, which is empty.
abbrev pub IsWaiting : String → ℕ → Exchange → Type 0
IsWaiting incr i x =
    (lookup incr x.ws.ws_notification ≡ some i)
    × (lookup i x.ws.chans ≡ some new_chan)
    × HoldsOther i x.holder

added-IsWaiting :
    (incr k : String) (i : ℕ) (x : Exchange)
    → IsServed x
    → k == incr ≡ false
    → IsWaiting incr i x
    → IsWaiting incr i (on_added (some (k, add_ch_by_incr k x.ws)) x)
unfolding add_ch_by_incr
added-IsWaiting incr k i x served apart (registered, empty, others) = (
  lookup-insert k incr x.ws.made x.ws.ws_notification ∙ rw apart registered,
  set_other i x.ws.made new_chan x.ws (later i incr x served (served.0.1 incr i registered).0)
      ∙ empty,
  others,
)

if_free-IsWaiting :
    (incr k : String) (i : ℕ) (o : Option ℕ) (rest : Option (String × WsRespAsyn)) (x : Exchange)
    → lookup k x.ws.ws_notification ≡ o
    → IsServed x
    → IsWaiting incr i x
    → IsWaiting incr i (on_added rest x)
    → IsWaiting incr i (on_added (if_free o (some (k, add_ch_by_incr k x.ws)) rest) x)
if_free-IsWaiting incr k i none rest x e served w h = elim (Bool-cases (k == incr)) [
  | inl same ↦
      let one : k ≡ incr = (string_eq.beq_iff k incr).0 same in let found = w.0 in absurd (cc)
  | inr apart ↦ added-IsWaiting incr k i x served apart w
]
if_free-IsWaiting incr k i (some j) rest x e served w h = h

add-IsWaiting :
    (incr : String) (i : ℕ) (incrs : List String) (x : Exchange)
    → IsServed x
    → IsWaiting incr i x
    → IsWaiting incr i (on_added (add_ch incrs x.ws) x)
unfolding add_ch
add-IsWaiting incr i [] x served w = w
add-IsWaiting incr i (k ∷ incrs) x served w =
    if_free-IsWaiting incr k i (lookup k x.ws.ws_notification) (add_ch incrs x.ws) x refl served w
      (add-IsWaiting incr i incrs x served w)

put-IsWaiting :
    (incr : String) (i j : ℕ) (resp : GeneralWsResp) (chan : Chan) (o : Option GeneralWsResp)
    (x : Exchange)
    → j == i ≡ false
    → IsWaiting incr i x
    → IsWaiting incr i (on_sent j resp (put j resp chan o x.ws) x)
put-IsWaiting incr i j resp chan none x away (registered, empty, others) =
    (registered, set_other i j (record chan { buffer = some resp }) x.ws away ∙ empty, tt)
put-IsWaiting incr i j resp chan (some old) x away (registered, empty, others) =
    (registered, empty, away)

offer-IsWaiting :
    (incr : String) (i j : ℕ) (resp : GeneralWsResp) (o : Option Chan) (x : Exchange)
    → j == i ≡ false
    → IsWaiting incr i x
    → IsWaiting incr i (on_sent j resp (offer j resp o x.ws) x)
offer-IsWaiting incr i j resp none x away (registered, empty, others) = (registered, empty, away)
offer-IsWaiting incr i j resp (some chan) x away w =
    if_both (λ r. IsWaiting incr i (on_sent j resp r x)) chan.is_closed panics
      (put j resp chan chan.buffer x.ws) w (put-IsWaiting incr i j resp chan chan.buffer x away w)

notify-IsWaiting :
    (incr : String) (i : ℕ) (o : Option ℕ) (resp : GeneralWsResp) (x : Exchange)
    → get_ch resp.msg_incr x.ws ≡ o
    → IsServed x
    → resp.msg_incr == incr ≡ false
    → IsWaiting incr i x
    → IsWaiting incr i (notify_resp_found o resp x)
unfolding notify_ch
notify-IsWaiting incr i none resp x e served apart w = w
notify-IsWaiting incr i (some j) resp x e served apart w =
    offer-IsWaiting incr i j resp (lookup j x.ws.chans) x
      (apart_of x.made_for i j incr resp.msg_incr (served.0.1 incr i w.0).0
        (served.0.1 resp.msg_incr j e).0 apart)
      w

retry-IsWaiting :
    (incr : String) (i : ℕ) (o : Option (ℕ × GeneralWsResp)) (x : Exchange)
    → x.holder ≡ o
    → IsWaiting incr i x
    → IsWaiting incr i (retry_held o x)
unfolding notify_ch
retry-IsWaiting incr i none x e w = w
retry-IsWaiting incr i (some (j, resp)) x e w =
    offer-IsWaiting incr i j resp (lookup j x.ws.chans) x (subst (HoldsOther i) e w.2) w

take-IsWaiting :
    (incr : String) (i j : ℕ) (chan : Chan) (o : Option GeneralWsResp) (x : Exchange)
    → j == i ≡ false
    → IsWaiting incr i x
    → IsWaiting incr i (take_from j chan o x)
take-IsWaiting incr i j chan none x away w = w
take-IsWaiting incr i j chan (some resp) x away (registered, empty, others) =
    (registered, set_other i j (record chan { buffer = none }) x.ws away ∙ empty, others)

receive-IsWaiting :
    (incr : String) (i j : ℕ) (o : Option Chan) (x : Exchange)
    → j == i ≡ false
    → IsWaiting incr i x
    → IsWaiting incr i (receive_from j o x)
receive-IsWaiting incr i j none x away w = w
receive-IsWaiting incr i j (some chan) x away w = take-IsWaiting incr i j chan chan.buffer x away w

close-IsWaiting :
    (incr k : String) (i j : ℕ) (o : Option Chan) (x : Exchange)
    → j == i ≡ false
    → k == incr ≡ false
    → IsWaiting incr i x
    → IsWaiting incr i (on_deleted (forget k (close_ch j o x.ws)) x)
close-IsWaiting incr k i j none x away apart w = w
close-IsWaiting incr k i j (some chan) x away apart w =
    if_both (λ r. IsWaiting incr i (on_deleted (forget k r) x)) chan.is_closed none
      (some (set_chan j (record chan { is_closed = true }) x.ws)) w
      (
        lookup-delete k incr x.ws.ws_notification ∙ rw apart w.0,
        set_other i j (record chan { is_closed = true }) x.ws away ∙ w.1,
        w.2,
      )

del-IsWaiting :
    (incr k : String) (i : ℕ) (o : Option ℕ) (x : Exchange)
    → get_ch k x.ws ≡ o
    → IsServed x
    → k == incr ≡ false
    → IsWaiting incr i x
    → IsWaiting incr i (on_deleted (del_found k o x.ws) x)
del-IsWaiting incr k i none x e served apart w = w
del-IsWaiting incr k i (some j) x e served apart w =
    close-IsWaiting incr k i j (lookup j x.ws.chans) x
      (apart_of x.made_for i j incr k (served.0.1 incr i w.0).0 (served.0.1 k j e).0 apart) apart w

free-IsWaiting :
    (incr : String) (i : ℕ) (o : Option (ℕ × GeneralWsResp)) (x after : Exchange)
    → IsWaiting incr i x
    → IsWaiting incr i after
    → IsWaiting incr i (when_free o x after)
free-IsWaiting incr i none x after w h = h
free-IsWaiting incr i (some held) x after w h = w

step-IsWaiting :
    (incr : String) (i : ℕ) (event : Event) (x : Exchange)
    → IsServed x
    → is_quiet incr i event ≡ true
    → IsWaiting incr i x
    → IsWaiting incr i (step event x)
unfolding step del_ch
step-IsWaiting incr i (add incrs) x served quiet w =
    free-IsWaiting incr i x.holder x (on_added (add_ch incrs x.ws) x) w
      (add-IsWaiting incr i incrs x served w)
step-IsWaiting incr i (add_by_incr k) x served quiet w =
    free-IsWaiting incr i x.holder x (on_added (some (k, add_ch_by_incr k x.ws)) x) w
      (added-IsWaiting incr k i x served (ground arith) w)
step-IsWaiting incr i (notify resp) x served quiet w =
    free-IsWaiting incr i x.holder x (notify_resp_found (get_ch resp.msg_incr x.ws) resp x) w
      (notify-IsWaiting incr i (get_ch resp.msg_incr x.ws) resp x refl served (ground arith) w)
step-IsWaiting incr i retry x served quiet w = retry-IsWaiting incr i x.holder x refl w
step-IsWaiting incr i (receive j) x served quiet w =
    receive-IsWaiting incr i j (lookup j x.ws.chans) x (ground arith) w
step-IsWaiting incr i (del k) x served quiet w =
    free-IsWaiting incr i x.holder x (on_deleted (del_ch k x.ws) x) w
      (del-IsWaiting incr k i (get_ch k x.ws) x refl served (ground arith) w)

pub run-IsWaiting :
    (incr : String) (i : ℕ) (events : List Event) (x : Exchange)
    → IsServed x
    → All (λ event. is_quiet incr i event ≡ true) events
    → IsWaiting incr i x
    → IsWaiting incr i (run events x)
run-IsWaiting incr i [] x served quiet w = w
run-IsWaiting incr i (event ∷ events) x served quiet w =
    run-IsWaiting incr i events (step event x) (step-IsServed event x served) quiet.1
      (step-IsWaiting incr i event x served quiet.0 w)
