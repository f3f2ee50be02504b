-- ===== src/LongConn/Replies/Served.antt =====
-- Who receives which response: `WsRespAsyn` of internal/interaction/ws_resp_asyn.go.
use openim_sdk_core.Prelude.{
  ℕ, ◌≡◌, refl, sym, ap, subst, ◌∙◌, true, false, List, [], ◌∷◌, ◌++◌, Option, none, some, String,
  nat_eq, string_eq, if◌then◌else◌, All, All-append, arith,
}
use openim_sdk_core.Prelude.Map.{lookup, delete}
use openim_sdk_core.LongConn.{GeneralWsResp}
use openim_sdk_core.LongConn.Replies.{
  Chan, WsRespAsyn, set_chan, add_ch_by_incr, if_free, add_ch, get_ch, close_ch, forget, del_found,
  del_ch, panics, put, offer, notify_ch, Exchange, new_exchange, Event, add, add_by_incr, notify,
  retry, receive, del, when_free, on_added, on_deleted, on_sent, notify_resp_found, retry_held,
  take_from, receive_from, step, run,
}
use openim_sdk_core.LongConn.Replies.Owners.{
  is_open, buffer_of, IsFor, IsHeld, Matches, IsServed, All-IsFor, made-IsKept, set-open,
  set-IsKept, closed-IsKept,
}

opens : (chan : Chan) → is_open (some chan) ≡ true → chan.is_closed ≡ false
opens chan h = ground arith

no_holder :
    (made_for : List String) (u : WsRespAsyn) (o : Option (ℕ × GeneralWsResp))
    → o ≡ none
    → IsHeld made_for u o
no_holder made_for u o e = subst (IsHeld made_for u) (sym e) tt

added-IsServed :
    (incr : String) (x : Exchange)
    → x.holder ≡ none
    → IsServed x
    → IsServed (on_added (some (incr, add_ch_by_incr incr x.ws)) x)
added-IsServed incr x e (kept, held, all, calm) = (
  made-IsKept x.made_for x.ws incr kept,
  no_holder (x.made_for ++ (incr ∷ [])) (add_ch_by_incr incr x.ws) x.holder e,
  All-IsFor x.made_for incr x.received all,
  calm,
)

if_free-IsServed :
    (o : Option ℕ) (here later : Option (String × WsRespAsyn)) (x : Exchange)
    → IsServed (on_added here x)
    → IsServed (on_added later x)
    → IsServed (on_added (if_free o here later) x)
if_free-IsServed none here later x h l = h
if_free-IsServed (some i) here later x h l = l

add-IsServed :
    (incrs : List String) (x : Exchange)
    → x.holder ≡ none
    → IsServed x
    → IsServed (on_added (add_ch incrs x.ws) x)
unfolding add_ch
add-IsServed [] x e served = served
add-IsServed (incr ∷ incrs) x e served =
    if_free-IsServed (lookup incr x.ws.ws_notification) (some (incr, add_ch_by_incr incr x.ws))
      (add_ch incrs x.ws) x (added-IsServed incr x e served) (add-IsServed incrs x e served)

close-IsServed :
    (incr : String) (i : ℕ) (o : Option Chan) (x : Exchange)
    → lookup i x.ws.chans ≡ o
    → x.holder ≡ none
    → IsFor x.made_for i incr × (is_open (lookup i x.ws.chans) ≡ true)
    → IsServed x
    → IsServed (on_deleted (forget incr (close_ch i o x.ws)) x)
close-IsServed incr i none x e free own served = absurd (cc (own.1))
close-IsServed incr i (some chan) x e free own (kept, held, all, calm) =
    let after = set_chan i (record chan { is_closed = true }) x.ws in
    subst (λ b. IsServed (on_deleted (forget incr (if b then none else some after)) x))
      (sym (opens chan (ap is_open (sym e) ∙ own.1)))
      (
        closed-IsKept x.made_for incr i chan x.ws kept own.0 e,
        no_holder x.made_for (record after { ws_notification = delete incr x.ws.ws_notification })
            x.holder free,
        all,
        calm,
      )

del-IsServed :
    (incr : String) (o : Option ℕ) (x : Exchange)
    → lookup incr x.ws.ws_notification ≡ o
    → x.holder ≡ none
    → IsServed x
    → IsServed (on_deleted (del_found incr o x.ws) x)
del-IsServed incr none x e free served = served
del-IsServed incr (some i) x e free served =
    close-IsServed incr i (lookup i x.ws.chans) x refl free (served.0.1 incr i e) served

put-IsServed :
    (i : ℕ) (resp : GeneralWsResp) (chan : Chan) (o : Option GeneralWsResp) (x : Exchange)
    → lookup i x.ws.chans ≡ some chan
    → IsFor x.made_for i resp.msg_incr × (is_open (lookup i x.ws.chans) ≡ true)
    → IsServed x
    → IsServed (on_sent i resp (put i resp chan o x.ws) x)
put-IsServed i resp chan none x e own (kept, held, all, calm) = (
  set-IsKept x.made_for i chan (record chan { buffer = some resp }) x.ws kept e refl
      (λ r h. let fits = own.0 in cc),
  tt,
  all,
  calm,
)
put-IsServed i resp chan (some old) x e own (kept, held, all, calm) = (kept, own, all, calm)

offer-IsServed :
    (i : ℕ) (resp : GeneralWsResp) (o : Option Chan) (x : Exchange)
    → lookup i x.ws.chans ≡ o
    → IsFor x.made_for i resp.msg_incr × (is_open (lookup i x.ws.chans) ≡ true)
    → IsServed x
    → IsServed (on_sent i resp (offer i resp o x.ws) x)
offer-IsServed i resp none x e own served = absurd (cc (own.1))
offer-IsServed i resp (some chan) x e own served =
    let opened = opens chan (ap is_open (sym e) ∙ own.1) in
    subst
      (λ b. IsServed (on_sent i resp (if b then panics else put i resp chan chan.buffer x.ws) x))
      (sym opened) (put-IsServed i resp chan chan.buffer x e own served)

sent-IsServed :
    (i : ℕ) (resp : GeneralWsResp) (x : Exchange)
    → IsFor x.made_for i resp.msg_incr × (is_open (lookup i x.ws.chans) ≡ true)
    → IsServed x
    → IsServed (on_sent i resp (notify_ch i resp x.ws) x)
unfolding notify_ch
sent-IsServed i resp x own served = offer-IsServed i resp (lookup i x.ws.chans) x refl own served

notify-IsServed :
    (o : Option ℕ) (resp : GeneralWsResp) (x : Exchange)
    → get_ch resp.msg_incr x.ws ≡ o
    → IsServed x
    → IsServed (notify_resp_found o resp x)
notify-IsServed none resp x e served = served
notify-IsServed (some i) resp x e served =
    sent-IsServed i resp x (served.0.1 resp.msg_incr i e) served

retry-IsServed :
    (o : Option (ℕ × GeneralWsResp)) (x : Exchange)
    → x.holder ≡ o
    → IsServed x
    → IsServed (retry_held o x)
retry-IsServed none x e served = served
retry-IsServed (some (i, resp)) x e served =
    sent-IsServed i resp x (subst (IsHeld x.made_for x.ws) e served.1) served

set-IsHeld :
    (o : Option (ℕ × GeneralWsResp)) (i : ℕ) (chan chan' : Chan) (made_for : List String)
    (u : WsRespAsyn)
    → lookup i u.chans ≡ some chan
    → chan'.is_closed ≡ chan.is_closed
    → IsHeld made_for u o
    → IsHeld made_for (set_chan i chan' u) o
set-IsHeld none i chan chan' made_for u e same held = tt
set-IsHeld (some (j, resp)) i chan chan' made_for u e same held =
    (held.0, set-open i j chan chan' u e same ∙ held.1)

take-IsServed :
    (i : ℕ) (chan : Chan) (o : Option GeneralWsResp) (x : Exchange)
    → lookup i x.ws.chans ≡ some chan
    → chan.buffer ≡ o
    → IsServed x
    → IsServed (take_from i chan o x)
take-IsServed i chan none x e full served = served
take-IsServed i chan (some resp) x e full (kept, held, all, calm) = (
  set-IsKept x.made_for i chan (record chan { buffer = none }) x.ws kept e refl
      (λ r h. absurd (cc)),
  set-IsHeld x.holder i chan (record chan { buffer = none }) x.made_for x.ws e refl held,
  All-append (Matches x.made_for) x.received ((i, resp) ∷ []) all
      (kept.2 i resp (ap buffer_of e ∙ full), tt),
  calm,
)

receive-IsServed :
    (i : ℕ) (o : Option Chan) (x : Exchange)
    → lookup i x.ws.chans ≡ o
    → IsServed x
    → IsServed (receive_from i o x)
receive-IsServed i none x e served = served
receive-IsServed i (some chan) x e served = take-IsServed i chan chan.buffer x e refl served

free-IsServed :
    (o : Option (ℕ × GeneralWsResp)) (x after : Exchange)
    → IsServed x
    → (o ≡ none → IsServed after)
    → IsServed (when_free o x after)
free-IsServed none x after served h = h refl
free-IsServed (some held) x after served h = served

pub step-IsServed : (event : Event) (x : Exchange) → IsServed x → IsServed (step event x)
unfolding step del_ch
step-IsServed (add incrs) x served =
    free-IsServed x.holder x (on_added (add_ch incrs x.ws) x) served
      (λ e. add-IsServed incrs x e served)
step-IsServed (add_by_incr incr) x served =
    free-IsServed x.holder x (on_added (some (incr, add_ch_by_incr incr x.ws)) x) served
      (λ e. added-IsServed incr x e served)
step-IsServed (notify resp) x served =
    free-IsServed x.holder x (notify_resp_found (get_ch resp.msg_incr x.ws) resp x) served
      (λ e. notify-IsServed (get_ch resp.msg_incr x.ws) resp x refl served)
step-IsServed retry x served = retry-IsServed x.holder x refl served
step-IsServed (receive i) x served = receive-IsServed i (lookup i x.ws.chans) x refl served
step-IsServed (del incr) x served =
    free-IsServed x.holder x (on_deleted (del_ch incr x.ws) x) served
      (λ e. del-IsServed incr (get_ch incr x.ws) x refl e served)

pub run-IsServed : (events : List Event) (x : Exchange) → IsServed x → IsServed (run events x)
run-IsServed [] x served = served
run-IsServed (event ∷ events) x served =
    run-IsServed events (step event x) (step-IsServed event x served)

pub new-IsServed : IsServed new_exchange
unfolding lookup
new-IsServed = ((refl, λ incr i h. absurd (cc), λ i resp h. absurd (cc)), tt, tt, refl)

-- In whatever order requests, responses, receivers and deletions of channels come: nothing panics,
-- and each response that was received carries the string that its channel was made for.
pub run-Answers :
    (events : List Event)
    → ((run events new_exchange).panicked ≡ false)
      × All (Matches (run events new_exchange).made_for) (run events new_exchange).received
run-Answers events =
    let (kept, held, all, calm) = run-IsServed events new_exchange new-IsServed in (calm, all)
