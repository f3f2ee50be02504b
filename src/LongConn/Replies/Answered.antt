-- ===== src/LongConn/Replies/Answered.antt =====
-- A response that waits in its channel: internal/interaction/ws_resp_asyn.go.
use openim_sdk_core.Prelude.{
  ℕ, ◌≡◌, refl, sym, ap, ◌∙◌, Bool, true, false, not, List, [], ◌∷◌, Option, none, some, String,
  nat_eq, string_eq, ◌==◌, All, if_both, inl, inr, arith,
}
use openim_sdk_core.Prelude.Map.{lookup}
use openim_sdk_core.LongConn.{GeneralWsResp}
use openim_sdk_core.LongConn.Replies.{
  Chan, WsRespAsyn, new_chan, set_chan, add_ch_by_incr, if_free, add_ch, get_ch, close_ch, forget,
  del_found, del_ch, panics, put, offer, notify_ch, Exchange, Event, add, add_by_incr, notify,
  retry, receive, del, when_free, on_added, on_deleted, on_sent, notify_resp_found, retry_held,
  take_from, receive_from, step, run,
}
use openim_sdk_core.LongConn.Replies.Owners.{buffer_of, IsServed, written_cases}
use openim_sdk_core.LongConn.Replies.Served.{step-IsServed}
use openim_sdk_core.LongConn.Replies.Apart.{set_other, later}

-- The event does not receive from the channel.
abbrev pub leaves : ℕ → Event → Bool
leaves i (receive j) = not (j == i)
leaves i event = true

abbrev pub IsAnswered : ℕ → GeneralWsResp → Exchange → Type 0
IsAnswered i resp x = buffer_of (lookup i x.ws.chans) ≡ some resp

added-IsAnswered :
    (i : ℕ) (resp : GeneralWsResp) (k : String) (x : Exchange)
    → IsServed x
    → IsAnswered i resp x
    → IsAnswered i resp (on_added (some (k, add_ch_by_incr k x.ws)) x)
unfolding add_ch_by_incr
added-IsAnswered i resp k x served full =
    ap buffer_of (
      set_other i x.ws.made new_chan x.ws (later i resp.msg_incr x served (served.0.2 i resp full)))
    ∙ full

if_free-IsAnswered :
    (i : ℕ) (resp : GeneralWsResp) (o : Option ℕ) (here rest : Option (String × WsRespAsyn))
    (x : Exchange)
    → IsAnswered i resp (on_added here x)
    → IsAnswered i resp (on_added rest x)
    → IsAnswered i resp (on_added (if_free o here rest) x)
if_free-IsAnswered i resp none here rest x h r = h
if_free-IsAnswered i resp (some j) here rest x h r = r

add-IsAnswered :
    (i : ℕ) (resp : GeneralWsResp) (incrs : List String) (x : Exchange)
    → IsServed x
    → IsAnswered i resp x
    → IsAnswered i resp (on_added (add_ch incrs x.ws) x)
unfolding add_ch
add-IsAnswered i resp [] x served full = full
add-IsAnswered i resp (k ∷ incrs) x served full =
    if_free-IsAnswered i resp (lookup k x.ws.ws_notification) (some (k, add_ch_by_incr k x.ws))
      (add_ch incrs x.ws) x (added-IsAnswered i resp k x served full)
      (add-IsAnswered i resp incrs x served full)

-- A full channel takes no other response.
put-IsAnswered :
    (i j : ℕ) (resp new : GeneralWsResp) (chan : Chan) (o : Option GeneralWsResp) (x : Exchange)
    → lookup j x.ws.chans ≡ some chan
    → chan.buffer ≡ o
    → IsAnswered i resp x
    → IsAnswered i resp (on_sent j new (put j new chan o x.ws) x)
put-IsAnswered i j resp new chan none x e empty full =
    elim (written_cases j i (record chan { buffer = some new }) x.ws.chans) [
      | inl (at, found) ↦
          let stored = ap buffer_of e in
          let here = ap (λ k. buffer_of (lookup k x.ws.chans)) at in absurd (cc)
      | inr (away, found) ↦ ap buffer_of found ∙ full
    ]
put-IsAnswered i j resp new chan (some old) x e taken full = full

offer-IsAnswered :
    (i j : ℕ) (resp new : GeneralWsResp) (o : Option Chan) (x : Exchange)
    → lookup j x.ws.chans ≡ o
    → IsAnswered i resp x
    → IsAnswered i resp (on_sent j new (offer j new o x.ws) x)
offer-IsAnswered i j resp new none x e full = full
offer-IsAnswered i j resp new (some chan) x e full =
    if_both (λ r. IsAnswered i resp (on_sent j new r x)) chan.is_closed panics
      (put j new chan chan.buffer x.ws) full
      (put-IsAnswered i j resp new chan chan.buffer x e refl full)

notify-IsAnswered :
    (i : ℕ) (resp new : GeneralWsResp) (o : Option ℕ) (x : Exchange)
    → IsAnswered i resp x
    → IsAnswered i resp (notify_resp_found o new x)
unfolding notify_ch
notify-IsAnswered i resp new none x full = full
notify-IsAnswered i resp new (some j) x full =
    offer-IsAnswered i j resp new (lookup j x.ws.chans) x refl full

retry-IsAnswered :
    (i : ℕ) (resp : GeneralWsResp) (o : Option (ℕ × GeneralWsResp)) (x : Exchange)
    → IsAnswered i resp x
    → IsAnswered i resp (retry_held o x)
unfolding notify_ch
retry-IsAnswered i resp none x full = full
retry-IsAnswered i resp (some (j, new)) x full =
    offer-IsAnswered i j resp new (lookup j x.ws.chans) x refl full

take-IsAnswered :
    (i j : ℕ) (resp : GeneralWsResp) (chan : Chan) (o : Option GeneralWsResp) (x : Exchange)
    → j == i ≡ false
    → IsAnswered i resp x
    → IsAnswered i resp (take_from j chan o x)
take-IsAnswered i j resp chan none x away full = full
take-IsAnswered i j resp chan (some old) x away full =
    ap buffer_of (set_other i j (record chan { buffer = none }) x.ws away) ∙ full

receive-IsAnswered :
    (i j : ℕ) (resp : GeneralWsResp) (o : Option Chan) (x : Exchange)
    → j == i ≡ false
    → IsAnswered i resp x
    → IsAnswered i resp (receive_from j o x)
receive-IsAnswered i j resp none x away full = full
receive-IsAnswered i j resp (some chan) x away full =
    take-IsAnswered i j resp chan chan.buffer x away full

-- A channel that is closed keeps its response.
close-IsAnswered :
    (i j : ℕ) (resp : GeneralWsResp) (k : String) (o : Option Chan) (x : Exchange)
    → lookup j x.ws.chans ≡ o
    → IsAnswered i resp x
    → IsAnswered i resp (on_deleted (forget k (close_ch j o x.ws)) x)
close-IsAnswered i j resp k none x e full = full
close-IsAnswered i j resp k (some chan) x e full =
    if_both (λ r. IsAnswered i resp (on_deleted (forget k r) x)) chan.is_closed none
      (some (set_chan j (record chan { is_closed = true }) x.ws)) full
      (elim (written_cases j i (record chan { is_closed = true }) x.ws.chans) [
        | inl (at, found) ↦
            ap buffer_of found
            ∙ ap buffer_of (sym e)
            ∙ ap (λ k. buffer_of (lookup k x.ws.chans)) at
            ∙ full
        | inr (away, found) ↦ ap buffer_of found ∙ full
      ])

del-IsAnswered :
    (i : ℕ) (resp : GeneralWsResp) (k : String) (o : Option ℕ) (x : Exchange)
    → IsAnswered i resp x
    → IsAnswered i resp (on_deleted (del_found k o x.ws) x)
del-IsAnswered i resp k none x full = full
del-IsAnswered i resp k (some j) x full =
    close-IsAnswered i j resp k (lookup j x.ws.chans) x refl full

free-IsAnswered :
    (i : ℕ) (resp : GeneralWsResp) (o : Option (ℕ × GeneralWsResp)) (x after : Exchange)
    → IsAnswered i resp x
    → IsAnswered i resp after
    → IsAnswered i resp (when_free o x after)
free-IsAnswered i resp none x after full h = h
free-IsAnswered i resp (some held) x after full h = full

step-IsAnswered :
    (i : ℕ) (resp : GeneralWsResp) (event : Event) (x : Exchange)
    → IsServed x
    → leaves i event ≡ true
    → IsAnswered i resp x
    → IsAnswered i resp (step event x)
unfolding step del_ch
step-IsAnswered i resp (add incrs) x served kept full =
    free-IsAnswered i resp x.holder x (on_added (add_ch incrs x.ws) x) full
      (add-IsAnswered i resp incrs x served full)
step-IsAnswered i resp (add_by_incr k) x served kept full =
    free-IsAnswered i resp x.holder x (on_added (some (k, add_ch_by_incr k x.ws)) x) full
      (added-IsAnswered i resp k x served full)
step-IsAnswered i resp (notify new) x served kept full =
    free-IsAnswered i resp x.holder x (notify_resp_found (get_ch new.msg_incr x.ws) new x) full
      (notify-IsAnswered i resp new (get_ch new.msg_incr x.ws) x full)
step-IsAnswered i resp retry x served kept full = retry-IsAnswered i resp x.holder x full
step-IsAnswered i resp (receive j) x served kept full =
    receive-IsAnswered i j resp (lookup j x.ws.chans) x (ground arith) full
step-IsAnswered i resp (del k) x served kept full =
    free-IsAnswered i resp x.holder x (on_deleted (del_ch k x.ws) x) full
      (del-IsAnswered i resp k (get_ch k x.ws) x full)

pub run-IsAnswered :
    (i : ℕ) (resp : GeneralWsResp) (events : List Event) (x : Exchange)
    → IsServed x
    → All (λ event. leaves i event ≡ true) events
    → IsAnswered i resp x
    → IsAnswered i resp (run events x)
run-IsAnswered i resp [] x served kept full = full
run-IsAnswered i resp (event ∷ events) x served kept full =
    run-IsAnswered i resp events (step event x) (step-IsServed event x served) kept.1
      (step-IsAnswered i resp event x served kept.0 full)
