-- ===== src/LongConn/Replies/Stuck.antt =====
-- A `NotifyResp` that finds its channel full: internal/interaction/ws_resp_asyn.go.
use openim_sdk_core.Prelude.{
  ℕ, ◌≡◌, refl, sym, ap, subst, ◌∙◌, true, false, List, [], ◌∷◌, Option, none, some, String, nat_eq,
  ◌==◌, All, if_both, arith,
}
use openim_sdk_core.Prelude.Map.{Map, lookup}
use openim_sdk_core.LongConn.{GeneralWsResp}
use openim_sdk_core.LongConn.Replies.{
  Chan, panics, put, offer, notify_ch, Exchange, Event, add, add_by_incr, notify, retry, receive,
  del, when_free, on_added, on_deleted, on_sent, notify_resp_found, retry_held, take_from,
  receive_from, step, run, add_ch, add_ch_by_incr, get_ch, del_ch,
}
use openim_sdk_core.LongConn.Replies.Owners.{buffer_of}
use openim_sdk_core.LongConn.Replies.Answered.{leaves}
use openim_sdk_core.LongConn.Replies.Apart.{set_other}

-- `NotifyResp` has the mutex, and the channel it sends to is full; `names` are the registered
-- strings.
abbrev pub IsStuck : Map String ℕ → ℕ → GeneralWsResp → GeneralWsResp → Exchange → Type 0
IsStuck names i old new x =
    (x.holder ≡ some (i, new))
    × (buffer_of (lookup i x.ws.chans) ≡ some old)
    × (x.ws.ws_notification ≡ names)

busy-IsStuck :
    (names : Map String ℕ) (i : ℕ) (old new : GeneralWsResp) (o : Option (ℕ × GeneralWsResp))
    (x after : Exchange)
    → x.holder ≡ o
    → IsStuck names i old new x
    → IsStuck names i old new (when_free o x after)
busy-IsStuck names i old new none x after e s = let held = s.0 in absurd (cc)
busy-IsStuck names i old new (some h) x after e s = s

take-IsStuck :
    (names : Map String ℕ) (i j : ℕ) (old new : GeneralWsResp) (chan : Chan)
    (o : Option GeneralWsResp) (x : Exchange)
    → j == i ≡ false
    → IsStuck names i old new x
    → IsStuck names i old new (take_from j chan o x)
take-IsStuck names i j old new chan none x away s = s
take-IsStuck names i j old new chan (some resp) x away (held, full, same) =
    (held, ap buffer_of (set_other i j (record chan { buffer = none }) x.ws away) ∙ full, same)

receive-IsStuck :
    (names : Map String ℕ) (i j : ℕ) (old new : GeneralWsResp) (o : Option Chan) (x : Exchange)
    → j == i ≡ false
    → IsStuck names i old new x
    → IsStuck names i old new (receive_from j o x)
receive-IsStuck names i j old new none x away s = s
receive-IsStuck names i j old new (some chan) x away s =
    take-IsStuck names i j old new chan chan.buffer x away s

offer-IsStuck :
    (names : Map String ℕ) (i : ℕ) (old new : GeneralWsResp) (o : Option Chan) (x : Exchange)
    → buffer_of o ≡ some old
    → IsStuck names i old new x
    → IsStuck names i old new (on_sent i new (offer i new o x.ws) x)
offer-IsStuck names i old new none x e s = absurd (cc)
offer-IsStuck names i old new (some chan) x e (held, full, same) =
    if_both (λ r. IsStuck names i old new (on_sent i new r x)) chan.is_closed panics
      (put i new chan chan.buffer x.ws) (held, full, same)
      (subst (λ b. IsStuck names i old new (on_sent i new (put i new chan b x.ws) x)) (sym e)
        (refl, full, same))

retry-IsStuck :
    (names : Map String ℕ) (i : ℕ) (old new : GeneralWsResp) (x : Exchange)
    → IsStuck names i old new x
    → IsStuck names i old new (retry_held x.holder x)
unfolding notify_ch
retry-IsStuck names i old new x s =
    subst (λ o. IsStuck names i old new (retry_held o x)) (sym s.0)
      (offer-IsStuck names i old new (lookup i x.ws.chans) x s.1 s)

step-IsStuck :
    (names : Map String ℕ) (i : ℕ) (old new : GeneralWsResp) (event : Event) (x : Exchange)
    → leaves i event ≡ true
    → IsStuck names i old new x
    → IsStuck names i old new (step event x)
unfolding step
step-IsStuck names i old new (add incrs) x kept s =
    busy-IsStuck names i old new x.holder x (on_added (add_ch incrs x.ws) x) refl s
step-IsStuck names i old new (add_by_incr k) x kept s =
    busy-IsStuck names i old new x.holder x (on_added (some (k, add_ch_by_incr k x.ws)) x) refl s
step-IsStuck names i old new (notify resp) x kept s =
    busy-IsStuck names i old new x.holder x (notify_resp_found (get_ch resp.msg_incr x.ws) resp x)
      refl s
step-IsStuck names i old new retry x kept s = retry-IsStuck names i old new x s
step-IsStuck names i old new (receive j) x kept s =
    receive-IsStuck names i j old new (lookup j x.ws.chans) x (ground arith) s
step-IsStuck names i old new (del k) x kept s =
    busy-IsStuck names i old new x.holder x (on_deleted (del_ch k x.ws) x) refl s

-- While a `NotifyResp` has the mutex and its channel is full, and as long as nobody receives from
-- that channel, it keeps the mutex and no string is registered or deleted, however often it tries
-- again.
pub run-IsStuck :
    (names : Map String ℕ) (i : ℕ) (old new : GeneralWsResp) (events : List Event) (x : Exchange)
    → IsStuck names i old new x
    → All (λ event. leaves i event ≡ true) events
    → IsStuck names i old new (run events x)
run-IsStuck names i old new [] x s kept = s
run-IsStuck names i old new (event ∷ events) x s kept =
    run-IsStuck names i old new events (step event x)
      (step-IsStuck names i old new event x kept.0 s) kept.1
