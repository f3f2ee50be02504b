-- ===== src/LongConn/Replies.antt =====
-- The channels on which requests wait for their responses: internal/interaction/ws_resp_asyn.go.
pub mod Owners
pub mod Served
pub mod Apart
pub mod Waiting
pub mod Answered
pub mod First
pub mod Stuck
pub mod Request
use openim_sdk_core.Prelude.{
  ℕ, zero, suc, Bool, true, false, List, [], ◌∷◌, ◌++◌, Option, none, some, String, nat_eq,
  string_eq, if◌then◌else◌,
}
use openim_sdk_core.Prelude.Map.{Map, lookup, insert, delete}
use openim_sdk_core.LongConn.{GeneralWsResp}

-- A channel of capacity 1.
pub record Chan : Type 0 where
  pub buffer : Option GeneralWsResp
  pub is_closed : Bool

-- `chans` are the channels by their identity, which is the count of those made before.
pub record WsRespAsyn : Type 0 where
  pub ws_notification : Map String ℕ
  pub chans : Map ℕ Chan
  pub made : ℕ

abbrev pub new_ws_resp_asyn : WsRespAsyn
new_ws_resp_asyn = record { ws_notification = []; chans = []; made = 0 }

abbrev pub new_chan : Chan
new_chan = record { buffer = none; is_closed = false }

abbrev pub set_chan : ℕ → Chan → WsRespAsyn → WsRespAsyn
set_chan i chan u = record u { chans = insert i chan u.chans }

-- `AddChByIncr`; the channel is the one whose identity `made` was.
unfoldable pub add_ch_by_incr : String → WsRespAsyn → WsRespAsyn
add_ch_by_incr incr u = record u {
  ws_notification = insert incr u.made u.ws_notification;
  chans = insert u.made new_chan u.chans;
  made = suc u.made;
}

abbrev pub if_free :
    Option ℕ
    → Option (String × WsRespAsyn)
    → Option (String × WsRespAsyn)
    → Option (String × WsRespAsyn)
if_free (some i) here later = later
if_free none here later = here

-- `AddCh`, where `GenMsgIncr` returns the strings of the list one after the other: the first that is
-- not in use; none when all of them are, and the loop goes on.
unfoldable pub add_ch : List String → WsRespAsyn → Option (String × WsRespAsyn)
add_ch [] u = none
add_ch (incr ∷ incrs) u =
    if_free (lookup incr u.ws_notification) (some (incr, add_ch_by_incr incr u)) (add_ch incrs u)

abbrev pub get_ch : String → WsRespAsyn → Option ℕ
get_ch incr u = lookup incr u.ws_notification

-- `close(ch)`: none is the panic on a channel that is nil or closed.
abbrev pub close_ch : ℕ → Option Chan → WsRespAsyn → Option WsRespAsyn
close_ch i none u = none
close_ch i (some chan) u =
    if chan.is_closed then none else some (set_chan i (record chan { is_closed = true }) u)

abbrev pub forget : String → Option WsRespAsyn → Option WsRespAsyn
forget incr none = none
forget incr (some u) = some (record u { ws_notification = delete incr u.ws_notification })

abbrev pub del_found : String → Option ℕ → WsRespAsyn → Option WsRespAsyn
del_found incr none u = some u
del_found incr (some i) u = forget incr (close_ch i (lookup i u.chans) u)

-- none is a panic.
unfoldable pub del_ch : String → WsRespAsyn → Option WsRespAsyn
del_ch incr u = del_found incr (get_ch incr u) u

-- What becomes of one `notifyCh`.
pub data Sent : Type 0 where
  sent : WsRespAsyn → Sent
  timed_out : Sent
  panics : Sent

abbrev pub put : ℕ → GeneralWsResp → Chan → Option GeneralWsResp → WsRespAsyn → Sent
put i resp chan none u = sent (set_chan i (record chan { buffer = some resp }) u)
put i resp chan (some old) u = timed_out

abbrev pub offer : ℕ → GeneralWsResp → Option Chan → WsRespAsyn → Sent
offer i resp none u = timed_out
offer i resp (some chan) u = if chan.is_closed then panics else put i resp chan chan.buffer u

-- A send on a nil channel waits, one on a closed channel panics.
unfoldable pub notify_ch : ℕ → GeneralWsResp → WsRespAsyn → Sent
notify_ch i resp u = offer i resp (lookup i u.chans) u

-- The registry while goroutines use it: `holder` is the channel and the response of the
-- `NotifyResp` that is between two of its attempts and so keeps the mutex, `made_for` are the
-- strings that the channels were made for, and `received` what receivers took from which channel,
-- the first one first.
pub record Exchange : Type 0 where
  pub ws : WsRespAsyn
  pub holder : Option (ℕ × GeneralWsResp)
  pub made_for : List String
  pub received : List (ℕ × GeneralWsResp)
  pub panicked : Bool

abbrev pub new_exchange : Exchange
new_exchange = record {
  ws = new_ws_resp_asyn;
  holder = none;
  made_for = [];
  received = [];
  panicked = false;
}

-- `retry` is the next attempt of the `NotifyResp` that keeps the mutex, and `receive` an attempt to
-- take a response from a channel.
pub data Event : Type 0 where
  add : List String → Event
  add_by_incr : String → Event
  notify : GeneralWsResp → Event
  retry : Event
  receive : ℕ → Event
  del : String → Event

-- A call that needs the mutex waits while it is held.
abbrev pub when_free : Option (ℕ × GeneralWsResp) → Exchange → Exchange → Exchange
when_free none x after = after
when_free (some held) x after = x

abbrev pub on_added : Option (String × WsRespAsyn) → Exchange → Exchange
on_added none x = x
on_added (some (incr, u)) x = record x { ws = u; made_for = x.made_for ++ (incr ∷ []) }

abbrev pub on_deleted : Option WsRespAsyn → Exchange → Exchange
on_deleted none x = record x { panicked = true }
on_deleted (some u) x = record x { ws = u }

-- After an attempt of `NotifyResp`.
abbrev pub on_sent : ℕ → GeneralWsResp → Sent → Exchange → Exchange
on_sent i resp (sent u) x = record x { ws = u; holder = none }
on_sent i resp timed_out x = record x { holder = some (i, resp) }
on_sent i resp panics x = record x { panicked = true }

-- `NotifyResp` up to its first attempt; with no channel it returns an error.
abbrev pub notify_resp_found : Option ℕ → GeneralWsResp → Exchange → Exchange
notify_resp_found none resp x = x
notify_resp_found (some i) resp x = on_sent i resp (notify_ch i resp x.ws) x

abbrev pub retry_held : Option (ℕ × GeneralWsResp) → Exchange → Exchange
retry_held none x = x
retry_held (some (i, resp)) x = on_sent i resp (notify_ch i resp x.ws) x

abbrev pub take_from : ℕ → Chan → Option GeneralWsResp → Exchange → Exchange
take_from i chan none x = x
take_from i chan (some resp) x = record x {
  ws = set_chan i (record chan { buffer = none }) x.ws;
  received = x.received ++ ((i, resp) ∷ []);
}

-- With an empty buffer the receiver goes on to wait, or learns that the channel was closed.
abbrev pub receive_from : ℕ → Option Chan → Exchange → Exchange
receive_from i none x = x
receive_from i (some chan) x = take_from i chan chan.buffer x

unfoldable pub step : Event → Exchange → Exchange
step (add incrs) x = when_free x.holder x (on_added (add_ch incrs x.ws) x)
step (add_by_incr incr) x =
    when_free x.holder x (on_added (some (incr, add_ch_by_incr incr x.ws)) x)
step (notify resp) x = when_free x.holder x (notify_resp_found (get_ch resp.msg_incr x.ws) resp x)
step retry x = retry_held x.holder x
step (receive i) x = receive_from i (lookup i x.ws.chans) x
step (del incr) x = when_free x.holder x (on_deleted (del_ch incr x.ws) x)

abbrev pub run : List Event → Exchange → Exchange
run [] x = x
run (event ∷ events) x = run events (step event x)
