-- ===== src/LongConn/Status.antt =====
-- The connection's status, its writes and its reconnections: internal/interaction/long_conn_mgr.go.
pub mod Dial
pub mod Retry
pub mod Pump
pub mod Handle
pub mod Quiet
pub mod Read
use openim_sdk_core.Prelude.{
  ℕ, zero, suc, ◌+◌, Bool, true, false, not, ◌&&◌, ◌||◌, List, [], ◌∷◌, ◌++◌, Option, none, some,
  String, nat_eq, string_eq, ◌==◌, if◌then◌else◌, length,
}
use openim_sdk_core.Prelude.Outcome.{Outcome, done, fail, ◌>>=◌, Result, ok, err}
use openim_sdk_core.Prelude.Map.{Map}
use openim_sdk_core.LongConn.{GeneralWsReq, GeneralWsResp}
use openim_sdk_core.MessageBatcher.{MessageBatcher}
use openim_sdk_core.Reconnect.{ExponentialRetry, get_sleep_interval, reset}
use openim_sdk_core.Subscription.{
  Subscription, get_new_conn_sub_user_ids, on_conn_closed, on_conn_success,
}

pub data ConnStatus : Type 0 where
  default_not_connect : ConnStatus
  closed : ConnStatus
  connecting : ConnStatus
  connected : ConnStatus

-- The calls of the listener and of the callback for errors of the API.
pub data Callback : Type 0 where
  on_connecting : Callback
  on_connect_failed : String → Callback
  on_connect_success : Callback
  on_error : String → Callback

abbrev pub max_reconnect_attempts : ℕ
max_reconnect_attempts = 300

-- The identifiers of `constant`.
abbrev pub get_newest_seq : ℕ
get_newest_seq = 1001

abbrev pub ws_sub_user_online_status : ℕ
ws_sub_user_online_status = 2005

-- `callbacks` and `written` are the calls and the requests written so far, the first one first,
-- `slept` the times that `readPump` slept, `notices` counts the calls of `DispatchConnected`,
-- `notified` are the responses given to `NotifyResp`, and `online` the maps given to `userOnline`.
pub record LongConnMgr : Type 0 where
  pub conn_status : ConnStatus
  pub closed_err : Option String
  pub is_compression : Bool
  pub sub : Subscription
  pub mb : MessageBatcher
  pub reconnect_strategy : ExponentialRetry
  pub callbacks : List Callback
  pub written : List GeneralWsReq
  pub slept : List ℕ
  pub notices : ℕ
  pub notified : List GeneralWsResp
  pub online : List (Map String (List ℕ))

-- The encoder, the compressor, the connection and `proto.Marshal`, by the errors they return, and
-- what a request of `writeSubInfo` takes from the context.
pub record Link : Type 0 where
  pub encode : GeneralWsReq → Option String
  pub compress : GeneralWsReq → Option String
  pub write_message : GeneralWsReq → Option String
  pub marshal_sub : List String → List String → Result String
  pub user_id : String
  pub operation_id : String
  pub msg_incr : String

abbrev pub is_connected : ConnStatus → Bool
is_connected connected = true
is_connected status = false

abbrev pub emit : Callback → LongConnMgr → LongConnMgr
emit call c = record c { callbacks = c.callbacks ++ (call ∷ []) }

abbrev pub set_connection_status : ConnStatus → LongConnMgr → LongConnMgr
set_connection_status status c = record c { conn_status = status }

-- `close`; the error of the connection's own `Close` is only logged.
unfoldable pub close : LongConnMgr → LongConnMgr
close c = if is_connected c.conn_status then record c { conn_status = closed } else c

-- `Close`.
unfoldable pub close_by_client : LongConnMgr → LongConnMgr
close_by_client c =
    if is_connected c.conn_status
    then close (record c { closed_err = some "closed by client network change" })
    else c

-- A call that returns an error, and the rest when it returns none.
abbrev pub unless_error : Option String → LongConnMgr → Outcome LongConnMgr → Outcome LongConnMgr
unless_error (some e) c rest = fail e c
unless_error none c rest = rest

abbrev pub write_message : Link → GeneralWsReq → LongConnMgr → Outcome LongConnMgr
write_message link req c =
    unless_error (link.write_message req) c (done (record c { written = c.written ++ (req ∷ []) }))

unfoldable pub write_binary_msg_no_lock : Link → GeneralWsReq → LongConnMgr → Outcome LongConnMgr
write_binary_msg_no_lock link req c = unless_error (link.encode req) c (
    if not (is_connected c.conn_status)
    then fail "connection closed,re conning..." c
    else if c.is_compression
    then unless_error (link.compress req) c (write_message link req c)
    else write_message link req c)

abbrev pub sub_request : Link → String → GeneralWsReq
sub_request link payload = record {
  req_identifier = ws_sub_user_online_status;
  token = "";
  send_id = link.user_id;
  operation_id = link.operation_id;
  msg_incr = link.msg_incr;
  payload = payload;
}

abbrev pub with_payload : Result String → Link → LongConnMgr → Outcome LongConnMgr
with_payload (ok payload) link c = write_binary_msg_no_lock link (sub_request link payload) c
with_payload (err e) link c = fail e c

unfoldable pub write_sub_info : Link → List String → List String → LongConnMgr → Outcome LongConnMgr
write_sub_info link subscribe unsubscribe c =
    with_payload (link.marshal_sub subscribe unsubscribe) link c

abbrev pub closed_on_error : Outcome LongConnMgr → Outcome LongConnMgr
closed_on_error (done c) = done c
closed_on_error (fail e c) = fail e (record c { sub = on_conn_closed (some e) c.sub })

abbrev pub first_sub : Link → List String → LongConnMgr → Outcome LongConnMgr
first_sub link [] c = done c
first_sub link (id ∷ ids) c = closed_on_error (write_sub_info link (id ∷ ids) [] c)

unfoldable pub write_conn_first_sub_msg : Link → LongConnMgr → Outcome LongConnMgr
write_conn_first_sub_msg link c = first_sub link (get_new_conn_sub_user_ids c.sub) c

-- The body of the response of a failed `Dial`: not readable, no JSON, or an error code with its text.
pub data Body : Type 0 where
  unreadable : String → Body
  malformed : String → Body
  api_resp : ℕ → String → Body

pub data DialResult : Type 0 where
  dialled : DialResult
  refused : Option Body → String → DialResult

-- `is_token_error` tells the codes of `errs` for a token that serves no more.
abbrev pub on_refused : (ℕ → Bool) → Option Body → String → LongConnMgr → Bool × Outcome LongConnMgr
on_refused is_token_error none e c = (true, fail e (emit (on_connect_failed e) c))
on_refused is_token_error (some (unreadable e')) e c = (true, fail e' c)
on_refused is_token_error (some (malformed e')) e c = (true, fail e' c)
on_refused is_token_error (some (api_resp code e')) e c =
    (not (is_token_error code), fail e' (emit (on_error e') c))

abbrev pub on_first_sub : Outcome LongConnMgr → Bool × Outcome LongConnMgr
on_first_sub (fail e c) = (true, fail e (emit (on_connect_failed e) (emit (on_error e) c)))
on_first_sub (done c) = (
  true,
  done (record (emit on_connect_success c) {
    sub = on_conn_success c.sub;
    conn_status = connected;
    reconnect_strategy = reset c.reconnect_strategy;
    notices = suc c.notices;
  }),
)

abbrev pub on_dial : Link → (ℕ → Bool) → DialResult → LongConnMgr → Bool × Outcome LongConnMgr
on_dial link is_token_error (refused body e) c =
    on_refused is_token_error body e (set_connection_status closed c)
on_dial link is_token_error dialled c = on_first_sub (write_conn_first_sub_msg link c)

-- Whether to go on, and the error.
unfoldable pub re_conn : Link → (ℕ → Bool) → DialResult → LongConnMgr → Bool × Outcome LongConnMgr
re_conn link is_token_error dial c =
    let started = set_connection_status connecting (emit on_connecting c) in
    let after = on_dial link is_token_error dial started in
    if is_connected c.conn_status then (true, done c) else after

abbrev pub or_again :
    Outcome LongConnMgr → (String → LongConnMgr → Outcome LongConnMgr) → Outcome LongConnMgr
or_again (done c) again = done c
or_again (fail e c) again = again e c

-- The attempts left of `writeBinaryMsgAndRetry`: at attempt `i` the other goroutines have left the
-- status `status i`, and the connection and the codecs return what `link i` says.
unfoldable pub write_attempts :
    ℕ → (ℕ → Link) → (ℕ → ConnStatus) → ℕ → GeneralWsReq → LongConnMgr → Outcome LongConnMgr
write_attempts zero link status i req c = fail "send binary message error" c
write_attempts (suc n) link status i req c =
    let c' = set_connection_status (status i) c in
    or_again (write_binary_msg_no_lock (link i) req c') (λ e after.
      write_attempts n link status (suc i) req (close (record after { closed_err = some e })))

unfoldable pub write_binary_msg_and_retry :
    (ℕ → Link) → (ℕ → ConnStatus) → GeneralWsReq → LongConnMgr → Outcome LongConnMgr
write_binary_msg_and_retry link status req c =
    let attempts = write_attempts max_reconnect_attempts link status 0 req c in
    if not (is_connected c.conn_status) && req.req_identifier == get_newest_seq
    then fail "connection closed,conning..." c
    else attempts
