-- ===== src/LongConn/Status/Dial.antt =====
-- What `reConn` of internal/interaction/long_conn_mgr.go leaves on each of its branches.
use openim_sdk_core.Prelude.{
  ℕ, suc, ◌≡◌, refl, Bool, true, false, not, List, [], ◌∷◌, ◌++◌, Option, none, some, String,
}
use openim_sdk_core.Prelude.Outcome.{Outcome, done, fail, Result, ok, err}
use openim_sdk_core.LongConn.{GeneralWsReq}
use openim_sdk_core.Reconnect.{reset}
use openim_sdk_core.Subscription.{get_new_conn_sub_user_ids, on_conn_closed}
use openim_sdk_core.LongConn.Status.{
  LongConnMgr, Link, connecting, connected, is_connected, on_connecting, on_connect_success, emit,
  set_connection_status, unless_error, write_binary_msg_no_lock, sub_request, with_payload,
  write_sub_info, first_sub, write_conn_first_sub_msg, unreadable, malformed, api_resp, DialResult,
  dialled, refused, on_dial, re_conn,
}

-- Whether the source gives up: the server answered that the token serves no more.
abbrev pub gives_up : (ℕ → Bool) → DialResult → Bool
gives_up is_token_error (refused (some (api_resp code text)) e) = is_token_error code
gives_up is_token_error dial = false

-- Whether the dial connects, when these users are to be subscribed to.
abbrev pub connects : DialResult → List String → Bool
connects dialled [] = true
connects dial ids = false

abbrev pub is_done : Outcome LongConnMgr → Bool
is_done (done c) = true
is_done (fail e c) = false

-- After `c`: connected, and told so, with the waiting times reset, or an error and not connected.
unfoldable pub Settled : LongConnMgr → Outcome LongConnMgr → Type 0
Settled c (done c') =
    (c'.conn_status ≡ connected)
    × (c'.callbacks ≡ (c.callbacks ++ (on_connecting ∷ [])) ++ (on_connect_success ∷ []))
    × (c'.reconnect_strategy ≡ reset c.reconnect_strategy)
    × (c'.notices ≡ suc c.notices)
Settled c (fail e c') = is_connected c'.conn_status ≡ false

-- Nothing is written while the status is not that of a connection.
refused_write :
    (link : Link) (req : GeneralWsReq) (c : LongConnMgr)
    → is_connected c.conn_status ≡ false
    → (e : String) × (write_binary_msg_no_lock link req c ≡ fail e c)
unfolding write_binary_msg_no_lock
refused_write link req c off = rw off (by_encoding (link.encode req))
  where
    by_encoding :
        (o : Option String)
        → (e : String) × (unless_error o c (fail "connection closed,re conning..." c) ≡ fail e c)
    by_encoding none = ("connection closed,re conning...", refl)
    by_encoding (some e) = (e, refl)

refused_sub :
    (link : Link) (ids : List String) (c : LongConnMgr)
    → is_connected c.conn_status ≡ false
    → (e : String) × (write_sub_info link ids [] c ≡ fail e c)
unfolding write_sub_info
refused_sub link ids c off = by_payload (link.marshal_sub ids [])
  where
    by_payload : (r : Result String) → (e : String) × (with_payload r link c ≡ fail e c)
    by_payload (ok payload) = refused_write link (sub_request link payload) c off
    by_payload (err e) = (e, refl)

pub first_sub-refused :
    (link : Link) (id : String) (ids : List String) (c : LongConnMgr)
    → is_connected c.conn_status ≡ false
    → (e : String) × (first_sub link (id ∷ ids) c
        ≡ fail e (record c { sub = on_conn_closed (some e) c.sub }))
first_sub-refused link id ids c off =
    let (e, same) = refused_sub link (id ∷ ids) c off in (e, rw same refl)

-- A reconnection of a manager `c` that was started.
abbrev Ends :
    (ℕ → Bool) → DialResult → List String → LongConnMgr → Bool × Outcome LongConnMgr → Type 0
Ends is_token_error dial ids c r =
    (r.0 ≡ not (gives_up is_token_error dial)) × (is_done r.1 ≡ connects dial ids) × Settled c r.1

on_dial-Ends :
    (link : Link) (is_token_error : ℕ → Bool) (dial : DialResult) (ids : List String)
    (c : LongConnMgr)
    → get_new_conn_sub_user_ids c.sub ≡ ids
    → Ends is_token_error dial ids c
        (on_dial link is_token_error dial (set_connection_status connecting (emit on_connecting c)))
unfolding Settled write_conn_first_sub_msg
on_dial-Ends link is_token_error dialled [] c users =
    rw users (refl, refl, (refl, refl, refl, refl))
on_dial-Ends link is_token_error dialled (id ∷ ids) c users =
    let started = set_connection_status connecting (emit on_connecting c) in
    let (e, same) = first_sub-refused link id ids started refl in
    rw users (rw same (refl, refl, refl))
on_dial-Ends link is_token_error (refused none e) ids c users = (refl, refl, refl)
on_dial-Ends link is_token_error (refused (some (unreadable e')) e) ids c users = (refl, refl, refl)
on_dial-Ends link is_token_error (refused (some (malformed e')) e) ids c users = (refl, refl, refl)
on_dial-Ends link is_token_error (refused (some (api_resp code t)) e) ids c users =
    (refl, refl, refl)

-- A reconnection of a manager that is not connected asks to be called again unless the server
-- refused the token. It connects just when the dial does and no user is to be subscribed to again:
-- a user who is makes it fail, since the request is written before the status is that of a
-- connection. Connected, it told the listener so, reset the waiting times and sent one notice; with
-- an error it is not connected.
pub re_conn-Settled :
    (link : Link) (is_token_error : ℕ → Bool) (dial : DialResult) (c : LongConnMgr)
    → is_connected c.conn_status ≡ false
    → ((re_conn link is_token_error dial c).0 ≡ not (gives_up is_token_error dial))
      × (is_done (re_conn link is_token_error dial c).1
          ≡ connects dial (get_new_conn_sub_user_ids c.sub))
      × Settled c (re_conn link is_token_error dial c).1
unfolding re_conn
re_conn-Settled link is_token_error dial c off =
    rw off (on_dial-Ends link is_token_error dial (get_new_conn_sub_user_ids c.sub) c refl)
