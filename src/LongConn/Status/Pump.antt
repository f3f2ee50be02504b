-- ===== src/LongConn/Status/Pump.antt =====
-- The messages that are read: `handleMessage`, `readPump` and `doBatch` of
-- internal/interaction/long_conn_mgr.go.
use openim_sdk_core.Prelude.{
  ℕ, Bool, true, false, ◌||◌, List, [], ◌∷◌, ◌++◌, Option, none, some, String, nat_eq, string_eq,
  ◌==◌, if◌then◌else◌,
}
use openim_sdk_core.Prelude.Map.{Map}
use openim_sdk_core.Prelude.Outcome.{Outcome, done, fail, Result, ok, err}
use openim_sdk_core.LongConn.{GeneralWsResp}
use openim_sdk_core.MessageBatcher.{PushMessages, Context, enqueue, close as close_batcher}
use openim_sdk_core.Reconnect.{get_sleep_interval}
use openim_sdk_core.Subscription.{set_user_state, on_conn_closed}
use openim_sdk_core.LongConn.Status.{
  LongConnMgr, Link, on_error, emit, close, DialResult, re_conn, get_newest_seq,
  ws_sub_user_online_status,
}

-- The identifiers of `constant`.
abbrev pub pull_msg_by_range : ℕ
pull_msg_by_range = 1002

abbrev pub send_msg : ℕ
send_msg = 1003

abbrev pub send_signal_msg : ℕ
send_signal_msg = 1004

abbrev pub pull_msg_by_seq_list : ℕ
pull_msg_by_seq_list = 1005

abbrev pub get_conv_max_read_seq : ℕ
get_conv_max_read_seq = 1006

abbrev pub pull_conv_last_message : ℕ
pull_conv_last_message = 1007

abbrev pub push_msg : ℕ
push_msg = 2001

abbrev pub kick_online_msg : ℕ
kick_online_msg = 2002

abbrev pub logout_msg : ℕ
logout_msg = 2003

abbrev pub set_background_status : ℕ
set_background_status = 2004

-- What `proto.Unmarshal` makes of the payload of a response, and what `Enqueue` of the batcher takes
-- beside the messages: the product of its delay, the readings of the clock, and the context.
pub record Codec : Type 0 where
  pub push_messages : String → Result PushMessages
  pub tips : String → Result (List (String × List ℕ))
  pub scaled : ℕ → ℕ
  pub now : ℕ
  pub until : ℕ
  pub again : ℕ
  pub ctx : Context

abbrev pub enqueue_pushed : Codec → Result PushMessages → LongConnMgr → LongConnMgr
enqueue_pushed codec (err e) c = c
enqueue_pushed codec (ok msgs) c = record c {
  mb = enqueue codec.scaled codec.now codec.until codec.again codec.ctx (some msgs) c.mb;
}

unfoldable pub do_push_msg : Codec → GeneralWsResp → LongConnMgr → LongConnMgr
do_push_msg codec resp c = enqueue_pushed codec (codec.push_messages resp.payload) c

abbrev pub callback_user_online_change : Map String (List ℕ) → LongConnMgr → LongConnMgr
callback_user_online_change [] c = c
callback_user_online_change (user ∷ users) c = record c {
  online = c.online ++ ((user ∷ users) ∷ []);
}

abbrev pub set_online : Result (List (String × List ℕ)) → LongConnMgr → LongConnMgr
set_online (err e) c = c
set_online (ok changes) c =
    let after = set_user_state changes (c.sub, []) in
    callback_user_online_change after.1 (record c { sub = after.0 })

-- Its errors are only logged.
unfoldable pub handler_user_online_change : Codec → GeneralWsResp → LongConnMgr → LongConnMgr
handler_user_online_change codec resp c =
    if resp.err_code == 0 then set_online (codec.tips resp.payload) c else c

abbrev pub is_reply : ℕ → Bool
is_reply id =
    id == get_newest_seq
    || (id == pull_msg_by_range
        || (id == pull_msg_by_seq_list
            || (id == get_conv_max_read_seq
                || (id == pull_conv_last_message
                    || (id == send_msg
                        || (id == send_signal_msg || id == set_background_status))))))

abbrev pub notify_resp : GeneralWsResp → LongConnMgr → LongConnMgr
notify_resp resp c = record c { notified = c.notified ++ (resp ∷ []) }

abbrev pub close_mb : LongConnMgr → LongConnMgr
close_mb c = record c { mb = close_batcher c.mb }

-- The switch of `handleMessage`.
unfoldable pub handle_resp : Codec → GeneralWsResp → LongConnMgr → Outcome LongConnMgr
handle_resp codec resp c =
    let id = resp.req_identifier in
    if id == push_msg
    then done (do_push_msg codec resp c)
    else if id == logout_msg
    then fail "login out" (close_mb (notify_resp resp c))
    else if id == kick_online_msg
    then fail "token kicked" (emit (on_error "token kicked") (close_mb c))
    else if is_reply id
    then done (notify_resp resp c)
    else if id == ws_sub_user_online_status
    then done (handler_user_online_change codec resp c)
    else fail "message binary type not support" c

-- A message as `DecompressWithPool` and `Decode` find it. Without compression the first does not
-- come.
pub data Incoming : Type 0 where
  not_compressed : Incoming
  not_decoded : Incoming
  decoded : GeneralWsResp → Incoming

unfoldable pub handle_message : Codec → Incoming → LongConnMgr → Outcome LongConnMgr
handle_message codec not_compressed c = fail "message decompression" c
handle_message codec not_decoded c = fail "message decode" c
handle_message codec (decoded resp) c = handle_resp codec resp c

-- What `ReadMessage` returns.
pub data ReadResult : Type 0 where
  read_failed : String → ReadResult
  message_binary : Incoming → ReadResult
  message_text : ReadResult
  close_message : ReadResult
  message_other : ReadResult

-- A round of the loop of `readPump`: what the contexts say, and what `Dial` and `ReadMessage` return.
pub record Round : Type 0 where
  pub ctx_done : Option String
  pub fg_ctx_done : Option String
  pub link : Link
  pub dial : DialResult
  pub read : ReadResult
  pub codec : Codec

-- The round goes on with the loop or returns.
pub data Turn : Type 0 where
  again : LongConnMgr → Turn
  over : LongConnMgr → Turn

abbrev pub return_with : String → LongConnMgr → Turn
return_with e c = over (record c { closed_err = some e })

abbrev pub after_handling : Outcome LongConnMgr → Turn
after_handling (done c) = again c
after_handling (fail e c) = return_with e c

abbrev pub on_read : Codec → ReadResult → LongConnMgr → Turn
on_read codec (read_failed e) c =
    let c' = close c in again (record c' { sub = on_conn_closed (some e) c'.sub })
on_read codec (message_binary m) c = after_handling (handle_message codec m c)
on_read codec message_text c = return_with "not support message protocol" c
on_read codec close_message c = return_with "client actively close the connection" c
on_read codec message_other c = again c

abbrev pub sleep : LongConnMgr → LongConnMgr
sleep c =
    let interval = get_sleep_interval c.reconnect_strategy in
    record c { slept = c.slept ++ (interval.0 ∷ []); reconnect_strategy = interval.1 }

abbrev pub error_and_state : Outcome LongConnMgr → Option String × LongConnMgr
error_and_state (done c) = (none, c)
error_and_state (fail e c) = (some e, c)

abbrev pub on_re_conn : Round → Bool × Outcome LongConnMgr → Turn
on_re_conn r (false, o) = let (e, c) = error_and_state o in over (record c { closed_err = e })
on_re_conn r (true, fail e c) = again (sleep c)
on_re_conn r (true, done c) = on_read r.codec r.read c

abbrev pub on_contexts : Option String → Option String → LongConnMgr → Turn → Turn
on_contexts (some e) fg c rest = return_with e c
on_contexts none (some e) c rest = return_with e c
on_contexts none none c rest = rest

unfoldable pub round : (ℕ → Bool) → Round → LongConnMgr → Turn
round is_token_error r c =
    on_contexts r.ctx_done r.fg_ctx_done c (on_re_conn r (re_conn r.link is_token_error r.dial c))

abbrev pub continue_with : Turn → (LongConnMgr → Bool × LongConnMgr) → Bool × LongConnMgr
continue_with (again c) rest = rest c
continue_with (over c) rest = (true, close c)

-- The loop over the rounds to come, with the deferred `close`: whether it is over, and the manager.
unfoldable pub read_pump : (ℕ → Bool) → List Round → LongConnMgr → Bool × LongConnMgr
read_pump is_token_error [] c = (false, c)
read_pump is_token_error (r ∷ rs) c =
    continue_with (round is_token_error r c) (λ c'. read_pump is_token_error rs c')
