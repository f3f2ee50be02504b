-- ===== src/LongConn/Status/Handle.antt =====
-- `reConn` and `handleMessage` of internal/interaction/long_conn_mgr.go, by the operations of the
-- subscriptions and the batcher that they use.
use openim_sdk_core.Prelude.{
  ℕ, ◌≡◌, refl, sym, ap, ◌∙◌, Bool, false, List, [], ◌∷◌, ◌++◌, Option, none, some, String, nat_eq,
  ◌==◌, if_both,
}
use openim_sdk_core.Prelude.Map.{Map}
use openim_sdk_core.Prelude.Outcome.{Outcome, done, fail, state_of, Result, ok, err}
use openim_sdk_core.LongConn.{GeneralWsResp}
use openim_sdk_core.MessageBatcher.{MessageBatcher, PushMessages}
use openim_sdk_core.MessageBatcher.Timer.{
  Call as BatcherCall, enqueued, closed as batcher_closed, call as call_batcher, run as run_batcher,
}
use openim_sdk_core.Subscription.{Subscription, set_user_state, get_new_conn_sub_user_ids}
use openim_sdk_core.Subscription.Waiters.{
  Call as SubCall, closed as sub_closed, connected as sub_connected, state_pushed, call as call_sub,
  run as run_sub,
}
use openim_sdk_core.LongConn.Status.{
  LongConnMgr, Link, closed, connecting, is_connected, on_connecting, on_error, emit,
  set_connection_status, first_sub, write_conn_first_sub_msg, Body, unreadable, malformed, api_resp,
  DialResult, dialled, refused, on_refused, on_first_sub, on_dial, re_conn,
  ws_sub_user_online_status,
}
use openim_sdk_core.LongConn.Status.Dial.{first_sub-refused}
use openim_sdk_core.LongConn.Status.Pump.{
  Codec, enqueue_pushed, do_push_msg, callback_user_online_change, set_online,
  handler_user_online_change, notify_resp, close_mb, handle_resp, push_msg, logout_msg,
  kick_online_msg, is_reply, Incoming, not_compressed, not_decoded, decoded, handle_message,
}

-- `s'` is `s` after some calls of the operations of the subscriptions.
abbrev pub SubCalls : Subscription → Subscription → Type 0
SubCalls s s' = (calls : List SubCall) × (s' ≡ run_sub calls s)

abbrev pub BatcherCalls : MessageBatcher → MessageBatcher → Type 0
BatcherCalls b b' = (calls : List BatcherCall) × (b' ≡ run_batcher calls b)

abbrev pub Refines : LongConnMgr → LongConnMgr → Type 0
Refines c c' = SubCalls c.sub c'.sub × BatcherCalls c.mb c'.mb

run_sub-append :
    (xs ys : List SubCall) (s : Subscription) → run_sub (xs ++ ys) s ≡ run_sub ys (run_sub xs s)
unfolding run_sub
run_sub-append [] ys s = refl
run_sub-append (x ∷ xs) ys s = run_sub-append xs ys (call_sub x s)

run_batcher-append :
    (xs ys : List BatcherCall) (b : MessageBatcher)
    → run_batcher (xs ++ ys) b ≡ run_batcher ys (run_batcher xs b)
unfolding run_batcher
run_batcher-append [] ys b = refl
run_batcher-append (x ∷ xs) ys b = run_batcher-append xs ys (call_batcher x b)

pub same-Refines : (c : LongConnMgr) → Refines c c
unfolding run_sub run_batcher
same-Refines c = (([], refl), ([], refl))

pub sub-Refines : (c : LongConnMgr) (x : SubCall) → Refines c (record c { sub = call_sub x c.sub })
unfolding run_sub run_batcher
sub-Refines c x = ((x ∷ [], refl), ([], refl))

batcher-Refines :
    (c : LongConnMgr) (x : BatcherCall) → Refines c (record c { mb = call_batcher x c.mb })
unfolding run_sub run_batcher
batcher-Refines c x = (([], refl), (x ∷ [], refl))

pub trans-Refines : (a b c : LongConnMgr) → Refines a b → Refines b c → Refines a c
trans-Refines a b c ((xs, s), (ps, m)) ((ys, t), (qs, n)) = (
  (xs ++ ys, t ∙ ap (run_sub ys) s ∙ sym (run_sub-append xs ys a.sub)),
  (ps ++ qs, n ∙ ap (run_batcher qs) m ∙ sym (run_batcher-append ps qs a.mb)),
)

-- An operation, by the manager that it leaves.
abbrev pub Keeps : LongConnMgr → Outcome LongConnMgr → Type 0
Keeps c o = Refines c (state_of o)

refused-Refines :
    (is_token_error : ℕ → Bool) (body : Option Body) (e : String) (c : LongConnMgr)
    → Keeps c (on_refused is_token_error body e (set_connection_status closed c)).1
refused-Refines is_token_error none e c = same-Refines c
refused-Refines is_token_error (some (unreadable e')) e c = same-Refines c
refused-Refines is_token_error (some (malformed e')) e c = same-Refines c
refused-Refines is_token_error (some (api_resp code e')) e c = same-Refines c

dialled-Refines :
    (link : Link) (ids : List String) (c : LongConnMgr)
    → is_connected c.conn_status ≡ false
    → Keeps c (on_first_sub (first_sub link ids c)).1
unfolding call_sub
dialled-Refines link [] c off = sub-Refines c sub_connected
dialled-Refines link (id ∷ ids) c off =
    let (e, same) = first_sub-refused link id ids c off in
    rw same (sub-Refines c (sub_closed (some e)))

on_dial-Refines :
    (link : Link) (is_token_error : ℕ → Bool) (dial : DialResult) (c : LongConnMgr)
    → is_connected c.conn_status ≡ false
    → Keeps c (on_dial link is_token_error dial c).1
unfolding write_conn_first_sub_msg
on_dial-Refines link is_token_error (refused body e) c off = refused-Refines is_token_error body e c
on_dial-Refines link is_token_error dialled c off =
    dialled-Refines link (get_new_conn_sub_user_ids c.sub) c off

pub re_conn-Refines :
    (link : Link) (is_token_error : ℕ → Bool) (dial : DialResult) (c : LongConnMgr)
    → Keeps c (re_conn link is_token_error dial c).1
unfolding re_conn
re_conn-Refines link is_token_error dial c =
    let started = set_connection_status connecting (emit on_connecting c) in
    if_both (λ (r : Bool × Outcome LongConnMgr). Keeps c r.1) (is_connected c.conn_status) _ _
      (same-Refines c) (on_dial-Refines link is_token_error dial started refl)

pushed-Refines :
    (codec : Codec) (r : Result PushMessages) (c : LongConnMgr)
    → Refines c (enqueue_pushed codec r c)
unfolding call_batcher
pushed-Refines codec (err e) c = same-Refines c
pushed-Refines codec (ok msgs) c =
    batcher-Refines c
      (enqueued codec.scaled codec.now codec.until codec.again codec.ctx (some msgs))

callback-Refines :
    (users : Map String (List ℕ)) (c : LongConnMgr)
    → Refines c (callback_user_online_change users c)
callback-Refines [] c = same-Refines c
callback-Refines (user ∷ users) c = same-Refines c

online-Refines :
    (r : Result (List (String × List ℕ))) (c : LongConnMgr) → Refines c (set_online r c)
unfolding call_sub
online-Refines (err e) c = same-Refines c
online-Refines (ok changes) c =
    let after = set_user_state changes (c.sub, []) in
    let c' = record c { sub = after.0 } in
    trans-Refines c c' (callback_user_online_change after.1 c')
      (sub-Refines c (state_pushed changes)) (callback-Refines after.1 c')

close_mb-Refines : (c : LongConnMgr) → Refines c (close_mb c)
unfolding call_batcher
close_mb-Refines c = batcher-Refines c batcher_closed

-- The same, as a predicate that is not computed.
Kept : LongConnMgr → Outcome LongConnMgr → Type 0
Kept c o = Keeps c o

done-Kept : (c c' : LongConnMgr) → Refines c c' → Kept c (done c')
unfolding Kept
done-Kept c c' h = h

fail-Kept : (c c' : LongConnMgr) (e : String) → Refines c c' → Kept c (fail e c')
unfolding Kept
fail-Kept c c' e h = h

handler-Refines :
    (codec : Codec) (resp : GeneralWsResp) (c : LongConnMgr)
    → Refines c (handler_user_online_change codec resp c)
unfolding handler_user_online_change
handler-Refines codec resp c =
    if_both (Refines c) (resp.err_code == 0) (set_online (codec.tips resp.payload) c) c
      (online-Refines (codec.tips resp.payload) c) (same-Refines c)

do_push_msg-Refines :
    (codec : Codec) (resp : GeneralWsResp) (c : LongConnMgr) → Refines c (do_push_msg codec resp c)
unfolding do_push_msg
do_push_msg-Refines codec resp c = pushed-Refines codec (codec.push_messages resp.payload) c

handle_resp-Kept :
    (codec : Codec) (resp : GeneralWsResp) (c : LongConnMgr) → Kept c (handle_resp codec resp c)
unfolding handle_resp
handle_resp-Kept codec resp c =
    let id = resp.req_identifier in
    let pushed = do_push_msg codec resp c in
    let online = handler_user_online_change codec resp c in
    let kicked = emit (on_error "token kicked") (close_mb c) in
    if_both (Kept c) (id == push_msg) (done pushed) _
      (done-Kept c pushed (do_push_msg-Refines codec resp c))
      (if_both (Kept c) (id == logout_msg) (fail "login out" (close_mb (notify_resp resp c))) _
        (fail-Kept c (close_mb (notify_resp resp c)) "login out" (close_mb-Refines c))
        (if_both (Kept c) (id == kick_online_msg) (fail "token kicked" kicked) _
          (fail-Kept c kicked "token kicked" (close_mb-Refines c))
          (if_both (Kept c) (is_reply id) (done (notify_resp resp c)) _
            (done-Kept c (notify_resp resp c) (same-Refines c))
            (if_both (Kept c) (id == ws_sub_user_online_status) (done online)
              (fail "message binary type not support" c)
              (done-Kept c online (handler-Refines codec resp c))
              (fail-Kept c c "message binary type not support" (same-Refines c))))))

pub handle_message-Refines :
    (codec : Codec) (m : Incoming) (c : LongConnMgr) → Keeps c (handle_message codec m c)
unfolding handle_message Kept
handle_message-Refines codec not_compressed c = same-Refines c
handle_message-Refines codec not_decoded c = same-Refines c
handle_message-Refines codec (decoded resp) c = handle_resp-Kept codec resp c
