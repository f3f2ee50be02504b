-- ===== src/LongConn/Status/Quiet.antt =====
-- Who waits while there is no connection: `reConn` and a round of `readPump` of
-- internal/interaction/long_conn_mgr.go.
use openim_sdk_core.Prelude.{
  ℕ, ◌≡◌, ◌⊎◌, refl, sym, ap, subst, ◌∙◌, Bool, true, false, List, [], ◌∷◌, Option, none, some,
  String, nat_eq, ◌==◌, if_both, Bool-cases, inl, inr,
}
use openim_sdk_core.Prelude.Map.{Map}
use openim_sdk_core.Prelude.Outcome.{Outcome, done, fail, Result, ok, err}
use openim_sdk_core.LongConn.{GeneralWsResp}
use openim_sdk_core.MessageBatcher.{PushMessages}
use openim_sdk_core.Subscription.{Ref, set_user_state, get_new_conn_sub_user_ids}
use openim_sdk_core.Subscription.Pending.{pending}
use openim_sdk_core.Subscription.Waiters.{IsKept, closed-none, run-IsKept}
use openim_sdk_core.LongConn.Status.{
  LongConnMgr, Link, closed, connecting, is_connected, on_connecting, on_error, emit,
  set_connection_status, close, first_sub, write_conn_first_sub_msg, Body, unreadable, malformed,
  api_resp, DialResult, dialled, refused, on_refused, on_first_sub, on_dial, re_conn,
  ws_sub_user_online_status,
}
use openim_sdk_core.LongConn.Status.Dial.{first_sub-refused}
use openim_sdk_core.LongConn.Status.Pump.{
  Codec, enqueue_pushed, do_push_msg, callback_user_online_change, set_online,
  handler_user_online_change, notify_resp, close_mb, handle_resp, push_msg, logout_msg,
  kick_online_msg, is_reply, Incoming, not_compressed, not_decoded, decoded, handle_message,
  ReadResult, read_failed, message_binary, message_text, close_message, message_other, Round, Turn,
  again, over, after_handling, on_read, on_re_conn, on_contexts, round,
}
use openim_sdk_core.LongConn.Status.Handle.{Refines}

-- Nobody waits for a status.
abbrev pub IsQuiet : LongConnMgr → Type 0
IsQuiet c = (q : Ref) → pending c.sub.heap q ≡ false

-- There is a connection, or nobody waits.
abbrev pub IsIdle : LongConnMgr → Type 0
IsIdle c = (is_connected c.conn_status ≡ true) ⊎ IsQuiet c

pub Refines-IsKept : (c c' : LongConnMgr) → Refines c c' → IsKept c.sub → IsKept c'.sub
Refines-IsKept c c' ((calls, same), batcher) kept =
    subst IsKept (sym same) (run-IsKept calls c.sub kept)

-- After `reConn` there is a connection, or it failed and nobody waits.
abbrev Ready : Outcome LongConnMgr → Type 0
Ready (done c) = is_connected c.conn_status ≡ true
Ready (fail e c) = IsQuiet c

refused-Ready :
    (is_token_error : ℕ → Bool) (body : Option Body) (e : String) (c : LongConnMgr)
    → IsQuiet c
    → Ready (on_refused is_token_error body e (set_connection_status closed c)).1
refused-Ready is_token_error none e c quiet = quiet
refused-Ready is_token_error (some (unreadable e')) e c quiet = quiet
refused-Ready is_token_error (some (malformed e')) e c quiet = quiet
refused-Ready is_token_error (some (api_resp code e')) e c quiet = quiet

dialled-Ready :
    (link : Link) (ids : List String) (c : LongConnMgr)
    → is_connected c.conn_status ≡ false
    → IsKept c.sub
    → Ready (on_first_sub (first_sub link ids c)).1
dialled-Ready link [] c off kept = refl
dialled-Ready link (id ∷ ids) c off kept =
    let (e, same) = first_sub-refused link id ids c off in
    rw same (λ q. closed-none (some e) c.sub kept q)

on_dial-Ready :
    (link : Link) (is_token_error : ℕ → Bool) (dial : DialResult) (c : LongConnMgr)
    → is_connected c.conn_status ≡ false
    → IsKept c.sub
    → IsQuiet c
    → Ready (on_dial link is_token_error dial c).1
unfolding write_conn_first_sub_msg
on_dial-Ready link is_token_error (refused body e) c off kept quiet =
    refused-Ready is_token_error body e c quiet
on_dial-Ready link is_token_error dialled c off kept quiet =
    dialled-Ready link (get_new_conn_sub_user_ids c.sub) c off kept

off-IsQuiet : (c : LongConnMgr) → is_connected c.conn_status ≡ false → IsIdle c → IsQuiet c
off-IsQuiet c off (inl on) = absurd (cc)
off-IsQuiet c off (inr quiet) = quiet

re_conn-Ready :
    (link : Link) (is_token_error : ℕ → Bool) (dial : DialResult) (c : LongConnMgr)
    → IsKept c.sub
    → IsIdle c
    → Ready (re_conn link is_token_error dial c).1
unfolding re_conn
re_conn-Ready link is_token_error dial c kept idle =
    let started = set_connection_status connecting (emit on_connecting c) in
    elim (Bool-cases (is_connected c.conn_status)) [
      | inl on ↦ rw on on
      | inr off ↦
          rw off (on_dial-Ready link is_token_error dial started refl kept (off-IsQuiet c off idle))
    ]

-- A message that is handled leaves the status as it is.
SameStatus : LongConnMgr → Outcome LongConnMgr → Type 0
SameStatus c (done c') = c'.conn_status ≡ c.conn_status
SameStatus c (fail e c') = Unit

done-SameStatus : (c c' : LongConnMgr) → c'.conn_status ≡ c.conn_status → SameStatus c (done c')
unfolding SameStatus
done-SameStatus c c' h = h

fail-SameStatus : (c c' : LongConnMgr) (e : String) → SameStatus c (fail e c')
unfolding SameStatus
fail-SameStatus c c' e = tt

pushed-status :
    (codec : Codec) (r : Result PushMessages) (c : LongConnMgr)
    → (enqueue_pushed codec r c).conn_status ≡ c.conn_status
pushed-status codec (err e) c = refl
pushed-status codec (ok msgs) c = refl

callback-status :
    (users : Map String (List ℕ)) (c : LongConnMgr)
    → (callback_user_online_change users c).conn_status ≡ c.conn_status
callback-status [] c = refl
callback-status (user ∷ users) c = refl

online-status :
    (r : Result (List (String × List ℕ))) (c : LongConnMgr)
    → (set_online r c).conn_status ≡ c.conn_status
online-status (err e) c = refl
online-status (ok changes) c =
    let after = set_user_state changes (c.sub, []) in
    callback-status after.1 (record c { sub = after.0 })

handle_resp-SameStatus :
    (codec : Codec) (resp : GeneralWsResp) (c : LongConnMgr)
    → SameStatus c (handle_resp codec resp c)
unfolding handle_resp do_push_msg handler_user_online_change
handle_resp-SameStatus codec resp c =
    let id = resp.req_identifier in
    let pushed = do_push_msg codec resp c in
    let online = handler_user_online_change codec resp c in
    let kicked = emit (on_error "token kicked") (close_mb c) in
    if_both (SameStatus c) (id == push_msg) (done pushed) _
      (done-SameStatus c pushed (pushed-status codec (codec.push_messages resp.payload) c))
      (if_both (SameStatus c) (id == logout_msg) (fail "login out" (close_mb (notify_resp resp c)))
        _ (fail-SameStatus c (close_mb (notify_resp resp c)) "login out")
        (if_both (SameStatus c) (id == kick_online_msg) (fail "token kicked" kicked) _
          (fail-SameStatus c kicked "token kicked")
          (if_both (SameStatus c) (is_reply id) (done (notify_resp resp c)) _
            (done-SameStatus c (notify_resp resp c) refl)
            (if_both (SameStatus c) (id == ws_sub_user_online_status) (done online)
              (fail "message binary type not support" c)
              (done-SameStatus c online (
                if_both (λ r. r.conn_status ≡ c.conn_status) (resp.err_code == 0)
                  (set_online (codec.tips resp.payload) c) c
                  (online-status (codec.tips resp.payload) c) refl))
              (fail-SameStatus c c "message binary type not support")))))

handle_message-SameStatus :
    (codec : Codec) (m : Incoming) (c : LongConnMgr) → SameStatus c (handle_message codec m c)
unfolding handle_message
handle_message-SameStatus codec not_compressed c = fail-SameStatus c c "message decompression"
handle_message-SameStatus codec not_decoded c = fail-SameStatus c c "message decode"
handle_message-SameStatus codec (decoded resp) c = handle_resp-SameStatus codec resp c

-- What a round that goes on leaves.
abbrev pub Goes : Turn → Type 0
Goes (again c) = IsIdle c
Goes (over c) = Unit

after_handling-Goes :
    (c : LongConnMgr) (o : Outcome LongConnMgr)
    → is_connected c.conn_status ≡ true
    → SameStatus c o
    → Goes (after_handling o)
unfolding SameStatus
after_handling-Goes c (done c') on same = inl (ap is_connected same ∙ on)
after_handling-Goes c (fail e c') on same = tt

close-IsKept : (c : LongConnMgr) → IsKept c.sub → IsKept (close c).sub
unfolding close
close-IsKept c kept =
    if_both (λ r. IsKept r.sub) (is_connected c.conn_status) (record c { conn_status = closed }) c
      kept kept

on_read-Goes :
    (codec : Codec) (r : ReadResult) (c : LongConnMgr)
    → is_connected c.conn_status ≡ true
    → IsKept c.sub
    → Goes (on_read codec r c)
on_read-Goes codec (read_failed e) c on kept =
    inr (λ q. closed-none (some e) (close c).sub (close-IsKept c kept) q)
on_read-Goes codec (message_binary m) c on kept =
    after_handling-Goes c (handle_message codec m c) on (handle_message-SameStatus codec m c)
on_read-Goes codec message_text c on kept = tt
on_read-Goes codec close_message c on kept = tt
on_read-Goes codec message_other c on kept = inl on

on_re_conn-Goes :
    (r : Round) (c : LongConnMgr) (x : Bool × Outcome LongConnMgr)
    → Ready x.1
    → ((c' : LongConnMgr) → x.1 ≡ done c' → IsKept c'.sub)
    → Goes (on_re_conn r x)
on_re_conn-Goes r c (false, done c') ready kept = tt
on_re_conn-Goes r c (false, fail e c') ready kept = tt
on_re_conn-Goes r c (true, fail e c') quiet kept = inr quiet
on_re_conn-Goes r c (true, done c') on kept = on_read-Goes r.codec r.read c' on (kept c' refl)

on_contexts-Goes :
    (ctx fg : Option String) (c : LongConnMgr) (t : Turn) → Goes t → Goes (on_contexts ctx fg c t)
on_contexts-Goes (some e) fg c t h = tt
on_contexts-Goes none (some e) c t h = tt
on_contexts-Goes none none c t h = h

pub round-Goes :
    (is_token_error : ℕ → Bool) (r : Round) (c : LongConnMgr)
    → IsKept c.sub
    → IsIdle c
    → ((c' : LongConnMgr) → (re_conn r.link is_token_error r.dial c).1 ≡ done c' → IsKept c'.sub)
    → Goes (round is_token_error r c)
unfolding round
round-Goes is_token_error r c kept idle after =
    let x = re_conn r.link is_token_error r.dial c in
    on_contexts-Goes r.ctx_done r.fg_ctx_done c (on_re_conn r x)
      (on_re_conn-Goes r c x (re_conn-Ready r.link is_token_error r.dial c kept idle) after)
