-- ===== src/Tests/Connecting.antt =====
-- A manager that connects, writes and reads.
use openim_sdk_core.Prelude.{
  ℕ, ◌≡◌, ◌⊎◌, inr, refl, Bool, true, false, not, ◌&&◌, List, [], ◌∷◌, none, nat_eq, ◌==◌,
}
use openim_sdk_core.Prelude.Outcome.{ok, err, state_of}
use openim_sdk_core.LongConn.{GeneralWsReq, GeneralWsResp}
use openim_sdk_core.MessageBatcher.{new_message_batcher}
use openim_sdk_core.Reconnect.{new_exponential_retry}
use openim_sdk_core.Subscription.{Subscription, new_subscription, get_new_conn_sub_user_ids}
use openim_sdk_core.LongConn.Status.{
  LongConnMgr, Link, ConnStatus, closed, connected, default_not_connect, is_connected, dialled,
  re_conn, write_binary_msg_and_retry, max_reconnect_attempts, get_newest_seq,
}
use openim_sdk_core.LongConn.Status.Dial.{gives_up, connects, is_done, Settled, re_conn-Settled}
use openim_sdk_core.LongConn.Status.Retry.{
  some_goes_out, written_after, write_binary_msg_and_retry-Wrote,
}
use openim_sdk_core.LongConn.Status.Pump.{
  Codec, decoded, ReadResult, message_binary, read_failed, close_message, Round, read_pump,
}
use openim_sdk_core.LongConn.Status.Handle.{Refines}
use openim_sdk_core.Subscription.Pending.{pending}
use openim_sdk_core.Subscription.Waiters.{none_pending}
use openim_sdk_core.LongConn.Status.Quiet.{IsIdle}
use openim_sdk_core.LongConn.Status.Read.{read_pump-Refines}

abbrev link : Link
link = record {
  encode = λ r. none;
  compress = λ r. none;
  write_message = λ r. none;
  marshal_sub = λ xs ys. ok "ids";
  user_id = "a";
  operation_id = "o";
  msg_incr = "1";
}

abbrev manager : Subscription → LongConnMgr
manager sub = record {
  conn_status = default_not_connect;
  closed_err = none;
  is_compression = true;
  sub = sub;
  mb = new_message_batcher true;
  reconnect_strategy = new_exponential_retry;
  callbacks = [];
  written = [];
  slept = [];
  notices = 0;
  notified = [];
  online = [];
}

abbrev subscribed : Subscription
subscribed = record { heap = []; load = []; unsub = []; sub = ("b", tt) ∷ [] }

abbrev tokens : ℕ → Bool
tokens code = code == 1501

re_conn-Settled_example :
    ((re_conn link tokens dialled (manager subscribed)).0 ≡ not (gives_up tokens dialled))
    × (is_done (re_conn link tokens dialled (manager subscribed)).1
        ≡ connects dialled (get_new_conn_sub_user_ids subscribed))
    × Settled (manager subscribed) (re_conn link tokens dialled (manager subscribed)).1
re_conn-Settled_example = re_conn-Settled link tokens dialled (manager subscribed) refl

-- The dial succeeds, and the manager is not connected.
never_connects : is_done (re_conn link tokens dialled (manager subscribed)).1 ≡ false
never_connects = re_conn-Settled_example.1

abbrev request : GeneralWsReq
request = record {
  req_identifier = 1003;
  token = "";
  send_id = "a";
  operation_id = "o";
  msg_incr = "1";
  payload = "hi";
}

-- The connection is back at the third attempt.
abbrev back_at_two : ℕ → ConnStatus
back_at_two i = if_two (i == 2)
  where
    if_two : Bool → ConnStatus
    if_two true = connected
    if_two false = closed

write_binary_msg_and_retry-Wrote_example :
    (is_done (write_binary_msg_and_retry (λ i. link) back_at_two request (manager subscribed)) ≡ (
      not (not (is_connected default_not_connect) && 1003 == get_newest_seq)
      && some_goes_out max_reconnect_attempts (λ i. link) back_at_two 0 true request))
    × ((state_of
          (write_binary_msg_and_retry (λ i. link) back_at_two request (manager subscribed))).written
        ≡ written_after
            (is_done
              (write_binary_msg_and_retry (λ i. link) back_at_two request (manager subscribed)))
            []
            request)
write_binary_msg_and_retry-Wrote_example =
    write_binary_msg_and_retry-Wrote (λ i. link) back_at_two request (manager subscribed)

abbrev codec : Codec
codec = record {
  push_messages = λ s. err "no messages";
  tips = λ s. ok (("b", 1 ∷ []) ∷ []);
  scaled = λ n. n;
  now = 1;
  until = 1;
  again = 1;
  ctx = 7;
}

abbrev round_of : ReadResult → Round
round_of r = record {
  ctx_done = none;
  fg_ctx_done = none;
  link = link;
  dial = dialled;
  read = r;
  codec = codec;
}

abbrev pushed : GeneralWsResp
pushed = record {
  req_identifier = 2005;
  err_code = 0;
  err_msg = "";
  msg_incr = "";
  operation_id = "o";
  payload = "tips";
}

abbrev rounds : List Round
rounds =
    round_of (message_binary (decoded pushed))
    ∷ round_of (read_failed "reset")
    ∷ round_of close_message
    ∷ []

read_pump-Refines_example :
    Refines (manager new_subscription) (read_pump tokens rounds (manager new_subscription)).1
    × ((read_pump tokens rounds (manager new_subscription)).0
          && is_connected (read_pump tokens rounds (manager new_subscription)).1.conn_status
        ≡ false)
    × (((read_pump tokens rounds (manager new_subscription)).0 ≡ true)
        ⊎ IsIdle (read_pump tokens rounds (manager new_subscription)).1)
unfolding pending
read_pump-Refines_example =
    read_pump-Refines tokens rounds (manager new_subscription) none_pending (inr (λ q. refl))
