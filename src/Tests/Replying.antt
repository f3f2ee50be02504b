-- ===== src/Tests/Replying.antt =====
-- Requests that wait for their responses.
use openim_sdk_core.Prelude.{
  none, some, ℕ, ◌≡◌, refl, false, List, [], ◌∷◌, String, string_eq, nat_eq, All,
}
use openim_sdk_core.Prelude.Map.{lookup, insert, delete}
use openim_sdk_core.LongConn.{GeneralWsReq, GeneralWsResp}
use openim_sdk_core.LongConn.Replies.{
  Event, add, notify, retry, receive, del, Exchange, new_exchange, step, run, add_ch,
  add_ch_by_incr, del_ch, notify_ch,
}
use openim_sdk_core.LongConn.Replies.Owners.{Matches}
use openim_sdk_core.LongConn.Replies.Served.{run-Answers}
use openim_sdk_core.LongConn.Replies.First.{first-received}
use openim_sdk_core.LongConn.Replies.Stuck.{IsStuck, run-IsStuck}
use openim_sdk_core.LongConn.Replies.Request.{
  Others, answered, send_and_wait_resp, send_req_wait_resp, dispatch_message,
}
use openim_sdk_core.LongConn.Replies.Request.Own.{send_req_wait_resp-Own}

abbrev response : String → ℕ → GeneralWsResp
response incr code = record {
  req_identifier = 1001;
  err_code = code;
  err_msg = "";
  msg_incr = incr;
  operation_id = "o";
  payload = "p";
}

-- Two requests, whose responses come in the other order.
abbrev two_requests : List Event
two_requests =
    add ("a" ∷ [])
    ∷ add ("a" ∷ "b" ∷ [])
    ∷ notify (response "b" 1)
    ∷ notify (response "a" 0)
    ∷ receive 0
    ∷ receive 1
    ∷ del "a"
    ∷ del "b"
    ∷ []

two_received :
    (run two_requests new_exchange).received ≡ (0, response "a" 0) ∷ (1, response "b" 1) ∷ []
unfolding step add_ch add_ch_by_incr del_ch notify_ch lookup insert delete
two_received = refl

run-Answers_example :
    ((run two_requests new_exchange).panicked ≡ false)
    × All
        (Matches (run two_requests new_exchange).made_for)
        (run two_requests new_exchange).received
run-Answers_example = run-Answers two_requests

first-received_example :
    (step (receive 1) (
      run (del "b" ∷ notify (response "a" 0) ∷ []) (
        step (notify (response "b" 1)) (
          run
            (add ("c" ∷ []) ∷ receive 0 ∷ [])
            (step (add ("a" ∷ "b" ∷ [])) (run (add ("a" ∷ []) ∷ []) new_exchange)))))).received
    ≡ (1, response "b" 1) ∷ []
unfolding step add_ch add_ch_by_incr del_ch notify_ch lookup insert delete
first-received_example =
    first-received (add ("a" ∷ []) ∷ []) (add ("c" ∷ []) ∷ receive 0 ∷ [])
      (del "b" ∷ notify (response "a" 0) ∷ []) ("a" ∷ "b" ∷ []) "b"
      (add_ch_by_incr "b" (run (add ("a" ∷ []) ∷ []) new_exchange).ws) (response "b" 1) refl refl
      (refl, (refl, tt)) refl refl (refl, (refl, tt))

-- A request whose receiver left, and two responses to it.
abbrev jammed : Exchange
jammed = run (add ("a" ∷ []) ∷ notify (response "a" 0) ∷ notify (response "a" 1) ∷ []) new_exchange

run-IsStuck_example :
    IsStuck
      (("a", 0) ∷ [])
      0
      (response "a" 0)
      (response "a" 1)
      (run (del "a" ∷ retry ∷ add ("b" ∷ []) ∷ []) jammed)
unfolding step add_ch add_ch_by_incr del_ch notify_ch lookup insert delete
run-IsStuck_example =
    run-IsStuck (("a", 0) ∷ []) 0 (response "a" 0) (response "a" 1)
      (del "a" ∷ retry ∷ add ("b" ∷ []) ∷ []) jammed (refl, refl, refl) (refl, (refl, (refl, tt)))

-- Another request's response comes first, while this one is written.
abbrev others : Others
others = record {
  writing = notify (response "a" 0) ∷ [];
  waiting = receive 0 ∷ notify (response "b" 0) ∷ [];
  leaving = [];
}

abbrev request : GeneralWsReq
request = record {
  req_identifier = 1001;
  token = "";
  send_id = "u";
  operation_id = "o";
  msg_incr = "b";
  payload = "q";
}

send_req_wait_resp-Own_example :
    (resp : GeneralWsResp) × (answered (response "b" 0) ≡ answered resp)
    × (resp.msg_incr ≡ "b")
    × (resp.err_code ≡ 0)
    × (resp.payload ≡ "p")
unfolding step add_ch add_ch_by_incr del_ch notify_ch lookup insert delete send_and_wait_resp
    send_req_wait_resp dispatch_message
send_req_wait_resp-Own_example =
    let x = run (add ("a" ∷ []) ∷ []) new_exchange in
    send_req_wait_resp-Own (add ("a" ∷ []) ∷ []) ("a" ∷ "b" ∷ []) "b" (add_ch_by_incr "b" x.ws) none
      others (answered (response "b" 0))
      (step (del "b") (
        step (receive 1) (run others.waiting (run others.writing (step (add ("a" ∷ "b" ∷ [])) x)))))
      false (λ payload. none) (λ e. some (1, e)) request "p" (λ e. (0, e, refl)) refl refl refl refl
