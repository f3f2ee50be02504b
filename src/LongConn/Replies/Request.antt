-- ===== src/LongConn/Replies/Request.antt =====
-- A request and its answer: `SendReqWaitResp`, `dispatchMessage` and `sendAndWaitResp` of
-- internal/interaction/long_conn_mgr.go.
pub mod Own
use openim_sdk_core.Prelude.{
  ℕ, zero, suc, Bool, true, false, List, Option, none, some, String, nat_eq, if◌then◌else◌,
}
use openim_sdk_core.Prelude.Map.{lookup}
use openim_sdk_core.LongConn.{GeneralWsReq, GeneralWsResp}
use openim_sdk_core.LongConn.Replies.{
  Chan, WsRespAsyn, Exchange, Event, add, add_ch, receive, del, step, run,
}

-- What `sendAndWaitResp` returns: a response, the nil of a closed channel, or an error.
pub data Waited : Type 0 where
  answered : GeneralWsResp → Waited
  nil_resp : Waited
  wait_failed : String → Waited

abbrev pub network_time_out : String
network_time_out = "NetworkTimeoutError"

abbrev pub of_buffer : Chan → Option GeneralWsResp → Waited
of_buffer chan (some resp) = answered resp
of_buffer chan none = if chan.is_closed then nil_resp else wait_failed network_time_out

-- What the `select` finds when it ends: the channel's content, or the time is out.
abbrev pub select_resp : Option Chan → Waited
select_resp none = wait_failed network_time_out
select_resp (some chan) = of_buffer chan chan.buffer

-- After `writeBinaryMsgAndRetry`, which returned an error or none.
abbrev pub wait_resp : Option String → ℕ → List Event → Exchange → Waited × Exchange
wait_resp (some e) i waiting x = (wait_failed e, x)
wait_resp none i waiting x =
    (select_resp (lookup i (run waiting x).ws.chans), step (receive i) (run waiting x))

-- The deferred `DelCh`.
abbrev pub leave : String → List Event → Waited × Exchange → Waited × Exchange
leave incr leaving (waited, x) = (waited, step (del incr) (run leaving x))

-- What the other goroutines do while the request is written, while its response is awaited, and until
-- the deferred `DelCh` has the mutex.
pub record Others : Type 0 where
  pub writing : List Event
  pub waiting : List Event
  pub leaving : List Event

abbrev pub with_ch :
    Option (String × WsRespAsyn)
    → List String
    → Option String
    → Others
    → Exchange
    → Option (Waited × Exchange)
with_ch none incrs written others x = none
with_ch (some (incr, u)) incrs written others x = some (
    leave incr others.leaving
      (wait_resp written x.ws.made others.waiting (run others.writing (step (add incrs) x))))

-- `sendAndWaitResp`, from when `AddCh` has the mutex: none while `AddCh` finds no string.
unfoldable pub send_and_wait_resp :
    List String → Option String → Others → Exchange → Option (Waited × Exchange)
send_and_wait_resp incrs written others x = with_ch (add_ch incrs x.ws) incrs written others x

abbrev pub error_resp : Option (ℕ × String) → GeneralWsReq → GeneralWsResp
error_resp (some (code, msg)) req = record {
  req_identifier = req.req_identifier;
  err_code = code;
  err_msg = msg;
  msg_incr = "";
  operation_id = req.operation_id;
  payload = "";
}
error_resp none req = record {
  req_identifier = req.req_identifier;
  err_code = 0;
  err_msg = "";
  msg_incr = "";
  operation_id = req.operation_id;
  payload = "";
}

-- What `dispatchMessage` sends to the caller, none for nil; `code_error` is the code and the text
-- of an error, when the error unwraps to a `CodeError`.
unfoldable pub dispatch_message :
    (String → Option (ℕ × String)) → GeneralWsReq → Waited → Option GeneralWsResp
dispatch_message code_error req (answered resp) = some resp
dispatch_message code_error req nil_resp = none
dispatch_message code_error req (wait_failed e) = some (error_resp (code_error e) req)

-- How `SendReqWaitResp` ends: with nil and a response that holds the payload, with an error, or in a
-- panic at a nil response.
pub data Returned : Type 0 where
  returned : String → Returned
  returned_error : ℕ → String → Returned
  args_error : Returned
  deadline_error : Returned
  nil_panic : Returned

abbrev pub unmarshalled : Option String → String → Returned
unmarshalled none payload = returned payload
unmarshalled (some e) payload = args_error

abbrev pub by_code : (String → Option String) → GeneralWsResp → ℕ → Returned
by_code unmarshal resp zero = unmarshalled (unmarshal resp.payload) resp.payload
by_code unmarshal resp (suc code) = returned_error (suc code) resp.err_msg

abbrev pub by_resp : (String → Option String) → Option GeneralWsResp → Returned
by_resp unmarshal none = nil_panic
by_resp unmarshal (some resp) = by_code unmarshal resp resp.err_code

-- The `select` of `SendReqWaitResp` once the request is in the channel `send`: the context is done,
-- or `dispatchMessage` has sent what it got.
unfoldable pub send_req_wait_resp :
    Bool
    → (String → Option String)
    → (String → Option (ℕ × String))
    → GeneralWsReq
    → Waited
    → Returned
send_req_wait_resp ctx_done unmarshal code_error req waited =
    if ctx_done then deadline_error else by_resp unmarshal (dispatch_message code_error req waited)
