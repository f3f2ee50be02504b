-- ===== src/LongConn/Replies/Request/Own.antt =====
-- Whose response a request gets: `SendReqWaitResp` of internal/interaction/long_conn_mgr.go.
use openim_sdk_core.Prelude.{
  ℕ, zero, suc, ◌≡◌, refl, sym, ap, subst, ◌∙◌, Bool, true, false, List, [], ◌∷◌, Option, none,
  some, String, nat_eq, string_eq, if_both, arith,
}
use openim_sdk_core.Prelude.Map.{lookup}
use openim_sdk_core.LongConn.{GeneralWsReq, GeneralWsResp}
use openim_sdk_core.LongConn.Replies.{
  Chan, WsRespAsyn, add_ch_by_incr, add_ch, Sent, sent, timed_out, panics, on_sent, notify_ch,
  Exchange, new_exchange, Event, add, add_by_incr, notify, retry, receive, del, when_free, on_added,
  on_deleted, notify_resp_found, retry_held, take_from, receive_from, get_ch, del_ch, step, run,
}
use openim_sdk_core.LongConn.Replies.Owners.{buffer_of, IsFor, IsFor-append, IsServed}
use openim_sdk_core.LongConn.Replies.Served.{step-IsServed, run-IsServed, new-IsServed}
use openim_sdk_core.LongConn.Replies.First.{add-starts}
use openim_sdk_core.LongConn.Replies.Request.{
  Waited, answered, nil_resp, wait_failed, of_buffer, select_resp, wait_resp, network_time_out,
  leave, Others, with_ch, send_and_wait_resp, error_resp, dispatch_message, returned, unmarshalled,
  by_code, by_resp, send_req_wait_resp,
}

-- A step forgets no channel.
abbrev IsLater : Exchange → Exchange → Type 0
IsLater x y = (i : ℕ) (incr : String) → IsFor x.made_for i incr → IsFor y.made_for i incr

free-IsLater :
    (o : Option (ℕ × GeneralWsResp)) (x after : Exchange)
    → IsLater x after
    → IsLater x (when_free o x after)
free-IsLater none x after h = h
free-IsLater (some held) x after h = λ i incr own. own

added-IsLater : (o : Option (String × WsRespAsyn)) (x : Exchange) → IsLater x (on_added o x)
added-IsLater none x i incr own = own
added-IsLater (some (k, u)) x i incr own = IsFor-append x.made_for i incr k own

sent-IsLater :
    (j : ℕ) (resp : GeneralWsResp) (s : Sent) (x : Exchange) → IsLater x (on_sent j resp s x)
sent-IsLater j resp (sent u) x i incr own = own
sent-IsLater j resp timed_out x i incr own = own
sent-IsLater j resp panics x i incr own = own

notify-IsLater :
    (o : Option ℕ) (resp : GeneralWsResp) (x : Exchange) → IsLater x (notify_resp_found o resp x)
notify-IsLater none resp x i incr own = own
notify-IsLater (some j) resp x i incr own = sent-IsLater j resp (notify_ch j resp x.ws) x i incr own

retry-IsLater : (o : Option (ℕ × GeneralWsResp)) (x : Exchange) → IsLater x (retry_held o x)
retry-IsLater none x i incr own = own
retry-IsLater (some (j, resp)) x i incr own =
    sent-IsLater j resp (notify_ch j resp x.ws) x i incr own

take-IsLater :
    (j : ℕ) (chan : Chan) (o : Option GeneralWsResp) (x : Exchange)
    → IsLater x (take_from j chan o x)
take-IsLater j chan none x i incr own = own
take-IsLater j chan (some resp) x i incr own = own

receive-IsLater : (j : ℕ) (o : Option Chan) (x : Exchange) → IsLater x (receive_from j o x)
receive-IsLater j none x i incr own = own
receive-IsLater j (some chan) x i incr own = take-IsLater j chan chan.buffer x i incr own

deleted-IsLater : (o : Option WsRespAsyn) (x : Exchange) → IsLater x (on_deleted o x)
deleted-IsLater none x i incr own = own
deleted-IsLater (some u) x i incr own = own

step-IsLater : (event : Event) (x : Exchange) → IsLater x (step event x)
unfolding step
step-IsLater (add incrs) x =
    free-IsLater x.holder x (on_added (add_ch incrs x.ws) x) (added-IsLater (add_ch incrs x.ws) x)
step-IsLater (add_by_incr k) x =
    free-IsLater x.holder x (on_added (some (k, add_ch_by_incr k x.ws)) x)
      (added-IsLater (some (k, add_ch_by_incr k x.ws)) x)
step-IsLater (notify resp) x =
    free-IsLater x.holder x (notify_resp_found (get_ch resp.msg_incr x.ws) resp x)
      (notify-IsLater (get_ch resp.msg_incr x.ws) resp x)
step-IsLater retry x = retry-IsLater x.holder x
step-IsLater (receive j) x = receive-IsLater j (lookup j x.ws.chans) x
step-IsLater (del k) x =
    free-IsLater x.holder x (on_deleted (del_ch k x.ws) x) (deleted-IsLater (del_ch k x.ws) x)

run-IsLater : (events : List Event) (x : Exchange) → IsLater x (run events x)
run-IsLater [] x i incr own = own
run-IsLater (event ∷ events) x i incr own =
    run-IsLater events (step event x) i incr (step-IsLater event x i incr own)

-- The response was made for the string.
abbrev pub IsOwn : String → Waited → Type 0
IsOwn incr (answered resp) = resp.msg_incr ≡ incr
IsOwn incr nil_resp = Unit
IsOwn incr (wait_failed e) = Unit

same_owner :
    (made_for : List String) (i : ℕ) (mine other : String)
    → IsFor made_for i mine
    → IsFor made_for i other
    → other ≡ mine
same_owner made_for i mine other hm ho = cc

select-IsOwn :
    (incr : String) (i : ℕ) (o : Option Chan) (made_for : List String)
    → IsFor made_for i incr
    → ((resp : GeneralWsResp) → buffer_of o ≡ some resp → IsFor made_for i resp.msg_incr)
    → IsOwn incr (select_resp o)
select-IsOwn incr i none made_for own buffered = tt
select-IsOwn incr i (some chan) made_for own buffered = full chan.buffer refl
  where
    full : (b : Option GeneralWsResp) → chan.buffer ≡ b → IsOwn incr (of_buffer chan b)
    full none e = if_both (IsOwn incr) chan.is_closed nil_resp (wait_failed network_time_out) tt tt
    full (some resp) e = same_owner made_for i incr resp.msg_incr own (buffered resp e)

wait-IsOwn :
    (incr : String) (i : ℕ) (written : Option String) (waiting : List Event) (x : Exchange)
    → IsServed x
    → IsFor x.made_for i incr
    → IsOwn incr (wait_resp written i waiting x).0
wait-IsOwn incr i (some e) waiting x served own = tt
wait-IsOwn incr i none waiting x served own =
    let y = run waiting x in
    select-IsOwn incr i (lookup i y.ws.chans) y.made_for (run-IsLater waiting x i incr own)
      ((run-IsServed waiting x served).0.2 i)

leave-same :
    (incr : String) (leaving : List Event) (r : Waited × Exchange) → (leave incr leaving r).0 ≡ r.0
leave-same incr leaving (waited, x) = refl

abbrev waited_of : Waited → Option (Waited × Exchange) → Waited
waited_of default none = default
waited_of default (some r) = r.0

send_and_wait_resp-IsOwn :
    (incrs : List String) (incr : String) (made : WsRespAsyn) (written : Option String)
    (others : Others) (x : Exchange) (waited : Waited) (y : Exchange)
    → IsServed x
    → x.holder ≡ none
    → add_ch incrs x.ws ≡ some (incr, made)
    → send_and_wait_resp incrs written others x ≡ some (waited, y)
    → IsOwn incr waited
unfolding send_and_wait_resp
send_and_wait_resp-IsOwn incrs incr made written others x waited y served free added ends =
    let started = step (add incrs) x in
    let served' = step-IsServed (add incrs) x served in
    let own = (served'.0.1 incr x.ws.made (add-starts incrs incr made x free added).0).0 in
    let writing = run others.writing started in
    let result = leave incr others.leaving (wait_resp written x.ws.made others.waiting writing) in
    let same : some result ≡ some (waited, y) =
      sym (ap (λ o. with_ch o incrs written others x) added) ∙ ends in
    let waits : result.0 ≡ waited = ap (waited_of result.0) same in
    subst (IsOwn incr)
      (sym (leave-same incr others.leaving (wait_resp written x.ws.made others.waiting writing))
        ∙ waits)
      (wait-IsOwn incr x.ws.made written others.waiting writing
        (run-IsServed others.writing started served')
        (run-IsLater others.writing started x.ws.made incr own))

unmarshalled-returned :
    (o : Option String) (content payload : String)
    → unmarshalled o content ≡ returned payload
    → content ≡ payload
unmarshalled-returned none content payload h = cc
unmarshalled-returned (some e) content payload h = absurd (ground arith)

-- Only a response of code 0 makes the call return nil, when each error has a code.
by_code-returned :
    (unmarshal : String → Option String) (resp : GeneralWsResp) (code : ℕ) (payload : String)
    → by_code unmarshal resp code ≡ returned payload
    → (code ≡ 0) × (resp.payload ≡ payload)
by_code-returned unmarshal resp zero payload h =
    (refl, unmarshalled-returned (unmarshal resp.payload) resp.payload payload h)
by_code-returned unmarshal resp (suc code) payload h = absurd (ground arith)

waited-returned :
    (unmarshal : String → Option String) (code_error : String → Option (ℕ × String))
    (req : GeneralWsReq) (incr : String) (waited : Waited) (payload : String)
    → ((e : String) → (code : ℕ) × (msg : String) × (code_error e ≡ some (suc code, msg)))
    → IsOwn incr waited
    → by_resp unmarshal (dispatch_message code_error req waited) ≡ returned payload
    → (resp : GeneralWsResp) × (waited ≡ answered resp)
      × (resp.msg_incr ≡ incr)
      × (resp.err_code ≡ 0)
      × (resp.payload ≡ payload)
unfolding dispatch_message
waited-returned unmarshal code_error req incr (answered resp) payload codes own h =
    let (zero_code, same) = by_code-returned unmarshal resp resp.err_code payload h in
    (resp, refl, own, zero_code, same)
waited-returned unmarshal code_error req incr nil_resp payload codes own h = absurd (ground arith)
waited-returned unmarshal code_error req incr (wait_failed e) payload codes own h =
    let (code, msg, coded) = codes e in
    let h' : by_resp unmarshal (some (error_resp (some (suc code, msg)) req)) ≡ returned payload =
      subst (λ c. by_resp unmarshal (some (error_resp c req)) ≡ returned payload) coded h in
    absurd (ground arith)

-- A request that returns nil got a response to itself: when `AddCh` had the mutex and returned a
-- string, and whatever other requests, responses and receivers do while it is written and waits, a
-- nil from `SendReqWaitResp` comes with the payload of a response that carries that string and the
-- code 0. Each error of `sendAndWaitResp` has a code other than 0.
pub send_req_wait_resp-Own :
    (earlier : List Event) (incrs : List String) (incr : String) (made : WsRespAsyn)
    (written : Option String) (others : Others) (waited : Waited) (y : Exchange) (ctx_done : Bool)
    (unmarshal : String → Option String) (code_error : String → Option (ℕ × String))
    (req : GeneralWsReq) (payload : String)
    → ((e : String) → (code : ℕ) × (msg : String) × (code_error e ≡ some (suc code, msg)))
    → (run earlier new_exchange).holder ≡ none
    → add_ch incrs (run earlier new_exchange).ws ≡ some (incr, made)
    → send_and_wait_resp incrs written others (run earlier new_exchange) ≡ some (waited, y)
    → send_req_wait_resp ctx_done unmarshal code_error req waited ≡ returned payload
    → (resp : GeneralWsResp) × (waited ≡ answered resp)
      × (resp.msg_incr ≡ incr)
      × (resp.err_code ≡ 0)
      × (resp.payload ≡ payload)
unfolding send_req_wait_resp
send_req_wait_resp-Own earlier incrs incr made written others waited y true unmarshal code_error req
      payload codes free added ends h =
    absurd (ground arith)
send_req_wait_resp-Own earlier incrs incr made written others waited y false unmarshal code_error
      req payload codes free added ends h =
    let x = run earlier new_exchange in
    waited-returned unmarshal code_error req incr waited payload codes
      (send_and_wait_resp-IsOwn incrs incr made written others x waited y
        (run-IsServed earlier new_exchange new-IsServed) free added ends)
      h
