-- ===== src/LongConn/Status/Retry.antt =====
-- The attempts of `writeBinaryMsgAndRetry` of internal/interaction/long_conn_mgr.go.
use openim_sdk_core.Prelude.{
  ℕ, zero, suc, ◌≡◌, refl, ap, ◌∙◌, Bool, true, false, not, ◌&&◌, ◌||◌, List, [], ◌∷◌, ◌++◌, Option,
  none, some, String, nat_eq, ◌==◌, if◌then◌else◌, if_both, Bool-cases, inl, inr,
}
use openim_sdk_core.Prelude.Outcome.{Outcome, done, fail, state_of}
use openim_sdk_core.LongConn.{GeneralWsReq}
use openim_sdk_core.LongConn.Status.{
  LongConnMgr, Link, ConnStatus, is_connected, unless_error, write_binary_msg_no_lock,
  set_connection_status, close, or_again, write_attempts, write_binary_msg_and_retry,
  max_reconnect_attempts, get_newest_seq,
}
use openim_sdk_core.LongConn.Status.Dial.{is_done}

abbrev no_error : Option String → Bool
no_error none = true
no_error (some e) = false

-- Whether a write goes out: the request is encoded, the status is that of a connection, and nothing
-- fails on the way.
abbrev pub goes_out : Link → ConnStatus → Bool → GeneralWsReq → Bool
goes_out link status compression req =
    no_error (link.encode req)
    && (is_connected status
        && ((not compression || no_error (link.compress req)) && no_error (link.write_message req)))

-- Whether one of `n` attempts from `i` on goes out.
unfoldable pub some_goes_out : ℕ → (ℕ → Link) → (ℕ → ConnStatus) → ℕ → Bool → GeneralWsReq → Bool
some_goes_out zero link status i compression req = false
some_goes_out (suc n) link status i compression req =
    goes_out (link i) (status i) compression req
    || some_goes_out n link status (suc i) compression req

-- What a call leaves: with an error nothing is written, and without one the request is, once.
abbrev pub written_after : Bool → List GeneralWsReq → GeneralWsReq → List GeneralWsReq
written_after true before req = before ++ (req ∷ [])
written_after false before req = before

-- The result `ok` of a call on `c`.
abbrev Wrote : Bool → LongConnMgr → GeneralWsReq → Outcome LongConnMgr → Type 0
Wrote went c req o =
    (is_done o ≡ went)
    × ((state_of o).written ≡ written_after went c.written req)
    × ((state_of o).is_compression ≡ c.is_compression)

write_binary_msg_no_lock-Wrote :
    (link : Link) (req : GeneralWsReq) (c : LongConnMgr)
    → Wrote
        (goes_out link c.conn_status c.is_compression req)
        c
        req
        (write_binary_msg_no_lock link req c)
unfolding write_binary_msg_no_lock
write_binary_msg_no_lock-Wrote link req c =
    by_parts (link.encode req) (is_connected c.conn_status) c.is_compression (link.compress req)
      (link.write_message req)
  where
    by_parts :
        (encoded : Option String) (on compression : Bool) (compressed wrote : Option String)
        → Wrote
            (no_error encoded
              && (on && ((not compression || no_error compressed) && no_error wrote)))
            c
            req
            (unless_error encoded c (
              if not on
              then fail "connection closed,re conning..." c
              else if compression
              then unless_error compressed c
                  (unless_error wrote c (done (record c { written = c.written ++ (req ∷ []) })))
              else unless_error wrote c (done (record c { written = c.written ++ (req ∷ []) }))))
    by_parts (some e) on compression compressed wrote = (refl, refl, refl)
    by_parts none false compression compressed wrote = (refl, refl, refl)
    by_parts none true false compressed (some e) = (refl, refl, refl)
    by_parts none true false compressed none = (refl, refl, refl)
    by_parts none true true (some e) wrote = (refl, refl, refl)
    by_parts none true true none (some e) = (refl, refl, refl)
    by_parts none true true none none = (refl, refl, refl)

close_lem :
    (c : LongConnMgr)
    → ((close c).written ≡ c.written) × ((close c).is_compression ≡ c.is_compression)
unfolding close
close_lem c =
    if_both (λ (x : LongConnMgr). (x.written ≡ c.written) × (x.is_compression ≡ c.is_compression))
      (is_connected c.conn_status) _ _ (refl, refl) (refl, refl)

-- An attempt, and the later ones when it fails.
again-Wrote :
    (went : Bool) (later : Bool → Bool) (c : LongConnMgr) (req : GeneralWsReq)
    (o : Outcome LongConnMgr) (again : LongConnMgr → Outcome LongConnMgr)
    → Wrote went c req o
    → ((c' : LongConnMgr) → Wrote (later c'.is_compression) c' req (again c'))
    → Wrote
        (went || later c.is_compression)
        c
        req
        (or_again o (λ e after. again (close (record after { closed_err = some e }))))
again-Wrote true later c req (done after) again wrote rest = wrote
again-Wrote false later c req (done after) again (went, wrote, kept) rest = absurd (cc)
again-Wrote true later c req (fail e after) again (went, wrote, kept) rest = absurd (cc)
again-Wrote false later c req (fail e after) again (went, wrote, kept) rest =
    let c' = close (record after { closed_err = some e }) in
    let (same, mode) = close_lem (record after { closed_err = some e }) in
    let (went', wrote', kept') = rest c' in
    let compression = mode ∙ kept in
    (
      went' ∙ ap later compression,
      wrote'
          ∙ ap (λ b. written_after b c'.written req) (ap later compression)
          ∙ ap (λ w. written_after (later c.is_compression) w req) (same ∙ wrote),
      kept' ∙ compression,
    )

write_attempts-Wrote :
    (n : ℕ) (link : ℕ → Link) (status : ℕ → ConnStatus) (i : ℕ) (req : GeneralWsReq)
    (c : LongConnMgr)
    → Wrote
        (some_goes_out n link status i c.is_compression req)
        c
        req
        (write_attempts n link status i req c)
unfolding write_attempts some_goes_out
write_attempts-Wrote zero link status i req c = (refl, refl, refl)
write_attempts-Wrote (suc n) link status i req c =
    let c' = set_connection_status (status i) c in
    again-Wrote (goes_out (link i) (status i) c.is_compression req)
      (λ k. some_goes_out n link status (suc i) k req) c req
      (write_binary_msg_no_lock (link i) req c') (write_attempts n link status (suc i) req)
      (write_binary_msg_no_lock-Wrote (link i) req c')
      (write_attempts-Wrote n link status (suc i) req)

-- The write goes out just when nothing fails at one of the 300 attempts, which a request for the
-- newest sequence numbers only makes when connected; it is then written once, and else not at all.
pub write_binary_msg_and_retry-Wrote :
    (link : ℕ → Link) (status : ℕ → ConnStatus) (req : GeneralWsReq) (c : LongConnMgr)
    → (is_done (write_binary_msg_and_retry link status req c) ≡ (
        not (not (is_connected c.conn_status) && req.req_identifier == get_newest_seq)
        && some_goes_out max_reconnect_attempts link status 0 c.is_compression req))
      × ((state_of (write_binary_msg_and_retry link status req c)).written
          ≡ written_after (is_done (write_binary_msg_and_retry link status req c)) c.written req)
unfolding write_binary_msg_and_retry
write_binary_msg_and_retry-Wrote link status req c =
    let (went, wrote, kept) = write_attempts-Wrote max_reconnect_attempts link status 0 req c in
    elim (Bool-cases (not (is_connected c.conn_status) && req.req_identifier == get_newest_seq)) [
      | inl early ↦ rw early (refl, refl)
      | inr tried ↦ rw tried (went, rw went wrote)
    ]
