-- ===== src/LongConn/Status/Read.antt =====
-- The read pump of internal/interaction/long_conn_mgr.go uses the subscriptions and the batcher
-- only by their own operations, and it ends without a connection.
use openim_sdk_core.Prelude.{
  ℕ, ◌≡◌, ◌⊎◌, refl, subst, Bool, true, false, ◌&&◌, List, [], ◌∷◌, Option, none, some, String,
  nat_eq, if_both, Bool-cases, inl, inr,
}
use openim_sdk_core.Prelude.Outcome.{Outcome, done, fail}
use openim_sdk_core.Subscription.{on_conn_closed}
use openim_sdk_core.Subscription.Waiters.{closed as sub_closed, call as call_sub}
use openim_sdk_core.LongConn.Status.{LongConnMgr, closed, is_connected, close, re_conn}
use openim_sdk_core.LongConn.Status.Pump.{
  Codec, handle_message, ReadResult, read_failed, message_binary, message_text, close_message,
  message_other, Round, Turn, again, over, after_handling, on_read, on_re_conn, on_contexts, round,
  continue_with, read_pump,
}
use openim_sdk_core.Subscription.Waiters.{IsKept}
use openim_sdk_core.LongConn.Status.Quiet.{IsIdle, Refines-IsKept, Goes, round-Goes}
use openim_sdk_core.LongConn.Status.Handle.{
  Refines, Keeps, same-Refines, sub-Refines, trans-Refines, re_conn-Refines, handle_message-Refines,
}

abbrev state_at : Turn → LongConnMgr
state_at (again c) = c
state_at (over c) = c

after_handling-Refines :
    (c : LongConnMgr) (o : Outcome LongConnMgr)
    → Keeps c o
    → Refines c (state_at (after_handling o))
after_handling-Refines c (done c') h = h
after_handling-Refines c (fail e c') h = h

close-Refines : (c : LongConnMgr) → Refines c (close c)
unfolding close
close-Refines c =
    if_both (Refines c) (is_connected c.conn_status) (record c { conn_status = closed }) c
      (same-Refines c) (same-Refines c)

on_read-Refines :
    (codec : Codec) (r : ReadResult) (c : LongConnMgr) → Refines c (state_at (on_read codec r c))
unfolding call_sub
on_read-Refines codec (read_failed e) c =
    let c' = close c in
    trans-Refines c c' (record c' { sub = on_conn_closed (some e) c'.sub }) (close-Refines c)
      (sub-Refines c' (sub_closed (some e)))
on_read-Refines codec (message_binary m) c =
    after_handling-Refines c (handle_message codec m c) (handle_message-Refines codec m c)
on_read-Refines codec message_text c = same-Refines c
on_read-Refines codec close_message c = same-Refines c
on_read-Refines codec message_other c = same-Refines c

on_re_conn-Refines :
    (r : Round) (c : LongConnMgr) (x : Bool × Outcome LongConnMgr)
    → Keeps c x.1
    → Refines c (state_at (on_re_conn r x))
on_re_conn-Refines r c (false, done c') h = h
on_re_conn-Refines r c (false, fail e c') h = h
on_re_conn-Refines r c (true, fail e c') h = h
on_re_conn-Refines r c (true, done c') h =
    trans-Refines c c' (state_at (on_read r.codec r.read c')) h (on_read-Refines r.codec r.read c')

on_contexts-Refines :
    (ctx fg : Option String) (c : LongConnMgr) (t : Turn)
    → Refines c (state_at t)
    → Refines c (state_at (on_contexts ctx fg c t))
on_contexts-Refines (some e) fg c t h = same-Refines c
on_contexts-Refines none (some e) c t h = same-Refines c
on_contexts-Refines none none c t h = h

round-Refines :
    (is_token_error : ℕ → Bool) (r : Round) (c : LongConnMgr)
    → Refines c (state_at (round is_token_error r c))
unfolding round
round-Refines is_token_error r c =
    let x = re_conn r.link is_token_error r.dial c in
    on_contexts-Refines r.ctx_done r.fg_ctx_done c (on_re_conn r x)
      (on_re_conn-Refines r c x (re_conn-Refines r.link is_token_error r.dial c))

close_off : (c : LongConnMgr) → is_connected (close c).conn_status ≡ false
unfolding close
close_off c = elim (Bool-cases (is_connected c.conn_status)) [
  | inl on ↦ rw on refl
  | inr off ↦ rw off off
]

-- What the rounds leave, from a manager with the waiters that its table knows.
abbrev Ended : LongConnMgr → Bool × LongConnMgr → Type 0
Ended c r =
    Refines c r.1 × (r.0 && is_connected r.1.conn_status ≡ false) × ((r.0 ≡ true) ⊎ IsIdle r.1)

continue-Ended :
    (c : LongConnMgr) (t : Turn) (rest : LongConnMgr → Bool × LongConnMgr)
    → IsKept c.sub
    → Refines c (state_at t)
    → Goes t
    → ((c' : LongConnMgr) → IsKept c'.sub → IsIdle c' → Ended c' (rest c'))
    → Ended c (continue_with t rest)
continue-Ended c (again c') rest kept h idle later =
    let (refines, off, waits) = later c' (Refines-IsKept c c' h kept) idle in
    (trans-Refines c c' (rest c').1 h refines, off, waits)
continue-Ended c (over c') rest kept h idle later =
    (trans-Refines c c' (close c') h (close-Refines c'), close_off c', inl refl)

re_conn-IsKept :
    (is_token_error : ℕ → Bool) (r : Round) (c c' : LongConnMgr)
    → IsKept c.sub
    → (re_conn r.link is_token_error r.dial c).1 ≡ done c'
    → IsKept c'.sub
re_conn-IsKept is_token_error r c c' kept e =
    Refines-IsKept c c' (subst (Keeps c) e (re_conn-Refines r.link is_token_error r.dial c)) kept

-- Over any rounds, whatever the connection answers and whatever is read, the read pump changes the
-- subscriptions and the batcher only as some sequence of their own operations does, so that all
-- that holds after their operations holds after it; when it is over the manager is not connected;
-- and as long as it is not over, whenever the manager is not connected, as after a read that
-- failed, nobody is left waiting for the status of a user. This is for a manager whose table knows
-- everybody who waits, and where nobody does if it is not connected.
pub read_pump-Refines :
    (is_token_error : ℕ → Bool) (rs : List Round) (c : LongConnMgr)
    → IsKept c.sub
    → IsIdle c
    → Refines c (read_pump is_token_error rs c).1
      × ((read_pump is_token_error rs c).0
            && is_connected (read_pump is_token_error rs c).1.conn_status
          ≡ false)
      × (((read_pump is_token_error rs c).0 ≡ true) ⊎ IsIdle (read_pump is_token_error rs c).1)
unfolding read_pump
read_pump-Refines is_token_error [] c kept idle = (same-Refines c, refl, inr idle)
read_pump-Refines is_token_error (r ∷ rs) c kept idle =
    continue-Ended c (round is_token_error r c) (λ c'. read_pump is_token_error rs c') kept
      (round-Refines is_token_error r c)
      (round-Goes is_token_error r c kept idle
        (λ c' e. re_conn-IsKept is_token_error r c c' kept e))
      (λ c' kept' idle'. read_pump-Refines is_token_error rs c' kept' idle')
