-- ===== src/LongConn/Lanes/Timeout.antt =====
-- `handleLaneTimeout` of internal/interaction/long_conn_mgr.go: the loop ends, and it goes on behind
-- the gap.
use openim_sdk_core.Prelude.{
  ℕ, zero, suc, ◌+◌, ◌≤◌, ◌<◌, ◌≡◌, refl, ap, subst, true, false, [], ◌∷◌, nat_eq, ◌==◌, length,
  Bool-cases, inl, inr, arith,
}
use openim_sdk_core.Prelude.Map.{Map, keys, Distinct}
use openim_sdk_core.LongConn.{SendOrderLane, Message}
use openim_sdk_core.LongConn.Lanes.{
  LaneState, Flushed, stop_timer, flush_lane, timeout_loop, handle_lane_timeout, advance, greatest,
}
use openim_sdk_core.LongConn.Lanes.Numbers.{Held, Held-next}
use openim_sdk_core.LongConn.Lanes.Idle.{flush_lane-idle, flush_lane-progress}
use openim_sdk_core.LongConn.Lanes.Flush.{IsLane, Ran, IsWatched, flush_lane-Ran}

-- A lane between two operations: all that it keeps is behind a gap, under a timer.
abbrev pub IsReady : SendOrderLane → LaneState → Type 0
IsReady L l =
    Held L (suc l.expected) l.pending
    × Distinct l.pending
    × (l.active ≡ true → l.has_timer ≡ true)
    × IsWatched l

pub flush_lane-IsReady :
    (L : SendOrderLane) (l : LaneState) → IsLane L l → IsReady L (flush_lane l).lane
flush_lane-IsReady L l h =
    let (ran, watched, over) = flush_lane-Ran L l h in
    let lane = (flush_lane l).lane in
    (Held-next L lane.expected lane.pending ran.2.0 over, ran.2.1, ran.2.2, watched)

greatest_reached :
    (L : SendOrderLane) (e : ℕ) (p : Map ℕ Message)
    → Held L (suc e) p
    → greatest (keys p) ≤ e
    → length p ≡ 0
unfolding Held greatest
greatest_reached L e [] h small = refl
greatest_reached L e ((k, m) ∷ p) h small = absurd (ground (arith, h.0))

abbrev pub from : ℕ → LaneState → LaneState
from start l = record l { expected = start }

-- The loop skips to the next message that the lane keeps, and dispatches a run from there on.
abbrev Skipped : SendOrderLane → LaneState → Flushed → Type 0
Skipped L l r =
    (start : ℕ) × (l.expected ≤ start)
    × Held L start l.pending
    × Ran L (from start l) r
    × IsReady L r.lane
    × ((length l.pending == 0) ≡ false → 0 < length r.sent)

flush_lane-Skipped :
    (L : SendOrderLane) (l : LaneState)
    → IsLane L l
    → (flush_lane l).flushed ≡ true
    → Skipped L l (flush_lane l)
flush_lane-Skipped L l h done = (
  l.expected,
  omega arith,
  h.0,
  (flush_lane-Ran L l h).0,
  flush_lane-IsReady L l h,
  flush_lane-progress L l h done,
)

timeout_loop_done :
    (n : ℕ) (l : LaneState) → (flush_lane l).flushed ≡ true → timeout_loop n l ≡ flush_lane l
unfolding timeout_loop
timeout_loop_done zero l done = refl
timeout_loop_done (suc n) l done = simp done

timeout_loop_idle :
    (n : ℕ) (l : LaneState)
    → (flush_lane l).flushed ≡ false
    → (flush_lane l).sent ≡ []
    → timeout_loop (suc n) l ≡ timeout_loop n (advance (flush_lane l).lane)
unfolding timeout_loop
timeout_loop_idle n l idle sent = simp (idle, sent)

Skipped-step :
    (L : SendOrderLane) (l l' : LaneState) (r : Flushed)
    → l'.pending ≡ l.pending
    → l'.expected ≡ suc l.expected
    → Skipped L l' r
    → Skipped L l r
Skipped-step L l l' r p e (start, le, held, ran, ready, more) = (
  start,
  omega (arith, le, e),
  subst (Held L start) p held,
  subst (λ q. Ran L (record l { expected = start; pending = q }) r) p ran,
  ready,
  subst (λ q. (length q == 0) ≡ false → 0 < length r.sent) p more,
)

Ended : SendOrderLane → LaneState → Flushed → Type 0
Ended L l r = Skipped L l r × (r.flushed ≡ true)

done-Ended :
    (L : SendOrderLane) (n : ℕ) (l : LaneState)
    → IsLane L l
    → (flush_lane l).flushed ≡ true
    → Ended L l (timeout_loop n l)
unfolding Ended
done-Ended L n l h done = rw (timeout_loop_done n l done) (flush_lane-Skipped L l h done, done)

timeout_loop-Ended :
    (L : SendOrderLane) (n : ℕ) (l : LaneState)
    → IsLane L l
    → greatest (keys l.pending) ≤ n + l.expected
    → Ended L l (timeout_loop n l)
unfolding Ended
timeout_loop-Ended L zero l h enough = elim (Bool-cases (flush_lane l).flushed) [
  | inl done ↦ done-Ended L zero l h done
  | inr idle ↦
      let next = Held-next L l.expected l.pending h.0 (flush_lane-idle L l h idle).0 in
      absurd (
        ground
          (arith, greatest_reached L l.expected l.pending next, (flush_lane-idle L l h idle).3))
]
timeout_loop-Ended L (suc n) l h enough = elim (Bool-cases (flush_lane l).flushed) [
  | inl done ↦ done-Ended L (suc n) l h done
  | inr idle ↦
      let (absent, p, e, more, sent) = flush_lane-idle L l h idle in
      let ready = flush_lane-IsReady L l h in
      let l' = advance (flush_lane l).lane in
      let (skipped, done) =
        timeout_loop-Ended L n l' (ready.0, ready.1, ready.2)
          (ground (arith, e, ap (λ q. greatest (keys q)) p)) in
      rw (timeout_loop_idle n l idle sent)
        (Skipped-step L l l' (timeout_loop n l') p (ap suc e) skipped, done)
]

pub stop_timer_lem :
    (l : LaneState)
    → (l.active ≡ true → l.has_timer ≡ true)
    → ((stop_timer l).expected ≡ l.expected)
      × ((stop_timer l).pending ≡ l.pending)
      × ((stop_timer l).active ≡ true → (stop_timer l).has_timer ≡ true)
unfolding stop_timer
stop_timer_lem l h = (ground arith, ground arith, ground arith)

-- A timeout of a lane that keeps messages skips to the first that it keeps, dispatches it and those
-- behind it without a gap, and leaves the lane ready: the loop of the source ends.
pub handle_lane_timeout-Skipped :
    (L : SendOrderLane) (l : LaneState)
    → IsReady L l
    → (start : ℕ) × (l.expected < start)
      × Held L start l.pending
      × Ran L (from start l) (handle_lane_timeout l)
      × IsReady L (handle_lane_timeout l).lane
      × ((length l.pending == 0) ≡ false → 0 < length (handle_lane_timeout l).sent)
      × ((handle_lane_timeout l).flushed ≡ true)
unfolding handle_lane_timeout Ended
handle_lane_timeout-Skipped L l h =
    let l' = advance (stop_timer l) in
    let (e, p, timed) = stop_timer_lem l h.2 in
    let (skipped, done) =
      timeout_loop-Ended L (greatest (keys l.pending)) l' (rw e (rw p h.0), rw p h.1, timed)
        (ground (arith, ap (λ q. greatest (keys q)) p)) in
    let s =
      Skipped-step L l l' (timeout_loop (greatest (keys l.pending)) l') p (ap suc e) skipped in
    (s.0, omega (arith, skipped.1, e), s.2, s.3, s.4, s.5, done)
