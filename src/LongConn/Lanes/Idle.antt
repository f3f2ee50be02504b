-- ===== src/LongConn/Lanes/Idle.antt =====
-- A flush of a lane of internal/interaction/long_conn_mgr.go that dispatches nothing, or something.
use openim_sdk_core.Prelude.{
  ℕ, zero, suc, ◌≤◌, ◌<◌, ◌≡◌, refl, ap, true, false, [], none, some, nat_eq, ◌==◌, length,
  Option-cases, inl, inr, arith,
}
use openim_sdk_core.Prelude.Map.{lookup}
use openim_sdk_core.LongConn.{SendOrderLane, Message}
use openim_sdk_core.LongConn.Lanes.{LaneState, flush_loop, settle, flush_lane}
use openim_sdk_core.LongConn.Lanes.Flush.{
  IsLane, flush_loop-Ran, settle-Ran, idle-Ran, lookup_nothing,
}

flush_loop-some :
    (n : ℕ) (l : LaneState) (m : Message)
    → lookup l.expected l.pending ≡ some m
    → length l.pending ≤ n
    → ((flush_loop n l).flushed ≡ true) × (0 < length (flush_loop n l).sent)
unfolding flush_loop
flush_loop-some zero l m found few =
    absurd (ground (arith, lookup_nothing l.expected l.pending few))
flush_loop-some (suc n) l m found few = rw found (refl, omega arith)

flush_loop-none :
    (n : ℕ) (l : LaneState)
    → lookup l.expected l.pending ≡ none
    → flush_loop n l ≡ record { lane = l; sent = []; flushed = false }
unfolding flush_loop
flush_loop-none zero l absent = refl
flush_loop-none (suc n) l absent = rw absent refl

-- A flush that dispatches nothing leaves the messages, of which there are some.
pub flush_lane-idle :
    (L : SendOrderLane) (l : LaneState)
    → IsLane L l
    → (flush_lane l).flushed ≡ false
    → (lookup l.expected l.pending ≡ none)
      × ((flush_lane l).lane.pending ≡ l.pending)
      × ((flush_lane l).lane.expected ≡ l.expected)
      × ((length l.pending == 0) ≡ false)
      × ((flush_lane l).sent ≡ [])
unfolding flush_lane
flush_lane-idle L l h idle =
    let n = length l.pending in
    elim (Option-cases (lookup l.expected l.pending)) [
      | inl absent ↦
          let kept =
            settle-Ran L l (record { lane = l; sent = []; flushed = false }) (idle-Ran L l h)
              absent in
          let same = flush_loop-none n l absent in
          (
            absent,
            rw same kept.2,
            rw same kept.3,
            ground (arith, kept.4, ap (λ f. (settle f).flushed) same),
            rw same kept.5,
          )
      | inr (m, found) ↦
          let (ran, over) = flush_loop-Ran L n l h (omega arith) in
          let settled = settle-Ran L l (flush_loop n l) ran over in
          absurd (ground (arith, settled.4, (flush_loop-some n l m found (omega arith)).0))
    ]

pub flush_lane-progress :
    (L : SendOrderLane) (l : LaneState)
    → IsLane L l
    → (flush_lane l).flushed ≡ true
    → (length l.pending == 0) ≡ false
    → 0 < length (flush_lane l).sent
unfolding flush_lane
flush_lane-progress L l h done more =
    let n = length l.pending in
    elim (Option-cases (lookup l.expected l.pending)) [
      | inl absent ↦
          let kept =
            settle-Ran L l (record { lane = l; sent = []; flushed = false }) (idle-Ran L l h)
              absent in
          absurd (ground (arith, kept.4, ap (λ f. (settle f).flushed) (flush_loop-none n l absent)))
      | inr (m, found) ↦
          let (ran, over) = flush_loop-Ran L n l h (omega arith) in
          rw (settle-Ran L l (flush_loop n l) ran over).5
            (flush_loop-some n l m found (omega arith)).1
    ]
