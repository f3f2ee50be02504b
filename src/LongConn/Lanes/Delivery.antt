-- ===== src/LongConn/Lanes/Delivery.antt =====
-- What the write pump of internal/interaction/long_conn_mgr.go promises of a lane.
use openim_sdk_core.Prelude.{
  ℕ, ◌+◌, ◌≤◌, ◌≡◌, refl, sym, ap, ◌∙◌, true, List, [], ◌∷◌, nat_eq, ltb, length, ltb, Bool-cases,
  inl, inr, arith,
}
use openim_sdk_core.Prelude.Map.{Map, keys}
use openim_sdk_core.LongConn.{SendOrderLane, text, media, other, Message}
use openim_sdk_core.LongConn.Lanes.{new_lanes, new_lane_state, PumpEvent, write_pump}
use openim_sdk_core.LongConn.Lanes.Ranges.{count-below, count-range, count-above, count-range_le}
use openim_sdk_core.LongConn.Lanes.Numbers.{seqs, count, range, Held, count-absent}
use openim_sdk_core.LongConn.Lanes.Receive.{lookup-Held}
use openim_sdk_core.LongConn.Lanes.Route.{is_kept, lane_at, AreReady}
use openim_sdk_core.LongConn.Lanes.Steps.{Moved, InStep, waiting, lane_IsReady}
use openim_sdk_core.LongConn.Lanes.Order.{arrivals, Untimed, run-Moved, run-InOrder}

new_lanes_Ready : AreReady new_lanes
unfolding Held new_lane_state
new_lanes_Ready = ((tt, tt, cc, refl), (tt, tt, cc, refl))

new_lane :
    (L : SendOrderLane)
    → is_kept L ≡ true
    → (waiting L new_lanes ≡ []) × ((lane_at L new_lanes).expected ≡ 1)
unfolding new_lane_state
new_lane text kept = (refl, refl)
new_lane media kept = (refl, refl)
new_lane (other n) kept = absurd (cc)

-- Whatever arrives and whichever timers fire, with no number twice in a lane: each number of the lane
-- that arrived was dispatched once or is kept, and a lane that keeps messages has an active timer.
pub write_pump_once :
    (L : SendOrderLane) (es : List PumpEvent)
    → is_kept L ≡ true
    → ((j : ℕ) → count j (seqs L (arrivals es)) ≤ 1)
    → ((j : ℕ)
        → count j (seqs L (write_pump es new_lanes).1)
            + count j (keys (lane_at L (write_pump es new_lanes).0).pending)
          ≡ count j (seqs L (arrivals es)))
      × AreReady (write_pump es new_lanes).0
unfolding Moved count
write_pump_once L es kept once =
    let (nothing, first) = new_lane L kept in
    let (ready, moved) =
      run-Moved L es new_lanes kept new_lanes_Ready
        (λ j. ground (arith, once j, ap (count j) nothing)) in
    (λ j. ground (arith, moved j, ap (count j) nothing), ready)

nothing-count : (L : SendOrderLane) (j : ℕ) → is_kept L ≡ true → count j (waiting L new_lanes) ≡ 0
unfolding count
nothing-count L j kept = ap (count j) (new_lane L kept).0

-- A run from 1 on that is a run of `n` but for what is kept, which is behind a gap, is all of it.
whole_run :
    (len n : ℕ) (ks : List ℕ)
    → ((j : ℕ) → count j (range 1 len) + count j ks ≡ count j (range 1 n))
    → count (1 + len) ks ≡ 0
    → len ≡ n
whole_run len n ks balance gap = elim (Bool-cases (ltb len n)) [
  | inl short ↦
      let missing = count-range (1 + len) 1 n (omega arith) (ground arith) in
      absurd (omega (arith, balance (1 + len), missing, gap, count-above (1 + len) 1 len))
  | inr enough ↦ elim (Bool-cases (ltb n len)) [
    | inl long ↦
        let extra = count-range len 1 len (ground arith) (omega arith) in
        absurd (omega (arith, balance len, extra, count-above len 1 n (ground arith)))
    | inr same ↦ ground arith
  ]
]

nothing_left : (p : Map ℕ Message) → ((j : ℕ) → count j (keys p) ≡ 0) → p ≡ []
unfolding count
nothing_left [] none_of = refl
nothing_left ((k, m) ∷ p) none_of = let here = none_of k in absurd (ground arith)

-- When the numbers of a lane's messages that arrive are 1 to `n` in any order, among any messages of
-- the other lane or of none and any timeouts of the other lane, and the lane's own timer does not
-- fire, the lane's messages are dispatched in the order of their numbers, all of them.
pub write_pump_in_order :
    (L : SendOrderLane) (n : ℕ) (es : List PumpEvent)
    → is_kept L ≡ true
    → ((j : ℕ) → count j (seqs L (arrivals es)) ≡ count j (range 1 n))
    → Untimed L es
    → (seqs L (write_pump es new_lanes).1 ≡ range 1 n)
      × ((lane_at L (write_pump es new_lanes).0).pending ≡ [])
unfolding InStep
write_pump_in_order L n es kept perm untimed =
    let out = write_pump es new_lanes in
    let p = (lane_at L out.0).pending in
    let (nothing, first) = new_lane L kept in
    let (moved, ready) =
      write_pump_once L es kept (λ j. omega (arith, perm j, count-range_le j 1 n)) in
    let (run, next) =
      run-InOrder L es new_lanes kept new_lanes_Ready
        (λ j. ground (arith, perm j, count-range_le j 1 n, nothing-count L j kept))
        (λ j below. omega (arith, perm j, count-below j 1 n, first, below)) untimed in
    let from_one = run ∙ ap (λ e. range e (length (seqs L out.1))) first in
    let balance : (j : ℕ)
        → count j (range 1 (length (seqs L out.1))) + count j (keys p) ≡ count j (range 1 n) =
      λ j. omega (arith, moved j, perm j, ap (count j) from_one) in
    let lane = lane_at L out.0 in
    let behind = lookup-Held L lane.expected p (lane_IsReady L out.0 kept ready).0 in
    let at : lane.expected ≡ 1 + length (seqs L out.1) = omega (arith, next, first) in
    let gap = ap (λ k. count k (keys p)) (sym at) ∙ count-absent lane.expected p behind in
    let whole = whole_run (length (seqs L out.1)) n (keys p) balance gap in
    (
      from_one ∙ ap (range 1) whole,
      nothing_left p (λ j. omega (arith, balance j, ap (λ k. count j (range 1 k)) whole)),
    )
