-- ===== src/LongConn/Lanes/Order.antt =====
-- The write pump of internal/interaction/long_conn_mgr.go over any events: what arrives is dispatched
-- once, and in the order of its numbers unless a timer fires.
use openim_sdk_core.Prelude.{
  ℕ, ◌+◌, ◌≤◌, ◌<◌, ◌≡◌, refl, sym, ap, ◌∙◌, true, false, List, [], ◌∷◌, ◌++◌, nat_eq, ltb, length,
  ltb, Bool-cases, inl, inr, arith,
}
use native.Mathlib.Nat.{add-zero}
use openim_sdk_core.LongConn.{SendOrderLane, Message}
use openim_sdk_core.LongConn.Lanes.{Lanes, PumpEvent, arrival, timer_fired, pump_step, write_pump}
use openim_sdk_core.LongConn.Lanes.Ranges.{split, count-range, runs-append}
use openim_sdk_core.LongConn.Lanes.Numbers.{is_lane, seqs, count, range}
use openim_sdk_core.LongConn.Lanes.Route.{
  is_kept, lane_at, AreReady, process_incoming_message-Routed,
}
use openim_sdk_core.LongConn.Lanes.Steps.{
  Moved, InStep, TimedOut, waiting, arrival-Moved, timeout-TimedOut,
}

-- The messages that arrive.
abbrev pub arrived : PumpEvent → List Message
arrived (arrival m) = m ∷ []
arrived (timer_fired lane) = []

unfoldable pub arrivals : List PumpEvent → List Message
arrivals [] = []
arrivals (e ∷ es) = arrived e ++ arrivals es

-- No number of the lane is there twice, in the arrivals and what is kept.
abbrev pub Fresh : SendOrderLane → List Message → Lanes → Type 0
Fresh L ms s = (j : ℕ) → count j (waiting L s) + count j (seqs L ms) ≤ 1

-- No message of the lane is late.
abbrev pub OnTime : SendOrderLane → List Message → Lanes → Type 0
OnTime L ms s = (j : ℕ) → j < (lane_at L s).expected → count j (seqs L ms) ≡ 0

-- The lane's own timer does not fire.
abbrev pub Untimed : SendOrderLane → List PumpEvent → Type 0
Untimed L [] = Unit
Untimed L (arrival m ∷ es) = Untimed L es
Untimed L (timer_fired lane ∷ es) = (is_lane lane L ≡ false) × Untimed L es

-- A step, by what it is: the lane moves, and keeps in step if the event is neither late nor its
-- timeout.
step-Moved :
    (L : SendOrderLane) (e : PumpEvent) (s : Lanes)
    → is_kept L ≡ true
    → AreReady s
    → Fresh L (arrived e) s
    → AreReady (pump_step e s).0
      × Moved L (seqs L (arrived e)) s (pump_step e s)
      × (OnTime L (arrived e) s → Untimed L (e ∷ []) → InStep L s (pump_step e s))
unfolding pump_step TimedOut seqs
step-Moved L (arrival m) s kept ready fresh =
    let (moved, steps) = arrival-Moved L m s kept ready fresh in
    ((process_incoming_message-Routed L m s kept ready).1, moved, λ on_time untimed. steps on_time)
step-Moved L (timer_fired lane) s kept ready fresh =
    let (after, moved, steps) = timeout-TimedOut L lane s kept ready in
    (after, moved, λ on_time untimed. steps untimed.0)

Fresh-split :
    (L : SendOrderLane) (ms ns : List Message) (s : Lanes)
    → Fresh L (ms ++ ns) s
    → Fresh L ms s × Fresh L ns s
Fresh-split L ms ns s fresh =
    (λ j. ground (arith, fresh j, split L j ms ns), λ j. ground (arith, fresh j, split L j ms ns))

Fresh-next :
    (L : SendOrderLane) (e : PumpEvent) (ns : List Message) (s : Lanes)
    → Fresh L (arrived e ++ ns) s
    → Moved L (seqs L (arrived e)) s (pump_step e s)
    → Fresh L ns (pump_step e s).0
unfolding Moved
Fresh-next L e ns s fresh moved = λ j. ground (arith, fresh j, split L j (arrived e) ns, moved j)

-- Nothing that arrives is lost or sent twice, whatever the timers do.
pub run-Moved :
    (L : SendOrderLane) (es : List PumpEvent) (s : Lanes)
    → is_kept L ≡ true
    → AreReady s
    → Fresh L (arrivals es) s
    → AreReady (write_pump es s).0 × Moved L (seqs L (arrivals es)) s (write_pump es s)
unfolding write_pump arrivals Moved seqs count
run-Moved L [] s kept ready fresh = (ready, λ j. refl)
run-Moved L (e ∷ es) s kept ready fresh =
    let (here, there) = Fresh-split L (arrived e) (arrivals es) s fresh in
    let (after, moved, steps) = step-Moved L e s kept ready here in
    let (last, rest) =
      run-Moved L es (pump_step e s).0 kept after (Fresh-next L e (arrivals es) s fresh moved) in
    (
      last,
      λ j. ground (
        arith,
        rest j,
        moved j,
        split L j (arrived e) (arrivals es),
        split L j (pump_step e s).1 (write_pump es (pump_step e s).0).1,
      ),
    )

OnTime-next :
    (L : SendOrderLane) (e : PumpEvent) (ns : List Message) (s : Lanes)
    → Fresh L (arrived e ++ ns) s
    → Moved L (seqs L (arrived e)) s (pump_step e s)
    → OnTime L (arrived e ++ ns) s
    → InStep L s (pump_step e s)
    → OnTime L ns (pump_step e s).0
unfolding Moved InStep
OnTime-next L e ns s fresh moved on_time (run, next) j below =
    let sent = seqs L (pump_step e s).1 in
    let parts = split L j (arrived e) ns in
    let expected = (lane_at L s).expected in
    elim (Bool-cases (ltb j expected)) [
      | inl old ↦ ground (arith, on_time j (ground arith))
      | inr new ↦
          let once =
            ap (count j) run
            ∙ count-range j expected (length sent) (ground arith) (ground (arith, next)) in
          ground (arith, fresh j, moved j)
    ]

InStep-trans :
    (L : SendOrderLane) (s : Lanes) (r r' : Lanes × List Message)
    → InStep L s r
    → InStep L r.0 r'
    → InStep L s (r'.0, r.1 ++ r'.1)
unfolding InStep
InStep-trans L s r r' (run, next) (run', next') =
    let (whole, long) =
      runs-append L r.1 r'.1 (lane_at L s).expected (lane_at L r.0).expected run run' next in
    (whole, omega (arith, next, next', long))

Untimed-split :
    (L : SendOrderLane) (e : PumpEvent) (es : List PumpEvent)
    → Untimed L (e ∷ es)
    → Untimed L (e ∷ []) × Untimed L es
Untimed-split L (arrival m) es h = (tt, h)
Untimed-split L (timer_fired lane) es h = ((h.0, tt), h.1)

pub run-InOrder :
    (L : SendOrderLane) (es : List PumpEvent) (s : Lanes)
    → is_kept L ≡ true
    → AreReady s
    → Fresh L (arrivals es) s
    → OnTime L (arrivals es) s
    → Untimed L es
    → InStep L s (write_pump es s)
unfolding write_pump arrivals InStep seqs range
run-InOrder L [] s kept ready fresh on_time untimed = (refl, sym (add-zero (lane_at L s).expected))
run-InOrder L (e ∷ es) s kept ready fresh on_time untimed =
    let (here, there) = Fresh-split L (arrived e) (arrivals es) s fresh in
    let (after, moved, steps) = step-Moved L e s kept ready here in
    let (now, later) = Untimed-split L e es untimed in
    let now_steps =
      steps (λ j below. ground (arith, on_time j below, split L j (arrived e) (arrivals es))) now in
    let r = pump_step e s in
    InStep-trans L s r (write_pump es r.0) now_steps (
      run-InOrder L es r.0 kept after (Fresh-next L e (arrivals es) s fresh moved)
        (OnTime-next L e (arrivals es) s fresh moved on_time now_steps) later)
