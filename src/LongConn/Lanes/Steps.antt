-- ===== src/LongConn/Lanes/Steps.antt =====
-- A step of the write pump of internal/interaction/long_conn_mgr.go, by the numbers of a lane that
-- arrive, are kept and are dispatched.
use openim_sdk_core.Prelude.{
  ℕ, ◌+◌, ◌≤◌, ◌<◌, ◌≡◌, refl, sym, ap, subst, ◌∙◌, true, false, ◌&&◌, List, [], ◌∷◌, none, some,
  nat_eq, if_both, ltb, length, Bool-cases, inl, inr, arith,
}
use native.Mathlib.Nat.{add-zero}
use openim_sdk_core.Prelude.Map.{Map, lookup, keys}
use openim_sdk_core.LongConn.{SendOrderLane, text, media, other, Message}
use openim_sdk_core.LongConn.Lanes.{
  LaneState, Lanes, handle_lane_timeout, lane_by_type, put_lane, process_incoming_message,
  timer_fired, fire, pump_step,
}
use openim_sdk_core.LongConn.Lanes.Ranges.{length-range}
use openim_sdk_core.LongConn.Lanes.Numbers.{is_lane, seq_in, put, seqs, count, range}
use openim_sdk_core.LongConn.Lanes.Timeout.{IsReady, handle_lane_timeout-Skipped}
use openim_sdk_core.LongConn.Lanes.Receive.{receive-Took}
use openim_sdk_core.LongConn.Lanes.Route.{
  is_kept, lane_at, AreReady, process_incoming_message-Routed,
}

pub lookup_count : (k : ℕ) (p : Map ℕ Message) → count k (keys p) ≡ 0 → lookup k p ≡ none
unfolding count lookup
lookup_count k [] h = refl
lookup_count k ((j, m) ∷ p) h = ground (arith, lookup_count k p)

-- The numbers of the lane that are kept.
abbrev pub waiting : SendOrderLane → Lanes → List ℕ
waiting L s = keys (lane_at L s).pending

-- A step takes the lane from `s` to `r`, with the numbers `ks` arriving.
unfoldable pub Moved : SendOrderLane → List ℕ → Lanes → Lanes × List Message → Type 0
Moved L ks s r =
    (j : ℕ) → count j (seqs L r.1) + count j (waiting L r.0) ≡ count j ks + count j (waiting L s)

-- The step dispatches the numbers of the lane from the expected one on.
unfoldable pub InStep : SendOrderLane → Lanes → Lanes × List Message → Type 0
InStep L s r =
    (seqs L r.1 ≡ range (lane_at L s).expected (length (seqs L r.1)))
    × ((lane_at L r.0).expected ≡ (lane_at L s).expected + length (seqs L r.1))

pub lane_IsReady :
    (L : SendOrderLane) (s : Lanes) → is_kept L ≡ true → AreReady s → IsReady L (lane_at L s)
lane_IsReady text s kept ready = ready.0
lane_IsReady media s kept ready = ready.1
lane_IsReady (other n) s kept ready = absurd (cc)

run-InStep :
    (L : SendOrderLane) (s : Lanes) (r : Lanes × List Message) (n : ℕ)
    → seqs L r.1 ≡ range (lane_at L s).expected n
    → (lane_at L r.0).expected ≡ (lane_at L s).expected + n
    → InStep L s r
unfolding InStep
run-InStep L s r n run next =
    let long = ap length run ∙ length-range (lane_at L s).expected n in (rw long run, rw long next)

fresh-absent :
    (k : ℕ) (p : Map ℕ Message) → count k (keys p) + count k (k ∷ []) ≤ 1 → lookup k p ≡ none
unfolding count
fresh-absent k p few = lookup_count k p (ground arith)

not_past :
    (L : SendOrderLane) (k : ℕ) (m : Message) (e : ℕ)
    → seq_in L m ≡ some k
    → ((j : ℕ) → j < e → count j (seqs L (m ∷ [])) ≡ 0)
    → e ≤ k
unfolding count seqs
not_past L k m e own past = elim (Bool-cases (ltb k e)) [
  | inl late ↦
      let none_of = subst (λ o. count k (put o []) ≡ 0) own (past k (ground arith)) in
      absurd (ground arith)
  | inr on_time ↦ ground arith
]

pub arrival-Moved :
    (L : SendOrderLane) (m : Message) (s : Lanes)
    → is_kept L ≡ true
    → AreReady s
    → ((j : ℕ) → count j (waiting L s) + count j (seqs L (m ∷ [])) ≤ 1)
    → Moved L (seqs L (m ∷ [])) s (process_incoming_message m s)
      × (((j : ℕ) → j < (lane_at L s).expected → count j (seqs L (m ∷ [])) ≡ 0)
          → InStep L s (process_incoming_message m s))
unfolding Moved seqs count range
arrival-Moved L m s kept ready fresh =
    let r = process_incoming_message m s in
    elim (process_incoming_message-Routed L m s kept ready).0 [
      | inl (own, same, nothing) ↦ (
        λ j. rw own (rw same (rw nothing refl)),
        λ past.
            run-InStep L s r 0 nothing
              (ap (λ l. l.expected) same ∙ sym (add-zero (lane_at L s).expected)),
      )
      | inr (k, own, after, out) ↦
          let (took, counted) =
            receive-Took L k m (lane_at L s) (lane_IsReady L s kept ready) own in
          let absent =
            fresh-absent k (lane_at L s).pending
              (subst (λ o. count k (waiting L s) + count k (put o []) ≤ 1) own (fresh k)) in
          let (moved, steps) = counted absent in
          (
            λ j. rw after (rw out (rw own (ground (arith, moved j)))),
            λ past.
                let (run, next) = steps (not_past L k m (lane_at L s).expected own past) in
                run-InStep L s r (length r.1) (rw out run) (rw after (rw out next)),
          )
    ]

-- A timeout of the lane itself loses no number, and one of the other lane is past it.
unfoldable pub TimedOut : SendOrderLane → SendOrderLane → Lanes → Lanes × List Message → Type 0
TimedOut L lane s r = AreReady r.0 × Moved L [] s r × (is_lane lane L ≡ false → InStep L s r)

nothing-InStep :
    (L : SendOrderLane) (s : Lanes) (r : Lanes × List Message)
    → lane_at L r.0 ≡ lane_at L s
    → seqs L r.1 ≡ []
    → Moved L [] s r × InStep L s r
unfolding Moved InStep count range
nothing-InStep L s r same nothing = (
  λ j. rw same (rw nothing refl),
  rw nothing (refl, ap (λ l. l.expected) same ∙ sym (add-zero (lane_at L s).expected)),
)

idle-TimedOut : (L lane : SendOrderLane) (s : Lanes) → AreReady s → TimedOut L lane s (s, [])
unfolding TimedOut seqs
idle-TimedOut L lane s ready =
    let (moved, steps) = nothing-InStep L s (s, []) refl refl in (ready, moved, λ apart. steps)

own-Moved :
    (L : SendOrderLane) (l : LaneState) (j : ℕ)
    → IsReady L l
    → count j (seqs L (handle_lane_timeout l).sent)
        + count j (keys (handle_lane_timeout l).lane.pending)
      ≡ 0 + count j (keys l.pending)
own-Moved L l j ready = omega (arith, (handle_lane_timeout-Skipped L l ready).3.3 j)

pub timeout-TimedOut :
    (L lane : SendOrderLane) (s : Lanes)
    → is_kept L ≡ true
    → AreReady s
    → TimedOut L lane s (pump_step (timer_fired lane) s)
unfolding pump_step TimedOut Moved count
timeout-TimedOut L lane s kept ready = by_lane L lane kept
  where
    by_lane :
        (L lane : SendOrderLane)
        → is_kept L ≡ true
        → TimedOut L lane s (fire lane (lane_by_type lane s) s)
    by_lane L (other n) kept = idle-TimedOut L (other n) s ready
    by_lane text text kept =
        let l = s.text_lane in
        let f = handle_lane_timeout l in
        if_both (TimedOut text text s) (l.active && l.has_timer) (put_lane text f.lane s, f.sent)
          (s, [])
          (
            ((handle_lane_timeout-Skipped text l ready.0).4, ready.1),
            λ j. own-Moved text l j ready.0,
            λ apart. absurd (cc),
          )
          (idle-TimedOut text text s ready)
    by_lane media media kept =
        let l = s.media_lane in
        let f = handle_lane_timeout l in
        if_both (TimedOut media media s) (l.active && l.has_timer) (put_lane media f.lane s, f.sent)
          (s, [])
          (
            (ready.0, (handle_lane_timeout-Skipped media l ready.1).4),
            λ j. own-Moved media l j ready.1,
            λ apart. absurd (cc),
          )
          (idle-TimedOut media media s ready)
    by_lane text media kept =
        let l = s.media_lane in
        let f = handle_lane_timeout l in
        let skipped = handle_lane_timeout-Skipped media l ready.1 in
        let r : Lanes × List Message = (put_lane media f.lane s, f.sent) in
        let (moved, steps) = nothing-InStep text s r refl (skipped.3.4 text refl) in
        if_both (TimedOut text media s) (l.active && l.has_timer) r (s, [])
          ((ready.0, skipped.4), moved, λ apart. steps) (idle-TimedOut text media s ready)
    by_lane media text kept =
        let l = s.text_lane in
        let f = handle_lane_timeout l in
        let skipped = handle_lane_timeout-Skipped text l ready.0 in
        let r : Lanes × List Message = (put_lane text f.lane s, f.sent) in
        let (moved, steps) = nothing-InStep media s r refl (skipped.3.4 media refl) in
        if_both (TimedOut media text s) (l.active && l.has_timer) r (s, [])
          ((skipped.4, ready.1), moved, λ apart. steps) (idle-TimedOut media text s ready)
    by_lane (other n) text kept = absurd (cc)
    by_lane (other n) media kept = absurd (cc)
