-- ===== src/LongConn/Lanes/Receive.antt =====
-- A message that arrives in a lane of internal/interaction/long_conn_mgr.go, and a timeout of the
-- lane, by the numbers that are kept and dispatched.
use openim_sdk_core.Prelude.{
  ℕ, suc, ◌+◌, ◌≤◌, ◌<◌, ◌≡◌, refl, sym, ap, subst, ◌∙◌, Bool, true, false, List, [], ◌∷◌, none,
  some, nat_eq, ◌==◌, ltb, if◌then◌else◌, length, Bool-cases, inl, inr, arith,
}
use openim_sdk_core.Prelude.Map.{Map, lookup, insert, keys, insert-Distinct}
use openim_sdk_core.LongConn.{SendOrderLane, Message}
use openim_sdk_core.LongConn.Lanes.{
  LaneState, stop_timer, start_timer, has_gap, is_found, flush_lane, advance, watch, receive,
}
use openim_sdk_core.LongConn.Lanes.Numbers.{is_lane, seq_in, seqs, count, range, Held}
use openim_sdk_core.LongConn.Lanes.Flush.{IsLane, flush_lane-Ran, seqs_one}
use openim_sdk_core.LongConn.Lanes.Timeout.{IsReady, flush_lane-IsReady, stop_timer_lem}

Held-insert :
    (L : SendOrderLane) (e k : ℕ) (p : Map ℕ Message) (m : Message)
    → Held L e p
    → e ≤ k
    → seq_in L m ≡ some k
    → Held L e (insert k m p)
unfolding Held insert
Held-insert L e k [] m h le own = (le, own, tt)
Held-insert L e k ((j, x) ∷ p) m h le own = elim (Bool-cases (j == k)) [
  | inl same ↦ rw same (le, own, h.2)
  | inr apart ↦ rw apart (h.0, h.1, Held-insert L e k p m h.2 le own)
]

count-insert :
    (j k : ℕ) (p : Map ℕ Message) (m : Message)
    → lookup k p ≡ none
    → count j (keys (insert k m p)) ≡ count j (k ∷ keys p)
unfolding count insert lookup
count-insert j k [] m fresh = refl
count-insert j k ((i, x) ∷ p) m fresh = ground (arith, count-insert j k p m)

pub lookup-Held :
    (L : SendOrderLane) (e : ℕ) (p : Map ℕ Message) → Held L (suc e) p → lookup e p ≡ none
unfolding Held lookup
lookup-Held L e [] h = refl
lookup-Held L e ((j, x) ∷ p) h = ground (arith, h.0, lookup-Held L e p h.2)

length_insert : (k : ℕ) (p : Map ℕ Message) (m : Message) → length (insert k m p) == 0 ≡ false
unfolding insert
length_insert k [] m = ground arith
length_insert k ((j, x) ∷ p) m = ground arith

start_timer_lem :
    (lane : SendOrderLane) (e : ℕ) (p : Map ℕ Message) (t a : Bool)
    → (a ≡ true → t ≡ true)
    → start_timer
        (record { lane_type = lane; expected = e; pending = p; has_timer = t; active = a })
      ≡ record { lane_type = lane; expected = e; pending = p; has_timer = true; active = true }
unfolding start_timer
start_timer_lem lane e p t false timed = refl
start_timer_lem lane e p true true timed = refl
start_timer_lem lane e p false true timed = absurd (ground (arith, timed refl))

-- A timer that is started when there is a gap.
watch_lem :
    (l : LaneState)
    → length l.pending == 0 ≡ false
    → lookup l.expected l.pending ≡ none
    → (l.active ≡ true → l.has_timer ≡ true)
    → watch l ≡ record l { active = true; has_timer = true }
unfolding watch has_gap
watch_lem l more absent timed =
    let started = start_timer_lem l.lane_type l.expected l.pending l.has_timer l.active timed in
    let gap : has_gap l ≡ true = ground (arith, more, absent, ap is_found absent) in
    subst (λ b. (if b then start_timer l else l) ≡ record l { active = true; has_timer = true })
      (sym gap) started

-- What a lane is after a message, but for the numbers.
abbrev pub Took : SendOrderLane → LaneState × List Message → Type 0
Took L r = IsReady L r.0 × ((a : SendOrderLane) → is_lane a L ≡ false → seqs a r.1 ≡ [])

-- The numbers that are dispatched and kept, when `k` arrives.
abbrev pub Counted : SendOrderLane → ℕ → LaneState → LaneState × List Message → Type 0
Counted L k l r =
    ((j : ℕ) → count j (seqs L r.1) + count j (keys r.0.pending) ≡ count j (k ∷ keys l.pending))
    × (l.expected ≤ k
        → (seqs L r.1 ≡ range l.expected (length r.1)) × (r.0.expected ≡ l.expected + length r.1))

-- A message that is early is kept.
kept-Took :
    (L : SendOrderLane) (k : ℕ) (m : Message) (l : LaneState)
    → IsReady L l
    → seq_in L m ≡ some k
    → l.expected < k
    → Took L (watch (record l { pending = insert k m l.pending }), [])
unfolding seqs
kept-Took L k m l h own early =
    let p = insert k m l.pending in
    let held = Held-insert L (suc l.expected) k l.pending m h.0 early own in
    let more = length_insert k l.pending m in
    let absent = lookup-Held L l.expected p held in
    rw (watch_lem (record l { pending = p }) more absent h.2)
      ((held, insert-Distinct k m l.pending h.1, λ t. refl, rw more refl), λ a apart. refl)

kept-Counted :
    (L : SendOrderLane) (k : ℕ) (m : Message) (l : LaneState)
    → IsReady L l
    → seq_in L m ≡ some k
    → l.expected < k
    → lookup k l.pending ≡ none
    → Counted L k l (watch (record l { pending = insert k m l.pending }), [])
unfolding seqs range count
kept-Counted L k m l h own early fresh =
    let p = insert k m l.pending in
    let held = Held-insert L (suc l.expected) k l.pending m h.0 early own in
    let more = length_insert k l.pending m in
    let absent = lookup-Held L l.expected p held in
    rw (watch_lem (record l { pending = p }) more absent h.2)
      (λ j. ground (arith, count-insert j k l.pending m fresh), λ le. (refl, omega arith))

-- A message that is awaited is dispatched with those behind it.
awaited-Took :
    (L : SendOrderLane) (k : ℕ) (m : Message) (l : LaneState)
    → IsReady L l
    → seq_in L m ≡ some k
    → l.expected ≡ k
    → Took L
        ((flush_lane (advance (stop_timer l))).lane, m ∷ (flush_lane (advance (stop_timer l))).sent)
      × Counted L k l (
        (flush_lane (advance (stop_timer l))).lane,
        m ∷ (flush_lane (advance (stop_timer l))).sent,
      )
unfolding seqs range count
awaited-Took L k m l h own same =
    let (e, p, timed) = stop_timer_lem l h.2 in
    let l' = advance (stop_timer l) in
    let lane : IsLane L l' = (rw e (rw p h.0), rw p h.1, timed) in
    let ran = (flush_lane-Ran L l' lane).0 in
    (
      (flush_lane-IsReady L l' lane, λ a apart. rw (seqs_one L a m k own apart) (ran.4 a apart)),
      (
        λ j. rw own (ground (arith, ran.3 j, ap (λ q. count j (keys q)) p)),
        λ le. (
          rw own rw (sym same) (
              ap (λ ks. l.expected ∷ ks)
                (ran.0 ∙ ap (λ x. range (suc x) (length (flush_lane l').sent)) e)),
          omega (arith, ran.1, e),
        ),
      ),
    )

-- A message that is late is dispatched.
late-Took :
    (L : SendOrderLane) (k : ℕ) (m : Message) (l : LaneState)
    → IsReady L l
    → seq_in L m ≡ some k
    → k < l.expected
    → Took L (l, m ∷ []) × (lookup k l.pending ≡ none → Counted L k l (l, m ∷ []))
unfolding seqs range count
late-Took L k m l h own late = (
  (h, λ a apart. rw (seqs_one L a m k own apart) refl),
  λ fresh. (λ j. rw own (ground arith), λ le. absurd (omega (arith, le, late))),
)

pub receive-Took :
    (L : SendOrderLane) (k : ℕ) (m : Message) (l : LaneState)
    → IsReady L l
    → seq_in L m ≡ some k
    → Took L (receive k m l) × (lookup k l.pending ≡ none → Counted L k l (receive k m l))
unfolding receive
receive-Took L k m l h own = elim (Bool-cases (ltb k l.expected)) [
  | inl late ↦ rw late (late-Took L k m l h own (ground arith))
  | inr on_time ↦ elim (Bool-cases (k == l.expected)) [
    | inl now ↦
        rw on_time (
          rw now
            (let both = awaited-Took L k m l h own (ground arith) in (both.0, λ fresh. both.1)))
    | inr early ↦ rw on_time (
        rw early
          (kept-Took L k m l h own (ground arith), kept-Counted L k m l h own (ground arith)))
  ]
]
