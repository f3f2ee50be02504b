-- ===== src/LongConn/Lanes/Flush.antt =====
-- What `flushLane` of internal/interaction/long_conn_mgr.go does to a lane: it dispatches a run of
-- consecutive messages.
use openim_sdk_core.Prelude.{
  ℕ, zero, suc, ◌+◌, ◌≤◌, ◌≡◌, refl, sym, ap, subst, Bool, true, false, not, ◌||◌, List, [], ◌∷◌,
  Option, none, some, nat_eq, ◌==◌, length, Bool-cases, inl, inr, arith,
}
use openim_sdk_core.Prelude.Map.{Map, lookup, delete, keys, Distinct, delete-Distinct}
use openim_sdk_core.LongConn.{SendOrderLane, text, media, other, SendOrderInfo, Message}
use openim_sdk_core.LongConn.Lanes.{
  LaneState, Flushed, stop_timer, start_timer, has_gap, deliver, take_next, flush_loop, settle,
  flush_lane,
}
use openim_sdk_core.LongConn.Lanes.Numbers.{
  is_lane, seq_of, seq_in, seqs, count, range, Held, Held-next, Held-lookup, Held-delete,
  lookup_deleted, count-delete, length-delete,
}

-- A lane that awaits `e`, keeps nothing below it, and has a timer if one is active.
abbrev pub IsLane : SendOrderLane → LaneState → Type 0
IsLane L l =
    Held L l.expected l.pending × Distinct l.pending × (l.active ≡ true → l.has_timer ≡ true)

-- `r` is `l` after a run of consecutive messages from the expected one on was dispatched.
abbrev pub Ran : SendOrderLane → LaneState → Flushed → Type 0
Ran L l r =
    (seqs L r.sent ≡ range l.expected (length r.sent))
    × (r.lane.expected ≡ l.expected + length r.sent)
    × IsLane L r.lane
    × ((k : ℕ) → count k (keys l.pending) ≡ count k (keys r.lane.pending) + count k (seqs L r.sent))
    × ((other : SendOrderLane) → is_lane other L ≡ false → seqs other r.sent ≡ [])

deliver_lem :
    (l : LaneState)
    → ((deliver l).expected ≡ suc l.expected) × ((deliver l).pending ≡ delete l.expected l.pending)
unfolding deliver stop_timer
deliver_lem l = ground arith

deliver_timer :
    (l : LaneState)
    → (l.active ≡ true → l.has_timer ≡ true)
    → (deliver l).active ≡ true
    → (deliver l).has_timer ≡ true
unfolding deliver stop_timer
deliver_timer l h = ground arith

pub deliver-IsLane :
    (L : SendOrderLane) (l : LaneState) (m : Message)
    → IsLane L l
    → lookup l.expected l.pending ≡ some m
    → IsLane L (deliver l)
deliver-IsLane L l m h found =
    let (e, p) = deliver_lem l in
    let left = lookup_deleted l.expected l.pending in
    let kept = Held-delete L l.expected l.expected l.pending h.0 in
    (
      rw e (rw p (Held-next L l.expected (delete l.expected l.pending) kept left)),
      rw p (delete-Distinct l.expected l.pending h.1),
      deliver_timer l h.2,
    )

is_lane_apart :
    (L a b : SendOrderLane) → is_lane b L ≡ true → is_lane a L ≡ false → is_lane b a ≡ false
is_lane_apart text media text h apart = refl
is_lane_apart text (other n) text h apart = refl
is_lane_apart text text text h apart = absurd (cc)
is_lane_apart media text media h apart = refl
is_lane_apart media (other n) media h apart = refl
is_lane_apart media media media h apart = absurd (cc)
is_lane_apart (other m) text (other n) h apart = refl
is_lane_apart (other m) media (other n) h apart = refl
is_lane_apart (other m) (other k) (other n) h apart = ground arith
is_lane_apart text a media h apart = absurd (cc)
is_lane_apart text a (other n) h apart = absurd (cc)
is_lane_apart media a text h apart = absurd (cc)
is_lane_apart media a (other n) h apart = absurd (cc)
is_lane_apart (other n) a text h apart = absurd (cc)
is_lane_apart (other n) a media h apart = absurd (cc)

pub seqs_one :
    (L a : SendOrderLane) (m : Message) (k : ℕ)
    → seq_in L m ≡ some k
    → is_lane a L ≡ false
    → seq_in a m ≡ none
seqs_one L a m k h apart = of_order m.order h
  where
    of_order : (o : Option SendOrderInfo) → seq_of L o ≡ some k → seq_of a o ≡ none
    of_order none found = refl
    of_order (some x) found = elim (Bool-cases x.ordered) [
      | inl t ↦ ground (arith, is_lane_apart L a x.lane)
      | inr f ↦ rw f refl
    ]

pub idle-Ran :
    (L : SendOrderLane) (l : LaneState)
    → IsLane L l
    → Ran L l (record { lane = l; sent = []; flushed = false })
unfolding seqs range count
idle-Ran L l h = (refl, omega arith, h, λ k. omega arith, λ a apart. refl)

take_next-Ran :
    (L : SendOrderLane) (l : LaneState) (o : Option Message) (rest : Flushed)
    → lookup l.expected l.pending ≡ o
    → IsLane L l
    → ((m : Message)
        → lookup l.expected l.pending ≡ some m
        → Ran L (deliver l) rest × (lookup rest.lane.expected rest.lane.pending ≡ none))
    → Ran L l (take_next o l rest)
      × (lookup (take_next o l rest).lane.expected (take_next o l rest).lane.pending ≡ none)
unfolding seqs range count
take_next-Ran L l none rest found h after = (idle-Ran L l h, found)
take_next-Ran L l (some m) rest found h after =
    let (ran, over) = after m found in
    let (e, p) = deliver_lem l in
    let own = Held-lookup L l.expected l.expected l.pending m h.0 found in
    (
      (
        rw own (rw (sym e) (ap (λ ks. l.expected ∷ ks) ran.0)),
        omega (arith, e, ran.1),
        ran.2,
        λ k. rw own (
            ground (
              arith,
              ran.3 k,
              count-delete k l.expected l.pending m h.1 found,
              ap (λ x. count k (keys x)) p,
            )),
        λ a apart. rw (seqs_one L a m l.expected own apart) (ran.4 a apart),
      ),
      over,
    )

pub lookup_nothing : (e : ℕ) (p : Map ℕ Message) → length p ≤ 0 → lookup e p ≡ none
unfolding lookup
lookup_nothing e [] few = refl
lookup_nothing e (x ∷ p) few = absurd (omega arith)

-- Fuel for each of the messages that the lane keeps is enough for the loop to end.
pub flush_loop-Ran :
    (L : SendOrderLane) (n : ℕ) (l : LaneState)
    → IsLane L l
    → length l.pending ≤ n
    → Ran L l (flush_loop n l)
      × (lookup (flush_loop n l).lane.expected (flush_loop n l).lane.pending ≡ none)
unfolding flush_loop seqs range count lookup
flush_loop-Ran L zero l h few = (idle-Ran L l h, lookup_nothing l.expected l.pending few)
flush_loop-Ran L (suc n) l h few =
    take_next-Ran L l (lookup l.expected l.pending) (flush_loop n (deliver l)) refl h (λ m found.
      flush_loop-Ran L n (deliver l) (deliver-IsLane L l m h found) (
        ground (
          arith,
          (deliver_lem l).1,
          ap length (deliver_lem l).1,
          length-delete l.expected l.pending m found,
        )))

-- A lane that is watched: it has an active timer just when it keeps messages.
abbrev pub IsWatched : LaneState → Type 0
IsWatched l = l.active ≡ not (length l.pending == 0)

-- Settling after the loop sets the timer by whether messages are left.
settle_lem :
    (lane : SendOrderLane) (e : ℕ) (p : Map ℕ Message) (t a : Bool) (sent : List Message) (b : Bool)
    → lookup e p ≡ none
    → (a ≡ true → t ≡ true)
    → (timer : Bool) × (settle (record {
      lane = record { lane_type = lane; expected = e; pending = p; has_timer = t; active = a };
      sent = sent;
      flushed = b;
    })
        ≡ record {
          lane = record {
            lane_type = lane;
            expected = e;
            pending = p;
            has_timer = timer;
            active = not (length p == 0);
          };
          sent = sent;
          flushed = b || length p == 0;
        })
      × (length p == 0 ≡ false → timer ≡ true)
unfolding settle has_gap start_timer stop_timer
settle_lem lane e [] true a sent b over timed = (true, ground arith, λ more. absurd (cc))
settle_lem lane e [] false false sent b over timed = (false, ground arith, λ more. absurd (cc))
settle_lem lane e [] false true sent b over timed = absurd (ground (arith, timed refl))
settle_lem lane e (x ∷ p) t false sent b over timed = (true, ground (arith, over), λ more. refl)
settle_lem lane e (x ∷ p) true true sent b over timed = (true, ground (arith, over), λ more. refl)
settle_lem lane e (x ∷ p) false true sent b over timed = absurd (ground (arith, timed refl))

pub settle-Ran :
    (L : SendOrderLane) (l : LaneState) (f : Flushed)
    → Ran L l f
    → lookup f.lane.expected f.lane.pending ≡ none
    → Ran L l (settle f)
      × IsWatched (settle f).lane
      × ((settle f).lane.pending ≡ f.lane.pending)
      × ((settle f).lane.expected ≡ f.lane.expected)
      × ((settle f).flushed ≡ (f.flushed || length f.lane.pending == 0))
      × ((settle f).sent ≡ f.sent)
settle-Ran L l f h over =
    let (timer, e, timed) =
      settle_lem f.lane.lane_type f.lane.expected f.lane.pending f.lane.has_timer f.lane.active
        f.sent f.flushed over h.2.2 in
    subst
      (λ s.
        Ran L l s
        × IsWatched s.lane
        × (s.lane.pending ≡ f.lane.pending)
        × (s.lane.expected ≡ f.lane.expected)
        × (s.flushed ≡ (f.flushed || length f.lane.pending == 0))
        × (s.sent ≡ f.sent))
      (sym e)
      (
        (h.0, h.1, (h.2.0, h.2.1, λ t. timed (ground arith)), h.3, h.4),
        refl,
        refl,
        refl,
        refl,
        refl,
      )

pub flush_lane-Ran :
    (L : SendOrderLane) (l : LaneState)
    → IsLane L l
    → Ran L l (flush_lane l)
      × IsWatched (flush_lane l).lane
      × (lookup (flush_lane l).lane.expected (flush_lane l).lane.pending ≡ none)
unfolding flush_lane
flush_lane-Ran L l h =
    let f = flush_loop (length l.pending) l in
    let (ran, over) = flush_loop-Ran L (length l.pending) l h (omega arith) in
    let settled = settle-Ran L l f ran over in
    (settled.0, settled.1, rw settled.2 (rw settled.3 over))
