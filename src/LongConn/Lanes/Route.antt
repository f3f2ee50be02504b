-- ===== src/LongConn/Lanes/Route.antt =====
-- Where a message goes in `processIncomingMessage` of internal/interaction/long_conn_mgr.go: to the
-- lane of its order mark, and past the other one.
use openim_sdk_core.Prelude.{
  ℕ, ◌≡◌, refl, ap, ◌⊎◌, Bool, true, false, List, [], ◌∷◌, Option, none, some, nat_eq, inl, inr,
}
use openim_sdk_core.LongConn.{SendOrderLane, text, media, other, SendOrderInfo, Message}
use openim_sdk_core.LongConn.Lanes.{LaneState, Lanes, receive, by_order, process_incoming_message}
use openim_sdk_core.LongConn.Lanes.Numbers.{seq_of, seq_in, seqs}
use openim_sdk_core.LongConn.Lanes.Timeout.{IsReady}
use openim_sdk_core.LongConn.Lanes.Receive.{receive-Took}

-- The pump keeps a lane for texts and one for media.
abbrev pub is_kept : SendOrderLane → Bool
is_kept text = true
is_kept media = true
is_kept (other n) = false

abbrev pub lane_at : SendOrderLane → Lanes → LaneState
lane_at media s = s.media_lane
lane_at lane s = s.text_lane

abbrev pub AreReady : Lanes → Type 0
AreReady s = IsReady text s.text_lane × IsReady media s.media_lane

-- Past the lane, or into it.
abbrev pub Routed : SendOrderLane → Message → Lanes → Lanes × List Message → Type 0
Routed L m s r =
    ((seq_in L m ≡ none) × (lane_at L r.0 ≡ lane_at L s) × (seqs L r.1 ≡ []))
    ⊎ ((k : ℕ) × (seq_in L m ≡ some k)
        × (lane_at L r.0 ≡ (receive k m (lane_at L s)).0)
        × (r.1 ≡ (receive k m (lane_at L s)).1))

past-Routed :
    (L : SendOrderLane) (m : Message) (s : Lanes) → seq_in L m ≡ none → Routed L m s (s, m ∷ [])
unfolding seqs
past-Routed L m s own = inl (own, refl, rw own refl)

abbrev mark : SendOrderLane → Bool → ℕ → ℕ → SendOrderInfo
mark lane b k d = record { lane = lane; ordered = b; seq = k; deadline = d }

marked-Routed :
    (L c : SendOrderLane) (b : Bool) (k d : ℕ) (m : Message) (s : Lanes)
    → is_kept L ≡ true
    → AreReady s
    → m.order ≡ some (mark c b k d)
    → Routed L m s (by_order (some (mark c b k d)) m s)
      × AreReady (by_order (some (mark c b k d)) m s).0
marked-Routed L c false k d m s kept ready own = (past-Routed L m s (ap (seq_of L) own), ready)
marked-Routed text text true k d m s kept ready own =
    let mine = ap (seq_of text) own in
    (inr (k, mine, refl, refl), ((receive-Took text k m s.text_lane ready.0 mine).0.0, ready.1))
marked-Routed media media true k d m s kept ready own =
    let mine = ap (seq_of media) own in
    (inr (k, mine, refl, refl), (ready.0, (receive-Took media k m s.media_lane ready.1 mine).0.0))
marked-Routed media text true k d m s kept ready own =
    let (after, past) = (receive-Took text k m s.text_lane ready.0 (ap (seq_of text) own)).0 in
    (inl (ap (seq_of media) own, refl, past media refl), (after, ready.1))
marked-Routed text media true k d m s kept ready own =
    let (after, past) = (receive-Took media k m s.media_lane ready.1 (ap (seq_of media) own)).0 in
    (inl (ap (seq_of text) own, refl, past text refl), (ready.0, after))
marked-Routed text (other n) true k d m s kept ready own =
    (past-Routed text m s (ap (seq_of text) own), ready)
marked-Routed media (other n) true k d m s kept ready own =
    (past-Routed media m s (ap (seq_of media) own), ready)
marked-Routed (other n) c true k d m s kept ready own = absurd (cc)

order-Routed :
    (L : SendOrderLane) (o : Option SendOrderInfo) (m : Message) (s : Lanes)
    → is_kept L ≡ true
    → AreReady s
    → m.order ≡ o
    → Routed L m s (by_order o m s) × AreReady (by_order o m s).0
order-Routed L none m s kept ready own = (past-Routed L m s (ap (seq_of L) own), ready)
order-Routed L (some o) m s kept ready own =
    marked-Routed L o.lane o.ordered o.seq o.deadline m s kept ready own

pub process_incoming_message-Routed :
    (L : SendOrderLane) (m : Message) (s : Lanes)
    → is_kept L ≡ true
    → AreReady s
    → Routed L m s (process_incoming_message m s) × AreReady (process_incoming_message m s).0
unfolding process_incoming_message
process_incoming_message-Routed L m s kept ready = order-Routed L m.order m s kept ready refl
