-- ===== src/LongConn/Replies/Apart.antt =====
-- Channels that are not the same: internal/interaction/ws_resp_asyn.go.
use openim_sdk_core.Prelude.{
  ℕ, zero, suc, ◌<◌, ◌≡◌, ◌∙◌, false, List, [], ◌∷◌, String, nat_eq, string_eq, ◌==◌, length,
  Bool-cases, inl, inr, arith,
}
use openim_sdk_core.Prelude.Map.{lookup, insert, lookup-insert}
use openim_sdk_core.LongConn.Replies.{Chan, WsRespAsyn, Exchange}
use openim_sdk_core.LongConn.Replies.Owners.{IsFor, IsServed}

IsFor-lt :
    (made_for : List String) (i : ℕ) (incr : String) → IsFor made_for i incr → i < length made_for
IsFor-lt [] i incr h = absurd (cc)
IsFor-lt (x ∷ made_for) zero incr h = omega arith
IsFor-lt (x ∷ made_for) (suc i) incr h = omega (arith, IsFor-lt made_for i incr h)

pub apart_of :
    (made_for : List String) (i j : ℕ) (mine other : String)
    → IsFor made_for i mine
    → IsFor made_for j other
    → other == mine ≡ false
    → j == i ≡ false
apart_of made_for i j mine other hi hj apart = elim (Bool-cases (j == i)) [
  | inl at ↦
      let same : j ≡ i = ground arith in absurd (ground (arith, string_eq.beq_iff other mine))
  | inr away ↦ away
]

pub set_other :
    (i j : ℕ) (chan : Chan) (u : WsRespAsyn)
    → j == i ≡ false
    → lookup i (insert j chan u.chans) ≡ lookup i u.chans
set_other i j chan u away = lookup-insert j i chan u.chans ∙ rw away

-- A channel made later is another one.
pub later :
    (i : ℕ) (incr : String) (x : Exchange)
    → IsServed x
    → IsFor x.made_for i incr
    → x.ws.made == i ≡ false
later i incr x served own =
    let bound = IsFor-lt x.made_for i incr own in let count = served.0.0 in ground arith
