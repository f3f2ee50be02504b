-- ===== src/Reconnect.antt =====
-- The waiting times between attempts to connect: internal/interaction/reconnect.go.
pub mod Cycle
use openim_sdk_core.Prelude.{
  ℕ, zero, suc, ◌+◌, ◌*◌, ◌%◌, ◌<◌, ◌≤◌, ◌≡◌, refl, List, [], ◌∷◌, arith, length, get_or,
}

-- `next` is `index + 1`, which is never negative.
pub record ExponentialRetry : Type 0 where
  pub attempts : List ℕ
  pub next : ℕ

abbrev pub new_exponential_retry : ExponentialRetry
new_exponential_retry = record { attempts = 1 ∷ 2 ∷ 4 ∷ 8 ∷ 16 ∷ []; next = 0 }

abbrev pub second : ℕ
second = 1000000000

-- The interval in nanoseconds, and the strategy after it; the index is in range.
unfoldable pub get_sleep_interval : ExponentialRetry → ℕ × ExponentialRetry
get_sleep_interval rs =
    (second * get_or rs.attempts (rs.next % length rs.attempts) 0, record rs { next = rs.next + 1 })

abbrev pub reset : ExponentialRetry → ExponentialRetry
reset rs = record rs { next = 0 }

-- The strategy after some intervals.
unfoldable pub after : ℕ → ExponentialRetry → ExponentialRetry
unfolding get_sleep_interval
after zero rs = rs
after (suc n) rs = after n (get_sleep_interval rs).1
