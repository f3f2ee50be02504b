-- ===== src/Reconnect/Cycle.antt =====
-- The waiting times double four times and start again.
use openim_sdk_core.Prelude.{
  ℕ, zero, suc, ◌+◌, ◌*◌, ◌%◌, ◌^◌, ◌<◌, ◌≡◌, refl, ap, ◌∙◌, [], ◌∷◌, arith, get_or,
}
use openim_sdk_core.Reconnect.{
  ExponentialRetry, new_exponential_retry, second, get_sleep_interval, reset, after,
}

abbrev at : ℕ → ExponentialRetry
at next = record new_exponential_retry { next = next }

after-at : (n k : ℕ) → after n (at k) ≡ at (k + n)
unfolding after
after-at zero k = ap at (omega arith)
after-at (suc n) k = after-at n (k + 1) ∙ ap at (omega arith)

after_lem : (n : ℕ) → after n (at 0) ≡ at n
after_lem n = after-at n 0 ∙ ap at (omega arith)

get_or-power : (m : ℕ) → m < 5 → get_or (1 ∷ 2 ∷ 4 ∷ 8 ∷ 16 ∷ []) m 0 ≡ 2 ^ m
get_or-power zero h = refl
get_or-power (suc zero) h = refl
get_or-power (suc (suc zero)) h = refl
get_or-power (suc (suc (suc zero))) h = refl
get_or-power (suc (suc (suc (suc zero)))) h = refl
get_or-power (suc (suc (suc (suc (suc m))))) h = absurd (omega (arith, h))

interval_at :
    (n : ℕ)
    → (get_sleep_interval (record new_exponential_retry { next = n })).0 ≡ second * 2 ^ (n % 5)
unfolding get_sleep_interval
interval_at n = ap (λ k. second * k) (get_or-power (n % 5) (omega arith))

interval_after : (n : ℕ) → (get_sleep_interval (after n (at 0))).0 ≡ second * 2 ^ (n % 5)
interval_after n = ap (λ rs. (get_sleep_interval rs).0) (after_lem n) ∙ interval_at n

-- Counted from a new strategy or from a `Reset`, at whatever attempt it comes, the n-th interval is
-- 1, 2, 4, 8, 16 seconds and then 1 again: 2 to the power of n modulo 5.
pub get_sleep_interval-cycle :
    (n k : ℕ)
    → ((get_sleep_interval (after n new_exponential_retry)).0 ≡ second * 2 ^ (n % 5))
      × ((get_sleep_interval (after n (reset (after k new_exponential_retry)))).0
          ≡ second * 2 ^ (n % 5))
get_sleep_interval-cycle n k = (
  interval_after n,
  ap (λ rs. (get_sleep_interval (after n (reset rs))).0) (after_lem k) ∙ interval_after n,
)
