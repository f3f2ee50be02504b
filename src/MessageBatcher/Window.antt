-- ===== src/MessageBatcher/Window.antt =====
-- The delay of a flush.
use openim_sdk_core.Prelude.{ℕ, ◌≤◌, ◌≡◌, arith}
use openim_sdk_core.MessageBatcher.{
  compute_delay, clamp_duration, min_aggregation_delay, max_aggregation_delay,
  high_load_message_limit, low_load_message_limit,
}

-- However the product of the scale is rounded, the delay of a flush lies between the least and the
-- greatest delay; it is the least up to the low limit and the greatest from the high limit on.
compute_delay-bounds :
    (scaled : ℕ → ℕ) (recent : ℕ)
    → (min_aggregation_delay ≤ compute_delay scaled recent)
      × (compute_delay scaled recent ≤ max_aggregation_delay)
      × (recent ≤ low_load_message_limit → compute_delay scaled recent ≡ min_aggregation_delay)
      × (high_load_message_limit ≤ recent → compute_delay scaled recent ≡ max_aggregation_delay)
unfolding compute_delay clamp_duration
compute_delay-bounds scaled recent =
    (ground arith, ground arith, λ h. ground (arith, h), λ h. ground (arith, h))
