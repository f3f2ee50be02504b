-- ===== src/Tests/Reconnecting.antt =====
-- The waiting times after seven attempts.
use openim_sdk_core.Prelude.{◌*◌, ◌≡◌}
use openim_sdk_core.Reconnect.{new_exponential_retry, second, get_sleep_interval, reset, after}
use openim_sdk_core.Reconnect.Cycle.{get_sleep_interval-cycle}

get_sleep_interval-cycle_example :
    ((get_sleep_interval (after 6 new_exponential_retry)).0 ≡ second * 2)
    × ((get_sleep_interval (after 6 (reset (after 3 new_exponential_retry)))).0 ≡ second * 2)
get_sleep_interval-cycle_example = get_sleep_interval-cycle 6 3
