-- ===== src/Tests/Subscribing.antt =====
-- Two callers ask for a user, who is pushed, and the connection closes.
use openim_sdk_core.Prelude.{◌≡◌, refl, true, false, List, [], ◌∷◌, none, string_eq}
use openim_sdk_core.Prelude.Map.{lookup, insert, delete}
use openim_sdk_core.Subscription.{
  Ref, new_subscription, on_conn_closed, get_user_online, online_loop, set_user_state, finish,
}
use openim_sdk_core.Subscription.Pending.{pending}
use openim_sdk_core.Subscription.Waiters.{IsKept, Call, state_pushed, asked, run, call, run-Waiters}

abbrev calls : List Call
calls = asked ("a" ∷ "b" ∷ []) ∷ state_pushed (("a", 1 ∷ []) ∷ []) ∷ asked ("a" ∷ "b" ∷ []) ∷ []

-- The second user is still waited for.
pending-run : pending (run calls new_subscription).heap 1 ≡ true
unfolding run call pending get_user_online online_loop set_user_state finish lookup insert delete
pending-run = refl

run-Waiters_example :
    IsKept (run calls new_subscription)
    × ((q : Ref) → pending (on_conn_closed none (run calls new_subscription)).heap q ≡ false)
run-Waiters_example = run-Waiters calls none
