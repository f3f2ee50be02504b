-- ===== src/Subscription/Waiters.antt =====
-- No caller waits for a status that nobody will finish.
use openim_sdk_core.Prelude.{
  ℕ, ◌≡◌, ◌⊎◌, refl, ap, ◌∙◌, false, List, [], ◌∷◌, Option, none, some, String, string_eq, nat_eq,
  ◌==◌, arith, inl, inr, Bool-cases,
}
use openim_sdk_core.Prelude.Map.{Map, lookup, insert, delete}
use openim_sdk_core.Subscription.{
  SubscriptionStatues, Subscription, SubscriptionWait, Online, Ref, new_subscription, finish,
  finish_all, waiting, closed_error, on_conn_closed, on_conn_success, set_found, set_one,
  set_user_state, move_to_unsub, drop_load, unsubscribe, look_up, if_new, online_one, online_loop,
  ids_or_sub, with_unsub, get_user_online, drop_same, fail_one, write_failed,
}
use openim_sdk_core.Subscription.Pending.{
  pending, Kept, finish-Kept, finish_delete-Kept, append-Kept, finish_all-pending,
}

abbrev pub IsKept : Subscription → Type 0
IsKept s = Kept s.heap s.load

set_found-IsKept :
    (id : String) (platforms : List ℕ) (o : Option Ref) (u : Option (Unit {0})) (s : Subscription)
    (change : Map String (List ℕ))
    → lookup id s.load ≡ o
    → IsKept s
    → IsKept (set_found id platforms o u (s, change)).0
set_found-IsKept id platforms (some r) u s change e k = finish-Kept r platforms none s.heap s.load k
set_found-IsKept id platforms none (some u) s change e k =
    append-Kept id (record waiting { online = platforms }) s.heap s.load e k
set_found-IsKept id platforms none none s change e k = k

set_user_state-IsKept :
    (changes : List (String × List ℕ)) (s : Subscription) (change : Map String (List ℕ))
    → IsKept s
    → IsKept (set_user_state changes (s, change)).0
unfolding set_user_state
set_user_state-IsKept [] s change k = k
set_user_state-IsKept ((id, platforms) ∷ changes) s change k =
    set_user_state-IsKept changes (set_one id platforms (s, change)).0
      (set_one id platforms (s, change)).1
      (set_found-IsKept id platforms (lookup id s.load) (lookup id s.sub) s change refl k)

drop_load-IsKept :
    (id : String) (o : Option Ref) (s : Subscription)
    → lookup id s.load ≡ o
    → IsKept s
    → IsKept (drop_load id o s)
drop_load-IsKept id none s e k = k
drop_load-IsKept id (some r) s e k =
    finish_delete-Kept id r [] (some "unsubscribe") s.heap s.load e k

move_to_unsub-same :
    (id : String) (o : Option (Unit {0})) (s : Subscription)
    → ((move_to_unsub id o s).heap ≡ s.heap) × ((move_to_unsub id o s).load ≡ s.load)
move_to_unsub-same id none s = (refl, refl)
move_to_unsub-same id (some u) s = (refl, refl)

move_to_unsub-IsKept :
    (id : String) (o : Option (Unit {0})) (s : Subscription)
    → IsKept s
    → IsKept (move_to_unsub id o s)
move_to_unsub-IsKept id none s k = k
move_to_unsub-IsKept id (some u) s k = k

unsubscribe-IsKept : (ids : List String) (s : Subscription) → IsKept s → IsKept (unsubscribe ids s)
unfolding unsubscribe
unsubscribe-IsKept [] s k = k
unsubscribe-IsKept (id ∷ ids) s k =
    let moved = move_to_unsub id (lookup id s.sub) s in
    unsubscribe-IsKept ids (drop_load id (lookup id s.load) moved) (
      drop_load-IsKept id (lookup id s.load) moved
        (ap (lookup id) (move_to_unsub-same id (lookup id s.sub) s).1)
        (move_to_unsub-IsKept id (lookup id s.sub) s k))

look_up-IsKept :
    (id : String) (o : Option Ref) (s : Subscription) (l : Online)
    → lookup id s.load ≡ o
    → IsKept s
    → IsKept (look_up id o (s, l)).0
look_up-IsKept id none s l e k = append-Kept id waiting s.heap s.load e k
look_up-IsKept id (some r) s l e k = k

if_new-IsKept :
    (id : String) (o : Option (Unit {0})) (s : Subscription) (l : Online)
    → IsKept s
    → IsKept (if_new id o (s, l)).0
if_new-IsKept id (some u) s l k = k
if_new-IsKept id none s l k =
    look_up-IsKept id (lookup id s.load) (record s { unsub = delete id s.unsub })
      (record l { tmp = insert id tt l.tmp }) refl k

online_loop-IsKept :
    (ids : List String) (s : Subscription) (l : Online)
    → IsKept s
    → IsKept (online_loop ids (s, l)).0
unfolding online_loop
online_loop-IsKept [] s l k = k
online_loop-IsKept (id ∷ ids) s l k =
    online_loop-IsKept ids (online_one id (s, l)).0 (online_one id (s, l)).1
      (if_new-IsKept id (lookup id l.tmp) s l k)

pub list_cases :
    (xs : List String) → (xs ≡ []) ⊎ ((x : String) × (rest : List String) × (xs ≡ x ∷ rest))
list_cases [] = inl refl
list_cases (x ∷ rest) = inr (x, rest, refl)

with_unsub-IsKept : (s : Subscription) (l : Online) → IsKept s → IsKept (with_unsub (s, l)).0
with_unsub-IsKept s l k = elim (list_cases l.sub_user_ids) [
  | inl e ↦ rw e k
  | inr (id, ids, e) ↦ rw e k
]

drop_same-Kept :
    (id : String) (o : Option Ref) (status : Ref) (err : Option String)
    (heap : List SubscriptionStatues) (load : Map String Ref)
    → lookup id load ≡ o
    → Kept heap load
    → Kept (finish status [] err heap) (drop_same id o status load)
drop_same-Kept id none status err heap load e k = finish-Kept status [] err heap load k
drop_same-Kept id (some r) status err heap load e k = elim (Bool-cases (r == status)) [
  | inl same ↦
      rw same (finish_delete-Kept id status [] err heap load (e ∙ ap some (ground (arith, same))) k)
  | inr other ↦ rw other (finish-Kept status [] err heap load k)
]

fail_one-IsKept :
    (id : String) (wait : SubscriptionWait) (err : Option String) (s : Subscription)
    → IsKept s
    → IsKept (fail_one id wait err s)
unfolding fail_one
fail_one-IsKept id wait err s k = elim (Bool-cases wait.first) [
  | inl first ↦ rw first (drop_same-Kept id (lookup id s.load) wait.status err s.heap s.load refl k)
  | inr again ↦ rw again k
]

write_failed-IsKept :
    (waits : Map String SubscriptionWait) (err : Option String) (s : Subscription)
    → IsKept s
    → IsKept (write_failed waits err s)
unfolding write_failed
write_failed-IsKept [] err s k = k
write_failed-IsKept ((id, wait) ∷ waits) err s k =
    write_failed-IsKept waits err (fail_one id wait err s) (fail_one-IsKept id wait err s k)

pub closed-none :
    (err : Option String) (s : Subscription)
    → IsKept s
    → (q : Ref) → pending (on_conn_closed err s).heap q ≡ false
unfolding on_conn_closed
closed-none err s k q =
    elim (Bool-cases (pending (finish_all (closed_error err) s.load s.heap) q)) [
      | inl left ↦
          let (before, nowhere) = finish_all-pending (closed_error err) s.load s.heap q left in
          let (id, at) = k q before in absurd (nowhere id at)
      | inr none_left ↦ none_left
    ]

-- The critical sections of a subscription, in the order they take the lock.
pub data Call : Type 0 where
  closed : Option String → Call
  connected : Call
  state_pushed : List (String × List ℕ) → Call
  unsubscribed : List String → Call
  asked : List String → Call
  write_lost : Map String SubscriptionWait → Option String → Call

unfoldable pub call : Call → Subscription → Subscription
call (closed err) s = on_conn_closed err s
call connected s = on_conn_success s
call (state_pushed changes) s = (set_user_state changes (s, [])).0
call (unsubscribed ids) s = unsubscribe ids s
call (asked ids) s = (get_user_online ids s).0
call (write_lost waits err) s = write_failed waits err s

unfoldable pub run : List Call → Subscription → Subscription
run [] s = s
run (c ∷ rest) s = run rest (call c s)

call-IsKept : (c : Call) (s : Subscription) → IsKept s → IsKept (call c s)
unfolding call on_conn_success get_user_online
call-IsKept (closed err) s k = λ q h. ground (arith, h, closed-none err s k q)
call-IsKept connected s k = k
call-IsKept (state_pushed changes) s k = set_user_state-IsKept changes s [] k
call-IsKept (unsubscribed ids) s k = unsubscribe-IsKept ids s k
call-IsKept (asked ids) s k =
    let l : Online = record { tmp = []; exist = []; wait = []; sub_user_ids = [] } in
    let after = online_loop (ids_or_sub ids s.sub) (s, l) in
    with_unsub-IsKept after.0 after.1 (online_loop-IsKept (ids_or_sub ids s.sub) s l k)
call-IsKept (write_lost waits err) s k = write_failed-IsKept waits err s k

pub run-IsKept : (calls : List Call) (s : Subscription) → IsKept s → IsKept (run calls s)
unfolding run
run-IsKept [] s k = k
run-IsKept (c ∷ rest) s k = run-IsKept rest (call c s) (call-IsKept c s k)

pub none_pending : IsKept new_subscription
unfolding pending
none_pending q h = ground (arith, h)

-- After any sequence of calls on a new subscription, every status whose channel is still open is in
-- `load`, and when the connection closes then, no channel is open: no caller is left waiting.
pub run-Waiters :
    (calls : List Call) (err : Option String)
    → IsKept (run calls new_subscription)
      × ((q : Ref) → pending (on_conn_closed err (run calls new_subscription)).heap q ≡ false)
run-Waiters calls err =
    let kept = run-IsKept calls new_subscription none_pending in
    (kept, closed-none err (run calls new_subscription) kept)
