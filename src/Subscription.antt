-- ===== src/Subscription.antt =====
-- Subscriptions to the online status of users: internal/interaction/subscription.go.
pub mod Pending
pub mod Waiters
use openim_sdk_core.Prelude.{
  ℕ, zero, suc, Bool, true, false, not, ◌&&◌, List, [], ◌∷◌, ◌++◌, Option, none, some, String,
  string_eq, nat_eq, ◌==◌, if◌then◌else◌, length,
}
use openim_sdk_core.Prelude.Map.{Map, keys, lookup, insert, delete}

-- `subscriptionStatues`: `done` is whether the channel is closed, and a nil `online` is empty.
pub record SubscriptionStatues : Type 0 where
  pub done : Bool
  pub err : Option String
  pub online : List ℕ

-- A pointer to a status, its place in the heap.
abbrev pub Ref : Type 0
Ref = ℕ

-- `map[string]struct{}`.
abbrev pub IdSet : Type 0
IdSet = Map String (Unit {0})

-- The statuses are a heap, since `load` and the waits of callers share them.
pub record Subscription : Type 0 where
  pub heap : List SubscriptionStatues
  pub load : Map String Ref
  pub unsub : IdSet
  pub sub : IdSet

pub record SubscriptionWait : Type 0 where
  pub status : Ref
  pub first : Bool

abbrev pub new_subscription : Subscription
new_subscription = record { heap = []; load = []; unsub = []; sub = [] }

unfoldable pub finish :
    Ref → List ℕ → Option String → List SubscriptionStatues → List SubscriptionStatues
finish r online err [] = []
finish zero online err (s ∷ heap) = record { done = true; err = err; online = online } ∷ heap
finish (suc r) online err (s ∷ heap) = s ∷ finish r online err heap

abbrev pub waiting : SubscriptionStatues
waiting = record { done = false; err = none; online = [] }

abbrev status_at : List SubscriptionStatues → Ref → SubscriptionStatues
status_at [] r = waiting
status_at (s ∷ heap) zero = s
status_at (s ∷ heap) (suc r) = status_at heap r

abbrev pub get_new_conn_sub_user_ids : Subscription → List String
get_new_conn_sub_user_ids s = keys s.sub

-- The loop of `onConnClosed`: every status is finished and removed.
unfoldable pub finish_all :
    Option String → Map String Ref → List SubscriptionStatues → List SubscriptionStatues
finish_all err [] heap = heap
finish_all err ((id, r) ∷ load) heap = finish_all err load (finish r [] err heap)

abbrev closed_error : Option String → Option String
closed_error none = some "connection closed"
closed_error (some err) = some err

unfoldable pub on_conn_closed : Option String → Subscription → Subscription
on_conn_closed err s = record s {
  unsub = [];
  heap = finish_all (closed_error err) s.load s.heap;
  load = [];
}

unfoldable pub on_conn_success : Subscription → Subscription
on_conn_success s = record s { unsub = [] }

-- `slices.Equal`.
abbrev same_ids : List ℕ → List ℕ → Bool
same_ids [] [] = true
same_ids (x ∷ xs) (y ∷ ys) = x == y && same_ids xs ys
same_ids _ _ = false

-- One element of the loop of `setUserState`, by what `s.load` and `s.sub` have for its id, with the
-- map of changes.
abbrev pub set_found :
    String
    → List ℕ
    → Option Ref
    → Option (Unit {0})
    → Subscription × Map String (List ℕ)
    → Subscription × Map String (List ℕ)
set_found id platforms (some r) u (s, change) = (
  record s { unsub = delete id s.unsub; heap = finish r platforms none s.heap },
  if same_ids (status_at s.heap r).online platforms then change else insert id platforms change,
)
set_found id platforms none (some u) (s, change) = (
  record s {
    load = insert id (length s.heap) s.load;
    heap = s.heap ++ (record waiting { online = platforms } ∷ []);
  },
  insert id platforms change,
)
set_found id platforms none none (s, change) = (record s { unsub = insert id tt s.unsub }, change)

abbrev pub set_one :
    String → List ℕ → Subscription × Map String (List ℕ) → Subscription × Map String (List ℕ)
set_one id platforms l = set_found id platforms (lookup id l.0.load) (lookup id l.0.sub) l

unfoldable pub set_user_state :
    List (String × List ℕ) → Subscription × Map String (List ℕ) → Subscription × Map String (List ℕ)
set_user_state [] l = l
set_user_state ((id, platforms) ∷ changes) l = set_user_state changes (set_one id platforms l)

abbrev move_to_unsub : String → Option (Unit {0}) → Subscription → Subscription
move_to_unsub id none s = s
move_to_unsub id (some u) s = record s { sub = delete id s.sub; unsub = insert id tt s.unsub }

abbrev drop_load : String → Option Ref → Subscription → Subscription
drop_load id none s = s
drop_load id (some r) s = record s {
  heap = finish r [] (some "unsubscribe") s.heap;
  load = delete id s.load;
}

unfoldable pub unsubscribe : List String → Subscription → Subscription
unsubscribe [] s = s
unsubscribe (id ∷ ids) s =
    unsubscribe ids (drop_load id (lookup id s.load) (move_to_unsub id (lookup id s.sub) s))

-- The variables of the loop of `getUserOnline`.
pub record Online : Type 0 where
  pub tmp : IdSet
  pub exist : Map String (List ℕ)
  pub wait : Map String SubscriptionWait
  pub sub_user_ids : List String

-- The body of the loop for an id that has not come before.
abbrev look_up : String → Option Ref → Subscription × Online → Subscription × Online
look_up id (some r) (s, o) = (
  s,
  if (status_at s.heap r).done
      then record o { exist = insert id (status_at s.heap r).online o.exist }
      else record o { wait = insert id (record { status = r; first = false }) o.wait },
)
look_up id none (s, o) = (
  record s { heap = s.heap ++ (waiting ∷ []); load = insert id (length s.heap) s.load },
  record o {
    wait = insert id (record { status = length s.heap; first = true }) o.wait;
    sub_user_ids = o.sub_user_ids ++ (id ∷ []);
  },
)

abbrev if_new : String → Option (Unit {0}) → Subscription × Online → Subscription × Online
if_new id (some u) l = l
if_new id none (s, o) =
    look_up id (lookup id s.load)
      (record s { unsub = delete id s.unsub }, record o { tmp = insert id tt o.tmp })

abbrev pub online_one : String → Subscription × Online → Subscription × Online
online_one id l = if_new id (lookup id l.1.tmp) l

unfoldable pub online_loop : List String → Subscription × Online → Subscription × Online
online_loop [] l = l
online_loop (id ∷ ids) l = online_loop ids (online_one id l)

abbrev ids_or_sub : List String → IdSet → List String
ids_or_sub [] sub = keys sub
ids_or_sub (id ∷ ids) sub = id ∷ ids

-- What `getUserOnline` returns beside the two maps: what to subscribe to and to unsubscribe from.
abbrev with_unsub : Subscription × Online → Subscription × Online × List String
with_unsub (s, o) = elim o.sub_user_ids [
  | [] ↦ (s, o, [])
  | id ∷ ids ↦ (record s { unsub = [] }, o, keys s.unsub)
]

unfoldable pub get_user_online : List String → Subscription → Subscription × Online × List String
get_user_online ids s = with_unsub (
    online_loop (ids_or_sub ids s.sub)
      (s, record { tmp = []; exist = []; wait = []; sub_user_ids = [] }))

-- `statues == wait.status`, and the entry removed if so.
abbrev drop_same : String → Option Ref → Ref → Map String Ref → Map String Ref
drop_same id none status load = load
drop_same id (some r) status load = if r == status then delete id load else load

unfoldable pub fail_one : String → SubscriptionWait → Option String → Subscription → Subscription
fail_one id wait err s =
    if wait.first
    then record s {
      load = drop_same id (lookup id s.load) wait.status s.load;
      heap = finish wait.status [] err s.heap;
    }
    else s

unfoldable pub write_failed :
    Map String SubscriptionWait → Option String → Subscription → Subscription
write_failed [] err s = s
write_failed ((id, wait) ∷ waits) err s = write_failed waits err (fail_one id wait err s)
