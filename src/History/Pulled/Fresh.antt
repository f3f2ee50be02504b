-- ===== src/History/Pulled/Fresh.antt =====
-- What each way of keeping a pulled message does, by the ids that are inserted: the branches of
-- `pullMessageIntoTable` of internal/conversation_msg/message_check.go.
use openim_sdk_core.Prelude.{
  ℕ, suc, ◌+◌, ◌≤◌, ◌≡◌, refl, ap, subst, ◌∙◌, Bool, true, false, List, [], ◌∷◌, ◌++◌, Option, none,
  some, String, string_eq, nat_eq, ◌==◌, if◌then◌else◌, length, length-append, All, All-append,
  Bool-cases, inl, inr, arith,
}
use mathlib.Core.List.{Mem}
use openim_sdk_core.Prelude.Map.{Map, lookup, insert, lookup-insert}
use openim_sdk_core.MsgSyncer.{MsgData}
use openim_sdk_core.History.{LocalChatLog}
use openim_sdk_core.History.Pulled.{Classes, process, msg_data_to_local_chat_log}

-- How often an id is among messages.
unfoldable pub times : String → List LocalChatLog → ℕ
times id [] = 0
times id (msg ∷ msgs) =
    let rest = times id msgs in if msg.client_msg_id == id then suc rest else rest

abbrev pub found : Option LocalChatLog → ℕ
found none = 0
found (some msg) = 1

-- One if the map has the id, and else zero.
abbrev pub seen : String → Map String LocalChatLog → ℕ
seen id m = found (lookup id m)

times-snoc :
    (id : String) (msgs : List LocalChatLog) (msg : LocalChatLog)
    → times id (msgs ++ (msg ∷ [])) ≡ times id msgs + (if msg.client_msg_id == id then 1 else 0)
unfolding times
times-snoc id [] msg = ground arith
times-snoc id (x ∷ msgs) msg = ground (arith, times-snoc id msgs msg)

-- The normal new messages of an id, which are inserted as they are.
abbrev pub normal : String → Classes → ℕ
normal id c = times id c.self_insert_message + times id c.others_insert_message

-- One of the pulled messages, that the user sent and whose id is stored without a number.
abbrev pub AwaitsSeq : List MsgData → String → Map String LocalChatLog → LocalChatLog → Type 0
AwaitsSeq pulled user stored msg =
    (v : MsgData) × (existing : LocalChatLog) × (msg ≡ msg_data_to_local_chat_log v)
    × Mem v pulled
    × (v.send_id ≡ user)
    × (lookup msg.client_msg_id stored ≡ some existing)
    × (existing.seq ≡ 0)

abbrev pub total : Classes → ℕ
total c =
    length c.insert_message
    + length c.self_insert_message
    + length c.others_insert_message
    + length c.update_message

abbrev pub Sorted : List MsgData → String → Map String LocalChatLog → ℕ → Classes → Type 0
Sorted pulled user stored n c =
    ((id : String)
      → (normal id c ≤ seen id c.processed_msg_ids) × (normal id c + seen id stored ≤ 1))
    × All (AwaitsSeq pulled user stored) c.update_message
    × (total c ≡ n)

seen-insert :
    (key id : String) (msg : LocalChatLog) (m : Map String LocalChatLog)
    → seen id (insert key msg m) ≡ (if key == id then 1 else seen id m)
seen-insert key id msg m = ap found (lookup-insert key id msg m) ∙ by_test (key == id)
  where
    by_test :
        (b : Bool) → found (if b then some msg else lookup id m) ≡ (if b then 1 else seen id m)
    by_test true = refl
    by_test false = refl

pub seen_le : (id : String) (m : Map String LocalChatLog) → seen id m ≤ 1
seen_le id m = by_entry (lookup id m)
  where
    by_entry : (o : Option LocalChatLog) → found o ≤ 1
    by_entry none = omega arith
    by_entry (some msg) = omega arith

pub process-Sorted :
    (pulled : List MsgData) (user : String) (stored : Map String LocalChatLog) (n : ℕ)
    (msg : LocalChatLog) (c : Classes)
    → Sorted pulled user stored n c
    → Sorted pulled user stored n (process msg c)
process-Sorted pulled user stored n msg c (ids, awaits, count) = (
  λ id.
      let seen' = seen-insert msg.client_msg_id id msg c.processed_msg_ids in
      (ground (arith, seen', ids id, seen_le id c.processed_msg_ids), (ids id).1),
  awaits,
  count,
)

pub insert-Sorted :
    (pulled : List MsgData) (user : String) (stored : Map String LocalChatLog) (n : ℕ)
    (msg : LocalChatLog) (left : List MsgData) (c : Classes)
    → Sorted pulled user stored n c
    → Sorted pulled user stored (suc n) (record c {
      insert_message = c.insert_message ++ (msg ∷ []);
      exception_msg = c.exception_msg ++ (msg ∷ []);
      msgs = left;
    })
insert-Sorted pulled user stored n msg left c (ids, awaits, count) =
    (ids, awaits, omega (arith, count, length-append c.insert_message (msg ∷ [])))

pub update-Sorted :
    (pulled : List MsgData) (user : String) (stored : Map String LocalChatLog) (n : ℕ)
    (msg : LocalChatLog) (left : List MsgData) (c : Classes)
    → AwaitsSeq pulled user stored msg
    → Sorted pulled user stored n c
    → Sorted pulled user stored
        (suc n)
        (record c { update_message = c.update_message ++ (msg ∷ []); msgs = left })
update-Sorted pulled user stored n msg left c await (ids, awaits, count) = (
  ids,
  All-append (AwaitsSeq pulled user stored) c.update_message (msg ∷ []) awaits (await, tt),
  omega (arith, count, length-append c.update_message (msg ∷ [])),
)

-- A message that is neither stored nor came before.
normal-fresh :
    (pulled : List MsgData) (user : String) (stored : Map String LocalChatLog) (n : ℕ)
    (msg : LocalChatLog) (c : Classes) (id : String)
    → lookup msg.client_msg_id stored ≡ none
    → lookup msg.client_msg_id c.processed_msg_ids ≡ none
    → Sorted pulled user stored n c
    → (normal id c + (if msg.client_msg_id == id then 1 else 0)
        ≤ (if msg.client_msg_id == id then 1 else seen id c.processed_msg_ids))
      × (normal id c + (if msg.client_msg_id == id then 1 else 0) + seen id stored ≤ 1)
normal-fresh pulled user stored n msg c id absent new (ids, awaits, count) =
    elim (Bool-cases (msg.client_msg_id == id)) [
      | inl same ↦
          let e = (string_eq.beq_iff msg.client_msg_id id).0 same in
          let once = subst (λ x. seen x c.processed_msg_ids ≡ 0) e (ap found new) in
          let gone = subst (λ x. seen x stored ≡ 0) e (ap found absent) in
          rw same (omega (arith, (ids id).0, once), omega (arith, (ids id).0, once, gone))
      | inr apart ↦ rw apart (ground (arith, ids id))
    ]

pub self-Sorted :
    (pulled : List MsgData) (user : String) (stored : Map String LocalChatLog) (n : ℕ)
    (msg : LocalChatLog) (left : List MsgData) (c : Classes)
    → lookup msg.client_msg_id stored ≡ none
    → lookup msg.client_msg_id c.processed_msg_ids ≡ none
    → Sorted pulled user stored n c
    → Sorted pulled user stored (suc n) (
        process msg
          (record c { self_insert_message = c.self_insert_message ++ (msg ∷ []); msgs = left }))
self-Sorted pulled user stored n msg left c absent new sorted = (
  λ id.
      let fresh = normal-fresh pulled user stored n msg c id absent new sorted in
      let more = times-snoc id c.self_insert_message msg in
      let seen' = seen-insert msg.client_msg_id id msg c.processed_msg_ids in
      (ground (arith, fresh.0, more, seen'), ground (arith, fresh.1, more)),
  sorted.1,
  omega (arith, sorted.2, length-append c.self_insert_message (msg ∷ [])),
)

pub others-Sorted :
    (pulled : List MsgData) (user : String) (stored : Map String LocalChatLog) (n : ℕ)
    (msg : LocalChatLog) (left : List MsgData) (c : Classes)
    → lookup msg.client_msg_id stored ≡ none
    → lookup msg.client_msg_id c.processed_msg_ids ≡ none
    → Sorted pulled user stored n c
    → Sorted pulled user stored (suc n) (
        process msg
          (record c { others_insert_message = c.others_insert_message ++ (msg ∷ []); msgs = left }))
others-Sorted pulled user stored n msg left c absent new sorted = (
  λ id.
      let fresh = normal-fresh pulled user stored n msg c id absent new sorted in
      let more = times-snoc id c.others_insert_message msg in
      let seen' = seen-insert msg.client_msg_id id msg c.processed_msg_ids in
      (ground (arith, fresh.0, more, seen'), ground (arith, fresh.1, more)),
  sorted.1,
  omega (arith, sorted.2, length-append c.others_insert_message (msg ∷ [])),
)
