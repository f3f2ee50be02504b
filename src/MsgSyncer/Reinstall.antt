-- ===== src/MsgSyncer/Reinstall.antt =====
-- How a reinstalled app treats notification conversations.
use openim_sdk_core.Prelude.{
  ℕ, zero, suc, ◌≡◌, refl, Bool, true, false, [], ◌∷◌, Option, none, some, inl, inr, String, nat_eq,
  string_eq, arith, Bool-cases,
}
use openim_sdk_core.Prelude.Map.{
  Map, lookup, insert, Distinct, lookup-insert, insert-Distinct, lookup-none_of_contains,
}
use openim_sdk_core.MsgSyncer.{MsgSyncer, SeqRange}
use openim_sdk_core.MsgSyncer.Need.{
  is_notification, notification_seqs, message_seqs, set_synced, skip_notifications,
  store_notification_seqs, get_need_sync_conversations,
}
use openim_sdk_core.MsgSyncer.NeedLaws.{wants, lookup-need_sync_seq_map}

-- A notification conversation with a maximum other than 0.
abbrev pub noted : Bool → Option ℕ → Option ℕ → Option ℕ
noted true (some (suc n)) old = some (suc n)
noted _ _ old = old

abbrev pub unless_notification : Bool → Option ℕ → Option ℕ → Option ℕ
unless_notification false (some n) old = some n
unless_notification _ _ old = old

lookup-notification_seqs :
    (maxs found : Map String ℕ) (id : String)
    → Distinct maxs
    → lookup id (notification_seqs maxs found)
      ≡ noted (is_notification id) (lookup id maxs) (lookup id found)
unfolding lookup notification_seqs
lookup-notification_seqs [] found id d = ground arith
lookup-notification_seqs ((j, zero) ∷ rest) found id d = ground (
  arith,
  lookup-notification_seqs rest found id d.1,
  string_eq.beq_iff j id,
  lookup-none_of_contains j rest d.0,
)
lookup-notification_seqs ((j, suc n) ∷ rest) found id d = ground (
  arith,
  lookup-notification_seqs rest found id d.1,
  lookup-notification_seqs rest (insert j (suc n) found) id d.1,
  string_eq.beq_iff j id,
  lookup-none_of_contains j rest d.0,
  lookup-insert j id (suc n) found,
)

lookup-message_seqs :
    (maxs found : Map String ℕ) (id : String)
    → Distinct maxs
    → lookup id (message_seqs maxs found)
      ≡ unless_notification (is_notification id) (lookup id maxs) (lookup id found)
unfolding lookup message_seqs
lookup-message_seqs [] found id d = ground arith
lookup-message_seqs ((j, n) ∷ rest) found id d = ground (
  arith,
  lookup-message_seqs rest found id d.1,
  lookup-message_seqs rest (insert j n found) id d.1,
  string_eq.beq_iff j id,
  lookup-none_of_contains j rest d.0,
  lookup-insert j id n found,
)

notification_seqs-Distinct :
    (maxs found : Map String ℕ) → Distinct found → Distinct (notification_seqs maxs found)
unfolding notification_seqs
notification_seqs-Distinct [] found d = d
notification_seqs-Distinct ((j, n) ∷ rest) found d = ground (
  arith,
  notification_seqs-Distinct rest found d,
  notification_seqs-Distinct rest (insert j n found) (insert-Distinct j n found d),
)

message_seqs-Distinct :
    (maxs found : Map String ℕ) → Distinct found → Distinct (message_seqs maxs found)
unfolding message_seqs
message_seqs-Distinct [] found d = d
message_seqs-Distinct ((j, n) ∷ rest) found d = ground (
  arith,
  message_seqs-Distinct rest found d,
  message_seqs-Distinct rest (insert j n found) (insert-Distinct j n found d),
)

-- The later value wins, and no key has two.
abbrev pub or_old : Option ℕ → Option ℕ → Option ℕ
or_old none old = old
or_old (some n) old = some n

lookup-set_synced :
    (seqs synced : Map String ℕ) (id : String)
    → Distinct seqs
    → lookup id (set_synced seqs synced) ≡ or_old (lookup id seqs) (lookup id synced)
unfolding lookup set_synced
lookup-set_synced [] synced id d = refl
lookup-set_synced ((j, n) ∷ rest) synced id d = ground (
  arith,
  lookup-set_synced rest (insert j n synced) id d.1,
  string_eq.beq_iff j id,
  lookup-none_of_contains j rest d.0,
  lookup-insert j id n synced,
)

store_keeps :
    (seqs : Map String ℕ) (m : MsgSyncer)
    → (store_notification_seqs seqs m).synced_max_seqs ≡ m.synced_max_seqs
store_keeps [] m = refl
store_keeps (e ∷ seqs) m = refl

pub lookup-skip_notifications :
    (maxs : Map String ℕ) (m : MsgSyncer) (id : String)
    → Distinct maxs
    → lookup id (skip_notifications maxs m).synced_max_seqs
      ≡ noted (is_notification id) (lookup id maxs) (lookup id m.synced_max_seqs)
unfolding skip_notifications lookup
lookup-skip_notifications maxs m id d = ground (
  arith,
  store_keeps (notification_seqs maxs [])
      (record m { synced_max_seqs = set_synced (notification_seqs maxs []) m.synced_max_seqs }),
  lookup-set_synced (notification_seqs maxs []) m.synced_max_seqs id
      (notification_seqs-Distinct maxs [] tt),
  lookup-notification_seqs maxs [] id d,
)

-- What the syncer looks for in one conversation, from the server's maximum and what is synced.
abbrev pub Needs : Bool → Bool → Option ℕ → Option ℕ → Option ℕ → Option SeqRange → Type 0
Needs true true top old new need = (new ≡ noted true top old) × (need ≡ none)
Needs true false top old new need = (new ≡ old) × (need ≡ wants true old top none)
Needs false notif top old new need = (new ≡ old) × (need ≡ wants false old top none)

-- `getNeedSyncConversations` finds for every conversation of the server the range from the first
-- sequence number that is not synced to the server's maximum, and nothing where there is none. In a
-- reinstalled app a notification conversation is never pulled: it counts as synced to the server's
-- maximum, unless that is 0. No other synced sequence number changes. The server's answer is a map,
-- with distinct keys.
get_need_sync_conversations-Needs :
    (maxs : Map String ℕ) (m : MsgSyncer) (id : String)
    → Distinct maxs
    → Needs m.reinstalled
        (is_notification id)
        (lookup id maxs)
        (lookup id m.synced_max_seqs)
        (lookup id (get_need_sync_conversations maxs m).0.synced_max_seqs)
        (lookup id (get_need_sync_conversations maxs m).1)
unfolding get_need_sync_conversations lookup
get_need_sync_conversations-Needs maxs m id d = elim (Bool-cases m.reinstalled) [
  | inl again ↦ elim (Bool-cases (is_notification id)) [
    | inl notif ↦ ground (
      arith,
      again,
      notif,
      lookup-skip_notifications maxs m id d,
      lookup-need_sync_seq_map true (skip_notifications maxs m).synced_max_seqs
          (message_seqs maxs []) [] id (message_seqs-Distinct maxs [] tt),
      lookup-message_seqs maxs [] id d,
    )
    | inr mess ↦ ground (
      arith,
      again,
      mess,
      lookup-skip_notifications maxs m id d,
      lookup-need_sync_seq_map true (skip_notifications maxs m).synced_max_seqs
          (message_seqs maxs []) [] id (message_seqs-Distinct maxs [] tt),
      lookup-message_seqs maxs [] id d,
    )
  ]
  | inr first ↦ ground (arith, first, lookup-need_sync_seq_map false m.synced_max_seqs maxs [] id d)
]
