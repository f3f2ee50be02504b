-- ===== src/MsgSyncer/NeedLaws.antt =====
-- What `getNeedSyncConversations` and `getSeqsNeedSync` find.
use openim_sdk_core.Prelude.{
  ℕ, zero, suc, ◌+◌, ◌-◌, ◌≡◌, refl, Bool, ◌&&◌, [], ◌∷◌, Option, none, some, inl, inr, String,
  nat_eq, string_eq, ltb, leb, arith, Option-cases, length, contains,
}
use openim_sdk_core.Prelude.Map.{
  Map, lookup, insert, Distinct, lookup-insert, insert-Distinct, lookup-none_of_contains,
}
use openim_sdk_core.MsgSyncer.{SeqRange}
use openim_sdk_core.MsgSyncer.Need.{seqs_from, get_seqs_need_sync, need_sync, need_sync_seq_map}

-- The sequence numbers from `i` on, below `j`.
contains-seqs_from : (i n j : ℕ) → contains (seqs_from i n) j ≡ (leb i j && ltb j (i + n))
unfolding seqs_from
contains-seqs_from i zero j = ground arith
contains-seqs_from i (suc n) j = ground (arith, contains-seqs_from (i + 1) n j)

length-seqs_from : (i n : ℕ) → length (seqs_from i n) ≡ n
unfolding seqs_from
length-seqs_from i zero = refl
length-seqs_from i (suc n) = omega (arith, length-seqs_from (i + 1) n)

-- `getSeqsNeedSync` lists the sequence numbers above the synced one up to the maximum, each once: a
-- number is in the list exactly when it is missing, and the list is as long as the gap.
pub get_seqs_need_sync_lem :
    (synced_max_seq max_seq : ℕ)
    → ((i : ℕ)
        → contains (get_seqs_need_sync synced_max_seq max_seq) i
          ≡ (ltb synced_max_seq i && leb i max_seq))
      × (length (get_seqs_need_sync synced_max_seq max_seq) ≡ max_seq - synced_max_seq)
unfolding get_seqs_need_sync
get_seqs_need_sync_lem s m =
    (λ i. ground (arith, contains-seqs_from (s + 1) (m - s) i), length-seqs_from (s + 1) (m - s))

-- The range to pull for a conversation, from what is synced and the server's maximum; `old` is what
-- the map had before.
abbrev pub wants : Bool → Option ℕ → Option ℕ → Option SeqRange → Option SeqRange
wants reinstalled synced none old = old
wants reinstalled synced (some max_seq) old = elim (need_sync reinstalled synced max_seq) [
  | some range ↦ some range
  | none ↦ old
]

pub lookup-need_sync_seq_map :
    (r : Bool) (synced maxs : Map String ℕ) (need : Map String SeqRange) (id : String)
    → Distinct maxs
    → lookup id (need_sync_seq_map r synced maxs need)
      ≡ wants r (lookup id synced) (lookup id maxs) (lookup id need)
unfolding lookup need_sync_seq_map
lookup-need_sync_seq_map r synced [] need id d = refl
lookup-need_sync_seq_map r synced ((j, mx) ∷ rest) need id d =
    elim (Option-cases (need_sync r (lookup j synced) mx)) [
      | inl e ↦ ground (
        arith,
        e,
        lookup-need_sync_seq_map r synced rest need id d.1,
        string_eq.beq_iff j id,
        lookup-none_of_contains j rest d.0,
      )
      | inr (range, e) ↦ ground (
        arith,
        e,
        lookup-need_sync_seq_map r synced rest (insert j range need) id d.1,
        string_eq.beq_iff j id,
        lookup-none_of_contains j rest d.0,
        lookup-insert j id range need,
      )
    ]

pub need_sync_seq_map-Distinct :
    (r : Bool) (synced maxs : Map String ℕ) (need : Map String SeqRange)
    → Distinct need
    → Distinct (need_sync_seq_map r synced maxs need)
unfolding need_sync_seq_map
need_sync_seq_map-Distinct r synced [] need d = d
need_sync_seq_map-Distinct r synced ((j, mx) ∷ rest) need d =
    elim (Option-cases (need_sync r (lookup j synced) mx)) [
      | inl e ↦ rw e (need_sync_seq_map-Distinct r synced rest need d)
      | inr (range, e) ↦ rw e (
          need_sync_seq_map-Distinct r synced rest (insert j range need)
            (insert-Distinct j range need d))
    ]
