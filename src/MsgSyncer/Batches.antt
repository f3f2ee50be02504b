-- ===== src/MsgSyncer/Batches.antt =====
-- What the batches of `syncAndTriggerMsgs` ask for, and what they leave in `syncedMaxSeqs`.
use mathlib.Core.List.{append-nil, append_assoc}
use openim_sdk_core.Prelude.{
  ℕ, ◌+◌, ◌≡◌, refl, sym, ap, subst, ◌∙◌, List, [], ◌∷◌, ◌++◌, Option, none, some, inl, inr, String,
  ◌==◌, leb, string_eq, arith, Bool-cases, Option-cases,
}
use openim_sdk_core.Prelude.Map.{
  Map, lookup, insert, Distinct, lookup-insert, lookup-none_of_contains,
}
use openim_sdk_core.Prelude.Map.Append.{
  insert_fresh, Distinct-middle, Distinct-left, Distinct-right, lookup-append_some,
  lookup-append_none, lookup_right_none, append_cons,
}
use openim_sdk_core.Prelude.Outcome.{Outcome, done, fail, ◌>>=◌, Result-cases}
use openim_sdk_core.MsgSyncer.{
  PullMsgs, SeqRange, PullMessageBySeqsResp, MsgSyncer, Server, Event, send, pull_msg_by_range,
}
use openim_sdk_core.MsgSyncer.Pull.{
  split_pull_msg_num, trigger_conversation, trigger_notification, trigger_msgs, mark_synced,
  pull_batch, batch_weight, sync_loop, sync_and_trigger_msgs,
}

-- The ranges asked for, oldest first.
abbrev pub requested : List Event → Map String SeqRange
requested [] = []
requested (pull_msg_by_range ranges n ∷ log) = requested log ++ ranges
requested (_ ∷ log) = requested log

-- A conversation's synced sequence number once a range of it is pulled.
abbrev pub over : Option SeqRange → Option ℕ → Option ℕ
over (some range) old = some range.1
over none old = old

lookup-mark_synced :
    (id : String) (batch : Map String SeqRange) (synced : Map String ℕ)
    → Distinct batch
    → lookup id (mark_synced batch synced) ≡ over (lookup id batch) (lookup id synced)
unfolding lookup mark_synced
lookup-mark_synced id [] synced d = refl
lookup-mark_synced id ((j, range) ∷ batch) synced d = elim (Bool-cases (j == id)) [
  | inl here ↦ ground (
    arith,
    here,
    lookup-mark_synced id batch (insert j range.1 synced) d.1,
    lookup-insert j id range.1 synced,
    string_eq.beq_iff j id,
    lookup-none_of_contains j batch d.0,
  )
  | inr there ↦ ground (
    arith,
    there,
    lookup-mark_synced id batch (insert j range.1 synced) d.1,
    lookup-insert j id range.1 synced,
  )
]

over-append :
    (id : String) (a b : Map String SeqRange) (old : Option ℕ)
    → Distinct (a ++ b)
    → over (lookup id b) (over (lookup id a) old) ≡ over (lookup id (a ++ b)) old
over-append id a b old d = elim (Option-cases (lookup id a)) [
  | inl e ↦ rw (e, lookup-append_none id a b e)
  | inr (range, e) ↦ rw (e, lookup-append_some id range a b e, lookup_right_none id range a b d e)
]

-- Delivering an answer writes commands and no sequence number.
trigger_msgs_keeps :
    (resp : PullMessageBySeqsResp) (m : MsgSyncer)
    → ((trigger_msgs resp m).synced_max_seqs ≡ m.synced_max_seqs)
      × ((trigger_msgs resp m).reinstalled ≡ m.reinstalled)
      × (requested (trigger_msgs resp m).log ≡ requested m.log)
unfolding trigger_msgs
trigger_msgs_keeps resp m = go resp.msgs resp.notification_msgs
  where
    go :
        (a b : Map String PullMsgs)
        → ((trigger_notification b (trigger_conversation a m)).synced_max_seqs ≡ m.synced_max_seqs)
          × ((trigger_notification b (trigger_conversation a m)).reinstalled ≡ m.reinstalled)
          × (requested (trigger_notification b (trigger_conversation a m)).log ≡ requested m.log)
    go [] [] = (refl, refl, refl)
    go [] (x ∷ b) = (refl, refl, refl)
    go (x ∷ a) [] = (refl, refl, refl)
    go (x ∷ a) (y ∷ b) = (refl, refl, refl)

-- One request: it asks for the batch, and marks it as synced unless the server fails.
abbrev Pulled : Map String SeqRange → MsgSyncer → Outcome MsgSyncer → Type 0
Pulled batch m (done m') =
    (m'.synced_max_seqs ≡ mark_synced batch m.synced_max_seqs)
    × (m'.reinstalled ≡ m.reinstalled)
    × (requested m'.log ≡ requested m.log ++ batch)
Pulled batch m (fail e m') =
    (m'.synced_max_seqs ≡ m.synced_max_seqs)
    × (m'.reinstalled ≡ m.reinstalled)
    × (requested m'.log ≡ requested m.log ++ batch)

pull_batch-Pulled :
    (server : Server) (n : ℕ) (batch : Map String SeqRange) (m : MsgSyncer)
    → Pulled batch m (pull_batch server trigger_msgs n batch m)
unfolding pull_batch
pull_batch-Pulled server n batch m = elim (Result-cases (server.pulled m.log batch n)) [
  | inl (resp, e) ↦
      let (a, b, c) = trigger_msgs_keeps resp (send (pull_msg_by_range batch n) m) in
      rw (e, pull_batch) (ap (mark_synced batch) a, b, c)
  | inr (x, e) ↦ rw (e, pull_batch) (refl, refl, refl)
]

-- The conversations of `part` are synced to the ends of their ranges, and no other is touched.
abbrev pub SyncedTo : Map String SeqRange → MsgSyncer → MsgSyncer → Type 0
SyncedTo part m m' =
    (id : String)
    → lookup id m'.synced_max_seqs ≡ over (lookup id part) (lookup id m.synced_max_seqs)

-- A run over the ranges `all`: with no error all of them are asked for, once each and in order, and
-- synced; with an error it stopped at a batch `failed`, and what came before is synced.
pub data Batched (all : Map String SeqRange) (m : MsgSyncer) : Outcome MsgSyncer → Type 0 where
  all_pulled :
      (m' : MsgSyncer)
      → m'.reinstalled ≡ m.reinstalled
      → SyncedTo all m m'
      → requested m'.log ≡ requested m.log ++ all
      → Batched all m (done m')
  cut_short :
      (e : String) (m' : MsgSyncer) (before failed after : Map String SeqRange)
      → all ≡ before ++ (failed ++ after)
      → m'.reinstalled ≡ m.reinstalled
      → SyncedTo before m m'
      → requested m'.log ≡ (requested m.log ++ before) ++ failed
      → Batched all m (fail e m')

SyncedTo-of_mark :
    (batch : Map String SeqRange) (m m' : MsgSyncer)
    → Distinct batch
    → m'.synced_max_seqs ≡ mark_synced batch m.synced_max_seqs
    → SyncedTo batch m m'
SyncedTo-of_mark batch m m' d e id = rw e (lookup-mark_synced id batch m.synced_max_seqs d)

SyncedTo-of_same : (m m' : MsgSyncer) → m'.synced_max_seqs ≡ m.synced_max_seqs → SyncedTo [] m m'
unfolding lookup
SyncedTo-of_same m m' e id = rw e

Batched-of_Pulled :
    (batch after : Map String SeqRange) (m : MsgSyncer) (r : Outcome MsgSyncer)
    → Distinct batch
    → after ≡ []
    → Pulled batch m r
    → Batched (batch ++ after) m r
unfolding lookup
Batched-of_Pulled batch after m (done m') d e (seqs, same, asked) =
    rw (e, append-nil batch) (all_pulled m' same (SyncedTo-of_mark batch m m' d seqs) asked)
Batched-of_Pulled batch after m (fail x m') d e (seqs, same, asked) =
    cut_short x m' [] batch after refl same (λ id. rw seqs)
      (asked ∙ ap (λ l. l ++ batch) (sym (append-nil (requested m.log))))

SyncedTo-trans :
    (a b : Map String SeqRange) (m m₁ m₂ : MsgSyncer)
    → Distinct (a ++ b)
    → SyncedTo a m m₁
    → SyncedTo b m₁ m₂
    → SyncedTo (a ++ b) m m₂
SyncedTo-trans a b m m₁ m₂ d h k id =
    k id ∙ ap (over (lookup id b)) (h id) ∙ over-append id a b (lookup id m.synced_max_seqs) d

Batched-trans :
    (batch rest : Map String SeqRange) (m m₁ : MsgSyncer) (r : Outcome MsgSyncer)
    → Distinct (batch ++ rest)
    → m₁.synced_max_seqs ≡ mark_synced batch m.synced_max_seqs
    → m₁.reinstalled ≡ m.reinstalled
    → requested m₁.log ≡ requested m.log ++ batch
    → Batched rest m₁ r
    → Batched (batch ++ rest) m r
Batched-trans batch rest m m₁ r d seqs same asked (all_pulled m' same' synced asked') =
    all_pulled m' (same' ∙ same)
      (SyncedTo-trans batch rest m m₁ m' d
        (SyncedTo-of_mark batch m m₁ (Distinct-left batch rest d) seqs) synced)
      (rw asked at asked' ∙ append_assoc (requested m.log) batch rest)
Batched-trans batch rest m m₁ r d seqs same asked
      (cut_short e m' before failed after split same' synced asked') =
    let split' = ap (λ l. batch ++ l) split ∙ sym (append_assoc batch before (failed ++ after)) in
    cut_short e m' (batch ++ before) failed after split' (same' ∙ same)
      (SyncedTo-trans batch before m m₁ m'
        (Distinct-left (batch ++ before) (failed ++ after) (subst Distinct split' d))
        (SyncedTo-of_mark batch m m₁ (Distinct-left batch rest d) seqs) synced)
      ((rw asked at asked') ∙ ap (λ l. l ++ failed) (append_assoc (requested m.log) batch before))

Batched-bind :
    (batch rest : Map String SeqRange) (m : MsgSyncer) (r : Outcome MsgSyncer)
    (k : MsgSyncer → Outcome MsgSyncer)
    → Distinct (batch ++ rest)
    → Pulled batch m r
    → ((m₁ : MsgSyncer) → Batched rest m₁ (k m₁))
    → Batched (batch ++ rest) m (r >>= k)
Batched-bind batch rest m (done m₁) k d (seqs, same, asked) next =
    Batched-trans batch rest m m₁ (k m₁) d seqs same asked (next m₁)
Batched-bind batch rest m (fail e m₁) k d (seqs, same, asked) next =
    cut_short e m₁ [] batch rest refl same (SyncedTo-of_same m m₁ seqs)
      (asked ∙ ap (λ l. l ++ batch) (sym (append-nil (requested m.log))))

Batched-cast :
    {a b : Map String SeqRange} {m : MsgSyncer} {r : Outcome MsgSyncer}
    → a ≡ b
    → Batched a m r
    → Batched b m r
Batched-cast {m} {r} e h = subst (λ all. Batched all m r) e h

pub sync_loop-Batched :
    (server : Server) (n : ℕ) (rest temp : Map String SeqRange) (num : ℕ) (m : MsgSyncer)
    → Distinct (temp ++ rest)
    → Batched (temp ++ rest) m (sync_loop server n rest temp num m)
unfolding sync_loop
sync_loop-Batched server n [] [] num m d =
    all_pulled m refl (SyncedTo-of_same m m refl) (sym (append-nil (requested m.log)))
sync_loop-Batched server n [] (e ∷ temp) num m d =
    Batched-of_Pulled (e ∷ temp) [] m _ (Distinct-left (e ∷ temp) [] d) refl
      (pull_batch-Pulled server n (e ∷ temp) m)
sync_loop-Batched server n ((id, seqs) ∷ rest) temp num m d =
    let temp' = insert id seqs temp in
    let joined : temp' ++ rest ≡ temp ++ (id, seqs) ∷ rest =
      ap (λ l. l ++ rest) (insert_fresh id seqs temp (Distinct-middle id seqs temp rest d).0)
      ∙ append_cons id seqs temp rest in
    let d' = subst Distinct (sym joined) d in
    elim (Bool-cases (leb split_pull_msg_num (num + batch_weight n id seqs))) [
      | inl full ↦ rw full (
          Batched-cast joined (
            Batched-bind temp' rest m _ _ d' (pull_batch-Pulled server n temp' m)
              (λ m₁. sync_loop-Batched server n rest [] 0 m₁ (Distinct-right temp' rest d'))))
      | inr more ↦ rw more (
          Batched-cast joined
            (sync_loop-Batched server n rest temp' (num + batch_weight n id seqs) m d'))
    ]

-- `syncAndTriggerMsgs` asks the server for every range of the map once, in the order of the loop,
-- and with no error leaves each of its conversations synced to the end of its range and every other
-- as it was. If the server fails it stops there: the ranges before the failed batch are synced, and
-- those of the failed batch and after it are as they were. The keys of the map are distinct.
pub sync_and_trigger_msgs-Batched :
    (server : Server) (seq_map : Map String SeqRange) (sync_msg_num : ℕ) (m : MsgSyncer)
    → Distinct seq_map
    → Batched seq_map m (sync_and_trigger_msgs server seq_map sync_msg_num m)
unfolding sync_and_trigger_msgs
sync_and_trigger_msgs-Batched server seq_map sync_msg_num m d =
    sync_loop-Batched server sync_msg_num seq_map [] 0 m d
