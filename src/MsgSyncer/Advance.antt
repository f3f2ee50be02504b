-- ===== src/MsgSyncer/Advance.antt =====
-- How `compareSeqsAndBatchSync` moves the synced sequence numbers.
use openim_sdk_core.Prelude.{
  ℕ, zero, suc, ◌+◌, ◌<◌, ◌≡◌, ◌≢◌, refl, sym, ◌∙◌, false, List, [], ◌∷◌, ◌++◌, Option, none, some,
  ◌⊎◌, inl, inr, String, ◌==◌, nat_eq, string_eq, ltb, leb, if◌then◌else◌, arith, max, Bool-cases,
  Option-cases,
}
use openim_sdk_core.Prelude.Map.{Map, lookup, insert, Distinct}
use openim_sdk_core.Prelude.Map.Append.{lookup-append_some}
use openim_sdk_core.Prelude.Outcome.{Outcome, state_of, ok, Done, Done-bind}
use openim_sdk_core.MsgSyncer.{MsgSyncer, SeqRange, PullMessageBySeqsResp, Event, Server}
use openim_sdk_core.MsgSyncer.Need.{need_sync, need_sync_seq_map}
use openim_sdk_core.MsgSyncer.NeedLaws.{wants, lookup-need_sync_seq_map, need_sync_seq_map-Distinct}
use openim_sdk_core.MsgSyncer.Pull.{
  split_pull_msg_num, pull_batch, batch_weight, trigger_msgs, sync_loop, sync_and_trigger_msgs,
  compare_seqs_and_batch_sync,
}
use openim_sdk_core.MsgSyncer.Batches.{
  Batched, all_pulled, cut_short, over, sync_and_trigger_msgs-Batched,
}

-- The synced number is behind the server's maximum; an unknown one is behind any but 0.
abbrev pub Behind : Option ℕ → ℕ → Type 0
Behind none top = top ≢ 0
Behind (some synced) top = synced < top

-- A synced number is kept, or raised to the server's maximum that it was behind.
abbrev pub Advances : Option ℕ → Option ℕ → Option ℕ → Type 0
Advances top old new = (new ≡ old) ⊎ ((n : ℕ) × (top ≡ some n) × (new ≡ some n) × Behind old n)

-- The synced number after everything is pulled.
abbrev pub caught_up : Option ℕ → Option ℕ → Option ℕ
caught_up none old = old
caught_up (some top) (some synced) = some (max synced top)
caught_up (some top) none = if top == 0 then none else some top

over-wants :
    (top old : Option ℕ)
    → (over (wants false old top none) old ≡ caught_up top old)
      × Advances top old (over (wants false old top none) old)
unfolding need_sync
over-wants none old = (refl, inl refl)
over-wants (some zero) none = (refl, inl refl)
over-wants (some (suc n)) none = (ground arith, inr (suc n, refl, ground arith, omega arith))
over-wants (some n) (some s) = elim (Bool-cases (ltb s n)) [
  | inl e ↦ (ground (arith, e), inr (n, refl, ground (arith, e), ground (arith, e)))
  | inr e ↦ (ground (arith, e), inl (ground (arith, e)))
]

part-Advances :
    (top old : Option ℕ) (need part : Option SeqRange)
    → need ≡ wants false old top none
    → (part ≡ none) ⊎ (part ≡ need)
    → Advances top old (over part old)
part-Advances top old need part e (inl h) = inl (rw h)
part-Advances top old need part e (inr h) = rw (h, e) ((over-wants top old).1)

before-cases :
    (id : String) (all before rest : Map String SeqRange)
    → all ≡ before ++ rest
    → (lookup id before ≡ none) ⊎ (lookup id before ≡ lookup id all)
before-cases id all before rest e = elim (Option-cases (lookup id before)) [
  | inl h ↦ inl h
  | inr (r, h) ↦ inr (h ∙ sym (rw e (lookup-append_some id r before rest h)))
]

lookup-need :
    (maxs : Map String ℕ) (m : MsgSyncer) (id : String)
    → Distinct maxs
    → lookup id (need_sync_seq_map false m.synced_max_seqs maxs [])
      ≡ wants false (lookup id m.synced_max_seqs) (lookup id maxs) none
unfolding lookup
lookup-need maxs m id d = lookup-need_sync_seq_map false m.synced_max_seqs maxs [] id d

Batched-Advances :
    (maxs : Map String ℕ) (m : MsgSyncer) (id : String) (r : Outcome MsgSyncer)
    → Distinct maxs
    → Batched (need_sync_seq_map false m.synced_max_seqs maxs []) m r
    → Advances
        (lookup id maxs)
        (lookup id m.synced_max_seqs)
        (lookup id (state_of r).synced_max_seqs)
Batched-Advances maxs m id r d (all_pulled m' same synced asked) =
    rw (synced id) (part-Advances _ _ _ _ (lookup-need maxs m id d) (inr refl))
Batched-Advances maxs m id r d (cut_short e m' before failed after split same synced asked) =
    rw (synced id) (
      part-Advances _ _ _ _ (lookup-need maxs m id d)
        (before-cases id _ before (failed ++ after) split))

-- Where the app was not reinstalled, `compareSeqsAndBatchSync` keeps each synced sequence number or
-- raises it to the server's maximum that it was behind, whatever the server answers to the requests
-- for messages: none is lowered, none passes the server's maximum, and a conversation that the server
-- does not name is left alone. The server's maxima are a map, with distinct keys.
pub compare_seqs_and_batch_sync-Advances :
    (server : Server) (maxs : Map String ℕ) (pull_nums : ℕ) (m : MsgSyncer) (id : String)
    → m.reinstalled ≡ false
    → Distinct maxs
    → Advances
        (lookup id maxs)
        (lookup id m.synced_max_seqs)
        (lookup id (compare_seqs_and_batch_sync server maxs pull_nums m).synced_max_seqs)
unfolding compare_seqs_and_batch_sync
compare_seqs_and_batch_sync-Advances server maxs pull_nums m id first d = simp first (
    Batched-Advances maxs m id _ d (
      sync_and_trigger_msgs-Batched server _ pull_nums m
        (need_sync_seq_map-Distinct false m.synced_max_seqs maxs [] tt)))

-- The server answers every request for messages.
abbrev pub Answers : Server → Type 0
Answers server =
    (log : List Event) (ranges : Map String SeqRange) (n : ℕ)
    → (resp : PullMessageBySeqsResp) × (server.pulled log ranges n ≡ ok resp)

module _ (server : Server) (answers : Answers server) where
  pull_batch-Done :
      (n : ℕ) (batch : Map String SeqRange) (m : MsgSyncer)
      → Done (pull_batch server trigger_msgs n batch m)
  unfolding pull_batch
  pull_batch-Done n batch m = let (resp, e) = answers m.log batch n in rw (e, pull_batch) (_, refl)

  sync_loop-Done :
      (n : ℕ) (rest temp : Map String SeqRange) (num : ℕ) (m : MsgSyncer)
      → Done (sync_loop server n rest temp num m)
  unfolding sync_loop
  sync_loop-Done n [] [] num m = (m, refl)
  sync_loop-Done n [] (e ∷ temp) num m = pull_batch-Done n (e ∷ temp) m
  sync_loop-Done n ((id, seqs) ∷ rest) temp num m =
      elim (Bool-cases (leb split_pull_msg_num (num + batch_weight n id seqs))) [
        | inl full ↦ rw full (
            Done-bind _ _ (pull_batch-Done n (insert id seqs temp) m)
              (λ m'. sync_loop-Done n rest [] 0 m'))
        | inr more ↦
            rw more (sync_loop-Done n rest (insert id seqs temp) (num + batch_weight n id seqs) m)
      ]

  Batched-caught_up :
      (maxs : Map String ℕ) (m : MsgSyncer) (id : String) (r : Outcome MsgSyncer)
      → Distinct maxs
      → Done r
      → Batched (need_sync_seq_map false m.synced_max_seqs maxs []) m r
      → lookup id (state_of r).synced_max_seqs
        ≡ caught_up (lookup id maxs) (lookup id m.synced_max_seqs)
  Batched-caught_up maxs m id r d is_done (all_pulled m' same synced asked) =
      rw (synced id, lookup-need maxs m id d)
        ((over-wants (lookup id maxs) (lookup id m.synced_max_seqs)).0)
  Batched-caught_up maxs m id r d is_done (cut_short e m' before failed after _ _ _ _) =
      absurd (cc (is_done.1))

  -- Where the app was not reinstalled and the server answers every request for messages,
  -- `compareSeqsAndBatchSync` leaves each conversation that the server names synced to the larger of
  -- its old synced number and the server's maximum (unknown stays unknown at a maximum of 0), and
  -- every other conversation as it was. The server's maxima are a map, with distinct keys.
  pub compare_seqs_and_batch_sync-caught_up :
      (maxs : Map String ℕ) (pull_nums : ℕ) (m : MsgSyncer) (id : String)
      → m.reinstalled ≡ false
      → Distinct maxs
      → lookup id (compare_seqs_and_batch_sync server maxs pull_nums m).synced_max_seqs
        ≡ caught_up (lookup id maxs) (lookup id m.synced_max_seqs)
  unfolding compare_seqs_and_batch_sync sync_and_trigger_msgs
  compare_seqs_and_batch_sync-caught_up maxs pull_nums m id first d = simp first (
      Batched-caught_up maxs m id _ d (sync_loop-Done pull_nums _ [] 0 m) (
        sync_and_trigger_msgs-Batched server _ pull_nums m
          (need_sync_seq_map-Distinct false m.synced_max_seqs maxs [] tt)))
