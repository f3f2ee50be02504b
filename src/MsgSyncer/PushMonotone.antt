-- ===== src/MsgSyncer/PushMonotone.antt =====
-- A push never lowers what is synced.
use openim_sdk_core.Prelude.{
  ℕ, ◌≤◌, ◌≡◌, refl, sym, ap, subst, ◌∙◌, false, List, [], ◌∷◌, ◌++◌, none, some, ◌⊎◌, inl, inr,
  String, ◌==◌, nat_eq, string_eq, arith, contains, Bool-cases, Option-cases,
}
use openim_sdk_core.Prelude.Map.{Map, keys, lookup, Distinct, lookup-insert, insert-Distinct}
use openim_sdk_core.Prelude.Map.Append.{lookup-append_some}
use openim_sdk_core.Prelude.Outcome.{Outcome, state_of}
use openim_sdk_core.MsgSyncer.{MsgData, PullMsgs, SeqRange, MsgSyncer, Server}
use openim_sdk_core.MsgSyncer.Pull.{trigger_conversation, trigger_notification}
use openim_sdk_core.MsgSyncer.Batches.{
  Batched, all_pulled, cut_short, over, sync_and_trigger_msgs-Batched,
}
use openim_sdk_core.MsgSyncer.Push.{
  Trigger, or_zero, trigger_unnumbered, storage_msgs, last_seq, Decision, pass, take_over, pull,
  decide, PushLoop, act, push_conversation, push_loop, trigger_res, push_trigger_and_sync,
  do_push_msg, default_pull_nums,
}
use openim_sdk_core.MsgSyncer.PushLaws.{Sane, decide-Sane}

-- What a trigger function leaves alone.
abbrev pub KeepsSynced : Trigger → Type 0
KeepsSynced trigger =
    (msgs : Map String PullMsgs) (m : MsgSyncer)
    → (trigger msgs m).synced_max_seqs ≡ m.synced_max_seqs

trigger_conversation_keeps : KeepsSynced trigger_conversation
unfolding trigger_conversation
trigger_conversation_keeps [] m = refl
trigger_conversation_keeps (e ∷ msgs) m = refl

trigger_notification_keeps : KeepsSynced trigger_notification
unfolding trigger_notification
trigger_notification_keeps [] m = refl
trigger_notification_keeps (e ∷ msgs) m = refl

-- The synced number of a conversation, 0 if there is none.
abbrev pub synced_of : String → MsgSyncer → ℕ
synced_of id m = or_zero (lookup id m.synced_max_seqs)

-- Between rounds: nothing is lowered, and what is to be pulled lies ahead.
record Ahead (id : String) (n : ℕ) (l : PushLoop) : Type 0 where
  kept : n ≤ synced_of id l.syncer
  ahead : (r : SeqRange) → lookup id l.need ≡ some r → synced_of id l.syncer ≤ r.1

module _ (trigger : Trigger) (keeps : KeepsSynced trigger) where
  unnumbered_keeps :
      (id : String) (msgs : List MsgData) (m : MsgSyncer)
      → (trigger_unnumbered trigger id msgs m).synced_max_seqs ≡ m.synced_max_seqs
  unfolding trigger_unnumbered
  unnumbered_keeps id [] m = refl
  unnumbered_keeps id (d ∷ rest) m = elim (Bool-cases (d.seq == 0)) [
    | inl e ↦ rw (e, trigger_unnumbered) (unnumbered_keeps id rest _ ∙ keeps _ m)
    | inr e ↦ rw (e, trigger_unnumbered) (unnumbered_keeps id rest m)
  ]

  act_other :
      (id j : String) (storage : List MsgData) (d : Decision) (l : PushLoop)
      → j == id ≡ false
      → (lookup id (act j storage d l).syncer.synced_max_seqs ≡ lookup id l.syncer.synced_max_seqs)
        × (lookup id (act j storage d l).need ≡ lookup id l.need)
  act_other id j storage pass l h = (refl, refl)
  act_other id j storage (take_over last) l h =
      (ground (arith, h, lookup-insert j id last l.syncer.synced_max_seqs), refl)
  act_other id j storage (pull range) l h =
      (refl, ground (arith, h, lookup-insert j id range l.need))

  act_own :
      (id : String) (n : ℕ) (storage : List MsgData) (d : Decision) (l : PushLoop)
      → Sane (synced_of id l.syncer) d
      → lookup id l.need ≡ none
      → n ≤ synced_of id l.syncer
      → Ahead id n (act id storage d l)
  act_own id n storage pass l sane none_yet h = record {
    kept = h;
    ahead = λ r e. absurd (ground (arith, none_yet, e));
  }
  act_own id n storage (take_over last) l sane none_yet h = record {
    kept =
        ground (arith, lookup-insert id id last l.syncer.synced_max_seqs, string_eq.beq_iff id id);
    ahead = λ r e. absurd (ground (arith, none_yet, e));
  }
  act_own id n storage (pull range) l sane none_yet h = record {
    kept = h;
    ahead = λ r e. ground (arith, e, lookup-insert id id range l.need, string_eq.beq_iff id id);
  }

  push_conversation_other :
      (id j : String) (n : ℕ) (msgs : List MsgData) (l : PushLoop)
      → j == id ≡ false
      → Ahead id n l
      → Ahead id n (push_conversation trigger j msgs l)
        × (lookup id (push_conversation trigger j msgs l).need ≡ lookup id l.need)
  unfolding push_conversation
  push_conversation_other id j n msgs l h a =
      let m = trigger_unnumbered trigger j msgs l.syncer in
      let storage = storage_msgs msgs in
      let d = decide (synced_of j m) storage (last_seq msgs 0) in
      let (seqs, need) = act_other id j storage d (record l { syncer = m }) h in
      let same : synced_of id (act j storage d (record l { syncer = m })).syncer
          ≡ synced_of id l.syncer =
        ap or_zero (seqs ∙ ap (lookup id) (unnumbered_keeps j msgs l.syncer)) in
      (
        record {
          kept = omega (arith, same, a.kept);
          ahead = λ r e. omega (arith, same, a.ahead r (sym need ∙ e));
        },
        need,
      )

  push_conversation_own :
      (id : String) (n : ℕ) (msgs : List MsgData) (l : PushLoop)
      → lookup id l.need ≡ none
      → Ahead id n l
      → Ahead id n (push_conversation trigger id msgs l)
  unfolding push_conversation
  push_conversation_own id n msgs l none_yet a =
      let m = trigger_unnumbered trigger id msgs l.syncer in
      act_own id n (storage_msgs msgs) _ (record l { syncer = m })
        (decide-Sane (synced_of id m) (storage_msgs msgs) (last_seq msgs 0)) none_yet
        (omega (arith, a.kept, ap (λ s. or_zero (lookup id s)) (unnumbered_keeps id msgs l.syncer)))

  push_loop-Ahead :
      (id : String) (n : ℕ) (push : Map String PullMsgs) (l : PushLoop)
      → Distinct push
      → (lookup id l.need ≡ none) ⊎ (contains (keys push) id ≡ false)
      → Ahead id n l
      → Ahead id n (push_loop trigger push l)
  unfolding push_loop
  push_loop-Ahead id n [] l d fresh a = a
  push_loop-Ahead id n ((j, msgs) ∷ push) l d fresh a = elim (Bool-cases (j == id)) [
    | inl here ↦
        let q = (string_eq.beq_iff j id).0 here in
        push_loop-Ahead id n push _ d.1 (inr (ground (arith, q, d.0)))
          (ground_own q (ground (arith, here, fresh)))
    | inr there ↦
        let (a', need) = push_conversation_other id j n msgs.msgs l there a in
        push_loop-Ahead id n push _ d.1
          (elim fresh [ inl h ↦ inl (need ∙ h) | inr h ↦ inr (ground (arith, there, h)) ]) a'
  ]
    where
      ground_own :
          j ≡ id → lookup id l.need ≡ none → Ahead id n (push_conversation trigger j msgs.msgs l)
      ground_own q none_yet =
          subst (λ i. Ahead id n (push_conversation trigger i msgs.msgs l)) (sym q)
            (push_conversation_own id n msgs.msgs l none_yet a)

  act-Distinct :
      (id : String) (storage : List MsgData) (d : Decision) (l : PushLoop)
      → Distinct l.need
      → Distinct (act id storage d l).need
  act-Distinct id storage pass l h = h
  act-Distinct id storage (take_over last) l h = h
  act-Distinct id storage (pull range) l h = insert-Distinct id range l.need h

  push_loop-Distinct :
      (push : Map String PullMsgs) (l : PushLoop)
      → Distinct l.need
      → Distinct (push_loop trigger push l).need
  unfolding push_loop push_conversation
  push_loop-Distinct [] l h = h
  push_loop-Distinct ((j, msgs) ∷ push) l h =
      push_loop-Distinct push _ (act-Distinct j (storage_msgs msgs.msgs) _ _ h)

  trigger_res_keeps :
      (l : PushLoop) → (trigger_res trigger l).synced_max_seqs ≡ l.syncer.synced_max_seqs
  trigger_res_keeps l = go l.res
    where
      go :
          (res : Map String PullMsgs)
          → (trigger_res trigger (record l { res = res })).synced_max_seqs
            ≡ l.syncer.synced_max_seqs
      go [] = refl
      go (e ∷ res) = keeps (e ∷ res) l.syncer

  Batched-mono :
      (id : String) (n : ℕ) (l : PushLoop) (m : MsgSyncer) (r : Outcome MsgSyncer)
      → m.synced_max_seqs ≡ l.syncer.synced_max_seqs
      → Ahead id n l
      → Batched l.need m r
      → n ≤ synced_of id (state_of r)
  Batched-mono id n l m r e a (all_pulled m' same synced asked) =
      elim (Option-cases (lookup id l.need)) [
        | inl h ↦ omega (
          arith,
          a.kept,
          ap or_zero
              (synced id ∙ ap (λ o. over o (lookup id m.synced_max_seqs)) h ∙ ap (lookup id) e),
        )
        | inr (range, h) ↦ omega (
          arith,
          a.kept,
          a.ahead range h,
          ap or_zero (synced id ∙ ap (λ o. over o (lookup id m.synced_max_seqs)) h),
        )
      ]
  Batched-mono id n l m r e a (cut_short x m' before failed after split same synced asked) =
      elim (Option-cases (lookup id before)) [
        | inl h ↦ omega (
          arith,
          a.kept,
          ap or_zero
              (synced id ∙ ap (λ o. over o (lookup id m.synced_max_seqs)) h ∙ ap (lookup id) e),
        )
        | inr (range, h) ↦ omega (
          arith,
          a.kept,
          a.ahead range
              (ap (lookup id) split ∙ lookup-append_some id range before (failed ++ after) h),
          ap or_zero (synced id ∙ ap (λ o. over o (lookup id m.synced_max_seqs)) h),
        )
      ]

  push_trigger_and_sync_mono :
      (server : Server) (push : Map String PullMsgs) (m : MsgSyncer) (id : String)
      → Distinct push
      → synced_of id m ≤ synced_of id (push_trigger_and_sync server trigger push m)
  unfolding push_trigger_and_sync lookup
  push_trigger_and_sync_mono server [] m id d = omega arith
  push_trigger_and_sync_mono server (e ∷ push) m id d =
      let l = push_loop trigger (e ∷ push) (record { res = []; need = []; syncer = m }) in
      let a =
        push_loop-Ahead id (synced_of id m) (e ∷ push) (record { res = []; need = []; syncer = m })
          d (inl refl) (record { kept = omega arith; ahead = λ r h. absurd (cc h) }) in
      Batched-mono id (synced_of id m) l (trigger_res trigger l) _ (trigger_res_keeps l) a (
        sync_and_trigger_msgs-Batched server l.need default_pull_nums (trigger_res trigger l)
          (push_loop-Distinct (e ∷ push) _ tt))

-- A push never lowers the synced sequence number of a conversation (0 if there is none), whatever
-- messages it brings, in any order, and whatever the server answers to the requests that it causes.
-- The two maps of the push have distinct keys.
pub do_push_msg_mono :
    (server : Server) (msgs notification_msgs : Map String PullMsgs) (m : MsgSyncer) (id : String)
    → Distinct msgs
    → Distinct notification_msgs
    → synced_of id m ≤ synced_of id (do_push_msg server msgs notification_msgs m)
unfolding do_push_msg
do_push_msg_mono server msgs notifs m id d d' = omega (
  arith,
  push_trigger_and_sync_mono trigger_conversation trigger_conversation_keeps server msgs m id d,
  push_trigger_and_sync_mono trigger_notification trigger_notification_keeps server notifs
      (push_trigger_and_sync server trigger_conversation msgs m) id d',
)
