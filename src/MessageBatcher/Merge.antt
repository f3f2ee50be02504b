-- ===== src/MessageBatcher/Merge.antt =====
-- What a merge of `mergeLocked` does to the messages of a conversation.
use openim_sdk_core.Prelude.{
  ◌≡◌, nat_eq, refl, sym, ◌∙◌, ap, Bool, true, false, List, [], ◌∷◌, ◌++◌, Option, none, some,
  String, string_eq, ◌==◌, inl, inr, Bool-cases, contains, if◌then◌else◌,
}
use mathlib.Core.List.{append_assoc, append-nil}
use openim_sdk_core.Prelude.Map.{
  Map, lookup, keys, Distinct, lookup-insert, lookup-none_of_contains,
}
use openim_sdk_core.MsgSyncer.{MsgData, PullMsgs}
use openim_sdk_core.MessageBatcher.{
  PushMessages, MessageBatcher, Context, append_to, merge_entry, merge_pulls, buffer_or_new, merge,
}

-- The messages of one conversation in a map of pulls.
abbrev pub msgs_of : Option PullMsgs → List MsgData
msgs_of none = []
msgs_of (some p) = p.msgs

abbrev pub of_id : String → Map String PullMsgs → List MsgData
of_id id pulls = msgs_of (lookup id pulls)

-- Messages or notifications.
abbrev pub side : Bool → PushMessages → Map String PullMsgs
side true p = p.msgs
side false p = p.notification_msgs

abbrev pub received : Bool → String → Option PushMessages → List MsgData
received kind id none = []
received kind id (some p) = of_id id (side kind p)

unfoldable pub delivered : Bool → String → List (List Context × PushMessages) → List MsgData
delivered kind id [] = []
delivered kind id ((ctxs, p) ∷ rest) = of_id id (side kind p) ++ delivered kind id rest

-- What was delivered of a conversation, then what is buffered of it.
unfoldable pub stream : Bool → String → MessageBatcher → List MsgData
unfolding delivered
stream kind id b = delivered kind id b.handled ++ received kind id b.buffer

-- The maps of a push have distinct keys.
abbrev pub IsPush : Option PushMessages → Type 0
IsPush none = Unit
IsPush (some p) = Distinct p.msgs × Distinct p.notification_msgs

pub delivered-append :
    (kind : Bool) (id : String) (xs ys : List (List Context × PushMessages))
    → delivered kind id (xs ++ ys) ≡ delivered kind id xs ++ delivered kind id ys
unfolding delivered
delivered-append kind id [] ys = refl
delivered-append kind id ((c, p) ∷ xs) ys = rw (
  delivered-append kind id xs ys,
  append_assoc (of_id id (side kind p)) (delivered kind id xs) (delivered kind id ys),
)

pub msgs-append_to :
    (old : Option PullMsgs) (pulls : PullMsgs)
    → (append_to old pulls).msgs ≡ msgs_of old ++ pulls.msgs
msgs-append_to none pulls = refl
msgs-append_to (some existing) pulls = refl

pub lookup_same :
    (id k : String) (m : Map String PullMsgs) → k == id ≡ true → lookup id m ≡ lookup k m
lookup_same id k m h = ap (λ x. lookup x m) (sym ((string_eq.beq_iff k id).0 h))

pub of_id-merge_entry :
    (id k : String) (pulls : PullMsgs) (m : Map String PullMsgs)
    → of_id id (merge_entry k pulls m) ≡ of_id id m ++ (if k == id then pulls.msgs else [])
of_id-merge_entry id k pulls m = elim (Bool-cases (k == id)) [
  | inl h ↦
      rw (lookup-insert k id (append_to (lookup k m) pulls) m, h, lookup_same id k m h)
        (msgs-append_to (lookup k m) pulls)
  | inr h ↦
      rw (lookup-insert k id (append_to (lookup k m) pulls) m, h) (sym (append-nil (of_id id m)))
]

-- The first entry and the rest of a source do not meet.
pub of_id-first :
    (id k : String) (pulls : PullMsgs) (source : Map String PullMsgs)
    → contains (keys source) k ≡ false
    → (if k == id then pulls.msgs else []) ++ of_id id source ≡ of_id id ((k, pulls) ∷ source)
unfolding lookup
of_id-first id k pulls source fresh = elim (Bool-cases (k == id)) [
  | inl h ↦
      rw (h, lookup_same id k source h, lookup-none_of_contains k source fresh)
        (append-nil pulls.msgs)
  | inr h ↦ rw h
]

pub of_id-merge_pulls :
    (id : String) (source destination : Map String PullMsgs)
    → Distinct source
    → of_id id (merge_pulls source destination).0 ≡ of_id id destination ++ of_id id source
unfolding merge_pulls lookup
of_id-merge_pulls id [] destination d = sym (append-nil (of_id id destination))
of_id-merge_pulls id ((k, pulls) ∷ source) destination d =
    of_id-merge_pulls id source (merge_entry k pulls destination) d.1
    ∙ ap (λ x. x ++ of_id id source) (of_id-merge_entry id k pulls destination)
    ∙ append_assoc (of_id id destination) _ (of_id id source)
    ∙ ap (λ x. of_id id destination ++ x) (of_id-first id k pulls source d.0)

pub received-buffer :
    (kind : Bool) (id : String) (buffer : Option PushMessages)
    → of_id id (side kind (buffer_or_new buffer)) ≡ received kind id buffer
unfolding lookup
received-buffer true id none = refl
received-buffer false id none = refl
received-buffer kind id (some p) = refl

pub received-merge :
    (kind : Bool) (id : String) (batch : Option PushMessages) (b : MessageBatcher)
    → IsPush batch
    → received kind id (merge batch b).0.buffer
      ≡ received kind id b.buffer ++ received kind id batch
unfolding merge
received-merge kind id none b d = sym (append-nil (received kind id b.buffer))
received-merge true id (some batch) b d =
    of_id-merge_pulls id batch.msgs (buffer_or_new b.buffer).msgs d.0
    ∙ ap (λ x. x ++ of_id id batch.msgs) (received-buffer true id b.buffer)
received-merge false id (some batch) b d =
    of_id-merge_pulls id batch.notification_msgs (buffer_or_new b.buffer).notification_msgs d.1
    ∙ ap (λ x. x ++ of_id id batch.notification_msgs) (received-buffer false id b.buffer)
