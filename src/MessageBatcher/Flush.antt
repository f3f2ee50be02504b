-- ===== src/MessageBatcher/Flush.antt =====
-- A flush delivers what is buffered, in order.
use openim_sdk_core.Prelude.{
  ◌≡◌, nat_eq, refl, sym, subst, ◌∙◌, ap, Bool, true, false, List, [], ◌∷◌, ◌++◌, Option, none,
  some, String, string_eq, arith, inl, inr, Bool-cases,
}
use mathlib.Core.List.{append-nil}
use openim_sdk_core.Prelude.Map.{Map, lookup}
use openim_sdk_core.MsgSyncer.{PullMsgs}
use openim_sdk_core.MessageBatcher.{
  PushMessages, MessageBatcher, Context, dispatch, is_empty, consume, cancel_timer, flush,
}
use openim_sdk_core.MessageBatcher.Merge.{
  of_id, side, received, delivered, stream, delivered-append,
}

pub both_empty :
    (msgs notifs : Map String PullMsgs)
    → is_empty (record { msgs = msgs; notification_msgs = notifs }) ≡ true
    → (msgs ≡ []) × (notifs ≡ [])
both_empty [] [] h = (refl, refl)
both_empty [] (n ∷ notifs) h = ground (arith, h)
both_empty (m ∷ msgs) notifs h = ground (arith, h)

pub of_id-empty :
    (kind : Bool) (id : String) (p : PushMessages) → is_empty p ≡ true → of_id id (side kind p) ≡ []
unfolding lookup
of_id-empty true id p h = ap (of_id id) (both_empty p.msgs p.notification_msgs h).0
of_id-empty false id p h = ap (of_id id) (both_empty p.msgs p.notification_msgs h).1

pub delivered-dispatch :
    (kind : Bool) (id : String) (ctxs : List Context) (p : Option PushMessages) (b : MessageBatcher)
    → delivered kind id (dispatch true ctxs p b).handled
      ≡ delivered kind id b.handled ++ received kind id p
unfolding dispatch delivered
delivered-dispatch kind id ctxs none b = sym (append-nil _)
delivered-dispatch kind id ctxs (some p) b = elim (Bool-cases (is_empty p)) [
  | inl h ↦
      rw h
        (sym (ap (λ x. delivered kind id b.handled ++ x) (of_id-empty kind id p h) ∙ append-nil _))
  | inr h ↦
      rw (
        h,
        delivered-append kind id b.handled ((ctxs, p) ∷ []),
        append-nil (of_id id (side kind p)),
      )
]

-- What is left after everything is delivered: an empty buffer, and the handler and the count kept.
pub record IsFlush (kind : Bool) (id : String) (b b' : MessageBatcher) : Type 0 where
  pub delivers : delivered kind id b'.handled ≡ stream kind id b
  pub empties : b'.buffer ≡ none
  pub keeps_handler : b'.has_handler ≡ true
  pub keeps_total : b'.recent_total ≡ b.recent_total

pub dispatch_keeps :
    (handler : Bool) (ctxs : List Context) (o : Option PushMessages) (b : MessageBatcher)
    → ((dispatch handler ctxs o b).buffer ≡ b.buffer)
      × ((dispatch handler ctxs o b).has_handler ≡ b.has_handler)
      × ((dispatch handler ctxs o b).recent_total ≡ b.recent_total)
unfolding dispatch
dispatch_keeps handler ctxs none b = (refl, refl, refl)
dispatch_keeps false ctxs (some p) b = (refl, refl, refl)
dispatch_keeps true ctxs (some p) b = elim (Bool-cases (is_empty p)) [
  | inl h ↦ rw h (refl, refl, refl)
  | inr h ↦ rw h (refl, refl, refl)
]

-- A dispatch of what was buffered, `b` before and `c` after it is consumed.
pub IsFlush-some :
    (kind : Bool) (id : String) (ctxs : List Context) (p : PushMessages) (c b : MessageBatcher)
    → c.buffer ≡ none
    → c.has_handler ≡ true
    → c.recent_total ≡ b.recent_total
    → delivered kind id c.handled ++ of_id id (side kind p) ≡ stream kind id b
    → IsFlush kind id b (dispatch true ctxs (some p) c)
IsFlush-some kind id ctxs p c b none_left handler total split =
    let keeps = dispatch_keeps true ctxs (some p) c in
    record {
      delivers = delivered-dispatch kind id ctxs (some p) c ∙ split;
      empties = keeps.0 ∙ none_left;
      keeps_handler = keeps.1 ∙ handler;
      keeps_total = keeps.2 ∙ total;
    }

abbrev pub with_parts : Option PushMessages → Bool → MessageBatcher → MessageBatcher
with_parts buffer timer b = record b { buffer = buffer; flush_timer = timer; has_handler = true }

pub flush_parts :
    (kind : Bool) (id : String) (buffer : Option PushMessages) (timer : Bool) (b : MessageBatcher)
    → IsFlush kind id (with_parts buffer timer b) (flush (with_parts buffer timer b))
unfolding flush consume stream cancel_timer dispatch
flush_parts kind id none true b = record {
  delivers = sym (append-nil (delivered kind id b.handled));
  empties = refl;
  keeps_handler = refl;
  keeps_total = refl;
}
flush_parts kind id none false b = record {
  delivers = sym (append-nil (delivered kind id b.handled));
  empties = refl;
  keeps_handler = refl;
  keeps_total = refl;
}
flush_parts kind id (some p) true b =
    IsFlush-some kind id b.contexts p
      (record b {
        buffer = none;
        contexts = [];
        has_handler = true;
        flush_timer = false;
        next_flush_at = 0;
        first_buffered = 0;
      })
      (with_parts (some p) true b) refl refl refl refl
flush_parts kind id (some p) false b =
    IsFlush-some kind id b.contexts p
      (record b {
        buffer = none;
        contexts = [];
        has_handler = true;
        flush_timer = false;
        first_buffered = 0;
      })
      (with_parts (some p) false b) refl refl refl refl

pub flush-IsFlush :
    (kind : Bool) (id : String) (b : MessageBatcher)
    → b.has_handler ≡ true
    → IsFlush kind id b (flush b)
flush-IsFlush kind id b h =
    subst
      (λ x. IsFlush kind id (record b { has_handler = x }) (flush (record b { has_handler = x })))
      (sym h) (flush_parts kind id b.buffer b.flush_timer b)
