-- ===== src/NewMessages/Differing.antt =====
-- The conversations that `doMsgNew` changes: internal/conversation_msg/conversation_msg.go.
use openim_sdk_core.Prelude.{
  ◌+◌, ◌≡◌, refl, sym, ap, subst, ◌∙◌, List, [], ◌∷◌, Option, none, some, String, string_eq, nat_eq,
  ◌==◌, if◌then◌else◌, if_both, All, inl, inr, Bool-cases, arith, map,
}
use openim_sdk_core.Prelude.Map.{Map, lookup, lookup-insert, beq_self, lookup-none_of_contains}
use openim_sdk_core.History.{LocalChatLog}
use openim_sdk_core.History.Pulled.{slice_to_map}
use openim_sdk_core.NewMessages.{Incoming, LocalConversation, or_zero, merged}
use openim_sdk_core.NewMessages.Loop.{Content, Gathered}
use openim_sdk_core.NewMessages.Joined.{unread_or, unread_at, seq_at, IsKeyed, Counts}
use openim_sdk_core.NewMessages.Counted.{IsUpdating, parse_messages-Counts}
use openim_sdk_core.NewMessages.Stored.{Parsed, diff_one, diff_loop, parse_conversation, parse_all}

-- Whichever conversation a step is on.
Counts-total :
    (id k : String) (g g' : Gathered)
    → Counts k g g'
    → unread_at id g' + seq_at id g ≡ unread_at id g + seq_at id g'
Counts-total id k g g' (total, others, keyed) = elim (Bool-cases (k == id)) [
  | inl same ↦
      subst (λ j. unread_at j g' + seq_at j g ≡ unread_at j g + seq_at j g')
        ((string_eq.beq_iff k id).0 same) total
  | inr apart ↦ let (cs, seqs) = others id apart in omega (arith, ap unread_or cs, ap or_zero seqs)
]

pub parse_all-Counts :
    (content : Content) (user : String) (in_db : String → List String → List LocalChatLog)
    (all : Map String (List Incoming)) (p : Parsed) (id : String)
    → All (λ (batch : String × List Incoming). All IsUpdating batch.1) all
    → IsKeyed p.gathered.conversation_set
    → let q = parse_all content user in_db all p in
      (unread_at id q.gathered + seq_at id p.gathered
        ≡ unread_at id p.gathered + seq_at id q.gathered)
      × IsKeyed q.gathered.conversation_set
unfolding parse_all
parse_all-Counts content user in_db [] p id updating keyed = (refl, keyed)
parse_all-Counts content user in_db ((k, vs) ∷ all) p id updating keyed =
    let q = parse_conversation content user in_db k vs p in
    let ids = map (λ (v : Incoming). v.client_msg_id) vs in
    let step : Counts k p.gathered q.gathered =
      parse_messages-Counts content user k (slice_to_map (in_db k ids) []) vs
        (record {
          insert_message = [];
          self_insert_message = [];
          others_insert_message = [];
          update_message = [];
          all = p.gathered;
        })
        updating.0 in
    let (total, keyed') = parse_all-Counts content user in_db all q id updating.1 (step.2 keyed) in
    let first = Counts-total id k p.gathered q.gathered step in
    (omega (arith, total, first), keyed')

-- What `diff` makes of a conversation, generated and in the table.
abbrev pub changed_at :
    Option LocalConversation
    → Option LocalConversation
    → Option LocalConversation
    → Option LocalConversation
changed_at none local old = old
changed_at (some v) none old = old
changed_at (some v) (some local) old = some (merged v local)

diff_one-lookup :
    (o : Option LocalConversation) (v : LocalConversation) (cc : Map String LocalConversation)
    (news : List LocalConversation) (id : String)
    → lookup id (diff_one o v (cc, news)).0
      ≡ (if v.conversation_id == id then changed_at (some v) o (lookup id cc) else lookup id cc)
diff_one-lookup none v cc news id =
    if_both (λ r. lookup id cc ≡ r) (v.conversation_id == id) (lookup id cc) (lookup id cc) refl
      refl
diff_one-lookup (some local) v cc news id = lookup-insert v.conversation_id id (merged v local) cc

-- The first entry and the others.
IsKeyed-first :
    (k : String) (v : LocalConversation) (generated : Map String LocalConversation)
    → IsKeyed ((k, v) ∷ generated)
    → (v.conversation_id ≡ k) × IsKeyed generated × (lookup k generated ≡ none)
unfolding lookup
IsKeyed-first k v generated (distinct, own) =
    let absent = lookup-none_of_contains k generated distinct.0 in
    (
      own k v (rw (beq_self k) refl),
      (
        distinct.1,
        λ id c h. elim (Bool-cases (k == id)) [
          | inl same ↦ let one : k ≡ id = (string_eq.beq_iff k id).0 same in absurd (cc)
          | inr apart ↦ own id c (rw apart h)
        ],
      ),
      absent,
    )

first-lookup :
    (k id : String) (v : LocalConversation) (generated : Map String LocalConversation)
    → lookup id ((k, v) ∷ generated) ≡ (if k == id then some v else lookup id generated)
unfolding lookup
first-lookup k id v generated = refl

pub nothing-lookup : (id : String) → lookup {V = LocalConversation} id [] ≡ none
unfolding lookup
nothing-lookup id = refl

pub diff_loop-lookup :
    (local generated : Map String LocalConversation) (cc : Map String LocalConversation)
    (news : List LocalConversation) (id : String)
    → IsKeyed generated
    → lookup id (diff_loop local generated (cc, news)).0
      ≡ changed_at (lookup id generated) (lookup id local) (lookup id cc)
unfolding diff_loop
diff_loop-lookup local [] cc news id keyed =
    sym (ap (λ o. changed_at o (lookup id local) (lookup id cc)) (nothing-lookup id))
diff_loop-lookup local ((k, v) ∷ generated) cc news id keyed =
    let (own, keyed', absent) = IsKeyed-first k v generated keyed in
    let acc = diff_one (lookup v.conversation_id local) v (cc, news) in
    let rest = diff_loop-lookup local generated acc.0 acc.1 id keyed' in
    let here = diff_one-lookup (lookup v.conversation_id local) v cc news id in
    let test : v.conversation_id == id ≡ k == id = ap (λ j. j == id) own in
    elim (Bool-cases (k == id)) [
      | inl same ↦
          let one : k ≡ id = (string_eq.beq_iff k id).0 same in
          rest
          ∙ ap (λ o. changed_at o (lookup id local) (lookup id acc.0))
              (ap (λ j. lookup j generated) (sym one) ∙ absent)
          ∙ here
          ∙ ap
              (λ b.
                if b
                then changed_at (some v) (lookup v.conversation_id local) (lookup id cc)
                else lookup id cc)
              (test ∙ same)
          ∙ ap (λ j. changed_at (some v) (lookup j local) (lookup id cc)) (own ∙ one)
          ∙ ap (λ o. changed_at o (lookup id local) (lookup id cc))
              (sym (
                first-lookup k id v generated
                ∙ ap (λ b. if b then some v else lookup id generated) same))
      | inr apart ↦
          rest
          ∙ ap (changed_at (lookup id generated) (lookup id local)) (
              here
              ∙ ap
                  (λ b.
                    if b
                    then changed_at (some v) (lookup v.conversation_id local) (lookup id cc)
                    else lookup id cc)
                  (test ∙ apart))
          ∙ ap (λ o. changed_at o (lookup id local) (lookup id cc))
              (sym (
                first-lookup k id v generated
                ∙ ap (λ b. if b then some v else lookup id generated) apart))
    ]
