-- ===== src/History.antt =====
-- The continuity checks on blocks of message history:
-- internal/conversation_msg/message_check.go.
pub mod Exceptions
pub mod Lost
pub mod Blocks
pub mod EndBlock
pub mod Merge
pub mod Pullable
pub mod Pulled
use openim_sdk_core.Prelude.{
  ℕ, zero, suc, ◌+◌, ◌-◌, Bool, true, false, ◌&&◌, ◌||◌, not, List, [], ◌∷◌, ◌++◌, Option, none,
  some, String, string_eq, nat_eq, ◌==◌, ltb, leb, if◌then◌else◌, length, take, drop, contains,
}
use openim_sdk_core.Prelude.Outcome.{Result, ok, err}

-- The fields of `model_struct.LocalChatLog` that the checks read.
pub record LocalChatLog : Type 0 where
  pub client_msg_id : String
  pub seq : ℕ
  pub send_time : ℕ
  pub status : ℕ

-- The fields of `model_struct.LocalConversation` that they read and write.
pub record LocalConversation : Type 0 where
  pub max_seq : ℕ
  pub min_seq : ℕ

-- `sdk.GetAdvancedHistoryMessageListCallback`, without the messages.
pub record HistoryCallback : Type 0 where
  pub is_end : Bool
  pub err_code : ℕ
  pub err_msg : String

-- `max`, `min` and `seqList`, the named results.
pub record HaveSeqs : Type 0 where
  pub max : ℕ
  pub min : ℕ
  pub seq_list : List ℕ

abbrev pub pull_msg_num_for_read_diffusion : ℕ
pull_msg_num_for_read_diffusion = 50

-- The four tests on one message, in their order: each reads what the ones before have set.
unfoldable pub have_seq : LocalChatLog → HaveSeqs → HaveSeqs
have_seq msg h =
    let seqs = if msg.seq == 0 then h.seq_list else h.seq_list ++ (msg.seq ∷ []) in
    let first = not (msg.seq == 0) && h.min == 0 && h.max == 0 in
    let min = if first then msg.seq else h.min in
    let max = if first then msg.seq else h.max in
    record {
      max = if ltb max msg.seq then msg.seq else max;
      min = if ltb msg.seq min && not (msg.seq == 0) then msg.seq else min;
      seq_list = seqs;
    }

unfoldable pub have_seqs_from : List LocalChatLog → HaveSeqs → HaveSeqs
have_seqs_from [] h = h
have_seqs_from (msg ∷ rest) h = have_seqs_from rest (have_seq msg h)

unfoldable pub get_max_and_min_have_seq_list : List LocalChatLog → HaveSeqs
get_max_and_min_have_seq_list messages =
    have_seqs_from messages (record { max = 0; min = 0; seq_list = [] })

-- The loop from `i` on, of `count` rounds.
unfoldable pub lost_from : ℕ → ℕ → List ℕ → List ℕ
lost_from i zero have = []
lost_from i (suc count) have =
    let rest = lost_from (i + 1) count have in if contains have i then rest else i ∷ rest

unfoldable pub trim : Bool → List ℕ → List ℕ
trim is_reverse lost =
    if ltb pull_msg_num_for_read_diffusion (length lost)
    then (if is_reverse
        then take pull_msg_num_for_read_diffusion lost
        else drop (length lost - pull_msg_num_for_read_diffusion) lost)
    else lost

unfoldable pub get_lost_seq_list_with_limit_length : ℕ → ℕ → List ℕ → Bool → List ℕ
get_lost_seq_list_with_limit_length min_seq max_seq have is_reverse =
    trim is_reverse (lost_from min_seq (max_seq + 1 - min_seq) have)

-- A list to fetch, where the code calls `fetchAndMergeMissingMessages` with it.
abbrev pub to_fetch : List ℕ → Option (List ℕ)
to_fetch [] = none
to_fetch (seq ∷ lost) = some (seq ∷ lost)

-- The returned bound, and the sequence numbers to fetch inside the block.
unfoldable pub validate_and_fill_internal_gaps : Bool → List LocalChatLog → ℕ × Option (List ℕ)
validate_and_fill_internal_gaps is_reverse list =
    let h = get_max_and_min_have_seq_list list in
    let lost = to_fetch (get_lost_seq_list_with_limit_length h.min h.max h.seq_list is_reverse) in
    (
      if is_reverse then h.min else h.max,
      if not (h.max == 0) && not (h.min == 0) then lost else none,
    )

-- The sequence numbers to fetch between two blocks.
unfoldable pub validate_and_fill_inter_block_gaps : ℕ → Bool → ℕ → Option (List ℕ)
validate_and_fill_inter_block_gaps this_start_seq is_reverse last_end_seq =
    let is_lost_seq =
      if is_reverse
      then not (last_end_seq + 1 == this_start_seq)
      else not (this_start_seq + 1 == last_end_seq) in
    let start_seq = if is_reverse then last_end_seq + 1 else this_start_seq + 1 in
    let end_seq = if is_reverse then this_start_seq - 1 else last_end_seq - 1 in
    if is_lost_seq && not (last_end_seq == 0)
    then to_fetch (get_lost_seq_list_with_limit_length start_seq end_seq [] is_reverse)
    else none

-- The database's answer to `GetConversation`, and the recorder's number.
unfoldable pub get_conversation_max_seq : Result LocalConversation → ℕ → ℕ
get_conversation_max_seq (err e) recorded = recorded
get_conversation_max_seq (ok conversation) recorded =
    if conversation.max_seq == 0 then recorded else conversation.max_seq

unfoldable pub get_conversation_min_seq : Result LocalConversation → ℕ
get_conversation_min_seq (err e) = 1
get_conversation_min_seq (ok conversation) =
    if conversation.min_seq == 0 then 1 else conversation.min_seq

-- The rows that `UpdateConversation` writes, in order.
unfoldable pub set_conversation_min_seq :
    Bool → ℕ → Result LocalConversation → List LocalConversation
set_conversation_min_seq is_reverse end_seq (err e) = []
set_conversation_min_seq false end_seq (ok c) =
    (if c.min_seq == 0 || ltb c.min_seq end_seq then record c { min_seq = end_seq } else c) ∷ []
set_conversation_min_seq true end_seq (ok c) =
    if c.max_seq == 0 || ltb end_seq c.max_seq
    then record c { max_seq = end_seq } ∷ record c { max_seq = end_seq } ∷ []
    else c ∷ []

-- `checkEndBlock`: the callback after it, and the sequence numbers to fetch.
unfoldable pub end_or_fetch : Bool → List ℕ → HistoryCallback → HistoryCallback × Option (List ℕ)
end_or_fetch reached lost callback =
    if reached then (record callback { is_end = true }, none) else (callback, to_fetch lost)

unfoldable pub check_end_block :
    Bool
    → ℕ
    → List LocalChatLog
    → Result LocalConversation
    → ℕ
    → ℕ
    → HistoryCallback
    → HistoryCallback × Option (List ℕ)
check_end_block is_reverse count list conversation recorded last_end_seq callback =
    let h = get_max_and_min_have_seq_list list in
    let current_max_seq = get_conversation_max_seq conversation recorded in
    let user_can_pull_min_seq = get_conversation_min_seq conversation in
    if ltb (length list) count
    then (if is_reverse
        then end_or_fetch
            (leb current_max_seq h.max || (h.max == 0 && leb current_max_seq last_end_seq))
            (get_lost_seq_list_with_limit_length (h.max + 1) current_max_seq [] is_reverse) callback
        else end_or_fetch
            (leb h.min user_can_pull_min_seq
              || (h.min == 0 && leb last_end_seq user_can_pull_min_seq))
            (get_lost_seq_list_with_limit_length user_can_pull_min_seq (h.min - 1) [] is_reverse)
            callback)
    else (record callback { is_end = false }, none)

-- The loop of `errHandle`, which keeps the messages up to the first one at or below the number.
unfoldable pub keep_above : ℕ → List LocalChatLog → List LocalChatLog
keep_above need [] = []
keep_above need (log ∷ rest) =
    let kept = keep_above need rest in if log.seq == 0 || ltb need log.seq then log ∷ kept else []

abbrev last_of : ℕ → List ℕ → ℕ
last_of seq [] = seq
last_of seq (next ∷ rest) = last_of next rest

-- With no sequence number Go panics on the index; no caller does that.
unfoldable pub err_handle :
    List ℕ
    → List LocalChatLog
    → String
    → HistoryCallback
    → Option (List LocalChatLog × HistoryCallback)
err_handle [] list message callback = none
err_handle (seq ∷ seqs) list message callback =
    some (keep_above (last_of seq seqs) list, record callback { err_code = 100; err_msg = message })

-- The test of `mergeSortedArrays`: its first message goes before the second.
abbrev pub goes_first : Bool → LocalChatLog → LocalChatLog → Bool
goes_first true a b = ltb b.send_time a.send_time || (a.send_time == b.send_time && ltb b.seq a.seq)
goes_first false a b =
    ltb a.send_time b.send_time || (a.send_time == b.send_time && ltb a.seq b.seq)

-- The three loops: `n` counts what the result may still take.
unfoldable pub merge_sorted_arrays :
    List LocalChatLog → List LocalChatLog → ℕ → Bool → List LocalChatLog
merge_sorted_arrays arr1 arr2 zero is_descending = []
merge_sorted_arrays [] arr2 (suc n) is_descending = take (suc n) arr2
merge_sorted_arrays (x ∷ arr1) [] (suc n) is_descending = take (suc n) (x ∷ arr1)
merge_sorted_arrays (x ∷ arr1) (y ∷ arr2) (suc n) is_descending =
    let first = merge_sorted_arrays arr1 (y ∷ arr2) n is_descending in
    let second = merge_sorted_arrays (x ∷ arr1) arr2 n is_descending in
    if goes_first is_descending x y then x ∷ first else y ∷ second
