-- ===== src/Tests/History.antt =====
-- The continuity checks on small blocks.
use openim_sdk_core.Prelude.{ℕ, ◌≡◌, refl, true, false, List, [], ◌∷◌, nat_eq, arith, length, take}
use openim_sdk_core.Prelude.Outcome.{ok}
use openim_sdk_core.History.{
  LocalChatLog, LocalConversation, HistoryCallback, merge_sorted_arrays,
  get_lost_seq_list_with_limit_length, have_seq, have_seqs_from, get_conversation_min_seq,
  get_max_and_min_have_seq_list, check_end_block, lost_from, trim,
}
use openim_sdk_core.History.Merge.{IsInOrder, IsPart, merge_sorted_arrays-IsInOrder}
use openim_sdk_core.History.EndBlock.{EndsOrFetches, check_end_block-EndsOrFetches}

abbrev log : ℕ → LocalChatLog
log n = record { client_msg_id = "m"; seq = n; send_time = n; status = 2 }

abbrev newest_first : List LocalChatLog
newest_first = log 9 ∷ log 6 ∷ log 5 ∷ []

abbrev fetched : List LocalChatLog
fetched = log 8 ∷ log 7 ∷ []

abbrev callback : HistoryCallback
callback = record { is_end = false; err_code = 0; err_msg = "" }

abbrev conversation : LocalConversation
conversation = record { max_seq = 0; min_seq = 3 }

merge_run : merge_sorted_arrays newest_first fetched 4 true ≡ log 9 ∷ log 8 ∷ log 7 ∷ log 6 ∷ []
unfolding merge_sorted_arrays
merge_run = refl

lost_run : get_lost_seq_list_with_limit_length 5 9 (9 ∷ 6 ∷ 5 ∷ []) false ≡ 7 ∷ 8 ∷ []
unfolding get_lost_seq_list_with_limit_length lost_from trim
lost_run = refl

merge_sorted_arrays-IsInOrder_example :
    IsInOrder true (merge_sorted_arrays newest_first fetched 4 true)
    × IsPart (merge_sorted_arrays newest_first fetched 4 true) newest_first fetched
    × (length (merge_sorted_arrays newest_first fetched 4 true) ≡ 4)
    × (merge_sorted_arrays newest_first fetched 4 true
        ≡ take 4 (merge_sorted_arrays newest_first fetched 5 true))
merge_sorted_arrays-IsInOrder_example =
    merge_sorted_arrays-IsInOrder newest_first fetched 4 1 true
      ((refl, (refl, tt)), ((refl, tt), (tt, tt))) ((refl, tt), (tt, tt))

check_end_block-EndsOrFetches_example :
    EndsOrFetches 3 4 callback
      (check_end_block false 10 newest_first (ok conversation) 9 0 callback)
unfolding get_max_and_min_have_seq_list get_conversation_min_seq have_seqs_from have_seq
check_end_block-EndsOrFetches_example =
    check_end_block-EndsOrFetches false 10 newest_first (ok conversation) 9 0 callback (omega arith)
