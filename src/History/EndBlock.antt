-- ===== src/History/EndBlock.antt =====
-- The end of the history: a short block is either the end or is fetched further.
use openim_sdk_core.Prelude.{
  ℕ, zero, suc, ◌+◌, ◌-◌, ◌≤◌, ◌<◌, ◌≡◌, refl, ap, ◌∙◌, Bool, true, false, ◌&&◌, List, [], ◌∷◌,
  Option, none, some, nat_eq, arith, ltb, leb, contains, length, min,
}
use openim_sdk_core.Prelude.Outcome.{Result}
use openim_sdk_core.History.{
  LocalChatLog, LocalConversation, HistoryCallback, to_fetch, end_or_fetch, check_end_block,
  lost_from, get_lost_seq_list_with_limit_length, get_max_and_min_have_seq_list,
  get_conversation_max_seq, get_conversation_min_seq,
}
use openim_sdk_core.History.Lost.{length-trim, get_lost_seq_list_lem}

length-lost_from : (i count : ℕ) → length (lost_from i count []) ≡ count
unfolding lost_from
length-lost_from i zero = refl
length-lost_from i (suc count) = omega (arith, length-lost_from (i + 1) count)

length-lost :
    (lo hi : ℕ) (is_reverse : Bool)
    → length (get_lost_seq_list_with_limit_length lo hi [] is_reverse) ≡ min 50 (hi + 1 - lo)
unfolding get_lost_seq_list_with_limit_length
length-lost lo hi is_reverse =
    length-trim is_reverse (lost_from lo (hi + 1 - lo) [])
    ∙ ap (min 50) (length-lost_from lo (hi + 1 - lo))

-- Either the callback says that this is the end and nothing is fetched, or the callback is as it was
-- and between 1 and 50 numbers of the interval are fetched.
abbrev pub EndsOrFetches : ℕ → ℕ → HistoryCallback → HistoryCallback × Option (List ℕ) → Type 0
EndsOrFetches lo hi callback (after, none) = after.is_end ≡ true
EndsOrFetches lo hi callback (after, some seqs) =
    (after ≡ callback)
    × (1 ≤ length seqs)
    × (length seqs ≤ 50)
    × ((j : ℕ) → contains seqs j ≡ true → (leb lo j && leb j hi) ≡ true)

to_fetch-EndsOrFetches :
    (lo hi : ℕ) (callback : HistoryCallback) (seqs : List ℕ)
    → 1 ≤ length seqs
    → length seqs ≤ 50
    → ((j : ℕ) → contains seqs j ≡ true → (leb lo j && leb j hi) ≡ true)
    → EndsOrFetches lo hi callback (callback, to_fetch seqs)
to_fetch-EndsOrFetches lo hi callback [] h k inside = ground (arith, h)
to_fetch-EndsOrFetches lo hi callback (seq ∷ seqs) h k inside = (refl, h, k, inside)

end_or_fetch-EndsOrFetches :
    (lo hi : ℕ) (is_reverse reached : Bool) (callback : HistoryCallback)
    → (reached ≡ false → lo ≤ hi)
    → EndsOrFetches lo hi callback
        (end_or_fetch reached (get_lost_seq_list_with_limit_length lo hi [] is_reverse) callback)
unfolding end_or_fetch
end_or_fetch-EndsOrFetches lo hi is_reverse true callback h = refl
end_or_fetch-EndsOrFetches lo hi is_reverse false callback h =
    to_fetch-EndsOrFetches lo hi callback (get_lost_seq_list_with_limit_length lo hi [] is_reverse)
      (omega (arith, length-lost lo hi is_reverse, h refl))
      (omega (arith, length-lost lo hi is_reverse))
      (λ j g. ground (arith, (get_lost_seq_list_lem lo hi [] is_reverse j j).0 g))

short_true : (a b : ℕ) → a < b → ltb a b ≡ true
short_true a b h = ground (arith, h)

-- The numbers that may be fetched beyond a short block: up to the greatest one, or down to the least
-- one that the user can pull.
abbrev pub beyond : Bool → List LocalChatLog → Result LocalConversation → ℕ → ℕ × ℕ
beyond true list conversation recorded =
    ((get_max_and_min_have_seq_list list).max + 1, get_conversation_max_seq conversation recorded)
beyond false list conversation recorded =
    (get_conversation_min_seq conversation, (get_max_and_min_have_seq_list list).min - 1)

-- A block with fewer messages than asked for never ends a query silently: `checkEndBlock` either sets
-- `IsEnd` and fetches nothing, or leaves the callback alone and asks for between 1 and 50 numbers,
-- all beyond the block and within what the user can pull.
pub check_end_block-EndsOrFetches :
    (is_reverse : Bool) (count : ℕ) (list : List LocalChatLog)
    (conversation : Result LocalConversation) (recorded last_end_seq : ℕ)
    (callback : HistoryCallback)
    → length list < count
    → EndsOrFetches
        (beyond is_reverse list conversation recorded).0
        (beyond is_reverse list conversation recorded).1
        callback
        (check_end_block is_reverse count list conversation recorded last_end_seq callback)
unfolding check_end_block
check_end_block-EndsOrFetches true count list conversation recorded last_end_seq callback short =
    let short' = short_true (length list) count short in
    rw short' (
      end_or_fetch-EndsOrFetches ((get_max_and_min_have_seq_list list).max + 1)
        (get_conversation_max_seq conversation recorded) true _ callback (λ h. ground (arith, h)))
check_end_block-EndsOrFetches false count list conversation recorded last_end_seq callback short =
    let short' = short_true (length list) count short in
    rw short' (
      end_or_fetch-EndsOrFetches (get_conversation_min_seq conversation)
        ((get_max_and_min_have_seq_list list).min - 1) false _ callback (λ h. ground (arith, h)))
