-- ===== src/History/Pullable.antt =====
-- The bounds of what can be pulled, and what is left of a block when a fetch fails.
use openim_sdk_core.Prelude.{
  ℕ, ◌≡◌, refl, ap, Bool, true, false, ◌||◌, List, [], ◌∷◌, ◌++◌, nat_eq, ◌==◌, arith, inl, inr,
  Bool-cases, ltb, if◌then◌else◌, All, min, max,
}
use openim_sdk_core.Prelude.Outcome.{ok}
use openim_sdk_core.History.{LocalChatLog, LocalConversation, set_conversation_min_seq, keep_above}

-- The narrower of an upper bound and a new one, where 0 is no bound.
abbrev pub narrower : ℕ → ℕ → ℕ
narrower old new = if old == 0 then new else min old new

raise_min :
    (end_seq : ℕ) (c : LocalConversation)
    → All
        (λ row. (row.min_seq ≡ max c.min_seq end_seq) × (row.max_seq ≡ c.max_seq))
        (set_conversation_min_seq false end_seq (ok c))
unfolding set_conversation_min_seq
raise_min end_seq c = elim (Bool-cases (c.min_seq == 0 || ltb c.min_seq end_seq)) [
  | inl higher ↦ rw higher ((ground (arith, higher), refl), tt)
  | inr kept ↦ rw kept ((ground (arith, kept), refl), tt)
]

lower_max :
    (end_seq : ℕ) (c : LocalConversation)
    → All
        (λ row. (row.max_seq ≡ narrower c.max_seq end_seq) × (row.min_seq ≡ c.min_seq))
        (set_conversation_min_seq true end_seq (ok c))
unfolding set_conversation_min_seq
lower_max end_seq c = elim (Bool-cases (c.max_seq == 0 || ltb end_seq c.max_seq)) [
  | inl lower ↦ rw lower ((ground (arith, lower), refl), ((ground (arith, lower), refl), tt))
  | inr kept ↦ rw kept ((ground (arith, kept), refl), tt)
]

-- `setConversationMinSeq` only narrows what can be pulled: every row it writes has the greater of the
-- old least number and the end that the server reports, and the old greatest number; or, for a
-- reversed query, the smaller of the old greatest number (0 is none) and the end, and the old least.
set_conversation_min_seq-narrows :
    (end_seq : ℕ) (c : LocalConversation)
    → All
        (λ row. (row.min_seq ≡ max c.min_seq end_seq) × (row.max_seq ≡ c.max_seq))
        (set_conversation_min_seq false end_seq (ok c))
      × All
          (λ row. (row.max_seq ≡ narrower c.max_seq end_seq) × (row.min_seq ≡ c.min_seq))
          (set_conversation_min_seq true end_seq (ok c))
set_conversation_min_seq-narrows end_seq c = (raise_min end_seq c, lower_max end_seq c)

-- A message that an error leaves in the list.
abbrev pub is_kept : ℕ → LocalChatLog → Bool
is_kept need log = log.seq == 0 || ltb need log.seq

-- The rest begins with a message that is not kept, or is empty.
abbrev pub StopsAt : ℕ → List LocalChatLog → Type 0
StopsAt need [] = Unit
StopsAt need (log ∷ rest) = is_kept need log ≡ false

-- When a fetch fails the list is cut: what is left is its longest front of messages that are local
-- or above the last number asked for.
keep_above-front :
    (need : ℕ) (list : List LocalChatLog)
    → (rest : List LocalChatLog) × (list ≡ keep_above need list ++ rest)
      × All (λ log. is_kept need log ≡ true) (keep_above need list)
      × StopsAt need rest
unfolding keep_above
keep_above-front need [] = ([], refl, tt, tt)
keep_above-front need (log ∷ list) = elim (Bool-cases (is_kept need log)) [
  | inl kept ↦
      let (rest, split, all, stops) = keep_above-front need list in
      rw kept (rest, ap (λ xs. log ∷ xs) split, (kept, all), stops)
  | inr cut ↦ rw cut (log ∷ list, refl, tt, cut)
]
