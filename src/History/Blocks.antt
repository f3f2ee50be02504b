-- ===== src/History/Blocks.antt =====
-- The bounds of a block.
use openim_sdk_core.Prelude.{
  ℕ, ◌≤◌, ◌≡◌, ◌⊎◌, refl, ap, sym, subst, ◌∙◌, true, ◌||◌, List, [], ◌∷◌, ◌++◌, nat_eq, ◌==◌, arith,
  inl, inr, Bool-cases, ltb, if◌then◌else◌, contains,
}
use mathlib.Core.List.{append_assoc, append-nil}
use openim_sdk_core.History.{
  LocalChatLog, HaveSeqs, have_seq, have_seqs_from, get_max_and_min_have_seq_list,
}

-- The sequence numbers of the messages that have one.
unfoldable pub numbered : List LocalChatLog → List ℕ
numbered [] = []
numbered (msg ∷ rest) = let later = numbered rest in if msg.seq == 0 then later else msg.seq ∷ later

contains-append :
    (xs : List ℕ) (x j : ℕ) → contains (xs ++ (x ∷ [])) j ≡ (contains xs j || contains (x ∷ []) j)
contains-append [] x j = refl
contains-append (y ∷ xs) x j = ground (arith, contains-append xs x j)

-- The bounds are the least and greatest of the numbers, or 0 if there is none.
pub record Spans (h : HaveSeqs) : Type 0 where
  pub bounds : (j : ℕ) → contains h.seq_list j ≡ true → (1 ≤ j) × (h.min ≤ j) × (j ≤ h.max)
  pub attained :
      ((h.max ≡ 0) × (h.min ≡ 0) × (h.seq_list ≡ []))
      ⊎ ((contains h.seq_list h.max ≡ true) × (contains h.seq_list h.min ≡ true))

have_seq-none : (msg : LocalChatLog) (h : HaveSeqs) → msg.seq ≡ 0 → have_seq msg h ≡ h
unfolding have_seq
have_seq-none msg h e = rw e (ground arith)

have_seq-first :
    (msg : LocalChatLog) (h : HaveSeqs)
    → 1 ≤ msg.seq
    → h.max ≡ 0
    → h.min ≡ 0
    → have_seq msg h
      ≡ record { max = msg.seq; min = msg.seq; seq_list = h.seq_list ++ (msg.seq ∷ []) }
unfolding have_seq
have_seq-first msg h pos e e' = simp (e, e') (ground (arith, pos))

have_seq-more :
    (msg : LocalChatLog) (h : HaveSeqs)
    → 1 ≤ msg.seq
    → 1 ≤ h.min
    → have_seq msg h ≡ record {
      max = if ltb h.max msg.seq then msg.seq else h.max;
      min = if ltb msg.seq h.min then msg.seq else h.min;
      seq_list = h.seq_list ++ (msg.seq ∷ []);
    }
unfolding have_seq
have_seq-more msg h pos min_pos = ground (arith, pos, min_pos)

one-Spans : (seq : ℕ) → 1 ≤ seq → Spans (record { max = seq; min = seq; seq_list = seq ∷ [] })
one-Spans seq pos = record {
  bounds = λ j h. ground (arith, h, pos);
  attained = inr (ground arith, ground arith);
}

more-Spans :
    (seq : ℕ) (h : HaveSeqs)
    → 1 ≤ seq
    → Spans h
    → contains h.seq_list h.max ≡ true
    → contains h.seq_list h.min ≡ true
    → Spans (record {
      max = if ltb h.max seq then seq else h.max;
      min = if ltb seq h.min then seq else h.min;
      seq_list = h.seq_list ++ (seq ∷ []);
    })
more-Spans seq h pos s has_max has_min = record {
  bounds = λ j g. ground (arith, g, pos, contains-append h.seq_list seq j, s.bounds j);
  attained = inr (
    ground
        (arith, has_max, contains-append h.seq_list seq seq, contains-append h.seq_list seq h.max),
    ground
        (arith, has_min, contains-append h.seq_list seq seq, contains-append h.seq_list seq h.min),
  );
}

abbrev only : ℕ → List ℕ → HaveSeqs
only seq list = record { max = seq; min = seq; seq_list = list ++ (seq ∷ []) }

have_seq-numbered :
    (msg : LocalChatLog) (h : HaveSeqs)
    → 1 ≤ msg.seq
    → Spans h
    → ((h.max ≡ 0) × (h.min ≡ 0) × (h.seq_list ≡ []))
      ⊎ ((contains h.seq_list h.max ≡ true) × (contains h.seq_list h.min ≡ true))
    → Spans (have_seq msg h)
have_seq-numbered msg h pos s (inl (no_max, no_min, no_list)) =
    subst Spans (ap (only msg.seq) (sym no_list) ∙ sym (have_seq-first msg h pos no_max no_min))
      (one-Spans msg.seq pos)
have_seq-numbered msg h pos s (inr (has_max, has_min)) =
    subst Spans (sym (have_seq-more msg h pos (s.bounds h.min has_min).0))
      (more-Spans msg.seq h pos s has_max has_min)

have_seq-list :
    (msg : LocalChatLog) (h : HaveSeqs) (later : List ℕ)
    → (have_seq msg h).seq_list ++ later
      ≡ h.seq_list ++ (if msg.seq == 0 then later else msg.seq ∷ later)
unfolding have_seq
have_seq-list msg h later = elim (Bool-cases (msg.seq == 0)) [
  | inl none ↦ rw none
  | inr some ↦ rw some (append_assoc h.seq_list (msg.seq ∷ []) later)
]

have_seq-Spans : (msg : LocalChatLog) (h : HaveSeqs) → Spans h → Spans (have_seq msg h)
have_seq-Spans msg h s = elim (Bool-cases (msg.seq == 0)) [
  | inl none ↦ subst Spans (sym (have_seq-none msg h (ground (arith, none)))) s
  | inr some ↦ have_seq-numbered msg h (ground (arith, some)) s s.attained
]

have_seqs_from-Spans :
    (list : List LocalChatLog) (h : HaveSeqs)
    → Spans h
    → Spans (have_seqs_from list h)
      × ((have_seqs_from list h).seq_list ≡ h.seq_list ++ numbered list)
unfolding have_seqs_from numbered
have_seqs_from-Spans [] h s = (s, sym (append-nil h.seq_list))
have_seqs_from-Spans (msg ∷ rest) h s =
    let later = have_seqs_from-Spans rest (have_seq msg h) (have_seq-Spans msg h s) in
    (later.0, later.1 ∙ have_seq-list msg h (numbered rest))

-- `getMaxAndMinHaveSeqList` collects the sequence numbers of the messages that have one, in order,
-- and finds the greatest and the least of them, or 0 for both if there is none.
get_max_and_min_have_seq_list-Spans :
    (list : List LocalChatLog)
    → Spans (get_max_and_min_have_seq_list list)
      × ((get_max_and_min_have_seq_list list).seq_list ≡ numbered list)
unfolding get_max_and_min_have_seq_list
get_max_and_min_have_seq_list-Spans list =
    have_seqs_from-Spans list (record { max = 0; min = 0; seq_list = [] })
      (record { bounds = λ j h. ground (arith, h); attained = inl (refl, refl, refl) })
