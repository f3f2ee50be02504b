-- ===== src/History/Merge.antt =====
-- The merge of local and fetched messages.
use openim_sdk_core.Prelude.{
  ℕ, zero, suc, ◌+◌, ◌≡◌, refl, ap, sym, Bool, true, false, List, [], ◌∷◌, nat_eq, arith, inl, inr,
  Bool-cases, length, take, min, All, length-take, subst, ◌∙◌, ◌++◌, Perm, drop, take-append-drop,
}
use mathlib.Core.List.Perm
use mathlib.Core.List.{append-nil, perm_middle}
use native.Mathlib.Nat.{suc-add}
use openim_sdk_core.History.{LocalChatLog, goes_first, merge_sorted_arrays}

-- No message stands before one that must go before it.
abbrev pub IsInOrder : Bool → List LocalChatLog → Type 0
IsInOrder desc [] = Unit
IsInOrder desc (x ∷ xs) = All (λ y. goes_first desc y x ≡ false) xs × IsInOrder desc xs

take-All :
    (P : LocalChatLog → Type 0) (n : ℕ) (xs : List LocalChatLog) → All P xs → All P (take n xs)
take-All P zero xs h = tt
take-All P (suc n) [] h = tt
take-All P (suc n) (x ∷ xs) h = (h.0, take-All P n xs h.1)

take-IsInOrder :
    (desc : Bool) (n : ℕ) (xs : List LocalChatLog) → IsInOrder desc xs → IsInOrder desc (take n xs)
take-IsInOrder desc zero xs h = tt
take-IsInOrder desc (suc n) [] h = tt
take-IsInOrder desc (suc n) (x ∷ xs) h = (take-All _ n xs h.0, take-IsInOrder desc n xs h.1)

-- What holds of every message of both lists holds of the merged ones.
merge-All :
    (P : LocalChatLog → Type 0) (xs ys : List LocalChatLog) (n : ℕ) (desc : Bool)
    → All P xs
    → All P ys
    → All P (merge_sorted_arrays xs ys n desc)
unfolding merge_sorted_arrays
merge-All P xs ys zero desc h k = tt
merge-All P [] ys (suc n) desc h k = take-All P (suc n) ys k
merge-All P (x ∷ xs) [] (suc n) desc h k = take-All P (suc n) (x ∷ xs) h
merge-All P (x ∷ xs) (y ∷ ys) (suc n) desc h k = elim (Bool-cases (goes_first desc x y)) [
  | inl first ↦ rw first (h.0, merge-All P xs (y ∷ ys) n desc h.1 k)
  | inr second ↦ rw second (k.0, merge-All P (x ∷ xs) ys n desc h k.1)
]

goes_first-asymm :
    (desc : Bool) (x y : LocalChatLog) → goes_first desc x y ≡ true → goes_first desc y x ≡ false
goes_first-asymm true x y h = ground (arith, h)
goes_first-asymm false x y h = ground (arith, h)

goes_first_trans :
    (desc : Bool) (x y z : LocalChatLog)
    → goes_first desc y x ≡ false
    → goes_first desc z y ≡ false
    → goes_first desc z x ≡ false
goes_first_trans true x y z h k = ground (arith, h, k)
goes_first_trans false x y z h k = ground (arith, h, k)

All-trans :
    (desc : Bool) (x y : LocalChatLog) (ys : List LocalChatLog)
    → goes_first desc y x ≡ false
    → All (λ z. goes_first desc z y ≡ false) ys
    → All (λ z. goes_first desc z x ≡ false) ys
All-trans desc x y [] h k = tt
All-trans desc x y (z ∷ ys) h k = (goes_first_trans desc x y z h k.0, All-trans desc x y ys h k.1)

merge-IsInOrder :
    (xs ys : List LocalChatLog) (n : ℕ) (desc : Bool)
    → IsInOrder desc xs
    → IsInOrder desc ys
    → IsInOrder desc (merge_sorted_arrays xs ys n desc)
unfolding merge_sorted_arrays
merge-IsInOrder xs ys zero desc h k = tt
merge-IsInOrder [] ys (suc n) desc h k = take-IsInOrder desc (suc n) ys k
merge-IsInOrder (x ∷ xs) [] (suc n) desc h k = take-IsInOrder desc (suc n) (x ∷ xs) h
merge-IsInOrder (x ∷ xs) (y ∷ ys) (suc n) desc h k = elim (Bool-cases (goes_first desc x y)) [
  | inl first ↦
      let before = goes_first-asymm desc x y first in
      rw first (
        merge-All _ xs (y ∷ ys) n desc h.0 (before, All-trans desc x y ys before k.0),
        merge-IsInOrder xs (y ∷ ys) n desc h.1 k,
      )
  | inr second ↦ rw second (
    merge-All _ (x ∷ xs) ys n desc (second, All-trans desc y x xs second h.0) k.0,
    merge-IsInOrder (x ∷ xs) ys n desc h k.1,
  )
]

length-merge :
    (xs ys : List LocalChatLog) (n : ℕ) (desc : Bool)
    → length (merge_sorted_arrays xs ys n desc) ≡ min n (length xs + length ys)
unfolding merge_sorted_arrays
length-merge xs ys zero desc = ground arith
length-merge [] ys (suc n) desc = ground (arith, length-take (suc n) ys)
length-merge (x ∷ xs) [] (suc n) desc = ground (arith, length-take (suc n) (x ∷ xs))
length-merge (x ∷ xs) (y ∷ ys) (suc n) desc =
    ground (arith, length-merge xs (y ∷ ys) n desc, length-merge (x ∷ xs) ys n desc)

take-take : (n more : ℕ) (xs : List LocalChatLog) → take n xs ≡ take n (take (n + more) xs)
take-take zero more xs = refl
take-take (suc n) more [] = rw (suc-add n more)
take-take (suc n) more (x ∷ xs) = rw (suc-add n more) (ap (λ r. x ∷ r) (take-take n more xs))

-- A merge cut at `n` messages is the front of any longer one.
merge-prefix :
    (xs ys : List LocalChatLog) (n more : ℕ) (desc : Bool)
    → merge_sorted_arrays xs ys n desc ≡ take n (merge_sorted_arrays xs ys (n + more) desc)
unfolding merge_sorted_arrays
merge-prefix xs ys zero more desc = refl
merge-prefix [] ys (suc n) more desc =
    rw (suc-add n more) (rw (sym (suc-add n more)) (take-take (suc n) more ys))
merge-prefix (x ∷ xs) [] (suc n) more desc =
    rw (suc-add n more) (ap (λ r. x ∷ r) (take-take n more xs))
merge-prefix (x ∷ xs) (y ∷ ys) (suc n) more desc = elim (Bool-cases (goes_first desc x y)) [
  | inl first ↦ rw (suc-add n more, first) (ap (λ r. x ∷ r) (merge-prefix xs (y ∷ ys) n more desc))
  | inr second ↦
      rw (suc-add n more, second) (ap (λ r. y ∷ r) (merge-prefix (x ∷ xs) ys n more desc))
]

-- A part of a list that is moved to its front.
middle-Perm :
    (y : LocalChatLog) (all xs ys : List LocalChatLog)
    → Perm all (xs ++ ys)
    → Perm (y ∷ all) (xs ++ (y ∷ ys))
middle-Perm y all xs ys same = Perm.trans (Perm.cons y same) (Perm.symm (perm_middle xs ys))

-- The list's messages are some of the two lists', each as often, and there is no other in it.
abbrev pub IsPart : List LocalChatLog → List LocalChatLog → List LocalChatLog → Type 0
IsPart list xs ys = (rest : List LocalChatLog) × Perm (list ++ rest) (xs ++ ys)

whole-Perm : (xs ys : List LocalChatLog) → xs ≡ ys → Perm xs ys
whole-Perm xs ys e = subst (Perm xs) e (Perm.refl xs)

merge-IsPart :
    (xs ys : List LocalChatLog) (n : ℕ) (desc : Bool)
    → IsPart (merge_sorted_arrays xs ys n desc) xs ys
unfolding merge_sorted_arrays
merge-IsPart xs ys zero desc = (xs ++ ys, Perm.refl (xs ++ ys))
merge-IsPart [] ys (suc n) desc = (drop (suc n) ys, whole-Perm _ _ (take-append-drop (suc n) ys))
merge-IsPart (x ∷ xs) [] (suc n) desc =
    (drop n xs, whole-Perm _ _ (take-append-drop (suc n) (x ∷ xs) ∙ sym (append-nil (x ∷ xs))))
merge-IsPart (x ∷ xs) (y ∷ ys) (suc n) desc = elim (Bool-cases (goes_first desc x y)) [
  | inl first ↦
      let (rest, same) = merge-IsPart xs (y ∷ ys) n desc in rw first (rest, Perm.cons x same)
  | inr second ↦
      let (rest, same) = merge-IsPart (x ∷ xs) ys n desc in
      rw second (rest, middle-Perm y _ (x ∷ xs) ys same)
]

-- For two lists in the order of the query, `mergeSortedArrays` gives their messages in that order:
-- with those that are cut off, just the messages of both lists, each as often as in them; no more
-- than asked for and no fewer than there are; and the messages of a shorter merge are the first
-- ones of every longer merge, so that what is cut off stands after what is kept.
pub merge_sorted_arrays-IsInOrder :
    (xs ys : List LocalChatLog) (n more : ℕ) (desc : Bool)
    → IsInOrder desc xs
    → IsInOrder desc ys
    → IsInOrder desc (merge_sorted_arrays xs ys n desc)
      × IsPart (merge_sorted_arrays xs ys n desc) xs ys
      × (length (merge_sorted_arrays xs ys n desc) ≡ min n (length xs + length ys))
      × (merge_sorted_arrays xs ys n desc ≡ take n (merge_sorted_arrays xs ys (n + more) desc))
merge_sorted_arrays-IsInOrder xs ys n more desc h k = (
  merge-IsInOrder xs ys n desc h k,
  merge-IsPart xs ys n desc,
  length-merge xs ys n desc,
  merge-prefix xs ys n more desc,
)
