-- ===== src/History/Lost.antt =====
-- The sequence numbers that a block lacks.
use openim_sdk_core.Prelude.{
  ℕ, zero, suc, ◌+◌, ◌-◌, ◌≤◌, ◌<◌, sym, ◌∙◌, ◌≡◌, ap, Bool, true, false, not, ◌&&◌, List, [], ◌∷◌,
  nat_eq, arith, inl, inr, Bool-cases, ltb, leb, if◌then◌else◌, length, take, drop, min, All,
  contains, length-take, length-drop,
}
use openim_sdk_core.History.{lost_from, trim, get_lost_seq_list_with_limit_length}

-- A number of the interval that is not at hand.
abbrev pub is_lost : ℕ → ℕ → List ℕ → ℕ → Bool
is_lost min_seq max_seq have i = leb min_seq i && leb i max_seq && not (contains have i)

pub contains-lost_from :
    (i count : ℕ) (have : List ℕ) (j : ℕ)
    → contains (lost_from i count have) j ≡ (leb i j && ltb j (i + count) && not (contains have j))
unfolding lost_from
contains-lost_from i zero have j = ground arith
contains-lost_from i (suc count) have j =
    ground (arith, contains-lost_from (i + 1) count have j, ap (contains have))

drop-contains : (n : ℕ) (xs : List ℕ) (j : ℕ) → contains (drop n xs) j ≡ true → contains xs j ≡ true
drop-contains zero xs j h = h
drop-contains (suc n) [] j h = h
drop-contains (suc n) (x ∷ xs) j h = ground (arith, h, drop-contains n xs j)

take-contains : (n : ℕ) (xs : List ℕ) (j : ℕ) → contains (take n xs) j ≡ true → contains xs j ≡ true
take-contains zero xs j h = ground (arith, h)
take-contains (suc n) [] j h = h
take-contains (suc n) (x ∷ xs) j h = ground (arith, h, take-contains n xs j)

trim-contains :
    (is_reverse : Bool) (xs : List ℕ) (j : ℕ)
    → contains (trim is_reverse xs) j ≡ true
    → contains xs j ≡ true
unfolding trim
trim-contains true xs j h = elim (Bool-cases (ltb 50 (length xs))) [
  | inl long ↦ take-contains 50 xs j (ground (arith, h, long))
  | inr short ↦ ground (arith, h, short)
]
trim-contains false xs j h = elim (Bool-cases (ltb 50 (length xs))) [
  | inl long ↦ drop-contains (length xs - 50) xs j (ground (arith, h, long))
  | inr short ↦ ground (arith, h, short)
]

length-take_over :
    (n : ℕ) (xs : List ℕ) → length (if ltb n (length xs) then take n xs else xs) ≡ min n (length xs)
length-take_over n xs = ground (arith, length-take n xs)

length-drop_over :
    (n : ℕ) (xs : List ℕ)
    → length (if ltb n (length xs) then drop (length xs - n) xs else xs) ≡ min n (length xs)
length-drop_over n xs = ground (arith, length-drop (length xs - n) xs)

pub length-trim :
    (is_reverse : Bool) (xs : List ℕ) → length (trim is_reverse xs) ≡ min 50 (length xs)
unfolding trim
length-trim true xs = length-take_over 50 xs
length-trim false xs = length-drop_over 50 xs

abbrev IsAscending : List ℕ → Type 0
IsAscending [] = Unit
IsAscending (x ∷ xs) = All (λ y. x < y) xs × IsAscending xs

All-contains : (x : ℕ) (xs : List ℕ) (i : ℕ) → All (λ y. x < y) xs → contains xs i ≡ true → x < i
All-contains x [] i all h = ground (arith, h)
All-contains x (y ∷ xs) i all h = ground (arith, h, all.0, All-contains x xs i all.1)

All-weaken : (x y : ℕ) (xs : List ℕ) → x ≤ y → All (λ z. y < z) xs → All (λ z. x < z) xs
All-weaken x y [] h all = tt
All-weaken x y (z ∷ xs) h all = (omega (arith, h, all.0), All-weaken x y xs h all.1)

lost_from_above :
    (i count : ℕ) (have : List ℕ) (below : ℕ)
    → below < i
    → All (λ y. below < y) (lost_from i count have) × IsAscending (lost_from i count have)
unfolding lost_from
lost_from_above i zero have below h = (tt, tt)
lost_from_above i (suc count) have below h =
    let rest = lost_from_above (i + 1) count have i (omega arith) in
    elim (Bool-cases (contains have i)) [
      | inl got ↦
          rw got
            (All-weaken below i (lost_from (i + 1) count have) (omega (arith, h)) rest.0, rest.1)
      | inr lost ↦
          rw lost
            ((h, All-weaken below i (lost_from (i + 1) count have) (omega (arith, h)) rest.0), rest)
    ]

lost_from-IsAscending : (i count : ℕ) (have : List ℕ) → IsAscending (lost_from i count have)
unfolding lost_from
lost_from-IsAscending i zero have = tt
lost_from-IsAscending i (suc count) have =
    let rest = lost_from_above (i + 1) count have i (omega arith) in
    elim (Bool-cases (contains have i)) [ inl got ↦ rw got rest.1 | inr lost ↦ rw lost rest ]

take_lower :
    (n : ℕ) (xs : List ℕ) (i j : ℕ)
    → IsAscending xs
    → contains (take n xs) j ≡ true
    → contains xs i ≡ true
    → i ≤ j
    → contains (take n xs) i ≡ true
take_lower zero xs i j asc h k le = ground (arith, h)
take_lower (suc n) [] i j asc h k le = k
take_lower (suc n) (x ∷ xs) i j asc h k le =
    ground (arith, h, k, le, take_lower n xs i j asc.1, All-contains x xs i asc.0)

drop_upper :
    (n : ℕ) (xs : List ℕ) (i j : ℕ)
    → IsAscending xs
    → contains (drop n xs) j ≡ true
    → contains xs i ≡ true
    → j ≤ i
    → contains (drop n xs) i ≡ true
drop_upper zero xs i j asc h k le = k
drop_upper (suc n) [] i j asc h k le = k
drop_upper (suc n) (x ∷ xs) i j asc h k le = ground (
  arith,
  h,
  k,
  le,
  drop_upper n xs i j asc.1 h,
  All-contains x xs j asc.0 (drop-contains n xs j h),
)

-- On the side of the block that the query comes from.
abbrev pub Nearer : Bool → ℕ → ℕ → Type 0
Nearer true i j = i ≤ j
Nearer false i j = j ≤ i

trim-Nearer :
    (is_reverse : Bool) (xs : List ℕ) (i j : ℕ)
    → IsAscending xs
    → contains (trim is_reverse xs) j ≡ true
    → contains xs i ≡ true
    → Nearer is_reverse i j
    → contains (trim is_reverse xs) i ≡ true
unfolding trim
trim-Nearer true xs i j asc h k le = elim (Bool-cases (ltb 50 (length xs))) [
  | inl long ↦ rw long (take_lower 50 xs i j asc (ground (arith, h, long)) k le)
  | inr short ↦ ground (arith, k, short)
]
trim-Nearer false xs i j asc h k le = elim (Bool-cases (ltb 50 (length xs))) [
  | inl long ↦ rw long (drop_upper (length xs - 50) xs i j asc (ground (arith, h, long)) k le)
  | inr short ↦ ground (arith, k, short)
]

trim_of_short : (is_reverse : Bool) (xs : List ℕ) → length xs < 50 → trim is_reverse xs ≡ xs
unfolding trim
trim_of_short is_reverse xs h = ground (arith, h)

contains-interval :
    (min_seq max_seq : ℕ) (have : List ℕ) (j : ℕ)
    → contains (lost_from min_seq (max_seq + 1 - min_seq) have) j ≡ is_lost min_seq max_seq have j
contains-interval min_seq max_seq have j =
    ground (arith, contains-lost_from min_seq (max_seq + 1 - min_seq) have j)

trim_short :
    (is_reverse : Bool) (xs : List ℕ) → length (trim is_reverse xs) < 50 → trim is_reverse xs ≡ xs
trim_short is_reverse xs h =
    trim_of_short is_reverse xs (ground (arith, h, length-trim is_reverse xs))

-- `getLostSeqListWithLimitLength` lists only numbers of the interval that are not at hand, at most 50
-- of them; a list of fewer than 50 has every one; and with a number it has every lost number before
-- it, in the direction of the query: the smaller ones if it is reversed, else the greater ones.
pub get_lost_seq_list_lem :
    (min_seq max_seq : ℕ) (have : List ℕ) (is_reverse : Bool) (i j : ℕ)
    → (contains (get_lost_seq_list_with_limit_length min_seq max_seq have is_reverse) j ≡ true
        → is_lost min_seq max_seq have j ≡ true)
      × (length (get_lost_seq_list_with_limit_length min_seq max_seq have is_reverse) ≤ 50)
      × (length (get_lost_seq_list_with_limit_length min_seq max_seq have is_reverse) < 50
          → contains (get_lost_seq_list_with_limit_length min_seq max_seq have is_reverse) j
            ≡ is_lost min_seq max_seq have j)
      × (contains (get_lost_seq_list_with_limit_length min_seq max_seq have is_reverse) j ≡ true
          → is_lost min_seq max_seq have i ≡ true
          → Nearer is_reverse i j
          → contains (get_lost_seq_list_with_limit_length min_seq max_seq have is_reverse) i ≡ true)
unfolding get_lost_seq_list_with_limit_length
get_lost_seq_list_lem min_seq max_seq have is_reverse i j =
    let all = lost_from min_seq (max_seq + 1 - min_seq) have in
    let lost = contains-interval min_seq max_seq have in
    (
      λ h. sym (lost j) ∙ trim-contains is_reverse all j h,
      ground (arith, length-trim is_reverse all),
      λ h. ap (λ x. contains x j) (trim_short is_reverse all h) ∙ lost j,
      λ h k near.
          trim-Nearer is_reverse all i j
            (lost_from-IsAscending min_seq (max_seq + 1 - min_seq) have) h (lost i ∙ k) near,
    )
