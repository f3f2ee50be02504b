-- ===== src/Bitmap/Indices.antt =====
-- `Set`, `Clear` and `Get` of internal/third/file/bitmap.go, by indices.
use openim_sdk_core.Prelude.{
  ℕ, zero, suc, ◌+◌, ◌/◌, ◌%◌, ◌^◌, ◌<◌, ◌≡◌, refl, sym, ap, ◌∙◌, Bool, true, false, not, ◌&&◌,
  ◌||◌, List, [], ◌∷◌, Option, none, some, nat_eq, ◌==◌, ltb, if◌then◌else◌, length, get_or, set,
  All, Bool-cases, inl, inr, arith,
}
use openim_sdk_core.Bitmap.{
  Bitmap, test_bit, or_bit, and_not_bit, set_index, clear_index, get_index,
}
use openim_sdk_core.Bitmap.Bits.{
  test_bit-or_bit, test_bit-and_not_bit, or_bit-bound, and_not_bit-bound,
}

-- Enough words of 64 bits.
abbrev pub IsBitmap : Bitmap → Type 0
IsBitmap b = (length b.data_words ≡ (b.size + 63) / 64) × All (λ w. w < 2 ^ 64) b.data_words

length-set : (ws : List ℕ) (k v : ℕ) → length (set ws k v) ≡ length ws
length-set [] k v = refl
length-set (w ∷ ws) zero v = refl
length-set (w ∷ ws) (suc k) v = ap suc (length-set ws k v)

get_or-set :
    (ws : List ℕ) (k j v : ℕ)
    → k < length ws
    → get_or (set ws k v) j 0 ≡ (if k == j then v else get_or ws j 0)
get_or-set [] k j v lt = absurd (omega arith)
get_or-set (w ∷ ws) zero zero v lt = refl
get_or-set (w ∷ ws) zero (suc j) v lt = ground arith
get_or-set (w ∷ ws) (suc k) zero v lt = ground arith
get_or-set (w ∷ ws) (suc k) (suc j) v lt = ground (arith, get_or-set ws k j v (omega arith))

set-All :
    (ws : List ℕ) (k v : ℕ)
    → All (λ w. w < 2 ^ 64) ws
    → v < 2 ^ 64
    → All (λ w. w < 2 ^ 64) (set ws k v)
set-All [] k v all small = tt
set-All (w ∷ ws) zero v all small = (small, all.1)
set-All (w ∷ ws) (suc k) v all small = (all.0, set-All ws k v all.1 small)

get_or-All : (ws : List ℕ) (k : ℕ) → All (λ w. w < 2 ^ 64) ws → get_or ws k 0 < 2 ^ 64
get_or-All [] k all = omega arith
get_or-All (w ∷ ws) zero all = all.0
get_or-All (w ∷ ws) (suc k) all = get_or-All ws k all.1

-- What is read at an index, when the value `v` was written at the same one or at another.
abbrev pub written : Bool → Bool → Option Bool → Option Bool
written same v none = none
written same v (some old) = some (if same then v else old)

-- Writing `v` at `i`: it succeeds, and only what is read at `i` changes.
abbrev pub Writes : ℕ → Bool → Bitmap → Option Bitmap → Type 0
Writes i v b r =
    (b' : Bitmap) × (r ≡ some b')
    × IsBitmap b'
    × (b'.size ≡ b.size)
    × ((j : ℕ) → get_index j b' ≡ written (i == j) v (get_index j b))

same_index : (i j : ℕ) → i / 64 == j / 64 ≡ true → i % 64 == j % 64 ≡ i == j
same_index i j same = ground arith

other_index : (i j : ℕ) → i / 64 == j / 64 ≡ false → i == j ≡ false
other_index i j apart = ground arith

read_back :
    (op : ℕ → ℕ → ℕ) (v : Bool) (i j : ℕ) (ws : List ℕ)
    → ((k j w : ℕ) → test_bit (op w k) j ≡ (if k == j then v else test_bit w j))
    → i / 64 < length ws
    → test_bit (get_or (set ws (i / 64) (op (get_or ws (i / 64) 0) (i % 64))) (j / 64) 0) (j % 64)
      ≡ (if i == j then v else test_bit (get_or ws (j / 64) 0) (j % 64))
read_back op v i j ws bits inside =
    let word = get_or ws (i / 64) 0 in
    let new = op word (i % 64) in
    let found = get_or-set ws (i / 64) (j / 64) new inside in
    elim (Bool-cases (i / 64 == j / 64)) [
      | inl same ↦
          let one_word : i / 64 ≡ j / 64 = ground arith in
          ap (λ w. test_bit w (j % 64))
            (found ∙ ap (λ b. if b then new else get_or ws (j / 64) 0) same)
          ∙ bits (i % 64) (j % 64) word
          ∙ ap (λ b. if b then v else test_bit word (j % 64)) (same_index i j same)
          ∙ ap (λ k. if i == j then v else test_bit (get_or ws k 0) (j % 64)) one_word
      | inr apart ↦
          ap (λ w. test_bit w (j % 64))
            (found ∙ ap (λ b. if b then new else get_or ws (j / 64) 0) apart)
          ∙ sym (
              ap (λ b. if b then v else test_bit (get_or ws (j / 64) 0) (j % 64))
                (other_index i j apart))
    ]

change-Writes :
    (op : ℕ → ℕ → ℕ) (v : Bool) (i : ℕ) (b : Bitmap)
    → ((k w : ℕ) → k < 64 → w < 2 ^ 64 → op w k < 2 ^ 64)
    → ((k j w : ℕ) → test_bit (op w k) j ≡ (if k == j then v else test_bit w j))
    → IsBitmap b
    → i < b.size
    → Writes i v b (
        some (record b {
          data_words = set b.data_words (i / 64) (op (get_or b.data_words (i / 64) 0) (i % 64));
        }))
unfolding get_index
change-Writes op v i b bound bits (long, small) lt =
    let ws = b.data_words in
    let word = get_or ws (i / 64) 0 in
    let new = op word (i % 64) in
    let inside : i / 64 < length ws = omega (arith, long, lt) in
    (
      record b { data_words = set ws (i / 64) new },
      refl,
      (
        length-set ws (i / 64) new ∙ long,
        set-All ws (i / 64) new small
            (bound (i % 64) word (omega arith) (get_or-All ws (i / 64) small)),
      ),
      refl,
      λ j.
          let read = read_back op v i j ws bits inside in
          elim (Bool-cases (ltb j b.size)) [
            | inl in_range ↦ rw in_range (ap some read)
            | inr out ↦ rw out refl
          ],
    )

or_if : (b t : Bool) → (b || t) ≡ (if b then true else t)
or_if true t = refl
or_if false t = refl

and_if : (b t : Bool) → (not b && t) ≡ (if b then false else t)
and_if true t = refl
and_if false t = refl

-- On a bitmap with enough words of 64 bits and an index in range, `Set` and `Clear` do not panic,
-- leave such a bitmap, and change what `Get` returns at that index only, to true and to false.
pub set_clear-Writes :
    (i : ℕ) (b : Bitmap)
    → IsBitmap b
    → i < b.size
    → Writes i true b (set_index i b) × Writes i false b (clear_index i b)
unfolding set_index clear_index
set_clear-Writes i b ok lt =
    let in_range : ltb i b.size ≡ true = ground arith in
    (
      rw in_range (
          change-Writes or_bit true i b (λ k w. or_bit-bound k w)
            (λ k j w. test_bit-or_bit k j w ∙ or_if (k == j) (test_bit w j)) ok lt),
      rw in_range (
          change-Writes and_not_bit false i b (λ k w few. and_not_bit-bound k w)
            (λ k j w. test_bit-and_not_bit k j w ∙ and_if (k == j) (test_bit w j)) ok lt),
    )
