-- ===== src/Bitmap/Bits.antt =====
-- Setting and clearing in internal/third/file/bitmap.go: the bit itself, and all the others.
use openim_sdk_core.Prelude.{
  ℕ, zero, suc, ◌+◌, ◌-◌, ◌/◌, ◌%◌, ◌^◌, ◌≤◌, ◌<◌, ◌≡◌, sym, ap, ◌∙◌, not, ◌&&◌, ◌||◌, nat_eq, ◌==◌,
  if◌then◌else◌, Bool-cases, inl, inr, arith,
}
use native.Mathlib.Nat.{pow-succ', div-div-eq-div-mul}
use openim_sdk_core.Bitmap.{test_bit, or_bit, and_not_bit}

abbrev digit : ℕ → ℕ → ℕ
digit w i = (w / 2 ^ i) % 2

digit-suc : (w i : ℕ) → digit w (suc i) ≡ digit (w / 2) i
digit-suc w i = rw (pow-succ' 2 i) (ap (λ x. x % 2) (sym (div-div-eq-div-mul w 2 (2 ^ i))))

digit-zero : (w : ℕ) → digit w 0 ≡ w % 2
digit-zero w = omega arith

digit-add : (i j w : ℕ) → digit w i ≡ 0 → digit (w + 2 ^ i) j ≡ (if i == j then 1 else digit w j)
digit-add zero zero w off = omega (arith, off)
digit-add zero (suc j) w off =
    let half : (w + 1) / 2 ≡ w / 2 = omega (arith, off) in
    let same = digit-suc (w + 1) j ∙ ap (λ x. digit x j) half ∙ sym (digit-suc w j) in
    ground (arith, same)
digit-add (suc i) zero w off =
    let same : digit (w + 2 ^ suc i) 0 ≡ digit w 0 = omega (arith, pow-succ' 2 i) in
    ground (arith, same)
digit-add (suc i) (suc j) w off =
    let half : (w + 2 ^ suc i) / 2 ≡ w / 2 + 2 ^ i = omega (arith, pow-succ' 2 i) in
    let same = digit-suc (w + 2 ^ suc i) j ∙ ap (λ x. digit x j) half in
    let rest = digit-add i j (w / 2) (sym (digit-suc w i) ∙ off) in
    let old = digit-suc w j in ground (arith, same, rest, old)

digit_le : (i w : ℕ) → digit w i ≡ 1 → 2 ^ i ≤ w
digit_le zero w on = omega (arith, on)
digit_le (suc i) w on = omega (arith, digit_le i (w / 2) (sym (digit-suc w i) ∙ on), pow-succ' 2 i)

digit-sub : (i j w : ℕ) → digit w i ≡ 1 → digit (w - 2 ^ i) j ≡ (if i == j then 0 else digit w j)
digit-sub zero zero w on = omega (arith, on)
digit-sub zero (suc j) w on =
    let half : (w - 1) / 2 ≡ w / 2 = omega (arith, on) in
    let same = digit-suc (w - 1) j ∙ ap (λ x. digit x j) half ∙ sym (digit-suc w j) in
    ground (arith, same)
digit-sub (suc i) zero w on =
    let same : digit (w - 2 ^ suc i) 0 ≡ digit w 0 =
      omega (arith, pow-succ' 2 i, digit_le (suc i) w on) in
    ground (arith, same)
digit-sub (suc i) (suc j) w on =
    let half : (w - 2 ^ suc i) / 2 ≡ w / 2 - 2 ^ i =
      omega (arith, pow-succ' 2 i, digit_le (suc i) w on) in
    let same = digit-suc (w - 2 ^ suc i) j ∙ ap (λ x. digit x j) half in
    let rest = digit-sub i j (w / 2) (sym (digit-suc w i) ∙ on) in
    let old = digit-suc w j in ground (arith, same, rest, old)

add_bound : (n i w : ℕ) → i < n → w < 2 ^ n → digit w i ≡ 0 → w + 2 ^ i < 2 ^ n
add_bound zero i w lt small off = absurd (omega arith)
add_bound (suc n) zero w lt small off = omega (arith, digit-zero w, off, pow-succ' 2 n)
add_bound (suc n) (suc i) w lt small off = omega (
  arith,
  add_bound n i (w / 2) (omega arith) (omega (arith, pow-succ' 2 n)) (sym (digit-suc w i) ∙ off),
  pow-succ' 2 n,
  pow-succ' 2 i,
)

equal_digits : (i j w : ℕ) → i ≡ j → digit w i ≡ digit w j
equal_digits i j w e = ap (digit w) e

pub test_bit-or_bit : (i j w : ℕ) → test_bit (or_bit w i) j ≡ (i == j || test_bit w j)
unfolding test_bit or_bit
test_bit-or_bit i j w = elim (Bool-cases (digit w i == 1)) [
  | inl on ↦ let same = equal_digits i j w in rw on (ground (arith, same))
  | inr off ↦ let flipped = digit-add i j w (ground arith) in rw off (ground (arith, flipped))
]

pub test_bit-and_not_bit :
    (i j w : ℕ) → test_bit (and_not_bit w i) j ≡ (not (i == j) && test_bit w j)
unfolding test_bit and_not_bit
test_bit-and_not_bit i j w = elim (Bool-cases (digit w i == 1)) [
  | inl on ↦ let flipped = digit-sub i j w (ground arith) in rw on (ground (arith, flipped))
  | inr off ↦ let same = equal_digits i j w in rw off (ground (arith, same))
]

pub or_bit-bound : (i w : ℕ) → i < 64 → w < 2 ^ 64 → or_bit w i < 2 ^ 64
unfolding test_bit or_bit
or_bit-bound i w lt small = elim (Bool-cases ((w / 2 ^ i) % 2 == 1)) [
  | inl on ↦ rw on small
  | inr off ↦ rw off (add_bound 64 i w lt small (ground arith))
]

pub and_not_bit-bound : (i w : ℕ) → w < 2 ^ 64 → and_not_bit w i < 2 ^ 64
unfolding and_not_bit
and_not_bit-bound i w small = elim (Bool-cases (test_bit w i)) [
  | inl on ↦ rw on (omega (arith, small))
  | inr off ↦ rw off small
]
