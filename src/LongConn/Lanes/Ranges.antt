-- ===== src/LongConn/Lanes/Ranges.antt =====
-- Runs of consecutive numbers, how often a number is in a list, and the numbers of messages one after
-- the other.
use openim_sdk_core.Prelude.{
  ℕ, zero, suc, ◌+◌, ◌≤◌, ◌<◌, ◌≡◌, refl, sym, ap, ◌∙◌, List, [], ◌∷◌, ◌++◌, Option, none, some,
  nat_eq, ◌==◌, ltb, length, length-append, ltb, Bool-cases, inl, inr, arith,
}
use native.Mathlib.Nat.{add-zero, zero-add}
use openim_sdk_core.LongConn.{SendOrderLane, Message}
use openim_sdk_core.LongConn.Lanes.Numbers.{seq_in, put, seqs, count, range}

pub seqs-append :
    (L : SendOrderLane) (ms ns : List Message) → seqs L (ms ++ ns) ≡ seqs L ms ++ seqs L ns
unfolding seqs
seqs-append L [] ns = refl
seqs-append L (m ∷ ms) ns = rw (seqs-append L ms ns) (put-append (seq_in L m) (seqs L ms))
  where
    put-append : (o : Option ℕ) (ks : List ℕ) → put o (ks ++ seqs L ns) ≡ put o ks ++ seqs L ns
    put-append none ks = refl
    put-append (some k) ks = refl

pub count-append : (k : ℕ) (js is : List ℕ) → count k (js ++ is) ≡ count k js + count k is
unfolding count
count-append k [] is = omega arith
count-append k (j ∷ js) is = ground (arith, count-append k js is)

pub split :
    (L : SendOrderLane) (j : ℕ) (ms ns : List Message)
    → count j (seqs L (ms ++ ns)) ≡ count j (seqs L ms) + count j (seqs L ns)
split L j ms ns = ap (count j) (seqs-append L ms ns) ∙ count-append j (seqs L ms) (seqs L ns)

pub count-below : (j e n : ℕ) → j < e → count j (range e n) ≡ 0
unfolding count range
count-below j e zero below = refl
count-below j e (suc n) below = ground (arith, count-below j (suc e) n)

pub count-range : (j e n : ℕ) → e ≤ j → j < e + n → count j (range e n) ≡ 1
unfolding count range
count-range j e zero above below = absurd (omega arith)
count-range j e (suc n) above below = elim (Bool-cases (e == j)) [
  | inl same ↦ ground (arith, count-below j (suc e) n)
  | inr apart ↦ ground (arith, count-range j (suc e) n)
]

pub count-above : (j e n : ℕ) → e + n ≤ j → count j (range e n) ≡ 0
unfolding count range
count-above j e zero above = refl
count-above j e (suc n) above = ground (arith, count-above j (suc e) n)

pub count-range_le : (j e n : ℕ) → count j (range e n) ≤ 1
count-range_le j e n = elim (Bool-cases (ltb j e)) [
  | inl below ↦ omega (arith, count-below j e n (ground arith))
  | inr above ↦ elim (Bool-cases (ltb j (e + n))) [
    | inl inside ↦ omega (arith, count-range j e n (ground arith) (ground arith))
    | inr past ↦ omega (arith, count-above j e n (ground arith))
  ]
]

pub range-append : (e a b : ℕ) → range e a ++ range (e + a) b ≡ range e (a + b)
unfolding range
range-append e zero b = ap (λ x. range x b) (add-zero e) ∙ ap (range e) (sym (zero-add b))
range-append e (suc a) b =
    let shift : e + suc a ≡ suc e + a = omega arith in
    let whole : suc a + b ≡ suc (a + b) = omega arith in
    rw shift (rw whole (ap (λ ks. e ∷ ks) (range-append (suc e) a b)))

pub length-range : (e n : ℕ) → length (range e n) ≡ n
unfolding range
length-range e zero = refl
length-range e (suc n) = ap suc (length-range (suc e) n)

-- A run, and the run behind it.
pub runs-append :
    (L : SendOrderLane) (ms ns : List Message) (e next : ℕ)
    → seqs L ms ≡ range e (length (seqs L ms))
    → seqs L ns ≡ range next (length (seqs L ns))
    → next ≡ e + length (seqs L ms)
    → (seqs L (ms ++ ns) ≡ range e (length (seqs L (ms ++ ns))))
      × (length (seqs L (ms ++ ns)) ≡ length (seqs L ms) + length (seqs L ns))
runs-append L ms ns e next run run' behind =
    let a = length (seqs L ms) in
    let b = length (seqs L ns) in
    let joined = seqs-append L ms ns in
    let long : length (seqs L (ms ++ ns)) ≡ a + b =
      ap length joined ∙ length-append (seqs L ms) (seqs L ns) in
    (
      joined
          ∙ ap (λ ks. ks ++ seqs L ns) run
          ∙ ap (λ ks. range e a ++ ks) (run' ∙ ap (λ x. range x b) behind)
          ∙ range-append e a b
          ∙ ap (range e) (sym long),
      long,
    )
