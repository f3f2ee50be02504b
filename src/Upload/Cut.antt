-- ===== src/Upload/Cut.antt =====
-- The parts of a file: internal/third/file/upload.go.
use openim_sdk_core.Prelude.{
  ℕ, zero, suc, ◌+◌, ◌-◌, ◌*◌, ◌/◌, ◌%◌, ◌≤◌, ◌≡◌, refl, sym, ap, subst, ◌∙◌, List, [], ◌∷◌, Option,
  none, some, nat_eq, ◌==◌, leb, ltb, max, length, set, replicate, All, Bool-cases, inl, inr, arith,
}
use native.Mathlib.Nat.{div-add-mod, mod-lt, mul-zero, zero-mul, mul-suc, mul_comm, mul-le-mul_left}
use openim_sdk_core.Prelude.Outcome.{Result, ok, err}
use openim_sdk_core.Upload.{
  PartLimitResp, round_up, get_part_num, size_within, with_limit, part_size, part_sizes,
}

abbrev pub sum : List ℕ → ℕ
sum [] = 0
sum (n ∷ ns) = n + sum ns

-- `n` parts of `d` but the last, which is not empty, make the size.
abbrev IsCut : ℕ → ℕ → ℕ → Type 0
IsCut size d n =
    (last : ℕ) × (m : ℕ) × (n ≡ suc m) × (size ≡ d * m + last) × (1 ≤ last) × (last ≤ d)

whole-IsCut : (size d q : ℕ) → 1 ≤ size → 1 ≤ d → size ≡ d * q → IsCut size d q
whole-IsCut size d zero h hd e = absurd (omega (arith, mul-zero d))
whole-IsCut size d (suc m) h hd e = (d, m, refl, e ∙ mul-suc d m, hd, omega arith)

round_up-IsCut : (size d : ℕ) → 1 ≤ size → 1 ≤ d → IsCut size d (round_up size d)
round_up-IsCut size d h hd =
    let whole = div-add-mod size d in
    let rest = mod-lt size {m = d} hd in
    elim (Bool-cases (size % d == 0)) [
      | inl exact ↦
          subst (IsCut size d) (sym (rw exact))
            (whole-IsCut size d (size / d) h hd (sym whole ∙ ground arith))
      | inr more ↦
          (size % d, size / d, rw more (omega arith), sym whole, ground arith, ground arith)
    ]

sum-replicate : (n d last : ℕ) → sum (set (replicate (suc n) d) n last) ≡ d * n + last
sum-replicate zero d last = omega (arith, mul-zero d)
sum-replicate (suc n) d last = omega (arith, mul-suc d n, sum-replicate n d last)

length-replicate : (n d : ℕ) → length (replicate n d) ≡ n
length-replicate zero d = refl
length-replicate (suc n) d = ap suc (length-replicate n d)

length-set : (xs : List ℕ) (k v : ℕ) → length (set xs k v) ≡ length xs
length-set [] k v = refl
length-set (x ∷ xs) zero v = refl
length-set (x ∷ xs) (suc k) v = ap suc (length-set xs k v)

-- A size that a part may have.
abbrev pub IsPart : ℕ → ℕ → Type 0
IsPart d size = (1 ≤ size) × (size ≤ d)

All-replicate :
    (n d last : ℕ) → 1 ≤ d → IsPart d last → All (IsPart d) (set (replicate (suc n) d) n last)
All-replicate zero d last hd h = (h, tt)
All-replicate (suc n) d last hd h = ((hd, omega arith), All-replicate n d last hd h)

round_up-le : (size d k : ℕ) → 1 ≤ size → 1 ≤ d → size ≤ d * k → round_up size d ≤ k
round_up-le size d k h hd bound =
    let (last, m, is_suc, cut, some_left, small) = round_up-IsCut size d h hd in
    elim (Bool-cases (leb k m)) [
      | inl le ↦ let wide = mul-le-mul_left {m = k} {n = m} d (ground arith) in absurd (omega arith)
      | inr gt ↦ ground arith
    ]

le-round_up : (size d : ℕ) → 1 ≤ size → 1 ≤ d → size ≤ d * round_up size d
le-round_up size d h hd =
    let (last, m, is_suc, cut, some_left, small) = round_up-IsCut size d h hd in
    rw is_suc (omega (arith, mul-suc d m))

-- A size of the parts that cuts the file within the limit.
abbrev pub Fits : PartLimitResp → ℕ → ℕ → Type 0
Fits limit size d =
    (1 ≤ size)
    × (1 ≤ d)
    × (size ≤ d * limit.max_num_size)
    × (d ≤ max limit.min_part_size limit.max_part_size)

factors-pos : (size a b : ℕ) → 1 ≤ size → size ≤ a * b → (1 ≤ a) × (1 ≤ b)
factors-pos size zero b h bound = absurd (omega (arith, zero-mul b))
factors-pos size (suc a) zero h bound = absurd (omega (arith, mul-zero (suc a)))
factors-pos size (suc a) (suc b) h bound = (omega arith, omega arith)

rounded-Fits :
    (limit : PartLimitResp) (size : ℕ)
    → 1 ≤ size
    → 1 ≤ limit.max_num_size
    → size ≤ limit.max_part_size * limit.max_num_size
    → Fits limit size (round_up size limit.max_num_size)
rounded-Fits limit size h hn bound =
    let n = limit.max_num_size in
    let (last, m, is_suc, cut, some_left, small) = round_up-IsCut size n h hn in
    let top =
      round_up-le size n limit.max_part_size h hn (rw (mul_comm n limit.max_part_size) bound) in
    (
      h,
      rw is_suc (omega arith),
      rw (mul_comm (round_up size n) n) (le-round_up size n h hn),
      omega (arith, top),
    )

size_within-Fits :
    (limit : PartLimitResp) (size d : ℕ) → size_within limit size ≡ ok d → Fits limit size d
size_within-Fits limit size d h = elim (Bool-cases (size == 0)) [
  | inl empty ↦ absurd (ground arith)
  | inr filled ↦ elim (Bool-cases (ltb (limit.max_part_size * limit.max_num_size) size)) [
    | inl over ↦ absurd (ground arith)
    | inr under ↦
        let some_size : 1 ≤ size = ground arith in
        let bound : size ≤ limit.max_part_size * limit.max_num_size = ground arith in
        let (some_max, some_num) =
          factors-pos size limit.max_part_size limit.max_num_size some_size bound in
        elim (Bool-cases (leb size (limit.min_part_size * limit.max_num_size))) [
          | inl small ↦
              let same : limit.min_part_size ≡ d = ground arith in
              let room : size ≤ limit.min_part_size * limit.max_num_size = ground arith in
              let pos = factors-pos size limit.min_part_size limit.max_num_size some_size room in
              subst (Fits limit size) same (some_size, pos.0, room, omega arith)
          | inr large ↦
              let same : round_up size limit.max_num_size ≡ d = ground arith in
              subst (Fits limit size) same (rounded-Fits limit size some_size some_num bound)
        ]
  ]
]

part_sizes-IsCut :
    (size d : ℕ)
    → 1 ≤ size
    → 1 ≤ d
    → (sum (part_sizes size d) ≡ size)
      × All (IsPart d) (part_sizes size d)
      × (length (part_sizes size d) ≡ get_part_num size d)
unfolding part_sizes get_part_num
part_sizes-IsCut size d h hd =
    let (last, m, is_suc, cut, some_left, small) = round_up-IsCut size d h hd in
    let one : suc m - 1 ≡ m = omega arith in
    let left : size - d * m ≡ last = omega arith in
    rw (is_suc, one, left)
      (
        sum-replicate m d last ∙ sym cut,
        All-replicate m d last hd (some_left, small),
        length-set (replicate (suc m) d) m last ∙ length-replicate (suc m) d,
      )

part_num-le : (size d k : ℕ) → 1 ≤ size → 1 ≤ d → size ≤ d * k → get_part_num size d ≤ k
unfolding get_part_num
part_num-le size d k h hd room = round_up-le size d k h hd room

answered-Fits :
    (kept : Option PartLimitResp) (answer : Result PartLimitResp) (size d : ℕ)
    → (with_limit kept answer size).0 ≡ ok d
    → (limit : PartLimitResp) × ((with_limit kept answer size).1 ≡ some limit) × Fits limit size d
answered-Fits (some limit) answer size d h = (limit, refl, size_within-Fits limit size d h)
answered-Fits none (ok limit) size d h = (limit, refl, size_within-Fits limit size d h)
answered-Fits none (err e) size d h = absurd (ground arith)

-- When `partSize` returns a size, the parts that `getPartInfo` cuts are as many as `getPartNum`
-- says, at most as many as the limit allows, none empty and none larger than that size, which is at
-- most the larger of the limit's two sizes; and together they are the file.
pub part_size-Cuts :
    (kept : Option PartLimitResp) (answer : Result PartLimitResp) (size d : ℕ)
    → (part_size kept answer size).0 ≡ ok d
    → (limit : PartLimitResp) × ((part_size kept answer size).1 ≡ some limit)
      × (sum (part_sizes size d) ≡ size)
      × All (IsPart d) (part_sizes size d)
      × (length (part_sizes size d) ≡ get_part_num size d)
      × (get_part_num size d ≤ limit.max_num_size)
      × (d ≤ max limit.min_part_size limit.max_part_size)
unfolding part_size
part_size-Cuts kept answer size d h =
    let (limit, known, (some_size, some_part, room, bound)) = answered-Fits kept answer size d h in
    let (total, parts, count) = part_sizes-IsCut size d some_size some_part in
    (
      limit,
      known,
      total,
      parts,
      count,
      part_num-le size d limit.max_num_size some_size some_part room,
      bound,
    )
