-- ===== src/Upload/Locks/Members.antt =====
-- The goroutines that a lock counts: internal/third/file/upload.go.
use openim_sdk_core.Prelude.{
  ℕ, zero, suc, ◌+◌, ◌≤◌, ◌≡◌, ◌⊎◌, refl, ap, false, List, [], ◌∷◌, Option, none, some, nat_eq,
  ◌==◌, if◌then◌else◌, get_elem?, set, inl, inr, arith,
}
use openim_sdk_core.Upload.Locks.{Phase, idle, waits, holds, leaving}

-- Whether the goroutine waits for the lock or has it.
abbrev pub uses : ℕ → Phase → ℕ
uses id idle = 0
uses id (waits hash own) = if own == id then 1 else 0
uses id (holds hash own) = if own == id then 1 else 0
uses id (leaving hash own) = 0

abbrev pub members : ℕ → List Phase → ℕ
members id [] = 0
members id (phase ∷ phases) = uses id phase + members id phases

abbrev uses_of : ℕ → Option Phase → ℕ
uses_of id none = 0
uses_of id (some phase) = uses id phase

pub members-set :
    (id g : ℕ) (old new : Phase) (phases : List Phase)
    → get_elem? phases g ≡ some old
    → members id (set phases g new) + uses id old ≡ members id phases + uses id new
members-set id g old new [] e = absurd (cc)
members-set id zero old new (phase ∷ phases) e =
    let same : uses id phase ≡ uses id old = ap (λ o. uses_of id o) e in omega (arith, same)
members-set id (suc g) old new (phase ∷ phases) e =
    let rest = members-set id g old new phases e in omega (arith, rest)

pub members-pos :
    (id g : ℕ) (phase : Phase) (phases : List Phase)
    → get_elem? phases g ≡ some phase
    → uses id phase ≤ members id phases
members-pos id g phase [] e = absurd (cc)
members-pos id zero phase (p ∷ phases) e =
    let same : uses id p ≡ uses id phase = ap (λ o. uses_of id o) e in omega (arith, same)
members-pos id (suc g) phase (p ∷ phases) e = omega (arith, members-pos id g phase phases e)

-- What is read after a write at an index that is there.
pub set_cases :
    (g j : ℕ) (old new : Phase) (phases : List Phase)
    → get_elem? phases g ≡ some old
    → ((g ≡ j) × (get_elem? (set phases g new) j ≡ some new))
      ⊎ ((g == j ≡ false) × (get_elem? (set phases g new) j ≡ get_elem? phases j))
set_cases g j old new [] e = absurd (cc)
set_cases zero zero old new (p ∷ phases) e = inl (refl, refl)
set_cases zero (suc j) old new (p ∷ phases) e = inr (ground arith, refl)
set_cases (suc g) zero old new (p ∷ phases) e = inr (ground arith, refl)
set_cases (suc g) (suc j) old new (p ∷ phases) e = elim (set_cases g j old new phases e) [
  | inl (same, found) ↦ inl (ap suc same, found)
  | inr (apart, found) ↦ inr (ground arith, found)
]
