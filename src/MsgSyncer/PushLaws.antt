-- ===== src/MsgSyncer/PushLaws.antt =====
-- A push never lowers what is synced: what it decides.
use openim_sdk_core.Prelude.{
  ℕ, ◌+◌, ◌≤◌, ◌<◌, List, [], ◌∷◌, inl, inr, ◌==◌, nat_eq, string_eq, ltb, arith, length,
  Bool-cases,
}
use openim_sdk_core.MsgSyncer.{MsgData}
use openim_sdk_core.MsgSyncer.Push.{Decision, pass, take_over, pull, decide}

abbrev last_of : ℕ → List MsgData → ℕ
last_of s [] = s
last_of s (d ∷ rest) = last_of d.seq rest

-- What `decide` may do, for messages in any order.
abbrev pub Sane : ℕ → Decision → Type 0
Sane s pass = Unit
Sane s (take_over last) = s ≤ last
Sane s (pull range) = s < range.1

pub decide-Sane : (s : ℕ) (xs : List MsgData) (last : ℕ) → Sane s (decide s xs last)
unfolding decide
decide-Sane s [] last = tt
decide-Sane s (d ∷ rest) last = elim (Bool-cases (last == s + length (d ∷ rest))) [
  | inl e ↦ rw (e, decide) (ground (arith, e))
  | inr e ↦ elim (Bool-cases (ltb s last)) [
    | inl lt ↦ rw (e, lt, decide) (ground (arith, lt))
    | inr ge ↦ rw (e, ge, decide) tt
  ]
]
