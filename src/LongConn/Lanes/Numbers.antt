-- ===== src/LongConn/Lanes/Numbers.antt =====
-- The numbers of ordered messages, and the messages that a lane of
-- internal/interaction/long_conn_mgr.go keeps.
use openim_sdk_core.Prelude.{
  ℕ, zero, suc, ◌≤◌, ◌<◌, ◌≡◌, refl, Bool, true, false, ◌&&◌, List, [], ◌∷◌, Option, none, some,
  nat_eq, ◌==◌, if◌then◌else◌, length, contains, Bool-cases, inl, inr, arith,
}
use openim_sdk_core.Prelude.Map.{Map, lookup, delete, keys, Distinct}
use openim_sdk_core.LongConn.{SendOrderLane, text, media, other, SendOrderInfo, Message}

abbrev pub is_lane : SendOrderLane → SendOrderLane → Bool
is_lane text text = true
is_lane media media = true
is_lane (other m) (other n) = m == n
is_lane a b = false

abbrev pub seq_of : SendOrderLane → Option SendOrderInfo → Option ℕ
seq_of L none = none
seq_of L (some o) = if o.ordered && is_lane o.lane L then some o.seq else none

-- The number of a message that is ordered in the lane.
abbrev pub seq_in : SendOrderLane → Message → Option ℕ
seq_in L m = seq_of L m.order

abbrev pub put : Option ℕ → List ℕ → List ℕ
put none ks = ks
put (some k) ks = k ∷ ks

-- The numbers of the messages of a lane.
unfoldable pub seqs : SendOrderLane → List Message → List ℕ
seqs L [] = []
seqs L (m ∷ ms) = put (seq_in L m) (seqs L ms)

unfoldable pub count : ℕ → List ℕ → ℕ
count k [] = 0
count k (j ∷ js) = let rest = count k js in if j == k then suc rest else rest

-- The `n` numbers from `e` on.
unfoldable pub range : ℕ → ℕ → List ℕ
range e zero = []
range e (suc n) = e ∷ range (suc e) n

-- Each message is kept under its own number, which is `e` or more.
unfoldable pub Held : SendOrderLane → ℕ → Map ℕ Message → Type 0
Held L e [] = Unit
Held L e ((k, m) ∷ rest) = (e ≤ k) × (seq_in L m ≡ some k) × Held L e rest

pub Held-next :
    (L : SendOrderLane) (e : ℕ) (p : Map ℕ Message)
    → Held L e p
    → lookup e p ≡ none
    → Held L (suc e) p
unfolding Held lookup
Held-next L e [] h absent = tt
Held-next L e ((k, m) ∷ rest) h absent = elim (Bool-cases (k == e)) [
  | inl same ↦ absurd (ground arith)
  | inr apart ↦ (ground arith, h.1, Held-next L e rest h.2 (ground arith))
]

pub Held-lookup :
    (L : SendOrderLane) (e j : ℕ) (p : Map ℕ Message) (m : Message)
    → Held L e p
    → lookup j p ≡ some m
    → seq_in L m ≡ some j
unfolding Held lookup
Held-lookup L e j [] m h found = absurd (ground arith)
Held-lookup L e j ((k, x) ∷ rest) m h found = elim (Bool-cases (k == j)) [
  | inl same ↦ ground (arith, h.1)
  | inr apart ↦ Held-lookup L e j rest m h.2 (ground arith)
]

pub Held-delete :
    (L : SendOrderLane) (e j : ℕ) (p : Map ℕ Message) → Held L e p → Held L e (delete j p)
unfolding Held delete
Held-delete L e j [] h = tt
Held-delete L e j ((k, m) ∷ rest) h = elim (Bool-cases (k == j)) [
  | inl same ↦ rw same (Held-delete L e j rest h.2)
  | inr apart ↦ rw apart (h.0, h.1, Held-delete L e j rest h.2)
]

pub lookup_deleted : (j : ℕ) (p : Map ℕ Message) → lookup j (delete j p) ≡ none
unfolding lookup delete
lookup_deleted j [] = refl
lookup_deleted j ((k, m) ∷ rest) = ground (arith, lookup_deleted j rest)

pub count-absent : (k : ℕ) (p : Map ℕ Message) → lookup k p ≡ none → count k (keys p) ≡ 0
unfolding count lookup
count-absent k [] h = refl
count-absent k ((j, m) ∷ rest) h = ground (arith, count-absent k rest)

pub contains-absent : (k : ℕ) (p : Map ℕ Message) → contains (keys p) k ≡ false → delete k p ≡ p
unfolding delete
contains-absent k [] h = refl
contains-absent k ((j, m) ∷ rest) h = ground (arith, contains-absent k rest)

-- Taking a message away: its number, once.
pub count-delete :
    (k j : ℕ) (p : Map ℕ Message) (m : Message)
    → Distinct p
    → lookup j p ≡ some m
    → count k (keys p) ≡ count k (j ∷ keys (delete j p))
unfolding count lookup delete
count-delete k j [] m d found = absurd (ground arith)
count-delete k j ((i, x) ∷ rest) m d found = elim (Bool-cases (i == j)) [
  | inl same ↦ ground (arith, contains-absent j rest)
  | inr apart ↦ ground (arith, count-delete k j rest m d.1)
]

pub length-delete_le : (j : ℕ) (p : Map ℕ Message) → length (delete j p) ≤ length p
unfolding delete
length-delete_le j [] = omega arith
length-delete_le j ((i, x) ∷ rest) = ground (arith, length-delete_le j rest)

pub length-delete :
    (j : ℕ) (p : Map ℕ Message) (m : Message) → lookup j p ≡ some m → length (delete j p) < length p
unfolding lookup delete
length-delete j [] m found = absurd (ground arith)
length-delete j ((i, x) ∷ rest) m found = elim (Bool-cases (i == j)) [
  | inl same ↦ ground (arith, length-delete_le j rest)
  | inr apart ↦ ground (arith, length-delete j rest m)
]
