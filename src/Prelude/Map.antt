-- ===== src/Prelude/Map.antt =====
-- Go's maps, as association lists. The order of the entries is the order in which a `range` loop
-- visits them: Go leaves it open, so a statement for every list is one for every order.
pub mod Append
use mathlib.Core.Path.{◌≡◌, refl}
use mathlib.Core.Bool.{true, false, ◌||◌}
use mathlib.Core.List.{List, [], ◌∷◌}
use mathlib.Core.Logic.{◌≢◌, inl, inr}
use mathlib.Core.Option.{Option, none, some}
use native.Mathlib.Omega.{arith}
use openim_sdk_core.Prelude.Tests.{Eq, ◌==◌, if◌then◌else◌, Bool-cases}
use openim_sdk_core.Prelude.Lists.{contains}

abbrev pub Map {ℓ κ} : Type ℓ → Type κ → Type (ℓ ⊔ κ)
Map K V = List (K × V)

module _ {ℓ κ} {K : Type ℓ} {V : Type κ} where
  abbrev pub keys : Map K V → List K
  keys [] = []
  keys ((k, v) ∷ m) = k ∷ keys m

  abbrev pub values : Map K V → List V
  values [] = []
  values ((k, v) ∷ m) = v ∷ values m

module _ {ℓ} {K : Type ℓ} ⦃e : Eq K⦄ where
  pub beq_self : (k : K) → k == k ≡ true
  beq_self k = (e.beq_iff k k).1 refl

  pub beq_symm : (j k : K) → j == k ≡ k == j
  beq_symm j k = ground (arith, e.beq_iff j k, e.beq_iff k j)

module _ {ℓ κ} {K : Type ℓ} {V : Type κ} ⦃e : Eq K⦄ where
  unfoldable pub lookup : K → Map K V → Option V
  lookup key [] = none
  lookup key ((old, value) ∷ m) = if old == key then some value else lookup key m

  -- `m[k] = v`: an entry is overwritten in place, and a new one goes to the end.
  unfoldable pub insert : K → V → Map K V → Map K V
  insert key value [] = (key, value) ∷ []
  insert key value ((old, w) ∷ m) =
      if old == key then (key, value) ∷ m else (old, w) ∷ insert key value m

  unfoldable pub delete : K → Map K V → Map K V
  delete k [] = []
  delete k ((j, w) ∷ m) = let rest = delete k m in if j == k then rest else (j, w) ∷ rest

  -- No key has two entries.
  abbrev pub Distinct : Map K V → Type 0
  Distinct [] = Unit
  Distinct ((k, v) ∷ m) = (contains (keys m) k ≡ false) × Distinct m

  pub lookup-insert :
      (new key : K) (value : V) (m : Map K V)
      → lookup key (insert new value m) ≡ (if new == key then some value else lookup key m)
  unfolding insert lookup
  lookup-insert new key value [] = refl
  lookup-insert new key value ((old, w) ∷ m) = ground (
    arith,
    lookup-insert new key value m,
    e.beq_iff new key,
    e.beq_iff old new,
    e.beq_iff old key,
  )

  pub lookup-delete :
      (k j : K) (m : Map K V) → lookup j (delete k m) ≡ (if k == j then none else lookup j m)
  unfolding lookup delete
  lookup-delete k j [] = ground arith
  lookup-delete k j ((i, w) ∷ m) =
      ground (arith, e.beq_iff k j, e.beq_iff i k, e.beq_iff i j, lookup-delete k j m)

  pub contains-keys : (k : K) (m : Map K V) → lookup k m ≡ none → contains (keys m) k ≡ false
  unfolding lookup
  contains-keys k [] h = refl
  contains-keys k ((j, w) ∷ m) h = ground (arith, contains-keys k m)

  pub lookup-none_of_contains :
      (k : K) (m : Map K V) → contains (keys m) k ≡ false → lookup k m ≡ none
  unfolding lookup
  lookup-none_of_contains k [] h = refl
  lookup-none_of_contains k ((j, w) ∷ m) h = ground (arith, lookup-none_of_contains k m)

  pub lookup-some_of_contains :
      (k : K) (m : Map K V) → contains (keys m) k ≡ true → (v : V) × (lookup k m ≡ some v)
  unfolding lookup
  lookup-some_of_contains k [] h = absurd (cc)
  lookup-some_of_contains k ((j, w) ∷ m) h = elim (Bool-cases (j == k)) [
    | inl e ↦ (w, rw e)
    | inr e ↦ let (v, found) = lookup-some_of_contains k m (ground arith) in (v, rw e found)
  ]

  contains-keys-insert :
      (k j : K) (v : V) (m : Map K V)
      → contains (keys (insert k v m)) j ≡ (k == j || contains (keys m) j)
  unfolding insert
  contains-keys-insert k j v [] = refl
  contains-keys-insert k j v ((i, w) ∷ m) =
      ground (arith, e.beq_iff i k, contains-keys-insert k j v m)

  pub insert-Distinct : (k : K) (v : V) (m : Map K V) → Distinct m → Distinct (insert k v m)
  unfolding insert
  insert-Distinct k v [] d = (refl, tt)
  insert-Distinct k v ((j, w) ∷ m) d =
      ground (
        arith,
        e.beq_iff j k,
        beq_symm j k,
        contains-keys-insert k j v m,
        insert-Distinct k v m d.1,
      )

  contains-keys-delete :
      (k j : K) (m : Map K V) → contains (keys m) j ≡ false → contains (keys (delete k m)) j ≡ false
  unfolding delete
  contains-keys-delete k j [] h = refl
  contains-keys-delete k j ((i, w) ∷ m) h = ground (arith, contains-keys-delete k j m)

  pub delete-Distinct : (k : K) (m : Map K V) → Distinct m → Distinct (delete k m)
  unfolding delete
  delete-Distinct k [] d = tt
  delete-Distinct k ((j, w) ∷ m) d =
      ground (arith, contains-keys-delete k j m d.0, delete-Distinct k m d.1)

  pub insert-ne-nil : (k : K) (v : V) (m : Map K V) → insert k v m ≢ []
  unfolding insert
  insert-ne-nil k v [] = ground arith
  insert-ne-nil k v ((j, w) ∷ m) = ground arith

pub ruleset map_laws = (lookup-insert, lookup-delete, beq_self)
