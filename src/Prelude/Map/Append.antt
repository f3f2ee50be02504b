-- ===== src/Prelude/Map/Append.antt =====
-- Maps put together from two parts.
use mathlib.Core.Path.{◌≡◌, refl}
use mathlib.Core.Bool.{false, ◌||◌}
use mathlib.Core.List.{[], ◌∷◌, ◌++◌, append_assoc}
use mathlib.Core.Logic.{inl, inr}
use mathlib.Core.Option.{none, some}
use native.Mathlib.Omega.{arith}
use openim_sdk_core.Prelude.Tests.{Eq, ◌==◌, Bool-cases}
use openim_sdk_core.Prelude.Lists.{contains}
use openim_sdk_core.Prelude.Map.{
  Map, keys, lookup, insert, Distinct, beq_symm, lookup-none_of_contains,
}

module _ {ℓ κ} {K : Type ℓ} {V : Type κ} ⦃e : Eq K⦄ where
  contains-keys-append :
      (k : K) (a b : Map K V)
      → contains (keys (a ++ b)) k ≡ (contains (keys a) k || contains (keys b) k)
  contains-keys-append k [] b = refl
  contains-keys-append k ((j, v) ∷ a) b = ground (arith, contains-keys-append k a b)

  pub insert_fresh :
      (k : K) (v : V) (m : Map K V) → contains (keys m) k ≡ false → insert k v m ≡ m ++ (k, v) ∷ []
  unfolding insert
  insert_fresh k v [] h = refl
  insert_fresh k v ((j, w) ∷ m) h = ground (arith, insert_fresh k v m)

  -- A key that stands in the middle is in neither part.
  pub Distinct-middle :
      (k : K) (v : V) (a b : Map K V)
      → Distinct (a ++ (k, v) ∷ b)
      → (contains (keys a) k ≡ false) × (contains (keys b) k ≡ false)
  Distinct-middle k v [] b d = (refl, d.0)
  Distinct-middle k v ((j, w) ∷ a) b d =
      ground
        (arith, Distinct-middle k v a b d.1, contains-keys-append j a ((k, v) ∷ b), beq_symm j k)

  pub Distinct-left : (a b : Map K V) → Distinct (a ++ b) → Distinct a
  Distinct-left [] b d = tt
  Distinct-left ((j, w) ∷ a) b d = ground (arith, Distinct-left a b d.1, contains-keys-append j a b)

  pub Distinct-right : (a b : Map K V) → Distinct (a ++ b) → Distinct b
  Distinct-right [] b d = d
  Distinct-right ((j, w) ∷ a) b d = Distinct-right a b d.1

  -- A key is looked up in the first part that has it.
  pub lookup-append_some :
      (k : K) (v : V) (a b : Map K V) → lookup k a ≡ some v → lookup k (a ++ b) ≡ some v
  unfolding lookup
  lookup-append_some k v [] b h = absurd (ground arith)
  lookup-append_some k v ((j, w) ∷ a) b h = ground (arith, lookup-append_some k v a b)

  pub lookup-append_none :
      (k : K) (a b : Map K V) → lookup k a ≡ none → lookup k (a ++ b) ≡ lookup k b
  unfolding lookup
  lookup-append_none k [] b h = refl
  lookup-append_none k ((j, w) ∷ a) b h = ground (arith, lookup-append_none k a b)

  pub lookup_right_none :
      (k : K) (v : V) (a b : Map K V) → Distinct (a ++ b) → lookup k a ≡ some v → lookup k b ≡ none
  unfolding lookup
  lookup_right_none k v [] b d h = absurd (ground arith)
  lookup_right_none k v ((j, w) ∷ a) b d h = elim (Bool-cases (j == k)) [
    | inl here ↦
        lookup-none_of_contains k b
          (ground (arith, here, d, e.beq_iff j k, contains-keys-append j a b))
    | inr there ↦ lookup_right_none k v a b d.1 (ground (arith, there, h))
  ]

  pub append_cons : (k : K) (v : V) (a b : Map K V) → (a ++ (k, v) ∷ []) ++ b ≡ a ++ (k, v) ∷ b
  append_cons k v a b = append_assoc a ((k, v) ∷ []) b
