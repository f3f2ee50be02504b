-- ===== src/Syncer/Table.antt =====
-- What `Sync` relies on in its callbacks and packages, seen through the rows of the local table.
use openim_sdk_core.Prelude.{
  ◌≡◌, Bool, true, false, ◌⊎◌, List, [], ◌∷◌, Option, none, some, Eq, ◌==◌, if◌then◌else◌, map,
  contains,
}
use openim_sdk_core.Prelude.Map.{lookup}
use openim_sdk_core.Prelude.Outcome.{Outcome, done, fail}
use openim_sdk_core.Syncer.{State, Syncer, Packages, Arguments, notify}

module _ {ℓ κ} {W : Type ℓ} {A : Type κ} (row : W → Option A) where
  -- On success the row holds `o`, and an error changes nothing.
  abbrev pub Writes : Option A → W → Outcome W → Type κ
  Writes o w (done w') = row w' ≡ o
  Writes o w (fail e w') = row w' ≡ row w

  -- The same for a write with a notice after it, which may fail when the row is written.
  abbrev pub Moves : Option A → W → Outcome W → Type κ
  Moves o w (done w') = row w' ≡ o
  Moves o w (fail e w') = (row w' ≡ row w) ⊎ (row w' ≡ o)

  abbrev pub Keeps : W → Outcome W → Type κ
  Keeps w (done w') = row w' ≡ row w
  Keeps w (fail e w') = row w' ≡ row w

-- The last item with the id.
abbrev pub find_last {ℓ κ} : {T : Type ℓ} {V : Type κ} ⦃e : Eq V⦄ → (T → V) → V → List T → Option T
find_last f id [] = none
find_last f id (x ∷ xs) = elim (find_last f id xs) [
  | some y ↦ some y
  | none ↦ if f x == id then some x else none
]

module _ {ℓ} {W T V : Type ℓ} ⦃k : Eq V⦄ (p : Packages T V) (s : Syncer W T V) (a : Arguments W T)
    (rows : W → V → Option T) where
  -- Insert, update and delete write one row of the table, or fail and leave it; a notice leaves the
  -- table alone; and `SliceToMap` maps a key to the last element that has it.
  pub record IsTable : Type ℓ where
    pub insert_row :
        (x : T) (w : W) (id : V)
        → Writes (λ v. rows v id) (if s.uuid x == id then some x else rows w id) w (s.insert x w)
    pub update_row :
        (x y : T) (w : W) (id : V)
        → Writes (λ v. rows v id) (if s.uuid x == id then some x else rows w id) w (s.update x y w)
    pub delete_row :
        (x : T) (w : W) (id : V)
        → Writes (λ v. rows v id) (if s.uuid x == id then none else rows w id) w (s.delete x w)
    pub notify_row :
        (x y : T) (w : W) (id : V)
        → Keeps (λ v. rows v id) w (notify s a State.insert x y w)
          × Keeps (λ v. rows v id) w (notify s a State.update x y w)
          × Keeps (λ v. rows v id) w (notify s a State.unchanged x y w)
          × Keeps (λ v. rows v id) w (notify s a State.delete x y w)
    pub slice_to_map_row :
        (xs : List T) (id : V) → lookup id (p.slice_to_map s.uuid xs) ≡ find_last s.uuid id xs

-- The local data are the rows of the table.
abbrev pub IsLocal {ℓ} :
    {W T V : Type ℓ} ⦃k : Eq V⦄ → Syncer W T V → (W → V → Option T) → List T → W → Type ℓ
IsLocal {V} s rows local_data w = (id : V) → rows w id ≡ find_last s.uuid id local_data

-- The server's item with the id.
abbrev pub find {ℓ κ} : {T : Type ℓ} {V : Type κ} ⦃e : Eq V⦄ → (T → V) → V → List T → Option T
find f id [] = none
find f id (x ∷ xs) = if f x == id then some x else find f id xs

-- No two items of the server share an id.
abbrev pub DistinctIds {ℓ κ} : {T : Type ℓ} {V : Type κ} ⦃e : Eq V⦄ → (T → V) → List T → Type 0
DistinctIds f [] = Unit
DistinctIds f (x ∷ xs) = (contains (map f xs) (f x) ≡ false) × DistinctIds f xs

abbrev pub BothEqual {ℓ} : {T : Type ℓ} → (T → T → Bool) → Option T → Option T → Type 0
BothEqual eq (some local) (some server) = eq server local ≡ true
BothEqual eq _ _ = ⊥

-- A row agrees with what the server has: it is the same, or `eq` takes the two items for equal.
abbrev pub Agrees {ℓ} : {T : Type ℓ} → (T → T → Bool) → Option T → Option T → Type ℓ
Agrees eq row server = (row ≡ server) ⊎ BothEqual eq row server
