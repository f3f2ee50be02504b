-- ===== src/Syncer/Items.antt =====
-- One round of each loop of `Sync`, against the rows of the local table.
use openim_sdk_core.Prelude.{
  ◌≡◌, refl, sym, ◌∙◌, false, ◌⊎◌, inl, inr, List, [], ◌∷◌, Option, none, some, Eq, ◌==◌,
  if◌then◌else◌, map, contains, arith, Bool-cases, Option-cases,
}
use openim_sdk_core.Prelude.Map
use openim_sdk_core.Prelude.Map.{Map, lookup, keys, lookup-delete, beq_self, beq_symm, map_laws}
use openim_sdk_core.Prelude.Outcome.{Outcome, done, fail, ◌>>=◌}
use openim_sdk_core.Syncer.{
  or_zero, with_map, Syncer, Packages, Arguments, State, notify, eq, insert_item, merge_item,
  sync_item, delete_item,
}
use openim_sdk_core.Syncer.Table.{Writes, Moves, Keeps, find, IsTable, Agrees}

module _ {ℓ κ} {W : Type ℓ} {A : Type κ} (row : W → Option A) where
  pub Moves-of_Keeps :
      (o : Option A) (w w' : W) (r : Outcome W) → row w' ≡ o → Keeps row w' r → Moves row o w r
  Moves-of_Keeps o w w' (done v) h n = n ∙ h
  Moves-of_Keeps o w w' (fail e v) h n = inr (n ∙ h)

  pub Moves-bind :
      (o : Option A) (w : W) (r : Outcome W) (n : W → Outcome W)
      → Writes row o w r
      → ((w' : W) → Keeps row w' (n w'))
      → Moves row o w (r >>= n)
  Moves-bind o w (done v) n h keep = Moves-of_Keeps o w v (n v) h (keep v)
  Moves-bind o w (fail e v) n h keep = inl h

module _ {ℓ κ} {W : Type ℓ} {A : Type κ} (row : W → Option A) where
  pub Keeps-of_Moves : (w : W) (r : Outcome W) → Moves row (row w) w r → Keeps row w r
  Keeps-of_Moves w (done v) h = h
  Keeps-of_Moves w (fail e v) (inl h) = h
  Keeps-of_Moves w (fail e v) (inr h) = h

pub find-none_of_contains {ℓ κ} :
    {T : Type ℓ} {V : Type κ} ⦃e : Eq V⦄ (f : T → V) (id : V) (xs : List T)
    → contains (map f xs) id ≡ false
    → find f id xs ≡ none
find-none_of_contains f id [] h = refl
find-none_of_contains f id (x ∷ xs) h = ground (arith, find-none_of_contains f id xs)

module _ {ℓ} {W T V : Type ℓ} ⦃k : Eq V⦄ (p : Packages T V) (s : Syncer W T V) (a : Arguments W T)
    (rows : W → V → Option T) (t : IsTable p s a rows) where
  -- An id other than the item's is left alone.
  abbrev pub Other : V → Map V T → W → Outcome (W × Map V T) → Type ℓ
  Other id m w (done l) = (rows l.0 id ≡ rows w id) × (lookup id l.1 ≡ lookup id m)
  Other id m w (fail e l) = rows l.0 id ≡ rows w id

  abbrev pub Own : T → W → Outcome (W × Map V T) → Type ℓ
  Own x w (done l) = Agrees (eq p s) (rows l.0 (s.uuid x)) (some x) × (lookup (s.uuid x) l.1 ≡ none)
  Own x w (fail e l) =
      (rows l.0 (s.uuid x) ≡ rows w (s.uuid x)) ⊎ Agrees (eq p s) (rows l.0 (s.uuid x)) (some x)

  pub Other-of_Keeps :
      (id : V) (m m' : Map V T) (w : W) (r : Outcome W)
      → lookup id m' ≡ lookup id m
      → Keeps (λ v. rows v id) w r
      → Other id m w (with_map m' r)
  Other-of_Keeps id m m' w (done v) e h = (h, e)
  Other-of_Keeps id m m' w (fail x v) e h = h

  pub Own-of_Keeps :
      (x : T) (m : Map V T) (w : W) (r : Outcome W)
      → Agrees (eq p s) (rows w (s.uuid x)) (some x)
      → Keeps (λ v. rows v (s.uuid x)) w r
      → Own x w (with_map (Map.delete (s.uuid x) m) r)
  Own-of_Keeps x m w (done v) e h = (rw h e, simp map_laws)
  Own-of_Keeps x m w (fail y v) e h = inl h

  pub Own-of_Moves :
      (x : T) (m : Map V T) (w : W) (r : Outcome W)
      → Moves (λ v. rows v (s.uuid x)) (some x) w r
      → Own x w (with_map (Map.delete (s.uuid x) m) r)
  Own-of_Moves x m w (done v) h = (inl h, simp map_laws)
  Own-of_Moves x m w (fail y v) (inl h) = inl h
  Own-of_Moves x m w (fail y v) (inr h) = inr (inl h)

  pub Own-of_insert :
      (x : T) (m : Map V T) (w : W) (r : Outcome W)
      → lookup (s.uuid x) m ≡ none
      → Moves (λ v. rows v (s.uuid x)) (some x) w r
      → Own x w (with_map m r)
  Own-of_insert x m w (done v) e h = (inl h, e)
  Own-of_insert x m w (fail y v) e (inl h) = inl h
  Own-of_insert x m w (fail y v) e (inr h) = inr (inl h)

  pub insert_item-Moves :
      (x : T) (w : W) (id : V)
      → Moves
          (λ v. rows v id)
          (if s.uuid x == id then some x else rows w id)
          w
          (insert_item p s a x w)
  unfolding insert_item
  insert_item-Moves x w id =
      Moves-bind (λ v. rows v id) _ w (s.insert x w) (notify s a State.insert x p.zero_value)
        (t.insert_row x w id) (λ w'. (t.notify_row x p.zero_value w' id).0)

  pub update-Moves :
      (x y : T) (w : W) (id : V)
      → Moves
          (λ v. rows v id)
          (if s.uuid x == id then some x else rows w id)
          w
          (s.update x y w >>= notify s a State.update x y)
  update-Moves x y w id =
      Moves-bind (λ v. rows v id) _ w (s.update x y w) (notify s a State.update x y)
        (t.update_row x y w id) (λ w'. (t.notify_row x y w' id).1)

  pub delete_item-Moves :
      (j : V) (m : Map V T) (w : W) (id : V)
      → Moves
          (λ v. rows v id)
          (if s.uuid (or_zero p s a (lookup j m)) == id then none else rows w id)
          w
          (delete_item p s a j m w)
  unfolding delete_item
  delete_item-Moves j m w id =
      let local = or_zero p s a (lookup j m) in
      Moves-bind (λ v. rows v id) _ w (s.delete local w)
        (notify s a State.delete p.zero_value local) (t.delete_row local w id)
        (λ w'. (t.notify_row p.zero_value local w' id).3)

  pub merge_item-Keeps :
      (x local : T) (w : W) (id : V)
      → s.uuid x == id ≡ false
      → Keeps (λ v. rows v id) w (merge_item p s a x local w)
  unfolding merge_item
  merge_item-Keeps x local w id h = elim (Bool-cases (eq p s x local)) [
    | inl e ↦ rw e ((t.notify_row local x w id).2)
    | inr e ↦ rw e (Keeps-of_Moves (λ v. rows v id) w _ (rw h at (update-Moves x local w id)))
  ]

  pub merge_item-Own :
      (x local : T) (m : Map V T) (w : W)
      → rows w (s.uuid x) ≡ some local
      → Own x w (with_map (Map.delete (s.uuid x) m) (merge_item p s a x local w))
  unfolding merge_item
  merge_item-Own x local m w h = elim (Bool-cases (eq p s x local)) [
    | inl e ↦ rw e (Own-of_Keeps x m w _ (rw h (inr e)) ((t.notify_row local x w (s.uuid x)).2))
    | inr e ↦ rw e (Own-of_Moves x m w _ (rw beq_self at (update-Moves x local w (s.uuid x))))
  ]

  pub sync_item-Other :
      (x : T) (m : Map V T) (w : W) (id : V)
      → s.uuid x == id ≡ false
      → Other id m w (sync_item p s a x m w)
  unfolding sync_item
  sync_item-Other x m w id h = elim (Option-cases (lookup (s.uuid x) m)) [
    | inl e ↦
        rw (e, sync_item)
          (Other-of_Keeps id m m w _ refl
            (Keeps-of_Moves (λ v. rows v id) w _ (rw h at (insert_item-Moves x w id))))
    | inr (local, e) ↦
        rw (e, sync_item)
          (Other-of_Keeps id m (Map.delete (s.uuid x) m) w _
            (ground (arith, h, lookup-delete (s.uuid x) id m)) (merge_item-Keeps x local w id h))
  ]

  pub sync_item-Own :
      (x : T) (m : Map V T) (w : W)
      → lookup (s.uuid x) m ≡ rows w (s.uuid x)
      → Own x w (sync_item p s a x m w)
  unfolding sync_item
  sync_item-Own x m w h = elim (Option-cases (lookup (s.uuid x) m)) [
    | inl e ↦
        rw (e, sync_item)
          (Own-of_insert x m w _ e (rw beq_self at (insert_item-Moves x w (s.uuid x))))
    | inr (local, e) ↦ rw (e, sync_item) (merge_item-Own x local m w (sym h ∙ e))
  ]
