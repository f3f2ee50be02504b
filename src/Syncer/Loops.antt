-- ===== src/Syncer/Loops.antt =====
-- The loops of `Sync`, against the rows of the local table.
use openim_sdk_core.Prelude.{
  ◌≡◌, refl, subst, ◌∙◌, true, false, ◌⊎◌, inl, inr, List, [], ◌∷◌, Option, none, some, String, Eq,
  ◌==◌, ◌||◌, if◌then◌else◌, map, contains, arith, Bool-cases,
}
use openim_sdk_core.Prelude.Map.{Map, lookup, beq_self}
use openim_sdk_core.Prelude.Outcome.{Outcome, done, fail, Outcome-cases}
use openim_sdk_core.Syncer.{
  or_zero, Syncer, Packages, Arguments, eq, sync_item, sync_server, delete_item, sync_delete,
}
use openim_sdk_core.Syncer.Table.{find, IsTable, DistinctIds, Agrees}
use openim_sdk_core.Syncer.Items.{
  find-none_of_contains, sync_item-Other, sync_item-Own, delete_item-Moves,
}

module _ {ℓ} {W T V : Type ℓ} ⦃k : Eq V⦄ (p : Packages T V) (s : Syncer W T V) (a : Arguments W T)
    (rows : W → V → Option T) (t : IsTable p s a rows) where
  -- Where the loop over the server's items has come to, for one id.
  abbrev pub Progress : V → List T → Map V T → W → Outcome (W × Map V T) → Type ℓ
  Progress id xs m w (done l) =
      ((find s.uuid id xs ≡ none) × (rows l.0 id ≡ rows w id) × (lookup id l.1 ≡ lookup id m))
      ⊎ ((x : T) × (find s.uuid id xs ≡ some x)
          × Agrees (eq p s) (rows l.0 id) (some x)
          × (lookup id l.1 ≡ none))
  Progress id xs m w (fail e l) =
      (rows l.0 id ≡ rows w id)
      ⊎ ((x : T) × (find s.uuid id xs ≡ some x) × Agrees (eq p s) (rows l.0 id) (some x))

  -- What the loop over the entries left has done for one id.
  abbrev pub Deletes : V → List V → W → Outcome (W × Map V T) → Type ℓ
  Deletes id ids w (done l) =
      ((contains ids id ≡ false) × (rows l.0 id ≡ rows w id))
      ⊎ ((contains ids id ≡ true) × (rows l.0 id ≡ none))
  Deletes id ids w (fail e l) =
      (rows l.0 id ≡ rows w id) ⊎ ((contains ids id ≡ true) × (rows l.0 id ≡ none))

  -- `localMap` still has the row of every item to come.
  abbrev pub IsPending : List T → Map V T → W → Type ℓ
  IsPending xs m w = (j : V) → contains (map s.uuid xs) j ≡ true → lookup j m ≡ rows w j

  pub IsPending-next :
      (x : T) (xs : List T) (m : Map V T) (w : W) (l : W × Map V T)
      → contains (map s.uuid xs) (s.uuid x) ≡ false
      → IsPending (x ∷ xs) m w
      → sync_item p s a x m w ≡ done l
      → IsPending xs l.1 l.0
  IsPending-next x xs m w l fresh pending e j later =
      let apart : s.uuid x == j ≡ false = ground (arith, k.beq_iff (s.uuid x) j) in
      ground (arith, e, apart, pending j, sync_item-Other p s a rows t x m w j apart)

  pub Progress-cons_own :
      (x : T) (xs : List T) (m m' : Map V T) (w w' : W) (r : Outcome (W × Map V T))
      → contains (map s.uuid xs) (s.uuid x) ≡ false
      → Agrees (eq p s) (rows w' (s.uuid x)) (some x)
      → lookup (s.uuid x) m' ≡ none
      → Progress (s.uuid x) xs m' w' r
      → Progress (s.uuid x) (x ∷ xs) m w r
  Progress-cons_own x xs m m' w w' (done l) fresh own gone (inl (_, kept, same)) =
      inr (x, simp beq_self, rw kept own, same ∙ gone)
  Progress-cons_own x xs m m' w w' (done l) fresh own gone (inr (y, found, _, _)) =
      absurd (ground (arith, found, find-none_of_contains s.uuid (s.uuid x) xs fresh))
  Progress-cons_own x xs m m' w w' (fail e l) fresh own gone (inl kept) =
      inr (x, simp beq_self, rw kept own)
  Progress-cons_own x xs m m' w w' (fail e l) fresh own gone (inr (y, found, _)) =
      absurd (ground (arith, found, find-none_of_contains s.uuid (s.uuid x) xs fresh))

  pub Progress-cons_other :
      (id : V) (x : T) (xs : List T) (m m' : Map V T) (w w' : W) (r : Outcome (W × Map V T))
      → s.uuid x == id ≡ false
      → rows w' id ≡ rows w id
      → lookup id m' ≡ lookup id m
      → Progress id xs m' w' r
      → Progress id (x ∷ xs) m w r
  Progress-cons_other id x xs m m' w w' (done l) h row left (inl (none_left, kept, same)) =
      inl (rw h none_left, kept ∙ row, same ∙ left)
  Progress-cons_other id x xs m m' w w' (done l) h row left (inr (y, found, own, gone)) =
      inr (y, rw h found, own, gone)
  Progress-cons_other id x xs m m' w w' (fail e l) h row left (inl kept) = inl (kept ∙ row)
  Progress-cons_other id x xs m m' w w' (fail e l) h row left (inr (y, found, own)) =
      inr (y, rw h found, own)

  Progress-cons :
      (id : V) (x : T) (xs : List T) (m : Map V T) (w : W) (l : W × Map V T)
      (r : Outcome (W × Map V T))
      → contains (map s.uuid xs) (s.uuid x) ≡ false
      → lookup (s.uuid x) m ≡ rows w (s.uuid x)
      → sync_item p s a x m w ≡ done l
      → Progress id xs l.1 l.0 r
      → Progress id (x ∷ xs) m w r
  Progress-cons id x xs m w l r fresh pending e ih = elim (Bool-cases (s.uuid x == id)) [
    | inl here ↦
        let own = rw e at (sync_item-Own p s a rows t x m w pending) in
        subst (λ j. Progress j xs l.1 l.0 r → Progress j (x ∷ xs) m w r)
          ((k.beq_iff (s.uuid x) id).0 here)
          (Progress-cons_own x xs m l.1 w l.0 r fresh own.0 own.1) ih
    | inr there ↦
        let other = rw e at (sync_item-Other p s a rows t x m w id there) in
        Progress-cons_other id x xs m l.1 w l.0 r there other.0 other.1 ih
  ]

  Progress-fail :
      (id : V) (x : T) (xs : List T) (m : Map V T) (w : W) (y : String) (l : W × Map V T)
      → lookup (s.uuid x) m ≡ rows w (s.uuid x)
      → sync_item p s a x m w ≡ fail y l
      → Progress id (x ∷ xs) m w (fail y l)
  Progress-fail id x xs m w y l pending e = elim (Bool-cases (s.uuid x == id)) [
    | inl here ↦
        subst (λ j. Progress j (x ∷ xs) m w (fail y l)) ((k.beq_iff (s.uuid x) id).0 here)
          (elim (rw e at (sync_item-Own p s a rows t x m w pending)) [
            | inl kept ↦ inl kept
            | inr own ↦ inr (x, simp beq_self, own)
          ])
    | inr there ↦ inl (rw e at (sync_item-Other p s a rows t x m w id there))
  ]

  pub sync_server-Progress :
      (id : V) (xs : List T) (m : Map V T) (w : W)
      → DistinctIds s.uuid xs
      → IsPending xs m w
      → Progress id xs m w (sync_server p s a xs (w, m))
  unfolding sync_server
  sync_server-Progress id [] m w d pending = inl (refl, refl, refl)
  sync_server-Progress id (x ∷ xs) m w d pending = elim (Outcome-cases (sync_item p s a x m w)) [
    | inl (l, e) ↦ rw e (
        Progress-cons id x xs m w l (sync_server p s a xs l) d.0
          (pending (s.uuid x) (simp beq_self)) e
          (sync_server-Progress id xs l.1 l.0 d.1 (IsPending-next x xs m w l d.0 pending e)))
    | inr (y, l, e) ↦ rw e (Progress-fail id x xs m w y l (pending (s.uuid x) (simp beq_self)) e)
  ]

  Deletes-cons :
      (id j : V) (ids : List V) (w w' : W) (r : Outcome (W × Map V T))
      → rows w' id ≡ (if j == id then none else rows w id)
      → Deletes id ids w' r
      → Deletes id (j ∷ ids) w r
  Deletes-cons id j ids w w' (done l) h d = elim (Bool-cases (j == id)) [
    | inl here ↦ inr (ground (arith, here), ground (arith, here, d, h))
    | inr there ↦ elim d [
      | inl kept ↦ inl (ground (arith, there, kept), ground (arith, there, kept, h))
      | inr gone ↦ inr (ground (arith, there, gone), gone.1)
    ]
  ]
  Deletes-cons id j ids w w' (fail e l) h d = elim (Bool-cases (j == id)) [
    | inl here ↦ inr (ground (arith, here), ground (arith, here, d, h))
    | inr there ↦ elim d [
      | inl kept ↦ inl (ground (arith, there, kept, h))
      | inr gone ↦ inr (ground (arith, there, gone), gone.1)
    ]
  ]

  -- The deletion loop, for one id: `ids` are ids of entries of `localMap`.
  pub sync_delete-Deletes :
      (id : V) (ids : List V) (m : Map V T) (w : W)
      → ((j : V) → contains ids j ≡ true → s.uuid (or_zero p s a (lookup j m)) ≡ j)
      → Deletes id ids w (sync_delete p s a ids (w, m))
  unfolding sync_delete
  sync_delete-Deletes id [] m w keyed = inl (refl, refl)
  sync_delete-Deletes id (j ∷ ids) m w keyed = elim (Outcome-cases (delete_item p s a j m w)) [
    | inl (w', e) ↦ rw e (
        Deletes-cons id j ids w w' (sync_delete p s a ids (w', m))
          (ground (arith, e, keyed j here, delete_item-Moves p s a rows t j m w id))
          (sync_delete-Deletes id ids m w' (λ i h. keyed i (later i h))))
    | inr (y, w', e) ↦
        rw e (ground (arith, e, keyed j here, delete_item-Moves p s a rows t j m w id))
  ]
    where
      here : (j == j || contains ids j) ≡ true
      here = simp beq_self

      later : (i : V) → contains ids i ≡ true → (j == i || contains ids i) ≡ true
      later i h = ground arith
