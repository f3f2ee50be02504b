-- ===== src/Syncer/Convergence.antt =====
-- What `Sync` does to the local table as a whole.
use openim_sdk_core.Prelude.{
  ◌≡◌, sym, ◌∙◌, Bool, true, false, ◌⊎◌, inl, inr, List, [], ◌∷◌, Option, none, some, String, Eq,
  if◌then◌else◌, contains, arith, Bool-cases, Option-cases,
}
use openim_sdk_core.Prelude.Map.{
  Map, lookup, keys, lookup-some_of_contains, lookup-none_of_contains, contains-keys,
}
use openim_sdk_core.Prelude.Outcome.{Outcome, done, fail, ◌>>=◌, Outcome-cases}
use openim_sdk_core.Syncer.{
  or_zero, world, Syncer, Packages, Arguments, eq, skip_deletion, sync_server, sync_rest, sync,
}
use openim_sdk_core.Syncer.Table.{find, find_last, IsTable, IsLocal, DistinctIds, Agrees}
use openim_sdk_core.Syncer.Loops.{
  Progress, IsPending, Deletes, sync_server-Progress, sync_delete-Deletes,
}

-- What becomes of a row: with an item of the server it agrees with the item, and without one it is
-- deleted, or kept where deletion is skipped.
abbrev pub Settles {ℓ} :
    {T : Type ℓ} → (T → T → Bool) → Bool → Option T → Option T → Option T → Type ℓ
Settles eq skip old (some x) new = Agrees eq new (some x)
Settles eq skip old none new = new ≡ (if skip then old else none)

-- The last item with an id has that id.
find_last-uuid {ℓ κ} :
    {T : Type ℓ} {V : Type κ} ⦃e : Eq V⦄ (f : T → V) (id : V) (xs : List T) (x : T)
    → find_last f id xs ≡ some x
    → f x ≡ id
find_last-uuid f id [] x h = absurd (ground arith)
find_last-uuid ⦃e⦄ f id (y ∷ xs) x h = elim (Option-cases (find_last f id xs)) [
  | inl gone ↦ (e.beq_iff (f x) id).0 (ground (arith, gone, h))
  | inr (z, found) ↦ find_last-uuid f id xs x (ground (arith, found, h))
]

module _ {ℓ} {W T V : Type ℓ} ⦃k : Eq V⦄ (p : Packages T V) (s : Syncer W T V) (a : Arguments W T)
    (rows : W → V → Option T) (t : IsTable p s a rows) where
  keyed :
      (local_data : List T) (xs : List T) (w : W) (l : W × Map V T)
      → IsLocal s rows local_data w
      → ((id : V) → Progress p s a rows t id xs (p.slice_to_map s.uuid local_data) w (done l))
      → (j : V) → contains (keys l.1) j ≡ true
      → s.uuid (or_zero p s a (lookup j l.1)) ≡ j
  keyed local_data xs w l is_local progress j h =
      let (y, found) = lookup-some_of_contains j l.1 h in
      elim (progress j) [
        | inl (_, _, same) ↦ rw found (
            find_last-uuid s.uuid j local_data y
              (sym (t.slice_to_map_row local_data j) ∙ sym same ∙ found))
        | inr (_, _, _, gone) ↦ absurd (ground (arith, found, gone))
      ]

  IsPending-start :
      (local_data : List T) (xs : List T) (w : W)
      → IsLocal s rows local_data w
      → IsPending p s a rows t xs (p.slice_to_map s.uuid local_data) w
  IsPending-start local_data xs w is_local j h = t.slice_to_map_row local_data j ∙ sym (is_local j)

  -- What `sync` leaves of one row.
  abbrev pub Synced : V → List T → W → Outcome W → Type ℓ
  Synced id xs w (done w') =
      Settles (eq p s) (skip_deletion a) (rows w id) (find s.uuid id xs) (rows w' id)
  Synced id xs w (fail e w') =
      (rows w' id ≡ rows w id)
      ⊎ Settles (eq p s) (skip_deletion a) (rows w id) (find s.uuid id xs) (rows w' id)

  Synced-of_fail :
      (id : V) (xs : List T) (m : Map V T) (w : W) (e : String) (l : W × Map V T)
      → Progress p s a rows t id xs m w (fail e l)
      → Synced id xs w (fail e l.0)
  Synced-of_fail id xs m w e l (inl kept) = inl kept
  Synced-of_fail id xs m w e l (inr (x, found, own)) = inr (rw found own)

  Synced-of_skip :
      (id : V) (xs : List T) (m : Map V T) (w : W) (l : W × Map V T)
      → skip_deletion a ≡ true
      → Progress p s a rows t id xs m w (done l)
      → Synced id xs w (done l.0)
  Synced-of_skip id xs m w l skip (inl (out, kept, _)) = rw (out, skip) kept
  Synced-of_skip id xs m w l skip (inr (x, found, own, _)) = rw found own

  Synced-of_delete :
      (id : V) (xs : List T) (m : Map V T) (w : W) (l : W × Map V T) (r : Outcome (W × Map V T))
      → skip_deletion a ≡ false
      → lookup id m ≡ rows w id
      → Progress p s a rows t id xs m w (done l)
      → Deletes p s a rows t id (keys l.1) l.0 r
      → Synced id xs w (world r)
  Synced-of_delete id xs m w l (done n) skip start (inl (out, kept, same)) (inl (out', kept')) =
      rw (out, skip) (kept' ∙ kept ∙ sym start ∙ sym same ∙ lookup-none_of_contains id l.1 out')
  Synced-of_delete id xs m w l (done n) skip start (inl (out, kept, same)) (inr (_, gone)) =
      rw (out, skip) gone
  Synced-of_delete id xs m w l (done n) skip start (inr (x, found, own, _)) (inl (_, kept)) =
      rw (found, kept) own
  Synced-of_delete id xs m w l (done n) skip start (inr (x, found, own, gone)) (inr (has, _)) =
      absurd (ground (arith, has, contains-keys id l.1 gone))
  Synced-of_delete id xs m w l (fail e n) skip start (inl (out, kept, same)) (inl kept') =
      inl (kept' ∙ kept)
  Synced-of_delete id xs m w l (fail e n) skip start (inl (out, kept, same)) (inr (_, gone)) =
      inr (rw (out, skip) gone)
  Synced-of_delete id xs m w l (fail e n) skip start (inr (x, found, own, _)) (inl kept) =
      inr (rw (found, kept) own)
  Synced-of_delete id xs m w l (fail e n) skip start (inr (x, found, own, gone)) (inr (has, _)) =
      absurd (ground (arith, has, contains-keys id l.1 gone))

  Synced-of_server :
      (local_data xs : List T) (w : W) (id : V)
      → IsLocal s rows local_data w
      → DistinctIds s.uuid xs
      → Synced id xs w
          (world (sync_server p s a xs (w, p.slice_to_map s.uuid local_data) >>= sync_rest p s a))
  Synced-of_server local_data xs w id is_local d =
      let m = p.slice_to_map s.uuid local_data in
      let progress = λ (j : V).
        sync_server-Progress p s a rows t j xs m w d (IsPending-start local_data xs w is_local) in
      elim (Outcome-cases (sync_server p s a xs (w, m))) [
        | inl (l, e) ↦ elim (Bool-cases (skip_deletion a)) [
          | inl skip ↦ rw (e, skip) (Synced-of_skip id xs m w l skip (rw e at (progress id)))
          | inr skip ↦
              rw (e, skip)
                (Synced-of_delete id xs m w l _ skip
                  (t.slice_to_map_row local_data id ∙ sym (is_local id)) (rw e at (progress id))
                  (sync_delete-Deletes p s a rows t id (keys l.1) l.1 l.0
                    (keyed local_data xs w l is_local (λ j. rw e at (progress j)))))
        ]
        | inr (y, l, e) ↦ rw e (Synced-of_fail id xs m w y l (rw e at (progress id)))
      ]

  -- Whatever `Sync` returns, no error or the first error of a callback, each row of the table has
  -- come to the server's item for its id, or has the value it had if an error cut the run short.
  -- After a run with no error every row agrees with the server's item for its id, and a row for
  -- which the server has none is gone, or as it was where deletion is skipped. This is for
  -- callbacks that keep a table, local data that are its rows, and server data with distinct ids.
  pub sync-Synced :
      (server_data local_data : List T) (w : W) (id : V)
      → IsLocal s rows local_data w
      → DistinctIds s.uuid server_data
      → Synced id server_data w (sync p s a server_data local_data w)
  unfolding sync
  sync-Synced [] [] w id is_local d = elim (Bool-cases (skip_deletion a)) [
    | inl skip ↦ rw skip
    | inr skip ↦ rw skip (is_local id)
  ]
  sync-Synced (x ∷ xs) ys w id is_local d = Synced-of_server ys (x ∷ xs) w id is_local d
  sync-Synced xs (y ∷ ys) w id is_local d = Synced-of_server (y ∷ ys) xs w id is_local d
