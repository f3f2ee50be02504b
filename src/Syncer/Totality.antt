-- ===== src/Syncer/Totality.antt =====
-- `Sync` with callbacks that return no error.
use openim_sdk_core.Prelude.{
  ◌≡◌, refl, inl, inr, List, [], ◌∷◌, Option, Eq, Bool-cases, Option-cases,
}
use openim_sdk_core.Prelude.Map.{Map, lookup, keys}
use openim_sdk_core.Prelude.Outcome.{Outcome, done, Done, Done-bind}
use openim_sdk_core.Syncer.{
  with_map, world, Syncer, Packages, Arguments, State, notify, call_notice, on_notice, skip_notice,
  skip_deletion, eq, insert_item, merge_item, sync_item, sync_server, delete_item, sync_delete,
  sync_rest, sync,
}
use openim_sdk_core.Syncer.Table.{IsTable, IsLocal, DistinctIds, find}
use openim_sdk_core.Syncer.Convergence.{Settles, sync-Synced}

module _ {ℓ} {W T V : Type ℓ} (s : Syncer W T V) (a : Arguments W T) where
  pub record IsReliable : Type ℓ where
    pub insert_done : (x : T) (w : W) → Done (s.insert x w)
    pub update_done : (x y : T) (w : W) → Done (s.update x y w)
    pub delete_done : (x : T) (w : W) → Done (s.delete x w)
    pub own_notice_done : (st : State) (x y : T) (w : W) → Done (call_notice s.notice st x y w)
    pub notice_done : (st : State) (x y : T) (w : W) → Done (call_notice a.notice st x y w)

Done-with_map {ℓ} : {W T V : Type ℓ} (m : Map V T) (r : Outcome W) → Done r → Done (with_map m r)
Done-with_map m r (w, e) = ((w, m), rw e)

Done-world {ℓ} : {W T V : Type ℓ} (r : Outcome (W × Map V T)) → Done r → Done (world r)
Done-world r (l, e) = (l.0, rw e)

module _ {ℓ} {W T V : Type ℓ} ⦃k : Eq V⦄ (p : Packages T V) (s : Syncer W T V) (a : Arguments W T)
    (h : IsReliable s a) where
  notify-Done : (st : State) (x y : T) (w : W) → Done (notify s a st x y w)
  unfolding notify on_notice
  notify-Done st x y w = elim (Bool-cases (skip_notice a)) [
    | inl skip ↦ (w, rw skip)
    | inr skip ↦ rw skip (Done-bind _ _ (h.own_notice_done st x y w) (h.notice_done st x y))
  ]

  sync_item-Done : (x : T) (m : Map V T) (w : W) → Done (sync_item p s a x m w)
  unfolding sync_item insert_item merge_item
  sync_item-Done x m w = elim (Option-cases (lookup (s.uuid x) m)) [
    | inl e ↦
        rw (e, sync_item)
          (Done-with_map _ _ (Done-bind _ _ (h.insert_done x w) (notify-Done _ x _)))
    | inr (local, e) ↦
        rw (e, sync_item)
          (Done-with_map _ _ (elim (Bool-cases (eq p s x local)) [
            | inl same ↦ rw same (notify-Done _ local x w)
            | inr differ ↦
                rw differ (Done-bind _ _ (h.update_done x local w) (notify-Done _ x local))
          ]))
  ]

  sync_server-Done : (xs : List T) (l : W × Map V T) → Done (sync_server p s a xs l)
  unfolding sync_server
  sync_server-Done [] l = (l, refl)
  sync_server-Done (x ∷ xs) l = Done-bind _ _ (sync_item-Done x l.1 l.0) (sync_server-Done xs)

  sync_delete-Done : (ids : List V) (l : W × Map V T) → Done (sync_delete p s a ids l)
  unfolding sync_delete delete_item
  sync_delete-Done [] l = (l, refl)
  sync_delete-Done (id ∷ ids) l =
      Done-bind _ _ (Done-with_map _ _ (Done-bind _ _ (h.delete_done _ l.0) (notify-Done _ _ _)))
        (sync_delete-Done ids)

  sync_rest-Done : (l : W × Map V T) → Done (sync_rest p s a l)
  sync_rest-Done l = elim (Bool-cases (skip_deletion a)) [
    | inl skip ↦ (l, rw skip)
    | inr skip ↦ rw skip (sync_delete-Done (keys l.1) l)
  ]

  sync-Done : (server_data local_data : List T) (w : W) → Done (sync p s a server_data local_data w)
  unfolding sync
  sync-Done [] [] w = (w, refl)
  sync-Done (x ∷ xs) ys w =
      Done-world _ (Done-bind _ _ (sync_server-Done (x ∷ xs) _) sync_rest-Done)
  sync-Done xs (y ∷ ys) w = Done-world _ (Done-bind _ _ (sync_server-Done xs _) sync_rest-Done)

  -- With callbacks that return no error `Sync` returns none, and brings every row of the table to
  -- the server's data: a row of an id of the server agrees with the server's item, and any other
  -- row is gone, or as it was where deletion is skipped. This is for callbacks that keep a table,
  -- local data that are its rows, and server data with distinct ids.
  pub sync_converges :
      (rows : W → V → Option T) (t : IsTable p s a rows) (server_data local_data : List T) (w : W)
      → IsLocal s rows local_data w
      → DistinctIds s.uuid server_data
      → (w' : W) × (sync p s a server_data local_data w ≡ done w')
        × ((id : V)
            → Settles
                (eq p s)
                (skip_deletion a)
                (rows w id)
                (find s.uuid id server_data)
                (rows w' id))
  sync_converges rows t server_data local_data w is_local d =
      let (w', e) = sync-Done server_data local_data w in
      (w', e, λ id. rw e at (sync-Synced p s a rows t server_data local_data w id is_local d))
