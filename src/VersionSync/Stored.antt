-- ===== src/VersionSync/Stored.antt =====
-- The stored version changes only at the end of a run that succeeds.
use openim_sdk_core.Prelude.{
  ℕ, ◌+◌, ◌≡◌, ◌⊎◌, refl, ◌∙◌, List, ◌++◌, Option, none, some, String, string_eq, nat_eq, ◌==◌, leb,
  inl, inr, Bool-cases,
}
use openim_sdk_core.Prelude.Outcome.{Outcome, done, fail, ◌>>=◌, state_of, Result, ok, err}
use openim_sdk_core.VersionSync.{
  LocalVersionSync, VersionSynchronizer, Datautil, get_version_info, update_version_info, no_data,
  store_ids, store_full_id, with_result, sync_local, sync_from, sync_full, process, order_changed,
  finish_delta, overlay, apply_incremental, sync_from_server, incremental_sync, apply_next,
  check_version, check_version_sync,
}

-- The callbacks for the data leave the stored version alone, and `SetVersionSync` stores the version
-- that it is given, or fails and stores nothing.
pub record IsSeparate {W V R E : Type 0} (s : VersionSynchronizer W V R E) (stored : W → String × ℕ)
    : Type 0 where
  pub syncer_keeps :
      (server local : List V) (w : W) → stored (state_of (s.syncer server local w)) ≡ stored w
  pub full_syncer_keeps : (w : W) → stored (state_of (s.full_syncer w)) ≡ stored w
  pub processor_keeps :
      (f : E → W → Outcome W) (x : E) (w : W)
      → s.extra_data_processor ≡ some f
      → stored (state_of (f x w)) ≡ stored w
  pub sets :
      (lvs : LocalVersionSync) (w w' : W)
      → s.set_version_sync lvs w ≡ done w'
      → stored w' ≡ (lvs.version_id, lvs.version)
  pub fails :
      (lvs : LocalVersionSync) (w w' : W) (e : String)
      → s.set_version_sync lvs w ≡ fail e w'
      → stored w' ≡ stored w

module _ {W V R E : Type 0} (p : Datautil V) (s : VersionSynchronizer W V R E)
    (stored : W → String × ℕ) (separate : IsSeparate s stored) where
  -- With an error the version is as it was; else it is as it was or that of an answer.
  abbrev pub Versioned : (R → Type 0) → W → Outcome W → Type 0
  Versioned answered w (fail e w') = stored w' ≡ stored w
  Versioned answered w (done w') =
      (stored w' ≡ stored w) ⊎ ((resp : R) × answered resp × (stored w' ≡ s.version resp))

  bind-Versioned :
      (answered : R → Type 0) (w : W) (r : Outcome W) (f : W → Outcome W)
      → stored (state_of r) ≡ stored w
      → ((w' : W) → stored w' ≡ stored w → Versioned answered w (f w'))
      → Versioned answered w (r >>= f)
  bind-Versioned answered w (done w') f e k = k w' e
  bind-Versioned answered w (fail m w') f e k = e

  outcome-Versioned :
      (answered : R → Type 0) (w w1 : W) (resp : R) (lvs : LocalVersionSync) (r : Outcome W)
      → answered resp
      → stored w1 ≡ stored w
      → (lvs.version_id, lvs.version) ≡ s.version resp
      → s.set_version_sync lvs w1 ≡ r
      → Versioned answered w r
  outcome-Versioned answered w w1 resp lvs (done w') a e v h =
      inr (resp, a, separate.sets lvs w1 w' h ∙ v)
  outcome-Versioned answered w w1 resp lvs (fail m w') a e v h = separate.fails lvs w1 w' m h ∙ e

  update-Versioned :
      (answered : R → Type 0) (w w1 : W) (resp : R) (lvs : LocalVersionSync)
      → answered resp
      → stored w1 ≡ stored w
      → Versioned answered w (update_version_info p s lvs resp w1)
  unfolding update_version_info
  update-Versioned answered w w1 resp lvs a e =
      outcome-Versioned answered w w1 resp
        (record lvs {
          table = s.table_name;
          entity_id = s.entity_id;
          version_id = (s.version resp).0;
          version = (s.version resp).1;
        })
        _ a e refl refl

  store-Versioned :
      (answered : R → Type 0) (w w1 : W) (resp : R) (lvs : LocalVersionSync)
      (ids : Result (List String))
      → answered resp
      → stored w1 ≡ stored w
      → Versioned answered w (store_full_id p s lvs resp w1 ids)
  unfolding store_full_id store_ids
  store-Versioned answered w w1 resp lvs (err m) a e = e
  store-Versioned answered w w1 resp lvs (ok ids) a e =
      update-Versioned answered w w1 resp (record lvs { uid_list = ids }) a e

  with-Versioned :
      {A : Type 0} (answered : R → Type 0) (w : W) (r : Result A) (f : A → Outcome W)
      → ((a : A) → r ≡ ok a → Versioned answered w (f a))
      → Versioned answered w (with_result r w f)
  with-Versioned answered w (err m) f k = refl
  with-Versioned answered w (ok a) f k = k a refl

  full-Versioned :
      (answered : R → Type 0) (w : W) (resp : R) (lvs : LocalVersionSync)
      → answered resp
      → Versioned answered w (sync_full p s lvs resp w)
  unfolding sync_full
  full-Versioned answered w resp lvs a =
      bind-Versioned answered w (s.full_syncer w)
        (λ w'. store_full_id p s lvs resp w' (s.full_id w')) (separate.full_syncer_keeps w)
        (λ w' e. store-Versioned answered w w' resp lvs (s.full_id w') a e)

  process_keeps :
      (x : Option E) (f : Option (E → W → Outcome W)) (w : W)
      → s.extra_data_processor ≡ f
      → stored (state_of (process p s x f w)) ≡ stored w
  process_keeps none f w h = refl
  process_keeps (some x) none w h = refl
  process_keeps (some x) (some f) w h = separate.processor_keeps f x w h

  process_after :
      (r : Outcome W) (w : W) (x : Option E)
      → stored (state_of r) ≡ stored w
      → stored (state_of (r >>= process p s x s.extra_data_processor)) ≡ stored w
  process_after (done w') w x e = process_keeps x s.extra_data_processor w' refl ∙ e
  process_after (fail m w') w x e = e

  finish-Versioned :
      (answered : R → Type 0) (w w1 : W) (resp : R) (lvs : LocalVersionSync)
      → answered resp
      → stored w1 ≡ stored w
      → Versioned answered w (finish_delta p s lvs resp w1)
  unfolding finish_delta
  finish-Versioned answered w w1 resp lvs a e =
      elim (Bool-cases (order_changed p s s.id_order_changed resp)) [
        | inl h ↦ rw h (store-Versioned answered w w1 resp lvs (s.full_id w1) a e)
        | inr h ↦ rw h (update-Versioned answered w w1 resp lvs a e)
      ]

  local-Versioned :
      (answered : R → Type 0) (w : W) (resp : R) (changes : List V) (lvs : LocalVersionSync)
      (r : Result (List V))
      → answered resp
      → Versioned answered w (sync_local p s lvs changes resp w r)
  unfolding sync_local
  local-Versioned answered w resp changes lvs (err m) a = refl
  local-Versioned answered w resp changes lvs (ok local) a =
      let server = p.values (overlay p s changes (s.delete resp) local) in
      bind-Versioned answered w
        (s.syncer server local w >>= process p s (s.extra_data resp) s.extra_data_processor)
        (finish_delta p s lvs resp)
        (process_after (s.syncer server local w) w (s.extra_data resp)
          (separate.syncer_keeps server local w))
        (λ w' e. finish-Versioned answered w w' resp lvs a e)

  incremental-Versioned :
      (answered : R → Type 0) (w : W) (resp : R) (lvs : LocalVersionSync)
      → answered resp
      → Versioned answered w (apply_incremental p s lvs resp w)
  unfolding apply_incremental
  incremental-Versioned answered w resp lvs a = elim (Bool-cases (no_data p s resp)) [
    | inl none_new ↦ rw none_new (inl refl)
    | inr new ↦ elim (Bool-cases (s.full resp)) [
      | inl all ↦ rw (new, all) (full-Versioned answered w resp lvs a)
      | inr delta ↦
          rw (new, delta)
            (local-Versioned answered w resp (s.update resp ++ s.insert resp) _ (s.local w) a)
    ]
  ]

  -- The response is the pushed one or an answer of the server.
  abbrev pub Answered : W → R → Type 0
  Answered w resp =
      (s.server_version ≡ some resp) ⊎ ((lvs : LocalVersionSync) × (s.server lvs w ≡ ok resp))

  server-Versioned : (w : W) → Versioned (Answered w) w (sync_from_server p s w)
  unfolding sync_from_server
  server-Versioned w = with-Versioned (Answered w) w (get_version_info p s w) _ (λ lvs h.
      with-Versioned (Answered w) w (s.server lvs w) _
        (λ resp h'. incremental-Versioned (Answered w) w resp lvs (inr (lvs, h'))))

  from-Versioned :
      (w : W) (o : Option R) → s.server_version ≡ o → Versioned (Answered w) w (sync_from p s o w)
  unfolding sync_from
  from-Versioned w none h = server-Versioned w
  from-Versioned w (some resp) h =
      with-Versioned (Answered w) w (get_version_info p s w) _
        (λ lvs h'. incremental-Versioned (Answered w) w resp lvs (inl h))

  -- A run of `IncrementalSync` that fails anywhere leaves the stored version as it was; one that
  -- succeeds leaves it or stores the version of the response, which is the pushed one or the server's
  -- answer. This is for callbacks for the data that leave the stored version alone, and a database
  -- that stores the version it is given or fails and stores none.
  pub incremental_sync-Versioned : (w : W) → Versioned (Answered w) w (incremental_sync p s w)
  incremental_sync-Versioned w = from-Versioned w s.server_version refl

  next-Versioned :
      (answered : R → Type 0) (w : W) (resp : R) (lvs : LocalVersionSync)
      → answered resp
      → Versioned answered w (apply_next p s lvs resp w)
  unfolding apply_next
  next-Versioned answered w resp lvs a =
      local-Versioned answered w resp (s.update resp ++ s.insert resp) _ (s.local w) a

  check-Versioned :
      (w : W) (resp : R) (lvs : LocalVersionSync)
      → s.server_version ≡ some resp
      → Versioned (Answered w) w (check_version p s lvs resp w)
  check-Versioned w resp lvs given = elim (Bool-cases (no_data p s resp)) [
    | inl none_new ↦ rw none_new (inl refl)
    | inr new ↦ elim (Bool-cases ((s.version resp).0 == lvs.version_id)) [
      | inr other ↦ rw (new, other) (server-Versioned w)
      | inl same ↦ elim (Bool-cases (lvs.version + 1 == (s.version resp).1)) [
        | inl next ↦ rw (new, same, next) (next-Versioned (Answered w) w resp lvs (inl given))
        | inr gap ↦ elim (Bool-cases (leb (s.version resp).1 lvs.version)) [
          | inl old ↦ rw (new, same, gap, old) (inl refl)
          | inr ahead ↦ rw (new, same, gap, ahead) (server-Versioned w)
        ]
      ]
    ]
  ]

  -- The same of `CheckVersionSync`, for the same callbacks and database and with the notification as
  -- the pushed version: an error leaves the stored version as it was, and success leaves it or stores
  -- the version of the notification or of an answer of the server.
  pub check_version_sync-Versioned :
      (w : W) (resp : R)
      → s.server_version ≡ some resp
      → Versioned (Answered w) w (check_version_sync p s resp w)
  unfolding check_version_sync
  check_version_sync-Versioned w resp given =
      with-Versioned (Answered w) w (get_version_info p s w) _
        (λ lvs h. check-Versioned w resp lvs given)
