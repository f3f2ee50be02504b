-- ===== src/Syncer.antt =====
-- pkg/syncer/syncer.go and pkg/syncer/state.go: `Syncer.Sync` brings the local table to the
-- server's data by the callbacks insert, update and delete. A callback is a function of the world
-- `W`, which stands for the tables and listeners it touches.
pub mod Table
pub mod Items
pub mod Loops
pub mod Convergence
pub mod Totality
pub mod Full
use openim_sdk_core.Prelude.{
  Bool, true, false, List, [], ◌∷◌, Option, none, some, String, Eq, if◌then◌else◌, get_or,
}
use openim_sdk_core.Prelude.Outcome.{Outcome, done, fail, ◌>>=◌}
use openim_sdk_core.Prelude.Map
use openim_sdk_core.Prelude.Map.{Map, lookup, keys}

-- The constants of state.go.
pub data State : Type 0 where
  unchanged insert update delete : State

abbrev pub Notice {ℓ} : Type ℓ → Type ℓ → Type ℓ
Notice W T = State → T → T → W → Outcome W

-- The fields of `Syncer` that `Sync` reads. `none` is a nil function.
pub record Syncer {ℓ} (W T V : Type ℓ) : Type ℓ where
  pub insert : T → W → Outcome W
  pub update : T → T → W → Outcome W
  pub delete : T → W → Outcome W
  pub notice : Option (Notice W T)
  pub equal : Option (T → T → Bool)
  pub uuid : T → V

-- What `Sync` takes from elsewhere: Go's zero value of `T`, `cmp.Equal` of go-cmp, and
-- `datautil.SliceToMap` of openimsdk/tools.
pub record Packages {ℓ} (T V : Type ℓ) : Type ℓ where
  pub zero_value : T
  pub cmp_equal : T → T → Bool
  pub slice_to_map : (T → V) → List T → Map V T

-- The last two parameters of `Sync`: its notice function and the variadic flags.
pub record Arguments {ℓ} (W T : Type ℓ) : Type ℓ where
  pub notice : Option (Notice W T)
  pub skip_deletion_and_notice : List Bool

abbrev pub skip_deletion {ℓ} : {W T : Type ℓ} → Arguments W T → Bool
skip_deletion a = get_or a.skip_deletion_and_notice 0 false

abbrev pub skip_notice {ℓ} : {W T : Type ℓ} → Arguments W T → Bool
skip_notice a = get_or a.skip_deletion_and_notice 1 false

abbrev pub pick_equal {ℓ} : {T : Type ℓ} → Option (T → T → Bool) → (T → T → Bool) → T → T → Bool
pick_equal none other = other
pick_equal (some f) other = f

abbrev pub call_notice {ℓ} : {W T : Type ℓ} → Option (Notice W T) → Notice W T
call_notice none st a b w = done w
call_notice (some f) st a b w = f st a b w

module _ {ℓ} {W T V : Type ℓ} where
  unfoldable pub eq : Packages T V → Syncer W T V → T → T → Bool
  eq p s server local = pick_equal s.equal p.cmp_equal server local

  unfoldable pub on_notice : Syncer W T V → Option (Notice W T) → Notice W T
  on_notice s fn st server local w = do
    w ← call_notice s.notice st server local w
    call_notice fn st server local w

  -- The guard `if !skipNotice` round each call of `onNotice`.
  unfoldable pub notify : Syncer W T V → Arguments W T → Notice W T
  notify s a st server local w =
      if skip_notice a then done w else on_notice s a.notice st server local w

  -- The loops' variables: the world and `localMap`.
  abbrev pub with_map : Map V T → Outcome W → Outcome (W × Map V T)
  with_map m (done w) = done (w, m)
  with_map m (fail e w) = fail e (w, m)

  abbrev pub world : Outcome (W × Map V T) → Outcome W
  world (done (w, m)) = done w
  world (fail e (w, m)) = fail e w

module _ {ℓ} {W T V : Type ℓ} ⦃k : Eq V⦄ (p : Packages T V) (s : Syncer W T V)
    (a : Arguments W T) where
  pub insert_item : T → W → Outcome W
  insert_item server w = do w ← s.insert server w; notify s a State.insert server p.zero_value w

  -- An equal pair is announced with its arguments the other way round.
  pub merge_item : T → T → W → Outcome W
  merge_item server local w =
      if eq p s server local
      then notify s a unchanged local server w
      else (s.update server local w >>= notify s a State.update server local)

  -- The body of the first loop.
  unfoldable pub sync_item : T → Map V T → W → Outcome (W × Map V T)
  unfolding insert_item merge_item
  sync_item server m w = elim (lookup (s.uuid server) m) [
    | none ↦ with_map m (insert_item server w)
    | some local ↦ with_map (Map.delete (s.uuid server) m) (merge_item server local w)
  ]

  unfoldable pub sync_server : List T → W × Map V T → Outcome (W × Map V T)
  sync_server [] l = done l
  sync_server (server ∷ rest) l = sync_item server l.1 l.0 >>= sync_server rest

  abbrev pub or_zero : Option T → T
  or_zero none = p.zero_value
  or_zero (some local) = local

  unfoldable pub delete_item : V → Map V T → W → Outcome W
  delete_item id m w = do
    let local = or_zero (lookup id m)
    w ← s.delete local w
    notify s a State.delete p.zero_value local w

  -- The second loop, over the ids that `range localMap` visits.
  unfoldable pub sync_delete : List V → W × Map V T → Outcome (W × Map V T)
  sync_delete [] l = done l
  sync_delete (id ∷ rest) l = with_map l.1 (delete_item id l.1 l.0) >>= sync_delete rest

  abbrev pub sync_rest : W × Map V T → Outcome (W × Map V T)
  sync_rest l = if skip_deletion a then done l else sync_delete (keys l.1) l

  abbrev pub both_empty : List T → List T → Bool
  both_empty [] [] = true
  both_empty _ _ = false

  unfoldable pub sync : List T → List T → W → Outcome W
  sync server_data local_data w =
      if both_empty server_data local_data
      then done w
      else world (sync_server server_data (w, p.slice_to_map s.uuid local_data) >>= sync_rest)
