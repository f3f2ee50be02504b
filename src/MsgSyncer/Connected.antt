-- ===== src/MsgSyncer/Connected.antt =====
-- What a connection event does from its first flag to its last, and that synchronisations do not
-- overlap.
use openim_sdk_core.Prelude.{
  ℕ, zero, suc, ◌+◌, ◌≤◌, ◌<◌, ◌≡◌, refl, ap, ◌∙◌, Bool, true, false, List, [], ◌∷◌, ◌++◌, ◌⊎◌, inl,
  inr, String, arith, replicate, Bool-cases,
}
use openim_sdk_core.Prelude.Map.{Map}
use openim_sdk_core.Prelude.Outcome.{Result, ok, err, Result-cases}
use openim_sdk_core.MsgSyncer.{
  Event, MsgSyncer, Server, msg_sync_failed, send, sync_flag, get_newest_seq,
}
use openim_sdk_core.MsgSyncer.Events.{
  start_sync, sync_timer, get_max_seq, begin_flag, end_flag, after_max_seq, max_retries,
  connect_pull_nums, do_connected,
}
use openim_sdk_core.MsgSyncer.Flags.{Beat, ask, flag, beats, compare_seqs_and_batch_sync_quiet}

-- What the log is after `n` requests for the maxima.
abbrev pub asked : ℕ → List Event → List Event
asked zero log = log
asked (suc n) log = asked n (get_newest_seq ∷ log)

-- The server refuses `n` requests for the maxima, one after the other.
abbrev pub Refuses : Server → ℕ → List Event → Type 0
Refuses server zero log = Unit
Refuses server (suc n) log =
    ((e : String) × (server.max_seqs log ≡ err e)) × Refuses server n (get_newest_seq ∷ log)

-- It refuses `n` of them and answers the next.
abbrev pub Answers : Server → ℕ → List Event → Type 0
Answers server n log =
    Refuses server n log × (maxs : Map String ℕ) × (server.max_seqs (asked n log) ≡ ok maxs)

-- What the attempts leave: they go on until a request is answered, or all `n` are refused.
abbrev Attempts : Server → ℕ → MsgSyncer → MsgSyncer × Result (Map String ℕ) → Type 0
Attempts server n m (m', ok maxs) =
    (k : ℕ) × (k < n)
    × Answers server k m.log
    × (beats m'.log ≡ replicate (suc k) ask ++ beats m.log)
    × (m'.reinstalled ≡ m.reinstalled)
Attempts server n m (m', err e) =
    Refuses server n m.log
    × (beats m'.log ≡ replicate n ask ++ beats m.log)
    × (m'.synced_max_seqs ≡ m.synced_max_seqs)
    × (m'.reinstalled ≡ m.reinstalled)

replicate_shift :
    (k : ℕ) (l : List Beat) → replicate k ask ++ (ask ∷ l) ≡ replicate (suc k) ask ++ l
replicate_shift zero l = refl
replicate_shift (suc k) l = ap (◌∷◌ ask) (replicate_shift k l)

Attempts-suc :
    (server : Server) (n : ℕ) (e : String) (m : MsgSyncer) (r : MsgSyncer × Result (Map String ℕ))
    → server.max_seqs m.log ≡ err e
    → Attempts server n (send get_newest_seq m) r
    → Attempts server (suc n) m r
Attempts-suc server n e m (m', ok maxs) refused (k, lt, (refuses, maxs', answers), h, same) = (
  suc k,
  omega arith,
  (((e, refused), refuses), maxs', answers),
  h ∙ replicate_shift (suc k) (beats m.log),
  same,
)
Attempts-suc server n e m (m', err x) refused (refuses, h, seqs, same) =
    (((e, refused), refuses), h ∙ replicate_shift n (beats m.log), seqs, same)

get_max_seq-Attempts :
    (server : Server) (n : ℕ) (x : String) (m : MsgSyncer)
    → Attempts server n m (get_max_seq server n (err x) m)
unfolding get_max_seq
get_max_seq-Attempts server zero x m = (tt, refl, refl, refl)
get_max_seq-Attempts server (suc n) x m = elim (Result-cases (server.max_seqs m.log)) [
  | inl (maxs, e) ↦ rw (e, get_max_seq) (0, omega arith, (tt, maxs, e), refl, refl)
  | inr (y, e) ↦
      rw (e, get_max_seq)
        (Attempts-suc server n y m (get_max_seq server n (err y) (send get_newest_seq m)) e
          (get_max_seq-Attempts server n y (send get_newest_seq m)))
]

-- The first attempt does not read the error that is there before it.
get_max_seq-Attempts_start :
    (server : Server) (n : ℕ) (last : Result (Map String ℕ)) (m : MsgSyncer)
    → Attempts server (suc n) m (get_max_seq server (suc n) last m)
unfolding get_max_seq
get_max_seq-Attempts_start server n last m = elim (Result-cases (server.max_seqs m.log)) [
  | inl (maxs, e) ↦ rw (e, get_max_seq) (0, omega arith, (tt, maxs, e), refl, refl)
  | inr (y, e) ↦
      rw (e, get_max_seq)
        (Attempts-suc server n y m (get_max_seq server n (err y) (send get_newest_seq m)) e
          (get_max_seq-Attempts server n y (send get_newest_seq m)))
]

-- The log when `doConnected` asks first.
abbrev pub begun : MsgSyncer → List Event
begun m = sync_flag (begin_flag m.reinstalled) ∷ m.log

-- How `doConnected` ended: every request was refused, or one was answered after `k` that were
-- refused.
abbrev pub Ended : Server → MsgSyncer → MsgSyncer → Type 0
Ended server m m' =
    (Refuses server max_retries (begun m)
      × (beats m'.log
          ≡ flag msg_sync_failed
            ∷ (replicate max_retries ask ++ (flag (begin_flag m.reinstalled) ∷ beats m.log)))
      × (m'.synced_max_seqs ≡ m.synced_max_seqs)
      × (m'.reinstalled ≡ m.reinstalled))
    ⊎ ((k : ℕ) × (k < max_retries)
        × Answers server k (begun m)
        × (beats m'.log
            ≡ flag (end_flag m.reinstalled)
              ∷ (replicate (suc k) ask ++ (flag (begin_flag m.reinstalled) ∷ beats m.log)))
        × (m'.reinstalled ≡ false))

after_max_seq-Ended :
    (server : Server) (m : MsgSyncer) (r : MsgSyncer × Result (Map String ℕ))
    → Attempts server max_retries (send (sync_flag (begin_flag m.reinstalled)) m) r
    → Ended server m (after_max_seq server m.reinstalled r)
unfolding after_max_seq
after_max_seq-Ended server m (m', err e) (refuses, h, seqs, same) =
    inl (refuses, ap (◌∷◌ (flag msg_sync_failed)) h, seqs, same)
after_max_seq-Ended server m (m', ok maxs) (k, lt, answers, h, same) =
    let quiet = compare_seqs_and_batch_sync_quiet server maxs connect_pull_nums m' in
    inr (k, lt, answers, ap (◌∷◌ (flag (end_flag m.reinstalled))) (quiet.0 ∙ h), quiet.1)

-- `doConnected` sends a flag that synchronisation begins and asks the server for its maxima until
-- it answers, three times at most. If it refuses all three requests, one flag says that
-- synchronisation failed, and no synced sequence number has changed; if it answers one, after
-- refusing those before, one flag says that synchronisation ended, and the app no longer counts as
-- reinstalled. The flags are those of an app data sync if the app was reinstalled, and of a message
-- sync if not, but for the one of a failure.
pub do_connected-Ended : (server : Server) (m : MsgSyncer) → Ended server m (do_connected server m)
unfolding do_connected
do_connected-Ended server m =
    after_max_seq-Ended server m
      (get_max_seq server max_retries (ok []) (send (sync_flag (begin_flag m.reinstalled)) m))
      (get_max_seq-Attempts_start server 2 (ok []) (send (sync_flag (begin_flag m.reinstalled)) m))

-- The calls of `startSync` and the goroutines it left that wake up, in the order they take the lock.
pub data Turn : Type 0 where
  start timer : Turn

abbrev pub to_nat : Bool → ℕ
to_nat true = 1
to_nat false = 0

-- How many of the starts are granted.
abbrev pub granted : List Turn → MsgSyncer → ℕ
granted [] m = 0
granted (start ∷ ts) m = to_nat (start_sync m).1 + granted ts (start_sync m).0
granted (timer ∷ ts) m = granted ts (sync_timer m)

abbrev pub timers : List Turn → ℕ
timers [] = 0
timers (start ∷ ts) = timers ts
timers (timer ∷ ts) = suc (timers ts)

-- However the calls of `startSync` and the timers interleave, between two starts that are granted a
-- timer has fired: at most one more start is granted than timers fire, and none more if a
-- synchronisation is running at first.
granted-le-timers :
    (ts : List Turn) (m : MsgSyncer) → granted ts m + to_nat m.is_syncing ≤ timers ts + 1
unfolding start_sync sync_timer
granted-le-timers [] m = ground arith
granted-le-timers (start ∷ ts) m = elim (Bool-cases m.is_syncing) [
  | inl busy ↦ simp busy (omega (arith, granted-le-timers ts m, ap to_nat busy))
  | inr free ↦ simp free (omega (arith, granted-le-timers ts (record m { is_syncing = true })))
]
granted-le-timers (timer ∷ ts) m =
    ground (arith, granted-le-timers ts (record m { is_syncing = false }))
