-- ===== src/Upload/Locks.antt =====
-- One upload at a time of a file: `lockHash` and `unlockHash` of internal/third/file/upload.go.
pub mod Members
pub mod Placed
pub mod Leaving
pub mod Exclusion
use openim_sdk_core.Prelude.{
  ℕ, zero, suc, ◌+◌, ◌-◌, Bool, true, false, List, [], ◌∷◌, Option, none, some, String, nat_eq,
  string_eq, ◌==◌, if◌then◌else◌, get_elem?, set,
}
use openim_sdk_core.Prelude.Map.{Map, lookup, insert, delete}

-- `owner` is the goroutine that has the mutex.
pub record LockInfo : Type 0 where
  pub count : ℕ
  pub owner : Option ℕ

-- Where a goroutine is: outside; after the first section of `lockHash` of a hash, with the lock it
-- found; between `lockHash` and `unlockHash`; and after the section of `unlockHash` under
-- `mapLocker`.
pub data Phase : Type 0 where
  idle : Phase
  waits : String → ℕ → Phase
  holds : String → ℕ → Phase
  leaving : String → ℕ → Phase

-- `infos` are the locks by their identity, which is the count of those made before.
pub record File : Type 0 where
  pub uploading : Map String ℕ
  pub infos : Map ℕ LockInfo
  pub made : ℕ
  pub threads : List Phase

abbrev pub new_info : LockInfo
new_info = record { count = 0; owner = none }

abbrev pub or_new : Option LockInfo → LockInfo
or_new none = new_info
or_new (some info) = info

abbrev pub info_of : ℕ → File → LockInfo
info_of id f = or_new (lookup id f.infos)

abbrev pub put_info : ℕ → LockInfo → File → File
put_info id info f = record f { infos = insert id info f.infos }

abbrev pub move : ℕ → Phase → File → File
move g phase f = record f { threads = set f.threads g phase }

-- `atomic.AddInt32(&locker.count, 1)`.
abbrev pub count_up : ℕ → File → File
count_up id f = put_info id (record (info_of id f) { count = (info_of id f).count + 1 }) f

abbrev pub lock_found : ℕ → String → Option ℕ → File → File
lock_found g hash (some id) f = move g (waits hash id) (count_up id f)
lock_found g hash none f =
    move g (waits hash f.made)
      (count_up f.made (record f { uploading = insert hash f.made f.uploading; made = suc f.made }))

-- `lockHash` up to `locker.locker.Lock`.
unfoldable pub lock_hash : ℕ → String → File → File
lock_hash g hash f = lock_found g hash (lookup hash f.uploading) f

abbrev pub take_lock : ℕ → String → ℕ → Option ℕ → File → File
take_lock g hash id (some other) f = f
take_lock g hash id none f =
    move g (holds hash id) (put_info id (record (info_of id f) { owner = some g }) f)

-- `locker.locker.Lock`, which waits while another goroutine has the mutex.
unfoldable pub acquire : ℕ → String → ℕ → File → File
acquire g hash id f = take_lock g hash id (info_of id f).owner f

abbrev pub unlock_found : ℕ → String → Option ℕ → File → File
unlock_found g hash none f = move g idle f
unlock_found g hash (some id) f =
    let left = (info_of id f).count - 1 in
    let f' = put_info id (record (info_of id f) { count = left }) f in
    move g (leaving hash id)
      (if left == 0 then record f' { uploading = delete hash f'.uploading } else f')

-- `unlockHash` up to `locker.locker.Unlock`.
unfoldable pub unlock_hash : ℕ → String → File → File
unlock_hash g hash f = unlock_found g hash (lookup hash f.uploading) f

-- `locker.locker.Unlock`.
unfoldable pub release : ℕ → ℕ → File → File
release g id f = move g idle (put_info id (record (info_of id f) { owner = none }) f)

-- The next thing that a goroutine does: `UploadFile` of a file with the hash where it is outside.
abbrev pub go_on : ℕ → String → Option Phase → File → File
go_on g hash none f = f
go_on g hash (some idle) f = lock_hash g hash f
go_on g hash (some (waits own id)) f = acquire g own id f
go_on g hash (some (holds own id)) f = unlock_hash g own f
go_on g hash (some (leaving own id)) f = release g id f

abbrev pub run : List (ℕ × String) → File → File
run [] f = f
run ((g, hash) ∷ steps) f = run steps (go_on g hash (get_elem? f.threads g) f)

abbrev pub idle_threads : ℕ → List Phase
idle_threads zero = []
idle_threads (suc n) = idle ∷ idle_threads n

-- `NewFile`, and as many goroutines.
abbrev pub new_file : ℕ → File
new_file n = record { uploading = []; infos = []; made = 0; threads = idle_threads n }
