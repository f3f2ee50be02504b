-- ===== src/Upload/Locks/Exclusion.antt =====
-- Two uploads of a file exclude each other: internal/third/file/upload.go.
use openim_sdk_core.Prelude.{
  ℕ, zero, suc, ◌≡◌, refl, sym, ap, subst, ◌∙◌, List, [], ◌∷◌, Option, none, some, String, nat_eq,
  string_eq, get_elem?, arith,
}
use openim_sdk_core.Prelude.Map.{lookup}
use openim_sdk_core.Upload.Locks.{
  Phase, idle, waits, holds, leaving, File, info_of, lock_hash, acquire, unlock_found, unlock_hash,
  go_on, run, idle_threads, new_file,
}
use openim_sdk_core.Upload.Locks.Members.{members}
use openim_sdk_core.Upload.Locks.Placed.{
  Placed, IsPlaced, IsLocked, some_injective, lock-IsLocked, acquire-IsLocked,
}
use openim_sdk_core.Upload.Locks.Leaving.{number_injective, unlock-IsLocked, release-IsLocked}

go_on-IsLocked :
    (g : ℕ) (hash : String) (o : Option Phase) (f : File)
    → get_elem? f.threads g ≡ o
    → IsLocked f
    → IsLocked (go_on g hash o f)
unfolding lock_hash acquire unlock_hash
go_on-IsLocked g hash none f e locked = locked
go_on-IsLocked g hash (some idle) f e locked =
    lock-IsLocked g hash (lookup hash f.uploading) f refl locked e
go_on-IsLocked g hash (some (waits own id)) f e locked =
    acquire-IsLocked g id own (info_of id f).owner f refl locked e
go_on-IsLocked g hash (some (holds own id)) f e locked =
    subst (λ o. IsLocked (unlock_found g own o f)) (sym (locked.1 g (holds own id) e).0)
      (unlock-IsLocked g id own f locked e)
go_on-IsLocked g hash (some (leaving own id)) f e locked = release-IsLocked g id own f locked e

run-IsLocked : (steps : List (ℕ × String)) (f : File) → IsLocked f → IsLocked (run steps f)
run-IsLocked [] f locked = locked
run-IsLocked ((g, hash) ∷ steps) f locked =
    run-IsLocked steps (go_on g hash (get_elem? f.threads g) f)
      (go_on-IsLocked g hash (get_elem? f.threads g) f refl locked)

members-idle : (id n : ℕ) → members id (idle_threads n) ≡ 0
members-idle id zero = refl
members-idle id (suc n) = omega (arith, members-idle id n)

idle-only : (n g : ℕ) (phase : Phase) → get_elem? (idle_threads n) g ≡ some phase → idle ≡ phase
idle-only zero g phase h = absurd (cc)
idle-only (suc n) zero phase h = some_injective idle phase h
idle-only (suc n) (suc g) phase h = idle-only n g phase h

idle-Placed : (n : ℕ) → IsPlaced (new_file n)
idle-Placed n g phase h = subst (Placed (new_file n) g) (idle-only n g phase h) tt

-- However goroutines interleave that upload files, two that are between `lockHash` and `unlockHash`
-- of one hash are the same: uploads of one file exclude each other, though the locks are made and
-- deleted on the way.
pub exclusive :
    (n : ℕ) (steps : List (ℕ × String)) (hash : String) (g j id own : ℕ)
    → get_elem? (run steps (new_file n)).threads g ≡ some (holds hash id)
    → get_elem? (run steps (new_file n)).threads j ≡ some (holds hash own)
    → g ≡ j
unfolding lookup
exclusive n steps hash g j id own hg hj =
    let f = run steps (new_file n) in
    let (counted, placed) =
      run-IsLocked steps (new_file n) (λ id'. sym (members-idle id' n), idle-Placed n) in
    let mine = placed g (holds hash id) hg in
    let other = placed j (holds hash own) hj in
    let same = number_injective id own (sym mine.0 ∙ other.0) in
    number_injective g j (sym mine.1 ∙ ap (λ k. (info_of k f).owner) same ∙ other.1)
