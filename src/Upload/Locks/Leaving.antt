-- ===== src/Upload/Locks/Leaving.antt =====
-- What holds of the locks while goroutines leave: `unlockHash` of internal/third/file/upload.go.
use openim_sdk_core.Prelude.{
  ℕ, ◌-◌, ◌≡◌, refl, sym, ap, subst, ◌∙◌, false, none, some, String, nat_eq, string_eq, ◌==◌,
  if◌then◌else◌, get_elem?, set, Bool-cases, inl, inr, arith,
}
use openim_sdk_core.Prelude.Map.{Map, lookup, delete, lookup-delete}
use openim_sdk_core.Upload.Locks.{
  LockInfo, Phase, idle, waits, holds, leaving, File, info_of, put_info, move, unlock_found,
  release,
}
use openim_sdk_core.Upload.Locks.Members.{uses, members-pos, set_cases}
use openim_sdk_core.Upload.Locks.Placed.{
  IsCounted, Placed, IsLocked, put_cases, IsCounted-move, moved, same-Placed, count-owner,
  uses-holds,
}

pub number_injective : (a b : ℕ) → some a ≡ some b → a ≡ b
number_injective a b h = ground arith

uses-apart : (id own : ℕ) → id ≡ own → uses id (waits "" own) ≡ 0 → ⊥
uses-apart id own same h = ground arith

-- Where the last goroutine left, nobody else finds the lock.
pub deleted_apart :
    (hash other : String) (id own : ℕ) (phase : Phase) (m : Map String ℕ)
    → lookup hash m ≡ some id
    → lookup other m ≡ some own
    → ((id ≡ own) → ⊥)
    → lookup other (delete hash m) ≡ some own
deleted_apart hash other id own phase m mine found nobody = elim (Bool-cases (hash == other)) [
  | inl same ↦
      let one : hash ≡ other = (string_eq.beq_iff hash other).0 same in
      absurd (nobody (number_injective id own (sym mine ∙ ap (λ k. lookup k m) one ∙ found)))
  | inr apart ↦ lookup-delete hash other m ∙ rw apart found
]

-- The other goroutines after the entry was deleted.
deleted-Placed :
    (hash : String) (id j : ℕ) (f f' : File) (phase : Phase)
    → lookup hash f.uploading ≡ some id
    → f'.uploading ≡ delete hash f.uploading
    → ((own : ℕ) → (info_of own f').owner ≡ (info_of own f).owner)
    → uses id phase ≡ 0
    → Placed f j phase
    → Placed f' j phase
deleted-Placed hash id j f f' idle mine names owners apart placed = tt
deleted-Placed hash id j f f' (waits other own) mine names owners apart placed =
    ap (lookup other) names
    ∙ deleted_apart hash other id own idle f.uploading mine placed (λ e. uses-apart id own e apart)
deleted-Placed hash id j f f' (holds other own) mine names owners apart placed = (
  ap (lookup other) names
      ∙ deleted_apart hash other id own idle f.uploading mine placed.0
          (λ e. uses-apart id own e apart),
  owners own ∙ placed.1,
)
deleted-Placed hash id j f f' (leaving other own) mine names owners apart placed =
    owners own ∙ placed

count_self :
    (id : ℕ) (info : LockInfo) (f : File) → (info_of id (put_info id info f)).count ≡ info.count
count_self id info f = elim (put_cases id id info f) [
  | inl (at, found) ↦ ap (λ i. i.count) found
  | inr (apart, found) ↦ absurd (ground arith)
]

-- A count of 0 has no other goroutine.
alone :
    (g id j : ℕ) (new old phase : Phase) (f : File) (info : LockInfo)
    → get_elem? f.threads g ≡ some old
    → IsCounted (move g new (put_info id info f))
    → info.count ≡ 0
    → g == j ≡ false
    → get_elem? f.threads j ≡ some phase
    → uses id phase ≡ 0
alone g id j new old phase f info e counted empty apart h =
    elim (set_cases g j old new f.threads e) [
      | inl (at, found) ↦ absurd (ground arith)
      | inr (away, found) ↦
          let member = members-pos id j phase (set f.threads g new) (found ∙ h) in
          omega (arith, member, counted id, count_self id info f, empty)
    ]

-- After the goroutine with the mutex counted itself out.
IsCounted-out :
    (g id : ℕ) (hash : String) (f : File)
    → IsLocked f
    → get_elem? f.threads g ≡ some (holds hash id)
    → IsCounted (
        move g
          (leaving hash id)
          (put_info id (record (info_of id f) { count = (info_of id f).count - 1 }) f))
IsCounted-out g id hash f (counted, placed) e =
    let one = uses-holds hash id in
    let some_member = members-pos id g (holds hash id) f.threads e in
    IsCounted-move g id (holds hash id) (leaving hash id)
      (record (info_of id f) { count = (info_of id f).count - 1 }) f counted e
      (omega (arith, one, some_member, counted id)) (λ j apart. rw apart refl)

pub unlock-IsLocked :
    (g id : ℕ) (hash : String) (f : File)
    → IsLocked f
    → get_elem? f.threads g ≡ some (holds hash id)
    → IsLocked (unlock_found g hash (some id) f)
unlock-IsLocked g id hash f (counted, placed) e =
    let left = (info_of id f).count - 1 in
    let f' = put_info id (record (info_of id f) { count = left }) f in
    let kept = move g (leaving hash id) f' in
    let gone = move g (leaving hash id) (record f' { uploading = delete hash f'.uploading }) in
    let (mine, owned) = placed g (holds hash id) e in
    let counts = IsCounted-out g id hash f (counted, placed) e in
    let owners : (own : ℕ) → (info_of own f').owner ≡ (info_of own f).owner =
      λ own. count-owner id own left f in
    elim (Bool-cases (left == 0)) [
      | inl last ↦
          subst
            (λ b. IsLocked (
              move g (leaving hash id)
                (if b then record f' { uploading = delete hash f'.uploading } else f')))
            (sym last)
            (
              counts,
              moved g (holds hash id) (leaving hash id) f gone e refl (owners id ∙ owned)
                  (λ j phase apart h.
                    deleted-Placed hash id j f gone phase mine refl owners
                      (alone g id j (leaving hash id) (holds hash id) phase f
                        (record (info_of id f) { count = left }) e counts (ground arith) apart h)
                      (placed j phase h)),
            )
      | inr others ↦
          subst
            (λ b. IsLocked (
              move g (leaving hash id)
                (if b then record f' { uploading = delete hash f'.uploading } else f')))
            (sym others)
            (
              counts,
              moved g (holds hash id) (leaving hash id) f kept e refl (owners id ∙ owned)
                  (λ j phase apart h.
                    same-Placed f kept j phase (λ other own h'. h') owners (placed j phase h)),
            )
    ]

-- The mutex that a goroutine unlocks is no other's.
released-owner :
    (g id own j : ℕ) (info : LockInfo) (f : File)
    → g == j ≡ false
    → (info_of id f).owner ≡ some g
    → (info_of own f).owner ≡ some j
    → (info_of own (put_info id info f)).owner ≡ some j
released-owner g id own j info f apart mine owned = elim (put_cases id own info f) [
  | inl (at, found) ↦
      let same = number_injective g j (sym mine ∙ ap (λ k. (info_of k f).owner) at ∙ owned) in
      absurd (ground arith)
  | inr (away, found) ↦ ap (λ i. i.owner) found ∙ owned
]

released-Placed :
    (g id j : ℕ) (info : LockInfo) (f : File) (phase : Phase)
    → g == j ≡ false
    → (info_of id f).owner ≡ some g
    → Placed f j phase
    → Placed (put_info id info f) j phase
released-Placed g id j info f idle apart mine placed = tt
released-Placed g id j info f (waits other own) apart mine placed = placed
released-Placed g id j info f (holds other own) apart mine placed =
    (placed.0, released-owner g id own j info f apart mine placed.1)
released-Placed g id j info f (leaving other own) apart mine placed =
    released-owner g id own j info f apart mine placed

pub release-IsLocked :
    (g id : ℕ) (hash : String) (f : File)
    → IsLocked f
    → get_elem? f.threads g ≡ some (leaving hash id)
    → IsLocked (release g id f)
unfolding release
release-IsLocked g id hash f (counted, placed) e =
    let info = record (info_of id f) { owner = none } in
    (
      IsCounted-move g id (leaving hash id) idle info f counted e refl (λ j apart. refl),
      moved g (leaving hash id) idle f (release g id f) e refl tt (λ j phase apart h.
          released-Placed g id j info f phase apart (placed g (leaving hash id) e)
            (placed j phase h)),
    )
