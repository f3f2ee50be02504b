-- ===== src/Upload/Locks/Placed.antt =====
-- What holds of the locks while goroutines enter: `lockHash` of internal/third/file/upload.go.
use openim_sdk_core.Prelude.{
  ℕ, suc, ◌+◌, ◌≡◌, ◌⊎◌, refl, sym, ap, subst, ◌∙◌, false, Option, none, some, String, nat_eq,
  string_eq, ◌==◌, if◌then◌else◌, get_elem?, set, Bool-cases, inl, inr, arith,
}
use openim_sdk_core.Prelude.Map.{Map, lookup, insert, lookup-insert, beq_self}
use openim_sdk_core.Upload.Locks.{
  LockInfo, Phase, idle, waits, holds, leaving, File, info_of, or_new, put_info, move, count_up,
  lock_found, take_lock,
}
use openim_sdk_core.Upload.Locks.Members.{uses, members, members-set, set_cases}

-- A lock counts the goroutines that wait for it or have it.
abbrev pub IsCounted : File → Type 0
IsCounted f = (id : ℕ) → (info_of id f).count ≡ members id f.threads

-- A goroutine that waits or has the mutex finds its lock under the hash; one that has it is its
-- owner.
abbrev pub Placed : File → ℕ → Phase → Type 0
Placed f g idle = Unit
Placed f g (waits hash id) = lookup hash f.uploading ≡ some id
Placed f g (holds hash id) = (lookup hash f.uploading ≡ some id) × ((info_of id f).owner ≡ some g)
Placed f g (leaving hash id) = (info_of id f).owner ≡ some g

abbrev pub IsPlaced : File → Type 0
IsPlaced f = (g : ℕ) (phase : Phase) → get_elem? f.threads g ≡ some phase → Placed f g phase

abbrev pub IsLocked : File → Type 0
IsLocked f = IsCounted f × IsPlaced f

pub some_injective : (a b : Phase) → some a ≡ some b → a ≡ b
some_injective a b h = cc

pub put_cases :
    (id j : ℕ) (info : LockInfo) (f : File)
    → ((id ≡ j) × (info_of j (put_info id info f) ≡ info))
      ⊎ ((id == j ≡ false) × (info_of j (put_info id info f) ≡ info_of j f))
put_cases id j info f = elim (Bool-cases (id == j)) [
  | inl at ↦ inl (
    ground arith,
    ap or_new (lookup-insert id j info f.infos)
        ∙ ap (λ b. or_new (if b then some info else lookup j f.infos)) at,
  )
  | inr apart ↦ inr (
    apart,
    ap or_new (lookup-insert id j info f.infos)
        ∙ ap (λ b. or_new (if b then some info else lookup j f.infos)) apart,
  )
]

-- The counts after a goroutine went from one phase to another and the lock's count was set.
pub IsCounted-move :
    (g id : ℕ) (old new : Phase) (info : LockInfo) (f : File)
    → IsCounted f
    → get_elem? f.threads g ≡ some old
    → info.count + uses id old ≡ (info_of id f).count + uses id new
    → ((j : ℕ) → id == j ≡ false → uses j old ≡ uses j new)
    → IsCounted (move g new (put_info id info f))
IsCounted-move g id old new info f counted e same others j =
    let moved = members-set j g old new f.threads e in
    elim (put_cases id j info f) [
      | inl (at, found) ↦
          let here =
            subst (λ k. info.count + uses k old ≡ (info_of k f).count + uses k new) at same in
          ap (λ i. i.count) found ∙ omega (arith, counted j, moved, here)
      | inr (apart, found) ↦
          let kept = others j apart in
          ap (λ i. i.count) found ∙ omega (arith, counted j, moved, kept)
    ]

-- A goroutine that did not move is where it was, if its hash still finds its lock and the owner is
-- the same.
pub moved :
    (g : ℕ) (old new : Phase) (f f' : File)
    → get_elem? f.threads g ≡ some old
    → f'.threads ≡ set f.threads g new
    → Placed f' g new
    → ((j : ℕ) (phase : Phase)
        → g == j ≡ false
        → get_elem? f.threads j ≡ some phase
        → Placed f' j phase)
    → IsPlaced f'
moved g old new f f' e threads mine others j phase h =
    let h' = sym (ap (λ ts. get_elem? ts j) threads) ∙ h in
    elim (set_cases g j old new f.threads e) [
      | inl (at, found) ↦
          let same : new ≡ phase = some_injective new phase (sym found ∙ h') in
          subst (λ k. Placed f' k phase) at (subst (Placed f' g) same mine)
      | inr (apart, found) ↦ others j phase apart (sym found ∙ h')
    ]

-- Where the hashes find the same locks, and the locks have the same owners.
pub same-Placed :
    (f f' : File) (g : ℕ) (phase : Phase)
    → ((hash : String) (id : ℕ)
        → lookup hash f.uploading ≡ some id
        → lookup hash f'.uploading ≡ some id)
    → ((id : ℕ) → (info_of id f').owner ≡ (info_of id f).owner)
    → Placed f g phase
    → Placed f' g phase
same-Placed f f' g idle names owners placed = tt
same-Placed f f' g (waits hash id) names owners placed = names hash id placed
same-Placed f f' g (holds hash id) names owners placed =
    (names hash id placed.0, owners id ∙ placed.1)
same-Placed f f' g (leaving hash id) names owners placed = owners id ∙ placed

pub count-owner :
    (id j count : ℕ) (f : File)
    → (info_of j (put_info id (record (info_of id f) { count = count }) f)).owner
      ≡ (info_of j f).owner
count-owner id j count f = elim (put_cases id j (record (info_of id f) { count = count }) f) [
  | inl (at, found) ↦ ap (λ i. i.owner) found ∙ ap (λ k. (info_of k f).owner) at
  | inr (apart, found) ↦ ap (λ i. i.owner) found
]

uses-waits : (hash : String) (id : ℕ) → uses id (waits hash id) ≡ 1
uses-waits hash id = ground arith

pub uses-holds : (hash : String) (id : ℕ) → uses id (holds hash id) ≡ 1
uses-holds hash id = ground arith

count_up-IsLocked :
    (g id : ℕ) (hash : String) (f : File)
    → IsLocked f
    → get_elem? f.threads g ≡ some idle
    → lookup hash f.uploading ≡ some id
    → IsLocked (move g (waits hash id) (count_up id f))
count_up-IsLocked g id hash f (counted, placed) e found =
    let f' = move g (waits hash id) (count_up id f) in
    (
      IsCounted-move g id idle (waits hash id)
          (record (info_of id f) { count = (info_of id f).count + 1 }) f counted e
          (let one = uses-waits hash id in omega (arith, one)) (λ j apart. rw apart refl),
      moved g idle (waits hash id) f f' e refl found (λ j phase apart h.
          same-Placed f f' j phase (λ other own h'. h')
            (λ own. count-owner id own ((info_of id f).count + 1) f) (placed j phase h)),
    )

-- A new entry hides none, since there was none under its hash.
inserted :
    (hash other : String) (new id : ℕ) (m : Map String ℕ)
    → lookup hash m ≡ none
    → lookup other m ≡ some id
    → lookup other (insert hash new m) ≡ some id
inserted hash other new id m free found = elim (Bool-cases (hash == other)) [
  | inl same ↦ let one : hash ≡ other = (string_eq.beq_iff hash other).0 same in absurd (cc)
  | inr apart ↦ lookup-insert hash other new m ∙ rw apart found
]

insert_self :
    (hash : String) (new : ℕ) (m : Map String ℕ) → lookup hash (insert hash new m) ≡ some new
insert_self hash new m = lookup-insert hash hash new m ∙ rw (beq_self hash) refl

pub lock-IsLocked :
    (g : ℕ) (hash : String) (o : Option ℕ) (f : File)
    → lookup hash f.uploading ≡ o
    → IsLocked f
    → get_elem? f.threads g ≡ some idle
    → IsLocked (lock_found g hash o f)
lock-IsLocked g hash (some id) f found locked e = count_up-IsLocked g id hash f locked e found
lock-IsLocked g hash none f free (counted, placed) e =
    let f1 = record f { uploading = insert hash f.made f.uploading; made = suc f.made } in
    count_up-IsLocked g f.made hash f1
      (
        counted,
        λ j phase h.
            same-Placed f f1 j phase
              (λ other id h'. inserted hash other f.made id f.uploading free h') (λ id. refl)
              (placed j phase h),
      )
      e (insert_self hash f.made f.uploading)

owner_self :
    (id : ℕ) (info : LockInfo) (f : File) → (info_of id (put_info id info f)).owner ≡ info.owner
owner_self id info f = elim (put_cases id id info f) [
  | inl (at, found) ↦ ap (λ i. i.owner) found
  | inr (apart, found) ↦ absurd (ground arith)
]

acquired-owner :
    (id own j : ℕ) (info : LockInfo) (f : File)
    → (info_of id f).owner ≡ none
    → (info_of own f).owner ≡ some j
    → (info_of own (put_info id info f)).owner ≡ some j
acquired-owner id own j info f free owned = elim (put_cases id own info f) [
  | inl (at, found) ↦ let same = ap (λ k. (info_of k f).owner) at in absurd (cc)
  | inr (apart, found) ↦ ap (λ i. i.owner) found ∙ owned
]

-- A lock that is free belongs to nobody.
acquired-Placed :
    (id j : ℕ) (f : File) (info : LockInfo) (phase : Phase)
    → (info_of id f).owner ≡ none
    → Placed f j phase
    → Placed (put_info id info f) j phase
acquired-Placed id j f info idle free placed = tt
acquired-Placed id j f info (waits other own) free placed = placed
acquired-Placed id j f info (holds other own) free placed =
    (placed.0, acquired-owner id own j info f free placed.1)
acquired-Placed id j f info (leaving other own) free placed =
    acquired-owner id own j info f free placed

pub acquire-IsLocked :
    (g id : ℕ) (hash : String) (o : Option ℕ) (f : File)
    → (info_of id f).owner ≡ o
    → IsLocked f
    → get_elem? f.threads g ≡ some (waits hash id)
    → IsLocked (take_lock g hash id o f)
acquire-IsLocked g id hash (some other) f taken locked e = locked
acquire-IsLocked g id hash none f free (counted, placed) e =
    let info = record (info_of id f) { owner = some g } in
    let f' = move g (holds hash id) (put_info id info f) in
    (
      IsCounted-move g id (waits hash id) (holds hash id) info f counted e refl (λ j apart. refl),
      moved g (waits hash id) (holds hash id) f f' e refl
          (placed g (waits hash id) e, owner_self id info f)
          (λ j phase apart h. acquired-Placed id j f info phase free (placed j phase h)),
    )
