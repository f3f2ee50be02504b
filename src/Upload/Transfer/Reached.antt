-- ===== src/Upload/Transfer/Reached.antt =====
-- How far the loop over the parts came: internal/third/file/upload.go.
use openim_sdk_core.Prelude.{
  ℕ, zero, suc, ◌+◌, ◌≤◌, ◌<◌, ◌≡◌, refl, sym, ap, subst, ◌∙◌, Bool, true, false, ◌&&◌, ◌||◌, List,
  [], ◌∷◌, ◌++◌, Option, none, some, String, nat_eq, string_eq, ◌==◌, leb, ltb, if◌then◌else◌,
  if_both, length, Bool-cases, inl, inr, arith,
}
use mathlib.Core.List.{append-nil, append_assoc}
use openim_sdk_core.Prelude.Outcome.{Outcome, done, fail, ◌>>=◌}
use openim_sdk_core.Bitmap.{Bitmap, set_index, get_index}
use openim_sdk_core.Bitmap.Indices.{IsBitmap, written, set_clear-Writes}
use openim_sdk_core.Upload.Transfer.{
  Line, Transfer, unless_error, update_upload, bit_set, mark_uploaded, check_md5, by_bit,
  upload_part, upload_parts,
}

abbrev pub or_false : Option Bool → Bool
or_false none = false
or_false (some b) = b

abbrev pub bit : Bitmap → ℕ → Bool
bit b j = or_false (get_index j b)

-- The indices among the `n` from `i` on whose bit is not set.
abbrev pub missing : (ℕ → Bool) → ℕ → ℕ → List ℕ
missing f i zero = []
missing f i (suc n) = if f i then missing f (suc i) n else i ∷ missing f (suc i) n

pub missing_congr :
    (f g : ℕ → Bool) (i n : ℕ) → ((j : ℕ) → i ≤ j → f j ≡ g j) → missing f i n ≡ missing g i n
missing_congr f g i zero same = refl
missing_congr f g i (suc n) same =
    let rest = missing_congr f g (suc i) n (λ j le. same j (omega arith)) in
    rw (same i (omega arith), rest) refl

-- The loop came from `i` over `k` parts: what was missing of them was sent, once and in order, and
-- just their bits are set besides.
abbrev pub Reached : ℕ → ℕ → Transfer → Transfer → Type 0
Reached i k t r =
    (r.puts ≡ t.puts ++ missing (bit t.bitmap) i k)
    × IsBitmap r.bitmap
    × (r.bitmap.size ≡ t.bitmap.size)
    × (r.has_db ≡ true)
    × ((j : ℕ) → bit r.bitmap j ≡ (bit t.bitmap j || (leb i j && ltb j (i + k))))

Reached-start : (i : ℕ) (t : Transfer) → IsBitmap t.bitmap → t.has_db ≡ true → Reached i 0 t t
Reached-start i t valid db = (sym (append-nil t.puts), valid, refl, db, λ j. ground arith)

missing_next :
    (f : ℕ → Bool) (i k : ℕ) (xs : List ℕ)
    → (xs ++ missing f i 1) ++ missing f (suc i) k ≡ xs ++ missing f i (suc k)
missing_next f i k xs = elim (Bool-cases (f i)) [
  | inl here ↦ rw (here, append-nil xs) refl
  | inr not_here ↦ rw not_here (append_assoc xs (i ∷ []) (missing f (suc i) k))
]

range_next :
    (b : Bool) (i j k : ℕ)
    → ((b || (leb i j && ltb j (i + 1))) || (leb (suc i) j && ltb j (suc i + k)))
      ≡ (b || (leb i j && ltb j (i + suc k)))
range_next b i j k = ground arith

Reached-next :
    (i k : ℕ) (t r s : Transfer) → Reached i 1 t r → Reached (suc i) k r s → Reached i (suc k) t s
Reached-next i k t r s (puts, valid, size, db, bits) (puts', valid', size', db', bits') = (
  puts'
      ∙ ap (λ xs. r.puts ++ xs)
          (missing_congr (bit r.bitmap) (bit t.bitmap) (suc i) k (λ j le. ground (arith, bits j)))
      ∙ ap (λ xs. xs ++ missing (bit t.bitmap) (suc i) k) puts
      ∙ missing_next (bit t.bitmap) i k t.puts,
  valid',
  size' ∙ size,
  db',
  λ j.
      bits' j
      ∙ ap (λ b. b || (leb (suc i) j && ltb j (suc i + k))) (bits j)
      ∙ range_next (bit t.bitmap j) i j k,
)

-- The loop ends over all `n` parts, or stops after some of them.
abbrev pub Came : ℕ → ℕ → Transfer → Outcome Transfer → Type 0
Came i n t (done r) = Reached i n t r
Came i n t (fail e r) = (k : ℕ) × (k ≤ n) × Reached i k t r

Came_bind :
    (i n : ℕ) (t : Transfer) (m : Outcome Transfer) (f : Transfer → Outcome Transfer)
    → Came i 1 t m
    → ((r : Transfer) → Reached i 1 t r → Came (suc i) n r (f r))
    → Came i (suc n) t (m >>= f)
Came_bind i n t (done r) f came next = later (f r) (next r came)
  where
    later : (o : Outcome Transfer) → Came (suc i) n r o → Came i (suc n) t o
    later (done s) reached = Reached-next i n t r s came reached
    later (fail e s) (k, le, reached) = (suc k, omega arith, Reached-next i k t r s came reached)
Came_bind i n t (fail e r) f (k, le, reached) next = (k, omega arith, reached)

stopped :
    (i : ℕ) (e : String) (t : Transfer)
    → IsBitmap t.bitmap
    → t.has_db ≡ true
    → Came i 1 t (fail e t)
stopped i e t valid db = (0, omega arith, Reached-start i t valid db)

unless_error-Came :
    (i : ℕ) (o : Option String) (t : Transfer) (rest : Outcome Transfer)
    → IsBitmap t.bitmap
    → t.has_db ≡ true
    → Came i 1 t rest
    → Came i 1 t (unless_error o t rest)
unless_error-Came i (some e) t rest valid db came = stopped i e t valid db
unless_error-Came i none t rest valid db came = came

in_range : (i : ℕ) (b : Bitmap) (v : Bool) → get_index i b ≡ some v → i < b.size
unfolding get_index
in_range i b v h = elim (Bool-cases (ltb i b.size)) [
  | inl inside ↦ ground arith
  | inr out ↦ absurd (ground arith)
]

equal : (i j : ℕ) → i == j ≡ true → i ≡ j
equal i j h = ground arith

outside : (b : Bool) (i j : ℕ) → i == j ≡ false → b ≡ (b || (leb i j && ltb j (i + 1)))
outside b i j h = ground arith

inside : (b : Bool) (i j : ℕ) → i == j ≡ true → true ≡ (b || (leb i j && ltb j (i + 1)))
inside b i j h = ground arith

-- A part whose bit is set is past.
there-Reached :
    (i : ℕ) (t : Transfer)
    → IsBitmap t.bitmap
    → t.has_db ≡ true
    → get_index i t.bitmap ≡ some true
    → Reached i 1 t t
there-Reached i t valid db e =
    let here : bit t.bitmap i ≡ true = ap or_false e in
    (
      rw here (sym (append-nil t.puts)),
      valid,
      refl,
      db,
      λ j. elim (Bool-cases (i == j)) [
        | inl at ↦
            let here_j : bit t.bitmap j ≡ true =
              ap or_false (subst (λ k. get_index k t.bitmap ≡ some true) (equal i j at) e) in
            rw here_j refl
        | inr away ↦ outside (bit t.bitmap j) i j away
      ],
    )

update-Reached :
    (o : Option String) (i k : ℕ) (t r : Transfer)
    → Reached i k t r
    → Reached i k t (update_upload o r)
update-Reached none i k t r h = h
update-Reached (some e) i k t r h = h

kept_bit : (o : Option Bool) → or_false (written false true o) ≡ or_false o
kept_bit none = refl
kept_bit (some b) = refl

-- A part that was sent is past, and its bit is set.
set-Reached :
    (i size : ℕ) (t : Transfer) (b : Bitmap)
    → t.has_db ≡ true
    → get_index i t.bitmap ≡ some false
    → IsBitmap b
    → b.size ≡ t.bitmap.size
    → ((j : ℕ) → get_index j b ≡ written (i == j) true (get_index j t.bitmap))
    → Reached i 1 t
        (record t { uploaded_size = t.uploaded_size + size; puts = t.puts ++ (i ∷ []); bitmap = b })
set-Reached i size t b db e valid same reads =
    let not_here : bit t.bitmap i ≡ false = ap or_false e in
    (
      rw not_here refl,
      valid,
      same,
      db,
      λ j. elim (Bool-cases (i == j)) [
        | inl at ↦
            let e_j = subst (λ k. get_index k t.bitmap ≡ some false) (equal i j at) e in
            ap or_false (reads j)
            ∙ ap (λ c. or_false (written c true (get_index j t.bitmap))) at
            ∙ ap (λ o. or_false (written true true o)) e_j
            ∙ inside (bit t.bitmap j) i j at
        | inr away ↦
            ap or_false (reads j)
            ∙ ap (λ c. or_false (written c true (get_index j t.bitmap))) away
            ∙ kept_bit (get_index j t.bitmap)
            ∙ outside (bit t.bitmap j) i j away
      ],
    )

mark-Came :
    (line : Line) (i size : ℕ) (t : Transfer)
    → IsBitmap t.bitmap
    → t.has_db ≡ true
    → get_index i t.bitmap ≡ some false
    → Came i 1 t (mark_uploaded line i size t)
mark-Came line i size t valid db e =
    let (b, sets, valid', same, reads) =
      (set_clear-Writes i t.bitmap valid (in_range i t.bitmap false e)).0 in
    let sent = record t { uploaded_size = t.uploaded_size + size; puts = t.puts ++ (i ∷ []) } in
    let marked = record sent { bitmap = b } in
    let marks : mark_uploaded line i size t ≡ done (update_upload (line.update i) marked) =
      ap (λ c. if c then bit_set (set_index i t.bitmap) (line.update i) sent else done sent) db
      ∙ ap (λ o. bit_set o (line.update i) sent) sets in
    subst (Came i 1 t) (sym marks)
      (update-Reached (line.update i) i 1 t marked (set-Reached i size t b db e valid' same reads))

by_bit-Came :
    (line : Line) (i size : ℕ) (o : Option Bool) (t : Transfer)
    → IsBitmap t.bitmap
    → t.has_db ≡ true
    → get_index i t.bitmap ≡ o
    → Came i 1 t (by_bit o line i size t)
by_bit-Came line i size none t valid db e = stopped i "panic: index out of range" t valid db
by_bit-Came line i size (some true) t valid db e =
    unless_error-Came i (line.skip i) t (done t) valid db (there-Reached i t valid db e)
by_bit-Came line i size (some false) t valid db e =
    unless_error-Came i (line.sign i) t (unless_error (line.put i) t (mark_uploaded line i size t))
      valid db
      (unless_error-Came i (line.put i) t (mark_uploaded line i size t) valid db
        (mark-Came line i size t valid db e))

check-Came :
    (line : Line) (i : ℕ) (md5 : String) (t : Transfer) (m : Outcome Transfer)
    → Came i 1 t m
    → Came i 1 t (m >>= check_md5 line i md5)
check-Came line i md5 t (done r) came =
    if_both (Came i 1 t) (line.md5 i == md5)
      (done (record r { completed = r.completed ++ (i ∷ []) }))
      (fail "upload part failed, md5 not match" r) came (1, omega arith, came)
check-Came line i md5 t (fail e r) came = came

pub upload_part-Came :
    (line : Line) (i size : ℕ) (md5 : String) (t : Transfer)
    → IsBitmap t.bitmap
    → t.has_db ≡ true
    → Came i 1 t (upload_part line i size md5 t)
unfolding upload_part
upload_part-Came line i size md5 t valid db =
    check-Came line i md5 t (by_bit (get_index i t.bitmap) line i size t)
      (by_bit-Came line i size (get_index i t.bitmap) t valid db refl)

pub upload_parts-Came :
    (line : Line) (i : ℕ) (parts : List (ℕ × String)) (t : Transfer)
    → IsBitmap t.bitmap
    → t.has_db ≡ true
    → Came i (length parts) t (upload_parts line i parts t)
unfolding upload_parts
upload_parts-Came line i [] t valid db = Reached-start i t valid db
upload_parts-Came line i ((size, md5) ∷ parts) t valid db =
    Came_bind i (length parts) t (upload_part line i size md5 t) (upload_parts line (suc i) parts)
      (upload_part-Came line i size md5 t valid db)
      (λ r reached. upload_parts-Came line (suc i) parts r reached.1 reached.3)
