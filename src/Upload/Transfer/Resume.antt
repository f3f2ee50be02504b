-- ===== src/Upload/Transfer/Resume.antt =====
-- An upload that stops and is resumed: internal/third/file/upload.go.
use openim_sdk_core.Prelude.{
  ℕ, zero, suc, ◌+◌, ◌≤◌, ◌<◌, ◌≡◌, refl, sym, ap, subst, ◌∙◌, Bool, true, false, ◌&&◌, ◌||◌, List,
  [], ◌∷◌, ◌++◌, Option, none, some, String, string_eq, nat_eq, ◌==◌, leb, ltb, if_both, length,
  inl, inr, Bool-cases, arith,
}
use mathlib.Core.List.{append_assoc}
use openim_sdk_core.Prelude.Outcome.{Outcome, done, fail, ◌>>=◌, state_of}
use openim_sdk_core.Bitmap.{Bitmap, set_index, get_index, serialize, parse_bitmap}
use openim_sdk_core.Bitmap.Indices.{IsBitmap}
use openim_sdk_core.Bitmap.Words.{parse_bitmap-serialize}
use openim_sdk_core.Upload.Transfer.{
  Line, Transfer, unless_error, bit_set, mark_uploaded, check_md5, by_bit, upload_part,
  upload_parts,
}
use openim_sdk_core.Upload.Transfer.Reached.{
  bit, missing, missing_congr, Reached, Came, upload_parts-Came,
}

-- The row of the database has the bitmap.
abbrev pub IsStored : Outcome Transfer → Type 0
IsStored m = (state_of m).stored ≡ serialize (state_of m).bitmap

abbrev pub IsUpdated : Line → Type 0
IsUpdated line = (i : ℕ) → line.update i ≡ none

bit_set-IsStored :
    (o : Option Bitmap) (t : Transfer) → IsStored (done t) → IsStored (bit_set o none t)
bit_set-IsStored none t stored = stored
bit_set-IsStored (some b) t stored = refl

unless_error-IsStored :
    (o : Option String) (t : Transfer) (rest : Outcome Transfer)
    → IsStored (done t)
    → IsStored rest
    → IsStored (unless_error o t rest)
unless_error-IsStored (some e) t rest stored h = stored
unless_error-IsStored none t rest stored h = h

mark-IsStored :
    (line : Line) (i size : ℕ) (t : Transfer)
    → IsUpdated line
    → IsStored (done t)
    → IsStored (mark_uploaded line i size t)
mark-IsStored line i size t updated stored =
    let sent = record t { uploaded_size = t.uploaded_size + size; puts = t.puts ++ (i ∷ []) } in
    if_both IsStored t.has_db (bit_set (set_index i t.bitmap) (line.update i) sent) (done sent)
      (subst (λ o. IsStored (bit_set (set_index i t.bitmap) o sent)) (sym (updated i))
        (bit_set-IsStored (set_index i t.bitmap) sent stored))
      stored

by_bit-IsStored :
    (o : Option Bool) (line : Line) (i size : ℕ) (t : Transfer)
    → IsUpdated line
    → IsStored (done t)
    → IsStored (by_bit o line i size t)
by_bit-IsStored none line i size t updated stored = stored
by_bit-IsStored (some true) line i size t updated stored =
    unless_error-IsStored (line.skip i) t (done t) stored stored
by_bit-IsStored (some false) line i size t updated stored =
    unless_error-IsStored (line.sign i) t
      (unless_error (line.put i) t (mark_uploaded line i size t)) stored
      (unless_error-IsStored (line.put i) t (mark_uploaded line i size t) stored
        (mark-IsStored line i size t updated stored))

check-IsStored :
    (line : Line) (i : ℕ) (md5 : String) (m : Outcome Transfer)
    → IsStored m
    → IsStored (m >>= check_md5 line i md5)
check-IsStored line i md5 (done r) stored =
    if_both IsStored (line.md5 i == md5) (done (record r { completed = r.completed ++ (i ∷ []) }))
      (fail "upload part failed, md5 not match" r) stored stored
check-IsStored line i md5 (fail e r) stored = stored

bind-IsStored :
    (m : Outcome Transfer) (f : Transfer → Outcome Transfer)
    → IsStored m
    → ((r : Transfer) → IsStored (done r) → IsStored (f r))
    → IsStored (m >>= f)
bind-IsStored (done r) f stored next = next r stored
bind-IsStored (fail e r) f stored next = stored

upload_parts-IsStored :
    (line : Line) (i : ℕ) (parts : List (ℕ × String)) (t : Transfer)
    → IsUpdated line
    → IsStored (done t)
    → IsStored (upload_parts line i parts t)
unfolding upload_parts upload_part
upload_parts-IsStored line i [] t updated stored = stored
upload_parts-IsStored line i ((size, md5) ∷ parts) t updated stored =
    bind-IsStored (by_bit (get_index i t.bitmap) line i size t >>= check_md5 line i md5)
      (upload_parts line (suc i) parts)
      (check-IsStored line i md5 (by_bit (get_index i t.bitmap) line i size t)
        (by_bit-IsStored (get_index i t.bitmap) line i size t updated stored))
      (λ r stored'. upload_parts-IsStored line (suc i) parts r updated stored')

-- What `getUpload` makes of the row in a later run.
abbrev pub resumed : ℕ → Transfer → Transfer
resumed part_num t = record t { bitmap = parse_bitmap t.stored part_num }

-- When the first `k` of `n` parts are past, what was missing of them and what is missing then is
-- what was missing.
missing-rest :
    (f g : ℕ → Bool) (i k n : ℕ)
    → ((j : ℕ) → i ≤ j → j < i + k → g j ≡ true)
    → ((j : ℕ) → i + k ≤ j → g j ≡ f j)
    → k ≤ n
    → missing f i k ++ missing g i n ≡ missing f i n
missing-rest f g i zero n past rest le = missing_congr g f i n (λ j h. rest j (omega arith))
missing-rest f g i (suc k) zero past rest le = absurd (omega arith)
missing-rest f g i (suc k) (suc n) past rest le =
    let later =
      missing-rest f g (suc i) k n (λ j h h'. past j (omega arith) (omega arith))
        (λ j h. rest j (omega arith)) (omega arith) in
    elim (Bool-cases (f i)) [
      | inl here ↦ rw (past i (omega arith) (omega arith), here) later
      | inr not_here ↦ rw (past i (omega arith) (omega arith), not_here) (ap (λ xs. i ∷ xs) later)
    ]

marked : (b : Bool) (k j : ℕ) → j < 0 + k → (b || (leb 0 j && ltb j (0 + k))) ≡ true
marked b k j h = ground arith

unmarked : (b : Bool) (k j : ℕ) → 0 + k ≤ j → (b || (leb 0 j && ltb j (0 + k))) ≡ b
unmarked b k j h = ground arith

-- How far a run came, whatever its end.
Came-Reached :
    (n : ℕ) (t : Transfer) (m : Outcome Transfer)
    → Came 0 n t m
    → (k : ℕ) × (k ≤ n) × Reached 0 k t (state_of m)
Came-Reached n t (done r) came = (n, omega arith, came)
Came-Reached n t (fail e r) came = came

resumed-same :
    (n : ℕ) (t : Transfer)
    → IsBitmap t.bitmap
    → t.bitmap.size ≡ n
    → t.stored ≡ serialize t.bitmap
    → (resumed n t).bitmap ≡ t.bitmap
resumed-same n t valid size stored =
    ap (λ bytes. parse_bitmap bytes n) stored
    ∙ ap (parse_bitmap (serialize t.bitmap)) (sym size)
    ∙ parse_bitmap-serialize t.bitmap valid.1

pub Came-done :
    (n : ℕ) (t r : Transfer) (m : Outcome Transfer) → m ≡ done r → Came 0 n t m → Reached 0 n t r
Came-done n t r m e came = subst (Came 0 n t) e came

-- An upload that stopped anywhere and is resumed from the row of the database, and then ends: over
-- both runs each part that was missing was sent just once, in order, and no other part was. This is
-- for a file of several parts, a bitmap with a bit for each, a row that has it, and a database that
-- stored each change of it in the first run.
pub resume-Once :
    (first second : Line) (parts : List (ℕ × String)) (t r : Transfer)
    → IsBitmap t.bitmap
    → t.bitmap.size ≡ length parts
    → t.has_db ≡ true
    → t.stored ≡ serialize t.bitmap
    → IsUpdated first
    → upload_parts second 0 parts (resumed (length parts) (state_of (upload_parts first 0 parts t)))
      ≡ done r
    → r.puts ≡ t.puts ++ missing (bit t.bitmap) 0 (length parts)
resume-Once first second parts t r valid size db stored updated ends =
    let n = length parts in
    let stop = state_of (upload_parts first 0 parts t) in
    let (k, le, (puts, valid', size', db', bits)) =
      Came-Reached n t (upload_parts first 0 parts t)
        (upload_parts-Came first 0 parts t valid db) in
    let same =
      resumed-same n stop valid' (size' ∙ size)
        (upload_parts-IsStored first 0 parts t updated stored) in
    let next =
      upload_parts-Came second 0 parts (resumed n stop) (subst IsBitmap (sym same) valid') db' in
    let reached =
      Came-done n (resumed n stop) r (upload_parts second 0 parts (resumed n stop)) ends next in
    reached.0
    ∙ ap (λ xs. xs ++ missing (bit (resumed n stop).bitmap) 0 n) puts
    ∙ ap (λ b. (t.puts ++ missing (bit t.bitmap) 0 k) ++ missing (bit b) 0 n) same
    ∙ append_assoc t.puts (missing (bit t.bitmap) 0 k) (missing (bit stop.bitmap) 0 n)
    ∙ ap (λ xs. t.puts ++ xs)
        (missing-rest (bit t.bitmap) (bit stop.bitmap) 0 k n
          (λ j h h'. bits j ∙ marked (bit t.bitmap j) k j h')
          (λ j h. bits j ∙ unmarked (bit t.bitmap j) k j h) le)
