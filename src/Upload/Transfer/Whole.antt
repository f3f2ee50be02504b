-- ===== src/Upload/Transfer/Whole.antt =====
-- What an upload that ends has sent: internal/third/file/upload.go.
use openim_sdk_core.Prelude.{
  ℕ, zero, suc, ◌+◌, ◌-◌, ◌≤◌, ◌<◌, ◌≡◌, refl, subst, ◌∙◌, Bool, true, false, ◌&&◌, ◌||◌, List, [],
  ◌∷◌, ◌++◌, Option, none, some, String, string_eq, nat_eq, ◌==◌, leb, ltb, if◌then◌else◌, if_both,
  length, inl, inr, Bool-cases, arith,
}
use openim_sdk_core.Prelude.Outcome.{Outcome, done, fail, ◌>>=◌}
use openim_sdk_core.Bitmap.{Bitmap, set_index, get_index}
use openim_sdk_core.Bitmap.Indices.{IsBitmap}
use openim_sdk_core.Upload.Cut.{sum}
use openim_sdk_core.Upload.Transfer.{
  Line, Transfer, unless_error, update_upload, bit_set, mark_uploaded, check_md5, by_bit,
  upload_part, upload_parts, less_missing, with_left, uploaded_before,
}
use openim_sdk_core.Upload.Transfer.Reached.{
  bit, or_false, missing, Reached, Came, upload_part-Came, upload_parts-Came,
}
use openim_sdk_core.Upload.Transfer.Resume.{Came-done}

abbrev pub sizes : List (ℕ × String) → List ℕ
sizes [] = []
sizes ((size, md5) ∷ parts) = size ∷ sizes parts

-- The sizes of the parts, from index `i` on, whose bit is not set.
abbrev missing_size : (ℕ → Bool) → ℕ → List (ℕ × String) → ℕ
missing_size f i [] = 0
missing_size f i ((size, md5) ∷ parts) =
    if f i then missing_size f (suc i) parts else size + missing_size f (suc i) parts

missing_size_congr :
    (f g : ℕ → Bool) (i : ℕ) (parts : List (ℕ × String))
    → ((j : ℕ) → i ≤ j → f j ≡ g j)
    → missing_size f i parts ≡ missing_size g i parts
missing_size_congr f g i [] same = refl
missing_size_congr f g i ((size, md5) ∷ parts) same =
    rw (same i (omega arith), missing_size_congr f g (suc i) parts (λ j le. same j (omega arith)))
      refl

-- The MD5s of the parts from index `i` on are those of what was read.
abbrev pub Match : Line → ℕ → List (ℕ × String) → Type 0
Match line i [] = Unit
Match line i ((size, md5) ∷ parts) = (line.md5 i ≡ md5) × Match line (suc i) parts

-- After an end without an error.
abbrev Sized : Line → ℕ → List (ℕ × String) → Transfer → Outcome Transfer → Type 0
Sized line i parts t (fail e r) = Unit
Sized line i parts t (done r) =
    (r.uploaded_size ≡ t.uploaded_size + missing_size (bit t.bitmap) i parts) × Match line i parts

abbrev missing_part : Bool → ℕ → ℕ
missing_part b size = if b then 0 else size

-- By how much the uploaded size grew, unless there was an error.
abbrev Grown : ℕ → Transfer → Outcome Transfer → Type 0
Grown n t (fail e r) = Unit
Grown n t (done r) = r.uploaded_size ≡ t.uploaded_size + n

unless_error-Grown :
    (n : ℕ) (o : Option String) (t : Transfer) (rest : Outcome Transfer)
    → Grown n t rest
    → Grown n t (unless_error o t rest)
unless_error-Grown n (some e) t rest h = tt
unless_error-Grown n none t rest h = h

update-Grown :
    (n : ℕ) (o : Option String) (t r : Transfer)
    → Grown n t (done r)
    → Grown n t (done (update_upload o r))
update-Grown n none t r h = h
update-Grown n (some e) t r h = h

bit_set-Grown :
    (n : ℕ) (o : Option Bitmap) (u : Option String) (t r : Transfer)
    → Grown n t (done r)
    → Grown n t (bit_set o u r)
bit_set-Grown n none u t r h = tt
bit_set-Grown n (some b) u t r h = update-Grown n u t (record r { bitmap = b }) h

mark-Grown : (line : Line) (i size : ℕ) (t : Transfer) → Grown size t (mark_uploaded line i size t)
mark-Grown line i size t =
    let sent = record t { uploaded_size = t.uploaded_size + size; puts = t.puts ++ (i ∷ []) } in
    if_both (Grown size t) t.has_db (bit_set (set_index i t.bitmap) (line.update i) sent)
      (done sent) (bit_set-Grown size (set_index i t.bitmap) (line.update i) t sent refl) refl

by_bit-Grown :
    (o : Option Bool) (line : Line) (i size : ℕ) (t : Transfer)
    → Grown (missing_part (or_false o) size) t (by_bit o line i size t)
by_bit-Grown none line i size t = tt
by_bit-Grown (some true) line i size t = unless_error-Grown 0 (line.skip i) t (done t) (omega arith)
by_bit-Grown (some false) line i size t =
    unless_error-Grown size (line.sign i) t
      (unless_error (line.put i) t (mark_uploaded line i size t))
      (unless_error-Grown size (line.put i) t (mark_uploaded line i size t)
        (mark-Grown line i size t))

-- And the MD5 was right.
abbrev Checked : Line → ℕ → ℕ → String → Transfer → Outcome Transfer → Type 0
Checked line i n md5 t (fail e r) = Unit
Checked line i n md5 t (done r) = (r.uploaded_size ≡ t.uploaded_size + n) × (line.md5 i ≡ md5)

check-Checked :
    (line : Line) (i n : ℕ) (md5 : String) (t : Transfer) (m : Outcome Transfer)
    → Grown n t m
    → Checked line i n md5 t (m >>= check_md5 line i md5)
check-Checked line i n md5 t (fail e r) grown = tt
check-Checked line i n md5 t (done r) grown = elim (Bool-cases (line.md5 i == md5)) [
  | inl same ↦ rw same (grown, (string_eq.beq_iff (line.md5 i) md5).0 same)
  | inr other ↦ rw other tt
]

upload_part-Checked :
    (line : Line) (i size : ℕ) (md5 : String) (t : Transfer)
    → Checked line i (missing_part (bit t.bitmap i) size) md5 t (upload_part line i size md5 t)
unfolding upload_part
upload_part-Checked line i size md5 t =
    check-Checked line i (missing_part (bit t.bitmap i) size) md5 t
      (by_bit (get_index i t.bitmap) line i size t)
      (by_bit-Grown (get_index i t.bitmap) line i size t)

missing_size_next :
    (b : Bool) (size rest : ℕ) → (if b then rest else size + rest) ≡ missing_part b size + rest
missing_size_next true size rest = omega arith
missing_size_next false size rest = refl

Sized-bind :
    (line : Line) (i size : ℕ) (md5 : String) (parts : List (ℕ × String)) (t : Transfer)
    (m : Outcome Transfer) (f : Transfer → Outcome Transfer)
    → Checked line i (missing_part (bit t.bitmap i) size) md5 t m
    → Came i 1 t m
    → ((r : Transfer) → Reached i 1 t r → Sized line (suc i) parts r (f r))
    → Sized line i ((size, md5) ∷ parts) t (m >>= f)
Sized-bind line i size md5 parts t (fail e r) f checked came next = tt
Sized-bind line i size md5 parts t (done r) f checked came next = later (f r) (next r came)
  where
    later :
        (o : Outcome Transfer)
        → Sized line (suc i) parts r o
        → Sized line i ((size, md5) ∷ parts) t o
    later (fail e s) sized = tt
    later (done s) (grown, match) =
        let same =
          missing_size_congr (bit r.bitmap) (bit t.bitmap) (suc i) parts
            (λ j le. ground (arith, came.4 j)) in
        let step =
          missing_size_next (bit t.bitmap i) size (missing_size (bit t.bitmap) (suc i) parts) in
        (omega (arith, checked.0, grown, same, step), (checked.1, match))

upload_parts-Sized :
    (line : Line) (i : ℕ) (parts : List (ℕ × String)) (t : Transfer)
    → IsBitmap t.bitmap
    → t.has_db ≡ true
    → Sized line i parts t (upload_parts line i parts t)
unfolding upload_parts
upload_parts-Sized line i [] t valid db = (omega arith, tt)
upload_parts-Sized line i ((size, md5) ∷ parts) t valid db =
    Sized-bind line i size md5 parts t (upload_part line i size md5 t)
      (upload_parts line (suc i) parts) (upload_part-Checked line i size md5 t)
      (upload_part-Came line i size md5 t valid db)
      (λ r reached. upload_parts-Sized line (suc i) parts r reached.1 reached.3)

less_missing-less :
    (o : Option Bool) (b : Bitmap) (i size : ℕ) (parts : List (ℕ × String)) (left now m : ℕ)
    → ((l : ℕ) → uploaded_before b (suc i) parts l ≡ some now → now ≡ l - m)
    → with_left (less_missing o size left) (uploaded_before b (suc i) parts) ≡ some now
    → now ≡ left - (if or_false o then m else size + m)
less_missing-less none b i size parts left now m rest h = absurd (cc)
less_missing-less (some true) b i size parts left now m rest h = rest left h
less_missing-less (some false) b i size parts left now m rest h =
    omega (arith, rest (left - size) h)

uploaded_before-less :
    (b : Bitmap) (i : ℕ) (parts : List (ℕ × String)) (left now : ℕ)
    → uploaded_before b i parts left ≡ some now
    → now ≡ left - missing_size (bit b) i parts
unfolding uploaded_before
uploaded_before-less b i [] left now h = let same : left ≡ now = ground arith in omega arith
uploaded_before-less b i ((size, md5) ∷ parts) left now h =
    less_missing-less (get_index i b) b i size parts left now (missing_size (bit b) (suc i) parts)
      (λ l e. uploaded_before-less b (suc i) parts l now e) h

missing_size-le :
    (f : ℕ → Bool) (i : ℕ) (parts : List (ℕ × String)) → missing_size f i parts ≤ sum (sizes parts)
missing_size-le f i [] = omega arith
missing_size-le f i ((size, md5) ∷ parts) =
    let rest = missing_size-le f (suc i) parts in
    if_both (λ n. n ≤ size + sum (sizes parts)) (f i) (missing_size f (suc i) parts)
      (size + missing_size f (suc i) parts) (omega arith) (omega arith)

missing-none :
    (f : ℕ → Bool) (i n : ℕ) → ((j : ℕ) → i ≤ j → j < i + n → f j ≡ true) → missing f i n ≡ []
missing-none f i zero all = refl
missing-none f i (suc n) all =
    rw (all i (omega arith) (omega arith))
      (missing-none f (suc i) n (λ j le lt. all j (omega arith) (omega arith)))

marked : (b : Bool) (n j : ℕ) → j < 0 + n → (b || (leb 0 j && ltb j (0 + n))) ≡ true
marked b n j lt = ground arith

Sized-done :
    (line : Line) (parts : List (ℕ × String)) (t r : Transfer) (m : Outcome Transfer)
    → m ≡ done r
    → Sized line 0 parts t m
    → Sized line 0 parts t (done r)
Sized-done line parts t r m e sized = subst (Sized line 0 parts t) e sized

-- When the loop of `UploadFile` ends without an error, it sent each part whose bit was not set just
-- once and in order, no bit is left unset, what was read of every part has the MD5 of the part, and
-- the uploaded size, which starts as the size of the file less the missing parts, is the size of
-- the file. This is for a file of several parts.
pub upload_parts-Whole :
    (line : Line) (parts : List (ℕ × String)) (t r : Transfer)
    → IsBitmap t.bitmap
    → t.has_db ≡ true
    → uploaded_before t.bitmap 0 parts (sum (sizes parts)) ≡ some t.uploaded_size
    → upload_parts line 0 parts t ≡ done r
    → (r.puts ≡ t.puts ++ missing (bit t.bitmap) 0 (length parts))
      × (missing (bit r.bitmap) 0 (length parts) ≡ [])
      × Match line 0 parts
      × (r.uploaded_size ≡ sum (sizes parts))
upload_parts-Whole line parts t r valid db before ends =
    let n = length parts in
    let came =
      Came-done n t r (upload_parts line 0 parts t) ends
        (upload_parts-Came line 0 parts t valid db) in
    let (grown, match) =
      Sized-done line parts t r (upload_parts line 0 parts t) ends
        (upload_parts-Sized line 0 parts t valid db) in
    let start = uploaded_before-less t.bitmap 0 parts (sum (sizes parts)) t.uploaded_size before in
    let bound = missing_size-le (bit t.bitmap) 0 parts in
    (
      came.0,
      missing-none (bit r.bitmap) 0 n (λ j le lt. came.4 j ∙ marked (bit t.bitmap j) n j lt),
      match,
      omega arith,
    )
