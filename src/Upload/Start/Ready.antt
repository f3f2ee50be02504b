-- ===== src/Upload/Start/Ready.antt =====
-- What the loop over the parts starts from: `getUpload` of internal/third/file/upload.go.
use openim_sdk_core.Prelude.{
  ℕ, zero, suc, ◌+◌, ◌/◌, ◌^◌, ◌≤◌, ◌<◌, ◌≡◌, refl, sym, ap, subst, ◌∙◌, true, Option, none, some,
  String, string_eq, leb, ltb, if◌then◌else◌, if_both, length, replicate, All, ◌⊎◌, inl, inr,
  Bool-cases, arith,
}
use openim_sdk_core.Prelude.Outcome.{Result, ok, err}
use openim_sdk_core.Bitmap.{Bitmap, new_bitmap, parse_bitmap, serialize}
use openim_sdk_core.Bitmap.Indices.{IsBitmap}
use openim_sdk_core.Bitmap.Words.{parse_bitmap-serialize}
use openim_sdk_core.Upload.{get_part_num}
use openim_sdk_core.Upload.Start.{
  LocalUpload, InitiateMultipartUploadReq, ServerUpload, UploadInfo, Row, delete_upload,
  insert_upload, is_stale, local_info, decoded, of_row, get_local_upload_info, new_row,
  started_info, initiated, local_or, get_upload,
}

abbrev parts_of : InitiateMultipartUploadReq → ℕ
parts_of req = get_part_num req.size req.part_size

-- A row holds the bitmap of an earlier run for as many parts.
abbrev pub HasBitmap : ℕ → Option LocalUpload → Type 0
HasBitmap n none = Unit
HasBitmap n (some upload) =
    (b : Bitmap) × IsBitmap b × (b.size ≡ n) × (upload.upload_info ≡ some (serialize b))

-- The bitmap of the row is the one of the upload.
abbrev pub Holds : Option LocalUpload → Bitmap → Type 0
Holds none b = ⊥
Holds (some upload) b = upload.upload_info ≡ some (serialize b)

-- The loop can start: a bit for each part, and a row with the bitmap where the file has several
-- parts.
abbrev pub IsReady : ℕ → UploadInfo → Row → Type 0
IsReady n info r =
    (info.part_num ≡ n)
    × IsBitmap info.bitmap
    × (info.bitmap.size ≡ n)
    × ((n ≤ 1) × (info.db_info ≡ none)
        ⊎ (1 < n) × Holds info.db_info info.bitmap × Holds r.row info.bitmap)

-- Of what `getUpload` returns.
abbrev pub Starts : ℕ → Result UploadInfo × Row → Type 0
Starts n (err e, r) = Unit
Starts n (ok info, r) = (info.upload ≡ none) ⊎ IsReady n info r

new_bitmap-IsBitmap : (n : ℕ) → IsBitmap (new_bitmap n) × ((new_bitmap n).size ≡ n)
unfolding new_bitmap
new_bitmap-IsBitmap n = ((length-replicate ((n + 63) / 64), All-replicate ((n + 63) / 64)), refl)
  where
    length-replicate : (k : ℕ) → length {A = ℕ} (replicate k 0) ≡ k
    length-replicate zero = refl
    length-replicate (suc k) = ap suc (length-replicate k)

    All-replicate : (k : ℕ) → All (λ w. w < 2 ^ 64) (replicate k 0)
    All-replicate zero = tt
    All-replicate (suc k) = (omega arith, All-replicate k)

insert-row :
    (upload : LocalUpload) (r : Row) → r.inserts ≡ true → (insert_upload upload r).row ≡ some upload
insert-row upload r inserts =
    ap (λ b. (if b then record r { row = some upload } else r).row) inserts

delete-inserts : (r : Row) → (delete_upload r).inserts ≡ r.inserts
delete-inserts r =
    if_both (λ r'. r'.inserts ≡ r.inserts) r.deletes (record r { row = none }) r refl refl

started-Starts :
    (req : InitiateMultipartUploadReq) (url : String) (upload : ServerUpload) (r : Row)
    → r.inserts ≡ true
    → Starts (parts_of req) (initiated req (ok (url, some upload)) r)
started-Starts req url upload r inserts =
    let n = parts_of req in
    let row = new_row req upload (new_bitmap n) in
    let (valid, size) = new_bitmap-IsBitmap n in
    elim (Bool-cases (ltb 1 n)) [
      | inl several ↦
          let stored = insert-row row (delete_upload r) (delete-inserts r ∙ inserts) in
          subst
            (λ b. Starts n (
              if b
              then (
                ok (started_info req url upload (some row)),
                insert_upload row (delete_upload r),
              )
              else (ok (started_info req url upload none), r)))
            (sym several)
            (inr (
              refl,
              valid,
              size,
              inr (ground arith, refl, subst (λ o. Holds o (new_bitmap n)) (sym stored) refl),
            ))
      | inr single ↦
          subst
            (λ b. Starts n (
              if b
              then (
                ok (started_info req url upload (some row)),
                insert_upload row (delete_upload r),
              )
              else (ok (started_info req url upload none), r)))
            (sym single) (inr (refl, valid, size, inl (ground arith, refl)))
    ]

initiated-Starts :
    (req : InitiateMultipartUploadReq) (answer : Result (String × Option ServerUpload)) (r : Row)
    → r.inserts ≡ true
    → Starts (parts_of req) (initiated req answer r)
initiated-Starts req (err e) r inserts = tt
initiated-Starts req (ok (url, none)) r inserts = inl refl
initiated-Starts req (ok (url, some upload)) r inserts = started-Starts req url upload r inserts

decoded-IsReady :
    (req : InitiateMultipartUploadReq) (upload : LocalUpload) (b : Bitmap) (r : Row)
    → r.row ≡ some upload
    → IsBitmap b
    → b.size ≡ parts_of req
    → upload.upload_info ≡ some (serialize b)
    → 1 < parts_of req
    → IsReady (parts_of req) (local_info req upload (serialize b)) r
decoded-IsReady req upload b r e valid size stored several =
    let back : b ≡ parse_bitmap (serialize b) (parts_of req) =
      sym (ap (parse_bitmap (serialize b)) (sym size) ∙ parse_bitmap-serialize b valid.1) in
    let holds = stored ∙ ap (λ c. some (serialize c)) back in
    (
      refl,
      subst IsBitmap back valid,
      refl,
      inr (
        several,
        holds,
        subst (λ o. Holds o (parse_bitmap (serialize b) (parts_of req))) (sym e) holds,
      ),
    )

local-Starts :
    (req : InitiateMultipartUploadReq) (now : ℕ) (o : Option LocalUpload) (r : Row)
    (rest : Row → Result UploadInfo × Row)
    → r.row ≡ o
    → HasBitmap (parts_of req) o
    → 1 < parts_of req
    → ((r' : Row) → r'.inserts ≡ r.inserts → Starts (parts_of req) (rest r'))
    → Starts (parts_of req) (local_or (of_row req now o r) rest)
local-Starts req now none r rest e has several next = next r refl
local-Starts req now (some upload) r rest e (b, valid, size, stored) several next =
    if_both (λ x. Starts (parts_of req) (local_or x rest)) (is_stale now upload)
      (none, delete_upload r) (decoded req upload upload.upload_info r)
      (next (delete_upload r) (delete-inserts r))
      (subst (λ i. Starts (parts_of req) (local_or (decoded req upload i r) rest)) (sym stored)
        (inr (decoded-IsReady req upload b r e valid size stored several)))

-- `getUpload` returns an error, or that the server has the file, or an upload from which the loop
-- can start: its bitmap has a bit for each part, and of a file with several parts the row of the
-- database holds the bitmap, whether the row is that of an earlier run or is new. This is for a row
-- that holds a bitmap of an earlier run for as many parts, if there is one, and a database that
-- inserts.
pub get_upload-Starts :
    (req : InitiateMultipartUploadReq) (now : ℕ) (answer : Result (String × Option ServerUpload))
    (r : Row)
    → HasBitmap (get_part_num req.size req.part_size) r.row
    → r.inserts ≡ true
    → Starts (get_part_num req.size req.part_size) (get_upload req now answer r)
unfolding get_upload get_local_upload_info
get_upload-Starts req now answer r has inserts =
    let initiate = initiated req answer in
    elim (Bool-cases (leb (parts_of req) 1)) [
      | inl single ↦
          subst
            (λ b.
              Starts (parts_of req)
                (local_or (if b then (none, r) else of_row req now r.row r) initiate))
            (sym single) (initiated-Starts req answer r inserts)
      | inr several ↦
          subst
            (λ b.
              Starts (parts_of req)
                (local_or (if b then (none, r) else of_row req now r.row r) initiate))
            (sym several)
            (local-Starts req now r.row r initiate refl has (ground arith)
              (λ r' e. initiated-Starts req answer r' (e ∙ inserts)))
    ]
