-- ===== src/Upload/Run/Sent.antt =====
-- What an upload that returns an address has done: `UploadFile` of internal/third/file/upload.go.
use openim_sdk_core.Prelude.{
  ℕ, ◌<◌, ◌≡◌, refl, sym, ap, subst, ◌∙◌, true, ◌&&◌, [], ◌∷◌, Option, none, some, String, nat_eq,
  ◌==◌, if_both, length, ◌⊎◌, inl, inr, arith,
}
use openim_sdk_core.Prelude.Outcome.{Result, ok, err, Outcome, done, fail}
use openim_sdk_core.Bitmap.{Bitmap}
use openim_sdk_core.Bitmap.Indices.{IsBitmap}
use openim_sdk_core.Upload.{PartLimitResp, get_part_num}
use openim_sdk_core.Upload.Cut.{sum}
use openim_sdk_core.Upload.Transfer.{Transfer, upload_parts, uploaded_before}
use openim_sdk_core.Upload.Transfer.Reached.{bit, missing}
use openim_sdk_core.Upload.Transfer.Whole.{sizes, Match, upload_parts-Whole}
use openim_sdk_core.Upload.Start.{LocalUpload, ServerUpload, UploadInfo, Row, get_upload}
use openim_sdk_core.Upload.Start.Ready.{HasBitmap, Holds, IsReady, Starts, get_upload-Starts}
use openim_sdk_core.Upload.Run.{
  Outside, PartInfo, md5s, Uploaded, before_loop, has_row, started_with, by_complete, by_transfer,
  by_before, by_answer, by_upload, request, by_seek, by_info, get_part_info, upload_file,
}
use openim_sdk_core.Upload.Run.Info.{ok_injective, get_part_info-sizes}

-- The server has the file: nothing was sent.
abbrev pub IsKnown : Uploaded → Type 0
IsKnown d = (d.transfer ≡ none) × (d.asked ≡ [])

-- The parts that the row did not have were sent in order, once each; all are there, and what was
-- read is what was announced; then the server was asked once to complete the upload, with the MD5s
-- of all parts, and the row was deleted unless `DeleteUpload` failed.
abbrev pub IsSent : Outside → PartInfo → ℕ → Uploaded → Type 0
IsSent o info file_size d =
    (id : String) × (b : Bitmap) × (t : Transfer) × (d.transfer ≡ some t)
    × Holds d.row.row b
    × (t.puts ≡ missing (bit b) 0 (length info.parts))
    × (missing (bit t.bitmap) 0 (length info.parts) ≡ [])
    × Match o.line 0 info.parts
    × (t.uploaded_size ≡ file_size)
    × (d.asked ≡ (id, md5s info.parts) ∷ [])
    × (d.row_deleted ≡ d.row.deletes)

abbrev IsEnd : Outside → PartInfo → ℕ → Uploaded → Type 0
IsEnd o info file_size d =
    (url : String) → d.result ≡ ok url → IsKnown d ⊎ IsSent o info file_size d

failed-IsEnd :
    (o : Outside) (info : PartInfo) (file_size : ℕ) (e : String) (d : Uploaded)
    → d.result ≡ err e
    → IsEnd o info file_size d
failed-IsEnd o info file_size e d h url h' = absurd (cc)

has_row-true : (row : Option LocalUpload) (b : Bitmap) → Holds row b → has_row row ≡ true
has_row-true none b h = absurd h
has_row-true (some upload) b h = refl

module _ (o : Outside) (info : PartInfo) (file_size : ℕ) (u : UploadInfo) where
  complete-IsEnd :
      (r : Result String) (d : Uploaded)
      → ((e : Uploaded)
          → e ≡ record d { row_deleted = has_row u.db_info && d.row.deletes }
          → IsSent o info file_size e)
      → IsEnd o info file_size (by_complete r u d)
  complete-IsEnd (err e) d sent url h = absurd (cc)
  complete-IsEnd (ok link) d sent url h =
      inr (sent (record d { row_deleted = has_row u.db_info && d.row.deletes }) refl)

  transfer-IsEnd :
      (id : String) (d : Uploaded) (k : ℕ) (m : Outcome Transfer)
      → IsBitmap u.bitmap
      → Holds u.db_info u.bitmap
      → Holds d.row.row u.bitmap
      → uploaded_before u.bitmap 0 info.parts (sum (sizes info.parts)) ≡ some k
      → sum (sizes info.parts) ≡ file_size
      → upload_parts o.line 0 info.parts (started_with u k) ≡ m
      → IsEnd o info file_size (by_transfer o info u id d m)
  transfer-IsEnd id d k (fail e t) valid own row before total ran =
      failed-IsEnd o info file_size e (record d { result = err e; transfer = some t }) refl
  transfer-IsEnd id d k (done t) valid own row before total ran =
      let there = has_row-true u.db_info u.bitmap own in
      let (puts, all, match, size) =
        upload_parts-Whole o.line info.parts (started_with u k) t valid there before ran in
      complete-IsEnd (o.complete id (md5s info.parts))
        (record d { transfer = some t; asked = (id, md5s info.parts) ∷ [] })
        (λ e same. (
          id,
          u.bitmap,
          t,
          ap (λ x. x.transfer) same,
          subst (λ x. Holds x.row.row u.bitmap) (sym same) row,
          puts,
          all,
          match,
          size ∙ total,
          ap (λ x. x.asked) same,
          ap (λ x. x.row_deleted) same
              ∙ ap (λ b. b && d.row.deletes) there
              ∙ ap (λ x. x.row.deletes) (sym same),
        ))

  before-IsEnd :
      (id : String) (d : Uploaded) (k : Option ℕ)
      → IsBitmap u.bitmap
      → Holds u.db_info u.bitmap
      → Holds d.row.row u.bitmap
      → uploaded_before u.bitmap 0 info.parts (sum (sizes info.parts)) ≡ k
      → sum (sizes info.parts) ≡ file_size
      → IsEnd o info file_size (by_before o info u id d k)
  before-IsEnd id d none valid own row before total =
      failed-IsEnd o info file_size "panic: index out of range"
        (record d { result = err "panic: index out of range" }) refl
  before-IsEnd id d (some k) valid own row before total =
      transfer-IsEnd id d k (upload_parts o.line 0 info.parts (started_with u k)) valid own row
        before total refl

  answer-IsEnd :
      (kept : Option PartLimitResp) (r : Row) (upload : Option ServerUpload)
      → u.upload ≡ upload
      → sum (sizes info.parts) ≡ file_size
      → 1 < get_part_num file_size info.part_size
      → (u.upload ≡ none) ⊎ IsReady (get_part_num file_size info.part_size) u r
      → IsEnd o info file_size (by_answer o info file_size u kept r upload)
  answer-IsEnd kept r none e total several ready = λ url h. inl (refl, refl)
  answer-IsEnd kept r (some upload) e total several (inl nothing) = absurd (cc)
  answer-IsEnd kept r (some upload) e total several (inr (num, valid, size, inl (single, there))) =
      absurd (omega arith)
  answer-IsEnd kept r (some upload) e total several (inr (num, valid, size, inr (many, own, row))) =
      let start = before_loop (ok "") kept r in
      if_both (IsEnd o info file_size) (upload.part_size == info.part_size)
        (by_before o info u upload.upload_id start
          (uploaded_before u.bitmap 0 info.parts file_size))
        (before_loop (err "part fileSize not match") none r)
        (before-IsEnd upload.upload_id start (uploaded_before u.bitmap 0 info.parts file_size) valid
          own row (ap (uploaded_before u.bitmap 0 info.parts) total) total)
        (failed-IsEnd o info file_size "part fileSize not match"
          (before_loop (err "part fileSize not match") none r) refl)

upload-IsEnd :
    (o : Outside) (info : PartInfo) (file_size : ℕ) (kept : Option PartLimitResp)
    (x : Result UploadInfo × Row)
    → sum (sizes info.parts) ≡ file_size
    → 1 < get_part_num file_size info.part_size
    → Starts (get_part_num file_size info.part_size) x
    → IsEnd o info file_size (by_upload o info file_size kept x)
upload-IsEnd o info file_size kept (err e, r) total several starts =
    failed-IsEnd o info file_size e (before_loop (err e) kept r) refl
upload-IsEnd o info file_size kept (ok u, r) total several starts =
    answer-IsEnd o info file_size u kept r u.upload refl total several starts

seek-IsEnd :
    (seek : Option String) (o : Outside) (now file_size : ℕ) (kept : Option PartLimitResp) (r : Row)
    (info : PartInfo)
    → sum (sizes info.parts) ≡ file_size
    → 1 < get_part_num file_size info.part_size
    → HasBitmap (get_part_num file_size info.part_size) r.row
    → r.inserts ≡ true
    → IsEnd o info file_size (by_seek seek o now file_size kept r info)
seek-IsEnd (some e) o now file_size kept r info total several has inserts =
    failed-IsEnd o info file_size e (before_loop (err e) kept r) refl
seek-IsEnd none o now file_size kept r info total several has inserts =
    let req = request info file_size in
    upload-IsEnd o info file_size kept (get_upload req now (o.initiate req) r) total several
      (get_upload-Starts req now (o.initiate req) r has inserts)

info-IsEnd :
    (o : Outside) (now file_size : ℕ) (r : Row) (x : Result PartInfo × Option PartLimitResp)
    (info : PartInfo)
    → x.0 ≡ ok info
    → sum (sizes info.parts) ≡ file_size
    → 1 < get_part_num file_size info.part_size
    → HasBitmap (get_part_num file_size info.part_size) r.row
    → r.inserts ≡ true
    → IsEnd o info file_size (by_info o now file_size r x)
info-IsEnd o now file_size r (err e, kept) info h total several has inserts = absurd (cc)
info-IsEnd o now file_size r (ok found, kept) info h total several has inserts =
    subst (λ i. IsEnd o info file_size (by_seek o.seek o now file_size kept r i))
      (sym (ok_injective found info h))
      (seek-IsEnd o.seek o now file_size kept r info total several has inserts)

-- When `UploadFile` returns an address, the server had the file and nothing was sent; or each part
-- that the bitmap in the row did not have was sent just once, in order, and no other, all parts are
-- there, what was read in the loop is what `getPartInfo` read before, the uploaded size is that of
-- the file, and then the server was asked, once and never before, to complete the upload with the
-- MD5s of all parts, and the row was deleted unless `DeleteUpload` failed. This is for a file of
-- several parts, a row that holds a bitmap of an earlier run for as many parts, if there is one,
-- and a database that inserts.
pub upload_file-IsSent :
    (o : Outside) (kept : Option PartLimitResp) (now file_size : ℕ) (r : Row) (info : PartInfo)
    (url : String)
    → (get_part_info o kept file_size).0 ≡ ok info
    → 1 < get_part_num file_size info.part_size
    → HasBitmap (get_part_num file_size info.part_size) r.row
    → r.inserts ≡ true
    → (upload_file o kept now file_size r).result ≡ ok url
    → IsKnown (upload_file o kept now file_size r)
      ⊎ IsSent o info file_size (upload_file o kept now file_size r)
unfolding upload_file
upload_file-IsSent o kept now file_size r info url known several has inserts =
    info-IsEnd o now file_size r (get_part_info o kept file_size) info known
      (get_part_info-sizes o kept file_size info known).0 several has inserts url
