-- ===== src/Upload/Run.antt =====
-- An upload as a whole: `getPartInfo` and `UploadFile` of internal/third/file/upload.go.
pub mod Info
pub mod Sent
use openim_sdk_core.Prelude.{
  ℕ, zero, suc, ◌-◌, Bool, true, false, ◌&&◌, List, [], ◌∷◌, Option, none, some, String, nat_eq,
  ◌==◌, ltb, if◌then◌else◌, length, map,
}
use openim_sdk_core.Prelude.Outcome.{Result, ok, err, Outcome, done, fail}
use openim_sdk_core.Bitmap.{Bitmap}
use openim_sdk_core.Upload.{PartLimitResp, part_size, part_sizes, get_part_num}
use openim_sdk_core.Upload.Transfer.{Line, Transfer, upload_parts, uploaded_before}
use openim_sdk_core.Upload.Start.{
  LocalUpload, InitiateMultipartUploadReq, ServerUpload, UploadInfo, Row, get_upload, delete_upload,
}

-- What the server answers, and what the file and MD5 give: `read` is the MD5 of a part as
-- `getPartInfo` reads it, `part_md5` is `partMD5`, `seek` the error of `StartSeek`, and `line` what
-- the loop over the parts meets.
pub record Outside : Type 0 where
  pub limit : Result PartLimitResp
  pub read : ℕ → Result String
  pub part_md5 : List String → String
  pub seek : Option String
  pub initiate : InitiateMultipartUploadReq → Result (String × Option ServerUpload)
  pub line : Line
  pub complete : String → List String → Result String

-- `parts` are `PartSizes` and `PartMd5s`.
pub record PartInfo : Type 0 where
  pub part_size : ℕ
  pub part_num : ℕ
  pub part_md5 : String
  pub parts : List (ℕ × String)

abbrev pub and_md5 : ℕ → Result String → Result (List (ℕ × String)) → Result (List (ℕ × String))
and_md5 size (err e) rest = err e
and_md5 size (ok md5) (err e) = err e
and_md5 size (ok md5) (ok parts) = ok ((size, md5) ∷ parts)

-- The parts from index `i` on, by their sizes, with the MD5 of each.
unfoldable pub md5_parts : (ℕ → Result String) → ℕ → List ℕ → Result (List (ℕ × String))
md5_parts read i [] = ok []
md5_parts read i (size ∷ sizes) = and_md5 size (read i) (md5_parts read (suc i) sizes)

abbrev pub md5s : List (ℕ × String) → List String
md5s [] = []
md5s ((size, md5) ∷ parts) = md5 ∷ md5s parts

abbrev pub info_of_parts : Outside → ℕ → ℕ → Result (List (ℕ × String)) → Result PartInfo
info_of_parts o d part_num (err e) = err e
info_of_parts o d part_num (ok parts) = ok (record {
  part_size = d;
  part_num = part_num;
  part_md5 = o.part_md5 (md5s parts);
  parts = parts;
})

abbrev pub by_part_size :
    Outside → ℕ → Result ℕ × Option PartLimitResp → Result PartInfo × Option PartLimitResp
by_part_size o file_size (err e, part_limit) = (err e, part_limit)
by_part_size o file_size (ok d, part_limit) = (
  info_of_parts o d (get_part_num file_size d) (md5_parts o.read 0 (part_sizes file_size d)),
  part_limit,
)

-- `getPartInfo`, with the limit that is kept before and after.
unfoldable pub get_part_info :
    Outside → Option PartLimitResp → ℕ → Result PartInfo × Option PartLimitResp
get_part_info o part_limit file_size =
    by_part_size o file_size (part_size part_limit o.limit file_size)

-- What `UploadFile` returns and leaves. `row` is the table after `getUpload`; what the loop writes
-- into the row is `stored` of `transfer`, which is none before the loop. `asked` are the calls of
-- `completeMultipartUpload`, and `row_deleted` tells whether `DeleteUpload` was called at the end
-- and succeeded: its error is only logged.
pub record Uploaded : Type 0 where
  pub result : Result String
  pub part_limit : Option PartLimitResp
  pub row : Row
  pub transfer : Option Transfer
  pub asked : List (String × List String)
  pub row_deleted : Bool

abbrev pub before_loop : Result String → Option PartLimitResp → Row → Uploaded
before_loop result part_limit r = record {
  result = result;
  part_limit = part_limit;
  row = r;
  transfer = none;
  asked = [];
  row_deleted = false;
}

abbrev pub has_row : Option LocalUpload → Bool
has_row none = false
has_row (some upload) = true

abbrev pub or_empty : Option (List ℕ) → List ℕ
or_empty none = []
or_empty (some bytes) = bytes

abbrev pub row_bytes : Option LocalUpload → List ℕ
row_bytes none = []
row_bytes (some upload) = or_empty upload.upload_info

abbrev pub started_with : UploadInfo → ℕ → Transfer
started_with u uploaded_size = record {
  bitmap = u.bitmap;
  has_db = has_row u.db_info;
  stored = row_bytes u.db_info;
  uploaded_size = uploaded_size;
  puts = [];
  completed = [];
}

-- After `completeMultipartUpload`.
abbrev pub by_complete : Result String → UploadInfo → Uploaded → Uploaded
by_complete (err e) u d = record d { result = err e }
by_complete (ok url) u d = record d {
  result = ok url;
  row_deleted = has_row u.db_info && d.row.deletes;
}

-- After the loop.
abbrev pub by_transfer :
    Outside → PartInfo → UploadInfo → String → Uploaded → Outcome Transfer → Uploaded
by_transfer o info u id d (fail e t) = record d { result = err e; transfer = some t }
by_transfer o info u id d (done t) =
    by_complete (o.complete id (md5s info.parts)) u
      (record d { transfer = some t; asked = (id, md5s info.parts) ∷ [] })

abbrev pub by_before : Outside → PartInfo → UploadInfo → String → Uploaded → Option ℕ → Uploaded
by_before o info u id d none = record d { result = err "panic: index out of range" }
by_before o info u id d (some uploaded_size) =
    by_transfer o info u id d (upload_parts o.line 0 info.parts (started_with u uploaded_size))

abbrev pub by_answer :
    Outside
    → PartInfo
    → ℕ
    → UploadInfo
    → Option PartLimitResp
    → Row
    → Option ServerUpload
    → Uploaded
by_answer o info file_size u part_limit r none = before_loop (ok u.url) part_limit r
by_answer o info file_size u part_limit r (some upload) =
    if upload.part_size == info.part_size
    then by_before o info u upload.upload_id (before_loop (ok "") part_limit r)
        (uploaded_before u.bitmap 0 info.parts file_size)
    else before_loop (err "part fileSize not match") none r

abbrev pub by_upload :
    Outside → PartInfo → ℕ → Option PartLimitResp → Result UploadInfo × Row → Uploaded
by_upload o info file_size part_limit (err e, r) = before_loop (err e) part_limit r
by_upload o info file_size part_limit (ok u, r) = by_answer o info file_size u part_limit r u.upload

abbrev pub request : PartInfo → ℕ → InitiateMultipartUploadReq
request info file_size = record {
  hash = info.part_md5;
  size = file_size;
  part_size = info.part_size;
  max_parts = if ltb (length info.parts) 20 then length info.parts else 20;
}

abbrev pub by_seek :
    Option String → Outside → ℕ → ℕ → Option PartLimitResp → Row → PartInfo → Uploaded
by_seek (some e) o now file_size part_limit r info = before_loop (err e) part_limit r
by_seek none o now file_size part_limit r info =
    by_upload o info file_size part_limit
      (get_upload (request info file_size) now (o.initiate (request info file_size)) r)

abbrev pub by_info : Outside → ℕ → ℕ → Row → Result PartInfo × Option PartLimitResp → Uploaded
by_info o now file_size r (err e, part_limit) = before_loop (err e) part_limit r
by_info o now file_size r (ok info, part_limit) = by_seek o.seek o now file_size part_limit r info

-- `UploadFile` of a file that is open, at the time `now`.
unfoldable pub upload_file : Outside → Option PartLimitResp → ℕ → ℕ → Row → Uploaded
upload_file o part_limit now file_size r =
    by_info o now file_size r (get_part_info o part_limit file_size)
