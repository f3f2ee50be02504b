-- ===== src/Upload/Start.antt =====
-- Where an upload starts: `getLocalUploadInfo` and `getUpload` of internal/third/file/upload.go.
pub mod Ready
use openim_sdk_core.Prelude.{
  ℕ, ◌+◌, Bool, true, false, ◌||◌, List, [], Option, none, some, String, string_eq, ◌==◌, leb, ltb,
  if◌then◌else◌,
}
use openim_sdk_core.Prelude.Outcome.{Result, ok, err}
use openim_sdk_core.Bitmap.{Bitmap, new_bitmap, parse_bitmap, serialize}
use openim_sdk_core.Upload.{get_part_num}

-- `upload_info` is what `DecodeString` makes of the column, none where it is no base64.
pub record LocalUpload : Type 0 where
  pub part_hash : String
  pub upload_id : String
  pub upload_info : Option (List ℕ)
  pub expire_time : ℕ

pub record InitiateMultipartUploadReq : Type 0 where
  pub hash : String
  pub size : ℕ
  pub part_size : ℕ
  pub max_parts : ℕ

-- `Upload` of the server's answer, of which the signatures are in Upload/Sign.
pub record ServerUpload : Type 0 where
  pub upload_id : String
  pub part_size : ℕ
  pub expire_time : ℕ

-- `Resp.Upload` is `upload`, none for nil, and `url` is `Resp.Url`.
pub record UploadInfo : Type 0 where
  pub part_num : ℕ
  pub bitmap : Bitmap
  pub db_info : Option LocalUpload
  pub url : String
  pub upload : Option ServerUpload
  pub batch_sign_num : ℕ

-- The table of uploads at the file's hash, and whether `DeleteUpload` and `InsertUpload` succeed.
pub record Row : Type 0 where
  pub row : Option LocalUpload
  pub deletes : Bool
  pub inserts : Bool

abbrev pub delete_upload : Row → Row
delete_upload r = if r.deletes then record r { row = none } else r

abbrev pub insert_upload : LocalUpload → Row → Row
insert_upload upload r = if r.inserts then record r { row = some upload } else r

-- `UploadID` is empty, or less than an hour is left.
abbrev pub is_stale : ℕ → LocalUpload → Bool
is_stale now upload = upload.upload_id == "" || ltb upload.expire_time (now + 3600000)

abbrev pub local_info : InitiateMultipartUploadReq → LocalUpload → List ℕ → UploadInfo
local_info req upload bytes = record {
  part_num = get_part_num req.size req.part_size;
  bitmap = parse_bitmap bytes (get_part_num req.size req.part_size);
  db_info = some upload;
  url = "";
  upload = some (record {
    upload_id = upload.upload_id;
    part_size = req.part_size;
    expire_time = upload.expire_time;
  });
  batch_sign_num = req.max_parts;
}

abbrev pub decoded :
    InitiateMultipartUploadReq → LocalUpload → Option (List ℕ) → Row → Option UploadInfo × Row
decoded req upload none r = (none, delete_upload r)
decoded req upload (some bytes) r = (some (local_info req upload bytes), r)

abbrev pub of_row :
    InitiateMultipartUploadReq → ℕ → Option LocalUpload → Row → Option UploadInfo × Row
of_row req now none r = (none, r)
of_row req now (some upload) r =
    if is_stale now upload then (none, delete_upload r) else decoded req upload upload.upload_info r

-- At the time `now`, in milliseconds.
unfoldable pub get_local_upload_info :
    InitiateMultipartUploadReq → ℕ → Row → Option UploadInfo × Row
get_local_upload_info req now r =
    if leb (get_part_num req.size req.part_size) 1 then (none, r) else of_row req now r.row r

abbrev pub new_row : InitiateMultipartUploadReq → ServerUpload → Bitmap → LocalUpload
new_row req upload bitmap = record {
  part_hash = req.hash;
  upload_id = upload.upload_id;
  upload_info = some (serialize bitmap);
  expire_time = upload.expire_time;
}

abbrev pub started_info :
    InitiateMultipartUploadReq → String → ServerUpload → Option LocalUpload → UploadInfo
started_info req url upload db_info = record {
  part_num = get_part_num req.size req.part_size;
  bitmap = new_bitmap (get_part_num req.size req.part_size);
  db_info = db_info;
  url = url;
  upload = some upload;
  batch_sign_num = req.max_parts;
}

-- An answer without `Upload`: the server has the file.
abbrev pub known_info : String → UploadInfo
known_info url = record {
  part_num = 0;
  bitmap = record { data_words = []; size = 0 };
  db_info = none;
  url = url;
  upload = none;
  batch_sign_num = 0;
}

abbrev pub initiated :
    InitiateMultipartUploadReq
    → Result (String × Option ServerUpload)
    → Row
    → Result UploadInfo × Row
initiated req (err e) r = (err e, r)
initiated req (ok (url, none)) r = (ok (known_info url), r)
initiated req (ok (url, some upload)) r =
    let part_num = get_part_num req.size req.part_size in
    let upload_row = new_row req upload (new_bitmap part_num) in
    if ltb 1 part_num
    then (
      ok (started_info req url upload (some upload_row)),
      insert_upload upload_row (delete_upload r),
    )
    else (ok (started_info req url upload none), r)

abbrev pub local_or :
    Option UploadInfo × Row → (Row → Result UploadInfo × Row) → Result UploadInfo × Row
local_or (some info, r) initiate = (ok info, r)
local_or (none, r) initiate = initiate r

-- `answer` is that of the server to `initiateMultipartUploadResp`.
unfoldable pub get_upload :
    InitiateMultipartUploadReq
    → ℕ
    → Result (String × Option ServerUpload)
    → Row
    → Result UploadInfo × Row
get_upload req now answer r = local_or (get_local_upload_info req now r) (initiated req answer)
