-- ===== src/Upload/Transfer.antt =====
-- The loop of `UploadFile` over the parts: internal/third/file/upload.go.
pub mod Reached
pub mod Resume
pub mod Whole
use openim_sdk_core.Prelude.{
  ℕ, zero, suc, ◌+◌, ◌-◌, Bool, true, false, List, [], ◌∷◌, ◌++◌, Option, none, some, String,
  string_eq, ◌==◌, if◌then◌else◌,
}
use openim_sdk_core.Prelude.Outcome.{Outcome, done, fail, ◌>>=◌}
use openim_sdk_core.Bitmap.{Bitmap, set_index, get_index, serialize}

-- What the part at an index meets: the error of reading it past, of `GetPartSign`, of `doPut` and of
-- `UpdateUpload`, and the MD5 of what was read.
pub record Line : Type 0 where
  pub skip : ℕ → Option String
  pub sign : ℕ → Option String
  pub put : ℕ → Option String
  pub update : ℕ → Option String
  pub md5 : ℕ → String

-- `has_db` tells whether `DBInfo` is there, `stored` is the decoded `UploadInfo` of its row, `puts`
-- are the parts that `doPut` sent and `completed` those of the calls of `UploadPartComplete`, the
-- first one first.
pub record Transfer : Type 0 where
  pub bitmap : Bitmap
  pub has_db : Bool
  pub stored : List ℕ
  pub uploaded_size : ℕ
  pub puts : List ℕ
  pub completed : List ℕ

abbrev pub unless_error : Option String → Transfer → Outcome Transfer → Outcome Transfer
unless_error (some e) t rest = fail e t
unless_error none t rest = rest

-- `UpdateUpload`, whose error is only logged.
abbrev pub update_upload : Option String → Transfer → Transfer
update_upload (some e) t = t
update_upload none t = record t { stored = serialize t.bitmap }

abbrev pub bit_set : Option Bitmap → Option String → Transfer → Outcome Transfer
bit_set none update t = fail "panic: index out of range" t
bit_set (some bitmap) update t = done (update_upload update (record t { bitmap = bitmap }))

-- After a part was sent.
abbrev pub mark_uploaded : Line → ℕ → ℕ → Transfer → Outcome Transfer
mark_uploaded line i size t =
    let sent = record t { uploaded_size = t.uploaded_size + size; puts = t.puts ++ (i ∷ []) } in
    if t.has_db then bit_set (set_index i t.bitmap) (line.update i) sent else done sent

abbrev pub check_md5 : Line → ℕ → String → Transfer → Outcome Transfer
check_md5 line i md5 t =
    if line.md5 i == md5
    then done (record t { completed = t.completed ++ (i ∷ []) })
    else fail "upload part failed, md5 not match" t

abbrev pub by_bit : Option Bool → Line → ℕ → ℕ → Transfer → Outcome Transfer
by_bit none line i size t = fail "panic: index out of range" t
by_bit (some true) line i size t = unless_error (line.skip i) t (done t)
by_bit (some false) line i size t =
    unless_error (line.sign i) t (unless_error (line.put i) t (mark_uploaded line i size t))

unfoldable pub upload_part : Line → ℕ → ℕ → String → Transfer → Outcome Transfer
upload_part line i size md5 t = by_bit (get_index i t.bitmap) line i size t >>= check_md5 line i md5

-- The parts from index `i` on, by their sizes and MD5s.
unfoldable pub upload_parts : Line → ℕ → List (ℕ × String) → Transfer → Outcome Transfer
upload_parts line i [] t = done t
upload_parts line i ((size, md5) ∷ parts) t =
    upload_part line i size md5 t >>= upload_parts line (suc i) parts

-- `uploadedSize` before the loop, from index `i` on: the size of the file less that of each part
-- whose bit is not set. None is the panic for an index out of range.
abbrev pub less_missing : Option Bool → ℕ → ℕ → Option ℕ
less_missing none size left = none
less_missing (some true) size left = some left
less_missing (some false) size left = some (left - size)

abbrev pub with_left : Option ℕ → (ℕ → Option ℕ) → Option ℕ
with_left none rest = none
with_left (some left) rest = rest left

unfoldable pub uploaded_before : Bitmap → ℕ → List (ℕ × String) → ℕ → Option ℕ
uploaded_before b i [] left = some left
uploaded_before b i ((size, md5) ∷ parts) left =
    with_left (less_missing (get_index i b) size left) (uploaded_before b (suc i) parts)
