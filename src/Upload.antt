-- ===== src/Upload.antt =====
-- How a file is cut into parts: `partSize`, `getPartNum` and the sizes of `getPartInfo` of
-- internal/third/file/upload.go.
pub mod Cut
pub mod Transfer
pub mod Start
pub mod Locks
pub mod Run
use openim_sdk_core.Prelude.{
  ℕ, zero, suc, ◌+◌, ◌-◌, ◌*◌, ◌/◌, ◌%◌, Bool, true, false, List, [], ◌∷◌, Option, none, some,
  String, nat_eq, ◌==◌, leb, ltb, if◌then◌else◌, set, replicate,
}
use openim_sdk_core.Prelude.Outcome.{Result, ok, err}

pub record PartLimitResp : Type 0 where
  pub min_part_size : ℕ
  pub max_part_size : ℕ
  pub max_num_size : ℕ

abbrev pub round_up : ℕ → ℕ → ℕ
round_up size d = if size % d == 0 then size / d else size / d + 1

-- `getPartNum`.
unfoldable pub get_part_num : ℕ → ℕ → ℕ
get_part_num file_size part_size = round_up file_size part_size

abbrev pub size_within : PartLimitResp → ℕ → Result ℕ
size_within limit size =
    if size == 0
    then err "size must be greater than 0"
    else if ltb (limit.max_part_size * limit.max_num_size) size
    then err "size must be less than the limit"
    else if leb size (limit.min_part_size * limit.max_num_size)
    then ok limit.min_part_size
    else ok (round_up size limit.max_num_size)

-- With the limit that is kept, or else the server's answer to `getObjectPartLimit`.
abbrev pub with_limit :
    Option PartLimitResp → Result PartLimitResp → ℕ → Result ℕ × Option PartLimitResp
with_limit (some limit) answer size = (size_within limit size, some limit)
with_limit none (ok limit) size = (size_within limit size, some limit)
with_limit none (err e) size = (err e, none)

-- `partSize`: what it returns, and the limit that is kept after it.
unfoldable pub part_size :
    Option PartLimitResp → Result PartLimitResp → ℕ → Result ℕ × Option PartLimitResp
part_size part_limit answer size = with_limit part_limit answer size

-- `partSizes` of `getPartInfo`: the last is what is left.
unfoldable pub part_sizes : ℕ → ℕ → List ℕ
part_sizes file_size part_size =
    let part_num = round_up file_size part_size in
    set (replicate part_num part_size) (part_num - 1) (file_size - part_size * (part_num - 1))
