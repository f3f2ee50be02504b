-- ===== src/Tests/Files.antt =====
-- An upload of a file of three parts, and two goroutines that upload the same file.
use openim_sdk_core.Prelude.{
  ℕ, zero, suc, ◌⊎◌, ◌≤◌, string_eq, nat_eq, ◌≡◌, refl, true, List, [], ◌∷◌, ◌++◌, Option, none,
  some, String, All, length, max, get_elem?, arith,
}
use openim_sdk_core.Prelude.Map.{lookup, insert, delete}
use openim_sdk_core.Prelude.Outcome.{Result, ok, err, fail}
use openim_sdk_core.Bitmap.{set_index, get_index, test_bit, serialize_words, or_bit, parse_words}
use openim_sdk_core.Upload.{PartLimitResp, get_part_num, part_size, part_sizes}
use openim_sdk_core.Upload.Cut.{sum, IsPart, part_size-Cuts}
use openim_sdk_core.Upload.Transfer.{Line, Transfer, upload_part, upload_parts, uploaded_before}
use openim_sdk_core.Upload.Transfer.Reached.{bit, missing}
use openim_sdk_core.Upload.Transfer.Resume.{resume-Once}
use openim_sdk_core.Upload.Start.{
  InitiateMultipartUploadReq, ServerUpload, Row, get_local_upload_info, get_upload,
}
use openim_sdk_core.Upload.Start.Ready.{Starts, get_upload-Starts}
use openim_sdk_core.Upload.Run.{Outside, PartInfo, md5_parts, get_part_info, upload_file}
use openim_sdk_core.Upload.Run.Sent.{IsKnown, IsSent, upload_file-IsSent}
use openim_sdk_core.Upload.Locks.{waits, lock_hash, acquire, unlock_hash, release, run, new_file}
use openim_sdk_core.Upload.Locks.Exclusion.{exclusive}

abbrev limit : PartLimitResp
limit = record { min_part_size = 4; max_part_size = 100; max_num_size = 3 }

sizes_of_ten : part_sizes 10 4 ≡ 4 ∷ 4 ∷ 2 ∷ []
unfolding part_sizes
sizes_of_ten = refl

part_size-Cuts_example :
    (l : PartLimitResp) × ((part_size none (ok limit) 10).1 ≡ some l)
    × (sum (part_sizes 10 4) ≡ 10)
    × All (IsPart 4) (part_sizes 10 4)
    × (length (part_sizes 10 4) ≡ get_part_num 10 4)
    × (get_part_num 10 4 ≤ l.max_num_size)
    × (4 ≤ max l.min_part_size l.max_part_size)
unfolding part_size
part_size-Cuts_example = part_size-Cuts none (ok limit) 10 4 refl

abbrev parts : List (ℕ × String)
parts = (4, "a") ∷ (4, "b") ∷ (2, "c") ∷ []

abbrev md5_at : ℕ → String
md5_at zero = "a"
md5_at (suc zero) = "b"
md5_at (suc (suc n)) = "c"

-- Sending the part 2 fails.
abbrev two_fails : ℕ → Option String
two_fails zero = none
two_fails (suc zero) = none
two_fails (suc (suc n)) = some "timeout"

abbrev broken : Line
broken = record {
  skip = λ i. none;
  sign = λ i. none;
  put = two_fails;
  update = λ i. none;
  md5 = md5_at;
}

abbrev good : Line
good = record broken { put = λ i. none }

-- The part 1 was sent before.
abbrev started : Transfer
started = record {
  bitmap = record { data_words = 2 ∷ []; size = 3 };
  has_db = true;
  stored = 0 ∷ 0 ∷ 0 ∷ 0 ∷ 0 ∷ 0 ∷ 0 ∷ 2 ∷ [];
  uploaded_size = 4;
  puts = [];
  completed = [];
}

abbrev stopped : Transfer
stopped = record started {
  bitmap = record { data_words = 3 ∷ []; size = 3 };
  stored = 0 ∷ 0 ∷ 0 ∷ 0 ∷ 0 ∷ 0 ∷ 0 ∷ 3 ∷ [];
  uploaded_size = 8;
  puts = 0 ∷ [];
  completed = 0 ∷ 1 ∷ [];
}

abbrev ended : Transfer
ended = record {
  bitmap = record { data_words = 7 ∷ []; size = 3 };
  has_db = true;
  stored = 0 ∷ 0 ∷ 0 ∷ 0 ∷ 0 ∷ 0 ∷ 0 ∷ 7 ∷ [];
  uploaded_size = 10;
  puts = 0 ∷ 2 ∷ [];
  completed = 0 ∷ 1 ∷ 2 ∷ [];
}

stops : upload_parts broken 0 parts started ≡ fail "timeout" stopped
unfolding upload_parts upload_part get_index set_index test_bit serialize_words or_bit parse_words
stops = refl

abbrev ended_twice : Transfer
ended_twice = record ended { uploaded_size = 10; completed = 0 ∷ 1 ∷ 0 ∷ 1 ∷ 2 ∷ [] }

resume-Once_example : 0 ∷ 2 ∷ [] ≡ [] ++ missing (bit started.bitmap) 0 3
unfolding upload_parts upload_part get_index set_index test_bit serialize_words or_bit parse_words
resume-Once_example =
    resume-Once broken good parts started ended_twice (refl, (omega arith, tt)) refl refl refl
      (λ i. refl) refl

abbrev outside : Outside
outside = record {
  limit = ok limit;
  read = λ i. ok (md5_at i);
  part_md5 = λ parts. "h";
  seek = none;
  initiate = λ r. err "offline";
  line = good;
  complete = λ id parts. ok "address";
}

abbrev info : PartInfo
info = record { part_size = 4; part_num = 3; part_md5 = "h"; parts = parts }

abbrev req : InitiateMultipartUploadReq
req = record { hash = "h"; size = 10; part_size = 4; max_parts = 20 }

abbrev answer : Result (String × Option ServerUpload)
answer = ok ("", some (record { upload_id = "u2"; part_size = 4; expire_time = 9000000 }))

-- The row of the run that stopped.
abbrev kept : Row
kept = record {
  row = some (record {
    part_hash = "h";
    upload_id = "u1";
    upload_info = some (0 ∷ 0 ∷ 0 ∷ 0 ∷ 0 ∷ 0 ∷ 0 ∷ 3 ∷ []);
    expire_time = 8000000;
  });
  deletes = true;
  inserts = true;
}

get_upload-Starts_example : Starts 3 (get_upload req 1000000 answer kept)
unfolding get_part_num serialize_words or_bit parse_words
get_upload-Starts_example =
    get_upload-Starts req 1000000 answer kept
      (record { data_words = 3 ∷ []; size = 3 }, (refl, (omega arith, tt)), refl, refl) refl

upload_file-IsSent_example :
    IsKnown (upload_file outside none 1000000 10 kept)
    ⊎ IsSent outside info 10 (upload_file outside none 1000000 10 kept)
unfolding upload_file get_part_info md5_parts part_size part_sizes get_part_num get_upload
    get_local_upload_info upload_parts upload_part get_index set_index test_bit serialize_words
    uploaded_before or_bit parse_words
upload_file-IsSent_example =
    upload_file-IsSent outside none 1000000 10 kept info "address" refl (omega arith)
      (record { data_words = 3 ∷ []; size = 3 }, (refl, (omega arith, tt)), refl, refl) refl refl

-- Both goroutines come to the lock of the file, and the first one takes it.
abbrev steps : List (ℕ × String)
steps = (0, "h") ∷ (1, "h") ∷ (0, "h") ∷ (1, "h") ∷ []

waiting_for_it : get_elem? (run steps (new_file 2)).threads 1 ≡ some (waits "h" 0)
unfolding lookup insert delete lock_hash acquire unlock_hash release
waiting_for_it = refl

exclusive_example : ◌≡◌ {A = ℕ} 0 0
unfolding lookup insert delete lock_hash acquire unlock_hash release
exclusive_example = exclusive 2 steps "h" 0 0 0 0 refl refl
