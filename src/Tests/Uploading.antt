-- ===== src/Tests/Uploading.antt =====
-- A bitmap of seventy parts, of which one is set.
use openim_sdk_core.Prelude.{◌≡◌, refl, true, false, [], ◌∷◌, some, none, arith}
use openim_sdk_core.Bitmap.{
  Bitmap, set_index, get_index, clear_index, test_bit, serialize, serialize_words, parse_bitmap,
}
use openim_sdk_core.Bitmap.Words.{parse_bitmap-serialize}
use openim_sdk_core.Bitmap.Indices.{Writes, set_clear-Writes}

abbrev parts : Bitmap
parts = record { data_words = 5 ∷ 32 ∷ []; size = 70 }

sixty_nine : get_index 69 parts ≡ some true
unfolding get_index test_bit
sixty_nine = refl

out_of_range : set_index 70 parts ≡ none
unfolding set_index
out_of_range = refl

bytes : serialize parts ≡ 0 ∷ 0 ∷ 0 ∷ 0 ∷ 0 ∷ 0 ∷ 0 ∷ 5 ∷ 0 ∷ 0 ∷ 0 ∷ 0 ∷ 0 ∷ 0 ∷ 0 ∷ 32 ∷ []
unfolding serialize_words
bytes = refl

parse_bitmap-serialize_example : parse_bitmap (serialize parts) 70 ≡ parts
parse_bitmap-serialize_example = parse_bitmap-serialize parts (omega arith, (omega arith, tt))

set_clear-Writes_example :
    Writes 66 true parts (set_index 66 parts) × Writes 66 false parts (clear_index 66 parts)
set_clear-Writes_example =
    set_clear-Writes 66 parts (refl, (omega arith, (omega arith, tt))) (omega arith)
