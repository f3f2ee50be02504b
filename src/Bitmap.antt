-- ===== src/Bitmap.antt =====
-- The bitmap of uploaded parts: internal/third/file/bitmap.go.
pub mod Bits
pub mod Words
pub mod Indices
use openim_sdk_core.Prelude.{
  ℕ, zero, suc, ◌+◌, ◌-◌, ◌*◌, ◌/◌, ◌%◌, ◌^◌, Bool, true, false, List, [], ◌∷◌, ◌++◌, Option, none,
  some, nat_eq, ◌==◌, ltb, if◌then◌else◌, length, get_or, set, replicate,
}

-- A word of `data` is below 2 ^ 64, and an index is no negative number.
pub record Bitmap : Type 0 where
  pub data_words : List ℕ
  pub size : ℕ

unfoldable pub new_bitmap : ℕ → Bitmap
new_bitmap size = record { data_words = replicate ((size + 63) / 64) 0; size = size }

-- `word & (1 << bit) != 0`.
unfoldable pub test_bit : ℕ → ℕ → Bool
test_bit word bit = (word / 2 ^ bit) % 2 == 1

-- `word | 1 << bit`: a bit that is there stays.
unfoldable pub or_bit : ℕ → ℕ → ℕ
or_bit word bit = if test_bit word bit then word else word + 2 ^ bit

-- `word & ^(1 << bit)`.
unfoldable pub and_not_bit : ℕ → ℕ → ℕ
and_not_bit word bit = if test_bit word bit then word - 2 ^ bit else word

-- None is the panic for an index out of range.
unfoldable pub set_index : ℕ → Bitmap → Option Bitmap
set_index index b =
    let word = get_or b.data_words (index / 64) 0 in
    let after = set b.data_words (index / 64) (or_bit word (index % 64)) in
    if ltb index b.size then some (record b { data_words = after }) else none

unfoldable pub clear_index : ℕ → Bitmap → Option Bitmap
clear_index index b =
    let word = get_or b.data_words (index / 64) 0 in
    let after = set b.data_words (index / 64) (and_not_bit word (index % 64)) in
    if ltb index b.size then some (record b { data_words = after }) else none

unfoldable pub get_index : ℕ → Bitmap → Option Bool
get_index index b =
    if ltb index b.size
    then some (test_bit (get_or b.data_words (index / 64) 0) (index % 64))
    else none

-- `byte(word >> shift)`.
abbrev pub byte_at : ℕ → ℕ → ℕ
byte_at shift word = (word / 2 ^ shift) % 256

abbrev pub bytes_of : ℕ → List ℕ
bytes_of word =
    byte_at 56 word
    ∷ byte_at 48 word
    ∷ byte_at 40 word
    ∷ byte_at 32 word
    ∷ byte_at 24 word
    ∷ byte_at 16 word
    ∷ byte_at 8 word
    ∷ byte_at 0 word
    ∷ []

unfoldable pub serialize_words : List ℕ → List ℕ
serialize_words [] = []
serialize_words (word ∷ words) = bytes_of word ++ serialize_words words

abbrev pub serialize : Bitmap → List ℕ
serialize b = serialize_words b.data_words

-- The bytes have disjoint bits, so that `|` of their shifts is a sum.
abbrev pub word_of : ℕ → ℕ → ℕ → ℕ → ℕ → ℕ → ℕ → ℕ → ℕ
word_of a b c d e f g h =
    a * 2 ^ 56 + b * 2 ^ 48 + c * 2 ^ 40 + d * 2 ^ 32 + e * 2 ^ 24 + f * 2 ^ 16 + g * 2 ^ 8 + h

-- Bytes that are left over, fewer than eight, are dropped.
unfoldable pub parse_words : List ℕ → List ℕ
parse_words (a ∷ b ∷ c ∷ d ∷ e ∷ f ∷ g ∷ h ∷ rest) = word_of a b c d e f g h ∷ parse_words rest
parse_words rest = []

abbrev pub parse_bitmap : List ℕ → ℕ → Bitmap
parse_bitmap p size = record { data_words = parse_words p; size = size }
