-- ===== src/Bitmap/Words.antt =====
-- Words and their bytes in internal/third/file/bitmap.go.
use openim_sdk_core.Prelude.{ℕ, ◌^◌, ◌<◌, ◌≡◌, refl, ap, List, [], ◌∷◌, All, arith}
use openim_sdk_core.Bitmap.{
  Bitmap, byte_at, serialize_words, serialize, word_of, parse_words, parse_bitmap,
}

word_of-bytes :
    (w : ℕ)
    → w < 2 ^ 64
    → word_of
        (byte_at 56 w)
        (byte_at 48 w)
        (byte_at 40 w)
        (byte_at 32 w)
        (byte_at 24 w)
        (byte_at 16 w)
        (byte_at 8 w)
        (byte_at 0 w)
      ≡ w
word_of-bytes w small = omega arith

parse_words-serialize :
    (ws : List ℕ) → All (λ w. w < 2 ^ 64) ws → parse_words (serialize_words ws) ≡ ws
unfolding parse_words serialize_words
parse_words-serialize [] small = refl
parse_words-serialize (w ∷ ws) small =
    rw (word_of-bytes w small.0) (ap (λ rest. w ∷ rest) (parse_words-serialize ws small.1))

-- A bitmap of 64-bit words comes back from its bytes and its size.
pub parse_bitmap-serialize :
    (b : Bitmap) → All (λ w. w < 2 ^ 64) b.data_words → parse_bitmap (serialize b) b.size ≡ b
parse_bitmap-serialize b small = rw (parse_words-serialize b.data_words small) refl
