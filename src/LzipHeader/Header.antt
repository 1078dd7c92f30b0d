-- ===== src/LzipHeader/Header.antt =====
-- The header functions of src/lzip_header.c.
use native.Mathlib.Nat.{pow-suc}
use easylzma.Common.{
  ◌&&◌, ℕ, zero, suc, ◌+◌, ◌*◌, ◌%◌, ◌^◌, ◌≤◌, ◌<◌, ◌≡◌, refl, ◌∙◌, List, ◌∷◌, ◌++◌, arith, ◌==◌,
  if◌then◌else◌, ok, fault, shift_range, ◌⊎◌, inl,
}
use easylzma.Common.Bits.{low_five}
use easylzma.Common.Words.{IsByte, shift_loop}
use easylzma.Common.Words.Shift.{shift_loop_ends, shift_loop_faults}
use easylzma.Format.{FileHeader}
use easylzma.LzipHeader.{magic, parse_lzip_header, width_code, serialize_lzip_header}

-- For a nonzero size below 2 ^ 31 the loop ends at its number of bits.
bits_lem :
    (d : ℕ)
    → 0 < d
    → d < 2 ^ 31
    → (k : ℕ) × (shift_loop 32 d 0 ≡ ok (suc k)) × (2 ^ k ≤ d) × (d < 2 * 2 ^ k) × (k < 31)
bits_lem d pos lt =
    from_bits
      (shift_loop_ends 0 32 32 0 d refl (omega arith) (omega arith) (inl refl) (omega arith))
  where
    from_bits :
        (s : ℕ) × (shift_loop 32 d 0 ≡ ok s)
          × ((s ≡ 0) ⊎ (2 ^ s ≤ 2 * d))
          × (d < 2 ^ s)
          × (0 ≤ s)
          × (s < 32)
        → (k : ℕ) × (shift_loop 32 d 0 ≡ ok (suc k)) × (2 ^ k ≤ d) × (d < 2 * 2 ^ k) × (k < 31)
    from_bits (zero, e, low, high, start, small) = absurd (omega arith)
    from_bits (suc k, e, low, high, start, small) =
        (k, e, omega (arith, pow-suc 2 k), omega (arith, pow-suc 2 k), omega arith)

width_code_lem : (k : ℕ) → k < 31 → width_code (suc k) ≡ k
width_code_lem k h = low_five ((suc k + 255) % 256) (omega arith) ∙ omega arith

abbrev pub lzip_header : ℕ → FileHeader
lzip_header dict = record {
  pb = 2;
  lp = 0;
  lc = 3;
  is_streamed = 1;
  uncompressed_size = 0;
  dict_size = dict;
}

module _ (hdr : FileHeader) (a b c d e f : ℕ) (rest : List ℕ) where
  abbrev front : List ℕ
  front = a ∷ b ∷ c ∷ d ∷ e ∷ f ∷ rest

  -- The six bytes of a header, with the position of the highest bit of the dictionary size.
  pub serialize_lzip_header_lem :
      0 < hdr.dict_size
      → hdr.dict_size < 2 ^ 31
      → (k : ℕ) × (serialize_lzip_header front hdr ≡ ok (0, magic ++ (0 ∷ k ∷ rest)))
        × (2 ^ k ≤ hdr.dict_size)
        × (hdr.dict_size < 2 * 2 ^ k)
        × (k < 31)
  unfolding serialize_lzip_header
  serialize_lzip_header_lem pos lt =
      let (k, ends, low, high, small) = bits_lem hdr.dict_size pos lt in
      (k, rw (ends, width_code_lem k small), low, high, small)

  -- For a dictionary size of 2^31 or more and a buffer of at least six bytes, the loop that looks
  -- for the dictionary size's highest bit shifts out of the range of its type.
  pub serialize_lzip_header_faults :
      2 ^ 31 ≤ hdr.dict_size → serialize_lzip_header front hdr ≡ fault shift_range
  unfolding serialize_lzip_header
  serialize_lzip_header_faults big = rw (shift_loop_faults 31 32 0 hdr.dict_size refl big)

pub parse_lzip_header_accepts :
    (v k : ℕ) (rest : List ℕ) (init : FileHeader)
    → IsByte k
    → parse_lzip_header (magic ++ (v ∷ k ∷ rest)) init ≡ ok (0, lzip_header (2 ^ (k % 32)))
unfolding parse_lzip_header
parse_lzip_header_accepts v k rest init h = rw (low_five k h)

-- On a buffer of at least six bytes, the sixth below 256, the header is accepted exactly when the
-- first four are the magic: it then has the fixed properties, no size, and the power of two that
-- the low five bits of the sixth byte say. Otherwise the result is 1, and the header struct stays
-- as it was.
pub parse_lzip_header_lem :
    (a b c d v k : ℕ) (rest : List ℕ) (init : FileHeader)
    → IsByte k
    → parse_lzip_header (a ∷ b ∷ c ∷ d ∷ v ∷ k ∷ rest) init ≡ (
        if b'L' == a && (b'Z' == b && (b'I' == c && b'P' == d))
        then ok (0, lzip_header (2 ^ (k % 32)))
        else ok (1, init))
unfolding parse_lzip_header
parse_lzip_header_lem a b c d v k rest init h = ground (arith, low_five k h)
