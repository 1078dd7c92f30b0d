-- ===== src/LzipHeader/RoundTrip.antt =====
-- `parse_lzip_header` behind `serialize_lzip_header` of src/lzip_header.c.
use native.Mathlib.Nat.{pow-suc, pow-le-pow_right, one-le-pow}
use native.Mathlib.Decide.{dec_le}
use easylzma.Common.{ℕ, suc, ◌*◌, ◌^◌, ◌%◌, ◌≤◌, ◌<◌, ◌≡◌, List, ◌∷◌, arith, Outcome, ok, ◌>>=◌}
use easylzma.Format.{FileHeader}
use easylzma.LzipHeader.{parse_lzip_header, serialize_lzip_header}
use easylzma.LzipHeader.Header.{lzip_header, serialize_lzip_header_lem, parse_lzip_header_accepts}

pub pow_near-injective : (j k : ℕ) → 2 ^ k ≤ 2 ^ j → 2 ^ j < 2 * 2 ^ k → j ≤ k
pow_near-injective j k low high = elim (dec_le j k) [
  | yes p ↦ p
  | no p ↦ absurd (
      omega (
        arith,
        pow-suc 2 k,
        pow-le-pow_right {n = 2} (omega arith) {i = suc k} {j = j} (omega arith),
      ))
]

-- Write the header over the front of a buffer, and read it back from there.
abbrev pub rewritten : List ℕ → FileHeader → FileHeader → Outcome (ℕ × FileHeader)
rewritten buf hdr init =
    serialize_lzip_header buf hdr >>= λ written. parse_lzip_header written.1 init

module _ (hdr init : FileHeader) (a b c d e f : ℕ) (rest : List ℕ) where
  -- For a dictionary size above 0 and below 2^31 and a buffer of at least 6 bytes, writing the
  -- header and parsing the buffer succeeds with a header of the greatest power of two that is at
  -- most the dictionary size.
  pub parse-serialize_lzip_header :
      0 < hdr.dict_size
      → hdr.dict_size < 2 ^ 31
      → (k : ℕ) × (rewritten (a ∷ b ∷ c ∷ d ∷ e ∷ f ∷ rest) hdr init ≡ ok (0, lzip_header (2 ^ k)))
        × (2 ^ k ≤ hdr.dict_size)
        × (hdr.dict_size < 2 * 2 ^ k)
  parse-serialize_lzip_header pos lt =
      let (k, written, low, high, small) = serialize_lzip_header_lem hdr a b c d e f rest pos lt in
      let same : k % 32 ≡ k = omega arith in
      (k, rw (written, parse_lzip_header_accepts 0 k rest init (omega arith), same), low, high)

  -- For a dictionary size that is a power of two below 2^31 and a buffer of at least 6 bytes, the
  -- dictionary size comes back exactly.
  pub parse-serialize_lzip_header_exact :
      (j : ℕ)
      → j < 31
      → hdr.dict_size ≡ 2 ^ j
      → rewritten (a ∷ b ∷ c ∷ d ∷ e ∷ f ∷ rest) hdr init ≡ ok (0, lzip_header hdr.dict_size)
  parse-serialize_lzip_header_exact j small e =
      let pos = one-le-pow j 2 (omega arith) in
      let bounded = pow-le-pow_right {n = 2} (omega arith) {i = j} {j = 30} (omega arith) in
      let (k, back, low, high) = parse-serialize_lzip_header (omega arith) (omega arith) in
      let up =
        pow-le-pow_right {n = 2} (omega arith) {i = j} {j = k}
          (pow_near-injective j k (omega arith) (omega arith)) in
      let same : 2 ^ k ≡ hdr.dict_size = omega arith in rw same at back
