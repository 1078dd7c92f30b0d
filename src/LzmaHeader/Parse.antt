-- ===== src/LzmaHeader/Parse.antt =====
-- `parse_lzma_header` of src/lzma_header.c on any 13 bytes.
use native.Mathlib.Nat.{mod-eq_of_lt, pow-suc}
use easylzma.Common.{
  ℕ, zero, suc, ◌+◌, ◌*◌, ◌/◌, ◌%◌, ◌^◌, ◌<◌, ◌≡◌, refl, ap, List, [], ◌∷◌, ◌++◌, none, some, arith,
  ltb, ◌==◌, if◌then◌else◌, ok, fault, assertion, length, All, drop,
}
use easylzma.Common.Words.{IsByte}
use easylzma.Common.Words.LittleEndian.{
  le_value, le_value-lt, le_value-bound, load_le-value, pow_byte,
}
use easylzma.Format.{FileHeader}
use easylzma.LzmaHeader.{
  Properties, lzmadec_header_properties, lzmadec_header_dictionary, uncompressed_loop, uint64_max,
  lzmadec_header_uncompressed, parse_lzma_header,
}

-- The flag after the bytes, from its value before them.
abbrev flag_after : ℕ → List ℕ → ℕ
flag_after s [] = s
flag_after s (b ∷ bs) = flag_after (if b == 255 then s else 0) bs

flag_after-zero : (bs : List ℕ) → flag_after 0 bs ≡ 0
flag_after-zero [] = refl
flag_after-zero (b ∷ bs) = ground (arith, flag_after-zero bs)

flag_after-one :
    (bs : List ℕ)
    → All IsByte bs
    → flag_after 1 bs ≡ (if suc (le_value bs) == 256 ^ length bs then 1 else 0)
flag_after-one [] h = refl
flag_after-one (b ∷ bs) (hb, hs) =
    ground
      (arith, flag_after-one bs hs, flag_after-zero bs, le_value-lt bs hs, pow-suc 256 (length bs))

uncompressed_loop_lem :
    (n i acc s : ℕ) (bs rest : List ℕ)
    → length bs ≡ n
    → acc + le_value bs * 2 ^ (i * 8) < 2 ^ 64
    → uncompressed_loop n i acc s (bs ++ rest)
      ≡ ok (acc + le_value bs * 2 ^ (i * 8), flag_after s bs)
unfolding uncompressed_loop
uncompressed_loop_lem zero i acc s [] rest h lt = ap (λ t. ok (t, s)) (omega arith)
uncompressed_loop_lem zero i acc s (b ∷ bs) rest h lt = cc
uncompressed_loop_lem (suc n) i acc s [] rest h lt = cc
uncompressed_loop_lem (suc n) i acc s (b ∷ bs) rest h lt =
    let scaled : le_value bs * 2 ^ ((i + 1) * 8) ≡ 256 * le_value bs * 2 ^ (i * 8) =
      omega (arith, ap (λ (t : ℕ). le_value bs * t) (pow_byte i)) in
    let here : (acc + b * 2 ^ (i * 8) % 2 ^ 64) % 2 ^ 64 ≡ acc + b * 2 ^ (i * 8) =
      grind (arith, mod-eq_of_lt) in
    rw
      (
        here,
        uncompressed_loop_lem n (i + 1) (acc + b * 2 ^ (i * 8)) (if b == 255 then s else 0) bs rest
            (omega arith) (omega arith),
      )
      (ap (λ t. ok (t, flag_after (if b == 255 then s else 0) bs)) (omega arith))

abbrev pub streamed_flag : ℕ → ℕ
streamed_flag size = if size == uint64_max then 1 else 0

pub lzmadec_header_uncompressed_lem :
    (bs rest : List ℕ)
    → length bs ≡ 8
    → All IsByte bs
    → lzmadec_header_uncompressed (bs ++ rest) ≡ ok (le_value bs, streamed_flag (le_value bs))
unfolding lzmadec_header_uncompressed
lzmadec_header_uncompressed_lem bs rest h bytes =
    let lt = le_value-bound 8 bs h bytes in
    rw (uncompressed_loop_lem 8 0 0 1 bs rest h (omega arith))
      (ground (arith, flag_after-one bs bytes))

pub lzmadec_header_dictionary_lem :
    (bs rest : List ℕ)
    → length bs ≡ 4
    → All IsByte bs
    → lzmadec_header_dictionary (bs ++ rest) ≡ ok (ltb (2 ^ 28) (le_value bs), le_value bs)
unfolding lzmadec_header_dictionary
lzmadec_header_dictionary_lem bs rest h bytes = rw (load_le-value 32 4 bs rest refl h bytes)

abbrev properties : ℕ → Properties
properties c = record { pb = c / 45; lp = c % 45 / 9; lc = c % 9 }

-- What a byte decodes to: the properties below 225, a failed assertion at 225, and an error above.
pub lzmadec_header_properties_lem :
    (c : ℕ)
    → lzmadec_header_properties c ≡ (
        if ltb c 225
        then ok (some (properties c))
        else if c == 225
        then fault assertion
        else ok none)
unfolding lzmadec_header_properties
lzmadec_header_properties_lem c = ground arith

drop-append_four : (ds rest : List ℕ) → length ds ≡ 4 → drop 4 (ds ++ rest) ≡ rest
drop-append_four (a ∷ b ∷ c ∷ d ∷ []) rest h = refl
drop-append_four (a ∷ b ∷ c ∷ d ∷ _ ∷ _) rest h = absurd (omega arith)
drop-append_four _ rest h = cc

-- The header that the three parts leave, and what it was before the parts that were not read.
abbrev pub with_properties : ℕ → FileHeader → FileHeader
with_properties c hdr = record hdr { pb = c / 45; lp = c % 45 / 9; lc = c % 9 }

abbrev pub with_dictionary : ℕ → FileHeader → FileHeader
with_dictionary size hdr = record hdr { dict_size = size }

abbrev pub with_size : ℕ → FileHeader → FileHeader
with_size size hdr = record hdr { uncompressed_size = size; is_streamed = streamed_flag size }

-- Parsing a buffer that begins with a properties byte, four bytes and eight bytes. A properties
-- byte above 225 is refused and leaves the header struct; 225 fails an assertion; a dictionary size
-- above 2^28 is refused, with the properties and the size stored; all else is accepted, with the
-- properties decoded, both numbers read as little-endian, and the streamed flag set exactly for
-- 2^64 - 1.
pub parse_lzma_header_lem :
    (c : ℕ) (ds us rest : List ℕ) (hdr : FileHeader)
    → length ds ≡ 4
    → length us ≡ 8
    → All IsByte ds
    → All IsByte us
    → parse_lzma_header (c ∷ (ds ++ (us ++ rest))) hdr ≡ (
        if ltb 225 c
        then ok (1, hdr)
        else if c == 225
        then fault assertion
        else if ltb (2 ^ 28) (le_value ds)
        then ok (1, with_dictionary (le_value ds) (with_properties c hdr))
        else ok
            (0, with_size (le_value us) (with_dictionary (le_value ds) (with_properties c hdr))))
unfolding parse_lzma_header
parse_lzma_header_lem c ds us rest hdr hd hu bd bu = ground (
  arith,
  lzmadec_header_properties_lem c,
  lzmadec_header_dictionary_lem ds (us ++ rest) hd bd,
  drop-append_four ds (us ++ rest) hd,
  lzmadec_header_uncompressed_lem us rest hu bu,
)
