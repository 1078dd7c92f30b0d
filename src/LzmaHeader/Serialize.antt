-- ===== src/LzmaHeader/Serialize.antt =====
-- `serialize_lzma_header` of src/lzma_header.c: what it writes, and where.
use easylzma.Common.{
  ℕ, zero, suc, ◌+◌, ◌*◌, ◌/◌, ◌%◌, ◌^◌, ◌≤◌, ◌<◌, ◌≡◌, refl, ◌∙◌, List, [], ◌∷◌, ◌++◌, arith, ◌==◌,
  if◌then◌else◌, ok, length, replicate,
}
use easylzma.Common.Words.{store_le}
use easylzma.Common.Words.LittleEndian.{le_bytes, store_le-bytes}
use easylzma.Format.{FileHeader}
use easylzma.LzmaHeader.{
  uint64_max, store_size, memset_zero, properties_byte, serialize_fields, serialize_lzma_header,
}

-- The number in the size field: all ones for a streamed file.
abbrev pub stored_size : FileHeader → ℕ
stored_size hdr = if hdr.is_streamed == 0 then hdr.uncompressed_size else uint64_max

-- The 13 bytes of a header.
abbrev pub lzma_front : FileHeader → List ℕ
lzma_front hdr = properties_byte hdr ∷ (le_bytes 4 hdr.dict_size ++ le_bytes 8 (stored_size hdr))

memset_zero_lem :
    (n : ℕ) (old rest : List ℕ)
    → length old ≡ n
    → memset_zero n (old ++ rest) ≡ ok (replicate n 0 ++ rest)
unfolding memset_zero
memset_zero_lem zero [] rest h = refl
memset_zero_lem zero (x ∷ old) rest h = cc
memset_zero_lem (suc n) [] rest h = cc
memset_zero_lem (suc n) (x ∷ old) rest h = rw (memset_zero_lem n old rest (omega arith))

all_ones : (i : ℕ) → i < 8 → uint64_max / 2 ^ (i * 8) % 256 ≡ 255
all_ones zero h = refl
all_ones (suc zero) h = refl
all_ones (suc (suc zero)) h = refl
all_ones (suc (suc (suc zero))) h = refl
all_ones (suc (suc (suc (suc zero)))) h = refl
all_ones (suc (suc (suc (suc (suc zero))))) h = refl
all_ones (suc (suc (suc (suc (suc (suc zero)))))) h = refl
all_ones (suc (suc (suc (suc (suc (suc (suc zero))))))) h = refl
all_ones (suc (suc (suc (suc (suc (suc (suc (suc i)))))))) h = absurd (omega arith)

-- The loop with its test in each round writes the bytes of one number.
store_size-store_le :
    (n i : ℕ) (hdr : FileHeader) (buf : List ℕ)
    → i + n ≤ 8
    → store_size n i hdr buf ≡ store_le n i (stored_size hdr) ok buf
unfolding store_size store_le
store_size-store_le zero i hdr buf h = refl
store_size-store_le (suc n) i hdr [] h = refl
store_size-store_le (suc n) i hdr (x ∷ buf) h =
    ground (arith, store_size-store_le n (i + 1) hdr buf, all_ones i)

store_size_lem :
    (hdr : FileHeader) (old rest : List ℕ)
    → length old ≡ 8
    → store_size 8 0 hdr (old ++ rest) ≡ ok (le_bytes 8 (stored_size hdr) ++ rest)
store_size_lem hdr old rest h =
    store_size-store_le 8 0 hdr (old ++ rest) (omega arith)
    ∙ store_le-bytes 8 (stored_size hdr) ok old rest h refl

-- Writing a header to a buffer of at least 13 bytes replaces these by the properties byte, the
-- little-endian dictionary size and the little-endian size or eight times 255, and keeps the bytes
-- behind them.
pub serialize_lzma_header_lem :
    (hdr : FileHeader) (old rest : List ℕ)
    → length old ≡ 13
    → serialize_lzma_header (old ++ rest) hdr
      ≡ ok (
        0,
        properties_byte hdr ∷ (le_bytes 4 hdr.dict_size ++ (le_bytes 8 (stored_size hdr) ++ rest)),
      )
unfolding serialize_lzma_header serialize_fields
serialize_lzma_header_lem hdr old rest h =
    rw (memset_zero_lem 13 old rest h, serialize_fields, fields)
  where
    fields :
        store_le 4 0 hdr.dict_size (store_size 8 0 hdr) (replicate 12 0 ++ rest)
        ≡ ok (le_bytes 4 hdr.dict_size ++ (le_bytes 8 (stored_size hdr) ++ rest))
    fields =
        store_le-bytes 4 hdr.dict_size (store_size 8 0 hdr) (replicate 4 0) (replicate 8 0 ++ rest)
          refl (store_size_lem hdr (replicate 8 0) rest refl)
