-- ===== src/Tests/Headers.antt =====
-- The theorems on headers and dictionary sizes at concrete inputs.
use easylzma.Common.{
  ℕ, ◌*◌, ◌^◌, ◌≤◌, ◌<◌, ◌≡◌, refl, [], ◌∷◌, ◌++◌, none, some, ok, fault, shift_range, ◌>>=◌, arith,
  replicate,
}
use easylzma.Common.Words.{load_le, store_le}
use easylzma.Common.Words.LittleEndian.{le_bytes}
use easylzma.Format.{FileHeader, FileFooter, zero_header}
use easylzma.LzmaHeader
use easylzma.LzmaHeader.Parse.{parse_lzma_header_lem}
use easylzma.LzmaHeader.Serialize.{serialize_lzma_header_lem}
use easylzma.LzmaHeader.RoundTrip as LzmaRoundTrip
use easylzma.LzmaHeader.RoundTrip.{
  parse-serialize_lzma_header, serialize-parse_lzma_header, lp_lost,
}
use easylzma.LzipHeader
use easylzma.LzipHeader.Header.{lzip_header, parse_lzip_header_lem, serialize_lzip_header_faults}
use easylzma.LzipHeader.Footer.{parse-serialize_lzip_footer}
use easylzma.LzipHeader.RoundTrip as LzipRoundTrip
use easylzma.LzipHeader.RoundTrip.{parse-serialize_lzip_header, parse-serialize_lzip_header_exact}
use easylzma.DictSize.{elzma_get_dict_size}
use easylzma.DictSize.Choice.{distance, elzma_get_dict_size-closest, elzma_get_dict_size_small}
use easylzma.Alloc.Contexts.{elzma_free-init_alloc_struct}
use easylzma.Alloc.{elzma_free, init_alloc_struct}
use easylzma.Tests.Toys.{runtime}

-- The properties 3, 0, 2 over a dictionary of 64 KB, for an input of 1000 bytes.
abbrev sample : FileHeader
sample = record {
  pb = 2;
  lp = 0;
  lc = 3;
  is_streamed = 0;
  uncompressed_size = 1000;
  dict_size = 2 ^ 16;
}

abbrev shifted : FileHeader
shifted = record sample { lp = 2 }

parse_lzma_header_lem_example :
    LzmaHeader.parse_lzma_header
      (93 ∷ 0 ∷ 0 ∷ 1 ∷ 0 ∷ 0xe8 ∷ 3 ∷ 0 ∷ 0 ∷ 0 ∷ 0 ∷ 0 ∷ 0 ∷ 7 ∷ [])
      zero_header
    ≡ ok (0, sample)
parse_lzma_header_lem_example =
    parse_lzma_header_lem 93 (0 ∷ 0 ∷ 1 ∷ 0 ∷ []) (0xe8 ∷ 3 ∷ 0 ∷ 0 ∷ 0 ∷ 0 ∷ 0 ∷ 0 ∷ []) (7 ∷ [])
      zero_header refl refl (omega arith) (omega arith)

serialize_lzma_header_lem_example :
    LzmaHeader.serialize_lzma_header (replicate 13 9 ++ (7 ∷ [])) sample
    ≡ ok (0, 93 ∷ 0 ∷ 0 ∷ 1 ∷ 0 ∷ 0xe8 ∷ 3 ∷ 0 ∷ 0 ∷ 0 ∷ 0 ∷ 0 ∷ 0 ∷ 7 ∷ [])
unfolding le_bytes
serialize_lzma_header_lem_example = serialize_lzma_header_lem sample (replicate 13 9) (7 ∷ []) refl

parse-serialize_lzma_header_example :
    LzmaRoundTrip.rewritten (replicate 13 9 ++ []) sample zero_header ≡ ok (0, sample)
parse-serialize_lzma_header_example =
    parse-serialize_lzma_header sample zero_header (replicate 13 9) [] refl (omega arith)

serialize-parse_lzma_header_example :
    LzmaHeader.serialize_lzma_header
      (93 ∷ 0 ∷ 0 ∷ 1 ∷ 0 ∷ 0xe8 ∷ 3 ∷ 0 ∷ 0 ∷ 0 ∷ 0 ∷ 0 ∷ 0 ∷ 7 ∷ [])
      sample
    ≡ ok (0, 93 ∷ 0 ∷ 0 ∷ 1 ∷ 0 ∷ 0xe8 ∷ 3 ∷ 0 ∷ 0 ∷ 0 ∷ 0 ∷ 0 ∷ 0 ∷ 7 ∷ [])
serialize-parse_lzma_header_example =
    serialize-parse_lzma_header 93 (0 ∷ 0 ∷ 1 ∷ 0 ∷ []) (0xe8 ∷ 3 ∷ 0 ∷ 0 ∷ 0 ∷ 0 ∷ 0 ∷ 0 ∷ [])
      (7 ∷ []) sample zero_header (omega arith) refl refl (omega arith) (omega arith)
      parse_lzma_header_lem_example refl

-- With `lp = 2` the properties byte is 903 % 256, which reads as 0, 0, 3.
shifted_back :
    LzmaRoundTrip.rewritten (replicate 13 9 ++ []) shifted zero_header
    ≡ ok (0, record sample { pb = 3; lp = 0; lc = 0 })
unfolding LzmaHeader.serialize_lzma_header LzmaHeader.parse_lzma_header store_le load_le
    LzmaHeader.lzmadec_header_properties LzmaHeader.lzmadec_header_dictionary
    LzmaHeader.lzmadec_header_uncompressed
shifted_back = refl

lp_lost_example : ¬ ((3 ≡ shifted.pb) × (0 ≡ shifted.lp) × (0 ≡ shifted.lc))
lp_lost_example =
    lp_lost shifted zero_header (replicate 13 9) [] refl (omega arith) (omega arith) (omega arith)
      (omega arith) (omega arith) (omega arith) shifted_back

parse_lzip_header_lem_example :
    LzipHeader.parse_lzip_header (b'L' ∷ b'Z' ∷ b'I' ∷ b'P' ∷ 1 ∷ 16 ∷ []) sample
    ≡ ok (0, lzip_header (2 ^ 16))
parse_lzip_header_lem_example =
    parse_lzip_header_lem b'L' b'Z' b'I' b'P' 1 16 [] sample (omega arith)

serialize_lzip_header_faults_example :
    LzipHeader.serialize_lzip_header
      (0 ∷ 0 ∷ 0 ∷ 0 ∷ 0 ∷ 0 ∷ [])
      (record sample { dict_size = 2 ^ 31 })
    ≡ fault shift_range
serialize_lzip_header_faults_example =
    serialize_lzip_header_faults (record sample { dict_size = 2 ^ 31 }) 0 0 0 0 0 0 [] (omega arith)

abbrev odd_dictionary : FileHeader
odd_dictionary = record sample { dict_size = 100_000 }

parse-serialize_lzip_header_example :
    (k : ℕ) × (LzipRoundTrip.rewritten (9 ∷ 9 ∷ 9 ∷ 9 ∷ 9 ∷ 9 ∷ []) odd_dictionary zero_header
      ≡ ok (0, lzip_header (2 ^ k)))
    × (2 ^ k ≤ 100_000)
    × (100_000 < 2 * 2 ^ k)
parse-serialize_lzip_header_example =
    parse-serialize_lzip_header odd_dictionary zero_header 9 9 9 9 9 9 [] (omega arith)
      (omega arith)

parse-serialize_lzip_header_exact_example :
    LzipRoundTrip.rewritten (9 ∷ 9 ∷ 9 ∷ 9 ∷ 9 ∷ 9 ∷ []) sample zero_header
    ≡ ok (0, lzip_header (2 ^ 16))
parse-serialize_lzip_header_exact_example =
    parse-serialize_lzip_header_exact sample zero_header 9 9 9 9 9 9 [] 16 (omega arith) refl

abbrev footer : FileFooter
footer = record { crc32 = 0xdeadbeef; uncompressed_size = 1000 }

parse-serialize_lzip_footer_example :
    (LzipHeader.serialize_lzip_footer footer (replicate 4 9 ++ (replicate 8 9 ++ (7 ∷ [])))
      >>= λ written.
          LzipHeader.parse_lzip_footer written.1 (record { crc32 = 0; uncompressed_size = 0 }))
    ≡ ok (0, footer)
parse-serialize_lzip_footer_example =
    parse-serialize_lzip_footer footer (record { crc32 = 0; uncompressed_size = 0 }) (replicate 4 9)
      (replicate 8 9) (7 ∷ []) refl refl (omega arith) (omega arith)

elzma_get_dict_size-closest_example :
    (j : ℕ) × (elzma_get_dict_size 100_000 ≡ ok (2 ^ j))
    × (12 ≤ j)
    × (j ≤ 23)
    × ((m : ℕ) → m ≤ 23 → distance (2 ^ j) 100_000 ≤ distance (2 ^ m) 100_000)
elzma_get_dict_size-closest_example =
    elzma_get_dict_size-closest 100_000 (omega arith) (omega arith)

elzma_get_dict_size_small_example : elzma_get_dict_size 4095 ≡ ok 8192
elzma_get_dict_size_small_example = elzma_get_dict_size_small 4095 (omega arith)

-- A larger input, and half the size: below the minimum that the comment in the source names.
five_thousand : elzma_get_dict_size 5000 ≡ ok 4096
unfolding elzma_get_dict_size
five_thousand = refl

elzma_free-init_alloc_struct_example :
    elzma_free runtime
      (init_alloc_struct none 1 (some (λ context address s. (context ∷ []) ∷ s)) 2)
      none
      []
    ≡ elzma_free runtime
        (init_alloc_struct none 1 (some (λ context address s. (context ∷ []) ∷ s)) 3)
        none
        []
elzma_free-init_alloc_struct_example =
    elzma_free-init_alloc_struct runtime none 1 (some (λ context address s. (context ∷ []) ∷ s)) 2 3
      none []
