-- ===== src/Tests/Endings.antt =====
-- A run of src/decompress.c that has rounds enough.
use easylzma.Common.{
  ℕ, zero, suc, ◌+◌, ◌≤◌, ◌<◌, ◌≡◌, ◌≢◌, refl, List, [], ◌∷◌, arith, fault, out_of_fuel, length,
  take, drop,
}
use easylzma.Format.{zero_header}
use easylzma.Api.{lzip}
use easylzma.Alloc.{elzma_alloc, elzma_free, init_alloc_struct}
use easylzma.Compress.{null_handler}
use easylzma.Sdk.{Advances, finished_with_mark}
use easylzma.Decompress.{DecompressHandle, elzma_decompress_alloc}
use easylzma.Decompress.Run.{elzma_decompress_run}
use easylzma.Decompress.Termination.{IsFinite}
use easylzma.Decompress.Returns.{IsQuiet, elzma_decompress_run-ends}
use easylzma.Tests.Toys.{Input, reader, writer, runtime, crc, decode, decoder}

pub decode-drains :
    (src : List ℕ)
    → length (drop (decode src).consumed src) + length (decode src).output ≤ length src
decode-drains [] = omega arith
decode-drains (zero ∷ src) = omega arith
decode-drains (suc b ∷ src) = omega (arith, decode-drains src)

pub decode-fills :
    (src : List ℕ) → (decode src).stat ≢ finished_with_mark → (decode src).consumed ≡ length src
decode-fills [] open_end = refl
decode-fills (zero ∷ src) open_end = absurd (open_end refl)
decode-fills (suc b ∷ src) open_end = omega (arith, decode-fills src open_end)

decoder-Advances : Advances decoder
decoder-Advances = record {
  pending = λ dec src. length src;
  drains = λ dec cap src good. decode-drains src;
  fills =
      λ dec cap src good open_end less. let all = decode-fills src open_end in absurd (omega arith);
}

length-take_small : (n : ℕ) (xs : List ℕ) → length (take n xs) ≤ n
length-take_small zero xs = omega arith
length-take_small (suc n) [] = omega arith
length-take_small (suc n) (x ∷ xs) = omega (arith, length-take_small n xs)

reader-lowers :
    (size : ℕ) (s : Input)
    → 0 < length (reader size s).bytes
    → length (reader size s).state < length s
reader-lowers size [] some_bytes = absurd (omega arith)
reader-lowers size (piece ∷ pieces) some_bytes = omega arith

reader-fits : (size : ℕ) (s : Input) → length (reader size s).bytes ≤ size
reader-fits size [] = omega arith
reader-fits size (piece ∷ pieces) = length-take_small size piece

client-IsFinite : IsFinite reader writer
client-IsFinite = record {
  remaining = λ s. length s;
  lowers = λ size s good. reader-lowers size s;
  fits = λ size s good. reader-fits size s;
  keeps = λ bytes s. omega arith;
}

handle : DecompressHandle Input
unfolding elzma_decompress_alloc init_alloc_struct
handle = elzma_decompress_alloc

quiet : IsQuiet runtime crc decoder decoder-Advances handle reader writer client-IsFinite
unfolding handle elzma_alloc elzma_free client-IsFinite
quiet = record {
  alloc = λ size s. omega arith;
  free = λ address s. omega arith;
  allocate = λ dec props s. omega arith;
}

elzma_decompress_run-ends_example :
    elzma_decompress_run runtime crc decoder handle reader writer 70_000 null_handler zero_header
      lzip
      ((b'L' ∷ b'Z' ∷ b'I' ∷ b'P' ∷ 0 ∷ 16 ∷ []) ∷ (5 ∷ []) ∷ (6 ∷ 0 ∷ []) ∷ [])
    ≢ fault out_of_fuel
unfolding decoder-Advances client-IsFinite
elzma_decompress_run-ends_example =
    elzma_decompress_run-ends runtime crc decoder decoder-Advances handle reader writer
      client-IsFinite quiet 70_000 (λ dec src fits. omega arith) null_handler zero_header lzip
      ((b'L' ∷ b'Z' ∷ b'I' ∷ b'P' ∷ 0 ∷ 16 ∷ []) ∷ (5 ∷ []) ∷ (6 ∷ 0 ∷ []) ∷ []) (omega arith)
