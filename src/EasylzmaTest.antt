-- ===== src/EasylzmaTest.antt =====
-- test/easylzma_test.c: the compiled-in tests of the library.
pub mod Samples
pub mod Verdict
use easylzma.Common.{
  ℕ, ◌+◌, Bool, true, false, not, ◌||◌, List, [], ◌∷◌, ◌++◌, Option, none, some, ltb, ◌==◌,
  if◌then◌else◌, Outcome, ok, ◌>>=◌, length,
}
use easylzma.Common.Strings.{Str, codes, same}
use easylzma.Format.{FileHeader, FormatHandler}
use easylzma.Api.{
  FileFormat, lzip, lzma, elzma_e_ok, elzma_e_decompress_error, elzma_e_corrupt_header,
  elzma_e_crc32_mismatch, elzma_e_size_mismatch, elzma_e_insufficient_input,
}
use easylzma.Alloc.{Runtime}
use easylzma.Sdk.{Crc, Encoder, Decoder}
use easylzma.Elzma.Files.{Arg, string, number}
use easylzma.EasylzmaTest.Samples.{
  sample_data, correct_lzip, correct_lzma, corrupt_crc, corrupt_size, corrupt_size_lzma,
  corrupt_size_lzma2,
}
use easylzma.Simple.{DataStream, Answer, simple_compress, simple_decompress}

-- An entry of `tests`; `dataSize` is the length of `bytes`.
pub record Test : Type 0 where
  pub test_name : Str
  pub expected_code : ℕ
  pub format : FileFormat
  pub bytes : List ℕ

abbrev pub test : Str → ℕ → FileFormat → List ℕ → Test
test test_name expected_code format bytes = record {
  test_name = test_name;
  expected_code = expected_code;
  format = format;
  bytes = bytes;
}

abbrev pub tests : List Test
tests =
    test (codes "correct lzip") elzma_e_ok lzip correct_lzip
    ∷ test (codes "lzip as lzma") elzma_e_decompress_error lzma correct_lzip
    ∷ test (codes "correct lzma") elzma_e_ok lzma correct_lzma
    ∷ test (codes "lzma as lzip") elzma_e_corrupt_header lzip correct_lzma
    ∷ test (codes "corrupt crc") elzma_e_crc32_mismatch lzip corrupt_crc
    ∷ test (codes "bad lzip size") elzma_e_size_mismatch lzip corrupt_size
    ∷ test (codes "bad lzma size") elzma_e_insufficient_input lzma corrupt_size_lzma
    ∷ test (codes "bad lzma size 2") elzma_e_size_mismatch lzma corrupt_size_lzma2
    ∷ []

-- The variables of `main`, and the state outside.
pub record Tally (S : Type 0) : Type 0 where
  pub tests_passed : ℕ
  pub tests_run : ℕ
  pub world : S

module _ {S : Type 0} (printf : Str → List Arg → S → S) (fflush : S → S)
    (realloc : Option ℕ → ℕ → S → ℕ × S) (rt : Runtime (DataStream S)) (crc : Crc)
    (E : Encoder (DataStream S)) (D : Decoder (DataStream S)) (rounds : ℕ) (junk : FormatHandler)
    (h : FileHeader) (address : ℕ) where
  -- `free(*outData)`: the block of the buffer that the caller got.
  abbrev pub release : DataStream S → S
  release ds = (rt.free ds.out_block ds).world

  -- A buffer that the callee has not set has no bytes here.
  abbrev pub bytes_of : Answer S → List ℕ
  bytes_of a = elim a.out [ none ↦ [] | some buffer ↦ buffer ]

  abbrev pub compressed_sample : FileFormat → S → Outcome (Answer S)
  compressed_sample format s = simple_compress realloc rt crc E h format sample_data s

  abbrev pub decompressed : FileFormat → List ℕ → S → Outcome (Answer S)
  decompressed format bytes s =
      simple_decompress realloc rt crc D rounds junk h address format bytes s

  unfoldable pub round_trip_test : FileFormat → S → Outcome (ℕ × S)
  round_trip_test format s = do
    a ← compressed_sample format s
    let compressed = bytes_of a
    if not (a.rc == elzma_e_ok)
        then ok (a.rc, a.streams.world)
        else if ltb (length sample_data) (length compressed)
        then ok (1, release a.streams)
        else (decompressed format compressed a.streams.world >>= λ b.
            let s' =
              (rt.free a.streams.out_block (record a.streams { world = b.streams.world })).world in
            if not (b.rc == elzma_e_ok)
            then ok (b.rc, s')
            else if not (length (bytes_of b) == length sample_data)
                || not (same (bytes_of b) sample_data)
            then ok (1, (rt.free b.streams.out_block (record b.streams { world = s' })).world)
            else ok (elzma_e_ok, s'))

  -- The end of a test: the counts, and the line's last words.
  abbrev pub count : Bool → Str → List Arg → Tally S → S → Tally S
  count passed complaint args t s =
      if passed
      then record {
        tests_passed = t.tests_passed + 1;
        tests_run = t.tests_run + 1;
        world = printf (codes "ok\n") [] s;
      }
      else record {
        tests_passed = t.tests_passed;
        tests_run = t.tests_run + 1;
        world = printf complaint args s;
      }

  unfoldable pub round_trip : Str → Str → FileFormat → Tally S → Outcome (Tally S)
  round_trip title complaint format t = do
    (rc, s) ← round_trip_test format (fflush (printf title [] t.world))
    ok (count (elzma_e_ok == rc) complaint (number rc ∷ []) t s)

  -- A turn of the loop over `tests`.
  unfoldable pub run_test : Test → Tally S → Outcome (Tally S)
  run_test x t = do
    a ←
        decompressed x.format x.bytes
          (printf (codes "%s test:    ") (string x.test_name ∷ []) t.world)
    let passed = a.rc == x.expected_code
    let t' =
        count passed (codes "fail - got %d - expected %d\n")
          (number a.rc ∷ number x.expected_code ∷ []) t a.streams.world
    ok (
        if passed
        then record t' {
          world =
              (rt.free (elim a.out [ none ↦ none | some buffer ↦ a.streams.out_block ])
                (record a.streams { world = t'.world })).world;
        }
        else t')

  unfoldable pub run_tests : List Test → Tally S → Outcome (Tally S)
  run_tests [] t = ok t
  run_tests (x ∷ xs) t = run_test x t >>= λ t'. run_tests xs t'

  -- The exit status, and the state outside.
  unfoldable pub main : S → Outcome (ℕ × S)
  main s = do
    t1 ←
        round_trip (codes "round trip lzma test:    ") (codes "fail! (%d)\n") lzma
          (record { tests_passed = 0; tests_run = 0; world = s })
    t2 ← round_trip (codes "round trip lzip test:    ") (codes "fail (%d)!\n") lzip t1
    t3 ← run_tests tests t2
    ok (
      if t3.tests_passed == t3.tests_run then 0 else 1,
      printf (codes "\n%d/%d tests passed\n") (number t3.tests_passed ∷ number t3.tests_run ∷ [])
          t3.world,
    )
