-- ===== src/Tests/RoundTrips.antt =====
-- A file that goes through test/simple.c and back.
use mathlib.Core.List.{append-nil}
use easylzma.Common.{
  ℕ, zero, suc, ◌≡◌, ◌≢◌, refl, sym, ap, ◌∙◌, inl, List, [], ◌∷◌, ◌++◌, some, ok, arith, length,
  All, length-append, empty,
}
use easylzma.Format.{zero_header}
use easylzma.Api.{lzip, lzma, elzma_e_ok}
use easylzma.Sdk
use easylzma.Sdk.Coding.{StreamDecoder}
use easylzma.Compress.{null_handler}
use easylzma.Simple.{Answer, simple_compress, simple_decompress}
use easylzma.Simple.Client.{IsRoomy, simple-HasInput}
use easylzma.Simple.RoundTrip.{IsCoded, simple_round_trip}
use easylzma.Simple.LzmaRoundTrip.{IsLzmaCoded, simple_lzma_round_trip}
use easylzma.Tests.Toys.{crc, crc-IsRunningCrc, decode}
use easylzma.Tests.Memory.{realloc, heap, encoder, decoder, heap-LeavesBuffers}

-- The body of a text is the text, which has no zeros, and a zero.
abbrev pub Coded : List ℕ → List ℕ → Type 0
Coded body text = (body ≡ text ++ (0 ∷ [])) × All (λ b. b ≢ 0) text

pub decode-nonzero :
    (part : List ℕ)
    → All (λ b. b ≢ 0) part
    → ((decode part).output ≡ part)
      × ((decode part).consumed ≡ length part)
      × ((decode part).status ≡ 0)
      × ((decode part).stat ≢ Sdk.LzmaStatus.finished_with_mark)
decode-nonzero [] all = (refl, refl, refl, λ e. cc)
decode-nonzero (zero ∷ part) (some_zero, all) = absurd (some_zero refl)
decode-nonzero (suc b ∷ part) (nonzero, all) =
    let (out, took, good, unmarked) = decode-nonzero part all in
    (ap (λ t. suc b ∷ t) out, ap suc took, good, unmarked)

pub decode-whole :
    (text tail : List ℕ)
    → All (λ b. b ≢ 0) text
    → let r = decode ((text ++ (0 ∷ [])) ++ tail) in
      (r.output ≡ text)
      × (r.consumed ≡ length (text ++ (0 ∷ [])))
      × (r.status ≡ 0)
      × (r.stat ≡ Sdk.LzmaStatus.finished_with_mark)
decode-whole [] tail all = (refl, refl, refl, refl)
decode-whole (zero ∷ text) tail (some_zero, all) = absurd (some_zero refl)
decode-whole (suc b ∷ text) tail (nonzero, all) =
    let (out, took, good, marked) = decode-whole text tail all in
    (ap (λ t. suc b ∷ t) out, ap suc took, good, marked)

-- A proper part of a body is a part of the text.
pub part_of_text :
    (part more text : List ℕ)
    → more ≢ []
    → part ++ more ≡ text ++ (0 ∷ [])
    → All (λ b. b ≢ 0) text
    → (text' : List ℕ) × (text ≡ part ++ text')
      × (more ≡ text' ++ (0 ∷ []))
      × All (λ b. b ≢ 0) part
      × All (λ b. b ≢ 0) text'
part_of_text [] more text some_more e all = (text, refl, e, tt, all)
part_of_text (b ∷ part) more [] some_more e all =
    absurd (some_more (empty more (omega (arith, ap length e, length-append part more))))
part_of_text (b ∷ part) more (c ∷ text) some_more e (nonzero, all) =
    let head : b ≡ c = cc in
    let rest : part ++ more ≡ text ++ (0 ∷ []) = cc in
    let (text', split, left_over, first, last) = part_of_text part more text some_more rest all in
    (
      text',
      ap (λ t. c ∷ t) split ∙ ap (λ x. x ∷ (part ++ text')) (sym head),
      left_over,
      (λ e. nonzero (sym head ∙ e), first),
      last,
    )

abbrev pub decoder-StreamDecoder : StreamDecoder decoder
decoder-StreamDecoder = record {
  Stands = λ dec body text. Coded body text;
  open_end = λ dec text (e, all). absurd (omega (arith, ap length e, length-append text (0 ∷ [])));
  on_part = λ dec cap part more text room some_more (e, all).
      let (text', split, left_over, first, last) = part_of_text part more text some_more e all in
      let (out, took, good, unmarked) = decode-nonzero part first in
      (
        good,
        unmarked,
        (
          part,
          [],
          text',
          sym (append-nil part),
          sym took,
          split ∙ ap (λ t. t ++ text') (sym out),
          (left_over, last),
          inl refl,
        ),
      );
  on_whole = λ dec cap body tail text room (e, all).
      let (out, took, good, marked) = decode-whole text tail all in
      rw e (good, inl (marked, out, took));
}

pub roomy : IsRoomy realloc heap encoder decoder
roomy = record {
  leaves = heap-LeavesBuffers;
  given = λ size ds. (8192, refl);
  prepares = λ dec props ds. (refl, refl);
  releases = λ dec ds. (refl, refl);
}

coded :
    IsCoded realloc heap encoder decoder decoder-StreamDecoder crc crc-IsRunningCrc roomy
      (5 ∷ 6 ∷ [])
      (5 ∷ 6 ∷ 0 ∷ [])
unfolding simple-HasInput
coded = (
  λ s. (tt, refl, refl, refl, ([], refl, (refl, refl, refl))),
  λ s. (refl, (λ e. absurd (omega (arith, e)), ((λ e. absurd (omega (arith, e))), tt))),
)

simple_round_trip_example :
    (buffer : List ℕ) × (packed : Answer ℕ) × (unpacked : Answer ℕ) × (simple_compress realloc heap
        crc encoder zero_header lzip
        (5 ∷ 6 ∷ [])
        0
      ≡ ok packed)
    × (packed.rc ≡ elzma_e_ok)
    × (packed.out ≡ some buffer)
    × (simple_decompress realloc heap crc decoder 10 null_handler zero_header 4096 lzip buffer 0
        ≡ ok unpacked)
    × (unpacked.rc ≡ elzma_e_ok)
    × (unpacked.out ≡ some (5 ∷ 6 ∷ []))
simple_round_trip_example =
    simple_round_trip realloc heap encoder decoder decoder-StreamDecoder crc crc-IsRunningCrc roomy
      10 null_handler zero_header zero_header 4096 (5 ∷ 6 ∷ []) (5 ∷ 6 ∷ 0 ∷ []) 0 0 coded
      (omega arith) (omega arith) (omega arith) (omega arith) (omega arith) (omega arith)

lzma_coded :
    IsLzmaCoded realloc heap encoder decoder decoder-StreamDecoder crc roomy
      (5 ∷ 6 ∷ [])
      (5 ∷ 6 ∷ 0 ∷ [])
unfolding simple-HasInput
lzma_coded = (coded.0, λ s. coded.1 s)

simple_lzma_round_trip_example :
    (buffer : List ℕ) × (packed : Answer ℕ) × (unpacked : Answer ℕ) × (simple_compress realloc heap
        crc encoder zero_header lzma
        (5 ∷ 6 ∷ [])
        0
      ≡ ok packed)
    × (packed.rc ≡ elzma_e_ok)
    × (packed.out ≡ some buffer)
    × (simple_decompress realloc heap crc decoder 10 null_handler zero_header 4096 lzma buffer 0
        ≡ ok unpacked)
    × (unpacked.rc ≡ elzma_e_ok)
    × (unpacked.out ≡ some (5 ∷ 6 ∷ []))
simple_lzma_round_trip_example =
    simple_lzma_round_trip realloc heap encoder decoder decoder-StreamDecoder crc roomy 10
      null_handler zero_header zero_header 4096 (5 ∷ 6 ∷ []) (5 ∷ 6 ∷ 0 ∷ []) 0 0 lzma_coded
      (omega arith) (omega arith) (omega arith)
