-- ===== src/Compress/WholeLzip.antt =====
-- `elzma_compress_run` of src/compress.c for lzip, when the client and the encoder do not fail.
use Prim.Native.Nat.{bit_xor}
use mathlib.Core.List.{append-nil}
use easylzma.Common.{
  ℕ, ◌*◌, ◌^◌, ◌≤◌, ◌<◌, ◌≡◌, refl, ap, ◌∙◌, List, [], ◌∷◌, ◌++◌, Option, some, arith, ok, length,
  replicate, length-append,
}
use easylzma.Common.Words.LittleEndian.{le_bytes, length-le_bytes}
use easylzma.Format.{FileHeader, FileFooter, FormatHandler}
use easylzma.LzipHeader.{magic, serialize_lzip_footer, initialize_lzip_format_handler}
use easylzma.LzipHeader.Header.{serialize_lzip_header_lem}
use easylzma.LzipHeader.Footer.{serialize_lzip_footer_lem}
use easylzma.Api.{lzip, ReadCallback, WriteCallback, ProgressCallback, elzma_e_ok}
use easylzma.Api.Clients.{HasInput}
use easylzma.Alloc.{Runtime}
use easylzma.Alloc.Heap.{HasHeap}
use easylzma.Sdk.{Crc, IsRunningCrc, Encoder, crc_init_val}
use easylzma.Compress.{CompressHandle, switch_handler, elzma_compress_config}
use easylzma.Compress.Streams.{Flow}
use easylzma.Compress.Success.{put_block_lem}
use easylzma.Compress.LzipParts.{as_lzip, footer_bytes}
use easylzma.Compress.Forward.{put_block-succeeds}
use easylzma.Compress.Whole.{PutsFooter, Codes, encode_file-succeeds, run_returns}
use easylzma.Compress.Run.{header_of, put_footer, elzma_compress_run}

module _ {S : Type 0} (crc : Crc) (law : IsRunningCrc crc) (rt : Runtime S) (E : Encoder S)
    (input_stream : ReadCallback S) (output_stream : WriteCallback S)
    (callback : Option (ProgressCallback S)) (client : HasInput input_stream output_stream)
    (reports : (report : ProgressCallback S) (in_size total : ℕ) (s : S)
      → callback ≡ some report
      → client.unread (report in_size total s) ≡ client.unread s) where
  lzip-PutsFooter :
      (junk : FormatHandler) (hand : CompressHandle S E.Enc)
      → HasHeap rt hand.alloc_struct client.unread
      → PutsFooter crc rt E input_stream output_stream callback client
          (as_lzip junk hand)
          (λ sum. footer_bytes crc law rt E output_stream junk hand sum hand.uncompressed_size)
  unfolding put_footer initialize_lzip_format_handler
  lzip-PutsFooter junk hand heap f =
      let hand' = as_lzip junk hand in
      let ftr : FileFooter = record {
        crc32 = bit_xor f.crc32 0xFFFFFFFF;
        uncompressed_size = hand.uncompressed_size;
      } in
      let bytes =
        footer_bytes crc law rt E output_stream junk hand f.crc32 hand.uncompressed_size in
      let filled : serialize_lzip_footer ftr (replicate 12 0) ≡ ok (0, bytes) =
        serialize_lzip_footer_lem ftr (replicate 4 0) (replicate 8 0) [] refl refl
        ∙ ap (λ t. ok (0, le_bytes 4 ftr.crc32 ++ t))
            (append-nil (le_bytes 8 ftr.uncompressed_size)) in
      let twelve : length bytes ≡ 12 = omega (
        arith,
        length-append (le_bytes 4 ftr.crc32) (le_bytes 8 ftr.uncompressed_size),
        length-le_bytes 4 ftr.crc32,
        length-le_bytes 8 ftr.uncompressed_size,
      ) in
      let (f', wrote, unread) =
        put_block-succeeds crc rt E input_stream output_stream client hand' heap 12
          (serialize_lzip_footer ftr) f filled twelve in
      let (sent, kept, same) =
        put_block_lem crc rt E output_stream hand' 12 (serialize_lzip_footer ftr) f filled wrote in
      (f', rw wrote refl, sent, same)

  pub lzip_run_succeeds :
      (start : CompressHandle S E.Enc) (lc lp pb level dictionary_size size : ℕ) (h : FileHeader)
      (input body : List ℕ) (s : S)
      → HasHeap rt start.alloc_struct client.unread
      → 0 < dictionary_size
      → dictionary_size < 2 ^ 31
      → let hand = (elzma_compress_config start lc lp pb level dictionary_size lzip size).1 in
        Codes crc rt E input_stream output_stream callback client start.alloc_struct hand.props
          input body
        → client.unread s ≡ input
        → (end : Option (CompressHandle S E.Enc)) × (f : Flow S) × (k : ℕ) × (elzma_compress_run crc
              rt E output_stream callback h
              (some hand)
              (some input_stream)
              s
            ≡ ok (elzma_e_ok, end, f))
          × (2 ^ k ≤ dictionary_size)
          × (dictionary_size < 2 * 2 ^ k)
          × (f.sent
              ≡ (magic ++ (0 ∷ k ∷ []))
                ++ (body
                    ++ (le_bytes 4 (bit_xor (crc.update crc_init_val input) 0xFFFFFFFF)
                        ++ le_bytes 8 size)))
          × (f.taken ≡ input)
  unfolding elzma_compress_config switch_handler initialize_lzip_format_handler
  lzip_run_succeeds start lc lp pb level dictionary_size size h input body s heap pos lt codes
        left =
      let (enc, made, kept, set, coded) = codes s in
      let hand : CompressHandle S E.Enc =
        (elzma_compress_config start lc lp pb level dictionary_size lzip size).1 in
      let enc' = (E.set_props enc hand.props).1 in
      let old : CompressHandle S E.Enc = record hand { enc_hand = some enc' } in
      let hand' = as_lzip start.format_handler old in
      let (k, filled, low, high, small) =
        serialize_lzip_header_lem (header_of crc rt E output_stream hand' h) 0 0 0 0 0 0 [] pos
          lt in
      let (f, ends, sum, sent, taken, summed) =
        encode_file-succeeds crc rt E input_stream output_stream callback client hand' heap reports
          (magic ++ (0 ∷ k ∷ []))
          (λ sum. footer_bytes crc law rt E output_stream start.format_handler old sum size) h refl
          filled refl (lzip-PutsFooter start.format_handler old heap) (λ on. law) input body enc'
          coded (E.create start.alloc_struct s).1 (kept ∙ left) in
      let checked = summed refl in
      (
        _,
        f,
        k,
        run_returns crc rt E input_stream output_stream callback client hand h s enc f made set
            ends,
        low,
        high,
        rw checked at sent,
        taken,
      )
