-- ===== src/Compress/WholeLzma.antt =====
-- `elzma_compress_run` of src/compress.c for LZMA-Alone, when the client and the encoder do not fail.
use mathlib.Core.List.{append-nil}
use easylzma.Common.{
  ℕ, ◌%◌, ◌≡◌, refl, sym, ap, ◌∙◌, List, [], ◌∷◌, ◌++◌, Option, some, arith, ok, ◌==◌,
  if◌then◌else◌, length, replicate, length-append,
}
use easylzma.Common.Words.LittleEndian.{le_bytes, length-le_bytes}
use easylzma.Format.{FileHeader, FormatHandler}
use easylzma.LzmaHeader.{properties_byte, initialize_lzma_format_handler}
use easylzma.LzmaHeader.Serialize.{stored_size, lzma_front, serialize_lzma_header_lem}
use easylzma.Api.{lzma, ReadCallback, WriteCallback, ProgressCallback, elzma_e_ok}
use easylzma.Api.Clients.{HasInput}
use easylzma.Alloc.{Runtime}
use easylzma.Alloc.Heap.{HasHeap}
use easylzma.Sdk.{Crc, Encoder}
use easylzma.Compress.{CompressHandle, switch_handler, elzma_compress_config}
use easylzma.Compress.Streams.{Flow}
use easylzma.Compress.LzmaLayout.{as_lzma}
use easylzma.Compress.Whole.{PutsFooter, Codes, encode_file-succeeds, run_returns}
use easylzma.Compress.Run.{put_footer, elzma_compress_run}

module _ {S : Type 0} (crc : Crc) (rt : Runtime S) (E : Encoder S) (input_stream : ReadCallback S)
    (output_stream : WriteCallback S) (callback : Option (ProgressCallback S))
    (client : HasInput input_stream output_stream)
    (reports : (report : ProgressCallback S) (in_size total : ℕ) (s : S)
      → callback ≡ some report
      → client.unread (report in_size total s) ≡ client.unread s) where
  lzma-PutsFooter :
      (junk : FormatHandler) (hand : CompressHandle S E.Enc)
      → PutsFooter crc rt E input_stream output_stream callback client
          (as_lzma junk hand)
          (λ sum. [])
  unfolding put_footer initialize_lzma_format_handler
  lzma-PutsFooter junk hand f = (f, refl, sym (append-nil f.sent), refl)

  pub lzma_run_succeeds :
      (junk : FormatHandler) (start : CompressHandle S E.Enc)
      (lc lp pb level dictionary_size size : ℕ) (h : FileHeader) (input body : List ℕ) (s : S)
      → HasHeap rt start.alloc_struct client.unread
      → let hand =
          (elzma_compress_config (as_lzma junk start) lc lp pb level dictionary_size lzma size).1 in
        Codes crc rt E input_stream output_stream callback client start.alloc_struct hand.props
          input body
        → client.unread s ≡ input
        → (end : Option (CompressHandle S E.Enc)) × (f : Flow S) × (elzma_compress_run crc rt E
              output_stream callback h
              (some hand)
              (some input_stream)
              s
            ≡ ok (elzma_e_ok, end, f))
          × (f.sent
              ≡ lzma_front (record {
                pb = pb % 256;
                lp = lp % 256;
                lc = lc % 256;
                is_streamed = if size == 0 then 1 else 0;
                uncompressed_size = size;
                dict_size = dictionary_size;
              })
                ++ body)
          × (f.taken ≡ input)
  unfolding elzma_compress_config switch_handler initialize_lzma_format_handler
  lzma_run_succeeds junk start lc lp pb level dictionary_size size h input body s heap codes left =
      let (enc, made, kept, set, coded) = codes s in
      let hand : CompressHandle S E.Enc =
        (elzma_compress_config (as_lzma junk start) lc lp pb level dictionary_size lzma size).1 in
      let enc' = (E.set_props enc hand.props).1 in
      let old : CompressHandle S E.Enc = record hand { enc_hand = some enc' } in
      let hdr : FileHeader = record {
        pb = pb % 256;
        lp = lp % 256;
        lc = lc % 256;
        is_streamed = if size == 0 then 1 else 0;
        uncompressed_size = size;
        dict_size = dictionary_size;
      } in
      let filled =
        serialize_lzma_header_lem hdr (replicate 13 0) [] refl
        ∙ ap (λ t. ok (0, properties_byte hdr ∷ (le_bytes 4 dictionary_size ++ t)))
            (append-nil (le_bytes 8 (stored_size hdr))) in
      let thirteen : length (lzma_front hdr) ≡ 13 = omega (
        arith,
        length-append (le_bytes 4 dictionary_size) (le_bytes 8 (stored_size hdr)),
        length-le_bytes 4 dictionary_size,
        length-le_bytes 8 (stored_size hdr),
      ) in
      let (f, ends, sum, sent, taken, summed) =
        encode_file-succeeds crc rt E input_stream output_stream callback client (as_lzma junk old)
          heap reports (lzma_front hdr) (λ sum. []) h refl filled thirteen
          (lzma-PutsFooter junk old) (λ on. absurd cc) input body enc' coded
          (E.create start.alloc_struct s).1 (kept ∙ left) in
      (
        _,
        f,
        run_returns crc rt E input_stream output_stream callback client hand h s enc f made set
            ends,
        sent ∙ ap (λ t. lzma_front hdr ++ t) (append-nil body),
        taken,
      )
