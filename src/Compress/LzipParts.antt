-- ===== src/Compress/LzipParts.antt =====
-- The header, the body and the footer of a successful run of `elzma_compress_run` of src/compress.c
-- on a handle with the lzip handler.
use Prim.Native.Nat.{bit_xor}
use mathlib.Core.List.{append-nil, append_assoc}
use easylzma.Common.{
  ℕ, ◌*◌, ◌^◌, ◌≤◌, ◌<◌, ◌≡◌, refl, sym, ap, ◌∙◌, true, List, [], ◌∷◌, ◌++◌, Option, arith, ok,
  >>=-eq-ok, replicate,
}
use easylzma.Common.Words.LittleEndian.{le_bytes}
use easylzma.Format.{FileHeader, FileFooter, FormatHandler}
use easylzma.LzipHeader.{
  magic, serialize_lzip_header, serialize_lzip_footer, initialize_lzip_format_handler,
}
use easylzma.LzipHeader.Header.{serialize_lzip_header_lem}
use easylzma.LzipHeader.Footer.{serialize_lzip_footer_lem}
use easylzma.Api.{ReadCallback, WriteCallback, ProgressCallback, elzma_e_ok}
use easylzma.Alloc.{Runtime}
use easylzma.Sdk.{Crc, IsRunningCrc, Encoder, crc_init_val}
use easylzma.Sdk.Coding.{Transcript}
use easylzma.Compress.{CompressHandle}
use easylzma.Compress.Streams.{Flow}
use easylzma.Compress.Tracking.{ran, run_script-Extends, run_script-Sums}
use easylzma.Compress.Run.{Run, header_of, put_block, put_footer, encode_file}
use easylzma.Compress.Success.{put_block_lem, body_ok, file_ok}

pieces :
    (first head body tail : List ℕ) {all most front : List ℕ}
    → all ≡ most ++ tail
    → most ≡ front ++ body
    → front ≡ first ++ head
    → all ≡ first ++ (head ++ (body ++ tail))
pieces first head body tail p q r =
    rw (p, q, r) (append_assoc (first ++ head) body tail ∙ append_assoc first head (body ++ tail))

-- A handle that is set to the lzip format.
abbrev pub as_lzip : {S Enc : Type 0} → FormatHandler → CompressHandle S Enc → CompressHandle S Enc
as_lzip junk hand = record hand { format_handler = initialize_lzip_format_handler junk }

module _ {S : Type 0} (crc : Crc) (law : IsRunningCrc crc) (rt : Runtime S) (E : Encoder S)
    (output_stream : WriteCallback S) (junk : FormatHandler) (old : CompressHandle S E.Enc) where
  abbrev hand : CompressHandle S E.Enc
  hand = as_lzip junk old

  -- The twelve bytes of the footer, with the checksum of what was read.
  abbrev pub footer_bytes : ℕ → ℕ → List ℕ
  footer_bytes crc32 size = le_bytes 4 (bit_xor crc32 0xFFFFFFFF) ++ le_bytes 8 size

  lzip_footer :
      (f : Flow S) {r : Run S E.Enc}
      → put_footer crc rt E output_stream hand f ≡ ok r
      → (r.flow.sent ≡ f.sent ++ footer_bytes f.crc32 old.uncompressed_size)
        × (r.flow.taken ≡ f.taken)
  unfolding put_footer initialize_lzip_format_handler
  lzip_footer f {r} e =
      let ftr : FileFooter = record {
        crc32 = bit_xor f.crc32 0xFFFFFFFF;
        uncompressed_size = old.uncompressed_size;
      } in
      let ((taken, f'), wrote, rest) =
        >>=-eq-ok (put_block crc rt E output_stream hand 12 (serialize_lzip_footer ftr) f) _ e in
      let filled = serialize_lzip_footer_lem ftr (replicate 4 0) (replicate 8 0) [] refl refl in
      let (sent, kept, same) =
        put_block_lem crc rt E output_stream hand 12 (serialize_lzip_footer ftr) f filled wrote in
      let ends : r.flow ≡ f' = ground arith in
      (
        ap (λ (x : Flow S). x.sent) ends
            ∙ sent
            ∙ ap (λ t. f.sent ++ (le_bytes 4 ftr.crc32 ++ t))
                (append-nil (le_bytes 8 ftr.uncompressed_size)),
        ap (λ (x : Flow S). x.taken) ends ∙ same,
      )

  module _ (input_stream : ReadCallback S) (callback : Option (ProgressCallback S)) where
    pub lzip_file :
        (enc : E.Enc) (h : FileHeader) (f : Flow S) {r : Run S E.Enc}
        → 0 < old.props.dict_size
        → old.props.dict_size < 2 ^ 31
        → f.crc32 ≡ crc.update crc_init_val f.taken
        → encode_file crc rt E output_stream hand input_stream callback enc h f ≡ ok r
        → r.error ≡ elzma_e_ok
        → (k : ℕ) × (taken : List ℕ) × (body : List ℕ) × (2 ^ k ≤ old.props.dict_size)
          × (old.props.dict_size < 2 * 2 ^ k)
          × (r.flow.taken ≡ f.taken ++ taken)
          × Transcript (E.encode enc) taken body
          × (r.flow.sent
              ≡ f.sent
                ++ ((magic ++ (0 ∷ k ∷ []))
                    ++ (body
                        ++ footer_bytes
                            (crc.update crc_init_val r.flow.taken)
                            old.uncompressed_size)))
    unfolding initialize_lzip_format_handler
    lzip_file enc h f {r} pos lt summed e good =
        let (f', wrote, rest) =
          file_ok crc rt E output_stream hand input_stream callback enc h f e good in
        let (k, filled, low, high, small) =
          serialize_lzip_header_lem (header_of crc rt E output_stream hand h) 0 0 0 0 0 0 [] pos
            lt in
        let (sent, kept, same) =
          put_block_lem crc rt E output_stream hand 6
            (λ buf. serialize_lzip_header buf (header_of crc rt E output_stream hand h)) f filled
            wrote in
        let end =
          ran crc rt hand.alloc_struct input_stream output_stream callback hand.uncompressed_size
            true (E.encode enc) f' in
        let (taken, body, read_on, appended, spoken) =
          run_script-Extends crc rt hand.alloc_struct input_stream output_stream callback
            hand.uncompressed_size true (E.encode enc) f' in
        let sums =
          run_script-Sums crc rt hand.alloc_struct input_stream output_stream callback
            hand.uncompressed_size true (λ on. law) (E.encode enc) f'
            (λ on. kept ∙ summed ∙ ap (crc.update crc_init_val) (sym same)) refl in
        let (closed, as_read) =
          lzip_footer end
            (body_ok crc rt E output_stream hand input_stream callback enc f' rest good) in
        let checked = sums ∙ ap (crc.update crc_init_val) (sym as_read) in
        (
          k,
          taken,
          body,
          low,
          high,
          as_read ∙ read_on ∙ ap (λ t. t ++ taken) same,
          spoken,
          pieces f.sent (magic ++ (0 ∷ k ∷ [])) body (footer_bytes end.crc32 old.uncompressed_size)
                closed appended sent
              ∙ ap
                  (λ t.
                    f.sent
                    ++ ((magic ++ (0 ∷ k ∷ [])) ++ (body ++ footer_bytes t old.uncompressed_size)))
                  checked,
        )
