-- ===== src/Decompress/Integrity.antt =====
-- What ELZMA_E_OK of `elzma_decompress_run` of src/decompress.c says of the bytes that were written.
use easylzma.Common.{
  ℕ, ◌%◌, ◌^◌, ◌≡◌, refl, sym, ap, ◌∙◌, List, inl, inr, Bool, true, false, arith, ◌==◌, ok,
  >>=-eq-ok, length, Bool-cases, some, Option, Option-cases, ◌||◌, not,
}
use easylzma.Format.{FileHeader, FormatHandler}
use easylzma.Api.{FileFormat, lzma, ReadResult, ReadCallback, WriteCallback, elzma_e_ok}
use easylzma.LzmaHeader.{initialize_lzma_format_handler}
use easylzma.Alloc.{Runtime, elzma_alloc}
use easylzma.Sdk.{Crc, IsRunningCrc, Decoder, crc_init_val}
use easylzma.Decompress.{DecompressHandle, Progress, is_lzip}
use easylzma.Decompress.Run.{
  Run, at_loop, finish, verdict, outer_loop, decoder_props, decode_stream, read_header,
  select_handler, elzma_decompress_run,
}
use easylzma.Decompress.FooterFrom.{FooterFrom}
use easylzma.Decompress.Tracking.{Tracks, outer_loop-Tracks}

module _ {S : Type 0} (rt : Runtime S) (crc : Crc) (D : Decoder S) (hand : DecompressHandle S)
    (input_stream : ReadCallback S) (output_stream : WriteCallback S) where
  module _ (lz : Bool) (law : lz ≡ true → IsRunningCrc crc) (handler : FormatHandler)
      (h : FileHeader) where
    -- A successful end: the checks passed on variables that track what was written.
    abbrev Passed : Run S → Type 0
    Passed r =
        (crc32 total : ℕ) × (verdict handler h r.footer crc32 total ≡ elzma_e_ok)
        × (r.header ≡ h)
        × (total ≡ length r.sent % 2 ^ 64)
        × (lz ≡ true → crc32 ≡ crc.update crc_init_val r.sent)

    finish-Passed :
        (error : ℕ) (p : Progress S D.DecState) {r : Run S}
        → Tracks crc D output_stream lz law p
        → ok (finish rt crc D hand input_stream output_stream handler h error p) ≡ ok r
        → r.error ≡ elzma_e_ok
        → Passed r
    unfolding finish
    finish-Passed error p {r} t e good =
        let same : r.sent ≡ p.sent = ground arith in
        (
          p.crc32,
          p.total_read,
          ground arith,
          ground arith,
          rw same t.total,
          λ on. rw same (t.checksum on),
        )

    decode_stream-Passed :
        (rounds : ℕ) (dec : D.DecState) (s : S) {r : Run S}
        → decode_stream rt crc D hand input_stream output_stream rounds lz handler h dec s ≡ ok r
        → r.error ≡ elzma_e_ok
        → Passed r
    unfolding decode_stream
    decode_stream-Passed rounds dec s e good =
        let start = at_loop rt crc D hand input_stream output_stream dec s in
        let ((error, p), ran, rest) =
          >>=-eq-ok (outer_loop crc D input_stream output_stream lz handler h rounds rounds start) _
            e in
        let begin : Tracks crc D output_stream lz law start = record {
          total = refl;
          checksum = λ on. sym ((law on).update-nil crc_init_val);
        } in
        finish-Passed error p
          (outer_loop-Tracks crc D output_stream lz law input_stream handler h rounds rounds start
            begin ran)
          rest good

  -- A success that begins with the header comes from the loop, with a header that was parsed.
  read_header-decodes :
      (lz : Bool) (handler : FormatHandler) (h : FileHeader) (rounds : ℕ) (hdr : Option ℕ) (s : S)
      {r : Run S}
      → read_header rt crc D hand input_stream output_stream rounds lz handler hdr h s ≡ ok r
      → r.error ≡ elzma_e_ok
      → (h' : FileHeader) × (dec : D.DecState) × (s' : S) × (hdr_buf : List ℕ)
        × (handler.parse_header hdr_buf h ≡ ok (0, h'))
        × (decode_stream rt crc D hand input_stream output_stream rounds lz handler h' dec s'
            ≡ ok r)
  unfolding read_header
  read_header-decodes lz handler h rounds hdr s {r} e good =
      elim (Bool-cases (not (x.status == 0) || not (length x.bytes == handler.header_size))) [
        | inl bad ↦ absurd (ground arith)
        | inr fine ↦
            let ((status, h'), parsed, rest) =
              >>=-eq-ok (handler.parse_header x.bytes h) _ (rw fine at e) in
            elim (Bool-cases (not (status == 0))) [
              | inl corrupt ↦ absurd (ground arith)
              | inr whole ↦
                  let (props, found, decoding) =
                    >>=-eq-ok (decoder_props lz x.bytes h') _ (rw whole at rest) in
                  let accepted : status ≡ 0 = ground arith in
                  (h', _, _, x.bytes, parsed ∙ ap (λ n. ok (n, h')) accepted, decoding)
            ]
      ]
    where
      x : ReadResult S
      x = input_stream handler.header_size s

  -- A success comes from the loop, with the handler of the format and a header that it parsed.
  run_decodes :
      (rounds : ℕ) (junk : FormatHandler) (h : FileHeader) (format : FileFormat)
      (handler : FormatHandler) (s : S) {r : Run S}
      → select_handler format junk ≡ some handler
      → elzma_decompress_run rt crc D hand input_stream output_stream rounds junk h format s ≡ ok r
      → r.error ≡ elzma_e_ok
      → (h' : FileHeader) × (dec : D.DecState) × (s' : S) × (hdr_buf : List ℕ)
        × (handler.parse_header hdr_buf (handler.init_header h) ≡ ok (0, h'))
        × (decode_stream rt crc D hand input_stream output_stream rounds
              (is_lzip format)
              handler
              h'
              dec
              s'
            ≡ ok r)
  unfolding elzma_decompress_run
  run_decodes rounds junk h format handler s {r} chosen e good =
      elim (Option-cases (elzma_alloc rt hand.alloc_struct handler.header_size s).0) [
        | inl null ↦ absurd (ground arith)
        | inr (address, got) ↦
            read_header-decodes (is_lzip format) handler (handler.init_header h) rounds
              (some address) (elzma_alloc rt hand.alloc_struct handler.header_size s).1 {r = r}
              (ground arith) good
      ]

  -- When a run for an LZMA-Alone stream returns, its result is ELZMA_E_OK and the header gave a
  -- size, then that size is the number, modulo 2^64, of the bytes that were handed to the write
  -- callback.
  pub lzma_integrity :
      (rounds : ℕ) (junk : FormatHandler) (h : FileHeader) (s : S) {r : Run S}
      → elzma_decompress_run rt crc D hand input_stream output_stream rounds junk h lzma s ≡ ok r
      → r.error ≡ elzma_e_ok
      → r.header.is_streamed ≡ 0
      → r.header.uncompressed_size ≡ length r.sent % 2 ^ 64
  lzma_integrity rounds junk h s {r} e good plain =
      let handler = initialize_lzma_format_handler junk in
      let (h', dec, s', hdr_buf, parsed, decoding) =
        run_decodes rounds junk h lzma handler s {r = r} (unfold select_handler in refl) e good in
      let (crc32, total, passed, same, counted, summed) =
        decode_stream-Passed false (λ on. absurd cc) handler h' rounds dec s' decoding good in
      unfold verdict initialize_lzma_format_handler in (ground arith)
