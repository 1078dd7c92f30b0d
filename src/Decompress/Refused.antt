-- ===== src/Decompress/Refused.antt =====
-- `elzma_decompress_run` of src/decompress.c when it does not accept the header.
use easylzma.Common.{
  ℕ, zero, suc, ◌+◌, ◌-◌, ◌≡◌, ◌≢◌, refl, Bool, [], some, arith, not, ◌||◌, ◌==◌, Bool-cases, inl,
  inr, ok, Outcome, ◌>>=◌, >>=-eq-ok, length, take, drop, Option-cases, ap, ◌∙◌,
}
use easylzma.Format.{FileHeader, FileFooter, FormatHandler}
use easylzma.Api.{FileFormat, ReadCallback, WriteCallback, elzma_e_corrupt_header}
use easylzma.Alloc.{Runtime, elzma_alloc}
use easylzma.Sdk.{Crc, Decoder, LzmaStatus, not_specified}
use easylzma.Decompress.{
  DecompressHandle, Progress, InnerEnd, failed, left, deliver, inner_loop, is_lzip,
  elzma_decompress_input_bufsize, elzma_decompress_output_bufsize,
}
use easylzma.Decompress.Run.{
  Run, filled, verdict, after_buffer, outer_loop, decoder_props, finish, decode_stream, read_header,
  select_handler, elzma_decompress_run,
}

verdict-code :
    (handler : FormatHandler) (h : FileHeader) (f : FileFooter) (crc32 total_read : ℕ)
    → verdict handler h f crc32 total_read ≢ elzma_e_corrupt_header
unfolding verdict
verdict-code handler h f crc32 total_read e = ground arith

module _ {S : Type 0} (crc : Crc) (D : Decoder S) (input_stream : ReadCallback S)
    (output_stream : WriteCallback S) where
  inner_loop-code :
      (lz : Bool) (fuel src_len dst_len buf_off amt : ℕ) (stat : LzmaStatus)
      (p : Progress S D.DecState) {error : ℕ} {q : Progress S D.DecState}
      → inner_loop crc D output_stream lz fuel src_len dst_len buf_off amt stat p
        ≡ ok (failed error, q)
      → error ≢ elzma_e_corrupt_header
  unfolding inner_loop deliver
  inner_loop-code lz zero src_len dst_len buf_off amt stat p ran bad = cc
  inner_loop-code lz (suc fuel) src_len dst_len buf_off amt stat p {error} {q} ran bad =
      let r = D.decode_to_buf p.dec dst_len (take amt (drop buf_off p.inbuf)) in
      let d = deliver crc D output_stream lz r.output r.dec p in
      let off = buf_off + r.consumed in
      let rest =
        inner_loop-code lz fuel src_len (length r.output) off (src_len - off) r.stat d.1
          {error = error} {q = q} in
      ground arith

  after_buffer-code :
      (handler : FormatHandler) (h : FileHeader)
      (again : Progress S D.DecState → Outcome (ℕ × Progress S D.DecState)) (e : InnerEnd)
      (p : Progress S D.DecState) {error : ℕ} {q : Progress S D.DecState}
      → (e ≢ failed elzma_e_corrupt_header)
      → (again p ≡ ok (error, q) → error ≢ elzma_e_corrupt_header)
      → after_buffer handler h again e p ≡ ok (error, q)
      → error ≢ elzma_e_corrupt_header
  unfolding after_buffer
  after_buffer-code handler h again (failed error) p fine next ran bad = ground arith
  after_buffer-code handler h again (left off amt stat) p {error} {q} fine next ran bad =
      let later = next in ground arith

  outer_loop-code :
      (lz : Bool) (handler : FormatHandler) (h : FileHeader) (rounds fuel : ℕ)
      (p : Progress S D.DecState) {error : ℕ} {q : Progress S D.DecState}
      → outer_loop crc D input_stream output_stream lz handler h rounds fuel p ≡ ok (error, q)
      → error ≢ elzma_e_corrupt_header
  unfolding outer_loop
  outer_loop-code lz handler h rounds zero p ran bad = cc
  outer_loop-code lz handler h rounds (suc fuel) p {error} {q} ran bad =
      let r = input_stream elzma_decompress_input_bufsize p.world in
      elim (Bool-cases (not (r.status == 0) || (length r.bytes == 0))) [
        | inl ended ↦ ground arith
        | inr more ↦
            let again = outer_loop crc D input_stream output_stream lz handler h rounds fuel in
            let inner =
              inner_loop crc D output_stream lz rounds (length r.bytes)
                elzma_decompress_output_bufsize 0 (length r.bytes) not_specified
                (filled input_stream p) in
            let next : InnerEnd × Progress S D.DecState → Outcome (ℕ × Progress S D.DecState) =
              λ x. after_buffer handler h again x.0 x.1 in
            let run : inner >>= next ≡ ok (error, q) = ground arith in
            let ((x, p'), i, a) = >>=-eq-ok inner next run in
            let fine : x ≢ failed elzma_e_corrupt_header =
              λ same. inner_loop-code lz rounds _ _ _ _ _ _ (i ∙ ap (λ y. ok (y, p')) same) refl in
            after_buffer-code handler h again x p' fine
              (outer_loop-code lz handler h rounds fuel p') a bad
      ]

module _ {S : Type 0} (rt : Runtime S) (crc : Crc) (D : Decoder S) (hand : DecompressHandle S)
    (input_stream : ReadCallback S) (output_stream : WriteCallback S) where
  decode_stream-code :
      (rounds : ℕ) (lz : Bool) (handler : FormatHandler) (h : FileHeader) (dec : D.DecState) (s : S)
      {r : Run S}
      → decode_stream rt crc D hand input_stream output_stream rounds lz handler h dec s ≡ ok r
      → r.error ≢ elzma_e_corrupt_header
  unfolding decode_stream finish
  decode_stream-code rounds lz handler h dec s {r} e bad =
      let ((error, p), ran, rest) =
        >>=-eq-ok (outer_loop crc D input_stream output_stream lz handler h rounds rounds _) _ e in
      let loop =
        outer_loop-code crc D input_stream output_stream lz handler h rounds rounds _ ran in
      let check = verdict-code handler h p.footer p.crc32 p.total_read in ground arith

  -- When a run returns ELZMA_E_CORRUPT_HEADER, it has not handed a byte to the write callback.
  pub elzma_decompress_run-refused :
      (rounds : ℕ) (junk : FormatHandler) (h : FileHeader) (format : FileFormat) (s : S) {r : Run S}
      → elzma_decompress_run rt crc D hand input_stream output_stream rounds junk h format s ≡ ok r
      → r.error ≡ elzma_e_corrupt_header
      → r.sent ≡ []
  unfolding elzma_decompress_run read_header
  elzma_decompress_run-refused rounds junk h format s {r} e code =
      elim (Option-cases (select_handler format junk)) [
        | inl unknown ↦ ground arith
        | inr (handler, chosen) ↦
            elim (Option-cases (elzma_alloc rt hand.alloc_struct handler.header_size s).0) [
              | inl null ↦ ground arith
              | inr (address, made) ↦
                  let s' = (elzma_alloc rt hand.alloc_struct handler.header_size s).1 in
                  let x = input_stream handler.header_size s' in
                  let run : read_header rt crc D hand input_stream output_stream rounds
                        (is_lzip format) handler (some address) (handler.init_header h) s'
                      ≡ ok r =
                    ground arith in
                  elim (Bool-cases
                    (not (x.status == 0) || not (length x.bytes == handler.header_size))) [
                      | inl bad ↦ ground arith
                      | inr fine ↦
                          let ((status, h'), parsed, rest) =
                            >>=-eq-ok (handler.parse_header x.bytes (handler.init_header h)) _
                              (rw fine at run) in
                          elim (Bool-cases (not (status == 0))) [
                            | inl corrupt ↦ ground arith
                            | inr whole ↦
                                let (props, found, decoding) =
                                  >>=-eq-ok (decoder_props (is_lzip format) x.bytes h') _
                                    (rw whole at rest) in
                                absurd (
                                  decode_stream-code rounds (is_lzip format) handler h' _ _ decoding
                                    code)
                          ]
                    ]
            ]
      ]
