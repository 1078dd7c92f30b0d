-- ===== src/Compress/Success.antt =====
-- The parts of a run of `elzma_compress_run` of src/compress.c that ends with ELZMA_E_OK.
use easylzma.Common.{
  ℕ, ◌≡◌, ap, ◌∙◌, Bool, true, List, ◌++◌, Option, arith, ok, Outcome, >>=-eq-ok, replicate,
  Bool-cases, inl, inr,
}
use easylzma.Format.{FileHeader}
use easylzma.Api.{ReadCallback, WriteCallback, ProgressCallback, elzma_e_ok}
use easylzma.Alloc.{Runtime}
use easylzma.Sdk.{Crc, Encoder}
use easylzma.Compress.{CompressHandle}
use easylzma.Compress.Streams.{Flow, elzma_write_func}
use easylzma.Compress.Tracking.{ran}
use easylzma.Compress.Run.{
  Run, supported, has_footer, header_of, put_block, put_footer, encode_body, encode_file,
}

module _ {S : Type 0} (crc : Crc) (rt : Runtime S) (E : Encoder S) (output_stream : WriteCallback S)
    (hand : CompressHandle S E.Enc) where
  -- A block adds its bytes to what was written, and touches neither checksum nor input.
  pub put_block_lem :
      (size : ℕ) (fill : List ℕ → Outcome (ℕ × List ℕ)) (f : Flow S) {taken : Bool} {f' : Flow S}
      {status : ℕ} {bytes : List ℕ}
      → fill (replicate size 0) ≡ ok (status, bytes)
      → put_block crc rt E output_stream hand size fill f ≡ ok (taken, f')
      → (f'.sent ≡ f.sent ++ bytes) × (f'.crc32 ≡ f.crc32) × (f'.taken ≡ f.taken)
  unfolding put_block elzma_write_func
  put_block_lem size fill f filled e = ground arith

  module _ (input_stream : ReadCallback S) (callback : Option (ProgressCallback S)) where
    -- A success of the part behind the header.
    pub body_ok :
        (enc : E.Enc) (f : Flow S) {r : Run S E.Enc}
        → encode_body crc rt E output_stream hand input_stream callback enc f ≡ ok r
        → r.error ≡ elzma_e_ok
        → put_footer crc rt E output_stream hand (
            ran crc rt hand.alloc_struct input_stream output_stream callback hand.uncompressed_size
              (has_footer hand.format_handler)
              (E.encode enc)
              f)
          ≡ ok r
    unfolding encode_body
    body_ok enc f e good = ground arith

    pub file_ok :
        (enc : E.Enc) (h : FileHeader) (f : Flow S) {r : Run S E.Enc}
        → encode_file crc rt E output_stream hand input_stream callback enc h f ≡ ok r
        → r.error ≡ elzma_e_ok
        → (f' : Flow S) × (put_block crc rt E output_stream hand hand.format_handler.header_size
              (λ buf.
                hand.format_handler.serialize_header buf (header_of crc rt E output_stream hand h))
              f
            ≡ ok (true, f'))
          × (encode_body crc rt E output_stream hand input_stream callback enc f' ≡ ok r)
    unfolding encode_file
    file_ok enc h f {r} e good = elim (Bool-cases (supported hand.format)) [
      | inr unknown ↦ absurd (ground arith)
      | inl known ↦
          let m =
            put_block crc rt E output_stream hand hand.format_handler.header_size
              (λ buf.
                hand.format_handler.serialize_header buf (header_of crc rt E output_stream hand h))
              f in
          let ((taken, f'), wrote, rest) = >>=-eq-ok m _ (rw known at e) in
          elim (Bool-cases taken) [
            | inl all ↦ (f', wrote ∙ ap (λ t. ok (t, f')) all, rw all at rest)
            | inr short ↦ absurd (ground arith)
          ]
    ]
