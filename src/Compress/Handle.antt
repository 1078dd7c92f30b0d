-- ===== src/Compress/Handle.antt =====
-- The handle that `elzma_compress_run` of src/compress.c leaves.
use easylzma.Common.{
  ℕ, ◌≡◌, ◌⊎◌, Bool, Option, none, some, arith, ltb, ◌==◌, if◌then◌else◌, Outcome, ok, ◌>>=◌,
  >>=-eq-ok, Bool-cases, Option-cases, inl, inr,
}
use Prim.Native.Nat.{bit_xor}
use easylzma.Format.{FileHeader, FileFooter}
use easylzma.Api.{ReadCallback, WriteCallback, ProgressCallback, elzma_e_ok, elzma_e_output_error}
use easylzma.Alloc.{Runtime}
use easylzma.Sdk.{Crc, Encoder, sz_ok}
use easylzma.Compress.{CompressHandle}
use easylzma.Compress.Streams.{Flow, run_script}
use easylzma.Compress.Run.{
  Run, Returned, has_footer, supported, header_of, put_block, put_footer, encode_body, encode_file,
  begin_flow, with_encoder, elzma_compress_run,
}

module _ {S : Type 0} (crc : Crc) (rt : Runtime S) (E : Encoder S)
    (output_stream : WriteCallback S) where
  put_footer-hand :
      (hand : CompressHandle S E.Enc) (f : Flow S) {r : Run S E.Enc}
      → put_footer crc rt E output_stream hand f ≡ ok r
      → r.hand ≡ hand
  unfolding put_footer
  put_footer-hand hand f {r} e = elim (Option-cases hand.format_handler.serialize_footer) [
    | inl none_there ↦ ground arith
    | inr (serialize_footer, there) ↦ elim (Bool-cases (ltb 0 hand.format_handler.footer_size)) [
      | inr no_bytes ↦ ground arith
      | inl some_bytes ↦
          let ftr : FileFooter = record {
            crc32 = bit_xor f.crc32 0xFFFFFFFF;
            uncompressed_size = hand.uncompressed_size;
          } in
          let m =
            put_block crc rt E output_stream hand hand.format_handler.footer_size
              (serialize_footer ftr) f in
          let returned : Bool × Flow S → Outcome (Run S E.Enc) = λ x. ok (record {
            error = if x.0 then elzma_e_ok else elzma_e_output_error;
            hand = hand;
            flow = x.1;
          }) in
          let ran : m >>= returned ≡ ok r = ground arith in
          let (x, wrote, last) = >>=-eq-ok m returned ran in ground arith
    ]
  ]

  module _ (input_stream : ReadCallback S) (callback : Option (ProgressCallback S))
      (h : FileHeader) where
    encode_file-hand :
        (hand : CompressHandle S E.Enc) (enc : E.Enc) (f : Flow S) {r : Run S E.Enc}
        → encode_file crc rt E output_stream hand input_stream callback enc h f ≡ ok r
        → r.hand ≡ hand
    unfolding encode_file encode_body
    encode_file-hand hand enc f {r} e = elim (Bool-cases (supported hand.format)) [
      | inr unknown ↦ ground arith
      | inl known ↦
          let m =
            put_block crc rt E output_stream hand hand.format_handler.header_size
              (λ buf.
                hand.format_handler.serialize_header buf (header_of crc rt E output_stream hand h))
              f in
          let ((all, f'), wrote, rest) = >>=-eq-ok m _ (rw known at e) in
          let x =
            run_script crc input_stream output_stream rt hand.alloc_struct callback
              hand.uncompressed_size (has_footer hand.format_handler) (E.encode enc) f' in
          elim (Bool-cases all) [
            | inr short ↦ ground arith
            | inl taken ↦ elim (Bool-cases (x.0 == sz_ok)) [
              | inr bad ↦ ground arith
              | inl good ↦ put_footer-hand hand x.1 {r = r} (ground arith)
            ]
          ]
    ]

    -- The handle that a run leaves has the encoder that was created, with the properties set, or no
    -- encoder when none was created, and is otherwise the one that the run got.
    pub elzma_compress_run-hand :
        (hand : CompressHandle S E.Enc) (s : S) {r : Returned E}
        → elzma_compress_run crc rt E output_stream callback h (some hand) (some input_stream) s
          ≡ ok r
        → (((E.create hand.alloc_struct s).0 ≡ none)
            × (r.1 ≡ some (record hand { enc_hand = none })))
          ⊎ ((enc : E.Enc) × ((E.create hand.alloc_struct s).0 ≡ some enc)
              × (r.1 ≡ some (record hand { enc_hand = some (E.set_props enc hand.props).1 })))
    unfolding elzma_compress_run with_encoder
    elzma_compress_run-hand hand s {r} e = elim (Option-cases (E.create hand.alloc_struct s).0) [
      | inl null ↦ inl (null, ground arith)
      | inr (enc, made) ↦
          let set = E.set_props enc hand.props in
          let hand' : CompressHandle S E.Enc = record hand { enc_hand = some set.1 } in
          elim (Bool-cases (set.0 == sz_ok)) [
            | inr bad ↦ inr (enc, made, ground arith)
            | inl fine ↦
                let m =
                  encode_file crc rt E output_stream hand' input_stream callback set.1 h
                    (begin_flow (E.create hand.alloc_struct s).1) in
                let returned : Run S E.Enc → Outcome (Returned E) =
                  λ x. ok (x.error, some x.hand, x.flow) in
                let ran : m >>= returned ≡ ok r = ground arith in
                let (x, body, last) = >>=-eq-ok m returned ran in
                let same = encode_file-hand hand' set.1 _ body in inr (enc, made, ground arith)
          ]
    ]

    -- It has the allocation struct of the one that the run got.
    pub elzma_compress_run-alloc_struct :
        (hand left : CompressHandle S E.Enc) (s : S) {error : ℕ} {f : Flow S}
        → elzma_compress_run crc rt E output_stream callback h (some hand) (some input_stream) s
          ≡ ok (error, some left, f)
        → left.alloc_struct ≡ hand.alloc_struct
    elzma_compress_run-alloc_struct hand left s {error} {f} e =
        elim (elzma_compress_run-hand hand s e) [
          | inl (null, same) ↦ ground arith
          | inr (enc, made, same) ↦ ground arith
        ]
