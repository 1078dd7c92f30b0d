-- ===== src/Compress/Run.antt =====
-- `elzma_compress_run` of src/compress.c: the header, the encoder, and the footer.
use Prim.Native.Nat.{bit_xor}
use easylzma.Common.{
  ℕ, ◌%◌, Bool, true, false, List, [], Option, none, some, ltb, ◌==◌, if◌then◌else◌, not, Outcome,
  ok, fault, null_pointer, ◌>>=◌, replicate,
}
use easylzma.Format.{FileHeader, FileFooter, FormatHandler}
use easylzma.Api.{
  FileFormat, lzip, lzma, other, ReadCallback, WriteCallback, ProgressCallback, elzma_e_ok,
  elzma_e_bad_params, elzma_e_compress_error, elzma_e_unsupported_format, elzma_e_output_error,
}
use easylzma.Alloc.{Runtime, elzma_alloc, elzma_free}
use easylzma.Sdk.{Crc, Encoder, crc_init_val, sz_ok}
use easylzma.Compress.{CompressHandle}
use easylzma.Compress.Streams.{Flow, elzma_write_func, run_script}

-- What a part of the run returns, and what it leaves.
pub record Run (S Enc : Type 0) : Type 0 where
  pub error : ℕ
  pub hand : CompressHandle S Enc
  pub flow : Flow S

abbrev pub supported : FileFormat → Bool
supported lzma = true
supported lzip = true
supported (other n) = false

abbrev pub has_footer : FormatHandler → Bool
has_footer handler = elim handler.serialize_footer [ none ↦ false | some f ↦ true ]

module _ {S : Type 0} (crc : Crc) (rt : Runtime S) (E : Encoder S) (output_stream : WriteCallback S)
    (hand : CompressHandle S E.Enc) where
  open hand use {props, format_handler as handler}

  -- A return with the handle as it is.
  abbrev pub leave : ℕ → Flow S → Run S E.Enc
  leave error f = record { error = error; hand = hand; flow = f }

  abbrev pub released : ℕ → Flow S → Flow S
  released address f = record f { world = elzma_free rt hand.alloc_struct (some address) f.world }

  -- The struct that `h` is after the assignments.
  abbrev pub header_of : FileHeader → FileHeader
  header_of h = record (handler.init_header h) {
    pb = props.pb % 256;
    lp = props.lp % 256;
    lc = props.lc % 256;
    dict_size = props.dict_size;
    is_streamed = if hand.uncompressed_size == 0 then 1 else 0;
    uncompressed_size = hand.uncompressed_size;
  }

  -- Allocates a buffer of `size` bytes, fills it, hands it to the client and frees it: whether the
  -- client took all of it. What the allocated bytes hold does not matter, since all are overwritten.
  unfoldable pub put_block : ℕ → (List ℕ → Outcome (ℕ × List ℕ)) → Flow S → Outcome (Bool × Flow S)
  put_block size fill f =
      let (buf, s) = elzma_alloc rt hand.alloc_struct size f.world in
      elim buf [
        | none ↦ fault null_pointer
        | some address ↦ do
          (status, bytes) ← fill (replicate size 0)
          let (wt, f') = elzma_write_func output_stream bytes (record f { world = s })
          ok (wt == size, released address f')
      ]

  unfoldable pub put_footer : Flow S → Outcome (Run S E.Enc)
  put_footer f = elim handler.serialize_footer [
    | none ↦ ok (leave elzma_e_ok f)
    | some serialize_footer ↦
        let ftr : FileFooter = record {
          crc32 = bit_xor f.crc32 0xFFFFFFFF;
          uncompressed_size = hand.uncompressed_size;
        } in
        if not (ltb 0 handler.footer_size) then ok (leave elzma_e_ok f) else do
          (taken, f') ← put_block handler.footer_size (serialize_footer ftr) f
          ok (leave (if taken then elzma_e_ok else elzma_e_output_error) f')
  ]

  module _ (input_stream : ReadCallback S) (callback : Option (ProgressCallback S)) where
    -- `LzmaEnc_Encode` on the encoder, and the code behind it.
    unfoldable pub encode_body : E.Enc → Flow S → Outcome (Run S E.Enc)
    encode_body enc f =
        let (r, f') =
          run_script crc input_stream output_stream rt hand.alloc_struct callback
            hand.uncompressed_size (has_footer handler) (E.encode enc) f in
        if not (r == sz_ok) then ok (leave elzma_e_compress_error f') else put_footer f'

    -- The code from the check of the format on; `h` is what the uninitialised struct held.
    unfoldable pub encode_file : E.Enc → FileHeader → Flow S → Outcome (Run S E.Enc)
    encode_file enc h f =
        if not (supported hand.format) then ok (leave elzma_e_unsupported_format f) else do
          (taken, f') ←
              put_block handler.header_size (λ buf. handler.serialize_header buf (header_of h)) f
          if not taken then ok (leave elzma_e_output_error f') else encode_body enc f'

-- What a call returns: the result, the handle, and the state with what went through.
abbrev pub Returned : {S : Type 0} → Encoder S → Type 0
Returned {S} E = ℕ × Option (CompressHandle S E.Enc) × Flow S

abbrev pub begin_flow : {S : Type 0} → S → Flow S
begin_flow s = record { world = s; crc32 = crc_init_val; taken = []; sent = [] }

module _ {S : Type 0} (crc : Crc) (rt : Runtime S) (E : Encoder S) (output_stream : WriteCallback S)
    (callback : Option (ProgressCallback S)) (h : FileHeader) where
  -- The code from `LzmaEnc_SetProps` on; `h` is what the uninitialised struct held.
  unfoldable pub with_encoder :
      CompressHandle S E.Enc → ReadCallback S → E.Enc → Flow S → Outcome (Returned E)
  with_encoder hand input_stream enc f =
      let (res, enc') = E.set_props enc hand.props in
      let hand' : CompressHandle S E.Enc = record hand { enc_hand = some enc' } in
      if not (res == sz_ok)
      then ok (elzma_e_bad_params, some hand', f)
      else (encode_file crc rt E output_stream hand' input_stream callback enc' h f >>= λ r.
          ok (r.error, some r.hand, r.flow))

  -- A null pointer for the handle or the input is `none`.
  unfoldable pub elzma_compress_run :
      Option (CompressHandle S E.Enc) → Option (ReadCallback S) → S → Outcome (Returned E)
  elzma_compress_run none input_stream s = ok (elzma_e_bad_params, none, begin_flow s)
  elzma_compress_run (some hand) none s = ok (elzma_e_bad_params, some hand, begin_flow s)
  elzma_compress_run (some hand) (some input_stream) s =
      let (created, s') = E.create hand.alloc_struct s in
      elim created [
        | none ↦ ok (elzma_e_compress_error, some (record hand { enc_hand = none }), begin_flow s')
        | some enc ↦ with_encoder hand input_stream enc (begin_flow s')
      ]
