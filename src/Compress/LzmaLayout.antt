-- ===== src/Compress/LzmaLayout.antt =====
-- What a successful run of `elzma_compress_run` of src/compress.c has written for LZMA-Alone.
use mathlib.Core.List.{append-nil, append_assoc}
use easylzma.Common.{
  ℕ, ◌%◌, ◌≡◌, refl, sym, ap, subst, ◌∙◌, false, List, [], ◌∷◌, ◌++◌, Option, some, arith, ◌==◌, ok,
  >>=-eq-ok, if◌then◌else◌, replicate, Bool-cases, inl, inr, Option-cases,
}
use easylzma.Common.Words.LittleEndian.{le_bytes}
use easylzma.Format.{FileHeader, FormatHandler}
use easylzma.LzmaHeader.{properties_byte, serialize_lzma_header, initialize_lzma_format_handler}
use easylzma.LzmaHeader.Serialize.{stored_size, serialize_lzma_header_lem}
use easylzma.Api.{lzma, ReadCallback, WriteCallback, ProgressCallback, elzma_e_ok}
use easylzma.Alloc.{Runtime}
use easylzma.Sdk.{Crc, Encoder, sz_ok}
use easylzma.Sdk.Coding.{Transcript}
use easylzma.Compress.{CompressHandle, switch_handler, elzma_compress_config}
use easylzma.Compress.Streams.{Flow}
use easylzma.Compress.Tracking.{ran, run_script-Extends}
use easylzma.Compress.Run.{
  Run, put_footer, encode_file, begin_flow, with_encoder, elzma_compress_run,
}
use easylzma.Compress.Success.{put_block_lem, body_ok, file_ok}

-- A handle that still has the handler of its allocation.
abbrev pub as_lzma : {S Enc : Type 0} → FormatHandler → CompressHandle S Enc → CompressHandle S Enc
as_lzma junk hand = record hand { format_handler = initialize_lzma_format_handler junk }

joined : (c : ℕ) (ds us body : List ℕ) → (c ∷ (ds ++ (us ++ []))) ++ body ≡ c ∷ (ds ++ (us ++ body))
joined c ds us body = rw (append-nil us) (ap (λ t. c ∷ t) (append_assoc ds us body))

module _ {S : Type 0} (crc : Crc) (rt : Runtime S) (E : Encoder S) (input_stream : ReadCallback S)
    (output_stream : WriteCallback S) (callback : Option (ProgressCallback S)) where
  -- The header that the handle's settings make.
  abbrev pub settings : CompressHandle S E.Enc → FileHeader
  settings hand = record {
    pb = hand.props.pb % 256;
    lp = hand.props.lp % 256;
    lc = hand.props.lc % 256;
    is_streamed = if hand.uncompressed_size == 0 then 1 else 0;
    uncompressed_size = hand.uncompressed_size;
    dict_size = hand.props.dict_size;
  }

  -- An LZMA-Alone file: the 13 bytes of the header, and the bytes that the encoder wrote while it
  -- read what was taken.
  abbrev pub LzmaFile : E.Enc → FileHeader → Flow S → Type 0
  LzmaFile enc hdr flow =
      (body : List ℕ) × Transcript (E.encode enc) flow.taken body
      × (flow.sent
          ≡ properties_byte hdr
            ∷ (le_bytes 4 hdr.dict_size ++ (le_bytes 8 (stored_size hdr) ++ body)))

  no_footer :
      (junk : FormatHandler) (old : CompressHandle S E.Enc) (f : Flow S) {r : Run S E.Enc}
      → put_footer crc rt E output_stream (as_lzma junk old) f ≡ ok r
      → r.flow ≡ f
  unfolding put_footer initialize_lzma_format_handler
  no_footer junk old f e = ground arith

  lzma_file :
      (junk : FormatHandler) (old : CompressHandle S E.Enc) (h : FileHeader) (enc : E.Enc)
      (f : Flow S) {r : Run S E.Enc}
      → f.sent ≡ []
      → f.taken ≡ []
      → encode_file crc rt E output_stream (as_lzma junk old) input_stream callback enc h f ≡ ok r
      → r.error ≡ elzma_e_ok
      → LzmaFile enc (settings old) r.flow
  unfolding initialize_lzma_format_handler
  lzma_file junk old h enc f {r} empty unread e good =
      let hand = as_lzma junk old in
      let (f', wrote, rest) =
        file_ok crc rt E output_stream hand input_stream callback enc h f e good in
      let filled = serialize_lzma_header_lem (settings old) (replicate 13 0) [] refl in
      let (sent, kept, same) =
        put_block_lem crc rt E output_stream hand 13
          (λ buf. serialize_lzma_header buf (settings old)) f filled wrote in
      let (taken, body, read_on, appended, spoken) =
        run_script-Extends crc rt hand.alloc_struct input_stream output_stream callback
          hand.uncompressed_size false (E.encode enc) f' in
      let closed =
        no_footer junk old _
          (body_ok crc rt E output_stream hand input_stream callback enc f' rest good) in
      let bytes =
        properties_byte (settings old)
        ∷ (le_bytes 4 old.props.dict_size ++ (le_bytes 8 (stored_size (settings old)) ++ [])) in
      (
        body,
        subst (λ t. Transcript (E.encode enc) t body)
            (sym (
              ap (λ (x : Flow S). x.taken) closed ∙ read_on ∙ ap (λ t. t ++ taken) (same ∙ unread)))
            spoken,
        ap (λ (x : Flow S). x.sent) closed
            ∙ appended
            ∙ ap (λ t. t ++ body) (sent ∙ ap (λ t. t ++ bytes) empty)
            ∙ joined (properties_byte (settings old)) (le_bytes 4 old.props.dict_size)
                (le_bytes 8 (stored_size (settings old))) body,
      )

  with_encoder_lzma :
      (junk : FormatHandler) (old : CompressHandle S E.Enc) (h : FileHeader) (enc : E.Enc) (s : S)
      {hand : Option (CompressHandle S E.Enc)} {flow : Flow S}
      → with_encoder crc rt E output_stream callback h
          (as_lzma junk old)
          input_stream
          enc
          (begin_flow s)
        ≡ ok (elzma_e_ok, hand, flow)
      → LzmaFile (E.set_props enc old.props).1 (settings old) flow
  unfolding with_encoder
  with_encoder_lzma junk old h enc s {hand} {flow} e =
      elim (Bool-cases ((E.set_props enc old.props).0 == sz_ok)) [
        | inr bad ↦ absurd (ground arith)
        | inl fine ↦
            let enc' = (E.set_props enc old.props).1 in
            let old' : CompressHandle S E.Enc = record old { enc_hand = some enc' } in
            let m =
              encode_file crc rt E output_stream (as_lzma junk old') input_stream callback enc' h
                (begin_flow s) in
            let (r, ran, rest) =
              >>=-eq-ok m (λ r. ok (r.error, some r.hand, r.flow)) (rw fine at e) in
            let good : r.error ≡ 0 = ground arith in
            let through : r.flow ≡ flow = ground arith in
            let file = lzma_file junk old' h enc' (begin_flow s) refl refl ran good in
            rw through at file
      ]

  -- Let a handle, whose handler is still the LZMA-Alone one of its allocation, be configured for
  -- lzma. When a run returns ELZMA_E_OK, the encoder was created, and the bytes that were handed to
  -- the write callback are the 13 bytes of the header that the settings make, and the bytes that this
  -- encoder, with the configured properties, wrote in a run in which it read the bytes that were taken
  -- from the read callback; nothing stands behind them.
  pub lzma_layout :
      (junk : FormatHandler) (start : CompressHandle S E.Enc)
      (lc lp pb level dictionary_size size : ℕ) (h : FileHeader) (s : S)
      {hand : Option (CompressHandle S E.Enc)} {flow : Flow S}
      → let configured =
          (elzma_compress_config (as_lzma junk start) lc lp pb level dictionary_size lzma size).1 in
        elzma_compress_run crc rt E output_stream callback h (some configured) (some input_stream) s
          ≡ ok (elzma_e_ok, hand, flow)
        → (enc : E.Enc) × ((E.create start.alloc_struct s).0 ≡ some enc)
          × LzmaFile
              (E.set_props enc configured.props).1
              (record {
                pb = pb % 256;
                lp = lp % 256;
                lc = lc % 256;
                is_streamed = if size == 0 then 1 else 0;
                uncompressed_size = size;
                dict_size = dictionary_size;
              })
              flow
  unfolding elzma_compress_run elzma_compress_config switch_handler
  lzma_layout junk start lc lp pb level dictionary_size size h s {hand} {flow} e =
      elim (Option-cases (E.create start.alloc_struct s).0) [
        | inl null ↦ absurd (ground arith)
        | inr (enc, made) ↦ (
          enc,
          made,
          with_encoder_lzma junk configured h enc after {hand = hand} {flow = flow} (ground arith),
        )
      ]
    where
      configured : CompressHandle S E.Enc
      configured =
          (elzma_compress_config (as_lzma junk start) lc lp pb level dictionary_size lzma size).1

      after : S
      after = (E.create start.alloc_struct s).1
