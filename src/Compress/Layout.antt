-- ===== src/Compress/Layout.antt =====
-- What a successful run of `elzma_compress_run` of src/compress.c has written.
use Prim.Native.Nat.{bit_xor}
use easylzma.Common.{
  ℕ, ◌*◌, ◌^◌, ◌≤◌, ◌<◌, ◌≡◌, sym, ap, subst, ◌∙◌, List, [], ◌∷◌, ◌++◌, Option, some, arith, ◌==◌,
  ok, >>=-eq-ok, Bool-cases, inl, inr, Option-cases,
}
use easylzma.Common.Words.LittleEndian.{le_bytes}
use easylzma.Format.{FileHeader, FormatHandler}
use easylzma.LzipHeader.{magic}
use easylzma.Api.{lzip, lzma, ReadCallback, WriteCallback, ProgressCallback, elzma_e_ok}
use easylzma.Alloc.{Runtime}
use easylzma.Sdk.{Crc, IsRunningCrc, Encoder, crc_init_val, sz_ok}
use easylzma.Sdk.Coding.{Transcript}
use easylzma.Compress.{CompressHandle, switch_handler, elzma_compress_config}
use easylzma.Compress.Streams.{Flow}
use easylzma.Compress.Tracking.{ran}
use easylzma.Compress.Run.{encode_file, begin_flow, with_encoder, elzma_compress_run}
use easylzma.Compress.LzipParts.{as_lzip, lzip_file}

module _ {S : Type 0} (crc : Crc) (law : IsRunningCrc crc) (rt : Runtime S) (E : Encoder S)
    (input_stream : ReadCallback S) (output_stream : WriteCallback S)
    (callback : Option (ProgressCallback S)) where
  -- A version 0 lzip file: the magic with the coded dictionary size, the bytes that the encoder
  -- wrote, and the footer with the checksum of the bytes that it read and the configured size.
  abbrev pub LzipFile : E.Enc → ℕ → ℕ → Flow S → Type 0
  LzipFile enc dictionary_size size flow =
      (k : ℕ) × (body : List ℕ) × (2 ^ k ≤ dictionary_size)
      × (dictionary_size < 2 * 2 ^ k)
      × Transcript (E.encode enc) flow.taken body
      × (flow.sent
          ≡ (magic ++ (0 ∷ k ∷ []))
            ++ (body
                ++ (le_bytes 4 (bit_xor (crc.update crc_init_val flow.taken) 0xFFFFFFFF)
                    ++ le_bytes 8 size)))

  with_encoder_layout :
      (junk : FormatHandler) (old : CompressHandle S E.Enc) (h : FileHeader) (enc : E.Enc) (s : S)
      {hand : Option (CompressHandle S E.Enc)} {flow : Flow S}
      → 0 < old.props.dict_size
      → old.props.dict_size < 2 ^ 31
      → with_encoder crc rt E output_stream callback h
          (as_lzip junk old)
          input_stream
          enc
          (begin_flow s)
        ≡ ok (elzma_e_ok, hand, flow)
      → LzipFile (E.set_props enc old.props).1 old.props.dict_size old.uncompressed_size flow
  unfolding with_encoder
  with_encoder_layout junk old h enc s {hand} {flow} pos lt e =
      elim (Bool-cases ((E.set_props enc old.props).0 == sz_ok)) [
        | inr bad ↦ absurd (ground arith)
        | inl fine ↦
            let enc' = (E.set_props enc old.props).1 in
            let old' : CompressHandle S E.Enc = record old { enc_hand = some enc' } in
            let m =
              encode_file crc rt E output_stream (as_lzip junk old') input_stream callback enc' h
                (begin_flow s) in
            let (r, ran, rest) =
              >>=-eq-ok m (λ r. ok (r.error, some r.hand, r.flow)) (rw fine at e) in
            let good : r.error ≡ 0 = ground arith in
            let through : r.flow ≡ flow = ground arith in
            let (k, taken, body, low, high, all, spoken, sent) =
              lzip_file crc law rt E output_stream junk old' input_stream callback enc' h
                (begin_flow s) pos lt (sym (law.update-nil crc_init_val)) ran good in
            let same = ap (λ (x : Flow S). x.taken) (sym through) ∙ all in
            (
              k,
              body,
              low,
              high,
              subst (λ t. Transcript (E.encode enc') t body) (sym same) spoken,
              rw through at sent,
            )
      ]

  -- A run of a handle whose handler is the lzip one.
  run_lzip :
      (junk : FormatHandler) (old : CompressHandle S E.Enc) (h : FileHeader) (s : S)
      {hand : Option (CompressHandle S E.Enc)} {flow : Flow S}
      → 0 < old.props.dict_size
      → old.props.dict_size < 2 ^ 31
      → elzma_compress_run crc rt E output_stream callback h
          (some (as_lzip junk old))
          (some input_stream)
          s
        ≡ ok (elzma_e_ok, hand, flow)
      → (enc : E.Enc) × ((E.create old.alloc_struct s).0 ≡ some enc)
        × LzipFile (E.set_props enc old.props).1 old.props.dict_size old.uncompressed_size flow
  unfolding elzma_compress_run
  run_lzip junk old h s {hand} {flow} pos lt e =
      elim (Option-cases (E.create old.alloc_struct s).0) [
        | inl null ↦ absurd (ground arith)
        | inr (enc, made) ↦ (
          enc,
          made,
          with_encoder_layout junk old h enc (E.create old.alloc_struct s).1 {hand = hand}
              {flow = flow} pos lt (ground arith),
        )
      ]

  -- Let the checksum be a running one, and let a handle be configured for lzip with a dictionary
  -- size above 0 and below 2^31. When a run returns ELZMA_E_OK, the encoder was created, and the
  -- bytes that were handed to the write callback are the magic, a 0, the exponent of the greatest
  -- power of two that is at most the dictionary size, the bytes that this encoder, with the
  -- configured properties, wrote in a run in which it read the bytes that were taken from the read
  -- callback, and the footer: the checksum of those bytes and the configured size.
  pub lzip_layout :
      (start : CompressHandle S E.Enc) (lc lp pb level dictionary_size size : ℕ) (h : FileHeader)
      (s : S) {hand : Option (CompressHandle S E.Enc)} {flow : Flow S}
      → let configured = (elzma_compress_config start lc lp pb level dictionary_size lzip size).1 in
        0 < dictionary_size
        → dictionary_size < 2 ^ 31
        → elzma_compress_run crc rt E output_stream callback h
            (some configured)
            (some input_stream)
            s
          ≡ ok (elzma_e_ok, hand, flow)
        → (enc : E.Enc) × ((E.create start.alloc_struct s).0 ≡ some enc)
          × LzipFile (E.set_props enc configured.props).1 dictionary_size size flow
  unfolding elzma_compress_config switch_handler
  lzip_layout start lc lp pb level dictionary_size size h s {hand} {flow} pos lt e =
      run_lzip start.format_handler
        (elzma_compress_config start lc lp pb level dictionary_size lzip size).1 h s {hand = hand}
        {flow = flow} pos lt e

  -- Let the checksum be a running one, and let a handle be configured for lzip and then again for
  -- lzma, the second time with a dictionary size above 0 and below 2^31. When a run returns
  -- ELZMA_E_OK, it has still written an lzip file, of the second settings, with the bytes that the
  -- encoder wrote: the handler of the first format stays.
  pub lzip_layout_sticks :
      (start : CompressHandle S E.Enc) (lc lp pb level dict_before size_before : ℕ)
      (lc' lp' pb' level' dictionary_size size : ℕ) (h : FileHeader) (s : S)
      {hand : Option (CompressHandle S E.Enc)} {flow : Flow S}
      → let before = (elzma_compress_config start lc lp pb level dict_before lzip size_before).1 in
        let configured =
          (elzma_compress_config before lc' lp' pb' level' dictionary_size lzma size).1 in
        0 < dictionary_size
        → dictionary_size < 2 ^ 31
        → elzma_compress_run crc rt E output_stream callback h
            (some configured)
            (some input_stream)
            s
          ≡ ok (elzma_e_ok, hand, flow)
        → (enc : E.Enc) × ((E.create start.alloc_struct s).0 ≡ some enc)
          × LzipFile (E.set_props enc configured.props).1 dictionary_size size flow
  unfolding elzma_compress_config switch_handler
  lzip_layout_sticks start lc lp pb level db sb lc' lp' pb' level' d size h s {hand} {flow} pos lt
        e =
      run_lzip start.format_handler
        (elzma_compress_config (elzma_compress_config start lc lp pb level db lzip sb).1 lc' lp' pb'
          level' d lzma size).1
        h s {hand = hand} {flow = flow} pos lt e
