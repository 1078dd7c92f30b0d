-- ===== src/Decompress/LzmaFile.antt =====
-- `elzma_decompress_run` of src/decompress.c on a whole LZMA-Alone file.
use mathlib.Core.List.{append-nil}
use easylzma.Common.{
  ℕ, ◌^◌, ◌≤◌, ◌<◌, ◌≡◌, ◌≢◌, refl, ◌∙◌, false, List, [], ◌∷◌, ◌++◌, arith, ok, length,
  length-append, All,
}
use easylzma.Common.Words.{IsByte, IsU64}
use easylzma.Common.Words.LittleEndian.{
  le_bytes, le_value, le_bytes-IsByte, length-le_bytes, le_value-le_bytes,
}
use easylzma.Format.{FileHeader, FileFooter, FormatHandler}
use easylzma.LzmaHeader.{
  uint64_max, properties_byte, parse_lzma_header, initialize_lzma_format_handler,
}
use easylzma.LzmaHeader.Serialize.{stored_size}
use easylzma.LzmaHeader.RoundTrip.{IsEncodable}
use easylzma.LzmaHeader.Parse.{with_properties, with_dictionary, with_size, parse_lzma_header_lem}
use easylzma.Api.{lzma, ReadCallback, WriteCallback, elzma_e_ok}
use easylzma.Alloc.{Runtime}
use easylzma.Sdk.{Crc, Decoder}
use easylzma.Sdk.Coding.{StreamDecoder}
use easylzma.Decompress.{DecompressHandle}
use easylzma.Decompress.Run.{
  Run, zero_footer, finish, verdict, read_footer, decoder_props, select_handler,
  elzma_decompress_run,
}
use easylzma.Api.Clients.{HasInput}
use easylzma.Decompress.LaidOut.{IsLaidOut}
use easylzma.Decompress.Complete.{HasMemory, Decodes, run-whole}

-- Thirteen bytes that the parser takes as a header: a properties byte below 225, four bytes of a
-- dictionary size up to 2^28, and eight bytes of a size.
pub record IsParsable (c : ℕ) (ds us : List ℕ) : Type 0 where
  pub properties : c < 225
  pub dict_bytes : length ds ≡ 4
  pub dict_range : All IsByte ds
  pub dict_small : le_value ds ≤ 2 ^ 28
  pub size_bytes : length us ≡ 8
  pub size_range : All IsByte us

-- The properties byte and the dictionary size, which the decoder is allocated with.
abbrev pub lzma_props : FileHeader → List ℕ
lzma_props hdr = properties_byte hdr ∷ le_bytes 4 hdr.dict_size

pub lzma_front-IsParsable :
    (hdr : FileHeader)
    → IsEncodable hdr
    → IsParsable (properties_byte hdr) (le_bytes 4 hdr.dict_size) (le_bytes 8 (stored_size hdr))
lzma_front-IsParsable hdr fine = record {
  properties = omega (arith, fine.lc_small, fine.lp_zero, fine.pb_small);
  dict_bytes = length-le_bytes 4 hdr.dict_size;
  dict_range = le_bytes-IsByte 4 hdr.dict_size;
  dict_small = omega (
    arith,
    fine.dict_size_small,
    le_value-le_bytes 4 hdr.dict_size (omega (arith, fine.dict_size_small)),
  );
  size_bytes = length-le_bytes 8 (stored_size hdr);
  size_range = le_bytes-IsByte 8 (stored_size hdr);
}

-- A size that is not the one of a stream is the header's own.
pub stored_size-plain :
    (hdr : FileHeader) (size : ℕ)
    → IsEncodable hdr
    → hdr.uncompressed_size ≡ size
    → le_value (le_bytes 8 (stored_size hdr)) ≢ uint64_max
    → le_value (le_bytes 8 (stored_size hdr)) ≡ size
stored_size-plain hdr size fine same =
    let fits : stored_size hdr < 256 ^ 8 = ground (arith, fine.size_fits) in
    rw (le_value-le_bytes 8 (stored_size hdr) fits) (λ plain. ground (arith, same))

-- What is parsed from a properties byte, the bytes of the dictionary size and those of the size.
abbrev parsed_header : ℕ → List ℕ → List ℕ → FileHeader → FileHeader
parsed_header c ds us init =
    with_size (le_value us) (with_dictionary (le_value ds) (with_properties c init))

parse-front :
    (c : ℕ) (ds us : List ℕ) (init : FileHeader)
    → IsParsable c ds us
    → parse_lzma_header (c ∷ (ds ++ us)) init ≡ ok (0, parsed_header c ds us init)
parse-front c ds us init fine =
    let e =
      parse_lzma_header_lem c ds us [] init fine.dict_bytes fine.size_bytes fine.dict_range
        fine.size_range in
    let e' = rw (append-nil us) at e in e' ∙ ground (arith, fine.properties, fine.dict_small)

decoder_props-lzma :
    (c : ℕ) (ds us : List ℕ) (h : FileHeader)
    → length ds ≡ 4
    → decoder_props false (c ∷ (ds ++ us)) h ≡ ok (c ∷ ds)
unfolding decoder_props
decoder_props-lzma c (x ∷ y ∷ z ∷ w ∷ []) us h four = refl
decoder_props-lzma c [] us h four = absurd (omega arith)
decoder_props-lzma c (x ∷ []) us h four = absurd (omega arith)
decoder_props-lzma c (x ∷ y ∷ []) us h four = absurd (omega arith)
decoder_props-lzma c (x ∷ y ∷ z ∷ []) us h four = absurd (omega arith)
decoder_props-lzma c (x ∷ y ∷ z ∷ w ∷ _ ∷ _) us h four = absurd (omega arith)

read_footer-lzma :
    (junk : FormatHandler) (amt : ℕ) (buf : List ℕ) (f : FileFooter)
    → read_footer (initialize_lzma_format_handler junk) amt buf f ≡ ok f
unfolding read_footer initialize_lzma_format_handler
read_footer-lzma junk amt buf f = refl

-- Without a footer, only a size that the header has is compared.
verdict-lzma :
    (junk : FormatHandler) (h : FileHeader) (f : FileFooter) (crc32 total : ℕ)
    → (h.is_streamed ≡ 0 → h.uncompressed_size ≡ total)
    → verdict (initialize_lzma_format_handler junk) h f crc32 total ≡ elzma_e_ok
unfolding verdict initialize_lzma_format_handler
verdict-lzma junk h f crc32 total same = ground arith

-- The size counts unless its bytes are all 255.
plain_size :
    (c : ℕ) (ds us : List ℕ) (init : FileHeader) (size : ℕ)
    → (le_value us ≢ uint64_max → le_value us ≡ size)
    → (parsed_header c ds us init).is_streamed ≡ 0
    → le_value us ≡ size
plain_size c ds us init size same plain = same (λ e. absurd (ground arith))

module _ {S : Type 0} (rt : Runtime S) (crc : Crc) (D : Decoder S) (streams : StreamDecoder D)
    (hand : DecompressHandle S) (input_stream : ReadCallback S) (output_stream : WriteCallback S)
    (client : HasInput input_stream output_stream)
    (memory : HasMemory rt D hand client.unread) where
  -- Let the client read from a list of bytes and take all that is written, let memory be there, and
  -- let managing it not touch the client's input. Let the decoder go through coded bodies, which end
  -- with an end mark, as `StreamDecoder` says. Let the input be an LZMA-Alone file: a properties byte
  -- below 225, four bytes of a dictionary size up to 2^28, eight bytes of a size, and a body, where a
  -- decoder that is allocated with the first five of these bytes expects the body, end mark included,
  -- for a text. Let the text's length fit 64 bits, and let it be the size in the header unless that
  -- is 2^64 - 1. With more rounds than the body and the text have bytes, the run returns ELZMA_E_OK,
  -- and the bytes that were handed to the write callback are the text.
  pub lzma_file_comes_back :
      (rounds : ℕ) (junk : FormatHandler) (junk_header : FileHeader) (c : ℕ)
      (ds us body text : List ℕ) (s : S)
      → IsParsable c ds us
      → IsU64 (length text)
      → (le_value us ≢ uint64_max → le_value us ≡ length text)
      → Decodes D streams hand (c ∷ ds) body text
      → length body < rounds
      → length text < rounds
      → client.unread s ≡ (c ∷ (ds ++ us)) ++ body
      → (r : Run S) × (elzma_decompress_run rt crc D hand input_stream output_stream rounds junk
            junk_header lzma s
          ≡ ok r)
        × (r.error ≡ elzma_e_ok)
        × (r.sent ≡ text)
  unfolding finish initialize_lzma_format_handler
  lzma_file_comes_back rounds junk junk_header c ds us body text s front fits size coded enough_body
        enough_text unread =
      let handler = initialize_lzma_format_handler junk in
      let init = handler.init_header junk_header in
      let h = parsed_header c ds us init in
      let laid : IsLaidOut body [] [] = record {
        ends_inside = λ none_there. absurd (omega arith);
        fills = λ none_there. absurd (omega arith);
      } in
      let plain = plain_size c ds us init (length text) size in
      let (q, ran, (through, found, total, checked)) =
        run-whole rt crc D streams hand input_stream output_stream client memory false
          (λ on. absurd cc) handler h rounds body text [] [] (λ f. f ≡ zero_footer)
          (λ amt after counted. (zero_footer, read_footer-lzma junk amt after zero_footer, refl))
          (λ h. (plain h, fits, refl)) laid enough_body enough_text junk junk_header lzma
          (c ∷ (ds ++ us)) (c ∷ ds) s (unfold select_handler in refl) refl
          (rw (append-nil body) unread)
          (omega (arith, length-append ds us, front.dict_bytes, front.size_bytes))
          (parse-front c ds us init front) (decoder_props-lzma c ds us h front.dict_bytes) coded in
      (
        _,
        ran,
        verdict-lzma junk h q.footer q.crc32 q.total_read (λ h. plain h ∙ omega (arith, total)),
        through,
      )
