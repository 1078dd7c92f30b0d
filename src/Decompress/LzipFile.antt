-- ===== src/Decompress/LzipFile.antt =====
-- `elzma_decompress_run` of src/decompress.c on a whole lzip file.
use Prim.Native.Nat.{bit_xor}
use mathlib.Core.List.{append-nil, append_assoc}
use easylzma.Common.{
  ℕ, ◌+◌, ◌%◌, ◌^◌, ◌≤◌, ◌<◌, ◌≡◌, refl, sym, ap, ◌∙◌, true, List, [], ◌∷◌, ◌++◌, arith, ok, length,
  length-append, replicate,
}
use easylzma.Common.Words.{IsByte, IsU32, IsU64}
use easylzma.Common.Words.LittleEndian.{le_bytes, length-le_bytes}
use easylzma.Format.{FileHeader, FileFooter, FormatHandler}
use easylzma.LzmaHeader.Serialize.{serialize_lzma_header_lem}
use easylzma.LzipHeader.{elzma_lzip_footer_size, magic, initialize_lzip_format_handler}
use easylzma.LzipHeader.Header.{lzip_header, parse_lzip_header_accepts}
use easylzma.LzipHeader.Footer.{parse_lzip_footer_lem}
use easylzma.Api.{lzip, ReadCallback, WriteCallback, elzma_e_ok}
use easylzma.Alloc.{Runtime}
use easylzma.Sdk.{Crc, IsRunningCrc, Decoder, crc_init_val}
use easylzma.Sdk.Coding.{StreamDecoder}
use easylzma.Decompress.{DecompressHandle, elzma_decompress_input_bufsize}
use easylzma.Decompress.Run.{
  Run, zero_footer, finish, verdict, read_footer, decoder_props, select_handler,
  elzma_decompress_run,
}
use easylzma.Api.Clients.{HasInput}
use easylzma.Decompress.LaidOut.{IsLaidOut}
use easylzma.Decompress.Complete.{HasMemory, Decodes, run-whole}

-- The properties byte for lc = 3, lp = 0 and pb = 2, and the dictionary size.
abbrev pub lzip_props : ℕ → List ℕ
lzip_props dict = 93 ∷ le_bytes 4 dict

-- The digest and the size, as a footer holds them.
abbrev pub footer_of : ℕ → ℕ → List ℕ
footer_of digest size = le_bytes 4 digest ++ le_bytes 8 size

-- The digest of a text.
abbrev pub digest : Crc → List ℕ → ℕ
digest crc text = bit_xor (crc.update crc_init_val text) 0xFFFFFFFF

module _ (junk : FormatHandler) (sum size : ℕ) (sum_fits : IsU32 sum) (size_fits : IsU64 size) where
  read_footer-lzip :
      (amt : ℕ) (after : List ℕ)
      → (0 < length (footer_of sum size) → amt ≡ length (footer_of sum size))
      → (f' : FileFooter) × (read_footer
            (initialize_lzip_format_handler junk)
            amt
            (footer_of sum size ++ after)
            zero_footer
          ≡ ok f')
        × (f' ≡ record { crc32 = sum; uncompressed_size = size })
  unfolding read_footer initialize_lzip_format_handler
  read_footer-lzip amt after counted =
      let parsed = parse_lzip_footer_lem sum size after zero_footer sum_fits size_fits in
      let twelve : length (footer_of sum size) ≡ 12 = omega (
        arith,
        length-append (le_bytes 4 sum) (le_bytes 8 size),
        length-le_bytes 4 sum,
        length-le_bytes 8 size,
      ) in
      let whole = counted (omega arith) in
      let joined = append_assoc (le_bytes 4 sum) (le_bytes 8 size) after in
      (record { crc32 = sum; uncompressed_size = size }, rw joined (ground (arith, parsed)), refl)

decoder_props-lzip :
    (hdr : List ℕ) (dict : ℕ) → decoder_props true hdr (lzip_header dict) ≡ ok (lzip_props dict)
unfolding decoder_props le_bytes
decoder_props-lzip hdr dict =
    rw (serialize_lzma_header_lem (lzip_header dict) (replicate 13 0) [] refl) refl

module _ {S : Type 0} (rt : Runtime S) (crc : Crc) (law : IsRunningCrc crc) (D : Decoder S)
    (streams : StreamDecoder D) (hand : DecompressHandle S) (input_stream : ReadCallback S)
    (output_stream : WriteCallback S) (client : HasInput input_stream output_stream)
    (memory : HasMemory rt D hand client.unread) where
  -- The run on a file of which `tail` is read with the end of the body, and `beyond` is not.
  module _ (rounds : ℕ) (junk : FormatHandler) (junk_header : FileHeader) (version k : ℕ)
      (body text tail beyond : List ℕ) (s : S) (byte : IsByte k) (Read : FileFooter → Type 0)
      (footer : (amt : ℕ) (after : List ℕ)
        → (0 < length tail → amt ≡ length tail)
        → (f' : FileFooter) × (read_footer
              (initialize_lzip_format_handler junk)
              amt
              (tail ++ after)
              zero_footer
            ≡ ok f')
          × Read f')
      (laid : IsLaidOut body tail beyond)
      (coded : Decodes D streams hand (lzip_props (2 ^ (k % 32))) body text)
      (enough_body : length body < rounds) (enough_text : length text < rounds)
      (unread : client.unread s ≡ (magic ++ (version ∷ k ∷ [])) ++ (body ++ (tail ++ beyond))) where
    pub lzip_run :
        (f : FileFooter) × (total sum : ℕ) × (r : Run S) × (elzma_decompress_run rt crc D hand
            input_stream output_stream rounds junk junk_header lzip s
          ≡ ok r)
        × (r.error
            ≡ verdict
                (initialize_lzip_format_handler junk)
                (lzip_header (2 ^ (k % 32)))
                f
                sum
                total)
        × (r.sent ≡ text)
        × Read f
        × (total ≡ length text % 2 ^ 64)
        × (sum ≡ crc.update crc_init_val text)
    unfolding finish initialize_lzip_format_handler
    lzip_run =
        let handler = initialize_lzip_format_handler junk in
        let hdr = magic ++ (version ∷ k ∷ []) in
        let (q, ran, (through, found, total, checked)) =
          run-whole rt crc D streams hand input_stream output_stream client memory true (λ on. law)
            handler (lzip_header (2 ^ (k % 32))) rounds body text tail beyond Read footer
            (λ plain. absurd (omega (arith, plain))) laid enough_body enough_text junk junk_header
            lzip hdr (lzip_props (2 ^ (k % 32))) s (unfold select_handler in refl) refl unread refl
            (parse_lzip_header_accepts version k [] (handler.init_header junk_header) byte)
            (decoder_props-lzip hdr (2 ^ (k % 32))) coded in
        (q.footer, q.total_read, q.crc32, _, ran, refl, through, found, total, checked refl)

  -- Let the checksum be a running one. Let the client read from a list of bytes and take all that is
  -- written, let memory be there, and let managing it not touch the client's input. Let the decoder
  -- go through coded bodies as `StreamDecoder` says. Let the input be an lzip file: the magic, a
  -- version, a byte below 256 for the dictionary size, a body, and a footer, where a decoder that is
  -- allocated with that size expects the body for a text, and the footer holds the text's digest, of
  -- at most 32 bits, and its length, of at most 64. Let the body's last buffer of 64 KB hold some of
  -- the body and have room for the whole footer. With more rounds than the body and the text have
  -- bytes, the run returns ELZMA_E_OK, and the bytes that were handed to the write callback are the
  -- text.
  pub lzip_file_comes_back :
      (rounds : ℕ) (junk : FormatHandler) (junk_header : FileHeader) (version k : ℕ)
      (body text : List ℕ) (s : S)
      → IsByte k
      → IsU32 (digest crc text)
      → IsU64 (length text)
      → 0 < length body % elzma_decompress_input_bufsize
      → length body % elzma_decompress_input_bufsize + elzma_lzip_footer_size
        ≤ elzma_decompress_input_bufsize
      → Decodes D streams hand (lzip_props (2 ^ (k % 32))) body text
      → length body < rounds
      → length text < rounds
      → client.unread s
        ≡ (magic ++ (version ∷ k ∷ [])) ++ (body ++ footer_of (digest crc text) (length text))
      → (r : Run S) × (elzma_decompress_run rt crc D hand input_stream output_stream rounds junk
            junk_header lzip s
          ≡ ok r)
        × (r.error ≡ elzma_e_ok)
        × (r.sent ≡ text)
  unfolding verdict initialize_lzip_format_handler le_bytes
  lzip_file_comes_back rounds junk junk_header version k body text s byte sum_fits size_fits
        some_body whole coded enough_body enough_text unread =
      let sum = digest crc text in
      let all = footer_of sum (length text) in
      let laid : IsLaidOut body all [] = record {
        ends_inside = λ some_there. (some_body, whole);
        fills = λ none_there. absurd (omega arith);
      } in
      let (f, total, running, r, ran, code, through, found, counted, summed) =
        lzip_run rounds junk junk_header version k body text all [] s byte
          (λ f'. f' ≡ record { crc32 = sum; uncompressed_size = length text })
          (read_footer-lzip junk sum (length text) sum_fits size_fits) laid coded enough_body
          enough_text (rw (append-nil all) unread) in
      let same_sum : f.crc32 ≡ bit_xor running 0xFFFFFFFF =
        ap (λ (f : FileFooter). f.crc32) found ∙ ap (λ c. bit_xor c 0xFFFFFFFF) (sym summed) in
      let same_size : f.uncompressed_size ≡ total =
        ap (λ (f : FileFooter). f.uncompressed_size) found ∙ omega (arith, counted) in
      (r, ran, code ∙ ground (arith, same_sum, same_size), through)
