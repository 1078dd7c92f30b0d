-- ===== src/Decompress/Returns.antt =====
-- `elzma_decompress_run` of src/decompress.c comes to an end.
use easylzma.Common.{
  ℕ, zero, suc, ◌≤◌, ◌<◌, ◌≡◌, ◌≢◌, refl, Bool, true, false, List, [], ◌∷◌, Option, none, some,
  arith, not, ◌||◌, ◌==◌, Bool-cases, inl, inr, fault, out_of_fuel, >>=-avoids, >>=-eq-fault,
  ok-avoids, length, drop, replicate,
}
use easylzma.Common.Words.{load_le}
use easylzma.Format.{FileHeader, FileFooter, FormatHandler}
use easylzma.Api.{FileFormat, lzip, lzma, other, ReadResult, ReadCallback, WriteCallback}
use easylzma.Alloc.{Runtime, elzma_alloc, elzma_free}
use easylzma.LzmaHeader.{
  uncompressed_loop, lzmadec_header_properties, lzmadec_header_dictionary,
  lzmadec_header_uncompressed, parse_lzma_header, initialize_lzma_format_handler,
}
use easylzma.LzipHeader.{
  strncmp_eq, byte_at, magic, parse_lzip_header, parse_lzip_footer, initialize_lzip_format_handler,
}
use easylzma.Sdk.{Crc, Decoder, Advances}
use easylzma.Decompress.{DecompressHandle, elzma_decompress_input_bufsize, is_lzip}
use easylzma.Decompress.Run.{
  Run, read_footer, decoder_props, at_loop, finish, decode_stream, read_header, select_handler,
  elzma_decompress_run,
}
use easylzma.LzmaHeader.Serialize.{serialize_lzma_header_lem}
use easylzma.Decompress.Termination.{IsFinite, outer_loop-ends}

load_le-ends : (w n i acc : ℕ) (buf : List ℕ) → load_le w n i acc buf ≢ fault out_of_fuel
unfolding load_le
load_le-ends w zero i acc buf e = cc
load_le-ends w (suc n) i acc [] e = cc
load_le-ends w (suc n) i acc (b ∷ buf) e = load_le-ends w n _ _ buf e

uncompressed_loop-ends :
    (n i size is_streamed : ℕ) (buf : List ℕ)
    → uncompressed_loop n i size is_streamed buf ≢ fault out_of_fuel
unfolding uncompressed_loop
uncompressed_loop-ends zero i size is_streamed buf e = cc
uncompressed_loop-ends (suc n) i size is_streamed [] e = cc
uncompressed_loop-ends (suc n) i size is_streamed (b ∷ buf) e = uncompressed_loop-ends n _ _ _ buf e

parse_lzma_header-ends :
    (buf : List ℕ) (hdr : FileHeader) → parse_lzma_header buf hdr ≢ fault out_of_fuel
unfolding parse_lzma_header lzmadec_header_properties lzmadec_header_dictionary
    lzmadec_header_uncompressed
parse_lzma_header-ends [] hdr e = cc
parse_lzma_header-ends (c ∷ buf) hdr e =
    ground (arith, load_le-ends 32 4 0 0 buf, uncompressed_loop-ends 8 0 0 1 (drop 4 buf))

strncmp_eq-ends : (text buf : List ℕ) → strncmp_eq text buf ≢ fault out_of_fuel
unfolding strncmp_eq
strncmp_eq-ends [] buf e = cc
strncmp_eq-ends (c ∷ text) [] e = cc
strncmp_eq-ends (c ∷ text) (b ∷ buf) e = ground (arith, strncmp_eq-ends text buf)

byte_at-ends : (i : ℕ) (buf : List ℕ) → byte_at i buf ≢ fault out_of_fuel
unfolding byte_at
byte_at-ends i [] e = cc
byte_at-ends zero (b ∷ buf) e = cc
byte_at-ends (suc i) (b ∷ buf) e = byte_at-ends i buf e

parse_lzip_header-ends :
    (buf : List ℕ) (hdr : FileHeader) → parse_lzip_header buf hdr ≢ fault out_of_fuel
unfolding parse_lzip_header
parse_lzip_header-ends buf hdr e = ground (arith, strncmp_eq-ends magic buf, byte_at-ends 5 buf)

parse_lzip_footer-ends :
    (buf : List ℕ) (ftr : FileFooter) → parse_lzip_footer buf ftr ≢ fault out_of_fuel
unfolding parse_lzip_footer
parse_lzip_footer-ends buf ftr e =
    ground (arith, load_le-ends 32 4 0 0 buf, load_le-ends 64 8 0 0 (drop 4 buf))

decoder_props-ends :
    (lz : Bool) (hdr : List ℕ) (h : FileHeader) → decoder_props lz hdr h ≢ fault out_of_fuel
unfolding decoder_props
decoder_props-ends false hdr h e = cc
decoder_props-ends true hdr h e =
    let filled = serialize_lzma_header_lem h (replicate 13 0) [] refl in ground arith

lzip_footer-ends :
    (junk : FormatHandler) (amt : ℕ) (buf : List ℕ) (f : FileFooter)
    → read_footer (initialize_lzip_format_handler junk) amt buf f ≢ fault out_of_fuel
unfolding read_footer initialize_lzip_format_handler
lzip_footer-ends junk amt buf f e = ground (arith, parse_lzip_footer-ends buf f)

lzma_footer-ends :
    (junk : FormatHandler) (amt : ℕ) (buf : List ℕ) (f : FileFooter)
    → read_footer (initialize_lzma_format_handler junk) amt buf f ≢ fault out_of_fuel
unfolding read_footer initialize_lzma_format_handler
lzma_footer-ends junk amt buf f e = ground arith

module _ {S : Type 0} (rt : Runtime S) (crc : Crc) (D : Decoder S) (law : Advances D)
    (hand : DecompressHandle S) (input_stream : ReadCallback S) (output_stream : WriteCallback S)
    (finite : IsFinite input_stream output_stream) where
  -- Allocation does not add input.
  pub record IsQuiet : Type 0 where
    pub alloc :
        (size : ℕ) (s : S)
        → finite.remaining (elzma_alloc rt hand.alloc_struct size s).1 ≤ finite.remaining s
    pub free :
        (address : Option ℕ) (s : S)
        → finite.remaining (elzma_free rt hand.alloc_struct address s) ≤ finite.remaining s
    pub allocate :
        (dec : D.DecState) (props : List ℕ) (s : S)
        → finite.remaining (D.allocate hand.alloc_struct dec props s).2 ≤ finite.remaining s

  module _ (quiet : IsQuiet) (rounds : ℕ)
      (enough : (dec : D.DecState) (src : List ℕ)
        → length src ≤ elzma_decompress_input_bufsize
        → law.pending dec src < rounds) where
    decode_stream-ends :
        (lz : Bool) (handler : FormatHandler)
        (footer : (amt : ℕ) (buf : List ℕ) (f : FileFooter)
          → read_footer handler amt buf f ≢ fault out_of_fuel)
        (h : FileHeader) (dec : D.DecState) (s : S)
        → finite.remaining s < rounds
        → decode_stream rt crc D hand input_stream output_stream rounds lz handler h dec s
          ≢ fault out_of_fuel
    unfolding decode_stream
    decode_stream-ends lz handler footer h dec s less =
        let start = at_loop rt crc D hand input_stream output_stream dec s in
        >>=-avoids out_of_fuel _ _
          (outer_loop-ends crc D law output_stream lz input_stream finite handler footer h rounds
            enough rounds start less)
          (λ x ran.
            ok-avoids {A = Run S}
              (finish rt crc D hand input_stream output_stream handler h x.0 x.1))

    read_header-ends :
        (lz : Bool) (handler : FormatHandler)
        (footer : (amt : ℕ) (buf : List ℕ) (f : FileFooter)
          → read_footer handler amt buf f ≢ fault out_of_fuel)
        (parse : (buf : List ℕ) (hdr : FileHeader)
          → handler.parse_header buf hdr ≢ fault out_of_fuel)
        (hdr : Option ℕ) (h : FileHeader) (s : S)
        → 0 < handler.header_size
        → finite.remaining s < rounds
        → read_header rt crc D hand input_stream output_stream rounds lz handler hdr h s
          ≢ fault out_of_fuel
    unfolding read_header
    read_header-ends lz handler footer parse hdr h s some_bytes less e =
        elim (Bool-cases (not (r.status == 0) || not (length r.bytes == handler.header_size))) [
          | inl bad ↦ absurd (ground arith)
          | inr fine ↦
              let ((status, h'), parsed, rest) =
                >>=-eq-fault (handler.parse_header r.bytes h) _ (rw fine at e) (parse r.bytes h) in
              elim (Bool-cases (not (status == 0))) [
                | inl corrupt ↦ absurd (ground arith)
                | inr whole ↦
                    let (props, found, decoding) =
                      >>=-eq-fault (decoder_props lz r.bytes h') _ (rw whole at rest)
                        (decoder_props-ends lz r.bytes h') in
                    let lower = finite.lowers handler.header_size s (ground arith) (ground arith) in
                    let allocated = quiet.allocate (D.init D.blank) props r.state in
                    let freed =
                      quiet.free hdr
                        (D.allocate hand.alloc_struct (D.init D.blank) props r.state).2 in
                    decode_stream-ends lz handler footer h' _ _ (omega arith) decoding
              ]
        ]
      where
        r : ReadResult S
        r = input_stream handler.header_size s

    run_ends :
        (junk : FormatHandler) (h : FileHeader) (format : FileFormat) (handler : FormatHandler)
        (s : S)
        (footer : (amt : ℕ) (buf : List ℕ) (f : FileFooter)
          → read_footer handler amt buf f ≢ fault out_of_fuel)
        (parse : (buf : List ℕ) (hdr : FileHeader)
          → handler.parse_header buf hdr ≢ fault out_of_fuel)
        → select_handler format junk ≡ some handler
        → 0 < handler.header_size
        → finite.remaining s < rounds
        → elzma_decompress_run rt crc D hand input_stream output_stream rounds junk h format s
          ≢ fault out_of_fuel
    unfolding elzma_decompress_run
    run_ends junk h format handler s footer parse chosen some_bytes less e =
        with_buffer (elzma_alloc rt hand.alloc_struct handler.header_size s) refl
      where
        with_buffer :
            (a : Option ℕ × S) → elzma_alloc rt hand.alloc_struct handler.header_size s ≡ a → ⊥
        with_buffer (none, s') got = absurd (ground arith)
        with_buffer (some address, s') got =
            let quiet_alloc = quiet.alloc handler.header_size s in
            read_header-ends (is_lzip format) handler footer parse (some address)
              (handler.init_header h) s' some_bytes (ground arith) (ground arith)

    -- Let the decoder advance, let the input of the client come to an end, and let allocation not
    -- add input. With more rounds than the decoder may produce bytes from one buffer, and than the
    -- client has input left, a run does not run out of rounds, whatever the format.
    pub elzma_decompress_run-ends :
        (junk : FormatHandler) (h : FileHeader) (format : FileFormat) (s : S)
        → finite.remaining s < rounds
        → elzma_decompress_run rt crc D hand input_stream output_stream rounds junk h format s
          ≢ fault out_of_fuel
    elzma_decompress_run-ends junk h lzip s less =
        run_ends junk h lzip (initialize_lzip_format_handler junk) s (lzip_footer-ends junk)
          (unfold initialize_lzip_format_handler in parse_lzip_header-ends)
          (unfold select_handler in refl) (unfold initialize_lzip_format_handler in omega arith)
          less
    elzma_decompress_run-ends junk h lzma s less =
        run_ends junk h lzma (initialize_lzma_format_handler junk) s (lzma_footer-ends junk)
          (unfold initialize_lzma_format_handler in parse_lzma_header-ends)
          (unfold select_handler in refl) (unfold initialize_lzma_format_handler in omega arith)
          less
    elzma_decompress_run-ends junk h (other n) s less =
        unfold elzma_decompress_run select_handler in λ e. cc
