-- ===== src/Decompress/Run.antt =====
-- `elzma_decompress_run` of src/decompress.c: the header, the loop over the input, and the checks.
use Prim.Native.Nat.{bit_xor}
use easylzma.Common.{
  ℕ, zero, suc, Bool, true, false, ◌&&◌, ◌||◌, not, List, [], ◌++◌, Option, none, some, ltb, leb,
  ◌==◌, if◌then◌else◌, Outcome, ok, fault, null_pointer, out_of_fuel, ◌>>=◌, length, take, drop,
  replicate,
}
use easylzma.Format.{FileHeader, FileFooter, FormatHandler}
use easylzma.LzmaHeader.{
  initialize_lzma_format_handler, elzma_lzma_header_size, serialize_lzma_header,
}
use easylzma.LzipHeader.{initialize_lzip_format_handler}
use easylzma.Api.{
  FileFormat, lzip, lzma, other, ReadCallback, WriteCallback, elzma_e_ok, elzma_e_bad_params,
  elzma_e_input_error, elzma_e_corrupt_header, elzma_e_insufficient_input, elzma_e_crc32_mismatch,
  elzma_e_size_mismatch,
}
use easylzma.Alloc.{Runtime, elzma_alloc, elzma_free}
use easylzma.Sdk.{Crc, Decoder, not_specified, crc_init_val}
use easylzma.Decompress.{
  elzma_decompress_input_bufsize, elzma_decompress_output_bufsize, DecompressHandle, is_lzip,
  is_finished, Progress, InnerEnd, failed, left, inner_loop,
}

-- The result of a run, and what it leaves. `header`, `footer` and `sent` are there for the theorems.
pub record Run (S : Type 0) : Type 0 where
  pub error : ℕ
  pub world : S
  pub inbuf : List ℕ
  pub header : FileHeader
  pub footer : FileFooter
  pub sent : List ℕ

-- The handler for the format, over what the uninitialised struct held.
unfoldable pub select_handler : FileFormat → FormatHandler → Option FormatHandler
select_handler lzma junk = some (initialize_lzma_format_handler junk)
select_handler lzip junk = some (initialize_lzip_format_handler junk)
select_handler (other n) junk = none

-- The bytes of a buffer after a callback has filled its front.
abbrev pub overlay : List ℕ → List ℕ → List ℕ
overlay bytes buf = bytes ++ drop (length bytes) buf

abbrev pub zero_footer : FileFooter
zero_footer = record { crc32 = 0; uncompressed_size = 0 }

-- The code behind the loop: the checksum and the size against those of the file.
unfoldable pub verdict : FormatHandler → FileHeader → FileFooter → ℕ → ℕ → ℕ
verdict handler h f crc32 total_read =
    if not (handler.footer_size == 0)
    then (if not (f.crc32 == bit_xor crc32 0xFFFFFFFF)
        then elzma_e_crc32_mismatch
        else if not (f.uncompressed_size == total_read)
        then elzma_e_size_mismatch
        else elzma_e_ok)
    else if h.is_streamed == 0 && not (h.uncompressed_size == total_read)
    then elzma_e_size_mismatch
    else elzma_e_ok

-- `if (footer_size > 0 && amt >= footer_size && parse_footer != NULL) parse_footer(inbuf + bufOff, &f)`
unfoldable pub read_footer : FormatHandler → ℕ → List ℕ → FileFooter → Outcome FileFooter
read_footer handler amt buf f = elim (ltb 0 handler.footer_size && leb handler.footer_size amt) [
  | false ↦ ok f
  | true ↦ elim handler.parse_footer [
    | none ↦ ok f
    | some parse_footer ↦ parse_footer buf f >>= λ r. ok r.1
  ]
]

-- The code of the outer loop behind the inner one; `again` is the next round. The number beside the
-- variables is the error code, which is 0 behind a `break`.
unfoldable pub after_buffer :
    {S : Type 0} {DecState : Type 0}
    → FormatHandler
    → FileHeader
    → (Progress S DecState → Outcome (ℕ × Progress S DecState))
    → InnerEnd
    → Progress S DecState
    → Outcome (ℕ × Progress S DecState)
after_buffer handler h again (failed error) p = ok (error, p)
after_buffer handler h again (left buf_off amt stat) p =
    if is_finished stat
    then (read_footer handler amt (drop buf_off p.inbuf) p.footer >>= λ f.
        ok (0, record p { footer = f }))
    else if h.is_streamed == 0 && leb h.uncompressed_size p.total_read
    then ok (0, p)
    else again p

-- The variables after a read, for a callback that gives no more bytes than it is asked for.
abbrev pub filled :
    {S DecState : Type 0} → ReadCallback S → Progress S DecState → Progress S DecState
filled input_stream p =
    let r = input_stream elzma_decompress_input_bufsize p.world in
    record p { world = r.state; inbuf = overlay r.bytes p.inbuf }

module _ {S : Type 0} (crc : Crc) (D : Decoder S) (input_stream : ReadCallback S)
    (output_stream : WriteCallback S) where
  -- `for (;;) { … }`, with the rounds that are left for it and for the inner loop.
  unfoldable pub outer_loop :
      Bool
      → FormatHandler
      → FileHeader
      → ℕ
      → ℕ
      → Progress S D.DecState
      → Outcome (ℕ × Progress S D.DecState)
  outer_loop lzip_format handler h rounds zero p = fault out_of_fuel
  outer_loop lzip_format handler h rounds (suc fuel) p =
      let r = input_stream elzma_decompress_input_bufsize p.world in
      let src_len = length r.bytes in
      let p' : Progress S D.DecState = filled input_stream p in
      let again = outer_loop lzip_format handler h rounds fuel in
      if not (r.status == 0)
      then ok (elzma_e_input_error, p')
      else if src_len == 0
      then ok (elzma_e_insufficient_input, p')
      else (inner_loop crc D output_stream lzip_format rounds src_len
            elzma_decompress_output_bufsize 0 src_len not_specified p'
          >>= λ e. after_buffer handler h again e.0 e.1)

-- The five bytes that the decoder is allocated with: the header's own, or for lzip those that the
-- other format's header would begin with. `propsBuf` is not initialised; all of it is overwritten.
unfoldable pub decoder_props : Bool → List ℕ → FileHeader → Outcome (List ℕ)
decoder_props false hdr h = ok (take 5 hdr)
decoder_props true hdr h =
    serialize_lzma_header (replicate elzma_lzma_header_size 0) h >>= λ r. ok (take 5 r.1)

module _ {S : Type 0} (rt : Runtime S) (crc : Crc) (D : Decoder S) (hand : DecompressHandle S)
    (input_stream : ReadCallback S) (output_stream : WriteCallback S) where
  -- The variables in front of the loop.
  abbrev pub at_loop : D.DecState → S → Progress S D.DecState
  at_loop dec s = record {
    world = s;
    dec = dec;
    inbuf = hand.inbuf;
    total_read = 0;
    crc32 = crc_init_val;
    footer = zero_footer;
    sent = [];
  }

  -- The checks, and what stands at `decompressEnd`.
  unfoldable pub finish : FormatHandler → FileHeader → ℕ → Progress S D.DecState → Run S
  finish handler h error p = record {
    error = if error == 0 then verdict handler h p.footer p.crc32 p.total_read else error;
    world = D.free hand.alloc_struct p.dec p.world;
    inbuf = p.inbuf;
    header = h;
    footer = p.footer;
    sent = p.sent;
  }

  -- The code from the loop on. `rounds` bounds the rounds of both loops.
  unfoldable pub decode_stream :
      ℕ → Bool → FormatHandler → FileHeader → D.DecState → S → Outcome (Run S)
  decode_stream rounds lzip_format handler h dec s = do
    (error, p) ←
        outer_loop crc D input_stream output_stream lzip_format handler h rounds rounds
          (at_loop dec s)
    ok (finish handler h error p)

  -- A return before the loop.
  abbrev pub early : ℕ → FileHeader → S → Run S
  early error h s = record {
    error = error;
    world = s;
    inbuf = hand.inbuf;
    header = h;
    footer = zero_footer;
    sent = [];
  }

  -- The code from the read of the header on; `hdr` is the buffer's address.
  unfoldable pub read_header :
      ℕ → Bool → FormatHandler → Option ℕ → FileHeader → S → Outcome (Run S)
  read_header rounds lzip_format handler hdr h s =
      let r = input_stream handler.header_size s in
      let release = elzma_free rt hand.alloc_struct hdr in
      if not (r.status == 0) || not (length r.bytes == handler.header_size)
      then ok (early elzma_e_input_error h (release r.state))
      else do
        (status, h') ← handler.parse_header r.bytes h
        if not (status == 0) then ok (early elzma_e_corrupt_header h' (release r.state)) else do
          props ← decoder_props lzip_format r.bytes h'
          let (res, dec, s') = D.allocate hand.alloc_struct (D.init D.blank) props r.state
          decode_stream rounds lzip_format handler h' dec (release s')

  -- `junk` and `h` are what the uninitialised structs held.
  unfoldable pub elzma_decompress_run :
      ℕ → FormatHandler → FileHeader → FileFormat → S → Outcome (Run S)
  elzma_decompress_run rounds junk h format s = elim (select_handler format junk) [
    | none ↦ ok (early elzma_e_bad_params h s)
    | some handler ↦
        let (hdr, s') = elzma_alloc rt hand.alloc_struct handler.header_size s in
        elim hdr [
          | none ↦ fault null_pointer
          | some address ↦
              read_header rounds (is_lzip format) handler (some address) (handler.init_header h) s'
        ]
  ]
