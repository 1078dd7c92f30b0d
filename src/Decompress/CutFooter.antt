-- ===== src/Decompress/CutFooter.antt =====
-- `elzma_decompress_run` of src/decompress.c on an lzip file whose footer two buffers share.
use Prim.Native.Nat.{bit_xor}
use easylzma.Common.{
  ℕ, ◌+◌, ◌-◌, ◌%◌, ◌^◌, ◌<◌, ◌≡◌, ◌≢◌, refl, sym, ap, ◌∙◌, List, [], ◌∷◌, ◌++◌, arith, ok, length,
  length-take, take, drop,
}
use easylzma.Common.Strings.{take-drop}
use easylzma.Common.Words.{IsByte}
use easylzma.Common.Words.LittleEndian.{le_bytes}
use easylzma.Format.{FileHeader, FileFooter, FormatHandler}
use easylzma.LzipHeader.{elzma_lzip_footer_size, magic, initialize_lzip_format_handler}
use easylzma.Api.{lzip, ReadCallback, WriteCallback, elzma_e_crc32_mismatch}
use easylzma.Alloc.{Runtime}
use easylzma.Sdk.{Crc, IsRunningCrc, Decoder}
use easylzma.Sdk.Coding.{StreamDecoder}
use easylzma.Decompress.{DecompressHandle, elzma_decompress_input_bufsize}
use easylzma.Decompress.Run.{Run, zero_footer, verdict, read_footer, elzma_decompress_run}
use easylzma.Api.Clients.{HasInput}
use easylzma.Decompress.LaidOut.{IsLaidOut}
use easylzma.Decompress.Complete.{HasMemory, Decodes}
use easylzma.Decompress.LzipFile.{lzip_props, footer_of, digest, lzip_run}

-- With less than a footer left, nothing is read.
read_footer_short :
    (junk : FormatHandler) (amt : ℕ) (buf : List ℕ) (f : FileFooter)
    → amt < elzma_lzip_footer_size
    → read_footer (initialize_lzip_format_handler junk) amt buf f ≡ ok f
unfolding read_footer initialize_lzip_format_handler
read_footer_short junk amt buf f less = ground arith

module _ {S : Type 0} (rt : Runtime S) (crc : Crc) (law : IsRunningCrc crc) (D : Decoder S)
    (streams : StreamDecoder D) (hand : DecompressHandle S) (input_stream : ReadCallback S)
    (output_stream : WriteCallback S) (client : HasInput input_stream output_stream)
    (memory : HasMemory rt D hand client.unread) where
  -- Let the checksum be a running one. Let the client read from a list of bytes and take all that is
  -- written, let memory be there, and let managing it not touch the client's input. Let the decoder
  -- go through coded bodies as `StreamDecoder` says. Let the input be an lzip file: the magic, a
  -- version, a byte below 256 for the dictionary size, a body, and a footer, where a decoder that is
  -- allocated with that size expects the body for a text, and the footer holds the text's digest,
  -- which is not 0, and its length. Let the last buffer of 64 KB in which the body ends have room for
  -- at least one byte and at most eleven bytes behind the body, so that the footer begins in that
  -- buffer and ends in the next. With more rounds than the body and the text have bytes, the run returns
  -- ELZMA_E_CRC32_MISMATCH, although the bytes that were handed to the write callback are the text.
  pub lzip_file_cut_by_buffer :
      (rounds : ℕ) (junk : FormatHandler) (junk_header : FileHeader) (version k : ℕ)
      (body text : List ℕ) (s : S)
      → IsByte k
      → digest crc text ≢ 0
      → elzma_decompress_input_bufsize
        < length body % elzma_decompress_input_bufsize + elzma_lzip_footer_size
      → Decodes D streams hand (lzip_props (2 ^ (k % 32))) body text
      → length body < rounds
      → length text < rounds
      → client.unread s
        ≡ (magic ++ (version ∷ k ∷ [])) ++ (body ++ footer_of (digest crc text) (length text))
      → (r : Run S) × (elzma_decompress_run rt crc D hand input_stream output_stream rounds junk
            junk_header lzip s
          ≡ ok r)
        × (r.error ≡ elzma_e_crc32_mismatch)
        × (r.sent ≡ text)
  unfolding verdict initialize_lzip_format_handler le_bytes
  lzip_file_cut_by_buffer rounds junk junk_header version k body text s byte some_sum cut coded
        enough_body enough_text unread =
      let sum = digest crc text in
      let all = footer_of sum (length text) in
      let n = elzma_decompress_input_bufsize - length body % elzma_decompress_input_bufsize in
      let sized = length-take n all (omega arith) in
      let laid : IsLaidOut body (take n all) (drop n all) = record {
        ends_inside = λ some_there. (omega arith, omega arith);
        fills = λ some_there. (omega arith, omega arith);
      } in
      let (f, total, running, r, ran, code, through, found, counted, summed) =
        lzip_run rt crc law D streams hand input_stream output_stream client memory rounds junk
          junk_header version k body text (take n all) (drop n all) s byte (λ f'. f' ≡ zero_footer)
          (λ amt after counted. (
            zero_footer,
            read_footer_short junk amt (take n all ++ after) zero_footer
                (omega (arith, counted (omega arith))),
            refl,
          ))
          laid coded enough_body enough_text (rw (take-drop n all) unread) in
      let same_sum : f.crc32 ≡ 0 = ap (λ (f : FileFooter). f.crc32) found in
      let other : bit_xor running 0xFFFFFFFF ≢ 0 =
        λ e. some_sum (ap (λ c. bit_xor c 0xFFFFFFFF) (sym summed) ∙ e) in
      (r, ran, code ∙ ground (arith, same_sum, other), through)
