-- ===== src/Decompress.antt =====
-- src/decompress.c: the decompressor, over the client's callbacks and the SDK's decoder.
pub mod Run
pub mod Rounds
pub mod Tracking
pub mod Termination
pub mod Returns
pub mod Balance
pub mod Invariant
pub mod FooterFrom
pub mod Integrity
pub mod Interface
pub mod Refused
pub mod OneBuffer
pub mod LastBuffer
pub mod LaidOut
pub mod Whole
pub mod Complete
pub mod LzipFile
pub mod CutFooter
pub mod InnerRounds
pub mod LzmaFile
use Prim.Native.Nat.{bit_xor}
use easylzma.Common.{
  ℕ, zero, suc, ◌+◌, ◌-◌, ◌*◌, ◌%◌, ◌^◌, Bool, true, false, ◌&&◌, ◌||◌, not, List, [], ◌∷◌, ◌++◌,
  Option, none, some, ltb, leb, ◌==◌, if◌then◌else◌, Outcome, ok, fault, null_pointer, assertion,
  out_of_fuel, ◌>>=◌, length, take, drop, replicate,
}
use easylzma.Format.{FileHeader, FileFooter, FormatHandler}
use easylzma.LzmaHeader.{initialize_lzma_format_handler}
use easylzma.LzipHeader.{initialize_lzip_format_handler}
use easylzma.Api.{
  FileFormat, lzip, lzma, other, ReadCallback, WriteCallback, MallocCallback, FreeCallback,
  elzma_e_ok, elzma_e_bad_params, elzma_e_input_error, elzma_e_output_error, elzma_e_corrupt_header,
  elzma_e_decompress_error, elzma_e_insufficient_input, elzma_e_crc32_mismatch,
  elzma_e_size_mismatch,
}
use easylzma.Alloc.{Runtime, AllocStruct, elzma_alloc, elzma_free, init_alloc_struct}
use easylzma.Sdk.{Crc, Decoder, LzmaStatus, not_specified, finished_with_mark, crc_init_val}

abbrev pub elzma_decompress_input_bufsize : ℕ
elzma_decompress_input_bufsize = 1024 * 64

abbrev pub elzma_decompress_output_bufsize : ℕ
elzma_decompress_output_bufsize = 1024 * 256

-- struct _elzma_decompress_handle. The output buffer holds nothing between two calls that the code
-- reads, so the model keeps what the decoder puts there as the list `output` of its result.
pub record DecompressHandle (S : Type 0) : Type 0 where
  pub inbuf : List ℕ
  pub alloc_struct : AllocStruct S

abbrev pub is_lzip : FileFormat → Bool
is_lzip lzip = true
is_lzip _ = false

abbrev pub is_finished : LzmaStatus → Bool
is_finished finished_with_mark = true
is_finished _ = false

module _ {S : Type 0} where
  -- `malloc` and `memset` of the handle, for a `malloc` that succeeds.
  unfoldable pub elzma_decompress_alloc : DecompressHandle S
  unfolding init_alloc_struct
  elzma_decompress_alloc = record {
    inbuf = replicate elzma_decompress_input_bufsize 0;
    alloc_struct = init_alloc_struct none 0 none 0;
  }

  unfoldable pub elzma_decompress_set_allocation_callbacks :
      Option (DecompressHandle S)
      → Option (MallocCallback S)
      → ℕ
      → Option (FreeCallback S)
      → ℕ
      → Option (DecompressHandle S)
  unfolding init_alloc_struct
  elzma_decompress_set_allocation_callbacks none malloc_func malloc_context free_func free_context =
      none
  elzma_decompress_set_allocation_callbacks (some hand) malloc_func malloc_context free_func
        free_context =
      some (record hand {
        alloc_struct = init_alloc_struct malloc_func malloc_context free_func free_context;
      })

-- The argument is what the pointer to the handle points to, as the handle's address, or `none` for a
-- null pointer, which the first test follows.
unfoldable pub elzma_decompress_free :
    {S : Type 0} → Runtime S → Option (Option ℕ) → S → Outcome (Option ℕ × S)
elzma_decompress_free rt none s = fault null_pointer
elzma_decompress_free rt (some none) s = ok (none, s)
elzma_decompress_free rt (some (some address)) s = ok (none, rt.free (some address) s)

-- The local variables of `elzma_decompress_run` that its loops change, with the state outside.
-- `sent` is no variable of the code: it keeps all bytes that were handed to the write callback.
pub record Progress (S DecState : Type 0) : Type 0 where
  pub world : S
  pub dec : DecState
  pub inbuf : List ℕ
  pub total_read : ℕ
  pub crc32 : ℕ
  pub footer : FileFooter
  pub sent : List ℕ

-- How the loop over one buffer ends: with an error, or with the variables that are read behind it.
pub data InnerEnd : Type 0 where
  failed : ℕ → InnerEnd
  left : ℕ → ℕ → LzmaStatus → InnerEnd

module _ {S : Type 0} (crc : Crc) (D : Decoder S) (output_stream : WriteCallback S) where
  -- One round behind a successful decoding: the checksum, the total and the call of the client.
  unfoldable pub deliver :
      Bool → List ℕ → D.DecState → Progress S D.DecState → Bool × Progress S D.DecState
  deliver lzip_format output dec p =
      let (wt, world) = output_stream output p.world in
      (
        wt == length output,
        record p {
          world = world;
          dec = dec;
          crc32 =
              if lzip_format && ltb 0 (length output) then crc.update p.crc32 output else p.crc32;
          total_read = (p.total_read + length output) % 2 ^ 64;
          sent = p.sent ++ output;
        },
      )

  -- `while (bufOff < srcLen) { … }`
  unfoldable pub inner_loop :
      Bool
      → ℕ
      → ℕ
      → ℕ
      → ℕ
      → ℕ
      → LzmaStatus
      → Progress S D.DecState
      → Outcome (InnerEnd × Progress S D.DecState)
  inner_loop lzip_format zero src_len dst_len buf_off amt stat p = fault out_of_fuel
  inner_loop lzip_format (suc fuel) src_len dst_len buf_off amt stat p =
      let r = D.decode_to_buf p.dec dst_len (take amt (drop buf_off p.inbuf)) in
      let (written, p') = deliver lzip_format r.output r.dec p in
      let buf_off' = buf_off + r.consumed in
      let again =
        inner_loop lzip_format fuel src_len (length r.output) buf_off' (src_len - buf_off') r.stat
          p' in
      if not (ltb buf_off src_len)
      then ok (left buf_off amt stat, p)
      else if not (r.status == 0)
      then ok (failed elzma_e_decompress_error, record p { dec = r.dec })
      else if not written
      then ok (failed elzma_e_output_error, p')
      else if ltb src_len buf_off'
      then fault assertion
      else if leb src_len buf_off'
      then ok (left buf_off' r.consumed r.stat, p')
      else if is_finished r.stat
      then ok (left buf_off' (src_len - buf_off') r.stat, p')
      else again
