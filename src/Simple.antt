-- ===== src/Simple.antt =====
-- test/simple.c: compression and decompression from memory to memory.
pub mod Streams
pub mod Ends
pub mod Written
pub mod Client
pub mod Returns
pub mod RoundTrip
pub mod LzmaRoundTrip
use easylzma.Common.{
  ℕ, ◌+◌, ◌^◌, Bool, true, false, not, List, [], ◌++◌, Option, none, some, ltb, ◌==◌, if◌then◌else◌,
  Outcome, ok, ◌>>=◌, length, take, drop,
}
use easylzma.Format.{FileHeader, FormatHandler}
use easylzma.Api.{FileFormat, ReadCallback, WriteCallback, elzma_e_ok}
use easylzma.Alloc.{Runtime}
use easylzma.Sdk.{Crc, Encoder, Decoder}
use easylzma.Compress.{elzma_compress_alloc, elzma_compress_config, elzma_compress_free}
use easylzma.Compress.Run.{elzma_compress_run}
use easylzma.Decompress.{elzma_decompress_alloc, elzma_decompress_free}
use easylzma.Decompress.Run.{elzma_decompress_run}
use easylzma.Elzma.Compressing.{elzma_lc_default, elzma_lp_default, elzma_pb_default}

-- struct dataStream, with the state outside. The lengths are those of the lists, and `out_block` is
-- the address in `outData`.
pub record DataStream (S : Type 0) : Type 0 where
  pub in_data : List ℕ
  pub out_data : List ℕ
  pub out_block : Option ℕ
  pub world : S

abbrev pub data_stream : {S : Type 0} → List ℕ → S → DataStream S
data_stream in_data s = record { in_data = in_data; out_data = []; out_block = none; world = s }

unfoldable pub input_callback : {S : Type 0} → ReadCallback (DataStream S)
input_callback size ds =
    let rd = if ltb (length ds.in_data) size then length ds.in_data else size in
    record {
      status = 0;
      bytes = take rd ds.in_data;
      state = if ltb 0 rd then record ds { in_data = drop rd ds.in_data } else ds;
    }

-- What the caller gets: the code, and the buffer with its length if they are set.
pub record Answer (S : Type 0) : Type 0 where
  pub rc : ℕ
  pub out : Option (List ℕ)
  pub streams : DataStream S

-- `realloc` of a block to a size: its address and the state. It does not fail here, since the code
-- does not look at its result.
module _ {S : Type 0} (realloc : Option ℕ → ℕ → S → ℕ × S) where
  unfoldable pub output_callback : WriteCallback (DataStream S)
  output_callback buf ds =
      let (block, world) = realloc ds.out_block (length ds.out_data + length buf) ds.world in
      (
        length buf,
        if ltb 0 (length buf)
            then record ds { out_data = ds.out_data ++ buf; out_block = some block; world = world }
            else ds,
      )

  module _ (rt : Runtime (DataStream S)) (crc : Crc) where
    -- `if (ds.outData != NULL) free(ds.outData);`
    unfoldable pub free_out : DataStream S → DataStream S
    free_out ds = elim ds.out_block [ none ↦ ds | some block ↦ rt.free (some block) ds ]

    module _ (E : Encoder (DataStream S)) (h : FileHeader) where
      -- The handle is freed behind an error only.
      unfoldable pub simple_compress : FileFormat → List ℕ → S → Outcome (Answer S)
      simple_compress format in_data s =
          let ds = data_stream in_data s in
          let (configured, hand) =
            elzma_compress_config (elzma_compress_alloc {S = DataStream S} {Enc = E.Enc})
              elzma_lc_default elzma_lp_default elzma_pb_default 5 (2 ^ 20) format
              (length in_data) in
          if not (configured == elzma_e_ok)
          then (elzma_compress_free E (some (some hand)) ds >>= λ freed.
              ok (record { rc = configured; out = none; streams = freed.1 }))
          else (elzma_compress_run crc rt E output_callback none h (some hand) (some input_callback)
                ds
              >>= λ r.
                  if not (r.0 == elzma_e_ok)
                  then (elzma_compress_free E (some r.1) (free_out r.2.world) >>= λ freed.
                      ok (record { rc = r.0; out = none; streams = freed.1 }))
                  else ok (record { rc = r.0; out = some r.2.world.out_data; streams = r.2.world }))

    -- `address` is where the handle stands; it is freed behind an error only.
    unfoldable pub simple_decompress :
        (D : Decoder (DataStream S)) (rounds : ℕ) (junk : FormatHandler) (h : FileHeader)
        (address : ℕ)
        → FileFormat
        → List ℕ
        → S
        → Outcome (Answer S)
    simple_decompress D rounds junk h address format in_data s =
        elzma_decompress_run rt crc D elzma_decompress_alloc input_callback output_callback rounds
          junk h format (data_stream in_data s)
        >>= λ r.
            if not (r.error == elzma_e_ok)
            then (elzma_decompress_free rt (some (some address)) (free_out r.world) >>= λ freed.
                ok (record { rc = r.error; out = none; streams = freed.1 }))
            else ok (record { rc = r.error; out = some r.world.out_data; streams = r.world })
