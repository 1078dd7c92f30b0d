-- ===== src/Compress/Streams.antt =====
-- The stream hooks of src/compress.c, which pass the encoder's calls on to the client.
use easylzma.Common.{
  ℕ, Bool, ◌&&◌, List, ◌++◌, Option, none, some, ltb, ◌==◌, if◌then◌else◌, length,
}
use easylzma.Api.{ReadCallback, WriteCallback, ProgressCallback}
use easylzma.Alloc.{Runtime, AllocStruct, elzma_alloc, elzma_free}
use easylzma.Sdk.{Crc, Script, read, write, progress, allocate, release, finish, sz_ok}

-- The state outside with the checksum of struct elzmaInStream. `taken` and `sent` are no variables
-- of the code: they keep the bytes of all successful reads, and all bytes that were handed to the
-- write callback.
pub record Flow (S : Type 0) : Type 0 where
  pub world : S
  pub crc32 : ℕ
  pub taken : List ℕ
  pub sent : List ℕ

module _ {S : Type 0} where
  unfoldable pub elzma_write_func : WriteCallback S → List ℕ → Flow S → ℕ × Flow S
  elzma_write_func output_stream buf f =
      let (wt, world) = output_stream buf f.world in
      (wt, record f { world = world; sent = f.sent ++ buf })

  unfoldable pub elzma_progress : Option (ProgressCallback S) → ℕ → ℕ → ℕ → Flow S → ℕ × Flow S
  elzma_progress none uncompressed_size in_size out_size f = (sz_ok, f)
  elzma_progress (some callback) uncompressed_size in_size out_size f =
      (sz_ok, record f { world = callback in_size uncompressed_size f.world })

module _ {S : Type 0} (crc : Crc) (input_stream : ReadCallback S) where
  -- The result and the bytes that the encoder finds in its buffer. A failed read leaves the count
  -- that the client set, which the encoder does not use.
  unfoldable pub elzma_read_func : Bool → ℕ → Flow S → ℕ × List ℕ × Flow S
  elzma_read_func calculate_crc size f =
      let r = input_stream size f.world in
      let good = r.status == 0 in
      (
        r.status,
        r.bytes,
        record f {
          world = r.state;
          crc32 =
              if good && ltb 0 (length r.bytes) && calculate_crc
              then crc.update f.crc32 r.bytes
              else f.crc32;
          taken = if good then f.taken ++ r.bytes else f.taken;
        },
      )

  module _ (output_stream : WriteCallback S) (rt : Runtime S) (alloc : AllocStruct S)
      (callback : Option (ProgressCallback S)) (uncompressed_size : ℕ) (calculate_crc : Bool) where
    -- `LzmaEnc_Encode` with these hooks.
    unfoldable pub run_script : Script → Flow S → ℕ × Flow S
    run_script (read size next) f =
        let (rv, bytes, f') = elzma_read_func calculate_crc size f in run_script (next rv bytes) f'
    run_script (write buf next) f =
        let (wt, f') = elzma_write_func output_stream buf f in run_script (next wt) f'
    run_script (progress in_size out_size next) f =
        let (res, f') = elzma_progress callback uncompressed_size in_size out_size f in
        run_script (next res) f'
    run_script (allocate size next) f =
        let (address, s) = elzma_alloc rt alloc size f.world in
        run_script (next address) (record f { world = s })
    run_script (release address next) f =
        run_script next (record f { world = elzma_free rt alloc address f.world })
    run_script (finish res) f = (res, f)
