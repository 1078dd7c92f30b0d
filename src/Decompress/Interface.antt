-- ===== src/Decompress/Interface.antt =====
-- src/easylzma/decompress.h: the operations of a decompressor, filled by src/decompress.c.
use easylzma.Common.{ℕ, List, Option, Outcome, ok, ◌>>=◌}
use easylzma.Format.{FileHeader, FormatHandler}
use easylzma.Api.{FileFormat, ReadCallback, WriteCallback, MallocCallback, FreeCallback}
use easylzma.Alloc.{Runtime}
use easylzma.Sdk.{Crc, Decoder}
use easylzma.Decompress.{
  DecompressHandle, elzma_decompress_alloc, elzma_decompress_set_allocation_callbacks,
  elzma_decompress_free,
}
use easylzma.Decompress.Run.{elzma_decompress_run}

-- The functions that decompress.h declares. A null pointer is `none`, and a pointer that is freed is an
-- address; a run also gives the bytes that were written, behind the state.
pub record DecompressApi (S : Type 0) : Type 1 where
  pub Handle : Type 0
  pub elzma_decompress_alloc : Handle
  pub elzma_decompress_set_allocation_callbacks :
      Option Handle → Option (MallocCallback S) → ℕ → Option (FreeCallback S) → ℕ → Option Handle
  pub elzma_decompress_free : Option (Option ℕ) → S → Outcome (Option ℕ × S)
  pub elzma_decompress_run :
      Handle → ReadCallback S → WriteCallback S → FileFormat → S → Outcome (ℕ × S × List ℕ)

module _ {S : Type 0} (rt : Runtime S) (crc : Crc) (D : Decoder S) (rounds : ℕ)
    (junk : FormatHandler) (h : FileHeader) where
  abbrev pub decompress_api : DecompressApi S
  decompress_api = record {
    Handle = DecompressHandle S;
    elzma_decompress_alloc = elzma_decompress_alloc;
    elzma_decompress_set_allocation_callbacks = elzma_decompress_set_allocation_callbacks;
    elzma_decompress_free = elzma_decompress_free rt;
    elzma_decompress_run = λ hand read write format s.
        elzma_decompress_run rt crc D hand read write rounds junk h format s >>= λ r.
        ok (r.error, r.world, r.sent);
  }
