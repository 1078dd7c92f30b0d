-- ===== src/Compress/Interface.antt =====
-- src/easylzma/compress.h: the operations of a compressor, filled by src/compress.c.
use easylzma.Common.{
  ℕ, ◌≡◌, refl, sym, ◌∙◌, ◌⊎◌, inl, inr, List, Option, none, some, arith, Outcome, ok, ◌>>=◌,
  >>=-eq-ok,
}
use easylzma.Format.{FileHeader}
use easylzma.Api.{
  FileFormat, ReadCallback, WriteCallback, ProgressCallback, MallocCallback, FreeCallback,
}
use easylzma.Alloc.{Runtime}
use easylzma.Sdk.{Crc, Encoder}
use easylzma.Compress.{
  CompressHandle, elzma_compress_alloc, elzma_compress_set_allocation_callbacks,
  elzma_compress_free, elzma_compress_config,
}
use easylzma.Compress.Handle.{elzma_compress_run-hand}
use easylzma.Compress.Run.{elzma_compress_run}
use easylzma.DictSize.{elzma_get_dict_size}

-- The functions that compress.h declares. A null pointer is `none`; a run also gives the bytes that
-- were written, behind the state.
pub record CompressApi (S : Type 0) : Type 1 where
  pub Handle : Type 0
  pub elzma_compress_alloc : Handle
  pub elzma_compress_set_allocation_callbacks :
      Option Handle → Option (MallocCallback S) → ℕ → Option (FreeCallback S) → ℕ → Option Handle
  pub elzma_compress_free : Option (Option Handle) → S → Outcome (Option Handle × S)
  pub elzma_compress_config : Handle → ℕ → ℕ → ℕ → ℕ → ℕ → FileFormat → ℕ → ℕ × Handle
  pub elzma_compress_run :
      Option Handle
      → Option (ReadCallback S)
      → WriteCallback S
      → Option (ProgressCallback S)
      → S
      → Outcome (ℕ × Option Handle × S × List ℕ)
  pub elzma_get_dict_size : ℕ → Outcome ℕ

module _ {S : Type 0} (crc : Crc) (rt : Runtime S) (E : Encoder S) (h : FileHeader) where
  abbrev pub compress_api : CompressApi S
  compress_api = record {
    Handle = CompressHandle S E.Enc;
    elzma_compress_alloc = elzma_compress_alloc;
    elzma_compress_set_allocation_callbacks = elzma_compress_set_allocation_callbacks;
    elzma_compress_free = elzma_compress_free E;
    elzma_compress_config = elzma_compress_config;
    elzma_compress_run = λ hand read write report s.
        elzma_compress_run crc rt E write report h hand read s >>= λ r.
        ok (r.0, r.1, r.2.world, r.2.sent);
    elzma_get_dict_size = elzma_get_dict_size;
  }

  -- For any handle, callbacks and settings: when a run returns, with whatever result, and the handle
  -- is then freed, then the free destroys exactly the encoder that the run created, with the properties
  -- of the handle set and with the handle's allocation struct, or it changes nothing when the run could
  -- not create one; and the caller's pointer is null behind it.
  pub compress_api-frees_encoder :
      (hand : CompressHandle S E.Enc) (read : ReadCallback S) (write : WriteCallback S)
      (report : Option (ProgressCallback S)) (s : S) {error : ℕ}
      {hand' : Option (CompressHandle S E.Enc)} {s' : S} {sent : List ℕ}
      → compress_api.elzma_compress_run (some hand) (some read) write report s
        ≡ ok (error, hand', s', sent)
      → (((E.create hand.alloc_struct s).0 ≡ none)
          × (compress_api.elzma_compress_free (some hand') s' ≡ ok (none, s')))
        ⊎ ((enc : E.Enc) × ((E.create hand.alloc_struct s).0 ≡ some enc)
            × (compress_api.elzma_compress_free (some hand') s'
                ≡ ok (none, E.destroy hand.alloc_struct (E.set_props enc hand.props).1 s')))
  unfolding elzma_compress_free
  compress_api-frees_encoder hand read write report s {error} {hand'} {s'} {sent} e =
      let m = elzma_compress_run crc rt E write report h (some hand) (some read) s in
      let (r, ran, last) = >>=-eq-ok m _ e in
      let same : r.1 ≡ hand' = ground arith in
      elim (elzma_compress_run-hand crc rt E write read report h hand s ran) [
        | inl (null, left) ↦ inl (null, rw (sym same ∙ left) refl)
        | inr (enc, made, left) ↦ inr (enc, made, rw (sym same ∙ left) refl)
      ]
