-- ===== src/Decompress/Rounds.antt =====
-- One round of the outer loop of src/decompress.c that returns.
use easylzma.Common.{
  ℕ, suc, ◌≡◌, ◌≢◌, ◌<◌, sym, List, ◌⊎◌, inl, inr, Bool, arith, ◌==◌, ok, ◌>>=◌, >>=-eq-ok, length,
  Bool-cases, Outcome,
}
use easylzma.Format.{FileHeader, FormatHandler}
use easylzma.Api.{ReadResult, ReadCallback, WriteCallback}
use easylzma.Sdk.{Crc, Decoder, not_specified}
use easylzma.Decompress.{
  elzma_decompress_input_bufsize, elzma_decompress_output_bufsize, Progress, InnerEnd, inner_loop,
}
use easylzma.Decompress.Run.{filled, after_buffer, outer_loop}

module _ {S : Type 0} (crc : Crc) (D : Decoder S) (input_stream : ReadCallback S)
    (output_stream : WriteCallback S) (lz : Bool) (handler : FormatHandler) (h : FileHeader)
    (rounds fuel : ℕ) (p : Progress S D.DecState) where
  -- The round's inner loop.
  abbrev pub inner : Outcome (InnerEnd × Progress S D.DecState)
  inner =
      let src_len = length (input_stream elzma_decompress_input_bufsize p.world).bytes in
      inner_loop crc D output_stream lz rounds src_len elzma_decompress_output_bufsize 0 src_len
        not_specified (filled input_stream p)

  abbrev pub again : Progress S D.DecState → Outcome (ℕ × Progress S D.DecState)
  again = outer_loop crc D input_stream output_stream lz handler h rounds fuel

  -- A read that gives bytes.
  pub outer_loop_ran :
      (n : ℕ) (chunk : List ℕ) (x : InnerEnd × Progress S D.DecState)
      → let r = input_stream elzma_decompress_input_bufsize p.world in
        r.status ≡ 0
        → r.bytes ≡ chunk
        → 0 < length chunk
        → n ≡ length chunk
        → inner_loop crc D output_stream lz rounds n elzma_decompress_output_bufsize 0
            (length chunk)
            not_specified
            (filled input_stream p)
          ≡ ok x
        → outer_loop crc D input_stream output_stream lz handler h rounds (suc fuel) p
          ≡ after_buffer handler h
              (outer_loop crc D input_stream output_stream lz handler h rounds fuel)
              x.0
              x.1
  unfolding outer_loop
  outer_loop_ran n chunk x good e some_bytes same ran =
      let ran' = rw (same, sym e) at ran in rw ran' (ground arith)

  -- Either the read ends the loop, or the inner loop ran and the code behind it.
  pub outer_loop_round :
      {error : ℕ} {q : Progress S D.DecState}
      → outer_loop crc D input_stream output_stream lz handler h rounds (suc fuel) p ≡ ok (error, q)
      → ((error ≢ 0) × (q ≡ filled input_stream p))
        ⊎ ((e : InnerEnd) × (p' : Progress S D.DecState) × (inner ≡ ok (e, p'))
            × (after_buffer handler h again e p' ≡ ok (error, q)))
  unfolding outer_loop
  outer_loop_round {error} {q} e = elim (Bool-cases (r.status == 0)) [
    | inr bad ↦ inl (ground arith, ground arith)
    | inl good ↦ elim (Bool-cases (length r.bytes == 0)) [
      | inl empty ↦ inl (ground arith, ground arith)
      | inr more ↦
          let ran : (inner >>= λ x. after_buffer handler h again x.0 x.1) ≡ ok (error, q) =
            ground arith in
          let ((x, p'), i, a) = >>=-eq-ok inner (λ x. after_buffer handler h again x.0 x.1) ran in
          inr (x, p', i, a)
    ]
  ]
    where
      r : ReadResult S
      r = input_stream elzma_decompress_input_bufsize p.world
