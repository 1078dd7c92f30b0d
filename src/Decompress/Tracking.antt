-- ===== src/Decompress/Tracking.antt =====
-- What the loops of src/decompress.c keep: the running checksum and total are those of the bytes
-- that were handed to the write callback.
use mathlib.Core.List.{append-nil}
use easylzma.Common.{
  ℕ, zero, suc, ◌+◌, ◌-◌, ◌%◌, ◌^◌, ◌≡◌, Bool, true, List, [], ◌∷◌, ◌++◌, arith, ltb, ok, length,
  length-append, if◌then◌else◌, Outcome, ◌&&◌, inl, inr, take, drop,
}
use easylzma.Format.{FileHeader, FormatHandler}
use easylzma.Api.{ReadCallback, WriteCallback}
use easylzma.Sdk.{Crc, IsRunningCrc, Decoder, LzmaStatus, crc_init_val}
use easylzma.Decompress.{Progress, InnerEnd, failed, left, deliver, inner_loop}
use easylzma.Decompress.Run.{filled, after_buffer, outer_loop}
use easylzma.Decompress.Rounds.{again, outer_loop_round}

module _ {S : Type 0} (crc : Crc) (D : Decoder S) (output_stream : WriteCallback S) (lz : Bool)
    (law : lz ≡ true → IsRunningCrc crc) where
  pub record Tracks (p : Progress S D.DecState) : Type 0 where
    pub total : p.total_read ≡ length p.sent % 2 ^ 64
    pub checksum : lz ≡ true → p.crc32 ≡ crc.update crc_init_val p.sent

  checksum_step :
      (output : List ℕ) (p : Progress S D.DecState)
      → p.crc32 ≡ crc.update crc_init_val p.sent
      → lz ≡ true
      → (if lz && ltb 0 (length output) then crc.update p.crc32 output else p.crc32)
        ≡ crc.update crc_init_val (p.sent ++ output)
  checksum_step [] p h on = rw (on, append-nil) h
  checksum_step (x ∷ output) p h on =
      rw (on, h) (ground (arith, (law on).update-append crc_init_val p.sent (x ∷ output)))

  deliver-Tracks :
      (output : List ℕ) (dec : D.DecState) (p : Progress S D.DecState)
      → Tracks p
      → Tracks (deliver crc D output_stream lz output dec p).1
  unfolding deliver
  deliver-Tracks output dec p t = record {
    total = omega (arith, length-append p.sent output, t.total);
    checksum = λ on. checksum_step output p (t.checksum on) on;
  }

  inner_loop-Tracks :
      (fuel src_len dst_len buf_off amt : ℕ) (stat : LzmaStatus) (p : Progress S D.DecState)
      {e : InnerEnd} {q : Progress S D.DecState}
      → Tracks p
      → inner_loop crc D output_stream lz fuel src_len dst_len buf_off amt stat p ≡ ok (e, q)
      → Tracks q
  unfolding inner_loop
  inner_loop-Tracks zero src_len dst_len buf_off amt stat p t e = cc
  inner_loop-Tracks (suc fuel) src_len dst_len buf_off amt stat p {e = e'} {q} t e =
      let r = D.decode_to_buf p.dec dst_len (take amt (drop buf_off p.inbuf)) in
      let d = deliver crc D output_stream lz r.output r.dec p in
      let t' = deliver-Tracks r.output r.dec p t in
      let off = buf_off + r.consumed in
      ground (
        arith,
        inner_loop-Tracks fuel src_len (length r.output) off (src_len - off) r.stat d.1 {e = e'}
            {q = q} t',
      )

  after_buffer-Tracks :
      (handler : FormatHandler) (h : FileHeader)
      (again : Progress S D.DecState → Outcome (ℕ × Progress S D.DecState)) (e : InnerEnd)
      (p : Progress S D.DecState) {error : ℕ} {q : Progress S D.DecState}
      → Tracks p
      → (again p ≡ ok (error, q) → Tracks q)
      → after_buffer handler h again e p ≡ ok (error, q)
      → Tracks q
  unfolding after_buffer
  after_buffer-Tracks handler h again (failed error) p t next e = ground arith
  after_buffer-Tracks handler h again (left buf_off amt stat) p t next e = ground arith

  module _ (input_stream : ReadCallback S) (handler : FormatHandler) (h : FileHeader)
      (rounds : ℕ) where
    pub outer_loop-Tracks :
        (fuel : ℕ) (p : Progress S D.DecState) {error : ℕ} {q : Progress S D.DecState}
        → Tracks p
        → outer_loop crc D input_stream output_stream lz handler h rounds fuel p ≡ ok (error, q)
        → Tracks q
    outer_loop-Tracks zero p t e = unfold outer_loop in cc
    outer_loop-Tracks (suc fuel) p {error} {q} t e =
        elim (outer_loop_round crc D input_stream output_stream lz handler h rounds fuel p e) [
          | inl (bad, same) ↦ rw same (record { total = t.total; checksum = t.checksum })
          | inr (x, p', ran, next) ↦
              let start : Tracks (filled input_stream p) = record {
                total = t.total;
                checksum = t.checksum;
              } in
              let t' = inner_loop-Tracks rounds _ _ _ _ _ (filled input_stream p) start ran in
              after_buffer-Tracks handler h
                (again crc D input_stream output_stream lz handler h rounds fuel p) x p' t'
                (outer_loop-Tracks fuel p' t') next
        ]
