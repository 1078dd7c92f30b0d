-- ===== src/Decompress/InnerRounds.antt =====
-- One round of the inner loop of src/decompress.c that does not fail.
use easylzma.Common.{
  ap, ℕ, suc, ◌+◌, ◌-◌, ◌≤◌, ◌<◌, ◌≡◌, ◌≢◌, refl, ◌∙◌, Bool, true, false, List, arith, ok, length,
  take, drop, leb, if◌then◌else◌,
}
use easylzma.Api.{WriteCallback}
use easylzma.Sdk.{
  Crc, Decoder, LzmaStatus, not_specified, not_finished, needs_more_input,
  maybe_finished_without_mark, finished_with_mark,
}
use easylzma.Decompress.{Progress, InnerEnd, left, is_finished, deliver, inner_loop}

pub unfinished : (stat : LzmaStatus) → stat ≢ finished_with_mark → is_finished stat ≡ false
unfinished finished_with_mark h = absurd (h refl)
unfinished not_specified h = refl
unfinished not_finished h = refl
unfinished needs_more_input h = refl
unfinished maybe_finished_without_mark h = refl

module _ {S : Type 0} (crc : Crc) (D : Decoder S) (output_stream : WriteCallback S)
    (lz : Bool) where
  -- A round in which nothing fails.
  pub inner_loop_step :
      (fuel src_len dst_len off amt : ℕ) (stat : LzmaStatus) (p : Progress S D.DecState)
      (given : List ℕ)
      → take amt (drop off p.inbuf) ≡ given
      → off < src_len
      → let r = D.decode_to_buf p.dec dst_len given in
        let d = deliver crc D output_stream lz r.output r.dec p in
        let off' = off + r.consumed in
        r.status ≡ 0
        → d.0 ≡ true
        → off' ≤ src_len
        → inner_loop crc D output_stream lz (suc fuel) src_len dst_len off amt stat p ≡ (
            if leb src_len off'
            then ok (left off' r.consumed r.stat, d.1)
            else if is_finished r.stat
            then ok (left off' (src_len - off') r.stat, d.1)
            else inner_loop crc D output_stream lz fuel src_len
                (length r.output)
                off'
                (src_len - off')
                r.stat
                d.1)
  unfolding inner_loop
  inner_loop_step fuel src_len dst_len off amt stat p given shown less good written fits =
      rw shown (ground arith)

  -- A round that takes up all of the buffer.
  pub inner_loop_all :
      (fuel src_len dst_len off amt : ℕ) (stat : LzmaStatus) (p : Progress S D.DecState)
      (given : List ℕ)
      → take amt (drop off p.inbuf) ≡ given
      → off < src_len
      → let r = D.decode_to_buf p.dec dst_len given in
        let d = deliver crc D output_stream lz r.output r.dec p in
        r.status ≡ 0
        → d.0 ≡ true
        → off + r.consumed ≡ src_len
        → inner_loop crc D output_stream lz (suc fuel) src_len dst_len off amt stat p
          ≡ ok (left src_len r.consumed r.stat, d.1)
  inner_loop_all fuel src_len dst_len off amt stat p given shown less good written all =
      let r = D.decode_to_buf p.dec dst_len given in
      let d = deliver crc D output_stream lz r.output r.dec p in
      let above : leb src_len (off + r.consumed) ≡ true = ground arith in
      inner_loop_step fuel src_len dst_len off amt stat p given shown less good written
        (omega arith)
      ∙ rw above (ap (λ n. ok (left n r.consumed r.stat, d.1)) all)

  -- A round that leaves some of the buffer, without the end mark.
  pub inner_loop_again :
      (fuel src_len dst_len off amt off' amt' : ℕ) (stat : LzmaStatus) (p : Progress S D.DecState)
      (given : List ℕ) (x : InnerEnd × Progress S D.DecState)
      → take amt (drop off p.inbuf) ≡ given
      → let r = D.decode_to_buf p.dec dst_len given in
        let d = deliver crc D output_stream lz r.output r.dec p in
        r.status ≡ 0
        → d.0 ≡ true
        → r.stat ≢ finished_with_mark
        → off + r.consumed ≡ off'
        → off' + amt' ≡ src_len
        → 0 < amt'
        → inner_loop crc D output_stream lz fuel
            (off' + amt')
            (length r.output)
            off'
            amt'
            r.stat
            d.1
          ≡ ok x
        → inner_loop crc D output_stream lz (suc fuel) src_len dst_len off amt stat p ≡ ok x
  inner_loop_again fuel src_len dst_len off amt off' amt' stat p given x shown good written unmarked
        place end some_left ran =
      let r = D.decode_to_buf p.dec dst_len given in
      let below : leb src_len (off + r.consumed) ≡ false = ground arith in
      let quiet = unfinished r.stat unmarked in
      let rest : src_len - off' ≡ amt' = omega arith in
      inner_loop_step fuel src_len dst_len off amt stat p given shown (omega arith) good written
        (omega arith)
      ∙ rw (below, quiet, place, rest) (rw end at ran)
