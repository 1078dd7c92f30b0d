-- ===== src/Decompress/Termination.antt =====
-- The loops of src/decompress.c end: with enough rounds, a run does not run out of them.
use easylzma.Common.{
  ℕ, zero, suc, ◌+◌, ◌-◌, ◌≤◌, ◌<◌, ◌≡◌, ◌≢◌, ◌∙◌, ap, Bool, false, List, arith, ok, fault,
  out_of_fuel, Outcome, ◌>>=◌, >>=-avoids, ok-avoids, ◌==◌, Bool-cases, inl, inr, length, take,
  drop, length-append, length-drop, length-take, drop-drop, drop-take,
}
use easylzma.Format.{FileHeader, FileFooter, FormatHandler}
use easylzma.Api.{ReadCallback, WriteCallback}
use easylzma.Sdk.{
  Crc, Decoder, Advances, LzmaStatus, not_specified, not_finished, needs_more_input,
  maybe_finished_without_mark, finished_with_mark,
}
use easylzma.Decompress.{
  Progress, InnerEnd, failed, left, is_finished, deliver, inner_loop,
  elzma_decompress_input_bufsize, elzma_decompress_output_bufsize,
}
use easylzma.Decompress.Run.{filled, read_footer, after_buffer, outer_loop}

-- A client whose input comes to an end: each read that gives something lowers `remaining`, no read
-- gives more than it was asked for, and writing does not add input.
pub record IsFinite {S : Type 0} (input_stream : ReadCallback S) (output_stream : WriteCallback S)
    : Type 0 where
  pub remaining : S → ℕ
  pub lowers :
      (size : ℕ) (s : S)
      → let r = input_stream size s in
        r.status ≡ 0 → 0 < length r.bytes → remaining r.state < remaining s
  pub fits :
      (size : ℕ) (s : S) → let r = input_stream size s in r.status ≡ 0 → length r.bytes ≤ size
  pub keeps : (bytes : List ℕ) (s : S) → remaining (output_stream bytes s).1 ≤ remaining s

next_input :
    (src_len off consumed : ℕ) (buf : List ℕ)
    → drop consumed (take (src_len - off) (drop off buf))
      ≡ take (src_len - (off + consumed)) (drop (off + consumed) buf)
next_input src_len off consumed buf =
    drop-take consumed (src_len - off) (drop off buf)
    ∙ ap (take (src_len - off - consumed)) (drop-drop off consumed buf)
    ∙ ap (λ n. take n (drop (off + consumed) buf)) (omega arith)

unmarked : (stat : LzmaStatus) → is_finished stat ≡ false → stat ≢ finished_with_mark
unmarked finished_with_mark h e = cc
unmarked not_specified h e = cc
unmarked not_finished h e = cc
unmarked needs_more_input h e = cc
unmarked maybe_finished_without_mark h e = cc

module _ {S : Type 0} (crc : Crc) (D : Decoder S) (law : Advances D)
    (output_stream : WriteCallback S) (lz : Bool) where
  inner_loop-ends :
      (fuel src_len dst_len buf_off : ℕ) (stat : LzmaStatus) (p : Progress S D.DecState)
      → src_len ≤ length p.inbuf
      → 0 < dst_len
      → law.pending p.dec (take (src_len - buf_off) (drop buf_off p.inbuf)) < fuel
      → inner_loop crc D output_stream lz fuel src_len dst_len buf_off (src_len - buf_off) stat p
        ≢ fault out_of_fuel
  unfolding inner_loop deliver
  inner_loop-ends zero src_len dst_len buf_off stat p whole room enough e = absurd (omega arith)
  inner_loop-ends (suc fuel) src_len dst_len buf_off stat p whole room enough e =
      let src = take (src_len - buf_off) (drop buf_off p.inbuf) in
      let r = D.decode_to_buf p.dec dst_len src in
      let d = deliver crc D output_stream lz r.output r.dec p in
      let sized : length src ≡ src_len - buf_off =
        length-take (src_len - buf_off) (drop buf_off p.inbuf)
          (omega (arith, length-drop buf_off p.inbuf)) in
      let rest = next_input src_len buf_off r.consumed p.inbuf in
      let again : r.status ≡ 0
          → is_finished r.stat ≡ false
          → buf_off + r.consumed < src_len
          → inner_loop crc D output_stream lz fuel src_len (length r.output) (buf_off + r.consumed)
              (src_len - (buf_off + r.consumed)) r.stat d.1
            ≢ fault out_of_fuel =
        λ good unfinished more.
          let full = law.fills p.dec dst_len src good (unmarked r.stat unfinished) (omega arith) in
          let drained = rw rest at (law.drains p.dec dst_len src good) in
          inner_loop-ends fuel src_len (length r.output) (buf_off + r.consumed) r.stat d.1 whole
            (omega arith) (omega arith) in
      ground arith

  inner_loop-keeps :
      (measure : S → ℕ) (n : ℕ)
      (kept : (bytes : List ℕ) (s : S) → measure (output_stream bytes s).1 ≤ measure s)
      (fuel src_len dst_len buf_off amt : ℕ) (stat : LzmaStatus) (p : Progress S D.DecState)
      {e : InnerEnd} {q : Progress S D.DecState}
      → measure p.world ≤ n
      → inner_loop crc D output_stream lz fuel src_len dst_len buf_off amt stat p ≡ ok (e, q)
      → measure q.world ≤ n
  unfolding inner_loop deliver
  inner_loop-keeps measure n kept zero src_len dst_len buf_off amt stat p small ran = cc
  inner_loop-keeps measure n kept (suc fuel) src_len dst_len buf_off amt stat p {e} {q} small ran =
      let r = D.decode_to_buf p.dec dst_len (take amt (drop buf_off p.inbuf)) in
      let d = deliver crc D output_stream lz r.output r.dec p in
      let off = buf_off + r.consumed in
      let step = kept r.output p.world in
      ground (
        arith,
        inner_loop-keeps measure n kept fuel src_len (length r.output) off (src_len - off) r.stat
            d.1 {e = e} {q = q},
      )

  module _ (input_stream : ReadCallback S) (finite : IsFinite input_stream output_stream)
      (handler : FormatHandler)
      (footer : (amt : ℕ) (buf : List ℕ) (f : FileFooter)
        → read_footer handler amt buf f ≢ fault out_of_fuel)
      (h : FileHeader) (rounds : ℕ)
      (enough : (dec : D.DecState) (src : List ℕ)
        → length src ≤ elzma_decompress_input_bufsize
        → law.pending dec src < rounds) where
    after_buffer-ends :
        (again : Progress S D.DecState → Outcome (ℕ × Progress S D.DecState)) (e : InnerEnd)
        (p : Progress S D.DecState)
        → again p ≢ fault out_of_fuel
        → after_buffer handler h again e p ≢ fault out_of_fuel
    unfolding after_buffer
    after_buffer-ends again (failed error) p next e = cc
    after_buffer-ends again (left off amt stat) p next e =
        let m = read_footer handler amt (drop off p.inbuf) p.footer in
        let store : FileFooter → Outcome (ℕ × Progress S D.DecState) =
          λ f. ok (0, record p { footer = f }) in
        let read : m >>= store ≢ fault out_of_fuel =
          >>=-avoids out_of_fuel m store (footer amt (drop off p.inbuf) p.footer)
            (λ f found. ok-avoids {A = ℕ × Progress S D.DecState} (0, record p { footer = f })) in
        ground arith

    one_buffer-ends :
        (n : ℕ) (stat : LzmaStatus) (p : Progress S D.DecState)
        → n ≤ length p.inbuf
        → n ≤ elzma_decompress_input_bufsize
        → inner_loop crc D output_stream lz rounds n elzma_decompress_output_bufsize 0 n stat p
          ≢ fault out_of_fuel
    one_buffer-ends n stat p whole fits =
        let all : n - 0 ≡ n = omega arith in
        let sized = length-take (n - 0) (drop 0 p.inbuf) (omega arith) in
        rw all at (
          inner_loop-ends rounds n elzma_decompress_output_bufsize 0 stat p whole (omega arith)
            (enough p.dec (take (n - 0) (drop 0 p.inbuf)) (omega arith)))

    pub outer_loop-ends :
        (fuel : ℕ) (p : Progress S D.DecState)
        → finite.remaining p.world < fuel
        → outer_loop crc D input_stream output_stream lz handler h rounds fuel p ≢ fault out_of_fuel
    unfolding outer_loop
    outer_loop-ends zero p less e = absurd (omega arith)
    outer_loop-ends (suc fuel) p less e =
        let r = input_stream elzma_decompress_input_bufsize p.world in
        let p' : Progress S D.DecState = filled input_stream p in
        let again = outer_loop crc D input_stream output_stream lz handler h rounds fuel in
        let m =
          inner_loop crc D output_stream lz rounds (length r.bytes) elzma_decompress_output_bufsize
            0 (length r.bytes) not_specified p' in
        let round : m ≢ fault out_of_fuel
            → ((x : InnerEnd × Progress S D.DecState)
                → m ≡ ok x
                → finite.remaining x.1.world < fuel)
            → (m >>= λ e. after_buffer handler h again e.0 e.1) ≢ fault out_of_fuel =
          λ ends less'.
            >>=-avoids out_of_fuel m (λ e. after_buffer handler h again e.0 e.1) ends
              (λ x ran. after_buffer-ends again x.0 x.1 (outer_loop-ends fuel x.1 (less' x ran))) in
        elim (Bool-cases (r.status == 0)) [
          | inr bad ↦ ground arith
          | inl good ↦ elim (Bool-cases (length r.bytes == 0)) [
            | inl empty ↦ ground arith
            | inr more ↦
                let ok_read : r.status ≡ 0 = ground arith in
                let lower =
                  finite.lowers elzma_decompress_input_bufsize p.world ok_read (ground arith) in
                let whole : length r.bytes ≤ length p'.inbuf =
                  omega (arith, length-append r.bytes (drop (length r.bytes) p.inbuf)) in
                round
                  (one_buffer-ends (length r.bytes) not_specified p' whole
                    (finite.fits elzma_decompress_input_bufsize p.world ok_read))
                  (λ x ran.
                    let small =
                      inner_loop-keeps finite.remaining (finite.remaining r.state) finite.keeps
                        rounds (length r.bytes) elzma_decompress_output_bufsize 0 (length r.bytes)
                        not_specified p' {e = x.0} {q = x.1} (omega arith) ran in
                    omega arith)
                  (ground arith)
          ]
        ]
