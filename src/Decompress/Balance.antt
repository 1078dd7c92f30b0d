-- ===== src/Decompress/Balance.antt =====
-- What `elzma_decompress_run` of src/decompress.c allocates and frees.
use easylzma.Common.{
  ℕ, zero, suc, ◌+◌, ◌-◌, ◌≡◌, refl, ap, Bool, List, Option, none, some, arith, not, ◌||◌, ◌==◌,
  Bool-cases, inl, inr, ok, Outcome, >>=-eq-ok, length, take, drop,
}
use easylzma.Format.{FileHeader, FormatHandler}
use easylzma.Api.{FileFormat, ReadCallback, WriteCallback}
use easylzma.Alloc.{Runtime, AllocStruct, elzma_alloc, elzma_free}
use easylzma.Sdk.{Crc, Decoder, LzmaStatus}
use easylzma.Decompress.{
  DecompressHandle, Progress, InnerEnd, failed, left, deliver, inner_loop, is_lzip,
  elzma_decompress_input_bufsize,
}
use easylzma.Decompress.Run.{
  Run, filled, after_buffer, outer_loop, decoder_props, at_loop, finish, decode_stream, read_header,
  select_handler, elzma_decompress_run,
}
use easylzma.Decompress.Rounds.{again, outer_loop_round}

-- Counts the blocks that are allocated: `live` in the state outside, and `held` by the decoder. The
-- callbacks keep the count, `malloc` and `free` move it by one, and the decoder's functions by what
-- it holds.
pub record Counts {S : Type 0} (rt : Runtime S) (D : Decoder S) (alloc_struct : AllocStruct S)
    (input_stream : ReadCallback S) (output_stream : WriteCallback S) : Type 0 where
  pub live : S → ℕ
  pub held : D.DecState → ℕ
  pub malloc :
      (size address : ℕ) (s : S)
      → (elzma_alloc rt alloc_struct size s).0 ≡ some address
      → live (elzma_alloc rt alloc_struct size s).1 ≡ live s + 1
  pub free : (address : ℕ) (s : S) → live (elzma_free rt alloc_struct (some address) s) ≡ live s - 1
  pub allocate :
      (dec : D.DecState) (props : List ℕ) (s : S)
      → let x = D.allocate alloc_struct dec props s in live x.2 ≡ live s + held x.1
  pub decode :
      (dec : D.DecState) (cap : ℕ) (src : List ℕ)
      → held (D.decode_to_buf dec cap src).dec ≡ held dec
  pub release : (dec : D.DecState) (s : S) → live (D.free alloc_struct dec s) ≡ live s - held dec
  pub read : (size : ℕ) (s : S) → live (input_stream size s).state ≡ live s
  pub write : (bytes : List ℕ) (s : S) → live (output_stream bytes s).1 ≡ live s

module _ {S : Type 0} (rt : Runtime S) (crc : Crc) (D : Decoder S) (hand : DecompressHandle S)
    (input_stream : ReadCallback S) (output_stream : WriteCallback S)
    (counts : Counts rt D hand.alloc_struct input_stream output_stream) where
  -- All but `n` of the live blocks are the decoder's.
  abbrev Balanced : ℕ → Progress S D.DecState → Type 0
  Balanced n p = counts.live p.world ≡ n + counts.held p.dec

  inner_loop-Balanced :
      (lz : Bool) (n fuel src_len dst_len buf_off amt : ℕ) (stat : LzmaStatus)
      (p : Progress S D.DecState) {e : InnerEnd} {q : Progress S D.DecState}
      → Balanced n p
      → inner_loop crc D output_stream lz fuel src_len dst_len buf_off amt stat p ≡ ok (e, q)
      → Balanced n q
  unfolding inner_loop deliver
  inner_loop-Balanced lz n zero src_len dst_len buf_off amt stat p even ran = cc
  inner_loop-Balanced lz n (suc fuel) src_len dst_len buf_off amt stat p {e} {q} even ran =
      let r = D.decode_to_buf p.dec dst_len (take amt (drop buf_off p.inbuf)) in
      let d = deliver crc D output_stream lz r.output r.dec p in
      let off = buf_off + r.consumed in
      let wrote = counts.write r.output p.world in
      let decoded = counts.decode p.dec dst_len (take amt (drop buf_off p.inbuf)) in
      ground (
        arith,
        inner_loop-Balanced lz n fuel src_len (length r.output) off (src_len - off) r.stat d.1
            {e = e} {q = q},
      )

  after_buffer-Balanced :
      (n : ℕ) (handler : FormatHandler) (h : FileHeader)
      (again : Progress S D.DecState → Outcome (ℕ × Progress S D.DecState)) (e : InnerEnd)
      (p : Progress S D.DecState) {error : ℕ} {q : Progress S D.DecState}
      → Balanced n p
      → (again p ≡ ok (error, q) → Balanced n q)
      → after_buffer handler h again e p ≡ ok (error, q)
      → Balanced n q
  unfolding after_buffer
  after_buffer-Balanced n handler h again (failed error) p even next e = ground arith
  after_buffer-Balanced n handler h again (left off amt stat) p even next e = ground arith

  outer_loop-Balanced :
      (lz : Bool) (n : ℕ) (handler : FormatHandler) (h : FileHeader) (rounds fuel : ℕ)
      (p : Progress S D.DecState) {error : ℕ} {q : Progress S D.DecState}
      → Balanced n p
      → outer_loop crc D input_stream output_stream lz handler h rounds fuel p ≡ ok (error, q)
      → Balanced n q
  outer_loop-Balanced lz n handler h rounds zero p even e = unfold outer_loop in cc
  outer_loop-Balanced lz n handler h rounds (suc fuel) p {error} {q} even e =
      let start : Balanced n (filled input_stream p) =
        omega (arith, counts.read elzma_decompress_input_bufsize p.world) in
      elim (outer_loop_round crc D input_stream output_stream lz handler h rounds fuel p e) [
        | inl (bad, same) ↦ rw same start
        | inr (x, p', ran, next) ↦
            let even' =
              inner_loop-Balanced lz n rounds _ _ _ _ _ (filled input_stream p) start ran in
            after_buffer-Balanced n handler h
              (again crc D input_stream output_stream lz handler h rounds fuel p) x p' even'
              (outer_loop-Balanced lz n handler h rounds fuel p' even') next
      ]

  decode_stream-live :
      (n rounds : ℕ) (lz : Bool) (handler : FormatHandler) (h : FileHeader) (dec : D.DecState)
      (s : S) {r : Run S}
      → counts.live s ≡ n + counts.held dec
      → decode_stream rt crc D hand input_stream output_stream rounds lz handler h dec s ≡ ok r
      → counts.live r.world ≡ n
  unfolding decode_stream finish
  decode_stream-live n rounds lz handler h dec s {r} even e =
      let start = at_loop rt crc D hand input_stream output_stream dec s in
      let ((error, p), ran, rest) =
        >>=-eq-ok (outer_loop crc D input_stream output_stream lz handler h rounds rounds start) _
          e in
      let even' = outer_loop-Balanced lz n handler h rounds rounds start even ran in
      let freed = counts.release p.dec p.world in
      let last : D.free hand.alloc_struct p.dec p.world ≡ r.world = ground arith in
      omega (arith, ap counts.live last)

  read_header-live :
      (n rounds : ℕ) (lz : Bool) (handler : FormatHandler) (address : ℕ) (h : FileHeader) (s : S)
      {r : Run S}
      → counts.live s ≡ n + 1
      → read_header rt crc D hand input_stream output_stream rounds lz handler (some address) h s
        ≡ ok r
      → counts.live r.world ≡ n
  unfolding read_header
  read_header-live n rounds lz handler address h s {r} one e =
      let x = input_stream handler.header_size s in
      let after_read = counts.read handler.header_size s in
      let freed = counts.free address x.state in
      elim (Bool-cases (not (x.status == 0) || not (length x.bytes == handler.header_size))) [
        | inl bad ↦ ground arith
        | inr fine ↦
            let ((status, h'), parsed, rest) =
              >>=-eq-ok (handler.parse_header x.bytes h) _ (rw fine at e) in
            elim (Bool-cases (not (status == 0))) [
              | inl corrupt ↦ ground arith
              | inr whole ↦
                  let (props, found, decoding) =
                    >>=-eq-ok (decoder_props lz x.bytes h') _ (rw whole at rest) in
                  let allocated = counts.allocate (D.init D.blank) props x.state in
                  let freed' =
                    counts.free address
                      (D.allocate hand.alloc_struct (D.init D.blank) props x.state).2 in
                  decode_stream-live n rounds lz handler h' _ _ (omega arith) decoding
            ]
      ]

  -- Let the callbacks keep the number of live blocks, `malloc` and `free` move it by one, and the
  -- decoder's functions by what the decoder holds. When a run returns, with whatever result and for
  -- whatever format, there are as many live blocks as before it.
  pub elzma_decompress_run-keeps_live :
      (rounds : ℕ) (junk : FormatHandler) (h : FileHeader) (format : FileFormat) (s : S) {r : Run S}
      → elzma_decompress_run rt crc D hand input_stream output_stream rounds junk h format s ≡ ok r
      → counts.live r.world ≡ counts.live s
  unfolding elzma_decompress_run
  elzma_decompress_run-keeps_live rounds junk h format s {r} e =
      with_handler (select_handler format junk) refl
    where
      with_buffer :
          (handler : FormatHandler) (a : Option ℕ × S)
          → select_handler format junk ≡ some handler
          → elzma_alloc rt hand.alloc_struct handler.header_size s ≡ a
          → counts.live r.world ≡ counts.live s
      with_buffer handler (none, s') chosen got = absurd (ground arith)
      with_buffer handler (some address, s') chosen got =
          let one = counts.malloc handler.header_size address s (ap (λ x. x.0) got) in
          read_header-live (counts.live s) rounds (is_lzip format) handler address
            (handler.init_header h) s' {r = r} (rw got at one) (ground arith)

      with_handler :
          (handler : Option FormatHandler)
          → select_handler format junk ≡ handler
          → counts.live r.world ≡ counts.live s
      with_handler none chosen = ground arith
      with_handler (some handler) chosen =
          with_buffer handler (elzma_alloc rt hand.alloc_struct handler.header_size s) chosen refl
