-- ===== src/Decompress/Invariant.antt =====
-- A relation that the callbacks of `elzma_decompress_run` of src/decompress.c keep holds behind a run.
use easylzma.Common.{
  ℕ, zero, suc, ◌+◌, ◌-◌, ◌≡◌, refl, subst, Bool, List, [], ◌++◌, Option, none, some, arith, not,
  ◌||◌, ◌==◌, Bool-cases, inl, inr, ok, Outcome, >>=-eq-ok, length, take, drop,
}
use easylzma.Format.{FileHeader, FormatHandler}
use easylzma.Api.{FileFormat, ReadCallback, WriteCallback}
use easylzma.Alloc.{Runtime, AllocStruct, elzma_alloc, elzma_free}
use easylzma.Sdk.{Crc, Decoder, LzmaStatus}
use easylzma.Decompress.{
  DecompressHandle, Progress, InnerEnd, failed, left, deliver, inner_loop, is_lzip,
  elzma_decompress_input_bufsize,
}
use easylzma.Decompress.Run.{
  Run, filled, after_buffer, outer_loop, decoder_props, at_loop, finish, decode_stream, read_header,
  select_handler, elzma_decompress_run,
}
use easylzma.Decompress.Rounds.{again, outer_loop_round}

-- A relation between the state outside and what was written: it is kept by a write, with its bytes
-- behind what was written, and by all else that a run does to the state.
pub record Keeps {S : Type 0} (P : S → List ℕ → Type 0) (rt : Runtime S) (D : Decoder S)
    (alloc : AllocStruct S) (input_stream : ReadCallback S) (output_stream : WriteCallback S)
    : Type 0 where
  pub reads : (size : ℕ) (s : S) (sent : List ℕ) → P s sent → P (input_stream size s).state sent
  pub writes :
      (buf : List ℕ) (s : S) (sent : List ℕ) → P s sent → P (output_stream buf s).1 (sent ++ buf)
  pub allocates :
      (size : ℕ) (s : S) (sent : List ℕ) → P s sent → P (elzma_alloc rt alloc size s).1 sent
  pub frees :
      (address : Option ℕ) (s : S) (sent : List ℕ)
      → P s sent
      → P (elzma_free rt alloc address s) sent
  pub prepares :
      (dec : D.DecState) (props : List ℕ) (s : S) (sent : List ℕ)
      → P s sent
      → P (D.allocate alloc dec props s).2 sent
  pub releases : (dec : D.DecState) (s : S) (sent : List ℕ) → P s sent → P (D.free alloc dec s) sent

module _ {S : Type 0} (P : S → List ℕ → Type 0) (rt : Runtime S) (crc : Crc) (D : Decoder S)
    (hand : DecompressHandle S) (input_stream : ReadCallback S) (output_stream : WriteCallback S)
    (keeps : Keeps P rt D hand.alloc_struct input_stream output_stream) where
  abbrev Holds : Progress S D.DecState → Type 0
  Holds p = P p.world p.sent

  Holds-at : (p q : Progress S D.DecState) → p ≡ q → Holds p → Holds q
  Holds-at p q same h = subst (λ x. Holds x) same h

  inner_loop-Holds :
      (lz : Bool) (fuel src_len dst_len buf_off amt : ℕ) (stat : LzmaStatus)
      (p : Progress S D.DecState) {e : InnerEnd} {q : Progress S D.DecState}
      → Holds p
      → inner_loop crc D output_stream lz fuel src_len dst_len buf_off amt stat p ≡ ok (e, q)
      → Holds q
  unfolding inner_loop deliver
  inner_loop-Holds lz zero src_len dst_len buf_off amt stat p h ran = cc
  inner_loop-Holds lz (suc fuel) src_len dst_len buf_off amt stat p {e} {q} h ran =
      let r = D.decode_to_buf p.dec dst_len (take amt (drop buf_off p.inbuf)) in
      let d = deliver crc D output_stream lz r.output r.dec p in
      let off = buf_off + r.consumed in
      let behind : Holds d.1 = keeps.writes r.output p.world p.sent h in
      ground (
        arith,
        inner_loop-Holds lz fuel src_len (length r.output) off (src_len - off) r.stat d.1 {e = e}
            {q = q} behind,
      )

  after_buffer-Holds :
      (handler : FormatHandler) (h : FileHeader)
      (again : Progress S D.DecState → Outcome (ℕ × Progress S D.DecState)) (e : InnerEnd)
      (p : Progress S D.DecState) {error : ℕ} {q : Progress S D.DecState}
      → Holds p
      → (again p ≡ ok (error, q) → Holds q)
      → after_buffer handler h again e p ≡ ok (error, q)
      → Holds q
  unfolding after_buffer
  after_buffer-Holds handler h again (failed error) p holds next e = ground arith
  after_buffer-Holds handler h again (left off amt stat) p holds next e = ground arith

  outer_loop-Holds :
      (lz : Bool) (handler : FormatHandler) (h : FileHeader) (rounds fuel : ℕ)
      (p : Progress S D.DecState) {error : ℕ} {q : Progress S D.DecState}
      → Holds p
      → outer_loop crc D input_stream output_stream lz handler h rounds fuel p ≡ ok (error, q)
      → Holds q
  outer_loop-Holds lz handler h rounds zero p holds e = unfold outer_loop in cc
  outer_loop-Holds lz handler h rounds (suc fuel) p {error} {q} holds e =
      let start : Holds (filled input_stream p) =
        keeps.reads elzma_decompress_input_bufsize p.world p.sent holds in
      elim (outer_loop_round crc D input_stream output_stream lz handler h rounds fuel p e) [
        | inl (bad, same) ↦ rw same start
        | inr (x, p', ran, next) ↦
            let holds' = inner_loop-Holds lz rounds _ _ _ _ _ (filled input_stream p) start ran in
            after_buffer-Holds handler h
              (again crc D input_stream output_stream lz handler h rounds fuel p) x p' holds'
              (outer_loop-Holds lz handler h rounds fuel p' holds') next
      ]

  decode_stream-Holds :
      (rounds : ℕ) (lz : Bool) (handler : FormatHandler) (h : FileHeader) (dec : D.DecState) (s : S)
      {r : Run S}
      → P s []
      → decode_stream rt crc D hand input_stream output_stream rounds lz handler h dec s ≡ ok r
      → P r.world r.sent
  unfolding decode_stream finish
  decode_stream-Holds rounds lz handler h dec s {r} holds e =
      let start = at_loop rt crc D hand input_stream output_stream dec s in
      let ((error, p), ran, rest) =
        >>=-eq-ok (outer_loop crc D input_stream output_stream lz handler h rounds rounds start) _
          e in
      let holds' = outer_loop-Holds lz handler h rounds rounds start holds ran in
      let freed = keeps.releases p.dec p.world p.sent holds' in ground arith

  read_header-Holds :
      (rounds : ℕ) (lz : Bool) (handler : FormatHandler) (address : Option ℕ) (h : FileHeader)
      (s : S) {r : Run S}
      → P s []
      → read_header rt crc D hand input_stream output_stream rounds lz handler address h s ≡ ok r
      → P r.world r.sent
  unfolding read_header
  read_header-Holds rounds lz handler address h s {r} holds e =
      let x = input_stream handler.header_size s in
      let after_read = keeps.reads handler.header_size s [] holds in
      let freed = keeps.frees address x.state [] after_read in
      elim (Bool-cases (not (x.status == 0) || not (length x.bytes == handler.header_size))) [
        | inl bad ↦ ground arith
        | inr fine ↦
            let ((status, h'), parsed, rest) =
              >>=-eq-ok (handler.parse_header x.bytes h) _ (rw fine at e) in
            elim (Bool-cases (not (status == 0))) [
              | inl corrupt ↦ ground arith
              | inr whole ↦
                  let (props, found, decoding) =
                    >>=-eq-ok (decoder_props lz x.bytes h') _ (rw whole at rest) in
                  let prepared = keeps.prepares (D.init D.blank) props x.state [] after_read in
                  let freed' =
                    keeps.frees address
                      (D.allocate hand.alloc_struct (D.init D.blank) props x.state).2 [] prepared in
                  decode_stream-Holds rounds lz handler h' _ _ freed' decoding
            ]
      ]

  -- Behind a run that returns, the relation holds between the state and what was written, if it held
  -- with nothing written before.
  pub elzma_decompress_run-Holds :
      (rounds : ℕ) (junk : FormatHandler) (h : FileHeader) (format : FileFormat) (s : S) {r : Run S}
      → P s []
      → elzma_decompress_run rt crc D hand input_stream output_stream rounds junk h format s ≡ ok r
      → P r.world r.sent
  unfolding elzma_decompress_run
  elzma_decompress_run-Holds rounds junk h format s {r} holds e =
      with_handler (select_handler format junk) refl
    where
      with_buffer :
          (handler : FormatHandler) (a : Option ℕ × S)
          → select_handler format junk ≡ some handler
          → elzma_alloc rt hand.alloc_struct handler.header_size s ≡ a
          → P r.world r.sent
      with_buffer handler (none, s') chosen got = absurd (ground arith)
      with_buffer handler (some address, s') chosen got =
          let one = keeps.allocates handler.header_size s [] holds in
          read_header-Holds rounds (is_lzip format) handler (some address) (handler.init_header h)
            s' {r = r} (rw got at one) (ground arith)

      with_handler :
          (handler : Option FormatHandler) → select_handler format junk ≡ handler → P r.world r.sent
      with_handler none chosen = ground arith
      with_handler (some handler) chosen =
          with_buffer handler (elzma_alloc rt hand.alloc_struct handler.header_size s) chosen refl
