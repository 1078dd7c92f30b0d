-- ===== src/Decompress/FooterFrom.antt =====
-- Where `elzma_decompress_run` of src/decompress.c reads the footer of an lzip stream.
use easylzma.Common.{
  ℕ, zero, suc, ◌+◌, ◌-◌, ◌≤◌, ◌<◌, ◌≡◌, ◌≢◌, refl, subst, ◌⊎◌, inl, inr, Bool, true, List, arith,
  ◌==◌, ok, Outcome, >>=-eq-ok, length, take, drop, ltb, leb, Bool-cases,
}
use easylzma.Format.{FileHeader, FileFooter, FormatHandler}
use easylzma.LzipHeader.{elzma_lzip_footer_size, parse_lzip_footer, initialize_lzip_format_handler}
use easylzma.Api.{ReadCallback, WriteCallback, elzma_e_decompress_error, elzma_e_output_error}
use easylzma.Sdk.{Crc, Decoder, Decoded, LzmaStatus, not_specified}
use easylzma.Decompress.{
  Progress, InnerEnd, failed, left, is_finished, deliver, inner_loop,
  elzma_decompress_input_bufsize,
}
use easylzma.Decompress.Run.{filled, overlay, zero_footer, read_footer, after_buffer, outer_loop}
use easylzma.Decompress.Rounds.{again, outer_loop_round}

-- `Took D buf first off stat last`: calls of the decoder on what follows in a buffer, each from where
-- the one before it stopped, took it from `first` to `last` and up to the offset `off`, and the last
-- of them gave `stat`.
pub data Took {S : Type 0} (D : Decoder S) (buf : List ℕ) (first : D.DecState)
    : ℕ → LzmaStatus → D.DecState → Type 0 where
  nothing : Took D buf first 0 not_specified first
  one_more :
      {off : ℕ} {stat : LzmaStatus} {dec : D.DecState}
      → Took D buf first off stat dec
      → (room amt : ℕ)
      → Took D buf first
          (off + (D.decode_to_buf dec room (take amt (drop off buf))).consumed)
          (D.decode_to_buf dec room (take amt (drop off buf))).stat
          (D.decode_to_buf dec room (take amt (drop off buf))).dec

-- Where an lzip footer comes from: the last buffer begins with a chunk that was read, in which the
-- decoder came to the end mark at `off`. Of the bytes behind, `amt` are counted, which are those of
-- the chunk unless the decoder has taken all of it. With twelve of them or more the footer is what is
-- parsed from there; with less it is zero.
pub record FooterFrom {S : Type 0} (D : Decoder S) (inbuf : List ℕ) (footer : FileFooter)
    : Type 0 where
  pub chunk : List ℕ
  pub old : List ℕ
  pub first : D.DecState
  pub last : D.DecState
  pub off : ℕ
  pub amt : ℕ
  pub stat : LzmaStatus
  pub begins : inbuf ≡ overlay chunk old
  pub took : Took D inbuf first off stat last
  pub ended : is_finished stat ≡ true
  pub inside : off ≤ length chunk
  pub counted : (off ≡ length chunk) ⊎ (amt ≡ length chunk - off)
  pub parsed :
      ((amt < elzma_lzip_footer_size) × (footer ≡ zero_footer))
      ⊎ ((elzma_lzip_footer_size ≤ amt)
          × (parse_lzip_footer (drop off inbuf) zero_footer ≡ ok (0, footer)))

module _ {S : Type 0} (crc : Crc) (D : Decoder S) (output_stream : WriteCallback S)
    (lz : Bool) where
  -- What the inner loop leaves of a buffer with `n` bytes of input.
  abbrev AtEnd : ℕ → List ℕ → D.DecState → InnerEnd × Progress S D.DecState → Type 0
  AtEnd n buf first (failed error, q) = error ≢ 0
  AtEnd n buf first (left off amt stat, q) =
      (q.inbuf ≡ buf)
      × (q.footer ≡ zero_footer)
      × Took D q.inbuf first off stat q.dec
      × (off ≤ n)
      × ((off ≡ n) ⊎ (amt ≡ n - off))

  inner_loop-AtEnd :
      (fuel n dst_len off amt : ℕ) (stat : LzmaStatus) (buf : List ℕ) (first : D.DecState)
      (p : Progress S D.DecState) {x : InnerEnd × Progress S D.DecState}
      → AtEnd n buf first (left off amt stat, p)
      → inner_loop crc D output_stream lz fuel n dst_len off amt stat p ≡ ok x
      → AtEnd n buf first x
  unfolding inner_loop deliver
  inner_loop-AtEnd zero n dst_len off amt stat buf first p h ran = cc
  inner_loop-AtEnd (suc fuel) n dst_len off amt stat buf first p {x}
        (same, none_yet, took, inside, counted) ran =
      elim (Bool-cases (ltb off n)) [
        | inr all ↦
            ends (left off amt stat, p) (same, none_yet, took, inside, counted) (ground arith)
        | inl more ↦ elim (Bool-cases (r.status == 0)) [
          | inr bad ↦
              ends (failed elzma_e_decompress_error, record p { dec = r.dec }) (omega arith)
                (ground arith)
          | inl fine ↦ elim (Bool-cases d.0) [
            | inr short ↦ ends (failed elzma_e_output_error, d.1) (omega arith) (ground arith)
            | inl written ↦ elim (Bool-cases (ltb n off')) [
              | inl beyond ↦ absurd (ground arith)
              | inr within ↦ elim (Bool-cases (leb n off')) [
                | inl full ↦
                    ends (left off' r.consumed r.stat, d.1)
                      (same, none_yet, took', ground arith, inl (ground arith)) (ground arith)
                | inr part ↦ elim (Bool-cases (is_finished r.stat)) [
                  | inl done ↦
                      ends (left off' (n - off') r.stat, d.1)
                        (same, none_yet, took', ground arith, inr refl) (ground arith)
                  | inr on ↦
                      inner_loop-AtEnd fuel n (length r.output) off' (n - off') r.stat buf first d.1
                        {x = x} (same, none_yet, took', ground arith, inr refl) (ground arith)
                ]
              ]
            ]
          ]
        ]
      ]
    where
      r : Decoded D.DecState
      r = D.decode_to_buf p.dec dst_len (take amt (drop off p.inbuf))

      d : Bool × Progress S D.DecState
      d = deliver crc D output_stream lz r.output r.dec p

      off' : ℕ
      off' = off + r.consumed

      took' : Took D p.inbuf first off' r.stat r.dec
      took' = one_more took dst_len amt

      ends :
          (y : InnerEnd × Progress S D.DecState) → AtEnd n buf first y → y ≡ x → AtEnd n buf first x
      ends y h same_end = subst (λ z. AtEnd n buf first z) same_end h

  lzip_read_footer-cases :
      (junk : FormatHandler) (amt : ℕ) (buf : List ℕ) {f : FileFooter}
      → read_footer (initialize_lzip_format_handler junk) amt buf zero_footer ≡ ok f
      → ((amt < elzma_lzip_footer_size) × (f ≡ zero_footer))
        ⊎ ((elzma_lzip_footer_size ≤ amt) × (parse_lzip_footer buf zero_footer ≡ ok (0, f)))
  unfolding read_footer initialize_lzip_format_handler parse_lzip_footer
  lzip_read_footer-cases junk amt buf {f} e = elim (Bool-cases (leb elzma_lzip_footer_size amt)) [
    | inr less ↦ inl (ground arith, ground arith)
    | inl enough ↦ inr (ground arith, ground arith)
  ]

  after_buffer-FooterFrom :
      (junk : FormatHandler) (h : FileHeader) (chunk old : List ℕ) (first : D.DecState)
      (again : Progress S D.DecState → Outcome (ℕ × Progress S D.DecState)) (e : InnerEnd)
      (p : Progress S D.DecState) {q : Progress S D.DecState}
      → h.is_streamed ≡ 1
      → AtEnd (length chunk) (overlay chunk old) first (e, p)
      → (p.footer ≡ zero_footer → again p ≡ ok (0, q) → FooterFrom D q.inbuf q.footer)
      → after_buffer (initialize_lzip_format_handler junk) h again e p ≡ ok (0, q)
      → FooterFrom D q.inbuf q.footer
  unfolding after_buffer
  after_buffer-FooterFrom junk h chunk old first again (failed error) p streamed bad next e =
      absurd (ground arith)
  after_buffer-FooterFrom junk h chunk old first again (left off amt stat) p {q} streamed
        (same, none_yet, took, inside, counted) next e =
      elim (Bool-cases (is_finished stat)) [
        | inr on ↦ next none_yet (ground arith)
        | inl done ↦
            let m =
              read_footer (initialize_lzip_format_handler junk) amt (drop off p.inbuf) p.footer in
            let (f, got, last) =
              >>=-eq-ok m (λ f. ok (0, record p { footer = f })) (rw done at e) in
            let buf : p.inbuf ≡ q.inbuf = ground arith in
            let found : f ≡ q.footer = ground arith in
            let parsed = lzip_read_footer-cases junk amt (drop off p.inbuf) (
              subst
                (λ g.
                  read_footer (initialize_lzip_format_handler junk) amt (drop off p.inbuf) g ≡ ok f)
                none_yet got) in
            subst (λ b. FooterFrom D b q.footer) buf
              (subst (λ g. FooterFrom D p.inbuf g) found
                (record {
                  chunk = chunk;
                  old = old;
                  first = first;
                  last = p.dec;
                  off = off;
                  amt = amt;
                  stat = stat;
                  begins = same;
                  took = took;
                  ended = done;
                  inside = inside;
                  counted = counted;
                  parsed = parsed;
                }))
      ]

  module _ (input_stream : ReadCallback S) (junk : FormatHandler) (h : FileHeader)
      (rounds : ℕ) where
    pub outer_loop-FooterFrom :
        (fuel : ℕ) (p : Progress S D.DecState) {q : Progress S D.DecState}
        → h.is_streamed ≡ 1
        → p.footer ≡ zero_footer
        → outer_loop crc D input_stream output_stream lz
            (initialize_lzip_format_handler junk)
            h
            rounds
            fuel
            p
          ≡ ok (0, q)
        → FooterFrom D q.inbuf q.footer
    outer_loop-FooterFrom zero p streamed none_yet e = unfold outer_loop in cc
    outer_loop-FooterFrom (suc fuel) p {q} streamed none_yet e =
        let handler = initialize_lzip_format_handler junk in
        elim (outer_loop_round crc D input_stream output_stream lz handler h rounds fuel p e) [
          | inl (bad, same) ↦ absurd (bad refl)
          | inr (x, p', ran, next) ↦
              let chunk = (input_stream elzma_decompress_input_bufsize p.world).bytes in
              let at_end =
                inner_loop-AtEnd rounds (length chunk) _ 0 (length chunk) not_specified
                  (overlay chunk p.inbuf) p.dec (filled input_stream p) {x = (x, p')}
                  (refl, none_yet, nothing, omega arith, inr (omega arith)) ran in
              after_buffer-FooterFrom junk h chunk p.inbuf p.dec
                (again crc D input_stream output_stream lz handler h rounds fuel p) x p' streamed
                at_end (outer_loop-FooterFrom fuel p' streamed) next
        ]
