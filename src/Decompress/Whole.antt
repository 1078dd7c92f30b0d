-- ===== src/Decompress/Whole.antt =====
-- The loops of src/decompress.c over an input that holds a whole coded body.
use mathlib.Core.List.{append-nil, append_assoc}
use easylzma.Common.{
  ℕ, zero, suc, ◌+◌, ◌^◌, ◌≤◌, ◌<◌, ◌≡◌, ◌≢◌, ◌⊎◌, refl, sym, ap, ◌∙◌, subst, inl, inr, Bool, false,
  List, [], ◌++◌, arith, ok, length, take, drop, length-append, length-take, length-drop, leb, ltb,
  ltb→lt, ltb-eq_false→le, Bool-cases, nonempty, empty, Outcome, ◌&&◌, ◌==◌,
}
use easylzma.Common.Strings.{take-drop, drop-append, take-append}
use easylzma.Format.{FileHeader, FileFooter, FormatHandler}
use easylzma.Api.{ReadCallback, WriteCallback}
use easylzma.Api.Clients.{HasInput}
use easylzma.Sdk.{Crc, Decoder, LzmaStatus, finished_with_mark, not_specified}
use easylzma.Sdk.Coding.{StreamDecoder}
use easylzma.Decompress.{
  Progress, left, is_finished, elzma_decompress_input_bufsize, elzma_decompress_output_bufsize,
}
use easylzma.Decompress.Rounds.{outer_loop_ran}
use easylzma.Decompress.Run.{filled, read_footer, after_buffer, outer_loop, zero_footer}
use easylzma.Decompress.LaidOut.{IsLaidOut, IsLaidOut-drop, last_read}
use easylzma.Decompress.OneBuffer.{Amid, inner_loop-part}
use easylzma.Decompress.LastBuffer.{inner_loop-whole}

module _ {S : Type 0} (crc : Crc) (D : Decoder S) (law : StreamDecoder D)
    (input_stream : ReadCallback S) (output_stream : WriteCallback S)
    (client : HasInput input_stream output_stream) (lz : Bool) (goal : List ℕ)
    (handler : FormatHandler) (h : FileHeader) (rounds : ℕ) where
  abbrev At : Progress S D.DecState → List ℕ → List ℕ → List ℕ → Type 0
  At = Amid crc D law input_stream output_stream client lz goal

  filled-At :
      (p : Progress S D.DecState) (body text ahead : List ℕ)
      → At p body text ahead
      → At (filled input_stream p) body text (drop elzma_decompress_input_bufsize ahead)
  filled-At p body text ahead at = record {
    sent = at.sent;
    stands = at.stands;
    unread =
        (client.reads elzma_decompress_input_bufsize p.world).2
        ∙ ap (drop elzma_decompress_input_bufsize) at.unread;
    total = at.total;
    footer = at.footer;
  }

  -- `Read` is what the end of the loops leaves of the footer.
  module _ (tail beyond : List ℕ) (Read : FileFooter → Type 0)
      (footer : (amt : ℕ) (after : List ℕ)
        → (0 < length tail → amt ≡ length tail)
        → (f' : FileFooter) × (read_footer handler amt (tail ++ after) zero_footer ≡ ok f')
          × Read f')
      (sized : h.is_streamed ≡ 0
        → (h.uncompressed_size ≡ length goal) × (length goal < 2 ^ 64) × Read zero_footer) where
    abbrev pub behind : List ℕ
    behind = tail ++ beyond

    abbrev loop : ℕ → Progress S D.DecState → Outcome (ℕ × Progress S D.DecState)
    loop = outer_loop crc D input_stream output_stream lz handler h rounds

    abbrev Done : Outcome (ℕ × Progress S D.DecState) → Type 0
    Done m = (q : Progress S D.DecState) × (m ≡ ok (0, q)) × (q.sent ≡ goal) × Read q.footer

    -- The bytes that a header with a size announces are all written: the loop may stop.
    all_sent :
        (p : Progress S D.DecState) (body text ahead : List ℕ)
        → At p body text ahead
        → h.is_streamed ≡ 0
        → h.uncompressed_size ≤ p.total_read
        → (p.sent ≡ goal) × Read p.footer
    all_sent p body text ahead at fixed enough =
        let (size, small, any) = sized fixed in
        let both = ap length at.sent in
        let split = length-append p.sent text in
        let nothing : text ≡ [] = empty text (omega (arith, at.total)) in
        (
          sym (append-nil p.sent) ∙ ap (λ t. p.sent ++ t) (sym nothing) ∙ at.sent,
          subst Read (sym at.footer) any,
        )

    -- What a round comes to whose buffer is read in the body.
    abbrev Onward : ℕ → Progress S D.DecState → List ℕ → Type 0
    Onward fuel p more =
        Done (loop (suc fuel) p)
        ⊎ ((q : Progress S D.DecState) × (text' : List ℕ) × (loop (suc fuel) p ≡ loop fuel q)
            × At q more text' (more ++ behind))

    part_round :
        (fuel : ℕ) (p : Progress S D.DecState) (part more text : List ℕ)
        → At p (part ++ more) text (part ++ (more ++ behind))
        → length part ≡ elzma_decompress_input_bufsize
        → more ≢ []
        → length text < rounds
        → Onward fuel p more
    unfolding after_buffer
    part_round fuel p part more text at full open_more enough =
        let b : ℕ = elzma_decompress_input_bufsize in
        let (good, bytes, next) = client.reads b p.world in
        let cut : take b (part ++ (more ++ behind)) ≡ part =
          subst (λ n. take n (part ++ (more ++ behind)) ≡ part) full
            (take-append part (more ++ behind)) in
        let rest : drop b (part ++ (more ++ behind)) ≡ more ++ behind =
          subst (λ n. drop n (part ++ (more ++ behind)) ≡ more ++ behind) full
            (drop-append part (more ++ behind)) in
        let read : (input_stream b p.world).bytes ≡ part = bytes ∙ ap (take b) at.unread ∙ cut in
        let buf : (filled input_stream p).inbuf ≡ part ++ drop (length part) p.inbuf =
          ap (λ t. t ++ drop (length t) p.inbuf) read in
        let start =
          subst (At (filled input_stream p) (part ++ more) text) rest
            (filled-At p (part ++ more) text (part ++ (more ++ behind)) at) in
        let (amt, stat, q, text', ran, quiet, at') =
          inner_loop-part crc D law input_stream output_stream client lz goal rounds
            elzma_decompress_output_bufsize not_specified (filled input_stream p) [] part
            (drop (length part) p.inbuf) more text (more ++ behind) open_more (omega arith)
            (omega arith) enough buf start in
        go amt stat q text' (0 + length part) quiet at' (
          outer_loop_ran crc D input_stream output_stream lz handler h rounds fuel p
            (0 + length part) part (left (0 + length part) amt stat, q) good read (omega arith)
            (omega arith) ran)
      where
        go :
            (amt : ℕ) (stat : LzmaStatus) (q : Progress S D.DecState) (text' : List ℕ) (place : ℕ)
            → is_finished stat ≡ false
            → At q more text' (more ++ behind)
            → loop (suc fuel) p ≡ after_buffer handler h (loop fuel) (left place amt stat) q
            → Onward fuel p more
        go amt stat q text' place quiet at' round =
            elim (Bool-cases (h.is_streamed == 0 && leb h.uncompressed_size q.total_read)) [
              | inl stop ↦
                  let (through, found) =
                    all_sent q more text' (more ++ behind) at' (ground arith) (ground arith) in
                  inl (q, round ∙ rw (quiet, stop) refl, through, found)
              | inr on ↦ inr (q, text', round ∙ rw (quiet, on) refl, at')
            ]

    -- The round whose buffer holds all that is left.
    last_round :
        (fuel : ℕ) (p : Progress S D.DecState) (body text : List ℕ)
        → At p body text (body ++ behind)
        → length body ≤ elzma_decompress_input_bufsize
        → IsLaidOut body tail beyond
        → length text < rounds
        → Done (loop (suc fuel) p)
    unfolding after_buffer
    last_round fuel p body text at short laid enough =
        let b : ℕ = elzma_decompress_input_bufsize in
        let (good, bytes, next) = client.reads b p.world in
        let some_body = nonempty body (λ none_left.
          law.open_end p.dec text (subst (λ t. law.Stands p.dec t text) none_left at.stands)) in
        let read : (input_stream b p.world).bytes ≡ body ++ tail =
          bytes ∙ ap (take b) at.unread ∙ last_read body tail beyond some_body short laid in
        let buf : (filled input_stream p).inbuf
            ≡ (body ++ tail) ++ drop (length (body ++ tail)) p.inbuf =
          ap (λ t. t ++ drop (length t) p.inbuf) read in
        let some_bytes : 0 < length (body ++ tail) = omega (arith, length-append body tail) in
        let (amt, q, ran, counted, same_buf, through, kept_footer) =
          inner_loop-whole crc D law input_stream output_stream client lz goal rounds
            elzma_decompress_output_bufsize not_specified (filled input_stream p) [] body tail
            (drop (length (body ++ tail)) p.inbuf) text (drop b (body ++ behind)) (omega arith)
            some_bytes enough buf (filled-At p body text (body ++ behind) at) in
        go amt q (0 + length body) (omega arith) counted (same_buf ∙ buf) through kept_footer (
          outer_loop_ran crc D input_stream output_stream lz handler h rounds fuel p
            (0 + length (body ++ tail)) (body ++ tail)
            (left (0 + length body) amt finished_with_mark, q) good read some_bytes (omega arith)
            ran)
      where
        go :
            (amt : ℕ) (q : Progress S D.DecState) (place : ℕ)
            → place ≡ length body
            → (0 < length tail → amt ≡ length tail)
            → q.inbuf ≡ (body ++ tail) ++ drop (length (body ++ tail)) p.inbuf
            → q.sent ≡ goal
            → q.footer ≡ zero_footer
            → loop (suc fuel) p
              ≡ after_buffer handler h (loop fuel) (left place amt finished_with_mark) q
            → Done (loop (suc fuel) p)
        go amt q place same counted buf through kept_footer round =
            let after = drop (length (body ++ tail)) p.inbuf in
            let shown : drop place q.inbuf ≡ tail ++ after =
              rw (same, buf)
                (ap (drop (length body)) (append_assoc body tail after)
                  ∙ drop-append body (tail ++ after)) in
            let (f', found, is_read) = footer amt after counted in
            (
              record q { footer = f' },
              round ∙ rw (shown, kept_footer, found) refl,
              through,
              is_read,
            )

    pub outer_loop-whole :
        (fuel : ℕ) (p : Progress S D.DecState) (body text : List ℕ)
        → At p body text (body ++ behind)
        → IsLaidOut body tail beyond
        → length body < fuel
        → length goal < rounds
        → Done (loop fuel p)
    outer_loop-whole zero p body text at laid less enough = absurd (omega arith)
    outer_loop-whole (suc fuel) p body text at laid less enough =
        let b : ℕ = elzma_decompress_input_bufsize in
        let short : length text < rounds =
          omega (arith, ap length at.sent, length-append p.sent text) in
        elim (Bool-cases (ltb b (length body))) [
          | inr last ↦
              last_round fuel p body text at (ltb-eq_false→le b (length body) last) laid short
          | inl longer ↦
              let long : b < length body = ltb→lt b (length body) longer in
              let size = length-take b body (omega arith) in
              let shorter = length-drop b body in
              let some_more : drop b body ≢ [] =
                λ none_left. absurd (omega (arith, ap length none_left)) in
              let split = sym (take-drop b body) in
              let at' : At p (take b body ++ drop b body) text
                  (take b body ++ (drop b body ++ behind)) =
                subst (At p (take b body ++ drop b body) text)
                  (append_assoc (take b body) (drop b body) behind)
                  (subst (λ t. At p t text (t ++ behind)) split at) in
              elim (part_round fuel p (take b body) (drop b body) text at' size some_more short) [
                | inl done ↦ done
                | inr (q, text', same, at'') ↦
                    let (r, ran, through, found) =
                      outer_loop-whole fuel q (drop b body) text' at''
                        (IsLaidOut-drop body tail beyond long laid) (omega arith) enough in
                    (r, same ∙ ran, through, found)
              ]
        ]
