-- ===== src/Decompress/LastBuffer.antt =====
-- The loop of src/decompress.c over the buffer in which the coded body ends.
use mathlib.Core.List.{append_assoc}
use easylzma.Common.{
  Outcome, take, drop, ℕ, zero, suc, ◌+◌, ◌-◌, ◌<◌, ◌≡◌, refl, sym, ap, ◌∙◌, subst, inl, inr, Bool,
  List, ◌++◌, arith, ok, length, length-append, nonempty, leb, Bool-cases,
}
use easylzma.Api.{ReadCallback, WriteCallback}
use easylzma.Api.Clients.{HasInput}
use easylzma.Sdk.{Crc, Decoder, LzmaStatus, finished_with_mark}
use easylzma.Sdk.Coding.{StreamDecoder}
use easylzma.Decompress.Run.{zero_footer}
use easylzma.Decompress.{InnerEnd, Progress, left, deliver, inner_loop}
use easylzma.Decompress.InnerRounds.{inner_loop_step, inner_loop_again}
use easylzma.Decompress.OneBuffer.{Amid, regroup, window, deliver_lem, deliver-Amid}

module _ {S : Type 0} (crc : Crc) (D : Decoder S) (law : StreamDecoder D)
    (input_stream : ReadCallback S) (output_stream : WriteCallback S)
    (client : HasInput input_stream output_stream) (lz : Bool) (goal : List ℕ) where
  -- The loop has ended at the mark, with these bytes behind it and all of the text written.
  abbrev pub EndsAtMark :
      Progress S D.DecState → ℕ → List ℕ → Outcome (InnerEnd × Progress S D.DecState) → Type 0
  EndsAtMark p place tail m =
      (amt : ℕ) × (q : Progress S D.DecState) × (m ≡ ok (left place amt finished_with_mark, q))
      × (0 < length tail → amt ≡ length tail)
      × (q.inbuf ≡ p.inbuf)
      × (q.sent ≡ goal)
      × (q.footer ≡ zero_footer)

  -- The round in which the decoder comes to the mark.
  inner_loop_mark :
      (fuel dst_len off amt : ℕ) (stat : LzmaStatus) (p : Progress S D.DecState)
      (body tail text ahead : List ℕ)
      → take amt (drop off p.inbuf) ≡ body ++ tail
      → 0 < length (body ++ tail)
      → Amid crc D law input_stream output_stream client lz goal p body text ahead
      → let r = D.decode_to_buf p.dec dst_len (body ++ tail) in
        r.status ≡ 0
        → r.stat ≡ finished_with_mark
        → r.output ≡ text
        → r.consumed ≡ length body
        → EndsAtMark p (off + length body) tail (
            inner_loop crc D output_stream lz
              (suc fuel)
              (off + length (body ++ tail))
              dst_len
              off
              amt
              stat
              p)
  inner_loop_mark fuel dst_len off amt stat p body tail text ahead shown some_given at good marked
        put took =
      let given = body ++ tail in
      let r = D.decode_to_buf p.dec dst_len given in
      let d = deliver crc D output_stream lz r.output r.dec p in
      let (written, same_buf, now, sent, same, count, same_footer) =
        deliver_lem crc D law input_stream output_stream client lz goal r.output r.dec p in
      let sized = length-append body tail in
      let round =
        inner_loop_step crc D output_stream lz fuel (off + length given) dst_len off amt stat p
          given shown (omega arith) good written (omega arith) in
      let through = sent ∙ ap (λ t. p.sent ++ t) put ∙ at.sent in
      let footer = same_footer ∙ at.footer in
      elim (Bool-cases (leb (off + length given) (off + r.consumed))) [
        | inl all ↦ (
          r.consumed,
          d.1,
          round ∙ rw (all, took, marked) refl,
          λ more. absurd (ground arith),
          same_buf,
          through,
          footer,
        )
        | inr some_left ↦ (
          off + length given - (off + r.consumed),
          d.1,
          round ∙ rw (some_left, marked, took) refl,
          λ more. omega arith,
          same_buf,
          through,
          footer,
        )
      ]

  -- On a buffer with the end of the body and what is behind it, the loop ends behind the body.
  pub inner_loop-whole :
      (fuel dst_len : ℕ) (stat : LzmaStatus) (p : Progress S D.DecState)
      (before body tail after text ahead : List ℕ)
      → 0 < dst_len
      → 0 < length (body ++ tail)
      → length text < fuel
      → p.inbuf ≡ before ++ ((body ++ tail) ++ after)
      → Amid crc D law input_stream output_stream client lz goal p body text ahead
      → EndsAtMark p (length before + length body) tail (
          inner_loop crc D output_stream lz fuel
            (length before + length (body ++ tail))
            dst_len
            (length before)
            (length (body ++ tail))
            stat
            p)
  inner_loop-whole zero dst_len stat p before body tail after text ahead room some_given enough buf
        at =
      absurd (omega arith)
  inner_loop-whole (suc fuel) dst_len stat p before body tail after text ahead room some_given
        enough buf at =
      let given = body ++ tail in
      let r = D.decode_to_buf p.dec dst_len given in
      let d = deliver crc D output_stream lz r.output r.dec p in
      let shown = window before given after buf in
      let (good, result) = law.on_whole p.dec dst_len body tail text room at.stands in
      let (written, same_buf, now, sent, same, count, same_footer) =
        deliver_lem crc D law input_stream output_stream client lz goal r.output r.dec p in
      let sized = length-append body tail in
      elim result [
        | inl (marked, put, took) ↦
            inner_loop_mark fuel dst_len (length before) (length given) stat p body tail text ahead
              shown some_given at good marked put took
        | inr (unmarked, full, (front, rest, text', cut, took, put, stands)) ↦
            let at' =
              deliver-Amid crc D law input_stream output_stream client lz goal r.output r.dec p body
                rest text text' ahead at put stands in
            let some_rest : 0 < length rest = nonempty rest (λ none_left.
              law.open_end r.dec text' (subst (λ b. law.Stands r.dec b text') none_left stands)) in
            let cut_given : given ≡ front ++ (rest ++ tail) =
              ap (λ t. t ++ tail) cut ∙ append_assoc front rest tail in
            let parts = ap length cut_given ∙ length-append front (rest ++ tail) in
            let halves = length-append rest tail in
            let place : length (before ++ front) ≡ length before + r.consumed =
              length-append before front ∙ ap (λ n. length before + n) took in
            let end : length (before ++ front) + length (rest ++ tail)
                ≡ length before + length given =
              omega arith in
            let buf' = same_buf ∙ buf ∙ regroup before front (rest ++ tail) after cut_given in
            let (amt, q, ran, counted, same_q, through, kept_footer) =
              inner_loop-whole fuel (length r.output) r.stat d.1 (before ++ front) rest tail after
                text' ahead (omega arith) (omega arith)
                (omega (arith, ap length put, length-append r.output text')) buf' at' in
            let behind : length (before ++ front) + length rest ≡ length before + length body =
              omega (arith, ap length cut, length-append front rest) in
            (
              amt,
              q,
              inner_loop_again crc D output_stream lz fuel (length before + length given) dst_len
                  (length before) (length given) (length (before ++ front)) (length (rest ++ tail))
                  stat p given (left (length before + length body) amt finished_with_mark, q) shown
                  good written unmarked (sym place) end (omega arith) (rw behind at ran),
              counted,
              same_q ∙ same_buf,
              through,
              kept_footer,
            )
      ]
