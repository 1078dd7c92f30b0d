-- ===== src/Decompress/OneBuffer.antt =====
-- The loop of src/decompress.c over one buffer, when what is decoded is a whole coded body.
use mathlib.Core.List.{append_assoc}
use easylzma.Common.{
  ℕ, zero, suc, ◌+◌, ◌%◌, ◌^◌, ◌<◌, ◌≡◌, ◌≢◌, refl, sym, ap, ◌∙◌, inl, inr, Bool, true, false, List,
  [], ◌++◌, arith, ok, length, take, drop, length-append, empty, leb, Bool-cases,
}
use easylzma.Common.Strings.{drop-append, take-append}
use easylzma.Api.{ReadCallback, WriteCallback}
use easylzma.Api.Clients.{HasInput}
use easylzma.Sdk.{Crc, Decoder, LzmaStatus}
use easylzma.Sdk.Coding.{StreamDecoder}
use easylzma.Decompress.InnerRounds.{unfinished, inner_loop_all, inner_loop_again}
use easylzma.Decompress.Run.{zero_footer}
use easylzma.Decompress.{Progress, left, is_finished, deliver, inner_loop}

pub regroup :
    (before front rest after : List ℕ) {given : List ℕ}
    → given ≡ front ++ rest
    → before ++ (given ++ after) ≡ (before ++ front) ++ (rest ++ after)
regroup before front rest after e = rw e (
    ap (λ t. before ++ t) (append_assoc front rest after)
    ∙ sym (append_assoc before front (rest ++ after)))

-- The bytes that the decoder is given.
pub window :
    (before given after : List ℕ) {buf : List ℕ}
    → buf ≡ before ++ (given ++ after)
    → take (length given) (drop (length before) buf) ≡ given
window before given after e =
    rw (e, drop-append before (given ++ after), take-append given after) refl

module _ {S : Type 0} (crc : Crc) (D : Decoder S) (law : StreamDecoder D)
    (input_stream : ReadCallback S) (output_stream : WriteCallback S)
    (client : HasInput input_stream output_stream) (lz : Bool) (goal : List ℕ) where
  -- On the way to `goal`: what the decoder still expects and will put out, and what the client has
  -- left.
  pub record Amid (p : Progress S D.DecState) (body text ahead : List ℕ) : Type 0 where
    pub sent : p.sent ++ text ≡ goal
    pub stands : law.Stands p.dec body text
    pub unread : client.unread p.world ≡ ahead
    pub total : p.total_read ≡ length p.sent % 2 ^ 64
    pub footer : p.footer ≡ zero_footer

  -- The client takes all of the output.
  pub deliver_lem :
      (output : List ℕ) (dec : D.DecState) (p : Progress S D.DecState)
      → let d = deliver crc D output_stream lz output dec p in
        (d.0 ≡ true)
        × (d.1.inbuf ≡ p.inbuf)
        × (d.1.dec ≡ dec)
        × (d.1.sent ≡ p.sent ++ output)
        × (client.unread d.1.world ≡ client.unread p.world)
        × (d.1.total_read ≡ (p.total_read + length output) % 2 ^ 64)
        × (d.1.footer ≡ p.footer)
  unfolding deliver
  deliver_lem output dec p =
      let (all, same) = client.writes output p.world in
      (ground arith, refl, refl, refl, same, refl, refl)

  pub deliver-Amid :
      (output : List ℕ) (dec : D.DecState) (p : Progress S D.DecState)
      (body body' text text' ahead : List ℕ)
      → Amid p body text ahead
      → text ≡ output ++ text'
      → law.Stands dec body' text'
      → Amid (deliver crc D output_stream lz output dec p).1 body' text' ahead
  deliver-Amid output dec p body body' text text' ahead at e stands =
      let (all, buf, now, sent, same, count, same_footer) = deliver_lem output dec p in
      record {
        sent =
            ap (λ t. t ++ text') sent
            ∙ append_assoc p.sent output text'
            ∙ ap (λ t. p.sent ++ t) (sym e)
            ∙ at.sent;
        stands = rw now stands;
        unread = same ∙ at.unread;
        total = omega (arith, count, ap length sent, length-append p.sent output, at.total);
        footer = same_footer ∙ at.footer;
      }

  -- On a buffer that ends inside the body, the loop takes up the buffer.
  pub inner_loop-part :
      (fuel dst_len : ℕ) (stat : LzmaStatus) (p : Progress S D.DecState)
      (before given after more text ahead : List ℕ)
      → more ≢ []
      → 0 < dst_len
      → 0 < length given
      → length text < fuel
      → p.inbuf ≡ before ++ (given ++ after)
      → Amid p (given ++ more) text ahead
      → (amt : ℕ) × (stat' : LzmaStatus) × (q : Progress S D.DecState) × (text' : List ℕ)
        × (inner_loop crc D output_stream lz fuel
              (length before + length given)
              dst_len
              (length before)
              (length given)
              stat
              p
            ≡ ok (left (length before + length given) amt stat', q))
        × (is_finished stat' ≡ false)
        × Amid q more text' ahead
  inner_loop-part zero dst_len stat p before given after more text ahead still room some_given
        enough buf at =
      absurd (omega arith)
  inner_loop-part (suc fuel) dst_len stat p before given after more text ahead still room some_given
        enough buf at =
      let r = D.decode_to_buf p.dec dst_len given in
      let shown = window before given after buf in
      let (good, unmarked, (front, rest, text', cut, took, put, stands, full)) =
        law.on_part p.dec dst_len given more text room still at.stands in
      let (written, same_buf, now, sent, same, count, same_footer) = deliver_lem r.output r.dec p in
      let at' =
        deliver-Amid r.output r.dec p (given ++ more) (rest ++ more) text text' ahead at put
          stands in
      let sized = ap length cut ∙ length-append front rest in
      let d = deliver crc D output_stream lz r.output r.dec p in
      elim (Bool-cases (leb (length before + length given) (length before + r.consumed))) [
        | inl all ↦
            let nothing : rest ≡ [] = empty rest (ground arith) in
            let place : length before + r.consumed ≡ length before + length given = ground arith in
            (
              r.consumed,
              r.stat,
              d.1,
              text',
              inner_loop_all crc D output_stream lz fuel (length before + length given) dst_len
                  (length before) (length given) stat p given shown (omega arith) good written
                  place,
              unfinished r.stat unmarked,
              rw nothing at at',
            )
        | inr some_left ↦
            let filled : length r.output ≡ dst_len = ground arith in
            let place : length (before ++ front) ≡ length before + r.consumed =
              length-append before front ∙ ap (λ n. length before + n) took in
            let end : length (before ++ front) + length rest ≡ length before + length given =
              omega arith in
            let buf' = same_buf ∙ buf ∙ regroup before front rest after cut in
            let (amt, stat', q, text'', ran, quiet', at'') =
              inner_loop-part fuel (length r.output) r.stat d.1 (before ++ front) rest after more
                text' ahead still (omega arith) (ground arith)
                (omega (arith, ap length put, length-append r.output text')) buf' at' in
            (
              amt,
              stat',
              q,
              text'',
              inner_loop_again crc D output_stream lz fuel (length before + length given) dst_len
                  (length before) (length given) (length (before ++ front)) (length rest) stat p
                  given (left (length before + length given) amt stat', q) shown good written
                  unmarked (sym place) end (ground arith)
                  (ran ∙ ap (λ n. ok (left n amt stat', q)) end),
              quiet',
              at'',
            )
      ]
