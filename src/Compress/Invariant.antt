-- ===== src/Compress/Invariant.antt =====
-- A relation that the hooks of `elzma_compress_run` of src/compress.c keep holds behind a run.
use easylzma.Common.{
  ℕ, ◌≡◌, refl, subst, Bool, List, [], ◌++◌, Option, none, some, arith, ltb, ◌==◌, if◌then◌else◌,
  Outcome, ok, ◌>>=◌, >>=-eq-ok, replicate, Bool-cases, Option-cases, inl, inr,
}
use easylzma.Format.{FileHeader, FileFooter}
use easylzma.Api.{ReadCallback, WriteCallback, ProgressCallback, elzma_e_ok, elzma_e_output_error}
use easylzma.Alloc.{Runtime, AllocStruct, elzma_alloc, elzma_free}
use easylzma.Sdk.{Crc, Encoder, Script, read, write, progress, allocate, release, finish, sz_ok}
use easylzma.Compress.{CompressHandle}
use easylzma.Compress.Streams.{Flow, elzma_read_func, elzma_write_func, elzma_progress, run_script}
use Prim.Native.Nat.{bit_xor}
use easylzma.Compress.Run.{
  Run, Returned, has_footer, supported, header_of, put_block, put_footer, encode_body, encode_file,
  begin_flow, with_encoder, elzma_compress_run,
}

-- What the state is after a report, if there is a callback.
abbrev pub report : {S : Type 0} → Option (ProgressCallback S) → ℕ → ℕ → S → S
report none in_size total s = s
report (some callback) in_size total s = callback in_size total s

report-flow :
    {S : Type 0} (callback : Option (ProgressCallback S)) (total in_size out_size : ℕ) (f : Flow S)
    → (elzma_progress callback total in_size out_size f).1
      ≡ record f { world = report callback in_size total f.world }
unfolding elzma_progress
report-flow none total in_size out_size f = refl
report-flow (some callback) total in_size out_size f = refl

-- A relation between the state outside, what was read and what was written: it is kept by a read
-- (with the bytes of a good one behind what was read), by a write (with all its bytes behind what was
-- written), and by all else that a run does to the state.
pub record Keeps {S : Type 0} (P : S → List ℕ → List ℕ → Type 0) (rt : Runtime S) (E : Encoder S)
    (alloc : AllocStruct S) (input_stream : ReadCallback S) (output_stream : WriteCallback S)
    (callback : Option (ProgressCallback S)) : Type 0 where
  pub reads :
      (size : ℕ) (s : S) (taken sent : List ℕ)
      → P s taken sent
      → let r = input_stream size s in
        P r.state (if r.status == 0 then taken ++ r.bytes else taken) sent
  pub writes :
      (buf : List ℕ) (s : S) (taken sent : List ℕ)
      → P s taken sent
      → P (output_stream buf s).1 taken (sent ++ buf)
  pub reports :
      (in_size total : ℕ) (s : S) (taken sent : List ℕ)
      → P s taken sent
      → P (report callback in_size total s) taken sent
  pub allocates :
      (size : ℕ) (s : S) (taken sent : List ℕ)
      → P s taken sent
      → P (elzma_alloc rt alloc size s).1 taken sent
  pub frees :
      (address : Option ℕ) (s : S) (taken sent : List ℕ)
      → P s taken sent
      → P (elzma_free rt alloc address s) taken sent
  pub creates : (s : S) → P s [] [] → P (E.create alloc s).1 [] []

module _ {S : Type 0} (P : S → List ℕ → List ℕ → Type 0) (crc : Crc) (rt : Runtime S)
    (E : Encoder S) (input_stream : ReadCallback S) (output_stream : WriteCallback S)
    (callback : Option (ProgressCallback S)) where
  abbrev pub Holds : Flow S → Type 0
  Holds f = P f.world f.taken f.sent

  Holds-at : (f f' : Flow S) → f ≡ f' → Holds f → Holds f'
  Holds-at f f' same h = subst (λ x. Holds x) same h

  module _ (alloc : AllocStruct S)
      (keeps : Keeps P rt E alloc input_stream output_stream callback) where
    run_script-Holds :
        (size : ℕ) (sums : Bool) (script : Script) (f : Flow S)
        → Holds f
        → Holds (run_script crc input_stream output_stream rt alloc callback size sums script f).1
    unfolding run_script elzma_read_func elzma_write_func elzma_progress
    run_script-Holds size sums (read n next) f h =
        run_script-Holds size sums (next _ _) _ (keeps.reads n f.world f.taken f.sent h)
    run_script-Holds size sums (write buf next) f h =
        run_script-Holds size sums (next _) _ (keeps.writes buf f.world f.taken f.sent h)
    run_script-Holds size sums (progress i o next) f h =
        run_script-Holds size sums (next _) _
          (rw (report-flow callback size i o f) (keeps.reports i size f.world f.taken f.sent h))
    run_script-Holds size sums (allocate n next) f h =
        run_script-Holds size sums (next _) _ (keeps.allocates n f.world f.taken f.sent h)
    run_script-Holds size sums (release a next) f h =
        run_script-Holds size sums next _ (keeps.frees a f.world f.taken f.sent h)
    run_script-Holds size sums (finish res) f h = h

  module _ (hand : CompressHandle S E.Enc)
      (keeps : Keeps P rt E hand.alloc_struct input_stream output_stream callback) where
    put_block-Holds :
        (size : ℕ) (fill : List ℕ → Outcome (ℕ × List ℕ)) (f : Flow S) {all : Bool} {f' : Flow S}
        → Holds f
        → put_block crc rt E output_stream hand size fill f ≡ ok (all, f')
        → Holds f'
    unfolding put_block elzma_write_func
    put_block-Holds size fill f {all} {f'} h e =
        elim (Option-cases (elzma_alloc rt hand.alloc_struct size f.world).0) [
          | inl null ↦ absurd (ground arith)
          | inr (address, made) ↦
              let s = (elzma_alloc rt hand.alloc_struct size f.world).1 in
              let wrote : ℕ × List ℕ → Outcome (Bool × Flow S) = λ r. ok (
                (output_stream r.1 s).0 == size,
                record f {
                  world = elzma_free rt hand.alloc_struct (some address) (output_stream r.1 s).1;
                  sent = f.sent ++ r.1;
                },
              ) in
              let ran : fill (replicate size 0) >>= wrote ≡ ok (all, f') = ground arith in
              let ((status, bytes), filled, last) = >>=-eq-ok (fill (replicate size 0)) wrote ran in
              let behind = keeps.frees (some address) _ _ _ (
                keeps.writes bytes s f.taken f.sent
                  (keeps.allocates size f.world f.taken f.sent h)) in
              let same : record f {
                world = elzma_free rt hand.alloc_struct (some address) (output_stream bytes s).1;
                sent = f.sent ++ bytes;
              }
                  ≡ f' =
                ground arith in
              subst (λ x. Holds x) same behind
        ]

    put_footer-Holds :
        (f : Flow S) {r : Run S E.Enc}
        → Holds f
        → put_footer crc rt E output_stream hand f ≡ ok r
        → Holds r.flow
    unfolding put_footer
    put_footer-Holds f {r} h e = elim (Option-cases hand.format_handler.serialize_footer) [
      | inl none_there ↦ Holds-at f r.flow (ground arith) h
      | inr (serialize_footer, there) ↦ elim (Bool-cases (ltb 0 hand.format_handler.footer_size)) [
        | inr no_bytes ↦ Holds-at f r.flow (ground arith) h
        | inl some_bytes ↦
            let ftr : FileFooter = record {
              crc32 = bit_xor f.crc32 0xFFFFFFFF;
              uncompressed_size = hand.uncompressed_size;
            } in
            let m =
              put_block crc rt E output_stream hand hand.format_handler.footer_size
                (serialize_footer ftr) f in
            let returned : Bool × Flow S → Outcome (Run S E.Enc) = λ x. ok (record {
              error = if x.0 then elzma_e_ok else elzma_e_output_error;
              hand = hand;
              flow = x.1;
            }) in
            let ran : m >>= returned ≡ ok r = ground arith in
            let ((all, f'), wrote, last) = >>=-eq-ok m returned ran in
            Holds-at f' r.flow (ground arith)
              (put_block-Holds hand.format_handler.footer_size (serialize_footer ftr) f h wrote)
      ]
    ]

    encode_body-Holds :
        (enc : E.Enc) (f : Flow S) {r : Run S E.Enc}
        → Holds f
        → encode_body crc rt E output_stream hand input_stream callback enc f ≡ ok r
        → Holds r.flow
    unfolding encode_body
    encode_body-Holds enc f {r} h e =
        let x =
          run_script crc input_stream output_stream rt hand.alloc_struct callback
            hand.uncompressed_size (has_footer hand.format_handler) (E.encode enc) f in
        let behind =
          run_script-Holds hand.alloc_struct keeps hand.uncompressed_size
            (has_footer hand.format_handler) (E.encode enc) f h in
        elim (Bool-cases (x.0 == sz_ok)) [
          | inl good ↦ put_footer-Holds x.1 {r = r} behind (ground arith)
          | inr bad ↦ Holds-at x.1 r.flow (ground arith) behind
        ]

    encode_file-Holds :
        (enc : E.Enc) (hdr : FileHeader) (f : Flow S) {r : Run S E.Enc}
        → Holds f
        → encode_file crc rt E output_stream hand input_stream callback enc hdr f ≡ ok r
        → Holds r.flow
    unfolding encode_file
    encode_file-Holds enc hdr f {r} h e = elim (Bool-cases (supported hand.format)) [
      | inr unknown ↦ Holds-at f r.flow (ground arith) h
      | inl known ↦
          let fill : List ℕ → Outcome (ℕ × List ℕ) = λ buf.
            hand.format_handler.serialize_header buf (header_of crc rt E output_stream hand hdr) in
          let m = put_block crc rt E output_stream hand hand.format_handler.header_size fill f in
          let ((all, f'), wrote, rest) = >>=-eq-ok m _ (rw known at e) in
          let behind = put_block-Holds hand.format_handler.header_size fill f h wrote in
          elim (Bool-cases all) [
            | inl taken ↦ encode_body-Holds enc f' behind (rw taken at rest)
            | inr short ↦ Holds-at f' r.flow (ground arith) behind
          ]
    ]

  -- Behind a run that returns, the relation holds between the state, what was read and what was
  -- written, if it held with nothing read and written before.
  pub elzma_compress_run-Holds :
      (hand : CompressHandle S E.Enc)
      (keeps : Keeps P rt E hand.alloc_struct input_stream output_stream callback)
      (hdr : FileHeader) (s : S) {r : Returned E}
      → P s [] []
      → elzma_compress_run crc rt E output_stream callback hdr (some hand) (some input_stream) s
        ≡ ok r
      → Holds r.2
  unfolding elzma_compress_run with_encoder
  elzma_compress_run-Holds hand keeps hdr s {r} h e =
      elim (Option-cases (E.create hand.alloc_struct s).0) [
        | inl null ↦
            Holds-at (begin_flow (E.create hand.alloc_struct s).1) r.2 (ground arith)
              (keeps.creates s h)
        | inr (enc, made) ↦
            let s' = (E.create hand.alloc_struct s).1 in
            let begun : Holds (begin_flow s') = keeps.creates s h in
            let set = E.set_props enc hand.props in
            elim (Bool-cases (set.0 == sz_ok)) [
              | inr bad ↦ Holds-at (begin_flow s') r.2 (ground arith) begun
              | inl fine ↦
                  let hand' : CompressHandle S E.Enc = record hand { enc_hand = some set.1 } in
                  let m =
                    encode_file crc rt E output_stream hand' input_stream callback set.1 hdr
                      (begin_flow s') in
                  let returned : Run S E.Enc → Outcome (Returned E) =
                    λ x. ok (x.error, some x.hand, x.flow) in
                  let ran : m >>= returned ≡ ok r = ground arith in
                  let (x, body, last) = >>=-eq-ok m returned ran in
                  Holds-at x.flow r.2 (ground arith)
                    (encode_file-Holds hand' keeps set.1 hdr (begin_flow s') begun body)
            ]
      ]
