-- ===== src/Simple/Written.antt =====
-- What `simpleCompress` of test/simple.c leaves in the buffer.
use Prim.Native.Nat.{bit_xor}
use mathlib.Core.List.{append_assoc}
use native.Mathlib.Nat.{pow-le-pow_right}
use easylzma.LzipHeader.RoundTrip.{pow_near-injective}
use easylzma.Common.{
  ℕ, ◌*◌, ◌^◌, ◌≤◌, ◌<◌, ◌≡◌, refl, ap, ◌∙◌, List, [], ◌∷◌, ◌++◌, Option, none, some, arith, not,
  ◌==◌, if◌then◌else◌, ok, Outcome, ◌>>=◌, >>=-eq-ok, length, leb, leb→le, Bool-cases, inl, inr,
}
use easylzma.Common.Words.LittleEndian.{le_bytes}
use easylzma.Format.{FileHeader}
use easylzma.LzipHeader.{magic}
use easylzma.Api.{lzip, elzma_e_ok}
use easylzma.Alloc.{Runtime, elzma_alloc, elzma_free, init_alloc_struct}
use easylzma.Sdk.{Crc, IsRunningCrc, Encoder, crc_init_val}
use easylzma.Sdk.Coding.{Transcript}
use easylzma.Compress.{
  CompressHandle, elzma_compress_alloc, elzma_compress_config, elzma_compress_free,
}
use easylzma.Compress.Invariant.{Keeps, elzma_compress_run-Holds}
use easylzma.Compress.Layout.{lzip_layout}
use easylzma.Compress.Run.{Returned, elzma_compress_run}
use easylzma.Simple.{
  DataStream, Answer, data_stream, input_callback, output_callback, free_out, simple_compress,
}
use easylzma.Simple.Streams.{input_callback_lem, output_callback_lem}

module _ {S : Type 0} (realloc : Option ℕ → ℕ → S → ℕ × S) (rt : Runtime (DataStream S))
    (E : Encoder (DataStream S)) where
  -- The heap and the encoder's allocation leave the two buffers alone.
  pub record LeavesBuffers : Type 0 where
    pub malloc :
        (size : ℕ) (ds : DataStream S)
        → ((rt.malloc size ds).1.in_data ≡ ds.in_data)
          × ((rt.malloc size ds).1.out_data ≡ ds.out_data)
    pub free :
        (address : Option ℕ) (ds : DataStream S)
        → ((rt.free address ds).in_data ≡ ds.in_data)
          × ((rt.free address ds).out_data ≡ ds.out_data)
    pub create :
        (ds : DataStream S)
        → let a = (elzma_compress_alloc {S = DataStream S} {Enc = E.Enc}).alloc_struct in
          ((E.create a ds).1.in_data ≡ ds.in_data) × ((E.create a ds).1.out_data ≡ ds.out_data)

  module _ (leaves : LeavesBuffers) (input : List ℕ) where
    -- What was read and what is left are the input, and the output is what was written.
    abbrev pub Split : DataStream S → List ℕ → List ℕ → Type 0
    Split ds taken sent = (taken ++ ds.in_data ≡ input) × (ds.out_data ≡ sent)

    pub simple-Keeps :
        Keeps Split rt E
          (elzma_compress_alloc {S = DataStream S} {Enc = E.Enc}).alloc_struct
          input_callback
          (output_callback realloc)
          none
    unfolding elzma_alloc elzma_free elzma_compress_alloc init_alloc_struct
    simple-Keeps = record {
      reads = λ size ds taken sent (whole, same).
          let (split, out, fits, read) = input_callback_lem size ds in
          let r = input_callback size ds in
          rw read (
            append_assoc taken r.bytes r.state.in_data ∙ ap (λ t. taken ++ t) split ∙ whole,
            out ∙ same,
          );
      writes = λ buf ds taken sent (whole, same).
          let (out, left, all) = output_callback_lem realloc buf ds in
          (ap (λ t. taken ++ t) left ∙ whole, out ∙ ap (λ t. t ++ buf) same);
      reports = λ in_size total ds taken sent h. h;
      allocates = λ size ds taken sent (whole, same).
          let (left, out) = leaves.malloc size ds in
          (ap (λ t. taken ++ t) left ∙ whole, out ∙ same);
      frees = λ address ds taken sent (whole, same).
          let (left, out) = leaves.free address ds in
          (ap (λ t. taken ++ t) left ∙ whole, out ∙ same);
      creates =
          λ ds (whole, same). let (left, out) = leaves.create ds in (left ∙ whole, out ∙ same);
    }

  -- A version 0 lzip file of the first bytes of an input, with a dictionary of 2^k bytes: the magic
  -- with the exponent, the bytes that the encoder writes when it reads those first bytes, and the
  -- footer with their checksum and the size of the whole input.
  abbrev pub FileOf : Crc → E.Enc → ℕ → List ℕ → List ℕ → Type 0
  FileOf crc enc k input buffer =
      (body : List ℕ) × (taken : List ℕ) × (left : List ℕ) × (taken ++ left ≡ input)
      × Transcript (E.encode enc) taken body
      × (buffer
          ≡ (magic ++ (0 ∷ k ∷ []))
            ++ (body
                ++ (le_bytes 4 (bit_xor (crc.update crc_init_val taken) 0xFFFFFFFF)
                    ++ le_bytes 8 (length input))))

  -- The code behind the run.
  abbrev returned : Crc → Returned E → Outcome (Answer S)
  returned crc r =
      if not (r.0 == elzma_e_ok)
      then (elzma_compress_free E (some r.1) (free_out realloc rt crc r.2.world) >>= λ freed.
          ok (record { rc = r.0; out = none; streams = freed.1 }))
      else ok (record { rc = r.0; out = some r.2.world.out_data; streams = r.2.world })

  returned-ok :
      (crc : Crc) (r : Returned E) {a : Answer S}
      → returned crc r ≡ ok a
      → a.rc ≡ elzma_e_ok
      → (r.0 ≡ elzma_e_ok) × (a.out ≡ some r.2.world.out_data)
  returned-ok crc r {a} e good = elim (Bool-cases (r.0 == elzma_e_ok)) [
    | inl fine ↦ (ground arith, ground arith)
    | inr bad ↦
        let (freed, gone, last) =
          >>=-eq-ok (elzma_compress_free E (some r.1) (free_out realloc rt crc r.2.world)) _
            (rw bad at e) in
        absurd (ground arith)
  ]

  pub exponent : (k : ℕ) → 2 ^ k ≤ 2 ^ 20 → 2 ^ 20 < 2 * 2 ^ k → k ≡ 20
  exponent k low high = elim (Bool-cases (leb k 20)) [
    | inl small ↦ omega (arith, pow_near-injective 20 k low high, leb→le k 20 small)
    | inr large ↦
        absurd
          (ground (arith, pow-le-pow_right {n = 2} (omega arith) {i = 21} {j = k} (ground arith)))
  ]

  -- Let the checksum be a running one, and let the heap and the encoder's allocation leave the buffers
  -- alone. When compressing a buffer for lzip returns ELZMA_E_OK, the encoder was created, and the
  -- caller gets a buffer that is an lzip file of the input's first bytes, those that this encoder, with
  -- the configured properties, has read: the magic, a 0 and 20, the bytes that the encoder wrote in
  -- that run, and the footer with the checksum of what it read and the size of the whole input.
  pub simple_compress-FileOf :
      (leaves : LeavesBuffers) (crc : Crc) (law : IsRunningCrc crc) (h : FileHeader)
      (input : List ℕ) (s : S) {a : Answer S}
      → simple_compress realloc rt crc E h lzip input s ≡ ok a
      → a.rc ≡ elzma_e_ok
      → let start : CompressHandle (DataStream S) E.Enc = elzma_compress_alloc in
        let configured = (elzma_compress_config start 3 0 2 5 (2 ^ 20) lzip (length input)).1 in
        (buffer : List ℕ) × (enc : E.Enc) × ((E.create start.alloc_struct (data_stream input s)).0
          ≡ some enc)
        × (a.out ≡ some buffer)
        × FileOf crc (E.set_props enc configured.props).1 20 input buffer
  unfolding simple_compress elzma_compress_config
  simple_compress-FileOf leaves crc law h input s {a} e good =
      let start : CompressHandle (DataStream S) E.Enc = elzma_compress_alloc in
      let hand = (elzma_compress_config start 3 0 2 5 (2 ^ 20) lzip (length input)).1 in
      let m =
        elzma_compress_run crc rt E (output_callback realloc) none h (some hand)
          (some input_callback) (data_stream input s) in
      let (r, ran, rest) = >>=-eq-ok m (returned crc) e in
      let (zero_code, out) = returned-ok crc r rest good in
      let ran_ok : m ≡ ok (elzma_e_ok, r.1, r.2) = ran ∙ ap (λ n. ok (n, r.1, r.2)) zero_code in
      let (whole, same) =
        elzma_compress_run-Holds (Split leaves input) crc rt E input_callback
          (output_callback realloc) none hand (simple-Keeps leaves input) h (data_stream input s)
          (refl, refl) ran in
      let (enc, made, (k, body, low, high, spoken, sent)) =
        lzip_layout crc law rt E input_callback (output_callback realloc) none start 3 0 2 5
          (2 ^ 20) (length input) h (data_stream input s) {hand = r.1} {flow = r.2} (omega arith)
          (omega arith) ran_ok in
      (
        r.2.world.out_data,
        enc,
        made,
        out,
        (
          body,
          r.2.taken,
          r.2.world.in_data,
          whole,
          spoken,
          same
              ∙ sent
              ∙ ap
                  (λ j.
                    (magic ++ (0 ∷ j ∷ []))
                    ++ (body
                        ++ (le_bytes 4 (bit_xor (crc.update crc_init_val r.2.taken) 0xFFFFFFFF)
                            ++ le_bytes 8 (length input))))
                  (exponent k low high),
        ),
      )
