-- ===== src/Compress/Whole.antt =====
-- `elzma_compress_run` of src/compress.c from end to end, when the client and the encoder do not fail.
use mathlib.Core.List.{append_assoc}
use easylzma.Common.{
  ℕ, ◌≡◌, refl, sym, ap, ◌∙◌, true, List, ◌++◌, Option, some, arith, ok, Outcome, length, replicate,
}
use easylzma.Format.{FileHeader}
use easylzma.Api.{ReadCallback, WriteCallback, ProgressCallback, elzma_e_ok}
use easylzma.Api.Clients.{HasInput}
use easylzma.Alloc.{Runtime, AllocStruct}
use easylzma.Alloc.Heap.{HasHeap}
use easylzma.Sdk.{Crc, IsRunningCrc, Encoder, EncProps, crc_init_val, sz_ok}
use easylzma.Sdk.Coding.{Encodes}
use easylzma.Compress.{CompressHandle}
use easylzma.Compress.Streams.{Flow}
use easylzma.Compress.Tracking.{ran, run_script-Sums}
use easylzma.Compress.Success.{put_block_lem}
use easylzma.Compress.Forward.{run_script-UsesUp, put_block-succeeds}
use easylzma.Compress.Run.{
  leave, supported, has_footer, header_of, put_footer, encode_body, encode_file, begin_flow,
  with_encoder, elzma_compress_run,
}

module _ {S : Type 0} (crc : Crc) (rt : Runtime S) (E : Encoder S) (input_stream : ReadCallback S)
    (output_stream : WriteCallback S) (callback : Option (ProgressCallback S))
    (client : HasInput input_stream output_stream) where
  -- The code behind the encoder puts these bytes behind what was written.
  abbrev pub PutsFooter : CompressHandle S E.Enc → (ℕ → List ℕ) → Type 0
  PutsFooter hand tail =
      (f : Flow S)
      → (f' : Flow S) × (put_footer crc rt E output_stream hand f
          ≡ ok (leave crc rt E output_stream hand elzma_e_ok f'))
        × (f'.sent ≡ f.sent ++ tail f.crc32)
        × (f'.taken ≡ f.taken)

  module _ (hand : CompressHandle S E.Enc) (heap : HasHeap rt hand.alloc_struct client.unread)
      (reports : (report : ProgressCallback S) (in_size total : ℕ) (s : S)
        → callback ≡ some report
        → client.unread (report in_size total s) ≡ client.unread s)
      (front : List ℕ) (tail : ℕ → List ℕ) (h : FileHeader) (known : supported hand.format ≡ true)
      (header : hand.format_handler.serialize_header
          (replicate hand.format_handler.header_size 0)
          (header_of crc rt E output_stream hand h)
        ≡ ok (0, front))
      (sized : length front ≡ hand.format_handler.header_size) (footer : PutsFooter hand tail)
      (law : has_footer hand.format_handler ≡ true → IsRunningCrc crc) (input body : List ℕ)
      (enc : E.Enc) (coded : Encodes (E.encode enc) input body) where
    abbrev script_end : Flow S → Flow S
    script_end =
        ran crc rt hand.alloc_struct input_stream output_stream callback hand.uncompressed_size
          (has_footer hand.format_handler) (E.encode enc)

    body_succeeds :
        (f : Flow S)
        → client.unread f.world ≡ input
        → (f' : Flow S) × (encode_body crc rt E output_stream hand input_stream callback enc f
            ≡ ok (leave crc rt E output_stream hand elzma_e_ok f'))
          × (f'.sent ≡ (f.sent ++ body) ++ tail (script_end f).crc32)
          × (f'.taken ≡ f.taken ++ input)
          × ((script_end f).taken ≡ f.taken ++ input)
    unfolding encode_body
    body_succeeds f left =
        let c = has_footer hand.format_handler in
        let (good, taken, sent, used) =
          run_script-UsesUp crc rt hand.alloc_struct input_stream output_stream callback client heap
            reports hand.uncompressed_size c (E.encode enc) input body f coded left in
        let (f', put, written, kept) = footer (script_end f) in
        (
          f',
          ground (arith, good, put),
          written ∙ ap (λ t. t ++ tail (script_end f).crc32) sent,
          kept ∙ taken,
          taken,
        )

    pub encode_file-succeeds :
        (s : S)
        → client.unread s ≡ input
        → (f : Flow S) × (encode_file crc rt E output_stream hand input_stream callback enc h
              (begin_flow s)
            ≡ ok (leave crc rt E output_stream hand elzma_e_ok f))
          × (sum : ℕ) × (f.sent ≡ front ++ (body ++ tail sum))
          × (f.taken ≡ input)
          × (has_footer hand.format_handler ≡ true → sum ≡ crc.update crc_init_val input)
    unfolding encode_file
    encode_file-succeeds s left =
        let fill : List ℕ → Outcome (ℕ × List ℕ) = λ buf.
          hand.format_handler.serialize_header buf (header_of crc rt E output_stream hand h) in
        let size = hand.format_handler.header_size in
        let (f', wrote, unread) =
          put_block-succeeds crc rt E input_stream output_stream client hand heap size fill
            (begin_flow s) header sized in
        let (sent, checksum, taken) =
          put_block_lem crc rt E output_stream hand size fill (begin_flow s) header wrote in
        let (f, ends, written, read, through) = body_succeeds f' (unread ∙ left) in
        let summed : has_footer hand.format_handler ≡ true
            → (script_end f').crc32 ≡ crc.update crc_init_val input =
          λ on.
            run_script-Sums crc rt hand.alloc_struct input_stream output_stream callback
              hand.uncompressed_size (has_footer hand.format_handler) law (E.encode enc) f'
              (λ on.
                checksum
                ∙ sym ((law on).update-nil crc_init_val)
                ∙ ap (crc.update crc_init_val) (sym taken))
              on
            ∙ ap (crc.update crc_init_val) (through ∙ ap (λ t. t ++ input) taken) in
        (
          f,
          rw (encode_file, known, wrote, ends) refl,
          (script_end f').crc32,
          written
              ∙ ap (λ t. (t ++ body) ++ tail (script_end f').crc32) sent
              ∙ append_assoc front body (tail (script_end f').crc32),
          read ∙ ap (λ t. t ++ input) taken,
          summed,
        )

  -- An encoder can be created, takes the properties, and then codes the input as the body.
  abbrev pub Codes : AllocStruct S → EncProps → List ℕ → List ℕ → Type 0
  Codes alloc props input body =
      (s : S)
      → (enc : E.Enc) × ((E.create alloc s).0 ≡ some enc)
        × (client.unread (E.create alloc s).1 ≡ client.unread s)
        × ((E.set_props enc props).0 ≡ sz_ok)
        × Encodes (E.encode (E.set_props enc props).1) input body

  pub run_returns :
      (hand : CompressHandle S E.Enc) (h : FileHeader) (s : S) (enc : E.Enc) (f : Flow S)
      → (E.create hand.alloc_struct s).0 ≡ some enc
      → (E.set_props enc hand.props).0 ≡ sz_ok
      → let enc' = (E.set_props enc hand.props).1 in
        let hand' : CompressHandle S E.Enc = record hand { enc_hand = some enc' } in
        encode_file crc rt E output_stream hand' input_stream callback enc' h
            (begin_flow (E.create hand.alloc_struct s).1)
          ≡ ok (leave crc rt E output_stream hand' elzma_e_ok f)
        → elzma_compress_run crc rt E output_stream callback h (some hand) (some input_stream) s
          ≡ ok (elzma_e_ok, some hand', f)
  unfolding elzma_compress_run with_encoder
  run_returns hand h s enc f made set done = rw (elzma_compress_run, made, set, done) refl
