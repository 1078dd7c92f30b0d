-- ===== src/Decompress/Complete.antt =====
-- `elzma_decompress_run` of src/decompress.c on an input that is a whole file.
use easylzma.Common.{
  ℕ, ◌%◌, ◌^◌, ◌<◌, ◌≡◌, refl, sym, ap, ◌∙◌, subst, Bool, true, List, ◌++◌, some, arith, ok, length,
  take, drop,
}
use easylzma.Common.Strings.{drop-append, take-append}
use easylzma.Format.{FileHeader, FileFooter, FormatHandler}
use easylzma.Api.{FileFormat, ReadCallback, WriteCallback}
use easylzma.Alloc.{Runtime, elzma_alloc, elzma_free}
use easylzma.Alloc.Heap.{HasHeap}
use easylzma.Api.Clients.{HasInput}
use easylzma.Sdk.{Crc, IsRunningCrc, Decoder, crc_init_val}
use easylzma.Sdk.Coding.{StreamDecoder}
use easylzma.Decompress.{DecompressHandle, Progress, is_lzip}
use easylzma.Decompress.Run.{
  zero_footer, at_loop, finish, read_footer, decoder_props, decode_stream, read_header,
  select_handler, elzma_decompress_run,
}
use easylzma.Decompress.Tracking.{Tracks, outer_loop-Tracks}
use easylzma.Decompress.OneBuffer.{Amid}
use easylzma.Decompress.LaidOut.{IsLaidOut}
use easylzma.Decompress.Whole.{outer_loop-whole}

-- The heap and the decoder's allocation do not touch the client's input.
pub record HasMemory {S : Type 0} (rt : Runtime S) (D : Decoder S) (hand : DecompressHandle S)
    (unread : S → List ℕ) : Type 0 where
  pub heap : HasHeap rt hand.alloc_struct unread
  pub allocate :
      (props : List ℕ) (s : S)
      → unread (D.allocate hand.alloc_struct (D.init D.blank) props s).2 ≡ unread s

-- A decoder that is allocated with these properties expects the body, and will put out the text.
abbrev pub Decodes :
    {S : Type 0} (D : Decoder S)
    → StreamDecoder D
    → DecompressHandle S
    → List ℕ
    → List ℕ
    → List ℕ
    → Type 0
Decodes {S} D streams hand props body text =
    (s : S) → streams.Stands (D.allocate hand.alloc_struct (D.init D.blank) props s).1 body text

module _ {S : Type 0} (rt : Runtime S) (crc : Crc) (D : Decoder S) (streams : StreamDecoder D)
    (hand : DecompressHandle S) (input_stream : ReadCallback S) (output_stream : WriteCallback S)
    (client : HasInput input_stream output_stream) where
  module _ (memory : HasMemory rt D hand client.unread) (lz : Bool)
      (law : lz ≡ true → IsRunningCrc crc) (handler : FormatHandler) (h : FileHeader) (rounds : ℕ)
      (body text tail beyond : List ℕ) (Read : FileFooter → Type 0)
      (footer : (amt : ℕ) (after : List ℕ)
        → (0 < length tail → amt ≡ length tail)
        → (f' : FileFooter) × (read_footer handler amt (tail ++ after) zero_footer ≡ ok f')
          × Read f')
      (sized : h.is_streamed ≡ 0
        → (h.uncompressed_size ≡ length text) × (length text < 2 ^ 64) × Read zero_footer)
      (laid : IsLaidOut body tail beyond) (enough_body : length body < rounds)
      (enough_text : length text < rounds) where
    abbrev pub WholeRun : Progress S D.DecState → Type 0
    WholeRun q =
        (q.sent ≡ text)
        × Read q.footer
        × (q.total_read ≡ length text % 2 ^ 64)
        × (lz ≡ true → q.crc32 ≡ crc.update crc_init_val text)

    decode_stream-whole :
        (dec : D.DecState) (s : S)
        → streams.Stands dec body text
        → client.unread s ≡ body ++ (tail ++ beyond)
        → (q : Progress S D.DecState) × (decode_stream rt crc D hand input_stream output_stream
              rounds lz handler h dec s
            ≡ ok (finish rt crc D hand input_stream output_stream handler h 0 q))
          × WholeRun q
    unfolding decode_stream
    decode_stream-whole dec s stands unread =
        let start = at_loop rt crc D hand input_stream output_stream dec s in
        let at : Amid crc D streams input_stream output_stream client lz text start body text
            (body ++ (tail ++ beyond)) =
          record { sent = refl; stands = stands; unread = unread; total = refl; footer = refl } in
        let (q, ran, through, found) =
          outer_loop-whole crc D streams input_stream output_stream client lz text handler h rounds
            tail beyond Read footer sized rounds start body text at laid enough_body enough_text in
        let begin : Tracks crc D output_stream lz law start = record {
          total = refl;
          checksum = λ on. sym ((law on).update-nil crc_init_val);
        } in
        let t =
          outer_loop-Tracks crc D output_stream lz law input_stream handler h rounds rounds start
            begin ran in
        (
          q,
          rw ran refl,
          (
            through,
            found,
            t.total ∙ ap (λ x. length x % 2 ^ 64) through,
            λ on. t.checksum on ∙ ap (crc.update crc_init_val) through,
          ),
        )

    read_header-whole :
        (address : ℕ) (front props : List ℕ) (old : FileHeader) (s : S)
        → client.unread s ≡ front ++ (body ++ (tail ++ beyond))
        → length front ≡ handler.header_size
        → handler.parse_header front old ≡ ok (0, h)
        → decoder_props lz front h ≡ ok props
        → Decodes D streams hand props body text
        → (q : Progress S D.DecState) × (read_header rt crc D hand input_stream output_stream rounds
              lz handler
              (some address)
              old
              s
            ≡ ok (finish rt crc D hand input_stream output_stream handler h 0 q))
          × WholeRun q
    unfolding read_header
    read_header-whole address front props old s unread size parsed found coded =
        let n = handler.header_size in
        let x = input_stream n s in
        let (good, bytes, next) = client.reads n s in
        let read : x.bytes ≡ front =
          bytes
          ∙ ap (take n) unread
          ∙ subst (λ k. take k (front ++ (body ++ (tail ++ beyond))) ≡ front) size
              (take-append front (body ++ (tail ++ beyond))) in
        let behind : client.unread x.state ≡ body ++ (tail ++ beyond) =
          next
          ∙ ap (drop n) unread
          ∙ subst (λ k. drop k (front ++ (body ++ (tail ++ beyond))) ≡ body ++ (tail ++ beyond))
              size (drop-append front (body ++ (tail ++ beyond))) in
        let a = D.allocate hand.alloc_struct (D.init D.blank) props x.state in
        let ready : client.unread (elzma_free rt hand.alloc_struct (some address) a.2)
            ≡ body ++ (tail ++ beyond) =
          memory.heap.free (some address) a.2 ∙ memory.allocate props x.state ∙ behind in
        let (q, ran, whole) =
          decode_stream-whole a.1 (elzma_free rt hand.alloc_struct (some address) a.2)
            (coded x.state) ready in
        (q, rw (read, parsed) (ground (arith, found, ran)), whole)

    -- A run whose format's handler is `handler`.
    pub run-whole :
        (junk : FormatHandler) (junk_header : FileHeader) (format : FileFormat)
        (front props : List ℕ) (s : S)
        → select_handler format junk ≡ some handler
        → is_lzip format ≡ lz
        → client.unread s ≡ front ++ (body ++ (tail ++ beyond))
        → length front ≡ handler.header_size
        → handler.parse_header front (handler.init_header junk_header) ≡ ok (0, h)
        → decoder_props lz front h ≡ ok props
        → Decodes D streams hand props body text
        → (q : Progress S D.DecState) × (elzma_decompress_run rt crc D hand input_stream
              output_stream rounds junk junk_header format s
            ≡ ok (finish rt crc D hand input_stream output_stream handler h 0 q))
          × WholeRun q
    unfolding elzma_decompress_run
    run-whole junk junk_header format front props s chosen lzip_format unread size parsed found
          coded =
        let (address, got, kept) = memory.heap.alloc handler.header_size s in
        let s' = (elzma_alloc rt hand.alloc_struct handler.header_size s).1 in
        let (q, ran, whole) =
          read_header-whole address front props (handler.init_header junk_header) s' (kept ∙ unread)
            size parsed found coded in
        (q, rw (elzma_decompress_run, chosen, got, lzip_format) ran, whole)
