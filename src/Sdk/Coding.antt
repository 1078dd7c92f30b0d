-- ===== src/Sdk/Coding.antt =====
-- What src/compress.c and src/decompress.c rely on when a file is to come back: how the SDK's decoder
-- goes through a coded body that it gets in pieces, and what its encoder makes of an input.
use easylzma.Common.{
  ℕ, ◌<◌, ◌≡◌, ◌≢◌, ◌⊎◌, List, [], ◌++◌, Option, some, length, take, drop, ◌==◌, if◌then◌else◌,
}
use easylzma.Sdk.{
  Decoder, finished_with_mark, Script, read, write, progress, allocate, release, finish, sz_ok,
}

-- `Stands dec body text` says that a decoder in state `dec` still expects the bytes `body`, which end
-- with an end mark, and that it will have put out `text` by then.
pub record StreamDecoder {S : Type 0} (D : Decoder S) : Type 1 where
  pub Stands : D.DecState → List ℕ → List ℕ → Type 0
  -- The end mark is still to come.
  pub open_end : (dec : D.DecState) (text : List ℕ) → Stands dec [] text → ⊥
  -- On a part of the body, the decoder takes it up and puts out some of the text; it leaves a piece
  -- of the part only when it has filled the output.
  pub on_part :
      (dec : D.DecState) (cap : ℕ) (part more text : List ℕ)
      → 0 < cap
      → more ≢ []
      → Stands dec (part ++ more) text
      → let r = D.decode_to_buf dec cap part in
        (r.status ≡ 0)
        × (r.stat ≢ finished_with_mark)
        × ((front : List ℕ) × (rest : List ℕ) × (text' : List ℕ) × (part ≡ front ++ rest)
            × (length front ≡ r.consumed)
            × (text ≡ r.output ++ text')
            × Stands r.dec (rest ++ more) text'
            × ((rest ≡ []) ⊎ (length r.output ≡ cap)))
  -- When the whole body is there, the decoder comes to the end mark and leaves what is behind it, or
  -- it fills the output.
  pub on_whole :
      (dec : D.DecState) (cap : ℕ) (body tail text : List ℕ)
      → 0 < cap
      → Stands dec body text
      → let r = D.decode_to_buf dec cap (body ++ tail) in
        (r.status ≡ 0)
        × (((r.stat ≡ finished_with_mark) × (r.output ≡ text) × (r.consumed ≡ length body))
            ⊎ ((r.stat ≢ finished_with_mark)
                × (length r.output ≡ cap)
                × ((front : List ℕ) × (rest : List ℕ) × (text' : List ℕ) × (body ≡ front ++ rest)
                    × (length front ≡ r.consumed)
                    × (text ≡ r.output ++ text')
                    × Stands r.dec rest text')))

-- A run of the encoder in which nothing fails: it reads all of `input`, each read giving the next
-- bytes, writes `body`, and ends with SZ_OK.
abbrev pub Encodes : Script → List ℕ → List ℕ → Type 0
Encodes (read size next) input body = Encodes (next sz_ok (take size input)) (drop size input) body
Encodes (write buf next) input body =
    (rest : List ℕ) × (body ≡ buf ++ rest) × Encodes (next (length buf)) input rest
Encodes (progress in_size out_size next) input body = Encodes (next sz_ok) input body
Encodes (allocate size next) input body = (address : ℕ) → Encodes (next (some address)) input body
Encodes (release address next) input body = Encodes next input body
Encodes (finish res) input body = (res ≡ sz_ok) × (input ≡ []) × (body ≡ [])

-- A run of the encoder with whatever answers: `taken` are the bytes that its reads with status 0 gave
-- it, in order, and `body` are the bytes of its writes, in order.
abbrev pub Transcript : Script → List ℕ → List ℕ → Type 0
Transcript (read size next) taken body =
    (rv : ℕ) × (bytes : List ℕ) × (rest : List ℕ) × (taken
      ≡ (if rv == 0 then bytes else []) ++ rest)
    × Transcript (next rv bytes) rest body
Transcript (write buf next) taken body =
    (wt : ℕ) × (rest : List ℕ) × (body ≡ buf ++ rest) × Transcript (next wt) taken rest
Transcript (progress in_size out_size next) taken body =
    (res : ℕ) × Transcript (next res) taken body
Transcript (allocate size next) taken body =
    (address : Option ℕ) × Transcript (next address) taken body
Transcript (release address next) taken body = Transcript next taken body
Transcript (finish res) taken body = (taken ≡ []) × (body ≡ [])
