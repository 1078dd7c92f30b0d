-- ===== src/Compress/Forward.antt =====
-- The parts of `elzma_compress_run` of src/compress.c, when the client and the encoder do not fail.
use mathlib.Core.List.{append-nil, append_assoc}
use easylzma.Common.{
  ℕ, ◌≡◌, refl, sym, ap, ◌∙◌, subst, Bool, true, List, [], ◌++◌, Option, none, some, arith, ok,
  Outcome, length, take, drop, replicate, ◌==◌,
}
use easylzma.Common.Strings.{take-drop}
use easylzma.Api.{ReadCallback, WriteCallback, ProgressCallback}
use easylzma.Api.Clients.{HasInput}
use easylzma.Alloc.{Runtime, AllocStruct, elzma_alloc}
use easylzma.Alloc.Heap.{HasHeap}
use easylzma.Sdk.{Crc, Encoder, Script, read, write, progress, allocate, release, finish, sz_ok}
use easylzma.Sdk.Coding.{Encodes}
use easylzma.Compress.{CompressHandle}
use easylzma.Compress.Streams.{Flow, elzma_read_func, elzma_write_func, elzma_progress, run_script}
use easylzma.Compress.Run.{released, put_block}

module _ {S : Type 0} (crc : Crc) (rt : Runtime S) (alloc : AllocStruct S)
    (input_stream : ReadCallback S) (output_stream : WriteCallback S)
    (callback : Option (ProgressCallback S)) (client : HasInput input_stream output_stream)
    (heap : HasHeap rt alloc client.unread)
    (reports : (report : ProgressCallback S) (in_size total : ℕ) (s : S)
      → callback ≡ some report
      → client.unread (report in_size total s) ≡ client.unread s)
    (uncompressed_size : ℕ) (c : Bool) where
  elzma_progress_lem :
      (a b : ℕ) (f : Flow S)
      → let g = (elzma_progress callback uncompressed_size a b f).1 in
        (g.taken ≡ f.taken)
        × (g.sent ≡ f.sent)
        × (client.unread g.world ≡ client.unread f.world)
        × ((elzma_progress callback uncompressed_size a b f).0 ≡ sz_ok)
  unfolding elzma_progress
  elzma_progress_lem a b f = go callback refl
    where
      go :
          (x : Option (ProgressCallback S))
          → callback ≡ x
          → let g = (elzma_progress x uncompressed_size a b f).1 in
            (g.taken ≡ f.taken)
            × (g.sent ≡ f.sent)
            × (client.unread g.world ≡ client.unread f.world)
            × ((elzma_progress x uncompressed_size a b f).0 ≡ sz_ok)
      go none e = (refl, refl, refl, refl)
      go (some report) e = (refl, refl, reports report a uncompressed_size f.world e, refl)

  abbrev script_run : Script → Flow S → ℕ × Flow S
  script_run = run_script crc input_stream output_stream rt alloc callback uncompressed_size c

  -- A part of the run that succeeds, with these bytes read and written by then, and all input used.
  abbrev pub UsesUp : ℕ × Flow S → List ℕ → List ℕ → Type 0
  UsesUp x taken sent =
      (x.0 ≡ sz_ok) × (x.1.taken ≡ taken) × (x.1.sent ≡ sent) × (client.unread x.1.world ≡ [])

  elzma_read_func_lem :
      (size : ℕ) (input : List ℕ) (f : Flow S)
      → client.unread f.world ≡ input
      → let r = elzma_read_func crc input_stream c size f in
        (r.0 ≡ sz_ok)
        × (r.1 ≡ take size input)
        × (r.2.taken ≡ f.taken ++ take size input)
        × (r.2.sent ≡ f.sent)
        × (client.unread r.2.world ≡ drop size input)
  unfolding elzma_read_func
  elzma_read_func_lem size input f left =
      let (good, bytes, next) = client.reads size f.world in
      let read = bytes ∙ ap (take size) left in
      (good, read, rw (good, read) refl, refl, next ∙ ap (drop size) left)

  -- The rest of a run, from a flow that is described otherwise.
  UsesUp-from :
      (x : ℕ × Flow S) {taken taken' sent sent' : List ℕ}
      → UsesUp x taken sent
      → taken ≡ taken'
      → sent ≡ sent'
      → UsesUp x taken' sent'
  UsesUp-from x (good, t, s, left) et es = (good, t ∙ et, s ∙ es, left)

  pub run_script-UsesUp :
      (script : Script) (input body : List ℕ) (f : Flow S)
      → Encodes script input body
      → client.unread f.world ≡ input
      → UsesUp (script_run script f) (f.taken ++ input) (f.sent ++ body)
  unfolding run_script elzma_write_func
  run_script-UsesUp (read size next) input body f coded left =
      let r = elzma_read_func crc input_stream c size f in
      let (good, bytes, taken, sent, rest) = elzma_read_func_lem size input f left in
      let coded' =
        subst (λ rv. Encodes (next rv r.1) (drop size input) body) (sym good)
          (subst (λ bs. Encodes (next sz_ok bs) (drop size input) body) (sym bytes) coded) in
      UsesUp-from (script_run (next r.0 r.1) r.2)
        (run_script-UsesUp (next r.0 r.1) (drop size input) body r.2 coded' rest)
        (ap (λ t. t ++ drop size input) taken
          ∙ append_assoc f.taken (take size input) (drop size input)
          ∙ ap (λ t. f.taken ++ t) (take-drop size input))
        (ap (λ t. t ++ body) sent)
  run_script-UsesUp (write buf next) input body f (rest, same, coded) left =
      let (all, kept) = client.writes buf f.world in
      let w = elzma_write_func output_stream buf f in
      let coded' = subst (λ wt. Encodes (next wt) input rest) (sym all) coded in
      UsesUp-from (script_run (next w.0) w.1)
        (run_script-UsesUp (next w.0) input rest w.1 coded' (kept ∙ left)) refl
        (append_assoc f.sent buf rest ∙ ap (λ t. f.sent ++ t) (sym same))
  run_script-UsesUp (progress a b next) input body f coded left =
      let p = elzma_progress callback uncompressed_size a b f in
      let (taken, sent, kept, good) = elzma_progress_lem a b f in
      let coded' = subst (λ r. Encodes (next r) input body) (sym good) coded in
      UsesUp-from (script_run (next p.0) p.1)
        (run_script-UsesUp (next p.0) input body p.1 coded' (kept ∙ left))
        (ap (λ t. t ++ input) taken) (ap (λ t. t ++ body) sent)
  run_script-UsesUp (allocate size next) input body f coded left =
      let (address, got, kept) = heap.alloc size f.world in
      let coded' = subst (λ x. Encodes (next x) input body) (sym got) (coded address) in
      run_script-UsesUp (next _) input body _ coded' (kept ∙ left)
  run_script-UsesUp (release address next) input body f coded left =
      run_script-UsesUp next input body _ coded (heap.free address f.world ∙ left)
  run_script-UsesUp (finish res) input body f (good, no_input, no_body) left =
      (good, rw (no_input, append-nil) refl, rw (no_body, append-nil) refl, left ∙ no_input)

module _ {S : Type 0} (crc : Crc) (rt : Runtime S) (E : Encoder S) (input_stream : ReadCallback S)
    (output_stream : WriteCallback S) (client : HasInput input_stream output_stream)
    (hand : CompressHandle S E.Enc) (heap : HasHeap rt hand.alloc_struct client.unread) where
  pub put_block-succeeds :
      (size : ℕ) (fill : List ℕ → Outcome (ℕ × List ℕ)) (f : Flow S) {status : ℕ} {bytes : List ℕ}
      → fill (replicate size 0) ≡ ok (status, bytes)
      → length bytes ≡ size
      → (f' : Flow S) × (put_block crc rt E output_stream hand size fill f ≡ ok (true, f'))
        × (client.unread f'.world ≡ client.unread f.world)
  unfolding put_block elzma_write_func
  put_block-succeeds size fill f {status} {bytes} filled sized =
      let (address, got, kept) = heap.alloc size f.world in
      let s = (elzma_alloc rt hand.alloc_struct size f.world).1 in
      let (all, same) = client.writes bytes s in
      let freed = heap.free (some address) (output_stream bytes s).1 in
      let w = elzma_write_func output_stream bytes (record f { world = s }) in
      let taken : (w.0 == size) ≡ true = ground (arith, all, sized) in
      (
        released crc rt E output_stream hand address w.1,
        rw (put_block, got, filled, taken) refl,
        freed ∙ same ∙ kept,
      )
