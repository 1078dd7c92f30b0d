-- ===== src/Compress/Tracking.antt =====
-- What the stream hooks of src/compress.c keep while the encoder runs.
use mathlib.Core.List.{append-nil, append_assoc}
use easylzma.Common.{
  ℕ, ◌≡◌, refl, sym, ap, ◌∙◌, Bool, true, false, List, [], ◌∷◌, ◌++◌, Option, arith, ◌==◌, length,
  ltb, ◌&&◌, if◌then◌else◌,
}
use easylzma.Api.{ReadCallback, WriteCallback, ProgressCallback}
use easylzma.Alloc.{Runtime, AllocStruct, elzma_alloc}
use easylzma.Sdk.{
  Crc, IsRunningCrc, Script, read, write, progress, allocate, release, finish, crc_init_val,
}
use easylzma.Sdk.Coding.{Transcript}
use easylzma.Compress.Streams.{Flow, elzma_read_func, elzma_write_func, elzma_progress, run_script}

taken_on :
    (good : Bool) (old bytes more : List ℕ)
    → (if good then old ++ bytes else old) ++ more ≡ old ++ ((if good then bytes else []) ++ more)
taken_on true old bytes more = append_assoc old bytes more
taken_on false old bytes more = refl

module _ {S : Type 0} (crc : Crc) (rt : Runtime S) (alloc : AllocStruct S)
    (input_stream : ReadCallback S) (output_stream : WriteCallback S)
    (callback : Option (ProgressCallback S)) (uncompressed_size : ℕ) where
  -- What the encoder read and wrote is added behind what was there.
  abbrev pub Extends : Script → Flow S → Flow S → Type 0
  Extends script f g =
      (taken : List ℕ) × (body : List ℕ) × (g.taken ≡ f.taken ++ taken)
      × (g.sent ≡ f.sent ++ body)
      × Transcript script taken body

  -- The checksum is that of the bytes that were read.
  abbrev pub Sums : Bool → Flow S → Type 0
  Sums calculate_crc f = calculate_crc ≡ true → f.crc32 ≡ crc.update crc_init_val f.taken

  elzma_progress-flow :
      (a b : ℕ) (f : Flow S)
      → ((elzma_progress callback uncompressed_size a b f).1.sent ≡ f.sent)
        × ((elzma_progress callback uncompressed_size a b f).1.crc32 ≡ f.crc32)
        × ((elzma_progress callback uncompressed_size a b f).1.taken ≡ f.taken)
  unfolding elzma_progress
  elzma_progress-flow a b f = ground arith

  elzma_read_func-Sums :
      (c : Bool) (law : c ≡ true → IsRunningCrc crc) (size : ℕ) (f : Flow S)
      → Sums c f
      → Sums c (elzma_read_func crc input_stream c size f).2
  unfolding elzma_read_func
  elzma_read_func-Sums c law size f h on = added (input_stream size f.world).bytes
    where
      good : Bool
      good = (input_stream size f.world).status == 0

      added :
          (bytes : List ℕ)
          → (if good && ltb 0 (length bytes) && c then crc.update f.crc32 bytes else f.crc32)
            ≡ crc.update crc_init_val (if good then f.taken ++ bytes else f.taken)
      added [] = rw append-nil (ground (arith, h on))
      added (x ∷ bytes) =
          ground (arith, h on, (law on).update-append crc_init_val f.taken (x ∷ bytes))

  module _ (c : Bool) where
    abbrev pub ran : Script → Flow S → Flow S
    ran script f =
        (run_script crc input_stream output_stream rt alloc callback uncompressed_size c script f).1

    pub run_script-Extends : (script : Script) (f : Flow S) → Extends script f (ran script f)
    unfolding run_script elzma_read_func elzma_write_func
    run_script-Extends (read size next) f =
        let (rv, bytes, f') = elzma_read_func crc input_stream c size f in
        let (taken, body, read_on, wrote, rest) = run_script-Extends (next rv bytes) f' in
        (
          (if rv == 0 then bytes else []) ++ taken,
          body,
          read_on ∙ taken_on (rv == 0) f.taken bytes taken,
          wrote,
          (rv, bytes, taken, refl, rest),
        )
    run_script-Extends (write buf next) f =
        let (wt, f') = elzma_write_func output_stream buf f in
        let (taken, body, read_on, wrote, rest) = run_script-Extends (next wt) f' in
        (taken, buf ++ body, read_on, wrote ∙ append_assoc f.sent buf body, (wt, body, refl, rest))
    run_script-Extends (progress a b next) f =
        let (res, f') = elzma_progress callback uncompressed_size a b f in
        let (taken, body, read_on, wrote, rest) = run_script-Extends (next res) f' in
        let (sent, kept, same) = elzma_progress-flow a b f in
        (
          taken,
          body,
          read_on ∙ ap (λ t. t ++ taken) same,
          wrote ∙ ap (λ t. t ++ body) sent,
          (res, rest),
        )
    run_script-Extends (allocate size next) f =
        let (address, s) = elzma_alloc rt alloc size f.world in
        let (taken, body, read_on, wrote, rest) =
          run_script-Extends (next address) (record f { world = s }) in
        (taken, body, read_on, wrote, (address, rest))
    run_script-Extends (release x next) f = run_script-Extends next _
    run_script-Extends (finish res) f =
        ([], [], sym (append-nil f.taken), sym (append-nil f.sent), (refl, refl))

    pub run_script-Sums :
        (law : c ≡ true → IsRunningCrc crc) (script : Script) (f : Flow S)
        → Sums c f
        → Sums c (ran script f)
    unfolding run_script elzma_write_func
    run_script-Sums law (read size next) f h =
        run_script-Sums law (next _ _) _ (elzma_read_func-Sums c law size f h)
    run_script-Sums law (write buf next) f h = run_script-Sums law (next _) _ h
    run_script-Sums law (progress a b next) f h =
        run_script-Sums law (next _) _ (λ on. ground (arith, elzma_progress-flow a b f, h on))
    run_script-Sums law (allocate size next) f h = run_script-Sums law (next _) _ h
    run_script-Sums law (release x next) f h = run_script-Sums law next _ h
    run_script-Sums law (finish res) f h = h
