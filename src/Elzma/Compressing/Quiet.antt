-- ===== src/Elzma/Compressing/Quiet.antt =====
-- What the call of `elzma_compress_run` in `doCompress` of elzma/elzma.c leaves alone.
use easylzma.Common.{
  ℕ, ◌≡◌, refl, sym, ap, ◌∙◌, subst, Bool, true, false, List, Option, none, some, not, ◌==◌,
  if◌then◌else◌, arith, Outcome, ok, >>=-eq-ok, Option-cases, inl, inr,
}
use easylzma.Common.Strings.{Str}
use easylzma.Format.{FileHeader}
use easylzma.Alloc.{Runtime, AllocStruct, elzma_alloc, elzma_free, init_alloc_struct}
use easylzma.Api.{ProgressCallback}
use easylzma.Sdk.{Crc, Encoder}
use easylzma.Compress.{CompressHandle, elzma_compress_free}
use easylzma.Compress.Run.{Returned, elzma_compress_run}
use easylzma.Compress.Invariant.{Keeps, report, elzma_compress_run-Holds}
use easylzma.Compress.Handle.{elzma_compress_run-alloc_struct}
use easylzma.Elzma.Args.{CompressArgs}
use easylzma.Elzma.Files.{Posix, Tool, elzma_read_func, elzma_write_func}
use easylzma.Elzma.Progress.{print_progress_header, end_progress, elzma_progress_func}
use easylzma.Elzma.Compressing.{run_compression}
use easylzma.Elzma.Journal.{
  Journal, gone, print_progress_header-gone, end_progress-gone, elzma_progress_func-gone,
}

module _ {S : Type 0} (px : Posix S) (rt : Runtime (Tool S)) (crc : Crc) (E : Encoder (Tool S))
    (h : FileHeader) (j : Journal px rt) where
  -- The allocation of a handle: the C runtime's.
  abbrev pub own_alloc : AllocStruct (Tool S)
  own_alloc = init_alloc_struct none 0 none 0

  -- The encoder deletes no file.
  pub record DeletesNothing : Type 0 where
    pub create : (t : Tool S) → gone px rt j (E.create own_alloc t).1 ≡ gone px rt j t
    pub destroy :
        (enc : E.Enc) (t : Tool S) → gone px rt j (E.destroy own_alloc enc t) ≡ gone px rt j t

  module _ (law : DeletesNothing) (deleted : List Str) where
    abbrev Unchanged : Tool S → List ℕ → List ℕ → Type 0
    Unchanged t taken sent = gone px rt j t ≡ deleted

    tool-Keeps :
        (in_file out_file : ℕ) (verbose : Bool)
        → Keeps Unchanged rt E own_alloc
            (elzma_read_func px in_file)
            (elzma_write_func px out_file)
            (if verbose then some (elzma_progress_func px) else none)
    unfolding elzma_read_func elzma_write_func elzma_alloc elzma_free init_alloc_struct
    tool-Keeps in_file out_file verbose = record {
      reads = λ size t taken sent same. j.fread in_file size t.world ∙ same;
      writes = λ buf t taken sent same. j.fwrite buf out_file t.world ∙ same;
      reports = λ in_size total t taken sent same. bar verbose in_size total t ∙ same;
      allocates = λ size t taken sent same. j.malloc size t ∙ same;
      frees = λ address t taken sent same. j.free address t ∙ same;
      creates = λ t same. law.create t ∙ same;
    }
      where
        bar :
            (verbose : Bool) (in_size total : ℕ) (t : Tool S)
            → gone px rt j
                (report (if verbose then some (elzma_progress_func px) else none) in_size total t)
              ≡ gone px rt j t
        bar true in_size total t = elzma_progress_func-gone px rt j in_size total t
        bar false in_size total t = refl

  -- The handle, if there is one, allocates from the C runtime.
  abbrev pub Owned : Option (CompressHandle (Tool S) E.Enc) → Type 0
  Owned hand =
      (left : CompressHandle (Tool S) E.Enc) → hand ≡ some left → left.alloc_struct ≡ own_alloc

  pub run_compression-gone :
      (law : DeletesNothing) (a : CompressArgs) (hand : CompressHandle (Tool S) E.Enc)
      (in_file out_file : ℕ) (t : Tool S) {r : Returned E} {t' : Tool S}
      → hand.alloc_struct ≡ own_alloc
      → run_compression px rt crc E h a hand in_file out_file t ≡ ok (r, t')
      → (gone px rt j t' ≡ gone px rt j t) × Owned r.1
  unfolding run_compression
  run_compression-gone law a hand in_file out_file t {r} {t'} own e =
      let verbose = not (a.verbose == 0) in
      let begun : Tool S = record t { dots = 0 } in
      let t'' = if verbose then print_progress_header px begun else begun in
      let callback : Option (ProgressCallback (Tool S)) =
        if verbose then some (elzma_progress_func px) else none in
      let m =
        elzma_compress_run crc rt E (elzma_write_func px out_file) callback h (some hand)
          (some (elzma_read_func px in_file)) t'' in
      let returned : Returned E → Outcome (Returned E × Tool S) =
        λ r. ok (r, if verbose then end_progress px r.2.world else r.2.world) in
      let (r', ran, last) = >>=-eq-ok m returned e in
      let keeps =
        subst
          (λ alloc.
            Keeps (Unchanged law (gone px rt j t)) rt E alloc (elzma_read_func px in_file)
              (elzma_write_func px out_file) callback)
          (sym own) (tool-Keeps law (gone px rt j t) in_file out_file verbose) in
      let header = print_progress_header-gone px rt j begun in
      let through =
        elzma_compress_run-Holds (Unchanged law (gone px rt j t)) crc rt E
          (elzma_read_func px in_file) (elzma_write_func px out_file) callback hand keeps h t''
          (ground arith) ran in
      let ended = end_progress-gone px rt j r'.2.world in
      let same : r' ≡ r = ground arith in
      let owned : Owned r'.1 = λ left there.
        elzma_compress_run-alloc_struct crc rt E (elzma_write_func px out_file)
          (elzma_read_func px in_file) callback h hand left t'' {error = r'.0} {f = r'.2}
          (ran ∙ ap (λ o. ok (r'.0, o, r'.2)) there)
        ∙ own in
      (ground arith, subst (λ x. Owned x.1) same owned)

  pub compress_free-gone :
      (law : DeletesNothing) (hand : Option (CompressHandle (Tool S) E.Enc)) (t : Tool S)
      {x : Option (CompressHandle (Tool S) E.Enc)} {t' : Tool S}
      → Owned hand
      → elzma_compress_free E (some hand) t ≡ ok (x, t')
      → gone px rt j t' ≡ gone px rt j t
  unfolding elzma_compress_free
  compress_free-gone law none t own e = ground arith
  compress_free-gone law (some hand) t {x} {t'} own e = elim (Option-cases hand.enc_hand) [
    | inl none_there ↦ ground arith
    | inr (enc, there) ↦
        let destroyed : gone px rt j (E.destroy hand.alloc_struct enc t) ≡ gone px rt j t =
          subst (λ alloc. gone px rt j (E.destroy alloc enc t) ≡ gone px rt j t)
            (sym (own hand refl)) (law.destroy enc t) in
        ground arith
  ]
