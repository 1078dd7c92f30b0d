-- ===== src/Elzma/Decompressing/Deletes.antt =====
-- Which files `doDecompress` of elzma/elzma.c deletes.
use easylzma.Common.{
  ℕ, ◌-◌, ◌≡◌, refl, sym, ap, ◌∙◌, subst, List, [], ◌∷◌, ◌++◌, some, ◌==◌, arith, ok, >>=-eq-ok,
  Option-cases, Bool-cases, inl, inr, length, take,
}
use mathlib.Core.List.{append-nil}
use easylzma.Common.Strings.{Str, codes}
use easylzma.Format.{FileHeader, FormatHandler}
use easylzma.Alloc.{Runtime, AllocStruct, elzma_alloc, elzma_free, init_alloc_struct}
use easylzma.Api.{FileFormat, elzma_e_ok}
use easylzma.Sdk.{Crc, Decoder}
use easylzma.Decompress.{elzma_decompress_alloc, elzma_decompress_free}
use easylzma.Decompress.Run.{elzma_decompress_run}
use easylzma.Decompress.Invariant.{Keeps, elzma_decompress_run-Holds}
use easylzma.Elzma.Args.{DecompressArgs}
use easylzma.Elzma.Names.{decompress_name}
use easylzma.Elzma.Files.{Posix, Tool, open_files, elzma_read_func, elzma_write_func}
use easylzma.Elzma.Decompressing.{decompress_opened, decompress_file}
use easylzma.Elzma.Journal.{
  Journal, Deletes, moved, copied, undone, not_begun, gone, delete_file-gone, open_files-gone,
  give_up-gone,
}

module _ {S : Type 0} (px : Posix S) (rt : Runtime (Tool S)) (crc : Crc) (D : Decoder (Tool S))
    (rounds : ℕ) (junk : FormatHandler) (h : FileHeader) (address : ℕ) (j : Journal px rt) where
  abbrev own_alloc : AllocStruct (Tool S)
  own_alloc = (elzma_decompress_alloc {S = Tool S}).alloc_struct

  -- The decoder deletes no file.
  pub record DeletesNothing : Type 0 where
    pub allocate :
        (dec : D.DecState) (props : List ℕ) (t : Tool S)
        → gone px rt j (D.allocate own_alloc dec props t).2 ≡ gone px rt j t
    pub free :
        (dec : D.DecState) (t : Tool S) → gone px rt j (D.free own_alloc dec t) ≡ gone px rt j t

  abbrev Ends : DecompressArgs → Str → Str → Tool S → ℕ → Tool S → Type 0
  Ends a ifname ofname t status t' =
      (deleted : List Str) × (gone px rt j t' ≡ gone px rt j t ++ deleted)
      × Deletes a.keep ifname ofname status deleted

  module _ (law : DeletesNothing) where
    tool-Keeps :
        (deleted : List Str) (in_file out_file : ℕ)
        → Keeps
            (λ t sent. gone px rt j t ≡ deleted)
            rt
            D
            own_alloc
            (elzma_read_func px in_file)
            (elzma_write_func px out_file)
    unfolding elzma_read_func elzma_write_func elzma_alloc elzma_free elzma_decompress_alloc
        init_alloc_struct
    tool-Keeps deleted in_file out_file = record {
      reads = λ size t sent same. j.fread in_file size t.world ∙ same;
      writes = λ buf t sent same. j.fwrite buf out_file t.world ∙ same;
      allocates = λ size t sent same. j.malloc size t ∙ same;
      frees = λ address t sent same. j.free address t ∙ same;
      prepares = λ dec props t sent same. law.allocate dec props t ∙ same;
      releases = λ dec t sent same. law.free dec t ∙ same;
    }

    decompress_opened-Ends :
        (a : DecompressArgs) (ifname ofname : Str) (format : FileFormat) (in_file out_file : ℕ)
        (t : Tool S) {status : ℕ} {t' : Tool S}
        → decompress_opened px rt crc D rounds junk h address a ifname ofname format in_file
            out_file t
          ≡ ok (status, t')
        → Ends a ifname ofname t status t'
    unfolding decompress_opened elzma_decompress_free
    decompress_opened-Ends a ifname ofname format in_file out_file t {status} {t'} e =
        let m =
          elzma_decompress_run rt crc D elzma_decompress_alloc (elzma_read_func px in_file)
            (elzma_write_func px out_file) rounds junk h format t in
        let (r, ran, last) = >>=-eq-ok m _ e in
        let through =
          elzma_decompress_run-Holds (λ t' sent. gone px rt j t' ≡ gone px rt j t) rt crc D
            elzma_decompress_alloc (elzma_read_func px in_file) (elzma_write_func px out_file)
            (tool-Keeps (gone px rt j t) in_file out_file) rounds junk h format t refl ran in
        let freed = j.free (some address) r.world in
        let given_up = give_up-gone px rt j (codes "error decompressing\n") [] ofname r.world in
        let unlinked = delete_file-gone px rt j ifname (rt.free (some address) r.world) in
        elim (Bool-cases (r.error == elzma_e_ok)) [
          | inr bad ↦
              let one_status : status ≡ 1 = ground arith in
              (
                ofname ∷ [],
                ground arith,
                subst (λ n. Deletes a.keep ifname ofname n (ofname ∷ [])) (sym one_status) undone,
              )
          | inl good ↦
              let zero_status : status ≡ 0 = ground arith in
              elim (Bool-cases (a.keep == 0)) [
                | inl move ↦ (
                  ifname ∷ [],
                  ground arith,
                  subst (λ n. Deletes a.keep ifname ofname n (ifname ∷ [])) (sym zero_status)
                      (moved (ground arith)),
                )
                | inr keep ↦ (
                  [],
                  ground (arith, append-nil (gone px rt j t)),
                  subst (λ n. Deletes a.keep ifname ofname n []) (sym zero_status)
                      (copied (ground arith)),
                )
              ]
        ]

    -- Let `unlink` alone delete files, and the decoder none. When decompressing the named file returns,
    -- its exit status is 0 or 1, and it has asked to delete nothing but: on 0 and without `--keep`, the
    -- input; on 1, at most the output, which is the input's name without the extension.
    pub decompress_file-Deletes :
        (a : DecompressArgs) (ifname : Str) (format : FileFormat) (ext : Str) (t : Tool S)
        {status : ℕ} {t' : Tool S}
        → decompress_file px rt crc D rounds junk h address a ifname format ext t ≡ ok (status, t')
        → (deleted : List Str) × (gone px rt j t' ≡ gone px rt j t ++ deleted)
          × Deletes a.keep ifname (take (length ifname - length ext) ifname) status deleted
    unfolding decompress_file decompress_name
    decompress_file-Deletes a ifname format ext t {status} {t'} e =
        let n = length ifname - length ext in
        let t1 = (rt.malloc n t).1 in
        let made_same = j.malloc n t in
        let ofname = take n ifname in
        let t2 = (open_files px ifname ofname a.overwrite t1).1 in
        let opened = open_files-gone px rt j ifname ofname a.overwrite t1 in
        elim (Option-cases (rt.malloc n t).0) [
          | inl null ↦ absurd (ground arith)
          | inr (block, made) ↦ elim (Option-cases (open_files px ifname ofname a.overwrite t1).0) [
            | inl failed ↦
                let one_status : status ≡ 1 = ground arith in
                (
                  [],
                  ground (arith, append-nil (gone px rt j t)),
                  subst (λ n. Deletes a.keep ifname ofname n []) (sym one_status) not_begun,
                )
            | inr ((in_file, out_file), good) ↦
                let (deleted, more, how) =
                  decompress_opened-Ends a ifname ofname format in_file out_file t2
                    {status = status} {t' = t'} (ground arith) in
                (deleted, more ∙ ap (λ l. l ++ deleted) (opened ∙ made_same), how)
          ]
        ]
