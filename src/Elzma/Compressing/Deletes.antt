-- ===== src/Elzma/Compressing/Deletes.antt =====
-- Which files `doCompress` of elzma/elzma.c deletes.
use easylzma.Common.{
  ℕ, ◌+◌, ◌≡◌, refl, sym, ap, ◌∙◌, subst, List, [], ◌∷◌, ◌++◌, Option, some, ltb, ◌==◌,
  if◌then◌else◌, arith, Outcome, ok, ◌>>=◌, >>=-eq-ok, Option-cases, Bool-cases, inl, inr, length,
}
use mathlib.Core.List.{append-nil}
use easylzma.Common.Strings.{Str, codes}
use easylzma.Format.{FileHeader}
use easylzma.Alloc.{Runtime, init_alloc_struct}
use easylzma.Api.{elzma_e_ok}
use easylzma.Sdk.{Crc, Encoder}
use easylzma.DictSize.{elzma_get_dict_size}
use easylzma.Compress.{
  CompressHandle, elzma_compress_alloc, elzma_compress_config, elzma_compress_free,
}
use easylzma.Elzma.Args.{CompressArgs}
use easylzma.Elzma.Names.{ext_of, compress_name}
use easylzma.Elzma.Files.{Posix, Tool, Arg, string, open_files}
use easylzma.Elzma.Compressing.{
  elzma_lc_default, elzma_lp_default, elzma_pb_default, input_size, give_up, announce,
  run_compression, clean_up, compress_sized, compress_named, compress_file,
}
use easylzma.Elzma.Journal.{
  Journal, Deletes, moved, copied, undone, not_begun, gone, delete_file-gone, open_files-gone,
  input_size-gone, give_up-gone, announce-gone,
}
use easylzma.Elzma.Compressing.Quiet.{
  DeletesNothing, Owned, run_compression-gone, compress_free-gone,
}

module _ {S : Type 0} (px : Posix S) (rt : Runtime (Tool S)) (crc : Crc) (E : Encoder (Tool S))
    (h : FileHeader) (j : Journal px rt) where
  -- The result of a part of `doCompress`, with what was deleted since.
  abbrev pub Ends : CompressArgs → Str → Str → Tool S → ℕ → Tool S → Type 0
  Ends a ifname ofname t status t' =
      (deleted : List Str) × (gone px rt j t' ≡ gone px rt j t ++ deleted)
      × Deletes a.keep ifname ofname status deleted

  clean_up-Ends :
      (law : DeletesNothing px rt crc E h j) (a : CompressArgs) (ifname ofname : Str)
      (name in_file out_file : ℕ) (hand : Option (CompressHandle (Tool S) E.Enc)) (t : Tool S)
      {status : ℕ} {t' : Tool S}
      → Owned px rt crc E h j hand
      → clean_up px rt crc E h a ifname name in_file out_file hand t ≡ ok (status, t')
      → Ends a ifname ofname t status t'
  unfolding clean_up
  clean_up-Ends law a ifname ofname name in_file out_file hand t {status} {t'} own e =
      let ((x, t1), freed, last) = >>=-eq-ok (elzma_compress_free E (some hand) t) _ e in
      let first = compress_free-gone px rt crc E h j law hand t own freed in
      let second =
        j.free (some name)
          (record t1 { world = px.fclose out_file (px.fclose in_file t1.world) }) in
      let closed = j.fclose out_file (px.fclose in_file t1.world) ∙ j.fclose in_file t1.world in
      let t2 =
        rt.free (some name)
          (record t1 { world = px.fclose out_file (px.fclose in_file t1.world) }) in
      let unlinked = delete_file-gone px rt j ifname t2 in
      let zero_status : status ≡ 0 = ground arith in
      elim (Bool-cases (a.keep == 0)) [
        | inl move ↦ (
          ifname ∷ [],
          ground arith,
          subst (λ n. Deletes a.keep ifname ofname n (ifname ∷ [])) (sym zero_status)
              (moved (ground arith)),
        )
        | inr keep ↦ (
          [],
          ground (arith, append-nil (gone px rt j t)),
          subst (λ n. Deletes a.keep ifname ofname n []) (sym zero_status) (copied (ground arith)),
        )
      ]

  undone-Ends :
      (a : CompressArgs) (ifname ofname format : Str) (args : List Arg) (t t1 : Tool S) {status : ℕ}
      {t' : Tool S}
      → gone px rt j t1 ≡ gone px rt j t
      → ok (give_up px format args ofname t1) ≡ ok (status, t')
      → Ends a ifname ofname t status t'
  undone-Ends a ifname ofname format args t t1 {status} {t'} same e =
      let unlinked = give_up-gone px rt j format args ofname t1 in
      let one_status : status ≡ 1 = ground arith in
      (
        ofname ∷ [],
        ground arith,
        subst (λ n. Deletes a.keep ifname ofname n (ofname ∷ [])) (sym one_status) undone,
      )

  Ends-after :
      (a : CompressArgs) (ifname ofname : Str) (t t1 t' : Tool S) {status : ℕ}
      → gone px rt j t1 ≡ gone px rt j t
      → Ends a ifname ofname t1 status t'
      → Ends a ifname ofname t status t'
  Ends-after a ifname ofname t t1 t' same (deleted, more, how) =
      (deleted, more ∙ ap (λ l. l ++ deleted) same, how)

  compress_sized-Ends :
      (law : DeletesNothing px rt crc E h j) (a : CompressArgs) (ifname ofname : Str)
      (name in_file out_file size : ℕ) (t : Tool S) {status : ℕ} {t' : Tool S}
      → compress_sized px rt crc E h a ifname ofname name in_file out_file size t ≡ ok (status, t')
      → Ends a ifname ofname t status t'
  unfolding compress_sized elzma_compress_config elzma_compress_alloc init_alloc_struct
  compress_sized-Ends law a ifname ofname name in_file out_file size t {status} {t'} e =
      let (reasonable, found, rest) = >>=-eq-ok (elzma_get_dict_size size) _ e in
      let dict_size = if ltb a.max_dict_size reasonable then a.max_dict_size else reasonable in
      let t1 = announce px a ifname ofname dict_size size t in
      let announced = announce-gone px rt j a ifname ofname dict_size size t in
      let hand =
        (elzma_compress_config (elzma_compress_alloc {S = Tool S} {Enc = E.Enc}) elzma_lc_default
          elzma_lp_default elzma_pb_default a.level dict_size a.format size).1 in
      let (r, ran, last) =
        >>=-eq-ok (run_compression px rt crc E h a hand in_file out_file t1) _ rest in
      let (same, owned) =
        run_compression-gone px rt crc E h j law a hand in_file out_file t1 refl ran in
      elim (Bool-cases (r.0.0 == elzma_e_ok)) [
        | inl good ↦ Ends-after a ifname ofname t r.1 t' (same ∙ announced) (
            clean_up-Ends law a ifname ofname name in_file out_file r.0.1 r.1 owned
              (rw good at last))
        | inr bad ↦
            undone-Ends a ifname ofname (codes "error compressing\n") [] t r.1 (same ∙ announced)
              (rw bad at last)
      ]

  compress_named-Ends :
      (law : DeletesNothing px rt crc E h j) (a : CompressArgs) (ifname ofname : Str) (name : ℕ)
      (t : Tool S) {status : ℕ} {t' : Tool S}
      → compress_named px rt crc E h a ifname ofname name t ≡ ok (status, t')
      → Ends a ifname ofname t status t'
  unfolding compress_named
  compress_named-Ends law a ifname ofname name t {status} {t'} e =
      let t1 = (open_files px ifname ofname a.overwrite t).1 in
      let opened = open_files-gone px rt j ifname ofname a.overwrite t in
      elim (Option-cases (open_files px ifname ofname a.overwrite t).0) [
        | inl failed ↦
            let one_status : status ≡ 1 = ground arith in
            (
              [],
              ground (arith, append-nil (gone px rt j t)),
              subst (λ n. Deletes a.keep ifname ofname n []) (sym one_status) not_begun,
            )
        | inr ((in_file, out_file), good) ↦
            let sized = input_size-gone px rt j in_file t1 in
            let t2 = (input_size px in_file t1).1 in
            elim (Option-cases (input_size px in_file t1).0) [
              | inl no_size ↦
                  undone-Ends a ifname ofname
                    (codes "error seeking input file (%s) - zero length?\n") (string ifname ∷ []) t
                    t2 {status = status} {t' = t'} (sized ∙ opened) (ground arith)
              | inr (size, there) ↦ Ends-after a ifname ofname t t2 t' (sized ∙ opened) (
                  compress_sized-Ends law a ifname ofname name in_file out_file size t2
                    {status = status} {t' = t'} (ground arith))
            ]
      ]

  -- Let `unlink` alone delete files, and the encoder none. When compressing the named file returns,
  -- its exit status is 0 or 1, and it has asked to delete nothing but: on 0 and without `--keep`, the
  -- input; on 1, at most the output, which is the input's name with the extension of the format.
  pub compress_file-Deletes :
      (law : DeletesNothing px rt crc E h j) (a : CompressArgs) (ifname : Str) (t : Tool S)
      {status : ℕ} {t' : Tool S}
      → compress_file px rt crc E h a ifname t ≡ ok (status, t')
      → (deleted : List Str) × (gone px rt j t' ≡ gone px rt j t ++ deleted)
        × Deletes a.keep ifname (ifname ++ ext_of a.format) status deleted
  unfolding compress_file compress_name
  compress_file-Deletes law a ifname t {status} {t'} e =
      let size = length ifname + length (ext_of a.format) + 1 in
      let t1 = (rt.malloc size t).1 in
      elim (Option-cases (rt.malloc size t).0) [
        | inl null ↦ absurd (ground arith)
        | inr (address, made) ↦
            let m = compress_name px.usable ifname a.format in
            let then_named : Str → Outcome (ℕ × Tool S) =
              λ ofname. compress_named px rt crc E h a ifname ofname address t1 in
            let ran : m >>= then_named ≡ ok (status, t') = ground arith in
            let (ofname, named, last) = >>=-eq-ok m then_named ran in
            let same : ofname ≡ ifname ++ ext_of a.format = ground arith in
            let ends =
              Ends-after a ifname ofname t t1 t' (j.malloc size t)
                (compress_named-Ends law a ifname ofname address t1 last) in
            subst (λ o. Ends a ifname o t status t') same ends
      ]
