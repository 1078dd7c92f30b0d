-- ===== src/Elzma/Journal.antt =====
-- Which deletions elzma/elzma.c asks for: the helpers of `doCompress` and `doDecompress`.
use easylzma.Common.{
  ℕ, zero, suc, ◌+◌, ◌-◌, ◌≡◌, ◌≢◌, refl, ap, ◌∙◌, List, [], ◌∷◌, ◌++◌, Option, ◌==◌, if◌then◌else◌,
  arith, Option-cases, Bool-cases, inl, inr,
}
use easylzma.Common.Strings.{Str, codes}
use easylzma.Alloc.{Runtime}
use easylzma.Elzma.Files.{
  Posix, Tool, Arg, string, Whence, seek_set, seek_end, complain, say, delete_file, open_files,
}
use easylzma.Elzma.Progress.{
  print_progress_header, print_dots, end_progress, elzma_progress_func, want_dots,
}
use easylzma.Elzma.Compressing.{input_size, give_up, announce}
use easylzma.Elzma.Args.{CompressArgs}

-- The paths that were given to `unlink` so far: no other function of the C library adds to them.
pub record Journal {S : Type 0} (px : Posix S) (rt : Runtime (Tool S)) : Type 0 where
  pub unlinked : S → List Str
  pub unlink : (path : Str) (s : S) → unlinked (px.unlink path s).1 ≡ unlinked s ++ (path ∷ [])
  pub fopen : (path mode : Str) (s : S) → unlinked (px.fopen path mode s).1 ≡ unlinked s
  pub fseek :
      (f offset : ℕ) (whence : Whence) (s : S)
      → unlinked (px.fseek f offset whence s).1 ≡ unlinked s
  pub ftell : (f : ℕ) (s : S) → unlinked (px.ftell f s).1 ≡ unlinked s
  pub fread : (f size : ℕ) (s : S) → unlinked (px.fread f size s).1 ≡ unlinked s
  pub fwrite : (buf : List ℕ) (f : ℕ) (s : S) → unlinked (px.fwrite buf f s).1 ≡ unlinked s
  pub fclose : (f : ℕ) (s : S) → unlinked (px.fclose f s) ≡ unlinked s
  pub fflush : (s : S) → unlinked (px.fflush s) ≡ unlinked s
  pub printf :
      (format : Str) (args : List Arg) (s : S) → unlinked (px.printf format args s) ≡ unlinked s
  pub eprintf :
      (format : Str) (args : List Arg) (s : S) → unlinked (px.eprintf format args s) ≡ unlinked s
  pub malloc : (size : ℕ) (t : Tool S) → unlinked (rt.malloc size t).1.world ≡ unlinked t.world
  pub free :
      (address : Option ℕ) (t : Tool S) → unlinked (rt.free address t).world ≡ unlinked t.world

-- What a run deletes, by its exit status: the input only when it returns 0 and is not to keep it, and
-- the output only when it returns 1.
pub data Deletes (keep : ℕ) (ifname ofname : Str) : ℕ → List Str → Type 0 where
  moved : keep ≡ 0 → Deletes keep ifname ofname 0 (ifname ∷ [])
  copied : keep ≢ 0 → Deletes keep ifname ofname 0 []
  undone : Deletes keep ifname ofname 1 (ofname ∷ [])
  not_begun : Deletes keep ifname ofname 1 []

module _ {S : Type 0} (px : Posix S) (rt : Runtime (Tool S)) (j : Journal px rt) where
  -- What was unlinked so far.
  abbrev pub gone : Tool S → List Str
  gone t = j.unlinked t.world

  pub delete_file-gone :
      (path : Str) (t : Tool S) → gone (delete_file px path t).1 ≡ gone t ++ (path ∷ [])
  unfolding delete_file
  delete_file-gone path t = j.unlink path t.world

  pub open_files-gone :
      (ifname ofname : Str) (overwrite : ℕ) (t : Tool S)
      → gone (open_files px ifname ofname overwrite t).1 ≡ gone t
  unfolding open_files
  open_files-gone ifname ofname overwrite t =
      let opened = j.fopen ifname (codes "rb") t.world in
      let w = (px.fopen ifname (codes "rb") t.world).1 in
      let w' = (px.fopen ofname (codes "wb") w).1 in
      let opened' = j.fopen ofname (codes "wb") w in
      let no_input = j.eprintf (codes "couldn't open '%s' for reading\n") (string ifname ∷ []) w in
      let no_output =
        j.eprintf (codes "couldn't open '%s' for writing\n") (string ofname ∷ []) w' in
      elim (Option-cases (px.fopen ifname (codes "rb") t.world).0) [
        | inl failed ↦ ground arith
        | inr (i, good) ↦ elim (Option-cases (px.fopen ofname (codes "wb") w).0) [
          | inl failed ↦ ground arith
          | inr (o, fine) ↦ ground arith
        ]
      ]

  pub input_size-gone : (in_file : ℕ) (t : Tool S) → gone (input_size px in_file t).1 ≡ gone t
  unfolding input_size
  input_size-gone in_file t =
      let w1 = (px.fseek in_file 0 seek_end t.world).1 in
      let w2 = (px.ftell in_file w1).1 in
      let one = j.fseek in_file 0 seek_end t.world in
      let two = j.ftell in_file w1 in let three = j.fseek in_file 0 seek_set w2 in ground arith

  pub give_up-gone :
      (format : Str) (args : List Arg) (ofname : Str) (t : Tool S)
      → gone (give_up px format args ofname t).1 ≡ gone t ++ (ofname ∷ [])
  give_up-gone format args ofname t =
      delete_file-gone ofname (complain px format args t)
      ∙ ap (λ l. l ++ (ofname ∷ [])) (j.eprintf format args t.world)

  pub announce-gone :
      (a : CompressArgs) (ifname ofname : Str) (dict_size size : ℕ) (t : Tool S)
      → gone (announce px a ifname ofname dict_size size t) ≡ gone t
  announce-gone a ifname ofname dict_size size t = elim (Bool-cases (a.verbose == 0)) [
    | inl quiet ↦ rw quiet refl
    | inr verbose ↦ rw verbose (j.printf _ _ _ ∙ j.printf _ _ _ ∙ j.printf _ _ _)
  ]

  print_dots-gone : (n : ℕ) (t : Tool S) → gone (print_dots px n t) ≡ gone t
  unfolding print_dots
  print_dots-gone zero t = refl
  print_dots-gone (suc n) t = print_dots-gone n _ ∙ j.printf (codes ".") [] t.world

  pub print_progress_header-gone : (t : Tool S) → gone (print_progress_header px t) ≡ gone t
  unfolding print_progress_header
  print_progress_header-gone t = j.printf _ _ _

  pub end_progress-gone : (t : Tool S) → gone (end_progress px t) ≡ gone t
  unfolding end_progress
  end_progress-gone t = j.printf _ _ _ ∙ print_dots-gone (64 - t.dots) t

  pub elzma_progress_func-gone :
      (complete total : ℕ) (t : Tool S) → gone (elzma_progress_func px complete total t) ≡ gone t
  unfolding elzma_progress_func
  elzma_progress_func-gone complete total t =
      let t' : Tool S =
        if t.dots == 0 then record (say px (codes "|") [] t) { dots = t.dots + 1 } else t in
      let begun : gone t' ≡ gone t = begin_bar t in
      j.fflush _ ∙ print_dots-gone (want_dots complete total - t'.dots) t' ∙ begun
    where
      begin_bar :
          (t : Tool S)
          → gone (if t.dots == 0 then record (say px (codes "|") [] t) { dots = t.dots + 1 } else t)
            ≡ gone t
      begin_bar t = let bar = j.printf (codes "|") [] t.world in ground arith
