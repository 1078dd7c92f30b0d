-- ===== src/Elzma/Progress.antt =====
-- The progress bar of elzma/elzma.c.
pub mod Bar
use easylzma.Common.{ℕ, zero, suc, ◌+◌, ◌-◌, ◌*◌, ◌/◌, List, [], ◌∷◌, ◌==◌, if◌then◌else◌}
use easylzma.Common.Strings.{Str, codes}
use easylzma.Api.{ProgressCallback}
use easylzma.Elzma.Files.{Posix, Tool, say}

-- The quotient of doubles, cut to an int, is the quotient of the numbers for a total that is not 0
-- and sizes below 2^32: the product is exact, and no quotient is rounded up to a whole number.
abbrev pub want_dots : ℕ → ℕ → ℕ
want_dots complete total = 64 * complete / total

module _ {S : Type 0} (px : Posix S) where
  unfoldable pub print_progress_header : Tool S → Tool S
  print_progress_header t =
      say px (codes "|0%%                            50%%                          100%%|\n") [] t

  -- `while (…) { printf("."); (*dots)++; }` with the number of its rounds.
  unfoldable pub print_dots : ℕ → Tool S → Tool S
  print_dots zero t = t
  print_dots (suc n) t =
      let t' = say px (codes ".") [] t in print_dots n (record t' { dots = t'.dots + 1 })

  -- `pCtx` counts up to 64.
  unfoldable pub end_progress : Tool S → Tool S
  unfolding print_dots
  end_progress t = say px (codes "|\n") [] (print_dots (64 - t.dots) t)

  unfoldable pub elzma_progress_func : ProgressCallback (Tool S)
  unfolding print_dots
  elzma_progress_func complete total t =
      let t' : Tool S =
        if t.dots == 0 then record (say px (codes "|") [] t) { dots = t.dots + 1 } else t in
      let t'' = print_dots (want_dots complete total - t'.dots) t' in
      record t'' { world = px.fflush t''.world }
