-- ===== src/Elzma/Progress/Bar.antt =====
-- What the functions for the progress bar in elzma/elzma.c print, all together.
use easylzma.Common.{
  ℕ, zero, suc, ◌+◌, ◌-◌, ◌*◌, ◌≤◌, ◌<◌, ◌≡◌, ◌≢◌, sym, ap, ◌∙◌, List, [], ◌∷◌, ◌++◌, ◌==◌, arith,
  replicate, All, Bool-cases, inl, inr,
}
use mathlib.Core.List.{append_assoc, append-nil}
use native.Mathlib.Nat.{div-lt_iff_lt-mul}
use easylzma.Common.Strings.{Str, codes}
use easylzma.Elzma.Files.{Posix, Tool, say}
use easylzma.Elzma.Progress.{print_dots, end_progress, want_dots, elzma_progress_func}

-- What stands on the standard output: a format without a per cent sign is printed as it is, and
-- flushing prints nothing.
pub record Console {S : Type 0} (px : Posix S) : Type 0 where
  pub printed : S → Str
  pub prints :
      (text : Str) (s : S)
      → All (λ c. c ≢ b'%') text
      → printed (px.printf text [] s) ≡ printed s ++ text
  pub flushes : (s : S) → printed (px.fflush s) ≡ printed s

-- A dot and the dots behind it.
dots_after :
    (before bar : Str) (n : ℕ)
    → before ++ ((bar ++ (b'.' ∷ [])) ++ replicate n b'.')
      ≡ before ++ (bar ++ replicate (suc n) b'.')
dots_after before bar n = ap (λ b. before ++ b) (append_assoc bar (b'.' ∷ []) (replicate n b'.'))

dot_plain : All (λ c. c ≢ b'%') (codes ".")
dot_plain = ((λ e. cc), tt)

bar_plain : All (λ c. c ≢ b'%') (codes "|")
bar_plain = ((λ e. cc), tt)

end_plain : All (λ c. c ≢ b'%') (codes "|\n")
end_plain = ((λ e. cc), ((λ e. cc), tt))

replicate-append : (n k a : ℕ) → replicate n a ++ replicate k a ≡ replicate (n + k) a
replicate-append zero k a = ap (λ n. replicate n a) {x = k} (omega arith)
replicate-append (suc n) k a =
    ap (λ t. a ∷ t) (replicate-append n k a)
    ∙ ap (λ n. replicate n a) {x = suc (n + k)} (omega arith)

module _ {S : Type 0} (px : Posix S) (console : Console px) where
  -- The bar so far.
  abbrev pub Shows : Str → Str → Tool S → Type 0
  Shows before bar t = console.printed t.world ≡ before ++ bar

  say-Shows :
      (text before bar : Str) (t : Tool S)
      → All (λ c. c ≢ b'%') text
      → Shows before bar t
      → Shows before (bar ++ text) (say px text [] t)
  say-Shows text before bar t plain shown =
      console.prints text t.world plain ∙ ap (λ b. b ++ text) shown ∙ append_assoc before bar text

  print_dots-counts : (n : ℕ) (t : Tool S) → (print_dots px n t).dots ≡ t.dots + n
  unfolding print_dots
  print_dots-counts zero t = omega arith
  print_dots-counts (suc n) t =
      omega (arith, print_dots-counts n (record (say px (codes ".") [] t) { dots = t.dots + 1 }))

  dot-Shows :
      (before bar : Str) (t : Tool S)
      → Shows before bar t
      → Shows before (bar ++ (b'.' ∷ [])) (say px (codes ".") [] t)
  dot-Shows before bar t shown = say-Shows (codes ".") before bar t dot_plain shown

  print_dots-Shows :
      (n : ℕ) (before bar : Str) (t : Tool S)
      → Shows before bar t
      → Shows before (bar ++ replicate n b'.') (print_dots px n t)
  unfolding print_dots
  print_dots-Shows zero before bar t shown = shown ∙ ap (λ b. before ++ b) (sym (append-nil bar))
  print_dots-Shows (suc n) before bar t shown =
      print_dots-Shows n before (bar ++ (b'.' ∷ []))
        (record (say px (codes ".") [] t) { dots = t.dots + 1 }) (dot-Shows before bar t shown)
      ∙ dots_after before bar n

  -- The bar's left end counts as the first dot.
  abbrev bar_of : ℕ → Str
  bar_of zero = []
  bar_of (suc n) = b'|' ∷ replicate n b'.'

  bar_of-more : (n k : ℕ) → 0 < n → bar_of n ++ replicate k b'.' ≡ bar_of (n + k)
  bar_of-more zero k pos = absurd (omega arith)
  bar_of-more (suc n) k pos =
      ap (λ b. b'|' ∷ b) (replicate-append n k b'.') ∙ ap bar_of {x = suc (n + k)} (omega arith)

  record IsBar (before : Str) (t : Tool S) : Type 0 where
    shown : Shows before (bar_of t.dots) t
    width : t.dots ≤ 64

  more_dots :
      (n : ℕ) (before : Str) (t : Tool S)
      → IsBar before t
      → 0 < t.dots
      → t.dots + n ≤ 64
      → IsBar before (print_dots px n t)
  more_dots n before t bar pos room =
      let count = print_dots-counts n t in
      record {
        shown =
            print_dots-Shows n before (bar_of t.dots) t bar.shown
            ∙ ap (λ b. before ++ b) (bar_of-more t.dots n pos ∙ ap bar_of (sym count));
        width = omega arith;
      }

  left_end :
      (before : Str) (t : Tool S)
      → IsBar before t
      → t.dots ≡ 0
      → IsBar before (record (say px (codes "|") [] t) { dots = t.dots + 1 })
  left_end before t bar none = record {
    shown =
        say-Shows (codes "|") before [] t bar_plain (rw none at bar.shown)
        ∙ ap (λ n. before ++ bar_of n) {x = 1} (omega arith);
    width = omega arith;
  }

  want_dots-le : (complete total : ℕ) → complete ≤ total → 0 < total → want_dots complete total ≤ 64
  want_dots-le complete total part pos =
      let small : want_dots complete total < 65 =
        (div-lt_iff_lt-mul {k = total} {x = 64 * complete} {y = 65} pos).1 (omega arith) in
      omega arith

  -- The dots of a report, and the flush.
  flushed :
      (complete total : ℕ) (before : Str) (t : Tool S)
      → complete ≤ total
      → 0 < total
      → IsBar before t
      → 0 < t.dots
      → let t' = print_dots px (want_dots complete total - t.dots) t in
        IsBar before (record t' { world = px.fflush t'.world }) × (0 < t'.dots)
  flushed complete total before t part pos bar some_dots =
      let n = want_dots complete total - t.dots in
      let count = print_dots-counts n t in
      let most = want_dots-le complete total part pos in
      let grown = more_dots n before t bar some_dots (omega (arith, most, bar.width)) in
      let t' = print_dots px n t in
      (record { shown = console.flushes t'.world ∙ grown.shown; width = grown.width }, omega arith)

  -- One report: the bar grows to what the report wants, and has its left end.
  report-IsBar :
      (complete total : ℕ) (before : Str) (t : Tool S)
      → complete ≤ total
      → 0 < total
      → IsBar before t
      → IsBar before (elzma_progress_func px complete total t)
        × (0 < (elzma_progress_func px complete total t).dots)
  unfolding elzma_progress_func
  report-IsBar complete total before t part pos bar = elim (Bool-cases (t.dots == 0)) [
    | inl none ↦
        let first : Tool S = record (say px (codes "|") [] t) { dots = t.dots + 1 } in
        let started = left_end before t bar (ground arith) in
        rw none (flushed complete total before first part pos started (omega arith))
    | inr some_dots ↦ rw some_dots (flushed complete total before t part pos bar (ground arith))
  ]

  -- The reports of a run whose total is fixed.
  abbrev pub report_all : ℕ → List ℕ → Tool S → Tool S
  report_all total [] t = t
  report_all total (complete ∷ reports) t =
      report_all total reports (elzma_progress_func px complete total t)

  report_all-IsBar :
      (total : ℕ) (reports : List ℕ) (before : Str) (t : Tool S)
      → All (λ complete. complete ≤ total) reports
      → 0 < total
      → IsBar before t
      → 0 < t.dots
      → IsBar before (report_all total reports t) × (0 < (report_all total reports t).dots)
  report_all-IsBar total [] before t parts pos bar some_dots = (bar, some_dots)
  report_all-IsBar total (complete ∷ reports) before t parts pos bar some_dots =
      let (bar', some_dots') = report-IsBar complete total before t parts.0 pos bar in
      report_all-IsBar total reports before (elzma_progress_func px complete total t) parts.1 pos
        bar' some_dots'

  end-IsBar :
      (before : Str) (t : Tool S)
      → IsBar before t
      → 0 < t.dots
      → console.printed (end_progress px t).world
        ≡ before ++ ((b'|' ∷ replicate 63 b'.') ++ codes "|\n")
  unfolding end_progress
  end-IsBar before t bar some_dots =
      let full = more_dots (64 - t.dots) before t bar some_dots (omega (arith, bar.width)) in
      let count = print_dots-counts (64 - t.dots) t in
      let all : (print_dots px (64 - t.dots) t).dots ≡ 64 = omega (arith, bar.width) in
      say-Shows (codes "|\n") before (bar_of 64) (print_dots px (64 - t.dots) t) end_plain
        (full.shown ∙ ap (λ n. before ++ bar_of n) all)

  -- Let the console print a text as it is. From a count of 0 dots, at least one report, each of a part
  -- of the total, which is not 0, and the end of the bar print, all together, the left end, 63 dots and
  -- the right end, whatever the reports were.
  pub end_progress-elzma_progress_func :
      (total first : ℕ) (reports : List ℕ) (t : Tool S)
      → All (λ complete. complete ≤ total) (first ∷ reports)
      → 0 < total
      → t.dots ≡ 0
      → console.printed (end_progress px (report_all total (first ∷ reports) t)).world
        ≡ console.printed t.world ++ ((b'|' ∷ replicate 63 b'.') ++ codes "|\n")
  end_progress-elzma_progress_func total first reports t parts pos none =
      let before = console.printed t.world in
      let start : IsBar before t = record {
        shown = rw none (sym (append-nil before));
        width = omega arith;
      } in
      let (bar, some_dots) = report-IsBar first total before t parts.0 pos start in
      let (bar', some_dots') =
        report_all-IsBar total reports before (elzma_progress_func px first total t) parts.1 pos bar
          some_dots in
      end-IsBar before (report_all total reports (elzma_progress_func px first total t)) bar'
        some_dots'
