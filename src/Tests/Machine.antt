-- ===== src/Tests/Machine.antt =====
-- The command-line tool over a small machine, and the bar that it prints.
use easylzma.Common.{ℕ, ◌+◌, ◌≡◌, refl, List, [], ◌∷◌, ◌++◌, some, arith, length, replicate}
use easylzma.Common.Strings.{Str, codes}
use easylzma.Alloc.{Runtime}
use easylzma.Elzma.Files.{Posix, Tool, Arg}
use easylzma.Elzma.Progress.{end_progress}
use easylzma.Elzma.Progress.Bar.{Console, report_all, end_progress-elzma_progress_func}
use easylzma.Elzma.Journal.{Journal}
use easylzma.Tests.Toys

-- One input file in pieces, the console, the bytes of the output, and what was unlinked.
pub record Machine : Type 0 where
  pub input : List (List ℕ)
  pub shown : Str
  pub stored : List ℕ
  pub unlinked : List Str

abbrev pub print : Str → List Arg → Machine → Machine
print text args s = record s { shown = s.shown ++ text }

abbrev pub posix : Posix Machine
posix = record {
  fopen = λ path mode s. (some 3, s);
  fseek = λ f offset whence s. (0, s);
  ftell = λ f s. (2, s);
  fread = λ f size s. let r = Toys.reader size s.input in (r.bytes, record s { input = r.state });
  fwrite = λ buf f s. (length buf, record s { stored = s.stored ++ buf });
  fclose = λ f s. s;
  fflush = λ s. s;
  unlink = λ path s. (0, record s { unlinked = s.unlinked ++ (path ∷ []) });
  printf = print;
  eprintf = print;
  usable = λ n. n + 8;
}

abbrev pub machine : List (List ℕ) → Tool Machine
machine input = record {
  world = record { input = input; shown = []; stored = []; unlinked = [] };
  dots = 0;
}

abbrev pub runtime : Runtime (Tool Machine)
runtime = record { malloc = λ size t. (some 4096, t); free = λ address t. t }

console : Console posix
console = record { printed = λ s. s.shown; prints = λ text s plain. refl; flushes = λ s. refl }

end_progress-elzma_progress_func_example :
    (end_progress posix
      (report_all posix console 1000 (0 ∷ 700 ∷ 1000 ∷ []) (machine []))).world.shown
    ≡ [] ++ ((b'|' ∷ replicate 63 b'.') ++ codes "|\n")
unfolding console
end_progress-elzma_progress_func_example =
    end_progress-elzma_progress_func posix console 1000 0 (700 ∷ 1000 ∷ []) (machine [])
      (omega arith, (omega arith, (omega arith, tt))) (omega arith) refl

abbrev pub journal : Journal posix runtime
journal = record {
  unlinked = λ s. s.unlinked;
  unlink = λ path s. refl;
  fopen = λ path mode s. refl;
  fseek = λ f offset whence s. refl;
  ftell = λ f s. refl;
  fread = λ f size s. refl;
  fwrite = λ buf f s. refl;
  fclose = λ f s. refl;
  fflush = λ s. refl;
  printf = λ format args s. refl;
  eprintf = λ format args s. refl;
  malloc = λ size t. refl;
  free = λ address t. refl;
}
