-- ===== src/Elzma/Files.antt =====
-- What elzma/elzma.c calls of the C library, and its callbacks on files.
use easylzma.Common.{ℕ, List, [], ◌∷◌, Option, none, some}
use easylzma.Common.Strings.{Str, codes}
use easylzma.Api.{ReadCallback, WriteCallback}

-- What a format of `printf` is filled with.
pub data Arg : Type 0 where
  string : Str → Arg
  number : ℕ → Arg

pub data Whence : Type 0 where
  seek_set seek_end : Whence

-- stdio.h and unistd.h over a state; an open file is a number. `usable n` is how many bytes of a
-- block of `malloc(n)` can be written.
pub record Posix (S : Type 0) : Type 0 where
  pub fopen : Str → Str → S → Option ℕ × S
  pub fseek : ℕ → ℕ → Whence → S → ℕ × S
  pub ftell : ℕ → S → ℕ × S
  pub fread : ℕ → ℕ → S → List ℕ × S
  pub fwrite : List ℕ → ℕ → S → ℕ × S
  pub fclose : ℕ → S → S
  pub fflush : S → S
  pub unlink : Str → S → ℕ × S
  pub printf : Str → List Arg → S → S
  pub eprintf : Str → List Arg → S → S
  pub usable : ℕ → ℕ

-- The state outside, with the variable `pCtx` that the progress callback gets by its context.
pub record Tool (S : Type 0) : Type 0 where
  pub world : S
  pub dots : ℕ

module _ {S : Type 0} (px : Posix S) where
  -- `fprintf(stderr, …)`
  abbrev pub complain : Str → List Arg → Tool S → Tool S
  complain format args t = record t { world = px.eprintf format args t.world }

  abbrev pub say : Str → List Arg → Tool S → Tool S
  say format args t = record t { world = px.printf format args t.world }

  -- elzma/util.c; the tool does not look at the result.
  unfoldable pub delete_file : Str → Tool S → ℕ × Tool S
  delete_file path t = let (rv, world) = px.unlink path t.world in (rv, record t { world = world })

  -- The two files, or the result 1. What was opened for the input stays open then, and
  -- `overwrite` is not looked at.
  unfoldable pub open_files : Str → Str → ℕ → Tool S → Option (ℕ × ℕ) × Tool S
  open_files ifname ofname overwrite t =
      let (in_file, w) = px.fopen ifname (codes "rb") t.world in
      elim in_file [
        | none ↦ (
          none,
          complain (codes "couldn't open '%s' for reading\n") (string ifname ∷ [])
              (record t { world = w }),
        )
        | some i ↦
            let (out_file, w') = px.fopen ofname (codes "wb") w in
            elim out_file [
              | none ↦ (
                none,
                complain (codes "couldn't open '%s' for writing\n") (string ofname ∷ [])
                    (record t { world = w' }),
              )
              | some o ↦ (some (i, o), record t { world = w' })
            ]
      ]

  unfoldable pub elzma_write_func : ℕ → WriteCallback (Tool S)
  elzma_write_func f buf t =
      let (wt, world) = px.fwrite buf f t.world in (wt, record t { world = world })

  unfoldable pub elzma_read_func : ℕ → ReadCallback (Tool S)
  elzma_read_func f size t =
      let (bytes, world) = px.fread f size t.world in
      record { status = 0; bytes = bytes; state = record t { world = world } }
