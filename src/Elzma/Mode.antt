-- ===== src/Elzma/Mode.antt =====
-- `main` of elzma/elzma.c.
pub mod Choice
use easylzma.Common.{
  ℕ, Bool, true, false, ◌||◌, List, [], ◌∷◌, Option, none, some, if◌then◌else◌, Outcome, ok, fault,
  null_pointer,
}
use easylzma.Common.Strings.{Str, codes, same, ends_with}
use easylzma.Format.{FileHeader, FormatHandler}
use easylzma.Alloc.{Runtime}
use easylzma.Sdk.{Crc, Encoder, Decoder}
use easylzma.Elzma.Files.{Posix, Tool, complain}
use easylzma.Elzma.Compressing.{do_compress}
use easylzma.Elzma.Decompressing.{do_decompress}

pub data RunMode : Type 0 where
  rm_none rm_compress rm_decompress : RunMode

-- The mode by the program's name.
unfoldable pub name_mode : Str → RunMode
name_mode name =
    if ends_with (codes "unelzma") name || ends_with (codes "unelzma.exe") name
    then rm_decompress
    else if ends_with (codes "elzma") name || ends_with (codes "elzma.exe") name
    then rm_compress
    else rm_none

-- The loop over the arguments: the first flag wins.
unfoldable pub flag_mode : RunMode → List Str → RunMode
flag_mode mode [] = mode
flag_mode mode (arg ∷ args) =
    if same arg (codes "-d") || same arg (codes "--decompress")
    then rm_decompress
    else if same arg (codes "-z") || same arg (codes "--compress")
    then rm_compress
    else flag_mode mode args

unfoldable pub run_mode : Str → List Str → RunMode
unfolding name_mode flag_mode
run_mode name args = flag_mode (name_mode name) args

module _ {S : Type 0} (px : Posix S) (rt : Runtime (Tool S)) (crc : Crc) (E : Encoder (Tool S))
    (D : Decoder (Tool S)) (rounds : ℕ) (junk : FormatHandler) (h : FileHeader) (address : ℕ) where
  -- The exit status; `argv[0]` is followed without a test.
  unfoldable pub main : List Str → Tool S → Outcome (ℕ × Tool S)
  main [] t = fault null_pointer
  main (name ∷ args) t = elim (run_mode name args) [
    | rm_none ↦ ok (
      1,
      complain px (codes "couldn't determine whether you want to compress or decompress\n") [] t,
    )
    | rm_compress ↦ do_compress px rt crc E h (name ∷ args) t
    | rm_decompress ↦ do_decompress px rt crc D rounds junk h address (name ∷ args) t
  ]
