-- ===== src/Elzma/Mode/Choice.antt =====
-- How `main` of elzma/elzma.c chooses between compression and decompression.
use easylzma.Common.{
  ◌≡◌, refl, sym, ◌∙◌, true, false, ◌||◌, ◌⊎◌, inl, inr, List, [], ◌∷◌, ◌++◌, Bool-cases, All,
}
use easylzma.Common.Strings.{Str, codes, same, same-eq}
use easylzma.Elzma.Mode.{RunMode, rm_compress, rm_decompress, name_mode, flag_mode, run_mode}

abbrev pub IsDecompressFlag : Str → Type 0
IsDecompressFlag arg = (arg ≡ codes "-d") ⊎ (arg ≡ codes "--decompress")

abbrev pub IsCompressFlag : Str → Type 0
IsCompressFlag arg = (arg ≡ codes "-z") ⊎ (arg ≡ codes "--compress")

abbrev pub IsNoFlag : Str → Type 0
IsNoFlag arg = (¬ IsDecompressFlag arg) × (¬ IsCompressFlag arg)

decompress_flag :
    (arg : Str)
    → IsDecompressFlag arg
    → (same arg (codes "-d") || same arg (codes "--decompress")) ≡ true
decompress_flag arg (inl e) = rw e refl
decompress_flag arg (inr e) = rw e refl

compress_flag :
    (arg : Str)
    → IsCompressFlag arg
    → ((same arg (codes "-d") || same arg (codes "--decompress")) ≡ false)
      × ((same arg (codes "-z") || same arg (codes "--compress")) ≡ true)
compress_flag arg (inl e) = rw e (refl, refl)
compress_flag arg (inr e) = rw e (refl, refl)

either : (arg s t : Str) → ¬ ((arg ≡ s) ⊎ (arg ≡ t)) → (same arg s || same arg t) ≡ false
either arg s t neither = elim (Bool-cases (same arg s)) [
  | inl e ↦ absurd (neither (inl (same-eq arg s e)))
  | inr e ↦ elim (Bool-cases (same arg t)) [
    | inl e' ↦ absurd (neither (inr (same-eq arg t e')))
    | inr e' ↦ rw (e, e') refl
  ]
]

module _ (mode : RunMode) (flag : Str) (behind : List Str) where
  first_decompress :
      (before : List Str)
      → All IsNoFlag before
      → IsDecompressFlag flag
      → flag_mode mode (before ++ (flag ∷ behind)) ≡ rm_decompress
  unfolding flag_mode
  first_decompress [] none is = rw (decompress_flag flag is) refl
  first_decompress (arg ∷ before) (no_flag, rest) is =
      rw
        (
          either arg (codes "-d") (codes "--decompress") no_flag.0,
          either arg (codes "-z") (codes "--compress") no_flag.1,
        )
        (first_decompress before rest is)

  first_compress :
      (before : List Str)
      → All IsNoFlag before
      → IsCompressFlag flag
      → flag_mode mode (before ++ (flag ∷ behind)) ≡ rm_compress
  unfolding flag_mode
  first_compress [] none is = rw ((compress_flag flag is).0, (compress_flag flag is).1) refl
  first_compress (arg ∷ before) (no_flag, rest) is =
      rw
        (
          either arg (codes "-d") (codes "--decompress") no_flag.0,
          either arg (codes "-z") (codes "--compress") no_flag.1,
        )
        (first_compress before rest is)

no_flag_mode : (mode : RunMode) (args : List Str) → All IsNoFlag args → flag_mode mode args ≡ mode
unfolding flag_mode
no_flag_mode mode [] none = refl
no_flag_mode mode (arg ∷ args) (no_flag, rest) =
    rw
      (
        either arg (codes "-d") (codes "--decompress") no_flag.0,
        either arg (codes "-z") (codes "--compress") no_flag.1,
      )
      (no_flag_mode mode args rest)

-- The mode that a flag stands for.
abbrev pub Decides : Str → RunMode → Type 0
Decides flag mode =
    (IsDecompressFlag flag × (mode ≡ rm_decompress)) ⊎ (IsCompressFlag flag × (mode ≡ rm_compress))

-- The first argument that is a mode flag decides, whatever the program's name and the arguments behind
-- it: -d and --decompress for decompression, -z and --compress for compression.
pub run_mode-first_flag :
    (name : Str) (before : List Str) (flag : Str) (behind : List Str) (mode : RunMode)
    → All IsNoFlag before
    → Decides flag mode
    → run_mode name (before ++ (flag ∷ behind)) ≡ mode
unfolding run_mode
run_mode-first_flag name before flag behind mode none (inl (is, means)) =
    first_decompress (name_mode name) flag behind before none is ∙ sym means
run_mode-first_flag name before flag behind mode none (inr (is, means)) =
    first_compress (name_mode name) flag behind before none is ∙ sym means

-- Without a mode flag among the arguments, the program's name decides alone.
pub run_mode-no_flag :
    (name : Str) (args : List Str) → All IsNoFlag args → run_mode name args ≡ name_mode name
unfolding run_mode
run_mode-no_flag name args none = no_flag_mode (name_mode name) args none
