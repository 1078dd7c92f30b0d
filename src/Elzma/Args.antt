-- ===== src/Elzma/Args.antt =====
-- `parseCompressArgs` and `parseDecompressArgs` of elzma/elzma.c.
pub mod Accepted
pub mod Limits
use easylzma.Common.{
  ℕ, zero, suc, ◌+◌, ◌-◌, ◌*◌, ◌%◌, ◌^◌, Bool, true, false, ◌&&◌, ◌||◌, not, List, [], ◌∷◌, Option,
  none, some, ltb, leb, ◌==◌, if◌then◌else◌, Outcome, ok, fault, null_pointer, ◌>>=◌,
}
use easylzma.Common.Strings.{Str, codes, same}
use easylzma.Api.{FileFormat, lzip, lzma}
use easylzma.DictSize.{elzma_get_dict_size}

-- What the options of a compression set. The unsigned ints are flags.
pub record CompressArgs : Type 0 where
  pub level : ℕ
  pub fname : Option Str
  pub max_dict_size : ℕ
  pub verbose : ℕ
  pub keep : ℕ
  pub overwrite : ℕ
  pub format : FileFormat

pub data CompressOption : Type 0 where
  help set_max_dict unknown : CompressOption
  -- The options that only set something, or nothing.
  verbose_flag force_flag keep_flag lzma_flag lzip_flag mode_flag : CompressOption
  level_flag : ℕ → CompressOption

-- `argv[i][0] == '-'`
abbrev pub is_option : Str → Bool
is_option [] = false
is_option (c ∷ rest) = c == b'-'

-- `arg = &(argv[i][1]); if (arg[0] == '-') arg++;`
abbrev pub option_name : Str → Str
option_name [] = []
option_name (c ∷ []) = []
option_name (c ∷ d ∷ rest) = if d == b'-' then rest else d ∷ rest

-- `strlen(arg) == 1 && arg[0] >= '1' && arg[0] <= '9'`, with the digit.
abbrev pub level_digit : Str → Option ℕ
level_digit (c ∷ []) = if leb b'1' c && leb c b'9' then some (c - b'0') else none
level_digit _ = none

-- The names behind the levels.
abbrev pub format_option : Str → CompressOption
format_option arg =
    if same arg (codes "lzma")
    then lzma_flag
    else if same arg (codes "lzip")
    then lzip_flag
    else if same arg (codes "z")
        || same arg (codes "d")
        || (same arg (codes "compress") || same arg (codes "decompress"))
    then mode_flag
    else unknown

unfoldable pub compress_option : Str → CompressOption
compress_option arg =
    if same arg (codes "h") || same arg (codes "help")
    then help
    else if same arg (codes "s") || same arg (codes "set-max-dict")
    then set_max_dict
    else if same arg (codes "v") || same arg (codes "verbose")
    then verbose_flag
    else if same arg (codes "f") || same arg (codes "force")
    then force_flag
    else if same arg (codes "k") || same arg (codes "keep")
    then keep_flag
    else elim (level_digit arg) [ some n ↦ level_flag n | none ↦ format_option arg ]

-- What an option sets, and whether the loop goes on with it.
abbrev pub apply_option : CompressOption → CompressArgs → Option CompressArgs
apply_option help a = none
apply_option set_max_dict a = none
apply_option unknown a = none
apply_option verbose_flag a = some (record a { verbose = 1 })
apply_option force_flag a = some (record a { overwrite = 1 })
apply_option keep_flag a = some (record a { keep = 1 })
apply_option lzma_flag a = some (record a { format = lzma })
apply_option lzip_flag a = some (record a { format = lzip })
apply_option mode_flag a = some a
apply_option (level_flag n) a = some (record a { level = n })

abbrev pub takes_value : CompressOption → Bool
takes_value set_max_dict = true
takes_value _ = false

-- The loop over the characters of the value.
unfoldable pub is_numeric : Str → Bool
is_numeric [] = true
is_numeric (c ∷ val) = if ltb c b'0' || ltb b'9' c then false else is_numeric val

-- `strtoul` in base 10 on digits: on an unsigned long of 64 bits it stays at the greatest value.
unfoldable pub decimal : ℕ → Str → ℕ
decimal n [] = n
decimal n (c ∷ val) = decimal (n * 10 + (c - b'0')) val

unfoldable pub strtoul : Str → ℕ
unfolding decimal
strtoul val = let n = decimal 0 val in if ltb n (2 ^ 64) then n else 2 ^ 64 - 1

-- The code for `-s`: the status, and the arguments. `1 < 13` is the number 1.
unfoldable pub set_max : Str → CompressArgs → Outcome (ℕ × CompressArgs)
unfolding is_numeric strtoul
set_max val a =
    let max_dict_size = strtoul val % 2 ^ 32 in
    if not (is_numeric val)
    then ok (1, a)
    else if ltb max_dict_size 1
    then ok (0, record a { max_dict_size = 1 })
    else (elzma_get_dict_size max_dict_size >>= λ size. ok (0, record a { max_dict_size = size }))

-- The loop from `argv[i]` on, and the test behind it. The pointer behind the last argument is null,
-- and `strlen` follows it.
unfoldable pub compress_loop : List Str → CompressArgs → Outcome (ℕ × CompressArgs)
compress_loop [] a = ok (1, a)
compress_loop (arg ∷ []) a = elim (is_option arg) [
  | false ↦ ok (0, record a { fname = some arg })
  | true ↦ elim (takes_value (compress_option (option_name arg))) [
    | true ↦ fault null_pointer
    | false ↦ elim (apply_option (compress_option (option_name arg)) a) [
      | none ↦ ok (1, a)
      | some a' ↦ ok (1, a')
    ]
  ]
]
compress_loop (arg ∷ val ∷ rest) a = elim (is_option arg) [
  | false ↦ ok (1, record a { fname = some arg })
  | true ↦ elim (takes_value (compress_option (option_name arg))) [
    | true ↦ set_max val a >>= λ r. elim (r.0 == 0) [
      | true ↦ compress_loop rest r.1
      | false ↦ ok (1, r.1)
    ]
    | false ↦ elim (apply_option (compress_option (option_name arg)) a) [
      | none ↦ ok (1, a)
      | some a' ↦ compress_loop (val ∷ rest) a'
    ]
  ]
]

-- `argv[0]` is the program's name; for an `argv` that is empty there is no argument either.
unfoldable pub parse_compress_args : List Str → CompressArgs → Outcome (ℕ × CompressArgs)
unfolding compress_loop
parse_compress_args [] a = ok (1, a)
parse_compress_args (program ∷ args) a = compress_loop args a

pub record DecompressArgs : Type 0 where
  pub fname : Option Str
  pub verbose : ℕ
  pub keep : ℕ
  pub overwrite : ℕ

-- What an option sets; none for `help` and for an unknown one.
unfoldable pub decompress_option : Str → DecompressArgs → Option DecompressArgs
decompress_option arg a =
    if same arg (codes "h") || same arg (codes "help")
    then none
    else if same arg (codes "v") || same arg (codes "verbose")
    then some (record a { verbose = 1 })
    else if same arg (codes "k") || same arg (codes "keep")
    then some (record a { keep = 1 })
    else if same arg (codes "f") || same arg (codes "force")
    then some (record a { overwrite = 1 })
    else if same arg (codes "z")
        || same arg (codes "d")
        || (same arg (codes "compress") || same arg (codes "decompress"))
    then some a
    else none

-- `i == argc - 1` for the rest of the arguments behind `argv[i]`.
abbrev pub is_last : List Str → ℕ
is_last [] = 0
is_last (x ∷ rest) = 1

unfoldable pub decompress_loop : List Str → DecompressArgs → ℕ × DecompressArgs
decompress_loop [] a = (1, a)
decompress_loop (arg ∷ rest) a = elim (is_option arg) [
  | false ↦ (is_last rest, record a { fname = some arg })
  | true ↦ elim (decompress_option (option_name arg) a) [
    | none ↦ (1, a)
    | some a' ↦ decompress_loop rest a'
  ]
]

unfoldable pub parse_decompress_args : List Str → DecompressArgs → ℕ × DecompressArgs
unfolding decompress_loop
parse_decompress_args [] a = (1, a)
parse_decompress_args (program ∷ args) a = decompress_loop args a
