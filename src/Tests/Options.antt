-- ===== src/Tests/Options.antt =====
-- The command lines, the names and the modes of elzma/elzma.c.
use easylzma.Common.{
  ◌+◌, ◌^◌, ◌≡◌, ◌≢◌, ◌↔◌, refl, subst, false, List, [], ◌∷◌, ◌++◌, some, ok, fault, null_pointer,
  out_of_bounds, arith, All, inl, inr,
}
use easylzma.Common.Strings.{Str, codes, same, same_refl}
use easylzma.Api.{lzip}
use easylzma.Elzma.Args.{
  CompressArgs, compress_option, is_numeric, decimal, strtoul, set_max, compress_loop,
  parse_compress_args,
}
use easylzma.Elzma.Args.Accepted.{Accepts, parse_compress_args_iff}
use easylzma.Elzma.Args.Limits.{
  IsSane, LacksValue, parse_compress_args-IsSane, parse_compress_args-fault,
}
use easylzma.Elzma.Names.{compress_name, decompress_name, name_format, ext_of}
use easylzma.Elzma.Names.RoundTrip.{name_format-compress_name, decompress_name-faults}
use easylzma.Elzma.Compressing.{default_args}
use easylzma.Elzma.Mode.{run_mode, rm_decompress}
use easylzma.Elzma.Mode.Choice.{IsNoFlag, run_mode-first_flag}
use easylzma.DictSize.{elzma_get_dict_size}

abbrev line : List Str
line = codes "-9" ∷ codes "-k" ∷ codes "--lzip" ∷ codes "notes" ∷ []

abbrev chosen : CompressArgs
chosen = record default_args { level = 9; keep = 1; format = lzip; fname = some (codes "notes") }

parse-line : parse_compress_args (codes "elzma" ∷ line) default_args ≡ ok (0, chosen)
unfolding parse_compress_args compress_loop compress_option
parse-line = refl

-- The compiled limit of a number argument.
parse-limit :
    parse_compress_args (codes "elzma" ∷ codes "-s" ∷ codes "65536" ∷ codes "f" ∷ []) default_args
    ≡ ok (0, record default_args { max_dict_size = 2 ^ 16; fname = some (codes "f") })
unfolding parse_compress_args compress_loop compress_option set_max is_numeric strtoul decimal
    elzma_get_dict_size
parse-limit = refl

parse-lacking :
    parse_compress_args (codes "elzma" ∷ codes "-k" ∷ codes "-s" ∷ []) default_args
    ≡ fault null_pointer
unfolding parse_compress_args compress_loop compress_option
parse-lacking = refl

parse_compress_args_iff_example :
    (parse_compress_args (codes "elzma" ∷ line) default_args ≡ ok (0, chosen))
    ↔ Accepts line default_args chosen
parse_compress_args_iff_example = parse_compress_args_iff (codes "elzma") line default_args chosen

default_args-IsSane : IsSane default_args
default_args-IsSane = record {
  level_low = ground arith;
  level_high = ground arith;
  format_known = inr refl;
  max_low = ground arith;
  max_high = ground arith;
}

parse_compress_args-IsSane_example : IsSane chosen
parse_compress_args-IsSane_example =
    parse_compress_args-IsSane (codes "elzma") line default_args chosen default_args-IsSane
      parse-line

parse_compress_args-fault_example : LacksValue null_pointer (codes "-k" ∷ codes "-s" ∷ [])
parse_compress_args-fault_example =
    parse_compress_args-fault (codes "elzma") (codes "-k" ∷ codes "-s" ∷ []) default_args
      parse-lacking

name_format-compress_name_example :
    (out : Str) × (compress_name (λ n. n + 1) (codes "notes.txt") lzip ≡ ok out)
    × (name_format out ≡ some (lzip, ext_of lzip))
    × (decompress_name (λ n. n + 1) out (ext_of lzip) ≡ ok (codes "notes.txt"))
name_format-compress_name_example =
    name_format-compress_name (λ n. n + 1) (codes "notes.txt") lzip (λ n. omega arith) (λ e. cc)
      (inl refl)

decompress_name-faults_example :
    decompress_name (λ n. n) (codes "notes.lzma") (codes ".lzma") ≡ fault out_of_bounds
decompress_name-faults_example = decompress_name-faults (codes "notes.lzma") (codes ".lzma")

same-apart : (s t : Str) → same s t ≡ false → s ≢ t
same-apart s t h e =
    let h' : same t t ≡ false = subst (λ x. same x t ≡ false) e h in
    let r = same_refl t in absurd (ground arith)

keep_flag-none : All IsNoFlag (codes "-k" ∷ [])
keep_flag-none = (
  (
    (λ f. elim f [
      | inl e ↦ same-apart (codes "-k") (codes "-d") refl e
      | inr e ↦ same-apart (codes "-k") (codes "--decompress") refl e
    ]),
    λ f. elim f [
      | inl e ↦ same-apart (codes "-k") (codes "-z") refl e
      | inr e ↦ same-apart (codes "-k") (codes "--compress") refl e
    ],
  ),
  tt,
)

run_mode-first_flag_example :
    run_mode (codes "elzma") ((codes "-k" ∷ []) ++ (codes "-d" ∷ codes "-z" ∷ codes "notes" ∷ []))
    ≡ rm_decompress
run_mode-first_flag_example =
    run_mode-first_flag (codes "elzma") (codes "-k" ∷ []) (codes "-d")
      (codes "-z" ∷ codes "notes" ∷ []) rm_decompress keep_flag-none (inl (inl refl, refl))
