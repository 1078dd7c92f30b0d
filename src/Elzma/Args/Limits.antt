-- ===== src/Elzma/Args/Limits.antt =====
-- The settings that `parseCompressArgs` of elzma/elzma.c can leave.
use easylzma.Common.{
  ℕ, ◌^◌, ◌≤◌, ◌≡◌, ◌≢◌, ◌⊎◌, inl, inr, refl, ap, true, false, List, [], ◌∷◌, ◌++◌, some, ◌==◌,
  arith, Outcome, ok, fault, null_pointer, ◌>>=◌, >>=-eq-fault, Fault, Option-cases, ◌%◌,
  Bool-cases,
}
use easylzma.Common.Strings.{Str}
use easylzma.Api.{lzip, lzma}
use easylzma.DictSize.Choice.{elzma_get_dict_size-bounds}
use easylzma.Elzma.Args.{
  CompressArgs, CompressOption, level_flag, is_option, option_name, compress_option, takes_value,
  apply_option, strtoul, set_max, compress_loop, parse_compress_args,
}
use easylzma.Elzma.Args.Accepted.{Accepts, file, setting, limit, parse_compress_args_iff}

pub record IsSane (a : CompressArgs) : Type 0 where
  pub level_low : 1 ≤ a.level
  pub level_high : a.level ≤ 9
  pub format_known : (a.format ≡ lzip) ⊎ (a.format ≡ lzma)
  pub max_low : 1 ≤ a.max_dict_size
  pub max_high : a.max_dict_size ≤ 2 ^ 24

level_option : (arg : Str) {n : ℕ} → compress_option arg ≡ level_flag n → (1 ≤ n) × (n ≤ 9)
unfolding compress_option
level_option arg {n} e = ground arith

apply_option-IsSane :
    (arg : Str) (a b : CompressArgs)
    → IsSane a
    → apply_option (compress_option arg) a ≡ some b
    → IsSane b
apply_option-IsSane arg a b sane e =
    by_option (compress_option arg) refl (λ n is. level_option arg is) e
  where
    by_option :
        (o : CompressOption)
        → compress_option arg ≡ o
        → ((n : ℕ) → compress_option arg ≡ level_flag n → (1 ≤ n) × (n ≤ 9))
        → apply_option o a ≡ some b
        → IsSane b
    by_option (level_flag n) is bounds e = let h = bounds n is in ground arith
    by_option o is bounds e = ground arith

set_max-IsSane : (val : Str) (a b : CompressArgs) → IsSane a → set_max val a ≡ ok (0, b) → IsSane b
unfolding set_max
set_max-IsSane val a b sane e =
    let (d, size, low, high) = elzma_get_dict_size-bounds (strtoul val % 2 ^ 32) (omega arith) in
    ground arith

set_max-avoids : (val : Str) (a : CompressArgs) (e : Fault) → set_max val a ≢ fault e
unfolding set_max
set_max-avoids val a e bad =
    let (d, size, low, high) = elzma_get_dict_size-bounds (strtoul val % 2 ^ 32) (omega arith) in
    ground arith

Accepts-IsSane : {args : List Str} {a a' : CompressArgs} → Accepts args a a' → IsSane a → IsSane a'
Accepts-IsSane (file name a a' plain e) sane = ground arith
Accepts-IsSane (setting arg rest a b a' option applied more) sane =
    Accepts-IsSane more (apply_option-IsSane (option_name arg) a b sane applied)
Accepts-IsSane (limit arg val rest a b a' option value limited more) sane =
    Accepts-IsSane more (set_max-IsSane val a b sane limited)

-- Settings are sane when the level is from 1 to 9, the format is one of the two, and the limit for
-- the dictionary size is from 1 to 2^24. Whatever the arguments, an accepted command line leaves sane
-- settings if they were sane before.
pub parse_compress_args-IsSane :
    (program : Str) (args : List Str) (a a' : CompressArgs)
    → IsSane a
    → parse_compress_args (program ∷ args) a ≡ ok (0, a')
    → IsSane a'
parse_compress_args-IsSane program args a a' sane e =
    Accepts-IsSane ((parse_compress_args_iff program args a a').0 e) sane

-- The null pointer is crossed, and the last argument is an option that takes a value.
abbrev pub LacksValue : Fault → List Str → Type 0
LacksValue e args =
    (e ≡ null_pointer)
    × (front : List Str) × (last : Str) × (args ≡ front ++ (last ∷ []))
    × (is_option last ≡ true)
    × (takes_value (compress_option (option_name last)) ≡ true)

LacksValue-cons :
    (e : Fault) (arg : Str) (args : List Str) → LacksValue e args → LacksValue e (arg ∷ args)
LacksValue-cons e arg args (null, front, last, split, option, value) =
    (null, arg ∷ front, last, ap (λ t. arg ∷ t) split, option, value)

compress_loop-fault :
    (args : List Str) (a : CompressArgs) {e : Fault}
    → compress_loop args a ≡ fault e
    → LacksValue e args
unfolding compress_loop
compress_loop-fault [] a e = cc
compress_loop-fault (arg ∷ []) a e = elim (Bool-cases (is_option arg)) [
  | inr plain ↦ absurd (ground arith)
  | inl option ↦ elim (Bool-cases (takes_value (compress_option (option_name arg)))) [
    | inl value ↦ (ground arith, [], arg, refl, option, value)
    | inr flag ↦ absurd (ground arith)
  ]
]
compress_loop-fault (arg ∷ val ∷ rest) a {e = f} e = elim (Bool-cases (is_option arg)) [
  | inr plain ↦ absurd (ground arith)
  | inl option ↦ elim (Bool-cases (takes_value (compress_option (option_name arg)))) [
    | inl value ↦
        let then_loop : ℕ × CompressArgs → Outcome (ℕ × CompressArgs) =
          λ r. elim (r.0 == 0) [ true ↦ compress_loop rest r.1 | false ↦ ok (1, r.1) ] in
        let ran : set_max val a >>= then_loop ≡ fault f = ground arith in
        let ((status, b), limited, next) =
          >>=-eq-fault (set_max val a) then_loop ran (set_max-avoids val a f) in
        LacksValue-cons f arg (val ∷ rest)
          (LacksValue-cons f val rest (compress_loop-fault rest b (ground arith)))
    | inr flag ↦ elim (Option-cases (apply_option (compress_option (option_name arg)) a)) [
      | inl unknown ↦ absurd (ground arith)
      | inr (b, applied) ↦
          LacksValue-cons f arg (val ∷ rest) (compress_loop-fault (val ∷ rest) b (ground arith))
    ]
  ]
]

-- Reading the command line of a compression crosses the null pointer or does not fault at all, and it
-- does so only when the last argument is an option that lacks its value.
pub parse_compress_args-fault :
    (program : Str) (args : List Str) (a : CompressArgs) {e : Fault}
    → parse_compress_args (program ∷ args) a ≡ fault e
    → LacksValue e args
unfolding parse_compress_args
parse_compress_args-fault program args a e = compress_loop-fault args a e
