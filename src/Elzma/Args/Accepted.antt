-- ===== src/Elzma/Args/Accepted.antt =====
-- The command lines that `parseCompressArgs` of elzma/elzma.c accepts.
use easylzma.Common.{
  ℕ, ◌≡◌, ◌≢◌, ◌↔◌, refl, ◌∙◌, ap, true, false, List, [], ◌∷◌, some, ◌==◌, arith, Outcome, ok,
  ◌>>=◌, >>=-eq-ok, Bool-cases, Option-cases, inl, inr,
}
use easylzma.Common.Strings.{Str}
use easylzma.Elzma.Args.{
  CompressArgs, CompressOption, is_option, option_name, compress_option, takes_value, apply_option,
  set_max, compress_loop, parse_compress_args,
}

-- The arguments are options, each with its value where it takes one, and one file name at the end.
-- The indices are what they change the settings to.
pub data Accepts : List Str → CompressArgs → CompressArgs → Type 0 where
  file :
      (name : Str) (a a' : CompressArgs)
      → is_option name ≡ false
      → a' ≡ record a { fname = some name }
      → Accepts (name ∷ []) a a'
  setting :
      (arg : Str) (rest : List Str) (a b a' : CompressArgs)
      → is_option arg ≡ true
      → apply_option (compress_option (option_name arg)) a ≡ some b
      → Accepts rest b a'
      → Accepts (arg ∷ rest) a a'
  limit :
      (arg val : Str) (rest : List Str) (a b a' : CompressArgs)
      → is_option arg ≡ true
      → takes_value (compress_option (option_name arg)) ≡ true
      → set_max val a ≡ ok (0, b)
      → Accepts rest b a'
      → Accepts (arg ∷ val ∷ rest) a a'

apply_option-takes_value :
    (o : CompressOption) (a : CompressArgs) {b : CompressArgs}
    → apply_option o a ≡ some b
    → takes_value o ≡ false
apply_option-takes_value o a e = ground arith

compress_loop-Accepts :
    (args : List Str) (a : CompressArgs) {a' : CompressArgs}
    → compress_loop args a ≡ ok (0, a')
    → Accepts args a a'
unfolding compress_loop
compress_loop-Accepts [] a e = absurd (ground arith)
compress_loop-Accepts (arg ∷ []) a {a'} e = elim (Bool-cases (is_option arg)) [
  | inl option ↦ absurd (ground arith)
  | inr plain ↦ file arg a a' plain (ground arith)
]
compress_loop-Accepts (arg ∷ val ∷ rest) a {a'} e = elim (Bool-cases (is_option arg)) [
  | inr plain ↦ absurd (ground arith)
  | inl option ↦ elim (Bool-cases (takes_value (compress_option (option_name arg)))) [
    | inl value ↦
        let then_loop : ℕ × CompressArgs → Outcome (ℕ × CompressArgs) =
          λ r. elim (r.0 == 0) [ true ↦ compress_loop rest r.1 | false ↦ ok (1, r.1) ] in
        let ran : set_max val a >>= then_loop ≡ ok (0, a') = ground arith in
        let ((status, b), limited, next) = >>=-eq-ok (set_max val a) then_loop ran in
        let good : status ≡ 0 = ground arith in
        limit arg val rest a b a' option value (limited ∙ ap (λ n. ok (n, b)) good)
          (compress_loop-Accepts rest b (ground arith))
    | inr flag ↦ elim (Option-cases (apply_option (compress_option (option_name arg)) a)) [
      | inl unknown ↦ absurd (ground arith)
      | inr (b, applied) ↦
          setting arg (val ∷ rest) a b a' option applied
            (compress_loop-Accepts (val ∷ rest) b (ground arith))
    ]
  ]
]

Accepts-nonempty : {args : List Str} {a a' : CompressArgs} → Accepts args a a' → args ≢ []
Accepts-nonempty (file name a a' plain e) empty = cc
Accepts-nonempty (setting arg rest a b a' option applied more) empty = cc
Accepts-nonempty (limit arg val rest a b a' option value limited more) empty = cc

Accepts-compress_loop :
    {args : List Str} {a a' : CompressArgs} → Accepts args a a' → compress_loop args a ≡ ok (0, a')
unfolding compress_loop
Accepts-compress_loop (file name a a' plain e) = ground arith
Accepts-compress_loop (setting arg [] a b a' option applied more) =
    absurd (Accepts-nonempty more refl)
Accepts-compress_loop (setting arg (val ∷ rest) a b a' option applied more) =
    let next = Accepts-compress_loop more in
    let flag = apply_option-takes_value (compress_option (option_name arg)) a applied in
    ground arith
Accepts-compress_loop (limit arg val rest a b a' option value limited more) =
    let next = Accepts-compress_loop more in ground arith

-- The arguments behind the program's name are accepted, with new settings, exactly when they are
-- options, each with its value where it takes one, and one file name at the end, and the options and
-- the name change the old settings to the new ones.
pub parse_compress_args_iff :
    (program : Str) (args : List Str) (a a' : CompressArgs)
    → (parse_compress_args (program ∷ args) a ≡ ok (0, a')) ↔ Accepts args a a'
unfolding parse_compress_args
parse_compress_args_iff program args a a' = (compress_loop-Accepts args a, Accepts-compress_loop)
