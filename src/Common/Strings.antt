-- ===== src/Common/Strings.antt =====
-- C strings: the bytes in front of the terminating zero.
use Prim.Native.Nat.{ℕ, suc, ◌+◌, ◌-◌, ◌≤◌, ◌<◌}
use Prim.Native.Char.{code}
use Prim.Native.String.{String}
use mathlib.Core.Path.{◌≡◌, refl, sym, ap, ◌∙◌}
use mathlib.Core.Bool.{Bool, true, false, ◌&&◌}
use mathlib.Core.List.{List, [], ◌∷◌, ◌++◌}
use native.Mathlib.Omega.{arith}
use easylzma.Common.Tests.{◌==◌, leb}
use easylzma.Common.Lists.{length, drop, take, length-append}

abbrev pub Str : Type 0
Str = List ℕ

-- The bytes of a literal.
abbrev pub codes : String → Str
codes String.[] = []
codes (String.◌∷◌ c s) = code c ∷ codes s

-- `!strcmp(s, t)`
abbrev pub same : Str → Str → Bool
same [] [] = true
same [] (y ∷ t) = false
same (x ∷ s) [] = false
same (x ∷ s) (y ∷ t) = x == y && same s t

pub same-eq : (s t : Str) → same s t ≡ true → s ≡ t
same-eq [] [] h = refl
same-eq [] (y ∷ t) h = cc
same-eq (x ∷ s) [] h = cc
same-eq (x ∷ s) (y ∷ t) h = ground (arith, same-eq s t)

pub same_refl : (s : Str) → same s s ≡ true
same_refl [] = refl
same_refl (x ∷ s) = ground (arith, same_refl s)

-- `strlen(s) >= strlen(suffix) && !strcmp(s + strlen(s) - strlen(suffix), suffix)`
abbrev pub ends_with : Str → Str → Bool
ends_with suffix s =
    leb (length suffix) (length s) && same (drop (length s - length suffix) s) suffix

pub drop-append : (p s : Str) → drop (length p) (p ++ s) ≡ s
drop-append [] s = refl
drop-append (x ∷ p) s = drop-append p s

pub take-append : (p s : Str) → take (length p) (p ++ s) ≡ p
take-append [] s = refl
take-append (x ∷ p) s = ap (λ t. x ∷ t) (take-append p s)

pub take-drop : (n : ℕ) (s : Str) → take n s ++ drop n s ≡ s
take-drop Prim.Native.Nat.zero s = refl
take-drop (suc n) [] = refl
take-drop (suc n) (x ∷ s) = ap (λ t. x ∷ t) (take-drop n s)

pub ends_with-append : (p suffix : Str) → ends_with suffix (p ++ suffix) ≡ true
ends_with-append p suffix =
    let n = length-append p suffix in
    let from : length (p ++ suffix) - length suffix ≡ length p = omega arith in
    rw (from, drop-append p suffix) (ground (arith, same_refl suffix))

-- A string with the suffix is what stands in front of it, and the suffix.
pub ends_with-split :
    (suffix s : Str) → ends_with suffix s ≡ true → s ≡ take (length s - length suffix) s ++ suffix
ends_with-split suffix s h =
    let back : drop (length s - length suffix) s ≡ suffix =
      same-eq (drop (length s - length suffix) s) suffix (ground arith) in
    sym (take-drop (length s - length suffix) s)
    ∙ ap (λ t. take (length s - length suffix) s ++ t) back
