-- ===== src/Common/Words/LittleEndian.antt =====
-- The two loops against the value of a list of bytes and the bytes of a number.
use Prim.Native.Nat.{ℕ, zero, suc, ◌+◌, ◌*◌, ◌/◌, ◌%◌, ◌^◌, ◌<◌}
use mathlib.Core.Path.{◌≡◌, refl, ap, ◌∙◌}
use mathlib.Core.List.{List, [], ◌∷◌, ◌++◌}
use native.Mathlib.Omega.{arith}
use native.Mathlib.Numerals.{towards_suc}
use native.Mathlib.Nat.{pow-suc, div-div-eq-div-mul, mod-eq_of_lt}
use easylzma.Common.Lists.{length, All}
use easylzma.Common.Outcomes.{Outcome, ok}
use easylzma.Common.Words.{IsByte, load_le, store_le}

-- The number that the bytes spell, lowest first.
abbrev pub le_value : List ℕ → ℕ
le_value [] = 0
le_value (b ∷ bs) = b + 256 * le_value bs

-- The lowest `n` bytes of `v`.
unfoldable pub le_bytes : ℕ → ℕ → List ℕ
le_bytes zero v = []
le_bytes (suc n) v = (v % 256) ∷ le_bytes n (v / 256)

pub length-le_bytes : (n v : ℕ) → length (le_bytes n v) ≡ n
unfolding le_bytes
length-le_bytes zero v = refl
length-le_bytes (suc n) v = ap suc (length-le_bytes n (v / 256))

pub le_bytes-IsByte : (n v : ℕ) → All IsByte (le_bytes n v)
unfolding le_bytes
le_bytes-IsByte zero v = tt
le_bytes-IsByte (suc n) v = (omega arith, le_bytes-IsByte n (v / 256))

pub le_value-le_bytes : (n v : ℕ) → v < 256 ^ n → le_value (le_bytes n v) ≡ v
unfolding le_bytes
le_value-le_bytes zero v h = omega arith
le_value-le_bytes (suc n) v h =
    omega (arith, pow-suc 256 n, le_value-le_bytes n (v / 256) (omega (arith, pow-suc 256 n)))

pub le_value-lt : (bs : List ℕ) → All IsByte bs → le_value bs < 256 ^ length bs
le_value-lt [] h = omega arith
le_value-lt (b ∷ bs) (hb, hs) = omega (arith, pow-suc 256 (length bs), le_value-lt bs hs)

pub pow_byte : (i : ℕ) → 2 ^ ((i + 1) * 8) ≡ 256 * 2 ^ (i * 8)
pow_byte i = let e : (i + 1) * 8 ≡ i * 8 + 8 = omega arith in rw e (simp towards_suc (omega arith))

div_byte : (v i : ℕ) → v / 2 ^ ((i + 1) * 8) ≡ v / 2 ^ (i * 8) / 256
div_byte v i = rw (pow_byte i, div-div-eq-div-mul) (ap (λ (t : ℕ). v / t) (omega arith))

pub store_le_lem :
    (n i v : ℕ) (next : List ℕ → Outcome (List ℕ)) (old rest : List ℕ) {out : List ℕ}
    → length old ≡ n
    → next rest ≡ ok out
    → store_le n i v next (old ++ rest) ≡ ok (le_bytes n (v / 2 ^ (i * 8)) ++ out)
unfolding store_le le_bytes
store_le_lem zero i v next [] rest h e = e
store_le_lem zero i v next (x ∷ old) rest h e = cc
store_le_lem (suc n) i v next [] rest h e = cc
store_le_lem (suc n) i v next (x ∷ old) rest h e =
    rw (store_le_lem n (i + 1) v next old rest (omega arith) e, div_byte v i)

pub load_le_lem :
    (w n i acc : ℕ) (bs rest : List ℕ)
    → length bs ≡ n
    → acc + le_value bs * 2 ^ (i * 8) < 2 ^ w
    → load_le w n i acc (bs ++ rest) ≡ ok (acc + le_value bs * 2 ^ (i * 8))
unfolding load_le
load_le_lem w zero i acc [] rest h lt = ap ok (omega arith)
load_le_lem w zero i acc (b ∷ bs) rest h lt = cc
load_le_lem w (suc n) i acc [] rest h lt = cc
load_le_lem w (suc n) i acc (b ∷ bs) rest h lt =
    let scaled : le_value bs * 2 ^ ((i + 1) * 8) ≡ 256 * le_value bs * 2 ^ (i * 8) =
      omega (arith, ap (λ (t : ℕ). le_value bs * t) (pow_byte i)) in
    let here : (acc + b * 2 ^ (i * 8) % 2 ^ w) % 2 ^ w ≡ acc + b * 2 ^ (i * 8) =
      grind (arith, mod-eq_of_lt) in
    rw (here, load_le_lem w n (i + 1) (acc + b * 2 ^ (i * 8)) bs rest (omega arith) (omega arith))
      (ap ok (omega arith))

pub le_value-bound : (n : ℕ) (bs : List ℕ) → length bs ≡ n → All IsByte bs → le_value bs < 256 ^ n
le_value-bound n bs e h = rw (← e) (le_value-lt bs h)

-- A whole word is read from the front of the buffer.
pub load_le-value :
    (w n : ℕ) (bs rest : List ℕ)
    → 256 ^ n ≡ 2 ^ w
    → length bs ≡ n
    → All IsByte bs
    → load_le w n 0 0 (bs ++ rest) ≡ ok (le_value bs)
load_le-value w n bs rest e h bytes =
    load_le_lem w n 0 0 bs rest h (omega (arith, le_value-bound n bs h bytes)) ∙ ap ok (omega arith)

-- A whole word is written over the front of the buffer.
pub store_le-bytes :
    (n v : ℕ) (next : List ℕ → Outcome (List ℕ)) (old rest : List ℕ) {out : List ℕ}
    → length old ≡ n
    → next rest ≡ ok out
    → store_le n 0 v next (old ++ rest) ≡ ok (le_bytes n v ++ out)
store_le-bytes n v next old rest {out} h e =
    store_le_lem n 0 v next old rest h e ∙ ap (λ t. ok (le_bytes n t ++ out)) (omega arith)

pub le_bytes-le_value :
    (n : ℕ) (bs : List ℕ) → length bs ≡ n → All IsByte bs → le_bytes n (le_value bs) ≡ bs
unfolding le_bytes
le_bytes-le_value zero [] h bytes = refl
le_bytes-le_value zero (b ∷ bs) h bytes = cc
le_bytes-le_value (suc n) [] h bytes = cc
le_bytes-le_value (suc n) (b ∷ bs) h (hb, hs) =
    let low : (b + 256 * le_value bs) % 256 ≡ b = omega arith in
    let high : (b + 256 * le_value bs) / 256 ≡ le_value bs = omega arith in
    rw (low, high, le_bytes-le_value n bs (omega arith) hs)
