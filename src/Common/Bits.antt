-- ===== src/Common/Bits.antt =====
-- Masks on one byte as arithmetic, checked by evaluation at every byte.
use Prim.Native.Nat.{ℕ, zero, suc, ◌%◌, ◌<◌, bit_and}
use mathlib.Core.Path.{◌≡◌, refl}
use mathlib.Core.Bool.{Bool, true, ◌&&◌}
use native.Mathlib.Omega.{arith}
use easylzma.Common.Tests.{◌==◌, ==_iff}

every_byte_below : ℕ → (ℕ → Bool) → Bool
every_byte_below zero test = true
every_byte_below (suc n) test = test n && every_byte_below n test

every_byte_below→at :
    (test : ℕ → Bool) (b n : ℕ) → b < n → every_byte_below n test ≡ true → test b ≡ true
unfolding every_byte_below
every_byte_below→at test b zero lt h = absurd (omega arith)
every_byte_below→at test b (suc n) lt h = ground (arith, every_byte_below→at test b n)

low_five_table : every_byte_below 256 (λ x. bit_and x 0x1f == x % 32) ≡ true
unfolding every_byte_below
low_five_table = refl

pub low_five : (x : ℕ) → x < 256 → bit_and x 0x1f ≡ x % 32
low_five x h = (==_iff _ _).0 (every_byte_below→at _ x 256 h low_five_table)
