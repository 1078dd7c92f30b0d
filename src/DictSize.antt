-- ===== src/DictSize.antt =====
-- `elzma_get_dict_size` of src/compress.c: a power of two near the size of the input.
pub mod Choice
use easylzma.Common.{ℕ, ◌+◌, ◌-◌, ◌/◌, ◌%◌, ◌^◌, ltb, if◌then◌else◌, Outcome, ok, ◌>>=◌}
use easylzma.Common.Words.{shift_loop}

-- `a - b` on unsigned long long.
abbrev pub sub64 : ℕ → ℕ → ℕ
sub64 a b = (a + 2 ^ 64 - b) % 2 ^ 64

-- Sizes above 8 MB count half.
abbrev pub halved : ℕ → ℕ
halved size = if ltb (2 ^ 23) size then size / 2 else size

abbrev pub nearer : ℕ → ℕ → ℕ
nearer i size = if ltb (sub64 size (2 ^ (i - 1))) (sub64 (2 ^ i) size) then i - 1 else i

-- The code behind the halving. From `i = 13` on, 51 shifts are within the 64 bits of the size.
unfoldable pub near_power : ℕ → Outcome ℕ
unfolding shift_loop
near_power size = do i ← shift_loop 51 size 13; ok (if ltb 23 i then 2 ^ 23 else 2 ^ nearer i size)

unfoldable pub elzma_get_dict_size : ℕ → Outcome ℕ
unfolding near_power
elzma_get_dict_size size = near_power (halved size)
