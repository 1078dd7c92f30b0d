-- ===== src/Common/Words.antt =====
-- Unsigned machine words and their bytes, lowest first. The loops of lzma_header.c and
-- lzip_header.c that take a word apart and put it together are instances of the two loops here.
pub mod LittleEndian
pub mod Shift
use Prim.Native.Nat.{ℕ, zero, suc, ◌+◌, ◌*◌, ◌/◌, ◌%◌, ◌^◌, ◌<◌}
use mathlib.Core.List.{List, [], ◌∷◌}
use mathlib.Core.Bool.{true, false}
use easylzma.Common.Tests.{◌==◌}
use easylzma.Common.Outcomes.{Outcome, ok, fault, out_of_bounds, shift_range, ◌>>=◌}

abbrev pub IsByte : ℕ → Type 0
IsByte b = b < 256

abbrev pub IsU32 : ℕ → Type 0
IsU32 v = v < 2 ^ 32

abbrev pub IsU64 : ℕ → Type 0
IsU64 v = v < 2 ^ 64

-- `for (; n > 0; i++) acc += (word) *buf++ << (i * 8);` on a word of `w` bits: the sum, and the
-- buffer behind the bytes that were read.
unfoldable pub load_le : ℕ → ℕ → ℕ → ℕ → List ℕ → Outcome ℕ
load_le w zero i acc buf = ok acc
load_le w (suc n) i acc [] = fault out_of_bounds
load_le w (suc n) i acc (b ∷ buf) =
    load_le w n (i + 1) ((acc + b * 2 ^ (i * 8) % 2 ^ w) % 2 ^ w) buf

-- `for (; n > 0; i++) *buf++ = (unsigned char) (v >> (i * 8));`, with the rest of the writing in
-- `next`: the buffer after it.
unfoldable pub store_le : ℕ → ℕ → ℕ → (List ℕ → Outcome (List ℕ)) → List ℕ → Outcome (List ℕ)
store_le zero i v next buf = next buf
store_le (suc n) i v next [] = fault out_of_bounds
store_le (suc n) i v next (_ ∷ buf) = do
  buf' ← store_le n (i + 1) v next buf
  ok ((v / 2 ^ (i * 8) % 256) ∷ buf')

-- `while ((x >> r) != 0) r++;` on a word. The first argument is how many of the shifts from `r` on
-- are within the width of the word: at none the next shift is undefined.
unfoldable pub shift_loop : ℕ → ℕ → ℕ → Outcome ℕ
shift_loop zero x r = fault shift_range
shift_loop (suc n) x r = elim (x / 2 ^ r == 0) [ true ↦ ok r | false ↦ shift_loop n x (r + 1) ]
