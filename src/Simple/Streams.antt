-- ===== src/Simple/Streams.antt =====
-- The callbacks of test/simple.c as a client of the library.
use easylzma.Common.{
  ℕ, zero, suc, ◌≤◌, ◌≡◌, refl, sym, ap, true, List, [], ◌∷◌, ◌++◌, Option, arith, ltb,
  if◌then◌else◌, length, take, drop, length-take, length-append,
}
use mathlib.Core.List.{append-nil}
use easylzma.Common.Strings.{take-drop}
use easylzma.Decompress.Termination.{IsFinite}
use easylzma.Simple.{DataStream, input_callback, output_callback}

module _ {S : Type 0} where
  taken_size : ℕ → DataStream S → ℕ
  taken_size size ds = if ltb (length ds.in_data) size then length ds.in_data else size

  taken_size-le :
      (size : ℕ) (ds : DataStream S)
      → (taken_size size ds ≤ length ds.in_data) × (taken_size size ds ≤ size)
  unfolding taken_size
  taken_size-le size ds = ground arith

  after_read :
      (n : ℕ) (ds : DataStream S)
      → n ≤ length ds.in_data
      → let left = if ltb 0 n then record ds { in_data = drop n ds.in_data } else ds in
        (take n ds.in_data ++ left.in_data ≡ ds.in_data)
        × (left.out_data ≡ ds.out_data)
        × (length (take n ds.in_data) ≡ n)
  after_read zero ds fits = (refl, refl, refl)
  after_read (suc n) ds fits =
      let some_read : ltb 0 (suc n) ≡ true = ground arith in
      rw some_read (take-drop (suc n) ds.in_data, refl, length-take (suc n) ds.in_data fits)

  -- A read gives the front of the input, and leaves the rest.
  pub input_callback_lem :
      (size : ℕ) (ds : DataStream S)
      → let r = input_callback size ds in
        (r.bytes ++ r.state.in_data ≡ ds.in_data)
        × (r.state.out_data ≡ ds.out_data)
        × (length r.bytes ≤ size)
        × (r.status ≡ 0)
  unfolding input_callback taken_size
  input_callback_lem size ds =
      let n = taken_size size ds in
      let (fits, small) = taken_size-le size ds in
      let (split, same, size_read) = after_read n ds fits in (split, same, omega arith, refl)

module _ {S : Type 0} (realloc : Option ℕ → ℕ → S → ℕ × S) where
  -- A write puts its bytes behind the output, and takes them all.
  pub output_callback_lem :
      (buf : List ℕ) (ds : DataStream S)
      → let r = output_callback realloc buf ds in
        (r.1.out_data ≡ ds.out_data ++ buf) × (r.1.in_data ≡ ds.in_data) × (r.0 ≡ length buf)
  unfolding output_callback
  output_callback_lem [] ds = (sym (append-nil ds.out_data), refl, refl)
  output_callback_lem (b ∷ buf) ds = ground arith

  -- What is left of the input bounds what can still be read.
  unfoldable pub simple-IsFinite : IsFinite (input_callback {S = S}) (output_callback realloc)
  simple-IsFinite = record {
    remaining = λ ds. length ds.in_data;
    lowers = λ size ds good some_bytes.
        let (split, same, fits, read) = input_callback_lem size ds in
        let r = input_callback size ds in
        omega (arith, length-append r.bytes r.state.in_data, ap length split);
    fits = λ size ds good. (input_callback_lem size ds).2;
    keeps = λ buf ds.
        let (wrote, same, all) = output_callback_lem buf ds in omega (arith, ap length same);
  }
