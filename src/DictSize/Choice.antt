-- ===== src/DictSize/Choice.antt =====
-- Which power of two `elzma_get_dict_size` of src/compress.c returns.
use native.Mathlib.Nat.{pow-suc, pow-le-pow_right}
use native.Mathlib.Decide.{dec_le, dec_lt}
use easylzma.Common.{
  Bool-cases, ltb→lt, lt→ltb, ltb-eq_false→le, ℕ, zero, suc, ◌+◌, ◌-◌, ◌*◌, ◌^◌, ◌≤◌, ◌<◌, ◌≡◌,
  refl, ◌⊎◌, inl, inr, arith, ltb, ok,
}
use easylzma.Common.Words.{IsU64, shift_loop}
use easylzma.Common.Words.Shift.{shift_loop_ends}
use easylzma.DictSize.{halved, nearer, sub64, near_power, elzma_get_dict_size}

abbrev pub distance : ℕ → ℕ → ℕ
distance a b = (a - b) + (b - a)

pow_mono : (a b : ℕ) → a ≤ b → 2 ^ a ≤ 2 ^ b
pow_mono a b h = pow-le-pow_right {n = 2} (omega arith) {i = a} {j = b} h

module _ (s : ℕ) where
  -- Where the loop ends.
  abbrev LoopEnd : Type 0
  LoopEnd =
      (i : ℕ) × (shift_loop 51 s 13 ≡ ok i)
      × ((i ≡ 13) ⊎ (2 ^ i ≤ 2 * s))
      × (s < 2 ^ i)
      × (13 ≤ i)
      × (i < 64)

  loop_end : s < 2 ^ 63 → LoopEnd
  loop_end h =
      shift_loop_ends 13 64 51 13 s refl (omega arith) (omega arith) (inl refl) (omega arith)

  near_power_small : s < 2 ^ 12 → near_power s ≡ ok (2 ^ 13)
  unfolding near_power
  near_power_small h = from_end (loop_end (omega arith))
    where
      from_end : LoopEnd → near_power s ≡ ok (2 ^ 13)
      from_end (i, ends, inl low, high, start, room) = rw (ends, low) (ground arith)
      from_end (i, ends, inr low, high, start, room) = absurd (omega (arith, pow_mono 13 i start))

  near_power_large : s < 2 ^ 63 → 2 ^ 23 ≤ s → near_power s ≡ ok (2 ^ 23)
  unfolding near_power
  near_power_large fits h =
      let (i, ends, low, high, start, room) = loop_end fits in
      let past : 23 < i = elim (dec_lt 23 i) [
        | yes p ↦ p
        | no p ↦ absurd (omega (arith, pow_mono i 23 (omega arith)))
      ] in
      rw (ends, lt→ltb 23 i past)

  at_least : (k : ℕ) → (suc k ≡ 13) ⊎ (2 ^ suc k ≤ 2 * s) → 2 ^ 12 ≤ s → 2 ^ k ≤ s
  at_least k (inl first) lo = let e : k ≡ 12 = omega arith in rw e lo
  at_least k (inr twice) lo = omega (arith, pow-suc 2 k)

  -- Between, the two powers around the size are compared.
  near_power_between :
      2 ^ 12 ≤ s
      → s < 2 ^ 23
      → (k : ℕ) × (near_power s ≡ ok (2 ^ nearer (suc k) s))
        × (2 ^ k ≤ s)
        × (s < 2 ^ suc k)
        × (12 ≤ k)
        × (k ≤ 22)
  unfolding near_power
  near_power_between lo hi = from_end (loop_end (omega arith))
    where
      from_end :
          LoopEnd
          → (k : ℕ) × (near_power s ≡ ok (2 ^ nearer (suc k) s))
            × (2 ^ k ≤ s)
            × (s < 2 ^ suc k)
            × (12 ≤ k)
            × (k ≤ 22)
      from_end (zero, ends, low, high, start, room) = absurd (omega arith)
      from_end (suc k, ends, low, high, start, room) =
          let below : 2 ^ k ≤ s = at_least k low lo in
          let top : k ≤ 22 = elim (dec_le k 22) [
            | yes p ↦ p
            | no p ↦ absurd (omega (arith, pow_mono 23 k (omega arith)))
          ] in
          (k, rw ends (ground arith), below, high, omega arith, top)

  nearer_cases :
      (k : ℕ)
      → 2 ^ k ≤ s
      → s < 2 ^ suc k
      → k ≤ 22
      → ((nearer (suc k) s ≡ k) × (s - 2 ^ k ≤ 2 ^ suc k - s))
        ⊎ ((nearer (suc k) s ≡ suc k) × (2 ^ suc k - s ≤ s - 2 ^ k))
  nearer_cases k low high small =
      let e : suc k - 1 ≡ k = omega arith in
      let bound = pow_mono (suc k) 23 (omega arith) in
      elim (Bool-cases (ltb (sub64 s (2 ^ k)) (sub64 (2 ^ suc k) s))) [
        | inl less ↦ inl (rw (e, less), omega (arith, ltb→lt _ _ less))
        | inr more ↦ inr (rw (e, more), omega (arith, ltb-eq_false→le _ _ more))
      ]

  distance_from :
      (k m : ℕ)
      → 2 ^ k ≤ s
      → s < 2 ^ suc k
      → (s - 2 ^ k ≤ distance (2 ^ m) s) ⊎ (2 ^ suc k - s ≤ distance (2 ^ m) s)
  distance_from k m low high = elim (dec_le m k) [
    | yes p ↦ inl (omega (arith, pow_mono m k p))
    | no p ↦ inr (omega (arith, pow_mono (suc k) m (omega arith)))
  ]

  -- Of two powers around the size, the nearer one is the nearest of all.
  nearer_least :
      (k m : ℕ)
      → 2 ^ k ≤ s
      → s < 2 ^ suc k
      → k ≤ 22
      → distance (2 ^ nearer (suc k) s) s ≤ distance (2 ^ m) s
  nearer_least k m low high small = elim (nearer_cases k low high small) [
    | inl (e, less) ↦ rw e (omega (arith, distance_from k m low high))
    | inr (e, more) ↦ rw e (omega (arith, distance_from k m low high))
  ]

  nearer_range :
      (k : ℕ)
      → 2 ^ k ≤ s
      → s < 2 ^ suc k
      → 12 ≤ k
      → k ≤ 22
      → (12 ≤ nearer (suc k) s) × (nearer (suc k) s ≤ 23)
  nearer_range k low high start small = elim (nearer_cases k low high small) [
    | inl (e, less) ↦ rw e (omega arith)
    | inr (e, more) ↦ rw e (omega arith)
  ]

  near_power-closest :
      2 ^ 12 ≤ s
      → s < 2 ^ 63
      → (j : ℕ) × (near_power s ≡ ok (2 ^ j))
        × (12 ≤ j)
        × (j ≤ 23)
        × ((m : ℕ) → m ≤ 23 → distance (2 ^ j) s ≤ distance (2 ^ m) s)
  near_power-closest lo fits = elim (dec_lt s (2 ^ 23)) [
    | yes hi ↦
        let (k, found, low, high, start, small) = near_power_between lo hi in
        let (from, to) = nearer_range k low high start small in
        (nearer (suc k) s, found, from, to, λ m h. nearer_least k m low high small)
    | no hi ↦ (
      23,
      near_power_large fits (omega arith),
      omega arith,
      omega arith,
      λ m h. omega (arith, pow_mono m 23 h),
    )
  ]

-- For a size that fits 64 bits and is at least 4096, the function returns a power of two between
-- 2^12 and 2^23, and no power of two up to 2^23 is closer to the size (to half of it, for sizes
-- above 2^23).
pub elzma_get_dict_size-closest :
    (size : ℕ)
    → IsU64 size
    → 2 ^ 12 ≤ size
    → (j : ℕ) × (elzma_get_dict_size size ≡ ok (2 ^ j))
      × (12 ≤ j)
      × (j ≤ 23)
      × ((m : ℕ) → m ≤ 23 → distance (2 ^ j) (halved size) ≤ distance (2 ^ m) (halved size))
unfolding elzma_get_dict_size
elzma_get_dict_size-closest size fits h =
    near_power-closest (halved size) (ground arith) (ground arith)

whole_below : (size : ℕ) → size ≤ 2 ^ 23 → halved size ≡ size
whole_below size h = ground arith

-- For a size below 4096 the function returns 2^13.
pub elzma_get_dict_size_small : (size : ℕ) → size < 2 ^ 12 → elzma_get_dict_size size ≡ ok (2 ^ 13)
unfolding elzma_get_dict_size
elzma_get_dict_size_small size h = rw (whole_below size (omega arith)) (near_power_small size h)

pub elzma_get_dict_size-bounds :
    (size : ℕ)
    → size < 2 ^ 64
    → (d : ℕ) × (elzma_get_dict_size size ≡ ok d) × (2 ^ 12 ≤ d) × (d ≤ 2 ^ 23)
elzma_get_dict_size-bounds size fits = elim (Bool-cases (ltb size (2 ^ 12))) [
  | inl small ↦ (2 ^ 13, elzma_get_dict_size_small size (ground arith), omega arith, omega arith)
  | inr large ↦
      let (j, e, low, high, closest) =
        elzma_get_dict_size-closest size (ground arith) (ground arith) in
      (2 ^ j, e, pow_mono 12 j low, pow_mono j 23 high)
]
