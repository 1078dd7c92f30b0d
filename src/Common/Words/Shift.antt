-- ===== src/Common/Words/Shift.antt =====
-- The loop `while ((x >> r) != 0) r++;`: where it ends, and when it shifts too far.
use native.Mathlib.Nat.{pow-suc, pow-le-pow_right, one-le-pow}
use native.Mathlib.Numerals.{add-one}
use mathlib.Core.Bool.{false≢true}
use easylzma.Common.{
  ℕ, zero, suc, ◌+◌, ◌*◌, ◌/◌, ◌^◌, ◌≤◌, ◌<◌, ◌≡◌, ◌≢◌, refl, sym, ap, ◌∙◌, ◌⊎◌, arith, ◌==◌, ok,
  fault, shift_range, Bool-cases, inl, inr, ==_iff,
}
use easylzma.Common.Words.{shift_loop}

shift_zero : (d r : ℕ) → d / 2 ^ r ≡ 0 → d < 2 ^ r
shift_zero d r h = omega (arith, one-le-pow r 2 (omega arith), ap (λ (t : ℕ). 2 ^ r * t) h)

shift_pos : (d r : ℕ) → d / 2 ^ r ≢ 0 → 2 ^ r ≤ d
shift_pos d r h = let once : 1 ≤ d / 2 ^ r = omega arith in grind arith

-- From a shift that is not too far, the loop ends at the first shift that leaves nothing.
pub shift_loop_ends :
    (floor w n r x : ℕ)
    → n + r ≡ w
    → floor < w
    → floor ≤ r
    → (r ≡ floor) ⊎ (2 ^ r ≤ 2 * x)
    → 2 * x < 2 ^ w
    → (s : ℕ) × (shift_loop n x r ≡ ok s)
      × ((s ≡ floor) ⊎ (2 ^ s ≤ 2 * x))
      × (x < 2 ^ s)
      × (floor ≤ s)
      × (s < w)
unfolding shift_loop
shift_loop_ends floor w zero r x e room start (inl same) lt = absurd (omega arith)
shift_loop_ends floor w zero r x e room start (inr inv) lt =
    let e' : r ≡ w = omega arith in let far : 2 ^ w ≤ 2 * x = rw e' at inv in absurd (omega arith)
shift_loop_ends floor w (suc n) r x e room start inv lt = elim (Bool-cases (x / 2 ^ r == 0)) [
  | inl done ↦
      (r, rw (done, shift_loop), inv, shift_zero x r ((==_iff _ _).0 done), start, omega arith)
  | inr more ↦
      let above = shift_pos x r (λ z. false≢true (sym more ∙ (==_iff _ _).1 z)) in
      rw (more, shift_loop)
        (shift_loop_ends floor w n (r + 1) x (omega arith) room (omega arith)
          (inr (rw (add-one, pow-suc) (omega arith))) lt)
]

-- It shifts by the whole width where the word has its top bit set.
pub shift_loop_faults :
    (w n r x : ℕ) → n + r ≡ suc w → 2 ^ w ≤ x → shift_loop n x r ≡ fault shift_range
unfolding shift_loop
shift_loop_faults w zero r x e big = refl
shift_loop_faults w (suc n) r x e big = elim (Bool-cases (x / 2 ^ r == 0)) [
  | inl done ↦
      let below = shift_zero x r ((==_iff _ _).0 done) in
      absurd (omega (arith, pow-le-pow_right {n = 2} (omega arith) {i = r} {j = w} (omega arith)))
  | inr more ↦ rw (more, shift_loop) (shift_loop_faults w n (r + 1) x (omega arith) big)
]
