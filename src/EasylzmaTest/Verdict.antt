-- ===== src/EasylzmaTest/Verdict.antt =====
-- When `main` of test/easylzma_test.c returns 0.
use easylzma.Common.{
  ℕ, ◌+◌, ◌≤◌, ◌≡◌, ◌↔◌, ap, ◌∙◌, sym, subst, List, [], ◌∷◌, Option, ◌==◌, if◌then◌else◌, arith,
  Outcome, ok, >>=-eq-ok, Bool-cases, inl, inr, length,
}
use easylzma.Common.Strings.{Str, codes}
use easylzma.Format.{FileHeader, FormatHandler}
use easylzma.Api.{FileFormat, lzip, lzma, elzma_e_ok}
use easylzma.Alloc.{Runtime}
use easylzma.Sdk.{Crc, Encoder, Decoder}
use easylzma.Elzma.Files.{Arg, string}
use easylzma.Simple.{DataStream, Answer}
use easylzma.EasylzmaTest.{
  Test, Tally, tests, decompressed, round_trip_test, round_trip, run_test, run_tests, main,
}

module _ {S : Type 0} (printf : Str → List Arg → S → S) (fflush : S → S)
    (realloc : Option ℕ → ℕ → S → ℕ × S) (rt : Runtime (DataStream S)) (crc : Crc)
    (E : Encoder (DataStream S)) (D : Decoder (DataStream S)) (rounds : ℕ) (junk : FormatHandler)
    (h : FileHeader) (address : ℕ) where
  abbrev tested : FileFormat → S → Outcome (ℕ × S)
  tested format s = round_trip_test printf fflush realloc rt crc E D rounds junk h address format s

  -- Decompressing the entry's bytes gives the code that the entry expects.
  abbrev pub Gives : Test → S → Type 0
  Gives x s =
      (a : Answer S) × (decompressed printf fflush realloc rt crc E D rounds junk h address x.format
          x.bytes (printf (codes "%s test:    ") (string x.test_name ∷ []) s)
        ≡ ok a)
      × (a.rc ≡ x.expected_code)

  -- Each entry gives its code, in the state that the entry before it leaves.
  pub data AllGive : List Test → Tally S → Type 0 where
    none_left : (t : Tally S) → AllGive [] t
    next_gives :
        (x : Test) (xs : List Test) (t t' : Tally S)
        → Gives x t.world
        → run_test printf fflush realloc rt crc E D rounds junk h address x t ≡ ok t'
        → AllGive xs t'
        → AllGive (x ∷ xs) t

  run_test-counts :
      (x : Test) (t : Tally S) {t' : Tally S}
      → run_test printf fflush realloc rt crc E D rounds junk h address x t ≡ ok t'
      → (t'.tests_run ≡ t.tests_run + 1)
        × (t'.tests_passed ≤ t.tests_passed + 1)
        × ((t'.tests_passed ≡ t.tests_passed + 1) ↔ Gives x t.world)
  unfolding run_test
  run_test-counts x t {t'} e =
      let m =
        decompressed printf fflush realloc rt crc E D rounds junk h address x.format x.bytes
          (printf (codes "%s test:    ") (string x.test_name ∷ []) t.world) in
      let (a, ran, rest) = >>=-eq-ok m _ e in
      elim (Bool-cases (a.rc == x.expected_code)) [
        | inl good ↦
            (ground arith, ground arith, (λ more. (a, ran, ground arith), λ g. ground arith))
        | inr bad ↦
            let same : t'.tests_passed ≡ t.tests_passed = ground arith in
            let not_given : Gives x t.world → t'.tests_passed ≡ t.tests_passed + 1 =
              λ (b, ran', code). absurd (ground arith) in
            (ground arith, ground arith, (λ more. absurd (omega (arith, more, same)), not_given))
      ]

  AllGive-passed :
      (x : Test) (xs : List Test) (t t1 t' : Tally S)
      → run_test printf fflush realloc rt crc E D rounds junk h address x t ≡ ok t1
      → (Gives x t.world → t1.tests_passed ≡ t.tests_passed + 1)
      → (AllGive xs t1 → t'.tests_passed ≡ t1.tests_passed + length xs)
      → AllGive (x ∷ xs) t
      → t'.tests_passed ≡ t.tests_passed + length (x ∷ xs)
  AllGive-passed x xs t t1 t' ran one more (next_gives x' xs' u t2 given ran' all) =
      let same : t2 ≡ t1 = cc in
      let counted = more (subst (λ u. AllGive xs u) same all) in
      let first = one given in omega (arith, counted, first)

  run_tests-counts :
      (xs : List Test) (t : Tally S) {t' : Tally S}
      → run_tests printf fflush realloc rt crc E D rounds junk h address xs t ≡ ok t'
      → (t'.tests_run ≡ t.tests_run + length xs)
        × (t'.tests_passed ≤ t.tests_passed + length xs)
        × ((t'.tests_passed ≡ t.tests_passed + length xs) ↔ AllGive xs t)
  unfolding run_tests
  run_tests-counts [] t e = (ground arith, ground arith, (λ same. none_left t, λ all. ground arith))
  run_tests-counts (x ∷ xs) t {t'} e =
      let (t1, ran, rest) =
        >>=-eq-ok (run_test printf fflush realloc rt crc E D rounds junk h address x t) _ e in
      let (run, most, give) = run_test-counts x t ran in
      let (run', most', give') = run_tests-counts xs t1 rest in
      let all : t'.tests_passed ≡ t.tests_passed + length (x ∷ xs) → AllGive (x ∷ xs) t = λ same.
        next_gives x xs t t1 (give.0 (omega (arith, most', most, same))) ran
          (give'.0 (omega (arith, most', most, same))) in
      (
        omega (arith, run, run'),
        omega (arith, most, most'),
        (all, AllGive-passed x xs t t1 t' ran give.1 give'.1),
      )

  -- The two round trips give ELZMA_E_OK, and each entry of the table gives its code.
  abbrev pub AllPass : S → Type 0
  AllPass s =
      (s1 : S) × (s2 : S) × (tested lzma (fflush (printf (codes "round trip lzma test:    ") [] s))
        ≡ ok (elzma_e_ok, s1))
      × (tested lzip
            (fflush (printf (codes "round trip lzip test:    ") [] (printf (codes "ok\n") [] s1)))
          ≡ ok (elzma_e_ok, s2))
      × AllGive tests
          (record { tests_passed = 2; tests_run = 2; world = printf (codes "ok\n") [] s2 })

  abbrev tallied : Tally S → S → Tally S
  tallied t s = record {
    tests_passed = t.tests_passed + 1;
    tests_run = t.tests_run + 1;
    world = printf (codes "ok\n") [] s;
  }

  round_trip-counts :
      (title complaint : Str) (format : FileFormat) (t : Tally S) {t' : Tally S}
      → round_trip printf fflush realloc rt crc E D rounds junk h address title complaint format t
        ≡ ok t'
      → (t'.tests_run ≡ t.tests_run + 1)
        × (t'.tests_passed ≤ t.tests_passed + 1)
        × (t'.tests_passed ≡ t.tests_passed + 1
            → (s : S) × (tested format (fflush (printf title [] t.world)) ≡ ok (elzma_e_ok, s))
              × (t' ≡ tallied t s))
        × ((s : S)
            → tested format (fflush (printf title [] t.world)) ≡ ok (elzma_e_ok, s)
            → t' ≡ tallied t s)
  unfolding round_trip
  round_trip-counts title complaint format t {t'} e =
      let ((rc, s), ran, rest) = >>=-eq-ok (tested format (fflush (printf title [] t.world))) _ e in
      elim (Bool-cases (elzma_e_ok == rc)) [
        | inl good ↦
            let zero_code : rc ≡ elzma_e_ok = ground arith in
            (
              ground arith,
              ground arith,
              (λ more. (s, ran ∙ ap (λ n. ok (n, s)) zero_code, ground arith)),
              λ s' ran'. ground arith,
            )
        | inr bad ↦
            let same : t'.tests_passed ≡ t.tests_passed = ground arith in
            (
              ground arith,
              ground arith,
              (λ more. absurd (omega (arith, more, same))),
              λ s' ran'. absurd (ground arith),
            )
      ]

  abbrev start : S → Tally S
  start s = record { tests_passed = 0; tests_run = 0; world = s }

  status_iff :
      (status passed run : ℕ)
      → (if passed == run then 0 else 1) ≡ status
      → (status ≡ 0) ↔ (passed ≡ run)
  status_iff status passed run e = ground arith

  passed_iff :
      (s : S) (t1 t2 t3 : Tally S)
      → round_trip printf fflush realloc rt crc E D rounds junk h address
          (codes "round trip lzma test:    ")
          (codes "fail! (%d)\n")
          lzma
          (start s)
        ≡ ok t1
      → round_trip printf fflush realloc rt crc E D rounds junk h address
          (codes "round trip lzip test:    ")
          (codes "fail (%d)!\n")
          lzip
          t1
        ≡ ok t2
      → run_tests printf fflush realloc rt crc E D rounds junk h address tests t2 ≡ ok t3
      → (t3.tests_passed ≡ t3.tests_run) ↔ AllPass s
  passed_iff s t1 t2 t3 ran1 ran2 ran3 =
      let (run1, most1, trip1, back1) =
        round_trip-counts (codes "round trip lzma test:    ") (codes "fail! (%d)\n") lzma (start s)
          ran1 in
      let (run2, most2, trip2, back2) =
        round_trip-counts (codes "round trip lzip test:    ") (codes "fail (%d)!\n") lzip t1 ran2 in
      let (run3, most3, table) = run_tests-counts tests t2 ran3 in
      let whole : t3.tests_passed ≡ t3.tests_run → AllPass s = λ all.
        let (s1, first, same1) =
          trip1 (omega (arith, all, run1, most1, run2, most2, run3, most3)) in
        let (s2, second, same2) =
          trip2 (omega (arith, all, run1, most1, run2, most2, run3, most3)) in
        let third = table.0 (omega (arith, all, run1, most1, run2, most2, run3, most3)) in
        (
          s1,
          s2,
          first,
          subst
              (λ t.
                tested lzip (fflush (printf (codes "round trip lzip test:    ") [] t.world))
                ≡ ok (elzma_e_ok, s2))
              same1 second,
          subst (λ t. AllGive tests t) (same2 ∙ ap (λ t. tallied t s2) same1) third,
        ) in
      let back : AllPass s → t3.tests_passed ≡ t3.tests_run = λ (s1, s2, first, second, all).
        let same1 = back1 s1 first in
        let same2 = back2 s2 (
          subst
            (λ t.
              tested lzip (fflush (printf (codes "round trip lzip test:    ") [] t.world))
              ≡ ok (elzma_e_ok, s2))
            (sym same1) second) in
        let all' =
          table.1 (subst (λ t. AllGive tests t) (sym (same2 ∙ ap (λ t. tallied t s2) same1)) all) in
        let one : t1.tests_passed ≡ 1 = ap (λ t. t.tests_passed) same1 in
        let two : t2.tests_passed ≡ t1.tests_passed + 1 = ap (λ t. t.tests_passed) same2 in
        omega (arith, one, two, all', run1, run2, run3) in
      (whole, back)

  -- When the test program returns, its exit status is 0 exactly when the two round trips give
  -- ELZMA_E_OK and each entry of its table gives the code that it expects.
  pub main_iff :
      (s : S) {status : ℕ} {s' : S}
      → main printf fflush realloc rt crc E D rounds junk h address s ≡ ok (status, s')
      → (status ≡ 0) ↔ AllPass s
  unfolding main
  main_iff s {status} {s'} e =
      let (t1, ran1, rest1) =
        >>=-eq-ok
          (round_trip printf fflush realloc rt crc E D rounds junk h address
            (codes "round trip lzma test:    ") (codes "fail! (%d)\n") lzma (start s))
          _ e in
      let (t2, ran2, rest2) =
        >>=-eq-ok
          (round_trip printf fflush realloc rt crc E D rounds junk h address
            (codes "round trip lzip test:    ") (codes "fail (%d)!\n") lzip t1)
          _ rest1 in
      let (t3, ran3, last) =
        >>=-eq-ok (run_tests printf fflush realloc rt crc E D rounds junk h address tests t2) _
          rest2 in
      let (all, pass) = passed_iff s t1 t2 t3 ran1 ran2 ran3 in
      let zero_status = status_iff status t3.tests_passed t3.tests_run (ground arith) in
      ((λ good. all (zero_status.0 good)), λ passing. zero_status.1 (pass passing))
