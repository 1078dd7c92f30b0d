-- ===== src/Decompress/LaidOut.antt =====
-- Where the buffers of src/decompress.c fall on an input that holds a coded body.
use mathlib.Core.List.{append-nil, append_assoc}
use easylzma.Common.{
  ℕ, ◌+◌, ◌%◌, ◌≤◌, ◌<◌, ◌≡◌, sym, ap, ◌∙◌, subst, inl, inr, List, ◌++◌, arith, length, take, drop,
  length-append, length-drop, empty, take_all, ltb, ltb→lt, Bool-cases,
}
use easylzma.Common.Strings.{take-append}
use easylzma.Decompress.{elzma_decompress_input_bufsize}

-- Behind the body, `tail` is read in one buffer together with the end of the body, and `beyond` is
-- not: that buffer is full.
pub record IsLaidOut (body tail beyond : List ℕ) : Type 0 where
  pub ends_inside :
      0 < length tail
      → (0 < length body % elzma_decompress_input_bufsize)
        × (length body % elzma_decompress_input_bufsize + length tail
            ≤ elzma_decompress_input_bufsize)
  pub fills :
      0 < length beyond
      → (0 < length tail) × ((length body + length tail) % elzma_decompress_input_bufsize ≡ 0)

pub last_fits :
    (body tail beyond : List ℕ)
    → length body ≤ elzma_decompress_input_bufsize
    → IsLaidOut body tail beyond
    → length (body ++ tail) ≤ elzma_decompress_input_bufsize
last_fits body tail beyond short laid = elim (Bool-cases (ltb 0 (length tail))) [
  | inr none_there ↦ ground (arith, length-append body tail)
  | inl some_there ↦
      let (low, high) = laid.ends_inside (ltb→lt 0 (length tail) some_there) in
      omega (arith, length-append body tail)
]

-- The read that gives the end of the body.
pub last_read :
    (body tail beyond : List ℕ)
    → 0 < length body
    → length body ≤ elzma_decompress_input_bufsize
    → IsLaidOut body tail beyond
    → take elzma_decompress_input_bufsize (body ++ (tail ++ beyond)) ≡ body ++ tail
last_read body tail beyond some_body short laid =
    let b : ℕ = elzma_decompress_input_bufsize in
    let fits = last_fits body tail beyond short laid in
    let joined = append_assoc body tail beyond in
    let size = length-append body tail in
    elim (Bool-cases (ltb 0 (length beyond))) [
      | inr none_there ↦
          let nothing = empty beyond (ground arith) in
          rw (nothing, append-nil) (take_all b (body ++ tail) fits)
      | inl some_there ↦
          let (some_tail, full) = laid.fills (ltb→lt 0 (length beyond) some_there) in
          let exact : length (body ++ tail) ≡ b = omega arith in
          ap (take b) (sym joined)
          ∙ subst (λ n. take n ((body ++ tail) ++ beyond) ≡ body ++ tail) exact
              (take-append (body ++ tail) beyond)
    ]

pub IsLaidOut-drop :
    (body tail beyond : List ℕ)
    → elzma_decompress_input_bufsize < length body
    → IsLaidOut body tail beyond
    → IsLaidOut (drop elzma_decompress_input_bufsize body) tail beyond
IsLaidOut-drop body tail beyond long laid =
    let left_over = length-drop elzma_decompress_input_bufsize body in
    record {
      ends_inside =
          λ some_there. let (low, high) = laid.ends_inside some_there in (omega arith, omega arith);
      fills =
          λ some_there. let (some_tail, full) = laid.fills some_there in (some_tail, omega arith);
    }
