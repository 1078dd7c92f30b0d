-- ===== src/Tests/Toys.antt =====
-- A client, a checksum, an encoder and a decoder for runs on concrete data.
use easylzma.Common.{
  ℕ, zero, suc, ◌+◌, ◌%◌, ◌^◌, ◌≡◌, refl, List, [], ◌∷◌, ◌++◌, take, some, length,
}
use easylzma.Api.{ReadCallback, WriteCallback}
use easylzma.Alloc.{Runtime}
use easylzma.Sdk

-- The state outside: the pieces in which the input arrives. A piece that is longer than the buffer
-- is cut.
abbrev pub Input : Type 0
Input = List (List ℕ)

abbrev pub reader : ReadCallback Input
reader size [] = record { status = 0; bytes = []; state = [] }
reader size (piece ∷ pieces) = record { status = 0; bytes = take size piece; state = pieces }

abbrev pub writer : WriteCallback Input
writer bytes s = (length bytes, s)

abbrev pub runtime : Runtime Input
runtime = record { malloc = λ size s. (some 4096, s); free = λ address s. s }

-- The sum of the bytes.
abbrev pub sum_from : ℕ → List ℕ → ℕ
sum_from c [] = c
sum_from c (x ∷ xs) = sum_from ((c + x) % 2 ^ 32) xs

abbrev pub crc : Sdk.Crc
crc = record { update = sum_from }

sum_from-append : (c : ℕ) (xs ys : List ℕ) → sum_from (sum_from c xs) ys ≡ sum_from c (xs ++ ys)
sum_from-append c [] ys = refl
sum_from-append c (x ∷ xs) ys = sum_from-append ((c + x) % 2 ^ 32) xs ys

pub crc-IsRunningCrc : Sdk.IsRunningCrc crc
crc-IsRunningCrc = record { update-nil = λ c. refl; update-append = sum_from-append }

-- Bytes stand for themselves up to a zero, which is the end mark.
abbrev pub decode : List ℕ → Sdk.Decoded (Unit {0})
decode [] = record {
  status = 0;
  output = [];
  consumed = 0;
  stat = Sdk.LzmaStatus.needs_more_input;
  dec = tt;
}
decode (zero ∷ src) = record {
  status = 0;
  output = [];
  consumed = 1;
  stat = Sdk.LzmaStatus.finished_with_mark;
  dec = tt;
}
decode (suc b ∷ src) =
    let r = decode src in record r { output = suc b ∷ r.output; consumed = suc r.consumed }

abbrev pub decoder : Sdk.Decoder Input
decoder = record {
  DecState = Unit;
  blank = tt;
  init = λ d. d;
  allocate = λ alloc d props s. (0, d, s);
  decode_to_buf = λ d cap src. decode src;
  free = λ alloc d s. s;
}

-- Reads once, and writes what it read with an end mark.
abbrev pub encoder : Sdk.Encoder Input
encoder = record {
  Enc = Unit;
  create = λ alloc s. (some tt, s);
  set_props = λ enc props. (0, enc);
  encode = λ enc.
      Sdk.Script.read 100
        (λ rv bytes. Sdk.Script.write (bytes ++ (0 ∷ [])) (λ wt. Sdk.Script.finish 0));
  destroy = λ alloc enc s. s;
}
