-- ===== src/Sdk.antt =====
-- What the library calls of the LZMA SDK (src/pavlov/), as interfaces: the SDK is another project's
-- code, so its functions are parameters here, and what the theorems rely on are named laws.
pub mod Coding
use easylzma.Common.{ℕ, ◌+◌, ◌≤◌, ◌<◌, ◌≡◌, ◌≢◌, List, [], ◌++◌, Option, length, drop}
use easylzma.Alloc.{AllocStruct}

-- `SZ_OK`; any other result is an error.
abbrev pub sz_ok : ℕ
sz_ok = 0

-- `CRC_INIT_VAL`
abbrev pub crc_init_val : ℕ
crc_init_val = 0xFFFFFFFF

-- pavlov/7zCrc.h, after `CrcGenerateTable`.
pub record Crc : Type 0 where
  pub update : ℕ → List ℕ → ℕ

-- The checksum of a text in pieces is that of the whole text.
pub record IsRunningCrc (crc : Crc) : Type 0 where
  pub update-nil : (c : ℕ) → crc.update c [] ≡ c
  pub update-append :
      (c : ℕ) (xs ys : List ℕ) → crc.update (crc.update c xs) ys ≡ crc.update c (xs ++ ys)

-- ELzmaStatus
pub data LzmaStatus : Type 0 where
  not_specified finished_with_mark not_finished needs_more_input : LzmaStatus
  maybe_finished_without_mark : LzmaStatus

-- What `LzmaDec_DecodeToBuf` leaves: its result, the bytes in the output buffer (`*destLen` is their
-- number), how many bytes of input it took (`*srcLen`), and the status.
pub record Decoded (DecState : Type 0) : Type 0 where
  pub status : ℕ
  pub output : List ℕ
  pub consumed : ℕ
  pub stat : LzmaStatus
  pub dec : DecState

-- pavlov/LzmaDec.h over a decoder state; `blank` is the state of all zero bytes.
pub record Decoder (S : Type 0) : Type 1 where
  pub DecState : Type 0
  pub blank : DecState
  pub init : DecState → DecState
  pub allocate : AllocStruct S → DecState → List ℕ → S → ℕ × DecState × S
  pub decode_to_buf : DecState → ℕ → List ℕ → Decoded DecState
  pub free : AllocStruct S → DecState → S → S

-- The decoder takes no more input than it is given.
abbrev pub StaysInInput : {S : Type 0} → Decoder S → Type 0
StaysInInput D =
    (dec : D.DecState) (cap : ℕ) (src : List ℕ)
    → (D.decode_to_buf dec cap src).consumed ≤ length src

-- How the decoder gets ahead with LZMA_FINISH_ANY. `pending` is a bound on the bytes that it still
-- produces from an input; a call that succeeds lowers it by what it puts out, and leaves input over
-- without an end mark only when it has filled the output.
pub record Advances {S : Type 0} (D : Decoder S) : Type 0 where
  pub pending : D.DecState → List ℕ → ℕ
  pub drains :
      (dec : D.DecState) (cap : ℕ) (src : List ℕ)
      → let r = D.decode_to_buf dec cap src in
        r.status ≡ 0 → pending r.dec (drop r.consumed src) + length r.output ≤ pending dec src
  pub fills :
      (dec : D.DecState) (cap : ℕ) (src : List ℕ)
      → let r = D.decode_to_buf dec cap src in
        r.status ≡ 0 → r.stat ≢ finished_with_mark → r.consumed < length src → length r.output ≡ cap

-- CLzmaEncProps
pub record EncProps : Type 0 where
  pub level : ℕ
  pub dict_size : ℕ
  pub lc : ℕ
  pub lp : ℕ
  pub pb : ℕ
  pub algo : ℕ
  pub fb : ℕ
  pub bt_mode : ℕ
  pub num_hash_bytes : ℕ
  pub mc : ℕ
  pub write_end_mark : ℕ
  pub num_threads : ℕ

-- What an encoder does to its surroundings while it runs: it reads at most so many bytes, writes
-- bytes, reports progress, allocates and frees, and goes on by what each call returns, until it ends
-- with a result.
pub data Script : Type 0 where
  read : ℕ → (ℕ → List ℕ → Script) → Script
  write : List ℕ → (ℕ → Script) → Script
  progress : ℕ → ℕ → (ℕ → Script) → Script
  allocate : ℕ → (Option ℕ → Script) → Script
  release : Option ℕ → Script → Script
  finish : ℕ → Script

-- pavlov/LzmaEnc.h over an encoder state.
pub record Encoder (S : Type 0) : Type 1 where
  pub Enc : Type 0
  pub create : AllocStruct S → S → Option Enc × S
  pub set_props : Enc → EncProps → ℕ × Enc
  pub encode : Enc → Script
  pub destroy : AllocStruct S → Enc → S → S
