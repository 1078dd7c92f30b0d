-- ===== src/Api/Clients.antt =====
-- The read and write callbacks of src/easylzma/common.h, when the client reads from a list of bytes.
use easylzma.Common.{ℕ, ◌≡◌, List, length, take, drop}
use easylzma.Api.{ReadCallback, WriteCallback}

-- A client whose input is a list of bytes: a read gives the next bytes, as many as there are, and a
-- write takes all bytes.
pub record HasInput {S : Type 0} (input_stream : ReadCallback S) (output_stream : WriteCallback S)
    : Type 0 where
  pub unread : S → List ℕ
  pub reads :
      (size : ℕ) (s : S)
      → let r = input_stream size s in
        (r.status ≡ 0) × (r.bytes ≡ take size (unread s)) × (unread r.state ≡ drop size (unread s))
  pub writes :
      (bytes : List ℕ) (s : S)
      → ((output_stream bytes s).0 ≡ length bytes) × (unread (output_stream bytes s).1 ≡ unread s)
