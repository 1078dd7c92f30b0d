-- ===== src/Simple/Client.antt =====
-- The callbacks of test/simple.c as a client that reads from a list, over a heap that does not run out.
use easylzma.Common.{
  ℕ, zero, suc, ◌≡◌, refl, sym, ◌∙◌, List, Option, none, some, arith, ltb, Bool-cases, inl, inr,
  length, take, drop, if◌then◌else◌, take_all, drop_all, ltb→lt,
}
use easylzma.Api.Clients.{HasInput}
use easylzma.Alloc.{Runtime, elzma_alloc, elzma_free, init_alloc_struct}
use easylzma.Alloc.Heap.{HasHeap}
use easylzma.Sdk.{Encoder, Decoder}
use easylzma.Decompress.{elzma_decompress_alloc}
use easylzma.Decompress.Complete.{HasMemory}
use easylzma.Simple.{DataStream, input_callback, output_callback}
use easylzma.Simple.Streams.{output_callback_lem}
use easylzma.Simple.Written.{LeavesBuffers}

module _ {S : Type 0} (realloc : Option ℕ → ℕ → S → ℕ × S) where
  -- A read of no bytes leaves the struct as it is.
  dropped :
      (n : ℕ) (ds : DataStream S)
      → (if ltb 0 n then record ds { in_data = drop n ds.in_data } else ds).in_data
        ≡ drop n ds.in_data
  dropped zero ds = refl
  dropped (suc n) ds = ground arith

  pub input_callback-take :
      (size : ℕ) (ds : DataStream S)
      → let r = input_callback size ds in
        (r.status ≡ 0) × (r.bytes ≡ take size ds.in_data) × (r.state.in_data ≡ drop size ds.in_data)
  unfolding input_callback
  input_callback-take size ds =
      let n = length ds.in_data in
      elim (Bool-cases (ltb n size)) [
        | inr enough ↦ (refl, rw enough refl, rw enough (dropped size ds))
        | inl short ↦
            let less = ltb→lt n size short in
            let all : take n ds.in_data ≡ take size ds.in_data =
              take_all n ds.in_data (omega arith) ∙ sym (take_all size ds.in_data (omega arith)) in
            let nothing : drop n ds.in_data ≡ drop size ds.in_data =
              drop_all n ds.in_data (omega arith) ∙ sym (drop_all size ds.in_data (omega arith)) in
            (refl, rw short all, rw short (dropped n ds ∙ nothing))
      ]

  unfoldable pub simple-HasInput : HasInput (input_callback {S = S}) (output_callback realloc)
  simple-HasInput = record {
    unread = λ ds. ds.in_data;
    reads = input_callback-take;
    writes = λ bytes ds. let (out, left, all) = output_callback_lem realloc bytes ds in (all, left);
  }

  -- The heap gives memory, and neither it nor the encoder's and the decoder's allocation touch the
  -- two buffers.
  pub record IsRoomy (rt : Runtime (DataStream S)) (E : Encoder (DataStream S))
      (D : Decoder (DataStream S)) : Type 0 where
    pub leaves : LeavesBuffers realloc rt E
    pub given :
        (size : ℕ) (ds : DataStream S) → (address : ℕ) × ((rt.malloc size ds).0 ≡ some address)
    pub prepares :
        (dec : D.DecState) (props : List ℕ) (ds : DataStream S)
        → let ds' =
            (D.allocate (elzma_decompress_alloc {S = DataStream S}).alloc_struct dec props ds).2 in
          (ds'.in_data ≡ ds.in_data) × (ds'.out_data ≡ ds.out_data)
    pub releases :
        (dec : D.DecState) (ds : DataStream S)
        → let ds' = D.free (elzma_decompress_alloc {S = DataStream S}).alloc_struct dec ds in
          (ds'.in_data ≡ ds.in_data) × (ds'.out_data ≡ ds.out_data)

  module _ (rt : Runtime (DataStream S)) (E : Encoder (DataStream S)) (D : Decoder (DataStream S))
      (roomy : IsRoomy rt E D) where
    pub simple-HasHeap :
        HasHeap rt (init_alloc_struct {S = DataStream S} none 0 none 0) simple-HasInput.unread
    unfolding simple-HasInput elzma_alloc elzma_free init_alloc_struct
    simple-HasHeap = record {
      alloc = λ size ds.
          let (address, got) = roomy.given size ds in
          (address, got, (roomy.leaves.malloc size ds).0);
      free = λ address ds. (roomy.leaves.free address ds).0;
    }

    pub simple-HasMemory : HasMemory rt D elzma_decompress_alloc simple-HasInput.unread
    unfolding elzma_decompress_alloc simple-HasInput
    simple-HasMemory = record {
      heap = simple-HasHeap;
      allocate = λ props ds. (roomy.prepares (D.init D.blank) props ds).0;
    }
