-- ===== src/Alloc/Heap.antt =====
-- A heap that src/common_internal.c gets its memory from, and that does not run out.
use easylzma.Common.{ℕ, ◌≡◌, Option, some}
use easylzma.Alloc.{Runtime, AllocStruct, elzma_alloc, elzma_free}

-- Memory is there, and managing it does not touch what `view` looks at.
pub record HasHeap {S A : Type 0} (rt : Runtime S) (alloc_struct : AllocStruct S) (view : S → A)
    : Type 0 where
  pub alloc :
      (size : ℕ) (s : S)
      → let a = elzma_alloc rt alloc_struct size s in
        (address : ℕ) × (a.0 ≡ some address) × (view a.1 ≡ view s)
  pub free : (address : Option ℕ) (s : S) → view (elzma_free rt alloc_struct address s) ≡ view s
