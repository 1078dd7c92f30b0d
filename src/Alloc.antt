-- ===== src/Alloc.antt =====
-- src/common_internal.c: allocation through the client's functions, or through the C runtime's.
pub mod Contexts
pub mod Heap
use easylzma.Common.{ℕ, ◌%◌, ◌^◌, Option, none, some}
use easylzma.Api.{MallocCallback, FreeCallback}

-- `malloc` and `free` of the C runtime.
pub record Runtime (S : Type 0) : Type 0 where
  pub malloc : ℕ → S → Option ℕ × S
  pub free : Option ℕ → S → S

-- struct elzma_alloc_struct, but for its first two fields: they always hold `elzma_alloc` and
-- `elzma_free`. A null function pointer is `none`, and a context is the number of its address.
pub record AllocStruct (S : Type 0) : Type 0 where
  pub client_malloc_func : Option (MallocCallback S)
  pub client_malloc_context : ℕ
  pub client_free_func : Option (FreeCallback S)
  pub client_free_context : ℕ

module _ {S : Type 0} where
  -- The client's function takes an unsigned int, so the size wraps there.
  unfoldable pub elzma_alloc : Runtime S → AllocStruct S → ℕ → S → Option ℕ × S
  elzma_alloc rt alloc size s = elim alloc.client_malloc_func [
    | some malloc ↦ malloc alloc.client_malloc_context (size % 2 ^ 32) s
    | none ↦ rt.malloc size s
  ]

  unfoldable pub elzma_free : Runtime S → AllocStruct S → Option ℕ → S → S
  elzma_free rt alloc address s = elim alloc.client_free_func [
    | some free ↦ free alloc.client_malloc_context address s
    | none ↦ rt.free address s
  ]

  unfoldable pub init_alloc_struct :
      Option (MallocCallback S) → ℕ → Option (FreeCallback S) → ℕ → AllocStruct S
  init_alloc_struct malloc_func malloc_context free_func free_context = record {
    client_malloc_func = malloc_func;
    client_malloc_context = malloc_context;
    client_free_func = free_func;
    client_free_context = free_context;
  }
