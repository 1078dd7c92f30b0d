-- ===== src/Alloc/Contexts.antt =====
-- Which context the client's functions are given.
use easylzma.Common.{ℕ, ◌≡◌, refl, Option, none, some}
use easylzma.Api.{MallocCallback, FreeCallback}
use easylzma.Alloc.{Runtime, elzma_free, init_alloc_struct}

-- What freeing does never depends on the context that the client registered for its free function.
pub elzma_free-init_alloc_struct :
    {S : Type 0} (rt : Runtime S) (malloc : Option (MallocCallback S)) (malloc_context : ℕ)
    (free : Option (FreeCallback S)) (free_context free_context' : ℕ) (address : Option ℕ) (s : S)
    → elzma_free rt (init_alloc_struct malloc malloc_context free free_context) address s
      ≡ elzma_free rt (init_alloc_struct malloc malloc_context free free_context') address s
unfolding elzma_free init_alloc_struct
elzma_free-init_alloc_struct rt malloc malloc_context none fc fc' address s = refl
elzma_free-init_alloc_struct rt malloc malloc_context (some free) fc fc' address s = refl
