-- ===== src/Dynstring/Heap.antt =====
-- A concrete allocator for the tests of the buffers that grow.
use kindle_myts.Base.{
  ℕ, ◌-◌, ◌<◌, ◌≡◌, sym, ap, ◌∙◌, arith, true, List, ◌++◌, some, length, get_elem?, get_elem?-take,
  get_elem?-append, take, replicate, length-replicate, length-append, length-take,
}
use kindle_myts.Dynstring.{Allocator}
use kindle_myts.Dynstring.Grow.{IsAllocator}

-- every request is granted, and new bytes are 7
abbrev pub heap : Allocator
heap = record {
  calloc = λ n. true;
  realloc = λ xs n. some (take n xs ++ replicate (n - length xs) 7);
}

heap_size : (xs : List ℕ) (n : ℕ) → length (take n xs ++ replicate (n - length xs) 7) ≡ n
heap_size xs n = omega (
  arith,
  length-append (take n xs) (replicate (n - length xs) 7),
  length-take n xs,
  length-replicate {A = ℕ} (n - length xs) 7,
)

heap_keeps :
    (xs : List ℕ) (n i : ℕ)
    → i < length xs
    → i < n
    → get_elem? (take n xs ++ replicate (n - length xs) 7) i ≡ get_elem? xs i
heap_keeps xs n i h k = ground (
  arith,
  get_elem?-append (take n xs) (replicate (n - length xs) 7) i,
  length-take n xs,
  get_elem?-take n xs i,
)

pub heap-IsAllocator : IsAllocator heap
heap-IsAllocator = record {
  resized = λ xs ys n e.
      let i : take n xs ++ replicate (n - length xs) 7 ≡ ys = cc in
      ap length (sym i) ∙ heap_size xs n;
  kept = λ xs ys n i e h k.
      let j : take n xs ++ replicate (n - length xs) 7 ≡ ys = cc in
      ap (λ l. get_elem? l i) (sym j) ∙ heap_keeps xs n i h k;
}
