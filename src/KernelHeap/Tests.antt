-- ===== src/KernelHeap/Tests.antt =====
-- A heap of one chunk and an empty one, and instances of the theorems on `k_malloc`.
use thor_os.Prelude.{
  ℕ, suc, ◌≤◌, ◌≡◌, refl, arith, true, false, Option, some, [], ◌∷◌, ◌==◌, if◌then◌else◌,
}
use thor_os.KernelHeap.{
  Chunk, Heap, rounded, aligned, blocks_for, k_malloc, left_block, right_block,
}
use thor_os.KernelHeap.Links.{IsRing}
use thor_os.KernelHeap.FirstFit.{Taken}
use thor_os.KernelHeap.Blocks.{k_malloc-Taken}
use thor_os.KernelHeap.Expand.{expanded, k_malloc-expanded}

abbrev unused_chunk : Chunk
unused_chunk = record { size = 0; next = 0; prev = 0; is_free = false; left = false; right = false }

-- The head at address 1024, linked to chunk `a`, and a chunk of four blocks at 4096.
abbrev heap_to : ℕ → Heap
heap_to a = record {
  malloc_head = 1024;
  chunks = λ x.
      if x == 1024
      then record unused_chunk { next = a; prev = a }
      else if x == 4096
      then record unused_chunk { size = 16344; next = 1024; prev = 1024; is_free = true }
      else unused_chunk;
  footers = λ x. if x == 20472 then 16344 else 0;
  used_memory = 0;
  allocations = 0;
  allocated_memory = 16384;
}

one_chunk-IsRing : IsRing (heap_to 4096) (4096 ∷ [])
one_chunk-IsRing = record {
  links = (refl, refl, (refl, refl));
  distinct = (tt, tt);
  apart = (omega arith, tt);
  marked = (refl, tt);
}

empty-IsRing : IsRing (heap_to 1024) []
empty-IsRing = record { links = (refl, refl); distinct = tt; apart = tt; marked = tt }

-- A block at address 8192, once.
abbrev one_block : ℕ → ℕ → Option (ℕ × ℕ)
one_block m blocks = some (8192, suc m)

rounded_100 : (rounded 100 ≡ 104) × (rounded 1 ≡ 24)
unfolding rounded aligned
rounded_100 = (refl, refl)

k_malloc-Taken_example :
    (s : Heap) × (k_malloc one_block 1 0 (heap_to 4096) 100 ≡ some (4128, 0, s))
    × Taken (heap_to 4096) 4096 (rounded 100) [] [] s
    × (100 ≤ rounded 100)
unfolding rounded aligned
k_malloc-Taken_example =
    k_malloc-Taken one_block 0 (heap_to 4096) 1 100 4096 [] [] one_chunk-IsRing (omega arith) tt
      (omega arith) (omega arith) (omega arith) (omega arith) (omega arith, tt)

k_malloc-expanded_example :
    let grown =
      expanded [] empty-IsRing 8192 (blocks_for (rounded 100)) (omega arith) tt (omega arith) in
    (s : Heap) × (k_malloc one_block 2 0 (heap_to 1024) 100 ≡ some (8224, 1, s))
    × Taken grown 8192 (rounded 100) [] [] s
    × (100 ≤ rounded 100)
unfolding rounded aligned
k_malloc-expanded_example =
    k_malloc-expanded one_block 0 1 (heap_to 1024) 0 100 8192 [] empty-IsRing (omega arith) tt
      (omega arith) (omega arith) tt refl (omega arith) (omega arith) (omega arith, tt)

-- The chunks 4096, 4240 and 4384 side by side; the second one is in use.
abbrev three_chunks : Heap
three_chunks = record (heap_to 4096) {
  chunks = λ x.
      if x == 1024
      then record unused_chunk { next = 4096; prev = 4384 }
      else if x == 4096
      then record {
        size = 104;
        next = 4384;
        prev = 1024;
        is_free = true;
        left = false;
        right = true;
      }
      else if x == 4240
      then record unused_chunk { size = 104; left = true; right = true }
      else if x == 4384
      then record {
        size = 200;
        next = 1024;
        prev = 4096;
        is_free = true;
        left = true;
        right = false;
      }
      else unused_chunk;
  footers = λ x. if x == 4232 then 104 else 0;
}

around : (left_block three_chunks 4240 ≡ 4096) × (right_block three_chunks 4240 ≡ 4384)
unfolding left_block right_block
around = (refl, refl)
