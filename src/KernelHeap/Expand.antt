-- ===== src/KernelHeap/Expand.antt =====
-- kernel/src/kalloc.cpp: `k_malloc` when no chunk is large enough.
use thor_os.Prelude.{
  ℕ, zero, suc, ◌+◌, ◌*◌, ◌/◌, ◌%◌, ◌^◌, ◌≤◌, ◌<◌, ◌≡◌, ◌≢◌, refl, sym, ap, ◌∙◌, arith, true, false,
  Option, some, List, [], ◌∷◌, length, ltb, leb, ◌==◌, ◌>>=◌, elim-if,
}
use thor_os.Buddy.{add64, sub64, mul64}
use thor_os.KernelHeap.{
  Heap, rounded, aligned, blocks_for, sized, set_sizes, set_neighbours, insert_after, place_block,
  expand_heap, init, init_head, find_chunk, k_malloc,
}
use thor_os.KernelHeap.Lists.{All, NotIn}
use thor_os.KernelHeap.Ring.{Linked}
use thor_os.KernelHeap.Links.{IsRing, IsRing-same, insert_head-IsRing, inserted-size}
use thor_os.KernelHeap.FirstFit.{Taken, aligned-mod, take_chunk-Taken}
use thor_os.KernelHeap.Blocks.{rounded-bounds, counted, counted-Taken, find_chunk-take_chunk}

-- The blocks that are asked for have room for the request, and no sum wraps.
blocks_for-bounds :
    (bytes : ℕ)
    → 0 < bytes
    → bytes < 2 ^ 60
    → (bytes + 40 ≤ blocks_for bytes * 4096)
      × (blocks_for bytes ≤ bytes + 4)
      × (4 ≤ blocks_for bytes)
unfolding blocks_for
blocks_for-bounds bytes pos small =
    let t : (bytes == 0) ≡ false = ground arith in
    rw t (
      elim-if (λ (n : ℕ). (bytes + 40 ≤ n * 4096) × (n ≤ bytes + 4) × (4 ≤ n))
        (ltb 4 (add64 (add64 bytes 40 / 4096) 1)) (λ e. (omega arith, omega arith, ground arith))
        (λ e. (room e, omega arith, omega arith)))
  where
    room : ltb 4 (add64 (add64 bytes 40 / 4096) 1) ≡ false → bytes + 40 ≤ 4 * 4096
    room e = let few : add64 (add64 bytes 40 / 4096) 1 ≤ 4 = ground arith in omega (arith, few)

module _ {h : Heap} (l : List ℕ) (r : IsRing h l) (block blocks : ℕ) (fresh : h.malloc_head ≢ block)
    (unused : NotIn block l) (at16 : block % 16 ≡ 0) where
  abbrev size : ℕ
  size = sub64 (mul64 blocks 4096) 40

  abbrev prepared : Heap
  prepared = set_neighbours (sized h block size) block false false

  abbrev pub placed : Heap
  placed = insert_after prepared h.malloc_head block

  place_block-placed : place_block h h.malloc_head block blocks ≡ some placed
  unfolding place_block set_sizes
  place_block-placed = let t : aligned block ≡ true = aligned-mod block ∙ ground arith in rw t refl

  prepared-IsRing : IsRing prepared l
  unfolding set_neighbours
  prepared-IsRing = IsRing-same r refl (λ a. ground arith) (λ a. ground arith) (λ a. ground arith)

  placed-IsRing : IsRing placed (block ∷ l)
  unfolding set_neighbours
  placed-IsRing = insert_head-IsRing block l prepared-IsRing fresh unused

  placed-size : (placed.chunks block).size ≡ size
  unfolding insert_after set_neighbours
  placed-size = inserted-size prepared.chunks h.malloc_head block block ∙ ground arith

  -- With the count of the memory of the heap.
  abbrev pub expanded : Heap
  expanded = record placed { allocated_memory = add64 placed.allocated_memory (mul64 blocks 4096) }

  expanded-IsRing : IsRing expanded (block ∷ l)
  expanded-IsRing = IsRing-same placed-IsRing refl (λ a. refl) (λ a. refl) (λ a. refl)

  same_head : expanded.malloc_head ≡ h.malloc_head
  unfolding set_neighbours insert_after
  same_head = refl

module _ {M : Type 0} (new_block : M → ℕ → Option (ℕ × M)) (before : M) (h : Heap) (bytes : ℕ) where
  -- The walk over a list whose chunks are all too small ends at the head.
  find_chunk_end :
      (rounds k x : ℕ) (l : List ℕ)
      → Linked h.chunks x l h.malloc_head
      → NotIn h.malloc_head l
      → All (λ a. (h.chunks a).size < bytes) l
      → rounds ≡ length l + k
      → find_chunk new_block rounds before h (h.chunks x).next bytes
        ≡ find_chunk new_block k before h h.malloc_head bytes
  unfolding find_chunk
  find_chunk_end rounds k x [] links apart small e =
      ap (λ (z : ℕ). find_chunk new_block rounds before h z bytes) links.0
      ∙ ap (λ (n : ℕ). find_chunk new_block n before h h.malloc_head bytes) (omega arith)
  find_chunk_end zero k x (a ∷ l) links apart small e = absurd (omega arith)
  find_chunk_end (suc rounds) k x (a ∷ l) links apart small e =
      let t : (a == h.malloc_head) ≡ false = ground (arith, apart.0) in
      let t' : leb bytes (h.chunks a).size ≡ false = ground (arith, small.0) in
      ap (λ (z : ℕ). find_chunk new_block (suc rounds) before h z bytes) links.0
      ∙ rw (t, t', find_chunk) (find_chunk_end rounds k a l links.2 apart.1 small.1 (omega arith))

module _ {M : Type 0} (new_block : M → ℕ → Option (ℕ × M)) (before after : M) (h : Heap)
    (bytes block : ℕ) (l : List ℕ) (r : IsRing h l) (fresh : h.malloc_head ≢ block)
    (unused : NotIn block l) (at16 : block % 16 ≡ 0)
    (got : new_block before (blocks_for bytes) ≡ some (block, after)) (pos : 0 < block) where
  expand_heap-expanded :
      expand_heap new_block before h h.malloc_head bytes
      ≡ some (after, expanded l r block (blocks_for bytes) fresh unused at16)
  unfolding expand_heap
  expand_heap-expanded =
      let t : (block == 0) ≡ false = ground arith in
      rw (got, t, place_block-placed l r block (blocks_for bytes) fresh unused at16) refl

  -- At the head the heap grows, and the walk goes on with the new chunk.
  find_chunk-expanded :
      (k : ℕ)
      → let grown = expanded l r block (blocks_for bytes) fresh unused at16 in
        find_chunk new_block (suc k) before h h.malloc_head bytes
        ≡ find_chunk new_block k after grown (grown.chunks grown.malloc_head).next bytes
  unfolding find_chunk
  find_chunk-expanded k =
      let grown : Heap = expanded l r block (blocks_for bytes) fresh unused at16 in
      let t : (h.malloc_head == h.malloc_head) ≡ true = ground arith in
      rw (t, find_chunk)
        (ap
            (λ (o : Option (M × Heap)). do
              q ← o
              find_chunk new_block k q.0 q.1 (q.1.chunks h.malloc_head).next bytes)
            expand_heap-expanded
          ∙ ap (λ (x : ℕ). find_chunk new_block k after grown (grown.chunks x).next bytes)
              (sym (same_head l r block (blocks_for bytes) fresh unused at16)))

-- When all chunks of the free list are too small for the rounded request, `k_malloc` asks for
-- blocks; if it gets some at an aligned address that is new to the list, it returns the memory of
-- the chunk that they become, and leaves what is left of it at the front of the free list. It looks
-- at each chunk, at the head and at the new chunk; so many rounds are enough. The request must be
-- below 2 ^ 40, and the place where the new chunk would be split neither the head nor a chunk of
-- the list.
pub k_malloc-expanded :
    {M : Type 0} (new_block : M → ℕ → Option (ℕ × M)) (before after : M) (h : Heap)
    (k bytes block : ℕ) (l : List ℕ) (r : IsRing h l) (fresh : h.malloc_head ≢ block)
    (unused : NotIn block l) (at16 : block % 16 ≡ 0)
    → bytes < 2 ^ 40
    → All (λ a. (h.chunks a).size < rounded bytes) l
    → new_block before (blocks_for (rounded bytes)) ≡ some (block, after)
    → 0 < block
    → h.malloc_head ≢ block + rounded bytes + 40
    → NotIn (block + rounded bytes + 40) (block ∷ l)
    → let grown = expanded l r block (blocks_for (rounded bytes)) fresh unused at16 in
      (s : Heap) × (k_malloc new_block (length l + suc (suc k)) before h bytes
        ≡ some (block + 32, after, s))
      × Taken grown block (rounded bytes) [] l s
      × (bytes ≤ rounded bytes)
unfolding k_malloc
k_malloc-expanded new_block before after h k bytes block l r fresh unused at16 small few got pos new
      new_unused =
    let b : ℕ = rounded bytes in
    let blocks : ℕ = blocks_for b in
    let grown : Heap = expanded l r block blocks fresh unused at16 in
    let bounds = rounded-bounds bytes (omega arith) in
    let wide = blocks_for-bounds b (omega (arith, bounds.1)) (omega (arith, bounds.2)) in
    let size : b ≤ (grown.chunks block).size =
      omega
        (arith, placed-size l r block blocks fresh unused at16, wide.0, wide.1, wide.2, bounds.2) in
    let ring : IsRing grown (block ∷ l) = expanded-IsRing l r block blocks fresh unused at16 in
    let t =
      take_chunk-Taken {h = grown} block b [] l ring size at16 bounds.3
        (rw (same_head l r block blocks fresh unused at16) new) new_unused in
    let found =
      find_chunk-take_chunk new_block after grown (suc k) grown.malloc_head [] block l b ring.links
        ring.apart tt size (omega arith) in
    let walk =
      find_chunk_end new_block before h b (length l + suc (suc k)) (suc (suc k)) h.malloc_head l
        r.links r.apart few refl in
    let grow =
      find_chunk-expanded new_block before after h b block l r fresh unused at16 got pos (suc k) in
    let all : find_chunk new_block (length l + suc (suc k)) before h (h.chunks h.malloc_head).next b
        ≡ some (block, after, t.0) =
      walk ∙ grow ∙ found ∙ ap (λ (o : Option Heap). do s ← o; some (block, after, s)) t.1 in
    (
      counted new_block after grown t.0 block,
      rw all refl,
      counted-Taken new_block after grown block b [] l t.2,
      bounds.0,
    )

-- The list of the head alone.
init_head-IsRing : (h : Heap) → IsRing (init_head h) []
unfolding init_head
init_head-IsRing h = record {
  links = (ground arith, ground arith);
  distinct = tt;
  apart = tt;
  marked = tt;
}

-- After `init` the free list is the chunk of the first four blocks.
pub init-IsRing :
    {M : Type 0} (new_block : M → ℕ → Option (ℕ × M)) (before after : M) (h : Heap) (block : ℕ)
    → h.malloc_head ≢ block
    → block % 16 ≡ 0
    → new_block before 4 ≡ some (block, after)
    → 0 < block
    → (s : Heap) × (init new_block before h ≡ some (after, s))
      × IsRing s (block ∷ [])
      × ((s.chunks block).size ≡ 16344)
unfolding init init_head blocks_for
init-IsRing new_block before after h block fresh at16 got pos =
    let g : Heap =
      init_head (record h { used_memory = 0; allocations = 0; allocated_memory = 0 }) in
    let r : IsRing g [] =
      init_head-IsRing (record h { used_memory = 0; allocations = 0; allocated_memory = 0 }) in
    (
      expanded [] r block 4 fresh tt at16,
      expand_heap-expanded new_block before after g 0 block [] r fresh tt at16 got pos,
      expanded-IsRing [] r block 4 fresh tt at16,
      placed-size [] r block 4 fresh tt at16,
    )
