-- ===== src/KernelHeap.antt =====
-- kernel/src/kalloc.cpp: the heap of the kernel. A chunk is its address; `chunks` gives the header at
-- an address and `footers` the footer at an address. The blocks come from a function that the client
-- gives, which answers 0 when there is none. Sums of addresses and sizes within a chunk do not wrap. A failed assertion is `none`; `check_node` and the
-- traces only log.
pub mod Lists
pub mod Ring
pub mod Links
pub mod FirstFit
pub mod Blocks
pub mod Expand
pub mod Coalesce
pub mod Free
mod Tests
use thor_os.Prelude.{
  ℕ, zero, suc, ◌+◌, ◌-◌, ◌*◌, ◌/◌, ◌%◌, ◌^◌, Bool, true, false, not, ◌&&◌, Option, none, some, ltb,
  leb, ◌==◌, if◌then◌else◌, bit_and, ◌>>=◌,
}
use thor_os.Buddy.{add64, sub64, mul64}
use thor_os.Paging
use thor_os.VirtualAllocator
use thor_os.PhysicalAllocator
use thor_os.PhysicalAllocator.{Machine}

abbrev pub alignment : ℕ
alignment = 16

abbrev pub header_size : ℕ
header_size = 32

abbrev pub footer_size : ℕ
footer_size = 8

abbrev pub meta_size : ℕ
meta_size = header_size + footer_size

abbrev pub block_size : ℕ
block_size = 4096

abbrev pub min_blocks : ℕ
min_blocks = 4

abbrev pub min_split : ℕ
min_split = 2 * alignment - footer_size

pub aligned : ℕ → Bool
aligned value = bit_and value (alignment - 1) == 0

pub record Chunk : Type 0 where
  pub size : ℕ
  pub next : ℕ
  pub prev : ℕ
  pub is_free : Bool
  pub left : Bool
  pub right : Bool

pub record Heap : Type 0 where
  pub malloc_head : ℕ
  pub chunks : ℕ → Chunk
  pub footers : ℕ → ℕ
  pub used_memory : ℕ
  pub allocations : ℕ
  pub allocated_memory : ℕ

abbrev pub with_chunk : (ℕ → Chunk) → ℕ → Chunk → ℕ → Chunk
with_chunk f a c = λ x. if x == a then c else f x

abbrev pub set_next : (ℕ → Chunk) → ℕ → ℕ → ℕ → Chunk
set_next f a v = with_chunk f a (record (f a) { next = v })

abbrev pub set_prev : (ℕ → Chunk) → ℕ → ℕ → ℕ → Chunk
set_prev f a v = with_chunk f a (record (f a) { prev = v })

abbrev pub set_is_free : (ℕ → Chunk) → ℕ → Bool → ℕ → Chunk
set_is_free f a v = with_chunk f a (record (f a) { is_free = v })

-- The stores of `insert_after` and `remove`, in their order.
pub inserted : (ℕ → Chunk) → ℕ → ℕ → ℕ → Chunk
inserted f current new_block =
    let f1 = set_next f new_block (f current).next in
    let f2 = set_prev f1 new_block current in
    let f3 = set_prev f2 (f2 current).next new_block in
    let f4 = set_next f3 current new_block in set_is_free f4 new_block true

pub removed : (ℕ → Chunk) → ℕ → ℕ → Chunk
removed f current =
    let f1 = set_next f (f current).prev (f current).next in
    let f2 = set_prev f1 (f1 current).next (f1 current).prev in
    let f3 = set_prev f2 current 0 in let f4 = set_next f3 current 0 in set_is_free f4 current false

pub insert_after : Heap → ℕ → ℕ → Heap
insert_after h current new_block = record h { chunks = inserted h.chunks current new_block }

pub remove : Heap → ℕ → Heap
remove h current = record h { chunks = removed h.chunks current }

pub init_head : Heap → Heap
init_head h = record h {
  chunks = with_chunk h.chunks h.malloc_head (record (h.chunks h.malloc_head) {
    size = 0;
    next = h.malloc_head;
    prev = h.malloc_head;
    left = false;
    right = false;
  });
}

abbrev pub sized : Heap → ℕ → ℕ → Heap
sized h a v = record h {
  chunks = with_chunk h.chunks a (record (h.chunks a) { size = v });
  footers = λ x. if x == a + v + header_size then v else h.footers x;
}

-- The header's size and its footer's, with the assertion of `footer()`.
pub set_sizes : Heap → ℕ → ℕ → Option Heap
set_sizes h a v = if aligned a then some (sized h a v) else none

pub set_neighbours : Heap → ℕ → Bool → Bool → Heap
set_neighbours h a l r = record h {
  chunks = with_chunk h.chunks a (record (h.chunks a) { left = l; right = r });
}

-- The number of blocks that `expand_heap` asks for.
pub blocks_for : ℕ → ℕ
blocks_for bytes =
    if bytes == 0
    then min_blocks
    else (let necessary_blocks = add64 (add64 bytes meta_size / block_size) 1 in
        if ltb min_blocks necessary_blocks then necessary_blocks else min_blocks)

-- A new block becomes a chunk of the free list, after `current`.
pub place_block : Heap → ℕ → ℕ → ℕ → Option Heap
unfolding insert_after
place_block h current header blocks = do
  s ← set_sizes h header (sub64 (mul64 blocks block_size) meta_size)
  some (insert_after (set_neighbours s header false false) current header)

pub left_block : Heap → ℕ → ℕ
left_block h b =
    if (h.chunks b).left
    then sub64 (sub64 (sub64 b footer_size) (h.footers (sub64 b footer_size))) header_size
    else 0

pub right_block : Heap → ℕ → ℕ
right_block h b = if (h.chunks b).right then b + meta_size + (h.chunks b).size else 0

-- `a` takes over its right neighbour `b`; the one of the two that is free, `out`, leaves the list.
pub joined : Heap → ℕ → ℕ → ℕ → Option Heap
unfolding remove
joined h a b out =
    let new_size = add64 (add64 (h.chunks a).size (h.chunks b).size) meta_size in
    let block_left = (h.chunks a).left in
    let block_right = (h.chunks b).right in
    do s ← set_sizes (remove h out) a new_size; some (set_neighbours s a block_left block_right)

pub coalesce : Heap → ℕ → Option (ℕ × Heap)
coalesce h b =
    let a = left_block h b in
    let c = right_block h b in
    do
      r ←
          (if not (a == 0) && (h.chunks a).is_free
            then (do s ← joined h a b a; some (a, s))
            else some (b, h))
      if not (c == 0) && (r.1.chunks c).is_free
          then (do s ← joined r.1 r.0 c c; some (r.0, s))
          else some r

-- What `k_malloc` makes of the size: at least the smallest one, and the next chunk aligned.
pub rounded : ℕ → ℕ
rounded bytes =
    let least = if ltb bytes min_split then min_split else bytes in
    let size_to_align = add64 least footer_size in
    if not (aligned size_to_align)
    then sub64 (mul64 (size_to_align / alignment + 1) alignment) footer_size
    else least

-- The chunk `current` is large enough: it is split, or taken whole.
pub split : Heap → ℕ → ℕ → Option Heap
split h current bytes =
    let new_block_size = (h.chunks current).size - (bytes + meta_size) in
    let block_left = (h.chunks current).left in
    let block_right = (h.chunks current).right in
    let new_block = current + bytes + meta_size in
    do
      s ← set_sizes h current bytes
      t ← set_sizes (set_neighbours s current block_left true) new_block new_block_size
      some (
          remove (insert_after (set_neighbours t new_block true block_right) current new_block)
            current)

pub take_chunk : Heap → ℕ → ℕ → Option Heap
take_chunk h current bytes =
    if ltb (bytes + meta_size + min_split + meta_size) (h.chunks current).size
    then split h current bytes
    else some (remove h current)

-- `allocate_block`: physical pages, virtual pages, and the tables; what was allocated stays allocated
-- when a later step fails.
pub allocate_block : (ℕ → ℕ) → Machine → ℕ → Option (ℕ × Machine)
allocate_block overflow m blocks = do
  p ← PhysicalAllocator.allocate overflow m.phys blocks
  if p.0 == 0 then some (0, record m { phys = p.1 }) else (do
    v ← VirtualAllocator.allocate overflow m.virt blocks
    if v.0 == 0 then some (0, record m { phys = p.1; virt = v.1 }) else (do
      q ← Paging.map_pages m.paging v.0 p.0 blocks 3
      some ((if q.0 then v.0 else 0), record { phys = p.1; virt = v.1; paging = q.1 })))

-- The block allocator of the client.
module _ {M : Type 0} (new_block : M → ℕ → Option (ℕ × M)) where
  pub expand_heap : M → Heap → ℕ → ℕ → Option (M × Heap)
  expand_heap m h current bytes = do
    let blocks = blocks_for bytes
    r ← new_block m blocks
    s ← (if r.0 == 0 then none else place_block h current r.0 blocks)
    some (r.1, record s { allocated_memory = add64 s.allocated_memory (mul64 blocks block_size) })

  -- The loop of `k_malloc`, with at most `rounds` chunks considered: the chunk taken.
  pub find_chunk : ℕ → M → Heap → ℕ → ℕ → Option (ℕ × M × Heap)
  find_chunk zero m h current bytes = none
  find_chunk (suc rounds) m h current bytes = elim (current == h.malloc_head) [
    | true ↦ (do
      r ← expand_heap m h current bytes
      find_chunk rounds r.0 r.1 (r.1.chunks current).next bytes)
    | false ↦ (elim (leb bytes (h.chunks current).size) [
      | true ↦ (do s ← take_chunk h current bytes; some (current, m, s))
      | false ↦ find_chunk rounds m h (h.chunks current).next bytes
    ])
  ]

  pub k_malloc : ℕ → M → Heap → ℕ → Option (ℕ × M × Heap)
  k_malloc rounds m h bytes = do
    r ← find_chunk rounds m h (h.chunks h.malloc_head).next (rounded bytes)
    let s = r.2
    some (
      r.0 + header_size,
      r.1,
      record s {
        used_memory = add64 s.used_memory (add64 (s.chunks r.0).size meta_size);
        allocations = add64 s.allocations 1;
      },
    )

  pub init : M → Heap → Option (M × Heap)
  init m h =
      expand_heap m
        (init_head (record h { used_memory = 0; allocations = 0; allocated_memory = 0 }))
        h.malloc_head 0

pub k_free : Heap → ℕ → Option Heap
k_free h block = do
  let free_header = sub64 block header_size
  let used = sub64 h.used_memory (add64 (h.chunks free_header).size meta_size)
  r ←
      (if (h.chunks free_header).is_free
        then none
        else coalesce (record h { used_memory = used }) free_header)
  some (insert_after r.1 r.1.malloc_head r.0)

-- `free_memory()`: the sizes of the chunks of the list, with at most `rounds` chunks counted.
pub free_memory_from : ℕ → Heap → ℕ → ℕ → Option ℕ
free_memory_from zero h it memory_free = none
free_memory_from (suc rounds) h it memory_free =
    let rest =
      free_memory_from rounds h (h.chunks it).next (add64 memory_free (h.chunks it).size) in
    if (h.chunks it).next == h.malloc_head
    then some (add64 memory_free (h.chunks it).size)
    else rest

pub free_memory : ℕ → Heap → Option ℕ
free_memory rounds h = free_memory_from rounds h h.malloc_head 0
