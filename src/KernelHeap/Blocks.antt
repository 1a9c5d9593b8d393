-- ===== src/KernelHeap/Blocks.antt =====
-- kernel/src/kalloc.cpp: `k_malloc` takes the first chunk of the free list that is large enough.
use thor_os.Prelude.{
  ℕ, zero, suc, ◌+◌, ◌/◌, ◌%◌, ◌^◌, ◌≤◌, ◌<◌, ◌≡◌, ◌≢◌, refl, ap, ◌∙◌, arith, true, false, not,
  Option, some, List, [], ◌∷◌, ◌++◌, length, ltb, leb, ◌==◌, if◌then◌else◌, ◌>>=◌, elim-if,
}
use thor_os.Buddy.{add64, sub64, mul64}
use thor_os.KernelHeap.{Heap, rounded, aligned, take_chunk, find_chunk, k_malloc}
use thor_os.KernelHeap.Lists.{All, NotIn}
use thor_os.KernelHeap.Ring.{Linked}
use thor_os.KernelHeap.Links.{IsRing, IsRing-same}
use thor_os.KernelHeap.FirstFit.{Taken, total, aligned-mod, take_chunk-Taken}

-- The size of a chunk for a request: room for it, and the next chunk is aligned.
pub rounded-bounds :
    (bytes : ℕ)
    → bytes < 2 ^ 63
    → (bytes ≤ rounded bytes)
      × (24 ≤ rounded bytes)
      × (rounded bytes < bytes + 40)
      × (rounded bytes % 16 ≡ 8)
unfolding rounded
rounded-bounds bytes small =
    let least : ℕ = if ltb bytes 24 then 24 else bytes in
    let first : (bytes ≤ least) × (24 ≤ least) × (least < bytes + 25) =
      elim-if (λ (x : ℕ). (bytes ≤ x) × (24 ≤ x) × (x < bytes + 25)) (ltb bytes 24)
        (λ h. (ground arith, omega arith, omega arith))
        (λ h. (omega arith, ground arith, omega arith)) in
    aligning least first.0 first.1 first.2
  where
    aligning :
        (x : ℕ)
        → bytes ≤ x
        → 24 ≤ x
        → x < bytes + 25
        → let y =
            if not (aligned (add64 x 8)) then sub64 (mul64 (add64 x 8 / 16 + 1) 16) 8 else x in
          (bytes ≤ y) × (24 ≤ y) × (y < bytes + 40) × (y % 16 ≡ 8)
    aligning x a b c = rw (aligned-mod (add64 x 8)) (
        elim-if (λ (y : ℕ). (bytes ≤ y) × (24 ≤ y) × (y < bytes + 40) × (y % 16 ≡ 8))
          (not (add64 x 8 % 16 == 0)) (λ h. (omega arith, omega arith, less h, omega arith))
          (λ h. (a, b, omega arith, exact x b c h)))
      where
        less :
            not (add64 x 8 % 16 == 0) ≡ true → sub64 (mul64 (add64 x 8 / 16 + 1) 16) 8 < bytes + 40
        less h = let e : add64 x 8 % 16 ≢ 0 = ground arith in omega (arith, e)

        exact : (x : ℕ) → 24 ≤ x → x < bytes + 25 → not (add64 x 8 % 16 == 0) ≡ false → x % 16 ≡ 8
        exact x b c h = let e : add64 x 8 % 16 ≡ 0 = ground arith in omega (arith, e)

module _ {M : Type 0} (new_block : M → ℕ → Option (ℕ × M)) (before : M) (h : Heap) where
  -- The walk over the chunks that are too small.
  pub find_chunk-take_chunk :
      (rounds x : ℕ) (l : List ℕ) (c : ℕ) (m : List ℕ) (bytes : ℕ)
      → Linked h.chunks x (l ++ (c ∷ m)) h.malloc_head
      → NotIn h.malloc_head (l ++ (c ∷ m))
      → All (λ a. (h.chunks a).size < bytes) l
      → bytes ≤ (h.chunks c).size
      → length l < rounds
      → find_chunk new_block rounds before h (h.chunks x).next bytes
        ≡ (do s ← take_chunk h c bytes; some (c, before, s))
  unfolding find_chunk
  find_chunk-take_chunk zero x l c m bytes k apart small fits enough = absurd (omega arith)
  find_chunk-take_chunk (suc rounds) x [] c m bytes k apart small fits enough =
      let t : (c == h.malloc_head) ≡ false = ground (arith, apart.0) in
      let t' : leb bytes (h.chunks c).size ≡ true = ground arith in
      ap (λ (z : ℕ). find_chunk new_block (suc rounds) before h z bytes) k.0
      ∙ rw (t, t', find_chunk) refl
  find_chunk-take_chunk (suc rounds) x (a ∷ l) c m bytes k apart small fits enough =
      let t : (a == h.malloc_head) ≡ false = ground (arith, apart.0) in
      let t' : leb bytes (h.chunks a).size ≡ false = ground (arith, small.0) in
      ap (λ (z : ℕ). find_chunk new_block (suc rounds) before h z bytes) k.0
      ∙ rw (t, t', find_chunk)
          (find_chunk-take_chunk rounds a l c m bytes k.2 apart.1 small.1 fits (omega arith))

  -- The heap with the counters of `k_malloc`.
  abbrev pub counted : Heap → ℕ → Heap
  counted s c = record s {
    used_memory = add64 s.used_memory (add64 (s.chunks c).size 40);
    allocations = add64 s.allocations 1;
  }

  pub counted-Taken :
      {s : Heap} (c bytes : ℕ) (l m : List ℕ)
      → Taken h c bytes l m s
      → Taken h c bytes l m (counted s c)
  counted-Taken {s} c bytes l m t = record {
    rest = t.rest;
    ring = IsRing-same t.ring refl (λ a. refl) (λ a. refl) (λ a. refl);
    enough = t.enough;
    whole = total_counted t.rest ∙ t.whole;
    place = t.place;
    in_use = t.in_use;
    elsewhere = t.elsewhere;
    same_head = t.same_head;
  }
    where
      same : (l : List ℕ) → total (counted s c) l ≡ total s l
      same [] = refl
      same (a ∷ l) = ap (λ (x : ℕ). (s.chunks a).size + 40 + x) (same l)

      total_counted :
          (l : List ℕ) → (s.chunks c).size + total (counted s c) l ≡ (s.chunks c).size + total s l
      total_counted l = ap (λ (x : ℕ). (s.chunks c).size + x) (same l)

-- First fit: when the chunks of the free list before chunk `c` are too small for the rounded
-- request, which is at least the request, and `c` is large enough, `k_malloc` returns the memory of
-- `c`. It leaves the free list linked both ways, with what is left of `c`, if it is split, in the
-- place of `c`, right after it in memory, and the sizes of all other chunks as they were. The
-- request must be below 2 ^ 63, the rounds more than the chunks before `c`, `c` aligned, and the
-- place where `c` would be split neither the head nor a chunk of the list.
pub k_malloc-Taken :
    {M : Type 0} (new_block : M → ℕ → Option (ℕ × M)) (before : M) (h : Heap) (rounds bytes c : ℕ)
    (l m : List ℕ)
    → IsRing h (l ++ (c ∷ m))
    → bytes < 2 ^ 63
    → All (λ a. (h.chunks a).size < rounded bytes) l
    → rounded bytes ≤ (h.chunks c).size
    → length l < rounds
    → c % 16 ≡ 0
    → h.malloc_head ≢ c + rounded bytes + 40
    → NotIn (c + rounded bytes + 40) (l ++ (c ∷ m))
    → (s : Heap) × (k_malloc new_block rounds before h bytes ≡ some (c + 32, before, s))
      × Taken h c (rounded bytes) l m s
      × (bytes ≤ rounded bytes)
unfolding k_malloc
k_malloc-Taken new_block before h rounds bytes c l m r small few fits enough at16 fresh unused =
    let bounds = rounded-bounds bytes small in
    let t = take_chunk-Taken c (rounded bytes) l m r fits at16 bounds.3 fresh unused in
    let found =
      find_chunk-take_chunk new_block before h rounds h.malloc_head l c m (rounded bytes) r.links
        r.apart few fits enough in
    (
      counted new_block before h t.0 c,
      rw (found, t.1) refl,
      counted-Taken new_block before h c (rounded bytes) l m t.2,
      bounds.0,
    )
