-- ===== src/PhysicalAllocator/Counters.antt =====
-- kernel/src/physical_allocator.cpp: the counts of the memory in use, and the start of `init`.
use thor_os.Prelude.{
  ℕ, ◌+◌, ◌*◌, ◌%◌, ◌^◌, ◌≤◌, ◌<◌, ◌≡◌, ◌≢◌, refl, ap, arith, true, false, not, some, ltb, ◌==◌,
  if_true, elim-if,
}
use thor_os.Buddy.{BuddyAllocator, add64, sub64, mul64, max_block}
use thor_os.Buddy
use thor_os.Buddy.Pages.{is_free}
use thor_os.Buddy.Sound.{IsSound}
use thor_os.Buddy.Free.{free-allocate}
use thor_os.VirtualAllocator.{counted}
use thor_os.PhysicalAllocator.{
  PhysicalAllocator, align_position, available, allocated, total_allocated, free_bytes, allocate,
  free,
}

module _ (overflow : ℕ → ℕ) (p : PhysicalAllocator) (blocks : ℕ) where
  -- The state that `allocate` leaves when its assertion holds.
  abbrev pub reserved : PhysicalAllocator
  reserved = record p {
    buddy_allocated_memory = add64 p.buddy_allocated_memory (mul64 (counted overflow blocks) 4096);
    allocator = (Buddy.allocate p.allocator blocks).1;
  }

  pub allocate_lem :
      (blocks * 4096) % 2 ^ 64 < free_bytes p
      → allocate overflow p blocks ≡ some ((Buddy.allocate p.allocator blocks).0, reserved)
  unfolding allocate
  allocate_lem h = if_true {b = ltb ((blocks * 4096) % 2 ^ 64) (free_bytes p)} _ _ (ground arith)

-- `free` undoes `allocate`, counts included: after a request of up to 128 blocks that passes the
-- assertion and that the buddy allocator answers by an address, freeing that address with the same
-- size gives the total of before, and the same free pages.
pub free-allocate-total :
    (n : ℕ) (overflow : ℕ → ℕ) (p : PhysicalAllocator) (blocks : ℕ)
    → IsSound n p.allocator
    → p.buddy_allocated_memory < 2 ^ 64
    → blocks ≤ max_block
    → (blocks * 4096) % 2 ^ 64 < free_bytes p
    → (Buddy.allocate p.allocator blocks).0 ≢ 0
    → (address : ℕ) × (q : PhysicalAllocator) × (allocate overflow p blocks ≡ some (address, q))
      × (total_allocated (free overflow q address blocks) ≡ total_allocated p)
      × IsSound n (free overflow q address blocks).allocator
      × ((u : ℕ)
          → is_free (free overflow q address blocks).allocator.bitmaps u
            ≡ is_free p.allocator.bitmaps u)
unfolding free total_allocated
free-allocate-total n overflow p blocks sound counts small room answered =
    let undone = free-allocate n p.allocator blocks sound small answered in
    (
      (Buddy.allocate p.allocator blocks).0,
      reserved overflow p blocks,
      allocate_lem overflow p blocks room,
      ap (λ (x : ℕ). add64 x p.allocated_memory)
          (add-sub p.buddy_allocated_memory (mul64 (counted overflow blocks) 4096) counts
            (omega arith)),
      undone.0,
      undone.1,
    )
  where
    add-sub : (a c : ℕ) → a < 2 ^ 64 → c < 2 ^ 64 → sub64 (add64 a c) c ≡ a
    add-sub a c h k = omega arith

-- `free()` of the allocator reads the wrong count: with the buddy allocator in place, a request
-- that passes the assertion leaves the memory that counts as free as it was, and so does giving
-- memory back.
pub free_bytes-allocate :
    (overflow : ℕ → ℕ) (p : PhysicalAllocator) (blocks address : ℕ)
    → p.buddy ≡ true
    → (blocks * 4096) % 2 ^ 64 < free_bytes p
    → ((q : PhysicalAllocator) × (allocate overflow p blocks
          ≡ some ((Buddy.allocate p.allocator blocks).0, q))
        × (free_bytes q ≡ free_bytes p))
      × (free_bytes (free overflow p address blocks) ≡ free_bytes p)
unfolding free_bytes available allocated free
free_bytes-allocate overflow p blocks address on room =
    ((reserved overflow p blocks, allocate_lem overflow p blocks room, rw on refl), rw on refl)

-- `init` adds the remainder to the position, and so doubles what is beyond the page boundary: the
-- position is aligned afterwards only when it was, or when it was half a page further.
pub align_position_lem :
    (p : PhysicalAllocator)
    → p.current_mmap_entry_position < 2 ^ 63
    → ((align_position p).current_mmap_entry_position % 4096
        ≡ p.current_mmap_entry_position % 4096 * 2 % 4096)
      × ((align_position p).current_mmap_entry_position < p.current_mmap_entry_position + 4096)
unfolding align_position
align_position_lem p low =
    elim-if
      (λ (q : PhysicalAllocator).
        (q.current_mmap_entry_position % 4096 ≡ p.current_mmap_entry_position % 4096 * 2 % 4096)
        × (q.current_mmap_entry_position < p.current_mmap_entry_position + 4096))
      (not (p.current_mmap_entry_position % 4096 == 0)) (λ h. (omega arith, omega arith))
      (λ h. (aligned h, omega arith))
  where
    aligned :
        not (p.current_mmap_entry_position % 4096 == 0) ≡ false
        → p.current_mmap_entry_position % 4096 ≡ p.current_mmap_entry_position % 4096 * 2 % 4096
    aligned h = ground arith
