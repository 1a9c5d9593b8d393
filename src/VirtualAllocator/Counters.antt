-- ===== src/VirtualAllocator/Counters.antt =====
-- kernel/src/virtual_allocator.cpp: the count of the pages in use.
use thor_os.Prelude.{
  ℕ, ◌/◌, ◌^◌, ◌≤◌, ◌<◌, ◌≡◌, ◌≢◌, refl, arith, none, some, ltb, if_true, if_false, elim-if,
}
use thor_os.Word.Bits.{pow-lt_pow}
use thor_os.Buddy.{BuddyAllocator, add64, sub64, mul64, max_block, level_size, pow}
use thor_os.Buddy
use thor_os.Buddy.Pages.{is_free}
use thor_os.Buddy.Sound.{IsSound}
use thor_os.Buddy.Levels.{level_size-pow}
use thor_os.Buddy.Free.{free-allocate}
use thor_os.VirtualAllocator.{
  VirtualAllocator, start, init, counted, available, allocated, free_memory, allocate, free,
}

module _ (overflow : ℕ → ℕ) (v : VirtualAllocator) (pages : ℕ) where
  -- The state that `allocate` leaves when its assertion holds.
  abbrev pub reserved : VirtualAllocator
  reserved = record v {
    allocated_pages = add64 v.allocated_pages (counted overflow pages);
    allocator = (Buddy.allocate v.allocator pages).1;
  }

  pub allocate_lem :
      pages < free_memory v / 4096
      → allocate overflow v pages ≡ some ((Buddy.allocate v.allocator pages).0, reserved)
  unfolding allocate
  allocate_lem h = if_true {b = ltb pages (free_memory v / 4096)} _ _ (ground arith)

  pub allocate_asserts : free_memory v / 4096 ≤ pages → allocate overflow v pages ≡ none
  unfolding allocate
  allocate_asserts h = if_false {b = ltb pages (free_memory v / 4096)} _ _ (ground arith)

counted-lt :
    (overflow : ℕ → ℕ) (pages : ℕ)
    → ((p : ℕ) → overflow p < 2 ^ 64)
    → counted overflow pages < 2 ^ 64
unfolding counted
counted-lt overflow pages wide =
    elim-if (λ (c : ℕ). c < 2 ^ 64) (ltb pages 31)
      (λ h. omega (arith, level_size-pow pages, pow-lt_pow pages 64 (ground arith)))
      (λ h. wide pages)

-- `free` undoes `allocate`, count included: after a request of up to 128 pages that passes the
-- assertion and that the buddy allocator answers by an address, freeing that address with the same
-- size gives the count of before, and the same free pages.
pub free-allocate-count :
    (n : ℕ) (overflow : ℕ → ℕ) (v : VirtualAllocator) (pages : ℕ)
    → ((p : ℕ) → overflow p < 2 ^ 64)
    → IsSound n v.allocator
    → v.allocated_pages < 2 ^ 64
    → pages ≤ max_block
    → pages < free_memory v / 4096
    → (Buddy.allocate v.allocator pages).0 ≢ 0
    → (address : ℕ) × (w : VirtualAllocator) × (allocate overflow v pages ≡ some (address, w))
      × ((free overflow w address pages).allocated_pages ≡ v.allocated_pages)
      × IsSound n (free overflow w address pages).allocator
      × ((u : ℕ)
          → is_free (free overflow w address pages).allocator.bitmaps u
            ≡ is_free v.allocator.bitmaps u)
unfolding free
free-allocate-count n overflow v pages wide sound counts small room answered =
    let undone = free-allocate n v.allocator pages sound small answered in
    (
      (Buddy.allocate v.allocator pages).0,
      reserved overflow v pages,
      allocate_lem overflow v pages room,
      omega (arith, counted-lt overflow pages wide),
      undone.0,
      undone.1,
    )

pub free_memory-init : (paging_start : ℕ) → free_memory (init start paging_start) ≡ 2 ^ 30
unfolding free_memory allocated available init start
free_memory-init paging_start = refl

-- The count takes a request of `pages` pages for one of `2 ^ pages`: once 18 pages are allocated
-- from a new allocator, wherever the tables are, every other request fails its assertion.
pub allocate_18_exhausts :
    (overflow : ℕ → ℕ) (paging_start : ℕ)
    → (address : ℕ) × (w : VirtualAllocator) × (allocate overflow (init start paging_start) 18
        ≡ some (address, w))
      × ((pages : ℕ) → allocate overflow w pages ≡ none)
unfolding free_memory allocated available init start counted
allocate_18_exhausts overflow paging_start =
    let v : VirtualAllocator = init start paging_start in
    (
      (Buddy.allocate v.allocator 18).0,
      reserved overflow v 18,
      allocate_lem overflow v 18 fresh,
      λ pages. allocate_asserts overflow (reserved overflow v 18) pages (omega (arith, none_left)),
    )
  where
    fresh : 18 < free_memory (init start paging_start) / 4096
    fresh = omega (arith, free_memory-init paging_start)

    none_left : free_memory (reserved overflow (init start paging_start) 18) / 4096 ≡ 0
    none_left = omega (arith, level_size-pow 18)

pub allocator-free :
    (overflow : ℕ → ℕ) (v : VirtualAllocator) (address pages : ℕ)
    → (free overflow v address pages).allocator ≡ Buddy.free v.allocator address pages
unfolding free
allocator-free overflow v address pages = refl
