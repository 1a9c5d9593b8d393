-- ===== src/VirtualAllocator/Init.antt =====
-- kernel/src/virtual_allocator.cpp: the allocator after `init`.
use thor_os.Prelude.{
  ℕ, ◌+◌, ◌-◌, ◌*◌, ◌/◌, ◌%◌, ◌^◌, ◌≤◌, ◌<◌, ◌≡◌, refl, ◌∙◌, arith, true, length, ◌==◌, elim-if,
}
use thor_os.Bitmap
use thor_os.Buddy.{BuddyAllocator, levels, bitmap_at, set_memory_range, init_level}
use thor_os.Buddy.Arrays.{HasRoom, zeros-HasRoom, HasRoom-Shape, each_level}
use thor_os.Buddy.Cells.{Shape}
use thor_os.Buddy.Pages.{is_free}
use thor_os.Buddy.Sound.{IsSound}
use thor_os.Buddy.Init.{init-IsSound, init-range}
use thor_os.Paging.{physical_memory_pages}
use thor_os.Paging.Walk.{physical_memory_pages_lem}
use thor_os.VirtualAllocator.{start, array_size, data_bitmap, first_address_after, give_room, init}

bitmap-HasRoom :
    (block : ℕ) → HasRoom (2 ^ 30) block (Bitmap.init (array_size block) (data_bitmap block))
unfolding data_bitmap array_size Bitmap.init
bitmap-HasRoom block = zeros-HasRoom (2 ^ 30) block (array_size block) refl

given : ℕ → ℕ → BuddyAllocator
given first last = give_room (set_memory_range start.allocator first last)

module _ (first last : ℕ) where
  length-given : length (given first last).bitmaps ≡ levels
  unfolding given give_room set_memory_range init_level start
  length-given = refl

  given-HasRoom :
      (l : ℕ) → l < levels → HasRoom (2 ^ 30) (2 ^ l) (bitmap_at (given first last).bitmaps l)
  unfolding given give_room set_memory_range init_level start
  given-HasRoom =
      each_level (λ l. HasRoom (2 ^ 30) (2 ^ l) (bitmap_at (given first last).bitmaps l))
        (
          bitmap-HasRoom 1,
          bitmap-HasRoom 2,
          bitmap-HasRoom 4,
          bitmap-HasRoom 8,
          bitmap-HasRoom 16,
          bitmap-HasRoom 32,
          bitmap-HasRoom 64,
          bitmap-HasRoom 128,
        )

  given-Shape : (n : ℕ) → n * 4096 ≤ 2 ^ 30 → Shape n (given first last).bitmaps
  given-Shape n h =
      HasRoom-Shape (2 ^ 30) n (given first last).bitmaps (omega arith) h length-given given-HasRoom

  range-given :
      ((given first last).first_address ≡ first) × ((given first last).last_address ≡ last)
  unfolding given give_room set_memory_range init_level start
  range-given = (refl, refl)

-- The first address is the first multiple of 1 MiB after the tables.
first_address_after-bounds :
    (address : ℕ)
    → let first = first_address_after address in
      (address ≤ first) × (first < address + 2 ^ 20) × (first % 2 ^ 20 ≡ 0)
unfolding first_address_after
first_address_after-bounds address =
    elim-if (λ (first : ℕ). (address ≤ first) × (first < address + 2 ^ 20) × (first % 2 ^ 20 ≡ 0))
      (address % 2 ^ 20 == 0) (λ h. (omega arith, omega arith, ground arith))
      (λ h. (omega arith, ground arith, omega arith))

-- The number of pages from `first` to the end of the kernel's addresses.
abbrev pub pages_from : ℕ → ℕ
pages_from first = (2 ^ 30 - first) / 4096

-- When the tables end before the last MiB of the kernel's addresses, `init` makes the allocator
-- sound: all pages from the first multiple of 1 MiB after the tables up to 1 GiB are managed, and
-- all are free.
pub init-free :
    (paging_start : ℕ)
    → paging_start + 515 * 4096 + 2 ^ 20 ≤ 2 ^ 30
    → let v = init start paging_start in
      let first = v.first_virtual_address in
      (paging_start + 515 * 4096 ≤ first)
      × (first % 2 ^ 20 ≡ 0)
      × (first + pages_from first * 4096 ≡ 2 ^ 30)
      × (v.allocator.first_address ≡ first)
      × IsSound (pages_from first) v.allocator
      × ((u : ℕ) → u < pages_from first → is_free v.allocator.bitmaps u ≡ true)
unfolding init given
init-free paging_start low =
    let begin : ℕ = paging_start + physical_memory_pages * 4096 in
    let first : ℕ = first_address_after begin in
    let bounds = first_address_after-bounds begin in
    let range = range-given first (2 ^ 30) in
    let tables : physical_memory_pages ≡ 515 = physical_memory_pages_lem in
    let below : first + 2 ^ 20 ≤ 2 ^ 30 + 2 ^ 20 = omega (arith, bounds.1, bounds.2, tables) in
    let whole : first + pages_from first * 4096 ≡ 2 ^ 30 = omega (arith, bounds.2, below) in
    let sound =
      init-IsSound (pages_from first) (given first (2 ^ 30))
        (given-Shape first (2 ^ 30) (pages_from first) (omega arith))
        (omega (arith, bounds.0, range.0, tables)) (omega (arith, whole, range.0, range.1))
        (omega (arith, whole, range.0, range.1)) (omega (arith, range.1)) in
    (
      omega (arith, bounds.0, tables),
      bounds.2,
      whole,
      (init-range (given first (2 ^ 30))).0 ∙ range.0,
      sound.0,
      sound.1,
    )
