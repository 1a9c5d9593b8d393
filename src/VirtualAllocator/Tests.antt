-- ===== src/VirtualAllocator/Tests.antt =====
-- Instances of the theorems on the virtual allocator.
use thor_os.Prelude.{ℕ, ◌+◌, ◌*◌, ◌%◌, ◌^◌, ◌≤◌, ◌<◌, ◌≡◌, refl, arith, true, none, some}
use thor_os.Buddy.Pages.{is_free}
use thor_os.Buddy.Sound.{IsSound}
use thor_os.VirtualAllocator.{VirtualAllocator, start, init, array_size, allocate}
use thor_os.VirtualAllocator.Init.{pages_from, init-free}
use thor_os.VirtualAllocator.Counters.{allocate_18_exhausts}

sizes : (array_size 1 ≡ 4097) × (array_size 128 ≡ 33)
unfolding array_size
sizes = (refl, refl)

-- The tables at 2 MiB.
init-free_example :
    let v = init start 2097152 in
    let first = v.first_virtual_address in
    (4206592 ≤ first)
    × (first % 2 ^ 20 ≡ 0)
    × (first + pages_from first * 4096 ≡ 2 ^ 30)
    × (v.allocator.first_address ≡ first)
    × IsSound (pages_from first) v.allocator
    × ((u : ℕ) → u < pages_from first → is_free v.allocator.bitmaps u ≡ true)
init-free_example = init-free 2097152 (omega arith)

allocate_18_exhausts_example :
    (address : ℕ) × (w : VirtualAllocator) × (allocate (λ p. 0) (init start 2097152) 18
      ≡ some (address, w))
    × ((pages : ℕ) → allocate (λ p. 0) w pages ≡ none)
allocate_18_exhausts_example = allocate_18_exhausts (λ p. 0) 2097152
