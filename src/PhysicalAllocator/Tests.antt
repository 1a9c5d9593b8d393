-- ===== src/PhysicalAllocator/Tests.antt =====
-- Runs of the physical allocator, and instances of its theorems.
use thor_os.Prelude.{◌^◌, ◌≡◌, refl, arith, true, false, none, some, [], ◌∷◌, replicate, After}
use thor_os.Buddy.{no_bitmap}
use thor_os.Buddy
use thor_os.PhysicalAllocator.{
  PhysicalAllocator, BiosEntry, allocate, free, free_bytes, available, allocated, early_init,
  finalize_memory_detection, os_entry, find_kernel_entry, kernel_bytes, early_allocate,
}
use thor_os.PhysicalAllocator.Counters.{free_bytes-allocate}
use thor_os.PhysicalAllocator.Map.{Placed, early_init-Placed}

-- Before the boot.
start : PhysicalAllocator
start = record {
  available_memory = 0;
  current_mmap_entry = none;
  current_mmap_entry_position = 0;
  allocated_memory = 0;
  allocator = record { bitmaps = replicate 8 no_bitmap; first_address = 0; last_address = 0 };
  first_physical_address = 0;
  last_physical_address = 0;
  buddy = false;
  buddy_managed_space = 0;
  buddy_allocated_memory = 0;
}

-- With the buddy allocator in place over 1 MiB.
in_place : PhysicalAllocator
unfolding start
in_place = record start { buddy = true; buddy_managed_space = 2 ^ 20 }

-- 636 KiB at address 0 and 127 MiB at 1 MiB.
bios : BiosEntry
bios = record { base_low = 0; base_high = 0; length_low = 651264; length_high = 0; kind = 1 }

bios' : BiosEntry
bios' = record {
  base_low = 1048576;
  base_high = 0;
  length_low = 133169152;
  length_high = 0;
  kind = 1;
}

detected :
    (p : PhysicalAllocator) × (early_init start (bios ∷ bios' ∷ []) 2 ≡ some p)
    × (p.current_mmap_entry_position ≡ 3145728)
    × (p.available_memory ≡ 133169152)
    × ((early_allocate p 515).0 ≡ 3145728)
    × ((early_allocate p 515).1.current_mmap_entry_position ≡ 5255168)
unfolding early_init start bios bios' finalize_memory_detection os_entry find_kernel_entry
    kernel_bytes early_allocate
detected = (_, refl, refl, refl, refl, refl)

detected-Placed : After Placed (early_init start (bios ∷ bios' ∷ []) 2)
detected-Placed = early_init-Placed start (bios ∷ bios' ∷ []) 2

free_bytes-allocate_example :
    ((q : PhysicalAllocator) × (allocate (λ p. 0) in_place 4
        ≡ some ((Buddy.allocate in_place.allocator 4).0, q))
      × (free_bytes q ≡ free_bytes in_place))
    × (free_bytes (free (λ p. 0) in_place 4096 4) ≡ free_bytes in_place)
unfolding in_place free_bytes available allocated
free_bytes-allocate_example = free_bytes-allocate (λ p. 0) in_place 4 4096 refl (omega arith)
