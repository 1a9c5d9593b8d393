-- ===== src/PhysicalAllocator/Map.antt =====
-- kernel/src/e820.cpp and `early_init`: the memory map.
use thor_os.Prelude.{
  ℕ, suc, ◌+◌, ◌%◌, ◌^◌, ◌≤◌, ◌<◌, ◌≡◌, refl, ap, ◌∙◌, arith, ◌&&◌, some, List, [], ◌∷◌, length,
  ltb, ◌==◌, if◌then◌else◌, After, failed, result, After-if, After-bind, After-some, elim-if,
  Bool-cases, inl, inr,
}
use thor_os.Buddy.{add64}
use thor_os.PhysicalAllocator.{
  PhysicalAllocator, BiosEntry, MmapEntry, os_entry, finalize_memory_detection, find_kernel_entry,
  kernel_bytes, kernel_address, early_init,
}

-- The bytes of the free entries.
pub free_sum : List MmapEntry → ℕ
free_sum [] = 0
free_sum (e ∷ es) = (if e.kind == 1 then e.size else 0) + free_sum es

-- No free entry starts at address 0.
pub NotAtZero : List MmapEntry → Type 0
NotAtZero [] = Unit {0}
NotAtZero (e ∷ es) = ((e.kind ≡ 1) → 0 < e.base) × NotAtZero es

os_entry-above : (b : BiosEntry) → (os_entry b).kind ≡ 1 → 0 < (os_entry b).base
unfolding os_entry
os_entry-above b h = ground arith

-- The kernel's map has an entry for each of the BIOS, none of them free at address 0, and the
-- available memory has grown by the sizes of the free ones.
pub finalize_memory_detection_lem :
    (bs : List BiosEntry) (available : ℕ)
    → available < 2 ^ 64
    → let r = finalize_memory_detection bs available in
      (length r.0 ≡ length bs) × NotAtZero r.0 × (r.1 ≡ (available + free_sum r.0) % 2 ^ 64)
unfolding finalize_memory_detection free_sum NotAtZero
finalize_memory_detection_lem [] available low = (refl, tt, omega arith)
finalize_memory_detection_lem (b ∷ bs) available low =
    let o : MmapEntry = os_entry b in
    let next : ℕ = if o.kind == 1 then add64 available o.size else available in
    let ih = finalize_memory_detection_lem bs next (next_low o.kind o.size) in
    (
      ap suc ih.0,
      (os_entry-above b, ih.1),
      ih.2 ∙ sum o.kind o.size (free_sum (finalize_memory_detection bs next).0),
    )
  where
    next_low : (k s : ℕ) → (if k == 1 then add64 available s else available) < 2 ^ 64
    next_low k s = elim-if (λ (x : ℕ). x < 2 ^ 64) (k == 1) (λ h. omega arith) (λ h. low)

    sum :
        (k s t : ℕ)
        → ((if k == 1 then add64 available s else available) + t) % 2 ^ 64
          ≡ (available + ((if k == 1 then s else 0) + t)) % 2 ^ 64
    sum k s t = elim (Bool-cases (k == 1)) [
      | inl e ↦ rw e (omega arith)
      | inr e ↦ rw e (omega arith)
    ]

kernel_bytes-lt : (kernel_mib : ℕ) → kernel_bytes kernel_mib < 2 ^ 32
unfolding kernel_bytes
kernel_bytes-lt kernel_mib = omega arith

-- The kernel's entry, and the position after the kernel in it.
pub record Placed (q : PhysicalAllocator) : Type 0 where
  pub entry : MmapEntry
  pub current : q.current_mmap_entry ≡ some entry
  pub free : entry.kind ≡ 1
  pub at_kernel : entry.base ≡ kernel_address
  pub position : entry.base ≤ q.current_mmap_entry_position
  pub inside : q.current_mmap_entry_position ≤ entry.base + entry.size

-- The entry that was found is free, starts at the kernel, and is large enough for it.
abbrev pub Holds : ℕ → MmapEntry → Type 0
Holds kernel_mib e = (e.kind ≡ 1) × (e.base ≡ kernel_address) × (kernel_bytes kernel_mib ≤ e.size)

find_kernel_entry-Holds :
    (es : List MmapEntry) (kernel_mib : ℕ)
    → After (Holds kernel_mib) (find_kernel_entry es kernel_mib)
unfolding find_kernel_entry
find_kernel_entry-Holds [] kernel_mib = failed
find_kernel_entry-Holds (e ∷ es) kernel_mib =
    After-if ((e.kind == 1) && (e.base == kernel_address))
      (λ t.
        After-if (ltb e.size (kernel_bytes kernel_mib)) (λ h. failed)
          (λ h. result (ground arith, ground arith, ground arith)))
      (λ t. find_kernel_entry-Holds es kernel_mib)

-- When `early_init` does not suspend the boot, allocation starts in a free region that starts at
-- the kernel's address, after the kernel and not beyond the region's end.
pub early_init-Placed :
    (p : PhysicalAllocator) (bs : List BiosEntry) (kernel_mib : ℕ)
    → After Placed (early_init p bs kernel_mib)
unfolding early_init
early_init-Placed p [] kernel_mib = failed
early_init-Placed p (b ∷ bs) kernel_mib =
    let r = finalize_memory_detection (b ∷ bs) p.available_memory in
    After-bind (find_kernel_entry r.0 kernel_mib) (λ e found.
      let held : Holds kernel_mib e = After-some (find_kernel_entry-Holds r.0 kernel_mib) found in
      result (record {
        entry = e;
        current = refl;
        free = held.0;
        at_kernel = held.1;
        position = omega (arith, kernel_bytes-lt kernel_mib, held.1);
        inside = omega (arith, kernel_bytes-lt kernel_mib, held.1, held.2);
      }))
