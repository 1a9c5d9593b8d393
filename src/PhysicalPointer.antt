-- ===== src/PhysicalPointer.antt =====
-- kernel/include/physical_pointer.hpp: a window of virtual pages on physical memory, which takes its
-- pages from the virtual allocator and maps them. A failed assertion is `none`.
pub mod Window
mod Tests
use thor_os.Prelude.{ℕ, Bool, true, false, not, Option, none, some, ltb, ◌==◌, if◌then◌else◌, ◌>>=◌}
use thor_os.Paging.{Paging, map, map_pages, unmap, unmap_pages}
use thor_os.VirtualAllocator.{VirtualAllocator, allocate, free}

pub record PhysicalPointer : Type 0 where
  pub phys : ℕ
  pub pages : ℕ
  pub virt : ℕ

-- The default flags of `map` and `map_pages`: PRESENT | WRITE.
abbrev pub default_flags : ℕ
default_flags = 3

pub map_window : Paging → ℕ → ℕ → ℕ → Option (Bool × Paging)
map_window p virt phys pages =
    if pages == 1 then map p virt phys default_flags else map_pages p virt phys pages default_flags

-- `if(virt){ ... }` of the constructor: what `virt` is then.
pub open_window : Paging → ℕ → ℕ → ℕ → Option (ℕ × Paging)
open_window p virt phys pages =
    if not (virt == 0)
    then (do s ← map_window p virt phys pages; some ((if s.0 then virt else 0), s.1))
    else some (0, p)

-- The constructor.
pub create :
    (ℕ → ℕ)
    → VirtualAllocator
    → Paging
    → ℕ
    → ℕ
    → Option (PhysicalPointer × VirtualAllocator × Paging)
create overflow v p phys pages =
    if ltb 0 pages
    then (do
      r ← allocate overflow v pages
      s ← open_window p r.0 phys pages
      some (record { phys = phys; pages = pages; virt = s.0 }, r.1, s.1))
    else some (record { phys = phys; pages = pages; virt = 0 }, v, p)

-- The destructor.
pub destroy : (ℕ → ℕ) → VirtualAllocator → Paging → PhysicalPointer → VirtualAllocator × Paging
destroy overflow v p ptr =
    if not (ptr.virt == 0)
    then (let q = if ptr.pages == 1 then unmap p ptr.virt else unmap_pages p ptr.virt ptr.pages in
        (free overflow v ptr.virt ptr.pages, q.1))
    else (v, p)

-- `get` and, under the name of the physical address, `get_phys`: the same value.
pub get : PhysicalPointer → ℕ
get ptr = ptr.virt

pub get_phys : PhysicalPointer → ℕ
get_phys ptr = ptr.virt

pub to_bool : PhysicalPointer → Bool
to_bool ptr = not (ptr.virt == 0)
