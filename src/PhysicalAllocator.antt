-- ===== src/PhysicalAllocator.antt =====
-- kernel/include/physical_allocator.hpp, kernel/src/physical_allocator.cpp and the memory map of
-- kernel/src/e820.cpp: the physical pages, first handed out one after the other from the region
-- after the kernel, then by the buddy allocator, whose bitmaps are taken from that same region and
-- mapped at virtual pages. The sysfs values and logging are left out; where the code suspends the
-- boot or an assertion fails the result is `none`. `overflow` is as in VirtualAllocator.antt.
pub mod Map
pub mod Counters
mod Tests
use thor_os.Prelude.{
  ℕ, zero, suc, ◌+◌, ◌-◌, ◌*◌, ◌/◌, ◌%◌, ◌^◌, Bool, true, false, not, ◌&&◌, ◌||◌, Option, none,
  some, List, [], ◌∷◌, replicate, ltb, leb, ◌==◌, if◌then◌else◌, ◌>>=◌,
}
use thor_os.Buddy.{
  BuddyAllocator, add64, sub64, mul64, no_bitmap, level_size, set_memory_range, init_level,
}
use thor_os.Buddy
use thor_os.Paging.{Paging, page_size, present}
use thor_os.Paging
use thor_os.VirtualAllocator.{VirtualAllocator, counted}
use thor_os.VirtualAllocator

-- An entry of the BIOS, in 32-bit halves, and an entry of the kernel.
pub record BiosEntry : Type 0 where
  pub base_low : ℕ
  pub base_high : ℕ
  pub length_low : ℕ
  pub length_high : ℕ
  pub kind : ℕ

pub record MmapEntry : Type 0 where
  pub base : ℕ
  pub size : ℕ
  pub kind : ℕ

-- The body of the loop of `finalize_memory_detection`.
pub os_entry : BiosEntry → MmapEntry
os_entry e =
    let base = add64 e.base_low (mul64 e.base_high (2 ^ 32)) in
    record {
      base = base;
      size = add64 e.length_low (mul64 e.length_high (2 ^ 32));
      kind = if (base == 0) && (e.kind == 1) then 7 else e.kind;
    }

-- The memory map and the available memory.
pub finalize_memory_detection : List BiosEntry → ℕ → List MmapEntry × ℕ
finalize_memory_detection [] available_memory = ([], available_memory)
finalize_memory_detection (e ∷ es) available_memory =
    let o = os_entry e in
    let counted_memory = if o.kind == 1 then add64 available_memory o.size else available_memory in
    let r = finalize_memory_detection es counted_memory in (o ∷ r.0, r.1)

-- `str_e820_type`, as a number for each text.
pub data EntryType : Type 0 where
  free_memory : EntryType
  reserved : EntryType
  acpi : EntryType
  unusable : EntryType
  disabled : EntryType
  kernel : EntryType
  unknown : EntryType

pub str_e820_type : ℕ → EntryType
str_e820_type kind =
    if kind == 1
    then free_memory
    else if kind == 2
    then reserved
    else if (kind == 3) || (kind == 4)
    then acpi
    else if kind == 5
    then unusable
    else if kind == 6
    then disabled
    else if kind == 7
    then kernel
    else unknown

pub record PhysicalAllocator : Type 0 where
  pub available_memory : ℕ
  pub current_mmap_entry : Option MmapEntry
  pub current_mmap_entry_position : ℕ
  pub allocated_memory : ℕ
  pub allocator : BuddyAllocator
  pub first_physical_address : ℕ
  pub last_physical_address : ℕ
  pub buddy : Bool
  pub buddy_managed_space : ℕ
  pub buddy_allocated_memory : ℕ

abbrev pub kernel_address : ℕ
kernel_address = 2 ^ 20

-- `early::kernel_mib() * 0x100000`, in 32 bits.
pub kernel_bytes : ℕ → ℕ
kernel_bytes kernel_mib = (kernel_mib * 2 ^ 20) % 2 ^ 32

-- The loop of `early_init`: the entry of the kernel, if it is large enough.
pub find_kernel_entry : List MmapEntry → ℕ → Option MmapEntry
find_kernel_entry [] kernel_mib = none
find_kernel_entry (e ∷ es) kernel_mib =
    let rest = find_kernel_entry es kernel_mib in
    if (e.kind == 1) && (e.base == kernel_address)
    then (if ltb e.size (kernel_bytes kernel_mib) then none else some e)
    else rest

pub early_init : PhysicalAllocator → List BiosEntry → ℕ → Option PhysicalAllocator
early_init p [] kernel_mib = none
early_init p (b ∷ bs) kernel_mib = do
  let r = finalize_memory_detection (b ∷ bs) p.available_memory
  e ← find_kernel_entry r.0 kernel_mib
  some (record p {
    available_memory = r.1;
    current_mmap_entry = some e;
    current_mmap_entry_position = add64 e.base (kernel_bytes kernel_mib);
    allocated_memory = add64 p.allocated_memory (kernel_bytes kernel_mib);
  })

pub early_allocate : PhysicalAllocator → ℕ → ℕ × PhysicalAllocator
early_allocate p blocks = elim p.current_mmap_entry [
  | none ↦ (0, p)
  | some e ↦ (
    p.current_mmap_entry_position,
    record p {
      allocated_memory = add64 p.allocated_memory (mul64 blocks page_size);
      current_mmap_entry_position = add64 p.current_mmap_entry_position (mul64 blocks page_size);
    },
  )
]

pub array_size : ℕ → ℕ → ℕ
array_size managed_space block = (managed_space / (block * page_size) + 1) / 64 + 1

-- The parts of the kernel that `init` works on.
pub record Machine : Type 0 where
  pub phys : PhysicalAllocator
  pub virt : VirtualAllocator
  pub paging : Paging

-- `create_buddy_array`: the address of the array.
pub create_buddy_array : (ℕ → ℕ) → Machine → ℕ → ℕ → Option (ℕ × Machine)
create_buddy_array overflow m managed_space block = do
  let pages = Paging.pages (array_size managed_space block * 8)
  let physical_address = m.phys.current_mmap_entry_position
  let p = record m.phys {
    buddy_allocated_memory = add64 m.phys.buddy_allocated_memory (mul64 pages page_size);
    current_mmap_entry_position = add64 physical_address (mul64 pages page_size);
  }
  v ← VirtualAllocator.allocate overflow m.virt pages
  q ← (if v.0 == 0 then none else Paging.map_pages m.paging v.0 physical_address pages 3)
  (if q.0 then some (v.0, record { phys = p; virt = v.1; paging = q.1 }) else none)

-- The position as `init` moves it, meant to be the next multiple of the page size.
pub align_position : PhysicalAllocator → PhysicalAllocator
align_position p =
    let r = p.current_mmap_entry_position % page_size in
    if not (r == 0)
    then record p {
      buddy_allocated_memory = add64 p.buddy_allocated_memory r;
      current_mmap_entry_position = add64 p.current_mmap_entry_position r;
    }
    else p

-- `count` words of memory from address `a` on.
pub words_at : (ℕ → ℕ) → ℕ → ℕ → List ℕ
words_at contents zero a = []
words_at contents (suc count) a = contents a ∷ words_at contents count (a + 8)

-- The arrays of the levels from `l` on, `rounds` of them, each `init<l>`ed with its array; the source
-- creates all arrays before the first `init<l>`, which does not look at the other parts. `contents`
-- is what the memory holds.
pub create_arrays :
    (ℕ → ℕ) → (ℕ → ℕ) → ℕ → ℕ → ℕ → ℕ → Machine → BuddyAllocator → Option (BuddyAllocator × Machine)
create_arrays overflow contents managed_space zero l block m a = some (a, m)
create_arrays overflow contents managed_space (suc rounds) l block m a = do
  r ← create_buddy_array overflow m managed_space block
  let size = array_size managed_space block
  create_arrays overflow contents managed_space rounds (l + 1) (block * 2) r.1
      (init_level a l size (words_at contents size r.0))

pub init : (ℕ → ℕ) → (ℕ → ℕ) → Machine → Option Machine
init overflow contents m = do
  let p = align_position m.phys
  e ← p.current_mmap_entry
  let managed_space = sub64 e.size (sub64 p.current_mmap_entry_position e.base)
  r ← create_arrays overflow contents managed_space 8 0 1 (record m { phys = p }) p.allocator
  let first = r.1.phys.current_mmap_entry_position
  let last = add64 e.base e.size
  some (record r.1 {
    phys = record r.1.phys {
      first_physical_address = first;
      last_physical_address = last;
      allocator = Buddy.init (set_memory_range r.0 first last);
      buddy = true;
      buddy_managed_space = managed_space;
    };
  })

pub total_available : PhysicalAllocator → ℕ
total_available p = p.available_memory

pub available : PhysicalAllocator → ℕ
unfolding total_available
available p = if p.buddy then p.buddy_managed_space else total_available p

pub total_allocated : PhysicalAllocator → ℕ
total_allocated p = add64 p.buddy_allocated_memory p.allocated_memory

pub allocated : PhysicalAllocator → ℕ
allocated p = if p.buddy then p.allocated_memory else p.buddy_allocated_memory

pub total_free : PhysicalAllocator → ℕ
total_free p = sub64 (total_available p) (total_allocated p)

pub free_bytes : PhysicalAllocator → ℕ
free_bytes p = sub64 (available p) (allocated p)

pub allocate : (ℕ → ℕ) → PhysicalAllocator → ℕ → Option (ℕ × PhysicalAllocator)
allocate overflow p blocks =
    if ltb (mul64 blocks page_size) (free_bytes p)
    then (let r = Buddy.allocate p.allocator blocks in
        some (
          r.0,
          record p {
            buddy_allocated_memory =
                add64 p.buddy_allocated_memory (mul64 (counted overflow blocks) page_size);
            allocator = r.1;
          },
        ))
    else none

pub free : (ℕ → ℕ) → PhysicalAllocator → ℕ → ℕ → PhysicalAllocator
free overflow p address blocks = record p {
  buddy_allocated_memory =
      sub64 p.buddy_allocated_memory (mul64 (counted overflow blocks) page_size);
  allocator = Buddy.free p.allocator address blocks;
}
