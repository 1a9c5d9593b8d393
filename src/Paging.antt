-- ===== src/Paging.antt =====
-- kernel/include/paging.hpp and kernel/src/paging.cpp: the four levels of tables of the kernel.
-- `memory` holds the 64-bit words by the address that the code reads them at; the tables stand at
-- the addresses that `early_init` and `init` fix. A failed assertion is `none`. The flush of the TLB
-- and logging are left out.
pub mod Walk
pub mod Map
pub mod Ranges
pub mod Lookup
pub mod Tests
use thor_os.Prelude.{
  ℕ, zero, suc, ◌+◌, ◌-◌, ◌*◌, ◌/◌, ◌%◌, ◌^◌, Bool, true, false, not, Option, none, some, ◌==◌, leb,
  if◌then◌else◌, bit_and, bit_or, ◌>>=◌,
}
use thor_os.Buddy.{add64, sub64, mul64}

abbrev pub page_size : ℕ
page_size = 4096

abbrev pub kernel_virtual_size : ℕ
kernel_virtual_size = 2 ^ 30

abbrev pub present : ℕ
present = 1

abbrev pub write : ℕ
write = 2

abbrev pub user : ℕ
user = 4

-- The number of table entries that map the kernel, where one maps `entry_size` bytes.
pub entries : ℕ → ℕ
entries entry_size =
    if leb kernel_virtual_size entry_size
    then 1
    else kernel_virtual_size / entry_size + (if kernel_virtual_size % entry_size == 0 then 0 else 1)

pub pml4_entries : ℕ
unfolding entries
pml4_entries = entries (512 * 2 ^ 30)

pub pdpt_entries : ℕ
unfolding entries
pdpt_entries = entries (2 ^ 30)

pub pd_entries : ℕ
unfolding entries
pd_entries = entries (2 * 2 ^ 20)

pub physical_memory_pages : ℕ
unfolding pml4_entries pdpt_entries pd_entries
physical_memory_pages = 1 + pml4_entries + pdpt_entries + pd_entries

pub record Paging : Type 0 where
  pub virtual_pml4t_start : ℕ
  pub virtual_pdpt_start : ℕ
  pub virtual_pd_start : ℕ
  pub virtual_pt_start : ℕ
  pub physical_pml4t_start : ℕ
  pub physical_pdpt_start : ℕ
  pub physical_pd_start : ℕ
  pub physical_pt_start : ℕ
  pub memory : ℕ → ℕ

pub pml4_entry : ℕ → ℕ
pml4_entry virt = bit_and (virt / 2 ^ 39) 511

pub pdpt_entry : ℕ → ℕ
pdpt_entry virt = bit_and (virt / 2 ^ 30) 511

pub pd_entry : ℕ → ℕ
pd_entry virt = bit_and (virt / 2 ^ 21) 511

pub pt_entry : ℕ → ℕ
pt_entry virt = bit_and (virt / 2 ^ 12) 511

-- `table[index]`, and the entry without its flags: `& ~0xFFF`.
abbrev pub at : Paging → ℕ → ℕ → ℕ
at p table index = p.memory (table + 8 * index)

pub frame : ℕ → ℕ
frame e = bit_and e (2 ^ 64 - 4096)

pub is_present : ℕ → Bool
is_present e = not (bit_and e present == 0)

pub find_pdpt : Paging → ℕ → ℕ → ℕ
find_pdpt p pml4t pml4e =
    let physical_pdpt = frame (at p pml4t pml4e) in
    add64 p.virtual_pdpt_start (sub64 physical_pdpt p.physical_pdpt_start)

pub find_pd : Paging → ℕ → ℕ → ℕ
find_pd p pdpt pdpte =
    let physical_pd = frame (at p pdpt pdpte) in
    add64 p.virtual_pd_start (sub64 physical_pd p.physical_pd_start)

pub find_pt : Paging → ℕ → ℕ → ℕ
find_pt p pd pde =
    let physical_pt = frame (at p pd pde) in
    add64 p.virtual_pt_start (sub64 physical_pt p.physical_pt_start)

pub page_aligned : ℕ → Bool
page_aligned addr = bit_and addr (page_size - 1) == 0

pub page_align : ℕ → ℕ
page_align addr = addr / page_size * page_size

-- `std::ceil_divide(size, PAGE_SIZE)`
pub pages : ℕ → ℕ
pages size = (size + page_size + 2 ^ 64 - 1) % 2 ^ 64 / page_size

-- The tables that the lookup of `virt` goes through.
abbrev pub pdpt_of : Paging → ℕ → ℕ
pdpt_of p virt = find_pdpt p p.virtual_pml4t_start (pml4_entry virt)

abbrev pub pd_of : Paging → ℕ → ℕ
pd_of p virt = find_pd p (pdpt_of p virt) (pdpt_entry virt)

abbrev pub pt_of : Paging → ℕ → ℕ
pt_of p virt = find_pt p (pd_of p virt) (pd_entry virt)

pub page_present : Paging → ℕ → Bool
page_present p virt =
    if not (is_present (at p p.virtual_pml4t_start (pml4_entry virt)))
    then false
    else if not (is_present (at p (pdpt_of p virt) (pdpt_entry virt)))
    then false
    else if not (is_present (at p (pd_of p virt) (pd_entry virt)))
    then false
    else is_present (at p (pt_of p virt) (pt_entry virt))

-- The mask of the offset is the source's, of 13 bits.
pub physical_address : Paging → ℕ → ℕ
physical_address p virt =
    if not (page_present p virt)
    then 0
    else add64 (bit_and virt (2 ^ 13 - 1)) (frame (at p (pt_of p virt) (pt_entry virt)))

pub page_free_or_set : Paging → ℕ → ℕ → Bool
page_free_or_set p virt physical =
    if not (page_present p virt)
    then true
    else if physical_address p virt == physical
    then true
    else false

-- `pt[pte] = value`
pub set_entry : Paging → ℕ → ℕ → ℕ → Paging
set_entry p table index value = record p {
  memory = λ a. if a == table + 8 * index then value else p.memory a;
}

pub map : Paging → ℕ → ℕ → ℕ → Option (Bool × Paging)
map p virt physical flags =
    if not (page_aligned virt)
    then some (false, p)
    else if not (is_present (at p p.virtual_pml4t_start (pml4_entry virt)))
    then none
    else if not (is_present (at p (pdpt_of p virt) (pdpt_entry virt)))
    then none
    else if not (is_present (at p (pd_of p virt) (pd_entry virt)))
    then none
    else if is_present (at p (pt_of p virt) (pt_entry virt))
    then some (at p (pt_of p virt) (pt_entry virt) == bit_or physical flags, p)
    else some (true, set_entry p (pt_of p virt) (pt_entry virt) (bit_or physical flags))

abbrev pub nth_page : ℕ → ℕ → ℕ
nth_page address page = add64 address (mul64 page page_size)

-- The first loop of `map_pages`, from page `page` on, `rounds` of them left.
pub range_free_or_set : Paging → ℕ → ℕ → ℕ → ℕ → Bool
range_free_or_set p virt physical zero page = true
range_free_or_set p virt physical (suc rounds) page =
    let rest = range_free_or_set p virt physical rounds (page + 1) in
    if not (page_free_or_set p (nth_page virt page) (nth_page physical page)) then false else rest

-- The second one.
pub map_range : Paging → ℕ → ℕ → ℕ → ℕ → ℕ → Option (Bool × Paging)
map_range p virt physical flags zero page = some (true, p)
map_range p virt physical flags (suc rounds) page = do
  r ← map p (nth_page virt page) (nth_page physical page) flags
  elim r.0 [
    | false ↦ some (false, r.1)
    | true ↦ map_range r.1 virt physical flags rounds (page + 1)
  ]

pub map_pages : Paging → ℕ → ℕ → ℕ → ℕ → Option (Bool × Paging)
map_pages p virt physical n flags =
    if not (page_aligned virt)
    then some (false, p)
    else if not (range_free_or_set p virt physical n 0)
    then some (false, p)
    else map_range p virt physical flags n 0

pub unmap : Paging → ℕ → Bool × Paging
unmap p virt =
    if not (page_aligned virt)
    then (false, p)
    else if not (is_present (at p p.virtual_pml4t_start (pml4_entry virt)))
    then (true, p)
    else if not (is_present (at p (pdpt_of p virt) (pdpt_entry virt)))
    then (true, p)
    else if not (is_present (at p (pd_of p virt) (pd_entry virt)))
    then (true, p)
    else (true, set_entry p (pt_of p virt) (pt_entry virt) 0)

pub unmap_range : Paging → ℕ → ℕ → ℕ → Bool × Paging
unmap_range p virt zero page = (true, p)
unmap_range p virt (suc rounds) page =
    let (done, q) = unmap p (nth_page virt page) in
    elim done [ false ↦ (false, q) | true ↦ unmap_range q virt rounds (page + 1) ]

pub unmap_pages : Paging → ℕ → ℕ → Bool × Paging
unmap_pages p virt n = if not (page_aligned virt) then (false, p) else unmap_range p virt n 0

pub identity_map : Paging → ℕ → ℕ → Option (Bool × Paging)
identity_map p virt flags = map p virt virt flags

pub identity_map_pages : Paging → ℕ → ℕ → ℕ → Option (Bool × Paging)
identity_map_pages p virt n flags = map_pages p virt virt n flags
