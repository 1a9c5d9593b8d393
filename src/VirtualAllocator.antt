-- ===== src/VirtualAllocator.antt =====
-- kernel/include/virtual_allocator.hpp and kernel/src/virtual_allocator.cpp: the buddy allocator of
-- the kernel's virtual pages, and the count of the pages in use. `level_size` computes a power of 2
-- as an `int`: beyond 30 its overflow is undefined in C++, and `overflow` stands for the result. The
-- sysfs values and logging are left out; a failed assertion is `none`.
pub mod Init
pub mod Counters
mod Tests
use thor_os.Prelude.{
  ℕ, ◌+◌, ◌-◌, ◌*◌, ◌/◌, ◌%◌, ◌^◌, Option, none, some, List, replicate, ltb, ◌==◌, if◌then◌else◌,
}
use thor_os.Buddy.{
  BuddyAllocator, add64, sub64, mul64, no_bitmap, level_size, set_memory_range, init_level,
}
use thor_os.Buddy
use thor_os.Paging.{page_size, kernel_virtual_size, physical_memory_pages}

pub record VirtualAllocator : Type 0 where
  pub virtual_start : ℕ
  pub first_virtual_address : ℕ
  pub last_virtual_address : ℕ
  pub managed_space : ℕ
  pub allocated_pages : ℕ
  pub allocator : BuddyAllocator

-- Before any code runs, the other values are 0, and so is `first_virtual_address / PAGE_SIZE`.
pub start : VirtualAllocator
start = record {
  virtual_start = 0;
  first_virtual_address = 0;
  last_virtual_address = 0;
  managed_space = 0;
  allocated_pages = 0;
  allocator = record { bitmaps = replicate 8 no_bitmap; first_address = 0; last_address = 0 };
}

pub array_size : ℕ → ℕ
array_size block = (kernel_virtual_size / (block * page_size) + 1) / 64 + 1

-- `data_bitmap_1` and so on: an array of zeros.
pub data_bitmap : ℕ → List ℕ
data_bitmap block = replicate (array_size block) 0

pub first_address_after : ℕ → ℕ
first_address_after address =
    if address % 2 ^ 20 == 0 then address else (address / 2 ^ 20 + 1) * 2 ^ 20

-- The allocator with its bitmaps, before it is initialised.
pub give_room : BuddyAllocator → BuddyAllocator
give_room a =
    let a1 = init_level a 0 (array_size 1) (data_bitmap 1) in
    let a2 = init_level a1 1 (array_size 2) (data_bitmap 2) in
    let a3 = init_level a2 2 (array_size 4) (data_bitmap 4) in
    let a4 = init_level a3 3 (array_size 8) (data_bitmap 8) in
    let a5 = init_level a4 4 (array_size 16) (data_bitmap 16) in
    let a6 = init_level a5 5 (array_size 32) (data_bitmap 32) in
    let a7 = init_level a6 6 (array_size 64) (data_bitmap 64) in
    init_level a7 7 (array_size 128) (data_bitmap 128)

pub init : VirtualAllocator → ℕ → VirtualAllocator
init v virtual_paging_start =
    let begin = virtual_paging_start + physical_memory_pages * page_size in
    let first = first_address_after begin in
    record v {
      virtual_start = begin;
      first_virtual_address = first;
      last_virtual_address = kernel_virtual_size;
      managed_space = sub64 kernel_virtual_size first;
      allocator = Buddy.init (give_room (set_memory_range v.allocator first kernel_virtual_size));
    }

-- `buddy_type::level_size(pages)`
pub counted : (ℕ → ℕ) → ℕ → ℕ
counted overflow pages = if ltb pages 31 then level_size pages else overflow pages

pub available : ℕ
available = kernel_virtual_size

pub allocated : VirtualAllocator → ℕ
allocated v = mul64 v.allocated_pages page_size

pub free_memory : VirtualAllocator → ℕ
unfolding available
free_memory v = sub64 available (allocated v)

pub allocate : (ℕ → ℕ) → VirtualAllocator → ℕ → Option (ℕ × VirtualAllocator)
allocate overflow v pages =
    if ltb pages (free_memory v / page_size)
    then (let r = Buddy.allocate v.allocator pages in
        some (
          r.0,
          record v {
            allocated_pages = add64 v.allocated_pages (counted overflow pages);
            allocator = r.1;
          },
        ))
    else none

pub free : (ℕ → ℕ) → VirtualAllocator → ℕ → ℕ → VirtualAllocator
free overflow v address pages = record v {
  allocated_pages = sub64 v.allocated_pages (counted overflow pages);
  allocator = Buddy.free v.allocator address pages;
}
