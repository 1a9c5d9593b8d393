-- ===== src/Buddy.antt =====
-- kernel/include/buddy_allocator.hpp: `buddy_allocator<8, PAGE_SIZE>`, the one instance that the
-- kernel uses (physical_allocator.cpp, virtual_allocator.cpp). `size_t` arithmetic wraps at 2 ^ 64.
-- A bitmap read outside the eight levels is the empty bitmap. Logging is left out.
pub mod Levels
pub mod Cells
pub mod Down
pub mod Up
pub mod Coherence
pub mod Pages
pub mod Sound
pub mod Allocate
pub mod AllocateWord
pub mod Init
pub mod Success
pub mod Free
pub mod Arrays
mod Tests
use thor_os.Prelude.{
  ℕ, zero, suc, ◌+◌, ◌-◌, ◌*◌, ◌/◌, ◌%◌, ◌^◌, Bool, List, [], ◌==◌, ltb, leb, if◌then◌else◌, get_or,
  map,
}
use thor_os.Prelude.{set as write}
use thor_os.Bitmap
use thor_os.Bitmap.{StaticBitmap, npos, bits_per_word}

abbrev pub levels : ℕ
levels = 8

-- The template's `Unit`, a page.
abbrev pub page_unit : ℕ
page_unit = 4096

-- The `int` arithmetic of `pow(2, level)` is exact for the levels used, 0 to 7.
pub pow : ℕ → ℕ → ℕ
pow x zero = 1
pow x (suc n) = x * pow x n

abbrev pub max_block : ℕ
max_block = 128

abbrev pub add64 : ℕ → ℕ → ℕ
add64 a b = (a + b) % 2 ^ 64

abbrev pub mul64 : ℕ → ℕ → ℕ
mul64 a b = (a * b) % 2 ^ 64

abbrev pub sub64 : ℕ → ℕ → ℕ
sub64 a b = (a + 2 ^ 64 - b) % 2 ^ 64

-- `bitmaps`, one bitmap for each level.
abbrev pub Bitmaps : Type 0
Bitmaps = List StaticBitmap

pub record BuddyAllocator : Type 0 where
  pub bitmaps : Bitmaps
  pub first_address : ℕ
  pub last_address : ℕ

abbrev pub no_bitmap : StaticBitmap
no_bitmap = record { words = 0; storage = [] }

abbrev pub bitmap_at : Bitmaps → ℕ → StaticBitmap
bitmap_at bs l = get_or bs l no_bitmap

-- `bitmaps[l].set(i)`, `bitmaps[l].unset(i)` and `bitmaps[l].is_set(i)`
abbrev pub set_at : Bitmaps → ℕ → ℕ → Bitmaps
set_at bs l i = write bs l (Bitmap.set (bitmap_at bs l) i)

abbrev pub unset_at : Bitmaps → ℕ → ℕ → Bitmaps
unset_at bs l i = write bs l (Bitmap.unset (bitmap_at bs l) i)

abbrev pub is_set_at : Bitmaps → ℕ → ℕ → Bool
is_set_at bs l i = Bitmap.is_set (bitmap_at bs l) i

unfoldable pub set_memory_range : BuddyAllocator → ℕ → ℕ → BuddyAllocator
set_memory_range a first last = record a { first_address = first; last_address = last }

-- `init<I>(words, data)`
unfoldable pub init_level : BuddyAllocator → ℕ → ℕ → List ℕ → BuddyAllocator
init_level a level words d = record a { bitmaps = write a.bitmaps level (Bitmap.init words d) }

-- `init()`: by default all blocks are free.
pub init : BuddyAllocator → BuddyAllocator
init a = record a { bitmaps = map Bitmap.set_all a.bitmaps }

pub level_size : ℕ → ℕ
unfolding pow
level_size level = pow 2 level

pub word_level_size : ℕ → ℕ
unfolding pow
word_level_size level = mul64 bits_per_word (pow 2 level)

pub level : ℕ → ℕ
level pages =
    if ltb 64 pages
    then 7
    else if ltb 32 pages
    then 6
    else if ltb 16 pages
    then 5
    else if ltb 8 pages
    then 4
    else if ltb 4 pages
    then 3
    else if ltb 2 pages
    then 2
    else if ltb 1 pages
    then 1
    else 0

-- The loop of `word_level`: `rounds` levels are left, `i` is the next one.
word_level_from : ℕ → ℕ → ℕ → ℕ → ℕ
word_level_from zero i size pages = levels
word_level_from (suc rounds) i size pages =
    let rest = word_level_from rounds (i + 1) (mul64 size 2) pages in
    if leb pages (mul64 size 64) then i else rest

pub word_level : ℕ → ℕ
unfolding word_level_from
word_level pages = word_level_from levels 0 1 pages

pub necessary_size : ℕ → ℕ
necessary_size pages =
    if leb pages max_block
    then mul64 (level_size (level pages)) page_unit
    else if leb pages (max_block * bits_per_word)
    then mul64 (word_level_size (word_level pages)) page_unit
    else 0

pub block_start : BuddyAllocator → ℕ → ℕ → ℕ
block_start a l index = add64 a.first_address (mul64 (mul64 index (level_size l)) page_unit)

pub get_block_index : BuddyAllocator → ℕ → ℕ → ℕ
get_block_index a address l = sub64 address a.first_address / mul64 (level_size l) page_unit

-- `for(i = start; i <= end; ++i) bitmaps[l].unset(i);`, `rounds` of them left.
pub unset_range : ℕ → ℕ → ℕ → Bitmaps → Bitmaps
unset_range zero i l bs = bs
unset_range (suc rounds) i l bs = unset_range rounds (i + 1) l (unset_at bs l i)

pub set_range : ℕ → ℕ → ℕ → Bitmaps → Bitmaps
set_range zero i l bs = bs
set_range (suc rounds) i l bs = set_range rounds (i + 1) l (set_at bs l i)

-- The loop of `taken_down` over the levels below `l`.
pub taken_down_from : ℕ → ℕ → ℕ → Bitmaps → Bitmaps
taken_down_from zero start end bs = bs
taken_down_from (suc l) start end bs =
    taken_down_from l (mul64 start 2) (add64 (mul64 end 2) 1)
      (unset_range (end + 1 - start) start l bs)

pub taken_down : ℕ → ℕ → Bitmaps → Bitmaps
taken_down start_level index bs =
    let start = mul64 index 2 in taken_down_from start_level start (add64 start 1) bs

pub free_down_from : ℕ → ℕ → ℕ → Bitmaps → Bitmaps
free_down_from zero start end bs = bs
free_down_from (suc l) start end bs =
    free_down_from l (mul64 start 2) (add64 (mul64 end 2) 1)
      (set_range (end + 1 - start) start l bs)

pub free_down : ℕ → ℕ → Bitmaps → Bitmaps
free_down start_level index bs =
    let start = mul64 index 2 in free_down_from start_level start (add64 start 1) bs

-- The loop of `taken_up`, from level `l` on.
pub taken_up_from : ℕ → ℕ → ℕ → Bitmaps → Bitmaps
taken_up_from zero l index bs = bs
taken_up_from (suc rounds) l index bs =
    taken_up_from rounds (l + 1) (index / 2) (unset_at bs l (index / 2))

pub taken_up : ℕ → ℕ → Bitmaps → Bitmaps
taken_up start_level index bs =
    taken_up_from (levels - (start_level + 1)) (start_level + 1) index bs

pub buddy_index : ℕ → ℕ
buddy_index index = if index % 2 == 0 then add64 index 1 else index - 1

-- The loop of `free_up`, from level `l` on; it stops at the first buddy that is not free.
pub free_up_from : ℕ → ℕ → ℕ → Bitmaps → Bitmaps
free_up_from zero l index bs = bs
free_up_from (suc rounds) l index bs =
    let rest = free_up_from rounds (l + 1) (index / 2) (set_at bs (l + 1) (index / 2)) in
    if is_set_at bs l (buddy_index index) then rest else bs

pub free_up : ℕ → ℕ → Bitmaps → Bitmaps
free_up start_level index bs = free_up_from (levels - (start_level + 1)) start_level index bs

pub mark_used : ℕ → ℕ → Bitmaps → Bitmaps
mark_used l index bs = taken_up l index (unset_at (taken_down l index bs) l index)

pub mark_free : ℕ → ℕ → Bitmaps → Bitmaps
mark_free l index bs = free_up l index (set_at (free_down l index bs) l index)

-- `for(b = 0; b < bits_per_word; ++b) mark_used(l, index + b);`, `rounds` of them left.
pub mark_used_word : ℕ → ℕ → ℕ → Bitmaps → Bitmaps
mark_used_word zero l index bs = bs
mark_used_word (suc rounds) l index bs =
    mark_used_word rounds l (add64 index 1) (mark_used l index bs)

pub mark_free_word : ℕ → ℕ → ℕ → Bitmaps → Bitmaps
mark_free_word zero l index bs = bs
mark_free_word (suc rounds) l index bs =
    mark_free_word rounds l (add64 index 1) (mark_free l index bs)

abbrev pub with_bitmaps : BuddyAllocator → Bitmaps → BuddyAllocator
with_bitmaps a bs = record a { bitmaps = bs }

-- The first branch of `allocate`: one block. The result is the address, 0 for a failure.
pub allocate_block : BuddyAllocator → ℕ → ℕ × BuddyAllocator
allocate_block a pages =
    let l = level pages in
    let index = Bitmap.set_bit (bitmap_at a.bitmaps l) in
    let address = block_start a l index in
    if index == npos
    then (0, a)
    else if leb a.last_address (add64 address (mul64 (level_size l) page_unit))
    then (0, a)
    else (address, with_bitmaps a (mark_used l index a.bitmaps))

-- The second branch: the 64 blocks of one word.
pub allocate_word : BuddyAllocator → ℕ → ℕ × BuddyAllocator
allocate_word a pages =
    let l = word_level pages in
    let index = Bitmap.set_word (bitmap_at a.bitmaps l) in
    let address = block_start a l index in
    if index == npos
    then (0, a)
    else if leb a.last_address (add64 address (mul64 (word_level_size l) page_unit))
    then (0, a)
    else (address, with_bitmaps a (mark_used_word bits_per_word l index a.bitmaps))

pub allocate : BuddyAllocator → ℕ → ℕ × BuddyAllocator
allocate a pages =
    if leb pages max_block
    then allocate_block a pages
    else if leb pages (max_block * bits_per_word)
    then allocate_word a pages
    else (0, a)

-- `free` takes the level of `level(pages)` in both branches.
pub free : BuddyAllocator → ℕ → ℕ → BuddyAllocator
free a address pages =
    let l = level pages in
    let index = get_block_index a address l in
    if ltb max_block pages
    then (if ltb (max_block * bits_per_word) pages
        then a
        else with_bitmaps a (mark_free_word bits_per_word l index a.bitmaps))
    else with_bitmaps a (mark_free l index a.bitmaps)
