-- ===== src/Buddy/Tests.antt =====
-- Runs of the allocator, and its theorems at concrete allocators.
use thor_os.Prelude.{
  ℕ, zero, suc, ◌+◌, ◌*◌, ◌^◌, ◌≤◌, ◌<◌, ◌≡◌, ◌≢◌, refl, arith, true, ◌||◌, get_or, replicate,
  length-replicate,
}
use thor_os.Word.Bits.{pow-pos}
use thor_os.Bitmap.{StaticBitmap, init}
use thor_os.Bitmap.Laws.{AllWords}
use thor_os.Buddy.{
  BuddyAllocator, Bitmaps, levels, no_bitmap, bitmap_at, level, word_level, allocate, free,
  mark_used, get_block_index, necessary_size, max_block,
}
use thor_os.Buddy
use thor_os.Buddy.Levels.{pow_mono}
use thor_os.Buddy.Cells.{Shape}
use thor_os.Buddy.Pages.{is_free, among}
use thor_os.Buddy.Sound.{IsSound, Outcome}
use thor_os.Buddy.Init.{init-IsSound}
use thor_os.Buddy.AllocateWord.{allocate-Outcome}
use thor_os.Buddy.Success.{allocate_succeeds}
use thor_os.Buddy.Free.{free-allocate, free_gives_8192_pages}

-- Eight bitmaps of `words` empty words each.
uniform : ℕ → Bitmaps
uniform words = replicate 8 (record { words = words; storage = replicate words 0 })

zeros-AllWords : (k : ℕ) → AllWords (replicate k 0)
zeros-AllWords zero = tt
zeros-AllWords (suc k) = (omega arith, zeros-AllWords k)

at-replicate : (k l : ℕ) (b : StaticBitmap) → l < k → get_or (replicate k b) l no_bitmap ≡ b
at-replicate zero l b h = absurd (omega arith)
at-replicate (suc k) zero b h = refl
at-replicate (suc k) (suc l) b h = at-replicate k l b (omega arith)

block_le_page : (l i : ℕ) → i ≤ i * 2 ^ l
block_le_page l i = grind (arith, pow-pos l)

bounded_by : (w p : ℕ) → w ≤ 1024 → p ≤ 128 → w * 64 * p ≤ 2 ^ 50
bounded_by w p h k = grind arith

uniform-Shape : (words : ℕ) → words ≤ 1024 → Shape (words * 64) (uniform words)
unfolding uniform
uniform-Shape words h = record {
  small = omega arith;
  count = refl;
  valid = λ l b.
      rw (at-replicate 8 l (record { words = words; storage = replicate words 0 }) b) (record {
        stored = omega (arith, length-replicate {0} {A = ℕ} words 0);
        small = zeros-AllWords words;
      });
  bounded = λ l b.
      rw (at-replicate 8 l (record { words = words; storage = replicate words 0 }) b)
        (bounded_by words (2 ^ l) h (pow_mono l 7 (omega arith)));
  room = λ l i b p.
      rw (at-replicate 8 l (record { words = words; storage = replicate words 0 }) b)
        (omega (arith, block_le_page l i));
}

raw : ℕ → BuddyAllocator
raw words = record {
  bitmaps = uniform words;
  first_address = 4096;
  last_address = 4096 + words * 64 * 4096;
}

-- One bitmap word for each level: 64 pages from address 4096 on, all free.
small_allocator : BuddyAllocator
unfolding raw
small_allocator = Buddy.init (raw 1)

new-IsSound :
    IsSound 64 (Buddy.init (raw 1))
    × ((u : ℕ) → u < 64 → is_free (Buddy.init (raw 1)).bitmaps u ≡ true)
unfolding raw
new-IsSound =
    init-IsSound 64 (raw 1) (uniform-Shape 1 (omega arith)) (omega arith) (omega arith)
      (omega arith) (omega arith)

small-IsSound : IsSound 64 small_allocator
unfolding small_allocator
small-IsSound = new-IsSound.0

large_allocator : BuddyAllocator
unfolding raw
large_allocator = Buddy.init (raw 128)

large-IsSound : IsSound 8192 large_allocator
unfolding large_allocator raw
large-IsSound =
    (init-IsSound 8192 (raw 128) (uniform-Shape 128 (omega arith)) (omega arith) (omega arith)
      (omega arith) (omega arith)).0

level_runs : (level 1 ≡ 0) × (level 2 ≡ 1) × (level 5 ≡ 3) × (level 128 ≡ 7)
unfolding level
level_runs = (refl, refl, refl, refl)

-- The first request is answered by the first block that is large enough.
allocate_runs : (allocate small_allocator 3).0 ≡ 4096
unfolding small_allocator raw uniform Buddy.init allocate Buddy.allocate_block level
    Buddy.block_start Buddy.level_size thor_os.Bitmap.set_bit thor_os.Bitmap.set_all
allocate_runs = refl

allocate-Outcome_example : Outcome 64 small_allocator 3 (allocate small_allocator 3)
allocate-Outcome_example = allocate-Outcome small-IsSound 3

three-ne-zero : (allocate small_allocator 3).0 ≢ 0
three-ne-zero = rw allocate_runs (omega arith)

free-allocate_example :
    IsSound 64 (free (allocate small_allocator 3).1 (allocate small_allocator 3).0 3)
    × ((u : ℕ)
        → is_free (free (allocate small_allocator 3).1 (allocate small_allocator 3).0 3).bitmaps u
          ≡ is_free small_allocator.bitmaps u)
free-allocate_example = free-allocate 64 small_allocator 3 small-IsSound (omega arith) three-ne-zero

first_block_free : is_free small_allocator.bitmaps 0 ≡ true
unfolding small_allocator
first_block_free = new-IsSound.1 0 (omega arith)

allocate_succeeds_example : (allocate small_allocator 1).0 ≢ 0
unfolding level
allocate_succeeds_example =
    allocate_succeeds 64 small_allocator 1 0 small-IsSound (omega arith) first_block_free
      (omega arith)

first_index : get_block_index large_allocator 4096 7 ≡ 0
unfolding large_allocator raw Buddy.init get_block_index Buddy.level_size
first_index = refl

free_gives_8192_pages_example :
    let from = get_block_index large_allocator 4096 7 * 128 in
    ((u : ℕ)
      → is_free (free large_allocator 4096 129).bitmaps u
        ≡ (among from (from + 8192) u || is_free large_allocator.bitmaps u))
    × (word_level 129 < 7 → necessary_size 129 < 8192 * 4096)
free_gives_8192_pages_example =
    free_gives_8192_pages large-IsSound 129 4096 (omega arith) (omega arith)
      (rw first_index (omega arith))
