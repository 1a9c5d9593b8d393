-- ===== src/Buddy/Arrays.antt =====
-- kernel/src/physical_allocator.cpp and kernel/src/virtual_allocator.cpp: the bitmaps that
-- `array_size` sizes have the room that the allocator needs.
use thor_os.Prelude.{
  ℕ, zero, suc, ◌+◌, ◌*◌, ◌/◌, ◌^◌, ◌≤◌, ◌<◌, ◌≡◌, arith, length, replicate, length-replicate,
}
use thor_os.Bitmap.{StaticBitmap}
use thor_os.Bitmap.Laws.{AllWords}
use thor_os.Buddy.{Bitmaps, levels, bitmap_at}
use thor_os.Buddy.Cells.{Shape}

-- The words of a bitmap with a bit for each block of `block` pages, and more.
abbrev pub words_for : ℕ → ℕ → ℕ
words_for space block = (space / (block * 4096) + 1) / 64 + 1

-- The storage that `data` gives has that many words of 64 bits.
pub record HasRoom (space block : ℕ) (b : StaticBitmap) : Type 0 where
  pub sized : b.words ≡ words_for space block
  pub stored : b.words ≤ length b.storage
  pub words64 : AllWords b.storage

pub replicate-AllWords : (k : ℕ) → AllWords (replicate k 0)
replicate-AllWords zero = tt
replicate-AllWords (suc k) = (omega arith, replicate-AllWords k)

pub zeros-HasRoom :
    (space block words : ℕ)
    → words ≡ words_for space block
    → HasRoom space block (record { words = words; storage = replicate words 0 })
zeros-HasRoom space block words e = record {
  sized = e;
  stored = omega (arith, length-replicate {0} {A = ℕ} words 0);
  words64 = replicate-AllWords words;
}

pub each_level :
    (P : ℕ → Type 0) → P 0 × P 1 × P 2 × P 3 × P 4 × P 5 × P 6 × P 7 → (l : ℕ) → l < levels → P l
each_level P h zero b = h.0
each_level P h (suc zero) b = h.1
each_level P h (suc (suc zero)) b = h.2
each_level P h (suc (suc (suc zero))) b = h.3
each_level P h (suc (suc (suc (suc zero)))) b = h.4
each_level P h (suc (suc (suc (suc (suc zero))))) b = h.5
each_level P h (suc (suc (suc (suc (suc (suc zero)))))) b = h.6
each_level P h (suc (suc (suc (suc (suc (suc (suc zero))))))) b = h.7
each_level P h (suc (suc (suc (suc (suc (suc (suc (suc l)))))))) b = absurd (omega arith)

words_bounded :
    (space l : ℕ) → space ≤ 2 ^ 60 → l < levels → words_for space (2 ^ l) * 64 * 2 ^ l ≤ 2 ^ 50
words_bounded space l h =
    each_level (λ l. words_for space (2 ^ l) * 64 * 2 ^ l ≤ 2 ^ 50)
      (
        omega arith,
        omega arith,
        omega arith,
        omega arith,
        omega arith,
        omega arith,
        omega arith,
        omega arith,
      )
      l

words_enough :
    (space n l : ℕ)
    → n * 4096 ≤ space
    → l < levels
    → (i : ℕ) → i * 2 ^ l < n
    → i < words_for space (2 ^ l) * 64
words_enough space n l h =
    each_level (λ l. (i : ℕ) → i * 2 ^ l < n → i < words_for space (2 ^ l) * 64)
      (
        (λ i p. omega arith),
        (λ i p. omega arith),
        (λ i p. omega arith),
        (λ i p. omega arith),
        (λ i p. omega arith),
        (λ i p. omega arith),
        (λ i p. omega arith),
        (λ i p. omega arith),
      )
      l

-- Eight bitmaps of these sizes have room for the pages of the managed space.
pub HasRoom-Shape :
    (space n : ℕ) (bs : Bitmaps)
    → space ≤ 2 ^ 60
    → n * 4096 ≤ space
    → length bs ≡ levels
    → ((l : ℕ) → l < levels → HasRoom space (2 ^ l) (bitmap_at bs l))
    → Shape n bs
HasRoom-Shape space n bs small fits count room = record {
  small = omega arith;
  count = count;
  valid = λ l h. record { stored = (room l h).stored; small = (room l h).words64 };
  bounded = λ l h. rw ((room l h).sized) (words_bounded space l small h);
  room = λ l i h p. rw ((room l h).sized) (words_enough space n l fits h i p);
}
