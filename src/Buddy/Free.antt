-- ===== src/Buddy/Free.antt =====
-- kernel/include/buddy_allocator.hpp: both branches of `free`, as changes of the set of free pages.
use thor_os.Prelude.{
  ℕ, suc, ◌+◌, ◌*◌, ◌^◌, ◌≤◌, ◌<◌, ◌≡◌, ◌≢◌, ap, arith, true, false, ◌||◌, ltb, inl, inr, refl,
  Bool-cases,
}
use thor_os.Buddy.{
  Bitmaps, BuddyAllocator, page_unit, max_block, level, word_level, block_start, get_block_index,
  necessary_size, allocate, free, mark_free, with_bitmaps,
}
use thor_os.Buddy.Cells.{Fits}
use thor_os.Buddy.Levels.{level-lt, pow_mono}
use thor_os.Buddy.Pages.{is_free, among, Gives, mark_free-Gives, mark_free_word-Gives}
use thor_os.Buddy.Sound.{IsSound, Allocated, block_start_lem, get_block_index-block_start}
use thor_os.Buddy.Allocate.{high_start, necessary_size-word}
use thor_os.Buddy.AllocateWord.{allocate-Outcome}

module _ {n : ℕ} {a : BuddyAllocator} (s : IsSound n a) where
  gave-IsSound :
      {from to : ℕ} {cs : Bitmaps} → Gives n a.bitmaps from to cs → IsSound n (with_bitmaps a cs)
  gave-IsSound t = record {
    shape = t.shape;
    coherent = t.coherent;
    start = s.start;
    covered = s.covered;
    whole = s.whole;
    high = s.high;
  }

  -- Freeing one block by its address.
  free_block :
      (pages i : ℕ)
      → pages ≤ max_block
      → Fits n (level pages) i
      → free a (block_start a (level pages) i) pages
        ≡ with_bitmaps a (mark_free (level pages) i a.bitmaps)
  unfolding free
  free_block pages i small fits =
      let t : ltb max_block pages ≡ false = ground arith in
      let bound : i * 2 ^ level pages ≤ 2 ^ 50 = omega (arith, s.covered, s.high) in
      rw (t, get_block_index-block_start a (level pages) i bound (high_start s) (level-lt pages))

  -- `free` at the address of a block, with a size that goes to the level of the block, frees the
  -- pages of the block and no others.
  pub free-Gives :
      (pages i : ℕ)
      → pages ≤ max_block
      → Fits n (level pages) i
      → IsSound n (free a (block_start a (level pages) i) pages)
        × ((u : ℕ)
            → is_free (free a (block_start a (level pages) i) pages).bitmaps u
              ≡ (among (i * 2 ^ level pages) (suc i * 2 ^ level pages) u || is_free a.bitmaps u))
  free-Gives pages i small fits =
      let t = mark_free-Gives (level pages) i s.shape s.coherent (level-lt pages) fits in
      rw (free_block pages i small fits) (gave-IsSound t, t.pages)

  -- The second branch of `free`, as a change of the set of free pages.
  large_free :
      (pages address : ℕ)
      → max_block < pages
      → pages ≤ max_block * 64
      → (get_block_index a address 7 + 64) * 2 ^ 7 ≤ n
      → Gives n a.bitmaps
          (get_block_index a address 7 * 2 ^ 7)
          ((get_block_index a address 7 + 64) * 2 ^ 7)
          (free a address pages).bitmaps
  unfolding free level
  large_free pages address large small fits =
      let t₁ : ltb max_block pages ≡ true = ground arith in
      let t₂ : ltb (max_block * 64) pages ≡ false = ground arith in
      let t₃ : ltb 64 pages ≡ true = ground arith in
      rw (t₁, t₂, t₃)
        (mark_free_word-Gives 7 (omega arith) 64 (get_block_index a address 7) s.shape s.coherent
          fits)

  -- Freeing a request of 129 to 8192 pages frees 8192 pages, from the start of the block of 128
  -- pages that holds the address, and leaves the other pages as they were; `allocate` had reserved
  -- fewer bytes than these pages have when the request went to a level below 7. The request has
  -- more than `max_block` and at most 64 times as many pages, and the 8192 pages from there must all
  -- be managed.
  pub free_gives_8192_pages :
      (pages address : ℕ)
      → max_block < pages
      → pages ≤ max_block * 64
      → (get_block_index a address 7 + 64) * 128 ≤ n
      → let from = get_block_index a address 7 * 128 in
        ((u : ℕ)
          → is_free (free a address pages).bitmaps u
            ≡ (among from (from + 8192) u || is_free a.bitmaps u))
        × (word_level pages < 7 → necessary_size pages < 8192 * page_unit)
  free_gives_8192_pages pages address large small fits =
      let q : get_block_index a address 7 * 128 + 8192 ≡ (get_block_index a address 7 + 64) * 128 =
        omega arith in
      (
        rw q (large_free pages address large small fits).pages,
        λ h. omega (
          arith,
          necessary_size-word pages large small,
          pow_mono (word_level pages) 6 (omega arith),
        ),
      )

undone :
    {n : ℕ} {a : BuddyAllocator} (pages : ℕ) (r : ℕ × BuddyAllocator)
    → IsSound n a
    → pages ≤ max_block
    → Allocated n a pages r
    → (IsSound n (free r.1 r.0 pages))
      × ((u : ℕ) → is_free (free r.1 r.0 pages).bitmaps u ≡ is_free a.bitmaps u)
undone {n} {a} pages (addr, b) s small al =
    let (i, at, size) = al.one_block small in
    let l : ℕ = level pages in
    let inside : i * 2 ^ l + 2 ^ l ≤ n = omega (arith, al.inside) in
    let bound : i * 2 ^ l ≤ 2 ^ 50 = omega (arith, s.covered, s.high) in
    let fits : Fits n l i = omega arith in
    let address : addr ≡ block_start b l i =
      omega (arith, al.address, al.same_start, block_start_lem b l i bound (high_start al.sound)) in
    let g = free-Gives al.sound pages i small fits in
    rw address (g.0, λ u. ground (arith, g.1 u, al.taken u, al.were_free u))

-- `free` undoes `allocate`: after a request of up to 128 pages that is answered by an address,
-- freeing that address with the same size leaves the allocator sound, with the same pages free.
pub free-allocate :
    (n : ℕ) (a : BuddyAllocator) (pages : ℕ)
    → IsSound n a
    → pages ≤ max_block
    → (allocate a pages).0 ≢ 0
    → let (address, b) = allocate a pages in
      IsSound n (free b address pages)
      × ((u : ℕ) → is_free (free b address pages).bitmaps u ≡ is_free a.bitmaps u)
free-allocate n a pages s small ne = elim (allocate-Outcome s pages) [
  | inl e ↦ absurd (ne (ap (λ (r : ℕ × BuddyAllocator). r.0) e))
  | inr al ↦ undone pages (allocate a pages) s small al
]

pub first_address-free :
    (a : BuddyAllocator) (address pages : ℕ)
    → (free a address pages).first_address ≡ a.first_address
unfolding free
first_address-free a address pages = elim (Bool-cases (ltb max_block pages)) [
  | inl e ↦
      rw e (elim (Bool-cases (ltb (max_block * 64) pages)) [
        | inl e' ↦ rw e' refl
        | inr e' ↦ rw e' refl
      ])
  | inr e ↦ rw e refl
]
