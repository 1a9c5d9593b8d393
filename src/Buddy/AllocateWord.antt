-- ===== src/Buddy/AllocateWord.antt =====
-- The second branch of `allocate`, a word of 64 blocks, and `allocate` as a whole.
use thor_os.Prelude.{
  ℕ, suc, ◌+◌, ◌-◌, ◌*◌, ◌^◌, ◌≤◌, ◌<◌, ◌≡◌, refl, sym, ◌∙◌, arith, true, false, ◌==◌, leb,
  if◌then◌else◌, inl, inr, Bool-cases, ==_iff,
}
use thor_os.Word.Bits.{pow-pos}
use thor_os.Bitmap
use thor_os.Bitmap.{StaticBitmap, npos}
use thor_os.Bitmap.Search.{set_word-FirstFull, FirstFull, IsFullWord}
use thor_os.Buddy.{
  BuddyAllocator, levels, page_unit, max_block, bitmap_at, word_level, word_level_size, block_start,
  mul64, add64, allocate_word, allocate, is_set_at, mark_used_word, with_bitmaps,
}
use thor_os.Buddy.Cells.{Fits}
use thor_os.Buddy.Levels.{word_level_size-pow, word_level-Smallest, pow_mono}
use native.Mathlib.Nat.{le_trans}
use thor_os.Buddy.Down.{up}
use thor_os.Buddy.Pages.{up_covers, is_free, among, mark_used_word-Takes, pages_free}
use thor_os.Buddy.Sound.{IsSound, Allocated, Outcome, block_start_lem}
use thor_os.Buddy.Allocate.{
  not_npos, lt_of_mul, necessary_size-word, row_bound, high_start, ends_inside, took-IsSound,
  allocate_block-Outcome,
}

module _ {n : ℕ} {a : BuddyAllocator} (s : IsSound n a) where
  module _ (pages : ℕ) (large : max_block < pages) (small : pages ≤ max_block * 64) (x : ℕ) where
    -- The level of the request, and the word `x` of its bitmap.
    abbrev wl : ℕ
    wl = word_level pages

    -- The pages of a full word are free.
    word_free :
        wl < levels
        → (x * 64 + 64) * 2 ^ wl ≤ n
        → IsFullWord (bitmap_at a.bitmaps wl) x
        → (u : ℕ) → among (x * 64 * 2 ^ wl) ((x * 64 + 64) * 2 ^ wl) u ≡ true
        → is_free a.bitmaps u ≡ true
    word_free b inside full u h =
        let i : ℕ = up wl u in
        let here : among (i * 2 ^ wl) (suc i * 2 ^ wl) u ≡ true =
          sym (up_covers wl i u) ∙ (==_iff i i).1 refl in
        let i_low : x * 64 < suc i = lt_of_mul (x * 64) (suc i) (2 ^ wl) (ground arith) in
        let i_high : i < x * 64 + 64 = lt_of_mul i (x * 64 + 64) (2 ^ wl) (ground arith) in
        let at : x * 64 + (i - x * 64) ≡ i = omega arith in
        let set : is_set_at a.bitmaps wl i ≡ true = rw at at (full (i - x * 64) (omega arith)) in
        pages_free wl i s.shape s.coherent b (fits_of i i_high) set u here
      where
        mul_le : (p q r : ℕ) → p ≤ q → p * r ≤ q * r
        mul_le p q r h = grind arith

        fits_of : (i : ℕ) → i < x * 64 + 64 → Fits n wl i
        fits_of i h = le_trans (mul_le (suc i) (x * 64 + 64) (2 ^ wl) h) inside

    word_Allocated :
        (x * 64 + 64) * 2 ^ wl ≤ 2 ^ 50
        → IsFullWord (bitmap_at a.bitmaps wl) x
        → leb a.last_address
            (add64 (block_start a wl (x * 64)) (mul64 (word_level_size wl) page_unit))
          ≡ false
        → Allocated n a pages
            (block_start a wl (x * 64), with_bitmaps a (mark_used_word 64 wl (x * 64) a.bitmaps))
    word_Allocated bound full test =
        let smallest = word_level-Smallest pages small in
        let b : wl < levels = smallest.0 in
        let size : 2 ^ wl ≤ 128 = pow_mono wl 7 (omega arith) in
        let at : block_start a wl (x * 64) ≡ a.first_address + x * 64 * 2 ^ wl * page_unit =
          block_start_lem a wl (x * 64) (omega arith) (high_start s) in
        let to : (x * 64 + 64) * 2 ^ wl ≡ x * 64 * 2 ^ wl + 64 * 2 ^ wl = omega arith in
        let inside : x * 64 * 2 ^ wl + 64 * 2 ^ wl ≤ n =
          ends_inside s (x * 64 * 2 ^ wl) (64 * 2 ^ wl) (omega arith) (omega arith)
            (rw (at, word_level_size-pow wl b) at test) in
        let fits : (x * 64 + 64) * 2 ^ wl ≤ n = rw to inside in
        let t = mark_used_word-Takes wl b 64 (x * 64) s.shape s.coherent fits in
        record {
          from = x * 64 * 2 ^ wl;
          size = 64 * 2 ^ wl;
          address = at;
          enough = smallest.1;
          reserved = sym (necessary_size-word pages large small);
          inside = inside;
          were_free = rw (← to) (word_free b fits full);
          taken = rw (← to) t.pages;
          one_block = λ h. absurd (omega arith);
          sound = took-IsSound s t;
          same_start = refl;
        }

  allocate_word-Outcome :
      (pages : ℕ)
      → max_block < pages
      → pages ≤ max_block * 64
      → Outcome n a pages (allocate_word a pages)
  unfolding allocate_word
  allocate_word-Outcome pages large small =
      go (Bitmap.set_word bm) (set_word-FirstFull bm (s.shape.valid wl b))
    where
      wl : ℕ
      wl = word_level pages

      b : wl < levels
      b = (word_level-Smallest pages small).0

      bm : StaticBitmap
      bm = bitmap_at a.bitmaps wl

      answer : ℕ → ℕ × BuddyAllocator
      answer index =
          if index == npos
          then (0, a)
          else if leb a.last_address
              (add64 (block_start a wl index) (mul64 (word_level_size wl) page_unit))
          then (0, a)
          else (block_start a wl index, with_bitmaps a (mark_used_word 64 wl index a.bitmaps))

      found : (x : ℕ) → x < bm.words → IsFullWord bm x → Outcome n a pages (answer (x * 64))
      found x u full =
          let bound : (x * 64 + 64) * 2 ^ wl ≤ 2 ^ 50 =
            row_bound bm.words (2 ^ wl) x (s.shape.bounded wl b) u in
          let t : (x * 64 == npos) ≡ false =
            not_npos (x * 64) (2 ^ wl) (pow-pos wl) (omega arith) in
          rw t
            (elim (Bool-cases (
              leb a.last_address
                (add64 (block_start a wl (x * 64)) (mul64 (word_level_size wl) page_unit)))) [
                  | inl e ↦ rw e (inl refl)
                  | inr e ↦ rw e (inr (word_Allocated pages large small x bound full e))
                ])

      go : (r : ℕ) → FirstFull bm 0 bm.words r → Outcome n a pages (answer r)
      go r (inl (e, h)) = let t : (r == npos) ≡ true = ground arith in rw t (inl refl)
      go r (inr (x, e, l, u, full, h)) = rw e (found x (omega arith) full)

  -- `allocate` answers address 0 and changes nothing, or it answers the address of a run of pages
  -- that were all free, at least as many as were asked for and `necessary_size` bytes in all; these
  -- pages and no others are then no longer free, and the allocator is sound again.
  pub allocate-Outcome : (pages : ℕ) → Outcome n a pages (allocate a pages)
  unfolding allocate
  allocate-Outcome pages = elim (Bool-cases (leb pages max_block)) [
    | inl e ↦ rw e (allocate_block-Outcome s pages (ground arith))
    | inr e ↦ rw e (elim (Bool-cases (leb pages (max_block * 64))) [
      | inl e' ↦ rw e' (allocate_word-Outcome pages (ground arith) (ground arith))
      | inr e' ↦ rw e' (inl refl)
    ])
  ]
