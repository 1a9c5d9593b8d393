-- ===== src/Buddy/Success.antt =====
-- kernel/include/buddy_allocator.hpp: when `allocate` finds a block.
use thor_os.Prelude.{
  ℕ, suc, ◌+◌, ◌*◌, ◌^◌, ◌≤◌, ◌<◌, ◌≡◌, ◌≢◌, arith, true, false, ◌==◌, leb, inl, inr,
}
use native.Mathlib.Decide.{dec_lt}
use thor_os.Word.Bits.{pow-pos}
use thor_os.Bitmap
use thor_os.Bitmap.{StaticBitmap, npos}
use thor_os.Bitmap.Search.{set_bit-FirstSet}
use thor_os.Buddy.{
  BuddyAllocator, levels, page_unit, max_block, bitmap_at, level, block_start, mul64, add64,
  allocate_block, allocate, is_set_at,
}
use thor_os.Buddy.Levels.{level_size-pow, level-lt, pow_mono}
use thor_os.Buddy.Sound.{IsSound, block_start_lem}
use thor_os.Buddy.Allocate.{in_bitmap, not_npos, high_start}

below_mul : (r i p n : ℕ) → r ≤ i → suc i * p < n → suc r * p < n
below_mul r i p n h k = grind arith

module _ {n : ℕ} {a : BuddyAllocator} (s : IsSound n a) (pages : ℕ)
    (small : pages ≤ max_block) where
  abbrev lv : ℕ
  lv = level pages

  abbrev bm : StaticBitmap
  bm = bitmap_at a.bitmaps lv

  abbrev index : ℕ
  index = Bitmap.set_bit bm

  module _ (i : ℕ) (free_block : is_set_at a.bitmaps lv i ≡ true) (fits : suc i * 2 ^ lv < n) where
    found_index : index < bm.words * 64 × (index ≤ i)
    found_index = elim (set_bit-FirstSet bm (s.shape.valid lv (level-lt pages))) [
      | inl (e, h) ↦ absurd (not_true i (h i (omega arith) in_words))
      | inr (l, u, h, first) ↦ (
        omega arith,
        elim (dec_lt i index) [
          | yes p ↦ absurd (not_true i (first i (omega arith) p))
          | no p ↦ omega arith
        ],
      )
    ]
      where
        not_true : (j : ℕ) → is_set_at a.bitmaps lv i ≡ false → ⊥
        not_true j e = cc

        in_words : i < (0 + bm.words) * 64
        in_words = omega (arith, s.shape.room lv i (level-lt pages) (omega arith))

    block_succeeds : (allocate_block a pages).0 ≢ 0
    unfolding allocate_block
    block_succeeds =
        let b : lv < levels = level-lt pages in
        let size : 2 ^ lv ≤ 128 = pow_mono lv 7 (omega arith) in
        let bound : index * 2 ^ lv + 2 ^ lv ≤ 2 ^ 50 =
          in_bitmap bm.words (2 ^ lv) index (s.shape.bounded lv b) found_index.0 in
        let t : (index == npos) ≡ false = not_npos index (2 ^ lv) (pow-pos lv) bound in
        let at : block_start a lv index ≡ a.first_address + index * 2 ^ lv * page_unit =
          block_start_lem a lv index (omega arith) (high_start s) in
        let fits' : suc index * 2 ^ lv < n = below_mul index i (2 ^ lv) n found_index.1 fits in
        let e : add64 (a.first_address + index * 2 ^ lv * page_unit) (mul64 (2 ^ lv) page_unit)
            ≡ a.first_address + index * 2 ^ lv * page_unit + 2 ^ lv * page_unit =
          omega (arith, high_start s) in
        let t' : leb a.last_address
              (a.first_address + index * 2 ^ lv * page_unit + 2 ^ lv * page_unit)
            ≡ false =
          not_leb a.last_address (a.first_address + index * 2 ^ lv * page_unit + 2 ^ lv * page_unit)
            (omega (arith, s.covered)) in
        rw (t, at, level_size-pow lv, e, t') (omega (arith, s.start))
      where
        not_leb : (x y : ℕ) → y < x → leb x y ≡ false
        not_leb x y h = ground arith

-- `allocate` answers an address to a request of up to 128 pages whenever a block of the level of
-- the request is free that ends before the last managed page.
pub allocate_succeeds :
    (n : ℕ) (a : BuddyAllocator) (pages i : ℕ)
    → IsSound n a
    → pages ≤ max_block
    → is_set_at a.bitmaps (level pages) i ≡ true
    → suc i * 2 ^ level pages < n
    → (allocate a pages).0 ≢ 0
unfolding allocate
allocate_succeeds n a pages i s small h fits =
    let t : leb pages max_block ≡ true = ground arith in
    rw t (block_succeeds s pages small i h fits)
