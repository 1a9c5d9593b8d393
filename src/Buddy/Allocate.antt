-- ===== src/Buddy/Allocate.antt =====
-- The first branch of `allocate`: what it answers to a request of up to 128 pages.
use thor_os.Prelude.{
  ℕ, suc, ◌+◌, ◌*◌, ◌^◌, ◌≤◌, ◌<◌, ◌≡◌, refl, sym, arith, true, false, ◌==◌, leb, inl, inr,
  Bool-cases,
}
use thor_os.Word.Bits.{pow-pos}
use thor_os.Bitmap
use thor_os.Bitmap.{StaticBitmap, npos}
use thor_os.Bitmap.Search.{set_bit-FirstSet, FirstSet}
use thor_os.Buddy.{
  Bitmaps, BuddyAllocator, levels, page_unit, max_block, bitmap_at, level, word_level, level_size,
  block_start, necessary_size, mul64, add64, allocate_block, is_set_at, mark_used, with_bitmaps,
}
use thor_os.Buddy.Cells.{Fits}
use thor_os.Buddy.Levels.{
  level_size-pow, word_level_size-pow, level-lt, level-Smallest, word_level-Smallest, pow_mono,
}
use thor_os.Buddy.Pages.{Takes, mark_used-Takes, pages_free}
use thor_os.Buddy.Sound.{IsSound, Allocated, Outcome, block_start_lem}

-- A block that the bitmap has starts below page 2 ^ 50.
pub in_bitmap : (words p r : ℕ) → words * 64 * p ≤ 2 ^ 50 → r < words * 64 → r * p + p ≤ 2 ^ 50
in_bitmap words p r bound h = go (words * 64) bound h
  where
    go : (t : ℕ) → t * p ≤ 2 ^ 50 → r < t → r * p + p ≤ 2 ^ 50
    go t b l = grind arith

pub not_npos : (index p : ℕ) → 0 < p → index * p + p ≤ 2 ^ 50 → (index == npos) ≡ false
not_npos index p pos bound = let small : index < 2 ^ 51 = grind arith in ground arith

pub lt_of_mul : (i j p : ℕ) → i * p < j * p → i < j
lt_of_mul i j p h = grind arith

pub necessary_size-block :
    (pages : ℕ) → pages ≤ max_block → necessary_size pages ≡ 2 ^ level pages * page_unit
unfolding necessary_size
necessary_size-block pages small =
    let size : 2 ^ level pages ≤ 128 = pow_mono (level pages) 7 (omega (arith, level-lt pages)) in
    ground (arith, level_size-pow (level pages))

pub necessary_size-word :
    (pages : ℕ)
    → max_block < pages
    → pages ≤ max_block * 64
    → necessary_size pages ≡ 64 * 2 ^ word_level pages * page_unit
unfolding necessary_size
necessary_size-word pages large small =
    let b = (word_level-Smallest pages small).0 in
    let size : 2 ^ word_level pages ≤ 128 = pow_mono (word_level pages) 7 (omega arith) in
    ground (arith, word_level_size-pow (word_level pages) b)

pub row_bound : (words p x : ℕ) → words * 64 * p ≤ 2 ^ 50 → x < words → (x * 64 + 64) * p ≤ 2 ^ 50
row_bound words p x bound h = go (words * 64) (x * 64 + 64) bound (omega arith)
  where
    go : (t r : ℕ) → t * p ≤ 2 ^ 50 → r ≤ t → r * p ≤ 2 ^ 50
    go t r b l = grind arith

module _ {n : ℕ} {a : BuddyAllocator} (s : IsSound n a) where
  pub high_start : a.first_address ≤ 2 ^ 62
  high_start = omega (arith, s.high, s.covered)

  -- The test of the end of a block of `size` pages that starts at page `from`.
  pub ends_inside :
      (from size : ℕ)
      → from ≤ 2 ^ 50
      → size ≤ 2 ^ 14
      → leb a.last_address (add64 (a.first_address + from * page_unit) (mul64 size page_unit))
        ≡ false
      → from + size ≤ n
  ends_inside from size f z h =
      let e : add64 (a.first_address + from * page_unit) (mul64 size page_unit)
          ≡ a.first_address + from * page_unit + size * page_unit =
        omega (arith, high_start) in
      omega (
        arith,
        s.whole,
        below a.last_address (a.first_address + from * page_unit + size * page_unit) (rw (← e) h),
      )
    where
      below : (x y : ℕ) → leb x y ≡ false → y < x
      below x y q = ground arith

  -- The allocator after taking pages.
  pub took-IsSound :
      {from to : ℕ} {cs : Bitmaps} → Takes n a.bitmaps from to cs → IsSound n (with_bitmaps a cs)
  took-IsSound t = record {
    shape = t.shape;
    coherent = t.coherent;
    start = s.start;
    covered = s.covered;
    whole = s.whole;
    high = s.high;
  }

  module _ (pages : ℕ) (small : pages ≤ max_block) (index : ℕ) where
    -- The level of the request, and its block `index`.
    abbrev lv : ℕ
    lv = level pages

    block_Allocated :
        index * 2 ^ lv + 2 ^ lv ≤ 2 ^ 50
        → is_set_at a.bitmaps lv index ≡ true
        → leb a.last_address (add64 (block_start a lv index) (mul64 (level_size lv) page_unit))
          ≡ false
        → Allocated n a pages
            (block_start a lv index, with_bitmaps a (mark_used lv index a.bitmaps))
    block_Allocated bound is_set test =
        let b : lv < levels = level-lt pages in
        let size : 2 ^ lv ≤ 128 = pow_mono lv 7 (omega arith) in
        let at : block_start a lv index ≡ a.first_address + index * 2 ^ lv * page_unit =
          block_start_lem a lv index (omega arith) high_start in
        let inside : index * 2 ^ lv + 2 ^ lv ≤ n =
          ends_inside (index * 2 ^ lv) (2 ^ lv) (omega arith) (omega arith)
            (rw (at, level_size-pow lv) at test) in
        let to : suc index * 2 ^ lv ≡ index * 2 ^ lv + 2 ^ lv = omega arith in
        let fits : Fits n lv index = rw to inside in
        let t = mark_used-Takes lv index s.shape s.coherent b fits in
        record {
          from = index * 2 ^ lv;
          size = 2 ^ lv;
          address = at;
          enough = (level-Smallest pages small).0;
          reserved = sym (necessary_size-block pages small);
          inside = inside;
          were_free = rw (← to) (pages_free lv index s.shape s.coherent b fits is_set);
          taken = rw (← to) t.pages;
          one_block = λ h. (index, refl, refl);
          sound = took-IsSound t;
          same_start = refl;
        }

  pub allocate_block-Outcome :
      (pages : ℕ) → pages ≤ max_block → Outcome n a pages (allocate_block a pages)
  unfolding allocate_block
  allocate_block-Outcome pages small = go (set_bit-FirstSet bm (s.shape.valid lv b))
    where
      lv : ℕ
      lv = level pages

      b : lv < levels
      b = level-lt pages

      bm : StaticBitmap
      bm = bitmap_at a.bitmaps lv

      index : ℕ
      index = Bitmap.set_bit bm

      go : FirstSet bm 0 bm.words index → Outcome n a pages (allocate_block a pages)
      go (inl (e, h)) = let t : (index == npos) ≡ true = ground arith in rw t (inl refl)
      go (inr (l, u, h, first)) =
          let bound : index * 2 ^ lv + 2 ^ lv ≤ 2 ^ 50 =
            in_bitmap bm.words (2 ^ lv) index (s.shape.bounded lv b) (omega arith) in
          let t : (index == npos) ≡ false = not_npos index (2 ^ lv) (pow-pos lv) bound in
          rw t
            (elim (Bool-cases (
              leb a.last_address
                (add64 (block_start a lv index) (mul64 (level_size lv) page_unit)))) [
                  | inl e ↦ rw e (inl refl)
                  | inr e ↦ rw e (inr (block_Allocated pages small index bound h e))
                ])
