-- ===== src/Buddy/Init.antt =====
-- kernel/include/buddy_allocator.hpp: the allocator after `init`.
use thor_os.Prelude.{
  ℕ, zero, suc, ◌+◌, ◌*◌, ◌^◌, ◌≤◌, ◌<◌, ◌≡◌, refl, ◌∙◌, arith, true, [], ◌∷◌, map, length,
  length-map,
}
use thor_os.Bitmap
use thor_os.Bitmap.{StaticBitmap}
use thor_os.Bitmap.Fill.{set_all-IsValid, is_set-set_all, words-set_all}
use thor_os.Buddy.{BuddyAllocator, Bitmaps, levels, page_unit, bitmap_at, is_set_at, init}
use thor_os.Buddy.Cells.{Shape, Starts}
use thor_os.Buddy.Pages.{is_free}
use thor_os.Buddy.Sound.{IsSound}

at-map :
    (f : StaticBitmap → StaticBitmap) (bs : Bitmaps) (l : ℕ)
    → l < length bs
    → bitmap_at (map f bs) l ≡ f (bitmap_at bs l)
at-map f [] l h = absurd (omega arith)
at-map f (x ∷ xs) zero h = refl
at-map f (x ∷ xs) (suc l) h = at-map f xs l (omega arith)

module _ {n : ℕ} {bs : Bitmaps} (s : Shape n bs) where
  at-init :
      (l : ℕ) → l < levels → bitmap_at (map Bitmap.set_all bs) l ≡ Bitmap.set_all (bitmap_at bs l)
  at-init l h = at-map Bitmap.set_all bs l (omega (arith, s.count))

  init-Shape : Shape n (map Bitmap.set_all bs)
  init-Shape = record {
    small = s.small;
    count = length-map bs Bitmap.set_all ∙ s.count;
    valid = λ l h. rw (at-init l h) (set_all-IsValid (s.valid l h));
    bounded = λ l h. rw (at-init l h, words-set_all (bitmap_at bs l)) (s.bounded l h);
    room = λ l i h p. rw (at-init l h, words-set_all (bitmap_at bs l)) (s.room l i h p);
  }

  all_set : (l i : ℕ) → l < levels → Starts n l i → is_set_at (map Bitmap.set_all bs) l i ≡ true
  all_set l i h p = rw (at-init l h) (is_set-set_all (s.valid l h) i (s.room l i h p))

-- Over bitmaps with room for the `n` managed pages, `init()` makes the allocator sound, with every
-- managed page free.
pub init-IsSound :
    (n : ℕ) (a : BuddyAllocator)
    → Shape n a.bitmaps
    → 0 < a.first_address
    → a.first_address + n * page_unit ≤ a.last_address
    → a.last_address < a.first_address + suc n * page_unit
    → a.last_address ≤ 2 ^ 62
    → IsSound n (init a) × ((u : ℕ) → u < n → is_free (init a).bitmaps u ≡ true)
unfolding init
init-IsSound n a s start covered whole high = (
  record {
    shape = init-Shape s;
    coherent = λ l c b starts h. all_set s l c (omega arith) starts;
    start = start;
    covered = covered;
    whole = whole;
    high = high;
  },
  λ u h. all_set s 0 u (omega arith) (omega arith),
)

pub init-range :
    (a : BuddyAllocator)
    → ((init a).first_address ≡ a.first_address) × ((init a).last_address ≡ a.last_address)
unfolding init
init-range a = (refl, refl)
