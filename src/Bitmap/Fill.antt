-- ===== src/Bitmap/Fill.antt =====
-- kernel/include/bitmap.hpp: `set_all` and `clear_all`, which write every word.
use thor_os.Prelude.{
  ℕ, zero, suc, ◌+◌, ◌/◌, ◌%◌, ◌^◌, ◌≤◌, ◌<◌, ◌≡◌, refl, arith, true, false, ◌&&◌, List,
  if◌then◌else◌, ltb, leb, length, get_or, length-set,
}
use thor_os.Prelude.{set as write}
use thor_os.Word.{all_ones}
use thor_os.Word.Bits.{bit-ones, bit-zero}
use thor_os.Bitmap.{StaticBitmap, is_set, fill_from, set_all, clear_all}
use thor_os.Bitmap.Laws.{AllWords, IsValid, InRange, write-AllWords, get_or-write, is_set-bit}

length-fill_from : (rounds i v : ℕ) (d : List ℕ) → length (fill_from rounds i v d) ≡ length d
unfolding fill_from
length-fill_from zero i v d = refl
length-fill_from (suc rounds) i v d =
    omega (arith, length-fill_from rounds (i + 1) v (write d i v), length-set {0} d i v)

fill_from-AllWords :
    (rounds i v : ℕ) (d : List ℕ) → v < 2 ^ 64 → AllWords d → AllWords (fill_from rounds i v d)
unfolding fill_from
fill_from-AllWords zero i v d h a = a
fill_from-AllWords (suc rounds) i v d h a =
    fill_from-AllWords rounds (i + 1) v (write d i v) h (write-AllWords d i v h a)

get_or-fill_from :
    (rounds i v j : ℕ) (d : List ℕ)
    → i + rounds ≤ length d
    → get_or (fill_from rounds i v d) j 0
      ≡ (if leb i j && ltb j (i + rounds) then v else get_or d j 0)
unfolding fill_from
get_or-fill_from zero i v j d h = ground arith
get_or-fill_from (suc rounds) i v j d h = ground (
  arith,
  get_or-fill_from rounds (i + 1) v j (write d i v),
  length-set d i v,
  get_or-write d i j v (omega arith),
)

pub words-set_all : (bm : StaticBitmap) → (set_all bm).words ≡ bm.words
unfolding set_all
words-set_all bm = refl

module _ {bm : StaticBitmap} (v : IsValid bm) where
  pub set_all-IsValid : IsValid (set_all bm)
  unfolding set_all
  set_all-IsValid = record {
    stored = rw (length-fill_from bm.words 0 all_ones bm.storage) v.stored;
    small = fill_from-AllWords bm.words 0 all_ones bm.storage (omega arith) v.small;
  }

  pub clear_all-IsValid : IsValid (clear_all bm)
  unfolding clear_all
  clear_all-IsValid = record {
    stored = rw (length-fill_from bm.words 0 0 bm.storage) v.stored;
    small = fill_from-AllWords bm.words 0 0 bm.storage (omega arith) v.small;
  }

  filled :
      (value j : ℕ)
      → InRange bm j
      → get_or (fill_from bm.words 0 value bm.storage) (j / 64) 0 ≡ value
  filled value j within = ground (
    arith,
    v.stored,
    get_or-fill_from bm.words 0 value (j / 64) bm.storage,
    let q : j / 64 < bm.words = omega arith in q,
  )

  -- After `set_all` every bit of the bitmap is set.
  pub is_set-set_all : (j : ℕ) → InRange bm j → is_set (set_all bm) j ≡ true
  unfolding set_all
  is_set-set_all j within =
      rw (is_set-bit (set_all bm) j set_all-IsValid.small)
        (unfold set_all in rw (filled all_ones j within, bit-ones 64 (j % 64) (omega arith)))

  -- After `clear_all` no bit of the bitmap is set.
  pub is_set-clear_all : (j : ℕ) → InRange bm j → is_set (clear_all bm) j ≡ false
  unfolding clear_all
  is_set-clear_all j within =
      rw (is_set-bit (clear_all bm) j clear_all-IsValid.small)
        (rw (filled 0 j within, bit-zero (j % 64)))
