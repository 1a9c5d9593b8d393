-- ===== src/Bitmap/Laws.antt =====
-- kernel/include/bitmap.hpp: setting, clearing and testing single bits of a bitmap.
use thor_os.Prelude.{
  ℕ, zero, suc, ◌*◌, ◌/◌, ◌%◌, ◌^◌, ◌≤◌, ◌<◌, ◌≡◌, refl, arith, not, ◌&&◌, ◌||◌, List, [], ◌∷◌,
  ◌==◌, if◌then◌else◌, length, get_or, length-set, bit_and, bit_or,
}
use thor_os.Prelude.{set as write}
use thor_os.Word.{complement}
use thor_os.Word.Bits.{
  bit, bit-le, bit-bit_and, bit-bit_or, bit-pow, bit-complement, bit_and-pow, bit_and-le,
  bit_or-lt_pow, pow-pos, pow-lt_pow,
}
use thor_os.Bitmap.{StaticBitmap, bit_mask, is_set, set, unset}

abbrev pub AllWords : List ℕ → Type 0
AllWords [] = Unit {0}
AllWords (w ∷ ws) = (w < 2 ^ 64) × AllWords ws

-- The storage holds `words` words of 64 bits.
pub record IsValid (bm : StaticBitmap) : Type 0 where
  pub stored : bm.words ≤ length bm.storage
  pub small : AllWords bm.storage

abbrev pub InRange : StaticBitmap → ℕ → Type 0
InRange bm i = i < bm.words * 64

pub word-lt : (d : List ℕ) (i : ℕ) → AllWords d → get_or d i 0 < 2 ^ 64
word-lt [] i a = omega arith
word-lt (w ∷ ws) zero a = a.0
word-lt (w ∷ ws) (suc i) a = word-lt ws i a.1

pub write-AllWords : (d : List ℕ) (i v : ℕ) → v < 2 ^ 64 → AllWords d → AllWords (write d i v)
write-AllWords [] i v h a = a
write-AllWords (w ∷ ws) zero v h a = (h, a.1)
write-AllWords (w ∷ ws) (suc i) v h a = (a.0, write-AllWords ws i v h a.1)

pub get_or-write :
    (d : List ℕ) (i j v : ℕ)
    → i < length d
    → get_or (write d i v) j 0 ≡ (if i == j then v else get_or d j 0)
get_or-write [] i j v h = absurd (omega arith)
get_or-write (x ∷ xs) zero zero v h = refl
get_or-write (x ∷ xs) zero (suc j) v h = ground arith
get_or-write (x ∷ xs) (suc i) zero v h = ground arith
get_or-write (x ∷ xs) (suc i) (suc j) v h = ground (arith, get_or-write xs i j v)

digit_test : (d p : ℕ) → d ≤ 1 → 0 < p → not (d * p == 0) ≡ (d == 1)
digit_test zero p h pos = ground arith
digit_test (suc zero) p h pos = ground arith
digit_test (suc (suc d)) p h pos = absurd (omega arith)

-- `is_set` in terms of the digit of the word.
pub is_set-bit :
    (bm : StaticBitmap) (i : ℕ)
    → AllWords bm.storage
    → is_set bm i ≡ (bit (get_or bm.storage (i / 64) 0) (i % 64) == 1)
unfolding is_set
is_set-bit bm i a =
    let w : ℕ = get_or bm.storage (i / 64) 0 in
    rw (bit_and-pow 64 (i % 64) w (word-lt bm.storage (i / 64) a))
      (digit_test (bit w (i % 64)) (2 ^ (i % 64)) (bit-le w (i % 64)) (pow-pos (i % 64)))

mask-lt : (i : ℕ) → bit_mask i < 2 ^ 64
mask-lt i = pow-lt_pow (i % 64) 64 (omega arith)

module _ (bm : StaticBitmap) (i : ℕ) where
  -- The word that holds bit `i`.
  abbrev word : ℕ
  word = get_or bm.storage (i / 64) 0

  pub words-set : (set bm i).words ≡ bm.words
  unfolding set
  words-set = refl

  pub words-unset : (unset bm i).words ≡ bm.words
  unfolding unset
  words-unset = refl

module _ {bm : StaticBitmap} (i : ℕ) (v : IsValid bm) where
  word_small : word bm i < 2 ^ 64
  word_small = word-lt bm.storage (i / 64) v.small

  set_small : bit_or (word bm i) (bit_mask i) < 2 ^ 64
  set_small = bit_or-lt_pow 64 (word bm i) (bit_mask i) word_small (mask-lt i)

  unset_small : bit_and (word bm i) (complement (bit_mask i)) < 2 ^ 64
  unset_small =
      omega (arith, bit_and-le 64 (word bm i) (complement (bit_mask i)) word_small, word_small)

  pub set-IsValid : IsValid (set bm i)
  unfolding set
  set-IsValid = record {
    stored = rw (length-set bm.storage (i / 64) (bit_or (word bm i) (bit_mask i))) v.stored;
    small = write-AllWords bm.storage (i / 64) _ set_small v.small;
  }

  pub unset-IsValid : IsValid (unset bm i)
  unfolding unset
  unset-IsValid = record {
    stored =
        rw (length-set bm.storage (i / 64) (bit_and (word bm i) (complement (bit_mask i))))
          v.stored;
    small = write-AllWords bm.storage (i / 64) _ unset_small v.small;
  }

  module _ (j : ℕ) (within : InRange bm i) where
    set-word_at :
        get_or (set bm i).storage (j / 64) 0
        ≡ (if i / 64 == j / 64 then bit_or (word bm i) (bit_mask i) else word bm j)
    unfolding set
    set-word_at = get_or-write bm.storage (i / 64) (j / 64) _ (omega (arith, v.stored))

    unset-word_at :
        get_or (unset bm i).storage (j / 64) 0
        ≡ (if i / 64 == j / 64 then bit_and (word bm i) (complement (bit_mask i)) else word bm j)
    unfolding unset
    unset-word_at = get_or-write bm.storage (i / 64) (j / 64) _ (omega (arith, v.stored))

    -- Setting bit `i` makes it set and leaves every other bit as it was.
    pub is_set-set : is_set (set bm i) j ≡ (i == j || is_set bm j)
    is_set-set =
        rw (is_set-bit (set bm i) j set-IsValid.small, is_set-bit bm j v.small, set-word_at)
          (ground (
            arith,
            bit-bit_or (word bm i) (bit_mask i) (j % 64),
            bit-pow (i % 64) (j % 64),
            bit-le (word bm i) (j % 64),
          ))

    -- Clearing bit `i` makes it clear and leaves every other bit as it was.
    pub is_set-unset : is_set (unset bm i) j ≡ (not (i == j) && is_set bm j)
    is_set-unset =
        rw (is_set-bit (unset bm i) j unset-IsValid.small, is_set-bit bm j v.small, unset-word_at)
          (ground (
            arith,
            bit-bit_and (word bm i) (complement (bit_mask i)) (j % 64),
            bit-complement (bit_mask i) (j % 64) (mask-lt i) (omega arith),
            bit-pow (i % 64) (j % 64),
            bit-le (word bm i) (j % 64),
          ))
