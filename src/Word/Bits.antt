-- ===== src/Word/Bits.antt =====
-- The single bits of a word under `|`, `&`, `~` and `1 << j`.
use native.Mathlib.Nat.{pow-suc, one-le-pow}
use thor_os.Prelude.{
  ℕ, zero, suc, ◌-◌, ◌*◌, ◌/◌, ◌%◌, ◌^◌, ◌≤◌, ◌<◌, min, max, bit_and, bit_or, ◌≡◌, refl, ap, arith,
  ◌==◌, if◌then◌else◌,
}
use thor_os.Word.{complement}
use thor_os.Word.Digits.{bit_and_digit, bit_or_digit, zero-bit_and}

-- Bit `k` of `w`, as 0 or 1.
pub bit : ℕ → ℕ → ℕ
bit w zero = w % 2
bit w (suc k) = bit (w / 2) k

pub bit-le : (w k : ℕ) → bit w k ≤ 1
unfolding bit
bit-le w zero = omega arith
bit-le w (suc k) = bit-le (w / 2) k

pub bit-zero : (k : ℕ) → bit 0 k ≡ 0
unfolding bit
bit-zero zero = refl
bit-zero (suc k) = bit-zero k

pub bit-bit_and : (a b k : ℕ) → bit (bit_and a b) k ≡ min (bit a k) (bit b k)
unfolding bit
bit-bit_and a b zero = omega (arith, bit_and_digit a b)
bit-bit_and a b (suc k) =
    let e : bit_and a b / 2 ≡ bit_and (a / 2) (b / 2) = omega (arith, bit_and_digit a b) in
    rw e (bit-bit_and (a / 2) (b / 2) k)

pub bit-bit_or : (a b k : ℕ) → bit (bit_or a b) k ≡ max (bit a k) (bit b k)
unfolding bit
bit-bit_or a b zero = omega (arith, bit_or_digit a b)
bit-bit_or a b (suc k) =
    let e : bit_or a b / 2 ≡ bit_or (a / 2) (b / 2) = omega (arith, bit_or_digit a b) in
    rw e (bit-bit_or (a / 2) (b / 2) k)

pub bit-pow : (j k : ℕ) → bit (2 ^ j) k ≡ (if j == k then 1 else 0)
unfolding bit
bit-pow zero zero = refl
bit-pow zero (suc k) = ground (arith, bit-zero k)
bit-pow (suc j) zero = ground (arith, pow-suc 2 j)
bit-pow (suc j) (suc k) =
    let e : 2 ^ suc j / 2 ≡ 2 ^ j = omega (arith, pow-suc 2 j) in rw e (ground (arith, bit-pow j k))

-- Below bit `n`, the complement in `n` bits flips each bit.
flip_bit : (n m k : ℕ) → m < 2 ^ n → k < n → bit (2 ^ n - 1 - m) k ≡ 1 - bit m k
unfolding bit
flip_bit zero m k h l = absurd (omega arith)
flip_bit (suc n) m zero h l = omega (arith, pow-suc 2 n)
flip_bit (suc n) m (suc k) h l =
    let e : (2 ^ suc n - 1 - m) / 2 ≡ 2 ^ n - 1 - m / 2 = omega (arith, pow-suc 2 n) in
    rw e (flip_bit n (m / 2) k (omega (arith, pow-suc 2 n)) (omega arith))

pub bit-complement : (m k : ℕ) → m < 2 ^ 64 → k < 64 → bit (complement m) k ≡ 1 - bit m k
bit-complement m k h l = flip_bit 64 m k h l

bit_and-zero : (j w : ℕ) → w < 2 ^ j → bit_and w 0 ≡ 0
bit_and-zero zero w h = let e : w ≡ 0 = omega arith in rw e
bit_and-zero (suc j) w h =
    omega (arith, bit_and_digit w 0, bit_and-zero j (w / 2) (omega (arith, pow-suc 2 j)))

-- `w & (1 << j)` is zero exactly when bit `j` is.
pub bit_and-pow : (n j w : ℕ) → w < 2 ^ n → bit_and w (2 ^ j) ≡ bit w j * 2 ^ j
unfolding bit
bit_and-pow n zero w h = omega (arith, bit_and_digit w 1, bit_and-zero n (w / 2) (omega arith))
bit_and-pow n (suc j) w h =
    let e : 2 ^ suc j / 2 ≡ 2 ^ j = omega (arith, pow-suc 2 j) in
    let step : bit_and w (2 ^ suc j) ≡ bit_and (w / 2) (2 ^ suc j / 2) * 2 =
      omega (arith, bit_and_digit w (2 ^ suc j), pow-suc 2 j) in
    rw step (
      rw e (
        omega (
          arith,
          bit_and-pow n j (w / 2) (omega arith),
          ap (λ (t : ℕ). bit (w / 2) j * t) (pow-suc 2 j),
        )))

pub bit_and-le : (n a b : ℕ) → a < 2 ^ n → bit_and a b ≤ a
bit_and-le zero a b h = let e : a ≡ 0 = omega arith in rw e (omega (arith, zero-bit_and b))
bit_and-le (suc n) a b h =
    omega (arith, bit_and_digit a b, bit_and-le n (a / 2) (b / 2) (omega (arith, pow-suc 2 n)))

pub bit_or-lt_pow : (n a b : ℕ) → a < 2 ^ n → b < 2 ^ n → bit_or a b < 2 ^ n
bit_or-lt_pow zero a b h k =
    let e : a ≡ 0 = omega arith in let e' : b ≡ 0 = omega arith in rw (e, e') (omega arith)
bit_or-lt_pow (suc n) a b h k = omega (
  arith,
  bit_or_digit a b,
  pow-suc 2 n,
  bit_or-lt_pow n (a / 2) (b / 2) (omega (arith, pow-suc 2 n)) (omega (arith, pow-suc 2 n)),
)

pub pow-pos : (k : ℕ) → 0 < 2 ^ k
pow-pos k = one-le-pow k 2 (omega arith)

pub pow-lt_pow : (j n : ℕ) → j < n → 2 ^ j < 2 ^ n
pow-lt_pow zero (suc n) h = omega (arith, pow-suc 2 n, pow-pos n)
pow-lt_pow (suc j) (suc n) h = omega (arith, pow-suc 2 n, pow-suc 2 j, pow-lt_pow j n (omega arith))
pow-lt_pow j zero h = absurd (omega arith)

-- A word below `2 ^ n` with no bit set is zero.
pub zero_of_bits : (n w : ℕ) → w < 2 ^ n → ((k : ℕ) → k < n → bit w k ≡ 0) → w ≡ 0
unfolding bit
zero_of_bits zero w h none_set = omega arith
zero_of_bits (suc n) w h none_set = omega (
  arith,
  none_set 0 (omega arith),
  zero_of_bits n (w / 2) (omega (arith, pow-suc 2 n)) (λ k l. none_set (suc k) (omega arith)),
)

pub bit-ones : (n k : ℕ) → k < n → bit (2 ^ n - 1) k ≡ 1
bit-ones n k l =
    let e : 2 ^ n - 1 - 0 ≡ 2 ^ n - 1 = omega arith in
    rw (← e) (omega (arith, flip_bit n 0 k (pow-pos n) l, bit-zero k))

-- A word below `2 ^ n` with every bit set is `2 ^ n - 1`.
pub ones_of_bits : (n w : ℕ) → w < 2 ^ n → ((k : ℕ) → k < n → bit w k ≡ 1) → w ≡ 2 ^ n - 1
unfolding bit
ones_of_bits zero w h all_set = omega arith
ones_of_bits (suc n) w h all_set = omega (
  arith,
  pow-suc 2 n,
  all_set 0 (omega arith),
  ones_of_bits n (w / 2) (omega (arith, pow-suc 2 n)) (λ k l. all_set (suc k) (omega arith)),
)
