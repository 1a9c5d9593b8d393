-- ===== src/Word/Shift.antt =====
-- `|` of parts that do not overlap and `&` with a mask of ones, as arithmetic.
use native.Mathlib.Nat.{pow-suc, div-div-eq-div-mul, mod-add-div, mul_assoc}
use thor_os.Prelude.{
  ℕ, zero, suc, ◌+◌, ◌-◌, ◌*◌, ◌/◌, ◌%◌, ◌^◌, ◌≤◌, ◌<◌, bit_and, bit_or, ◌≡◌, refl, sym, ap, ◌∙◌,
  arith,
}
use thor_os.Word.Digits.{bit_and_digit, bit_or_digit}
use thor_os.Word.Bits.{pow-pos}

bit_or-zero_le : (n x : ℕ) → x ≤ n → bit_or x 0 ≡ x
bit_or-zero_le zero x h = let e : x ≡ 0 = omega arith in rw e refl
bit_or-zero_le (suc n) x h = omega (arith, bit_or_digit x 0, bit_or-zero_le n (x / 2) (omega arith))

zero_or-le : (n x : ℕ) → x ≤ n → bit_or 0 x ≡ x
zero_or-le zero x h = let e : x ≡ 0 = omega arith in rw e refl
zero_or-le (suc n) x h = omega (arith, bit_or_digit 0 x, zero_or-le n (x / 2) (omega arith))

pub bit_or-zero_left : (x : ℕ) → bit_or 0 x ≡ x
bit_or-zero_left x = zero_or-le x x (omega arith)

double : (x k : ℕ) → x * 2 ^ suc k ≡ x * 2 ^ k * 2
double x k = grind (arith, pow-suc 2 k)

-- The low `k` bits and the bits above them.
pub bit_or-shift : (k x y : ℕ) → y < 2 ^ k → bit_or (x * 2 ^ k) y ≡ x * 2 ^ k + y
bit_or-shift zero x y h =
    let e : y ≡ 0 = omega arith in
    rw e (omega (arith, bit_or-zero_le (x * 1) (x * 1) (omega arith)))
bit_or-shift (suc k) x y h =
    let half : x * 2 ^ suc k / 2 ≡ x * 2 ^ k = omega (arith, double x k) in
    let ih : bit_or (x * 2 ^ suc k / 2) (y / 2) ≡ x * 2 ^ k + y / 2 =
      ap (λ (z : ℕ). bit_or z (y / 2)) half
      ∙ bit_or-shift k x (y / 2) (omega (arith, pow-suc 2 k)) in
    omega (arith, bit_or_digit (x * 2 ^ suc k) y, ih, double x k)

pub or-shift_right : (k x y : ℕ) → y < 2 ^ k → bit_or y (x * 2 ^ k) ≡ x * 2 ^ k + y
or-shift_right zero x y h =
    let e : y ≡ 0 = omega arith in rw e (omega (arith, bit_or-zero_left (x * 1)))
or-shift_right (suc k) x y h =
    let half : x * 2 ^ suc k / 2 ≡ x * 2 ^ k = omega (arith, double x k) in
    let ih : bit_or (y / 2) (x * 2 ^ suc k / 2) ≡ x * 2 ^ k + y / 2 =
      ap (λ (z : ℕ). bit_or (y / 2) z) half
      ∙ or-shift_right k x (y / 2) (omega (arith, pow-suc 2 k)) in
    omega (arith, bit_or_digit y (x * 2 ^ suc k), ih, double x k)

half_power : (k x : ℕ) → x / 2 ^ suc k ≡ x / 2 / 2 ^ k
half_power k x =
    ap (λ (n : ℕ). x / n) (omega (arith, pow-suc 2 k)) ∙ sym (div-div-eq-div-mul x 2 (2 ^ k))

low_bits : (k x : ℕ) → x / 2 % 2 ^ k * 2 + x % 2 ≡ x % 2 ^ suc k
low_bits k x =
    let whole : x % 2 ^ suc k + 2 ^ suc k * (x / 2 / 2 ^ k) ≡ x =
      ap (λ (q : ℕ). x % 2 ^ suc k + 2 ^ suc k * q) (sym (half_power k x))
      ∙ mod-add-div x (2 ^ suc k) in
    let part : x / 2 % 2 ^ k + 2 ^ k * (x / 2 / 2 ^ k) ≡ x / 2 = mod-add-div (x / 2) (2 ^ k) in
    let twice : 2 ^ suc k * (x / 2 / 2 ^ k) ≡ 2 * (2 ^ k * (x / 2 / 2 ^ k)) =
      ap (λ (n : ℕ). n * (x / 2 / 2 ^ k)) (omega (arith, pow-suc 2 k))
      ∙ mul_assoc 2 (2 ^ k) (x / 2 / 2 ^ k) in
    omega (arith, whole, part, twice)

bit_and-zero_le : (n z : ℕ) → z ≤ n → bit_and z 0 ≡ 0
bit_and-zero_le zero z h = let e : z ≡ 0 = omega arith in rw e refl
bit_and-zero_le (suc n) z h =
    omega (arith, bit_and_digit z 0, bit_and-zero_le n (z / 2) (omega arith))

-- A mask of `k` ones, and a mask that is `j` bits higher.
pub bit_and-ones : (k x : ℕ) → bit_and x (2 ^ k - 1) ≡ x % 2 ^ k
bit_and-ones zero x = omega (arith, bit_and-zero_le x x (omega arith))
bit_and-ones (suc k) x =
    let half : (2 ^ suc k - 1) / 2 ≡ 2 ^ k - 1 = omega (arith, pow-suc 2 k, pow-pos k) in
    let ih : bit_and (x / 2) ((2 ^ suc k - 1) / 2) ≡ x / 2 % 2 ^ k =
      ap (λ (m : ℕ). bit_and (x / 2) m) half ∙ bit_and-ones k (x / 2) in
    omega (arith, bit_and_digit x (2 ^ suc k - 1), ih, pow-suc 2 k, pow-pos k, low_bits k x)

pub bit_and-field : (j m x : ℕ) → bit_and x (m * 2 ^ j) ≡ bit_and (x / 2 ^ j) m * 2 ^ j
bit_and-field zero m x =
    let one : m * 1 ≡ m = omega arith in
    let same : x / 1 ≡ x = omega arith in rw (one, same) (omega arith)
bit_and-field (suc j) m x =
    let half : m * 2 ^ suc j / 2 ≡ m * 2 ^ j = omega (arith, double m j) in
    let ih : bit_and (x / 2) (m * 2 ^ suc j / 2) ≡ bit_and (x / 2 ^ suc j) m * 2 ^ j =
      ap (λ (z : ℕ). bit_and (x / 2) z) half
      ∙ bit_and-field j m (x / 2)
      ∙ ap (λ (z : ℕ). bit_and z m * 2 ^ j) (sym (half_power j x)) in
    omega
      (arith, bit_and_digit x (m * 2 ^ suc j), ih, double m j, double (bit_and (x / 2 ^ suc j) m) j)

pub bit_or-split :
    (k a b x y : ℕ)
    → x < 2 ^ k
    → y < 2 ^ k
    → bit_or (a * 2 ^ k + x) (b * 2 ^ k + y) ≡ bit_or a b * 2 ^ k + bit_or x y
bit_or-split zero a b x y h l =
    let e : x ≡ 0 = omega arith in
    let e' : y ≡ 0 = omega arith in
    let f : a * 1 + 0 ≡ a = omega arith in
    let f' : b * 1 + 0 ≡ b = omega arith in rw (e, e', f, f') (omega (arith, bit_or-zero_left 0))
bit_or-split (suc k) a b x y h l =
    let half : (a * 2 ^ suc k + x) / 2 ≡ a * 2 ^ k + x / 2 = omega (arith, double a k) in
    let half' : (b * 2 ^ suc k + y) / 2 ≡ b * 2 ^ k + y / 2 = omega (arith, double b k) in
    let ih : bit_or ((a * 2 ^ suc k + x) / 2) ((b * 2 ^ suc k + y) / 2)
        ≡ bit_or a b * 2 ^ k + bit_or (x / 2) (y / 2) =
      rw (half, half')
        (bit_or-split k a b (x / 2) (y / 2) (omega (arith, pow-suc 2 k))
          (omega (arith, pow-suc 2 k))) in
    omega (
      arith,
      bit_or_digit (a * 2 ^ suc k + x) (b * 2 ^ suc k + y),
      bit_or_digit x y,
      ih,
      double a k,
      double b k,
      double (bit_or a b) k,
    )

pub bit_or-zero_right : (x : ℕ) → bit_or x 0 ≡ x
bit_or-zero_right x = bit_or-zero_le x x (omega arith)

-- The same, with the upper part given by an equation.
pub bit_or_low : (k hi x y : ℕ) → x ≡ hi * 2 ^ k → y < 2 ^ k → bit_or x y ≡ x + y
bit_or_low k hi x y e h =
    ap (λ (z : ℕ). bit_or z y) e ∙ bit_or-shift k hi y h ∙ ap (λ (z : ℕ). z + y) (sym e)
