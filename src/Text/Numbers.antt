-- ===== src/Text/Numbers.antt =====
-- tstl/include/string.hpp: printing a number and reading it back.
use mathlib.Core.List.{reverse, reverse-reverse, reverse-cons}
use native.Mathlib.Nat.{pow-suc, one-le-pow, mul_comm}
use thor_os.Prelude.{
  ℕ, zero, suc, ◌+◌, ◌-◌, ◌*◌, ◌/◌, ◌%◌, ◌^◌, ◌≤◌, ◌<◌, ◌≡◌, ◌≢◌, refl, ◌∙◌, ap, arith, false, List,
  [], ◌∷◌, ◌++◌, ◌==◌, ltb, length, length-append, Bool-cases, inl, inr,
}
use thor_os.Text.{
  Text, digit_value, parse_back, parse, count_digits, digits, fill_buffer, to_string, atoui_back,
  atoui,
}

digit_value-digit : (d : ℕ) → d < 10 → digit_value (b'0' + d) ≡ d
unfolding digit_value
digit_value-digit d h = ground arith

-- `factor` is the place value `p` as long as a digit is left; the last product may wrap.
parse_back-fill_buffer :
    (places v factor p acc : ℕ)
    → v < 10 ^ places
    → (v ≢ 0 → factor ≡ p)
    → v * p + acc < 2 ^ 64
    → parse_back (fill_buffer places v) factor acc ≡ v * p + acc
unfolding parse_back fill_buffer
parse_back-fill_buffer zero v factor p acc fits e small =
    let z : v ≡ 0 = omega arith in rw z (omega arith)
parse_back-fill_buffer (suc places) v factor p acc fits e small = elim (Bool-cases (v == 0)) [
  | inl t ↦ let z : v ≡ 0 = ground arith in rw t (rw z (omega arith))
  | inr t ↦
      let ne : v ≢ 0 = ground arith in
      let q : (acc + (digit_value (b'0' + v % 10) * factor) % 2 ^ 64) % 2 ^ 64 ≡ v % 10 * p + acc =
        rw (digit_value-digit (v % 10) (omega arith), e ne) (digit_step v p acc small) in
      rw t (
        rw (q, parse_back)
          (parse_back-fill_buffer places (v / 10) ((factor * 10) % 2 ^ 64) (p * 10)
              (v % 10 * p + acc) (omega (arith, pow-suc 10 places))
              (λ ne'. rw (e ne) (factor_step v p acc (omega arith) small))
              (next_small v p acc small)
            ∙ value_step v p acc))
]
  where
    split_value : (v p : ℕ) → v * p ≡ v / 10 * (p * 10) + v % 10 * p
    split_value v p =
        let e : v ≡ v / 10 * 10 + v % 10 = omega arith in ap (λ (t : ℕ). t * p) e ∙ omega arith

    digit_step :
        (v p acc : ℕ)
        → v * p + acc < 2 ^ 64
        → (acc + (v % 10 * p) % 2 ^ 64) % 2 ^ 64 ≡ v % 10 * p + acc
    digit_step v p acc h = omega (arith, split_value v p)

    factor_step : (v p acc : ℕ) → 10 ≤ v → v * p + acc < 2 ^ 64 → (p * 10) % 2 ^ 64 ≡ p * 10
    factor_step v p acc h k = let l : 10 * p ≤ v * p = grind arith in omega arith

    next_small :
        (v p acc : ℕ) → v * p + acc < 2 ^ 64 → v / 10 * (p * 10) + (v % 10 * p + acc) < 2 ^ 64
    next_small v p acc h = omega (arith, split_value v p)

    value_step : (v p acc : ℕ) → v / 10 * (p * 10) + (v % 10 * p + acc) ≡ v * p + acc
    value_step v p acc = omega (arith, split_value v p)

-- `parse` reads back what `to_string` prints, for every 64-bit number.
pub parse-to_string : (v : ℕ) → v < 2 ^ 64 → parse (to_string v) ≡ v
unfolding parse to_string
parse-to_string v h = elim (Bool-cases (v == 0)) [
  | inl t ↦ rw t (unfold parse_back digit_value in ground arith)
  | inr t ↦ rw t (
      rw (reverse-reverse (fill_buffer 20 v))
        (parse_back-fill_buffer 20 v 1 1 0 (omega arith) (λ ne. refl) (omega arith) ∙ omega arith))
]

fill_buffer-digit : (places v : ℕ) → v ≢ 0 → v < 10 ^ places → fill_buffer places v ≢ []
unfolding fill_buffer
fill_buffer-digit zero v ne h = absurd (omega arith)
fill_buffer-digit (suc places) v ne h = ground arith

count_digits-fill_buffer :
    (places v i : ℕ) → v < 10 ^ places → count_digits places v i ≡ i + length (fill_buffer places v)
unfolding count_digits fill_buffer
count_digits-fill_buffer zero v i h = omega arith
count_digits-fill_buffer (suc places) v i h =
    ground
      (arith, count_digits-fill_buffer places (v / 10) (i + 1) (omega (arith, pow-suc 10 places)))

pub length-reverse {ℓ} : {A : Type ℓ} (xs : List A) → length (reverse xs) ≡ length xs
length-reverse [] = refl
length-reverse (x ∷ xs) =
    omega
      (arith, ap length (reverse-cons x xs), length-append (reverse xs) (x ∷ []), length-reverse xs)

-- A value below `10 ^ k` fills at most `k` places, any other more.
pub length-fill_buffer :
    (places k v : ℕ) → v < 10 ^ k → k ≤ places → length (fill_buffer places v) ≤ k
unfolding fill_buffer
length-fill_buffer zero k v h le = omega arith
length-fill_buffer (suc places) zero v h le = ground arith
length-fill_buffer (suc places) (suc k) v h le =
    ground (arith, length-fill_buffer places k (v / 10) (omega (arith, pow-suc 10 k)) (omega arith))

pub le-length-fill_buffer :
    (places k v : ℕ) → 10 ^ k ≤ v → k < places → k < length (fill_buffer places v)
unfolding fill_buffer
le-length-fill_buffer zero k v h le = absurd (omega arith)
le-length-fill_buffer (suc places) zero v h le = ground arith
le-length-fill_buffer (suc places) (suc k) v h le = ground (
  arith,
  le-length-fill_buffer places k (v / 10) (omega (arith, pow-suc 10 k)) (omega arith),
  pow-suc 10 k,
  one-le-pow k 10 (omega arith),
)

-- `digits` counts the characters that `to_string` prints, for every 64-bit number.
pub digits-to_string : (v : ℕ) → v < 2 ^ 64 → digits v ≡ length (to_string v)
unfolding digits to_string
digits-to_string v h = elim (Bool-cases (v == 0)) [
  | inl t ↦ rw t (let z : v ≡ 0 = ground arith in rw z)
  | inr t ↦
      rw (t, length-reverse (fill_buffer 20 v))
        (elim (Bool-cases (ltb v 10)) [
          | inl e ↦ rw e (
              omega (
                arith,
                length-fill_buffer 20 1 v (ground arith) (omega arith),
                le-length-fill_buffer 20 0 v (ground arith) (omega arith),
              ))
          | inr e ↦ rw e (count_digits-fill_buffer 20 v 0 (omega arith) ∙ omega arith)
        ])
]

abbrev pub AllDigits : Text → Type 0
AllDigits [] = Unit {0}
AllDigits (c ∷ cs) = (b'0' ≤ c) × (c ≤ b'9') × AllDigits cs

AllDigits-append : (xs ys : Text) → AllDigits xs → AllDigits ys → AllDigits (xs ++ ys)
AllDigits-append [] ys h k = k
AllDigits-append (x ∷ xs) ys h k = (h.0, h.1, AllDigits-append xs ys h.2 k)

AllDigits-reverse : (xs : Text) → AllDigits xs → AllDigits (reverse xs)
AllDigits-reverse [] h = tt
AllDigits-reverse (x ∷ xs) h =
    rw (reverse-cons x xs)
      (AllDigits-append (reverse xs) (x ∷ []) (AllDigits-reverse xs h.2) (h.0, h.1, tt))

atoui_back-parse_back :
    (cs : Text) (value mul : ℕ) → AllDigits cs → atoui_back cs value mul ≡ parse_back cs mul value
unfolding atoui_back parse_back
atoui_back-parse_back [] value mul h = refl
atoui_back-parse_back (c ∷ cs) value mul h =
    let low : ltb c b'0' ≡ false = ground (arith, h.0) in
    let high : ltb b'9' c ≡ false = ground (arith, h.1) in
    let digit : digit_value c ≡ c - 48 = unfold digit_value in ground (arith, h.0, h.1) in
    let swap : mul * (c - 48) ≡ (c - 48) * mul = mul_comm mul (c - 48) in
    rw (low, high)
      (rw (digit, parse_back)
        (rw swap (
          atoui_back-parse_back cs ((value + ((c - 48) * mul) % 2 ^ 64) % 2 ^ 64)
            ((mul * 10) % 2 ^ 64) h.2)))

-- On a text of digits `atoui` and `parse` return the same number, also where it wraps.
pub atoui-parse : (s : Text) → AllDigits s → atoui s ≡ parse s
unfolding atoui parse
atoui-parse s h = atoui_back-parse_back (reverse s) 0 1 (AllDigits-reverse s h)
