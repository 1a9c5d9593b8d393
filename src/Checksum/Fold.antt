-- ===== src/Checksum/Fold.antt =====
-- The checksum as arithmetic modulo 65535.
use thor_os.Prelude.{
  ℕ, ◌+◌, ◌-◌, ◌*◌, ◌/◌, ◌%◌, ◌^◌, ◌≤◌, ◌<◌, ◌≡◌, ◌≢◌, refl, ap, ◌∙◌, arith, true, inl, inr,
  Bool-cases, Option, some, ◌>>=◌, List, [], ◌∷◌, ◌==◌, if◌then◌else◌, length, if_true, if_false,
}
use thor_os.Checksum.{checksum_add_from, checksum_add_bytes, fold_carry, checksum_finalize}

-- The sum of the 16-bit words in network order; a last odd byte is a high byte.
abbrev pub word_sum : List ℕ → ℕ
word_sum [] = 0
word_sum (a ∷ []) = a * 256
word_sum (a ∷ b ∷ values) = a * 256 + b + word_sum values

abbrev pub AllBytes : List ℕ → Type 0
AllBytes [] = Unit
AllBytes (a ∷ values) = (a < 256) × AllBytes values

add_from-word_sum :
    (values : List ℕ) (i sum : ℕ)
    → i % 2 ≡ 0
    → AllBytes values
    → sum + 65535 * length values < 2 ^ 32
    → checksum_add_from values i sum ≡ sum + word_sum values
unfolding checksum_add_from
add_from-word_sum [] i sum even all fits = omega arith
add_from-word_sum (a ∷ []) i sum even all fits = ground (arith, all.0)
add_from-word_sum (a ∷ b ∷ values) i sum even all fits =
    let first : (if i % 2 == 1 then (sum + a) % 2 ^ 32 else (sum + a * 256) % 2 ^ 32)
        ≡ sum + a * 256 =
      ground (arith, all.0) in
    let second : (if (i + 1) % 2 == 1
          then (sum + a * 256 + b) % 2 ^ 32
          else (sum + a * 256 + b * 256) % 2 ^ 32)
        ≡ sum + a * 256 + b =
      ground (arith, all.0, all.1.0) in
    let rest =
      add_from-word_sum values (i + 1 + 1) (sum + a * 256 + b) (omega arith) all.1.1
        (omega (arith, all.0, all.1.0)) in
    rw first (rw second (omega (arith, rest)))

-- The bytes are summed as 16-bit words, with no loss: for at most 65536 bytes the sum of 32 bits
-- does not overflow.
pub checksum_add_bytes-word_sum :
    (values : List ℕ)
    → AllBytes values
    → length values ≤ 65536
    → checksum_add_bytes values ≡ word_sum values
unfolding checksum_add_bytes
checksum_add_bytes-word_sum values all short =
    omega (arith, add_from-word_sum values 0 0 refl all (omega arith))

-- What the loop ends with: a number of 16 bits that is the sum modulo 65535, and 0 only for 0.
pub record Folded (sum : ℕ) (s : ℕ) : Type 0 where
  pub loop : fold_carry 3 sum ≡ some s
  pub small : s < 65536
  pub same : s % 65535 ≡ sum % 65535
  pub nonzero : sum ≢ 0 → s ≢ 0

fold : ℕ → ℕ
fold x = x % 65536 + x / 65536

fold-same : (x : ℕ) → fold x % 65535 ≡ x % 65535
unfolding fold
fold-same x = omega arith

fold-nonzero : (x : ℕ) → x ≢ 0 → fold x ≢ 0
unfolding fold
fold-nonzero x h = omega arith

fold_twice : (x : ℕ) → x < 2 ^ 32 → fold (fold x) < 65536
unfolding fold
fold_twice x h = omega arith

high_zero : (x : ℕ) → x < 65536 → (x / 65536 == 0) ≡ true
high_zero x h = ground arith

low_small : (x : ℕ) → (x / 65536 == 0) ≡ true → x < 65536
low_small x h = ground arith

pub folded : (sum : ℕ) → sum < 2 ^ 32 → (s : ℕ) × Folded sum s
unfolding fold_carry fold
folded sum h = elim (Bool-cases (sum / 65536 == 0)) [
  | inl e ↦
      (sum, record { loop = if_true _ _ e; small = low_small sum e; same = refl; nonzero = λ n. n })
  | inr e ↦ elim (Bool-cases (fold sum / 65536 == 0)) [
    | inl f ↦ (
      fold sum,
      record {
        loop = if_false _ _ e ∙ if_true _ _ f;
        small = low_small (fold sum) f;
        same = fold-same sum;
        nonzero = fold-nonzero sum;
      },
    )
    | inr f ↦ (
      fold (fold sum),
      record {
        loop =
            if_false _ _ e
            ∙ (if_false _ _ f ∙ if_true _ _ (high_zero (fold (fold sum)) (fold_twice sum h)));
        small = fold_twice sum h;
        same = fold-same (fold sum) ∙ fold-same sum;
        nonzero = λ n. fold-nonzero (fold sum) (fold-nonzero sum n);
      },
    )
  ]
]

complemented : (s : ℕ) → s < 65536 → (2 ^ 32 - 1 - s) % 65536 ≡ 65535 - s
complemented s h = omega arith

-- What `checksum_finalize` answers: the loop ends, with a checksum of 16 bits that makes the sum a
-- multiple of 65535.
pub record Closes (sum : ℕ) (r : ℕ) : Type 0 where
  pub answer : checksum_finalize sum ≡ some r
  pub bits : r < 65536
  pub closes : (sum + r) % 65535 ≡ 0
  pub not_all_ones : sum ≢ 0 → r < 65535

-- `checksum_finalize` of any sum of 32 bits answers a checksum of 16 bits which, added to the sum,
-- gives a multiple of 65535. It is 65535 at most for the sum 0.
pub checksum_finalize-Closes : (sum : ℕ) → sum < 2 ^ 32 → (r : ℕ) × Closes sum r
unfolding checksum_finalize
checksum_finalize-Closes sum h =
    let f = folded sum h in
    let s = f.0 in
    (
      65535 - s,
      record {
        answer =
            ap (λ (o : Option ℕ). o >>= λ t. some ((2 ^ 32 - 1 - t) % 65536)) f.1.loop
            ∙ ap some (complemented s f.1.small);
        bits = omega arith;
        closes = closing sum s f.1.small f.1.same;
        not_all_ones = λ n. below s (f.1.nonzero n);
      },
    )
  where
    closing : (sum s : ℕ) → s < 65536 → s % 65535 ≡ sum % 65535 → (sum + (65535 - s)) % 65535 ≡ 0
    closing sum s b q = omega arith

    below : (s : ℕ) → s ≢ 0 → 65535 - s < 65535
    below s n = omega arith

zero_left : (x r : ℕ) → x % 65535 ≡ 0 → (x + r) % 65535 ≡ 0 → r < 65535 → r ≡ 0
zero_left x r h k b = omega arith

-- The receiver's check: the sum with its own checksum added is finalized to 0. The sum must not be
-- 0, and its addition to a number of 16 bits must stay in 32 bits.
pub checksum_finalize-verifies :
    (sum : ℕ)
    → sum ≢ 0
    → sum + 65535 < 2 ^ 32
    → (do r ← checksum_finalize sum; checksum_finalize (sum + r)) ≡ some 0
checksum_finalize-verifies sum n fits =
    let sent = checksum_finalize-Closes sum (omega arith) in
    let r = sent.0 in
    let bits : r < 65536 = sent.1.bits in
    let received = checksum_finalize-Closes (sum + r) (omega arith) in
    let nothing : received.0 ≡ 0 =
      zero_left (sum + r) received.0 sent.1.closes received.1.closes
        (received.1.not_all_ones (omega arith)) in
    ap (λ (o : Option ℕ). o >>= λ t. checksum_finalize (sum + t)) sent.1.answer
    ∙ (received.1.answer ∙ ap some nothing)
