-- ===== src/Buddy/Levels.antt =====
-- The level that a request goes to: the lowest one whose blocks, or whose words of 64 blocks, are
-- large enough.
use native.Mathlib.Nat.{pow-suc}
use thor_os.Prelude.{
  ℕ, zero, suc, ◌+◌, ◌*◌, ◌^◌, ◌≤◌, ◌<◌, ◌≡◌, refl, ap, arith, true, false, ltb, leb, Bool-cases,
  inl, inr,
}
use thor_os.Word.Bits.{pow-lt_pow, pow-pos}
use thor_os.Buddy.{
  levels, max_block, mul64, pow, level_size, word_level_size, level, word_level, word_level_from,
}

pow-two : (n : ℕ) → pow 2 n ≡ 2 ^ n
unfolding pow
pow-two zero = refl
pow-two (suc n) = omega (arith, pow-two n, pow-suc 2 n)

pub level_size-pow : (l : ℕ) → level_size l ≡ 2 ^ l
unfolding level_size
level_size-pow l = pow-two l

pub word_level_size-pow : (l : ℕ) → l < levels → word_level_size l ≡ 64 * 2 ^ l
unfolding word_level_size
word_level_size-pow l h = rw (pow-two l) (omega (arith, pow-lt_pow l 8 h))

-- The seven thresholds of `level`, as the cases of a proof.
level_cases {ℓ} :
    (P : ℕ → Type ℓ) (pages : ℕ)
    → (pages ≤ 1 → P 0)
    → ((l : ℕ) → l < 7 → 2 ^ l < pages → pages ≤ 2 ^ suc l → P (suc l))
    → (128 < pages → P 7)
    → P (level pages)
unfolding level
level_cases P pages lowest middle highest = elim (Bool-cases (ltb 64 pages)) [
  | inl e ↦ rw e (elim (Bool-cases (ltb 128 pages)) [
    | inl e' ↦ highest (ground arith)
    | inr e' ↦ middle 6 (omega arith) (ground arith) (ground arith)
  ])
  | inr e₆ ↦ rw e₆ (elim (Bool-cases (ltb 32 pages)) [
    | inl e ↦ rw e (middle 5 (omega arith) (ground arith) (ground arith))
    | inr e₅ ↦ rw e₅ (elim (Bool-cases (ltb 16 pages)) [
      | inl e ↦ rw e (middle 4 (omega arith) (ground arith) (ground arith))
      | inr e₄ ↦ rw e₄ (elim (Bool-cases (ltb 8 pages)) [
        | inl e ↦ rw e (middle 3 (omega arith) (ground arith) (ground arith))
        | inr e₃ ↦ rw e₃ (elim (Bool-cases (ltb 4 pages)) [
          | inl e ↦ rw e (middle 2 (omega arith) (ground arith) (ground arith))
          | inr e₂ ↦ rw e₂ (elim (Bool-cases (ltb 2 pages)) [
            | inl e ↦ rw e (middle 1 (omega arith) (ground arith) (ground arith))
            | inr e₁ ↦ rw e₁ (elim (Bool-cases (ltb 1 pages)) [
              | inl e ↦ rw e (middle 0 (omega arith) (ground arith) (ground arith))
              | inr e ↦ rw e (lowest (ground arith))
            ])
          ])
        ])
      ])
    ])
  ])
]

pub level-lt : (pages : ℕ) → level pages < levels
level-lt pages =
    level_cases (λ l. l < levels) pages (λ h. omega arith) (λ l h p q. omega arith)
      (λ h. omega arith)

pub pow_mono : (k l : ℕ) → k ≤ l → 2 ^ k ≤ 2 ^ l
pow_mono zero l h = pow-pos l
pow_mono (suc k) (suc l) h = omega (arith, pow-suc 2 k, pow-suc 2 l, pow_mono k l (omega arith))
pow_mono (suc k) zero h = absurd (omega arith)

-- For a request of one block, the level's blocks hold the pages, and those of no lower level do.
pub level-Smallest :
    (pages : ℕ)
    → pages ≤ max_block
    → (pages ≤ 2 ^ level pages) × ((k : ℕ) → k < level pages → 2 ^ k < pages)
level-Smallest pages small =
    level_cases (λ l. (pages ≤ 2 ^ l) × ((k : ℕ) → k < l → 2 ^ k < pages)) pages
      (λ h. (h, λ k b. absurd (omega arith)))
      (λ l h p q. (q, λ k b. omega (arith, pow_mono k l (omega arith)))) (λ h. absurd (omega arith))

module _ (i size pages : ℕ) (below : i < levels) (e : size ≡ 2 ^ i) where
  word_size : mul64 size 64 ≡ 64 * 2 ^ i
  word_size = rw e (omega (arith, pow-lt_pow i 8 below))

  next_size : mul64 size 2 ≡ 2 ^ (i + 1)
  next_size =
      let q : i + 1 ≡ suc i = omega arith in
      rw (e, q) (omega (arith, pow-suc 2 i, pow-lt_pow i 8 below))

  word_fits : leb pages (mul64 size 64) ≡ true → pages ≤ 64 * 2 ^ i
  word_fits t = ground (arith, word_size)

  word_short : leb pages (mul64 size 64) ≡ false → 64 * 2 ^ i < pages
  word_short t = ground (arith, word_size)

-- What the loop of `word_level` returns, from level `i` on with `suc rounds` levels left.
word_level_from-Smallest :
    (rounds i size pages : ℕ)
    → i + suc rounds ≡ levels
    → size ≡ 2 ^ i
    → ((k : ℕ) → k < i → 64 * 2 ^ k < pages)
    → pages ≤ 64 * 2 ^ 7
    → let l = word_level_from (suc rounds) i size pages in
      (l < levels) × (pages ≤ 64 * 2 ^ l) × ((k : ℕ) → k < l → 64 * 2 ^ k < pages)
unfolding word_level_from
word_level_from-Smallest zero i size pages total e lower small =
    elim (Bool-cases (leb pages (mul64 size 64))) [
      | inl t ↦ rw t (omega arith, word_fits i size pages (omega arith) e t, lower)
      | inr t ↦
          let q : i ≡ 7 = omega arith in
          absurd (omega (arith, word_short i size pages (omega arith) e t, ap (λ (x : ℕ). 2 ^ x) q))
    ]
word_level_from-Smallest (suc rounds) i size pages total e lower small =
    elim (Bool-cases (leb pages (mul64 size 64))) [
      | inl t ↦ rw t (omega arith, word_fits i size pages (omega arith) e t, lower)
      | inr t ↦ rw t (
          word_level_from-Smallest rounds (i + 1) (mul64 size 2) pages (omega arith)
            (next_size i size pages (omega arith) e)
            (λ k b.
              omega (arith, word_short i size pages (omega arith) e t, pow_mono k i (omega arith)))
            small)
    ]

-- For a request of up to 64 blocks of the highest level, the words of the level hold the pages,
-- and those of no lower level do.
pub word_level-Smallest :
    (pages : ℕ)
    → pages ≤ max_block * 64
    → (word_level pages < levels)
      × (pages ≤ 64 * 2 ^ word_level pages)
      × ((k : ℕ) → k < word_level pages → 64 * 2 ^ k < pages)
unfolding word_level
word_level-Smallest pages small =
    word_level_from-Smallest 7 0 1 pages (omega arith) refl (λ k b. absurd (omega arith)) small
