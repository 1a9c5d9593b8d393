-- ===== src/Bitmap/Search.antt =====
-- kernel/include/bitmap.hpp: the searches `set_bit` and `set_word`.
use thor_os.Prelude.{
  ℕ, zero, suc, ◌+◌, ◌*◌, ◌/◌, ◌%◌, ◌^◌, ◌≤◌, ◌<◌, ◌≡◌, refl, arith, true, false, ◌⊎◌, inl, inr,
  ◌==◌, get_or, bit_and, Option, none, some, Bool-cases, ==_iff,
}
use native.Mathlib.Decide.{dec_lt}
use thor_os.Word.{all_ones}
use thor_os.Word.Bits.{bit, bit-le, bit_and-pow, pow-pos, ones_of_bits, bit-zero, bit-ones}
use thor_os.Bitmap.{
  StaticBitmap, bit_mask, npos, is_set, find_bit, find_set_bit, find_full_word, set_bit, set_word,
}
use thor_os.Bitmap.Laws.{AllWords, IsValid, word-lt, is_set-bit}

-- What one word's search says of the bits `b` to `b + rounds`.
abbrev FirstBit : ℕ → ℕ → ℕ → Option ℕ → Type 0
FirstBit word b rounds none = (k : ℕ) → b ≤ k → k < b + rounds → bit word k ≡ 0
FirstBit word b rounds (some r) =
    (b ≤ r) × (r < b + rounds) × (bit word r ≡ 1) × ((k : ℕ) → b ≤ k → k < r → bit word k ≡ 0)

module _ (word : ℕ) where
  skip_bit :
      (b rounds : ℕ) (o : Option ℕ)
      → bit word b ≡ 0
      → FirstBit word (b + 1) rounds o
      → FirstBit word b (suc rounds) o
  skip_bit b rounds none e h = λ k l u. elim (dec_lt b k) [
    | yes p ↦ h k (omega arith) (omega arith)
    | no p ↦ let q : k ≡ b = omega arith in rw q e
  ]
  skip_bit b rounds (some r) e h = (
    omega arith,
    omega arith,
    h.2,
    λ k l u. elim (dec_lt b k) [
      | yes p ↦ h.3 k (omega arith) u
      | no p ↦ let q : k ≡ b = omega arith in rw q e
    ],
  )

  find_bit-FirstBit :
      (rounds b : ℕ)
      → word < 2 ^ 64
      → b + rounds ≤ 64
      → FirstBit word b rounds (find_bit rounds b word)
  unfolding find_bit
  find_bit-FirstBit zero b small h = λ k l u. absurd (omega arith)
  find_bit-FirstBit (suc rounds) b small h =
      let in_word : b % 64 ≡ b = omega arith in
      let masked : bit_and word (bit_mask b) ≡ bit word b * 2 ^ b =
        rw in_word (bit_and-pow 64 b word small) in
      elim (Bool-cases (bit_and word (bit_mask b) == 0)) [
        | inl e ↦ rw e (
            skip_bit b rounds (find_bit rounds (b + 1) word)
              (digit_zero (bit word b) (2 ^ b) (pow-pos b) (ground (arith, masked)))
              (find_bit-FirstBit rounds (b + 1) small (omega arith)))
        | inr e ↦ rw e (
          omega arith,
          omega arith,
          digit_one (bit word b) (2 ^ b) (bit-le word b) (ground (arith, masked)),
          λ k l u. absurd (omega arith),
        )
      ]
    where
      digit_zero : (d p : ℕ) → 0 < p → d * p ≡ 0 → d ≡ 0
      digit_zero zero p pos z = refl
      digit_zero (suc d) p pos z = absurd (grind arith)

      digit_one : (d p : ℕ) → d ≤ 1 → (d * p == 0) ≡ false → d ≡ 1
      digit_one zero p small z = ground arith
      digit_one (suc d) p small z = omega arith

-- What the search of the words `w` to `w + rounds` says of the bits that they hold.
abbrev pub FirstSet : StaticBitmap → ℕ → ℕ → ℕ → Type 0
FirstSet bm w rounds r =
    ((r ≡ npos) × ((j : ℕ) → w * 64 ≤ j → j < (w + rounds) * 64 → is_set bm j ≡ false))
    ⊎ ((w * 64 ≤ r)
        × (r < (w + rounds) * 64)
        × (is_set bm r ≡ true)
        × ((j : ℕ) → w * 64 ≤ j → j < r → is_set bm j ≡ false))

module _ (bm : StaticBitmap) (a : AllWords bm.storage) where
  -- A word with no digit set has no bit set.
  clear_bit : (j : ℕ) → bit (get_or bm.storage (j / 64) 0) (j % 64) ≡ 0 → is_set bm j ≡ false
  clear_bit j e = rw (is_set-bit bm j a, e)

  clear_word :
      (w j : ℕ)
      → ((k : ℕ) → k < 64 → bit (get_or bm.storage w 0) k ≡ 0)
      → w * 64 ≤ j
      → j < suc w * 64
      → is_set bm j ≡ false
  clear_word w j zeros l u =
      let q : j / 64 ≡ w = omega arith in clear_bit j (rw q (zeros (j % 64) (omega arith)))

  skip_word :
      (w rounds r : ℕ)
      → ((k : ℕ) → k < 64 → bit (get_or bm.storage w 0) k ≡ 0)
      → FirstSet bm (w + 1) rounds r
      → FirstSet bm w (suc rounds) r
  skip_word w rounds r zeros (inl (e, h)) = inl (
    e,
    λ j l u. elim (dec_lt j (suc w * 64)) [
      | yes p ↦ clear_word w j zeros l p
      | no p ↦ h j (omega arith) (omega arith)
    ],
  )
  skip_word w rounds r zeros (inr (l, u, s, h)) = inr (
    omega arith,
    omega arith,
    s,
    λ j l' u'. elim (dec_lt j (suc w * 64)) [
      | yes p ↦ clear_word w j zeros l' p
      | no p ↦ h j (omega arith) u'
    ],
  )

  found_bit :
      (w rounds b : ℕ)
      → FirstBit (get_or bm.storage w 0) 0 64 (some b)
      → FirstSet bm w (suc rounds) (w * 64 + b)
  found_bit w rounds b (l, u, one, before) =
      let q : (w * 64 + b) / 64 ≡ w = omega arith in
      let q' : (w * 64 + b) % 64 ≡ b = omega arith in
      inr (
        omega arith,
        omega arith,
        rw (is_set-bit bm (w * 64 + b) a, q, q', one),
        λ j l' u'.
            let d : j / 64 ≡ w = omega arith in
            clear_bit j (rw d (before (j % 64) (omega arith) (omega arith))),
      )

  find_set_bit-FirstSet : (rounds w : ℕ) → FirstSet bm w rounds (find_set_bit rounds w bm.storage)
  unfolding find_set_bit
  find_set_bit-FirstSet zero w = inl (refl, λ j l u. absurd (omega arith))
  find_set_bit-FirstSet (suc rounds) w = elim (Bool-cases (get_or bm.storage w 0 == 0)) [
    | inl e ↦
        let z : get_or bm.storage w 0 ≡ 0 = (==_iff _ _).0 e in
        rw e
          (skip_word w rounds _ (λ k l. rw z (bit-zero k)) (find_set_bit-FirstSet rounds (w + 1)))
    | inr e ↦ rw e (
        search_word (find_bit 64 0 (get_or bm.storage w 0))
          (find_bit-FirstBit (get_or bm.storage w 0) 64 0 (word-lt bm.storage w a) (omega arith))
          (find_set_bit-FirstSet rounds (w + 1)))
  ]
    where
      search_word :
          (o : Option ℕ)
          → FirstBit (get_or bm.storage w 0) 0 64 o
          → FirstSet bm (w + 1) rounds (find_set_bit rounds (w + 1) bm.storage)
          → FirstSet bm w
              (suc rounds)
              (elim o [ none ↦ find_set_bit rounds (w + 1) bm.storage | some b ↦ w * 64 + b ])
      search_word none h rest = skip_word w rounds _ (λ k l. h k (omega arith) (omega arith)) rest
      search_word (some b) h rest = found_bit w rounds b h

-- `set_bit` returns the lowest set bit, or `npos` when no bit of the bitmap is set.
pub set_bit-FirstSet : (bm : StaticBitmap) → IsValid bm → FirstSet bm 0 bm.words (set_bit bm)
unfolding set_bit
set_bit-FirstSet bm v = find_set_bit-FirstSet bm v.small bm.words 0

-- All 64 bits of word `w` are set.
abbrev pub IsFullWord : StaticBitmap → ℕ → Type 0
IsFullWord bm w = (k : ℕ) → k < 64 → is_set bm (w * 64 + k) ≡ true

-- What the search of the words `w` to `w + rounds` for a full one says.
abbrev pub FirstFull : StaticBitmap → ℕ → ℕ → ℕ → Type 0
FirstFull bm w rounds r =
    ((r ≡ npos) × ((x : ℕ) → w ≤ x → x < w + rounds → ¬ IsFullWord bm x))
    ⊎ ((x : ℕ) × (r ≡ x * 64)
        × (w ≤ x)
        × (x < w + rounds)
        × IsFullWord bm x
        × ((y : ℕ) → w ≤ y → y < x → ¬ IsFullWord bm y))

module _ (bm : StaticBitmap) (a : AllWords bm.storage) where
  digit_of_word : (w k : ℕ) → k < 64 → is_set bm (w * 64 + k) ≡ (bit (get_or bm.storage w 0) k == 1)
  digit_of_word w k l =
      let q : (w * 64 + k) / 64 ≡ w = omega arith in
      let q' : (w * 64 + k) % 64 ≡ k = omega arith in rw (is_set-bit bm (w * 64 + k) a, q, q')

  full-of-ones : (w : ℕ) → get_or bm.storage w 0 ≡ all_ones → IsFullWord bm w
  full-of-ones w e k l = rw (digit_of_word w k l, e, bit-ones 64 k l)

  ones-of-full : (w : ℕ) → IsFullWord bm w → get_or bm.storage w 0 ≡ all_ones
  ones-of-full w full =
      ones_of_bits 64 (get_or bm.storage w 0) (word-lt bm.storage w a)
        (λ k l. ground (arith, digit_of_word w k l, full k l))

  find_full_word-FirstFull :
      (rounds w : ℕ) → FirstFull bm w rounds (find_full_word rounds w bm.storage)
  unfolding find_full_word
  find_full_word-FirstFull zero w = inl (refl, λ x l u. absurd (omega arith))
  find_full_word-FirstFull (suc rounds) w = elim (Bool-cases (get_or bm.storage w 0 == all_ones)) [
    | inl e ↦ rw e (
        inr (
          w,
          refl,
          omega arith,
          omega arith,
          full-of-ones w ((==_iff _ _).0 e),
          λ y l u. absurd (omega arith),
        ))
    | inr e ↦ rw e (
        later (find_full_word-FirstFull rounds (w + 1))
          (λ full. cc (e, (==_iff (get_or bm.storage w 0) all_ones).1 (ones-of-full w full))))
  ]
    where
      later :
          FirstFull bm (w + 1) rounds (find_full_word rounds (w + 1) bm.storage)
          → ¬ IsFullWord bm w
          → FirstFull bm w (suc rounds) (find_full_word rounds (w + 1) bm.storage)
      later (inl (e, h)) partial = inl (
        e,
        λ x l u. elim (dec_lt w x) [
          | yes p ↦ h x (omega arith) (omega arith)
          | no p ↦ let q : x ≡ w = omega arith in rw q partial
        ],
      )
      later (inr (x, e, l, u, full, h)) partial = inr (
        x,
        e,
        omega arith,
        omega arith,
        full,
        λ y l' u'. elim (dec_lt w y) [
          | yes p ↦ h y (omega arith) u'
          | no p ↦ let q : y ≡ w = omega arith in rw q partial
        ],
      )

-- `set_word` returns the first bit of the lowest word whose 64 bits are all set, or `npos` when
-- every word has a clear bit.
pub set_word-FirstFull : (bm : StaticBitmap) → IsValid bm → FirstFull bm 0 bm.words (set_word bm)
unfolding set_word
set_word-FirstFull bm v = find_full_word-FirstFull bm v.small bm.words 0
