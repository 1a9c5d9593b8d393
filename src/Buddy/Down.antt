-- ===== src/Buddy/Down.antt =====
-- kernel/include/buddy_allocator.hpp: which blocks `taken_down` and `free_down` reach.
use native.Mathlib.Nat.{pow-suc}
use thor_os.Prelude.{
  ℕ, zero, suc, ◌+◌, ◌-◌, ◌*◌, ◌/◌, ◌^◌, ◌≤◌, ◌<◌, ◌≡◌, refl, sym, ◌∙◌, ◌≢◌, ap₂, arith, Bool,
  false, not, ◌&&◌, ◌||◌, ◌==◌, ltb, leb, ap,
}
use thor_os.Word.Bits.{pow-pos}
use thor_os.Buddy.{
  Bitmaps, levels, is_set_at, mul64, add64, unset_range, set_range, taken_down_from, taken_down,
  free_down_from, free_down,
}
use thor_os.Buddy.Cells.{
  Shape, Starts, Fits, set_at-Shape, unset_at-Shape, is_set_at-set_at, is_set_at-unset_at,
}

-- The block that holds block `j`, `d` levels higher.
unfoldable pub up : ℕ → ℕ → ℕ
up zero j = j
up (suc d) j = up d (j / 2)

pub up-half : (d j : ℕ) → up d (j / 2) ≡ up d j / 2
unfolding up
up-half zero j = refl
up-half (suc d) j = up-half d (j / 2)

-- `start ≤ i && i <= end`
abbrev pub within : ℕ → ℕ → ℕ → Bool
within start end i = leb start i && leb i end

Starts-of_fits : (n l i e : ℕ) → suc e * 2 ^ l ≤ n → i ≤ e → Starts n l i
Starts-of_fits n l i e h p = grind (arith, pow-pos l)

-- One round of a loop over the levels, for a write `f` under a test: `was` before the round, `mid`
-- after it, `now` at the end of the loop.
module _ (f : Bool → Bool → Bool) (skip : (b : Bool) → f false b ≡ b) (was mid now : ℕ → ℕ → Bool)
    (l start end : ℕ) (ordered : start ≤ end)
    (round : (k j : ℕ)
      → mid k j ≡ f (l == k && (leb start j && ltb j (start + (end + 1 - start)))) (was k j))
    (rest : (k d j : ℕ)
      → k + suc d ≡ l
      → now k j ≡ f (within (start * 2) (end * 2 + 1) (up d j)) (mid k j))
    (kept : (k j : ℕ) → l ≤ k → now k j ≡ mid k j) where
  round_test :
      (k j : ℕ)
      → k ≡ l
      → (l == k && (leb start j && ltb j (start + (end + 1 - start)))) ≡ within start end j
  round_test k j e = ground arith

  half_test : (x : ℕ) → within (start * 2) (end * 2 + 1) x ≡ within start end (x / 2)
  half_test x = ground arith

  missed : (k j : ℕ) → k ≢ l → mid k j ≡ was k j
  missed k j ne =
      let t : (l == k && (leb start j && ltb j (start + (end + 1 - start)))) ≡ false =
        ground arith in
      round k j ∙ (rw t (skip (was k j)))

  level_below : (k d j : ℕ) → k + suc d ≡ suc l → now k j ≡ f (within start end (up d j)) (was k j)
  unfolding up
  level_below k zero j e =
      kept k j (omega arith) ∙ round k j ∙ ap (λ t. f t (was k j)) (round_test k j (omega arith))
  level_below k (suc d) j e =
      rest k d j (omega arith)
      ∙ ap₂ f (half_test (up d j) ∙ ap (within start end) (sym (up-half d j)))
          (missed k j (λ q. absurd (omega arith)))

  level_above : (k j : ℕ) → suc l ≤ k → now k j ≡ was k j
  level_above k j h = kept k j (omega arith) ∙ missed k j (λ q. absurd (omega arith))

pair_test : (index d j : ℕ) → within (index * 2) (index * 2 + 1) (up d j) ≡ (up d (j / 2) == index)
unfolding up
pair_test index d j = ground (arith, up-half d j)

module _ {n : ℕ} where
  first-Starts : (i rounds l : ℕ) → (i + suc rounds) * 2 ^ l ≤ n → Starts n l i
  first-Starts i rounds l h = grind (arith, pow-pos l)

  rest_fits : (i rounds l : ℕ) → (i + suc rounds) * 2 ^ l ≤ n → (i + 1 + rounds) * 2 ^ l ≤ n
  rest_fits i rounds l h = let q : i + 1 + rounds ≡ i + suc rounds = omega arith in rw q h

  halve_fits : (end l : ℕ) → suc end * 2 ^ suc l ≤ 2 * n → suc end * 2 ^ l ≤ n
  halve_fits end l h = omega (arith, ap (λ (t : ℕ). suc end * t) (pow-suc 2 l))

  end_small : (end l : ℕ) → n ≤ 2 ^ 52 → suc end * 2 ^ l ≤ n → end < 2 ^ 52
  end_small end l small h = grind (arith, pow-pos l)

  double_fits : (end l : ℕ) → suc end * 2 ^ l ≤ n → suc (end * 2 + 1) * 2 ^ l ≤ 2 * n
  double_fits end l h = omega arith

  unset_range_lem :
      (rounds i l : ℕ) {bs : Bitmaps}
      → Shape n bs
      → l < levels
      → (i + rounds) * 2 ^ l ≤ n
      → Shape n (unset_range rounds i l bs)
        × ((k j : ℕ)
            → is_set_at (unset_range rounds i l bs) k j
              ≡ (not (l == k && (leb i j && ltb j (i + rounds))) && is_set_at bs k j))
  unfolding unset_range
  unset_range_lem zero i l s b fits = (s, λ k j. ground arith)
  unset_range_lem (suc rounds) i l {bs} s b fits =
      let starts : Starts n l i = first-Starts i rounds l fits in
      let ih =
        unset_range_lem rounds (i + 1) l (unset_at-Shape s l b i) b (rest_fits i rounds l fits) in
      (ih.0, λ k j. ground (arith, ih.1 k j, is_set_at-unset_at s l b i starts k j))

  taken_down_from_lem :
      (l start end : ℕ) {bs : Bitmaps}
      → Shape n bs
      → l ≤ levels
      → start ≤ end
      → suc end * 2 ^ l ≤ 2 * n
      → Shape n (taken_down_from l start end bs)
        × ((k d j : ℕ)
            → k + suc d ≡ l
            → is_set_at (taken_down_from l start end bs) k j
              ≡ (not (within start end (up d j)) && is_set_at bs k j))
        × ((k j : ℕ) → l ≤ k → is_set_at (taken_down_from l start end bs) k j ≡ is_set_at bs k j)
  unfolding taken_down_from
  taken_down_from_lem zero start end s b ordered fits =
      (s, λ k d j e. absurd (omega arith), λ k j h. refl)
  taken_down_from_lem (suc l) start end {bs} s b ordered fits =
      let inside : suc end * 2 ^ l ≤ n = halve_fits end l fits in
      let small : end < 2 ^ 52 = end_small end l s.small inside in
      let e₁ : mul64 start 2 ≡ start * 2 = omega arith in
      let e₂ : add64 (mul64 end 2) 1 ≡ end * 2 + 1 = omega arith in
      let bs₁ = unset_range (end + 1 - start) start l bs in
      let now =
        unset_range_lem (end + 1 - start) start l s b
          (let q : start + (end + 1 - start) ≡ suc end = omega arith in rw q inside) in
      let ih =
        taken_down_from_lem l (start * 2) (end * 2 + 1) now.0 (omega arith) (omega arith)
          (double_fits end l inside) in
      let last = taken_down_from l (start * 2) (end * 2 + 1) bs₁ in
      rw (e₁, e₂)
        (
          ih.0,
          level_below (λ t b. not t && b) (λ b. refl) (is_set_at bs) (is_set_at bs₁)
              (is_set_at last) l start end ordered now.1 ih.1 ih.2,
          level_above (λ t b. not t && b) (λ b. refl) (is_set_at bs) (is_set_at bs₁)
              (is_set_at last) l start end ordered now.1 ih.1 ih.2,
        )

  -- `taken_down` clears the blocks of the lower levels that lie in block `index` of `l`, and changes
  -- no other block.
  pub taken_down_lem :
      (l index : ℕ) {bs : Bitmaps}
      → Shape n bs
      → l < levels
      → Fits n l index
      → Shape n (taken_down l index bs)
        × ((k d j : ℕ)
            → k + suc d ≡ l
            → is_set_at (taken_down l index bs) k j
              ≡ (not (up (suc d) j == index) && is_set_at bs k j))
        × ((k j : ℕ) → l ≤ k → is_set_at (taken_down l index bs) k j ≡ is_set_at bs k j)
  unfolding taken_down up
  taken_down_lem l index {bs} s b fits =
      let small : index < 2 ^ 52 = end_small index l s.small fits in
      let e₁ : mul64 index 2 ≡ index * 2 = omega arith in
      let e₂ : add64 (index * 2) 1 ≡ index * 2 + 1 = omega arith in
      let all =
        taken_down_from_lem l (index * 2) (index * 2 + 1) s (omega arith) (omega arith)
          (double_fits index l fits) in
      rw (e₁, e₂)
        (
          all.0,
          λ k d j e. all.1 k d j e ∙ ap (λ t. not t && is_set_at bs k j) (pair_test index d j),
          all.2,
        )

  set_range_lem :
      (rounds i l : ℕ) {bs : Bitmaps}
      → Shape n bs
      → l < levels
      → (i + rounds) * 2 ^ l ≤ n
      → Shape n (set_range rounds i l bs)
        × ((k j : ℕ)
            → is_set_at (set_range rounds i l bs) k j
              ≡ ((l == k && (leb i j && ltb j (i + rounds))) || is_set_at bs k j))
  unfolding set_range
  set_range_lem zero i l s b fits = (s, λ k j. ground arith)
  set_range_lem (suc rounds) i l {bs} s b fits =
      let starts : Starts n l i = first-Starts i rounds l fits in
      let ih =
        set_range_lem rounds (i + 1) l (set_at-Shape s l b i) b (rest_fits i rounds l fits) in
      (ih.0, λ k j. ground (arith, ih.1 k j, is_set_at-set_at s l b i starts k j))

  free_down_from_lem :
      (l start end : ℕ) {bs : Bitmaps}
      → Shape n bs
      → l ≤ levels
      → start ≤ end
      → suc end * 2 ^ l ≤ 2 * n
      → Shape n (free_down_from l start end bs)
        × ((k d j : ℕ)
            → k + suc d ≡ l
            → is_set_at (free_down_from l start end bs) k j
              ≡ (within start end (up d j) || is_set_at bs k j))
        × ((k j : ℕ) → l ≤ k → is_set_at (free_down_from l start end bs) k j ≡ is_set_at bs k j)
  unfolding free_down_from
  free_down_from_lem zero start end s b ordered fits =
      (s, λ k d j e. absurd (omega arith), λ k j h. refl)
  free_down_from_lem (suc l) start end {bs} s b ordered fits =
      let inside : suc end * 2 ^ l ≤ n = halve_fits end l fits in
      let small : end < 2 ^ 52 = end_small end l s.small inside in
      let e₁ : mul64 start 2 ≡ start * 2 = omega arith in
      let e₂ : add64 (mul64 end 2) 1 ≡ end * 2 + 1 = omega arith in
      let bs₁ = set_range (end + 1 - start) start l bs in
      let now =
        set_range_lem (end + 1 - start) start l s b
          (let q : start + (end + 1 - start) ≡ suc end = omega arith in rw q inside) in
      let ih =
        free_down_from_lem l (start * 2) (end * 2 + 1) now.0 (omega arith) (omega arith)
          (double_fits end l inside) in
      let last = free_down_from l (start * 2) (end * 2 + 1) bs₁ in
      rw (e₁, e₂)
        (
          ih.0,
          level_below (λ t b. t || b) (λ b. refl) (is_set_at bs) (is_set_at bs₁) (is_set_at last) l
              start end ordered now.1 ih.1 ih.2,
          level_above (λ t b. t || b) (λ b. refl) (is_set_at bs) (is_set_at bs₁) (is_set_at last) l
              start end ordered now.1 ih.1 ih.2,
        )

  -- `free_down` sets the blocks of the lower levels that lie in block `index` of `l`, and changes
  -- no other block.
  pub free_down_lem :
      (l index : ℕ) {bs : Bitmaps}
      → Shape n bs
      → l < levels
      → Fits n l index
      → Shape n (free_down l index bs)
        × ((k d j : ℕ)
            → k + suc d ≡ l
            → is_set_at (free_down l index bs) k j ≡ ((up (suc d) j == index) || is_set_at bs k j))
        × ((k j : ℕ) → l ≤ k → is_set_at (free_down l index bs) k j ≡ is_set_at bs k j)
  unfolding free_down up
  free_down_lem l index {bs} s b fits =
      let small : index < 2 ^ 52 = end_small index l s.small fits in
      let e₁ : mul64 index 2 ≡ index * 2 = omega arith in
      let e₂ : add64 (index * 2) 1 ≡ index * 2 + 1 = omega arith in
      let all =
        free_down_from_lem l (index * 2) (index * 2 + 1) s (omega arith) (omega arith)
          (double_fits index l fits) in
      rw (e₁, e₂)
        (
          all.0,
          λ k d j e. all.1 k d j e ∙ ap (λ t. t || is_set_at bs k j) (pair_test index d j),
          all.2,
        )
