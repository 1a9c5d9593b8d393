-- ===== src/Buddy/Up.antt =====
-- kernel/include/buddy_allocator.hpp: which blocks `taken_up` reaches and, with `taken_down`,
-- `mark_used`.
use native.Mathlib.Nat.{pow-suc}
use thor_os.Prelude.{
  ℕ, zero, suc, ◌+◌, ◌-◌, ◌*◌, ◌/◌, ◌^◌, ◌≤◌, ◌<◌, ◌≡◌, refl, ap, arith, not, ◌&&◌, ◌==◌,
}
use thor_os.Word.Bits.{pow-pos}
use thor_os.Buddy.{
  Bitmaps, levels, is_set_at, unset_at, taken_down, taken_up_from, taken_up, mark_used,
}
use thor_os.Buddy.Cells.{Shape, Starts, Fits, unset_at-Shape, is_set_at-unset_at}
use thor_os.Buddy.Down.{up, taken_down_lem}

pub Starts-half : {n : ℕ} (l i : ℕ) → Starts n l i → Starts n (suc l) (i / 2)
Starts-half {n} l i h =
    let q : i / 2 * 2 ^ suc l ≡ i / 2 * 2 * 2 ^ l =
      omega (arith, ap (λ (t : ℕ). i / 2 * t) (pow-suc 2 l)) in
    rw q (half_step (i / 2 * 2) i (2 ^ l) (omega arith) h)
  where
    half_step : (a b p : ℕ) → a ≤ b → b * p < n → a * p < n
    half_step a b p le lt = grind arith

module _ {n : ℕ} where
  taken_up_from_lem :
      (rounds l index : ℕ) {bs : Bitmaps}
      → Shape n bs
      → l + rounds ≡ levels
      → Starts n l (index / 2)
      → Shape n (taken_up_from rounds l index bs)
        × ((k d j : ℕ)
            → k ≡ l + d
            → k < levels
            → is_set_at (taken_up_from rounds l index bs) k j
              ≡ (not (up (suc d) index == j) && is_set_at bs k j))
        × ((k j : ℕ) → k < l → is_set_at (taken_up_from rounds l index bs) k j ≡ is_set_at bs k j)
  unfolding taken_up_from up
  taken_up_from_lem zero l index s total starts =
      (s, λ k d j e h. absurd (omega arith), λ k j h. refl)
  taken_up_from_lem (suc rounds) l index {bs} s total starts =
      let b : l < levels = omega arith in
      let e : l + 1 ≡ suc l = omega arith in
      let ih =
        taken_up_from_lem rounds (l + 1) (index / 2) (unset_at-Shape s l b (index / 2))
          (omega arith) (rw e (Starts-half l (index / 2) starts)) in
      let one = is_set_at-unset_at s l b (index / 2) starts in
      (
        ih.0,
        λ k d j q h. level k d j q (one k j) (λ d' q'. ih.1 k d' j q' h) (ih.2 k j),
        λ k j h. ground (arith, ih.2 k j, one k j),
      )
    where
      level :
          (k d j : ℕ)
          → k ≡ l + d
          → is_set_at (unset_at bs l (index / 2)) k j
            ≡ (not (l == k && (index / 2 == j)) && is_set_at bs k j)
          → ((d' : ℕ)
              → k ≡ l + 1 + d'
              → is_set_at (taken_up_from rounds (l + 1) (index / 2) (unset_at bs l (index / 2))) k j
                ≡ (not (up d' (index / 2 / 2) == j) && is_set_at (unset_at bs l (index / 2)) k j))
          → (k < l + 1
              → is_set_at (taken_up_from rounds (l + 1) (index / 2) (unset_at bs l (index / 2))) k j
                ≡ is_set_at (unset_at bs l (index / 2)) k j)
          → is_set_at (taken_up_from rounds (l + 1) (index / 2) (unset_at bs l (index / 2))) k j
            ≡ (not (up d (index / 2) == j) && is_set_at bs k j)
      level k zero j q one later kept = ground (arith, kept (omega arith))
      level k (suc d) j q one later kept = ground (arith, later d (omega arith))

  -- What `mark_used` does to every block: it clears the given block, the blocks in it and the
  -- blocks that contain it, and leaves the others as they were.
  pub mark_used_lem :
      (l index : ℕ) {bs : Bitmaps}
      → Shape n bs
      → l < levels
      → Fits n l index
      → Shape n (mark_used l index bs)
        × ((k d j : ℕ)
            → k + d ≡ l
            → is_set_at (mark_used l index bs) k j ≡ (not (up d j == index) && is_set_at bs k j))
        × ((k d j : ℕ)
            → k ≡ l + d
            → k < levels
            → is_set_at (mark_used l index bs) k j ≡ (not (up d index == j) && is_set_at bs k j))
  unfolding mark_used taken_up up
  mark_used_lem l index {bs} s b fits =
      let starts : Starts n l index = Starts-of_fits l index fits in
      let e : l + 1 ≡ suc l = omega arith in
      let down = taken_down_lem l index s b fits in
      let one = is_set_at-unset_at down.0 l b index starts in
      let above =
        taken_up_from_lem (levels - (l + 1)) (l + 1) index (unset_at-Shape down.0 l b index)
          (omega arith) (rw e (Starts-half l index starts)) in
      (
        above.0,
        λ k d j q.
            below k d j q (one k j) (down.2 k j) (λ d' q'. down.1 k d' j q')
              (above.2 k j (omega arith)),
        λ k d j q h.
            over k d j q (one k j) (down.2 k j (omega arith)) (λ d' q'. above.1 k d' j q' h)
              (λ h'. above.2 k j h'),
      )
    where
      down_bs : Bitmaps
      down_bs = taken_down l index bs

      unset_bs : Bitmaps
      unset_bs = unset_at down_bs l index

      last : Bitmaps
      last = taken_up_from (levels - (l + 1)) (l + 1) index unset_bs

      Starts-of_fits : (k i : ℕ) → Fits n k i → Starts n k i
      Starts-of_fits k i h = grind (arith, pow-pos k)

      below :
          (k d j : ℕ)
          → k + d ≡ l
          → is_set_at unset_bs k j ≡ (not (l == k && (index == j)) && is_set_at down_bs k j)
          → (l ≤ k → is_set_at down_bs k j ≡ is_set_at bs k j)
          → ((d' : ℕ)
              → k + suc d' ≡ l
              → is_set_at down_bs k j ≡ (not (up (suc d') j == index) && is_set_at bs k j))
          → is_set_at last k j ≡ is_set_at unset_bs k j
          → is_set_at last k j ≡ (not (up d j == index) && is_set_at bs k j)
      below k zero j q at_level same lower kept = ground (arith, same (omega arith))
      below k (suc d) j q at_level same lower kept = ground (arith, lower d q)

      over :
          (k d j : ℕ)
          → k ≡ l + d
          → is_set_at unset_bs k j ≡ (not (l == k && (index == j)) && is_set_at down_bs k j)
          → is_set_at down_bs k j ≡ is_set_at bs k j
          → ((d' : ℕ)
              → k ≡ l + 1 + d'
              → is_set_at last k j ≡ (not (up (suc d') index == j) && is_set_at unset_bs k j))
          → (k < l + 1 → is_set_at last k j ≡ is_set_at unset_bs k j)
          → is_set_at last k j ≡ (not (up d index == j) && is_set_at bs k j)
      over k zero j q at_level same higher kept = ground (arith, kept (omega arith))
      over k (suc d) j q at_level same higher kept = ground (arith, higher d (omega arith))
