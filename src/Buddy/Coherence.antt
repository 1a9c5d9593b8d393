-- ===== src/Buddy/Coherence.antt =====
-- kernel/include/buddy_allocator.hpp: the invariant of the bitmaps, that a block that is free has
-- free halves, under `mark_used` and `mark_free`.
use thor_os.Prelude.{
  ℕ, zero, suc, ◌+◌, ◌-◌, ◌/◌, ◌%◌, ◌^◌, ◌≤◌, ◌<◌, ◌≡◌, refl, sym, ◌∙◌, arith, Bool, true, not,
  ◌&&◌, ◌||◌, ◌==◌, Bool-cases, ◌⊎◌, inl, inr,
}
use native.Mathlib.Decide.{dec_lt}
use thor_os.Word.Bits.{pow-pos}
use thor_os.Buddy.{
  Bitmaps, levels, is_set_at, set_at, free_down, free_up_from, free_up, buddy_index, mark_used,
  mark_free,
}
use thor_os.Buddy.Cells.{Shape, Starts, Fits, set_at-Shape, is_set_at-set_at}
use thor_os.Buddy.Down.{up, up-half, free_down_lem}
use thor_os.Buddy.Up.{Starts-half, mark_used_lem}

-- A free block of level `suc l` has free halves, as far as these lie below page `n`.
abbrev pub IsCoherent : ℕ → Bitmaps → Type 0
IsCoherent n bs =
    (l c : ℕ)
    → suc l < levels
    → Starts n l c
    → is_set_at bs (suc l) (c / 2) ≡ true
    → is_set_at bs l c ≡ true

-- All blocks in a free block are free.
pub free_below :
    (n : ℕ) (bs : Bitmaps) (d k j : ℕ)
    → IsCoherent n bs
    → k + d < levels
    → Starts n k j
    → is_set_at bs (k + d) (up d j) ≡ true
    → is_set_at bs k j ≡ true
unfolding up
free_below n bs zero k j c b s h = let q : k + 0 ≡ k = omega arith in rw q at h
free_below n bs (suc d) k j c b s h =
    let q : k + suc d ≡ suc k + d = omega arith in
    c k j (omega arith) s
      (free_below n bs d (suc k) (j / 2) c (omega arith) (Starts-half k j s) (rw q at h))

-- The step of the two proofs below, on the test of one block: a block that is not cleared keeps
-- its value, and a block is cleared with its half.
cleared_test :
    (t t' now now' was was' : Bool)
    → now ≡ (not t && was)
    → now' ≡ (not t' && was')
    → (t' ≡ true → t ≡ true)
    → (was ≡ true → was' ≡ true)
    → now ≡ true
    → now' ≡ true
cleared_test t t' now now' was was' e e' imp keep h = ground arith

pub mark_used-IsCoherent :
    {n : ℕ} (l index : ℕ) {bs : Bitmaps}
    → Shape n bs
    → l < levels
    → Fits n l index
    → IsCoherent n bs
    → IsCoherent n (mark_used l index bs)
unfolding up
mark_used-IsCoherent l index {bs} s b fits c k x kb starts h =
    let now = mark_used_lem l index s b fits in
    elim (dec_lt k l) [
      | yes p ↦
          cleared_test (up (l - suc k) (x / 2) == index) (up (suc (l - suc k)) x == index) _ _ _ _
            (now.1 (suc k) (l - suc k) (x / 2) (omega arith))
            (now.1 k (suc (l - suc k)) x (omega arith)) (λ e. e) (c k x kb starts) h
      | no p ↦
          cleared_test (up (suc (k - l)) index == x / 2) (up (k - l) index == x) _ _ _ _
            (now.2 (suc k) (suc (k - l)) (x / 2) (omega arith) kb)
            (now.2 k (k - l) x (omega arith) (omega arith))
            (λ e. ground (arith, up-half (k - l) index)) (c k x kb starts) h
    ]

module _ {n : ℕ} where
  buddy_half :
      (index c : ℕ)
      → index < n
      → n ≤ 2 ^ 52
      → c / 2 ≡ index / 2
      → (c ≡ index) ⊎ (c ≡ buddy_index index)
  unfolding buddy_index
  buddy_half index c small bound e = elim (Bool-cases (index % 2 == 0)) [
    | inl even ↦
        rw even (elim (dec_lt index c) [ yes p ↦ inr (ground arith) | no p ↦ inl (ground arith) ])
    | inr odd ↦
        rw odd (elim (dec_lt c index) [ yes p ↦ inr (ground arith) | no p ↦ inl (ground arith) ])
  ]

  Starts-lt : (l i : ℕ) → Starts n l i → i < n
  Starts-lt l i h = grind (arith, pow-pos l)

  -- Freeing the block above a free block whose buddy is free keeps the invariant.
  join-IsCoherent :
      (l index : ℕ) {bs : Bitmaps}
      → Shape n bs
      → suc l < levels
      → Starts n l index
      → IsCoherent n bs
      → is_set_at bs l index ≡ true
      → is_set_at bs l (buddy_index index) ≡ true
      → IsCoherent n (set_at bs (suc l) (index / 2))
  join-IsCoherent l index {bs} s b starts c self buddy k x kb sx h =
      let one = is_set_at-set_at s (suc l) b (index / 2) (Starts-half l index starts) in
      let keep : is_set_at bs k x ≡ true → is_set_at (set_at bs (suc l) (index / 2)) k x ≡ true =
        λ e. ground (arith, one k x) in
      elim (Bool-cases (suc l == suc k && (index / 2 == x / 2))) [
        | inl t ↦
            let q : l ≡ k = ground arith in
            let r : x / 2 ≡ index / 2 = ground arith in
            keep (elim (buddy_half index x (Starts-lt l index starts) s.small r) [
              | inl e ↦ rw (← q, e) self
              | inr e ↦ rw (← q, e) buddy
            ])
        | inr t ↦ keep (c k x kb sx (ground (arith, one (suc k) (x / 2))))
      ]

  -- What the loop of `free_up` does: it only frees blocks, of the levels above, and keeps the
  -- invariant.
  free_up_from_lem :
      (rounds l index : ℕ) {bs : Bitmaps}
      → Shape n bs
      → l + suc rounds ≡ levels
      → Starts n l index
      → IsCoherent n bs
      → is_set_at bs l index ≡ true
      → Shape n (free_up_from rounds l index bs)
        × IsCoherent n (free_up_from rounds l index bs)
        × ((k j : ℕ) → k ≤ l → is_set_at (free_up_from rounds l index bs) k j ≡ is_set_at bs k j)
        × ((k j : ℕ)
            → is_set_at bs k j ≡ true
            → is_set_at (free_up_from rounds l index bs) k j ≡ true)
  unfolding free_up_from
  free_up_from_lem zero l index s total starts c self = (s, c, λ k j h. refl, λ k j h. h)
  free_up_from_lem (suc rounds) l index {bs} s total starts c self =
      let e : l + 1 ≡ suc l = omega arith in
      elim (Bool-cases (is_set_at bs l (buddy_index index))) [
        | inr t ↦ rw t (s, c, λ k j h. refl, λ k j h. h)
        | inl t ↦
            let b : suc l < levels = omega arith in
            let up_starts = Starts-half l index starts in
            let one = is_set_at-set_at s (suc l) b (index / 2) up_starts in
            let ih =
              free_up_from_lem rounds (suc l) (index / 2) (set_at-Shape s (suc l) b (index / 2))
                (omega arith) up_starts (join-IsCoherent l index s b starts c self t)
                (ground (arith, one (suc l) (index / 2))) in
            rw (t, e)
              (
                ih.0,
                ih.1,
                λ k j h. ground (arith, ih.2 k j, one k j),
                λ k j h. ih.3 k j (ground (arith, one k j)),
              )
      ]

-- `mark_free` before it turns to the levels above.
abbrev freed : ℕ → ℕ → Bitmaps → Bitmaps
freed l index bs = set_at (free_down l index bs) l index

module _ {n : ℕ} (l index : ℕ) {bs : Bitmaps} (s : Shape n bs) (b : l < levels)
    (fits : Fits n l index) where
  self-Starts : Starts n l index
  self-Starts = grind (arith, pow-pos l)

  freed-Shape : Shape n (freed l index bs)
  freed-Shape = set_at-Shape (free_down_lem l index s b fits).0 l b index

  freed_one :
      (k j : ℕ)
      → is_set_at (freed l index bs) k j
        ≡ (l == k && index == j || is_set_at (free_down l index bs) k j)
  freed_one = is_set_at-set_at (free_down_lem l index s b fits).0 l b index self-Starts

  freed_below :
      (d k j : ℕ)
      → k + d ≡ l
      → is_set_at (freed l index bs) k j ≡ (up d j == index || is_set_at bs k j)
  unfolding up
  freed_below zero k j q =
      ground (arith, freed_one k j, (free_down_lem l index s b fits).2 k j (omega arith))
  freed_below (suc d) k j q =
      ground (arith, freed_one k j, (free_down_lem l index s b fits).1 k d j q)

  freed_above : (k j : ℕ) → l < k → is_set_at (freed l index bs) k j ≡ is_set_at bs k j
  freed_above k j h =
      ground (arith, freed_one k j, (free_down_lem l index s b fits).2 k j (omega arith))

  freed_keeps : (k j : ℕ) → is_set_at bs k j ≡ true → is_set_at (freed l index bs) k j ≡ true
  freed_keeps k j h = elim (dec_lt l k) [
    | yes p ↦ freed_above k j p ∙ h
    | no p ↦ ground (arith, freed_below (l - k) k j (omega arith))
  ]

  freed-IsCoherent : IsCoherent n bs → IsCoherent n (freed l index bs)
  unfolding up
  freed-IsCoherent c k x kb starts h = elim (dec_lt k l) [
    | yes p ↦
        set_test (up (l - suc k) (x / 2) == index) _ _ _ _
          (freed_below (l - suc k) (suc k) (x / 2) (omega arith))
          (freed_below (suc (l - suc k)) k x (omega arith)) (c k x kb starts) h
    | no p ↦ freed_keeps k x (c k x kb starts (sym (freed_above (suc k) (x / 2) (omega arith)) ∙ h))
  ]
    where
      set_test :
          (t now now' was was' : Bool)
          → now ≡ (t || was)
          → now' ≡ (t || was')
          → (was ≡ true → was' ≡ true)
          → now ≡ true
          → now' ≡ true
      set_test t now now' was was' e e' keep g = ground arith

  -- What `mark_free` does: it frees the given block and the blocks in it, leaves the other blocks
  -- of these levels as they were, takes no free block away, and keeps the invariant.
  pub mark_free_lem :
      IsCoherent n bs
      → Shape n (mark_free l index bs)
        × IsCoherent n (mark_free l index bs)
        × ((k d j : ℕ)
            → k + d ≡ l
            → is_set_at (mark_free l index bs) k j ≡ (up d j == index || is_set_at bs k j))
        × ((k j : ℕ) → is_set_at bs k j ≡ true → is_set_at (mark_free l index bs) k j ≡ true)
  unfolding mark_free free_up up
  mark_free_lem c =
      let self : is_set_at (freed l index bs) l index ≡ true = ground (arith, freed_one l index) in
      let last =
        free_up_from_lem (levels - (l + 1)) l index freed-Shape (omega arith) self-Starts
          (freed-IsCoherent c) self in
      (
        last.0,
        last.1,
        λ k d j q. last.2 k j (omega arith) ∙ freed_below d k j q,
        λ k j h. last.3 k j (freed_keeps k j h),
      )
