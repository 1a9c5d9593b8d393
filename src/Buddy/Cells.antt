-- ===== src/Buddy/Cells.antt =====
-- The blocks of the allocator: block `i` of level `l` covers the pages `i * 2 ^ l` up to
-- `(i + 1) * 2 ^ l`. What one write to one bitmap does to all of them.
use thor_os.Prelude.{
  ℕ, zero, suc, ◌*◌, ◌^◌, ◌≤◌, ◌<◌, ◌≡◌, refl, ◌∙◌, arith, Bool, true, false, not, ◌&&◌, ◌||◌, [],
  ◌∷◌, ◌==◌, if◌then◌else◌, length, length-set, Bool-cases, ==_iff, ◌⊎◌, inl, inr,
}
use thor_os.Prelude.{set as write}
use thor_os.Bitmap
use thor_os.Bitmap.{StaticBitmap}
use thor_os.Bitmap.Laws.{
  IsValid, InRange, is_set-set, is_set-unset, set-IsValid, unset-IsValid, words-set, words-unset,
}
use thor_os.Buddy.{Bitmaps, levels, bitmap_at, is_set_at, set_at, unset_at}

-- The bitmaps have room for `n` pages: eight valid bitmaps, and a bit for each block that starts
-- below page `n`. What they have beyond page `n` is bounded, so that no address wraps.
pub record Shape (n : ℕ) (bs : Bitmaps) : Type 0 where
  pub small : n ≤ 2 ^ 52
  pub count : length bs ≡ levels
  pub valid : (l : ℕ) → l < levels → IsValid (bitmap_at bs l)
  pub bounded : (l : ℕ) → l < levels → (bitmap_at bs l).words * 64 * 2 ^ l ≤ 2 ^ 50
  pub room : (l i : ℕ) → l < levels → i * 2 ^ l < n → InRange (bitmap_at bs l) i

-- Block `i` of level `l` starts below page `n`.
abbrev pub Starts : ℕ → ℕ → ℕ → Type 0
Starts n l i = i * 2 ^ l < n

-- Block `i` of level `l` ends at or below page `n`.
abbrev pub Fits : ℕ → ℕ → ℕ → Type 0
Fits n l i = suc i * 2 ^ l ≤ n

at-write :
    (bs : Bitmaps) (l k : ℕ) (b : StaticBitmap)
    → l < length bs
    → bitmap_at (write bs l b) k ≡ (if l == k then b else bitmap_at bs k)
at-write [] l k b h = absurd (omega arith)
at-write (x ∷ xs) zero zero b h = refl
at-write (x ∷ xs) zero (suc k) b h = ground arith
at-write (x ∷ xs) (suc l) zero b h = ground arith
at-write (x ∷ xs) (suc l) (suc k) b h = ground (arith, at-write xs l k b)

module _ {n : ℕ} {bs : Bitmaps} (s : Shape n bs) (l : ℕ) (below : l < levels) where
  placed : l < length bs
  placed = rw s.count below

  module _ (b : StaticBitmap) (v : IsValid b) (same : b.words ≡ (bitmap_at bs l).words) where
    write-Shape : Shape n (write bs l b)
    write-Shape = record {
      small = s.small;
      count = length-set bs l b ∙ s.count;
      valid = λ k h. rw (at-write bs l k b placed) (chosen k h (l == k));
      bounded = λ k h. rw (at-write bs l k b placed) (small_enough k h (Bool-cases (l == k)));
      room = λ k i h p. rw (at-write bs l k b placed) (roomy k i h p (Bool-cases (l == k)));
    }
      where
        chosen : (k : ℕ) → k < levels → (t : Bool) → IsValid (if t then b else bitmap_at bs k)
        chosen k h true = v
        chosen k h false = s.valid k h

        small_enough :
            (k : ℕ)
            → k < levels
            → ((l == k) ≡ true) ⊎ ((l == k) ≡ false)
            → (if l == k then b else bitmap_at bs k).words * 64 * 2 ^ k ≤ 2 ^ 50
        small_enough k h (inl e) =
            let q : l ≡ k = (==_iff l k).0 e in rw (e, same) (let r = s.bounded k h in rw q r)
        small_enough k h (inr e) = rw e (s.bounded k h)

        roomy :
            (k i : ℕ)
            → k < levels
            → i * 2 ^ k < n
            → ((l == k) ≡ true) ⊎ ((l == k) ≡ false)
            → InRange (if l == k then b else bitmap_at bs k) i
        roomy k i h p (inl e) =
            let q : l ≡ k = (==_iff l k).0 e in
            rw (e, same) (let r : InRange (bitmap_at bs k) i = s.room k i h p in rw q r)
        roomy k i h p (inr e) = rw e (s.room k i h p)

  module _ (i : ℕ) where
    pub set_at-Shape : Shape n (set_at bs l i)
    set_at-Shape =
        write-Shape (Bitmap.set (bitmap_at bs l) i) (set-IsValid i (s.valid l below))
          (words-set (bitmap_at bs l) i)

    pub unset_at-Shape : Shape n (unset_at bs l i)
    unset_at-Shape =
        write-Shape (Bitmap.unset (bitmap_at bs l) i) (unset-IsValid i (s.valid l below))
          (words-unset (bitmap_at bs l) i)

    module _ (starts : Starts n l i) (k j : ℕ) where
      pub is_set_at-set_at : is_set_at (set_at bs l i) k j ≡ (l == k && i == j || is_set_at bs k j)
      is_set_at-set_at =
          rw (at-write bs l k (Bitmap.set (bitmap_at bs l) i) placed) (elim (Bool-cases (l == k)) [
            | inl e ↦
                let q : l ≡ k = (==_iff l k).0 e in
                rw e (rw (is_set-set i (s.valid l below) j (s.room l i below starts)) (rw q))
            | inr e ↦ rw e
          ])

      pub is_set_at-unset_at :
          is_set_at (unset_at bs l i) k j ≡ (not (l == k && i == j) && is_set_at bs k j)
      is_set_at-unset_at =
          rw (at-write bs l k (Bitmap.unset (bitmap_at bs l) i) placed)
            (elim (Bool-cases (l == k)) [
              | inl e ↦
                  let q : l ≡ k = (==_iff l k).0 e in
                  rw e (rw (is_set-unset i (s.valid l below) j (s.room l i below starts)) (rw q))
              | inr e ↦ rw e
            ])
