-- ===== src/Buddy/Pages.antt =====
-- kernel/include/buddy_allocator.hpp: the allocator as a set of free pages, and `mark_used` and
-- `mark_free` as changes of this set.
use native.Mathlib.Nat.{pow-suc}
use thor_os.Prelude.{
  ℕ, zero, suc, ◌+◌, ◌*◌, ◌/◌, ◌^◌, ◌≤◌, ◌<◌, ◌≡◌, ◌∙◌, ap, arith, Bool, true, not, ◌&&◌, ◌||◌,
  ◌==◌, ltb, leb,
}
use thor_os.Word.Bits.{pow-pos}
use thor_os.Buddy.{
  Bitmaps, levels, is_set_at, mark_used, mark_free, mark_used_word, mark_free_word, add64,
}
use thor_os.Buddy.Cells.{Shape, Fits}
use thor_os.Buddy.Down.{up}
use thor_os.Buddy.Up.{mark_used_lem}
use thor_os.Buddy.Coherence.{IsCoherent, free_below, mark_used-IsCoherent, mark_free_lem}

-- Page `u` is free: its bit of level 0 is set.
abbrev pub is_free : Bitmaps → ℕ → Bool
is_free bs u = is_set_at bs 0 u

-- `from <= u && u < to`
abbrev pub among : ℕ → ℕ → ℕ → Bool
among from to u = leb from u && ltb u to

-- The pages of block `i` of level `l` are those that it contains.
pub up_covers : (l i u : ℕ) → (up l u == i) ≡ among (i * 2 ^ l) (suc i * 2 ^ l) u
unfolding up
up_covers zero i u = ground arith
up_covers (suc l) i u =
    up_covers l i (u / 2)
    ∙ halved (i * 2 ^ l) (suc i * 2 ^ l) (i * 2 ^ suc l) (suc i * 2 ^ suc l)
        (omega (arith, ap (λ (t : ℕ). i * t) (pow-suc 2 l)))
        (omega (arith, ap (λ (t : ℕ). suc i * t) (pow-suc 2 l)))
  where
    halved : (a b c d : ℕ) → c ≡ 2 * a → d ≡ 2 * b → among a b (u / 2) ≡ among c d u
    halved a b c d e e' = ground arith

-- From `bs` to `cs`, the pages from `from` up to `to` have been taken and the others left alone.
pub record Takes (n : ℕ) (bs : Bitmaps) (from to : ℕ) (cs : Bitmaps) : Type 0 where
  pub shape : Shape n cs
  pub coherent : IsCoherent n cs
  pub pages : (u : ℕ) → is_free cs u ≡ (not (among from to u) && is_free bs u)

-- From `bs` to `cs`, the pages from `from` up to `to` have been freed and the others left alone.
pub record Gives (n : ℕ) (bs : Bitmaps) (from to : ℕ) (cs : Bitmaps) : Type 0 where
  pub shape : Shape n cs
  pub coherent : IsCoherent n cs
  pub pages : (u : ℕ) → is_free cs u ≡ (among from to u || is_free bs u)

module _ {n : ℕ} (l index : ℕ) {bs : Bitmaps} (s : Shape n bs) (c : IsCoherent n bs)
    (b : l < levels) (fits : Fits n l index) where
  pub mark_used-Takes : Takes n bs (index * 2 ^ l) (suc index * 2 ^ l) (mark_used l index bs)
  mark_used-Takes = record {
    shape = (mark_used_lem l index s b fits).0;
    coherent = mark_used-IsCoherent l index s b fits c;
    pages = λ u.
        (mark_used_lem l index s b fits).1 0 l u (omega arith)
        ∙ ap (λ t. not t && is_free bs u) (up_covers l index u);
  }

  pub mark_free-Gives : Gives n bs (index * 2 ^ l) (suc index * 2 ^ l) (mark_free l index bs)
  mark_free-Gives = record {
    shape = (mark_free_lem l index s b fits c).0;
    coherent = (mark_free_lem l index s b fits c).1;
    pages = λ u.
        (mark_free_lem l index s b fits c).2 0 l u (omega arith)
        ∙ ap (λ t. t || is_free bs u) (up_covers l index u);
  }

  -- A free block holds free pages only.
  pub pages_free :
      is_set_at bs l index ≡ true
      → (u : ℕ) → among (index * 2 ^ l) (suc index * 2 ^ l) u ≡ true
      → is_free bs u ≡ true
  pages_free h u inside = free_below n bs l 0 u c (omega arith) (ground arith) (
      let q : up l u ≡ index = ground (arith, up_covers l index u) in
      let z : 0 + l ≡ l = omega arith in rw (q, z) h)

grow : (l index rounds : ℕ) → (suc index + rounds) * 2 ^ l ≡ (index + suc rounds) * 2 ^ l
grow l index rounds = ap (λ (t : ℕ). t * 2 ^ l) (omega arith)

-- The first block of a row ends between the ends of the row.
take_ends :
    (l index rounds : ℕ)
    → (index * 2 ^ l ≤ suc index * 2 ^ l) × (suc index * 2 ^ l ≤ (index + suc rounds) * 2 ^ l)
take_ends l index rounds = grind arith

-- Several blocks in a row, as the second branches of `allocate` and `free` do.
module _ {n : ℕ} (l : ℕ) (b : l < levels) where
  Fits-first : (index rounds : ℕ) → (index + suc rounds) * 2 ^ l ≤ n → Fits n l index
  Fits-first index rounds h = grind (arith, pow-pos l)

  index_small : (index rounds : ℕ) → n ≤ 2 ^ 52 → (index + suc rounds) * 2 ^ l ≤ n → index < 2 ^ 52
  index_small index rounds small h = grind (arith, pow-pos l)

  pub mark_used_word-Takes :
      (rounds index : ℕ) {bs : Bitmaps}
      → Shape n bs
      → IsCoherent n bs
      → (index + rounds) * 2 ^ l ≤ n
      → Takes n bs (index * 2 ^ l) ((index + rounds) * 2 ^ l) (mark_used_word rounds l index bs)
  unfolding mark_used_word
  mark_used_word-Takes zero index s c fits = record {
    shape = s;
    coherent = c;
    pages = λ u. let q : index + 0 ≡ index = omega arith in rw q (ground arith);
  }
  mark_used_word-Takes (suc rounds) index {bs} s c fits =
      let small : index < 2 ^ 52 = index_small index rounds s.small fits in
      let e : add64 index 1 ≡ suc index = omega arith in
      let one = mark_used-Takes l index s c b (Fits-first index rounds fits) in
      let more =
        mark_used_word-Takes rounds (suc index) one.shape one.coherent
          (rw (grow l index rounds) fits) in
      rw e (record {
        shape = more.shape;
        coherent = more.coherent;
        pages = λ u.
            ground
              (arith, more.pages u, one.pages u, grow l index rounds, take_ends l index rounds);
      })

  pub mark_free_word-Gives :
      (rounds index : ℕ) {bs : Bitmaps}
      → Shape n bs
      → IsCoherent n bs
      → (index + rounds) * 2 ^ l ≤ n
      → Gives n bs (index * 2 ^ l) ((index + rounds) * 2 ^ l) (mark_free_word rounds l index bs)
  unfolding mark_free_word
  mark_free_word-Gives zero index s c fits = record {
    shape = s;
    coherent = c;
    pages = λ u. let q : index + 0 ≡ index = omega arith in rw q (ground arith);
  }
  mark_free_word-Gives (suc rounds) index {bs} s c fits =
      let small : index < 2 ^ 52 = index_small index rounds s.small fits in
      let e : add64 index 1 ≡ suc index = omega arith in
      let one = mark_free-Gives l index s c b (Fits-first index rounds fits) in
      let more =
        mark_free_word-Gives rounds (suc index) one.shape one.coherent
          (rw (grow l index rounds) fits) in
      rw e (record {
        shape = more.shape;
        coherent = more.coherent;
        pages = λ u.
            ground
              (arith, more.pages u, one.pages u, grow l index rounds, take_ends l index rounds);
      })
