-- ===== src/Buddy/Sound.antt =====
-- The state of a working allocator, its addresses, and what an allocation may answer.
use thor_os.Prelude.{ℕ, suc, ◌+◌, ◌*◌, ◌^◌, ◌≤◌, ◌<◌, ◌≡◌, arith, true, not, ◌&&◌, ◌⊎◌}
use native.Mathlib.Nat.{mul-div_cancel}
use thor_os.Word.Bits.{pow-pos}
use thor_os.Buddy.{
  BuddyAllocator, levels, page_unit, block_start, get_block_index, mul64, necessary_size, sub64,
  max_block, level,
}
use thor_os.Buddy.Cells.{Shape}
use thor_os.Buddy.Coherence.{IsCoherent}
use thor_os.Buddy.Levels.{level_size-pow, pow_mono}
use thor_os.Buddy.Pages.{is_free, among}

-- `n` whole pages are managed, between addresses that leave room for the sums of `size_t`.
pub record IsSound (n : ℕ) (a : BuddyAllocator) : Type 0 where
  pub shape : Shape n a.bitmaps
  pub coherent : IsCoherent n a.bitmaps
  pub start : 0 < a.first_address
  pub covered : a.first_address + n * page_unit ≤ a.last_address
  pub whole : a.last_address < a.first_address + suc n * page_unit
  pub high : a.last_address ≤ 2 ^ 62

-- The answer `r` to a request for `pages` pages is a run of free pages, which it takes.
pub record Allocated (n : ℕ) (a : BuddyAllocator) (pages : ℕ) (r : ℕ × BuddyAllocator)
    : Type 0 where
  pub from : ℕ
  pub size : ℕ
  pub address : r.0 ≡ a.first_address + from * page_unit
  pub enough : pages ≤ size
  pub reserved : size * page_unit ≡ necessary_size pages
  pub inside : from + size ≤ n
  pub were_free : (u : ℕ) → among from (from + size) u ≡ true → is_free a.bitmaps u ≡ true
  pub taken :
      (u : ℕ) → is_free r.1.bitmaps u ≡ (not (among from (from + size) u) && is_free a.bitmaps u)
  pub one_block :
      pages ≤ max_block → (i : ℕ) × (from ≡ i * 2 ^ level pages) × (size ≡ 2 ^ level pages)
  pub sound : IsSound n r.1
  pub same_start : r.1.first_address ≡ a.first_address

-- The other answer is address 0, with the allocator as it was.
abbrev pub Outcome : ℕ → BuddyAllocator → ℕ → ℕ × BuddyAllocator → Type 0
Outcome n a pages r = (r ≡ (0, a)) ⊎ Allocated n a pages r

module _ (a : BuddyAllocator) (l i : ℕ) (small : i * 2 ^ l ≤ 2 ^ 50)
    (high : a.first_address ≤ 2 ^ 62) where
  pub block_start_lem : block_start a l i ≡ a.first_address + i * 2 ^ l * page_unit
  unfolding block_start
  block_start_lem = rw (level_size-pow l) (omega arith)

  -- `get_block_index` inverts `block_start`.
  pub get_block_index-block_start : l < levels → get_block_index a (block_start a l i) l ≡ i
  unfolding get_block_index
  get_block_index-block_start b =
      let size : 2 ^ l ≤ 128 = pow_mono l 7 (omega arith) in
      let e₁ : sub64 (a.first_address + i * 2 ^ l * page_unit) a.first_address
          ≡ i * (2 ^ l * page_unit) =
        omega arith in
      let e₂ : mul64 (2 ^ l) page_unit ≡ 2 ^ l * page_unit = omega arith in
      rw (block_start_lem, level_size-pow l, e₁, e₂) (mul-div_cancel i (omega (arith, pow-pos l)))
