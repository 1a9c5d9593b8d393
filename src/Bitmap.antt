-- ===== src/Bitmap.antt =====
-- kernel/include/bitmap.hpp: `static_bitmap`, a bitmap over caller-provided 64-bit words.
-- A read outside the words gives 0 and a write outside them changes nothing; the laws are stated
-- for bits in range.
pub mod Laws
pub mod Search
pub mod Fill
mod Tests
use thor_os.Prelude.{
  ℕ, zero, suc, ◌+◌, ◌-◌, ◌*◌, ◌/◌, ◌%◌, ◌^◌, ◌≤◌, ◌<◌, bit_and, bit_or, Bool, not, List, Option,
  none, some, ◌==◌, if◌then◌else◌, length, get_or,
}
use thor_os.Prelude.{set as write}
use thor_os.Word.{all_ones, complement}

abbrev pub bits_per_word : ℕ
bits_per_word = 64

-- The result of a search that finds nothing.
abbrev pub npos : ℕ
npos = 18446744073709551615

-- `words` and the storage behind `data`.
pub record StaticBitmap : Type 0 where
  pub words : ℕ
  pub storage : List ℕ

abbrev pub word_offset : ℕ → ℕ
word_offset bit = bit / bits_per_word

abbrev pub bit_offset : ℕ → ℕ
bit_offset bit = bit % bits_per_word

abbrev pub bit_mask : ℕ → ℕ
bit_mask bit = 2 ^ bit_offset bit

-- `init(w, d)`
unfoldable pub init : ℕ → List ℕ → StaticBitmap
init w d = record { words = w; storage = d }

-- `for(i = start; i < start + rounds; ++i) data[i] = value;`
fill_from : ℕ → ℕ → ℕ → List ℕ → List ℕ
fill_from zero i value d = d
fill_from (suc rounds) i value d = fill_from rounds (i + 1) value (write d i value)

pub clear_all : StaticBitmap → StaticBitmap
unfolding fill_from
clear_all bm = record bm { storage = fill_from bm.words 0 0 bm.storage }

unfoldable pub set_all : StaticBitmap → StaticBitmap
unfolding fill_from
set_all bm = record bm { storage = fill_from bm.words 0 all_ones bm.storage }

-- The inner loop of `set_bit`, over the bits of one word.
find_bit : ℕ → ℕ → ℕ → Option ℕ
find_bit zero b word = none
find_bit (suc rounds) b word =
    let rest = find_bit rounds (b + 1) word in
    if bit_and word (bit_mask b) == 0 then rest else some b

-- The outer loop of `set_bit`, over the words. A word whose bits are searched in vain is followed
-- by the next one.
find_set_bit : ℕ → ℕ → List ℕ → ℕ
unfolding find_bit
find_set_bit zero w d = npos
find_set_bit (suc rounds) w d =
    let rest = find_set_bit rounds (w + 1) d in
    if get_or d w 0 == 0 then rest else elim (find_bit bits_per_word 0 (get_or d w 0)) [
      | none ↦ rest
      | some b ↦ w * bits_per_word + b
    ]

unfoldable pub set_bit : StaticBitmap → ℕ
unfolding find_set_bit
set_bit bm = find_set_bit bm.words 0 bm.storage

find_full_word : ℕ → ℕ → List ℕ → ℕ
find_full_word zero w d = npos
find_full_word (suc rounds) w d =
    let rest = find_full_word rounds (w + 1) d in
    if get_or d w 0 == all_ones then w * bits_per_word else rest

pub set_word : StaticBitmap → ℕ
unfolding find_full_word
set_word bm = find_full_word bm.words 0 bm.storage

pub is_set : StaticBitmap → ℕ → Bool
is_set bm bit = not (bit_and (get_or bm.storage (word_offset bit) 0) (bit_mask bit) == 0)

pub set : StaticBitmap → ℕ → StaticBitmap
set bm bit =
    let w = word_offset bit in
    record bm { storage = write bm.storage w (bit_or (get_or bm.storage w 0) (bit_mask bit)) }

pub unset : StaticBitmap → ℕ → StaticBitmap
unset bm bit =
    let w = word_offset bit in
    record bm {
      storage = write bm.storage w (bit_and (get_or bm.storage w 0) (complement (bit_mask bit)));
    }
