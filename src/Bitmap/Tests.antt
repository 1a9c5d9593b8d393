-- ===== src/Bitmap/Tests.antt =====
-- Runs of the bitmap, and its theorems at concrete bitmaps.
use thor_os.Prelude.{◌≡◌, refl, arith, [], ◌∷◌}
use thor_os.Bitmap.{StaticBitmap, npos, is_set, set, unset, set_bit, set_word, set_all, clear_all}
use thor_os.Bitmap
use thor_os.Bitmap.Laws.{IsValid}

-- Bits 66 and 67 are set.
abbrev two_words : StaticBitmap
two_words = record { words = 2; storage = 0 ∷ 12 ∷ [] }

abbrev full_second : StaticBitmap
full_second = record { words = 2; storage = 5 ∷ 18446744073709551615 ∷ [] }

set_bit_runs : (set_bit two_words ≡ 66) × (set_bit (unset two_words 66) ≡ 67)
unfolding set_bit unset Bitmap.find_set_bit
set_bit_runs = (refl, refl)

set_word_runs : (set_word full_second ≡ 64) × (set_word two_words ≡ npos)
unfolding set_word Bitmap.find_full_word
set_word_runs = (refl, refl)

two_words-IsValid : IsValid two_words
two_words-IsValid = omega arith

full_second-IsValid : IsValid full_second
full_second-IsValid = omega arith
