-- ===== src/Word.antt =====
-- Words of 64 bits as the kernel's bitmaps use them: a word is a number below 2 ^ 64, `|` and `&`
-- are the native operations, and `~` is the complement in 64 bits.
pub mod Digits
pub mod Bits
pub mod Shift
use thor_os.Prelude.{ℕ, ◌+◌, ◌-◌, ◌^◌}

abbrev pub u64_mod : ℕ
u64_mod = 2 ^ 64

-- `~static_cast<uint64_t>(0)`
abbrev pub all_ones : ℕ
all_ones = 2 ^ 64 - 1

-- `~m` for a 64-bit `m`.
abbrev pub complement : ℕ → ℕ
complement m = 2 ^ 64 - 1 - m
