-- ===== src/Checksum.antt =====
-- kernel/include/net/checksum.hpp: the Internet checksum. Sums wrap at 2 ^ 32; `i & 1` is `i % 2`,
-- `<< 8` is `* 256`, and `& 0xFFFF` and `>> 16` are `% 65536` and `/ 65536`.
pub mod Fold
mod Tests
use thor_os.Prelude.{
  ℕ, zero, suc, ◌+◌, ◌-◌, ◌*◌, ◌/◌, ◌%◌, ◌^◌, Option, none, some, ◌>>=◌, List, [], ◌∷◌, ◌==◌,
  if◌then◌else◌,
}

pub checksum_add_from : List ℕ → ℕ → ℕ → ℕ
checksum_add_from [] i sum = sum
checksum_add_from (value ∷ values) i sum =
    let added = if i % 2 == 1 then (sum + value) % 2 ^ 32 else (sum + value * 256) % 2 ^ 32 in
    checksum_add_from values (i + 1) added

pub checksum_add_bytes : List ℕ → ℕ
checksum_add_bytes raw_values = checksum_add_from raw_values 0 0

-- The loop of `checksum_finalize`, for at most `rounds` tests of its condition.
unfoldable pub fold_carry : ℕ → ℕ → Option ℕ
fold_carry zero sum = none
fold_carry (suc rounds) sum =
    let rest = fold_carry rounds (sum % 65536 + sum / 65536) in
    if sum / 65536 == 0 then some sum else rest

-- Three tests are enough for a sum of 32 bits. The result is truncated to 16 bits.
pub checksum_finalize : ℕ → Option ℕ
checksum_finalize sum = do folded ← fold_carry 3 sum; some ((2 ^ 32 - 1 - folded) % 65536)

pub checksum_finalize_nz : ℕ → Option ℕ
checksum_finalize_nz sum = do
  checksum ← checksum_finalize sum
  some (if checksum == 0 then 65535 else checksum)
