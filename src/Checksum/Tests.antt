-- ===== src/Checksum/Tests.antt =====
-- Runs of the checksum, and instances of its theorems.
use thor_os.Prelude.{ℕ, ◌+◌, ◌≡◌, refl, arith, some, ◌>>=◌, List, [], ◌∷◌}
use thor_os.Checksum.{checksum_add_bytes, checksum_add_from, checksum_finalize, fold_carry}
use thor_os.Checksum.Fold.{checksum_finalize-verifies}

-- The start of an IP header.
abbrev header : List ℕ
header = 69 ∷ 0 ∷ 0 ∷ 115 ∷ 255 ∷ 17 ∷ []

header_runs : checksum_add_bytes header ≡ 83076
unfolding checksum_add_bytes checksum_add_from
header_runs = refl

finalize_runs : checksum_finalize 83076 ≡ some 47994
unfolding checksum_finalize fold_carry
finalize_runs = refl

checksum_finalize-verifies_example :
    (do r ← checksum_finalize 83076; checksum_finalize (83076 + r)) ≡ some 0
checksum_finalize-verifies_example = checksum_finalize-verifies 83076 (omega arith) (omega arith)
