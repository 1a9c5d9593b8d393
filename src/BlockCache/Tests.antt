-- ===== src/BlockCache/Tests.antt =====
-- Runs of the block cache, and instances of its theorems.
use thor_os.Prelude.{ℕ, ◌^◌, ◌≡◌, refl, arith, Option, none, some, [], ◌∷◌, ◌>>=◌}
use thor_os.BlockCache.{
  Block, BlockCache, init, init_blocks, block, block_if_present, find_from, unlink, insert,
  insert_end, last_from, move_to_rear, reuse, cache_key,
}
use thor_os.BlockCache.Reuse.{block-unlink_fails}

abbrev block_of : ℕ → Option ℕ → Option ℕ → Option ℕ → Block
block_of k h n p = record { key = k; hash_next = h; free_next = n; free_prev = p }

-- A cache of three blocks after the keys 1 and 7, which share a bucket of six.
abbrev two_used : BlockCache
two_used = record {
  payload_size = 512;
  blocks = 3;
  blocks_memory =
      block_of 1 (some 1) (some 1) (some 2)
      ∷ block_of 7 none (some 2) (some 0)
      ∷ block_of 0 none (some 0) none
      ∷ [];
  hash_table = none ∷ some 0 ∷ none ∷ none ∷ none ∷ none ∷ [];
  front = some 2;
  rear = some 1;
}

two_used_run : (do a ← block (init 512 3) 1; b ← block a.2 7; some b.2) ≡ some two_used
unfolding block block_if_present find_from init init_blocks unlink insert insert_end last_from
    move_to_rear reuse
two_used_run = refl

-- The cache after the keys 0, 6, 2 and 8: the block of key 0 was not taken out of its chain.
abbrev broken : BlockCache
broken = record {
  payload_size = 512;
  blocks = 3;
  blocks_memory =
      block_of 8 none (some 1) (some 2)
      ∷ block_of 6 none (some 2) none
      ∷ block_of 2 (some 0) (some 0) (some 1)
      ∷ [];
  hash_table = some 0 ∷ none ∷ some 2 ∷ none ∷ none ∷ none ∷ [];
  front = some 1;
  rear = some 0;
}

broken_run :
    (do a ← block (init 512 3) 0; b ← block a.2 6; c ← block b.2 2; d ← block c.2 8; some d.2)
    ≡ some broken
unfolding block block_if_present find_from init init_blocks unlink insert insert_end last_from
    move_to_rear reuse
broken_run = refl

block-unlink_fails_example : block broken 5 ≡ none
block-unlink_fails_example =
    block-unlink_fails broken 1 0 5 [] (unfold block_if_present find_from in refl) refl
      (omega arith) refl (omega arith) refl tt (omega arith)

-- Sector 2^16 of device 0 has the key of sector 0 of device 1.
one_key : cache_key 0 (2 ^ 16) ≡ cache_key 1 0
unfolding cache_key
one_key = refl
