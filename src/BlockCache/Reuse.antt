-- ===== src/BlockCache/Reuse.antt =====
-- kernel/src/block_cache.cpp, `block`: what a lookup finds after a block was taken for a key.
use thor_os.Prelude.{
  ℕ, ◌<◌, ◌≡◌, ◌≢◌, ap, ◌∙◌, arith, false, Option, none, some, List, length, ◌==◌, if◌then◌else◌,
  if_false, ◌>>=◌,
}
use thor_os.BlockCache.{
  BlockCache, block_at, with_block, with_bucket, bucket, hash, is_block, block_if_present, unlink,
  insert_end, insert, move_to_rear, reuse, reuse_unless, block,
}
use thor_os.BlockCache.Chain.{Apart, Chain, unlink_from-fails}

-- What is left of the free list when blocks are put into the hash table.
record IsKept (c c' : BlockCache) : Type 0 where
  front : c'.front ≡ c.front
  rear : c'.rear ≡ c.rear
  frees : (i : ℕ) → (block_at c' i).free_next ≡ (block_at c i).free_next

-- The cache after `insert_end` behind the last block `l`.
abbrev linked_end : BlockCache → ℕ → ℕ → BlockCache
linked_end c b l =
    let linked = with_block c l (record (block_at c l) { hash_next = some b }) in
    with_block linked b (record (block_at linked b) { hash_next = none })

-- The body of `insert`, for the head of the chain.
insert_at : BlockCache → ℕ → ℕ → Option ℕ → Option BlockCache
insert_at keyed b key none = some (
    with_bucket (with_block keyed b (record (block_at keyed b) { hash_next = none }))
      (hash keyed key) (some b))
insert_at keyed b key (some entry) = insert_end keyed b entry

-- The cache without a block `b` that heads its chain or was never used.
abbrev pub unlinked : BlockCache → ℕ → BlockCache
unlinked c b =
    if (block_at c b).key == 0
    then c
    else with_bucket c (hash c (block_at c b).key) (block_at c b).hash_next

-- The search for the block before a used block starts at the block itself and not at the head of
-- its chain: whenever the block at the front of the free list is in its chain but not its head,
-- `block` fails its assertion for any key that is not in the table. The rest `q` of the chain must
-- be intact and shorter than the number of blocks.
pub block-unlink_fails :
    (c : BlockCache) (b h key : ℕ) (q : List ℕ)
    → block_if_present c key ≡ some none
    → c.front ≡ some b
    → (block_at c b).key ≢ 0
    → bucket c (hash c (block_at c b).key) ≡ some h
    → h ≢ b
    → Chain c (block_at c b).hash_next q
    → Apart b q
    → length q < c.blocks
    → block c key ≡ none
unfolding block reuse unlink
block-unlink_fails c b h key q miss at_front used head other v a few =
    ap (λ (o : Option (Option ℕ)). do direct ← o; reuse_unless c key direct) miss
    ∙ ap
        (λ (o : Option ℕ). do
          x ← o
          u ← unlink c x
          i ← insert u x key
          m ← move_to_rear i x
          some (x, false, m))
        at_front
    ∙ ap
        (λ (o : Option BlockCache). do
          u ← o
          i ← insert u b key
          m ← move_to_rear i b
          some (b, false, m))
        fails
  where
    unequal : (i j : ℕ) → i ≢ j → (i == j) ≡ false
    unequal i j n = ground arith

    fails : unlink c b ≡ none
    fails =
        if_false _ _ (unequal (block_at c b).key 0 used)
        ∙ if_false _ _ (ap (λ (o : Option ℕ). is_block o b) head ∙ unequal h b other)
        ∙ unlink_from-fails c.blocks c b b q few v a
