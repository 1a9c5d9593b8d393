-- ===== src/BlockCache.antt =====
-- kernel/src/block_cache.cpp: a cache of blocks with a hash table and a list in the order of use.
-- The address of a block is its index in `blocks_memory`. A null pointer that is followed and a
-- failed assertion are the result `none`.
pub mod Chain
pub mod Reuse
mod Tests
use thor_os.Prelude.{
  ℕ, zero, suc, ◌+◌, ◌-◌, ◌*◌, ◌%◌, ◌^◌, Bool, true, false, Option, none, some, List, [], ◌∷◌, ◌==◌,
  ltb, if◌then◌else◌, ◌>>=◌, get_or, set, replicate,
}

-- Without the payload.
pub record Block : Type 0 where
  pub key : ℕ
  pub hash_next : Option ℕ
  pub free_next : Option ℕ
  pub free_prev : Option ℕ

pub record BlockCache : Type 0 where
  pub payload_size : ℕ
  pub blocks : ℕ
  pub blocks_memory : List Block
  pub hash_table : List (Option ℕ)
  pub front : Option ℕ
  pub rear : Option ℕ

abbrev pub null_block : Block
null_block = record { key = 0; hash_next = none; free_next = none; free_prev = none }

abbrev pub block_at : BlockCache → ℕ → Block
block_at c i = get_or c.blocks_memory i null_block

abbrev pub with_block : BlockCache → ℕ → Block → BlockCache
with_block c i b = record c { blocks_memory = set c.blocks_memory i b }

abbrev pub with_bucket : BlockCache → ℕ → Option ℕ → BlockCache
with_bucket c k entry = record c { hash_table = set c.hash_table k entry }

abbrev pub bucket : BlockCache → ℕ → Option ℕ
bucket c k = get_or c.hash_table k none

-- `orig_key % (blocks * 2)`
abbrev pub hash : BlockCache → ℕ → ℕ
hash c orig_key = orig_key % (c.blocks * 2 % 2 ^ 64)

-- The second loop of `init`, from the block `i` on.
pub init_blocks : ℕ → ℕ → ℕ → Option ℕ → List Block
init_blocks zero i blocks previous = []
init_blocks (suc left) i blocks previous =
    record {
      key = 0;
      hash_next = none;
      free_next = (if ltb i (blocks - 1) then some (i + 1) else none);
      free_prev = previous;
    }
    ∷ init_blocks left (i + 1) blocks (some i)

unfoldable pub init : ℕ → ℕ → BlockCache
init size count = record {
  payload_size = size;
  blocks = count;
  blocks_memory = init_blocks count 0 count none;
  hash_table = replicate (count * 2) none;
  front = some 0;
  rear = (if count == 0 then none else some (count - 1));
}

-- `(uint64_t(device) << 16) + sector`
pub cache_key : ℕ → ℕ → ℕ
cache_key device sector = (device * 2 ^ 16 % 2 ^ 64 + sector) % 2 ^ 64

-- The search of `block_if_present` along a chain, for at most `rounds` blocks.
pub find_from : ℕ → BlockCache → Option ℕ → ℕ → Option (Option ℕ)
find_from rounds c none orig_key = some none
find_from zero c (some entry) orig_key = none
find_from (suc rounds) c (some entry) orig_key =
    let rest = find_from rounds c (block_at c entry).hash_next orig_key in
    if (block_at c entry).key == orig_key then some (some entry) else rest

-- `block_if_present`: `none` inside is the null pointer.
pub block_if_present : BlockCache → ℕ → Option (Option ℕ)
block_if_present c orig_key = find_from c.blocks c (bucket c (hash c orig_key)) orig_key

-- The search of `block` for the block before `b`, which starts at `entry`.
pub unlink_from : ℕ → BlockCache → ℕ → ℕ → Option BlockCache
unlink_from zero c b entry = none
unlink_from (suc rounds) c b entry = elim ((block_at c entry).hash_next) [
  | none ↦ none
  | some next ↦
      let rest = unlink_from rounds c b next in
      if next == b
      then some
          (with_block c entry (record (block_at c entry) { hash_next = (block_at c b).hash_next }))
      else rest
]

abbrev pub is_block : Option ℕ → ℕ → Bool
is_block none b = false
is_block (some entry) b = entry == b

-- `block` takes a used block out of the hash table.
pub unlink : BlockCache → ℕ → Option BlockCache
unlink c b =
    if (block_at c b).key == 0
    then some c
    else (let previous_key = hash c (block_at c b).key in
        if is_block (bucket c previous_key) b
        then some (with_bucket c previous_key (block_at c b).hash_next)
        else unlink_from c.blocks c b b)

-- The end of the chain that starts at `entry`.
pub last_from : ℕ → BlockCache → ℕ → Option ℕ
last_from zero c entry = none
last_from (suc rounds) c entry = elim ((block_at c entry).hash_next) [
  | none ↦ some entry
  | some next ↦ last_from rounds c next
]

-- `block` puts the block at the end of its chain.
pub insert_end : BlockCache → ℕ → ℕ → Option BlockCache
insert_end c b entry = do
  last ← last_from c.blocks c entry
  let linked = with_block c last (record (block_at c last) { hash_next = some b })
  some (with_block linked b (record (block_at linked b) { hash_next = none }))

pub insert : BlockCache → ℕ → ℕ → Option BlockCache
insert c b orig_key =
    let keyed = with_block c b (record (block_at c b) { key = orig_key }) in
    elim (bucket keyed (hash c orig_key)) [
      | none ↦ some (
          with_bucket (with_block keyed b (record (block_at keyed b) { hash_next = none }))
            (hash c orig_key) (some b))
      | some entry ↦ insert_end keyed b entry
    ]

-- `block` moves the first block `b` of the free list, with `n` behind it, behind the last, `r`.
abbrev pub moved_cache : BlockCache → ℕ → ℕ → ℕ → BlockCache
moved_cache c b n r =
    let started = with_block c n (record (block_at c n) { free_prev = none }) in
    let linked = with_block started r (record (block_at started r) { free_next = some b }) in
    let ended = with_block linked b (record (block_at linked b) { free_prev = some r }) in
    record ended { front = some n; rear = some b }

pub move_to_rear : BlockCache → ℕ → Option BlockCache
move_to_rear c b = do
  front ← c.front
  next ← (block_at c front).free_next
  rear ← c.rear
  some (moved_cache c b next rear)

-- `block`, when the key is not in the table: the first block of the free list is used for it.
pub reuse : BlockCache → ℕ → Option (ℕ × Bool × BlockCache)
reuse c orig_key = do
  b ← c.front
  unlinked ← unlink c b
  inserted ← insert unlinked b orig_key
  moved ← move_to_rear inserted b
  some (b, false, moved)

abbrev pub reuse_unless : BlockCache → ℕ → Option ℕ → Option (ℕ × Bool × BlockCache)
reuse_unless c orig_key none = reuse c orig_key
reuse_unless c orig_key (some b) = some (b, true, c)

-- `block`: the block, whether it is valid, and the cache.
pub block : BlockCache → ℕ → Option (ℕ × Bool × BlockCache)
block c orig_key = do direct ← block_if_present c orig_key; reuse_unless c orig_key direct
