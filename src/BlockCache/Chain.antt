-- ===== src/BlockCache/Chain.antt =====
-- kernel/src/block_cache.cpp: the chains of the hash table.
use thor_os.Prelude.{
  ℕ, zero, suc, ◌<◌, ◌≡◌, ◌≢◌, refl, sym, ap, ◌∙◌, arith, true, false, Option, none, some, List, [],
  ◌∷◌, length, length-set, get_or-set_ne, ◌==◌, if◌then◌else◌, if_true, if_false,
}
use thor_os.BlockCache.{
  Block, BlockCache, null_block, block_at, with_block, find_from, unlink_from, last_from,
}

-- `b` is none of the blocks.
abbrev pub Apart : ℕ → List ℕ → Type 0
Apart b [] = Unit {0}
Apart b (p ∷ q) = (b ≢ p) × Apart b q

-- From `h` the pointers `hash_next` lead through the distinct blocks `q` to null.
abbrev pub Chain : BlockCache → Option ℕ → List ℕ → Type 0
Chain c h [] = h ≡ none
Chain c h (p ∷ q) =
    (h ≡ some p) × Apart p q × (p < length c.blocks_memory) × Chain c (block_at c p).hash_next q

-- No block of the chain has the key.
abbrev pub Lacks : BlockCache → ℕ → List ℕ → Type 0
Lacks c key [] = Unit {0}
Lacks c key (p ∷ q) = ((block_at c p).key ≢ key) × Lacks c key q

abbrev pub last_of : ℕ → List ℕ → ℕ
last_of p [] = p
last_of p (x ∷ q) = last_of x q

pub last_of-Apart : (b p : ℕ) (q : List ℕ) → Apart b (p ∷ q) → b ≢ last_of p q
last_of-Apart b p [] a = a.0
last_of-Apart b p (x ∷ q) a = last_of-Apart b x q a.1

pub last_of-lt :
    (c : BlockCache) (h : Option ℕ) (p : ℕ) (q : List ℕ)
    → Chain c h (p ∷ q)
    → last_of p q < length c.blocks_memory
last_of-lt c h p [] (at, apart, within, rest) = within
last_of-lt c h p (x ∷ q) (at, apart, within, rest) = last_of-lt c (block_at c p).hash_next x q rest

-- A write to a block that is not in the chain.
pub Chain-with_block :
    (c : BlockCache) (h : Option ℕ) (b : ℕ) (x : Block) (q : List ℕ)
    → Apart b q
    → Chain c h q
    → Chain (with_block c b x) h q
Chain-with_block c h b x [] a l = l
Chain-with_block c h b x (p ∷ q) a (at, apart, within, rest) =
    let same : block_at (with_block c b x) p ≡ block_at c p =
      get_or-set_ne c.blocks_memory x null_block a.0 in
    (
      at,
      apart,
      omega (arith, length-set c.blocks_memory b x, within),
      rw same (Chain-with_block c (block_at c p).hash_next b x q a.1 rest),
    )

pub Lacks-with_block :
    (c : BlockCache) (key b : ℕ) (x : Block) (q : List ℕ)
    → Apart b q
    → Lacks c key q
    → Lacks (with_block c b x) key q
Lacks-with_block c key b x [] a l = tt
Lacks-with_block c key b x (p ∷ q) a l =
    let same : block_at (with_block c b x) p ≡ block_at c p =
      get_or-set_ne c.blocks_memory x null_block a.0 in
    (rw same l.0, Lacks-with_block c key b x q a.1 l.1)

pub last_from-last_of :
    (rounds : ℕ) (c : BlockCache) (h : Option ℕ) (p : ℕ) (q : List ℕ)
    → length q < rounds
    → Chain c h (p ∷ q)
    → last_from rounds c p ≡ some (last_of p q)
unfolding last_from
last_from-last_of zero c h p q le l = absurd (omega arith)
last_from-last_of (suc rounds) c h p [] le (at, apart, within, rest) = rw (rest, last_from) refl
last_from-last_of (suc rounds) c h p (x ∷ q) le (at, apart, within, rest) =
    rw (rest.0, last_from)
      (last_from-last_of rounds c (block_at c p).hash_next x q (omega arith) rest)

test_ne : (a b : ℕ) → a ≢ b → (a == b) ≡ false
test_ne a b h = ground arith

test_eq : (a b : ℕ) → a ≡ b → (a == b) ≡ true
test_eq a b h = ground arith

pub find_from-hit :
    (rounds : ℕ) (c : BlockCache) (b key : ℕ)
    → (block_at c b).key ≡ key
    → find_from (suc rounds) c (some b) key ≡ some (some b)
unfolding find_from
find_from-hit rounds c b key e = if_true _ _ (test_eq (block_at c b).key key e)

pub find_from-miss :
    (rounds : ℕ) (c : BlockCache) (p key : ℕ)
    → (block_at c p).key ≢ key
    → find_from (suc rounds) c (some p) key ≡ find_from rounds c (block_at c p).hash_next key
unfolding find_from
find_from-miss rounds c p key e = if_false _ _ (test_ne (block_at c p).key key e)

-- A block `b` with the key that was put behind the last block `l` of a chain is found.
module _ (c c' : BlockCache) (b l key : ℕ)
    (same : (i : ℕ) → i ≢ l → i ≢ b → block_at c' i ≡ block_at c i)
    (next_of_l : (block_at c' l).hash_next ≡ some b)
    (key_of_l : (block_at c' l).key ≡ (block_at c l).key)
    (key_of_b : (block_at c' b).key ≡ key) where
  pub find_from-appended :
      (rounds : ℕ) (h : Option ℕ) (p : ℕ) (q : List ℕ)
      → suc (length q) < rounds
      → Chain c h (p ∷ q)
      → Apart b (p ∷ q)
      → Lacks c key (p ∷ q)
      → l ≡ last_of p q
      → find_from rounds c' (some p) key ≡ some (some b)
  find_from-appended zero h p q le v a k e = absurd (omega arith)
  find_from-appended (suc zero) h p q le v a k e = absurd (omega arith)
  find_from-appended (suc (suc rounds)) h p [] le v a k e =
      let at_p : (block_at c' p).hash_next ≡ some b =
        ap (λ (i : ℕ). (block_at c' i).hash_next) (sym e) ∙ next_of_l in
      let key_p : (block_at c' p).key ≡ (block_at c p).key =
        ap (λ (i : ℕ). (block_at c' i).key) (sym e)
        ∙ key_of_l
        ∙ ap (λ (i : ℕ). (block_at c i).key) e in
      find_from-miss (suc rounds) c' p key (λ x. k.0 (sym key_p ∙ x))
      ∙ ap (λ (o : Option ℕ). find_from (suc rounds) c' o key) at_p
      ∙ find_from-hit rounds c' b key key_of_b
  find_from-appended (suc (suc rounds)) h p (x ∷ q) le (at, apart, within, rest) a k e =
      let here : block_at c' p ≡ block_at c p =
        same p (λ s. last_of-Apart p x q apart (s ∙ e)) (λ s. a.0 (sym s)) in
      find_from-miss (suc rounds) c' p key (λ x. k.0 (sym (ap (λ (y : Block). y.key) here) ∙ x))
      ∙ ap (λ (o : Option ℕ). find_from (suc rounds) c' o key)
          (ap (λ (y : Block). y.hash_next) here ∙ rest.0)
      ∙ find_from-appended (suc rounds) (block_at c p).hash_next x q (omega arith) rest a.1 k.1 e

-- The search reads only the keys and the pointers of the chains.
pub find_from-frame :
    (rounds : ℕ) (c c' : BlockCache) (h : Option ℕ) (key : ℕ)
    → ((i : ℕ) → (block_at c' i).key ≡ (block_at c i).key)
    → ((i : ℕ) → (block_at c' i).hash_next ≡ (block_at c i).hash_next)
    → find_from rounds c' h key ≡ find_from rounds c h key
unfolding find_from
find_from-frame zero c c' none key keys nexts = refl
find_from-frame zero c c' (some p) key keys nexts = refl
find_from-frame (suc rounds) c c' none key keys nexts = refl
find_from-frame (suc rounds) c c' (some p) key keys nexts =
    rw (keys p, nexts p)
      (ap (λ (o : Option (Option ℕ)). if (block_at c p).key == key then some (some p) else o)
        (find_from-frame rounds c c' (block_at c p).hash_next key keys nexts))

-- The search for the block before `b`, in a chain that does not hold `b`.
pub unlink_from-fails :
    (rounds : ℕ) (c : BlockCache) (b entry : ℕ) (q : List ℕ)
    → length q < rounds
    → Chain c (block_at c entry).hash_next q
    → Apart b q
    → unlink_from rounds c b entry ≡ none
unfolding unlink_from
unlink_from-fails zero c b entry q le v a = absurd (omega arith)
unlink_from-fails (suc rounds) c b entry [] le v a = rw (v, unlink_from) refl
unlink_from-fails (suc rounds) c b entry (x ∷ q) le (at, apart, within, rest) a =
    rw (at, unlink_from)
      (if_false _ _ (test_ne x b (λ e. a.0 (sym e)))
        ∙ unlink_from-fails rounds c b x q (omega arith) rest a.1)
