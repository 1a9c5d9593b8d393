-- ===== src/KernelHeap/Coalesce.antt =====
-- kernel/src/kalloc.cpp: `coalesce` on the free list.
use thor_os.Prelude.{
  ℕ, ◌+◌, ◌%◌, ◌^◌, ◌≤◌, ◌<◌, ◌≡◌, ◌≢◌, refl, sym, ap, ◌∙◌, arith, Bool, true, false, not, ◌&&◌,
  Option, some, List, ◌∷◌, ◌++◌, ◌==◌, if◌then◌else◌, if_false, if_true, elim-if, ◌>>=◌, ◌⊎◌, inl,
  inr,
}
use thor_os.Buddy.{add64, sub64}
use thor_os.KernelHeap.{
  Heap, remove, removed, sized, set_sizes, set_neighbours, aligned, joined, left_block, right_block,
  coalesce,
}
use thor_os.KernelHeap.Lists.{NotIn, All-without, Distinct-without}
use thor_os.KernelHeap.Links.{
  IsRing, IsRing-same, remove-IsRing, removed-size, removed-is_free, not_same,
}
use thor_os.KernelHeap.FirstFit.{aligned-mod}

-- The test of `coalesce` for a neighbour, 0 for none.
abbrev pub joins : Heap → ℕ → Bool
joins h n = not (n == 0) && (h.chunks n).is_free

no_join : (h : Heap) (n : ℕ) → n ≡ 0 → joins h n ≡ false
no_join h n e = ground arith

-- A neighbour that joins leaves the list `l` and gives the list `m`.
pub data Leaves (h : Heap) (n : ℕ) : List ℕ → List ℕ → Type 0 where
  stays : {l : List ℕ} → joins h n ≡ false → Leaves h n l l
  leaves : (l m : List ℕ) → joins h n ≡ true → Leaves h n (l ++ (n ∷ m)) (l ++ m)

-- The bytes that a neighbour adds to the chunk that it joins.
unfoldable pub gain : Heap → ℕ → ℕ
gain h n = if joins h n then (h.chunks n).size + 40 else 0

module _ {h : Heap} (a b out : ℕ) (l m : List ℕ) (r : IsRing h (l ++ (out ∷ m)))
    (at16 : a % 16 ≡ 0) where
  abbrev joined_size : ℕ
  joined_size = add64 (add64 (h.chunks a).size (h.chunks b).size) 40

  abbrev after_join : Heap
  after_join =
      set_neighbours (sized (remove h out) a joined_size) a (h.chunks a).left (h.chunks b).right

  joined-after_join : joined h a b out ≡ some after_join
  unfolding joined set_sizes
  joined-after_join = let t : aligned a ≡ true = aligned-mod a ∙ ground arith in rw t refl

  after_join-IsRing : IsRing after_join (l ++ m)
  unfolding set_neighbours
  after_join-IsRing =
      IsRing-same (remove-IsRing out l m r) refl (λ x. ground arith) (λ x. ground arith)
        (λ x. ground arith)

  after_join-is_free : (x : ℕ) → x ≢ out → (after_join.chunks x).is_free ≡ (h.chunks x).is_free
  unfolding set_neighbours remove
  after_join-is_free x n =
      same ∙ removed-is_free h.chunks out x ∙ if_false {b = x == out} _ _ (not_same x out n)
    where
      same : (after_join.chunks x).is_free ≡ (removed h.chunks out x).is_free
      same = ground arith

  after_join-size : (after_join.chunks a).size ≡ joined_size
  unfolding set_neighbours
  after_join-size = ground arith

  after_join-sizes : (x : ℕ) → x ≢ a → (after_join.chunks x).size ≡ (h.chunks x).size
  unfolding set_neighbours remove
  after_join-sizes x n = same ∙ removed-size h.chunks out x
    where
      same : (after_join.chunks x).size ≡ (removed h.chunks out x).size
      same = ground arith

  after_join-head : after_join.malloc_head ≡ h.malloc_head
  unfolding set_neighbours remove
  after_join-head = refl

-- The chunk that `coalesce` gives, with the list without its parts.
pub record Coalesced (h : Heap) (c : ℕ) (l : List ℕ) (o : Option (ℕ × Heap)) : Type 0 where
  pub chunk : ℕ
  pub heap : Heap
  pub gives : o ≡ some (chunk, heap)
  pub ring : IsRing heap l
  pub new : NotIn chunk l
  pub not_head : heap.malloc_head ≢ chunk
  pub whose : (chunk ≡ c) ⊎ (chunk ≡ left_block h c)
  pub size :
      (heap.chunks chunk).size
      ≡ (h.chunks c).size + gain h (left_block h c) + gain h (right_block h c)

no_gain : (h : Heap) (n : ℕ) → joins h n ≡ false → gain h n ≡ 0
unfolding gain
no_gain h n t = if_false _ _ t

some_gain : (h : Heap) (n : ℕ) → joins h n ≡ true → gain h n ≡ (h.chunks n).size + 40
unfolding gain
some_gain h n t = if_true _ _ t

gain-le : (h : Heap) (n : ℕ) → gain h n ≤ (h.chunks n).size + 40
unfolding gain
gain-le h n =
    elim-if (λ (x : ℕ). x ≤ (h.chunks n).size + 40) (joins h n) (λ t. omega arith)
      (λ t. omega arith)

-- The first half of `coalesce`: what the left neighbour does.
abbrev pub left_joined : Heap → ℕ → Option (ℕ × Heap)
left_joined h b =
    let a = left_block h b in
    if not (a == 0) && (h.chunks a).is_free
    then (do s ← joined h a b a; some (a, s))
    else some (b, h)

abbrev pub right_joined : ℕ → ℕ × Heap → Option (ℕ × Heap)
right_joined c r =
    if not (c == 0) && (r.1.chunks c).is_free
    then (do s ← joined r.1 r.0 c c; some (r.0, s))
    else some r

coalesce_lem :
    (h : Heap) (b : ℕ) → coalesce h b ≡ (do r ← left_joined h b; right_joined (right_block h b) r)
unfolding coalesce
coalesce_lem h b = refl

-- After the left neighbour `a` joined, or stayed.
pub record Joined (h : Heap) (b : ℕ) (l : List ℕ) : Type 0 where
  pub at : ℕ
  pub heap : Heap
  pub gives : left_joined h b ≡ some (at, heap)
  pub ring : IsRing heap l
  pub new : NotIn at l
  pub not_head : heap.malloc_head ≢ at
  pub aligned16 : at % 16 ≡ 0
  pub others : (x : ℕ) → x ≢ left_block h b → (heap.chunks x).is_free ≡ (h.chunks x).is_free
  pub whose : (at ≡ b) ⊎ (at ≡ left_block h b)
  pub size : (heap.chunks at).size ≡ (h.chunks b).size + gain h (left_block h b)
  pub sizes : (x : ℕ) → x ≢ at → (heap.chunks x).size ≡ (h.chunks x).size

module _ {h : Heap} (b : ℕ) (b16 : b % 16 ≡ 0) (not_head : h.malloc_head ≢ b)
    (a16 : left_block h b % 16 ≡ 0)
    (bounded : (h.chunks b).size
        + (h.chunks (left_block h b)).size
        + (h.chunks (right_block h b)).size
      < 2 ^ 63) where
  pub left_Joined :
      {l m : List ℕ} → IsRing h l → NotIn b l → Leaves h (left_block h b) l m → Joined h b m
  left_Joined r new (stays t) = record {
    at = b;
    heap = h;
    gives = if_false _ _ t;
    ring = r;
    new = new;
    not_head = not_head;
    aligned16 = b16;
    others = λ x n. refl;
    whose = inl refl;
    size = omega (arith, no_gain h (left_block h b) t);
    sizes = λ x n. refl;
  }
  left_Joined r new (leaves l m t) =
      let a : ℕ = left_block h b in
      let apart = All-without (λ x. x ≢ h.malloc_head) l m a r.apart in
      record {
        at = a;
        heap = after_join a b a l m r a16;
        gives =
            if_true _ _ t
            ∙ ap (λ (o : Option Heap). do s ← o; some (a, s)) (joined-after_join a b a l m r a16);
        ring = after_join-IsRing a b a l m r a16;
        new = (Distinct-without l m a r.distinct).0;
        not_head = λ e. apart.0 (sym (sym (after_join-head a b a l m r a16) ∙ e));
        aligned16 = a16;
        others = after_join-is_free a b a l m r a16;
        whose = inr refl;
        size = omega (arith, after_join-size a b a l m r a16, some_gain h a t, bounded);
        sizes = after_join-sizes a b a l m r a16;
      }

  same_test :
      {l : List ℕ} (j : Joined h b l)
      → (right_block h b ≡ 0) ⊎ (right_block h b ≢ left_block h b)
      → joins j.heap (right_block h b) ≡ joins h (right_block h b)
  same_test j (inl nothing) =
      no_join j.heap (right_block h b) nothing ∙ sym (no_join h (right_block h b) nothing)
  same_test j (inr apart) =
      ap (λ (x : Bool). not (right_block h b == 0) && x) (j.others (right_block h b) apart)

  -- The right neighbour, after that.
  pub right_Coalesced :
      {l m : List ℕ}
      → Joined h b l
      → (right_block h b ≡ 0) ⊎ (right_block h b ≢ left_block h b)
      → Leaves h (right_block h b) l m
      → Coalesced h b m (coalesce h b)
  right_Coalesced {l} j apart (stays t) = record {
    chunk = j.at;
    heap = j.heap;
    gives =
        coalesce_lem h b
        ∙ ap (λ (o : Option (ℕ × Heap)). do r ← o; right_joined (right_block h b) r) j.gives
        ∙ if_false _ _ (same_test j apart ∙ t);
    ring = j.ring;
    new = j.new;
    not_head = j.not_head;
    whose = j.whose;
    size = omega (arith, j.size, no_gain h (right_block h b) t);
  }
  right_Coalesced j apart (leaves l m t) =
      let c : ℕ = right_block h b in
      record {
        chunk = j.at;
        heap = after_join j.at c c l m j.ring j.aligned16;
        gives =
            coalesce_lem h b
            ∙ ap (λ (o : Option (ℕ × Heap)). do r ← o; right_joined c r) j.gives
            ∙ if_true _ _ (same_test j apart ∙ t)
            ∙ ap (λ (o : Option Heap). do s ← o; some (j.at, s))
                (joined-after_join j.at c c l m j.ring j.aligned16);
        ring = after_join-IsRing j.at c c l m j.ring j.aligned16;
        new = (All-without (λ x. x ≢ j.at) l m c j.new).1;
        not_head = λ e. j.not_head (sym (after_join-head j.at c c l m j.ring j.aligned16) ∙ e);
        whose = j.whose;
        size = omega (
          arith,
          after_join-size j.at c c l m j.ring j.aligned16,
          j.size,
          j.sizes c (All-without (λ x. x ≢ j.at) l m c j.new).0,
          some_gain h c t,
          gain-le h (left_block h b),
          bounded,
        );
      }

-- With the count of `k_free`.
abbrev pub less_used : Heap → ℕ → Heap
less_used h c = record h { used_memory = sub64 h.used_memory (add64 (h.chunks c).size 40) }

pub less_used-gain : (h : Heap) (c n : ℕ) → gain (less_used h c) n ≡ gain h n
unfolding gain
less_used-gain h c n = refl
