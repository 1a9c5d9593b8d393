-- ===== src/KernelHeap/Links.antt =====
-- kernel/src/kalloc.cpp: `insert_after` and `remove` on the free list.
use thor_os.Prelude.{
  ℕ, ◌≡◌, ◌≢◌, sym, subst, ◌∙◌, arith, true, false, List, ◌∷◌, ◌++◌, ◌==◌, if◌then◌else◌, if_false,
  if_true,
}
use thor_os.KernelHeap.{Chunk, Heap, inserted, removed, insert_after, remove}
use thor_os.KernelHeap.Lists.{
  All, NotIn, Distinct, All-without, Distinct-without, All-put_after, Distinct-put_after, All-split,
  All-implies, All-both,
}
use thor_os.KernelHeap.Ring.{
  Linked-put_middle, Linked-same, next_other, prev_apart, next_apart, Linked, Unlinked, PutIn,
  Linked-unlink, Linked-put,
}

module _ (f : ℕ → Chunk) (c : ℕ) where
  removed-Unlinked : (f c).prev ≢ c → (f c).next ≢ c → Unlinked f (removed f c) c
  unfolding removed
  removed-Unlinked p n = record {
    over = ground arith;
    back = ground arith;
    nexts = λ a u v. ground arith;
    prevs = λ a u v. ground arith;
  }

  -- The other fields stay, but for the mark of `c`.
  pub removed-size : (a : ℕ) → (removed f c a).size ≡ (f a).size
  unfolding removed
  removed-size a = ground arith

  pub removed-is_free :
      (a : ℕ) → (removed f c a).is_free ≡ (if a == c then false else (f a).is_free)
  unfolding removed
  removed-is_free a = ground arith

module _ (f : ℕ → Chunk) (x c : ℕ) where
  inserted-PutIn : x ≢ c → (f x).next ≢ c → PutIn f (inserted f x c) x c
  unfolding inserted
  inserted-PutIn p n = record {
    to = ground arith;
    to_back = ground arith;
    on = ground arith;
    on_back = ground arith;
    nexts = λ a u v. ground arith;
    prevs = λ a u v. ground arith;
  }

  pub inserted-size : (a : ℕ) → (inserted f x c a).size ≡ (f a).size
  unfolding inserted
  inserted-size a = ground arith

  pub inserted-is_free :
      (a : ℕ) → (inserted f x c a).is_free ≡ (if a == c then true else (f a).is_free)
  unfolding inserted
  inserted-is_free a = ground arith

pub not_same : (a c : ℕ) → a ≢ c → (a == c) ≡ false
not_same a c h = ground arith

-- The free list is a ring through the head, of different chunks that are marked free.
pub record IsRing (h : Heap) (l : List ℕ) : Type 0 where
  pub links : Linked h.chunks h.malloc_head l h.malloc_head
  pub distinct : Distinct l
  pub apart : NotIn h.malloc_head l
  pub marked : All (λ a. (h.chunks a).is_free ≡ true) l

pub IsRing-same :
    {h g : Heap} {l : List ℕ}
    → IsRing h l
    → g.malloc_head ≡ h.malloc_head
    → ((a : ℕ) → (g.chunks a).next ≡ (h.chunks a).next)
    → ((a : ℕ) → (g.chunks a).prev ≡ (h.chunks a).prev)
    → ((a : ℕ) → (g.chunks a).is_free ≡ (h.chunks a).is_free)
    → IsRing g l
IsRing-same {h} {g} {l} r e n p f = record {
  links =
      subst (λ (x : ℕ). Linked g.chunks x l x) (sym e)
        (Linked-same h.chunks g.chunks h.malloc_head l h.malloc_head n p r.links);
  distinct = r.distinct;
  apart = subst (λ (x : ℕ). NotIn x l) (sym e) r.apart;
  marked = All-implies l (λ a t. f a ∙ t) r.marked;
}

module _ {h : Heap} (c : ℕ) (l m : List ℕ) (r : IsRing h (l ++ (c ∷ m))) where
  apart_of : NotIn c (l ++ m) × Distinct (l ++ m)
  apart_of = Distinct-without l m c r.distinct

  head_apart : (c ≢ h.malloc_head) × NotIn h.malloc_head (l ++ m)
  head_apart = All-without (λ a. a ≢ h.malloc_head) l m c r.apart

  neighbours : ((h.chunks c).prev ≢ c) × ((h.chunks c).next ≢ c)
  neighbours =
      let around = All-split (λ a. a ≢ c) l m apart_of.0 in
      (
        (λ e.
            prev_apart h.chunks c h.malloc_head c l m h.malloc_head r.links
              ((λ q. head_apart.0 (sym q)), around.0) (sym e)),
        (λ e.
            next_apart h.chunks c h.malloc_head c l m h.malloc_head r.links around.1
              (λ q. head_apart.0 (sym q)) (sym e)),
      )

  pub remove-IsRing : IsRing (remove h c) (l ++ m)
  unfolding remove
  remove-IsRing = record {
    links =
        Linked-unlink h.chunks (removed h.chunks c) h.malloc_head c l m h.malloc_head
          (removed-Unlinked h.chunks c neighbours.0 neighbours.1) r.links r.distinct r.apart
          r.apart;
    distinct = apart_of.1;
    apart = head_apart.1;
    marked =
        All-both (l ++ m)
          (λ a other free.
            removed-is_free h.chunks c a ∙ if_false {b = a == c} _ _ (not_same a c other) ∙ free)
          apart_of.0 (All-without (λ a. (h.chunks a).is_free ≡ true) l m c r.marked).1;
  }

  -- A chunk `d` that is new to the ring, after `c`.
  pub insert_after-IsRing :
      (d : ℕ)
      → h.malloc_head ≢ d
      → NotIn d (l ++ (c ∷ m))
      → IsRing (insert_after h c d) (l ++ (c ∷ d ∷ m))
  unfolding insert_after
  insert_after-IsRing d new n = record {
    links =
        Linked-put_middle h.chunks (inserted h.chunks c d) h.malloc_head c d l m h.malloc_head
          (inserted-PutIn h.chunks c d (All-without (λ a. a ≢ d) l m c n).0 (λ e.
            next_apart h.chunks d h.malloc_head c l m h.malloc_head r.links
              (All-split (λ a. a ≢ d) l m (All-without (λ a. a ≢ d) l m c n).1).1 new (sym e)))
          r.links r.distinct r.apart r.apart new new n;
    distinct = Distinct-put_after l m c d r.distinct n;
    apart = All-put_after (λ a. a ≢ h.malloc_head) l m c d (λ e. new (sym e)) r.apart;
    marked =
        All-put_after (λ a. (inserted h.chunks c d a).is_free ≡ true) l m c d
          (inserted-is_free h.chunks c d d ∙ if_true {b = d == d} _ _ (ground arith))
          (All-both (l ++ (c ∷ m))
            (λ a other free.
              inserted-is_free h.chunks c d a
              ∙ if_false {b = a == d} _ _ (not_same a d other)
              ∙ free)
            n r.marked);
  }

-- A chunk `d` that is new to the ring, after the head.
pub insert_head-IsRing :
    {h : Heap} (d : ℕ) (l : List ℕ)
    → IsRing h l
    → h.malloc_head ≢ d
    → NotIn d l
    → IsRing (insert_after h h.malloc_head d) (d ∷ l)
unfolding insert_after
insert_head-IsRing {h} d l r new n = record {
  links =
      Linked-put h.chunks (inserted h.chunks h.malloc_head d) h.malloc_head d l h.malloc_head
        (inserted-PutIn h.chunks h.malloc_head d new
          (next_other h.chunks h.malloc_head d l h.malloc_head r.links n new))
        r.links (new, n) r.apart new r.distinct r.apart;
  distinct = (n, r.distinct);
  apart = ((λ e. new (sym e)), r.apart);
  marked = (
    inserted-is_free h.chunks h.malloc_head d d ∙ if_true {b = d == d} _ _ (ground arith),
    All-both l
        (λ a other free.
          inserted-is_free h.chunks h.malloc_head d a
          ∙ if_false {b = a == d} _ _ (not_same a d other)
          ∙ free)
        n r.marked,
  );
}
