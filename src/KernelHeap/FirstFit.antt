-- ===== src/KernelHeap/FirstFit.antt =====
-- kernel/src/kalloc.cpp: the chunk that `k_malloc` takes, and what it leaves of it.
use thor_os.Prelude.{
  ℕ, ◌+◌, ◌-◌, ◌%◌, ◌≤◌, ◌≡◌, ◌≢◌, refl, sym, ap, ◌∙◌, arith, true, false, some, List, [], ◌∷◌,
  ◌++◌, ltb, ◌==◌, if◌then◌else◌, if_false, if_true, Bool-cases, inl, inr,
}
use thor_os.Word.Shift.{bit_and-ones}
use thor_os.KernelHeap.{
  Heap, insert_after, remove, inserted, sized, set_sizes, set_neighbours, aligned, split,
  take_chunk,
}
use thor_os.KernelHeap.Lists.{All, NotIn}
use thor_os.KernelHeap.Links.{
  IsRing, IsRing-same, remove-IsRing, insert_after-IsRing, removed-size, removed-is_free,
  inserted-size, not_same,
}

pub aligned-mod : (v : ℕ) → aligned v ≡ (v % 16 == 0)
unfolding aligned
aligned-mod v = ap (λ (x : ℕ). x == 0) (bit_and-ones 4 v)

-- The bytes of the chunks, headers and footers included.
abbrev pub total : Heap → List ℕ → ℕ
total h [] = 0
total h (a ∷ l) = (h.chunks a).size + 40 + total h l

-- Chunk `c` between the chunks `l` and `m` of the list is taken for `bytes` bytes: what is left of
-- it, `rest`, takes its place, right after it in memory.
pub record Taken (h : Heap) (c bytes : ℕ) (l m : List ℕ) (s : Heap) : Type 0 where
  pub rest : List ℕ
  pub ring : IsRing s (l ++ (rest ++ m))
  pub enough : bytes ≤ (s.chunks c).size
  pub whole : (s.chunks c).size + total s rest ≡ (h.chunks c).size
  pub place : All (λ a. a ≡ c + (s.chunks c).size + 40) rest
  pub in_use : (s.chunks c).is_free ≡ false
  pub elsewhere : (a : ℕ) → a ≢ c → NotIn a rest → (s.chunks a).size ≡ (h.chunks a).size
  pub same_head : s.malloc_head ≡ h.malloc_head

module _ {h : Heap} (c bytes : ℕ) (l m : List ℕ) (r : IsRing h (l ++ (c ∷ m)))
    (fits : bytes ≤ (h.chunks c).size) where
  remove-Taken : Taken h c bytes l m (remove h c)
  unfolding remove
  remove-Taken = record {
    rest = [];
    ring = remove-IsRing c l m r;
    enough = omega (arith, removed-size h.chunks c c);
    whole = omega (arith, removed-size h.chunks c c);
    place = tt;
    in_use = removed-is_free h.chunks c c ∙ if_true {b = c == c} _ _ (ground arith);
    elsewhere = λ a u v. removed-size h.chunks c a;
    same_head = refl;
  }

  abbrev new : ℕ
  new = c + bytes + 40

  abbrev new_size : ℕ
  new_size = (h.chunks c).size - (bytes + 40)

  -- The heap after the sizes and the neighbours are written.
  abbrev prepared : Heap
  prepared =
      let s = set_neighbours (sized h c bytes) c (h.chunks c).left true in
      set_neighbours (sized s new new_size) new true (h.chunks c).right

  module _ (large : bytes + 40 ≤ (h.chunks c).size) (fresh : h.malloc_head ≢ new)
      (unused : NotIn new (l ++ (c ∷ m))) where
    prepared-size :
        (a : ℕ)
        → (prepared.chunks a).size
          ≡ (if a == new then new_size else if a == c then bytes else (h.chunks a).size)
    unfolding set_neighbours
    prepared-size a = ground arith

    prepared-IsRing : IsRing prepared (l ++ (c ∷ m))
    unfolding set_neighbours
    prepared-IsRing = IsRing-same r refl (λ a. ground arith) (λ a. ground arith) (λ a. ground arith)

    abbrev after : Heap
    after = remove (insert_after prepared c new) c

    after-size : (a : ℕ) → (after.chunks a).size ≡ (prepared.chunks a).size
    unfolding remove insert_after
    after-size a =
        removed-size (inserted prepared.chunks c new) c a ∙ inserted-size prepared.chunks c new a

    split-Taken : Taken h c bytes l m after
    unfolding remove set_neighbours insert_after
    split-Taken = record {
      rest = new ∷ [];
      ring =
          remove-IsRing c l (new ∷ m) (insert_after-IsRing c l m prepared-IsRing new fresh unused);
      enough = omega (arith, at_c);
      whole = omega (arith, at_c, at_new);
      place = (omega (arith, at_c), tt);
      in_use =
          removed-is_free (insert_after prepared c new).chunks c c
          ∙ if_true {b = c == c} _ _ (ground arith);
      elsewhere = λ a u v. after-size a ∙ others a u (λ e. v.0 (sym e));
      same_head = refl;
    }
      where
        at_c : (after.chunks c).size ≡ bytes
        at_c =
            after-size c
            ∙ prepared-size c
            ∙ if_false {b = c == new} _ _ (ground arith)
            ∙ if_true {b = c == c} _ _ (ground arith)

        at_new : (after.chunks new).size ≡ new_size
        at_new = after-size new ∙ prepared-size new ∙ if_true {b = new == new} _ _ (ground arith)

        others : (a : ℕ) → a ≢ c → a ≢ new → (prepared.chunks a).size ≡ (h.chunks a).size
        others a u v =
            prepared-size a
            ∙ if_false {b = a == new} _ _ (not_same a new v)
            ∙ if_false {b = a == c} _ _ (not_same a c u)

  -- The test of `k_malloc`, and the alignment of the chunk that is split off.
  pub take_chunk-Taken :
      c % 16 ≡ 0
      → bytes % 16 ≡ 8
      → h.malloc_head ≢ new
      → NotIn new (l ++ (c ∷ m))
      → (s : Heap) × (take_chunk h c bytes ≡ some s) × Taken h c bytes l m s
  unfolding take_chunk split set_sizes
  take_chunk-Taken at16 round fresh unused =
      elim (Bool-cases (ltb (bytes + 40 + 24 + 40) (h.chunks c).size)) [
        | inl e ↦
            (let c16 : aligned c ≡ true = aligned-mod c ∙ ground arith in
              let new16 : aligned new ≡ true = aligned-mod new ∙ ground arith in
              (
                after (ground arith) fresh unused,
                rw (e, c16, new16) refl,
                split-Taken (ground arith) fresh unused,
              ))
        | inr e ↦ (remove h c, rw e refl, remove-Taken)
      ]
