-- ===== src/CircularBuffer/Cells.antt =====
-- Runs of cells around the array of a circular buffer, and their length.
use thor_os.Prelude.{
  ℕ, zero, suc, ◌+◌, ◌-◌, ◌%◌, ◌<◌, ◌≡◌, ◌≢◌, refl, sym, ap, ◌∙◌, arith, List, [], ◌∷◌, ◌++◌, ◌==◌,
  leb, if◌then◌else◌, get_or, length, get_or-set_ne, Bool-cases, inl, inr,
}
use thor_os.Prelude.{set as write}
use thor_os.CircularBuffer.{CircularBuffer}

-- The array has `size` cells, and both indices are inside.
pub record IsValid {A : Type 0} (c : CircularBuffer A) : Type 0 where
  pub stored : length c.buffer ≡ c.size
  pub start_inside : c.start < c.size
  pub end_inside : c.end < c.size

-- `n` cells from index `i` on, around the end of the array.
unfoldable pub cells : {A : Type 0} → List A → A → ℕ → ℕ → ℕ → List A
cells b junk size zero i = []
cells b junk size (suc n) i = get_or b i junk ∷ cells b junk size n ((i + 1) % size)

unfoldable pub distance : ℕ → ℕ → ℕ → ℕ
distance size start end = if leb start end then end - start else size + end - start

-- The elements, oldest first.
unfoldable pub contents : {A : Type 0} → CircularBuffer A → A → List A
contents c junk = cells c.buffer junk c.size (distance c.size c.start c.end) c.start

-- One step around the array.
pub next_cases : (i size : ℕ) → i < size → ((i + 1) % size) ≡ (if i + 1 == size then 0 else i + 1)
next_cases i size h = elim (Bool-cases (i + 1 == size)) [
  | inl e ↦ rw e (wraps i size (ground arith))
  | inr e ↦ rw e (stays (i + 1) size (ground arith))
]
  where
    wraps : (i size : ℕ) → i + 1 ≡ size → (i + 1) % size ≡ 0
    wraps i size e = rw e (self_mod size (omega (arith, e)))
      where
        self_mod : (n : ℕ) → 0 < n → n % n ≡ 0
        self_mod n p = grind arith

    stays : (m size : ℕ) → m < size → m % size ≡ m
    stays m size b = grind arith

pub distance-zero :
    (size start end : ℕ) → start < size → end < size → distance size start end ≡ 0 → start ≡ end
unfolding distance
distance-zero size start end s e h = ground arith

-- Where the queue is not empty, the rest of it starts one step further.
pub distance-next :
    (size start end : ℕ)
    → start < size
    → end < size
    → start ≢ end
    → distance size start end ≡ suc (distance size ((start + 1) % size) end)
unfolding distance
distance-next size start end s e ne = rw (next_cases start size s) (ground arith)

pub distance-push :
    (size start end : ℕ)
    → start < size
    → end < size
    → (end + 1) % size ≢ start
    → distance size start ((end + 1) % size) ≡ suc (distance size start end)
unfolding distance
distance-push size start end s e ne = let n = next_cases end size e in rw n (apart (sym n))
  where
    apart :
        ((if end + 1 == size then 0 else end + 1) ≡ (end + 1) % size)
        → (if leb start (if end + 1 == size then 0 else end + 1)
            then (if end + 1 == size then 0 else end + 1) - start
            else size + (if end + 1 == size then 0 else end + 1) - start)
          ≡ suc (if leb start end then end - start else size + end - start)
    apart q = ground arith

pub distance_self : (size i : ℕ) → distance size i i ≡ 0
unfolding distance
distance_self size i = ground arith

pub apart_of : (size start end n : ℕ) → distance size start end ≡ suc n → start ≢ end
apart_of size start end n h e =
    absurd
      (zero_one (sym (distance_self size end) ∙ ap (λ (i : ℕ). distance size i end) (sym e) ∙ h))
  where
    zero_one : 0 ≡ suc n → ⊥
    zero_one q = omega arith

pub mod-lt : (m size : ℕ) → 0 < size → m % size < size
mod-lt m size h = grind arith

-- One step around the array brings an index nearer.
pub nearer :
    (size start end n : ℕ)
    → start < size
    → end < size
    → distance size start end ≡ suc n
    → distance size ((start + 1) % size) end ≡ n
nearer size start end n s e h =
    omega (arith, distance-next size start end s e (apart_of size start end n h), h)

module _ {A : Type 0} (b : List A) (junk : A) (size p : ℕ) (inside : p < size) where
  -- The last of a run of cells.
  pub cells-last :
      (n start : ℕ)
      → start < size
      → distance size start p ≡ n
      → cells b junk size (suc n) start ≡ cells b junk size n start ++ (get_or b p junk ∷ [])
  unfolding cells
  cells-last zero start s h = rw (distance-zero size start p s inside h)
  cells-last (suc n) start s h =
      ap (λ (t : List A). get_or b start junk ∷ t)
        (cells-last n ((start + 1) % size) (mod-lt (start + 1) size (omega arith))
          (nearer size start p n s inside h))

  -- A write behind a run of cells does not change it.
  pub cells-write :
      (v : A) (n start : ℕ)
      → start < size
      → distance size start p ≡ n
      → cells (write b p v) junk size n start ≡ cells b junk size n start
  unfolding cells
  cells-write v zero start s h = refl
  cells-write v (suc n) start s h = rw (
    get_or-set_ne b v junk (λ e. apart_of size start p n h (sym e)),
    cells-write v n ((start + 1) % size) (mod-lt (start + 1) size (omega arith))
        (nearer size start p n s inside h),
  )
