-- ===== src/CircularBuffer/Queue.antt =====
-- The circular buffer as a queue: the list of its elements, oldest first.
use thor_os.Prelude.{
  ℕ, zero, suc, ◌+◌, ◌-◌, ◌%◌, ◌≤◌, ◌<◌, ◌≡◌, ◌≢◌, refl, sym, ap, ◌∙◌, arith, Bool, true, false,
  not, List, [], ◌∷◌, ◌++◌, ◌==◌, if◌then◌else◌, get_or, length, length-set, get_or-set_self,
  if_true, if_false, elim-if, Bool-cases, inl, inr, ◌↔◌,
}
use thor_os.Prelude.{set as write}
use thor_os.CircularBuffer.{
  CircularBuffer, full, is_empty, push, top, pop, pop_last, contains_from, contains,
}
use thor_os.CircularBuffer.Cells.{
  IsValid, cells, distance, contents, next_cases, distance-zero, distance-next, distance-push,
  apart_of, mod-lt, nearer, cells-last, cells-write,
}

test_ne : (a b : ℕ) → (a == b) ≡ false → a ≢ b
test_ne a b h = ground arith

same_test : (a b : ℕ) → a ≡ b → (a == b) ≡ true
same_test a b h = ground arith

ne_test : (a b : ℕ) → a ≢ b → (a == b) ≡ false
ne_test a b h = ground arith

length-cells :
    {A : Type 0} (b : List A) (junk : A) (size n i : ℕ) → length (cells b junk size n i) ≡ n
unfolding cells
length-cells b junk size zero i = refl
length-cells b junk size (suc n) i = ap suc (length-cells b junk size n ((i + 1) % size))

full_distance :
    (size start end : ℕ)
    → start < size
    → end < size
    → (((end + 1) % size == start) ≡ true) ↔ (distance size start end + 1 ≡ size)
unfolding distance
full_distance size start end s e = rw (next_cases end size e) (ground arith)

distance-le : (size start end : ℕ) → start < size → end < size → distance size start end ≤ size
unfolding distance
distance-le size start end s e = ground arith

module _ {A : Type 0} (c : CircularBuffer A) (junk : A) (v : IsValid c) where
  pushed :
      (value : A)
      → (c.end + 1) % c.size ≢ c.start
      → contents (record c { buffer = write c.buffer c.end value; end = (c.end + 1) % c.size }) junk
        ≡ contents c junk ++ (value ∷ [])
  unfolding contents
  pushed value ne =
      let b = write c.buffer c.end value in
      let n = distance c.size c.start c.end in
      rw (distance-push c.size c.start c.end v.start_inside v.end_inside ne) (
        cells-last b junk c.size c.end v.end_inside n c.start v.start_inside refl
        ∙ ap (λ (t : List A). t ++ (get_or b c.end junk ∷ []))
            (cells-write c.buffer junk c.size c.end v.end_inside value n c.start v.start_inside
              refl)
        ∙ ap (λ (t : A). cells c.buffer junk c.size n c.start ++ (t ∷ []))
            (get_or-set_self c.buffer c.end value junk (omega (arith, v.stored, v.end_inside))))

  ends_at :
      (p : ℕ)
      → p < c.size
      → distance c.size c.start c.end ≡ suc (distance c.size c.start p)
      → cells c.buffer junk c.size (distance c.size c.start c.end) c.start
        ≡ cells c.buffer junk c.size (distance c.size c.start p) c.start
          ++ (get_or c.buffer p junk ∷ [])
  ends_at p inside h = rw h (
      cells-last c.buffer junk c.size p inside (distance c.size c.start p) c.start v.start_inside
        refl)

  -- A push on a full buffer answers false and leaves the queue; on a buffer that is not full it
  -- answers true and adds the value at the back of the queue. The buffer must have its cells and both indices inside.
  pub push-contents :
      (value : A)
      → ((push c value).0 ≡ not (full c))
        × (contents (push c value).1 junk
            ≡ (if full c then contents c junk else contents c junk ++ (value ∷ [])))
  unfolding push full
  push-contents value = elim (Bool-cases ((c.end + 1) % c.size == c.start)) [
    | inl e ↦ rw e (refl, refl)
    | inr e ↦ rw e (refl, pushed value (test_ne ((c.end + 1) % c.size) c.start e))
  ]

  -- A pop on a buffer that is not empty answers the front of the queue, as `top` does, and leaves
  -- the rest of the queue. The buffer must have its cells and both indices inside.
  pub pop-contents :
      is_empty c ≡ false
      → (contents c junk ≡ (pop c junk).0 ∷ contents (pop c junk).1 junk)
        × (top c junk ≡ (pop c junk).0)
  unfolding is_empty pop top contents cells
  pop-contents h = (
    rw (
        distance-next c.size c.start c.end v.start_inside v.end_inside
          (λ e. test_ne c.end c.start h (sym e))),
    refl,
  )

  -- `pop_last` on a buffer that is not empty removes the back of the queue. The buffer must have
  -- its cells and both indices inside.
  pub pop_last-contents :
      is_empty c ≡ false → (a : A) × (contents c junk ≡ contents (pop_last c) junk ++ (a ∷ []))
  unfolding is_empty pop_last contents
  pop_last-contents h =
      let apart : c.start ≢ c.end = λ e. test_ne c.end c.start h (sym e) in
      elim (Bool-cases (c.end == 0)) [
        | inl e ↦ (
          get_or c.buffer (c.size - 1) junk,
          rw e (
              ends_at (c.size - 1) (ground (arith, v.end_inside))
                (unfold distance in ground (arith, v.start_inside, v.end_inside, apart))),
        )
        | inr e ↦ (
          get_or c.buffer (c.end - 1) junk,
          rw e (
              ends_at (c.end - 1) (ground (arith, v.end_inside))
                (unfold distance in ground (arith, v.start_inside, v.end_inside, apart))),
        )
      ]

  -- The buffer is full exactly when the queue has one element less than the array has cells.
  -- The buffer must have its cells and both indices inside.
  pub full-length : (full c ≡ true) ↔ (length (contents c junk) + 1 ≡ c.size)
  unfolding full contents
  full-length =
      rw (length-cells c.buffer junk c.size (distance c.size c.start c.end) c.start)
        (full_distance c.size c.start c.end v.start_inside v.end_inside)

  -- Push, pop and `pop_last` keep the array and the indices inside it. The buffer must have its
  -- cells and both indices inside.
  pub kept-IsValid :
      (value : A) → IsValid (push c value).1 × (IsValid (pop c junk).1 × IsValid (pop_last c))
  unfolding push pop pop_last
  kept-IsValid value = (
    elim-if (λ (r : Bool × CircularBuffer A). IsValid r.1) (full c) (λ e. v)
        (λ e. record {
          stored = length-set c.buffer c.end value ∙ v.stored;
          start_inside = v.start_inside;
          end_inside = mod-lt (c.end + 1) c.size (omega (arith, v.end_inside));
        }),
    (
      record {
        stored = v.stored;
        start_inside = mod-lt (c.start + 1) c.size (omega (arith, v.end_inside));
        end_inside = v.end_inside;
      },
      elim-if (λ (r : CircularBuffer A). IsValid r) (c.end == 0)
          (λ e. record {
            stored = v.stored;
            start_inside = v.start_inside;
            end_inside = omega (arith, v.end_inside);
          })
          (λ e. record {
            stored = v.stored;
            start_inside = v.start_inside;
            end_inside = omega (arith, v.end_inside);
          }),
    ),
  )

abbrev pub any : {A : Type 0} → (A → Bool) → List A → Bool
any test [] = false
any test (x ∷ xs) = if test x then true else any test xs

contains_from-cells :
    {A : Type 0} (c : CircularBuffer A) (test : A → Bool) (junk : A) (v : IsValid c)
    (rounds n i : ℕ)
    → i < c.size
    → distance c.size i c.end ≡ n
    → n ≤ rounds
    → contains_from c test junk rounds i ≡ any test (cells c.buffer junk c.size n i)
unfolding contains_from cells
contains_from-cells c test junk v zero zero i s h le = refl
contains_from-cells c test junk v zero (suc n) i s h le = absurd (omega arith)
contains_from-cells c test junk v (suc rounds) zero i s h le =
    if_true _ _ (same_test i c.end (distance-zero c.size i c.end s v.end_inside h))
contains_from-cells c test junk v (suc rounds) (suc n) i s h le =
    if_false _ _ (ne_test i c.end (apart_of c.size i c.end n h))
    ∙ ap (λ (t : Bool). if test (get_or c.buffer i junk) then true else t)
        (contains_from-cells c test junk v rounds n ((i + 1) % c.size)
          (mod-lt (i + 1) c.size (omega arith)) (nearer c.size i c.end n s v.end_inside h)
          (omega arith))

-- `contains` tells whether an element of the queue passes the test. The buffer must have its cells
-- and both indices inside.
pub contains-contents :
    {A : Type 0} (c : CircularBuffer A) (test : A → Bool) (junk : A)
    → IsValid c
    → contains c test junk ≡ any test (contents c junk)
unfolding contains contents
contains-contents c test junk v =
    contains_from-cells c test junk v c.size (distance c.size c.start c.end) c.start v.start_inside
      refl (distance-le c.size c.start c.end v.start_inside v.end_inside)
