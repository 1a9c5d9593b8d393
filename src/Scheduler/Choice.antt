-- ===== src/Scheduler/Choice.antt =====
-- kernel/src/scheduler.cpp, `select_next_process_with_lock`: the order in which it considers the
-- processes.
use thor_os.Prelude.{
  ℕ, zero, suc, ◌+◌, ◌-◌, ◌%◌, ◌≤◌, ◌<◌, ◌≡◌, refl, sym, ap, ◌∙◌, arith, false, inl, inr,
  Bool-cases, Bool, ◌||◌, List, [], ◌∷◌, ◌++◌, append_assoc, append-nil, ◌==◌, ltb, if◌then◌else◌,
  length, length-append, get_or, take, drop, get_or-append_left, get_or-append_right, take-append,
  drop-append, drop-get_or,
}
use thor_os.Scheduler.{
  Scheduler, process_at, run_queue, max_priority, runnable, first_runnable, or_else, select_higher,
  select_lower, select_around, select_same, next_index, select_next_process,
}

-- The queues of the priorities from `p` down to above `c`, one after the other.
pub queues_above : Scheduler → ℕ → ℕ → List ℕ
queues_above s c zero = []
queues_above s c (suc p) = if ltb c (suc p) then run_queue s (suc p) ++ queues_above s c p else []

-- The queues of the priorities from `p` down to 1.
pub queues_below : Scheduler → ℕ → List ℕ
queues_below s zero = []
queues_below s (suc p) = run_queue s (suc p) ++ queues_below s p

first_runnable-append :
    (s : Scheduler) (xs ys : List ℕ)
    → first_runnable s (xs ++ ys) ≡ or_else (first_runnable s xs) (first_runnable s ys)
unfolding first_runnable
first_runnable-append s [] ys = refl
first_runnable-append s (x ∷ xs) ys = elim (Bool-cases (runnable s x)) [
  | inl e ↦ rw e refl
  | inr e ↦ rw e (first_runnable-append s xs ys)
]

select_higher-queues_above :
    (s : Scheduler) (c p : ℕ) → select_higher s c p ≡ first_runnable s (queues_above s c p)
unfolding select_higher queues_above first_runnable
select_higher-queues_above s c zero = refl
select_higher-queues_above s c (suc p) = elim (Bool-cases (ltb c (suc p))) [
  | inl e ↦ rw (
    e,
    first_runnable-append s (run_queue s (suc p)) (queues_above s c p),
    select_higher-queues_above s c p,
  )
  | inr e ↦ rw e
]

select_lower-queues_below :
    (s : Scheduler) (p : ℕ) → select_lower s p ≡ first_runnable s (queues_below s p)
unfolding select_lower queues_below first_runnable
select_lower-queues_below s zero = refl
select_lower-queues_below s (suc p) = rw (
  first_runnable-append s (run_queue s (suc p)) (queues_below s p),
  select_lower-queues_below s p,
)

get_or-twice :
    (q : List ℕ) (k : ℕ) → k < length q + length q → get_or q (k % length q) 0 ≡ get_or (q ++ q) k 0
get_or-twice q k h = elim (Bool-cases (ltb k (length q))) [
  | inl e ↦
      let low : k < length q = ground arith in
      let m : k % length q ≡ k = grind arith in rw (m, get_or-append_left q q k 0 low)
  | inr e ↦
      let high : length q ≤ k = ground arith in
      let m : k % length q ≡ k - length q = grind arith in rw (m, get_or-append_right q q k 0 high)
]

select_around-take :
    (s : Scheduler) (q : List ℕ) (next rounds i : ℕ)
    → next + i + rounds ≤ length q + length q
    → select_around s q next rounds i ≡ first_runnable s (take rounds (drop (next + i) (q ++ q)))
unfolding select_around first_runnable
select_around-take s q next zero i h = refl
select_around-take s q next (suc rounds) i h =
    let inside : next + i < length (q ++ q) = omega (arith, length-append q q) in
    let up : next + (i + 1) ≡ suc (next + i) = omega arith in
    rw
      (
        get_or-twice q (next + i) (omega arith),
        drop-get_or (q ++ q) (next + i) 0 inside,
        select_around-take s q next rounds (i + 1) (omega arith),
        up,
      )
      refl

-- Whether a pid stands in a queue.
unfoldable pub is_queued : ℕ → List ℕ → Bool
is_queued pid [] = false
is_queued pid (x ∷ q) = x == pid || is_queued pid q

next_index-split :
    (before after : List ℕ) (current i size : ℕ)
    → is_queued current before ≡ false
    → next_index (before ++ (current ∷ after)) current i size ≡ (i + length before + 1) % size
unfolding next_index is_queued
next_index-split [] after current i size h = ground arith
next_index-split (x ∷ before) after current i size h = elim (Bool-cases (x == current)) [
  | inl e ↦ absurd (ground arith)
  | inr e ↦
      let deeper = next_index-split before after current (i + 1) size (ground arith) in
      rw e (deeper ∙ ap (λ (k : ℕ). k % size) (omega arith))
]

self_mod : (n : ℕ) → 0 < n → n % n ≡ 0
self_mod n h = grind arith

small_mod : (m n : ℕ) → m < n → m % n ≡ m
small_mod m n h = grind arith

length-zero : (xs : List ℕ) → length xs ≡ 0 → xs ≡ []
length-zero [] h = refl
length-zero (x ∷ xs) h = absurd (omega arith)

module _ (s : Scheduler) (before after : List ℕ) where
  around : List ℕ
  around = after ++ (before ++ (s.current_pid ∷ []))

  queue : List ℕ
  queue = before ++ (s.current_pid ∷ after)

  length-queue : length queue ≡ length before + length after + 1
  unfolding queue
  length-queue = omega (arith, length-append before (s.current_pid ∷ after))

  length-around : length around ≡ length queue
  unfolding around
  length-around = omega (
    arith,
    length-queue,
    length-append after (before ++ (s.current_pid ∷ [])),
    length-append before (s.current_pid ∷ []),
  )

  queue-split : queue ≡ (before ++ (s.current_pid ∷ [])) ++ after
  unfolding queue
  queue-split = sym (append_assoc before (s.current_pid ∷ []) after)

  queue-twice : queue ++ queue ≡ (before ++ (s.current_pid ∷ [])) ++ (around ++ after)
  unfolding around
  queue-twice = rw queue-split (
      append_assoc (before ++ (s.current_pid ∷ [])) after
        ((before ++ (s.current_pid ∷ [])) ++ after)
      ∙ ap (λ (t : List ℕ). (before ++ (s.current_pid ∷ [])) ++ t)
          (sym (append_assoc after (before ++ (s.current_pid ∷ [])) after)))

  take_from :
      (next : ℕ)
      → next ≡ length before + 1
      → take (length queue) (drop next (queue ++ queue)) ≡ around
  take_from next h =
      let n : next ≡ length (before ++ (s.current_pid ∷ [])) =
        omega (arith, h, length-append before (s.current_pid ∷ [])) in
      rw (
        queue-twice,
        n,
        drop-append (before ++ (s.current_pid ∷ [])) (around ++ after),
        sym length-around,
        take-append around after,
      )

  around_taken :
      take (length queue) (drop ((length before + 1) % length queue) (queue ++ queue)) ≡ around
  around_taken = elim (Bool-cases (length after == 0)) [
    | inl e ↦
        let last : after ≡ [] = length-zero after (ground arith) in
        let whole : length before + 1 ≡ length queue = ground (arith, length-queue) in
        let n : (length before + 1) % length queue ≡ 0 =
          rw whole (self_mod (length queue) (ground (arith, length-queue))) in
        rw n (
          take-append queue queue
          ∙ queue-split
          ∙ unfold around in rw (last, append-nil (before ++ (s.current_pid ∷ []))))
    | inr e ↦
        let more : length before + 1 < length queue = ground (arith, length-queue) in
        take_from ((length before + 1) % length queue)
          (small_mod (length before + 1) (length queue) more)
  ]

  -- The current process comes last among those of its priority.
  select_same-around :
      is_queued s.current_pid before ≡ false → select_same s queue ≡ first_runnable s around
  unfolding select_same
  select_same-around h =
      let next : next_index queue s.current_pid 0 (length queue)
          ≡ (length before + 1) % length queue =
        unfold queue in
        next_index-split before after s.current_pid 0 (length (before ++ (s.current_pid ∷ after))) h
        ∙ ap (λ (k : ℕ). k % length (before ++ (s.current_pid ∷ after))) (omega arith) in
      let inside : (length before + 1) % length queue ≤ length queue =
        omega (arith, length-queue) in
      let n : (length before + 1) % length queue + 0 ≡ (length before + 1) % length queue =
        omega arith in
      rw (
        next,
        select_around-take s queue ((length before + 1) % length queue) (length queue) 0
            (omega arith),
        n,
        around_taken,
      )

-- The processes in the order in which `select_next_process` considers them, where the queue of the
-- current priority holds `before`, the current process and `after`.
pub candidates : Scheduler → List ℕ → List ℕ → List ℕ
candidates s before after =
    let priority = (process_at s s.current_pid).priority in
    queues_above s priority max_priority
    ++ ((after ++ (before ++ (s.current_pid ∷ []))) ++ queues_below s (priority - 1))

-- The next process is the first one that is ready or running in this order: the queues of higher
-- priority, from the highest down, then the queue of the current process from the place after it
-- around to itself, then the queues of lower priority. The queue of its priority must hold the
-- current process, after the processes `before`, which are others.
pub select_next_process-candidates :
    (s : Scheduler) (before after : List ℕ)
    → run_queue s (process_at s s.current_pid).priority ≡ before ++ (s.current_pid ∷ after)
    → is_queued s.current_pid before ≡ false
    → select_next_process s ≡ first_runnable s (candidates s before after)
unfolding select_next_process candidates
select_next_process-candidates s before after queued first =
    let priority = (process_at s s.current_pid).priority in
    let same : select_same s (before ++ (s.current_pid ∷ after))
        ≡ first_runnable s (after ++ (before ++ (s.current_pid ∷ []))) =
      unfold queue in unfold around in select_same-around s before after first in
    rw (
      queued,
      same,
      select_higher-queues_above s priority max_priority,
      select_lower-queues_below s (priority - 1),
      first_runnable-append s (queues_above s priority max_priority)
          ((after ++ (before ++ (s.current_pid ∷ []))) ++ queues_below s (priority - 1)),
      first_runnable-append s (after ++ (before ++ (s.current_pid ∷ [])))
          (queues_below s (priority - 1)),
    )
