-- ===== src/Conc/Exclusion.antt =====
-- kernel/include/conc/mutex.hpp and semaphore.hpp: who holds a lock, over any interleaving of its
-- operations with each other and with the scheduler.
use thor_os.Prelude.{
  ℕ, suc, ◌+◌, ◌^◌, ◌<◌, ◌≤◌, ◌≡◌, sym, ap, arith, Bool, true, false, Option, none, some, List, [],
  ◌∷◌, ◌++◌, length, length-append, ltb, if◌then◌else◌, Option-cases, inl, inr, After, result,
  After-some, After-if, After-bind,
}
use thor_os.Scheduler.{Scheduler}
use thor_os.Scheduler.Invariant.{Step}
use thor_os.Conc.WaitList.{is_empty, top, enqueue, dequeue}
use thor_os.Conc.Locks.{
  Lock, mutex_enter, mutex_try_lock, mutex_unlock, semaphore_enter, semaphore_try_lock,
  semaphore_unlock,
}

abbrev pub one_if : Bool → ℕ
one_if true = 1
one_if false = 0

-- The operations of a lock that `n` processes may hold, and how they count.
pub record LockOps (n : ℕ) : Type 0 where
  pub enter : Lock → Scheduler → Option (Bool × Lock × Scheduler)
  pub try_lock : Lock → Bool × Lock
  pub unlock : Lock → Scheduler → Option (Lock × Scheduler)
  pub enter-value :
      (m : Lock) (s : Scheduler)
      → m.value ≤ n
      → After (λ (r : Bool × Lock × Scheduler). r.1.value + one_if r.0 ≡ m.value) (enter m s)
  pub try_lock-value :
      (m : Lock) → m.value ≤ n → (try_lock m).1.value + one_if (try_lock m).0 ≡ m.value
  pub unlock-value :
      (m : Lock) (s : Scheduler)
      → m.value < n
      → After
          (λ (r : Lock × Scheduler). r.0.value ≡ m.value + one_if (is_empty m.queue))
          (unlock m s)

-- A lock, the scheduler, and the processes that hold the lock.
pub record System : Type 0 where
  pub lock : Lock
  pub sched : Scheduler
  pub holders : List ℕ

-- The holders after an unlock by one of them: a process that waits is handed the lock.
abbrev pub handed : Lock → Option ℕ → List ℕ → List ℕ
handed m woken hs = if is_empty m.queue then hs else (elim woken [ none ↦ hs | some p ↦ p ∷ hs ])

abbrev pub system : Lock → Scheduler → List ℕ → System
system m s hs = record { lock = m; sched = s; holders = hs }

module _ {n : ℕ} (ops : LockOps n) where
  -- One step: the critical section of an operation of the lock by the current process, or a step of
  -- the scheduler. Only a process that holds the lock unlocks it.
  pub data Turn : System → System → Type 0 where
    entered :
        {m m' : Lock} {s s' : Scheduler} (hs : List ℕ)
        → ops.enter m s ≡ some (true, m', s')
        → Turn (system m s hs) (system m' s' (s.current_pid ∷ hs))
    queued :
        {m m' : Lock} {s s' : Scheduler} (hs : List ℕ)
        → ops.enter m s ≡ some (false, m', s')
        → Turn (system m s hs) (system m' s' hs)
    tried :
        {m m' : Lock} {s : Scheduler} (hs : List ℕ)
        → ops.try_lock m ≡ (true, m')
        → Turn (system m s hs) (system m' s (s.current_pid ∷ hs))
    unlocked :
        {m m' : Lock} {s s' : Scheduler} {hs : List ℕ} (before after : List ℕ) (holder : ℕ)
        → hs ≡ before ++ (holder ∷ after)
        → ops.unlock m s ≡ some (m', s')
        → Turn (system m s hs) (system m' s' (handed m (top m.queue s) (before ++ after)))
    scheduled :
        {m : Lock} {s s' : Scheduler} (hs : List ℕ)
        → Step s s'
        → Turn (system m s hs) (system m s' hs)

  pub data Turns (a : System) : System → Type 0 where
    start : Turns a a
    then_turn : {b c : System} → Turns a b → Turn b c → Turns a c

  abbrev pub Counted : System → Type 0
  Counted a = a.lock.value + length a.holders ≡ n

  length-handed :
      (m : Lock) (s : Scheduler) (hs : List ℕ)
      → length (handed m (top m.queue s) hs) + one_if (is_empty m.queue) ≡ suc (length hs)
  unfolding is_empty top
  length-handed m s hs = elim (Option-cases m.queue.head) [
    | inl e ↦ rw e (omega arith)
    | inr (p, e) ↦ rw e (omega arith)
  ]

  Turn-Counted : {a b : System} → Counted a → Turn a b → Counted b
  Turn-Counted c (entered {m} {m'} {s} {s'} hs e) =
      omega (arith, After-some (ops.enter-value m s (omega (arith, c))) e)
  Turn-Counted c (queued {m} {m'} {s} {s'} hs e) =
      omega (arith, c, After-some (ops.enter-value m s (omega (arith, c))) e)
  Turn-Counted c (tried {m} {m'} {s} hs e) =
      let same : m'.value + 1 ≡ (ops.try_lock m).1.value + one_if (ops.try_lock m).0 =
        ap (λ (r : Bool × Lock). r.1.value + one_if r.0) (sym e) in
      omega (arith, c, ops.try_lock-value m (omega (arith, c)))
  Turn-Counted c (unlocked {m} {m'} {s} {s'} {hs} before after holder at e) =
      let size : length hs ≡ suc (length (before ++ after)) = omega (
        arith,
        ap (λ (l : List ℕ). length l) at,
        length-append before (holder ∷ after),
        length-append before after,
      ) in
      omega (
        arith,
        c,
        size,
        length-handed m s (before ++ after),
        After-some (ops.unlock-value m s (omega (arith, c, size))) e,
      )
  Turn-Counted c (scheduled hs e) = c

  -- Whatever the interleaving, as many processes hold the lock as its value has been taken down
  -- from the start: the value and the number of holders add up to the bound of the lock.
  pub Turns-Counted : {a b : System} → Counted a → Turns a b → Counted b
  Turns-Counted c start = c
  Turns-Counted c (then_turn turns turn) = Turn-Counted (Turns-Counted c turns) turn

abbrev pub Enters : Lock → Bool × Lock × Scheduler → Type 0
Enters m r = r.1.value + one_if r.0 ≡ m.value

pub mutex_enter-value :
    (m : Lock) (s : Scheduler) → m.value ≤ 1 → After (Enters m) (mutex_enter m s)
unfolding mutex_enter
mutex_enter-value m s le =
    After-if (ltb 0 m.value) (λ e. result (ground arith))
      (λ e. After-bind (enqueue m.queue s) (λ qs f. result (omega arith)))

pub mutex_try_lock-value :
    (m : Lock) → m.value ≤ 1 → (mutex_try_lock m).1.value + one_if (mutex_try_lock m).0 ≡ m.value
unfolding mutex_try_lock
mutex_try_lock-value m le = ground arith

abbrev pub Leaves : Lock → Lock × Scheduler → Type 0
Leaves m r = r.0.value ≡ m.value + one_if (is_empty m.queue)

pub mutex_unlock-value :
    (m : Lock) (s : Scheduler) → m.value < 1 → After (Leaves m) (mutex_unlock m s)
unfolding mutex_unlock
mutex_unlock-value m s lt =
    After-if (is_empty m.queue) (λ e. result (rw e (omega arith)))
      (λ e. After-bind (dequeue m.queue s) (λ r f. result (rw e (omega arith))))

pub semaphore_enter-value : (m : Lock) (s : Scheduler) → After (Enters m) (semaphore_enter m s)
unfolding semaphore_enter
semaphore_enter-value m s =
    After-if (ltb 0 m.value) (λ e. result (ground arith))
      (λ e. After-bind (enqueue m.queue s) (λ qs f. result (omega arith)))

pub semaphore_try_lock-value :
    (m : Lock) → (semaphore_try_lock m).1.value + one_if (semaphore_try_lock m).0 ≡ m.value
unfolding semaphore_try_lock
semaphore_try_lock-value m = ground arith

pub semaphore_unlock-value :
    (m : Lock) (s : Scheduler) → m.value + 1 < 2 ^ 64 → After (Leaves m) (semaphore_unlock m s)
unfolding semaphore_unlock
semaphore_unlock-value m s lt =
    After-if (is_empty m.queue) (λ e. result (rw e (omega arith)))
      (λ e. After-bind (dequeue m.queue s) (λ r f. result (rw e (omega arith))))

-- The mutex as such a lock, for one process.
unfoldable pub mutex_ops : LockOps 1
mutex_ops = record {
  enter = mutex_enter;
  try_lock = mutex_try_lock;
  unlock = mutex_unlock;
  enter-value = mutex_enter-value;
  try_lock-value = mutex_try_lock-value;
  unlock-value = mutex_unlock-value;
}

-- The semaphore as such a lock, for `n` processes.
pub semaphore_ops : (n : ℕ) → n < 2 ^ 64 → LockOps n
semaphore_ops n h = record {
  enter = semaphore_enter;
  try_lock = semaphore_try_lock;
  unlock = semaphore_unlock;
  enter-value = λ m s le. semaphore_enter-value m s;
  try_lock-value = λ m le. semaphore_try_lock-value m;
  unlock-value = λ m s lt. semaphore_unlock-value m s (omega arith);
}

-- From a free mutex on, whatever operations of the mutex and of the scheduler are interleaved, at
-- most one process holds the mutex, with the holders as the relation `Turn` counts them: a process
-- holds the mutex when its `lock` or `try_lock` was let through, or when an unlock found it first
-- in the queue.
pub mutex_exclusive :
    (m : Lock) (s : Scheduler) (b : System)
    → m.value ≡ 1
    → Turns mutex_ops (system m s []) b
    → length b.holders ≤ 1
mutex_exclusive m s b free turns = omega (arith, Turns-Counted mutex_ops (omega arith) turns)

-- From a semaphore with the value `n` that no process holds, whatever operations of the semaphore
-- and of the scheduler are interleaved, at most `n` processes hold it.
pub semaphore_bounded :
    (n : ℕ) (h : n < 2 ^ 64) (m : Lock) (s : Scheduler) (b : System)
    → m.value ≡ n
    → Turns (semaphore_ops n h) (system m s []) b
    → length b.holders ≤ n
semaphore_bounded n h m s b free turns =
    omega (arith, Turns-Counted (semaphore_ops n h) (omega arith) turns)
