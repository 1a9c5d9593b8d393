-- ===== src/Conc/Locks.antt =====
-- kernel/include/conc/mutex.hpp and semaphore.hpp.
use thor_os.Prelude.{
  ℕ, zero, suc, ◌+◌, ◌-◌, ◌%◌, ◌^◌, Bool, true, false, Option, some, ◌==◌, ltb, if◌then◌else◌,
  ◌>>=◌,
}
use thor_os.Scheduler.{Scheduler, reschedule}
use thor_os.Conc.WaitList.{WaitList, is_empty, enqueue, dequeue}

-- Both locks, without their spinlock.
pub record Lock : Type 0 where
  pub value : ℕ
  pub queue : WaitList

-- Mutex
unfoldable pub mutex_init : Lock → ℕ → Lock
mutex_init m v = if ltb 1 v then record m { value = 1 } else record m { value = v }

-- The critical section of `lock`: whether the lock was acquired, or else the process waits.
unfoldable pub mutex_enter : Lock → Scheduler → Option (Bool × Lock × Scheduler)
mutex_enter m s =
    if ltb 0 m.value
    then some (true, record m { value = 0 }, s)
    else (do qs ← enqueue m.queue s; some (false, record m { queue = qs.0 }, qs.1))

unfoldable pub mutex_lock : Lock → Scheduler → Option (Lock × Scheduler)
mutex_lock m s = do
  r ← mutex_enter m s
  if r.0 then some (r.1, r.2) else (do t ← reschedule r.2; some (r.1, t))

unfoldable pub mutex_try_lock : Lock → Bool × Lock
mutex_try_lock m = if ltb 0 m.value then (true, record m { value = 0 }) else (false, m)

unfoldable pub mutex_unlock : Lock → Scheduler → Option (Lock × Scheduler)
mutex_unlock m s =
    if is_empty m.queue
    then some (record m { value = 1 }, s)
    else (do r ← dequeue m.queue s; some (record m { queue = r.1 }, r.2))

-- Semaphore
unfoldable pub semaphore_init : Lock → ℕ → Lock
semaphore_init m v = record m { value = v }

unfoldable pub semaphore_enter : Lock → Scheduler → Option (Bool × Lock × Scheduler)
semaphore_enter m s =
    if ltb 0 m.value
    then some (true, record m { value = m.value - 1 }, s)
    else (do qs ← enqueue m.queue s; some (false, record m { queue = qs.0 }, qs.1))

unfoldable pub semaphore_lock : Lock → Scheduler → Option (Lock × Scheduler)
semaphore_lock m s = do
  r ← semaphore_enter m s
  if r.0 then some (r.1, r.2) else (do t ← reschedule r.2; some (r.1, t))

unfoldable pub semaphore_try_lock : Lock → Bool × Lock
semaphore_try_lock m =
    if ltb 0 m.value then (true, record m { value = m.value - 1 }) else (false, m)

unfoldable pub semaphore_unlock : Lock → Scheduler → Option (Lock × Scheduler)
semaphore_unlock m s =
    if is_empty m.queue
    then some (record m { value = (m.value + 1) % 2 ^ 64 }, s)
    else (do r ← dequeue m.queue s; some (record m { queue = r.1 }, r.2))

-- The loop of `release`: it wakes processes until `n` is 0 or none waits. What is left of `n` is
-- the first component.
unfoldable pub wake_some : ℕ → Lock → Scheduler → Option (ℕ × Lock × Scheduler)
wake_some zero m s = some (0, m, s)
wake_some (suc n) m s =
    if is_empty m.queue
    then some (suc n, m, s)
    else (do r ← dequeue m.queue s; wake_some n (record m { queue = r.1 }) r.2)

unfoldable pub semaphore_release : Lock → Scheduler → ℕ → Option (Lock × Scheduler)
semaphore_release m s n =
    if is_empty m.queue then some (record m { value = (m.value + n) % 2 ^ 64 }, s) else (do
      r ← wake_some n m s
      some ((if r.0 == 0 then r.1 else record r.1 { value = (r.1.value + r.0) % 2 ^ 64 }), r.2))
