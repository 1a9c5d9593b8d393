-- ===== src/Conc/Deferred.antt =====
-- kernel/include/conc/deferred_unique_mutex.hpp and deferred_unique_semaphore.hpp: one process waits
-- and an interrupt handler wakes it.
use thor_os.Prelude.{
  ℕ, ◌+◌, ◌-◌, ◌%◌, ◌^◌, Bool, true, false, Option, some, ◌==◌, ltb, if◌then◌else◌, ◌>>=◌,
}
use thor_os.Scheduler.{Scheduler}
use thor_os.Scheduler.Blocking.{block_process_light, unblock_process_hint}

-- Both objects have these fields.
pub record Deferred : Type 0 where
  pub pid : ℕ
  pub value : ℕ
  pub waiting : Bool

unfoldable pub claim : Deferred → Scheduler → Deferred
claim d s = record d { pid = s.current_pid }

-- The critical section of `wait` of the mutex: whether the process need not wait.
unfoldable pub mutex_wait_enter : Deferred → Scheduler → Option (Bool × Deferred × Scheduler)
mutex_wait_enter d s =
    if ltb 0 d.value
    then some (true, record d { value = 0 }, s)
    else (do t ← block_process_light s d.pid; some (false, record d { waiting = true }, t))

-- What `wait` of the mutex does when the process runs again.
unfoldable pub mutex_wait_leave : Deferred → Deferred
mutex_wait_leave d = record d { waiting = false }

unfoldable pub mutex_notify : Deferred → Scheduler → Option (Deferred × Scheduler)
mutex_notify d s =
    if d.waiting
    then (do t ← unblock_process_hint s d.pid; some (d, t))
    else some (record d { value = 1 }, s)

unfoldable pub semaphore_init : Deferred → ℕ → Deferred
semaphore_init d v = record d { value = v }

unfoldable pub semaphore_wait_enter : Deferred → Scheduler → Option (Bool × Deferred × Scheduler)
semaphore_wait_enter d s =
    if ltb 0 d.value
    then some (true, record d { value = d.value - 1 }, s)
    else (do t ← block_process_light s d.pid; some (false, record d { waiting = true }, t))

unfoldable pub semaphore_notify : Deferred → Scheduler → Option (Deferred × Scheduler)
semaphore_notify d s =
    if d.waiting
    then (do t ← unblock_process_hint s d.pid; some (record d { waiting = false }, t))
    else some (record d { value = (d.value + 1) % 2 ^ 64 }, s)

unfoldable pub semaphore_notify_many : Deferred → Scheduler → ℕ → Option (Deferred × Scheduler)
semaphore_notify_many d s n =
    if d.waiting
    then (do
      t ← unblock_process_hint s d.pid
      let left = (n + 2 ^ 64 - 1) % 2 ^ 64
      some (
        record d {
          waiting = false;
          value = (if left == 0 then d.value else (d.value + left) % 2 ^ 64);
        },
        t,
      ))
    else some (record d { value = (d.value + n) % 2 ^ 64 }, s)
