-- ===== src/Conc/RwLock.antt =====
-- kernel/include/conc/rw_lock.hpp. What stands between `m.lock()` and `m.unlock()` is one step, so
-- the mutex `m` is left out of the record; the wait of a process after `m.unlock()` is another.
use thor_os.Prelude.{
  ℕ, ◌+◌, ◌-◌, ◌%◌, ◌^◌, Bool, true, false, ◌||◌, not, Option, some, ◌==◌, if◌then◌else◌, ◌>>=◌,
}
use thor_os.Scheduler.{Scheduler}
use thor_os.Conc.WaitList.{WaitList}
use thor_os.Conc.Condition.{wait, notify_one, notify_all}

pub record RwLock : Type 0 where
  pub write : WaitList
  pub readers : ℕ
  pub writer : Bool

-- The test of `read_lock` and of `write_lock` under the mutex: whether the lock was acquired. If
-- not, the process leaves the mutex, calls `write_wait` and tests again when it is woken.
unfoldable pub read_try : RwLock → Bool × RwLock
read_try l =
    if l.writer then (false, l) else (true, record l { readers = (l.readers + 1) % 2 ^ 64 })

unfoldable pub write_try : RwLock → Bool × RwLock
write_try l =
    if l.writer || not (l.readers == 0) then (false, l) else (true, record l { writer = true })

unfoldable pub write_wait : RwLock → Scheduler → Option (RwLock × Scheduler)
write_wait l s = do ws ← wait l.write s; some (record l { write = ws.0 }, ws.1)

unfoldable pub read_unlock : RwLock → Scheduler → Option (RwLock × Scheduler)
read_unlock l s =
    let fewer = record l { readers = (l.readers + 2 ^ 64 - 1) % 2 ^ 64 } in
    if fewer.readers == 0
    then (do r ← notify_one fewer.write s; some (record fewer { write = r.1 }, r.2))
    else some (fewer, s)

unfoldable pub write_unlock : RwLock → Scheduler → Option (RwLock × Scheduler)
write_unlock l s = do
  ws ← notify_all l.write s
  some (record l { writer = false; write = ws.0 }, ws.1)

-- The test of `writer_rw_lock::lock` and of `reader_rw_lock::lock`, and the two `unlock`.
unfoldable pub writer_try : RwLock → Bool × RwLock
writer_try l = read_try l

unfoldable pub writer_unlock : RwLock → Scheduler → Option (RwLock × Scheduler)
writer_unlock l s = read_unlock l s

unfoldable pub reader_try : RwLock → Bool × RwLock
reader_try l = write_try l

unfoldable pub reader_unlock : RwLock → Scheduler → Option (RwLock × Scheduler)
reader_unlock l s = write_unlock l s
