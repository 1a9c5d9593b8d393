-- ===== src/Conc/Condition.antt =====
-- kernel/src/conc/condition_variable.cpp. The record is the queue, without its spinlock.
use thor_os.Prelude.{
  ℕ, zero, suc, ◌*◌, Bool, true, false, Option, none, some, ◌==◌, if◌then◌else◌, ◌>>=◌,
}
use thor_os.Scheduler.{Scheduler, reschedule, max_process}
use thor_os.Conc.WaitList.{
  WaitList, is_empty, top, enqueue, enqueue_timeout, dequeue_hint, waiting, remove,
}

-- `INVALID_PID`
abbrev pub invalid_pid : ℕ
invalid_pid = 1024 * 1024 * 1024

unfoldable pub top_process : WaitList → Scheduler → Option ℕ
top_process w s = top w s

unfoldable pub notify_one : WaitList → Scheduler → Option (ℕ × WaitList × Scheduler)
notify_one w s = if is_empty w then some (invalid_pid, w, s) else dequeue_hint w s

-- The loop of `notify_all`, for at most `rounds` processes.
unfoldable pub notify_from : ℕ → WaitList → Scheduler → Option (WaitList × Scheduler)
notify_from zero w s = if is_empty w then some (w, s) else none
notify_from (suc rounds) w s =
    if is_empty w then some (w, s) else (do r ← dequeue_hint w s; notify_from rounds r.1 r.2)

unfoldable pub notify_all : WaitList → Scheduler → Option (WaitList × Scheduler)
notify_all w s = notify_from max_process w s

-- `wait`, up to the switch to another process.
unfoldable pub wait : WaitList → Scheduler → Option (WaitList × Scheduler)
wait w s = do qs ← enqueue w s; t ← reschedule qs.1; some (qs.0, t)

-- `wait_for`, up to the switch to another process: none of it happens for 0 milliseconds.
unfoldable pub wait_for_start : WaitList → Scheduler → ℕ → ℕ → Option (Bool × WaitList × Scheduler)
wait_for_start w s frequency ms =
    if ms == 0
    then some (false, w, s)
    else (do qs ← enqueue_timeout w s frequency ms; t ← reschedule qs.1; some (true, qs.0, t))

-- `wait_for`, when the process runs again: whether it was notified before the timeout.
unfoldable pub wait_for_end : WaitList → Scheduler → Option (Bool × WaitList × Scheduler)
wait_for_end w s = do
  still ← waiting w s
  if still then (do qs ← remove w s; some (false, qs.0, qs.1)) else some (true, w, s)
