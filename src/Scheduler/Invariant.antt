-- ===== src/Scheduler/Invariant.antt =====
-- kernel/src/scheduler.cpp: the steps of the scheduler, and which processes may be RUNNING after any
-- sequence of them.
use thor_os.Prelude.{ℕ, ◌≡◌, false, some}
use thor_os.Scheduler.{waiting, Scheduler, state_of, set_state, is_running, reschedule_switch}
use thor_os.Scheduler.Tick.{tick, yield_mark, yield_switch}
use thor_os.Scheduler.Blocking.{
  block_process_light, block_process_timeout_light, unblock_process, unblock_process_hint,
  sleep_mark, mark_killed,
}
use thor_os.Scheduler.Create.{new_process, queue_process}

-- One step of the scheduler. The tick is an interrupt handler, and one step. An operation of a
-- process is a step for each of its parts that a tick can separate: what it does before the lock,
-- and what it does under it. The part of `reschedule` under the lock stands behind `sleep_ms`,
-- `block_process`, `kill_current_process` and `await_termination` too; its test changes no state.
-- The parts under the lock are taken in states in which the current process is not RUNNING.
pub data Step (s : Scheduler) : Scheduler → Type 0 where
  ticked : {t : Scheduler} → tick s ≡ some t → Step s t
  yield_marked : {t : Scheduler} → yield_mark s ≡ some t → Step s t
  yield_switched :
      {t : Scheduler}
      → is_running (state_of s s.current_pid) ≡ false
      → yield_switch s ≡ some t
      → Step s t
  rescheduled :
      {t : Scheduler}
      → is_running (state_of s s.current_pid) ≡ false
      → reschedule_switch s ≡ some t
      → Step s t
  block_marked : {t : Scheduler} (pid : ℕ) → block_process_light s pid ≡ some t → Step s t
  timeout_marked :
      {t : Scheduler} (frequency pid ms : ℕ)
      → block_process_timeout_light s frequency pid ms ≡ some t
      → Step s t
  unblocked : {t : Scheduler} (pid : ℕ) → unblock_process s pid ≡ some t → Step s t
  hinted : {t : Scheduler} (pid : ℕ) → unblock_process_hint s pid ≡ some t → Step s t
  sleep_marked :
      {t : Scheduler} (frequency pid time : ℕ) → sleep_mark s frequency pid time ≡ some t → Step s t
  kill_marked : {t : Scheduler} → mark_killed s ≡ some t → Step s t
  wait_marked : Step s (set_state s s.current_pid waiting)
  created : {pt : ℕ × Scheduler} → new_process s ≡ some pt → Step s pt.1
  queued : {t : Scheduler} (pid : ℕ) → queue_process s pid ≡ some t → Step s t

pub data Reach (s : Scheduler) : Scheduler → Type 0 where
  here : Reach s s
  after : {t u : Scheduler} → Reach s t → Step t u → Reach s u
