-- ===== src/Scheduler/Tick.antt =====
-- kernel/src/scheduler.cpp: `yield` and the handler of the timer tick.
use thor_os.Prelude.{
  ◌+◌, ◌%◌, ◌^◌, Bool, true, false, ◌&&◌, Option, none, some, ◌==◌, if◌then◌else◌, ◌>>=◌, map,
}
use thor_os.Scheduler.{
  ProcessState, ready, running, blocked, sleeping, blocked_timeout, Process, Scheduler, process_at,
  with_process, state_of, set_state, sub64, is_running, select_next_process, switch_to_process,
}

-- `yield` up to the lock. A tick can come between this part and the next.
unfoldable pub yield_mark : Scheduler → Option Scheduler
yield_mark s =
    if s.started && is_running (state_of s s.current_pid)
    then some (set_state s s.current_pid ready)
    else none

-- The part of `yield` under the lock.
unfoldable pub yield_switch : Scheduler → Option Scheduler
yield_switch s = do
  pid ← select_next_process s
  some (if pid == s.current_pid then set_state s s.current_pid running else switch_to_process s pid)

-- `yield` with no tick between its two parts.
unfoldable pub yield : Scheduler → Option Scheduler
yield s = do t ← yield_mark s; yield_switch t

-- The first loop of `tick`, on one process: `--process.sleep_timeout` and what follows it.
unfoldable pub down_one : Process → Process
down_one p =
    let left = sub64 p.sleep_timeout 1 in
    if left == 0
    then record p { sleep_timeout = left; state = ready }
    else record p { sleep_timeout = left }

abbrev pub is_counting : ProcessState → Bool
is_counting sleeping = true
is_counting blocked_timeout = true
is_counting _ = false

unfoldable pub count_down : Process → Process
count_down p = if is_counting p.state then down_one p else p

unfoldable pub update_timeouts : Scheduler → Scheduler
update_timeouts s = record s { pcb = map count_down s.pcb }

abbrev pub stays_blocked : ProcessState → Bool
stays_blocked blocked = true
stays_blocked blocked_timeout = true
stays_blocked _ = false

-- The branch of `tick` in which the process has used its quantum.
unfoldable pub preempt : Scheduler → Option Scheduler
preempt s =
    let current = s.current_pid in
    let previous_state = state_of s current in
    let t = with_process s current (record (process_at s current) { rounds = 0 }) in
    let u = if stays_blocked previous_state then t else set_state t current ready in
    do
      pid ← select_next_process u
      some (if pid == current then set_state u current previous_state else switch_to_process u pid)

unfoldable pub tick_started : Scheduler → Option Scheduler
tick_started s =
    let p = process_at s s.current_pid in
    if p.rounds == s.rr_quantum
    then preempt s
    else some (with_process s s.current_pid (record p { rounds = (p.rounds + 1) % 2 ^ 64 }))

unfoldable pub tick : Scheduler → Option Scheduler
tick s = if s.started then tick_started (update_timeouts s) else some s
