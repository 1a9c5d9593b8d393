-- ===== src/Scheduler/Blocking.antt =====
-- kernel/src/scheduler.cpp: the operations that block, wake and end processes.
use thor_os.Prelude.{
  ℕ, zero, suc, ◌+◌, ◌/◌, Bool, true, false, not, ◌&&◌, Option, none, some, List, [], ◌∷◌, ◌==◌,
  ltb, if◌then◌else◌, ◌>>=◌,
}
use thor_os.Scheduler.{
  ProcessState, empty, ready, blocked, sleeping, waiting, killed, blocked_timeout, Process,
  Scheduler, process_at, with_process, state_of, set_state, max_process, mul64, is_running,
  reschedule,
}

unfoldable pub block_process_light : Scheduler → ℕ → Option Scheduler
block_process_light s pid = if ltb pid max_process then some (set_state s pid blocked) else none

-- `frequency` is `timer::timer_frequency()`.
unfoldable pub sleep_ticks : ℕ → ℕ → ℕ
sleep_ticks frequency ms =
    let ticks = mul64 ms (frequency / 1000) in if ticks == 0 then 1 else ticks

abbrev pub put_to_sleep : Scheduler → ℕ → ProcessState → ℕ → Scheduler
put_to_sleep s pid st ticks =
    with_process s pid (record (process_at s pid) { sleep_timeout = ticks; state = st })

unfoldable pub block_process_timeout_light : Scheduler → ℕ → ℕ → ℕ → Option Scheduler
block_process_timeout_light s frequency pid ms =
    if ltb pid max_process
    then some (put_to_sleep s pid blocked_timeout (sleep_ticks frequency ms))
    else none

pub block_process : Scheduler → ℕ → Option Scheduler
block_process s pid =
    if s.started && ltb pid max_process && not (pid == s.idle_pid)
    then reschedule (set_state s pid blocked)
    else none

abbrev pub can_unblock : ProcessState → Bool
can_unblock blocked = true
can_unblock blocked_timeout = true
can_unblock waiting = true
can_unblock _ = false

unfoldable pub unblock_process : Scheduler → ℕ → Option Scheduler
unblock_process s pid =
    if ltb pid max_process && not (pid == s.idle_pid) && s.started && can_unblock (state_of s pid)
    then some (set_state s pid ready)
    else none

unfoldable pub unblock_process_hint : Scheduler → ℕ → Option Scheduler
unblock_process_hint s pid =
    if ltb pid max_process && not (pid == s.idle_pid) && s.started
    then some (if is_running (state_of s pid) then s else set_state s pid ready)
    else none

-- `sleep_ms` up to its call of `reschedule`.
unfoldable pub sleep_mark : Scheduler → ℕ → ℕ → ℕ → Option Scheduler
sleep_mark s frequency pid time =
    if ltb pid max_process && is_running (state_of s pid)
    then some (put_to_sleep s pid sleeping (sleep_ticks frequency time))
    else none

unfoldable pub sleep_ms : Scheduler → ℕ → ℕ → ℕ → Option Scheduler
sleep_ms s frequency pid time = do t ← sleep_mark s frequency pid time; reschedule t

abbrev pub is_waiting : ProcessState → Bool
is_waiting waiting = true
is_waiting _ = false

-- The loop of `kill_current_process` over the slots from `i` on.
unfoldable pub notify_parent : ℕ → ℕ → ℕ → Scheduler → Option Scheduler
notify_parent zero i ppid s = some s
notify_parent (suc rounds) i ppid s =
    let p = process_at s i in
    if p.pid == ppid && is_waiting p.state
    then (do t ← unblock_process s p.pid; notify_parent rounds (i + 1) ppid t)
    else notify_parent rounds (i + 1) ppid s

abbrev pub is_blocked : ProcessState → Bool
is_blocked blocked = true
is_blocked _ = false

-- The critical section of `kill_current_process`.
unfoldable pub mark_killed : Scheduler → Option Scheduler
mark_killed s =
    let ppid = (process_at s s.current_pid).ppid in
    do
      t ← notify_parent max_process 0 ppid (set_state s s.current_pid killed)
      if is_blocked (state_of t t.gc_pid) then unblock_process t t.gc_pid else some t

-- It does not return: the result is the state in which the next process runs.
pub kill_current_process : Scheduler → Option Scheduler
kill_current_process s = do t ← mark_killed s; reschedule t

abbrev pub is_over : ProcessState → Bool
is_over killed = true
is_over empty = true
is_over _ = false

-- The critical section of one round of `await_termination`: whether the wait is over.
pub child_is_over : List Process → ℕ → ℕ → Bool
child_is_over [] parent pid = true
child_is_over (p ∷ ps) parent pid =
    if p.ppid == parent && p.pid == pid then is_over p.state else child_is_over ps parent pid

-- One round of `await_termination`: none, or whether it returns and the state.
pub await_round : Scheduler → ℕ → Option (Bool × Scheduler)
await_round s pid =
    if child_is_over s.pcb s.current_pid pid
    then some (true, s)
    else (do t ← reschedule (set_state s s.current_pid waiting); some (false, t))
