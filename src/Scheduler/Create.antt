-- ===== src/Scheduler/Create.antt =====
-- kernel/src/scheduler.cpp: the choice of a pid, new processes and their queues, the start.
use thor_os.Prelude.{
  ℕ, zero, suc, ◌+◌, ◌%◌, true, false, ◌&&◌, Option, none, some, [], ◌∷◌, ◌++◌, ltb, leb,
  if◌then◌else◌, ◌>>=◌,
}
use thor_os.Prelude.{set as write}
use thor_os.Scheduler.{
  new, ready, running, Process, Scheduler, process_at, with_process, state_of, set_state, run_queue,
  max_process, max_priority, min_priority, default_priority, sub64, is_empty,
}

-- The search of `get_free_pid` from `pid` on, for at most `rounds` slots.
unfoldable pub find_empty : Scheduler → ℕ → ℕ → Option ℕ
find_empty s zero pid = none
find_empty s (suc rounds) pid =
    let rest = find_empty s rounds ((pid + 1) % max_process) in
    if is_empty (state_of s pid) then some pid else rest

abbrev pub take_pid : Scheduler → ℕ → ℕ × Scheduler
take_pid s pid = (pid, record s { next_pid = (pid + 1) % max_process })

unfoldable pub get_free_pid : Scheduler → Option (ℕ × Scheduler)
get_free_pid s =
    if is_empty (state_of s s.next_pid)
    then some (take_pid s s.next_pid)
    else (do pid ← find_empty s max_process ((s.next_pid + 1) % max_process); some (take_pid s pid))

-- The entry of a new process.
unfoldable pub new_entry : Scheduler → ℕ → Process
new_entry t pid = record (process_at t pid) {
  system = false;
  pid = pid;
  ppid = t.current_pid;
  priority = default_priority;
  state = new;
  tty = (process_at t t.current_pid).tty;
  brk_start = 0;
  brk_end = 0;
  wait_pid = pid;
  wait_next = none;
  working_directory = b'/' ∷ [];
}

unfoldable pub new_process : Scheduler → Option (ℕ × Scheduler)
new_process s = do pt ← get_free_pid s; some (pt.0, with_process pt.1 pt.0 (new_entry pt.1 pt.0))

-- `queue_process`, and `queue_system_process` as well, which takes no lock.
unfoldable pub queue_process : Scheduler → ℕ → Option Scheduler
queue_process s pid =
    let priority = (process_at s pid).priority in
    let t = set_state s pid ready in
    if ltb pid max_process && leb priority max_priority && leb min_priority priority
    then some (record t {
      run_queues =
          write t.run_queues (sub64 priority min_priority) (run_queue t priority ++ (pid ∷ []));
    })
    else none

unfoldable pub start : Scheduler → Scheduler
start s = record (set_state (record s { current_pid = s.post_init_pid }) s.post_init_pid running) {
  started = true;
}
