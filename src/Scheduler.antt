-- ===== src/Scheduler.antt =====
-- kernel/src/scheduler.cpp and kernel/include/process.hpp: the process table and the run queues,
-- the choice of the next process and `reschedule`; the other operations are below. A failed
-- `thor_assert`, `thor_unreachable` and `suspend_kernel` stop the kernel: the result is `none`.
-- The context switch itself (assembly) and the creation of address spaces are left out.
pub mod Tick
pub mod Blocking
pub mod Create
pub mod Choice
pub mod States
pub mod Kept
pub mod Invariant
pub mod Races
pub mod Pids
mod Tests
use thor_os.Prelude.{
  ℕ, zero, suc, ◌+◌, ◌-◌, ◌*◌, ◌%◌, ◌^◌, Bool, true, false, not, ◌&&◌, ◌||◌, Option, none, some,
  List, [], ◌∷◌, ◌++◌, ◌==◌, ltb, leb, if◌then◌else◌, ◌>>=◌, get_or, length, map,
}
use thor_os.Prelude.{set as write}

-- `process_state`
pub data ProcessState : Type 0 where
  empty new ready running blocked sleeping waiting killed blocked_timeout : ProcessState

abbrev pub max_process : ℕ
max_process = 128

abbrev pub max_priority : ℕ
max_priority = 4

abbrev pub min_priority : ℕ
min_priority = 1

abbrev pub default_priority : ℕ
default_priority = 3

abbrev pub mul64 : ℕ → ℕ → ℕ
mul64 a b = (a * b) % 2 ^ 64

abbrev pub sub64 : ℕ → ℕ → ℕ
sub64 a b = (a + 2 ^ 64 - b) % 2 ^ 64

-- `process_control_t` with the fields of its `process_t` that the scheduler reads. The wait node
-- is the pid it names and the pid of the next node. The working directory is its string.
pub record Process : Type 0 where
  pub pid : ℕ
  pub ppid : ℕ
  pub system : Bool
  pub priority : ℕ
  pub tty : ℕ
  pub brk_start : ℕ
  pub brk_end : ℕ
  pub wait_pid : ℕ
  pub wait_next : Option ℕ
  pub state : ProcessState
  pub rounds : ℕ
  pub sleep_timeout : ℕ
  pub working_directory : List ℕ

-- A slot as the zeroed memory of the kernel has it.
abbrev pub vacant : Process
vacant = record {
  pid = 0;
  ppid = 0;
  system = false;
  priority = 0;
  tty = 0;
  brk_start = 0;
  brk_end = 0;
  wait_pid = 0;
  wait_next = none;
  state = empty;
  rounds = 0;
  sleep_timeout = 0;
  working_directory = [];
}

-- The variables of the file.
pub record Scheduler : Type 0 where
  pub pcb : List Process
  pub run_queues : List (List ℕ)
  pub started : Bool
  pub rr_quantum : ℕ
  pub current_pid : ℕ
  pub next_pid : ℕ
  pub gc_pid : ℕ
  pub idle_pid : ℕ
  pub post_init_pid : ℕ

abbrev pub process_at : Scheduler → ℕ → Process
process_at s pid = get_or s.pcb pid vacant

abbrev pub with_process : Scheduler → ℕ → Process → Scheduler
with_process s pid p = record s { pcb = write s.pcb pid p }

-- `get_process_state`
unfoldable pub state_of : Scheduler → ℕ → ProcessState
state_of s pid = (process_at s pid).state

-- `pcb[pid].state = st`
unfoldable pub set_state : Scheduler → ℕ → ProcessState → Scheduler
set_state s pid st = with_process s pid (record (process_at s pid) { state = st })

pub run_queue : Scheduler → ℕ → List ℕ
run_queue s priority = get_or s.run_queues (sub64 priority min_priority) []

abbrev pub is_empty : ProcessState → Bool
is_empty empty = true
is_empty _ = false

abbrev pub is_running : ProcessState → Bool
is_running running = true
is_running _ = false

-- The test of `select_next_process_with_lock`.
abbrev pub can_run : ProcessState → Bool
can_run ready = true
can_run running = true
can_run _ = false

pub runnable : Scheduler → ℕ → Bool
runnable s pid = can_run (state_of s pid)

-- The loop over one run queue.
pub first_runnable : Scheduler → List ℕ → Option ℕ
first_runnable s [] = none
first_runnable s (pid ∷ q) = if runnable s pid then some pid else first_runnable s q

abbrev pub or_else {ℓ} : {A : Type ℓ} → Option A → Option A → Option A
or_else none b = b
or_else (some a) b = some a

-- 1. The queues of the priorities from `p` down to above the current one.
pub select_higher : Scheduler → ℕ → ℕ → Option ℕ
select_higher s current zero = none
select_higher s current (suc p) =
    let rest = select_higher s current p in
    if ltb current (suc p) then or_else (first_runnable s (run_queue s (suc p))) rest else none

-- 2. The index after the current process, and the loop from there around the queue.
pub next_index : List ℕ → ℕ → ℕ → ℕ → ℕ
next_index [] current i size = 0
next_index (pid ∷ q) current i size =
    if pid == current then (i + 1) % size else next_index q current (i + 1) size

pub select_around : Scheduler → List ℕ → ℕ → ℕ → ℕ → Option ℕ
select_around s q next zero i = none
select_around s q next (suc rounds) i =
    let pid = get_or q ((next + i) % length q) 0 in
    let rest = select_around s q next rounds (i + 1) in if runnable s pid then some pid else rest

pub select_same : Scheduler → List ℕ → Option ℕ
select_same s q = select_around s q (next_index q s.current_pid 0 (length q)) (length q) 0

-- 3. The queues of the priorities from `p` down to 1.
pub select_lower : Scheduler → ℕ → Option ℕ
select_lower s zero = none
select_lower s (suc p) = or_else (first_runnable s (run_queue s (suc p))) (select_lower s p)

-- The current priority is above 0 whenever the kernel passes the assertion between 2 and 3.
pub select_next_process : Scheduler → Option ℕ
select_next_process s =
    let priority = (process_at s s.current_pid).priority in
    or_else (select_higher s priority max_priority)
      (or_else (select_same s (run_queue s priority)) (select_lower s (priority - 1)))

pub switch_to_process : Scheduler → ℕ → Scheduler
switch_to_process s pid =
    if s.current_pid == pid then s else set_state (record s { current_pid = pid }) pid running

-- The part of `reschedule` under the lock. A tick can come between the test and this part.
unfoldable pub reschedule_switch : Scheduler → Option Scheduler
reschedule_switch s = do pid ← select_next_process s; some (switch_to_process s pid)

-- `reschedule` with no tick between its two parts.
pub reschedule : Scheduler → Option Scheduler
reschedule s =
    if not s.started
    then none
    else if is_running (state_of s s.current_pid)
    then some s
    else reschedule_switch s
