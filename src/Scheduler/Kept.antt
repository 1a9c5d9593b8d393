-- ===== src/Scheduler/Kept.antt =====
-- kernel/src/scheduler.cpp: each operation and the processes in the state RUNNING.
use thor_os.Prelude.{
  ℕ, zero, suc, ◌+◌, ◌%◌, ◌^◌, ◌≡◌, refl, sym, ap, ◌∙◌, true, false, not, ◌&&◌, ◌==◌, ltb, leb,
  if◌then◌else◌, get_or, map, get_or-map, clash, After, failed, result, After-some, After-if,
  After-bind, elim-if,
}
use thor_os.Scheduler.{
  ProcessState, empty, new, ready, running, blocked, sleeping, waiting, killed, blocked_timeout,
  Process, Scheduler, vacant, process_at, with_process, state_of, set_state, is_running,
  select_next_process, max_process, max_priority, min_priority, is_empty, sub64,
}
use thor_os.Scheduler.Tick.{
  down_one, count_down, is_counting, update_timeouts, stays_blocked, preempt, tick_started, tick,
  yield_mark, yield_switch,
}
use thor_os.Scheduler.Blocking.{
  block_process_light, block_process_timeout_light, unblock_process, unblock_process_hint,
  sleep_mark, notify_parent, mark_killed, is_waiting, is_blocked, sleep_ticks, can_unblock,
}
use thor_os.Scheduler.Create.{get_free_pid, find_empty, new_process, new_entry, queue_process}
use thor_os.Scheduler.States.{
  OneRunning, NoneRunning, with_process-OneRunning, stop_current, with_current-OneRunning,
  run_current, switch_to_process-OneRunning, current_stopped,
}

pub set_state-OneRunning :
    (s : Scheduler) (pid : ℕ) (st : ProcessState)
    → OneRunning s
    → is_running st ≡ false
    → OneRunning (set_state s pid st)
unfolding set_state
set_state-OneRunning s pid st one n =
    with_process-OneRunning s pid (record (process_at s pid) { state = st }) one n

pub set_current-OneRunning :
    (s : Scheduler) (pid : ℕ) (st : ProcessState)
    → NoneRunning s
    → pid ≡ s.current_pid
    → OneRunning (set_state s pid st)
unfolding set_state
set_current-OneRunning s pid st = run_current s pid (record (process_at s pid) { state = st })

is_running-down_one :
    (p : Process) → is_running p.state ≡ false → is_running (down_one p).state ≡ false
unfolding down_one
is_running-down_one p n =
    elim-if (λ (t : Process). is_running t.state ≡ false) (sub64 p.sleep_timeout 1 == 0) (λ e. refl)
      (λ e. n)

is_counting-stopped : (st : ProcessState) → is_counting st ≡ true → is_running st ≡ false
is_counting-stopped sleeping h = refl
is_counting-stopped blocked_timeout h = refl
is_counting-stopped empty h = refl
is_counting-stopped new h = refl
is_counting-stopped ready h = refl
is_counting-stopped running h = sym h
is_counting-stopped blocked h = refl
is_counting-stopped waiting h = refl
is_counting-stopped killed h = refl

is_running-count_down :
    (p : Process) → is_running (count_down p).state ≡ true → is_running p.state ≡ true
unfolding count_down
is_running-count_down p =
    elim-if (λ (t : Process). is_running t.state ≡ true → is_running p.state ≡ true)
      (is_counting p.state)
      (λ e. λ h. clash h (is_running-down_one p (is_counting-stopped p.state e))) (λ e. λ h. h)

pub update_timeouts-OneRunning : (s : Scheduler) → OneRunning s → OneRunning (update_timeouts s)
unfolding update_timeouts OneRunning state_of
update_timeouts-OneRunning s one pid h =
    let entry : get_or (map count_down s.pcb) pid vacant ≡ count_down (process_at s pid) =
      get_or-map s.pcb count_down pid vacant (unfold count_down in refl) in
    one pid (
      is_running-count_down (process_at s pid)
        (sym (ap (λ (t : Process). is_running t.state) entry) ∙ h))

pub block_process_light-OneRunning :
    (s : Scheduler) (pid : ℕ) → OneRunning s → After OneRunning (block_process_light s pid)
unfolding block_process_light
block_process_light-OneRunning s pid one =
    After-if (ltb pid max_process) (λ e. result (set_state-OneRunning s pid blocked one refl))
      (λ e. failed)

pub block_process_timeout_light-OneRunning :
    (s : Scheduler) (frequency pid ms : ℕ)
    → OneRunning s
    → After OneRunning (block_process_timeout_light s frequency pid ms)
unfolding block_process_timeout_light
block_process_timeout_light-OneRunning s frequency pid ms one =
    After-if (ltb pid max_process)
      (λ e. result (
        with_process-OneRunning s pid
          (record (process_at s pid) {
            sleep_timeout = sleep_ticks frequency ms;
            state = blocked_timeout;
          })
          one refl))
      (λ e. failed)

pub unblock_process-OneRunning :
    (s : Scheduler) (pid : ℕ) → OneRunning s → After OneRunning (unblock_process s pid)
unfolding unblock_process
unblock_process-OneRunning s pid one =
    After-if
      (ltb pid max_process && not (pid == s.idle_pid) && s.started && can_unblock (state_of s pid))
      (λ e. result (set_state-OneRunning s pid ready one refl)) (λ e. failed)

pub unblock_process_hint-OneRunning :
    (s : Scheduler) (pid : ℕ) → OneRunning s → After OneRunning (unblock_process_hint s pid)
unfolding unblock_process_hint
unblock_process_hint-OneRunning s pid one =
    After-if (ltb pid max_process && not (pid == s.idle_pid) && s.started)
      (λ e. result (
        elim-if OneRunning (is_running (state_of s pid)) (λ f. one)
          (λ f. set_state-OneRunning s pid ready one refl)))
      (λ e. failed)

pub sleep_mark-OneRunning :
    (s : Scheduler) (frequency pid time : ℕ)
    → OneRunning s
    → After OneRunning (sleep_mark s frequency pid time)
unfolding sleep_mark
sleep_mark-OneRunning s frequency pid time one =
    After-if (ltb pid max_process && is_running (state_of s pid))
      (λ e. result (
        with_process-OneRunning s pid
          (record (process_at s pid) {
            sleep_timeout = sleep_ticks frequency time;
            state = sleeping;
          })
          one refl))
      (λ e. failed)

pub notify_parent-OneRunning :
    (rounds i ppid : ℕ) (s : Scheduler)
    → OneRunning s
    → After OneRunning (notify_parent rounds i ppid s)
unfolding notify_parent
notify_parent-OneRunning zero i ppid s one = result one
notify_parent-OneRunning (suc rounds) i ppid s one =
    After-if ((process_at s i).pid == ppid && is_waiting (process_at s i).state)
      (λ e. After-bind (unblock_process s (process_at s i).pid) (λ t. λ f.
        notify_parent-OneRunning rounds (i + 1) ppid t
          (After-some (unblock_process-OneRunning s (process_at s i).pid one) f)))
      (λ e. notify_parent-OneRunning rounds (i + 1) ppid s one)

pub mark_killed-OneRunning : (s : Scheduler) → OneRunning s → After OneRunning (mark_killed s)
unfolding mark_killed
mark_killed-OneRunning s one =
    let ppid = (process_at s s.current_pid).ppid in
    let t0 = set_state s s.current_pid killed in
    After-bind (notify_parent max_process 0 ppid t0) (λ t. λ f.
      let here =
        After-some
          (notify_parent-OneRunning max_process 0 ppid t0
            (set_state-OneRunning s s.current_pid killed one refl))
          f in
      After-if (is_blocked (state_of t t.gc_pid)) (λ e. unblock_process-OneRunning t t.gc_pid here)
        (λ e. result here))

stays_blocked-stopped : (st : ProcessState) → stays_blocked st ≡ true → is_running st ≡ false
stays_blocked-stopped blocked h = refl
stays_blocked-stopped blocked_timeout h = refl
stays_blocked-stopped empty h = refl
stays_blocked-stopped new h = refl
stays_blocked-stopped ready h = refl
stays_blocked-stopped running h = sym h
stays_blocked-stopped sleeping h = refl
stays_blocked-stopped waiting h = refl
stays_blocked-stopped killed h = refl

pub preempt-OneRunning : (s : Scheduler) → OneRunning s → After OneRunning (preempt s)
unfolding preempt
preempt-OneRunning s one =
    let current = s.current_pid in
    let previous_state = state_of s current in
    let p = record (process_at s current) { rounds = 0 } in
    let t = with_process s current p in
    let u = if stays_blocked previous_state then t else set_state t current ready in
    let stopped : NoneRunning u × (current ≡ u.current_pid) =
      elim-if (λ (v : Scheduler). NoneRunning v × (current ≡ v.current_pid))
        (stays_blocked previous_state)
        (λ e.
          (stop_current s p one (unfold state_of in stays_blocked-stopped previous_state e), refl))
        (λ e. (
          unfold set_state in
              stop_current t (record (process_at t current) { state = ready })
                (with_current-OneRunning s p one) refl,
          unfold set_state in refl,
        )) in
    After-bind (select_next_process u) (λ pid. λ f. result (
      elim-if OneRunning (pid == current)
        (λ e. set_current-OneRunning u current previous_state stopped.0 stopped.1)
        (λ e. switch_to_process-OneRunning u pid stopped.0)))

pub tick-OneRunning : (s : Scheduler) → OneRunning s → After OneRunning (tick s)
unfolding tick tick_started
tick-OneRunning s one =
    let t = update_timeouts s in
    let here = update_timeouts-OneRunning s one in
    let p = process_at t t.current_pid in
    After-if s.started
      (λ on.
        After-if (p.rounds == t.rr_quantum) (λ e. preempt-OneRunning t here)
          (λ e.
            result
              (with_current-OneRunning t (record p { rounds = (p.rounds + 1) % 2 ^ 64 }) here)))
      (λ off. result one)

pub yield_mark-OneRunning : (s : Scheduler) → OneRunning s → After OneRunning (yield_mark s)
unfolding yield_mark
yield_mark-OneRunning s one =
    After-if (s.started && is_running (state_of s s.current_pid))
      (λ e. result (set_state-OneRunning s s.current_pid ready one refl)) (λ e. failed)

pub yield_switch-OneRunning :
    (s : Scheduler)
    → OneRunning s
    → is_running (state_of s s.current_pid) ≡ false
    → After OneRunning (yield_switch s)
unfolding yield_switch
yield_switch-OneRunning s one marked =
    let stopped : NoneRunning s = current_stopped s one marked in
    After-bind (select_next_process s) (λ pid. λ f. result (
      elim-if OneRunning (pid == s.current_pid)
        (λ g. set_current-OneRunning s s.current_pid running stopped refl)
        (λ g. switch_to_process-OneRunning s pid stopped)))

pub get_free_pid-OneRunning :
    (s : Scheduler)
    → OneRunning s
    → After (λ (pt : ℕ × Scheduler). OneRunning pt.1) (get_free_pid s)
unfolding get_free_pid OneRunning state_of
get_free_pid-OneRunning s one =
    After-if (is_empty (state_of s s.next_pid)) (λ e. result one)
      (λ e.
        After-bind (find_empty s max_process ((s.next_pid + 1) % max_process))
          (λ pid. λ f. result one))

pub new_process-OneRunning :
    (s : Scheduler) → OneRunning s → After (λ (pt : ℕ × Scheduler). OneRunning pt.1) (new_process s)
unfolding new_process
new_process-OneRunning s one = After-bind (get_free_pid s) (λ pt. λ f. result (
    with_process-OneRunning pt.1 pt.0 (new_entry pt.1 pt.0)
      (After-some (get_free_pid-OneRunning s one) f) (unfold new_entry in refl)))

pub queue_process-OneRunning :
    (s : Scheduler) (pid : ℕ) → OneRunning s → After OneRunning (queue_process s pid)
unfolding queue_process OneRunning state_of
queue_process-OneRunning s pid one =
    let priority = (process_at s pid).priority in
    After-if (ltb pid max_process && leb priority max_priority && leb min_priority priority)
      (λ e. result (set_state-OneRunning s pid ready one refl)) (λ e. failed)
