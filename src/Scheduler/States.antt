-- ===== src/Scheduler/States.antt =====
-- kernel/src/scheduler.cpp: what a write to the process table does to the states, and the
-- predicates on the processes that are running.
use thor_os.Prelude.{
  ℕ, ◌≡◌, ◌≢◌, sym, ap, ◌∙◌, true, false, inl, inr, Bool-cases, ◌⊎◌, ◌==◌, get_or-set_cases, clash,
  After, result, After-bind,
}
use thor_os.Scheduler.{
  running, Process, Scheduler, vacant, process_at, with_process, state_of, set_state, is_running,
  select_next_process, switch_to_process, reschedule_switch,
}

-- Only the current process can be running.
unfoldable pub OneRunning : Scheduler → Type 0
OneRunning s = (pid : ℕ) → is_running (state_of s pid) ≡ true → pid ≡ s.current_pid

unfoldable pub NoneRunning : Scheduler → Type 0
NoneRunning s = (pid : ℕ) → is_running (state_of s pid) ≡ false

-- Writing the entry of one process.
module _ (s : Scheduler) (pid : ℕ) (p : Process) where
  is_running-with_process :
      (q : ℕ)
      → is_running (state_of (with_process s pid p) q) ≡ true
      → ((pid ≡ q) × (is_running p.state ≡ true)) ⊎ ((pid ≢ q) × (is_running (state_of s q) ≡ true))
  unfolding state_of
  is_running-with_process q h = elim (get_or-set_cases s.pcb pid q p vacant) [
    | inl e ↦ inl (e.0, sym (ap (λ (t : Process). is_running t.state) e.1) ∙ h)
    | inr (inl e) ↦ inr (e.0, sym (ap (λ (t : Process). is_running t.state) e.1) ∙ h)
    | inr (inr e) ↦ clash h (ap (λ (t : Process). is_running t.state) e)
  ]

  -- An entry that is not running.
  pub with_process-OneRunning :
      OneRunning s → is_running p.state ≡ false → OneRunning (with_process s pid p)
  unfolding OneRunning
  with_process-OneRunning one n q h = elim (is_running-with_process q h) [
    | inl e ↦ clash e.1 n
    | inr e ↦ one q e.1
  ]

  pub with_process-NoneRunning :
      NoneRunning s → is_running p.state ≡ false → NoneRunning (with_process s pid p)
  unfolding NoneRunning
  with_process-NoneRunning none_runs n q =
      elim (Bool-cases (is_running (state_of (with_process s pid p) q))) [
        | inl e ↦ elim (is_running-with_process q e) [
          | inl f ↦ clash f.1 n
          | inr f ↦ clash f.1 (none_runs q)
        ]
        | inr e ↦ e
      ]

-- The current process stops running: then none is.
pub stop_current :
    (s : Scheduler) (p : Process)
    → OneRunning s
    → is_running p.state ≡ false
    → NoneRunning (with_process s s.current_pid p)
unfolding OneRunning NoneRunning
stop_current s p one n q =
    elim (Bool-cases (is_running (state_of (with_process s s.current_pid p) q))) [
      | inl e ↦ elim (is_running-with_process s s.current_pid p q e) [
        | inl f ↦ clash f.1 n
        | inr f ↦ absurd (f.0 (sym (one q f.1)))
      ]
      | inr e ↦ e
    ]

pub current_stopped :
    (s : Scheduler) → OneRunning s → is_running (state_of s s.current_pid) ≡ false → NoneRunning s
unfolding OneRunning NoneRunning
current_stopped s one n q = elim (Bool-cases (is_running (state_of s q))) [
  | inl e ↦ clash e (ap (λ (t : ℕ). is_running (state_of s t)) (one q e) ∙ n)
  | inr e ↦ e
]

-- The entry of the current process may become anything.
pub with_current-OneRunning :
    (s : Scheduler) (p : Process) → OneRunning s → OneRunning (with_process s s.current_pid p)
unfolding OneRunning
with_current-OneRunning s p one q h = elim (is_running-with_process s s.current_pid p q h) [
  | inl e ↦ sym e.0
  | inr e ↦ one q e.1
]

-- So may the entry of a process that is the current one, when none runs.
pub run_current :
    (s : Scheduler) (pid : ℕ) (p : Process)
    → NoneRunning s
    → pid ≡ s.current_pid
    → OneRunning (with_process s pid p)
unfolding OneRunning NoneRunning
run_current s pid p none_runs c q h = elim (is_running-with_process s pid p q h) [
  | inl e ↦ sym e.0 ∙ c
  | inr e ↦ clash e.1 (none_runs q)
]

-- Running one process when none runs.
pub run_one :
    (s : Scheduler) (pid : ℕ)
    → NoneRunning s
    → OneRunning (set_state (record s { current_pid = pid }) pid running)
unfolding NoneRunning OneRunning set_state state_of
run_one s pid none_runs q h =
    elim (is_running-with_process (record s { current_pid = pid }) pid
      (record (process_at s pid) { state = running }) q h) [
        | inl e ↦ sym e.0
        | inr e ↦ clash e.1 (none_runs q)
      ]

pub switch_to_process-OneRunning :
    (s : Scheduler) (pid : ℕ) → NoneRunning s → OneRunning (switch_to_process s pid)
unfolding switch_to_process
switch_to_process-OneRunning s pid n = elim (Bool-cases (s.current_pid == pid)) [
  | inl e ↦ rw e (unfold OneRunning in unfold NoneRunning in (λ q. λ h. clash h (n q)))
  | inr e ↦ rw e (run_one s pid n)
]

pub reschedule_switch-OneRunning :
    (s : Scheduler)
    → OneRunning s
    → is_running (state_of s s.current_pid) ≡ false
    → After OneRunning (reschedule_switch s)
unfolding reschedule_switch
reschedule_switch-OneRunning s one stopped =
    After-bind (select_next_process s)
      (λ pid. λ f. result (switch_to_process-OneRunning s pid (current_stopped s one stopped)))
