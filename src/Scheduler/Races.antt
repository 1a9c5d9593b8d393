-- ===== src/Scheduler/Races.antt =====
-- kernel/src/scheduler.cpp: what a tick or a wake-up does between a critical section and the call of
-- `reschedule` after it.
use thor_os.Prelude.{
  ℕ, ◌<◌, ◌≡◌, ◌≢◌, refl, ap, ◌∙◌, arith, true, false, not, ◌==◌, ltb, if◌then◌else◌, length,
  get_or-map, get_or-set_self, get_or-set_ne, length-map, length-set, clash, Option, none, some,
  After, result, After-some, After-if, After-bind, elim-if, if_true, if_false, and_false, ◌>>=◌,
}
use thor_os.Scheduler.{
  ProcessState, ready, running, killed, Process, Scheduler, vacant, process_at, with_process,
  state_of, set_state, is_running, select_next_process, switch_to_process, reschedule_switch,
  reschedule, max_process,
}
use thor_os.Scheduler.Tick.{
  count_down, is_counting, update_timeouts, stays_blocked, preempt, tick_started, tick, yield_mark,
  yield_switch, yield,
}
use thor_os.Scheduler.Blocking.{sleep_mark, sleep_ms}

same_test : (a b : ℕ) → a ≡ b → (a == b) ≡ true
same_test a b h = ground arith

-- A process that is READY while it executes stays so when `reschedule` chooses it, and then neither
-- `sleep_ms` nor `yield` passes its assertion. The scheduler must have been started.
pub reschedule_leaves_ready :
    (s : Scheduler)
    → s.started ≡ true
    → state_of s s.current_pid ≡ ready
    → select_next_process s ≡ some s.current_pid
    → (reschedule s ≡ some s)
      × (((frequency time : ℕ) → sleep_ms s frequency s.current_pid time ≡ none) × (yield s ≡ none))
reschedule_leaves_ready s on r chosen =
    let stopped : is_running (state_of s s.current_pid) ≡ false =
      ap (λ (st : ProcessState). is_running st) r in
    (
      unfold reschedule reschedule_switch in
          if_false _ _ (ap not on)
          ∙ if_false _ _ stopped
          ∙ ap (λ (o : Option ℕ). o >>= λ pid. some (switch_to_process s pid)) chosen
          ∙ ap some (
              unfold switch_to_process in if_true _ _ (same_test s.current_pid s.current_pid refl)),
      (
        (λ frequency. λ time.
            unfold sleep_ms sleep_mark in
            ap (λ (o : Option Scheduler). o >>= λ t. reschedule t)
              (if_false _ _ (and_false (ltb s.current_pid max_process) stopped))),
        unfold yield yield_mark in
            ap (λ (o : Option Scheduler). o >>= λ t. yield_switch t)
              (if_false _ _ (and_false s.started stopped)),
      ),
    )

pub state_of-set_state_ne :
    (s : Scheduler) {pid q : ℕ} (st : ProcessState)
    → pid ≢ q
    → state_of (set_state s pid st) q ≡ state_of s q
unfolding state_of set_state
state_of-set_state_ne s {pid} {q} st ne =
    ap (λ (p : Process). p.state)
      (get_or-set_ne s.pcb (record (process_at s pid) { state = st }) vacant ne)

pub state_of-set_state_self :
    (s : Scheduler) (pid : ℕ) (st : ProcessState)
    → pid < length s.pcb
    → state_of (set_state s pid st) pid ≡ st
unfolding state_of set_state
state_of-set_state_self s pid st within =
    ap (λ (p : Process). p.state)
      (get_or-set_self s.pcb pid (record (process_at s pid) { state = st }) vacant within)

state_of-switch_to_process :
    (s : Scheduler) (pid q : ℕ) → pid ≢ q → state_of (switch_to_process s pid) q ≡ state_of s q
unfolding switch_to_process
state_of-switch_to_process s pid q ne =
    elim-if (λ (t : Scheduler). state_of t q ≡ state_of s q) (s.current_pid == pid) (λ e. refl)
      (λ e.
        state_of-set_state_ne (record s { current_pid = pid }) running ne ∙ unfold state_of in refl)

-- The part of `yield` under the lock, when the current process was set to RUNNING since it was
-- marked and another process is chosen: it stays RUNNING and is not the current process.
pub yield_switch_leaves_running :
    (s : Scheduler) (pid : ℕ)
    → is_running (state_of s s.current_pid) ≡ true
    → select_next_process s ≡ some pid
    → pid ≢ s.current_pid
    → (t : Scheduler) × (yield_switch s ≡ some t)
      × (t.current_pid ≡ pid)
      × (is_running (state_of t s.current_pid) ≡ true)
unfolding yield_switch
yield_switch_leaves_running s pid on chosen other =
    let ne : (pid == s.current_pid) ≡ false = ground arith in
    let apart : (s.current_pid == pid) ≡ false = ground arith in
    (
      switch_to_process s pid,
      ap
            (λ (o : Option ℕ). o >>= λ p. some (
              if p == s.current_pid
              then set_state s s.current_pid running
              else switch_to_process s p))
            chosen
          ∙ ap some (if_false _ _ ne),
      unfold switch_to_process set_state in
          ap (λ (t : Scheduler). t.current_pid) (if_false _ _ apart),
      ap (λ (st : ProcessState). is_running st)
            (state_of-switch_to_process s pid s.current_pid other)
          ∙ on,
    )

Replaced : ℕ → Scheduler → Type 0
Replaced old t = t.current_pid ≢ old → state_of t old ≡ ready

preempt-Replaced :
    (s : Scheduler)
    → s.current_pid < length s.pcb
    → stays_blocked (state_of s s.current_pid) ≡ false
    → After (Replaced s.current_pid) (preempt s)
unfolding preempt Replaced set_state
preempt-Replaced s within free_to_run =
    let current = s.current_pid in
    let previous_state = state_of s current in
    let p = record (process_at s current) { rounds = 0 } in
    let t = with_process s current p in
    let u = if stays_blocked previous_state then t else set_state t current ready in
    let facts : (state_of u current ≡ ready) × (u.current_pid ≡ current) =
      elim-if (λ (v : Scheduler). (state_of v current ≡ ready) × (v.current_pid ≡ current))
        (stays_blocked previous_state) (λ e. clash e free_to_run)
        (λ e. (
          state_of-set_state_self t current ready (omega (arith, length-set s.pcb current p)),
          refl,
        )) in
    After-bind (select_next_process u) (λ pid. λ f. result (
      elim-if (λ (v : Scheduler). v.current_pid ≢ current → state_of v current ≡ ready)
        (pid == current) (λ e. λ ne. absurd (ne facts.1))
        (λ e. λ ne. state_of-switch_to_process u pid current (ground arith) ∙ facts.0)))

killed_entry :
    (s : Scheduler)
    → state_of s s.current_pid ≡ killed
    → process_at (update_timeouts s) s.current_pid ≡ process_at s s.current_pid
unfolding update_timeouts state_of
killed_entry s dead =
    get_or-map s.pcb count_down s.current_pid vacant (unfold count_down in refl)
    ∙ unfold count_down in if_false _ _ (ap (λ (st : ProcessState). is_counting st) dead)

-- A killed process that has used its quantum: if the tick switches to another process, the killed
-- one is READY afterwards. The scheduler must have been started, and the
-- current process must be in the table.
pub tick_revives_killed :
    (s t : Scheduler)
    → s.started ≡ true
    → s.current_pid < length s.pcb
    → state_of s s.current_pid ≡ killed
    → (process_at s s.current_pid).rounds ≡ s.rr_quantum
    → tick s ≡ some t
    → t.current_pid ≢ s.current_pid
    → state_of t s.current_pid ≡ ready
unfolding tick tick_started update_timeouts Replaced
tick_revives_killed s t on within dead used ticked =
    let m = update_timeouts s in
    let entry : process_at m m.current_pid ≡ process_at s s.current_pid = killed_entry s dead in
    let inside : m.current_pid < length m.pcb =
      unfold update_timeouts in omega (arith, length-map s.pcb count_down) in
    let run : stays_blocked (state_of m m.current_pid) ≡ false =
      unfold state_of in
      ap (λ (p : Process). stays_blocked p.state) entry
      ∙ ap (λ (st : ProcessState). stays_blocked st) (unfold state_of in dead) in
    let used_up : (process_at m m.current_pid).rounds ≡ m.rr_quantum =
      ap (λ (p : Process). p.rounds) entry ∙ used in
    After-some
      (After-if s.started
        (λ e.
          After-if ((process_at m m.current_pid).rounds == m.rr_quantum)
            (λ f. preempt-Replaced m inside run)
            (λ f. clash (same_test (process_at m m.current_pid).rounds m.rr_quantum used_up) f))
        (λ e. clash on e))
      ticked
