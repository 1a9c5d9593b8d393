-- ===== src/Scheduler/Tests.antt =====
-- Runs of the scheduler on small tables, and instances of its theorems.
use thor_os.Prelude.{◌≡◌, refl, arith, true, false, some, [], ◌∷◌, replicate}
use thor_os.Scheduler.{
  ProcessState, empty, ready, running, killed, waiting, Process, Scheduler, vacant, process_at,
  with_process, state_of, set_state, run_queue, max_process, select_next_process, switch_to_process,
  runnable, first_runnable,
}
use thor_os.Scheduler.Tick.{count_down, update_timeouts, preempt, tick_started, tick}
use thor_os.Scheduler.Create.{start}
use thor_os.Scheduler.Choice.{candidates, select_next_process-candidates}
use thor_os.Scheduler.Races.{tick_revives_killed}

-- The idle task 0 and three processes of the default priority, of which 2 is the current one.
abbrev busy : ProcessState → Scheduler
busy st = record {
  pcb =
      record vacant { pid = 0; priority = 1; state = ready }
      ∷ record vacant { pid = 1; priority = 3; state = ready }
      ∷ record vacant { pid = 2; priority = 3; state = st; rounds = 25 }
      ∷ record vacant { pid = 3; priority = 3; state = ready }
      ∷ replicate 124 vacant;
  run_queues = (0 ∷ []) ∷ [] ∷ (1 ∷ 2 ∷ 3 ∷ []) ∷ [] ∷ [];
  started = true;
  rr_quantum = 25;
  current_pid = 2;
  next_pid = 3;
  gc_pid = 1;
  idle_pid = 0;
  post_init_pid = 1;
}

select_runs : select_next_process (busy running) ≡ some 3
unfolding select_next_process thor_os.Scheduler.select_higher thor_os.Scheduler.select_same
    thor_os.Scheduler.next_index thor_os.Scheduler.select_around run_queue first_runnable runnable
    state_of
select_runs = refl

select_next_process-candidates_example :
    select_next_process (busy running)
    ≡ first_runnable (busy running) (candidates (busy running) (1 ∷ []) (3 ∷ []))
select_next_process-candidates_example =
    select_next_process-candidates (busy running) (1 ∷ []) (3 ∷ []) (unfold run_queue in refl)
      (unfold thor_os.Scheduler.Choice.is_queued in refl)

-- Two processes before the start.
abbrev young : Scheduler
young = record (busy ready) {
  pcb =
      record vacant { pid = 0; priority = 1; state = ready }
      ∷ record vacant { pid = 1; priority = 4; state = ready }
      ∷ [];
  started = false;
  run_queues = (0 ∷ []) ∷ [] ∷ [] ∷ (1 ∷ []) ∷ [];
}

-- Process 1 waits for a child, and then the idle task is chosen.
abbrev parent_waits : Scheduler
parent_waits = set_state (start young) 1 waiting

-- The current process is the only one of its priority, and was woken before it could reschedule.
abbrev woken : Scheduler
woken = record (busy ready) { run_queues = (0 ∷ []) ∷ [] ∷ (2 ∷ []) ∷ [] ∷ [] }

woken_chooses_itself : select_next_process woken ≡ some 2
unfolding select_next_process thor_os.Scheduler.select_higher thor_os.Scheduler.select_same
    thor_os.Scheduler.next_index thor_os.Scheduler.select_around run_queue first_runnable runnable
    state_of
woken_chooses_itself = refl

abbrev revived : Scheduler
revived = record (busy ready) {
  pcb =
      record vacant { pid = 0; priority = 1; state = ready }
      ∷ record vacant { pid = 1; priority = 3; state = ready }
      ∷ record vacant { pid = 2; priority = 3; state = ready; rounds = 0 }
      ∷ record vacant { pid = 3; priority = 3; state = running }
      ∷ replicate 124 vacant;
  current_pid = 3;
}

killed_is_replaced : tick (busy killed) ≡ some revived
unfolding tick tick_started preempt update_timeouts count_down set_state switch_to_process
    select_next_process thor_os.Scheduler.select_higher thor_os.Scheduler.select_same
    thor_os.Scheduler.next_index thor_os.Scheduler.select_around run_queue first_runnable runnable
    state_of
killed_is_replaced = refl

tick_revives_killed_example : state_of revived 2 ≡ ready
tick_revives_killed_example =
    tick_revives_killed (busy killed) revived refl (omega arith) (unfold state_of in refl) refl
      killed_is_replaced (omega arith)
