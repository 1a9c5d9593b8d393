-- ===== src/Conc/Tests.antt =====
-- Runs of the wait list and the locks, and instances of their theorems.
use thor_os.Prelude.{
  ℕ, ◌≤◌, ◌≡◌, ◌≢◌, refl, arith, true, false, Option, none, some, [], ◌∷◌, replicate, ◌>>=◌,
}
use thor_os.Scheduler.{ready, blocked, Scheduler, vacant, state_of, reschedule}
use thor_os.Scheduler.Choice.{is_queued}
use thor_os.Conc.WaitList.{WaitList, empty_list, enqueue, dequeue, remove, append_own}
use thor_os.Conc.Locks.{Lock, mutex_enter, semaphore_enter, mutex_unlock, mutex_try_lock}
use thor_os.Conc.Handover.{mutex_hands_over}
use thor_os.Conc.RwLock.{RwLock, read_try, write_wait, write_unlock}
use thor_os.Conc.Links.{Links, IsQueue}
use thor_os.Conc.Queue.{Woken, enqueue-IsQueue, dequeue-IsQueue}
use thor_os.Conc.Remove.{remove_last_loses}
use thor_os.Conc.Readers.{Shared, shared, rw_exclusive, two_writers, lost_wakeup, read}
use thor_os.Conc.Deferred.{Deferred, mutex_notify, mutex_wait_enter, mutex_wait_leave}
use thor_os.Conc.Signals
use thor_os.Scheduler.{blocked_timeout}
use thor_os.Scheduler.Blocking.{block_process_timeout_light, sleep_ticks}
use thor_os.Conc.WaitList.{enqueue_timeout, waiting, waiting_from, top, is_empty}
use thor_os.Conc.Locks.{mutex_init, mutex_lock, semaphore_lock, wake_some, semaphore_release}
use thor_os.Conc.RwLock.{read_unlock, writer_unlock, reader_unlock}
use thor_os.Conc.Condition.{
  notify_from, invalid_pid, top_process, notify_one, wait_for_start, wait_for_end, notify_all,
}
use thor_os.Conc.Broadcast.{IsAwake, notify_all-IsAwake}
use thor_os.Conc.Readers

-- Processes 0 to 3, of which the given one is current, with the `next` pointers of 1 and 2.
abbrev table : ℕ → Option ℕ → Option ℕ → Scheduler
table current next1 next2 = record {
  pcb =
      record vacant { pid = 0; wait_pid = 0; priority = 1; state = ready }
      ∷ record vacant { pid = 1; wait_pid = 1; wait_next = next1; priority = 3; state = blocked }
      ∷ record vacant { pid = 2; wait_pid = 2; wait_next = next2; priority = 3; state = blocked }
      ∷ record vacant { pid = 3; wait_pid = 3; priority = 3; state = blocked }
      ∷ replicate 124 vacant;
  run_queues = (0 ∷ []) ∷ [] ∷ (1 ∷ 2 ∷ 3 ∷ []) ∷ [] ∷ [];
  started = true;
  rr_quantum = 25;
  current_pid = current;
  next_pid = 4;
  gc_pid = 1;
  idle_pid = 0;
  post_init_pid = 1;
}

-- Processes 1 and 3 wait, and then 1, 2 and 3.
abbrev waiters : WaitList
waiters = record { head = some 1; tail = some 3 }

pair-IsQueue : (current : ℕ) → IsQueue waiters (table current (some 3) none) (1 ∷ 3 ∷ [])
unfolding is_queued
pair-IsQueue current = record {
  linked = (refl, refl, omega arith, refl, (refl, refl, omega arith, refl, refl));
  ends = refl;
}

triple-IsQueue : IsQueue waiters (table 2 (some 2) (some 3)) (1 ∷ 2 ∷ 3 ∷ [])
unfolding is_queued
triple-IsQueue = record {
  linked = (
    refl,
    refl,
    omega arith,
    refl,
    (refl, refl, omega arith, refl, (refl, refl, omega arith, refl, refl)),
  );
  ends = refl;
}

enqueue-IsQueue_example :
    (r : WaitList × Scheduler) × (enqueue waiters (table 2 (some 3) none) ≡ some r)
    × IsQueue r.0 r.1 (1 ∷ 3 ∷ 2 ∷ [])
    × (state_of r.1 2 ≡ blocked)
enqueue-IsQueue_example =
    enqueue-IsQueue waiters (table 2 (some 3) none) (1 ∷ 3 ∷ []) (pair-IsQueue 2)
      (unfold is_queued in refl) refl (omega arith) refl

dequeue-IsQueue_example :
    (r : ℕ × WaitList × Scheduler) × (dequeue waiters (table 2 (some 3) none) ≡ some r)
    × Woken waiters (table 2 (some 3) none) 1 (3 ∷ []) r
dequeue-IsQueue_example =
    dequeue-IsQueue waiters (table 2 (some 3) none) 1 (3 ∷ []) (pair-IsQueue 2) refl refl
      (omega arith) (unfold state_of in refl)

mutex_hands_over_example :
    (r : Lock × Scheduler) × (mutex_unlock
        (record { value = 0; queue = waiters })
        (table 2 (some 3) none)
      ≡ some r)
    × (state_of r.1 1 ≡ ready)
    × IsQueue r.0.queue r.1 (3 ∷ [])
    × (mutex_try_lock r.0 ≡ (false, r.0))
mutex_hands_over_example =
    mutex_hands_over (record { value = 0; queue = waiters }) (table 2 (some 3) none) 1 (3 ∷ []) refl
      (pair-IsQueue 2) refl refl (omega arith) (unfold state_of in refl)

remove_last_loses_example :
    (r : WaitList × Scheduler) × (remove waiters (table 3 (some 3) none) ≡ some r)
    × Links r.1 r.0.head (1 ∷ [])
    × (r.0.tail ≡ none)
    × (u : Scheduler) × (enqueue r.0 (table 2 none none)
        ≡ some (record { head = some 2; tail = some 2 }, u))
remove_last_loses_example =
    remove_last_loses waiters (table 3 (some 3) none) (omega arith) 1 [] (table 2 none none)
      (pair-IsQueue 3) (omega arith) (omega arith)

abbrev one : Lock
one = record { value = 1; queue = empty_list }

mutex_runs :
    mutex_enter one (table 2 none none) ≡ some (true, record one { value = 0 }, table 2 none none)
unfolding mutex_enter
mutex_runs = refl

semaphore_runs :
    semaphore_enter (record one { value = 5 }) (table 2 none none)
    ≡ some (true, record one { value = 4 }, table 2 none none)
unfolding semaphore_enter
semaphore_runs = refl

abbrev free_lock : RwLock
free_lock = record { write = empty_list; readers = 0; writer = false }

abbrev one_reader : Shared
one_reader = shared (record free_lock { readers = 1 }) 1 0

one_reads : read_try free_lock ≡ (true, record free_lock { readers = 1 })
unfolding read_try
one_reads = refl

rw_exclusive_example : (one_reader.writing ≤ 1) × (one_reader.writing ≢ 0 → one_reader.reading ≡ 0)
rw_exclusive_example =
    rw_exclusive free_lock one_reader refl refl
      (Readers.then_access Readers.start (read (omega arith) one_reads))

abbrev written_lock : RwLock
written_lock = record free_lock { writer = true }

lost_wakeup_example :
    (read_try written_lock ≡ (false, written_lock))
    × (write_unlock written_lock (table 1 none none) ≡ some (free_lock, table 1 none none))
    × (q : WaitList × Scheduler) × (write_wait free_lock (table 2 none none)
        ≡ (do u ← reschedule q.1; some (record free_lock { write = q.0 }, u)))
    × IsQueue q.0 q.1 (2 ∷ [])
    × (state_of q.1 2 ≡ blocked)
lost_wakeup_example =
    lost_wakeup written_lock (table 1 none none) (table 2 none none) refl refl refl refl
      (omega arith) refl

abbrev quiet : Deferred
quiet = record { pid = 2; value = 0; waiting = false }

-- A notification before the wait, and the wait that finds it.
mutex_signal_runs :
    (mutex_notify quiet (table 2 none none) ≡ some (record quiet { value = 1 }, table 2 none none))
    × (mutex_wait_enter (record quiet { value = 1 }) (table 2 none none)
        ≡ some (true, quiet, table 2 none none))
    × (mutex_wait_leave (record quiet { waiting = true }) ≡ quiet)
unfolding mutex_notify mutex_wait_enter mutex_wait_leave
mutex_signal_runs = (refl, refl, refl)

notify_all-IsAwake_example :
    (r : WaitList × Scheduler) × (notify_all waiters (table 2 (some 2) (some 3)) ≡ some r)
    × IsQueue r.0 r.1 []
    × ((p : ℕ) → is_queued p (1 ∷ 2 ∷ 3 ∷ []) ≡ true → IsAwake r.1 p)
notify_all-IsAwake_example =
    notify_all-IsAwake waiters (table 2 (some 2) (some 3)) (1 ∷ 2 ∷ 3 ∷ []) triple-IsQueue
      (omega arith) refl refl (unfold is_queued in refl)

-- The operations around the critical sections, on objects that nobody waits for.
quiet_locks :
    (mutex_lock (mutex_init one 4) (table 2 none none)
      ≡ some (record one { value = 0 }, table 2 none none))
    × (semaphore_lock (record one { value = 5 }) (table 2 none none)
        ≡ some (record one { value = 4 }, table 2 none none))
    × (semaphore_release one (table 2 none none) 3
        ≡ some (record one { value = 4 }, table 2 none none))
    × (wake_some 2 one (table 2 none none) ≡ some (2, one, table 2 none none))
unfolding mutex_init mutex_lock mutex_enter semaphore_lock semaphore_enter semaphore_release
    wake_some is_empty
quiet_locks = (refl, refl, refl, refl)

quiet_condition :
    (top_process waiters (table 2 none none) ≡ some 1)
    × (notify_one empty_list (table 2 none none)
        ≡ some (invalid_pid, empty_list, table 2 none none))
    × (wait_for_start waiters (table 2 none none) 1000 0 ≡ some (false, waiters, table 2 none none))
    × (wait_for_end waiters (table 2 (some 3) none) ≡ some (true, waiters, table 2 (some 3) none))
unfolding top_process top notify_one wait_for_start wait_for_end waiting waiting_from is_empty
quiet_condition = (refl, refl, refl, refl)

-- A process that waits with a timeout, and the other lock objects.
timed_wait :
    (r : WaitList × Scheduler) × (enqueue_timeout empty_list (table 2 none none) 1000 7 ≡ some r)
    × (r.0 ≡ record { head = some 2; tail = some 2 })
    × (state_of r.1 2 ≡ blocked_timeout)
unfolding enqueue_timeout append_own block_process_timeout_light sleep_ticks state_of
timed_wait = (_, refl, refl, refl)

unlocks :
    (writer_unlock (record free_lock { readers = 2 }) (table 1 none none)
      ≡ some (record free_lock { readers = 1 }, table 1 none none))
    × (reader_unlock written_lock (table 1 none none) ≡ some (free_lock, table 1 none none))
unfolding writer_unlock reader_unlock read_unlock write_unlock notify_all notify_from is_empty
unlocks = (refl, refl)
