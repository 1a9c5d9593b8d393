-- ===== src/Conc/Handover.antt =====
-- kernel/include/conc/mutex.hpp: the hand-over of a mutex from the process that unlocks it to the
-- first one that waits.
use thor_os.Prelude.{
  ℕ, ◌≡◌, ◌≢◌, refl, ap, ◌∙◌, true, false, Option, some, List, ◌∷◌, length, if_false, ◌>>=◌,
}
use thor_os.Scheduler.{Scheduler, state_of, ready, max_process}
use thor_os.Scheduler.Blocking.{can_unblock}
use thor_os.Conc.WaitList.{WaitList, is_empty, dequeue}
use thor_os.Conc.Locks.{Lock, mutex_try_lock, mutex_unlock}
use thor_os.Conc.Links.{IsQueue}
use thor_os.Conc.Queue.{dequeue-IsQueue}

unlocked-dequeued :
    (m : Lock) (s : Scheduler) (r : ℕ × WaitList × Scheduler)
    → is_empty m.queue ≡ false
    → dequeue m.queue s ≡ some r
    → mutex_unlock m s ≡ some (record m { queue = r.1 }, r.2)
unfolding mutex_unlock
unlocked-dequeued m s r waits run =
    if_false _ _ waits
    ∙ ap (λ (o : Option (ℕ × WaitList × Scheduler)). do x ← o; some (record m { queue = x.1 }, x.2))
        run

held_try_lock : (m : Lock) → m.value ≡ 0 → mutex_try_lock m ≡ (false, m)
unfolding mutex_try_lock
held_try_lock m held = rw held refl

-- Unlocking a mutex that processes wait for hands it to the first of them: this process is woken,
-- the others stay in the queue in order, and the mutex is never free in between: a `try_lock` of
-- any process still fails after the unlock. The mutex must be held; the woken process must be
-- blocked or waiting and not the idle task, the table must have its 128 slots and the scheduler
-- must have been started.
pub mutex_hands_over :
    (m : Lock) (s : Scheduler) (p : ℕ) (q : List ℕ)
    → m.value ≡ 0
    → IsQueue m.queue s (p ∷ q)
    → length s.pcb ≡ max_process
    → s.started ≡ true
    → p ≢ s.idle_pid
    → can_unblock (state_of s p) ≡ true
    → (r : Lock × Scheduler) × (mutex_unlock m s ≡ some r)
      × (state_of r.1 p ≡ ready)
      × IsQueue r.0.queue r.1 q
      × (mutex_try_lock r.0 ≡ (false, r.0))
unfolding is_empty
mutex_hands_over m s p q held v size on busy can =
    let (r, run, woken) = dequeue-IsQueue m.queue s p q v size on busy can in
    let waits : is_empty m.queue ≡ false = rw (v.linked.0) refl in
    (
      (record m { queue = r.1 }, r.2),
      unlocked-dequeued m s r waits run,
      woken.is_ready,
      woken.queue,
      held_try_lock (record m { queue = r.1 }) held,
    )
