-- ===== src/Conc/Signals.antt =====
-- kernel/include/conc/deferred_unique_mutex.hpp and deferred_unique_semaphore.hpp: what becomes of
-- the notifications.
use thor_os.Prelude.{ℕ, ◌+◌, ◌<◌, ◌≡◌, Bool, true, false, some, if◌then◌else◌}
use thor_os.Scheduler.{Scheduler}
use thor_os.Conc.Exclusion.{one_if}
use thor_os.Conc.Deferred.{
  Deferred, claim, semaphore_wait_enter, semaphore_notify, semaphore_notify_many,
}

-- A semaphore, the scheduler, the notifications so far, the waits that were let through, and the
-- waits that are blocked and were not woken yet.
pub record Tally : Type 0 where
  pub signal : Deferred
  pub sched : Scheduler
  pub notified : ℕ
  pub passed : ℕ
  pub asleep : ℕ

abbrev pub tally : Deferred → Scheduler → ℕ → ℕ → ℕ → Tally
tally d s n p a = record { signal = d; sched = s; notified = n; passed = p; asleep = a }

-- Of the `a` blocked waits, those that a notification wakes, which it does if it finds the flag
-- `waiting`, and those that it leaves blocked.
abbrev pub woken_of : Bool → ℕ → ℕ
woken_of waiting a = if waiting then a else 0

abbrev pub left_of : Bool → ℕ → ℕ
left_of waiting a = if waiting then 0 else a

-- An operation of the semaphore, or anything that happens to the scheduler in between. Only one
-- process waits on the object, so no wait is blocked when one starts. The handler of an interrupt
-- that reports several events reports at least one.
pub data Signal : Tally → Tally → Type 0 where
  claimed :
      {d : Deferred} {s : Scheduler} (n p a : ℕ)
      → Signal (tally d s n p a) (tally (claim d s) s n p a)
  passed_by :
      {d d' : Deferred} {s s' : Scheduler} (n p : ℕ)
      → semaphore_wait_enter d s ≡ some (true, d', s')
      → Signal (tally d s n p 0) (tally d' s' n (p + 1) 0)
  fell_asleep :
      {d d' : Deferred} {s s' : Scheduler} (n p : ℕ)
      → semaphore_wait_enter d s ≡ some (false, d', s')
      → Signal (tally d s n p 0) (tally d' s' n p 1)
  notified_one :
      {d d' : Deferred} {s s' : Scheduler} (n p a : ℕ)
      → semaphore_notify d s ≡ some (d', s')
      → Signal
          (tally d s n p a)
          (tally d' s' (n + 1) (p + woken_of d.waiting a) (left_of d.waiting a))
  notified_many :
      {d d' : Deferred} {s s' : Scheduler} (n p a k : ℕ)
      → 0 < k
      → semaphore_notify_many d s k ≡ some (d', s')
      → Signal
          (tally d s n p a)
          (tally d' s' (n + k) (p + woken_of d.waiting a) (left_of d.waiting a))
  scheduled :
      {d : Deferred} {s : Scheduler} (s' : Scheduler) (n p a : ℕ)
      → Signal (tally d s n p a) (tally d s' n p a)

pub data Signals (a : Tally) : Tally → Type 0 where
  start : Signals a a
  then_signal : {b c : Tally} → Signals a b → Signal b c → Signals a c

-- The value and the flag after a wait, by its answer.
abbrev Entered : Deferred → Bool × Deferred × Scheduler → Type 0
Entered d r =
    (r.1.value + one_if r.0 ≡ d.value)
    × (one_if r.1.waiting ≡ (if r.0 then one_if d.waiting else 1))

-- The value and the flag after a call that reports `k` events.
abbrev Notified : Deferred → ℕ → Deferred × Scheduler → Type 0
Notified d k r = (r.0.value + one_if d.waiting ≡ d.value + k) × (one_if r.0.waiting ≡ 0)

-- The value at the start and the notifications are the waits let through and the value now, and
-- the flag tells whether a wait is blocked.
abbrev Balanced : ℕ → Tally → Type 0
Balanced v b = (v + b.notified ≡ b.signal.value + b.passed) × (b.asleep ≡ one_if b.signal.waiting)
