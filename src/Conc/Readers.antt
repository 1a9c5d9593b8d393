-- ===== src/Conc/Readers.antt =====
-- kernel/include/conc/rw_lock.hpp: who holds the lock for reading and for writing.
use thor_os.Prelude.{
  ℕ, suc, ◌+◌, ◌-◌, ◌%◌, ◌^◌, ◌<◌, ◌≤◌, ◌≡◌, ◌≢◌, refl, sym, ap, subst, ◌∙◌, arith, Bool, true,
  false, Option, none, some, [], ◌∷◌, length, ◌==◌, if◌then◌else◌, if_true, if_false, clash, ◌>>=◌,
  Bool-cases, inl, inr, After, result, After-some, After-if, After-bind,
}
use thor_os.Scheduler.{Scheduler, reschedule, max_process, state_of, blocked}
use thor_os.Scheduler.Choice.{is_queued}
use thor_os.Conc.Links.{IsQueue}
use thor_os.Conc.Queue.{enqueue-IsQueue}
use thor_os.Conc.WaitList.{WaitList, is_empty, empty_list, enqueue, pid_of}
use thor_os.Conc.Condition.{notify_one, notify_all, notify_from, wait}
use thor_os.Conc.RwLock.{
  RwLock, read_try, write_try, write_wait, read_unlock, write_unlock, writer_try, reader_try,
}

-- The lock with the number of its holders for reading and for writing.
pub record Shared : Type 0 where
  pub lock : RwLock
  pub reading : ℕ
  pub writing : ℕ

abbrev pub shared : RwLock → ℕ → ℕ → Shared
shared l r w = record { lock = l; reading = r; writing = w }

-- One step: a test that succeeds or sends the process to wait, a wait, or an unlock by a holder.
-- The number of readers stays below 2 ^ 64 - 1.
pub data Access : Shared → Shared → Type 0 where
  read :
      {l l' : RwLock} {r w : ℕ}
      → r < 2 ^ 64 - 1
      → read_try l ≡ (true, l')
      → Access (shared l r w) (shared l' (suc r) w)
  written :
      {l l' : RwLock} {r w : ℕ}
      → write_try l ≡ (true, l')
      → Access (shared l r w) (shared l' r (suc w))
  waited :
      {l l' : RwLock} {r w : ℕ} (s s' : Scheduler)
      → write_wait l s ≡ some (l', s')
      → Access (shared l r w) (shared l' r w)
  read_left :
      {l l' : RwLock} {r w : ℕ} (s s' : Scheduler)
      → read_unlock l s ≡ some (l', s')
      → Access (shared l (suc r) w) (shared l' r w)
  write_left :
      {l l' : RwLock} {r w : ℕ} (s s' : Scheduler)
      → write_unlock l s ≡ some (l', s')
      → Access (shared l r (suc w)) (shared l' r w)

pub data Accesses (a : Shared) : Shared → Type 0 where
  start : Accesses a a
  then_access : {b c : Shared} → Accesses a b → Access b c → Accesses a c

-- The counter is the number of readers, the flag says whether there is a writer, and there are not
-- both.
pub record Counts (a : Shared) : Type 0 where
  pub counted : a.lock.readers ≡ a.reading
  pub few : a.reading < 2 ^ 64
  pub flagged : a.writing ≡ (if a.lock.writer then 1 else 0)
  pub apart : a.lock.writer ≡ true → a.reading ≡ 0

read_try-Counts :
    (l : RwLock) (r w : ℕ)
    → Counts (shared l r w)
    → r < 2 ^ 64 - 1
    → (read_try l).0 ≡ true
    → Counts (shared (read_try l).1 (suc r) w)
unfolding read_try
read_try-Counts l r w c few won = elim (Bool-cases l.writer) [
  | inl e ↦ clash won (ap (λ (x : Bool × RwLock). x.0) (if_true _ _ e))
  | inr e ↦ rw e (record {
    counted = omega (arith, c.counted);
    few = omega arith;
    flagged = c.flagged ∙ if_false _ _ e;
    apart = λ h. clash h refl;
  })
]

write_try-Counts :
    (l : RwLock) (r w : ℕ)
    → Counts (shared l r w)
    → (write_try l).0 ≡ true
    → Counts (shared (write_try l).1 r (suc w))
unfolding write_try
write_try-Counts l r w c won = ground (arith, c.apart)

read_unlock-Counts :
    (l : RwLock) (r w : ℕ) (s : Scheduler)
    → Counts (shared l (suc r) w)
    → After (λ (x : RwLock × Scheduler). Counts (shared x.0 r w)) (read_unlock l s)
unfolding read_unlock
read_unlock-Counts l r w s c =
    After-if (((l.readers + 2 ^ 64 - 1) % 2 ^ 64) == 0)
      (λ e. After-bind (notify_one l.write s) (λ x f. result (record {
        counted = omega (arith, c.counted, c.few);
        few = omega (arith, c.few);
        flagged = c.flagged;
        apart = λ h. absurd (omega (arith, c.apart h));
      })))
      (λ e. result (record {
        counted = omega (arith, c.counted, c.few);
        few = omega (arith, c.few);
        flagged = c.flagged;
        apart = λ h. absurd (omega (arith, c.apart h));
      }))

write_unlock-Counts :
    (l : RwLock) (r w : ℕ) (s : Scheduler)
    → Counts (shared l r (suc w))
    → After (λ (x : RwLock × Scheduler). Counts (shared x.0 r w)) (write_unlock l s)
unfolding write_unlock
write_unlock-Counts l r w s c = After-bind (notify_all l.write s) (λ x f. result (record {
  counted = c.counted;
  few = c.few;
  flagged = ground (arith, c.flagged);
  apart = λ h. clash h refl;
}))

write_wait-Counts :
    (l : RwLock) (r w : ℕ) (s : Scheduler)
    → Counts (shared l r w)
    → After (λ (x : RwLock × Scheduler). Counts (shared x.0 r w)) (write_wait l s)
unfolding write_wait
write_wait-Counts l r w s c = After-bind (wait l.write s) (λ x f.
    result (record { counted = c.counted; few = c.few; flagged = c.flagged; apart = c.apart }))

Access-Counts : {a b : Shared} → Counts a → Access a b → Counts b
Access-Counts c (read {l} {l'} {r} {w} few e) =
    subst (λ (x : RwLock). Counts (shared x (suc r) w)) (ap (λ (x : Bool × RwLock). x.1) e)
      (read_try-Counts l r w c few (ap (λ (x : Bool × RwLock). x.0) e))
Access-Counts c (written {l} {l'} {r} {w} e) =
    subst (λ (x : RwLock). Counts (shared x r (suc w))) (ap (λ (x : Bool × RwLock). x.1) e)
      (write_try-Counts l r w c (ap (λ (x : Bool × RwLock). x.0) e))
Access-Counts c (waited {l} {l'} {r} {w} s s' e) = After-some (write_wait-Counts l r w s c) e
Access-Counts c (read_left {l} {l'} {r} {w} s s' e) = After-some (read_unlock-Counts l r w s c) e
Access-Counts c (write_left {l} {l'} {r} {w} s s' e) = After-some (write_unlock-Counts l r w s c) e

Accesses-Counts : {a b : Shared} → Counts a → Accesses a b → Counts b
Accesses-Counts c start = c
Accesses-Counts c (then_access more last) = Access-Counts (Accesses-Counts c more) last

-- `read_lock` and `write_lock` share the lock: from a free lock on, over any interleaving of the
-- tests, waits and unlocks of its holders, at most one process holds it for writing, and while one
-- does none holds it for reading.
pub rw_exclusive :
    (l : RwLock) (b : Shared)
    → l.readers ≡ 0
    → l.writer ≡ false
    → Accesses (shared l 0 0) b
    → (b.writing ≤ 1) × (b.writing ≢ 0 → b.reading ≡ 0)
rw_exclusive l b none_reads none_writes more =
    let first : Counts (shared l 0 0) = record {
      counted = none_reads;
      few = omega arith;
      flagged = sym (if_false _ _ none_writes);
      apart = λ h. refl;
    } in
    let c = Accesses-Counts first more in ground (arith, c.flagged, c.apart)

-- The lock objects for writers and readers are exchanged: through `writer_rw_lock` a second writer
-- enters while a first one is inside, and through `reader_rw_lock` a second reader has to wait for
-- a first one. The lock must be free at first.
pub two_writers :
    (l : RwLock)
    → l.readers ≡ 0
    → l.writer ≡ false
    → ((writer_try l).0 ≡ true)
      × ((writer_try (writer_try l).1).0 ≡ true)
      × ((reader_try l).0 ≡ true)
      × ((reader_try (reader_try l).1).0 ≡ false)
unfolding writer_try reader_try read_try write_try
two_writers l none_reads none_writes = ground arith

write_wait-enqueued :
    (l : RwLock) (t : Scheduler) (q : WaitList × Scheduler)
    → enqueue l.write t ≡ some q
    → write_wait l t ≡ (do u ← reschedule q.1; some (record l { write = q.0 }, u))
unfolding write_wait wait
write_wait-enqueued l t q joined = rw joined (sleeps (reschedule q.1))
  where
    sleeps :
        (o : Option Scheduler)
        → let slept : Option (WaitList × Scheduler) = (do u ← o; some (q.0, u)) in
          let left : Option (RwLock × Scheduler) = (do
            ws ← slept
            some (record l { write = ws.0 }, ws.1)) in
          left ≡ (do u ← o; some (record l { write = q.0 }, u))
    sleeps none = refl
    sleeps (some u) = refl

notify_all-empty_list : (s : Scheduler) → notify_all empty_list s ≡ some (empty_list, s)
unfolding notify_all notify_from is_empty
notify_all-empty_list s = refl

-- A wake-up is lost: a reader finds a writer inside, the writer leaves before the reader has joined
-- the queue, and then the reader joins the queue, alone, and is blocked, although the lock is free:
-- `wait` goes on to `reschedule` in this state. The queue must be empty at first, and the reader,
-- the current process of the scheduler `t`, must be in the table of `t` under its own pid.
pub lost_wakeup :
    (l : RwLock) (s t : Scheduler)
    → l.writer ≡ true
    → l.readers ≡ 0
    → l.write ≡ empty_list
    → length t.pcb ≡ max_process
    → t.current_pid < max_process
    → pid_of t t.current_pid ≡ t.current_pid
    → (read_try l ≡ (false, l))
      × (write_unlock l s ≡ some (record l { writer = false }, s))
      × (q : WaitList × Scheduler) × (write_wait (record l { writer = false }) t
          ≡ (do u ← reschedule q.1; some (record l { writer = false; write = q.0 }, u)))
      × IsQueue q.0 q.1 (t.current_pid ∷ [])
      × (state_of q.1 t.current_pid ≡ blocked)
unfolding read_try write_unlock write_wait wait is_queued
lost_wakeup l s t held none_reads alone size within named =
    let start : IsQueue l.write t [] =
      subst (λ (w : WaitList). IsQueue w t []) (sym alone)
        (record { linked = refl; ends = refl }) in
    let (q, joined, queue, asleep) = enqueue-IsQueue l.write t [] start refl size within named in
    (
      if_true _ _ held,
      ap
          (λ (o : Option (WaitList × Scheduler)). do
            ws ← o
            some (record l { writer = false; write = ws.0 }, ws.1))
          (ap (λ (w : WaitList). notify_all w s) alone
            ∙ notify_all-empty_list s
            ∙ ap (λ (w : WaitList). some (w, s)) (sym alone)),
      q,
      write_wait-enqueued (record l { writer = false }) t q joined,
      queue,
      asleep,
    )
