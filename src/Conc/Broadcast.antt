-- ===== src/Conc/Broadcast.antt =====
-- kernel/src/conc/condition_variable.cpp, `notify_all`.
use thor_os.Prelude.{
  ℕ, zero, suc, ◌<◌, ◌≤◌, ◌≡◌, ◌≢◌, refl, sym, ap, ◌∙◌, arith, true, false, not, Option, some, List,
  [], ◌∷◌, length, length-set, ◌==◌, ltb, lt→ltb, if◌then◌else◌, if_true, if_false, elim-if, subst,
  and_true, clash, Bool-cases, inl, inr, ◌>>=◌, ==_iff,
}
use thor_os.Scheduler.{
  Scheduler, ProcessState, process_at, state_of, set_state, ready, max_process, is_running, can_run,
}
use thor_os.Scheduler.Blocking.{unblock_process_hint}
use thor_os.Scheduler.Choice.{is_queued}
use thor_os.Scheduler.Races.{state_of-set_state_self, state_of-set_state_ne}
use thor_os.Conc.WaitList.{WaitList, is_empty, is_null, pid_of, drop_head, dequeue_hint}
use thor_os.Conc.Condition.{notify_from, notify_all}
use thor_os.Conc.Links.{IsQueue}
use thor_os.Conc.Queue.{set_state-IsQueue, drop_head-IsQueue, ne_test}

abbrev pub IsAwake : Scheduler → ℕ → Type 0
IsAwake s p = can_run (state_of s p) ≡ true

-- The scheduler after `unblock_process_hint`.
hinted : Scheduler → ℕ → Scheduler
hinted s x = if is_running (state_of s x) then s else set_state s x ready

-- What stays the same when processes are woken.
record IsKept (s t : Scheduler) : Type 0 where
  size : length t.pcb ≡ length s.pcb
  on : t.started ≡ s.started
  idle : t.idle_pid ≡ s.idle_pid
  awake : (p : ℕ) → IsAwake s p → IsAwake t p

IsKept-self : (s : Scheduler) → IsKept s s
IsKept-self s = record { size = refl; on = refl; idle = refl; awake = λ p a. a }

IsKept-trans : {s t u : Scheduler} → IsKept s t → IsKept t u → IsKept s u
IsKept-trans k l = record {
  size = l.size ∙ k.size;
  on = l.on ∙ k.on;
  idle = l.idle ∙ k.idle;
  awake = λ p a. l.awake p (k.awake p a);
}

set_state-IsKept : (s : Scheduler) (x : ℕ) → x < length s.pcb → IsKept s (set_state s x ready)
unfolding set_state
set_state-IsKept s x within = record {
  size = length-set s.pcb x (record (process_at s x) { state = ready });
  on = refl;
  idle = refl;
  awake = λ p a. elim (Bool-cases (x == p)) [
    | inl e ↦ ap can_run (
        ap (λ (k : ℕ). state_of (set_state s x ready) k) (sym ((==_iff x p).0 e))
        ∙ state_of-set_state_self s x ready within)
    | inr e ↦ ap can_run (state_of-set_state_ne s ready (λ same. clash ((==_iff x p).1 same) e)) ∙ a
  ];
}

hinted-IsKept : (s : Scheduler) (x : ℕ) → x < length s.pcb → IsKept s (hinted s x)
unfolding hinted
hinted-IsKept s x within =
    elim-if (λ (t : Scheduler). IsKept s t) (is_running (state_of s x)) (λ e. IsKept-self s)
      (λ e. set_state-IsKept s x within)

running-can_run : (st : ProcessState) → is_running st ≡ true → can_run st ≡ true
running-can_run st h = grind arith

hinted-IsAwake : (s : Scheduler) (x : ℕ) → x < length s.pcb → IsAwake (hinted s x) x
unfolding hinted
hinted-IsAwake s x within =
    elim-if (λ (t : Scheduler). IsAwake t x) (is_running (state_of s x))
      (λ e. running-can_run (state_of s x) e)
      (λ e. ap can_run (state_of-set_state_self s x ready within))

hinted-IsQueue :
    (w : WaitList) (s : Scheduler) (x : ℕ) (q : List ℕ) → IsQueue w s q → IsQueue w (hinted s x) q
unfolding hinted
hinted-IsQueue w s x q v =
    elim-if (λ (t : Scheduler). IsQueue w t q) (is_running (state_of s x)) (λ e. v)
      (λ e. set_state-IsQueue w s x ready q v)

-- `dequeue_hint` wakes the first process of the queue.
dequeue_hint-hinted :
    (w : WaitList) (s : Scheduler) (p : ℕ) (q : List ℕ)
    → IsQueue w s (p ∷ q)
    → length s.pcb ≡ max_process
    → s.started ≡ true
    → p ≢ s.idle_pid
    → dequeue_hint w s ≡ some (p, drop_head w s p, hinted s p)
unfolding dequeue_hint unblock_process_hint hinted
dequeue_hint-hinted w s p q v size on busy =
    let (at, out, within, called, rest) = v.linked in
    let in_table : ltb p max_process ≡ true = lt→ltb p max_process (omega (arith, size, within)) in
    let test = and_true (and_true in_table (ap not (ne_test p s.idle_pid busy))) on in
    ap
      (λ (o : Option ℕ). do
        head ← o
        t ← unblock_process_hint s (pid_of s head)
        some (pid_of s head, drop_head w s head, t))
      at
    ∙ ap (λ (k : ℕ). do t ← unblock_process_hint s k; some (k, drop_head w s p, t)) called
    ∙ ap (λ (o : Option Scheduler). do t ← o; some (p, drop_head w s p, t)) (if_true _ _ test)

-- All processes of the queue, one after the other.
notify_from-IsAwake :
    (rounds : ℕ) (w : WaitList) (s : Scheduler) (q : List ℕ)
    → length q ≤ rounds
    → IsQueue w s q
    → length s.pcb ≡ max_process
    → s.started ≡ true
    → is_queued s.idle_pid q ≡ false
    → (r : WaitList × Scheduler) × (notify_from rounds w s ≡ some r)
      × IsQueue r.0 r.1 []
      × IsKept s r.1
      × ((p : ℕ) → is_queued p q ≡ true → IsAwake r.1 p)
unfolding notify_from is_empty is_queued
notify_from-IsAwake zero w s [] le v size on busy =
    ((w, s), if_true _ _ (ap is_null v.linked), v, IsKept-self s, λ p h. clash h refl)
notify_from-IsAwake zero w s (p ∷ q) le v size on busy = absurd (omega arith)
notify_from-IsAwake (suc rounds) w s [] le v size on busy =
    ((w, s), if_true _ _ (ap is_null v.linked), v, IsKept-self s, λ p h. clash h refl)
notify_from-IsAwake (suc rounds) w s (p ∷ q) le v size on busy =
    let (at, out, within, called, rest) = v.linked in
    let not_idle : p ≢ s.idle_pid = λ e. clash (ground (arith, (==_iff p s.idle_pid).1 e)) busy in
    let k = hinted-IsKept s p within in
    let left =
      hinted-IsQueue (drop_head w s p) s p q
        (drop_head-IsQueue s w.head w.tail p q v.linked v.ends) in
    let (r, ran, done, kept, awake) =
      notify_from-IsAwake rounds (drop_head w s p) (hinted s p) q (omega arith) left (k.size ∙ size)
        (k.on ∙ on) (ap (λ (i : ℕ). is_queued i q) k.idle ∙ ground (arith, busy)) in
    (
      r,
      if_false _ _ (ap is_null at)
          ∙ ap (λ (o : Option (ℕ × WaitList × Scheduler)). o >>= λ u. notify_from rounds u.1 u.2)
              (dequeue_hint-hinted w s p q v size on not_idle)
          ∙ ran,
      done,
      IsKept-trans k kept,
      λ x h. elim (Bool-cases (p == x)) [
        | inl e ↦ kept.awake x (
            subst (λ (i : ℕ). IsAwake (hinted s p) i) ((==_iff p x).0 e)
              (hinted-IsAwake s p within))
        | inr e ↦ awake x (ground arith)
      ],
    )

-- `notify_all` wakes every process of the queue and leaves the queue empty. The table must have its
-- 128 slots, at most as many processes may wait, the idle task not among them, and the scheduler
-- must have been started.
pub notify_all-IsAwake :
    (w : WaitList) (s : Scheduler) (q : List ℕ)
    → IsQueue w s q
    → length q ≤ max_process
    → length s.pcb ≡ max_process
    → s.started ≡ true
    → is_queued s.idle_pid q ≡ false
    → (r : WaitList × Scheduler) × (notify_all w s ≡ some r)
      × IsQueue r.0 r.1 []
      × ((p : ℕ) → is_queued p q ≡ true → IsAwake r.1 p)
unfolding notify_all
notify_all-IsAwake w s q v few size on busy =
    let (r, ran, left, kept, awake) = notify_from-IsAwake max_process w s q few v size on busy in
    (r, ran, left, awake)
