-- ===== src/Conc/Queue.antt =====
-- kernel/src/conc/wait_list.cpp: `enqueue`, `dequeue` and `dequeue_hint` on the list of pids.
use thor_os.Prelude.{
  ℕ, ◌<◌, ◌≡◌, ◌≢◌, refl, sym, ap, ◌∙◌, arith, true, false, Option, none, some, List, [], ◌∷◌, ◌++◌,
  length, length-set, get_or-set_self, get_or-set_ne, kept-set, last, last-append, ◌==◌, ltb,
  lt→ltb, if_true, and_true, ◌>>=◌, not,
}
use thor_os.Scheduler.{
  Scheduler, Process, ProcessState, vacant, process_at, with_process, state_of, set_state, blocked,
  ready, max_process,
}
use thor_os.Scheduler.Blocking.{block_process_light, unblock_process, can_unblock}
use thor_os.Scheduler.Choice.{is_queued}
use thor_os.Scheduler.Races.{state_of-set_state_self}
use thor_os.Conc.WaitList.{
  WaitList, same_node, next_of, set_next, pid_of, append_own, enqueue, dequeue, drop_head,
}
use thor_os.Conc.Links.{Links, IsQueue, apart, last-queued, Links-frame, Links-append}

module _ (s : Scheduler) (p : ℕ) (next : Option ℕ) where
  pub length-set_next : length (set_next s p next).pcb ≡ length s.pcb
  length-set_next = length-set s.pcb p (record (process_at s p) { wait_next = next })

  pub next_of-set_next_self : p < length s.pcb → next_of (set_next s p next) p ≡ next
  next_of-set_next_self h =
      ap (λ (x : Process). x.wait_next)
        (get_or-set_self s.pcb p (record (process_at s p) { wait_next = next }) vacant h)

  pub next_of-set_next_ne : {j : ℕ} → p ≢ j → next_of (set_next s p next) j ≡ next_of s j
  next_of-set_next_ne h =
      ap (λ (x : Process). x.wait_next)
        (get_or-set_ne s.pcb (record (process_at s p) { wait_next = next }) vacant h)

  pub pid_of-set_next : (j : ℕ) → pid_of (set_next s p next) j ≡ pid_of s j
  pid_of-set_next j =
      kept-set (λ (x : Process). x.wait_pid) s.pcb p j
        (record (process_at s p) { wait_next = next }) vacant refl

-- A change of a state leaves every queue as it is.
pub Links-set_state :
    (s : Scheduler) (p : ℕ) (st : ProcessState) (h : Option ℕ) (q : List ℕ)
    → Links s h q
    → Links (set_state s p st) h q
unfolding set_state
Links-set_state s p st h q links =
    let r = record (process_at s p) { state = st } in
    Links-frame s (with_process s p r) h q (length-set s.pcb p r)
      (λ j m. (
        kept-set (λ (x : Process). x.wait_next) s.pcb p j r vacant refl,
        kept-set (λ (x : Process). x.wait_pid) s.pcb p j r vacant refl,
      ))
      links

pub set_state-IsQueue :
    (w : WaitList) (s : Scheduler) (p : ℕ) (st : ProcessState) (q : List ℕ)
    → IsQueue w s q
    → IsQueue w (set_state s p st) q
set_state-IsQueue w s p st q v = record {
  linked = Links-set_state s p st w.head q v.linked;
  ends = v.ends;
}

Links-inside :
    (s : Scheduler) (h : Option ℕ) (q : List ℕ) (p : ℕ)
    → Links s h q
    → is_queued p q ≡ true
    → p < length s.pcb
unfolding is_queued
Links-inside s h [] p links m = absurd (cc)
Links-inside s h (x ∷ q) p (at, out, within, called, rest) m =
    ground (arith, Links-inside s (next_of s x) q p rest)

last-ne-none : (x : ℕ) (q : List ℕ) → last (x ∷ q) ≢ none
last-ne-none x [] e = cc
last-ne-none x (y ∷ q) e = last-ne-none y q e

append_own-IsQueue :
    (s : Scheduler) (own : ℕ) (h tl : Option ℕ) (q : List ℕ)
    → Links s h q
    → tl ≡ last q
    → is_queued own q ≡ false
    → own < length s.pcb
    → pid_of s own ≡ own
    → let r = append_own (record { head = h; tail = tl }) s own in IsQueue r.0 r.1 (q ++ (own ∷ []))
unfolding append_own is_queued
append_own-IsQueue s own h none [] links ends out within named = record {
  linked = (
    refl,
    refl,
    omega (arith, length-set_next s own none),
    pid_of-set_next s own none own ∙ named,
    next_of-set_next_self s own none within,
  );
  ends = refl;
}
append_own-IsQueue s own h (some l) [] links ends out within named = absurd (cc)
append_own-IsQueue s own h none (x ∷ q) links ends out within named =
    absurd (last-ne-none x q (sym ends))
append_own-IsQueue s own h (some l) (x ∷ q) links ends out within named =
    let a = set_next s own none in
    let member = last-queued x l q (sym ends) in
    let ne : own ≢ l = apart own l (x ∷ q) out member in
    let l_within : l < length s.pcb = Links-inside s h (x ∷ q) l links member in
    record {
      linked =
          Links-append s (set_next a l (some own)) own l
            (length-set_next a l (some own) ∙ length-set_next s own none)
            (next_of-set_next_ne a l (some own) (λ e. ne (sym e))
              ∙ next_of-set_next_self s own none within)
            (next_of-set_next_self a l (some own) (omega (arith, length-set_next s own none)))
            (λ p n m. next_of-set_next_ne a l (some own) m ∙ next_of-set_next_ne s own none n)
            (λ p. pid_of-set_next a l (some own) p ∙ pid_of-set_next s own none p) within named h x
            q links out (sym ends);
      ends = sym (last-append (x ∷ q) own);
    }

length-append_own :
    (s : Scheduler) (own : ℕ) (h tl : Option ℕ)
    → length (append_own (record { head = h; tail = tl }) s own).1.pcb ≡ length s.pcb
unfolding append_own
length-append_own s own h none = length-set_next s own none
length-append_own s own h (some l) =
    length-set_next (set_next s own none) l (some own) ∙ length-set_next s own none

-- `enqueue` puts the current process at the back of the queue and blocks it. The process must be in
-- the table under its own pid and must not be in the queue already.
pub enqueue-IsQueue :
    (w : WaitList) (s : Scheduler) (q : List ℕ)
    → IsQueue w s q
    → is_queued s.current_pid q ≡ false
    → length s.pcb ≡ max_process
    → s.current_pid < max_process
    → pid_of s s.current_pid ≡ s.current_pid
    → (r : WaitList × Scheduler) × (enqueue w s ≡ some r)
      × IsQueue r.0 r.1 (q ++ (s.current_pid ∷ []))
      × (state_of r.1 s.current_pid ≡ blocked)
unfolding enqueue block_process_light
enqueue-IsQueue w s q v out size within named =
    let own = s.current_pid in
    let inside : own < length s.pcb = omega (arith, size) in
    let test : ltb own max_process ≡ true = lt→ltb own max_process within in
    let linked = append_own w s own in
    let queue = append_own-IsQueue s own w.head w.tail q v.linked v.ends out inside named in
    (
      (linked.0, set_state linked.1 own blocked),
      rw test (ap (λ (o : Option Scheduler). o >>= λ t. some (linked.0, t)) (if_true _ _ test)),
      set_state-IsQueue linked.0 linked.1 own blocked (q ++ (own ∷ [])) queue,
      state_of-set_state_self linked.1 own blocked
          (omega (arith, length-append_own s own w.head w.tail, size)),
    )

pub ne_test : (a b : ℕ) → a ≢ b → (a == b) ≡ false
ne_test a b h = ground arith

pub same_self : (p : ℕ) → (p == p) ≡ true
same_self p = ground arith

same_node-last :
    (p x : ℕ) (q : List ℕ) (tl : Option ℕ)
    → tl ≡ last (x ∷ q)
    → is_queued p (x ∷ q) ≡ false
    → same_node (some p) tl ≡ false
same_node-last p x q none ends out = refl
same_node-last p x q (some l) ends out =
    let ne = apart p l (x ∷ q) out (last-queued x l q (sym ends)) in ground arith

-- The list without its first node.
pub drop_head-IsQueue :
    (s : Scheduler) (h tl : Option ℕ) (p : ℕ) (q : List ℕ)
    → Links s h (p ∷ q)
    → tl ≡ last (p ∷ q)
    → IsQueue (drop_head (record { head = h; tail = tl }) s p) s q
unfolding drop_head is_queued
drop_head-IsQueue s h tl p [] (at, out, within, called, rest) ends =
    rw at (rw ends (rw (same_self p) (record { linked = refl; ends = refl })))
drop_head-IsQueue s h tl p (x ∷ q) (at, out, within, called, rest) ends =
    rw at (rw (same_node-last p x q tl ends out) (record { linked = rest; ends = ends }))

-- What waking the first process of a queue gives: its pid, the rest of the queue, and the process
-- is READY.
pub record Woken (w : WaitList) (s : Scheduler) (p : ℕ) (q : List ℕ) (r : ℕ × WaitList × Scheduler)
    : Type 0 where
  pub woken : r.0 ≡ p
  pub queue : IsQueue r.1 r.2 q
  pub is_ready : state_of r.2 p ≡ ready

module _ (w : WaitList) (s : Scheduler) (p : ℕ) (q : List ℕ) (v : IsQueue w s (p ∷ q))
    (size : length s.pcb ≡ max_process) where
  front : (w.head ≡ some p) × (p < length s.pcb) × (pid_of s p ≡ p)
  front = let (at, out, within, called, rest) = v.linked in (at, within, called)

  front-Woken : Woken w s p q (p, drop_head w s p, set_state s p ready)
  front-Woken = record {
    woken = refl;
    queue =
        set_state-IsQueue (drop_head w s p) s p ready q
          (drop_head-IsQueue s w.head w.tail p q v.linked v.ends);
    is_ready = state_of-set_state_self s p ready front.1;
  }

  -- `dequeue` wakes the process at the front of the queue and leaves the rest in order. The process
  -- must be blocked or waiting and not the idle task, the table must have its 128 slots and the
  -- scheduler must have been started.
  pub dequeue-IsQueue :
      s.started ≡ true
      → p ≢ s.idle_pid
      → can_unblock (state_of s p) ≡ true
      → (r : ℕ × WaitList × Scheduler) × (dequeue w s ≡ some r) × Woken w s p q r
  unfolding dequeue unblock_process
  dequeue-IsQueue on busy can =
      let in_table : ltb p max_process ≡ true =
        lt→ltb p max_process (omega (arith, size, front.1)) in
      let test =
        and_true (and_true (and_true in_table (ap not (ne_test p s.idle_pid busy))) on) can in
      (
        (p, drop_head w s p, set_state s p ready),
        ap
              (λ (o : Option ℕ). do
                head ← o
                t ← unblock_process s (pid_of s head)
                some (pid_of s head, drop_head w s head, t))
              front.0
            ∙ ap (λ (k : ℕ). do t ← unblock_process s k; some (k, drop_head w s p, t)) front.2
            ∙ ap (λ (o : Option Scheduler). do t ← o; some (p, drop_head w s p, t))
                (if_true _ _ test),
        front-Woken,
      )
