-- ===== src/Conc/Remove.antt =====
-- kernel/src/conc/wait_list.cpp: `remove`, for a process in each place of the queue.
use thor_os.Prelude.{
  ℕ, zero, suc, ◌<◌, ◌≤◌, ◌≡◌, refl, sym, ap, ◌∙◌, arith, true, false, Option, none, some, List, [],
  ◌∷◌, ◌++◌, length, last, last-append, append-nil, ◌==◌, ltb, lt→ltb, if◌then◌else◌, if_true,
  if_false, clash, ◌>>=◌,
}
use thor_os.Scheduler.{Scheduler, max_process, blocked, set_state}
use thor_os.Scheduler.Blocking.{block_process_light}
use thor_os.Scheduler.Choice.{is_queued}
use thor_os.Conc.WaitList.{
  WaitList, same_node, next_of, set_next, pid_of, remove_from, remove, remove_first_or_later,
  append_own, enqueue, drop_head,
}
use thor_os.Conc.Links.{Links, IsQueue, apart, last-queued, Links-frame}
use thor_os.Conc.Queue.{
  length-set_next, next_of-set_next_self, next_of-set_next_ne, pid_of-set_next, same_self, ne_test,
  drop_head-IsQueue,
}

-- The list after a removal behind its first node: the tail pointer becomes the pointer behind the
-- removed node where it named this node.
abbrev tail_after : WaitList → Scheduler → ℕ → WaitList
tail_after w s own = if same_node w.tail (some own) then record w { tail = next_of s own } else w

record Unlinked (rounds : ℕ) (w : WaitList) (s : Scheduler) (own p : ℕ) (a b : List ℕ)
    (t : Scheduler) : Type 0 where
  run : remove_from rounds w s own p ≡ some (tail_after w s own, t)
  links : Links t (some p) (p ∷ a ++ b)
  size : length t.pcb ≡ length s.pcb
  names : (x : ℕ) → pid_of t x ≡ pid_of s x
  same : (x : ℕ) → is_queued x (p ∷ a) ≡ false → next_of t x ≡ next_of s x

is_queued_in : (a : List ℕ) (own : ℕ) (b : List ℕ) → is_queued own (a ++ (own ∷ b)) ≡ true
unfolding is_queued
is_queued_in [] own b = ground arith
is_queued_in (x ∷ a) own b = ground (arith, is_queued_in a own b)

is_queued_drop :
    (p own : ℕ) (a b : List ℕ) → is_queued p (a ++ (own ∷ b)) ≡ false → is_queued p (a ++ b) ≡ false
unfolding is_queued
is_queued_drop p own [] b h = ground arith
is_queued_drop p own (x ∷ a) b h = ground (arith, is_queued_drop p own a b)

is_queued_left : (p : ℕ) (a c : List ℕ) → is_queued p (a ++ c) ≡ false → is_queued p a ≡ false
unfolding is_queued
is_queued_left p [] c h = refl
is_queued_left p (x ∷ a) c h = ground (arith, is_queued_left p a c)

module _ (w : WaitList) (own : ℕ) where
  unlinked :
      (rounds : ℕ) (s : Scheduler) (h : Option ℕ) (p : ℕ) (a b : List ℕ)
      → length a < rounds
      → Links s h (p ∷ a ++ (own ∷ b))
      → (t : Scheduler) × Unlinked rounds w s own p a b t
  unfolding remove_from is_queued
  unlinked zero s h p a b enough links = absurd (omega arith)
  unlinked (suc rounds) s h p [] b enough
        (at, out, within, called, (at_own, own_out, own_within, own_called, rest)) =
      let nx = next_of s own in
      let t = set_next s p nx in
      (
        t,
        record {
          run = rw (at_own, remove_from) (if_true _ _ (same_self own));
          links = (
            refl,
            ground arith,
            omega (arith, length-set_next s p nx),
            pid_of-set_next s p nx p ∙ called,
            rw (next_of-set_next_self s p nx within) (
                Links-frame s t nx b (length-set_next s p nx)
                  (λ x m. (
                    next_of-set_next_ne s p nx (apart p x b (ground arith) m),
                    pid_of-set_next s p nx x,
                  ))
                  rest),
          );
          size = length-set_next s p nx;
          names = pid_of-set_next s p nx;
          same = λ x m.
              next_of-set_next_ne s p nx
                (λ e. clash (ap (λ (y : ℕ). y == x) e ∙ same_self x) (ground arith));
        },
      )
  unlinked (suc rounds) s h p (y ∷ a) b enough (at, out, within, called, rest) =
      let (at_y, out_y, within_y, called_y, rest_y) = rest in
      let (t, u) = unlinked rounds s (next_of s p) y a b (omega arith) rest in
      let apart_own : (y == own) ≡ false =
        ne_test y own (apart y own (a ++ (own ∷ b)) out_y (is_queued_in a own b)) in
      (
        t,
        record {
          run = rw (at_y, remove_from) (if_false _ _ apart_own ∙ u.run);
          links = (
            refl,
            is_queued_drop p own (y ∷ a) b out,
            omega (arith, u.size),
            u.names p ∙ called,
            rw (u.same p (is_queued_left p (y ∷ a) (own ∷ b) out) ∙ at_y) u.links,
          );
          size = u.size;
          names = u.names;
          same = λ x m. u.same x (ground arith);
        },
      )

Links-last :
    (s : Scheduler) (h : Option ℕ) (a : List ℕ) (own : ℕ)
    → Links s h (a ++ (own ∷ []))
    → next_of s own ≡ none
Links-last s h [] own (at, out, within, called, rest) = rest
Links-last s h (x ∷ a) own (at, out, within, called, rest) = Links-last s (next_of s x) a own rest

last-behind : (a : List ℕ) (y : ℕ) (b : List ℕ) → last (a ++ (y ∷ b)) ≡ last (y ∷ b)
last-behind [] y b = refl
last-behind (x ∷ []) y b = refl
last-behind (x ∷ z ∷ a) y b = last-behind (z ∷ a) y b

Links-distinct :
    (s : Scheduler) (h : Option ℕ) (a : List ℕ) (own : ℕ) (b : List ℕ)
    → Links s h (a ++ (own ∷ b))
    → is_queued own b ≡ false
Links-distinct s h [] own b (at, out, within, called, rest) = out
Links-distinct s h (x ∷ a) own b (at, out, within, called, rest) =
    Links-distinct s (next_of s x) a own b rest

other_end :
    (own y : ℕ) (b : List ℕ) (tl : Option ℕ)
    → tl ≡ last (y ∷ b)
    → is_queued own (y ∷ b) ≡ false
    → same_node tl (some own) ≡ false
other_end own y b none ends out = refl
other_end own y b (some l) ends out =
    let ne = apart own l (y ∷ b) out (last-queued y l b (sym ends)) in ground arith

module _ (w : WaitList) (s : Scheduler) (inside : s.current_pid < max_process) where
  at_head : {h : ℕ} → w.head ≡ some h → remove w s ≡ remove_first_or_later w s s.current_pid h
  unfolding remove
  at_head at =
      ap (λ (o : Option ℕ). do own ← o; head ← w.head; remove_first_or_later w s own head)
        (if_true _ _ (lt→ltb s.current_pid max_process inside))
      ∙ ap (λ (o : Option ℕ). do head ← o; remove_first_or_later w s s.current_pid head) at

  behind :
      (p : ℕ) (a b : List ℕ)
      → length a < max_process
      → Links s w.head (p ∷ a ++ (s.current_pid ∷ b))
      → (t : Scheduler) × (remove w s ≡ some (tail_after w s s.current_pid, t))
        × Links t (some p) (p ∷ a ++ b)
  behind p a b short links =
      let (at, out, within, called, rest) = links in
      let (t, u) = unlinked w s.current_pid max_process s w.head p a b short links in
      let other =
        apart p s.current_pid (a ++ (s.current_pid ∷ b)) out (is_queued_in a s.current_pid b) in
      (t, at_head at ∙ if_false _ _ (ne_test p s.current_pid other) ∙ u.run, u.links)

  -- The process is the last one of several: `remove` unlinks it, but sets the tail pointer to null
  -- while the other processes are still in the list. The next `enqueue`, of the current process of
  -- any scheduler `t`, then takes the list for empty: afterwards its head and its tail are the new
  -- process alone. The pid of the new process must be in the table.
  pub remove_last_loses :
      (p : ℕ) (a : List ℕ) (t : Scheduler)
      → IsQueue w s (p ∷ a ++ (s.current_pid ∷ []))
      → length a < max_process
      → t.current_pid < max_process
      → (r : WaitList × Scheduler) × (remove w s ≡ some r)
        × Links r.1 r.0.head (p ∷ a)
        × (r.0.tail ≡ none)
        × (u : Scheduler) × (enqueue r.0 t
            ≡ some (record { head = some t.current_pid; tail = some t.current_pid }, u))
  unfolding enqueue append_own block_process_light
  remove_last_loses p a next v short next_inside =
      let (at, out, within, called, rest) = v.linked in
      let (t, run, (_, out_t, within_t, called_t, rest_t)) = behind p a [] short v.linked in
      let named : same_node w.tail (some s.current_pid) ≡ true =
        ap (λ (o : Option ℕ). same_node o (some s.current_pid))
          (v.ends ∙ last-append (p ∷ a) s.current_pid)
        ∙ same_self s.current_pid in
      let test : ltb next.current_pid max_process ≡ true =
        lt→ltb next.current_pid max_process next_inside in
      let null : next_of s s.current_pid ≡ none =
        Links-last s w.head (p ∷ a) s.current_pid v.linked in
      (
        (record w { tail = none }, t),
        run
            ∙ ap (λ (l : WaitList). some (l, t))
                (if_true _ _ named ∙ ap (λ (n : Option ℕ). record w { tail = n }) null),
        (at, (rw (append-nil a) at out_t), within_t, called_t, (rw (append-nil a) at rest_t)),
        refl,
        set_state (set_next next next.current_pid none) next.current_pid blocked,
        rw test (
            ap
              (λ (o : Option Scheduler). o >>= λ u.
                some (record { head = some next.current_pid; tail = some next.current_pid }, u))
              (if_true _ _ test)),
      )

  -- The process is not the last one of the queue: `remove` takes it out and leaves the others in
  -- order.
  pub remove-IsQueue :
      (a : List ℕ) (y : ℕ) (b : List ℕ)
      → IsQueue w s (a ++ (s.current_pid ∷ y ∷ b))
      → length a ≤ max_process
      → (r : WaitList × Scheduler) × (remove w s ≡ some r) × IsQueue r.0 r.1 (a ++ (y ∷ b))
  unfolding drop_head
  remove-IsQueue [] y b v short =
      let (at, out, within, called, rest) = v.linked in
      (
        (drop_head w s s.current_pid, s),
        at_head at ∙ if_true _ _ (same_self s.current_pid),
        drop_head-IsQueue s w.head w.tail s.current_pid (y ∷ b) v.linked v.ends,
      )
  remove-IsQueue (p ∷ a) y b v short =
      let (at, out, within, called, rest) = v.linked in
      let (t, run, (_, out_t, within_t, called_t, rest_t)) =
        behind p a (y ∷ b) (omega arith) v.linked in
      let ends : w.tail ≡ last (y ∷ b) = v.ends ∙ last-behind (p ∷ a) s.current_pid (y ∷ b) in
      let distinct = Links-distinct s w.head (p ∷ a) s.current_pid (y ∷ b) v.linked in
      (
        (w, t),
        run
            ∙ ap (λ (l : WaitList). some (l, t))
                (if_false _ _ (other_end s.current_pid y b w.tail ends distinct)),
        record {
          linked = (at, out_t, within_t, called_t, rest_t);
          ends = ends ∙ sym (last-behind (p ∷ a) y b);
        },
      )
