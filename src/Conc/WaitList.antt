-- ===== src/Conc/WaitList.antt =====
-- kernel/src/conc/wait_list.cpp: a singly linked list whose nodes are the fields `wait` of the
-- processes. The address of a node is the index of its process in the process table.
use thor_os.Prelude.{
  ℕ, zero, suc, Bool, true, false, Option, none, some, ◌==◌, ltb, if◌then◌else◌, ◌>>=◌,
}
use thor_os.Scheduler.{Scheduler, process_at, with_process, max_process}
use thor_os.Scheduler.Blocking.{
  block_process_light, block_process_timeout_light, unblock_process, unblock_process_hint,
}

pub record WaitList : Type 0 where
  pub head : Option ℕ
  pub tail : Option ℕ

abbrev pub empty_list : WaitList
empty_list = record { head = none; tail = none }

abbrev pub is_null : Option ℕ → Bool
is_null none = true
is_null (some p) = false

-- Equality of addresses.
abbrev pub same_node : Option ℕ → Option ℕ → Bool
same_node none none = true
same_node none (some q) = false
same_node (some p) none = false
same_node (some p) (some q) = p == q

-- `node->next`, `node->next = next` and `node->pid`
abbrev pub next_of : Scheduler → ℕ → Option ℕ
next_of s p = (process_at s p).wait_next

abbrev pub set_next : Scheduler → ℕ → Option ℕ → Scheduler
set_next s p next = with_process s p (record (process_at s p) { wait_next = next })

abbrev pub pid_of : Scheduler → ℕ → ℕ
pid_of s p = (process_at s p).wait_pid

-- `&scheduler::get_process(scheduler::get_pid()).wait`, with the assertion of `get_process`
abbrev pub own_node : Scheduler → Option ℕ
own_node s = if ltb s.current_pid max_process then some s.current_pid else none

unfoldable pub is_empty : WaitList → Bool
is_empty w = is_null w.head

unfoldable pub top : WaitList → Scheduler → Option ℕ
top w s = do p ← w.head; some (pid_of s p)

-- The loop of `waiting`, for at most `rounds` nodes.
unfoldable pub waiting_from : ℕ → Scheduler → Option ℕ → ℕ → Option Bool
waiting_from rounds s none own = some false
waiting_from zero s (some p) own = none
waiting_from (suc rounds) s (some p) own =
    let rest = waiting_from rounds s (next_of s p) own in if p == own then some true else rest

unfoldable pub waiting : WaitList → Scheduler → Option Bool
waiting w s = do own ← own_node s; waiting_from max_process s w.head own

-- The loop of `remove`, at the node `p`.
unfoldable pub remove_from : ℕ → WaitList → Scheduler → ℕ → ℕ → Option (WaitList × Scheduler)
remove_from zero w s own p = none
remove_from (suc rounds) w s own p = elim (next_of s p) [
  | none ↦ some (w, s)
  | some q ↦
      let rest = remove_from rounds w s own q in
      if q == own
      then some (
        (if same_node w.tail (some q) then record w { tail = next_of s q } else w),
        set_next s p (next_of s q),
      )
      else rest
]

abbrev pub remove_first_or_later : WaitList → Scheduler → ℕ → ℕ → Option (WaitList × Scheduler)
remove_first_or_later w s own head =
    if head == own
    then some
        ((if same_node w.head w.tail then empty_list else record w { head = next_of s head }), s)
    else remove_from max_process w s own head

unfoldable pub remove : WaitList → Scheduler → Option (WaitList × Scheduler)
remove w s = do own ← own_node s; head ← w.head; remove_first_or_later w s own head

-- What `enqueue` and `enqueue_timeout` do before they block the process.
unfoldable pub append_own : WaitList → Scheduler → ℕ → WaitList × Scheduler
append_own w s own =
    let cleared = set_next s own none in
    elim w.tail [
      | none ↦ (record { head = some own; tail = some own }, cleared)
      | some t ↦ (record w { tail = some own }, set_next cleared t (some own))
    ]

unfoldable pub enqueue : WaitList → Scheduler → Option (WaitList × Scheduler)
enqueue w s = do
  own ← own_node s
  let linked = append_own w s own
  t ← block_process_light linked.1 own
  some (linked.0, t)

unfoldable pub enqueue_timeout : WaitList → Scheduler → ℕ → ℕ → Option (WaitList × Scheduler)
enqueue_timeout w s frequency ms = do
  own ← own_node s
  let linked = append_own w s own
  t ← block_process_timeout_light linked.1 frequency own ms
  some (linked.0, t)

-- The list of `dequeue` and `dequeue_hint` after the call.
unfoldable pub drop_head : WaitList → Scheduler → ℕ → WaitList
drop_head w s head =
    if same_node w.head w.tail then empty_list else record w { head = next_of s head }

-- The pid that was woken, the list and the scheduler.
unfoldable pub dequeue : WaitList → Scheduler → Option (ℕ × WaitList × Scheduler)
dequeue w s = do
  head ← w.head
  t ← unblock_process s (pid_of s head)
  some (pid_of s head, drop_head w s head, t)

unfoldable pub dequeue_hint : WaitList → Scheduler → Option (ℕ × WaitList × Scheduler)
dequeue_hint w s = do
  head ← w.head
  t ← unblock_process_hint s (pid_of s head)
  some (pid_of s head, drop_head w s head, t)
