-- ===== src/Scheduler/Pids.antt =====
-- kernel/src/scheduler.cpp: the slot that `get_free_pid` and `new_process` choose.
use thor_os.Prelude.{
  ℕ, zero, suc, ◌+◌, ◌-◌, ◌%◌, ◌<◌, ◌≡◌, ◌≢◌, ap, ◌∙◌, arith, true, false, length, get_or-set_self,
  get_or-set_ne, Option, none, some, After, failed, result, elim-if, ◌>>=◌,
}
use thor_os.Scheduler.{
  Scheduler, vacant, Process, process_at, with_process, state_of, is_empty, max_process, new,
}
use thor_os.Scheduler.Create.{get_free_pid, find_empty, take_pid, new_process, new_entry}

-- What `get_free_pid` answers: nothing when every slot is used, an empty slot otherwise.
pub data FreePid (s : Scheduler) : Option (ℕ × Scheduler) → Type 0 where
  full : ((pid : ℕ) → pid < max_process → is_empty (state_of s pid) ≡ false) → FreePid s none
  found :
      {pid : ℕ}
      → pid < max_process
      → is_empty (state_of s pid) ≡ true
      → FreePid s (some (pid, record s { next_pid = (pid + 1) % max_process }))

data Search (s : Scheduler) (rounds pid : ℕ) : Option ℕ → Type 0 where
  missed :
      ((k : ℕ) → k < rounds → is_empty (state_of s ((pid + k) % max_process)) ≡ false)
      → Search s rounds pid none
  hit : {q : ℕ} → q < max_process → is_empty (state_of s q) ≡ true → Search s rounds pid (some q)

later :
    (s : Scheduler) (rounds pid : ℕ) (o : Option ℕ)
    → pid < max_process
    → is_empty (state_of s pid) ≡ false
    → Search s rounds ((pid + 1) % max_process) o
    → Search s (suc rounds) pid o
later s rounds pid none within used (missed h) = missed all
  where
    all : (k : ℕ) → k < suc rounds → is_empty (state_of s ((pid + k) % max_process)) ≡ false
    all zero b = ap (λ (t : ℕ). is_empty (state_of s t)) (omega arith) ∙ used
    all (suc k) b = ap (λ (t : ℕ). is_empty (state_of s t)) (omega arith) ∙ h k (omega arith)
later s rounds pid (some q) within used (hit b e) = hit b e

find_empty-Search :
    (s : Scheduler) (rounds pid : ℕ)
    → pid < max_process
    → Search s rounds pid (find_empty s rounds pid)
unfolding find_empty
find_empty-Search s zero pid h = missed (λ k. λ b. absurd (omega arith))
find_empty-Search s (suc rounds) pid h =
    let rest = find_empty-Search s rounds ((pid + 1) % max_process) (omega arith) in
    elim-if (λ (o : Option ℕ). Search s (suc rounds) pid o) (is_empty (state_of s pid))
      (λ e. hit h e)
      (λ e. later s rounds pid (find_empty s rounds ((pid + 1) % max_process)) h e rest)

answered :
    (s : Scheduler) (o : Option ℕ)
    → s.next_pid < max_process
    → Search s max_process ((s.next_pid + 1) % max_process) o
    → FreePid s (do pid ← o; some (take_pid s pid))
answered s none within (missed h) = full all
  where
    all : (pid : ℕ) → pid < max_process → is_empty (state_of s pid) ≡ false
    all pid b =
        ap (λ (t : ℕ). is_empty (state_of s t)) (omega arith)
        ∙ h ((pid + 256 - (s.next_pid + 1)) % 128) (omega arith)
answered s (some q) within (hit b e) = found b e

-- `get_free_pid` fails only when all the slots are used; otherwise it answers an empty slot of the
-- table, and the next search starts after it. The start of the search must be a slot.
pub get_free_pid-FreePid : (s : Scheduler) → s.next_pid < max_process → FreePid s (get_free_pid s)
unfolding get_free_pid
get_free_pid-FreePid s within =
    elim-if (λ (o : Option (ℕ × Scheduler)). FreePid s o) (is_empty (state_of s s.next_pid))
      (λ e. found within e)
      (λ e.
        answered s (find_empty s max_process ((s.next_pid + 1) % max_process)) within
          (find_empty-Search s max_process ((s.next_pid + 1) % max_process) (omega arith)))

-- What a new process does to the table.
pub Fresh : Scheduler → ℕ × Scheduler → Type 0
Fresh s pt =
    (is_empty (state_of s pt.0) ≡ true)
    × (state_of pt.1 pt.0 ≡ new)
    × ((process_at pt.1 pt.0).pid ≡ pt.0)
    × ((q : ℕ) → pt.0 ≢ q → process_at pt.1 q ≡ process_at s q)
    × (pt.1.next_pid < max_process)

fresh :
    (s : Scheduler) (o : Option (ℕ × Scheduler))
    → length s.pcb ≡ max_process
    → FreePid s o
    → After (Fresh s) (do pt ← o; some (pt.0, with_process pt.1 pt.0 (new_entry pt.1 pt.0)))
unfolding Fresh state_of new_entry
fresh s none whole (full h) = failed
fresh s (some (pid, t)) whole (found b e) =
    let u = record s { next_pid = (pid + 1) % max_process } in
    let entry = get_or-set_self s.pcb pid (new_entry u pid) vacant (omega (arith, whole)) in
    result (
      e,
      ap (λ (p : Process). p.state) entry,
      ap (λ (p : Process). p.pid) entry,
      (λ q. λ ne. get_or-set_ne s.pcb (new_entry u pid) vacant ne),
      omega arith,
    )

-- `new_process` succeeds only on a slot that was empty: that slot is then NEW under its own pid,
-- all the other processes are as they were, and the next search starts inside the table. The table
-- must have its 128 slots and the start of the search must be one of them.
pub new_process-Fresh :
    (s : Scheduler)
    → length s.pcb ≡ max_process
    → s.next_pid < max_process
    → After (Fresh s) (new_process s)
unfolding new_process
new_process-Fresh s whole within = fresh s (get_free_pid s) whole (get_free_pid-FreePid s within)
