-- ===== src/Conc/Links.antt =====
-- kernel/src/conc/wait_list.cpp: the list of pids that a wait list stands for.
use thor_os.Prelude.{
  ℕ, ◌<◌, ◌≡◌, ◌≢◌, refl, sym, ap, ◌∙◌, arith, true, false, Option, none, some, List, [], ◌∷◌, ◌++◌,
  length, last, clash,
}
use thor_os.Scheduler.{Scheduler}
use thor_os.Scheduler.Choice.{is_queued}
use thor_os.Conc.WaitList.{WaitList, next_of, pid_of}

-- From `h` the `next` pointers lead through the nodes of the distinct processes `q` to null, and
-- each node names its process.
abbrev pub Links : Scheduler → Option ℕ → List ℕ → Type 0
Links s h [] = h ≡ none
Links s h (p ∷ q) =
    (h ≡ some p)
    × (is_queued p q ≡ false)
    × (p < length s.pcb)
    × (pid_of s p ≡ p)
    × Links s (next_of s p) q

pub record IsQueue (w : WaitList) (s : Scheduler) (q : List ℕ) : Type 0 where
  pub linked : Links s w.head q
  pub ends : w.tail ≡ last q

pub apart : (p x : ℕ) (q : List ℕ) → is_queued p q ≡ false → is_queued x q ≡ true → p ≢ x
unfolding is_queued
apart p x q a b e = clash (ap (λ (t : ℕ). is_queued t q) e ∙ b) a

pub last-queued : (x l : ℕ) (q : List ℕ) → last (x ∷ q) ≡ some l → is_queued l (x ∷ q) ≡ true
unfolding is_queued
last-queued x l [] h = ground arith
last-queued x l (y ∷ q) h = ground (arith, last-queued y l q h)

-- Links survive every change that spares the pointers and the names of their nodes.
pub Links-frame :
    (s t : Scheduler) (h : Option ℕ) (q : List ℕ)
    → length t.pcb ≡ length s.pcb
    → ((p : ℕ) → is_queued p q ≡ true → (next_of t p ≡ next_of s p) × (pid_of t p ≡ pid_of s p))
    → Links s h q
    → Links t h q
unfolding is_queued
Links-frame s t h [] size same l = l
Links-frame s t h (p ∷ q) size same (at, out, inside, named, rest) =
    let here = same p (ground arith) in
    (
      at,
      out,
      omega (arith, size),
      here.1 ∙ named,
      rw here.0 (Links-frame s t (next_of s p) q size (λ x m. same x (ground (arith, m))) rest),
    )

is_queued-append :
    (x own : ℕ) (q : List ℕ)
    → is_queued x q ≡ false
    → own ≢ x
    → is_queued x (q ++ (own ∷ [])) ≡ false
unfolding is_queued
is_queued-append x own [] h ne = ground arith
is_queued-append x own (y ∷ q) h ne = ground (arith, is_queued-append x own q)

-- Adding a node behind the last one.
module _ (s t : Scheduler) (own l : ℕ) (size : length t.pcb ≡ length s.pcb)
    (fresh : next_of t own ≡ none) (joined : next_of t l ≡ some own)
    (same : (p : ℕ) → own ≢ p → l ≢ p → next_of t p ≡ next_of s p)
    (names : (p : ℕ) → pid_of t p ≡ pid_of s p) (inside : own < length s.pcb)
    (named : pid_of s own ≡ own) where
  alone : Links t (some own) (own ∷ [])
  unfolding is_queued
  alone = (refl, refl, omega (arith, size), names own ∙ named, fresh)

  pub Links-append :
      (h : Option ℕ) (x : ℕ) (q : List ℕ)
      → Links s h (x ∷ q)
      → is_queued own (x ∷ q) ≡ false
      → last (x ∷ q) ≡ some l
      → Links t h (x ∷ q ++ (own ∷ []))
  unfolding is_queued
  Links-append h x [] (at, empty_rest, within, called, rest) out ends =
      let e : x ≡ l = cc in
      (
        at,
        ground arith,
        omega (arith, size),
        names x ∙ called,
        rw (ap (λ (p : ℕ). next_of t p) e ∙ joined) alone,
      )
  Links-append h x (y ∷ q) (at, others, within, called, rest) out ends =
      let ne : own ≢ x = ground arith in
      let apart_last : x ≢ l = apart x l (y ∷ q) others (last-queued y l q ends) in
      (
        at,
        is_queued-append x own (y ∷ q) others ne,
        omega (arith, size),
        names x ∙ called,
        rw (same x ne (λ e. apart_last (sym e)))
            (Links-append (next_of s x) y q rest (ground arith) ends),
      )
