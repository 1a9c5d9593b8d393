-- ===== src/CircularBuffer.antt =====
-- tstl/include/circular_buffer.hpp: `circular_buffer<T, S>`, a FIFO over an array of S + 1 cells.
-- A read outside the array is the element `junk`.
pub mod Cells
pub mod Queue
mod Tests
use thor_os.Prelude.{
  ℕ, zero, suc, ◌+◌, ◌-◌, ◌%◌, Bool, true, false, List, ◌==◌, if◌then◌else◌, get_or, length,
}
use thor_os.Prelude.{set as write}

pub record CircularBuffer (A : Type 0) : Type 0 where
  pub size : ℕ
  pub buffer : List A
  pub start : ℕ
  pub end : ℕ

module _ {A : Type 0} where
  pub full : CircularBuffer A → Bool
  full c = (c.end + 1) % c.size == c.start

  pub is_empty : CircularBuffer A → Bool
  is_empty c = c.end == c.start

  -- Whether the value was stored, and the buffer after the call; `emplace_push` has the same body.
  pub push : CircularBuffer A → A → Bool × CircularBuffer A
  push c value =
      if full c
      then (false, c)
      else (true, record c { buffer = write c.buffer c.end value; end = (c.end + 1) % c.size })

  pub top : CircularBuffer A → A → A
  top c junk = get_or c.buffer c.start junk

  pub pop : CircularBuffer A → A → A × CircularBuffer A
  pop c junk = (get_or c.buffer c.start junk, record c { start = (c.start + 1) % c.size })

  pub pop_last : CircularBuffer A → CircularBuffer A
  pop_last c = if c.end == 0 then record c { end = c.size - 1 } else record c { end = c.end - 1 }

  -- `test` is the comparison of an element with the value that is looked for.
  pub contains_from : CircularBuffer A → (A → Bool) → A → ℕ → ℕ → Bool
  contains_from c test junk zero i = false
  contains_from c test junk (suc rounds) i =
      let rest = contains_from c test junk rounds ((i + 1) % c.size) in
      if i == c.end then false else (if test (get_or c.buffer i junk) then true else rest)

  pub contains : CircularBuffer A → (A → Bool) → A → Bool
  contains c test junk = contains_from c test junk c.size c.start

  pub replace_from : CircularBuffer A → (A → Bool) → A → A → ℕ → ℕ → CircularBuffer A
  replace_from c test new_value junk zero i = c
  replace_from c test new_value junk (suc rounds) i =
      let rest = replace_from c test new_value junk rounds ((i + 1) % c.size) in
      if i == c.end
      then c
      else (if test (get_or c.buffer i junk)
          then record c { buffer = write c.buffer i new_value }
          else rest)

  pub replace : CircularBuffer A → (A → Bool) → A → A → CircularBuffer A
  replace c test new_value junk = replace_from c test new_value junk c.size c.start
