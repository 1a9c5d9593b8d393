-- ===== src/Conc.antt =====
-- kernel/include/conc and kernel/src/conc: the list of processes that wait, and the locks over it.
-- A step holds the spinlock of its object, or has the interrupts off, and so is atomic.
-- A read through a null pointer and a failed assertion are the result `none`.
pub mod WaitList
pub mod Locks
pub mod Condition
pub mod RwLock
pub mod Deferred
pub mod Links
pub mod Queue
pub mod Broadcast
pub mod Remove
pub mod Exclusion
pub mod Handover
pub mod Readers
pub mod Signals
mod Tests
