-- ===== src/Lib.antt =====
-- A model of the core of thor-os, a 64-bit kernel, its standard library (tstl) and programs in C++.
--
-- The program's parts. The physical and the virtual memory allocators each own one buddy
-- allocator, which keeps the free blocks of each size in one bitmap per level; paging maps virtual
-- pages to physical ones in the four levels of tables; a physical pointer takes virtual pages and
-- maps them to show a range of physical memory; the heap of the kernel grows by blocks of pages from
-- both allocators, and gives out the chunks that it cuts them into. The scheduler owns
-- the process control blocks and one run queue per priority; the timer interrupt calls its tick,
-- and locks, system calls and drivers block and wake processes through it. The string conversions
-- of tstl serve the kernel (paths, sysfs, the network layers) and the programs alike; paths name
-- files for the file systems, and the block cache keeps what the disk driver reads; the circular
-- buffer holds what the drivers hand over to the processes that wait for it. The network layers
-- pass each packet on: Ethernet to ARP or IP, and ARP wakes who waits for an address.
--
-- Which file models which part:
--   Prelude, Word      shared names, tests, lists over native numbers, 64-bit words and their bits
--   Bitmap             kernel/include/bitmap.hpp: static_bitmap. `storage` is the array of words
--                      and `words` its length; each member function is the function of its name.
--     Bitmap/Laws      the effect of set and unset on is_set
--     Bitmap/Search    set_bit and set_word, the two searches
--     Bitmap/Fill      set_all and clear_all
--   Buddy              kernel/include/buddy_allocator.hpp: buddy_allocator<8, 4096>, over the
--                      functions of Bitmap. `allocate` returns the address and the allocator after
--                      the call, with the address 0 for a failure as in the source.
--     Buddy/Levels     level and word_level
--     Buddy/Cells .. Coherence
--                      the walks up and down the levels, and the invariant between the levels
--     Buddy/Pages      the abstract view: which pages are free
--     Buddy/Sound      the well-formedness of an allocator with n pages
--     Buddy/Allocate, AllocateWord, Success, Init, Free
--                      the operations against the set of free pages
--     Buddy/Arrays     bitmaps of the sizes that both allocators compute have the room needed
--   Paging             kernel/include/paging.hpp and kernel/src/paging.cpp: a table is its address,
--                      and `memory` gives the words at the addresses that the code reads
--     Paging/Walk      tables that are linked as the kernel's are, and where a lookup ends
--     Paging/Map, Ranges, Lookup
--                      one page, ranges of pages, and physical_address
--   VirtualAllocator   kernel/src/virtual_allocator.cpp over Buddy
--     VirtualAllocator/Init, Counters
--                      the state after init, and the count of the pages in use
--   PhysicalAllocator  kernel/src/physical_allocator.cpp over Buddy, and the memory map of
--                      kernel/src/e820.cpp. `init` takes its arrays from the virtual allocator and
--                      maps them, so that it works on all three states.
--     PhysicalAllocator/Map, Counters
--                      the region that allocation starts in, and the counts of memory
--   PhysicalPointer    kernel/include/physical_pointer.hpp over VirtualAllocator and Paging
--     PhysicalPointer/Window
--                      free virtual pages have no frame, with and without windows
--   KernelHeap         kernel/src/kalloc.cpp: a pointer to a chunk is its address; headers and footers
--                      are two functions of the address. `allocate_block` is the one over the two
--                      allocators and paging; k_malloc takes any such function.
--     KernelHeap/Lists, Ring, Links
--                      the free list as the list of its chunks, linked both ways
--     KernelHeap/FirstFit, Blocks, Expand
--                      k_malloc, with a chunk that is large enough and without one
--     KernelHeap/Coalesce, Free
--                      the neighbours that a freed chunk is joined with, and k_free
--   Scheduler          kernel/src/scheduler.cpp, kernel/include/process.hpp: the process table,
--                      the choice of the next process, the switch and reschedule
--     Scheduler/Tick, Blocking, Create
--                      tick and yield; block, unblock, sleep, kill and await; new processes
--     Scheduler/Choice the order in which processes are considered
--     Scheduler/States, Kept, Invariant
--                      the relation of steps and its reachable states
--     Scheduler/Pids   free process ids and new processes
--     Scheduler/Races  what can happen between a critical section and reschedule
--   Checksum           kernel/include/net/checksum.hpp; the bytes are a list of numbers
--     Checksum/Fold    the sum and the folding as arithmetic modulo 65535
--   CircularBuffer     tstl/include/circular_buffer.hpp; an element out of range is a parameter, and
--                      `==` on the elements is a test that the caller gives
--     CircularBuffer/Cells, Queue
--                      the elements in the array, and the operations against their list
--   Text               tstl/include/string.hpp: parse, digits, to_string, to_raw_string, atoui,
--                      split and split_append, on strings as lists of byte values
--     Text/Numbers, Raw, Split
--                      numbers, the raw buffer, and words
--   Conc               kernel/include/conc, kernel/src/conc. A spinlock or an int_lock makes each
--                      critical section one step; `lock` has two, before and after the switch.
--     Conc/WaitList    wait_list.cpp: the nodes are the fields `wait` of the processes
--     Conc/Locks       mutex.hpp and semaphore.hpp
--     Conc/Condition, RwLock, Deferred
--                      condition_variable.cpp, rw_lock.hpp, and the two deferred locks
--     Conc/Links, Queue, Remove, Broadcast
--                      a wait list as the queue of the pids in it, and notify_all
--     Conc/Handover    from the process that unlocks a mutex to the first that waits
--     Conc/Exclusion, Readers, Signals
--                      what holds over any interleaving of the operations of a lock
--   VfsPath            kernel/src/path.cpp, kernel/include/vfs/path.hpp: `base` is a list of byte
--                      values and `positions` the indices of its slashes
--     VfsPath/Canonical, Names
--                      the text that a path keeps, and its names
--   Net                kernel/src/net: header fields are the numbers that the processor reads
--     Net/Address      the byte orders of kernel_utils.hpp and the conversions of addresses in
--                      arp_layer.cpp, ethernet_layer.cpp, ip_layer.cpp and net_constants.hpp
--     Net/ArpCache, ArpLayer
--                      arp_cache.cpp and `decode` of arp_layer.cpp, which wakes the processes that
--                      wait through Conc/Condition; a packet is its header and its destination
--     Net/Ethernet     the header and the dispatch of ethernet_layer.cpp, the tags of packet.hpp
--     Net/Ip           the header, its checksum and the dispatch of ip_layer.cpp
--     Net/AddressLaws, Lookup, Resolve
--                      conversions there and back, the cache, and a request with its reply
--   BlockCache         kernel/src/block_cache.cpp, without the payloads: a pointer to a block is its
--                      index in `blocks_memory`
--     BlockCache/Chain, Reuse
--                      the chains of the hash table, and `block` on a miss
-- Each Tests module evaluates its part on small inputs.
--
-- Bounds and fuel. `size_t` and `uint64_t` are native numbers with the wrap at 2 ^ 64 written out.
-- Loops over an array, a string or the process table are recursion on what is left of it; the
-- loops that divide by 10 take 20 rounds, as many digits as a number below 2 ^ 64 has, and the
-- folding of a checksum takes three tests of its loop. A loop over a wait list takes at most 128
-- rounds, as many nodes as there are processes, and a loop over a chain of the block cache at most
-- as many as there are blocks. k_malloc looks at each chunk of the free list, at the head and at one
-- new chunk at most, which a theorem shows to be enough; the result of a loop that would go on is `none`. A failed assertion
-- stops the kernel and is the result `none`. What the compiler makes of the overflow of an `int`, in
-- the counts of the allocators, is a parameter.
--
-- An operation of the scheduler is a step for what it does before it takes the lock and a step for
-- what it does under it, with yield_mark and yield_switch for `yield`, and sleep_mark and
-- reschedule_switch for `sleep_ms`; ticks may come between the two. `yield`, `reschedule` and
-- `sleep_ms` themselves are the two parts with no tick between them.
--
-- Not modelled: the construction of the page tables and the address spaces of processes, stacks,
-- the collection of killed processes and the context switch (tied to the page tables or assembly);
-- spinlocks, file systems, the network layers above IP and the buffers of packets, drivers, consoles
-- and boot code. Logging has no effect on the modelled
-- state and is left out.
pub mod Prelude
pub mod Word
pub mod Bitmap
pub mod Buddy
pub mod Text
pub mod PhysicalAllocator
pub mod PhysicalPointer
pub mod Scheduler
pub mod CircularBuffer
pub mod Checksum
pub mod Conc
pub mod KernelHeap
pub mod Net
pub mod BlockCache
pub mod Paging
pub mod VfsPath
pub mod VirtualAllocator
