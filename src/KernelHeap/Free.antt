-- ===== src/KernelHeap/Free.antt =====
-- kernel/src/kalloc.cpp: `k_free` on the free list, with the chunks that it joins.
