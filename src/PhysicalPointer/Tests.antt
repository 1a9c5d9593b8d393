-- ===== src/PhysicalPointer/Tests.antt =====
-- A window over new tables and a new allocator.
use thor_os.Prelude.{ℕ, ◌+◌, ◌/◌, ◌<◌, ◌≡◌, ◌≢◌, arith, some, ◌⊎◌}
use thor_os.Paging.{Paging}
use thor_os.Paging.Tests.{empty_tables, empty_tables-IsLinked, empty_slot}
use thor_os.Paging.Ranges.{Written, target}
use thor_os.VirtualAllocator.{VirtualAllocator, start, init, free_memory}
use thor_os.VirtualAllocator.Init.{pages_from, init-free}
use thor_os.VirtualAllocator.Counters.{free_memory-init}
use thor_os.PhysicalPointer.{PhysicalPointer, create, destroy}
use thor_os.PhysicalPointer.Window.{InStep, Restored, create-InStep, destroy-create}

abbrev new_allocator : VirtualAllocator
new_allocator = init start 2097152

abbrev managed : ℕ
managed = pages_from new_allocator.first_virtual_address

new-InStep : InStep managed new_allocator.allocator empty_tables
new-InStep =
    let new = init-free 2097152 (omega arith) in
    record {
      sound = new.4;
      linked = empty_tables-IsLinked;
      aligned = omega (arith, new.1, new.3);
      inside = omega (arith, new.2, new.3);
      unmapped = λ u free low. empty_slot (new_allocator.allocator.first_address / 4096 + u);
    }

room_for_4 : 4 < free_memory new_allocator / 4096
room_for_4 = omega (arith, free_memory-init 2097152)

create-InStep_example :
    (virt : ℕ) × (w : VirtualAllocator) × (q : Paging) × (create
        (λ p. 0)
        new_allocator
        empty_tables
        8388608
        4
      ≡ some (record { phys = 8388608; pages = 4; virt = virt }, w, q))
    × InStep managed w.allocator q
    × (((virt ≡ 0) × (w.allocator ≡ new_allocator.allocator) × (q ≡ empty_tables))
        ⊎ ((virt ≢ 0) × Written (virt / 4096) 4 (target virt 8388608 3) empty_tables q))
create-InStep_example =
    create-InStep managed (λ p. 0) new_allocator empty_tables 8388608 4 new-InStep (omega arith)
      (omega arith) room_for_4

destroy-create_example :
    (ptr : PhysicalPointer) × (w : VirtualAllocator) × (q : Paging) × (create
        (λ p. 0)
        new_allocator
        empty_tables
        8388608
        4
      ≡ some (ptr, w, q))
    × Restored managed new_allocator empty_tables (destroy (λ p. 0) w q ptr)
destroy-create_example =
    destroy-create managed (λ p. 0) new_allocator empty_tables 8388608 4 new-InStep (omega arith)
      (omega arith) room_for_4 (omega arith)
