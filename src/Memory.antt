-- ===== src/Memory.antt =====
-- QKMemory: physical pages and the kernel heap.
pub mod Pmm
pub mod Heap
pub mod Vmm
