-- ===== src/Mem.antt =====
-- The kernel's memory managers (sys/mem, sys/ddk/ia32/vmm.c).
pub mod Frame
pub mod Paging
pub mod Section
pub mod Slab
pub mod Temporary
pub mod Regions
