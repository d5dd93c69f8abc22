-- ===== src/Boot.antt =====
-- The boot manager, bootmanager/core: disks, file systems and the loading of the kernel.
pub mod Disk
pub mod Iso
pub mod Fat
pub mod Elf
pub mod Files
mod Tests
mod FatTests
