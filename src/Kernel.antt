-- ===== src/Kernel.antt =====
-- The kernel objects that system calls work on: objects and handle tables (sys/iomgr/object.c),
-- ports (sys/iomgr/port.c), messages (sys/task/message.c) and the calls themselves (sys/syscall).
pub mod Table
pub mod State
pub mod UserCopy
pub mod Port
pub mod Message
pub mod Ipc
mod Machine
mod Tests
mod CallTests
pub mod Object
pub mod Irq
pub mod Calls
pub mod Requests
