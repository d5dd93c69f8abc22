-- ===== src/Lib.antt =====
-- DragonWare: the kernel's memory, scheduling, objects, devices and message passing, and its loading.
--
-- The kernel (sys) hands out physical frames, maps pages and sections, allocates kernel memory from
-- slabs, runs threads by priority-weighted round robin, and lets processes exchange messages through
-- ports. A process knows kernel objects by handles: indices of its handle table. A system call reads
-- or writes its user's memory through checked copies. The parts meet in the state of Kernel/State: the
-- scheduler, the address space, and the stores of objects, ports, processes and sections.
--
-- Status: the status codes of freestanding/common/ktypes.h.
-- Text: strings and formatted output, freestanding/string. Text/Number is itoa and the
--   numerals of vsnprintf, Text/Format vsnprintf, Text/Search comparison, copies and searches,
--   Text/Case and Text/Compare strcasecmp, strncasecmp and strcmp; Text/Move is memmove.
-- Mem: memory. Mem/Regions is sys/mem/mm.c, its input the boot loader's map; Mem/Frame is
--   sys/mem/frame.c, its static variables a record, AllocateFrame `allocate_frame`, FreeFrame
--   `free_frame` and so on; Mem/Paging is sys/ddk/ia32/vmm.c over the window that the recursive
--   directory entry shows; Mem/Temporary is the temporary mappings and the search for a stack of
--   sys/task/process.c; Mem/Section is sys/iomgr/section.c; Mem/Slab is sys/lib/kmalloc.c.
-- Sched: sys/sched/schedule.c and the thread states of sys/task/task.c. Threads live in a store by
--   address and are linked by `next`; Sched/Create is the stacks of new ones; what a switch asks of the
--   processor is a list of events.
-- Kernel: the objects that system calls work on. Kernel/Table is the handle tables of
--   sys/iomgr/object.c and Kernel/Object the objects; Kernel/Port the ports of sys/iomgr/port.c,
--   Kernel/Message the queues of sys/task/message.c, Kernel/Irq the subscriptions of
--   sys/ddk/ia32/irq.c, Kernel/UserCopy sys/syscall/usercopy.c, Kernel/Ipc the calls of
--   sys/syscall/ipc.c, Kernel/Calls those of sys/syscall/object.c, and Kernel/Requests what that file
--   does for ports and sections. Kernel/State is the state that they share.
-- Device: the device manager, sys/iomgr/devmgr.c and sys/iomgr/node.c: Device/Path is the search by
--   path, Device/Root where it begins, Device/Add and Device/Remove the changes of the tree.
-- Boot: the boot manager, which loads the kernel. Boot/Disk is bootmanager/core/storage/diskread.c,
--   with the BIOS as the parameter `Firmware`; Boot/Iso and Boot/Fat are the file systems of
--   bootmanager/core/fs; Boot/Files is its fs.c, and gives a `FileReader` for both of them, over
--   which Boot/Elf models bootmanager/core/elfldr/elfloader.c.
-- Console: the text screen of the console server, base/vgacons/driver.c: Console/Screen is one character,
--   Console/Strings a text; Console/Server is the server's message loop, base/vgacons/console.c.
-- Base: the library names, words, bits, stores and arrays that all of them use.
--
-- A function of the source has its name here in snake case. Words are natural numbers with the wrap
-- written out. Pointers are numbers, 0 the null pointer, and the memory that they point into is a
-- function from addresses. Outside Mem/Slab, kmalloc is a parameter of the calls that use it: the
-- address that it returns, or 0. Walks along linked lists take fuel; the length of the list is enough,
-- for FindFreePageRange one round for each page and one more, for a directory of a CD its length, for
-- the places of a kernel stack their number and one more, and for a path or a read its own length, as
-- the theorems on them show. A chain of clusters may be cyclic:
-- there the fuel is the number of clusters within which the chain ends. In the boot manager, a stop by
-- FatalError is the result `none`; in the console server `none` is a write behind its buffer. What the
-- boot manager reads behind a buffer, or in one that a failed read left as it was, are parameters.
--
-- Not modelled: the log, TLB flushes and port I/O; the contents of user pages, except for what a call
-- reads or writes; allocations above a page; requests on devices and threads; the creation and
-- deletion of processes; of the boot manager the menus, the probing of drives and the memory map; the
-- servers but for that one, the drivers, and of the C library all but memmove.
pub mod Base
pub mod Status
pub mod Boot
pub mod Console
pub mod Device
pub mod Kernel
pub mod Mem
pub mod Sched
pub mod Text
