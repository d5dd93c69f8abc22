-- ===== src/Kernel/State.antt =====
-- The kernel's state as the system calls see it: memory that holds objects, ports and processes, the
-- scheduler with its threads, and what of the current user's memory a call reads or writes.
-- An `int` is its 32-bit pattern; a handle below 0 has a pattern from 2 ^ 31 on.
use dragon_ware.Base.{ℕ, ◌-◌, ◌^◌, Bool, true, false, List}
use dragon_ware.Base.Store.{update}
use dragon_ware.Status.{Status}
use dragon_ware.Mem.Paging.{AddressSpace, is_virtual_page_mapped}
use dragon_ware.Mem.Section.{Section}
use dragon_ware.Sched.{Sched}
use dragon_ware.Kernel.Table.{HandleTable}

-- `MessageHeader` and `Message` (sys/task/message.h). The header takes 24 bytes, the payload 256.
pub record Message : Type 0 where
  pub msgid : ℕ
  pub reply_handle : ℕ
  pub sender : ℕ
  pub type : ℕ
  pub protocol : ℕ
  pub payload_length : ℕ
  pub reserved : ℕ
  pub payload : List ℕ

abbrev pub message_buffer_size : ℕ
message_buffer_size = 256

abbrev pub sizeof_header : ℕ
sizeof_header = 24

abbrev pub sizeof_message : ℕ
sizeof_message = 280

-- The pattern of -1.
abbrev pub minus_one : ℕ
minus_one = 2 ^ 32 - 1

-- `ObjectType`; `invalid` stands for the values that have no name.
pub data ObjectType : Type 0 where
  unknown device port section thread invalid : ObjectType

-- `Object` (sys/iomgr/object.h); `payload` is its field `data`.
pub record Object : Type 0 where
  pub type : ObjectType
  pub name : ℕ
  pub payload : ℕ
  pub permissions : ℕ
  pub refcnt : ℕ

-- `Port` (sys/iomgr/port.h), without the lock that nothing uses.
pub record Port : Type 0 where
  pub msgbuf : List Message
  pub head : ℕ
  pub tail : ℕ
  pub count : ℕ
  pub name : List ℕ
  pub owner : ℕ

-- The fields of `Process` (sys/task/process.h) that the system calls use.
pub record Process : Type 0 where
  pub main_thread : ℕ
  pub pid : ℕ
  pub handles : HandleTable
  pub flags : ℕ

-- `IRQRelayHandler` (sys/ddk/ia32/irq.h); `handler` is its thread.
pub record IrqRelay : Type 0 where
  pub handler : ℕ
  pub port_handle : ℕ
  pub is_active : Bool

-- `process_list` and `port_list` are the linked lists, as lists of pointers from their heads;
-- `freed` lists the pointers given to kfree, the latest first.
pub record Kernel : Type 0 where
  pub sched : Sched
  pub objects : ℕ → Object
  pub ports : ℕ → Port
  pub processes : ℕ → Process
  pub process_list : List ℕ
  pub port_list : List ℕ
  pub freed : List ℕ
  -- The names in kernel memory, by their address.
  pub names : ℕ → List ℕ
  pub sections : ℕ → Section
  pub space : AddressSpace
  pub irq_relay : ℕ → IrqRelay
  -- The numbers given to EnableIRQ, the latest first.
  pub enabled_irqs : List ℕ
  -- What user memory holds by the address, read as a message, a word or a name.
  pub user : ℕ → Message
  pub user_words : ℕ → ℕ
  pub user_names : ℕ → List ℕ

-- IsVirtualPageMapped, by the page's address.
abbrev pub mapped : Kernel → ℕ → Bool
mapped k addr = is_virtual_page_mapped k.space addr

abbrev pub current_process : Kernel → ℕ
current_process k = (k.sched.threads k.sched.current_thread).owner

abbrev pub write_port : Kernel → ℕ → Port → Kernel
write_port k p q = record k { ports = update k.ports p q }

abbrev pub write_object : Kernel → ℕ → Object → Kernel
write_object k p obj = record k { objects = update k.objects p obj }

abbrev pub write_process : Kernel → ℕ → Process → Kernel
write_process k p process = record k { processes = update k.processes p process }

abbrev pub same_type : ObjectType → ObjectType → Bool
same_type ObjectType.unknown ObjectType.unknown = true
same_type ObjectType.device ObjectType.device = true
same_type ObjectType.port ObjectType.port = true
same_type ObjectType.section ObjectType.section = true
same_type ObjectType.thread ObjectType.thread = true
same_type ObjectType.invalid ObjectType.invalid = true
same_type _ _ = false

abbrev pub is_ok : Status → Bool
is_ok Status.ok = true
is_ok _ = false

abbrev pub write_section : Kernel → ℕ → Section → Kernel
write_section k p scn = record k { sections = update k.sections p scn }
