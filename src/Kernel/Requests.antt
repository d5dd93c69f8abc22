-- ===== src/Kernel/Requests.antt =====
-- What a process asks of its port and section objects: HandlePortObjectRequest and
-- HandleSectionObjectRequest, sys/syscall/object.c. kmalloc's results are parameters; descriptors in
-- user memory are words at consecutive addresses.
pub mod Ports
use dragon_ware.Base.{
  ℕ, ◌+◌, ◌*◌, ◌^◌, ◌≡◌, Bool, true, false, List, Option, none, some, not, ◌&&◌, ◌||◌, ltb, leb,
  ◌==◌, if◌then◌else◌, take,
}
use dragon_ware.Base.Store.{null, update}
use dragon_ware.Base.Bits.{is_set}
use dragon_ware.Status.{Status}
use dragon_ware.Mem.Section.{Section, allocate_section, map_section}
use dragon_ware.Kernel.State.{
  Kernel, Port, Process, ObjectType, Object, current_process, write_object, write_section, mapped,
  is_ok,
}
use dragon_ware.Kernel.UserCopy.{copy_from_user, copy_to_user, address_is_mapped}
use dragon_ware.Kernel.Port.{create_port, find_port_by_name, max_port_name}
use dragon_ware.Kernel.Irq.{register_irq_subscriber, acknowledge_user_irq}

-- `PortObjectOp` and `SectionObjectOp`; `other_port` and `other_section` are the values with no case.
pub data PortOp : Type 0 where
  port_create port_open port_bind_irq port_ack_irq other_port : PortOp

pub data SectionOp : Type 0 where
  section_request section_map other_section : SectionOp

-- `flags & PROC_C_SERVER`, with 1, and `flags & (PROC_C_SERVER | PROC_C_IRQ_DISPATCH)`, with 1 | 3.
abbrev pub is_server : Kernel → Bool
is_server k = is_set (k.processes (current_process k)).flags 0

abbrev pub may_acknowledge : Kernel → Bool
may_acknowledge k =
    is_set (k.processes (current_process k)).flags 0
    || is_set (k.processes (current_process k)).flags 1

-- The object holds another pointer.
abbrev pub hold : Kernel → ℕ → ℕ → Kernel
hold k obj p = write_object k obj (record (k.objects obj) { payload = p })

-- `sizeof(IRQBindingDescriptor)`, one word, and `sizeof(UserSectionDescriptor)`, two.
abbrev pub sizeof_irq_descriptor : ℕ
sizeof_irq_descriptor = 4

abbrev pub sizeof_section_descriptor : ℕ
sizeof_section_descriptor = 8

-- PORT_CREATE; the name is the object's, in kernel memory. CreatePort writes through `portsave` only
-- where it succeeds.
unfoldable pub request_port_create : Kernel → ℕ → ℕ → ℕ → Status × Kernel
request_port_create k obj port node =
    let name_at = (k.objects obj).name in
    let name = if name_at == null then none else some (k.names name_at) in
    let (result, k') = create_port k name k.sched.current_thread port node in
    if is_ok result.0 then (Status.ok, hold k' obj result.1) else (result.0, k')

-- PORT_OPEN, with the user's name at `arg`.
unfoldable pub request_port_open : Kernel → ℕ → ℕ → Status × Kernel
request_port_open k obj arg =
    let p = find_port_by_name k (take max_port_name (k.user_names arg)) in
    let opened = record (k.objects obj) { payload = p; refcnt = (k.objects obj).refcnt + 1 } in
    if not (is_ok (copy_from_user (mapped k) arg max_port_name))
    then (Status.bad_argument, k)
    else if p == null
    then (Status.not_found, k)
    else (Status.ok, write_object k obj opened)

unfoldable pub port_request : Kernel → ℕ → ℕ → PortOp → ℕ → ℕ → ℕ → Status × Kernel
port_request k handle obj PortOp.port_create arg port node = request_port_create k obj port node
port_request k handle obj PortOp.port_open arg port node = request_port_open k obj arg
port_request k handle obj PortOp.port_bind_irq arg port node =
    if not (is_server k)
    then (Status.unsupported, k)
    else if not (is_ok (copy_from_user (mapped k) arg sizeof_irq_descriptor))
    then (Status.bad_argument, k)
    else (Status.ok, register_irq_subscriber k (k.user_words arg) handle)
port_request k handle obj PortOp.port_ack_irq arg port node =
    if not (may_acknowledge k)
    then (Status.unsupported, k)
    else if not (is_ok (copy_from_user (mapped k) arg sizeof_irq_descriptor))
    then (Status.bad_argument, k)
    else (Status.ok, acknowledge_user_irq k (k.user_words arg) handle)
port_request k handle obj PortOp.other_port arg port node = (Status.unsupported, k)

-- SECTION_REQUEST, with the number of pages and the permissions at `arg`.
unfoldable pub request_section : Kernel → ℕ → ℕ → ℕ → Status × Kernel
request_section k obj arg scn =
    let pid = (k.processes (current_process k)).pid in
    if not ((k.objects obj).payload == null)
    then (Status.bad, k)
    else if not (is_ok (copy_from_user (mapped k) arg sizeof_section_descriptor))
    then (Status.bad_argument, k)
    else elim (allocate_section scn (k.user_words arg) (k.user_words (arg + 4))) [
      | none ↦ (Status.out_of_memory, k)
      | some new ↦
          (Status.ok, hold (write_section k scn (record new { address_space = pid })) obj scn)
    ]

-- SECTION_MAP; the address goes to the user's word at `arg`.
unfoldable pub request_section_map : ℕ → Kernel → ℕ → ℕ → Status × Kernel
request_section_map fuel k obj arg =
    let p = (k.objects obj).payload in
    let (base, left) = map_section fuel (k.sections p) k.space in
    let k' = record (write_section k p left.0) { space = left.1 } in
    if not (address_is_mapped (mapped k) arg)
    then (Status.bad_argument, k)
    else if p == null
    then (Status.bad, k)
    else if base == 0
    then (Status.bad, k')
    else (Status.ok, record k' { user_words = update k'.user_words arg base })

unfoldable pub section_request_call : ℕ → Kernel → ℕ → SectionOp → ℕ → ℕ → Status × Kernel
section_request_call fuel k obj SectionOp.section_request arg scn = request_section k obj arg scn
section_request_call fuel k obj SectionOp.section_map arg scn = request_section_map fuel k obj arg
section_request_call fuel k obj SectionOp.other_section arg scn = (Status.bad_argument, k)
