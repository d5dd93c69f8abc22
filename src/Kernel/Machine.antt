-- ===== src/Kernel/Machine.antt =====
-- Two processes: 100, the current one, whose thread 10 runs, and 200, whose thread 20 owns the port
-- 500 that handle 0 of process 100 names through the object 300. The
-- user's page at 0x400000 and the one behind it are mapped, with a message in the first.
use dragon_ware.Base.{ℕ, ◌+◌, ◌*◌, false, List, [], ◌∷◌, ◌==◌, ◌||◌, if◌then◌else◌, replicate}
use dragon_ware.Base.Store.{null}
use dragon_ware.Mem.Frame.{blank}
use dragon_ware.Mem.Section.{no_frames}
use dragon_ware.Sched.{Thread, ThreadState, Privilege, ThreadPriority}
use dragon_ware.Kernel.Table.{HandleTable, empty_table}
use dragon_ware.Kernel.State.{Kernel, Port, Message, ObjectType}
use dragon_ware.Kernel.Port.{zero_message}

abbrev pub thread_of : ThreadState → ℕ → ℕ → ℕ → Thread
thread_of state id owner next = record {
  esp = 0;
  kernel_stack = 0xE0002000;
  trapframe = 0;
  stack_top = 0;
  quantum = 0;
  state = state;
  pl = Privilege.user;
  priority = ThreadPriority.medium;
  id = id;
  owner = owner;
  next = next;
}

abbrev pub memory : ℕ → Thread
memory p =
    if p == 10
    then thread_of ThreadState.running 1 100 20
    else if p == 20
    then thread_of ThreadState.blocked 2 200 0
    else thread_of ThreadState.terminated 0 0 0

abbrev pub name_of_port : List ℕ
name_of_port = 100 ∷ 99 ∷ 112 ∷ []

abbrev pub empty_port : Port
empty_port = record {
  msgbuf = replicate 12 zero_message;
  head = 11;
  tail = 11;
  count = 0;
  name = name_of_port;
  owner = 20;
}

abbrev pub one_object : HandleTable
one_object = record { objlist = 300 ∷ replicate 31 null; valid_bitmap = 1 }

abbrev pub message : Message
message = record {
  msgid = 7;
  reply_handle = 0;
  sender = 0;
  type = 1;
  protocol = 2;
  payload_length = 2;
  reserved = 9;
  payload = 65 ∷ 66 ∷ replicate 254 0;
}

abbrev pub machine : Kernel
machine = record {
  sched = record {
    threads = memory;
    thread_list = 10;
    current_thread = 10;
    needs_resched = 0;
    events = [];
  };
  objects = λ p. record {
    type = (if p == 300 then ObjectType.port else ObjectType.unknown);
    name = 0;
    payload = (if p == 300 then 500 else null);
    permissions = 0;
    refcnt = 1;
  };
  ports = λ p. empty_port;
  processes = λ p.
      if p == 100
      then record { main_thread = 10; pid = 1; handles = one_object; flags = 0 }
      else record { main_thread = 20; pid = 2; handles = empty_table; flags = 0 };
  process_list = 200 ∷ 100 ∷ [];
  port_list = 500 ∷ [];
  freed = [];
  names = λ p. name_of_port;
  sections = λ p. record {
    address_space = 0;
    n_pages = 0;
    permissions = 0;
    vmbase = 0;
    physframes = no_frames;
    refcnt = 0;
  };
  space = record {
    window = λ i. if i == 1023 * 1024 + 1 then 7 else if i == 0x400 || i == 0x401 then 7 else 0;
    frames = blank;
  };
  irq_relay = λ i. record { handler = 0; port_handle = 0; is_active = false };
  enabled_irqs = [];
  user = λ p. message;
  user_words = λ p. 0;
  user_names = λ p. name_of_port;
}
