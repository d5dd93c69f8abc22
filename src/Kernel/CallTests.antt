-- ===== src/Kernel/CallTests.antt =====
-- The system calls on objects, at the kernel of Machine.
use dragon_ware.Base.{none, take, ◌≡◌, refl, true, [], ◌∷◌, arith, ◌==◌, if◌then◌else◌}
use dragon_ware.Base.Store.{null}
use dragon_ware.Base.Bits.{set_bit, bit}
use dragon_ware.Base.Ctz.{ctz}
use dragon_ware.Status.{Status}
use dragon_ware.Mem.Paging.{is_virtual_page_mapped}
use dragon_ware.Kernel.Machine.{machine, one_object}
use dragon_ware.Kernel.Table.{empty_table, append_to_handle_table}
use dragon_ware.Kernel.Table.Slots.{IsTable-empty}
use dragon_ware.Kernel.State.{mapped, Kernel, Message, ObjectType, minus_one}
use dragon_ware.Kernel.UserCopy.{copy_to_user}
use dragon_ware.Kernel.Port.{zero_message}
use dragon_ware.Kernel.Message.{copy_message}
use dragon_ware.Kernel.Ipc.{find_slot}
use dragon_ware.Kernel.Object.{delete_object}
use dragon_ware.Kernel.Irq.{
  register_irq_subscriber, acknowledge_user_irq, relay_irq, Handlers, Control,
}
use dragon_ware.Kernel.Irq.Relay.{
  acknowledge_user_irq-register_irq_subscriber, Relayed, relay_irq-Relayed,
}
use dragon_ware.Kernel.Port.{
  create_port, create_global_port, find_port_by_name, find_port, same_name,
}
use dragon_ware.Kernel.UserCopy.{copy_from_user}
use dragon_ware.Kernel.Requests.{request_port_create, request_port_open}
use dragon_ware.Kernel.Requests.Ports.{request_port_open-request_port_create}
use dragon_ware.Kernel.Calls.{
  translate_handle, create_object, copied_name, adopt, hand_out, find_process_by_id, find_process,
}
use dragon_ware.Kernel.Calls.Translate.{Shares, translate_handle-Shares}

-- Process 100 with an empty table runs, and asks for handle 0 of process 200, which names the object.
abbrev asking : Kernel
asking = record machine {
  processes = λ p.
      if p == 100
      then record { main_thread = 10; pid = 1; handles = empty_table; flags = 0 }
      else record { main_thread = 20; pid = 2; handles = one_object; flags = 0 };
}

translated : (translate_handle asking 2 0 0x400000).0 ≡ Status.ok
unfolding translate_handle adopt hand_out find_process_by_id find_process find_slot
    append_to_handle_table copy_to_user is_virtual_page_mapped bit ctz set_bit
translated = refl

translate_handle-Shares_example :
    Shares asking (translate_handle asking 2 0 0x400000).1 2 0 0x400000
translate_handle-Shares_example =
    translate_handle-Shares asking 2 0 0x400000 IsTable-empty translated

first_handle : (create_object asking null ObjectType.port null 600).0 ≡ 0
unfolding create_object copied_name append_to_handle_table ctz
    dragon_ware.Kernel.Object.allocate_object
first_handle = refl

acknowledge_user_irq-register_irq_subscriber_example :
    (acknowledge_user_irq (register_irq_subscriber machine 1 0) 1 0).enabled_irqs
    ≡ (if 0 == 0 then 1 ∷ 1 ∷ [] else 1 ∷ [])
acknowledge_user_irq-register_irq_subscriber_example =
    acknowledge_user_irq-register_irq_subscriber machine 1 0 0 (omega arith) (omega arith)
      (omega arith)

-- Thread 10 waits for the keyboard's interrupt at the port.
abbrev waiting_for_keys : Kernel
waiting_for_keys = record machine {
  irq_relay = λ i. record { handler = 10; port_handle = 0; is_active = true };
}

abbrev no_handlers : Handlers
no_handlers irq = none

relay_irq-Relayed_example :
    ((relay_irq no_handlers waiting_for_keys 1).0 ≡ Control.disable_irq 1 ∷ Control.send_eoi 1 ∷ [])
    × (old : Message) × Relayed waiting_for_keys
        (relay_irq no_handlers waiting_for_keys 1).1
        500
        (copy_message 0
          (record zero_message { sender = 0; reply_handle = minus_one; reserved = 0 })
          old)
        10
relay_irq-Relayed_example =
    relay_irq-Relayed no_handlers waiting_for_keys 1 500 (omega arith) refl refl
      (record { in_table = omega arith; a_port = refl; target = refl; real = omega arith })
      (record { slots = refl; head_in = omega arith; room = omega arith; tail_at = omega arith })
      (omega arith)

-- An object with the name "A" at 900, and a user who asks for "A".
abbrev naming : Kernel
naming = record machine {
  objects = λ p. record {
    type = ObjectType.port;
    name = 900;
    payload = null;
    permissions = 0;
    refcnt = 1;
  };
  names = λ p. 65 ∷ [];
  user_names = λ p. 65 ∷ [];
}

made : (request_port_create naming 301 600 700).0 ≡ Status.ok
unfolding request_port_create create_port create_global_port find_port_by_name find_port same_name
made = refl

readable :
    copy_from_user (mapped (request_port_create naming 301 600 700).1) 0x400000 48 ≡ Status.ok
unfolding request_port_create create_port create_global_port find_port_by_name find_port same_name
    copy_from_user is_virtual_page_mapped bit
readable = refl

asked : take 48 ((request_port_create naming 301 600 700).1.user_names 0x400000) ≡ 65 ∷ []
unfolding request_port_create create_port create_global_port find_port_by_name find_port same_name
asked = refl

request_port_open-request_port_create_example :
    let k' = (request_port_create naming 301 600 700).1 in
    ((request_port_open k' 302 0x400000).0 ≡ Status.ok)
    × (((request_port_open k' 302 0x400000).1.objects 302).payload ≡ 600)
request_port_open-request_port_create_example =
    request_port_open-request_port_create naming 301 302 600 700 0x400000 (omega arith) refl
      (omega arith) made asked readable
