-- ===== src/Kernel/Tests.antt =====
-- The kernel of Machine at work.
use dragon_ware.Base.{◌≡◌, refl, ◌≢◌, false, [], ◌∷◌, some, arith}
use dragon_ware.Base.Bits.{set_bit, bit}
use dragon_ware.Base.Ctz.{ctz}
use dragon_ware.Status.{Status}
use dragon_ware.Mem.Paging.{is_virtual_page_mapped}
use dragon_ware.Kernel.Table.{object_at, append_to_handle_table}
use dragon_ware.Kernel.State.{mapped}
use dragon_ware.Kernel.UserCopy.{copy_from_user, copy_to_user, copy_of_kernel_memory_refused}
use dragon_ware.Kernel.Port.{
  find_port, same_name, find_port_by_name, create_port, create_global_port, max_port_name,
}
use dragon_ware.Kernel.Port.Global.{Created, create_port-Created}
use dragon_ware.Kernel.Message.Ring.{IsPort, queue}
use dragon_ware.Kernel.Ipc.{
  ipc_send, send_to_port, share_handle, find_slot, translate_reply, receive_from,
}
use dragon_ware.Kernel.Ipc.Queue.{Sends, IsEndpoint, ipc_send-Sends}
use dragon_ware.Kernel.Ipc.Receive.{Receives, receive_from-Receives}
use dragon_ware.Kernel.Machine.{name_of_port, empty_port, message, machine}

-- The message arrives, marked, and its reply handle names the sender's object in the other table.
sent_ok : (ipc_send machine 0 0x400000 26).0 ≡ Status.ok
unfolding ipc_send send_to_port copy_from_user is_virtual_page_mapped translate_reply share_handle
    find_slot append_to_handle_table ctz set_bit bit
sent_ok = refl

sent :
    queue ((ipc_send machine 0 0x400000 26).1.ports 500)
    ≡ record message { sender = 1; reply_handle = 0; reserved = 0 } ∷ []
unfolding ipc_send send_to_port copy_from_user is_virtual_page_mapped translate_reply share_handle
    find_slot append_to_handle_table ctz set_bit bit
sent = refl

shared : object_at ((ipc_send machine 0 0x400000 26).1.processes 200).handles 0 ≡ 300
unfolding ipc_send send_to_port copy_from_user is_virtual_page_mapped translate_reply share_handle
    find_slot append_to_handle_table ctz set_bit bit
shared = refl

copy_of_kernel_memory_refused_example :
    (copy_from_user (mapped machine) 0xBFFFFFF0 26 ≢ Status.ok)
    × (copy_to_user (mapped machine) 0xBFFFFFF0 26 ≢ Status.ok)
copy_of_kernel_memory_refused_example =
    copy_of_kernel_memory_refused (mapped machine) 0xBFFFFFF0 26 (omega arith) (omega arith)
      (omega arith)

empty_port-IsPort : IsPort empty_port
empty_port-IsPort = record {
  slots = refl;
  head_in = omega arith;
  room = omega arith;
  tail_at = omega arith;
}

receive_from-Receives_example : Receives machine 500 0x400000 (receive_from 3 machine 500 0x400000)
receive_from-Receives_example = receive_from-Receives 3 machine 500 0x400000 empty_port-IsPort

endpoint : IsEndpoint machine 0 500
endpoint = record {
  in_table = omega arith;
  real = omega arith;
  a_port = refl;
  target = refl;
  open_port = omega arith;
  owned = omega arith;
}

ipc_send-Sends_example : Sends machine 500 0x400000 26 (ipc_send machine 0 0x400000 26)
ipc_send-Sends_example =
    ipc_send-Sends machine 0 500 0x400000 26 endpoint empty_port-IsPort (omega arith) (omega arith)

create_port-Created_example :
    Created machine (65 ∷ []) 600 700 (create_port machine (some (65 ∷ [])) 20 600 700)
create_port-Created_example = create_port-Created machine (65 ∷ []) 20 600 700 refl

created : (create_port machine (some (65 ∷ [])) 20 600 700).0 ≡ (Status.ok, 600)
unfolding create_port create_global_port find_port_by_name find_port same_name
created = refl

other_name : same_name max_port_name name_of_port (65 ∷ []) ≡ false
unfolding same_name
other_name = refl
