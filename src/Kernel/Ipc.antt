-- ===== src/Kernel/Ipc.antt =====
-- The IPC system calls _DWIPCSend and _DWIPCReceive, sys/syscall/ipc.c.
pub mod Queue
pub mod Receive
use dragon_ware.Base.{
  ℕ, zero, suc, ◌+◌, ◌-◌, ◌%◌, ◌≤◌, ◌<◌, ◌≡◌, Bool, true, false, List, ◌++◌, Option, none, some,
  not, ◌&&◌, ◌||◌, ltb, leb, ◌==◌, if◌then◌else◌, get_or, set, take, drop,
}
use dragon_ware.Base.Store.{null, update}
use dragon_ware.Base.Bits.{is_set}
use dragon_ware.Status.{Status}
use dragon_ware.Sched.{wake_thread, block_thread, schedule_next}
use dragon_ware.Kernel.Table.{HandleTable, max_obj_per_process, object_at, append_to_handle_table}
use dragon_ware.Kernel.State.{
  mapped, Kernel, Port, Message, ObjectType, Object, Process, current_process, write_port,
  write_process, same_type, is_ok, minus_one, sizeof_header, sizeof_message,
}
use dragon_ware.Kernel.UserCopy.{copy_from_user, copy_to_user}
use dragon_ware.Kernel.Port.{max_messages_in_port, zero_message}
use dragon_ware.Kernel.Message.{copy_message, enqueued}

-- The loop that looks for a slot which already holds the object, from slot `i` over `rounds` slots.
unfoldable pub find_slot : ℕ → ℕ → HandleTable → ℕ → Option ℕ
find_slot zero i table obj = none
find_slot (suc rounds) i table obj =
    let rest = find_slot rounds (i + 1) table obj in
    if is_set table.valid_bitmap i && object_at table i == obj then some i else rest

-- The reply handle in the recipient's table, and that table. The loop stops one slot short of the
-- table's end.
unfoldable pub share_handle : HandleTable → ℕ → ℕ × HandleTable
share_handle table replyobj =
    let (appended, table') = append_to_handle_table table replyobj in
    elim (find_slot (max_obj_per_process - 1) 0 table replyobj) [
      | some i ↦ (i, table)
      | none ↦ (elim appended [ some i ↦ i | none ↦ minus_one ], table')
    ]

-- What the call does with the reply handle of the message it received from the sender: the handle
-- that the recipient gets, and the recipient's process.
unfoldable pub translate_reply : Kernel → ℕ → ℕ → ℕ → ℕ × Kernel
translate_reply k sender recipient reply_from =
    let replyobj = object_at (k.processes sender).handles reply_from in
    let (handle, table) = share_handle (k.processes recipient).handles replyobj in
    if not (ltb reply_from max_obj_per_process)
    then (minus_one, k)
    else if not (replyobj == null) && same_type (k.objects replyobj).type ObjectType.port
    then (handle, write_process k recipient (record (k.processes recipient) { handles = table }))
    else (reply_from, k)

-- From the copy into the queue's slot on; `size` is at most `sizeof(Message)`. A message that is not
-- to be trusted stays in the slot, which is not part of the queue yet.
unfoldable pub send_to_port : Kernel → ℕ → ℕ → ℕ → Status × Kernel
send_to_port k p m size =
    let port = k.ports p in
    let payload_size = size - sizeof_header in
    let kmsg = copy_message payload_size (k.user m) (get_or port.msgbuf port.tail zero_message) in
    let copied = write_port k p (record port { msgbuf = set port.msgbuf port.tail kmsg }) in
    let sender = current_process k in
    let recipient = (k.sched.threads port.owner).owner in
    let (reply, k') = translate_reply k sender recipient kmsg.reply_handle in
    let kmsg' = record kmsg {
      sender = (k.processes sender).pid;
      reserved = 0;
      reply_handle = reply;
    } in
    if not (is_ok (copy_from_user (mapped k) m size))
    then (Status.bad_argument, k)
    else if ltb payload_size kmsg.payload_length
    then (Status.bad_argument, copied)
    else (
      Status.ok,
      record (write_port k' p (enqueued port kmsg')) { sched = wake_thread k.sched port.owner },
    )

unfoldable pub ipc_send : Kernel → ℕ → ℕ → ℕ → Status × Kernel
ipc_send k handle m message_size =
    let size = if ltb sizeof_message message_size then sizeof_message else message_size in
    let obj = object_at (k.processes (current_process k)).handles handle in
    let target = k.objects obj in
    let port = k.ports target.payload in
    if ltb size sizeof_header
    then (Status.bad_argument, k)
    else if not (ltb handle max_obj_per_process)
    then (Status.out_of_bounds, k)
    else if obj == null || not (same_type target.type ObjectType.port) || target.payload == null
    then (Status.no_endpoint, k)
    else if port.owner == null
    then (Status.no_endpoint, k)
    else if leb max_messages_in_port port.count
    then (Status.msgqueue_full, k)
    else send_to_port k target.payload m size

-- A receive call returns, or it blocks its thread and another one goes on.
pub data Received : Type 0 where
  returned : Status → Kernel → Received
  waiting : Kernel → Received

-- One round of `while (!port->count)` and what follows it. A blocked thread comes back to this test.
unfoldable pub receive_from : ℕ → Kernel → ℕ → ℕ → Received
receive_from fuel k p msave =
    let port = k.ports p in
    let to_read = get_or port.msgbuf port.head zero_message in
    let k' =
      write_port k p
        (record port { head = (port.head + 1) % max_messages_in_port; count = port.count - 1 }) in
    let written = copy_message to_read.payload_length to_read (k.user msave) in
    let blocked = schedule_next fuel (block_thread k.sched k.sched.current_thread) in
    if port.count == 0
    then waiting (record k { sched = blocked })
    else if is_ok (copy_to_user (mapped k) msave (sizeof_header + to_read.payload_length))
    then returned Status.ok (record k' { user = update k.user msave written })
    else returned Status.bad k'

unfoldable pub ipc_receive : ℕ → Kernel → ℕ → ℕ → Received
ipc_receive fuel k handle msave =
    let obj = object_at (k.processes (current_process k)).handles handle in
    let target = k.objects obj in
    let port = k.ports target.payload in
    if not (ltb handle max_obj_per_process)
    then returned Status.out_of_bounds k
    else if obj == null || not (same_type target.type ObjectType.port) || target.payload == null
    then returned Status.no_endpoint k
    else if not ((k.sched.threads port.owner).owner == current_process k)
    then returned Status.bad_argument k
    else receive_from fuel k target.payload msave
