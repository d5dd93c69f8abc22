-- ===== src/Kernel/Message.antt =====
-- Message queues: EnqueueMessage and SendMessage (sys/task/message.c). A port's queue is a ring of
-- twelve messages. EnqueueMessage copies the header and `payload_length` bytes of the payload.
pub mod Ring
use dragon_ware.Base.{
  ℕ, ◌+◌, ◌-◌, ◌%◌, ◌≤◌, ◌<◌, ◌≡◌, Bool, List, ◌++◌, not, ◌||◌, ltb, leb, ◌==◌, if◌then◌else◌,
  get_or, set, take, drop,
}
use dragon_ware.Base.Store.{null, update}
use dragon_ware.Status.{Status}
use dragon_ware.Sched.{wake_thread}
use dragon_ware.Kernel.Table.{max_obj_per_process, object_at}
use dragon_ware.Kernel.State.{
  Kernel, Port, Message, ObjectType, Object, Process, write_port, same_type, minus_one,
  message_buffer_size,
}
use dragon_ware.Kernel.Port.{max_messages_in_port, zero_message}

-- `memcpy(dest, src, sizeof(MessageHeader) + n)`.
abbrev pub copy_message : ℕ → Message → Message → Message
copy_message n src dest = record src { payload = take n src.payload ++ drop n dest.payload }

-- The port with one more message behind its last.
abbrev pub enqueued : Port → Message → Port
enqueued port new = record port {
  msgbuf = set port.msgbuf port.tail new;
  tail = (port.tail + 1) % max_messages_in_port;
  count = port.count + 1;
}

unfoldable pub enqueue_message : Kernel → ℕ → Message → Status × Kernel
enqueue_message k p new =
    let port = k.ports p in
    let stored = copy_message new.payload_length new (get_or port.msgbuf port.tail zero_message) in
    let k' = write_port k p (enqueued port stored) in
    if leb max_messages_in_port port.count
    then (Status.msgqueue_full, k)
    else (Status.ok, record k' { sched = wake_thread k'.sched port.owner })

-- `process` and the handle's object are not null where the kernel calls this.
unfoldable pub send_message : Kernel → ℕ → ℕ → Message → Status × Kernel
send_message k process handle msg =
    let target = k.objects (object_at (k.processes process).handles handle) in
    let msg' = record msg { sender = 0; reply_handle = minus_one; reserved = 0 } in
    if not (ltb handle max_obj_per_process)
    then (Status.out_of_bounds, k)
    else if not (same_type target.type ObjectType.port) || target.payload == null
    then (Status.bad_argument, k)
    else if ltb message_buffer_size msg.payload_length
    then (Status.out_of_bounds, k)
    else enqueue_message k target.payload msg'
