-- ===== src/Kernel/Ipc/Queue.antt =====
-- What _DWIPCSend does to the queues of messages.
use dragon_ware.Base.{
  ℕ, zero, suc, ◌+◌, ◌-◌, ◌%◌, ◌≤◌, ◌<◌, ◌≡◌, refl, ap, ap₂, ◌≢◌, inl, inr, Bool-cases, List, ◌∷◌,
  ◌++◌, arith, ltb, ◌==◌, if◌then◌else◌, length, get_or, set, take, drop,
}
use dragon_ware.Base.Store.{null, update}
use dragon_ware.Base.Arrays.{get_or-set}
use dragon_ware.Status.{Status}
use dragon_ware.Kernel.Table.{object_at}
use dragon_ware.Kernel.State.{
  mapped, Kernel, Message, ObjectType, is_ok, current_process, sizeof_header, sizeof_message,
}
use dragon_ware.Kernel.UserCopy.{copy_from_user}
use dragon_ware.Kernel.Port.{max_messages_in_port, zero_message}
use dragon_ware.Kernel.Message.{copy_message, enqueued}
use dragon_ware.Kernel.Message.Ring.{window, queue, IsPort, Delivered, Delivered-write}
use dragon_ware.Kernel.Ipc.{translate_reply, send_to_port, ipc_send}

-- A message in the queue is the user's: it is marked with the sender's process number, its length fits
-- what was copied, and that much of its payload, its type, protocol and number are the user's.
pub record IsSent (k : Kernel) (m size : ℕ) (sent : Message) : Type 0 where
  pub from : sent.sender ≡ (k.processes (current_process k)).pid
  pub zeroed : sent.reserved ≡ 0
  pub fits : sent.payload_length ≤ size - sizeof_header
  pub kind :
      (sent.type ≡ (k.user m).type)
      × (sent.protocol ≡ (k.user m).protocol)
      × (sent.msgid ≡ (k.user m).msgid)
  pub long : sent.payload_length ≡ (k.user m).payload_length
  pub bytes :
      (old : List ℕ) × (sent.payload
        ≡ take (size - sizeof_header) (k.user m).payload ++ drop (size - sizeof_header) old)

-- What a send to port `p` does.
pub data Sends (k : Kernel) (p m size : ℕ) : Status × Kernel → Type 0 where
  sends :
      (sent : Message) (k' : Kernel)
      → copy_from_user (mapped k) m size ≡ Status.ok
      → IsSent k m size sent
      → Delivered k k' p sent
      → Sends k p m size (Status.ok, k')
  refuses :
      (k' : Kernel)
      → ((q : ℕ) → queue (k'.ports q) ≡ queue (k.ports q))
      → k'.sched ≡ k.sched
      → k'.processes ≡ k.processes
      → k'.objects ≡ k.objects
      → Sends k p m size (Status.bad_argument, k')

translate_reply-same :
    (k : Kernel) (sender recipient reply : ℕ)
    → ((translate_reply k sender recipient reply).1.ports ≡ k.ports)
unfolding translate_reply
translate_reply-same k sender recipient reply = ground arith

window-set_outside :
    (buf : List Message) (m : Message) (n h t : ℕ)
    → length buf ≡ max_messages_in_port
    → n < max_messages_in_port
    → t ≡ (h + n) % max_messages_in_port
    → window (set buf t m) n h ≡ window buf n h
window-set_outside buf m n h t len small e = outside n h small e
  where
    outside :
        (r h : ℕ)
        → r < max_messages_in_port
        → t ≡ (h + r) % max_messages_in_port
        → window (set buf t m) r h ≡ window buf r h
    outside zero h small e = refl
    outside (suc r) h small e =
        ap₂ ◌∷◌ (ground (arith, get_or-set buf t m (h % max_messages_in_port) zero_message))
          (outside r (h + 1) (omega arith) (omega arith))

queue-slot :
    (k : Kernel) (p : ℕ) (m : Message)
    → IsPort (k.ports p)
    → (k.ports p).count < max_messages_in_port
    → (q : ℕ)
    → queue (
        update k.ports p
          (record (k.ports p) { msgbuf = set (k.ports p).msgbuf (k.ports p).tail m })
          q)
      ≡ queue (k.ports q)
queue-slot k p m v h q = elim (Bool-cases (p == q)) [
  | inl e ↦
      let same : p ≡ q = ground arith in
      rw (e, ← same)
        (window-set_outside (k.ports p).msgbuf m (k.ports p).count (k.ports p).head (k.ports p).tail
          v.slots h v.tail_at)
  | inr e ↦ rw e refl
]

send_to_port-Sends :
    (k : Kernel) (p m size : ℕ)
    → IsPort (k.ports p)
    → (k.ports p).count < max_messages_in_port
    → Sends k p m size (send_to_port k p m size)
unfolding send_to_port
send_to_port-Sends k p m size v h =
    let port = k.ports p in
    let old = get_or port.msgbuf port.tail zero_message in
    let kmsg = copy_message (size - sizeof_header) (k.user m) old in
    let sender = current_process k in
    let recipient = (k.sched.threads port.owner).owner in
    let reply = (translate_reply k sender recipient kmsg.reply_handle).0 in
    let sent : Message = record kmsg {
      sender = (k.processes sender).pid;
      reserved = 0;
      reply_handle = reply;
    } in
    elim (Bool-cases (is_ok (copy_from_user (mapped k) m size))) [
      | inr e ↦ rw e (Sends.refuses k (λ q. refl) refl refl refl)
      | inl e ↦ rw e (elim (Bool-cases (ltb (size - sizeof_header) kmsg.payload_length)) [
        | inl over ↦ rw over (Sends.refuses _ (queue-slot k p kmsg v h) refl refl refl)
        | inr fine ↦ rw fine (
            Sends.sends sent _ (ground arith)
              (record {
                from = refl;
                zeroed = refl;
                fits = ground arith;
                kind = (refl, refl, refl);
                long = refl;
                bytes = (old.payload, refl);
              })
              (Delivered-write k _ p sent v h
                (ap (λ f. update f p (enqueued port sent))
                  (translate_reply-same k sender recipient kmsg.reply_handle))
                refl))
      ])
    ]

-- The port that a handle of the current process names, if it names one that can take messages.
pub record IsEndpoint (k : Kernel) (handle p : ℕ) : Type 0 where
  pub in_table : handle < 32
  pub real : object_at (k.processes (current_process k)).handles handle ≢ null
  pub a_port :
      (k.objects (object_at (k.processes (current_process k)).handles handle)).type
      ≡ ObjectType.port
  pub target : (k.objects (object_at (k.processes (current_process k)).handles handle)).payload ≡ p
  pub open_port : p ≢ null
  pub owned : (k.ports p).owner ≢ null

ipc_send-endpoint :
    (k : Kernel) (handle p m message_size : ℕ)
    → IsEndpoint k handle p
    → (k.ports p).count < max_messages_in_port
    → sizeof_header ≤ message_size
    → ipc_send k handle m message_size
      ≡ send_to_port k p m
          (if ltb sizeof_message message_size then sizeof_message else message_size)
unfolding ipc_send
ipc_send-endpoint k handle p m message_size e room big = ground arith

-- Sending through a handle that names a well-formed port with room, with at least a header: the call
-- either delivers the user's message, marked with the sender's number and no longer than what was
-- copied, and wakes the owner, or it says STATUS_BAD_ARGUMENT and leaves every queue, thread, handle
-- table and object as it was. A size above that of a message is cut to it.
pub ipc_send-Sends :
    (k : Kernel) (handle p m message_size : ℕ)
    → IsEndpoint k handle p
    → IsPort (k.ports p)
    → (k.ports p).count < max_messages_in_port
    → sizeof_header ≤ message_size
    → Sends k p m
        (if ltb sizeof_message message_size then sizeof_message else message_size)
        (ipc_send k handle m message_size)
ipc_send-Sends k handle p m message_size e v room big =
    rw (ipc_send-endpoint k handle p m message_size e room big) (
      send_to_port-Sends k p m
        (if ltb sizeof_message message_size then sizeof_message else message_size) v room)
