-- ===== src/Kernel/Irq/Relay.antt =====
-- How an interrupt reaches a subscribed thread.
use dragon_ware.Base.{
  ℕ, ◌≤◌, ◌<◌, ◌≡◌, refl, ◌≢◌, inl, inr, true, false, Bool-cases, [], ◌∷◌, none, ◌++◌, arith, not,
  ltb, leb, ◌==◌, if◌then◌else◌,
}
use dragon_ware.Base.Store.{null, update_self}
use dragon_ware.Status.{Status}
use dragon_ware.Sched.{wake_thread}
use dragon_ware.Kernel.Table.{object_at}
use dragon_ware.Kernel.State.{Kernel, Message, ObjectType, minus_one, message_buffer_size, is_ok}
use dragon_ware.Kernel.Port.{zero_message, max_messages_in_port}
use dragon_ware.Kernel.Message.{copy_message, enqueue_message, send_message}
use dragon_ware.Kernel.Message.Ring.{queue, IsPort, Enqueued, enqueue_message-Enqueued}
use dragon_ware.Kernel.Irq.{
  is_user_irq, max_irq, register_irq_subscriber, acknowledge_user_irq, relay_irq, relay_to_user,
  Handlers, Control,
}

-- After the current thread subscribed to an interrupt from 1 to 15 with a port handle, its
-- acknowledgement enables the interrupt again exactly where it names that handle.
pub acknowledge_user_irq-register_irq_subscriber :
    (k : Kernel) (which handle handle' : ℕ)
    → k.sched.current_thread ≢ null
    → 1 ≤ which
    → which < max_irq
    → (acknowledge_user_irq (register_irq_subscriber k which handle) which handle').enabled_irqs
      ≡ (if handle == handle' then which ∷ which ∷ k.enabled_irqs else which ∷ k.enabled_irqs)
unfolding acknowledge_user_irq register_irq_subscriber
acknowledge_user_irq-register_irq_subscriber k which handle handle' h lo hi =
    let usable : is_user_irq which ≡ true = ground arith in
    let there : (k.sched.current_thread == null) ≡ false = ground arith in
    let self : (k.sched.current_thread == k.sched.current_thread) ≡ true = ground arith in
    rw
      (
        usable,
        there,
        update_self k.irq_relay which
            (record { handler = k.sched.current_thread; port_handle = handle; is_active = true }),
        self,
      )
      (elim (Bool-cases (handle == handle')) [ inl e ↦ rw e refl | inr e ↦ rw e refl ])

-- The kernel's message reaches the port that a handle of the process names.
pub record IsTarget (k : Kernel) (process handle p : ℕ) : Type 0 where
  pub in_table : handle < 32
  pub a_port : (k.objects (object_at (k.processes process).handles handle)).type ≡ ObjectType.port
  pub target : (k.objects (object_at (k.processes process).handles handle)).payload ≡ p
  pub real : p ≢ null

-- SendMessage to a handle of a port with a message that fits does what EnqueueMessage does with the
-- message marked as the kernel's and with no reply handle.
pub send_message-enqueue_message :
    (k : Kernel) (process handle p : ℕ) (msg : Message)
    → IsTarget k process handle p
    → msg.payload_length ≤ message_buffer_size
    → send_message k process handle msg
      ≡ enqueue_message k p (record msg { sender = 0; reply_handle = minus_one; reserved = 0 })
unfolding send_message
send_message-enqueue_message k process handle p msg t h =
    ground (arith, t.in_table, t.a_port, t.target, t.real)

-- Putting a message into a queue enables no interrupt.
enabled_irqs-enqueue_message :
    (k : Kernel) (p : ℕ) (msg : Message) → (enqueue_message k p msg).1.enabled_irqs ≡ k.enabled_irqs
unfolding enqueue_message
enabled_irqs-enqueue_message k p msg =
    elim (Bool-cases (leb max_messages_in_port (k.ports p).count)) [
      | inl e ↦ rw e refl
      | inr e ↦ rw e refl
    ]

-- What the relay of an interrupt to a subscriber's port `p` does.
pub record Relayed (k k' : Kernel) (p : ℕ) (m : Message) (handler : ℕ) : Type 0 where
  pub valid : IsPort (k'.ports p)
  pub appended : queue (k'.ports p) ≡ queue (k.ports p) ++ (m ∷ [])
  pub others : (q : ℕ) → q ≢ p → k'.ports q ≡ k.ports q
  pub still_disabled : k'.enabled_irqs ≡ k.enabled_irqs
  pub woken : k'.sched ≡ wake_thread (wake_thread k.sched (k.ports p).owner) handler

-- An interrupt below 16 for which no driver of the kernel has a handler, with an active subscriber, whose
-- handle names a well-formed port with room, is disabled and ended at the controller, puts the kernel's
-- empty message behind those that wait at the port, and wakes the port's owner and the subscriber; it
-- is not enabled again.
pub relay_irq-Relayed :
    (handlers : Handlers) (k : Kernel) (irq p : ℕ)
    → irq < max_irq
    → handlers irq ≡ none
    → (k.irq_relay irq).is_active ≡ true
    → IsTarget k (k.sched.threads (k.irq_relay irq).handler).owner (k.irq_relay irq).port_handle p
    → IsPort (k.ports p)
    → (k.ports p).count < max_messages_in_port
    → ((relay_irq handlers k irq).0 ≡ Control.disable_irq irq ∷ Control.send_eoi irq ∷ [])
      × (old : Message) × Relayed k
          (relay_irq handlers k irq).1
          p
          (copy_message 0
            (record zero_message { sender = 0; reply_handle = minus_one; reserved = 0 })
            old)
          (k.irq_relay irq).handler
unfolding relay_irq relay_to_user
relay_irq-Relayed handlers k irq p h nobody active t v room =
    let relay = k.irq_relay irq in
    let msg : Message = record zero_message {
      sender = 0;
      reply_handle = minus_one;
      reserved = 0;
    } in
    let low : ltb irq max_irq ≡ true = ground arith in
    rw
      (
        low,
        nobody,
        active,
        send_message-enqueue_message k (k.sched.threads relay.handler).owner relay.port_handle p
            zero_message t (omega arith),
      )
      (let (old, done) =
          woken (enqueue_message k p msg) (enqueue_message-Enqueued k p msg v)
            (enabled_irqs-enqueue_message k p msg) in
        (refl, old, done))
  where
    woken :
        (out : Status × Kernel)
        → Enqueued k p
            (record zero_message { sender = 0; reply_handle = minus_one; reserved = 0 })
            out
        → out.1.enabled_irqs ≡ k.enabled_irqs
        → (old : Message) × Relayed k
            (if not (is_ok out.0)
              then out.1
              else record out.1 { sched = wake_thread out.1.sched (k.irq_relay irq).handler })
            p
            (copy_message 0
              (record zero_message { sender = 0; reply_handle = minus_one; reserved = 0 })
              old)
            (k.irq_relay irq).handler
    woken out (Enqueued.refused full) still = absurd (omega (arith, full, room))
    woken out (Enqueued.accepted old k' r d) still = (
      old,
      record {
        valid = d.valid;
        appended = d.appended;
        others = d.others;
        still_disabled = still;
        woken = rw d.woken refl;
      },
    )
