-- ===== src/Kernel/Ipc/Receive.antt =====
-- What _DWIPCReceive does to the queue of messages.
use dragon_ware.Base.{
  ℕ, ◌+◌, ◌≡◌, refl, ◌≢◌, inl, inr, Bool-cases, List, [], ◌∷◌, arith, ◌==◌, get_or,
}
use dragon_ware.Base.Store.{update, update_self, update_ne}
use dragon_ware.Status.{Status}
use dragon_ware.Sched.{block_thread, schedule_next}
use dragon_ware.Kernel.State.{mapped, Kernel, Port, Message, is_ok, sizeof_header}
use dragon_ware.Kernel.UserCopy.{copy_to_user}
use dragon_ware.Kernel.Port.{zero_message}
use dragon_ware.Kernel.Message.{copy_message}
use dragon_ware.Kernel.Message.Ring.{queue, IsPort, dequeued, dequeued-IsPort, queue-dequeued}
use dragon_ware.Kernel.Ipc.{Received, returned, waiting, receive_from}

-- A receive took the front message `m` of port `p`'s queue and left `rest`.
pub record Took (k k' : Kernel) (p : ℕ) (m : Message) (rest : List Message) : Type 0 where
  pub valid : IsPort (k'.ports p)
  pub left : queue (k'.ports p) ≡ rest
  pub others : (q : ℕ) → q ≢ p → k'.ports q ≡ k.ports q

-- What a receive on port `p` does.
pub data Receives (k : Kernel) (p msave : ℕ) : Received → Type 0 where
  blocks :
      (fuel : ℕ)
      → queue (k.ports p) ≡ []
      → Receives k p msave (
          waiting
            (record k { sched = schedule_next fuel (block_thread k.sched k.sched.current_thread) }))
  delivers :
      (m : Message) (rest : List Message) (k' : Kernel)
      → queue (k.ports p) ≡ m ∷ rest
      → Took k k' p m rest
      → copy_to_user (mapped k) msave (sizeof_header + m.payload_length) ≡ Status.ok
      → k'.user msave ≡ copy_message m.payload_length m (k.user msave)
      → Receives k p msave (returned Status.ok k')
  loses :
      (m : Message) (rest : List Message) (k' : Kernel)
      → queue (k.ports p) ≡ m ∷ rest
      → Took k k' p m rest
      → copy_to_user (mapped k) msave (sizeof_header + m.payload_length) ≢ Status.ok
      → k'.user ≡ k.user
      → Receives k p msave (returned Status.bad k')

Took-write :
    (k k' : Kernel) (p : ℕ)
    → IsPort (k.ports p)
    → (k.ports p).count ≢ 0
    → k'.ports ≡ update k.ports p (dequeued (k.ports p))
    → Took k k' p
        (get_or (k.ports p).msgbuf (k.ports p).head zero_message)
        (queue (dequeued (k.ports p)))
Took-write k k' p v h e = record {
  valid = rw (e, update_self k.ports p (dequeued (k.ports p))) (dequeued-IsPort (k.ports p) v h);
  left = rw (e, update_self k.ports p (dequeued (k.ports p))) refl;
  others = λ q ne. rw (e, update_ne k.ports p (dequeued (k.ports p)) q ne);
}

empty_queue : (port : Port) → port.count ≡ 0 → queue port ≡ []
empty_queue port h = rw h refl

-- Receiving on a well-formed port: with no message waiting the thread blocks and the ports stay as
-- they are; else the oldest message leaves the queue, and the user gets its header and the payload up
-- to its length, or STATUS_BAD where the user's buffer is refused, and then the message is lost.
pub receive_from-Receives :
    (fuel : ℕ) (k : Kernel) (p msave : ℕ)
    → IsPort (k.ports p)
    → Receives k p msave (receive_from fuel k p msave)
unfolding receive_from
receive_from-Receives fuel k p msave v = elim (Bool-cases ((k.ports p).count == 0)) [
  | inl none_left ↦ rw none_left (Receives.blocks fuel (empty_queue (k.ports p) (ground arith)))
  | inr some_left ↦
      let m = get_or (k.ports p).msgbuf (k.ports p).head zero_message in
      let h : (k.ports p).count ≢ 0 = ground arith in
      rw some_left
        (elim (Bool-cases
          (is_ok (copy_to_user (mapped k) msave (sizeof_header + m.payload_length)))) [
            | inl fine ↦ rw fine (
                Receives.delivers m _ _ (queue-dequeued (k.ports p) v h) (Took-write k _ p v h refl)
                  (ground arith) (update_self k.user msave _))
            | inr refused ↦ rw refused (
                Receives.loses m _ _ (queue-dequeued (k.ports p) v h) (Took-write k _ p v h refl)
                  (ground arith) refl)
          ])
]
