-- ===== src/Kernel/Message/Ring.antt =====
-- The ring of a port as a queue: what is sent goes to its end, and what is received is its front.
use dragon_ware.Base.{
  ℕ, zero, suc, ◌+◌, ◌-◌, ◌%◌, ◌≤◌, ◌<◌, ◌≡◌, refl, ap, ap₂, sym, ◌≢◌, inl, inr, Bool-cases, List,
  [], ◌∷◌, ◌++◌, arith, leb, length, length-set, get_or, set,
}
use dragon_ware.Base.Store.{update, update_self, update_ne}
use dragon_ware.Base.Arrays.{get_or-set}
use dragon_ware.Status.{Status}
use dragon_ware.Sched.{wake_thread}
use dragon_ware.Kernel.State.{Kernel, Port, Message}
use dragon_ware.Kernel.Port.{max_messages_in_port, zero_message}
use dragon_ware.Kernel.Message.{copy_message, enqueued, enqueue_message}

-- `n` messages of the ring from index `h` on.
abbrev pub window : List Message → ℕ → ℕ → List Message
window buf zero h = []
window buf (suc n) h = get_or buf (h % max_messages_in_port) zero_message ∷ window buf n (h + 1)

-- The messages that wait in a port, the oldest first.
abbrev pub queue : Port → List Message
queue port = window port.msgbuf port.count port.head

pub record IsPort (port : Port) : Type 0 where
  pub slots : length port.msgbuf ≡ max_messages_in_port
  pub head_in : port.head < max_messages_in_port
  pub room : port.count ≤ max_messages_in_port
  pub tail_at : port.tail ≡ (port.head + port.count) % max_messages_in_port

-- A write outside a window leaves it, and one just behind it makes it longer.
window-set :
    (buf : List Message) (m : Message) (n h t : ℕ)
    → length buf ≡ max_messages_in_port
    → n < max_messages_in_port
    → t ≡ (h + n) % max_messages_in_port
    → window (set buf t m) (suc n) h ≡ window buf n h ++ (m ∷ [])
window-set buf m zero h t len small e =
    ap (λ x. x ∷ []) (ground (arith, get_or-set buf t m (h % max_messages_in_port) zero_message))
window-set buf m (suc n) h t len small e =
    ap₂ ◌∷◌ (ground (arith, get_or-set buf t m (h % max_messages_in_port) zero_message))
      (window-set buf m n (h + 1) t len (omega arith) (omega arith))

pub enqueued-IsPort :
    (port : Port) (m : Message)
    → IsPort port
    → port.count < max_messages_in_port
    → IsPort (enqueued port m)
enqueued-IsPort port m v h = record {
  slots = omega (arith, v.slots, length-set port.msgbuf port.tail m);
  head_in = v.head_in;
  room = omega arith;
  tail_at = omega arith;
}

pub queue-enqueued :
    (port : Port) (m : Message)
    → IsPort port
    → port.count < max_messages_in_port
    → queue (enqueued port m) ≡ queue port ++ (m ∷ [])
queue-enqueued port m v h =
    let one : port.count + 1 ≡ suc port.count = omega arith in
    rw one (window-set port.msgbuf m port.count port.head port.tail v.slots h v.tail_at)

-- The port once its oldest message is taken.
abbrev pub dequeued : Port → Port
dequeued port = record port {
  head = (port.head + 1) % max_messages_in_port;
  count = port.count - 1;
}

window-wrap :
    (buf : List Message) (n h k : ℕ)
    → h % max_messages_in_port ≡ k % max_messages_in_port
    → window buf n h ≡ window buf n k
window-wrap buf zero h k e = refl
window-wrap buf (suc n) h k e =
    ap₂ ◌∷◌ (ap (λ i. get_or buf i zero_message) e)
      (window-wrap buf n (h + 1) (k + 1) (omega arith))

pub dequeued-IsPort : (port : Port) → IsPort port → port.count ≢ 0 → IsPort (dequeued port)
dequeued-IsPort port v h = record {
  slots = v.slots;
  head_in = omega arith;
  room = omega arith;
  tail_at = omega arith;
}

window_front :
    (buf : List Message) (n h k : ℕ)
    → n ≢ 0
    → k % max_messages_in_port ≡ (h + 1) % max_messages_in_port
    → h < max_messages_in_port
    → window buf n h ≡ get_or buf h zero_message ∷ window buf (n - 1) k
window_front buf zero h k ne e lt = absurd (ne refl)
window_front buf (suc n) h k ne e lt =
    let same : h % max_messages_in_port ≡ h = omega arith in
    let pred : suc n - 1 ≡ n = omega arith in
    rw pred
      (ap₂ ◌∷◌ (ap (λ i. get_or buf i zero_message) same) (window-wrap buf n (h + 1) k (sym e)))

pub queue-dequeued :
    (port : Port)
    → IsPort port
    → port.count ≢ 0
    → queue port ≡ get_or port.msgbuf port.head zero_message ∷ queue (dequeued port)
queue-dequeued port v h =
    window_front port.msgbuf port.count port.head ((port.head + 1) % max_messages_in_port) h
      (omega arith) v.head_in

-- Message `m` has been delivered to port `p`: it waits behind the others, the port is well formed, no
-- other port has changed, and the owner's thread has been woken.
pub record Delivered (k k' : Kernel) (p : ℕ) (m : Message) : Type 0 where
  pub valid : IsPort (k'.ports p)
  pub appended : queue (k'.ports p) ≡ queue (k.ports p) ++ (m ∷ [])
  pub others : (q : ℕ) → q ≢ p → k'.ports q ≡ k.ports q
  pub woken : k'.sched ≡ wake_thread k.sched (k.ports p).owner

pub Delivered-write :
    (k k' : Kernel) (p : ℕ) (m : Message)
    → IsPort (k.ports p)
    → (k.ports p).count < max_messages_in_port
    → k'.ports ≡ update k.ports p (enqueued (k.ports p) m)
    → k'.sched ≡ wake_thread k.sched (k.ports p).owner
    → Delivered k k' p m
Delivered-write k k' p m v h e w = record {
  valid =
      rw (e, update_self k.ports p (enqueued (k.ports p) m)) (enqueued-IsPort (k.ports p) m v h);
  appended =
      rw (e, update_self k.ports p (enqueued (k.ports p) m)) (queue-enqueued (k.ports p) m v h);
  others = λ q ne. rw (e, update_ne k.ports p (enqueued (k.ports p) m) q ne);
  woken = w;
}

-- What EnqueueMessage does on a well-formed port.
pub data Enqueued (k : Kernel) (p : ℕ) (new : Message) : Status × Kernel → Type 0 where
  refused : (k.ports p).count ≡ max_messages_in_port → Enqueued k p new (Status.msgqueue_full, k)
  accepted :
      (old : Message) (k' : Kernel)
      → (k.ports p).count < max_messages_in_port
      → Delivered k k' p (copy_message new.payload_length new old)
      → Enqueued k p new (Status.ok, k')

-- EnqueueMessage on a well-formed port: with twelve messages waiting it refuses and changes nothing;
-- else it delivers the message, with the payload up to its length and stale bytes behind.
pub enqueue_message-Enqueued :
    (k : Kernel) (p : ℕ) (new : Message)
    → IsPort (k.ports p)
    → Enqueued k p new (enqueue_message k p new)
unfolding enqueue_message
enqueue_message-Enqueued k p new v =
    elim (Bool-cases (leb max_messages_in_port (k.ports p).count)) [
      | inl e ↦ rw e (Enqueued.refused (ground (arith, v.room)))
      | inr e ↦
          let old = get_or (k.ports p).msgbuf (k.ports p).tail zero_message in
          let m = copy_message new.payload_length new old in
          rw e (
            Enqueued.accepted old _ (ground arith)
              (Delivered-write k _ p m v (ground arith) refl refl))
    ]
