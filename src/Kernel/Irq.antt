-- ===== src/Kernel/Irq.antt =====
-- Interrupts that user threads subscribe to, sys/ddk/ia32/irq.c: RegisterIRQSubscriber,
-- AcknowledgeUserIRQ and the relay of IRQHandlerCallback. A mask of the controller is a list of the
-- calls of EnableIRQ.
pub mod Relay
use dragon_ware.Base.{
  ℕ, ◌-◌, ◌^◌, ◌<◌, ◌≡◌, Bool, true, false, List, [], ◌∷◌, Option, none, some, not, ◌&&◌, ◌||◌, ltb,
  leb, ◌==◌, if◌then◌else◌, replicate,
}
use dragon_ware.Base.Store.{null, update}
use dragon_ware.Status.{Status}
use dragon_ware.Sched.{wake_thread}
use dragon_ware.Kernel.State.{Kernel, IrqRelay, Message, is_ok}
use dragon_ware.Kernel.Port.{zero_message}
use dragon_ware.Kernel.Message.{send_message}

-- MAX_IRQ.
abbrev pub max_irq : ℕ
max_irq = 16

-- `inrange(which, 1, MAX_IRQ - 1)`; IRQ 0 is the timer's.
abbrev pub is_user_irq : ℕ → Bool
is_user_irq which = leb which (max_irq - 1) && leb 1 which

unfoldable pub register_irq_subscriber : Kernel → ℕ → ℕ → Kernel
register_irq_subscriber k which port_handle =
    let current = k.sched.current_thread in
    if not (is_user_irq which) then k else if current == null then k else record k {
      irq_relay =
          update k.irq_relay which
            (record { handler = current; port_handle = port_handle; is_active = true });
      enabled_irqs = which ∷ k.enabled_irqs;
    }

unfoldable pub acknowledge_user_irq : Kernel → ℕ → ℕ → Kernel
acknowledge_user_irq k which port_handle =
    let relay = k.irq_relay which in
    if not (is_user_irq which)
    then k
    else if not relay.is_active
    then k
    else if not (relay.handler == k.sched.current_thread)
    then k
    else if not (relay.port_handle == port_handle)
    then k
    else record k { enabled_irqs = which ∷ k.enabled_irqs }

-- What IRQHandlerCallback asks of the controller before it looks for a handler.
pub data Control : Type 0 where
  disable_irq : ℕ → Control
  send_eoi : ℕ → Control

-- The handlers that the kernel's drivers registered, `IRQHandlerCallbacks`; `none` is the null pointer.
abbrev pub Handlers : Type 0
Handlers = ℕ → Option (Kernel → Kernel)

-- The part of IRQHandlerCallback for a subscriber.
unfoldable pub relay_to_user : Kernel → ℕ → Kernel
relay_to_user k irq =
    let relay = k.irq_relay irq in
    let (status, k') =
      send_message k (k.sched.threads relay.handler).owner relay.port_handle zero_message in
    if not relay.is_active
    then k
    else if not (is_ok status)
    then k'
    else record k' { sched = wake_thread k'.sched relay.handler }

-- IRQHandlerCallback: a driver's handler comes before a subscriber, and after it the interrupt is enabled.
unfoldable pub relay_irq : Handlers → Kernel → ℕ → List Control × Kernel
relay_irq handlers k irq = (
  disable_irq irq ∷ send_eoi irq ∷ [],
  (if not (ltb irq max_irq) then k else elim (handlers irq) [
    | some handler ↦ let k' = handler k in record k' { enabled_irqs = irq ∷ k'.enabled_irqs }
    | none ↦ relay_to_user k irq
  ]),
)
