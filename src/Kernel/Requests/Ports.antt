-- ===== src/Kernel/Requests/Ports.antt =====
-- A port that one object created is what another one opens by its name.
use dragon_ware.Base.{
  ℕ, ◌+◌, ◌≡◌, refl, sym, subst, ◌≢◌, false, List, some, arith, ◌==◌, if◌then◌else◌, take,
}
use dragon_ware.Base.Store.{null, update_self}
use dragon_ware.Status.{Status}
use dragon_ware.Kernel.State.{Kernel, mapped, is_ok}
use dragon_ware.Kernel.UserCopy.{copy_from_user}
use dragon_ware.Kernel.Port.{create_port, find_port_by_name, max_port_name, listed}
use dragon_ware.Kernel.Port.Global.{Created, create_port-Created}
use dragon_ware.Kernel.Requests.{hold, request_port_create, request_port_open}

-- A search by the name that the object finds the port, also once an object holds it.
opened :
    (k : Kernel) (other arg port : ℕ) (name : List ℕ)
    → port ≢ null
    → find_port_by_name k name ≡ port
    → take max_port_name (k.user_names arg) ≡ name
    → copy_from_user (mapped k) arg max_port_name ≡ Status.ok
    → ((request_port_open k other arg).0 ≡ Status.ok)
      × (((request_port_open k other arg).1.objects other).payload ≡ port)
unfolding request_port_open
opened k other arg port name real found same readable =
    let there : (port == null) ≡ false = ground arith in
    rw (readable, same, found, there)
      (
        refl,
        rw
            (update_self k.objects other
              (record (k.objects other) { payload = port; refcnt = (k.objects other).refcnt + 1 }))
            refl,
      )

-- The end of PORT_CREATE.
abbrev finished : ℕ → (Status × ℕ) × Kernel → Status × Kernel
finished obj out = if is_ok out.0.0 then (Status.ok, hold out.1 obj out.0.1) else (out.0.0, out.1)

-- What a creation and an opening by the name come to.
abbrev Opens : ℕ → ℕ → ℕ → List ℕ → Status × Kernel → Type 0
Opens other arg port name out =
    out.0 ≡ Status.ok
    → take max_port_name (out.1.user_names arg) ≡ name
    → copy_from_user (mapped out.1) arg max_port_name ≡ Status.ok
    → ((request_port_open out.1 other arg).0 ≡ Status.ok)
      × (((request_port_open out.1 other arg).1.objects other).payload ≡ port)

finished-Opens :
    (k : Kernel) (obj other arg port node : ℕ) (name : List ℕ)
    → port ≢ null
    → (out : (Status × ℕ) × Kernel) → Created k name port node out
    → Opens other arg port name (finished obj out)
unfolding find_port_by_name
finished-Opens k obj other arg port node name real out (Created.taken e) ok same readable =
    absurd (ground arith)
finished-Opens k obj other arg port node name real out (Created.no_memory e) ok same readable =
    absurd (ground arith)
finished-Opens k obj other arg port node name real out (Created.too_long e) ok same readable =
    absurd (ground arith)
finished-Opens k obj other arg port node name real out (Created.no_node k' e f g) ok same readable =
    absurd (ground arith)
finished-Opens k obj other arg port node name real out (Created.made k' e l found kept) ok same
      readable =
    opened (hold k' obj port) other arg port name real found same readable

-- Where PORT_CREATE of a named object succeeded, at memory that held no listed port, PORT_OPEN by
-- another object with that name, from user memory that can be read, gives it the same port.
pub request_port_open-request_port_create :
    (k : Kernel) (obj other port node arg : ℕ)
    → port ≢ null
    → listed port k.port_list ≡ false
    → (k.objects obj).name ≢ null
    → (request_port_create k obj port node).0 ≡ Status.ok
    → let k' = (request_port_create k obj port node).1 in
      take max_port_name (k'.user_names arg) ≡ k.names (k.objects obj).name
      → copy_from_user (mapped k') arg max_port_name ≡ Status.ok
      → ((request_port_open k' other arg).0 ≡ Status.ok)
        × (((request_port_open k' other arg).1.objects other).payload ≡ port)
unfolding request_port_create
request_port_open-request_port_create k obj other port node arg real fresh named ok same readable =
    let name = k.names (k.objects obj).name in
    let there : ((k.objects obj).name == null) ≡ false = ground arith in
    let created = create_port k (some name) k.sched.current_thread port node in
    let eq : request_port_create k obj port node ≡ finished obj created = rw there refl in
    subst (Opens other arg port name) (sym eq)
      (finished-Opens k obj other arg port node name real created
        (create_port-Created k name k.sched.current_thread port node fresh))
      ok same readable
