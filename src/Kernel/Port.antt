-- ===== src/Kernel/Port.antt =====
-- Ports, sys/iomgr/port.c: the list of global ports and their creation, search and deletion.
-- kmalloc is a parameter of each call: the address that it returns, or the null pointer. Names are
-- lists of character codes with no terminator, `none` for the null pointer.
pub mod Global
use dragon_ware.Base.{
  ℕ, zero, suc, ◌+◌, ◌≤◌, ◌<◌, ◌≡◌, Bool, true, false, List, [], ◌∷◌, Option, none, some, not, ◌&&◌,
  leb, ◌==◌, if◌then◌else◌, length, replicate, take,
}
use dragon_ware.Base.Store.{null, update}
use dragon_ware.Status.{Status}
use dragon_ware.Kernel.State.{Kernel, Port, Message, write_port, minus_one}

abbrev pub max_port_name : ℕ
max_port_name = 48

abbrev pub max_messages_in_port : ℕ
max_messages_in_port = 12

abbrev pub zero_message : Message
zero_message = record {
  msgid = 0;
  reply_handle = 0;
  sender = 0;
  type = 0;
  protocol = 0;
  payload_length = 0;
  reserved = 0;
  payload = replicate 256 0;
}

-- `strncmp(a, b, n) == 0` on terminated names: they agree on the first `n` characters, or up to the
-- end of both.
unfoldable pub same_name : ℕ → List ℕ → List ℕ → Bool
same_name zero a b = true
same_name (suc n) [] [] = true
same_name (suc n) [] (c ∷ b) = false
same_name (suc n) (c ∷ a) [] = false
same_name (suc n) (c ∷ a) (d ∷ b) = c == d && same_name n a b

-- The loop of FindPortByName.
unfoldable pub find_port : (ℕ → Port) → List ℕ → List ℕ → ℕ
find_port ports name [] = null
find_port ports name (p ∷ rest) =
    if same_name max_port_name (ports p).name name then p else find_port ports name rest

unfoldable pub find_port_by_name : Kernel → List ℕ → ℕ
find_port_by_name k name = find_port k.ports name k.port_list

-- A port as CreatePort leaves it. The name of an anonymous port is not written: it stays what the
-- memory held.
abbrev pub new_port : Kernel → ℕ → Option (List ℕ) → ℕ → Port
new_port k port name owner = record {
  msgbuf = replicate max_messages_in_port zero_message;
  head = 0;
  tail = 0;
  count = 0;
  name = elim name [ none ↦ (k.ports port).name | some text ↦ text ];
  owner = owner;
}

-- The body of CreatePort for a global port; `port` and `node` are the results of its two kmalloc
-- calls. A name that is too long returns after the port was allocated, and does not free it.
unfoldable pub create_global_port : Kernel → List ℕ → ℕ → ℕ → ℕ → (Status × ℕ) × Kernel
create_global_port k name owner port node =
    if not (find_port_by_name k name == null)
    then ((Status.unsupported, null), k)
    else if port == null
    then ((Status.out_of_memory, null), k)
    else if leb max_port_name (length name)
    then ((Status.bad_argument, null), k)
    else let k' = write_port k port (new_port k port (some name) owner) in
      if node == null
      then ((Status.out_of_memory, null), record k' { freed = port ∷ k'.freed })
      else ((Status.ok, port), record k' { port_list = port ∷ k'.port_list })

unfoldable pub create_anonymous_port : Kernel → ℕ → ℕ → (Status × ℕ) × Kernel
create_anonymous_port k owner port =
    if port == null
    then ((Status.out_of_memory, null), k)
    else ((Status.ok, port), write_port k port (new_port k port none owner))

-- The status, and the pointer that goes through `portsave` where that is STATUS_OK.
unfoldable pub create_port : Kernel → Option (List ℕ) → ℕ → ℕ → ℕ → (Status × ℕ) × Kernel
create_port k none owner port node = create_anonymous_port k owner port
create_port k (some name) owner port node = create_global_port k name owner port node

abbrev pub drop_first : ℕ → List ℕ → List ℕ
drop_first p [] = []
drop_first p (q ∷ rest) = if q == p then rest else q ∷ drop_first p rest

abbrev pub listed : ℕ → List ℕ → Bool
listed p [] = false
listed p (q ∷ rest) = let more = listed p rest in if q == p then true else more

-- DeletePort unlinks and frees the first node of the list that holds the port; a port that is not in
-- the list is neither unlinked nor freed. (The list node, freed too, has no pointer in the model.)
unfoldable pub delete_port : Kernel → ℕ → Kernel
delete_port k p =
    if listed p k.port_list
    then record k { port_list = drop_first p k.port_list; freed = p ∷ k.freed }
    else k
