-- ===== src/Device.antt =====
-- The device manager, sys/iomgr/devmgr.c and sys/iomgr/node.c: a tree of nodes in a store, where `child` is
-- a node's first child and `next` its next sibling. Nodes are found by their path.
pub mod Siblings
pub mod Root
pub mod Names
pub mod Path
pub mod Add
pub mod Remove
mod Tests
use dragon_ware.Base.{
  ℕ, zero, suc, ◌+◌, ◌-◌, ◌≤◌, ◌<◌, ◌≡◌, Bool, true, false, List, [], ◌∷◌, ◌++◌, Option, none, some,
  not, ◌&&◌, ◌||◌, ltb, leb, ◌==◌, if◌then◌else◌, length, get_or, take, drop, bit_and,
}
use dragon_ware.Base.Store.{null, update}
use dragon_ware.Status.{Status}
use dragon_ware.Text.Search.{Order, char_at, strncmp, strchr}
use dragon_ware.Text.Compare.{strcmp}

-- MAX_DEVICE_NODE_NAME, and the size of a token of a path.
abbrev pub max_device_node_name : ℕ
max_device_node_name = 96

abbrev pub token_size : ℕ
token_size = 100

-- `DeviceManagerNode`. The name is the text before its terminator.
pub record DeviceManagerNode : Type 0 where
  pub name : List ℕ
  pub claimed : Bool
  pub class : ℕ
  pub private_state : ℕ
  pub child : ℕ
  pub next : ℕ

-- The nodes, `root`, and the output devices that were announced, the oldest first.
pub record DeviceTree : Type 0 where
  pub nodes : ℕ → DeviceManagerNode
  pub root : ℕ
  pub outputs : List ℕ

abbrev pub zeroed_node : DeviceManagerNode
zeroed_node = record {
  name = [];
  claimed = false;
  class = 0;
  private_state = null;
  child = null;
  next = null;
}

abbrev pub root_device_name : List ℕ
root_device_name = b'D' ∷ b'e' ∷ b'v' ∷ b'i' ∷ b'c' ∷ b'e' ∷ b's' ∷ []

-- InitDeviceManager; `m` is what kzalloc returns.
unfoldable pub init_device_manager : DeviceTree → ℕ → Status × DeviceTree
init_device_manager t m =
    if not (t.root == null)
    then (Status.ok, t)
    else if m == null
    then (Status.out_of_memory, record t { root = null })
    else (
      Status.ok,
      record t {
        nodes = update t.nodes m (record zeroed_node { name = root_device_name });
        root = m;
      },
    )

-- MakeDeviceNode of a name that is not the null pointer: the node, at `m`.
unfoldable pub make_device_node : DeviceTree → List ℕ → ℕ → ℕ → ℕ × DeviceTree
make_device_node t name class m =
    if length name == 0
    then (null, t)
    else if ltb max_device_node_name (length name)
    then (null, t)
    else if m == null
    then (null, t)
    else (
      m,
      record t {
        nodes =
            update t.nodes m
              (record zeroed_node { name = take (max_device_node_name - 1) name; class = class });
      },
    )

-- The inner loop of GetDeviceFromPath, on fuel: the sibling from `p` on with that name, or the null pointer.
unfoldable pub find_sibling : ℕ → (ℕ → DeviceManagerNode) → List ℕ → ℕ → ℕ
find_sibling zero nodes token p = p
find_sibling (suc fuel) nodes token p =
    let rest = find_sibling fuel nodes token (nodes p).next in
    if p == null then null else elim (strcmp (nodes p).name token) [ Order.same ↦ p | _ ↦ rest ]

-- The loops that skip slashes, and that end a token.
unfoldable pub skip_slashes : List ℕ → List ℕ
skip_slashes [] = []
skip_slashes (c ∷ s) = if c == b'/' then skip_slashes s else c ∷ s

unfoldable pub token_length : List ℕ → ℕ
token_length [] = 0
token_length (c ∷ s) = if c == b'/' then 0 else suc (token_length s)

-- The outer loop, over the rest of the path, on fuel; `siblings` is fuel for each inner loop.
unfoldable pub walk_path : ℕ → ℕ → (ℕ → DeviceManagerNode) → List ℕ → ℕ → ℕ
walk_path zero siblings nodes start node = node
walk_path (suc fuel) siblings nodes start node =
    let s = skip_slashes start in
    let len = token_length s in
    let child = find_sibling siblings nodes (take len s) (nodes node).child in
    let rest = walk_path fuel siblings nodes (drop len s) child in
    if length start == 0
    then node
    else if length s == 0
    then node
    else if leb token_size len
    then null
    else if child == null
    then null
    else rest

-- The length of the text before the slash that strchr found, or of all of it, and what is behind.
abbrev pub first_length : Option ℕ → List ℕ → ℕ
first_length (some i) start = i
first_length none start = length start

abbrev pub behind_first : Option ℕ → List ℕ → List ℕ
behind_first (some i) start = drop (i + 1) start
behind_first none start = drop (length start) start

-- Where the walk begins: behind the name of the root, if the path begins with it.
unfoldable pub after_root : List ℕ → List ℕ → List ℕ
after_root name start =
    let next_slash = strchr start b'/' in
    let first_len = first_length next_slash start in
    let behind = behind_first next_slash start in
    let same : Bool = elim (strncmp start name first_len 0) [ Order.same ↦ true | _ ↦ false ] in
    if ltb 0 first_len && same && char_at name first_len == 0 then behind else start

unfoldable pub get_device_from_path : ℕ → DeviceTree → List ℕ → ℕ
get_device_from_path siblings t path =
    let start = after_root (t.nodes t.root).name (drop 1 path) in
    if length path == 0 || not (get_or path 0 0 == b'/')
    then null
    else walk_path (length start) siblings t.nodes start t.root

-- SupportsClass for a framebuffer or a console.
abbrev pub is_output : DeviceManagerNode → Bool
is_output n = not (bit_and n.class 1 == 0) || not (bit_and n.class 2 == 0)

-- The loop of AddDevice that finds the last sibling, on fuel.
unfoldable pub last_sibling : ℕ → (ℕ → DeviceManagerNode) → ℕ → ℕ
last_sibling zero nodes iter = iter
last_sibling (suc fuel) nodes iter =
    let rest = last_sibling fuel nodes (nodes iter).next in
    if (nodes iter).next == null then iter else rest

-- AddDevice; the null pointer as parent stands for the root.
unfoldable pub add_device : ℕ → DeviceTree → ℕ → ℕ → DeviceTree
add_device siblings t parent new_node =
    let actual = if parent == null then t.root else parent in
    let n = t.nodes new_node in
    let nodes = update t.nodes new_node (record n { next = null }) in
    let outputs = if is_output n then t.outputs ++ (new_node ∷ []) else t.outputs in
    let last = last_sibling siblings nodes (nodes actual).child in
    if actual == null
    then t
    else if (nodes actual).child == null
    then record t {
      nodes = update nodes actual (record (nodes actual) { child = new_node });
      outputs = outputs;
    }
    else record t {
      nodes = update nodes last (record (nodes last) { next = new_node });
      outputs = outputs;
    }

-- _FindDeviceParent, on fuel, as a search of the children of `node` from `curr` on: the child's own child,
-- then the nodes below it, then the next.
unfoldable pub find_parent : ℕ → (ℕ → DeviceManagerNode) → ℕ → ℕ → ℕ → ℕ
find_parent zero nodes dev node curr = null
find_parent (suc fuel) nodes dev node curr =
    let below = find_parent fuel nodes dev curr (nodes curr).child in
    let rest = find_parent fuel nodes dev node (nodes curr).next in
    if curr == null
    then null
    else if (nodes curr).child == dev
    then node
    else if not (below == null)
    then below
    else rest

unfoldable pub find_device_parent_of : ℕ → DeviceTree → ℕ → ℕ
find_device_parent_of fuel t dev =
    if t.root == null || dev == null
    then null
    else find_parent fuel t.nodes dev t.root (t.nodes t.root).child

-- The loop of RemoveDevice that takes a device off its siblings, from sibling `p` on: the store. `link` writes the
-- pointer that led to `p`.
unfoldable pub unlink :
    ℕ → (ℕ → DeviceManagerNode) → ℕ → (ℕ → ℕ → DeviceManagerNode) → ℕ → ℕ → DeviceManagerNode
unlink zero nodes dev link p = nodes
unlink (suc fuel) nodes dev link p =
    let rest =
      unlink fuel nodes dev (λ q. update nodes p (record (nodes p) { next = q })) (nodes p).next in
    if p == null then nodes else if p == dev then link (nodes dev).next else rest

-- What RemoveDevice does once the children of the device are removed: unlinks it from the parent that was found,
-- and clears and frees it.
unfoldable pub remove_node : ℕ → DeviceTree → ℕ → DeviceTree
remove_node fuel t dev =
    let parent = find_device_parent_of fuel t dev in
    let nodes =
      if parent == null
      then t.nodes
      else unlink fuel t.nodes dev
          (λ q. update t.nodes parent (record (t.nodes parent) { child = q }))
          (t.nodes parent).child in
    record t { nodes = update nodes dev zeroed_node }

-- The recursion of RemoveDevice over the device's children, on fuel: the children from `c` on, each
-- after its own children. The next sibling is read before a child is removed.
unfoldable pub remove_children : ℕ → DeviceTree → ℕ → DeviceTree
remove_children zero t c = t
remove_children (suc fuel) t c =
    let next = (t.nodes c).next in
    let below = remove_children fuel t (t.nodes c).child in
    let rest = remove_children fuel (if c == t.root then t else remove_node fuel below c) next in
    if c == null then t else rest

unfoldable pub remove_device : ℕ → DeviceTree → ℕ → Status × DeviceTree
remove_device fuel t dev =
    if dev == null || dev == t.root
    then (Status.bad_argument, t)
    else (Status.ok, remove_node fuel (remove_children fuel t (t.nodes dev).child) dev)

-- RenameDeviceNode.
unfoldable pub rename_device_node : DeviceTree → ℕ → List ℕ → DeviceTree
rename_device_node t dev new_name = record t {
  nodes =
      update t.nodes dev (record (t.nodes dev) { name = take (max_device_node_name - 1) new_name });
}
