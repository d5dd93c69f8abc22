-- ===== src/Device/Remove.antt =====
-- RemoveDevice of a device below the root.
use dragon_ware.Base.{
  ℕ, zero, suc, ◌≡◌, refl, ap, sym, ◌≢◌, false, List, [], ◌∷◌, ◌++◌, arith, ◌==◌,
}
use dragon_ware.Base.Store.{null, update, update_self, update_ne}
use dragon_ware.Status.{Status}
use dragon_ware.Sched.Chain.{NotIn}
use dragon_ware.Device.{
  DeviceManagerNode, DeviceTree, zeroed_node, find_parent, find_device_parent_of, remove_node,
  remove_children, remove_device,
}
use dragon_ware.Device.Siblings.{Linked}

-- A device of the root's that has no devices of its own, in a tree: no pointer leads to the root, and no other node has
-- the device as its first child.
pub record IsLeaf (t : DeviceTree) (dev : ℕ) : Type 0 where
  pub some_root : t.root ≢ null
  pub some_device : dev ≢ null
  pub not_root : dev ≢ t.root
  pub no_children : (t.nodes dev).child ≡ null
  pub top_child : (q : ℕ) → (t.nodes q).child ≢ t.root
  pub top_next : (q : ℕ) → (t.nodes q).next ≢ t.root
  pub only_child : (q : ℕ) → q ≢ t.root → (t.nodes q).child ≢ dev

-- What removing it leaves: the status says that all is well, but the root's children still hold the device, cleared, and
-- those behind it are gone.
pub record LeavesDangling (t : DeviceTree) (dev : ℕ) (before : List ℕ) (r : Status × DeviceTree)
    : Type 0 where
  pub status : r.0 ≡ Status.ok
  pub children : Linked r.1.nodes (r.1.nodes t.root).child (before ++ dev ∷ [])
  pub cleared : r.1.nodes dev ≡ zeroed_node
  pub others : (q : ℕ) → q ≢ dev → r.1.nodes q ≡ t.nodes q

module _ (t : DeviceTree) (dev : ℕ) (leaf : IsLeaf t dev) where
  find_parent_nothing :
      (fuel node curr : ℕ) → curr ≢ t.root → find_parent fuel t.nodes dev node curr ≡ null
  unfolding find_parent
  find_parent_nothing zero node curr ne = refl
  find_parent_nothing (suc fuel) node curr ne =
      let other : ((t.nodes curr).child == dev) ≡ false = ground (arith, leaf.only_child curr ne) in
      let below = find_parent_nothing fuel curr (t.nodes curr).child (leaf.top_child curr) in
      let rest = find_parent_nothing fuel node (t.nodes curr).next (leaf.top_next curr) in
      ground arith

  remove_children_none : (fuel : ℕ) → remove_children fuel t null ≡ t
  unfolding remove_children
  remove_children_none zero = refl
  remove_children_none (suc fuel) = refl

  remove_node_cleared :
      (fuel : ℕ) → remove_node fuel t dev ≡ record t { nodes = update t.nodes dev zeroed_node }
  unfolding remove_node find_device_parent_of
  remove_node_cleared fuel =
      let nothing =
        find_parent_nothing fuel t.root (t.nodes t.root).child (leaf.top_child t.root) in
      ground arith

  remove_device_leaf :
      (fuel : ℕ)
      → remove_device fuel t dev ≡ (Status.ok, record t { nodes = update t.nodes dev zeroed_node })
  unfolding remove_device
  remove_device_leaf fuel =
      let below = remove_children_none fuel in
      let own = remove_node_cleared fuel in
      let no_children = leaf.no_children in
      let some_device = leaf.some_device in let not_root = leaf.not_root in ground arith

Linked-cut :
    (m : ℕ → DeviceManagerNode) (dev p : ℕ) (before behind : List ℕ)
    → NotIn dev before
    → Linked m p (before ++ dev ∷ behind)
    → Linked (update m dev zeroed_node) p (before ++ dev ∷ [])
Linked-cut m dev p [] behind n (e, some, l) =
    let stop : (update m dev zeroed_node dev).next ≡ null =
      ap (λ (k : DeviceManagerNode). k.next) (update_self m dev zeroed_node) in
    (e, some, stop)
Linked-cut m dev p (x ∷ xs) behind (ne, n) (e, some, l) =
    let same : (update m dev zeroed_node x).next ≡ (m x).next =
      ap (λ (k : DeviceManagerNode). k.next) (update_ne m dev zeroed_node x (λ s. ne (sym s))) in
    (e, some, rw same (Linked-cut m dev (m x).next xs behind n l))

-- RemoveDevice of a device that is a child of the root and has no children, in a tree of devices: says STATUS_OK and
-- clears the node, but leaves it linked, so that it ends the list: the root's children before it and the
-- device stay, and those behind it can no longer be reached. For _FindDeviceParent looks for a node whose
-- child's first child is the device.
pub remove_device-LeavesDangling :
    (fuel : ℕ) (t : DeviceTree) (dev : ℕ) (before behind : List ℕ)
    → IsLeaf t dev
    → Linked t.nodes (t.nodes t.root).child (before ++ dev ∷ behind)
    → NotIn dev before
    → LeavesDangling t dev before (remove_device fuel t dev)
remove_device-LeavesDangling fuel t dev before behind leaf l n =
    let not_root : t.root ≢ dev = λ e. leaf.not_root (sym e) in
    let first : (update t.nodes dev zeroed_node t.root).child ≡ (t.nodes t.root).child =
      ap (λ (k : DeviceManagerNode). k.child) (update_ne t.nodes dev zeroed_node t.root not_root) in
    rw (remove_device_leaf t dev leaf fuel) (record {
      status = refl;
      children = rw first (Linked-cut t.nodes dev (t.nodes t.root).child before behind n l);
      cleared = update_self t.nodes dev zeroed_node;
      others = λ q ne. update_ne t.nodes dev zeroed_node q ne;
    })
