-- ===== src/Device/Tests.antt =====
-- Devices at small examples: below the root at 1 the devices "a" at 2, with the child "b" at 4, and "c" at 3.
use dragon_ware.Base.{
  ℕ, ◌≡◌, refl, ◌≢◌, Bool, true, false, List, [], ◌∷◌, arith, ◌==◌, if◌then◌else◌,
}
use dragon_ware.Base.Store.{null, update}
use dragon_ware.Text.Search.{strchr, strchr_loop, strncmp}
use dragon_ware.Text.Search.Laws.{IsText}
use dragon_ware.Text.Compare.{strcmp, strcmp_loop}
use dragon_ware.Device.{
  DeviceManagerNode, DeviceTree, zeroed_node, root_device_name, find_sibling, skip_slashes,
  token_length, walk_path, after_root, get_device_from_path, add_device, remove_device,
}
use dragon_ware.Device.Names.{IsTree}
use dragon_ware.Device.Path.{FindsDevice, get_device_from_path-FindsDevice}
use dragon_ware.Device.Add.{AddsDevice, add_device-AddsDevice}
use dragon_ware.Device.Remove.{IsLeaf, LeavesDangling, remove_device-LeavesDangling}

abbrev node_of : List ℕ → ℕ → ℕ → DeviceManagerNode
node_of name child next = record zeroed_node { name = name; child = child; next = next }

abbrev nodes : ℕ → DeviceManagerNode
nodes p =
    if p == 1
    then node_of root_device_name 2 null
    else if p == 2
    then node_of (97 ∷ []) 4 3
    else if p == 3
    then record (node_of (99 ∷ []) null null) { class = 2 }
    else if p == 4
    then node_of (98 ∷ []) null null
    else if p == 5
    then record (node_of (100 ∷ []) null 9) { class = 2 }
    else zeroed_node

abbrev tree : DeviceTree
tree = record { nodes = nodes; root = 1; outputs = 3 ∷ [] }

abbrev children_of : ℕ → List ℕ
children_of p = if p == 1 then 2 ∷ 3 ∷ [] else if p == 2 then 4 ∷ [] else []

abbrev AllNonzero : List ℕ → Type 0
AllNonzero [] = Unit {0}
AllNonzero (c ∷ s) = (c ≢ 0) × AllNonzero s

IsText-nonzero : (s : List ℕ) → AllNonzero s → IsText s
IsText-nonzero [] h = IsText.nil
IsText-nonzero (c ∷ s) (ne, h) = IsText.cons ne (IsText-nonzero s h)

IsText-if :
    (b : Bool) (n m : DeviceManagerNode)
    → IsText n.name
    → IsText m.name
    → IsText (if b then n else m).name
IsText-if true n m t u = t
IsText-if false n m t u = u

name_IsText : (p : ℕ) → IsText (nodes p).name
name_IsText p = IsText-if (p == 1) _ _ (IsText-nonzero root_device_name (omega arith)) (
    IsText-if (p == 2) _ _ (IsText-nonzero (97 ∷ []) (omega arith)) (
      IsText-if (p == 3) _ _ (IsText-nonzero (99 ∷ []) (omega arith)) (
        IsText-if (p == 4) _ _ (IsText-nonzero (98 ∷ []) (omega arith))
          (IsText-if (p == 5) _ _ (IsText-nonzero (100 ∷ []) (omega arith)) IsText.nil))))

nodes-IsTree : IsTree 3 nodes
nodes-IsTree = record {
  children = children_of;
  linked = λ p. ground arith;
  bounded = λ p. ground arith;
  named = name_IsText;
}

-- "/a/b" and "/Devices/c"; but "/Devices/a/b" is not found.
finds_b : get_device_from_path 3 tree (47 ∷ 97 ∷ 47 ∷ 98 ∷ []) ≡ 4
unfolding get_device_from_path walk_path after_root find_sibling skip_slashes token_length strcmp
    strcmp_loop strchr strchr_loop strncmp
finds_b = refl

finds_c :
    get_device_from_path 3 tree (47 ∷ 68 ∷ 101 ∷ 118 ∷ 105 ∷ 99 ∷ 101 ∷ 115 ∷ 47 ∷ 99 ∷ []) ≡ 3
unfolding get_device_from_path walk_path after_root find_sibling skip_slashes token_length strcmp
    strcmp_loop strchr strchr_loop strncmp
finds_c = refl

loses_b :
    get_device_from_path 3 tree
      (47 ∷ 68 ∷ 101 ∷ 118 ∷ 105 ∷ 99 ∷ 101 ∷ 115 ∷ 47 ∷ 97 ∷ 47 ∷ 98 ∷ [])
    ≡ null
unfolding get_device_from_path walk_path after_root find_sibling skip_slashes token_length strcmp
    strcmp_loop strchr strchr_loop strncmp
loses_b = refl

get_device_from_path-FindsDevice_example :
    FindsDevice tree (47 ∷ 97 ∷ 47 ∷ 98 ∷ []) (get_device_from_path 3 tree (47 ∷ 97 ∷ 47 ∷ 98 ∷ []))
get_device_from_path-FindsDevice_example =
    get_device_from_path-FindsDevice 3 tree (47 ∷ 97 ∷ 47 ∷ 98 ∷ []) nodes-IsTree (
      IsText.cons (omega arith) (
        IsText.cons (omega arith)
          (IsText.cons (omega arith) (IsText.cons (omega arith) IsText.nil))))

add_device-AddsDevice_example : AddsDevice tree 1 5 (2 ∷ 3 ∷ []) (add_device 3 tree null 5)
add_device-AddsDevice_example =
    add_device-AddsDevice 3 tree null 5 (2 ∷ 3 ∷ []) (omega arith) (omega arith) (omega arith)
      (omega arith) (omega arith) (omega arith) (omega arith) (omega arith)

-- The device at 3 is without children; the one at 6 would be behind it.
abbrev nodes' : ℕ → DeviceManagerNode
nodes' = update nodes 3 (record (nodes 3) { next = 6 })

abbrev tree' : DeviceTree
tree' = record tree { nodes = nodes' }

leaf : IsLeaf tree' 3
leaf = record {
  some_root = omega arith;
  some_device = omega arith;
  not_root = omega arith;
  no_children = refl;
  top_child = λ q. ground arith;
  top_next = λ q. ground arith;
  only_child = λ q ne. ground arith;
}

remove_device-LeavesDangling_example : LeavesDangling tree' 3 (2 ∷ []) (remove_device 9 tree' 3)
remove_device-LeavesDangling_example =
    remove_device-LeavesDangling 9 tree' 3 (2 ∷ []) (6 ∷ []) leaf (omega arith) (omega arith)
