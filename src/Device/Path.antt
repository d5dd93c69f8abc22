-- ===== src/Device/Path.antt =====
-- Which device GetDeviceFromPath finds.
use dragon_ware.Base.{
  ℕ, zero, suc, ◌≤◌, ◌<◌, ◌≡◌, refl, subst, ap, sym, ◌≢◌, inl, inr, Bool-cases, List, [], ◌∷◌, ◌++◌,
  arith, leb, ◌==◌, length, length-drop, take, drop, take-append-drop,
}
use dragon_ware.Base.Store.{null}
use dragon_ware.Text.Search.Laws.{IsText}
use dragon_ware.Device.{
  DeviceManagerNode, DeviceTree, token_size, find_sibling, skip_slashes, token_length, walk_path,
  after_root, get_device_from_path,
}
use dragon_ware.Device.Siblings.{find_sibling-FirstNamed}
use dragon_ware.Device.Root.{StartsAt, after_root-StartsAt}
use dragon_ware.Device.Names.{
  Names, IsTree, skip_slashes-Names, length-skip_slashes, IsText-skip_slashes, token_positive,
  take-NoSlashes, drop-Ended, IsText-take, IsText-drop, length-take_token, length_zero, Descends,
}

module _ (siblings : ℕ) (nodes : ℕ → DeviceManagerNode) where
  abbrev token_of : List ℕ → List ℕ
  token_of start = let s = skip_slashes start in take (token_length s) s

  abbrev rest_of : List ℕ → List ℕ
  rest_of start = let s = skip_slashes start in drop (token_length s) s

  abbrev child_of : List ℕ → ℕ → ℕ
  child_of start node = find_sibling siblings nodes (token_of start) (nodes node).child

  walk_path_end :
      (fuel : ℕ) (start : List ℕ) (node : ℕ)
      → length (skip_slashes start) ≡ 0
      → walk_path fuel siblings nodes start node ≡ node
  unfolding walk_path
  walk_path_end zero start node e = refl
  walk_path_end (suc fuel) start node e = ground arith

  walk_path_long :
      (fuel : ℕ) (start : List ℕ) (node : ℕ)
      → length start ≢ 0
      → length (skip_slashes start) ≢ 0
      → token_size ≤ token_length (skip_slashes start)
      → walk_path (suc fuel) siblings nodes start node ≡ null
  unfolding walk_path
  walk_path_long fuel start node more text long = ground arith

  walk_path_lost :
      (fuel : ℕ) (start : List ℕ) (node : ℕ)
      → length start ≢ 0
      → length (skip_slashes start) ≢ 0
      → child_of start node ≡ null
      → walk_path (suc fuel) siblings nodes start node ≡ null
  unfolding walk_path
  walk_path_lost fuel start node more text none_there = ground arith

  walk_path_down :
      (fuel : ℕ) (start : List ℕ) (node : ℕ)
      → length start ≢ 0
      → length (skip_slashes start) ≢ 0
      → token_length (skip_slashes start) < token_size
      → child_of start node ≢ null
      → walk_path (suc fuel) siblings nodes start node
        ≡ walk_path fuel siblings nodes (rest_of start) (child_of start node)
  unfolding walk_path
  walk_path_down fuel start node more text short found = ground arith

  Names-token :
      (start : List ℕ) {ts : List (List ℕ)}
      → length (skip_slashes start) ≢ 0
      → Names (rest_of start) ts
      → Names start (token_of start ∷ ts)
  Names-token start {ts} text n =
      let s : List ℕ = skip_slashes start in
      let some_text : skip_slashes start ≢ [] = λ e. text (ap length e) in
      skip_slashes-Names start _ (
        Names.name (sym (take-append-drop (token_length s) s))
          (λ e.
            let z = ap length e in
            absurd (omega (arith, length-take_token s, token_positive start some_text)))
          (take-NoSlashes s) (drop-Ended s) n)

  length-rest_of :
      (start : List ℕ) → length (skip_slashes start) ≢ 0 → length (rest_of start) < length start
  length-rest_of start text =
      let s : List ℕ = skip_slashes start in
      omega (
        arith,
        length-drop (token_length s) s,
        length-skip_slashes start,
        token_positive start (λ e. text (ap length e)),
      )

  Names-nothing : (start : List ℕ) → length (skip_slashes start) ≡ 0 → Names start []
  Names-nothing start e =
      skip_slashes-Names start [] (rw (length_zero (skip_slashes start) e) Names.none_left)

  -- Every path has names.
  Names-total : (n : ℕ) (s : List ℕ) → length s ≤ n → (ts : List (List ℕ)) × Names s ts
  Names-total zero s h = ([], Names-nothing s (omega (arith, length-skip_slashes s)))
  Names-total (suc n) s h = elim (Bool-cases (length (skip_slashes s) == 0)) [
    | inl nothing ↦ ([], Names-nothing s (ground arith))
    | inr something ↦
        let text : length (skip_slashes s) ≢ 0 = ground arith in
        let (ts, names) = Names-total n (rest_of s) (omega (arith, length-rest_of s text)) in
        (token_of s ∷ ts, Names-token s text names)
  ]

  pub walk_path-Descends :
      (fuel : ℕ) (start : List ℕ) (node : ℕ)
      → IsTree siblings nodes
      → IsText start
      → length start ≤ fuel
      → (ts : List (List ℕ)) × Names start ts
        × Descends nodes node ts (walk_path fuel siblings nodes start node)
  walk_path-Descends zero start node tree t h =
      let e : length (skip_slashes start) ≡ 0 = omega (arith, length-skip_slashes start) in
      ([], Names-nothing start e, rw (walk_path_end zero start node e) Descends.arrived)
  walk_path-Descends (suc fuel) start node tree t h =
      elim (Bool-cases (length (skip_slashes start) == 0)) [
        | inl nothing ↦
            let e : length (skip_slashes start) ≡ 0 = ground arith in
            ([], Names-nothing start e, rw (walk_path_end (suc fuel) start node e) Descends.arrived)
        | inr something ↦
            let text : length (skip_slashes start) ≢ 0 = ground arith in
            let more : length start ≢ 0 = omega (arith, length-skip_slashes start) in
            let size = length-take_token (skip_slashes start) in
            let (ts, names) =
              Names-total (length start) (rest_of start)
                (omega (arith, length-rest_of start text)) in
            let first =
              find_sibling-FirstNamed nodes siblings (token_of start) (nodes node).child
                (tree.children node) tree.named
                (IsText-take (token_length (skip_slashes start)) (skip_slashes start)
                  (IsText-skip_slashes start t))
                (tree.linked node) (tree.bounded node) in
            elim (Bool-cases (leb token_size (token_length (skip_slashes start)))) [
              | inl long ↦ (
                token_of start ∷ ts,
                Names-token start text names,
                rw (walk_path_long fuel start node more text (ground arith))
                    (Descends.too_long (ground (arith, size))),
              )
              | inr short ↦ elim (Bool-cases (child_of start node == null)) [
                | inl out ↦
                    let e : child_of start node ≡ null = ground arith in
                    (
                      token_of start ∷ ts,
                      Names-token start text names,
                      rw (walk_path_lost fuel start node more text e)
                          (Descends.lost (tree.children node) (tree.linked node) (rw e at first)),
                    )
                | inr found ↦
                    let ne : child_of start node ≢ null = ground arith in
                    let (ts', names', there) =
                      walk_path-Descends fuel (rest_of start) (child_of start node) tree
                        (IsText-drop (token_length (skip_slashes start)) (skip_slashes start)
                          (IsText-skip_slashes start t))
                        (omega (arith, length-rest_of start text)) in
                    (
                      token_of start ∷ ts',
                      Names-token start text names',
                      rw (walk_path_down fuel start node more text (ground arith) ne) (
                          Descends.down (tree.children node) (ground (arith, size))
                            (tree.linked node) first ne there),
                    )
              ]
            ]
      ]

-- What GetDeviceFromPath of a path finds.
pub data FindsDevice (t : DeviceTree) (path : List ℕ) : ℕ → Type 0 where
  no_path : path ≡ [] → FindsDevice t path null
  relative : {c : ℕ} (s : List ℕ) → path ≡ c ∷ s → c ≢ b'/' → FindsDevice t path null
  found :
      (s behind : List ℕ) (names : List (List ℕ)) {r : ℕ}
      → path ≡ b'/' ∷ s
      → StartsAt (t.nodes t.root).name s behind
      → Names behind names
      → Descends t.nodes t.root names r
      → FindsDevice t path r

IsText-behind : (xs ys : List ℕ) → IsText (xs ++ ys) → IsText ys
IsText-behind [] ys t = t
IsText-behind (x ∷ xs) ys (IsText.cons ne t) = IsText-behind xs ys t

IsText-tail : {c : ℕ} {s : List ℕ} → IsText (c ∷ s) → IsText s
IsText-tail (IsText.cons ne t) = t

IsText-StartsAt :
    {name start behind : List ℕ} → IsText start → StartsAt name start behind → IsText behind
IsText-StartsAt {name} {behind} t (StartsAt.behind_root b) =
    IsText-tail (IsText-behind name (b'/' ∷ behind) (subst IsText b.split t))
IsText-StartsAt t (StartsAt.at_root r) = IsText.nil
IsText-StartsAt t (StartsAt.other n m) = t

get_device_relative :
    (siblings : ℕ) (t : DeviceTree) (c : ℕ) (s : List ℕ)
    → c ≢ b'/'
    → get_device_from_path siblings t (c ∷ s) ≡ null
unfolding get_device_from_path
get_device_relative siblings t c s other = ground arith

get_device_absolute :
    (siblings : ℕ) (t : DeviceTree) (c : ℕ) (s : List ℕ)
    → c ≡ b'/'
    → let start = after_root (t.nodes t.root).name s in
      get_device_from_path siblings t (c ∷ s)
      ≡ walk_path (length start) siblings t.nodes start t.root
unfolding get_device_from_path
get_device_absolute siblings t c s absolute = ground arith

get_device_nothing : (siblings : ℕ) (t : DeviceTree) → get_device_from_path siblings t [] ≡ null
unfolding get_device_from_path
get_device_nothing siblings t = refl

-- GetDeviceFromPath of a text, in a tree of devices: nothing for a path that does not begin with a slash. Else
-- it goes down from the root by the names in the path, to the first child of each name, and finds nothing
-- where there is none or a name has 100 characters or more. The root's own name at the start is passed over only
-- where it is all of the path or all before the path's last slash: "/Devices/a" is a child of the
-- root, but in "/Devices/a/b" the name "Devices" is looked for below the root.
pub get_device_from_path-FindsDevice :
    (siblings : ℕ) (t : DeviceTree) (path : List ℕ)
    → IsTree siblings t.nodes
    → IsText path
    → FindsDevice t path (get_device_from_path siblings t path)
get_device_from_path-FindsDevice siblings t [] tree text =
    rw (get_device_nothing siblings t) (FindsDevice.no_path refl)
get_device_from_path-FindsDevice siblings t (c ∷ s) tree (IsText.cons ne text) =
    elim (Bool-cases (c == b'/')) [
      | inr other ↦
          rw (get_device_relative siblings t c s (ground arith))
            (FindsDevice.relative s refl (ground arith))
      | inl absolute ↦
          let name : List ℕ = (t.nodes t.root).name in
          let starts = after_root-StartsAt name s (tree.named t.root) text in
          let behind : List ℕ = after_root name s in
          let (names, split, there) =
            walk_path-Descends siblings t.nodes (length behind) behind t.root tree
              (IsText-StartsAt text starts) (omega arith) in
          rw (get_device_absolute siblings t c s (ground arith)) (
            FindsDevice.found s behind names (ap (λ (x : ℕ). x ∷ s) (ground arith)) starts split
              there)
    ]
