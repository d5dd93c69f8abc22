-- ===== src/Device/Add.antt =====
-- AddDevice: a device becomes the last child of its parent.
use dragon_ware.Base.{
  ℕ, zero, suc, ◌<◌, ◌≡◌, refl, ap, sym, ◌∙◌, ◌≢◌, false, List, [], ◌∷◌, ◌++◌, arith, ◌==◌,
  if◌then◌else◌, length,
}
use dragon_ware.Base.Store.{null, update, update_self, update_ne}
use dragon_ware.Sched.Chain.{NotIn, Distinct}
use dragon_ware.Device.{DeviceManagerNode, DeviceTree, is_output, last_sibling, add_device}
use dragon_ware.Device.Siblings.{Linked}

abbrev last : ℕ → List ℕ → ℕ
last x [] = x
last x (y ∷ ys) = last y ys

-- Writes that leave the links of a list alone.
pub Linked-update :
    (m : ℕ → DeviceManagerNode) (q : ℕ) (v : DeviceManagerNode) (p : ℕ) (xs : List ℕ)
    → NotIn q xs
    → Linked m p xs
    → Linked (update m q v) p xs
Linked-update m q v p [] n l = l
Linked-update m q v p (x ∷ xs) (ne, n) (e, some_x, l) =
    let same : (update m q v x).next ≡ (m x).next =
      ap (λ (k : DeviceManagerNode). k.next) (update_ne m q v x (λ s. ne (sym s))) in
    (e, some_x, rw same (Linked-update m q v (m x).next xs n l))

last_sibling-last :
    (fuel : ℕ) (m : ℕ → DeviceManagerNode) (x : ℕ) (xs : List ℕ)
    → Linked m (m x).next xs
    → length xs < fuel
    → last_sibling fuel m x ≡ last x xs
unfolding last_sibling
last_sibling-last zero m x xs l h = absurd (omega arith)
last_sibling-last (suc fuel) m x [] l h = ground arith
last_sibling-last (suc fuel) m x (y ∷ ys) (e, some_y, l) h =
    let more : ((m x).next == null) ≡ false = ground arith in
    rw (more, e) (last_sibling-last fuel m y ys l (omega arith))

last-ne : (x y : ℕ) (ys : List ℕ) → NotIn x (y ∷ ys) → last y ys ≢ x
last-ne x y [] (ne, n) = λ e. ne (sym e)
last-ne x y (z ∷ zs) (ne, n) = last-ne x z zs n

last-NotIn : (x : ℕ) (xs : List ℕ) (q : ℕ) → NotIn q (x ∷ xs) → q ≢ last x xs
last-NotIn x [] q (ne, n) = ne
last-NotIn x (y ∷ ys) q (ne, n) = last-NotIn y ys q n

-- The last node of a list is linked to a new one.
Linked-append :
    (m : ℕ → DeviceManagerNode) (x : ℕ) (xs : List ℕ) (new : ℕ)
    → Linked m x (x ∷ xs)
    → Distinct (x ∷ xs)
    → NotIn new (x ∷ xs)
    → new ≢ null
    → (m new).next ≡ null
    → Linked (update m (last x xs) (record (m (last x xs)) { next = new })) x (x ∷ xs ++ new ∷ [])
Linked-append m x [] new (e, some_x, l) d (ne, n) some_new at_end =
    let v : DeviceManagerNode = record (m x) { next = new } in
    let link : (update m x v x).next ≡ new =
      ap (λ (k : DeviceManagerNode). k.next) (update_self m x v) in
    let stop : (update m x v new).next ≡ null =
      ap (λ (k : DeviceManagerNode). k.next) (update_ne m x v new ne) ∙ at_end in
    (refl, some_x, rw link (refl, some_new, stop))
Linked-append m x (y ∷ ys) new (e, some_x, (e', some_y, l)) (n, d) (ne, k) some_new at_end =
    let q : ℕ = last y ys in
    let v : DeviceManagerNode = record (m q) { next = new } in
    let same : (update m q v x).next ≡ y =
      ap (λ (k : DeviceManagerNode). k.next) (update_ne m q v x (λ s. last-ne x y ys n (sym s)))
      ∙ e' in
    (refl, some_x, rw same (Linked-append m y ys new (refl, some_y, l) d k some_new at_end))

-- What adding the device `new` to the children `xs` of `p` leaves.
pub record AddsDevice (t : DeviceTree) (p new : ℕ) (xs : List ℕ) (t' : DeviceTree) : Type 0 where
  pub children : Linked t'.nodes (t'.nodes p).child (xs ++ new ∷ [])
  pub others : (q : ℕ) → q ≢ p → (t'.nodes q).child ≡ (t.nodes q).child
  pub links : (q : ℕ) → q ≢ new → NotIn q xs → (t'.nodes q).next ≡ (t.nodes q).next
  pub names : (q : ℕ) → (t'.nodes q).name ≡ (t.nodes q).name
  pub root : t'.root ≡ t.root
  pub outputs : t'.outputs ≡ (if is_output (t.nodes new) then t.outputs ++ new ∷ [] else t.outputs)

module _ (fuel : ℕ) (t : DeviceTree) (parent new : ℕ) where
  abbrev actual : ℕ
  actual = if parent == null then t.root else parent

  abbrev unlinked : ℕ → DeviceManagerNode
  unlinked = update t.nodes new (record (t.nodes new) { next = null })

  abbrev announced : List ℕ
  announced = if is_output (t.nodes new) then t.outputs ++ new ∷ [] else t.outputs

  add_first :
      actual ≢ null
      → (unlinked actual).child ≡ null
      → add_device fuel t parent new ≡ record t {
        nodes = update unlinked actual (record (unlinked actual) { child = new });
        outputs = announced;
      }
  unfolding add_device
  add_first some_parent none_there = ground arith

  add_last :
      (l : ℕ)
      → actual ≢ null
      → (unlinked actual).child ≢ null
      → last_sibling fuel unlinked (unlinked actual).child ≡ l
      → add_device fuel t parent new ≡ record t {
        nodes = update unlinked l (record (unlinked l) { next = new });
        outputs = announced;
      }
  unfolding add_device
  add_last l some_parent some_there e = ground arith

  -- What AddDevice writes to a node `l` of the new links leaves names and all other links alone.
  AddsDevice-update :
      (xs : List ℕ) (l : ℕ) (v : DeviceManagerNode)
      → v.name ≡ (unlinked l).name
      → ((q : ℕ) → q ≢ actual → (update unlinked l v q).child ≡ (unlinked q).child)
      → ((q : ℕ) → q ≢ new → NotIn q xs → (update unlinked l v q).next ≡ (unlinked q).next)
      → Linked (update unlinked l v) (update unlinked l v actual).child (xs ++ new ∷ [])
      → AddsDevice t actual new xs (record t { nodes = update unlinked l v; outputs = announced })
  AddsDevice-update xs l v same_name same_child same_next children = record {
    children = children;
    others = λ q ne. same_child q ne ∙ (ground arith);
    links = λ q ne out.
        same_next q ne out ∙ ap (λ (k : DeviceManagerNode). k.next) (update_ne t.nodes new _ q ne);
    names = λ q. ground arith;
    root = refl;
    outputs = refl;
  }

  -- AddDevice to a node, or to the root where the parent is the null pointer, whose children are the distinct nodes
  -- `xs`, fewer than the fuel, of a device that is not the null pointer, the parent or one of them, nor is the parent
  -- one of them: the device becomes the last child; no other node gets another child, no other link but that of
  -- the last child is changed, the names stay, and a framebuffer or console is announced for output.
  pub add_device-AddsDevice :
      (xs : List ℕ)
      → actual ≢ null
      → new ≢ null
      → actual ≢ new
      → Linked t.nodes (t.nodes actual).child xs
      → Distinct xs
      → NotIn new xs
      → NotIn actual xs
      → length xs < fuel
      → AddsDevice t actual new xs (add_device fuel t parent new)
  add_device-AddsDevice [] some_parent some_new apart l d out clear h =
      let e : (unlinked actual).child ≡ null = ground arith in
      let v : DeviceManagerNode = record (unlinked actual) { child = new } in
      let first : (update unlinked actual v actual).child ≡ new =
        ap (λ (k : DeviceManagerNode). k.child) (update_self unlinked actual v) in
      let stop : (update unlinked actual v new).next ≡ null =
        ap (λ (k : DeviceManagerNode). k.next)
          (update_ne unlinked actual v new (λ s. apart (sym s))
            ∙ update_self t.nodes new (record (t.nodes new) { next = null })) in
      rw (add_first some_parent e) (
        AddsDevice-update [] actual v refl (λ q ne. ground arith) (λ q ne k. ground arith)
          (rw first (refl, some_new, stop)))
  add_device-AddsDevice (x ∷ xs) some_parent some_new apart l d out clear h =
      let (e, some_x, links) = l in
      let there : (unlinked actual).child ≡ x = ground arith in
      let kept =
        Linked-update t.nodes new (record (t.nodes new) { next = null }) x (x ∷ xs) out
          (refl, some_x, links) in
      let last_one = last_sibling-last fuel unlinked x xs kept.2 (omega arith) in
      let v : DeviceManagerNode = record (unlinked (last x xs)) { next = new } in
      let stop : (unlinked new).next ≡ null =
        ap (λ (k : DeviceManagerNode). k.next)
          (update_self t.nodes new (record (t.nodes new) { next = null })) in
      let first : (update unlinked (last x xs) v actual).child ≡ x = ground arith in
      rw (add_last (last x xs) some_parent (λ z. some_x (sym there ∙ z)) (rw there last_one)) (
        AddsDevice-update (x ∷ xs) (last x xs) v refl (λ q ne. ground arith)
          (λ q ne k. ground (arith, last-NotIn x xs q k))
          (rw first (Linked-append unlinked x xs new kept d out some_new stop)))
