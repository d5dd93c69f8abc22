-- ===== src/Mem/Slab/Objects.antt =====
-- The free lists of slabs.
use native.Mathlib.Nat.{div-mul-le_self, div-add-mod, mod-lt}
use dragon_ware.Base.{
  ℕ, zero, suc, ◌+◌, ◌-◌, ◌*◌, ◌/◌, ◌%◌, ◌≤◌, ◌<◌, ◌≡◌, refl, ap, ap₂, sym, ◌∙◌, subst, ◌≢◌, ◌⊎◌,
  inl, inr, false, Bool-cases, List, [], ◌∷◌, some, arith, ltb, ◌==◌, if◌then◌else◌,
}
use dragon_ware.Base.Store.{null, update, update_self, update_ne}
use dragon_ware.Mem.Paging.{page_size}
use dragon_ware.Mem.Slab.{
  Slab, Heap, sizeof_slab, align_object, link_objects, slab_on_page, slab_with_room, take_object,
  get_slab_cache_for_size, kmalloc, slab_of, owner_slab, give_object, kfree,
}

-- The free list from `p` on runs through the objects `xs`.
abbrev pub Linked : (ℕ → ℕ) → ℕ → List ℕ → Type 0
Linked words p [] = p ≡ null
Linked words p (x ∷ xs) = (p ≡ x) × (x ≢ null) × Linked words (words x) xs

-- The objects of a slab, by their addresses.
abbrev pub objects : ℕ → ℕ → ℕ → List ℕ
objects zero ptr objsize = []
objects (suc n) ptr objsize = ptr ∷ objects n (ptr + objsize) objsize

link_objects-below :
    (rounds ptr objsize : ℕ) (words : ℕ → ℕ) (q : ℕ)
    → q < ptr
    → link_objects rounds ptr objsize words q ≡ words q
unfolding link_objects
link_objects-below zero ptr objsize words q h = update_ne words ptr null q (omega arith)
link_objects-below (suc rounds) ptr objsize words q h =
    link_objects-below rounds (ptr + objsize) objsize (update words ptr (ptr + objsize)) q
      (omega arith)
    ∙ update_ne words ptr (ptr + objsize) q (omega arith)

link_objects-above :
    (rounds ptr objsize : ℕ) (words : ℕ → ℕ) (q : ℕ)
    → ptr + suc rounds * objsize ≤ q
    → objsize ≢ 0
    → link_objects rounds ptr objsize words q ≡ words q
unfolding link_objects
link_objects-above zero ptr objsize words q h ne = update_ne words ptr null q (omega arith)
link_objects-above (suc rounds) ptr objsize words q h ne =
    link_objects-above rounds (ptr + objsize) objsize (update words ptr (ptr + objsize)) q
      (omega arith) ne
    ∙ update_ne words ptr (ptr + objsize) q (omega arith)

link_objects-Linked :
    (rounds ptr objsize : ℕ) (words : ℕ → ℕ)
    → ptr ≢ 0
    → objsize ≢ 0
    → Linked (link_objects rounds ptr objsize words) ptr (objects (suc rounds) ptr objsize)
unfolding link_objects
link_objects-Linked zero ptr objsize words h k = (refl, h, update_self words ptr null)
link_objects-Linked (suc rounds) ptr objsize words h k =
    let rest =
      link_objects-Linked rounds (ptr + objsize) objsize (update words ptr (ptr + objsize))
        (omega arith) k in
    let at : link_objects rounds (ptr + objsize) objsize (update words ptr (ptr + objsize)) ptr
        ≡ ptr + objsize =
      link_objects-below rounds (ptr + objsize) objsize (update words ptr (ptr + objsize)) ptr
        (omega arith)
      ∙ update_self words ptr (ptr + objsize) in
    (
      refl,
      h,
      subst
          (λ p.
            Linked (link_objects rounds (ptr + objsize) objsize (update words ptr (ptr + objsize)))
              p (objects (suc rounds) (ptr + objsize) objsize))
          (sym at) rest,
    )

-- A new slab on a page: its free list runs through all its objects, which lie behind the header and
-- within the page, and no word outside them is written.
pub record NewSlab (page size : ℕ) (words : ℕ → ℕ) (slab : Slab) (words' : ℕ → ℕ) : Type 0 where
  pub free : Linked words' slab.free_list (objects slab.n_objects slab.objstart slab.objsize)
  pub some_objects : slab.n_objects ≢ 0
  pub wide : size ≤ slab.objsize
  pub behind : page + sizeof_slab ≤ slab.objstart
  pub within : slab.objstart + slab.n_objects * slab.objsize ≤ page + page_size
  pub untouched :
      (q : ℕ)
      → (q < slab.objstart) ⊎ (slab.objstart + slab.n_objects * slab.objsize ≤ q)
      → words' q ≡ words q

quotient-ne-zero : (a b : ℕ) → b ≢ 0 → b ≤ a → a / b ≢ 0
quotient-ne-zero a b ne h e =
    omega (arith, div-add-mod a b, mod-lt a {m = b} (omega arith), ap (λ n. b * n) e)

-- CreateSlab for objects of 1 to 1024 bytes, on a page that is not the null page, finds room for at
-- least one, and makes a new slab.
pub slab_on_page-NewSlab :
    (page size : ℕ) (words : ℕ → ℕ)
    → page ≢ null
    → 1 ≤ size
    → size ≤ 1024
    → (slab : Slab) × (words' : ℕ → ℕ) × (slab_on_page page size words ≡ some (slab, words'))
      × NewSlab page size words slab words'
unfolding slab_on_page
slab_on_page-NewSlab page size words h lo hi =
    let objsize = if ltb size 4 then 4 else size in
    let objstart = align_object (page + sizeof_slab) in
    let usable = page_size - (objstart - page) in
    let n = usable / objsize in
    let some_size : objsize ≢ 0 = ground arith in
    let small : objsize ≤ 1024 = ground arith in
    let ne : n ≢ 0 = quotient-ne-zero usable objsize some_size (omega arith) in
    let last : suc (n - 1) ≡ n = omega arith in
    let fits : n * objsize ≤ usable = div-mul-le_self usable objsize in
    let room : (n == 0) ≡ false = ground arith in
    let slab : Slab = record {
      free_list = objstart;
      objstart = objstart;
      n_objects = n;
      objsize = objsize;
      next = null;
    } in
    (
      slab,
      link_objects (n - 1) objstart objsize words,
      rw room refl,
      record {
        free =
            subst
              (λ m.
                Linked (link_objects (n - 1) objstart objsize words) objstart
                  (objects m objstart objsize))
              last (link_objects-Linked (n - 1) objstart objsize words (omega arith) some_size);
        some_objects = ne;
        wide = ground arith;
        behind = omega arith;
        within = omega (arith, fits);
        untouched = λ q c. elim c [
          | inl l ↦ link_objects-below (n - 1) objstart objsize words q l
          | inr l ↦ link_objects-above (n - 1) objstart objsize words q (rw last l) some_size
        ];
      },
    )

-- No object of the list is `p`.
abbrev pub Without : ℕ → List ℕ → Type 0
Without p [] = p ≡ p
Without p (x ∷ xs) = (x ≢ p) × Without p xs

Linked-update :
    (words : ℕ → ℕ) (p v : ℕ) (xs : List ℕ) (q : ℕ)
    → Without p xs
    → Linked words q xs
    → Linked (update words p v) q xs
Linked-update words p v [] q w l = l
Linked-update words p v (x ∷ xs) q (ne, w) (e, real, l) = (
  e,
  real,
  subst (λ r. Linked (update words p v) r xs) (sym (update_ne words p v x ne))
      (Linked-update words p v xs (words x) w l),
)

-- The search of kfree does not depend on free lists.
slab_of-update :
    (fuel : ℕ) (slabs : ℕ → Slab) (s v ptr q : ℕ)
    → slab_of fuel (update slabs s (record (slabs s) { free_list = v })) ptr q
      ≡ slab_of fuel slabs ptr q
unfolding slab_of
slab_of-update zero slabs s v ptr q = refl
slab_of-update (suc fuel) slabs s v ptr q = elim (Bool-cases (s == q)) [
  | inl e ↦
      let same : s ≡ q = ground arith in
      rw (e, slab_of-update fuel slabs s v ptr (slabs s).next, ← same) refl
  | inr e ↦ rw (e, slab_of-update fuel slabs s v ptr (slabs q).next) refl
]

owner_slab-update :
    (fuel rounds : ℕ) (h h' : Heap) (s v ptr i : ℕ)
    → h'.slabs ≡ update h.slabs s (record (h.slabs s) { free_list = v })
    → h'.caches ≡ h.caches
    → owner_slab fuel rounds h' ptr i ≡ owner_slab fuel rounds h ptr i
unfolding owner_slab
owner_slab-update fuel zero h h' s v ptr i e c = refl
owner_slab-update fuel (suc rounds) h h' s v ptr i e c =
    let here : slab_of fuel h'.slabs ptr (h'.caches i) ≡ slab_of fuel h.slabs ptr (h.caches i) =
      ap₂ (λ f g. slab_of fuel f ptr (g i)) e c
      ∙ slab_of-update fuel h.slabs s v ptr (h.caches i) in
    rw (here, owner_slab-update fuel rounds h h' s v ptr (i + 1) e c) refl

-- The free list of the slab at `s`.
abbrev pub HasFree : Heap → ℕ → List ℕ → Type 0
HasFree h s xs = Linked h.words (h.slabs s).free_list xs

module _ (fuel : ℕ) (h : Heap) (size cache s x : ℕ) (xs : List ℕ) where
  -- kmalloc of a size that a cache serves, whose first slab with room is `s`, hands out the first object
  -- of that slab's free list and leaves the rest of the list; kfree of it, where `s` is the slab that
  -- its address lies in, makes the free list what it was, and writes no word but the object's own.
  pub kfree-kmalloc :
      size ≢ 0
      → get_slab_cache_for_size size ≡ some cache
      → slab_with_room fuel h.slabs (h.caches cache) ≡ s
      → s ≢ null
      → HasFree h s (x ∷ xs)
      → Without x xs
      → owner_slab fuel 8 h x 0 ≡ s
      → (x - (h.slabs s).objstart) % (h.slabs s).objsize ≡ 0
      → (h' : Heap) × (kmalloc fuel h size ≡ some (x, h'))
        × HasFree h' s xs
        × HasFree (kfree fuel h' x) s (x ∷ xs)
        × ((q : ℕ) → q ≢ x → (kfree fuel h' x).words q ≡ h.words q)
  unfolding kmalloc kfree take_object give_object
  kfree-kmalloc a b c d (first, real, l) w o aligned =
      let slab = h.slabs s in
      let h' : Heap = record h {
        slabs = update h.slabs s (record slab { free_list = h.words slab.free_list });
      } in
      let some_size : (size == 0) ≡ false = ground arith in
      let some_slab : (s == 0) ≡ false = ground arith in
      let some_ptr : (x == 0) ≡ false = ground arith in
      let left : h'.slabs s ≡ record slab { free_list = h.words slab.free_list } =
        update_self h.slabs s _ in
      let owner : owner_slab fuel 8 h' x 0 ≡ s =
        owner_slab-update fuel 8 h h' s (h.words slab.free_list) x 0 refl refl ∙ o in
      let v = (h'.slabs s).free_list in
      let rest : HasFree h' s xs = rw (left, first) l in
      let back = record (h'.slabs s) { free_list = x } in
      let freed : kfree fuel h' x
          ≡ record h' { words = update h'.words x v; slabs = update h'.slabs s back } =
        rw (owner, some_ptr, some_slab, left, aligned) refl in
      (
        h',
        rw (some_size, b, c, some_slab, first) refl,
        rest,
        subst (λ g. HasFree g s (x ∷ xs)) (sym freed)
            (
              ap (λ t. t.free_list) (update_self h'.slabs s back),
              real,
              subst (λ r. Linked (update h.words x v) r xs) (sym (update_self h.words x v))
                  (Linked-update h.words x v xs v w rest),
            ),
        λ q ne. ap (λ g. g.words q) freed ∙ update_ne h.words x v q ne,
      )
