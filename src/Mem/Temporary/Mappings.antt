-- ===== src/Mem/Temporary/Mappings.antt =====
-- CreateTempVirtualMap and DeleteTempVirtualMap against the slots in use and the pages that are mapped.
use dragon_ware.Base.{
  ℕ, ◌-◌, ◌*◌, ◌/◌, ◌<◌, ◌≡◌, ◌≢◌, refl, Bool, true, false, Option, none, some, arith, not, ◌==◌,
  if◌then◌else◌, Bool-cases, inl, inr, ◌⊎◌, bit_or, subst, ◌∙◌, ap,
}
use dragon_ware.Base.Store.{null}
use dragon_ware.Status.{Status}
use dragon_ware.Mem.Frame.Spent.{allocate_frame_aligned}
use dragon_ware.Mem.Frame.{allocate_frame, free_frame}
use dragon_ware.Mem.Paging.{AddressSpace, page_size, is_present, unmap_single_page}
use dragon_ware.Mem.Paging.Pages.{
  pages, page_entry, has_table, Maps, map_single_page-Maps, page_entry-unmap_single_page,
}
use dragon_ware.Mem.Temporary.{
  TemporaryMaps, VirtualMap, tmpmap_max_pages, tmp_map_addr_from_index, mark_tmp_map_used,
  create_at, create_temp_virtual_map, delete_temp_virtual_map,
}
use dragon_ware.Mem.Temporary.Slots.{
  used, with_slot, used-with_slot, FindsSlot, find_free_tmp_map_slot-FindsSlot, tmp_map_used_lem,
  mark_tmp_map_used_lem, mark_tmp_map_free_lem,
}

-- The page of a slot.
abbrev pub slot_page : ℕ → ℕ
slot_page slot = 0xF2000 - slot

-- Why a slot could not be mapped: no frame is left for the page, or for its page table, or the page is
-- mapped already.
pub data Refused (s : TemporaryMaps) (slot : ℕ) : Type 0 where
  no_frame : (allocate_frame s.space.frames).0 ≡ 0 → Refused s slot
  no_table :
      (allocate_frame s.space.frames).0 ≢ 0
      → has_table s.space (slot_page slot) ≡ false
      → (allocate_frame (allocate_frame s.space.frames).1).0 ≡ 0
      → Refused s slot
  occupied :
      (allocate_frame s.space.frames).0 ≢ 0
      → is_present (page_entry s.space (slot_page slot)) ≡ true
      → Refused s slot

-- The lowest free slot.
pub record IsLowest (bitmap : ℕ → ℕ) (slot : ℕ) : Type 0 where
  pub small : slot < tmpmap_max_pages
  pub free : used bitmap slot ≡ false
  pub lowest : (i : ℕ) → i < slot → used bitmap i ≡ true

-- What a temporary mapping is: the slot was free and its page not mapped, and now they are, to a frame
-- that was allocated; no other slot or page changes.
pub record IsMapping (s : TemporaryMaps) (v : VirtualMap) (s' : TemporaryMaps) : Type 0 where
  pub chosen : IsLowest s.bitmap v.slot
  pub slots : (i : ℕ) → used s'.bitmap i ≡ (if i == v.slot then true else used s.bitmap i)
  pub frame : v.phys ≡ (allocate_frame s.space.frames).0
  pub frame_ne : v.phys ≢ 0
  pub address : v.virt ≡ slot_page v.slot * page_size
  pub table :
      (has_table s.space (slot_page v.slot) ≡ true)
      ⊎ ((allocate_frame (allocate_frame s.space.frames).1).0 ≢ 0)
  pub unmapped : is_present (page_entry s.space (slot_page v.slot)) ≡ false
  pub entries :
      (q : ℕ)
      → q < pages
      → page_entry s'.space q
        ≡ (if q == slot_page v.slot then bit_or v.phys 3 else page_entry s.space q)

pub data Creates (m : ℕ) (s : TemporaryMaps)
    : Option (Option VirtualMap × TemporaryMaps) → Type 0 where
  no_memory : m ≡ null → Creates m s (some (none, s))
  no_slot :
      m ≢ null
      → ((i : ℕ) → i < tmpmap_max_pages → used s.bitmap i ≡ true)
      → Creates m s (some (none, s))
  refused :
      (slot : ℕ) (s' : TemporaryMaps)
      → m ≢ null
      → IsLowest s.bitmap slot
      → Refused s slot
      → s'.bitmap ≡ s.bitmap
      → s'.space.window ≡ s.space.window
      → Creates m s (some (none, s'))
  mapping :
      (v : VirtualMap) (s' : TemporaryMaps)
      → m ≢ null
      → IsMapping s v s'
      → Creates m s (some (some v, s'))

module _ (m : ℕ) (s : TemporaryMaps) (slot : ℕ) (memory : m ≢ null)
    (chosen : IsLowest s.bitmap slot) where
  abbrev phys : ℕ
  phys = (allocate_frame s.space.frames).0

  abbrev virt : ℕ
  virt = tmp_map_addr_from_index slot

  small : slot < tmpmap_max_pages
  small = chosen.small

  abbrev taken : AddressSpace
  taken = record s.space { frames = (allocate_frame s.space.frames).1 }

  at_slot : virt / page_size ≡ slot_page slot
  at_slot = omega (arith, chosen.small)

  -- What CreateTempVirtualMap does with the result of MapSinglePage.
  mapped-Creates :
      {r : Status × AddressSpace}
      → phys ≢ 0
      → Maps taken phys virt 3 r
      → Creates m s (elim r.0 [
        | Status.ok ↦ elim (mark_tmp_map_used s.bitmap slot) [
          | none ↦ none
          | some bitmap ↦ some (
            some (record { phys = phys; virt = virt; slot = slot }),
            record { bitmap = bitmap; space = r.1 },
          )
        ]
        | _ ↦ some (none, record s { space = record r.1 { frames = free_frame r.1.frames phys } })
      ])
  mapped-Creates ne (Maps.misused e) =
      absurd (ground (arith, allocate_frame_aligned s.space.frames))
  mapped-Creates ne (Maps.no_memory vm' usable t e w f) =
      Creates.refused slot _ memory chosen (Refused.no_table ne (rw (← at_slot) t) e) refl w
  mapped-Creates ne (Maps.occupied usable e) =
      Creates.refused slot _ memory chosen (Refused.occupied ne (rw (← at_slot) e)) refl refl
  mapped-Creates ne (Maps.maps vm' usable e t f) = rw (mark_tmp_map_used_lem s.bitmap slot small) (
      Creates.mapping _ _ memory (record {
        chosen = chosen;
        slots = used-with_slot s.bitmap slot small true;
        frame = refl;
        frame_ne = ne;
        address = omega (arith, chosen.small);
        table = elim t [ inl a ↦ inl (rw (← at_slot) a.0) | inr a ↦ inr a.1 ];
        unmapped = rw (← at_slot) e;
        entries = λ q h. rw (← at_slot) (f q h);
      }))

  create_at-Creates : Creates m s (create_at slot s)
  unfolding create_at
  create_at-Creates = elim (Bool-cases (phys == 0)) [
    | inl e ↦
        rw e (Creates.refused slot _ memory chosen (Refused.no_frame (ground arith)) refl refl)
    | inr e ↦ rw e (
        mapped-Creates (λ x. ground arith)
          (map_single_page-Maps taken phys virt 3 (omega (arith, chosen.small))))
  ]

-- CreateTempVirtualMap never stops the kernel. It gives back nothing, and changes no slot and no entry of
-- a page, only where kmalloc gave no memory for the mapping, all slots are in use, no frame is left for the
-- page, or for the page table that it lacks, or the page of the lowest free slot is mapped already; else the
-- lowest free slot is in use, its page is mapped to a frame that was allocated, and no other slot or page
-- changes.
pub create_temp_virtual_map-Creates :
    (m : ℕ) (s : TemporaryMaps) → Creates m s (create_temp_virtual_map m s)
unfolding create_temp_virtual_map
create_temp_virtual_map-Creates m s = elim (Bool-cases (m == null)) [
  | inl e ↦ rw e (Creates.no_memory (ground arith))
  | inr e ↦ rw e (found (λ z. ground arith) (find_free_tmp_map_slot-FindsSlot s.bitmap))
]
  where
    found :
        {r : Option ℕ}
        → m ≢ null
        → FindsSlot s.bitmap 0 tmpmap_max_pages r
        → Creates m s (elim r [ none ↦ some (none, s) | some slot ↦ create_at slot s ])
    found ne (FindsSlot.no_slot f) = Creates.no_slot ne (λ i h. f i (omega arith) h)
    found ne (FindsSlot.lowest_slot k a b c f) =
        create_at-Creates m s k ne
          (record { small = b; free = c; lowest = λ i h. f i (omega arith) h })

-- A mapping that CreateTempVirtualMap made is found in the result.
IsMapping-Creates :
    {m : ℕ} {s s' : TemporaryMaps} {v : VirtualMap}
    → Creates m s (some (some v, s'))
    → IsMapping s v s'
IsMapping-Creates (Creates.mapping v s' ne c) = c

-- DeleteTempVirtualMap, told by slots and pages.
pub record IsDeleted (s : TemporaryMaps) (v : VirtualMap) (s' : TemporaryMaps) : Type 0 where
  pub slots : (i : ℕ) → used s'.bitmap i ≡ (if i == v.slot then false else used s.bitmap i)
  pub entries :
      (q : ℕ)
      → q < pages
      → is_present (page_entry s'.space q)
        ≡ (if q == v.virt / page_size then false else is_present (page_entry s.space q))

-- The result of a deletion.
abbrev deleted : (v : VirtualMap) (s : TemporaryMaps) → v.slot < tmpmap_max_pages → TemporaryMaps
deleted v s small = record {
  bitmap = with_slot s.bitmap v.slot small false;
  space = unmap_single_page s.space v.virt;
}

delete_temp_virtual_map_in_use :
    (v : VirtualMap) (s : TemporaryMaps) (small : v.slot < tmpmap_max_pages)
    → used s.bitmap v.slot ≡ true
    → delete_temp_virtual_map v s ≡ some (deleted v s small)
unfolding delete_temp_virtual_map
delete_temp_virtual_map_in_use v s small e =
    is_used (tmp_map_used_lem s.bitmap v.slot small ∙ ap (λ (b : Bool). some b) e)
    ∙ is_freed (mark_tmp_map_free_lem s.bitmap v.slot small)
  where
    is_used :
        {u : Option Bool} {r : Option TemporaryMaps}
        → u ≡ some true
        → elim u [ none ↦ none | some x ↦ if not x then none else r ] ≡ r
    is_used e = rw e refl

    is_freed :
        {f : Option (ℕ → ℕ)} {b : ℕ → ℕ} {space : AddressSpace}
        → f ≡ some b
        → elim f [
          | none ↦ none
          | some x ↦ some (let t : TemporaryMaps = record { bitmap = x; space = space } in t)
        ]
          ≡ some (let t : TemporaryMaps = record { bitmap = b; space = space } in t)
    is_freed e = rw e refl

deleted-IsDeleted :
    (v : VirtualMap) (s : TemporaryMaps) (small : v.slot < tmpmap_max_pages)
    → v.virt < pages * page_size
    → IsDeleted s v (deleted v s small)
deleted-IsDeleted v s small low = record {
  slots = used-with_slot s.bitmap v.slot small false;
  entries = λ q h. page_entry-unmap_single_page s.space v.virt q low h;
}

-- The slots and pages after a mapping is made and deleted are those before.
pub record IsRestored (s s' : TemporaryMaps) : Type 0 where
  pub slots : (i : ℕ) → used s'.bitmap i ≡ used s.bitmap i
  pub present :
      (q : ℕ) → q < pages → is_present (page_entry s'.space q) ≡ is_present (page_entry s.space q)

IsRestored-IsDeleted :
    {s t u : TemporaryMaps} (v : VirtualMap) → IsMapping s v t → IsDeleted t v u → IsRestored s u
IsRestored-IsDeleted {s} {t} v c d =
    let at : v.virt / page_size ≡ slot_page v.slot = omega (arith, c.address, c.chosen.small) in
    record {
      slots = λ i.
          rw (d.slots i, c.slots i)
            (elim (Bool-cases (i == v.slot)) [
              | inl e ↦ let eq : i ≡ v.slot = ground arith in rw (e, eq, c.chosen.free) refl
              | inr e ↦ rw e refl
            ]);
      present = λ q h.
          rw (d.entries q h, at, c.entries q h)
            (elim (Bool-cases (q == slot_page v.slot)) [
              | inl e ↦ let eq : q ≡ slot_page v.slot = ground arith in rw (e, eq, c.unmapped) refl
              | inr e ↦ rw e refl
            ]);
    }

-- A mapping that CreateTempVirtualMap made is deleted by DeleteTempVirtualMap without a stop of the
-- kernel, and then the same slots are in use and the same pages are mapped as before it was made.
pub delete_temp_virtual_map-create_temp_virtual_map :
    (m : ℕ) (s s' : TemporaryMaps) (v : VirtualMap)
    → create_temp_virtual_map m s ≡ some (some v, s')
    → (s'' : TemporaryMaps) × ((delete_temp_virtual_map v s' ≡ some s'') × IsRestored s s'')
delete_temp_virtual_map-create_temp_virtual_map m s s' v e =
    let c = IsMapping-Creates (subst (Creates m s) e (create_temp_virtual_map-Creates m s)) in
    let in_use : used s'.bitmap v.slot ≡ true = rw (c.slots v.slot) (ground arith) in
    let low : v.virt < pages * page_size = omega (arith, c.chosen.small, c.address) in
    (
      deleted v s' c.chosen.small,
      (
        delete_temp_virtual_map_in_use v s' c.chosen.small in_use,
        IsRestored-IsDeleted v c (deleted-IsDeleted v s' c.chosen.small low),
      ),
    )
