-- ===== src/Mem/Slab.antt =====
-- The kernel's heap, sys/lib/kmalloc.c: kmalloc and kfree for up to a page, over slabs of equal objects,
-- and the virtual pages that hold them. The memory of a free object is the word at its address, which
-- links the free list of its slab. Allocations above a page (HugeAllocation) are left out.
pub mod Objects
mod Tests
use dragon_ware.Base.{
  ℕ, zero, suc, ◌+◌, ◌-◌, ◌*◌, ◌/◌, ◌%◌, ◌^◌, ◌≤◌, ◌<◌, ◌≡◌, Bool, true, false, List, [], ◌∷◌,
  Option, none, some, not, ◌&&◌, ◌||◌, ltb, leb, ◌==◌, if◌then◌else◌, get_or, set,
}
use dragon_ware.Base.Words.{add32, sub32, mul32}
use dragon_ware.Base.Bits.{complement, set_bit, clear_bit}
use dragon_ware.Base.Ctz.{ctz}
use dragon_ware.Base.Store.{null, update}
use dragon_ware.Status.{Status}
use dragon_ware.Mem.Frame.{allocate_frame, free_frame}
use dragon_ware.Mem.Paging.{AddressSpace, page_size, map_single_page, unmap_single_page}

-- HEAP_BASE, HEAP_BREAK and BIT_WORDS_NEEDED.
abbrev pub heap_base : ℕ
heap_base = 0xC0100000

abbrev pub heap_break : ℕ
heap_break = 0xE0100000

abbrev pub bit_words_needed : ℕ
bit_words_needed = 4096

abbrev pub full_word : ℕ
full_word = 0xFFFFFFFF

-- `virt_to_phys`, by VIRT_OFFSET.
abbrev pub virt_to_phys : ℕ → ℕ
virt_to_phys addr = sub32 addr 0xBFF00000

pub record Slab : Type 0 where
  pub free_list : ℕ
  pub objstart : ℕ
  pub n_objects : ℕ
  pub objsize : ℕ
  pub next : ℕ

-- `caches` are the heads of the eight lists of slabs.
pub record Heap : Type 0 where
  pub words : ℕ → ℕ
  pub slabs : ℕ → Slab
  pub caches : ℕ → ℕ
  pub heap_bitmap : List ℕ
  pub space : AddressSpace
  -- Whether the processor has global pages (X86_PGE).
  pub has_pge : Bool

abbrev pub inside_heap : ℕ → Bool
inside_heap addr = leb addr heap_break && leb heap_base addr

abbrev pub bit_of : ℕ → ℕ
bit_of addr = (addr - heap_base) / page_size

unfoldable pub mark_heap_page_as_used : Heap → ℕ → Heap
mark_heap_page_as_used h addr =
    let idx = bit_of addr in
    if not (inside_heap addr) then h else record h {
      heap_bitmap =
          set h.heap_bitmap (idx / 32)
            (set_bit (get_or h.heap_bitmap (idx / 32) full_word) (idx % 32));
    }

unfoldable pub mark_heap_page_as_free : Heap → ℕ → Heap
mark_heap_page_as_free h addr =
    let idx = bit_of addr in
    if not (inside_heap addr) then h else record h {
      heap_bitmap =
          set h.heap_bitmap (idx / 32)
            (clear_bit (get_or h.heap_bitmap (idx / 32) full_word) (idx % 32));
    }

-- The loop of GetHeapPageAddress over the bitmap from word `i` on; `none` stands for FatalError.
unfoldable pub heap_page_address : List ℕ → ℕ → Option ℕ
heap_page_address [] i = none
heap_page_address (word ∷ words) i =
    let rest = heap_page_address words (i + 1) in
    if word == full_word
    then rest
    else some (heap_base + (i * 32 + ctz 32 (complement 32 word)) * page_size)

unfoldable pub get_heap_page_address : Heap → Option (ℕ × Heap)
get_heap_page_address h = elim (heap_page_address h.heap_bitmap 0) [
  | none ↦ none
  | some addr ↦ some (addr, mark_heap_page_as_used h addr)
]

abbrev pub with_space : Heap → AddressSpace → Heap
with_space h space = record h { space = space }

abbrev pub free_heap_frame : Heap → ℕ → Heap
free_heap_frame h frame = with_space h (record h.space { frames = free_frame h.space.frames frame })

-- PAGE_PRESENT | PAGE_RW, with PAGE_GLOBAL where the processor has it. The address, null where there is
-- no memory.
unfoldable pub allocate_virtual_page : Heap → Option (ℕ × Heap)
allocate_virtual_page h =
    let (frameaddr, frames) = allocate_frame h.space.frames in
    let h₁ = with_space h (record h.space { frames = frames }) in
    let flags = if h.has_pge then 0x103 else 3 in
    if frameaddr == 0 then some (null, h₁) else elim (get_heap_page_address h₁) [
      | none ↦ none
      | some (addr, h₂) ↦
          let (status, space) = map_single_page h₂.space frameaddr addr flags in
          let h₃ = with_space h₂ space in
          let failed = free_heap_frame (mark_heap_page_as_free h₃ addr) frameaddr in
          some (elim status [ Status.ok ↦ (addr, h₃) | _ ↦ (null, failed) ])
    ]

unfoldable pub free_virtual_page : Heap → ℕ → Heap
free_virtual_page h addr =
    free_heap_frame (mark_heap_page_as_free (with_space h (unmap_single_page h.space addr)) addr)
      (virt_to_phys addr)

-- `slab_sizes[i]`.
abbrev pub slab_size : ℕ → ℕ
slab_size i = 2 ^ (i + 3)

-- GetSlabCacheForSize, by the index of the cache.
unfoldable pub slab_cache_from : ℕ → ℕ → ℕ → Option ℕ
slab_cache_from zero i size = none
slab_cache_from (suc rounds) i size =
    let rest = slab_cache_from rounds (i + 1) size in
    if leb size (slab_size i) then some i else rest

unfoldable pub get_slab_cache_for_size : ℕ → Option ℕ
get_slab_cache_for_size size = slab_cache_from 8 0 size

-- `alignup(base, DEFAULT_OBJ_ALIGN)`.
abbrev pub align_object : ℕ → ℕ
align_object base = (base + 15) / 16 * 16

abbrev pub sizeof_slab : ℕ
sizeof_slab = 20

-- The loop of CreateSlab that links the objects, and the null pointer in the last one.
unfoldable pub link_objects : ℕ → ℕ → ℕ → (ℕ → ℕ) → (ℕ → ℕ)
link_objects zero ptr objsize words = update words ptr null
link_objects (suc rounds) ptr objsize words =
    link_objects rounds (ptr + objsize) objsize (update words ptr (ptr + objsize))

-- CreateSlab on a page that it has; `none` where no object fits.
unfoldable pub slab_on_page : ℕ → ℕ → (ℕ → ℕ) → Option (Slab × (ℕ → ℕ))
slab_on_page page size words =
    let objsize = if ltb size 4 then 4 else size in
    let objstart = align_object (page + sizeof_slab) in
    let n_objects = (page_size - (objstart - page)) / objsize in
    if n_objects == 0
    then none
    else some (
      record {
        free_list = objstart;
        objstart = objstart;
        n_objects = n_objects;
        objsize = objsize;
        next = null;
      },
      link_objects (n_objects - 1) objstart objsize words,
    )

unfoldable pub create_slab : Heap → ℕ → Option (ℕ × Heap)
create_slab h objsize = elim (allocate_virtual_page h) [
  | none ↦ none
  | some (page, h') ↦ some (
      if page == null then (null, h') else elim (slab_on_page page objsize h'.words) [
        | none ↦ (null, free_virtual_page h' page)
        | some (slab, words) ↦
            (page, record h' { slabs = update h'.slabs page slab; words = words })
      ])
]

-- `while (s && !s->free_list) s = s->next`.
unfoldable pub slab_with_room : ℕ → (ℕ → Slab) → ℕ → ℕ
slab_with_room zero slabs s = null
slab_with_room (suc fuel) slabs s =
    let rest = slab_with_room fuel slabs (slabs s).next in
    if s == null then null else if (slabs s).free_list == null then rest else s

-- `obj = s->free_list; s->free_list = *(void **)obj`.
unfoldable pub take_object : Heap → ℕ → ℕ × Heap
take_object h s =
    let slab = h.slabs s in
    (
      slab.free_list,
      record h { slabs = update h.slabs s (record slab { free_list = h.words slab.free_list }) },
    )

-- A new slab at the head of its cache, and its first object.
unfoldable pub grow : Heap → ℕ → Option (ℕ × Heap)
grow h cache = elim (create_slab h (slab_size cache)) [
  | none ↦ none
  | some (s, h') ↦
      let linked = record h' {
        slabs = update h'.slabs s (record (h'.slabs s) { next = h'.caches cache });
        caches = update h'.caches cache s;
      } in
      some (if s == null then (null, h') else take_object linked s)
]

-- kmalloc of up to a page, from initialised caches.
unfoldable pub kmalloc : ℕ → Heap → ℕ → Option (ℕ × Heap)
kmalloc fuel h size = if size == 0 then some (null, h) else elim (get_slab_cache_for_size size) [
  | none ↦ allocate_virtual_page h
  | some cache ↦
      let s = slab_with_room fuel h.slabs (h.caches cache) in
      if s == null then grow h cache else some (take_object h s)
]

-- The slab of a cache's list whose objects the pointer lies among.
unfoldable pub slab_of : ℕ → (ℕ → Slab) → ℕ → ℕ → ℕ
slab_of zero slabs ptr s = null
slab_of (suc fuel) slabs ptr s =
    let slab = slabs s in
    let rest = slab_of fuel slabs ptr slab.next in
    if s == null
    then null
    else if leb slab.objstart ptr && ltb ptr (slab.objstart + slab.n_objects * slab.objsize)
    then s
    else rest

-- The loop of kfree over the caches, from cache `i` on.
unfoldable pub owner_slab : ℕ → ℕ → Heap → ℕ → ℕ → ℕ
owner_slab fuel zero h ptr i = null
owner_slab fuel (suc rounds) h ptr i =
    let s = slab_of fuel h.slabs ptr (h.caches i) in
    let rest = owner_slab fuel rounds h ptr (i + 1) in if s == null then rest else s

-- `*(void **)ptr = s->free_list; s->free_list = ptr`.
unfoldable pub give_object : Heap → ℕ → ℕ → Heap
give_object h s ptr =
    let slab = h.slabs s in
    record h {
      words = update h.words ptr slab.free_list;
      slabs = update h.slabs s (record slab { free_list = ptr });
    }

unfoldable pub kfree : ℕ → Heap → ℕ → Heap
kfree fuel h ptr =
    let s = owner_slab fuel 8 h ptr 0 in
    let slab = h.slabs s in
    if ptr == null
    then h
    else if s == null
    then free_virtual_page h ptr
    else if not ((ptr - slab.objstart) % slab.objsize == 0)
    then h
    else give_object h s ptr
