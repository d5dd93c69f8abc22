-- ===== src/Mem/Temporary.antt =====
-- The temporary mappings by which the kernel reaches the pages of an address space that is not the current one,
-- and the place of a process's kernel stack, sys/task/process.c. What the pages hold is left out.
pub mod Slots
pub mod Mappings
pub mod Stacks
mod Tests
use dragon_ware.Base.{
  ℕ, zero, suc, ◌+◌, ◌-◌, ◌*◌, ◌/◌, ◌%◌, ◌^◌, ◌≡◌, Bool, true, false, Option, none, some, not, ltb,
  leb, ◌==◌, if◌then◌else◌,
}
use dragon_ware.Base.Words.{add32, mul32}
use dragon_ware.Base.Bits.{is_set, set_bit, clear_bit}
use dragon_ware.Base.Store.{null, update}
use dragon_ware.Status.{Status}
use dragon_ware.Mem.Frame.{full_word, allocate_frame, free_frame}
use dragon_ware.Mem.Paging.{
  AddressSpace, page_size, map_single_page, unmap_single_page, is_virtual_page_mapped,
}

-- TMPMAP_MAX_PAGES and TMPMAP_BITMAP_WORDS.
abbrev pub tmpmap_max_pages : ℕ
tmpmap_max_pages = 1024

abbrev pub tmpmap_bitmap_words : ℕ
tmpmap_bitmap_words = 32

abbrev pub temporary_virt_mapaddr : ℕ
temporary_virt_mapaddr = 0xF2000000

pub record VirtualMap : Type 0 where
  pub phys : ℕ
  pub virt : ℕ
  pub slot : ℕ

-- `tmpmap_bitmap`, by words, and the current address space.
pub record TemporaryMaps : Type 0 where
  pub bitmap : ℕ → ℕ
  pub space : AddressSpace

-- The loop of FindFreeTmpMapSlot over the bits of a word, from bit `b` on.
unfoldable pub free_bit : ℕ → ℕ → ℕ → Option ℕ
free_bit zero b word = none
free_bit (suc rounds) b word =
    let rest = free_bit rounds (b + 1) word in if not (is_set word b) then some b else rest

-- The loop over the words, from word `w` on; `none` stands for -1.
unfoldable pub free_slot : ℕ → ℕ → (ℕ → ℕ) → Option ℕ
free_slot zero w bitmap = none
free_slot (suc rounds) w bitmap =
    let rest = free_slot rounds (w + 1) bitmap in
    if bitmap w == full_word
    then rest
    else elim (free_bit 32 0 (bitmap w)) [ some b ↦ some (w * 32 + b) | none ↦ rest ]

unfoldable pub find_free_tmp_map_slot : (ℕ → ℕ) → Option ℕ
find_free_tmp_map_slot bitmap = free_slot tmpmap_bitmap_words 0 bitmap

-- In these three `none` stands for the stop in FatalError.
unfoldable pub mark_tmp_map_used : (ℕ → ℕ) → ℕ → Option (ℕ → ℕ)
mark_tmp_map_used bitmap idx =
    if leb tmpmap_max_pages idx
    then none
    else some (update bitmap (idx / 32) (set_bit (bitmap (idx / 32)) (idx % 32)))

unfoldable pub mark_tmp_map_free : (ℕ → ℕ) → ℕ → Option (ℕ → ℕ)
mark_tmp_map_free bitmap idx =
    if leb tmpmap_max_pages idx
    then none
    else some (update bitmap (idx / 32) (clear_bit (bitmap (idx / 32)) (idx % 32)))

unfoldable pub tmp_map_used : (ℕ → ℕ) → ℕ → Option Bool
tmp_map_used bitmap idx =
    if leb tmpmap_max_pages idx then none else some (is_set (bitmap (idx / 32)) (idx % 32))

abbrev pub tmp_map_addr_from_index : ℕ → ℕ
tmp_map_addr_from_index idx = temporary_virt_mapaddr - idx * page_size

-- The part of CreateTempVirtualMap for a slot that was found. The mapping itself, or `none` for the null
-- pointer, is the first part of the result.
unfoldable pub create_at : ℕ → TemporaryMaps → Option (Option VirtualMap × TemporaryMaps)
create_at slot s =
    let virt = tmp_map_addr_from_index slot in
    let (phys, frames) = allocate_frame s.space.frames in
    let taken : AddressSpace = record s.space { frames = frames } in
    let (status, space) = map_single_page taken phys virt 3 in
    let undone : AddressSpace = record space { frames = free_frame space.frames phys } in
    if phys == 0 then some (none, record s { space = taken }) else elim status [
      | Status.ok ↦ elim (mark_tmp_map_used s.bitmap slot) [
        | none ↦ none
        | some bitmap ↦ some (
          some (record { phys = phys; virt = virt; slot = slot }),
          record { bitmap = bitmap; space = space },
        )
      ]
      | _ ↦ some (none, record s { space = undone })
    ]

-- CreateTempVirtualMap; `m` is the result of kmalloc, which is freed again where there is no mapping.
unfoldable pub create_temp_virtual_map :
    ℕ → TemporaryMaps → Option (Option VirtualMap × TemporaryMaps)
create_temp_virtual_map m s =
    if m == null then some (none, s) else elim (find_free_tmp_map_slot s.bitmap) [
      | none ↦ some (none, s)
      | some slot ↦ create_at slot s
    ]

-- DeleteTempVirtualMap; `none` stands for a stop.
unfoldable pub delete_temp_virtual_map : VirtualMap → TemporaryMaps → Option TemporaryMaps
delete_temp_virtual_map m s = elim (tmp_map_used s.bitmap m.slot) [
  | none ↦ none
  | some used ↦ if not used then none else elim (mark_tmp_map_free s.bitmap m.slot) [
    | none ↦ none
    | some bitmap ↦ some (record { bitmap = bitmap; space = unmap_single_page s.space m.virt })
  ]
]

-- KERNEL_STACK_BASE, KERNEL_STACK_END and KERNEL_STACK_SIZE_PAGES.
abbrev pub kernel_stack_base : ℕ
kernel_stack_base = 0xE0000000

abbrev pub kernel_stack_end : ℕ
kernel_stack_end = 0xEFFF0000

abbrev pub kernel_stack_size_pages : ℕ
kernel_stack_size_pages = 2

-- The loop of GetNextKernelStackAddress over the pages of a stack, from page `i` on: `conflict`.
unfoldable pub stack_conflict : ℕ → ℕ → AddressSpace → ℕ → Bool
stack_conflict zero i vm current_addr = false
stack_conflict (suc rounds) i vm current_addr =
    let rest = stack_conflict rounds (i + 1) vm current_addr in
    if is_virtual_page_mapped vm (add32 current_addr (mul32 i page_size)) then true else rest

-- The loop over the addresses, on fuel; `none` stands for the stop in FatalError.
unfoldable pub stack_from : ℕ → AddressSpace → ℕ → Option ℕ
stack_from zero vm current_addr = none
stack_from (suc fuel) vm current_addr =
    let rest = stack_from fuel vm (add32 current_addr (kernel_stack_size_pages * page_size)) in
    if ltb kernel_stack_end (add32 current_addr (kernel_stack_size_pages * page_size))
    then none
    else if not (stack_conflict kernel_stack_size_pages 0 vm current_addr)
    then some current_addr
    else rest

-- There are 32760 places for a stack.
unfoldable pub get_next_kernel_stack_address : AddressSpace → Option ℕ
get_next_kernel_stack_address vm = stack_from 32761 vm kernel_stack_base
