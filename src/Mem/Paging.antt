-- ===== src/Mem/Paging.antt =====
-- Page directory and page tables, sys/ddk/ia32/vmm.c. The last directory entry points to the directory
-- itself, so the processor shows all page tables as one window of 2 ^ 20 words, in which word
-- `addr / 4096` is the table entry of the page of `addr`, and the window's last 1024 words are the
-- directory. Flushes of the TLB are left out.
pub mod Pages
pub mod Range
pub mod Scan
mod Tests
use dragon_ware.Base.{
  ℕ, zero, suc, ◌+◌, ◌*◌, ◌/◌, ◌%◌, ◌^◌, ◌≡◌, Bool, true, false, not, ◌||◌, ltb, leb, ◌==◌,
  if◌then◌else◌, bit_or,
}
use dragon_ware.Base.Words.{add32, mul32}
use dragon_ware.Base.Bits.{is_set}
use dragon_ware.Base.Store.{null, update}
use dragon_ware.Status.{Status}
use dragon_ware.Mem.Frame.{FrameManager, allocate_frame}

abbrev pub page_size : ℕ
page_size = 4096

-- `PD_INDEX` and `PT_INDEX`.
abbrev pub pd_index : ℕ → ℕ
pd_index x = x / 2 ^ 22 % 1024

abbrev pub pt_index : ℕ → ℕ
pt_index x = x / 2 ^ 12 % 1024

-- KERNEL_PDE_FLAGS, PAGE_PRESENT | PAGE_RW, and with PAGE_USER.
abbrev pub kernel_pde_flags : ℕ
kernel_pde_flags = 3

abbrev pub user_pde_flags : ℕ
user_pde_flags = 7

-- The window at PAGE_TABLE_BASE, by words, and the frame allocator.
pub record AddressSpace : Type 0 where
  pub window : ℕ → ℕ
  pub frames : FrameManager

-- `CURRENT_PAGE_DIRECTORY[index]`, 0xFFFFF000 on.
abbrev pub directory_at : ℕ → ℕ
directory_at index = 1023 * 1024 + index

-- `GetPageTableAt(pdindex)[ptindex]`.
abbrev pub entry_at : ℕ → ℕ → ℕ
entry_at pdindex ptindex = pdindex * 1024 + ptindex

abbrev pub is_present : ℕ → Bool
is_present entry = is_set entry 0

-- The entry of the directory, once a new table is there, and the table zeroed.
abbrev pub with_table : (ℕ → ℕ) → ℕ → ℕ → (ℕ → ℕ)
with_table window pdindex entry i =
    if i / 1024 == pdindex then 0 else update window (directory_at pdindex) entry i

unfoldable pub map_single_page : AddressSpace → ℕ → ℕ → ℕ → Status × AddressSpace
map_single_page vm phys virt flags =
    let pdindex = pd_index virt in
    let at = entry_at pdindex (pt_index virt) in
    let pdflags = if is_set flags 2 then user_pde_flags else kernel_pde_flags in
    let (new_pt_phys, frames) = allocate_frame vm.frames in
    let created = record vm {
      window = with_table vm.window pdindex (bit_or new_pt_phys pdflags);
      frames = frames;
    } in
    if virt == 0 || not (phys % page_size == 0) || not (virt % page_size == 0)
    then (Status.bad_argument, vm)
    else if not (is_present (vm.window (directory_at pdindex)))
    then (if new_pt_phys == 0
        then (Status.out_of_memory, record vm { frames = frames })
        else if is_present (created.window at)
        then (Status.retry, created)
        else (Status.ok, record created { window = update created.window at (bit_or phys flags) }))
    else if is_present (vm.window at)
    then (Status.retry, vm)
    else (Status.ok, record vm { window = update vm.window at (bit_or phys flags) })

-- The kernel stops where `addr` is not aligned; every call here has an aligned one.
unfoldable pub is_virtual_page_mapped : AddressSpace → ℕ → Bool
is_virtual_page_mapped vm addr =
    if not (is_present (vm.window (directory_at (pd_index addr))))
    then false
    else is_present (vm.window (entry_at (pd_index addr) (pt_index addr)))

unfoldable pub unmap_single_page : AddressSpace → ℕ → AddressSpace
unmap_single_page vm virt =
    let at = entry_at (pd_index virt) (pt_index virt) in
    if not (is_virtual_page_mapped vm virt)
    then vm
    else if not (is_present (vm.window (directory_at (pd_index virt))))
    then vm
    else if not (is_present (vm.window at))
    then vm
    else record vm { window = update vm.window at 0 }

-- The loop of FindFreePageRange, from `addr` on.
unfoldable pub scan_pages : ℕ → AddressSpace → ℕ → ℕ → ℕ → ℕ → ℕ → ℕ
scan_pages zero vm stop_scan n_pages addr start count = 0
scan_pages (suc fuel) vm stop_scan n_pages addr start count =
    let start' = if count == 0 then addr else start in
    let longer = scan_pages fuel vm stop_scan n_pages (add32 addr page_size) start' (count + 1) in
    let reset = scan_pages fuel vm stop_scan n_pages (add32 addr page_size) start 0 in
    if leb stop_scan addr
    then 0
    else if is_virtual_page_mapped vm addr
    then reset
    else if count + 1 == n_pages
    then start'
    else longer

unfoldable pub find_free_page_range : ℕ → AddressSpace → ℕ → ℕ → ℕ → ℕ
find_free_page_range fuel vm start_scan stop_scan n_pages =
    if start_scan == 0
    then 0
    else if n_pages == 0
    then 0
    else scan_pages fuel vm stop_scan n_pages start_scan 0 0

-- The loop of MapMemoryRange, from round `i` on: the count of the pages mapped.
unfoldable pub map_pages : ℕ → ℕ → AddressSpace → ℕ → ℕ → ℕ → ℕ × AddressSpace
map_pages zero i vm phys virt flags = (0, vm)
map_pages (suc rounds) i vm phys virt flags =
    let (status, vm') =
      map_single_page vm (add32 phys (mul32 i page_size)) (add32 virt (mul32 i page_size)) flags in
    let (n, vm'') = map_pages rounds (i + 1) vm' phys virt flags in
    elim status [ Status.ok ↦ (n + 1, vm'') | _ ↦ (n, vm'') ]

unfoldable pub map_memory_range : AddressSpace → ℕ → ℕ → ℕ → ℕ → ℕ × AddressSpace
map_memory_range vm phys virt flags n_pages = map_pages n_pages 0 vm phys virt flags

-- The loop of UnmapMemoryRange: whether any page was unmapped before.
unfoldable pub unmap_pages : ℕ → ℕ → AddressSpace → ℕ → Bool × AddressSpace
unmap_pages zero i vm virt = (false, vm)
unmap_pages (suc rounds) i vm virt =
    let target = add32 virt (mul32 i page_size) in
    let hole = not (is_virtual_page_mapped vm target) in
    let (any, vm') = unmap_pages rounds (i + 1) (unmap_single_page vm target) virt in
    let (any_hole, vm_hole) = unmap_pages rounds (i + 1) vm virt in
    if hole then (true, vm_hole) else (any, vm')

unfoldable pub unmap_memory_range : AddressSpace → ℕ → ℕ → Status × AddressSpace
unmap_memory_range vm virt n_pages =
    let (any_unmapped_pages, vm') = unmap_pages n_pages 0 vm virt in
    if not (virt % page_size == 0)
    then (Status.bad_argument, vm)
    else if any_unmapped_pages
    then (Status.out_of_bounds, vm')
    else (Status.ok, vm')
