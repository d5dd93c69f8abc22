-- ===== src/Mem/Section.antt =====
-- Sections, sys/iomgr/section.c: runs of pages that a process asks for. The contents of their pages are
-- left out; `kassert`s are left to the callers.
pub mod Mapping
mod Tests
use dragon_ware.Base.{
  ℕ, zero, suc, ◌+◌, ◌-◌, ◌*◌, ◌^◌, ◌<◌, ◌≡◌, Bool, true, false, Option, none, some, not, ltb, leb,
  ◌==◌, if◌then◌else◌, bit_or,
}
use dragon_ware.Base.Words.{add32, mul32}
use dragon_ware.Base.Bits.{is_set}
use dragon_ware.Base.Store.{null, update}
use dragon_ware.Status.{Status}
use dragon_ware.Mem.Frame.{FrameManager, allocate_frame, free_frame}
use dragon_ware.Mem.Paging.{
  AddressSpace, page_size, map_single_page, unmap_single_page, find_free_page_range,
}

-- `physframes` holds 500 words.
pub record Section : Type 0 where
  pub address_space : ℕ
  pub n_pages : ℕ
  pub permissions : ℕ
  pub vmbase : ℕ
  pub physframes : ℕ → ℕ
  pub refcnt : ℕ

abbrev pub max_section_frames : ℕ
max_section_frames = 500

abbrev pub kernel_vm_page : ℕ
kernel_vm_page = 0xC0000

abbrev pub no_frames : ℕ → ℕ
no_frames i = 0

-- `scn` is the result of kmalloc.
unfoldable pub allocate_section : ℕ → ℕ → ℕ → Option Section
allocate_section scn needed_pages permissions =
    if needed_pages == 0
    then none
    else if leb max_section_frames needed_pages
    then none
    else if scn == null
    then none
    else some (record {
      address_space = 0;
      n_pages = needed_pages;
      permissions = permissions;
      vmbase = 0;
      physframes = no_frames;
      refcnt = 0;
    })

-- PAGE_PRESENT | PAGE_USER, PAGE_RW for SECTION_WRITEABLE, and PAGE_CACHE_DISABLED | PAGE_WRITETHROUGH
-- without SECTION_CACHEABLE.
unfoldable pub section_flags : ℕ → ℕ
section_flags permissions =
    let flags = if is_set permissions 0 then bit_or 5 2 else 5 in
    if is_set permissions 2 then flags else bit_or (bit_or flags 16) 8

-- The variables of MapSection's loop, and whether it has not gone to `fail`.
pub record Progress : Type 0 where
  pub section : Section
  pub space : AddressSpace
  pub frames_allocated : ℕ
  pub pages_mapped : ℕ
  pub fine : Bool

abbrev pub with_frames : AddressSpace → FrameManager → AddressSpace
with_frames vm frames = record vm { frames = frames }

-- The frame of page `i`, allocated where there is none yet.
unfoldable pub section_frame : Progress → ℕ → Progress
section_frame s i =
    let (frame, frames) = allocate_frame s.space.frames in
    if ltb 0 (s.section.physframes i) then s else record s {
      section = record s.section { physframes = update s.section.physframes i frame };
      space = with_frames s.space frames;
      frames_allocated = if frame == 0 then s.frames_allocated else s.frames_allocated + 1;
      fine = not (frame == 0);
    }

-- MapSection's loop, over `rounds` pages from page `i` on.
unfoldable pub map_loop : ℕ → ℕ → ℕ → ℕ → Progress → Progress
map_loop zero i start flags s = s
map_loop (suc rounds) i start flags s =
    let s' = section_frame s i in
    let (status, vm') =
      map_single_page s'.space (s'.section.physframes i) (add32 start (mul32 i page_size)) flags in
    let mapped = record s' { space = vm'; pages_mapped = s'.pages_mapped + 1 } in
    let rest = map_loop rounds (i + 1) start flags mapped in
    let failed = record s' { space = vm'; fine = false } in
    if not s'.fine then s' else elim status [ Status.ok ↦ rest | _ ↦ failed ]

unfoldable pub free_frames : ℕ → ℕ → (ℕ → ℕ) → FrameManager → FrameManager
free_frames zero i physframes frames = frames
free_frames (suc n) i physframes frames =
    free_frames n (i + 1) physframes (free_frame frames (physframes i))

unfoldable pub unmap_loop : ℕ → ℕ → ℕ → AddressSpace → AddressSpace
unmap_loop zero i start vm = vm
unmap_loop (suc n) i start vm =
    unmap_loop n (i + 1) start (unmap_single_page vm (add32 start (mul32 i page_size)))

-- MapSection from the address that FindFreePageRange found.
unfoldable pub map_at : ℕ → Section → AddressSpace → ℕ × (Section × AddressSpace)
map_at start section vm =
    let begin : Progress = record {
      section = section;
      space = vm;
      frames_allocated = 0;
      pages_mapped = 0;
      fine = true;
    } in
    let done = map_loop section.n_pages 0 start (section_flags section.permissions) begin in
    let freed =
      with_frames done.space
        (free_frames done.frames_allocated 0 done.section.physframes done.space.frames) in
    let failed : Section × AddressSpace =
      if ltb 1 done.section.refcnt
      then (record done.section { refcnt = done.section.refcnt - 1 }, done.space)
      else (
        record done.section { physframes = no_frames },
        unmap_loop done.pages_mapped 0 start freed,
      ) in
    if start == 0 then (0, (section, vm)) else if not done.fine then (0, failed) else (
      start,
      (record done.section { refcnt = done.section.refcnt + 1; vmbase = start }, done.space),
    )

-- The address or 0, the section and the address space.
unfoldable pub map_section : ℕ → Section → AddressSpace → ℕ × (Section × AddressSpace)
map_section fuel section vm =
    map_at
      (find_free_page_range fuel vm (4 * page_size) (kernel_vm_page * page_size) section.n_pages)
      section vm

unfoldable pub unmap_frames : ℕ → ℕ → ℕ → Section → AddressSpace → Section × AddressSpace
unmap_frames zero i base section vm = (section, vm)
unmap_frames (suc n) i base section vm =
    let freed = with_frames vm (free_frame vm.frames (section.physframes i)) in
    unmap_frames n (i + 1) base (record section { physframes = update section.physframes i 0 })
      (unmap_single_page freed (add32 base (mul32 i page_size)))

unfoldable pub unmap_section : Section → ℕ → AddressSpace → Section × AddressSpace
unmap_section section base vm =
    if ltb 1 section.refcnt
    then (record section { refcnt = section.refcnt - 1 }, vm)
    else unmap_frames section.n_pages 0 base section vm

-- Whether the section is gone, and what is left of it. DeleteSection compares the section's process
-- number with the number `thread_id` of the current thread.
unfoldable pub delete_section : Section → ℕ → AddressSpace → Bool × (Section × AddressSpace)
delete_section section thread_id vm =
    if not (section.address_space == thread_id)
    then (false, (section, vm))
    else if ltb 1 section.refcnt
    then (false, (record section { refcnt = section.refcnt - 1 }, vm))
    else (true, unmap_section section section.vmbase vm)
