-- ===== src/Mem/Regions.antt =====
-- The memory regions that the kernel may use, sys/mem/mm.c: AddMemoryRegions cuts the kernel and the
-- boot modules out of the boot loader's memory map. The Multiboot structure is input: its map, its
-- modules and the kernel's bounds, all page-aligned by the caller of `add_memory_regions` as the
-- source aligns them.
pub mod Sort
pub mod Cut
mod Tests
use dragon_ware.Base.{
  ℕ, zero, suc, ◌+◌, ◌-◌, ◌*◌, ◌/◌, ◌%◌, ◌^◌, ◌≤◌, ◌<◌, ◌≡◌, Bool, true, false, List, [], ◌∷◌, ◌++◌,
  map, not, ◌&&◌, ◌||◌, ltb, leb, ◌==◌, if◌then◌else◌, length, take,
}
use dragon_ware.Base.Words.{add32, two32, two64}
use dragon_ware.Mem.Frame.{MemoryRegion}

-- `ReservedRegion`; `stop` is its field `end`.
pub record ReservedRegion : Type 0 where
  pub start : ℕ
  pub stop : ℕ

-- A `MultibootMMapEntry`, and a `MultibootModule`.
pub record MmapEntry : Type 0 where
  pub addr : ℕ
  pub len : ℕ
  pub type : ℕ

pub record Module : Type 0 where
  pub start : ℕ
  pub stop : ℕ

abbrev pub max_mem_regions : ℕ
max_mem_regions = 64

abbrev pub max_reserved : ℕ
max_reserved = 64

abbrev pub page_size : ℕ
page_size = 4096

-- `aligndown` and `pagealign`, of a 32-bit `Size`.
abbrev pub align_down : ℕ → ℕ
align_down x = x / page_size * page_size

abbrev pub page_align : ℕ → ℕ
page_align x = add32 x (page_size - 1) / page_size * page_size

-- `if (regions[j].start < regions[j - 1].start)` with its swap, where `r` is at `j - 1`.
abbrev pub exchange : ReservedRegion → List ReservedRegion → List ReservedRegion
exchange r [] = r ∷ []
exchange r (q ∷ rest) = if ltb q.start r.start then q ∷ r ∷ rest else r ∷ q ∷ rest

-- The inner loop of SortReservedChunks, which goes from the end of the array down to index `i`, on the
-- part of the array from index `i - 1` on.
unfoldable pub bubble : List ReservedRegion → List ReservedRegion
bubble [] = []
bubble (r ∷ rest) = exchange r (bubble rest)

abbrev pub tail_of : List ReservedRegion → List ReservedRegion
tail_of [] = []
tail_of (r ∷ rest) = rest

abbrev pub put_front : List ReservedRegion → List ReservedRegion → List ReservedRegion
put_front [] rest = rest
put_front (r ∷ _) rest = r ∷ rest

-- The outer loop: the next round works on the array behind the part that is in place.
unfoldable pub sort_loop : ℕ → List ReservedRegion → List ReservedRegion
sort_loop zero regions = regions
sort_loop (suc rounds) regions =
    let bubbled = bubble regions in put_front bubbled (sort_loop rounds (tail_of bubbled))

unfoldable pub sort_reserved_chunks : List ReservedRegion → List ReservedRegion
sort_reserved_chunks regions = sort_loop (length regions - 1) regions

abbrev pub region : ℕ → ℕ → ℕ → MemoryRegion
region type start stop = record { available = true; start = start; len = stop - start; type = type }

-- `if (mem_regions_idx < MAX_MEM_REGIONS) mem_regions[mem_regions_idx++] = mm`.
abbrev pub add_region : List MemoryRegion → MemoryRegion → List MemoryRegion
add_region regions mm =
    if ltb (length regions) max_mem_regions then regions ++ (mm ∷ []) else regions

-- The loop over the reserved regions, and what follows it, for a region up to `region_end`.
unfoldable pub cut_region : List ReservedRegion → ℕ → ℕ → ℕ → List MemoryRegion → List MemoryRegion
cut_region [] type region_end curr_start regions =
    if ltb curr_start region_end
    then add_region regions (region type curr_start region_end)
    else regions
cut_region (r ∷ reserved) type region_end curr_start regions =
    let skipped = cut_region reserved type region_end curr_start regions in
    let last =
      if ltb curr_start region_end
      then add_region regions (region type curr_start region_end)
      else regions in
    let more =
      if ltb curr_start r.start
      then add_region regions (region type curr_start r.start)
      else regions in
    let rest = cut_region reserved type region_end r.stop more in
    if leb r.stop curr_start then skipped else if leb region_end r.start then last else rest

-- PTR32_MAX_ADDRESSABLE.
abbrev pub max_addressable : ℕ
max_addressable = 0xFFFFFFFF

-- REGION_AVAILABLE or REGION_ACPI_RECLAIMABLE.
abbrev pub is_usable : ℕ → Bool
is_usable type = type == 1 || type == 3

-- The end of an entry as the code takes it: its last byte, but at most the last one below 4 GiB.
abbrev pub entry_end : MmapEntry → ℕ
entry_end e =
    let stop = (e.addr + e.len + (two64 - 1)) % two64 in
    if leb max_addressable stop then max_addressable - 1 else stop

abbrev pub add_entry : List ReservedRegion → MmapEntry → List MemoryRegion → List MemoryRegion
add_entry reserved e regions =
    if leb max_addressable e.addr
    then regions
    else if is_usable e.type
    then cut_region reserved e.type (entry_end e) e.addr regions
    else regions

-- The `while` over the memory map, which also ends where the array is full.
unfoldable pub add_entries :
    List ReservedRegion → List MmapEntry → List MemoryRegion → List MemoryRegion
add_entries reserved [] regions = regions
add_entries reserved (e ∷ entries) regions =
    let added = add_entry reserved e regions in
    let rest = add_entries reserved entries added in
    if not (leb max_addressable e.addr) && leb max_mem_regions (length added) then added else rest

abbrev pub reserve : Module → ReservedRegion
reserve m = record { start = align_down m.start; stop = page_align m.stop }

-- The kernel and the modules, at most 64 in all; `kernel` gives its physical bounds.
unfoldable pub add_memory_regions : Module → List Module → List MmapEntry → List MemoryRegion
add_memory_regions kernel mods entries =
    add_entries (sort_reserved_chunks (take max_reserved (reserve kernel ∷ map reserve mods)))
      entries []
