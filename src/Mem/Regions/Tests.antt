-- ===== src/Mem/Regions/Tests.antt =====
-- A map with a low and a high usable part, the kernel at 1 MiB, and a module behind it.
use dragon_ware.Base.{arith, ◌<◌, ◌≡◌, refl, true, false, List, [], ◌∷◌, map, length, take}
use dragon_ware.Mem.Regions.{
  Module, MmapEntry, add_memory_regions, add_entries, cut_region, sort_reserved_chunks, sort_loop,
  bubble, region, max_mem_regions, max_reserved,
}
use dragon_ware.Mem.Regions.Sort.{in_reserved}
use dragon_ware.Mem.Regions.Cut.{in_regions, in_entries, whole_pages, add_memory_regions_lem}

abbrev kernel : Module
kernel = record { start = 0x100000; stop = 0x110010 }

abbrev mods : List Module
mods = record { start = 0x120000; stop = 0x121000 } ∷ []

abbrev entries : List MmapEntry
entries =
    record { addr = 0; len = 0x9F000; type = 1 }
    ∷ record { addr = 0x100000; len = 0x100000; type = 1 }
    ∷ []

cut :
    add_memory_regions kernel mods entries
    ≡ region 1 0 0x9EFFF ∷ region 1 0x111000 0x120000 ∷ region 1 0x121000 0x1FFFFF ∷ []
unfolding add_memory_regions add_entries cut_region sort_reserved_chunks sort_loop bubble
cut = refl

add_memory_regions_lem_example :
    (in_regions (add_memory_regions kernel mods entries) 0x111000 ≡ true
      → (in_entries entries 0x111000 ≡ true)
        × (in_reserved (take max_reserved (map whole_pages (kernel ∷ mods))) 0x111000 ≡ false))
    × (length (add_memory_regions kernel mods entries) < max_mem_regions
        → in_entries entries 0x111000 ≡ true
        → in_reserved (take max_reserved (map whole_pages (kernel ∷ mods))) 0x111000 ≡ false
        → in_regions (add_memory_regions kernel mods entries) 0x111000 ≡ true)
add_memory_regions_lem_example =
    add_memory_regions_lem kernel mods entries 0x111000 (omega arith, (omega arith, tt))
