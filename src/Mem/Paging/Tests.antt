-- ===== src/Mem/Paging/Tests.antt =====
-- An address space with one page table, for the first 4 MiB, that maps page 0x10.
use dragon_ware.Base.{◌*◌, ◌/◌, ◌≡◌, refl, true, false, arith, ◌==◌, if◌then◌else◌}
use dragon_ware.Base.Bits.{bit}
use dragon_ware.Status.{Status}
use dragon_ware.Mem.Frame.{blank}
use dragon_ware.Mem.Paging.{
  AddressSpace, page_size, is_present, map_single_page, unmap_single_page, is_virtual_page_mapped,
  find_free_page_range, scan_pages, map_memory_range, map_pages,
}
use dragon_ware.Mem.Paging.Pages.{
  page_entry, Maps, map_single_page-Maps, page_entry-unmap_single_page,
}
use dragon_ware.Mem.Paging.Range.{Mapped, map_memory_range-Mapped}
use dragon_ware.Mem.Paging.Scan.{Finds, find_free_page_range-Finds}

abbrev space : AddressSpace
space = record {
  window = λ i. if i == 1023 * 1024 then 0x1003 else if i == 0x10 then 0x5003 else 0;
  frames = blank;
}

mapped_page : is_virtual_page_mapped space 0x10000 ≡ true
unfolding is_virtual_page_mapped bit
mapped_page = refl

mapped_twice : (map_single_page space 0x7000 0x10000 3).0 ≡ Status.retry
unfolding map_single_page bit
mapped_twice = refl

found : find_free_page_range 100 space 0xF000 0x20000 2 ≡ 0x11000
unfolding find_free_page_range scan_pages is_virtual_page_mapped bit
found = refl

mapped_range : (map_memory_range space 0x7000 0xE000 3 4).0 ≡ 3
unfolding map_memory_range map_pages map_single_page bit
mapped_range = refl

map_single_page-Maps_example : Maps space 0x7000 0x11000 3 (map_single_page space 0x7000 0x11000 3)
map_single_page-Maps_example = map_single_page-Maps space 0x7000 0x11000 3 (omega arith)

page_entry-unmap_single_page_example :
    is_present (page_entry (unmap_single_page space 0x10000) 0x10)
    ≡ (if 0x10 == 0x10000 / page_size then false else is_present (page_entry space 0x10))
page_entry-unmap_single_page_example =
    page_entry-unmap_single_page space 0x10000 0x10 (omega arith) (omega arith)

map_memory_range-Mapped_example :
    Mapped space 0x7000 0x11 3 4 0 (map_memory_range space 0x7000 (0x11 * page_size) 3 4)
map_memory_range-Mapped_example =
    map_memory_range-Mapped space 0x7000 0x11 3 4 (omega arith) (omega arith)

find_free_page_range-Finds_example :
    Finds space 0xF 0x20 2 (find_free_page_range 20 space (0xF * page_size) (0x20 * page_size) 2)
find_free_page_range-Finds_example =
    find_free_page_range-Finds space 0xF 0x20 2 (omega arith) (omega arith) (omega arith) 20
      (omega arith) (omega arith)
