-- ===== src/Mem/Section/Tests.antt =====
-- A section of two pages in an address space whose low pages have a table and page 4 is taken; 64 frames
-- from 1 MiB up are free.
use dragon_ware.Base.{◌*◌, ◌≡◌, refl, ◌==◌, if◌then◌else◌, set}
use dragon_ware.Base.Bits.{bit, set_bit}
use dragon_ware.Base.Ctz.{ctz}
use dragon_ware.Mem.Frame.{
  blank, allocate_frame, first_free, get_first_free_high_frame, mark_frame_reserved,
}
use dragon_ware.Mem.Paging.{
  AddressSpace, map_single_page, find_free_page_range, scan_pages, is_virtual_page_mapped,
}
use dragon_ware.Mem.Section.{
  Section, no_frames, map_section, map_at, map_loop, section_frame, section_flags,
}

abbrev space : AddressSpace
space = record {
  window = λ i. if i == 1023 * 1024 then 0x1007 else if i == 4 then 0x5007 else 0;
  frames = record { bitmap = set blank.bitmap 8 0; highest_addr = 0x110000 };
}

abbrev pair : Section
pair = record {
  address_space = 1;
  n_pages = 2;
  permissions = 1;
  vmbase = 0;
  physframes = no_frames;
  refcnt = 0;
}

mapped_at : (map_section 10 pair space).0 ≡ 0x5000
unfolding map_section map_at map_loop section_frame section_flags find_free_page_range scan_pages
    is_virtual_page_mapped map_single_page bit allocate_frame get_first_free_high_frame first_free
    mark_frame_reserved set_bit ctz
mapped_at = refl
