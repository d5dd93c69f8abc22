-- ===== src/Mem/Temporary/Tests.antt =====
-- Slot 0 in use, and one page table at the slots' pages.
use dragon_ware.Base.{
  ◌+◌, ◌*◌, ◌≡◌, refl, none, some, [], ◌∷◌, ◌++◌, replicate, ◌==◌, if◌then◌else◌,
}
use dragon_ware.Base.Bits.{bit}
use dragon_ware.Base.Ctz.{ctz}
use dragon_ware.Mem.Frame.{
  FrameManager, full_word, allocate_frame, get_first_free_high_frame, first_free,
}
use dragon_ware.Mem.Paging.{map_single_page, is_virtual_page_mapped}
use dragon_ware.Mem.Temporary.{
  TemporaryMaps, VirtualMap, create_at, mark_tmp_map_used, free_bit, free_slot,
  find_free_tmp_map_slot, create_temp_virtual_map, delete_temp_virtual_map, stack_conflict,
  stack_from, get_next_kernel_stack_address,
}
use dragon_ware.Mem.Temporary.Mappings.{
  Creates, create_temp_virtual_map-Creates, IsRestored,
  delete_temp_virtual_map-create_temp_virtual_map,
}
use dragon_ware.Mem.Temporary.Stacks.{FindsStack, get_next_kernel_stack_address-FindsStack}

-- Frame 0x100000 is free, and the frames above 0x120000.
abbrev one_left : FrameManager
one_left = record { bitmap = replicate 8 full_word ++ 0xFFFFFFFE ∷ []; highest_addr = 0x200000 }

abbrev maps : TemporaryMaps
maps = record {
  bitmap = λ i. if i == 0 then 0xFFFFFFFF else if i == 1 then 5 else 0;
  space = record {
    window = λ i.
        if i == 1023 * 1024 + 0x3C7
        then 0x1003
        else if i == 1023 * 1024 + 0x380
        then 0x2003
        else if i == 0xE0001
        then 0x5003
        else 0;
    frames = one_left;
  };
}

second_word : find_free_tmp_map_slot maps.bitmap ≡ some 33
unfolding find_free_tmp_map_slot free_slot free_bit bit
second_word = refl

second_place : get_next_kernel_stack_address maps.space ≡ some 0xE0002000
unfolding get_next_kernel_stack_address stack_from stack_conflict is_virtual_page_mapped bit
second_place = refl

abbrev mapping : VirtualMap
mapping = record { phys = 0x100000; virt = 0xF1FDF000; slot = 33 }

after : TemporaryMaps
after = elim (create_temp_virtual_map 0x400 maps) [ none ↦ maps | some (v, s) ↦ s ]

is_made : create_temp_virtual_map 0x400 maps ≡ some (some mapping, after)
unfolding after create_temp_virtual_map find_free_tmp_map_slot free_slot free_bit bit create_at
    allocate_frame get_first_free_high_frame first_free ctz map_single_page mark_tmp_map_used
is_made = refl

delete_temp_virtual_map-create_temp_virtual_map_example :
    (s : TemporaryMaps) × ((delete_temp_virtual_map mapping after ≡ some s) × IsRestored maps s)
delete_temp_virtual_map-create_temp_virtual_map_example =
    delete_temp_virtual_map-create_temp_virtual_map 0x400 maps after mapping is_made

create_temp_virtual_map-Creates_example : Creates 0x400 maps (create_temp_virtual_map 0x400 maps)
create_temp_virtual_map-Creates_example = create_temp_virtual_map-Creates 0x400 maps

get_next_kernel_stack_address-FindsStack_example :
    FindsStack maps.space 0 (get_next_kernel_stack_address maps.space)
get_next_kernel_stack_address-FindsStack_example =
    get_next_kernel_stack_address-FindsStack maps.space
