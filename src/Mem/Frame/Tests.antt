-- ===== src/Mem/Frame/Tests.antt =====
-- A machine with four frames from 1 MiB on, and a hole below.
use dragon_ware.Base.{
  ℕ, ◌*◌, ◌<◌, ◌≡◌, refl, true, false, List, [], ◌∷◌, arith, not, ltb, ◌&&◌, some,
}
use dragon_ware.Base.Bits.{set_bit, clear_bit}
use dragon_ware.Base.Ctz.{ctz}
use dragon_ware.Mem.Frame.{
  FrameManager, MemoryRegion, bitmap_words, blank, init_region, init_regions, init_frame_manager,
  mark_region, mark_frame_available, mark_frame_reserved, first_free, get_first_free_high_frame,
  allocate_frame,
}
use dragon_ware.Mem.Frame.Bitmap.{allocated, IsValid}
use dragon_ware.Mem.Frame.Alloc.{IsAllocation, high_frames, all_frames, allocate_frame-IsAllocation}
use dragon_ware.Mem.Frame.Init.{
  AllUsual, any_covers, init_regions-IsValid, blank-IsValid, init_frame_manager_lem,
}

abbrev low_region : MemoryRegion
low_region = record { available = false; start = 0; len = 0x9F000; type = 2 }

abbrev high_region : MemoryRegion
high_region = record { available = true; start = 0x100000; len = 0x4000; type = 1 }

abbrev regions : List MemoryRegion
regions = low_region ∷ high_region ∷ []

regions-AllUsual : AllUsual regions
regions-AllUsual = omega arith

booted : FrameManager
booted = init_regions blank regions

booted-IsValid : IsValid booted
unfolding booted
booted-IsValid = init_regions-IsValid regions blank-IsValid regions-AllUsual

first_frame : (allocate_frame booted).0 ≡ 0x100000
unfolding booted init_regions init_region mark_region mark_frame_available allocate_frame
    get_first_free_high_frame first_free clear_bit ctz
first_frame = refl

second_frame : (allocate_frame (allocate_frame booted).1).0 ≡ 0x101000
unfolding booted init_regions init_region mark_region mark_frame_available mark_frame_reserved
    allocate_frame get_first_free_high_frame first_free clear_bit set_bit ctz
second_frame = refl

highest : booted.highest_addr ≡ 0x104000
unfolding booted init_regions init_region mark_region mark_frame_available
highest = refl

init_frame_manager_lem_example :
    (fm : FrameManager) × (init_frame_manager regions ≡ some fm)
    × IsValid fm
    × ((k : ℕ)
        → k < bitmap_words * 32
        → allocated fm.bitmap k ≡ not (ltb 1 k && any_covers regions k))
init_frame_manager_lem_example =
    init_frame_manager_lem low_region (high_region ∷ []) regions-AllUsual

allocate_frame-IsAllocation_example :
    IsAllocation booted high_frames all_frames (allocate_frame booted)
allocate_frame-IsAllocation_example = allocate_frame-IsAllocation booted-IsValid
