-- ===== src/Mem/Frame.antt =====
-- The physical frame manager, sys/mem/frame.c: a bitmap of 32768 words with one bit for each 4 KiB
-- frame of the 4 GiB that ia32 addresses. A set bit is a reserved or allocated frame.
-- `uintptr_t` is 32 bits wide. This is the release build: the blocks under DRAGONWARE_DEBUG_MODE
-- and the assertion of `FreeFrame` (an aligned address) are not part of it.
pub mod Bitmap
pub mod Alloc
pub mod Spent
pub mod Init
mod Tests
use dragon_ware.Base.{
  ℕ, zero, suc, ◌+◌, ◌-◌, ◌*◌, ◌/◌, ◌%◌, ◌^◌, ◌≤◌, ◌<◌, ◌≡◌, Bool, true, false, List, [], ◌∷◌,
  Option, none, some, ltb, ◌==◌, if◌then◌else◌, length, get_or, set, replicate, take, drop,
}
use dragon_ware.Base.Words.{two32, add32, mul32}
use dragon_ware.Base.Bits.{is_set, set_bit, clear_bit}
use dragon_ware.Base.Ctz.{lowest_clear}

abbrev pub frame_size : ℕ
frame_size = 4096

-- `arraysize(bitmap)`.
abbrev pub bitmap_words : ℕ
bitmap_words = 32768

-- A bitmap word with no clear bit, 0xFFFFFFFF.
abbrev pub full_word : ℕ
full_word = 2 ^ 32 - 1

-- The file's static variables.
pub record FrameManager : Type 0 where
  pub bitmap : List ℕ
  pub highest_addr : ℕ

-- The number of a frame in the bitmap: `index` is its word and `bit` its bit.
abbrev pub frame_number : ℕ → ℕ
frame_number frameaddr = frameaddr / frame_size

pub mark_frame_available : FrameManager → ℕ → FrameManager
mark_frame_available fm frameaddr =
    let index = frameaddr / frame_size / 32 in
    let bit = frameaddr / frame_size % 32 in
    if ltb frameaddr (2 * frame_size)
    then fm
    else if ltb fm.highest_addr frameaddr
    then fm
    else record fm { bitmap = set fm.bitmap index (clear_bit (get_or fm.bitmap index 0) bit) }

unfoldable pub mark_frame_reserved : FrameManager → ℕ → FrameManager
mark_frame_reserved fm frameaddr =
    let index = frameaddr / frame_size / 32 in
    let bit = frameaddr / frame_size % 32 in
    record fm { bitmap = set fm.bitmap index (set_bit (get_or fm.bitmap index 0) bit) }

pub is_frame_allocated : FrameManager → ℕ → Bool
is_frame_allocated fm frameaddr =
    let index = frameaddr / frame_size / 32 in
    let bit = frameaddr / frame_size % 32 in is_set (get_or fm.bitmap index 0) bit

-- The loop of `GetFirstFreeHighFrame` and `GetFirstFreeLowFrame`, over `rounds` words from word `i`.
unfoldable pub first_free : ℕ → ℕ → List ℕ → ℕ
first_free zero i bitmap = 0
first_free (suc rounds) i bitmap =
    let rest = first_free rounds (i + 1) bitmap in
    if get_or bitmap i 0 == full_word
    then rest
    else mul32 (add32 (mul32 i 32) (lowest_clear (get_or bitmap i 0))) frame_size

unfoldable pub get_first_free_high_frame : FrameManager → ℕ
get_first_free_high_frame fm = first_free (bitmap_words - 8) 8 fm.bitmap

pub get_first_free_low_frame : FrameManager → ℕ
get_first_free_low_frame fm = first_free 8 0 fm.bitmap

-- `AllocateFrame` and `AllocateLowMemory` return the frame's address, 0 when there is none.
unfoldable pub allocate_frame : FrameManager → ℕ × FrameManager
allocate_frame fm =
    let frame = get_first_free_high_frame fm in (frame, mark_frame_reserved fm frame)

unfoldable pub allocate_low_memory : FrameManager → ℕ × FrameManager
allocate_low_memory fm =
    let frame = get_first_free_low_frame fm in (frame, mark_frame_reserved fm frame)

unfoldable pub free_frame : FrameManager → ℕ → FrameManager
free_frame fm frameaddr =
    if is_frame_allocated fm frameaddr then mark_frame_available fm frameaddr else fm

-- `MemoryRegion` (sys/mem/mm.h).
pub record MemoryRegion : Type 0 where
  pub available : Bool
  pub start : ℕ
  pub len : ℕ
  pub type : ℕ

-- `for (j = start; j < start + len; j += FRAME_SIZE) MarkFrameAvailable(j)`, where `end` is
-- `start + len`. The fuel bounds the rounds; `Init` shows that `len / 4096 + 1` rounds are enough.
pub mark_region : ℕ → ℕ → ℕ → FrameManager → FrameManager
mark_region zero j end fm = fm
mark_region (suc fuel) j end fm =
    let next = mark_region fuel (add32 j frame_size) end (mark_frame_available fm j) in
    if ltb j end then next else fm

-- One round of the loop over the regions.
pub init_region : FrameManager → MemoryRegion → FrameManager
init_region fm current =
    let end = add32 current.start current.len in
    let fm' = record fm {
      highest_addr = if ltb fm.highest_addr end then end else fm.highest_addr;
    } in
    if current.available
    then mark_region (current.len / frame_size + 1) current.start end fm'
    else fm

pub init_regions : FrameManager → List MemoryRegion → FrameManager
init_regions fm [] = fm
init_regions fm (current ∷ regions) = init_regions (init_region fm current) regions

-- The static variables once the bitmap is set to all ones.
abbrev pub blank : FrameManager
blank = record { bitmap = replicate bitmap_words full_word; highest_addr = 0 }

-- `InitFrameManager` over the regions that `FetchMemoryRegions` hands out; `none` stands for the stop
-- in `FatalError`, with no region at all.
unfoldable pub init_frame_manager : List MemoryRegion → Option FrameManager
init_frame_manager [] = none
init_frame_manager (r ∷ rs) = some (init_regions blank (r ∷ rs))
