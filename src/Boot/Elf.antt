-- ===== src/Boot/Elf.antt =====
-- The loading of the kernel, bootmanager/core/elfldr/elfloader.c. A file is read through a `FileReader`.
pub mod Reader
pub mod Memory
pub mod Load
pub mod Segments
pub mod Kernel
use dragon_ware.Base.{
  ℕ, zero, suc, ◌+◌, ◌-◌, ◌*◌, ◌/◌, ◌%◌, ◌≤◌, ◌<◌, ◌≡◌, Bool, true, false, List, [], ◌∷◌, Option,
  none, some, not, ◌&&◌, leb, ltb, ◌==◌, if◌then◌else◌, max, replicate, bit_and,
}
use dragon_ware.Base.Words.{add32, sub32, mul32}
use dragon_ware.Boot.Iso.Directory.{byte, word32}
use dragon_ware.Boot.Elf.Reader.{FileReader}
use dragon_ware.Boot.Elf.Memory.{store}

abbrev pub half : List ℕ → ℕ → ℕ
half buf i = byte buf i + 256 * byte buf (i + 1)

-- `ELFHeader`, the fields that are read.
pub record ElfHeader : Type 0 where
  pub entry : ℕ
  pub pht_off : ℕ
  pub pht_entry_size : ℕ
  pub pht_n_entries : ℕ

abbrev pub header_of : List ℕ → ElfHeader
header_of buf = record {
  entry = word32 buf 24;
  pht_off = word32 buf 28;
  pht_entry_size = half buf 42;
  pht_n_entries = half buf 44;
}

-- IsValidELFFile, on the bytes of the header.
unfoldable pub is_valid_elf_file : List ℕ → Bool
is_valid_elf_file buf =
    byte buf 0 == 0x7F
    && byte buf 1 == b'E'
    && byte buf 2 == b'L'
    && byte buf 3 == b'F'
    && byte buf 7 == 0
    && half buf 18 == 3
    && byte buf 5 == 1
    && byte buf 4 == 1

-- `ELFProgramSegment`, the fields that are read.
pub record ElfProgramSegment : Type 0 where
  pub type : ℕ
  pub offset : ℕ
  pub vaddr : ℕ
  pub paddr : ℕ
  pub size : ℕ
  pub size_mem : ℕ
  pub flags : ℕ

abbrev pub segment_of : List ℕ → ElfProgramSegment
segment_of buf = record {
  type = word32 buf 0;
  offset = word32 buf 4;
  vaddr = word32 buf 8;
  paddr = word32 buf 12;
  size = word32 buf 16;
  size_mem = word32 buf 20;
  flags = word32 buf 24;
}

abbrev pub header_size : ℕ
header_size = 52

abbrev pub segment_size : ℕ
segment_size = 32

-- The variables of the loop over the segments, with the memory that they are loaded to.
pub record Loading : Type 0 where
  pub memory : ℕ → ℕ
  pub segments_loaded : ℕ
  pub virt_offset : ℕ
  pub highest_addr_used : ℕ

-- A loadable segment, once the bytes of it are read. `IS_SET(flags, ELF_SEGMENT_EXECUTABLE)` tests the bit
-- at position 1, which is that of a writable segment.
unfoldable pub place : ElfProgramSegment → List ℕ → Loading → Loading
place seg bytes l = record {
  memory = store (store l.memory seg.paddr (replicate seg.size_mem 0)) seg.paddr bytes;
  segments_loaded = l.segments_loaded + 1;
  virt_offset = if bit_and seg.flags 2 == 0 then l.virt_offset else sub32 seg.vaddr seg.paddr;
  highest_addr_used =
      let seg_end = add32 seg.paddr seg.size_mem in
      if ltb l.highest_addr_used seg_end then seg_end else l.highest_addr_used;
}

-- What the boot manager enters: the kernel's memory and entry, and where the high memory begins.
pub record Loaded : Type 0 where
  pub memory : ℕ → ℕ
  pub entry : ℕ
  pub break : ℕ

abbrev pub page_align : ℕ → ℕ
page_align x = add32 x 4095 / 4096 * 4096

module _ (r : FileReader) where
  open r use {State, read, rewind}

  -- The body of the loop; `none` where the boot manager stops.
  unfoldable pub load_segment : State → ElfProgramSegment → Loading → Option (Loading × State)
  load_segment f seg l =
      if not (seg.type == 1) then some (l, f) else elim (read f seg.offset seg.size) [
        | none ↦ none
        | some (bytes, f') ↦ some (place seg bytes l, f')
      ]

  -- The loop from segment `i` on, with `rounds` left.
  unfoldable pub load_segments : ℕ → ElfHeader → ℕ → State → Loading → Option (Loading × State)
  load_segments zero h i f l = some (l, f)
  load_segments (suc rounds) h i f l =
      elim (read f (add32 h.pht_off (mul32 i h.pht_entry_size)) segment_size) [
        | none ↦ none
        | some (buf, f') ↦ elim (load_segment f' (segment_of buf) l) [
          | none ↦ none
          | some (l', f'') ↦ load_segments rounds h (i + 1) f'' l'
        ]
      ]

  -- ReadELFToMemory of the file, at memory `memory`.
  unfoldable pub read_elf_to_memory : State → (ℕ → ℕ) → Option Loaded
  read_elf_to_memory f memory = elim (read (rewind f) 0 header_size) [
    | none ↦ none
    | some (buf, f') ↦
        if not (is_valid_elf_file buf)
        then none
        else elim (load_segments (header_of buf).pht_n_entries (header_of buf) 0 f' (record {
          memory = memory;
          segments_loaded = 0;
          virt_offset = 0;
          highest_addr_used = 0;
        })) [
          | none ↦ none
          | some (l, f'') ↦
              if l.segments_loaded == 0
              then none
              else some (record {
                memory = l.memory;
                entry = sub32 (header_of buf).entry l.virt_offset;
                break = page_align l.highest_addr_used;
              })
        ]
  ]
