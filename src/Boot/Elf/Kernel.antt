-- ===== src/Boot/Elf/Kernel.antt =====
-- Whether and how a kernel is loaded.
use dragon_ware.Base.{ℕ, ◌≡◌, ◌≢◌, true, false, List, [], Option, none, some}
use dragon_ware.Base.Words.{sub32}
use dragon_ware.Base.Segments.{segment}
use dragon_ware.Boot.Elf.Reader.{FileReader}
use dragon_ware.Boot.Elf.{
  header_of, is_valid_elf_file, ElfProgramSegment, header_size, Loading, Loaded, page_align,
  load_segments,
}
use dragon_ware.Boot.Elf.Load.{loadable, image_byte, last_offset, highest}
use dragon_ware.Boot.Elf.Segments.{Stops}

abbrev start : (ℕ → ℕ) → Loading
start memory = record {
  memory = memory;
  segments_loaded = 0;
  virt_offset = 0;
  highest_addr_used = 0;
}

module _ (r : FileReader) where
  open r use {State, rewind, read, IsOpen, Inside, content, rewound, reads}

  -- The file's header and its loadable segments.
  abbrev pub header_bytes : List ℕ
  header_bytes = segment content 0 header_size

  abbrev pub segments : List ElfProgramSegment
  segments = loadable content (header_of header_bytes).pht_n_entries (header_of header_bytes) 0

  -- What ReadELFToMemory does: it stops at a read, a header or a file without segments; or it loads the kernel.
  pub data LoadsKernel (memory : ℕ → ℕ) : Option Loaded → Type 0 where
    unread : Stops r → LoadsKernel memory none
    invalid : is_valid_elf_file header_bytes ≡ false → LoadsKernel memory none
    empty : segments ≡ [] → LoadsKernel memory none
    loaded :
        {kernel : Loaded}
        → is_valid_elf_file header_bytes ≡ true
        → segments ≢ []
        → ((a : ℕ) → kernel.memory a ≡ image_byte content segments a (memory a))
        → kernel.entry ≡ sub32 (header_of header_bytes).entry (last_offset content segments 0)
        → kernel.break ≡ page_align (highest content segments 0)
        → LoadsKernel memory (some kernel)

  abbrev after_header : List ℕ → State → (ℕ → ℕ) → Option (Loading × State)
  after_header buf f1 memory =
      load_segments r (header_of buf).pht_n_entries (header_of buf) 0 f1 (start memory)
