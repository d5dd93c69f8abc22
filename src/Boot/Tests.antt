-- ===== src/Boot/Tests.antt =====
-- The boot manager at small examples: a CD whose bytes are their sector's number, a hard disk with one
-- file, and an executable of one segment.
use dragon_ware.Base.{
  ℕ, zero, suc, ◌+◌, ◌%◌, ◌≤◌, ◌<◌, ◌≡◌, refl, sym, ◌∙◌, ◌⊎◌, true, false, List, [], ◌∷◌, ◌++◌,
  Option, none, some, arith, ltb, ◌&&◌, if◌then◌else◌, length, replicate, length-replicate, get_or,
  take, drop,
}
use dragon_ware.Base.Segments.{segment, take-drop}
use dragon_ware.Status.{Status}
use dragon_ware.Boot.Disk.{
  Firmware, read_from_disk, read_from_disk_lomem, get_sector_size_for_drive,
}
use dragon_ware.Boot.Disk.Chunks.{Sectors, Reads, contents, read_from_disk-Reads}
use dragon_ware.Boot.Iso as Iso
use dragon_ware.Boot.Iso.Read as IsoRead
use dragon_ware.Boot.Iso.Directory as IsoDirectory
use dragon_ware.Boot.Iso.Directory.Finds as IsoFinds
use dragon_ware.Boot.Elf as Elf
use dragon_ware.Boot.Elf.Memory.{store}
use dragon_ware.Boot.Elf.Reader.{FileReader}
use dragon_ware.Boot.Elf.Kernel as ElfKernel
use dragon_ware.Text.Search.Laws.{IsText}
use dragon_ware.Text.Search.{strchr, strchr_loop}
use dragon_ware.Text.Case.{strncasecmp, tolower}

-- A drive whose sectors hold 512 times the low byte of their block addresses. A read of block 308 fails.
abbrev sector : ℕ → List ℕ
sector lba = replicate 512 (lba % 256)

abbrev small_drive : Firmware
small_drive = record {
  extended_read = λ drive lba n.
      if ltb lba 309 && ltb 308 (lba + n) then none else some (contents sector lba n);
  drive_parameters = λ drive. some 512;
  stale = [];
  behind = [];
}

small_drive-Sectors : Sectors small_drive 128 512 sector
unfolding get_sector_size_for_drive
small_drive-Sectors = record {
  sized = refl;
  at_least = omega arith;
  in_frame = omega arith;
  whole = λ lba. length-replicate 512 (lba % 256);
  gives = λ lba n bytes few e. ground arith;
}

read_from_disk-Reads_example :
    Reads small_drive 128 sector 8 300 20 0x200000
      (λ a. 0)
      (read_from_disk small_drive 128 300 20 0x200000 (λ a. 0))
read_from_disk-Reads_example =
    read_from_disk-Reads small_drive 128 512 sector small_drive-Sectors 300 20 0x200000 (λ a. 0)
      (omega arith) (omega arith) (omega arith)

-- A CD: a sector is 2048 times the low byte of its block address.
abbrev cd : Firmware
cd = record {
  extended_read = λ drive lba n. some (replicate 2048 (lba % 256));
  drive_parameters = λ drive. none;
  stale = [];
  behind = [];
}

cd-FullSectors : IsoRead.FullSectors cd
unfolding read_from_disk_lomem
cd-FullSectors drive lba fine = length-replicate 2048 (lba % 256)

abbrev cd_file : Iso.File
cd_file = record {
  cursor = 2046;
  filesize = 4000;
  loaded = true;
  ended = false;
  internal = record { starting_lba = 20; size = 4000; drive_index = 224 };
}

read_file-ReadsFile_example :
    ((cd_file.ended ≡ true) × (Iso.read_file cd cd_file 5 ≡ ([], cd_file)))
    ⊎ IsoRead.ReadsFile cd cd_file 5 (Iso.read_file cd cd_file 5)
read_file-ReadsFile_example =
    IsoRead.read_file-ReadsFile cd cd_file 5 cd-FullSectors (omega arith) (omega arith)

-- A directory with the file "A;1" of 9 bytes at block 33, behind a directory record.
abbrev directory_record : ℕ → ℕ → ℕ → List ℕ → List ℕ
directory_record lba size flags id =
    (33 + length id) ∷ 0 ∷ lba ∷ 0 ∷ 0 ∷ 0 ∷ 0 ∷ 0 ∷ 0 ∷ 0 ∷ size ∷ 0 ∷ 0 ∷ 0 ∷ replicate 11 0
    ++ flags ∷ 0 ∷ 0 ∷ 0 ∷ 0 ∷ 0 ∷ 0 ∷ length id ∷ id

abbrev directory_sector : List ℕ
directory_sector = directory_record 24 0 2 (0 ∷ []) ++ directory_record 33 9 0 (65 ∷ 59 ∷ 49 ∷ [])

abbrev directory_cd : Firmware
directory_cd = record {
  extended_read = λ drive lba n. some directory_sector;
  drive_parameters = λ drive. none;
  stale = [];
  behind = [];
}

abbrev root_record : IsoDirectory.DirectoryRecord
root_record = record { lba = 24; data_length = 2048; flags = 2; file_id = [] }

finds_file : IsoDirectory.find_directory_entry directory_cd 224 (97 ∷ []) root_record 4096 ≡ (
  Status.ok,
  some (
      IsoDirectory.opened 224
        (record { lba = 33; data_length = 9; flags = 0; file_id = 65 ∷ 59 ∷ 49 ∷ [] })),
)
unfolding IsoDirectory.find_directory_entry IsoDirectory.read_retrying IsoDirectory.scan
    IsoDirectory.is_entry IsoDirectory.before_version read_from_disk_lomem strchr strchr_loop
    strncasecmp tolower
finds_file = refl

abbrev AllBytes : List ℕ → Type 0
AllBytes [] = Unit {0}
AllBytes (x ∷ xs) = (x < 256) × AllBytes xs

all_bytes : (xs : List ℕ) → AllBytes xs → (i : ℕ) → get_or xs i 0 < 256
all_bytes [] h i = omega arith
all_bytes (x ∷ xs) h zero = h.0
all_bytes (x ∷ xs) h (suc i) = all_bytes xs h.1 i

find_directory_entry-FindsEntry_example :
    IsoFinds.FindsEntry directory_cd 224
      (97 ∷ [])
      root_record
      4096
      (IsoDirectory.find_directory_entry directory_cd 224 (97 ∷ []) root_record 4096)
unfolding read_from_disk_lomem
find_directory_entry-FindsEntry_example =
    IsoFinds.find_directory_entry-FindsEntry directory_cd 224 (97 ∷ []) root_record 4096
      (IsText.cons (omega arith) IsText.nil) (omega arith)
      (all_bytes directory_sector (omega arith))

-- A file as the list of its bytes.
listed_reads :
    (file bytes : List ℕ) (f f' : Unit {0}) (cursor n : ℕ)
    → cursor + n ≤ length file
    → ◌≡◌ {A = Option (List ℕ × Unit {0})} (some (take n (drop cursor file), tt)) (some (bytes, f'))
    → (bytes ≡ segment (λ k. get_or file k 0) cursor n) × Unit {0}
listed_reads file bytes f f' cursor n inside e =
    let same : take n (drop cursor file) ≡ bytes = cc in
    (sym same ∙ take-drop file cursor n inside, tt)

abbrev listed : List ℕ → FileReader
listed file = record {
  State = Unit {0};
  rewind = λ f. f;
  rewound = λ f opened. tt;
  read = λ f cursor n. some (take n (drop cursor file), tt);
  IsOpen = λ f. Unit {0};
  Inside = λ cursor n. cursor + n ≤ length file;
  content = λ k. get_or file k 0;
  reads = λ f f' cursor n bytes opened inside e. listed_reads file bytes f f' cursor n inside e;
}

-- An executable with one loadable segment, readable and executable, of two bytes, and two more of zeros, at 0x100000.
abbrev executable : List ℕ
executable =
    0x7F ∷ 69 ∷ 76 ∷ 70 ∷ 1 ∷ 1 ∷ 1 ∷ 0 ∷ replicate 8 0
    ++ 2 ∷ 0 ∷ 3 ∷ 0 ∷ 1 ∷ 0 ∷ 0 ∷ 0 ∷ 0 ∷ 0 ∷ 0x10 ∷ 0xC0 ∷ 52 ∷ 0 ∷ 0 ∷ 0 ∷ replicate 8 0
    ++ 52 ∷ 0 ∷ 32 ∷ 0 ∷ 1 ∷ 0 ∷ replicate 6 0
    ++ 1 ∷ 0 ∷ 0 ∷ 0 ∷ 84 ∷ 0 ∷ 0 ∷ 0 ∷ 0 ∷ 0 ∷ 0x10 ∷ 0xC0 ∷ 0 ∷ 0 ∷ 0x10 ∷ 0 ∷ 2 ∷ 0 ∷ 0 ∷ 0 ∷ 4
      ∷ 0 ∷ 0 ∷ 0 ∷ 5 ∷ 0 ∷ 0 ∷ 0 ∷ 0 ∷ 0 ∷ 0 ∷ 0 ∷ 0xAB ∷ 0xCD ∷ []

-- The entry, and the bytes at and around the segment.
abbrev seen : Option Elf.Loaded → List ℕ
seen none = []
seen (some k) =
    k.entry
    ∷ k.break
    ∷ k.memory 0xFFFFF
    ∷ k.memory 0x100000
    ∷ k.memory 0x100001
    ∷ k.memory 0x100002
    ∷ k.memory 0x100004
    ∷ []

loads_kernel :
    seen (Elf.read_elf_to_memory (listed executable) tt (λ a. 5))
    ≡ 0xC0100000 ∷ 0x101000 ∷ 5 ∷ 0xAB ∷ 0xCD ∷ 0 ∷ 5 ∷ []
unfolding Elf.read_elf_to_memory Elf.load_segments Elf.load_segment Elf.place Elf.is_valid_elf_file
    store
loads_kernel = refl
