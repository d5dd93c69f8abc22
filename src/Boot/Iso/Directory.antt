-- ===== src/Boot/Iso/Directory.antt =====
-- The search of a CD's root directory, bootmanager/core/fs/iso9660/iso9660.c.
pub mod Scan
pub mod Finds
use dragon_ware.Base.{
  ℕ, zero, suc, ◌+◌, ◌-◌, ◌*◌, ◌/◌, ◌%◌, ◌≤◌, ◌<◌, ◌≡◌, Bool, true, false, List, [], ◌∷◌, ◌++◌,
  Option, none, some, not, ◌&&◌, leb, ltb, ◌==◌, if◌then◌else◌, take, drop, length, get_or, bit_and,
}
use dragon_ware.Base.Words.{add32}
use dragon_ware.Base.Store.{null}
use dragon_ware.Status.{Status}
use dragon_ware.Text.Search.{Order, strchr}
use dragon_ware.Text.Case.{strncasecmp}
use dragon_ware.Boot.Disk.{Firmware, cd_sector_size, read_from_disk_lomem}
use dragon_ware.Boot.Iso.{DriverFileData, File}

-- Little-endian fields of a buffer.
abbrev pub byte : List ℕ → ℕ → ℕ
byte buf i = get_or buf i 0

abbrev pub word32 : List ℕ → ℕ → ℕ
word32 buf i =
    byte buf i + 256 * byte buf (i + 1) + 65536 * byte buf (i + 2) + 16777216 * byte buf (i + 3)

-- `ISO9660DirectoryRecord`, the fields that the search reads.
pub record DirectoryRecord : Type 0 where
  pub lba : ℕ
  pub data_length : ℕ
  pub flags : ℕ
  pub file_id : List ℕ

abbrev pub record_at : List ℕ → ℕ → DirectoryRecord
record_at buf offset = record {
  lba = word32 buf (offset + 2);
  data_length = word32 buf (offset + 10);
  flags = byte buf (offset + 25);
  file_id = take (byte buf (offset + 32)) (drop (offset + 33) buf);
}

-- The loop that ends a name at its version: what it leaves of the name.
unfoldable pub before_version : List ℕ → List ℕ
before_version [] = []
before_version (c ∷ name) = if c == b';' then [] else c ∷ before_version name

-- The tests on an entry: a directory is passed over, as is a name of another length or with other letters.
unfoldable pub is_entry : List ℕ → DirectoryRecord → Bool
is_entry path entry =
    let name = before_version entry.file_id in
    if not (bit_and entry.flags 0x02 == 0)
    then false
    else if not (length path == length name)
    then false
    else elim (strncasecmp path name (length name)) [ Order.same ↦ true | _ ↦ false ]

pub data Search : Type 0 where
  found : DirectoryRecord → Search
  not_found out_of_fuel : Search

abbrev pub align_up : ℕ → ℕ → ℕ
align_up x align = add32 x (align - 1) / align * align

-- The loop of FindDirectoryEntry over the memory that begins with the buffer, on fuel.
unfoldable pub scan : ℕ → List ℕ → ℕ → List ℕ → ℕ → Search
scan zero buf limit path offset = out_of_fuel
scan (suc fuel) buf limit path offset =
    let padded = scan fuel buf limit path (align_up (add32 offset 1) cd_sector_size) in
    let next = scan fuel buf limit path (add32 offset (byte buf offset)) in
    let entry = record_at buf offset in
    if not (ltb offset limit)
    then not_found
    else if byte buf offset == 0
    then padded
    else if is_entry path entry
    then found entry
    else next

-- The file that FindDirectoryEntry fills in.
abbrev pub opened : ℕ → DirectoryRecord → File
opened drive entry = record {
  cursor = 0;
  filesize = entry.data_length;
  loaded = true;
  ended = false;
  internal = record { starting_lba = entry.lba; size = entry.data_length; drive_index = drive };
}

-- `retries` attempts to read a sector.
unfoldable pub read_retrying : ℕ → Firmware → ℕ → ℕ → Option (List ℕ)
read_retrying zero fw drive lba = none
read_retrying (suc retries) fw drive lba =
    let rest = read_retrying retries fw drive lba in
    let (status, buf) = read_from_disk_lomem fw drive lba 1 in
    elim status [ Status.ok ↦ some buf | _ ↦ rest ]

-- FindDirectoryEntry: `root` is the root directory's record, `m` what kmalloc returns. The length of the
-- directory is fuel for its entries. One sector is read; in a longer directory the loop goes on behind the
-- buffer.
unfoldable pub find_directory_entry :
    Firmware → ℕ → List ℕ → DirectoryRecord → ℕ → Status × Option File
find_directory_entry fw drive path root m = elim (strchr path b'/') [
  | some slash ↦ (Status.unsupported, none)
  | none ↦ elim (read_retrying 3 fw drive root.lba) [
    | none ↦ (Status.retry, none)
    | some buf ↦ elim (scan (root.data_length + 1) (buf ++ fw.behind) root.data_length path 0) [
      | found entry ↦
          if m == null then (Status.out_of_memory, none) else (Status.ok, some (opened drive entry))
      | _ ↦ (Status.not_found, none)
    ]
  ]
]

unfoldable pub is_primary_volume_descriptor : List ℕ → Bool
is_primary_volume_descriptor buf =
    byte buf 0 == 1
    && byte buf 6 == 1
    && byte buf 1 == b'C'
    && byte buf 2 == b'D'
    && byte buf 3 == b'0'
    && byte buf 4 == b'0'
    && byte buf 5 == b'1'

-- The search for the volume descriptor, with `left` of the sectors from the 16th on. For a sector that
-- cannot be read the boot manager stops.
pub data Descriptor : Type 0 where
  descriptor : List ℕ → Descriptor
  absent stopped : Descriptor

unfoldable pub find_descriptor : ℕ → Firmware → ℕ → ℕ → Descriptor
find_descriptor zero fw drive i = absent
find_descriptor (suc left) fw drive i =
    let rest = find_descriptor left fw drive (i + 1) in
    elim (read_retrying 3 fw drive (16 + i)) [
      | none ↦ stopped
      | some buf ↦ if is_primary_volume_descriptor buf then descriptor buf else rest
    ]

-- OpenFile_ISO9660; `none` where the boot manager stops.
unfoldable pub open_file : Firmware → ℕ → List ℕ → ℕ → Option (Status × Option File)
open_file fw drive path m = elim (find_descriptor 32 fw drive 0) [
  | descriptor buf ↦ some (find_directory_entry fw drive path (record_at buf 156) m)
  | absent ↦ some (Status.unsupported, none)
  | stopped ↦ none
]
