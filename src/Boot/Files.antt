-- ===== src/Boot/Files.antt =====
-- Reading of files from either file system, bootmanager/core/fs/fs.c.
pub mod Readers
use dragon_ware.Base.{
  ℕ, zero, ◌-◌, Bool, true, false, List, [], Option, none, some, not, ◌&&◌, ◌==◌, if◌then◌else◌,
  length,
}
use dragon_ware.Boot.Disk.{Firmware}
use dragon_ware.Boot.Iso as Iso
use dragon_ware.Boot.Fat as Fat
use dragon_ware.Boot.Fat.{Fat32FileData}

-- `File` by the type of its partition: `internal` is what its driver set. A file of an empty type is one that
-- could not be opened.
pub data File : Type 0 where
  fat32 : Fat32FileData → ℕ → File
  iso9660 : Iso.File → File
  empty : File

-- The assignment of `cursor` by the loader.
unfoldable pub seek : File → ℕ → File
seek (fat32 file_data _) cursor = fat32 file_data cursor
seek (iso9660 f) cursor = iso9660 (record f { cursor = cursor })
seek empty cursor = empty

-- The start of ReadELFToMemory: `cursor = 0`, `ended = false`.
unfoldable pub rewind : File → File
rewind (fat32 file_data _) = fat32 file_data 0
rewind (iso9660 f) = iso9660 (record f { cursor = 0; ended = false })
rewind empty = empty

-- FatalError where a driver read fewer bytes than wanted.
abbrev pub all_or_stop : Bool → List ℕ → File → Option (List ℕ × File)
all_or_stop enough bytes f = if enough then some (bytes, f) else none

-- ReadFromFile: the bytes and the file; `none` where the boot manager stops, since fewer were read.
unfoldable pub read_from_file : Firmware → File → ℕ → Option (List ℕ × File)
read_from_file fw (fat32 file_data cursor) n_bytes =
    let r = Fat.read_file fw file_data cursor n_bytes in
    all_or_stop (r.fine && r.left == 0) r.bytes (fat32 file_data r.cursor)
read_from_file fw (iso9660 f) n_bytes =
    let (bytes, f') = Iso.read_file fw f n_bytes in
    all_or_stop (length bytes == n_bytes) bytes (iso9660 f')
read_from_file fw empty n_bytes = some ([], empty)

unfoldable pub read_at : Firmware → File → ℕ → ℕ → Option (List ℕ × File)
read_at fw f cursor n_bytes = read_from_file fw (seek f cursor) n_bytes
