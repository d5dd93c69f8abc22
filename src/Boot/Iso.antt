-- ===== src/Boot/Iso.antt =====
-- Files of a CD, bootmanager/core/fs/iso9660/iso9660.c.
pub mod Directory
pub mod Read
use dragon_ware.Base.{
  ℕ, zero, suc, ◌+◌, ◌-◌, ◌*◌, ◌/◌, ◌%◌, ◌≤◌, ◌<◌, ◌≡◌, Bool, true, false, List, [], ◌∷◌, ◌++◌,
  Option, none, some, leb, ltb, ◌==◌, if◌then◌else◌, min, take, drop, length, get_or,
}
use dragon_ware.Base.Words.{add32, sub32, two32}
use dragon_ware.Status.{Status}
use dragon_ware.Boot.Disk.{Firmware, cd_sector_size, read_from_disk_lomem}

-- `DriverFileData`, the volume as its drive.
pub record DriverFileData : Type 0 where
  pub starting_lba : ℕ
  pub size : ℕ
  pub drive_index : ℕ

-- `File` as this driver uses it.
pub record File : Type 0 where
  pub cursor : ℕ
  pub filesize : ℕ
  pub loaded : Bool
  pub ended : Bool
  pub internal : DriverFileData

-- The sector of a file at an offset; the buffer lies on the stack, below 1 MiB.
abbrev pub sector_at : Firmware → DriverFileData → ℕ → Status × List ℕ
sector_at fw fdata cursor =
    read_from_disk_lomem fw fdata.drive_index (add32 fdata.starting_lba (cursor / cd_sector_size)) 1

-- The loop of ReadFile_ISO9660 on fuel, with `left` bytes still to read: the bytes that it writes, and
-- the cursor.
unfoldable pub read_sectors : ℕ → Firmware → DriverFileData → ℕ → ℕ → List ℕ × ℕ
read_sectors zero fw fdata left cursor = ([], cursor)
read_sectors (suc fuel) fw fdata left cursor =
    let (status, tmpbuf) = sector_at fw fdata cursor in
    let offset_in_sector = cursor % cd_sector_size in
    let chunk = min left (cd_sector_size - offset_in_sector) in
    let (rest, last) = read_sectors fuel fw fdata (left - chunk) (add32 cursor chunk) in
    if left == 0 then ([], cursor) else elim status [
      | Status.ok ↦ (take chunk (drop offset_in_sector tmpbuf) ++ rest, last)
      | _ ↦ ([], cursor)
    ]

-- ReadFile_ISO9660: the bytes written to `output`, as many as it says were read, and the file.
unfoldable pub read_file : Firmware → File → ℕ → List ℕ × File
read_file fw f n_bytes =
    let available = sub32 f.internal.size f.cursor in
    let wanted = if ltb available n_bytes then available else n_bytes in
    let (bytes, cursor) = read_sectors wanted fw f.internal wanted f.cursor in
    if f.ended then ([], f) else (
      bytes,
      record f { cursor = cursor; ended = if leb f.internal.size cursor then true else f.ended },
    )
