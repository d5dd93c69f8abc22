-- ===== src/Boot/Disk.antt =====
-- Reading sectors, bootmanager/core/storage/diskread.c. The BIOS is a parameter: interrupt 13H.
pub mod Chunks
use dragon_ware.Base.{
  ℕ, zero, suc, ◌+◌, ◌-◌, ◌*◌, ◌/◌, ◌%◌, ◌^◌, ◌≤◌, ◌<◌, ◌≡◌, List, [], ◌∷◌, ◌++◌, Option, none,
  some, leb, ltb, ◌==◌, if◌then◌else◌, min, take, drop, length,
}
use dragon_ware.Base.Words.{two64, add32}
use dragon_ware.Boot.Elf.Memory.{store}
use dragon_ware.Status.{Status}

-- `extended_read` is function 42H: the bytes of a number of sectors from a block address on, or a
-- failure. `drive_parameters` is function 48H: the drive's bytes per sector. `stale` is what an
-- uninitialised buffer on the stack holds, and `behind` what lies behind a buffer on the stack.
pub record Firmware : Type 0 where
  pub extended_read : ℕ → ℕ → ℕ → Option (List ℕ)
  pub drive_parameters : ℕ → Option ℕ
  pub stale : List ℕ
  pub behind : List ℕ

abbrev pub sector_size : ℕ
sector_size = 512

abbrev pub cd_sector_size : ℕ
cd_sector_size = 2048

abbrev pub frame_size : ℕ
frame_size = 4096

-- A number of sectors is stored in 16 bits, a drive in 8. The result is the status and the bytes
-- written to the destination, none on a failure.
unfoldable pub read_from_disk_lomem : Firmware → ℕ → ℕ → ℕ → Status × List ℕ
read_from_disk_lomem fw drive lba n_sectors =
    elim (fw.extended_read (drive % 256) lba (n_sectors % 2 ^ 16)) [
      | none ↦ (Status.bad, [])
      | some bytes ↦ (Status.ok, bytes)
    ]

unfoldable pub get_sector_size_for_drive : Firmware → ℕ → ℕ
get_sector_size_for_drive fw drive = elim (fw.drive_parameters drive) [
  | some bytes_per_sector ↦ bytes_per_sector
  | none ↦ if leb 0xE0 drive then cd_sector_size else sector_size
]

-- The loop of ReadFromDisk, on fuel, over the memory `m`; `max` sectors of `size` bytes fit in the low
-- buffer.
unfoldable pub read_chunks : ℕ → Firmware → ℕ → ℕ → ℕ → ℕ → ℕ → ℕ → (ℕ → ℕ) → Status × (ℕ → ℕ)
read_chunks zero fw drive size max lba n_sectors addr m = (Status.ok, m)
read_chunks (suc fuel) fw drive size max lba n_sectors addr m =
    let chunk = min n_sectors max in
    let (status, tmpbuf) = read_from_disk_lomem fw drive lba chunk in
    let copied = store m addr (take (chunk * size) tmpbuf) in
    let rest =
      read_chunks fuel fw drive size max ((lba + chunk) % two64) (n_sectors - chunk)
        (add32 addr (chunk * size)) copied in
    if n_sectors == 0
    then (Status.ok, m)
    else elim status [ Status.ok ↦ rest | _ ↦ (Status.bad, m) ]

-- ReadFromDisk to the address `dest`.
unfoldable pub read_from_disk : Firmware → ℕ → ℕ → ℕ → ℕ → (ℕ → ℕ) → Status × (ℕ → ℕ)
read_from_disk fw drive lba n_sectors dest m =
    let size = get_sector_size_for_drive fw (drive % 256) in
    let (status, bytes) = read_from_disk_lomem fw drive lba n_sectors in
    if leb 0x100000 dest
    then read_chunks n_sectors fw drive size (frame_size / size) lba n_sectors dest m
    else (status, store m dest bytes)
