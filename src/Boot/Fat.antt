-- ===== src/Boot/Fat.antt =====
-- FAT32 volumes, bootmanager/core/fs/fat32/fat32.c: the layout of a volume, the file allocation table, and
-- the reading of files.
pub mod Cluster
pub mod Chain
pub mod Directory
pub mod Read
use dragon_ware.Base.{
  ℕ, zero, suc, ◌+◌, ◌-◌, ◌*◌, ◌/◌, ◌%◌, ◌^◌, ◌≤◌, ◌<◌, ◌≡◌, Bool, true, false, List, [], ◌∷◌, ◌++◌,
  Option, none, some, leb, ltb, ◌==◌, if◌then◌else◌, min, take, drop, length, get_or,
}
use dragon_ware.Base.Words.{add32, sub32, mul32, two32}
use dragon_ware.Status.{Status}
use dragon_ware.Boot.Disk.{Firmware, sector_size, read_from_disk_lomem}
use dragon_ware.Boot.Iso.Directory.{byte, word32}

abbrev pub fat32_eof : ℕ
fat32_eof = 0x0FFFFFF8

abbrev pub fat32_bad_cluster : ℕ
fat32_bad_cluster = 0x0FFFFFF7

-- `BIOSParameterBlock`, the fields that are read.
pub record BiosParameterBlock : Type 0 where
  pub sectors_per_cluster : ℕ
  pub reserved_sectors : ℕ
  pub n_fats : ℕ
  pub sectors_per_fat : ℕ
  pub root_cluster : ℕ

abbrev pub bpb_of : List ℕ → BiosParameterBlock
bpb_of buf = record {
  sectors_per_cluster = byte buf 13;
  reserved_sectors = byte buf 14 + 256 * byte buf 15;
  n_fats = byte buf 16;
  sectors_per_fat = word32 buf 36;
  root_cluster = word32 buf 44;
}

-- `Partition`, the fields that this driver reads.
pub record Volume : Type 0 where
  pub drive_index : ℕ
  pub lba_start : ℕ

-- `FAT32FileData`.
pub record Fat32FileData : Type 0 where
  pub first_cluster : ℕ
  pub attributes : ℕ
  pub part : Volume

unfoldable pub find_fat : Volume → BiosParameterBlock → ℕ
find_fat p bpb = add32 p.lba_start bpb.reserved_sectors

unfoldable pub find_data_start : Volume → BiosParameterBlock → ℕ
find_data_start p bpb = add32 (find_fat p bpb) (mul32 bpb.n_fats bpb.sectors_per_fat)

unfoldable pub cluster_to_lba : Volume → BiosParameterBlock → ℕ → ℕ
cluster_to_lba p bpb c = add32 (find_data_start p bpb) (mul32 (sub32 c 2) bpb.sectors_per_cluster)

-- What a buffer on the stack holds after a read whose status is not looked at.
abbrev pub sector_or_stale : Firmware → ℕ → ℕ → List ℕ
sector_or_stale fw drive lba =
    let (status, buf) = read_from_disk_lomem fw drive lba 1 in
    elim status [ Status.ok ↦ buf | _ ↦ fw.stale ]

-- ReadFAT32Entry.
unfoldable pub read_fat32_entry : Firmware → Volume → BiosParameterBlock → ℕ → ℕ
read_fat32_entry fw p bpb cluster =
    let fat_offset = mul32 cluster 4 in
    let fat_sector = add32 (find_fat p bpb) (fat_offset / sector_size) in
    word32 (sector_or_stale fw p.drive_index fat_sector) (fat_offset % sector_size) % 2 ^ 28

-- How far a read has come: whether every sector could be read, the bytes written, and the bytes still
-- wanted and the file's cursor then.
pub record Progress : Type 0 where
  pub fine : Bool
  pub bytes : List ℕ
  pub left : ℕ
  pub cursor : ℕ

abbrev pub here : ℕ → ℕ → Progress
here left cursor = record { fine = true; bytes = []; left = left; cursor = cursor }

abbrev pub behind : List ℕ → Progress → Progress
behind bytes r = record r { bytes = bytes ++ r.bytes }

-- The `for` of ReadFile_FAT32 over the sectors of a cluster, `rounds` of them from sector `s` on.
unfoldable pub read_cluster : ℕ → Firmware → ℕ → ℕ → ℕ → ℕ → ℕ → ℕ → Progress
read_cluster zero fw drive lba s offset left cursor = here left cursor
read_cluster (suc rounds) fw drive lba s offset left cursor =
    let (status, sector_temp) = read_from_disk_lomem fw drive (add32 lba s) 1 in
    let to_copy = min left (sector_size - offset) in
    let rest = read_cluster rounds fw drive lba (s + 1) 0 (left - to_copy) (add32 cursor to_copy) in
    if left == 0 then here left cursor else elim status [
      | Status.ok ↦ behind (take to_copy (drop offset sector_temp)) rest
      | _ ↦ record { fine = false; bytes = []; left = left; cursor = cursor }
    ]

-- The `while` over the clusters, on fuel.
unfoldable pub read_clusters : ℕ → Firmware → Volume → BiosParameterBlock → ℕ → ℕ → ℕ → Progress
read_clusters zero fw p bpb cluster left cursor = here left cursor
read_clusters (suc fuel) fw p bpb cluster left cursor =
    let offset_in_cluster = cursor % (bpb.sectors_per_cluster * sector_size) in
    let s = offset_in_cluster / sector_size in
    let part =
      read_cluster (bpb.sectors_per_cluster - s) fw p.drive_index (cluster_to_lba p bpb cluster) s
        (offset_in_cluster % sector_size) left cursor in
    let rest =
      read_clusters fuel fw p bpb (read_fat32_entry fw p bpb cluster) part.left part.cursor in
    if left == 0
    then here left cursor
    else if leb fat32_eof cluster
    then here left cursor
    else if part.fine
    then behind part.bytes rest
    else part

-- The clusters before the cursor; `none` where the chain ends.
unfoldable pub skip_clusters : ℕ → Firmware → Volume → BiosParameterBlock → ℕ → Option ℕ
skip_clusters zero fw p bpb cluster = some cluster
skip_clusters (suc rounds) fw p bpb cluster =
    let next = read_fat32_entry fw p bpb cluster in
    let rest = skip_clusters rounds fw p bpb next in if leb fat32_eof next then none else rest

-- ReadFile_FAT32 of `n_bytes`: -1 where `fine` is false, else the bytes are as many as it says. Every
-- round over the clusters reads a byte, so the bytes wanted are fuel.
unfoldable pub read_file : Firmware → Fat32FileData → ℕ → ℕ → Progress
read_file fw file cursor n_bytes =
    let (status, buf) = read_from_disk_lomem fw file.part.drive_index file.part.lba_start 1 in
    let bpb = bpb_of buf in
    elim status [
      | Status.ok ↦
          elim (skip_clusters (cursor / (bpb.sectors_per_cluster * sector_size)) fw file.part bpb
            file.first_cluster) [
              | none ↦ here n_bytes cursor
              | some cluster ↦ read_clusters n_bytes fw file.part bpb cluster n_bytes cursor
            ]
      | _ ↦ record { fine = false; bytes = []; left = n_bytes; cursor = cursor }
    ]
