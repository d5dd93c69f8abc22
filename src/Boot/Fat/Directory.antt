-- ===== src/Boot/Fat/Directory.antt =====
-- The search of the root directory of a FAT32 volume, bootmanager/core/fs/fat32/fat32.c.
pub mod Names
pub mod Search
use dragon_ware.Base.{
  ℕ, zero, suc, ◌+◌, ◌-◌, ◌*◌, ◌/◌, ◌%◌, ◌^◌, ◌≤◌, ◌<◌, ◌≡◌, Bool, true, false, List, [], ◌∷◌, ◌++◌,
  map, Option, none, some, not, ◌&&◌, leb, ltb, ◌==◌, if◌then◌else◌, take, drop, length, get_or,
}
use dragon_ware.Base.Words.{add32}
use dragon_ware.Base.Store.{null}
use dragon_ware.Status.{Status}
use dragon_ware.Text.Search.{Order}
use dragon_ware.Text.Case.{toupper, strcasecmp}
use dragon_ware.Boot.Disk.{Firmware, sector_size, read_from_disk_lomem}
use dragon_ware.Boot.Iso.Directory.{byte, word32}
use dragon_ware.Boot.Fat.{
  fat32_eof, fat32_bad_cluster, BiosParameterBlock, bpb_of, Volume, Fat32FileData, cluster_to_lba,
  read_fat32_entry, sector_or_stale,
}

-- A `for` of FATEntryToString: the characters of a part of a name, up to its first space.
unfoldable pub name_part : List ℕ → List ℕ
name_part [] = []
name_part (c ∷ raw) = if c == b' ' then [] else toupper c ∷ name_part raw

-- FATEntryToString of the eleven characters of a name.
unfoldable pub fat_entry_to_string : List ℕ → List ℕ
fat_entry_to_string raw =
    name_part (take 8 raw)
    ++ (if get_or raw 8 0 == b' ' then [] else b'.' ∷ name_part (take 3 (drop 8 raw)))

-- `DirectoryEntry`, the fields that the search reads.
pub record DirectoryEntry : Type 0 where
  pub name : List ℕ
  pub attributes : ℕ
  pub cluster_high : ℕ
  pub cluster_low : ℕ
  pub size : ℕ

abbrev pub entry_at : List ℕ → ℕ → DirectoryEntry
entry_at sector i = record {
  name = take 11 (drop i sector);
  attributes = byte sector (i + 11);
  cluster_high = byte sector (i + 20) + 256 * byte sector (i + 21);
  cluster_low = byte sector (i + 26) + 256 * byte sector (i + 27);
  size = word32 sector (i + 28);
}

-- Where the search of a part of the directory stands.
pub data Scan : Type 0 where
  found : DirectoryEntry → Scan
  at_end go_on out_of_fuel : Scan

-- The body of the loop over the entries: the end mark, deleted files, long names, and the comparison.
unfoldable pub scan_entry : List ℕ → DirectoryEntry → Scan
scan_entry filename de =
    if get_or de.name 0 0 == 0
    then at_end
    else if get_or de.name 0 0 == 0xE5
    then go_on
    else if de.attributes == 0x0F
    then go_on
    else elim (strcasecmp (fat_entry_to_string de.name) filename) [
      | Order.same ↦ found de
      | _ ↦ go_on
    ]

-- The rest of a search, where a part of it goes on.
abbrev pub and_then : Scan → Scan → Scan
and_then go_on rest = rest
and_then s rest = s

-- The loop over the entries of a sector, `rounds` of them from byte `i` on.
unfoldable pub scan_sector : ℕ → List ℕ → List ℕ → ℕ → Scan
scan_sector zero filename sector i = go_on
scan_sector (suc rounds) filename sector i =
    and_then (scan_entry filename (entry_at sector i)) (scan_sector rounds filename sector (i + 32))

-- The buffer `sector` after a read whose status is not looked at.
abbrev pub read_over : Firmware → ℕ → List ℕ → ℕ → List ℕ
read_over fw drive sector lba =
    let (status, buf) = read_from_disk_lomem fw drive lba 1 in
    elim status [ Status.ok ↦ buf | _ ↦ sector ]

-- The loop over the sectors of a cluster, `rounds` of them from sector `s` on, where the buffer holds
-- `sector` before; and the buffer after that loop.
unfoldable pub scan_cluster : ℕ → Firmware → ℕ → List ℕ → List ℕ → ℕ → ℕ → Scan
scan_cluster zero fw drive filename sector lba s = go_on
scan_cluster (suc rounds) fw drive filename sector lba s =
    and_then (scan_sector 16 filename (read_over fw drive sector (add32 lba s)) 0)
      (scan_cluster rounds fw drive filename (read_over fw drive sector (add32 lba s)) lba (s + 1))

abbrev pub last_sector : ℕ → Firmware → ℕ → List ℕ → ℕ → ℕ → List ℕ
last_sector zero fw drive sector lba s = sector
last_sector (suc rounds) fw drive sector lba s =
    last_sector rounds fw drive (read_over fw drive sector (add32 lba s)) lba (s + 1)

-- The loop over the clusters, on fuel: a chain that never ends keeps it going.
unfoldable pub scan_clusters :
    ℕ → Firmware → Volume → BiosParameterBlock → List ℕ → List ℕ → ℕ → Scan
scan_clusters zero fw p bpb filename sector cluster = out_of_fuel
scan_clusters (suc fuel) fw p bpb filename sector cluster =
    let next = read_fat32_entry fw p bpb cluster in
    let last =
      last_sector bpb.sectors_per_cluster fw p.drive_index sector (cluster_to_lba p bpb cluster)
        0 in
    let rest = scan_clusters fuel fw p bpb filename last next in
    if not (ltb cluster fat32_eof && leb 2 cluster)
    then at_end
    else and_then
        (scan_cluster bpb.sectors_per_cluster fw p.drive_index filename sector
          (cluster_to_lba p bpb cluster) 0)
        (if next == fat32_bad_cluster then at_end else rest)

-- What OpenFile_FAT32 fills in.
pub record File : Type 0 where
  pub cursor : ℕ
  pub ended : Bool
  pub loaded : Bool
  pub filesize : ℕ
  pub internal : Fat32FileData

abbrev pub opened : Volume → DirectoryEntry → File
opened p de = record {
  cursor = 0;
  ended = false;
  loaded = true;
  filesize = de.size;
  internal = record {
    first_cluster = (de.cluster_high * 65536 + de.cluster_low) % 2 ^ 28;
    attributes = de.attributes;
    part = p;
  };
}

-- ScanDirectoryFor; `m` is what kmalloc returns, and `none` stands for a search that never ends.
unfoldable pub scan_directory_for :
    ℕ → Firmware → Volume → BiosParameterBlock → ℕ → List ℕ → ℕ → Option (Status × Option File)
scan_directory_for fuel fw p bpb cluster filename m =
    elim (scan_clusters fuel fw p bpb filename fw.stale cluster) [
      | found de ↦
          if m == null
          then some (Status.out_of_memory, none)
          else some (Status.ok, some (opened p de))
      | at_end ↦ some (Status.not_found, none)
      | go_on ↦ some (Status.not_found, none)
      | out_of_fuel ↦ none
    ]

unfoldable pub open_file : ℕ → Firmware → Volume → List ℕ → ℕ → Option (Status × Option File)
open_file fuel fw p path m =
    let bpb = bpb_of (sector_or_stale fw p.drive_index p.lba_start) in
    scan_directory_for fuel fw p bpb bpb.root_cluster path m
