-- ===== src/Boot/FatTests.antt =====
-- A FAT32 volume with clusters of one sector: the root directory in cluster 2, and the file K.SYS in the
-- clusters 3 and 4.
use dragon_ware.Base.{
  ◌⊎◌, ℕ, ◌≡◌, refl, ◌∙◌, true, List, [], ◌∷◌, ◌++◌, some, arith, ◌==◌, if◌then◌else◌, length, set,
  length-set, replicate, length-replicate,
}
use dragon_ware.Status.{Status}
use dragon_ware.Text.Case.{strcasecmp, strcasecmp_loop, tolower, toupper}
use dragon_ware.Boot.Disk.{Firmware, read_from_disk_lomem}
use dragon_ware.Boot.Fat.{
  Volume, Fat32FileData, BiosParameterBlock, bpb_of, find_fat, find_data_start, cluster_to_lba,
  read_fat32_entry, read_cluster, read_clusters, skip_clusters, read_file, here,
}
use dragon_ware.Boot.Fat.Cluster.{FullSectors}
use dragon_ware.Boot.Fat.Chain.{ReadsChain}
use dragon_ware.Boot.Fat.Read.{bpb_of_file, NotEnded, read_file-ReadsChain}
use dragon_ware.Boot.Fat.Directory.{
  name_part, fat_entry_to_string, Scan, scan_entry, scan_sector, scan_cluster, scan_clusters,
  scan_directory_for, open_file, opened,
}
use dragon_ware.Boot.Fat.Directory.Search.{
  Directory, entries_of, FindsFirst, answer, open_file-FindsFirst,
}

-- A sector of zeros but for some of its bytes.
abbrev sector_of : List (ℕ × ℕ) → List ℕ
sector_of [] = replicate 512 0
sector_of ((i, v) ∷ fields) = set (sector_of fields) i v

length-sector_of : (fields : List (ℕ × ℕ)) → length (sector_of fields) ≡ 512
length-sector_of [] = length-replicate {A = ℕ} 512 0
length-sector_of ((i, v) ∷ fields) = length-set (sector_of fields) i v ∙ length-sector_of fields

abbrev fields_of : ℕ → List (ℕ × ℕ)
fields_of lba =
    if lba == 0
    then (13, 1) ∷ (14, 1) ∷ (16, 1) ∷ (36, 1) ∷ (44, 2) ∷ []
    else if lba == 1
    then (8, 0xF8)
      ∷ (9, 0xFF)
      ∷ (10, 0xFF)
      ∷ (11, 0x0F)
      ∷ (12, 4)
      ∷ (16, 0xF8)
      ∷ (17, 0xFF)
      ∷ (18, 0xFF)
      ∷ (19, 0x0F)
      ∷ []
    else if lba == 2
    then (0, 75)
      ∷ (1, 32)
      ∷ (2, 32)
      ∷ (3, 32)
      ∷ (4, 32)
      ∷ (5, 32)
      ∷ (6, 32)
      ∷ (7, 32)
      ∷ (8, 83)
      ∷ (9, 89)
      ∷ (10, 83)
      ∷ (11, 32)
      ∷ (26, 3)
      ∷ (28, 88)
      ∷ (29, 2)
      ∷ []
    else if lba == 3
    then (510, 7) ∷ (511, 8) ∷ []
    else (0, 9) ∷ []

abbrev hard_disk : Firmware
hard_disk = record {
  extended_read = λ drive lba n. some (sector_of (fields_of lba));
  drive_parameters = λ drive. some 512;
  stale = [];
  behind = [];
}

hard_disk-FullSectors : FullSectors hard_disk
unfolding read_from_disk_lomem
hard_disk-FullSectors drive lba fine = length-sector_of (fields_of lba)

abbrev volume : Volume
volume = record { drive_index = 128; lba_start = 0 }

abbrev k_sys : Fat32FileData
k_sys = record { first_cluster = 3; attributes = 32; part = volume }

reads_k_sys :
    read_file hard_disk k_sys 510 4
    ≡ record { fine = true; bytes = 7 ∷ 8 ∷ 9 ∷ 0 ∷ []; left = 0; cursor = 514 }
unfolding read_file read_clusters read_cluster skip_clusters read_fat32_entry cluster_to_lba
    find_data_start find_fat read_from_disk_lomem
reads_k_sys = refl

read_file-ReadsChain_example :
    ReadsChain hard_disk k_sys.part
      (bpb_of_file hard_disk k_sys)
      k_sys.first_cluster
      4
      510
      (read_file hard_disk k_sys 510 4)
    × (NotEnded hard_disk k_sys 510 4 ⊎ (read_file hard_disk k_sys 510 4 ≡ here 4 510))
unfolding read_from_disk_lomem
read_file-ReadsChain_example =
    read_file-ReadsChain hard_disk k_sys 510 4 hard_disk-FullSectors refl (omega arith)
      (omega arith)

abbrev volume_bpb : BiosParameterBlock
volume_bpb = bpb_of (sector_of (fields_of 0))

-- "k.sys"
abbrev path : List ℕ
path = 107 ∷ 46 ∷ 115 ∷ 121 ∷ 115 ∷ []

root-Directory :
    Directory hard_disk volume volume_bpb 2 [] 2 (entries_of hard_disk volume volume_bpb [] 2 ++ [])
unfolding read_fat32_entry find_fat read_from_disk_lomem
root-Directory =
    Directory.next (omega arith, omega arith) (omega arith)
      (Directory.end (λ used. absurd (omega arith))) refl

open_file-FindsFirst_example :
    (s : Scan) × FindsFirst path (entries_of hard_disk volume volume_bpb [] 2 ++ []) s
    × (open_file 2 hard_disk volume path 4096 ≡ some (answer volume 4096 s))
unfolding read_from_disk_lomem
open_file-FindsFirst_example = open_file-FindsFirst 2 hard_disk volume path 4096 root-Directory

opens_k_sys :
    open_file 2 hard_disk volume path 4096
    ≡ some (
      Status.ok,
      some (
          opened volume (record {
            name = 75 ∷ 32 ∷ 32 ∷ 32 ∷ 32 ∷ 32 ∷ 32 ∷ 32 ∷ 83 ∷ 89 ∷ 83 ∷ [];
            attributes = 32;
            cluster_high = 0;
            cluster_low = 3;
            size = 600;
          })),
    )
unfolding open_file scan_directory_for scan_clusters scan_cluster scan_sector scan_entry
    fat_entry_to_string name_part strcasecmp strcasecmp_loop tolower toupper read_fat32_entry
    cluster_to_lba find_data_start find_fat read_from_disk_lomem
opens_k_sys = refl
