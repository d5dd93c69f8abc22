-- ===== src/Boot/Files/Readers.antt =====
-- Files on both kinds of volume as the kernel's loader reads them.
use dragon_ware.Base.{
  ℕ, ◌+◌, ◌≤◌, ◌<◌, ◌≡◌, refl, subst, ap, sym, ◌∙◌, ◌⊎◌, inl, inr, Bool-cases, true, List, [],
  Option, some, arith, ◌&&◌, ◌==◌, length,
}
use dragon_ware.Base.Words.{two32}
use dragon_ware.Base.Segments.{segment, length-segment}
use dragon_ware.Status.{Status}
use dragon_ware.Boot.Disk.{Firmware}
use dragon_ware.Boot.Iso as Iso
use dragon_ware.Boot.Iso.Read as IsoRead
use dragon_ware.Boot.Fat as Fat
use dragon_ware.Boot.Fat.Cluster as Cluster
use dragon_ware.Boot.Fat.Chain as FatChain
use dragon_ware.Boot.Fat.Read as FatRead
use dragon_ware.Boot.Elf.Reader.{FileReader}
use dragon_ware.Boot.Files.{
  File, fat32, iso9660, rewind, seek, read_from_file, all_or_stop, read_at,
}

module _ (fw : Firmware) (file_data : Fat.Fat32FileData) where
  abbrev pub fat_byte : ℕ → ℕ
  fat_byte =
      FatChain.byte_at fw file_data.part (FatRead.bpb_of_file fw file_data) file_data.first_cluster

  abbrev pub OnFat : File → Type 0
  OnFat (fat32 d cursor) = d ≡ file_data
  OnFat _ = ⊥

  pub OnFat-rewind : (f : File) → OnFat f → OnFat (rewind f)
  unfolding rewind
  OnFat-rewind (fat32 d cursor) on = on
  OnFat-rewind (iso9660 g) on = on
  OnFat-rewind File.empty on = on

  fat_result :
      (r : Fat.Progress) (f' : File) (cursor n : ℕ) (bytes : List ℕ)
      → FatChain.ReadsChain fw file_data.part
          (FatRead.bpb_of_file fw file_data)
          file_data.first_cluster
          n
          cursor
          r
      → all_or_stop (r.fine && r.left == 0) r.bytes (fat32 file_data r.cursor) ≡ some (bytes, f')
      → (bytes ≡ segment fat_byte cursor n) × OnFat f'
  fat_result r f' cursor n bytes (FatChain.ReadsChain.failed i j f more lo alive lt bad) e =
      absurd (ground arith)
  fat_result r f' cursor n bytes (FatChain.ReadsChain.reads count f le b l c all alive) e =
      elim (Bool-cases (r.left == 0)) [
        | inr short ↦ absurd (ground arith)
        | inl full ↦
            let same : ◌≡◌ {A = Option (List ℕ × File)} (some (r.bytes, fat32 file_data r.cursor))
                (some (bytes, f')) =
              ground arith in
            let total : count ≡ n = ground arith in
            let as_file : fat32 file_data r.cursor ≡ f' = cc in
            let as_bytes : r.bytes ≡ bytes = cc in
            (sym as_bytes ∙ b ∙ ap (segment fat_byte cursor) total, subst OnFat as_file refl)
      ]

  pub fat_read :
      Cluster.FullSectors fw
      → (FatRead.boot_sector fw file_data).0 ≡ Status.ok
      → 0 < (FatRead.bpb_of_file fw file_data).sectors_per_cluster
      → (f f' : File) (cursor n : ℕ) (bytes : List ℕ) → OnFat f
      → cursor + n < two32
      → read_at fw f cursor n ≡ some (bytes, f')
      → (bytes ≡ segment fat_byte cursor n) × OnFat f'
  unfolding read_at seek read_from_file
  fat_read full fine some_sectors (fat32 d _) f' cursor n bytes on small e =
      fat_result (Fat.read_file fw file_data cursor n) f' cursor n bytes
        (FatRead.read_file-ReadsChain fw file_data cursor n full fine some_sectors small).0
        (rw on at e)
  fat_read full fine some_sectors (iso9660 g) f' cursor n bytes on small e = elim on [ ]
  fat_read full fine some_sectors File.empty f' cursor n bytes on small e = elim on [ ]

module _ (fw : Firmware) (fdata : Iso.DriverFileData) where
  abbrev pub OnIso : File → Type 0
  OnIso (iso9660 f) = f.internal ≡ fdata
  OnIso _ = ⊥

  pub OnIso-rewind : (f : File) → OnIso f → OnIso (rewind f)
  unfolding rewind
  OnIso-rewind (fat32 d cursor) on = on
  OnIso-rewind (iso9660 g) on = on
  OnIso-rewind File.empty on = on

  iso_result :
      (g : Iso.File) (r : List ℕ × Iso.File) (f' : File) (n : ℕ) (bytes : List ℕ)
      → g.internal ≡ fdata
      → ((g.ended ≡ true) × (r ≡ ([], g))) ⊎ IsoRead.ReadsFile fw g n r
      → all_or_stop (length r.0 == n) r.0 (iso9660 r.1) ≡ some (bytes, f')
      → (bytes ≡ segment (IsoRead.byte_at fw fdata) g.cursor n) × OnIso f'
  iso_result g r f' n bytes on res e = elim (Bool-cases (length r.0 == n)) [
    | inr short ↦ absurd (ground arith)
    | inl full ↦
        let same : ◌≡◌ {A = Option (List ℕ × File)} (some (r.0, iso9660 r.1)) (some (bytes, f')) =
          ground arith in
        let as_file : iso9660 r.1 ≡ f' = cc in
        let as_bytes : r.0 ≡ bytes = cc in
        elim res [
          | inl (over, e') ↦
              let none_read : n ≡ 0 =
                ground (arith, ap (λ (x : List ℕ × Iso.File). length x.0) e') in
              let still : r.1.internal ≡ fdata =
                ap (λ (x : List ℕ × Iso.File). x.1.internal) e' ∙ on in
              (
                rw none_read (sym as_bytes ∙ ap (λ (x : List ℕ × Iso.File). x.0) e'),
                subst OnIso as_file still,
              )
          | inr reads ↦
              let total : reads.count ≡ n = ground (
                arith,
                ap length reads.from_file,
                length-segment (IsoRead.byte_at fw g.internal) g.cursor reads.count,
              ) in
              let still : r.1.internal ≡ fdata =
                ap (λ (x : Iso.File). x.internal) reads.moved ∙ on in
              (
                sym as_bytes
                    ∙ reads.from_file
                    ∙ ap (segment (IsoRead.byte_at fw g.internal) g.cursor) total
                    ∙ ap (λ (d : Iso.DriverFileData). segment (IsoRead.byte_at fw d) g.cursor n) on,
                subst OnIso as_file still,
              )
        ]
  ]

  pub iso_read :
      IsoRead.FullSectors fw
      → fdata.size < two32
      → (f f' : File) (cursor n : ℕ) (bytes : List ℕ) → OnIso f
      → cursor + n ≤ fdata.size
      → read_at fw f cursor n ≡ some (bytes, f')
      → (bytes ≡ segment (IsoRead.byte_at fw fdata) cursor n) × OnIso f'
  unfolding read_at seek read_from_file
  iso_read full small (iso9660 g) f' cursor n bytes on inside e =
      let size = ap (λ (x : Iso.DriverFileData). x.size) on in
      let f0 : Iso.File = record g { cursor = cursor } in
      iso_result f0 (Iso.read_file fw f0 n) f' n bytes on
        (IsoRead.read_file-ReadsFile fw f0 n full (omega (arith, size)) (omega (arith, size))) e
  iso_read full small (fat32 d c) f' cursor n bytes on inside e = elim on [ ]
  iso_read full small File.empty f' cursor n bytes on inside e = elim on [ ]

-- A file on a FAT32 volume whose boot sector can be read, within 4 GiB.
abbrev pub fat_reader :
    (fw : Firmware) (file_data : Fat.Fat32FileData)
    → Cluster.FullSectors fw
    → (FatRead.boot_sector fw file_data).0 ≡ Status.ok
    → 0 < (FatRead.bpb_of_file fw file_data).sectors_per_cluster
    → FileReader
fat_reader fw file_data full fine some_sectors = record {
  State = File;
  rewind = rewind;
  rewound = OnFat-rewind fw file_data;
  read = read_at fw;
  IsOpen = OnFat fw file_data;
  Inside = λ cursor n. cursor + n < two32;
  content = fat_byte fw file_data;
  reads = fat_read fw file_data full fine some_sectors;
}

-- A file on a CD.
abbrev pub iso_reader :
    (fw : Firmware) (fdata : Iso.DriverFileData)
    → IsoRead.FullSectors fw
    → fdata.size < two32
    → FileReader
iso_reader fw fdata full small = record {
  State = File;
  rewind = rewind;
  rewound = OnIso-rewind fw fdata;
  read = read_at fw;
  IsOpen = OnIso fw fdata;
  Inside = λ cursor n. cursor + n ≤ fdata.size;
  content = IsoRead.byte_at fw fdata;
  reads = iso_read fw fdata full small;
}
