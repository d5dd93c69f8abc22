-- ===== src/Boot/Fat/Directory/Search.antt =====
-- The search of a FAT32 directory, against the list of its entries.
use dragon_ware.Base.{
  ℕ, zero, suc, ◌+◌, ◌≤◌, ◌<◌, ◌≡◌, refl, subst, ap, ap₂, sym, ◌∙◌, ◌≢◌, ◌⊎◌, inl, inr, Bool-cases,
  true, false, List, [], ◌∷◌, ◌++◌, map, Option, none, some, arith, ◌&&◌, leb, ltb, ◌==◌,
  if◌then◌else◌, get_or,
}
use mathlib.Core.List.{append-nil}
use dragon_ware.Base.Words.{add32}
use dragon_ware.Base.Store.{null}
use dragon_ware.Status.{Status}
use dragon_ware.Text.Search.{Order, Order-discrete}
use dragon_ware.Text.Case.{tolower, strcasecmp, strcasecmp_same, text_of}
use dragon_ware.Boot.Disk.{Firmware}
use dragon_ware.Boot.Fat.{
  fat32_eof, fat32_bad_cluster, BiosParameterBlock, bpb_of, Volume, cluster_to_lba,
  read_fat32_entry, sector_or_stale,
}
use dragon_ware.Boot.Fat.Directory.{
  fat_entry_to_string, DirectoryEntry, entry_at, Scan, found, at_end, go_on, out_of_fuel,
  scan_entry, and_then, scan_sector, read_over, last_sector, scan_cluster, scan_clusters, File,
  opened, scan_directory_for, open_file,
}

-- The entries of a sector, and of a cluster as they are read: a sector that cannot be read leaves the
-- one before it in the buffer.
abbrev pub sector_entries : ℕ → List ℕ → ℕ → List DirectoryEntry
sector_entries zero sector i = []
sector_entries (suc rounds) sector i = entry_at sector i ∷ sector_entries rounds sector (i + 32)

abbrev pub cluster_entries : ℕ → Firmware → ℕ → List ℕ → ℕ → ℕ → List DirectoryEntry
cluster_entries zero fw drive sector lba s = []
cluster_entries (suc rounds) fw drive sector lba s =
    sector_entries 16 (read_over fw drive sector (add32 lba s)) 0
    ++ cluster_entries rounds fw drive (read_over fw drive sector (add32 lba s)) lba (s + 1)

-- The entries of a directory from a cluster on, whose chain ends within `n` clusters: at a number that
-- is none of a cluster, or before one that is marked as bad.
module _ (fw : Firmware) (p : Volume) (bpb : BiosParameterBlock) where
  abbrev pub InUse : ℕ → Type 0
  InUse cluster = (2 ≤ cluster) × (cluster < fat32_eof)

  abbrev pub entries_of : List ℕ → ℕ → List DirectoryEntry
  entries_of sector cluster =
      cluster_entries bpb.sectors_per_cluster fw p.drive_index sector (cluster_to_lba p bpb cluster)
        0

  abbrev pub after_cluster : List ℕ → ℕ → List ℕ
  after_cluster sector cluster =
      last_sector bpb.sectors_per_cluster fw p.drive_index sector (cluster_to_lba p bpb cluster) 0

  pub data Directory : ℕ → List ℕ → ℕ → List DirectoryEntry → Type 0 where
    end : {n cluster : ℕ} {sector : List ℕ} → ¬ InUse cluster → Directory (suc n) sector cluster []
    bad :
        {n cluster : ℕ} {sector : List ℕ} {es : List DirectoryEntry}
        → InUse cluster
        → read_fat32_entry fw p bpb cluster ≡ fat32_bad_cluster
        → es ≡ entries_of sector cluster
        → Directory (suc n) sector cluster es
    next :
        {n cluster : ℕ} {sector : List ℕ} {es all : List DirectoryEntry}
        → InUse cluster
        → read_fat32_entry fw p bpb cluster ≢ fat32_bad_cluster
        → Directory n (after_cluster sector cluster) (read_fat32_entry fw p bpb cluster) es
        → all ≡ entries_of sector cluster ++ es
        → Directory (suc n) sector cluster all

-- A file's entry with the name that is searched for, but for case.
abbrev pub Passed : DirectoryEntry → Type 0
Passed de = (get_or de.name 0 0 ≡ 0xE5) ⊎ (de.attributes ≡ 0x0F)

abbrev pub Names : List ℕ → DirectoryEntry → Type 0
Names filename de =
    map tolower (text_of (fat_entry_to_string de.name)) ≡ map tolower (text_of filename)

-- What the search finds among entries: the first of that name before the end mark, where deleted files and
-- long names are passed over.
pub data FindsFirst (filename : List ℕ) : List DirectoryEntry → Scan → Type 0 where
  none_left : FindsFirst filename [] at_end
  marked :
      (de : DirectoryEntry) (es : List DirectoryEntry)
      → get_or de.name 0 0 ≡ 0
      → FindsFirst filename (de ∷ es) at_end
  passed :
      (de : DirectoryEntry) (es : List DirectoryEntry) {s : Scan}
      → get_or de.name 0 0 ≢ 0
      → Passed de ⊎ (¬ Names filename de)
      → FindsFirst filename es s
      → FindsFirst filename (de ∷ es) s
  here :
      (de : DirectoryEntry) (es : List DirectoryEntry)
      → get_or de.name 0 0 ≢ 0
      → ¬ Passed de
      → Names filename de
      → FindsFirst filename (de ∷ es) (found de)

-- One pass over the entries.
scan_all : List ℕ → List DirectoryEntry → Scan
scan_all filename [] = go_on
scan_all filename (de ∷ es) = and_then (scan_entry filename de) (scan_all filename es)

and_then_assoc : (a b c : Scan) → and_then (and_then a b) c ≡ and_then a (and_then b c)
and_then_assoc (found de) b c = refl
and_then_assoc at_end b c = refl
and_then_assoc go_on b c = refl
and_then_assoc out_of_fuel b c = refl

scan_all-append :
    (filename : List ℕ) (xs ys : List DirectoryEntry)
    → scan_all filename (xs ++ ys) ≡ and_then (scan_all filename xs) (scan_all filename ys)
unfolding scan_all
scan_all-append filename [] ys = refl
scan_all-append filename (de ∷ es) ys =
    ap (and_then (scan_entry filename de)) (scan_all-append filename es ys)
    ∙ sym (and_then_assoc (scan_entry filename de) (scan_all filename es) (scan_all filename ys))

scan_sector-scan_all :
    (rounds : ℕ) (filename sector : List ℕ) (i : ℕ)
    → scan_sector rounds filename sector i ≡ scan_all filename (sector_entries rounds sector i)
unfolding scan_sector scan_all
scan_sector-scan_all zero filename sector i = refl
scan_sector-scan_all (suc rounds) filename sector i =
    ap (and_then (scan_entry filename (entry_at sector i)))
      (scan_sector-scan_all rounds filename sector (i + 32))

scan_cluster-scan_all :
    (rounds : ℕ) (fw : Firmware) (drive : ℕ) (filename sector : List ℕ) (lba s : ℕ)
    → scan_cluster rounds fw drive filename sector lba s
      ≡ scan_all filename (cluster_entries rounds fw drive sector lba s)
unfolding scan_cluster
scan_cluster-scan_all zero fw drive filename sector lba s = unfold scan_all in refl
scan_cluster-scan_all (suc rounds) fw drive filename sector lba s =
    let sector' = read_over fw drive sector (add32 lba s) in
    ap₂ and_then (scan_sector-scan_all 16 filename sector' 0)
      (scan_cluster-scan_all rounds fw drive filename sector' lba (s + 1))
    ∙ sym (
        scan_all-append filename (sector_entries 16 sector' 0)
          (cluster_entries rounds fw drive sector' lba (s + 1)))

module _ (filename : List ℕ) (de : DirectoryEntry) where
  abbrev Live : Type 0
  Live =
      ((get_or de.name 0 0 == 0) ≡ false)
      × ((get_or de.name 0 0 == 0xE5) ≡ false)
      × ((de.attributes == 0x0F) ≡ false)

  scan_entry_found :
      Live
      → strcasecmp (fat_entry_to_string de.name) filename ≡ Order.same
      → scan_entry filename de ≡ found de
  unfolding scan_entry
  scan_entry_found (live, kept, short) e = rw (live, kept, short) (ground arith)

  scan_entry_other :
      Live
      → strcasecmp (fat_entry_to_string de.name) filename ≢ Order.same
      → scan_entry filename de ≡ go_on
  unfolding scan_entry
  scan_entry_other (live, kept, short) ne = rw (live, kept, short) (ground arith)

  scan_entry_marked : (get_or de.name 0 0 == 0) ≡ true → scan_entry filename de ≡ at_end
  unfolding scan_entry
  scan_entry_marked e = rw e refl

  scan_entry_passed :
      (get_or de.name 0 0 == 0) ≡ false
      → ((get_or de.name 0 0 == 0xE5) ≡ true) ⊎ ((de.attributes == 0x0F) ≡ true)
      → scan_entry filename de ≡ go_on
  unfolding scan_entry
  scan_entry_passed live skip = ground arith

  -- An entry before what the rest of the search finds.
  FindsFirst_entry :
      (es : List DirectoryEntry) (s : Scan)
      → FindsFirst filename es s
      → FindsFirst filename (de ∷ es) (and_then (scan_entry filename de) s)
  FindsFirst_entry es s rest = elim (Bool-cases (get_or de.name 0 0 == 0)) [
    | inl mark ↦ rw (scan_entry_marked mark) (FindsFirst.marked de es (ground arith))
    | inr live ↦ elim (Bool-cases (get_or de.name 0 0 == 0xE5)) [
      | inl gone ↦
          rw (scan_entry_passed live (inl gone))
            (FindsFirst.passed de es (ground arith) (inl (inl (ground arith))) rest)
      | inr kept ↦ elim (Bool-cases (de.attributes == 0x0F)) [
        | inl long ↦
            rw (scan_entry_passed live (inr long))
              (FindsFirst.passed de es (ground arith) (inl (inr (ground arith))) rest)
        | inr short ↦
            let named = strcasecmp_same (fat_entry_to_string de.name) filename in
            elim (Order-discrete (strcasecmp (fat_entry_to_string de.name) filename) Order.same) [
              | yes e ↦ rw (scan_entry_found (live, kept, short) e) (
                  FindsFirst.here de es (ground arith)
                    (λ q. elim q [ inl a ↦ ground arith | inr b ↦ ground arith ]) (named.0 e))
              | no ne ↦
                  rw (scan_entry_other (live, kept, short) ne)
                    (FindsFirst.passed de es (ground arith) (inr (λ q. ne (named.1 q))) rest)
            ]
      ]
    ]
  ]

-- Entries before what the rest of the search finds.
FindsFirst_entries :
    (filename : List ℕ) (es more : List DirectoryEntry) (s : Scan)
    → FindsFirst filename more s
    → FindsFirst filename (es ++ more) (and_then (scan_all filename es) s)
unfolding scan_all
FindsFirst_entries filename [] more s rest = rest
FindsFirst_entries filename (de ∷ es) more s rest =
    rw (and_then_assoc (scan_entry filename de) (scan_all filename es) s)
      (FindsFirst_entry filename de (es ++ more) _ (FindsFirst_entries filename es more s rest))

module _ (fw : Firmware) (p : Volume) (bpb : BiosParameterBlock) (filename : List ℕ) where
  scan_clusters_out :
      (n : ℕ) (sector : List ℕ) (cluster : ℕ)
      → ¬ InUse fw p bpb cluster
      → scan_clusters (suc n) fw p bpb filename sector cluster ≡ at_end
  unfolding scan_clusters
  scan_clusters_out n sector cluster out = ground arith

  scan_clusters_step :
      (n : ℕ) (sector : List ℕ) (cluster : ℕ)
      → InUse fw p bpb cluster
      → scan_clusters (suc n) fw p bpb filename sector cluster
        ≡ and_then (scan_all filename (entries_of fw p bpb sector cluster)) (
            if read_fat32_entry fw p bpb cluster == fat32_bad_cluster
            then at_end
            else scan_clusters n fw p bpb filename
                (after_cluster fw p bpb sector cluster)
                (read_fat32_entry fw p bpb cluster))
  unfolding scan_clusters
  scan_clusters_step n sector cluster (lo, hi) =
      let inside : (ltb cluster fat32_eof && leb 2 cluster) ≡ true = ground arith in
      rw
        (
          inside,
          ← scan_cluster-scan_all bpb.sectors_per_cluster fw p.drive_index filename sector
              (cluster_to_lba p bpb cluster) 0,
        )
        refl

  scan_clusters-FindsFirst :
      {n cluster : ℕ} {sector : List ℕ} {es : List DirectoryEntry}
      → Directory fw p bpb n sector cluster es
      → FindsFirst filename es (scan_clusters n fw p bpb filename sector cluster)
  scan_clusters-FindsFirst (Directory.end {n} {cluster} {sector} out) =
      rw (scan_clusters_out n sector cluster out) FindsFirst.none_left
  scan_clusters-FindsFirst (Directory.bad {n} {cluster} {sector} used is_bad e) =
      let is_so : (read_fat32_entry fw p bpb cluster == fat32_bad_cluster) ≡ true = ground arith in
      let flat : entries_of fw p bpb sector cluster ++ [] ≡ entries_of fw p bpb sector cluster =
        rw append-nil refl in
      rw (scan_clusters_step n sector cluster used, is_so, e)
        (subst
          (λ (xs : List DirectoryEntry).
            FindsFirst filename xs
              (and_then (scan_all filename (entries_of fw p bpb sector cluster)) at_end))
          flat
          (FindsFirst_entries filename (entries_of fw p bpb sector cluster) [] at_end
            FindsFirst.none_left))
  scan_clusters-FindsFirst (Directory.next {n} {cluster} {sector} {es = more} used fine d e) =
      let not_so : (read_fat32_entry fw p bpb cluster == fat32_bad_cluster) ≡ false =
        ground arith in
      rw (scan_clusters_step n sector cluster used, not_so, e)
        (FindsFirst_entries filename (entries_of fw p bpb sector cluster) more _
          (scan_clusters-FindsFirst d))

-- The result for what the search found; `m` is what kmalloc returned.
abbrev pub answer : Volume → ℕ → Scan → Status × Option File
answer p m (found de) =
    if m == null then (Status.out_of_memory, none) else (Status.ok, some (opened p de))
answer p m _ = (Status.not_found, none)

FindsFirst-ne-out_of_fuel :
    {filename : List ℕ} {es : List DirectoryEntry} {s : Scan}
    → FindsFirst filename es s
    → s ≢ out_of_fuel
FindsFirst-ne-out_of_fuel FindsFirst.none_left = cc
FindsFirst-ne-out_of_fuel (FindsFirst.marked de es mark) = cc
FindsFirst-ne-out_of_fuel (FindsFirst.passed de es live skip rest) = FindsFirst-ne-out_of_fuel rest
FindsFirst-ne-out_of_fuel (FindsFirst.here de es live kept named) = cc

scan_directory_for-answer :
    (fuel : ℕ) (fw : Firmware) (p : Volume) (bpb : BiosParameterBlock) (cluster : ℕ) (path : List ℕ)
    (m : ℕ) (s : Scan)
    → scan_clusters fuel fw p bpb path fw.stale cluster ≡ s
    → s ≢ out_of_fuel
    → scan_directory_for fuel fw p bpb cluster path m ≡ some (answer p m s)
unfolding scan_directory_for
scan_directory_for-answer fuel fw p bpb cluster path m (found de) e ne = ground arith
scan_directory_for-answer fuel fw p bpb cluster path m at_end e ne = ground arith
scan_directory_for-answer fuel fw p bpb cluster path m go_on e ne = ground arith
scan_directory_for-answer fuel fw p bpb cluster path m out_of_fuel e ne = absurd (ne refl)

-- OpenFile_FAT32 where the chain of clusters of the root directory ends within `fuel` clusters: it looks through
-- the directory's entries as they are read, in their order, up to the end mark, passes over deleted files and long names, and
-- opens at its start the first file whose name is the path but for case, where there is memory; it says
-- that nothing was found exactly where there is no such entry. The status of a read is not looked at: in place of a
-- sector that cannot be read, the entries of the one before are read again.
pub open_file-FindsFirst :
    (fuel : ℕ) (fw : Firmware) (p : Volume) (path : List ℕ) (m : ℕ) {es : List DirectoryEntry}
    → let bpb = bpb_of (sector_or_stale fw p.drive_index p.lba_start) in
      Directory fw p bpb fuel fw.stale bpb.root_cluster es
      → (s : Scan) × FindsFirst path es s × (open_file fuel fw p path m ≡ some (answer p m s))
unfolding open_file
open_file-FindsFirst fuel fw p path m d =
    let bpb = bpb_of (sector_or_stale fw p.drive_index p.lba_start) in
    let first = scan_clusters-FindsFirst fw p bpb path d in
    (
      scan_clusters fuel fw p bpb path fw.stale bpb.root_cluster,
      first,
      scan_directory_for-answer fuel fw p bpb bpb.root_cluster path m _ refl
          (FindsFirst-ne-out_of_fuel first),
    )
