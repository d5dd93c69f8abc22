-- ===== src/Boot/Fat/Read.antt =====
-- What a read of a file on a FAT32 volume gives.
use dragon_ware.Base.{
  ℕ, zero, suc, ◌+◌, ◌*◌, ◌/◌, ◌≤◌, ◌==◌, ◌<◌, ◌≡◌, refl, ◌⊎◌, inl, inr, Bool-cases, List, Option,
  none, some, arith, leb,
}
use dragon_ware.Base.Words.{two32}
use dragon_ware.Status.{Status}
use dragon_ware.Boot.Disk.{Firmware, sector_size, read_from_disk_lomem}
use dragon_ware.Boot.Fat.{
  fat32_eof, BiosParameterBlock, bpb_of, Volume, Fat32FileData, here, read_clusters, skip_clusters,
  read_file,
}
use dragon_ware.Boot.Fat.Cluster.{FullSectors}
use dragon_ware.Boot.Fat.Chain.{cluster_at, ReadsChain, read_clusters-ReadsChain}

module _ (fw : Firmware) (p : Volume) (bpb : BiosParameterBlock) (first : ℕ) where
  -- The chain goes on through `rounds` clusters from the i-th on, or ends among them.
  skip-chain :
      (rounds i : ℕ)
      → ((skip_clusters rounds fw p bpb (cluster_at fw p bpb first i)
            ≡ some (cluster_at fw p bpb first (i + rounds)))
          × ((k : ℕ) → i < k → k ≤ i + rounds → cluster_at fw p bpb first k < fat32_eof))
        ⊎ ((skip_clusters rounds fw p bpb (cluster_at fw p bpb first i) ≡ none)
            × ((k : ℕ) × (k ≤ i + rounds) × (fat32_eof ≤ cluster_at fw p bpb first k)))
  unfolding skip_clusters
  skip-chain zero i =
      let e : i + 0 ≡ i = omega arith in inl (rw e refl, λ k lt le'. absurd (omega arith))
  skip-chain (suc rounds) i =
      elim (Bool-cases (leb fat32_eof (cluster_at fw p bpb first (suc i)))) [
        | inl eof ↦ inr (ground arith, (suc i, omega arith, ground arith))
        | inr on ↦
            let e : suc i + rounds ≡ i + suc rounds = omega arith in
            elim (skip-chain rounds (suc i)) [
              | inl (there, alive) ↦ inl (
                rw (on, ← e) there,
                λ k lt le'. elim (Bool-cases (k == suc i)) [
                  | inl same ↦ let eq : k ≡ suc i = ground arith in rw eq (ground arith)
                  | inr other ↦ alive k (ground arith) (omega arith)
                ],
              )
              | inr (out, (k, le', eof)) ↦ inr (rw on out, (k, omega arith, eof))
            ]
      ]

-- The boot sector of a file's volume, and what it says.
abbrev pub boot_sector : Firmware → Fat32FileData → Status × List ℕ
boot_sector fw file = read_from_disk_lomem fw file.part.drive_index file.part.lba_start 1

abbrev pub bpb_of_file : Firmware → Fat32FileData → BiosParameterBlock
bpb_of_file fw file = bpb_of (boot_sector fw file).1

module _ (fw : Firmware) (file : Fat32FileData) (cursor n : ℕ) where
  abbrev skipped : Option ℕ
  skipped =
      skip_clusters (cursor / ((bpb_of_file fw file).sectors_per_cluster * sector_size)) fw
        file.part (bpb_of_file fw file) file.first_cluster

  read_file_ended :
      (boot_sector fw file).0 ≡ Status.ok
      → skipped ≡ none
      → read_file fw file cursor n ≡ here n cursor
  unfolding read_file
  read_file_ended fine out = ground arith

  read_file_from :
      (cluster : ℕ)
      → (boot_sector fw file).0 ≡ Status.ok
      → skipped ≡ some cluster
      → read_file fw file cursor n
        ≡ read_clusters n fw file.part (bpb_of_file fw file) cluster n cursor
  unfolding read_file
  read_file_from cluster fine e = ground arith

  -- No cluster from the second up to the cursor's is an end mark.
  abbrev pub NotEnded : Type 0
  NotEnded =
      (k : ℕ)
      → 0 < k
      → k ≤ cursor / ((bpb_of_file fw file).sectors_per_cluster * sector_size)
      → cluster_at fw file.part (bpb_of_file fw file) file.first_cluster k < fat32_eof

  -- ReadFile_FAT32 of a volume whose boot sector can be read and has clusters of at least a sector, on
  -- firmware that reads whole sectors, up to 4 GiB: returns the bytes of the file's clusters from
  -- the cursor on, all before the end of the chain, and moves the cursor behind them; they are fewer than
  -- asked for only where the chain of clusters ends there or before; it fails only where a sector of a
  -- cluster before the end of the chain cannot be read; and where the chain ends before the cursor, it
  -- reads nothing. Only a first cluster that is itself an end mark is not noticed, where the cursor lies behind
  -- it.
  pub read_file-ReadsChain :
      FullSectors fw
      → (boot_sector fw file).0 ≡ Status.ok
      → 0 < (bpb_of_file fw file).sectors_per_cluster
      → cursor + n < two32
      → ReadsChain fw file.part
          (bpb_of_file fw file)
          file.first_cluster
          n
          cursor
          (read_file fw file cursor n)
        × (NotEnded ⊎ (read_file fw file cursor n ≡ here n cursor))
  read_file-ReadsChain full fine some_sectors small =
      let bpb = bpb_of_file fw file in
      let b : ℕ = bpb.sectors_per_cluster * sector_size in
      let e : 0 + cursor / b ≡ cursor / b = omega arith in
      elim (skip-chain fw file.part bpb file.first_cluster (cursor / b) 0) [
        | inl (there, alive) ↦ (
          rw
              (read_file_from (cluster_at fw file.part bpb file.first_cluster (cursor / b)) fine
                (rw e at there))
              (read_clusters-ReadsChain fw file.part bpb file.first_cluster some_sectors full n n
                cursor (omega arith) small),
          inl (λ k lt le'. alive k lt (omega arith)),
        )
        | inr (out, (k, le', eof)) ↦
            let same : cursor + 0 ≡ cursor = omega arith in
            (
              rw (read_file_ended fine out) (
                  ReadsChain.reads 0 refl (omega arith) refl (omega arith) (omega arith)
                    (inr (k, rw same (omega arith), eof)) (λ k i lt. absurd (omega arith))),
              inr (read_file_ended fine out),
            )
      ]
