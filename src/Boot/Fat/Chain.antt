-- ===== src/Boot/Fat/Chain.antt =====
-- What the loop over the clusters of a FAT32 file gives.
use dragon_ware.Base.{
  ℕ, zero, suc, ◌+◌, ◌-◌, ◌*◌, ◌/◌, ◌%◌, ◌≤◌, ◌==◌, ◌<◌, ◌≡◌, refl, subst, ap₂, ◌∙◌, ◌⊎◌, inl, inr,
  Bool-cases, true, false, List, ◌++◌, arith, ltb, leb, min,
}
use mathlib.Core.Path.{subst₂}
use dragon_ware.Base.Words.{two32}
use dragon_ware.Base.Blocks.{mod_lt, div_in_block, mod_in_block, div_next_block}
use dragon_ware.Base.Segments.{segment, segment_agree, segment-append}
use dragon_ware.Boot.Disk.{Firmware, sector_size}
use dragon_ware.Boot.Fat.{
  fat32_eof, BiosParameterBlock, Volume, cluster_to_lba, read_fat32_entry, Progress, here, behind,
  read_cluster, read_clusters,
}
use dragon_ware.Boot.Fat.Cluster.{
  FullSectors, cluster_byte, Unreadable, ReadsCluster, read_cluster-ReadsCluster,
}

module _ (fw : Firmware) (p : Volume) (bpb : BiosParameterBlock) (first : ℕ) where
  -- The chain of clusters that begins with `first`.
  abbrev pub cluster_at : ℕ → ℕ
  cluster_at zero = first
  cluster_at (suc i) = read_fat32_entry fw p bpb (cluster_at i)

  abbrev pub bytes_per_cluster : ℕ
  bytes_per_cluster = bpb.sectors_per_cluster * sector_size

  -- Byte `k` of the chain's clusters, one behind the other.
  abbrev pub byte_at : ℕ → ℕ
  byte_at k =
      cluster_byte fw p.drive_index (cluster_to_lba p bpb (cluster_at (k / bytes_per_cluster)))
        (k % bytes_per_cluster)

  -- What a read of `left` bytes from `cursor` on gives: the chain's bytes, each in a cluster with no end mark
  -- between the cursor's cluster and it, and fewer than wanted only where the chain ends behind them; or
  -- that a sector of such a cluster cannot be read.
  pub data ReadsChain (left cursor : ℕ) (r : Progress) : Type 0 where
    reads :
        (count : ℕ)
        → r.fine ≡ true
        → count ≤ left
        → r.bytes ≡ segment byte_at cursor count
        → r.left ≡ left - count
        → r.cursor ≡ cursor + count
        → (count ≡ left)
          ⊎ ((i : ℕ) × (i ≤ (cursor + count) / bytes_per_cluster) × (fat32_eof ≤ cluster_at i))
        → ((k i : ℕ)
            → k < count
            → cursor / bytes_per_cluster ≤ i
            → i ≤ (cursor + k) / bytes_per_cluster
            → cluster_at i < fat32_eof)
        → ReadsChain left cursor r
    failed :
        (i j : ℕ)
        → r.fine ≡ false
        → 0 < left
        → cursor / bytes_per_cluster ≤ i
        → ((k : ℕ) → cursor / bytes_per_cluster ≤ k → k ≤ i → cluster_at k < fat32_eof)
        → j < bpb.sectors_per_cluster
        → Unreadable fw p.drive_index (cluster_to_lba p bpb (cluster_at i)) j
        → ReadsChain left cursor r

  read_clusters_none :
      (fuel cluster cursor : ℕ) → read_clusters fuel fw p bpb cluster 0 cursor ≡ here 0 cursor
  unfolding read_clusters
  read_clusters_none zero cluster cursor = refl
  read_clusters_none (suc fuel) cluster cursor = refl

  read_clusters_eof :
      (fuel cluster left cursor : ℕ)
      → leb fat32_eof cluster ≡ true
      → read_clusters fuel fw p bpb cluster left cursor ≡ here left cursor
  unfolding read_clusters
  read_clusters_eof zero cluster left cursor eof = refl
  read_clusters_eof (suc fuel) cluster left cursor eof = ground arith

  abbrev part_of : ℕ → ℕ → ℕ → Progress
  part_of cluster left cursor =
      let o = cursor % bytes_per_cluster in
      read_cluster (bpb.sectors_per_cluster - o / sector_size) fw p.drive_index
        (cluster_to_lba p bpb cluster) (o / sector_size) (o % sector_size) left cursor

  read_clusters_bad :
      (fuel cluster l cursor : ℕ)
      → leb fat32_eof cluster ≡ false
      → (part_of cluster (suc l) cursor).fine ≡ false
      → read_clusters (suc fuel) fw p bpb cluster (suc l) cursor ≡ part_of cluster (suc l) cursor
  unfolding read_clusters
  read_clusters_bad fuel cluster l cursor on bad = ground arith

  read_clusters_step :
      (fuel cluster l cursor : ℕ)
      → leb fat32_eof cluster ≡ false
      → (part_of cluster (suc l) cursor).fine ≡ true
      → let part = part_of cluster (suc l) cursor in
        read_clusters (suc fuel) fw p bpb cluster (suc l) cursor
        ≡ behind part.bytes
            (read_clusters fuel fw p bpb (read_fat32_entry fw p bpb cluster) part.left part.cursor)
  unfolding read_clusters
  read_clusters_step fuel cluster l cursor on fine = ground arith

  module _ (some_sectors : 0 < bpb.sectors_per_cluster) (full : FullSectors fw) where
    -- The rest of the cluster at the cursor.
    abbrev in_cluster : ℕ → ℕ → ℕ
    in_cluster left cursor = min left (bytes_per_cluster - cursor % bytes_per_cluster)

    cluster_bytes :
        (cursor count : ℕ)
        → count ≤ bytes_per_cluster - cursor % bytes_per_cluster
        → segment
            (cluster_byte fw p.drive_index
              (cluster_to_lba p bpb (cluster_at (cursor / bytes_per_cluster))))
            (cursor % bytes_per_cluster)
            count
          ≡ segment byte_at cursor count
    cluster_bytes cursor count fit =
        segment_agree _ _ (cursor % bytes_per_cluster) cursor count (λ k lt.
          rw
            (
              div_in_block cursor bytes_per_cluster k (omega arith)
                  (omega (arith, mod_lt cursor bytes_per_cluster)),
              mod_in_block cursor bytes_per_cluster k (omega arith)
                  (omega (arith, mod_lt cursor bytes_per_cluster)),
            )
            refl)

    part-ReadsCluster :
        (left cursor : ℕ)
        → cursor + left < two32
        → let o = cursor % bytes_per_cluster in
          let s = o / sector_size in
          ReadsCluster fw p.drive_index
            (cluster_to_lba p bpb (cluster_at (cursor / bytes_per_cluster)))
            (bpb.sectors_per_cluster - s)
            s
            o
            (in_cluster left cursor)
            left
            cursor
            (part_of (cluster_at (cursor / bytes_per_cluster)) left cursor)
    part-ReadsCluster left cursor small =
        let o : ℕ = cursor % bytes_per_cluster in
        let lt : o < bytes_per_cluster = mod_lt cursor bytes_per_cluster (omega arith) in
        let back : o / sector_size * sector_size + o % sector_size ≡ o = omega arith in
        let n : (bpb.sectors_per_cluster - o / sector_size) * sector_size - o % sector_size
            ≡ bytes_per_cluster - o =
          omega arith in
        subst₂
          (λ (a b : ℕ).
            ReadsCluster fw p.drive_index
              (cluster_to_lba p bpb (cluster_at (cursor / bytes_per_cluster)))
              (bpb.sectors_per_cluster - o / sector_size) (o / sector_size) a (min left b) left
              cursor (part_of (cluster_at (cursor / bytes_per_cluster)) left cursor))
          back n
          (read_cluster-ReadsCluster fw p.drive_index
            (cluster_to_lba p bpb (cluster_at (cursor / bytes_per_cluster)))
            (bpb.sectors_per_cluster - o / sector_size) (o / sector_size) (o % sector_size) left
            cursor full (omega arith) small)

    -- One cluster, and what the rest of the loop reads; `n` bytes of the cluster are read.
    ReadsChain-part :
        (fuel left cursor n : ℕ) (r : Progress) (rest : Progress)
        → n ≡ in_cluster left cursor
        → r.fine ≡ true
        → r.bytes ≡ segment byte_at cursor n
        → cluster_at (cursor / bytes_per_cluster) < fat32_eof
        → ((0 < left - n) → (cursor + n) / bytes_per_cluster ≡ suc (cursor / bytes_per_cluster))
        → ReadsChain (left - n) (cursor + n) rest
        → ReadsChain left cursor (behind r.bytes rest)
    ReadsChain-part fuel left cursor n r rest e fine bytes on next
          (ReadsChain.reads count f le b l c all alive) =
        ReadsChain.reads (n + count) f (omega arith)
          (rw (segment-append byte_at cursor n count) (ap₂ (λ (x y : List ℕ). x ++ y) bytes b))
          (omega arith) (omega arith)
          (elim all [
            | inl done ↦ inl (omega arith)
            | inr (i, le', eof) ↦
                let at : cursor + n + count ≡ cursor + (n + count) = omega arith in
                inr (i, rw (← at) le', eof)
          ])
          (λ k i lt lo hi. elim (Bool-cases (i == cursor / bytes_per_cluster)) [
            | inl same ↦ let eq : i ≡ cursor / bytes_per_cluster = ground arith in rw eq on
            | inr other ↦
                let above : suc (cursor / bytes_per_cluster) ≤ i = ground arith in
                elim (Bool-cases (ltb k n)) [
                  | inl early ↦
                      let stays : (cursor + k) / bytes_per_cluster ≡ cursor / bytes_per_cluster =
                        div_in_block cursor bytes_per_cluster k (omega arith)
                          (ground (arith, mod_lt cursor bytes_per_cluster (omega arith))) in
                      absurd (omega arith)
                  | inr late ↦
                      let k' : ℕ = k - n in
                      let inside : k' < count = ground arith in
                      let more : 0 < left - n = omega arith in
                      let there : (cursor + n) / bytes_per_cluster ≤ i = rw (next more) above in
                      let at : cursor + n + k' ≡ cursor + k = ground arith in
                      alive k' i inside there (rw at hi)
                ]
          ])
    ReadsChain-part fuel left cursor n r rest e fine bytes on next
          (ReadsChain.failed i j f more lo alive lt bad) =
        let up = next more in
        ReadsChain.failed i j f (omega arith) (omega (arith, up))
          (λ k lo' hi. elim (Bool-cases (k == cursor / bytes_per_cluster)) [
            | inl same ↦ let eq : k ≡ cursor / bytes_per_cluster = ground arith in rw eq on
            | inr other ↦
                let above : suc (cursor / bytes_per_cluster) ≤ k = ground arith in
                alive k (rw up above) hi
          ])
          lt bad

    next_cluster :
        (left cursor : ℕ)
        → 0 < left - in_cluster left cursor
        → (cursor + in_cluster left cursor) / bytes_per_cluster ≡ suc (cursor / bytes_per_cluster)
    next_cluster left cursor more =
        let e : in_cluster left cursor ≡ bytes_per_cluster - cursor % bytes_per_cluster =
          ground arith in
        rw e (omega (arith, div_next_block cursor bytes_per_cluster (omega arith)))

    -- The loop goes on with the next cluster of the chain, or is over.
    rest-ReadsChain :
        (fuel left cursor : ℕ)
        → let n = in_cluster left cursor in
          ((0 < left - n)
            → ReadsChain (left - n) (cursor + n) (
                read_clusters fuel fw p bpb
                  (cluster_at ((cursor + n) / bytes_per_cluster))
                  (left - n)
                  (cursor + n)))
          → ReadsChain (left - n) (cursor + n) (
              read_clusters fuel fw p bpb
                (cluster_at (suc (cursor / bytes_per_cluster)))
                (left - n)
                (cursor + n))
    rest-ReadsChain fuel left cursor ih =
        let n : ℕ = in_cluster left cursor in
        elim (Bool-cases (ltb n left)) [
          | inl more ↦
              let next : (cursor + n) / bytes_per_cluster ≡ suc (cursor / bytes_per_cluster) =
                next_cluster left cursor (ground arith) in
              subst
                (λ (k : ℕ).
                  ReadsChain (left - n) (cursor + n)
                    (read_clusters fuel fw p bpb (cluster_at k) (left - n) (cursor + n)))
                next (ih (ground arith))
          | inr over ↦
              let e : left - n ≡ 0 = ground arith in
              rw
                (
                  e,
                  read_clusters_none fuel (cluster_at (suc (cursor / bytes_per_cluster)))
                      (cursor + n),
                )
                (ReadsChain.reads 0 refl (omega arith) refl (omega arith) (omega arith) (inl refl)
                  (λ k i lt. absurd (omega arith)))
        ]

    ReadsChain-step :
        (fuel l cursor : ℕ)
        → let n = in_cluster (suc l) cursor in
          let o = cursor % bytes_per_cluster in
          leb fat32_eof (cluster_at (cursor / bytes_per_cluster)) ≡ false
          → ((0 < suc l - n)
              → ReadsChain (suc l - n) (cursor + n) (
                  read_clusters fuel fw p bpb
                    (cluster_at ((cursor + n) / bytes_per_cluster))
                    (suc l - n)
                    (cursor + n)))
          → ReadsCluster fw p.drive_index
              (cluster_to_lba p bpb (cluster_at (cursor / bytes_per_cluster)))
              (bpb.sectors_per_cluster - o / sector_size)
              (o / sector_size)
              o
              n
              (suc l)
              cursor
              (part_of (cluster_at (cursor / bytes_per_cluster)) (suc l) cursor)
          → ReadsChain (suc l) cursor (
              read_clusters
                (suc fuel)
                fw
                p
                bpb
                (cluster_at (cursor / bytes_per_cluster))
                (suc l)
                cursor)
    ReadsChain-step fuel l cursor on ih (ReadsCluster.all_read fine b left c) =
        let n : ℕ = in_cluster (suc l) cursor in
        let cluster : ℕ = cluster_at (cursor / bytes_per_cluster) in
        rw (read_clusters_step fuel cluster l cursor on fine, left, c)
          (ReadsChain-part fuel (suc l) cursor n (part_of cluster (suc l) cursor) _ refl fine
            (b ∙ cluster_bytes cursor n (omega arith)) (ground arith) (next_cluster (suc l) cursor)
            (rest-ReadsChain fuel (suc l) cursor ih))
    ReadsChain-step fuel l cursor on ih (ReadsCluster.failed j bad lo hi unread) =
        let cluster : ℕ = cluster_at (cursor / bytes_per_cluster) in
        rw (read_clusters_bad fuel cluster l cursor on bad) (
          ReadsChain.failed (cursor / bytes_per_cluster) j bad (omega arith) (omega arith)
            (λ k lo' hi'.
              let same : k ≡ cursor / bytes_per_cluster = omega arith in rw same (ground arith))
            (omega (arith, mod_lt cursor bytes_per_cluster)) unread)

    pub read_clusters-ReadsChain :
        (fuel left cursor : ℕ)
        → left ≤ fuel
        → cursor + left < two32
        → ReadsChain left cursor
            (read_clusters fuel fw p bpb (cluster_at (cursor / bytes_per_cluster)) left cursor)
    read_clusters-ReadsChain fuel zero cursor enough small =
        rw (read_clusters_none fuel (cluster_at (cursor / bytes_per_cluster)) cursor) (
          ReadsChain.reads 0 refl (omega arith) refl (omega arith) (omega arith) (inl refl)
            (λ k i lt. absurd (omega arith)))
    read_clusters-ReadsChain zero (suc l) cursor enough small = absurd (omega arith)
    read_clusters-ReadsChain (suc fuel) (suc l) cursor enough small =
        let cluster : ℕ = cluster_at (cursor / bytes_per_cluster) in
        let lt : cursor % bytes_per_cluster < bytes_per_cluster =
          mod_lt cursor bytes_per_cluster (omega arith) in
        let n : ℕ = in_cluster (suc l) cursor in
        let some_bytes : 0 < n = omega (arith, lt) in
        let fewer : suc l - n ≤ fuel = omega arith in
        let fits : (cursor + n) + (suc l - n) < two32 = omega arith in
        let here_at : cursor / bytes_per_cluster ≤ (cursor + 0) / bytes_per_cluster =
          let e : cursor + 0 ≡ cursor = omega arith in rw e (omega arith) in
        elim (Bool-cases (leb fat32_eof cluster)) [
          | inl eof ↦ rw (read_clusters_eof (suc fuel) cluster (suc l) cursor eof) (
              ReadsChain.reads 0 refl (omega arith) refl (omega arith) (omega arith)
                (inr (cursor / bytes_per_cluster, here_at, ground arith))
                (λ k i lt. absurd (omega arith)))
          | inr on ↦
              ReadsChain-step fuel l cursor on
                (λ more.
                  read_clusters-ReadsChain fuel (suc l - in_cluster (suc l) cursor)
                    (cursor + in_cluster (suc l) cursor) fewer fits)
                (part-ReadsCluster (suc l) cursor small)
        ]
