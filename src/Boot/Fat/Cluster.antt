-- ===== src/Boot/Fat/Cluster.antt =====
-- What the loop over the sectors of one cluster reads.
use dragon_ware.Base.{
  ℕ, zero, suc, ◌+◌, ◌-◌, ◌*◌, ◌/◌, ◌%◌, ◌≤◌, ◌<◌, ◌≡◌, refl, ap₂, ◌∙◌, ◌≢◌, ◌⊎◌, inl, inr,
  Bool-cases, true, false, List, [], ◌++◌, arith, ltb, min, take, drop, length, get_or,
}
use mathlib.Core.List.{append-nil}
use dragon_ware.Base.Words.{add32, two32}
use dragon_ware.Base.Segments.{segment, segment_agree, segment-append, take-drop}
use dragon_ware.Status.{Status, Status-discrete}
use dragon_ware.Boot.Disk.{Firmware, sector_size, read_from_disk_lomem}
use dragon_ware.Boot.Fat.{Progress, here, behind, read_cluster}

pub Status-cases : (s : Status) → (s ≡ Status.ok) ⊎ (s ≢ Status.ok)
Status-cases s = elim (Status-discrete s Status.ok) [ yes e ↦ inl e | no n ↦ inr n ]

-- The BIOS gives 512 bytes for a sector of a hard disk.
abbrev pub FullSectors : Firmware → Type 0
FullSectors fw =
    (drive lba : ℕ)
    → (read_from_disk_lomem fw drive lba 1).0 ≡ Status.ok
    → length (read_from_disk_lomem fw drive lba 1).1 ≡ sector_size

module _ (fw : Firmware) (drive lba : ℕ) where
  -- Byte `o` of the cluster that begins at `lba`.
  abbrev pub cluster_byte : ℕ → ℕ
  cluster_byte o =
      get_or (read_from_disk_lomem fw drive (add32 lba (o / sector_size)) 1).1 (o % sector_size) 0

  abbrev pub Unreadable : ℕ → Type 0
  Unreadable s = (read_from_disk_lomem fw drive (add32 lba s) 1).0 ≢ Status.ok

  -- What a read of `count` bytes from byte `o` of the cluster gives, or that a sector of it cannot be read.
  pub data ReadsCluster (rounds s o count left cursor : ℕ) : Progress → Type 0 where
    all_read :
        {r : Progress}
        → r.fine ≡ true
        → r.bytes ≡ segment cluster_byte o count
        → r.left ≡ left - count
        → r.cursor ≡ cursor + count
        → ReadsCluster rounds s o count left cursor r
    failed :
        {r : Progress} (j : ℕ)
        → r.fine ≡ false
        → s ≤ j
        → j < s + rounds
        → Unreadable j
        → ReadsCluster rounds s o count left cursor r

  read_cluster_none :
      (rounds s offset cursor : ℕ)
      → read_cluster rounds fw drive lba s offset 0 cursor ≡ here 0 cursor
  unfolding read_cluster
  read_cluster_none zero s offset cursor = refl
  read_cluster_none (suc rounds) s offset cursor = refl

  read_cluster_empty :
      (s offset left cursor : ℕ)
      → read_cluster zero fw drive lba s offset left cursor ≡ here left cursor
  unfolding read_cluster
  read_cluster_empty s offset left cursor = refl

  read_cluster_bad :
      (rounds s offset l cursor : ℕ)
      → Unreadable s
      → (read_cluster (suc rounds) fw drive lba s offset (suc l) cursor).fine ≡ false
  unfolding read_cluster
  read_cluster_bad rounds s offset l cursor bad = ground arith

  abbrev copied : ℕ → ℕ → ℕ
  copied left offset = min left (sector_size - offset)

  read_cluster_step :
      (rounds s offset l cursor : ℕ)
      → (read_from_disk_lomem fw drive (add32 lba s) 1).0 ≡ Status.ok
      → read_cluster (suc rounds) fw drive lba s offset (suc l) cursor
        ≡ behind
            (take
              (copied (suc l) offset)
              (drop offset (read_from_disk_lomem fw drive (add32 lba s) 1).1))
            (read_cluster rounds fw drive lba
              (s + 1)
              0
              (suc l - copied (suc l) offset)
              (add32 cursor (copied (suc l) offset)))
  unfolding read_cluster
  read_cluster_step rounds s offset l cursor fine = ground arith

  chunk_of_cluster :
      (s offset n : ℕ)
      → offset + n ≤ sector_size
      → length (read_from_disk_lomem fw drive (add32 lba s) 1).1 ≡ sector_size
      → take n (drop offset (read_from_disk_lomem fw drive (add32 lba s) 1).1)
        ≡ segment cluster_byte (s * sector_size + offset) n
  chunk_of_cluster s offset n fit size =
      take-drop _ offset n (omega arith)
      ∙ segment_agree _ _ offset (s * sector_size + offset) n (λ k lt.
        let sector : (s * sector_size + offset + k) / sector_size ≡ s = omega arith in
        let place : (s * sector_size + offset + k) % sector_size ≡ offset + k = omega arith in
        rw (sector, place) refl)

  -- One sector before what the rest of the loop reads.
  ReadsCluster-step :
      (rounds s offset left cursor : ℕ) (r : Progress)
      → offset < sector_size
      → length (read_from_disk_lomem fw drive (add32 lba s) 1).1 ≡ sector_size
      → ReadsCluster rounds
          (s + 1)
          ((s + 1) * sector_size + 0)
          (min (left - copied left offset) (rounds * sector_size - 0))
          (left - copied left offset)
          (cursor + copied left offset)
          r
      → ReadsCluster
          (suc rounds)
          s
          (s * sector_size + offset)
          (min left (suc rounds * sector_size - offset))
          left
          cursor
          (behind
            (take
              (copied left offset)
              (drop offset (read_from_disk_lomem fw drive (add32 lba s) 1).1))
            r)
  ReadsCluster-step rounds s offset left cursor r inside size (ReadsCluster.all_read f b l c) =
      elim (Bool-cases (ltb left (sector_size - offset))) [
        | inl short ↦
            let n : copied left offset ≡ left = ground arith in
            let none_left : min (left - copied left offset) (rounds * sector_size - 0) ≡ 0 =
              omega arith in
            let all : min left (suc rounds * sector_size - offset) ≡ left = ground arith in
            let no_bytes : r.bytes ≡ [] = b ∙ (rw none_left refl) in
            ReadsCluster.all_read f
              (rw (no_bytes, append-nil, all)
                (chunk_of_cluster s offset (copied left offset) (omega arith) size ∙ rw n refl))
              (omega arith) (omega arith)
        | inr long ↦
            let n : copied left offset ≡ sector_size - offset = ground arith in
            let total : min left (suc rounds * sector_size - offset)
                ≡ copied left offset + min (left - copied left offset) (rounds * sector_size - 0) =
              ground arith in
            let start : (s + 1) * sector_size + 0
                ≡ (s * sector_size + offset) + copied left offset =
              omega arith in
            ReadsCluster.all_read f
              (rw
                (
                  total,
                  segment-append cluster_byte (s * sector_size + offset) (copied left offset)
                      (min (left - copied left offset) (rounds * sector_size - 0)),
                )
                (ap₂ (λ (a c : List ℕ). a ++ c)
                  (chunk_of_cluster s offset (copied left offset) (omega arith) size)
                  (b ∙ rw start refl)))
              (omega arith) (omega arith)
      ]
  ReadsCluster-step rounds s offset left cursor r inside size (ReadsCluster.failed j f lo hi bad) =
      ReadsCluster.failed j f (omega arith) (omega arith) bad

  pub read_cluster-ReadsCluster :
      (rounds s offset left cursor : ℕ)
      → FullSectors fw
      → offset < sector_size
      → cursor + left < two32
      → ReadsCluster rounds s
          (s * sector_size + offset)
          (min left (rounds * sector_size - offset))
          left
          cursor
          (read_cluster rounds fw drive lba s offset left cursor)
  read_cluster-ReadsCluster zero s offset left cursor full inside small =
      let e : min left (0 * sector_size - offset) ≡ 0 = omega arith in
      rw (e, read_cluster_empty s offset left cursor)
        (ReadsCluster.all_read refl refl (omega arith) (omega arith))
  read_cluster-ReadsCluster (suc rounds) s offset zero cursor full inside small =
      let e : min 0 (suc rounds * sector_size - offset) ≡ 0 = omega arith in
      let none_read : []
          ≡ segment cluster_byte (s * sector_size + offset)
              (min 0 (suc rounds * sector_size - offset)) =
        rw e refl in
      rw (read_cluster_none (suc rounds) s offset cursor)
        (ReadsCluster.all_read refl none_read (omega arith) (omega arith))
  read_cluster-ReadsCluster (suc rounds) s offset (suc l) cursor full inside small =
      elim (Status-cases (read_from_disk_lomem fw drive (add32 lba s) 1).0) [
        | inr bad ↦
            ReadsCluster.failed s (read_cluster_bad rounds s offset l cursor bad) (omega arith)
              (omega arith) bad
        | inl fine ↦
            let n = copied (suc l) offset in
            let e : add32 cursor n ≡ cursor + n = omega arith in
            rw (read_cluster_step rounds s offset l cursor fine, e)
              (ReadsCluster-step rounds s offset (suc l) cursor _ inside (full _ _ fine) (
                read_cluster-ReadsCluster rounds (s + 1) 0 (suc l - n) (cursor + n) full
                  (omega arith) (omega arith)))
      ]
