-- ===== src/Boot/Iso/Read.antt =====
-- What a read of a file on a CD gives.
use dragon_ware.Base.{
  ℕ, zero, suc, ◌+◌, ◌-◌, ◌/◌, ◌%◌, ◌≤◌, ◌<◌, ◌≡◌, refl, ap₂, ◌∙◌, ◌⊎◌, inl, inr, ◌≢◌, Bool-cases,
  true, false, List, [], ◌++◌, arith, leb, ltb, if◌then◌else◌, min, take, drop, length, get_or,
}
use dragon_ware.Base.Words.{add32, sub32, two32}
use dragon_ware.Base.Segments.{segment, segment_agree, segment-append, take-drop}
use dragon_ware.Status.{Status, Status-discrete}
use dragon_ware.Boot.Disk.{Firmware, cd_sector_size, read_from_disk_lomem}
use dragon_ware.Boot.Iso.{DriverFileData, File, sector_at, read_sectors, read_file}

-- Byte `k` of a file is byte `k % 2048` of sector `k / 2048` behind its first.
abbrev pub byte_at : Firmware → DriverFileData → ℕ → ℕ
byte_at fw fdata k = get_or (sector_at fw fdata k).1 (k % cd_sector_size) 0

-- What a read of `left` bytes at `cursor` that gives `r` did: all bytes are the file's, the cursor moved
-- behind them, and where they are fewer than wanted, the sector at the new cursor cannot be read.
pub record ReadsOn (fw : Firmware) (fdata : DriverFileData) (left cursor : ℕ) (r : List ℕ × ℕ)
    : Type 0 where
  pub count : ℕ
  pub in_range : count ≤ left
  pub from_file : r.0 ≡ segment (byte_at fw fdata) cursor count
  pub moved : r.1 ≡ cursor + count
  pub complete : (count ≡ left) ⊎ ((sector_at fw fdata r.1).0 ≢ Status.ok)

-- The BIOS gives 2048 bytes for a sector of a CD.
abbrev pub FullSectors : Firmware → Type 0
FullSectors fw =
    (drive lba : ℕ)
    → (read_from_disk_lomem fw drive lba 1).0 ≡ Status.ok
    → length (read_from_disk_lomem fw drive lba 1).1 ≡ cd_sector_size

Status-cases : (s : Status) → (s ≡ Status.ok) ⊎ (s ≢ Status.ok)
Status-cases s = elim (Status-discrete s Status.ok) [ yes e ↦ inl e | no n ↦ inr n ]

module _ (fw : Firmware) (fdata : DriverFileData) where
  abbrev chunk_of : ℕ → ℕ → ℕ
  chunk_of left cursor = min left (cd_sector_size - cursor % cd_sector_size)

  read_sectors_done : (fuel cursor : ℕ) → read_sectors (suc fuel) fw fdata 0 cursor ≡ ([], cursor)
  unfolding read_sectors
  read_sectors_done fuel cursor = refl

  read_sectors_failed :
      (fuel left cursor : ℕ)
      → (sector_at fw fdata cursor).0 ≢ Status.ok
      → read_sectors (suc fuel) fw fdata left cursor ≡ ([], cursor)
  unfolding read_sectors
  read_sectors_failed fuel left cursor bad = ground arith

  read_sectors_step :
      (fuel left cursor : ℕ)
      → left ≢ 0
      → (sector_at fw fdata cursor).0 ≡ Status.ok
      → let rest =
          read_sectors fuel fw fdata
            (left - chunk_of left cursor)
            (add32 cursor (chunk_of left cursor)) in
        read_sectors (suc fuel) fw fdata left cursor ≡ (
          take (chunk_of left cursor) (drop (cursor % cd_sector_size) (sector_at fw fdata cursor).1)
              ++ rest.0,
          rest.1,
        )
  unfolding read_sectors
  read_sectors_step fuel left cursor more fine = ground arith

  -- The bytes of one sector, as bytes of the file.
  chunk_from_file :
      (left cursor : ℕ)
      → length (sector_at fw fdata cursor).1 ≡ cd_sector_size
      → take (chunk_of left cursor) (drop (cursor % cd_sector_size) (sector_at fw fdata cursor).1)
        ≡ segment (byte_at fw fdata) cursor (chunk_of left cursor)
  chunk_from_file left cursor size =
      take-drop _ (cursor % cd_sector_size) (chunk_of left cursor) (omega arith)
      ∙ segment_agree _ _ (cursor % cd_sector_size) cursor (chunk_of left cursor) (λ k lt.
        let same : (cursor + k) / cd_sector_size ≡ cursor / cd_sector_size = omega arith in
        let place : (cursor + k) % cd_sector_size ≡ cursor % cd_sector_size + k = omega arith in
        rw (same, place) refl)

  read_sectors_empty : (left cursor : ℕ) → read_sectors zero fw fdata left cursor ≡ ([], cursor)
  unfolding read_sectors
  read_sectors_empty left cursor = refl

  -- One sector, and then what the rest of the loop reads.
  ReadsOn-step :
      (left cursor : ℕ) (r : List ℕ × ℕ)
      → length (sector_at fw fdata cursor).1 ≡ cd_sector_size
      → ReadsOn fw fdata (left - chunk_of left cursor) (cursor + chunk_of left cursor) r
      → ReadsOn fw fdata left cursor (
        take (chunk_of left cursor) (drop (cursor % cd_sector_size) (sector_at fw fdata cursor).1)
            ++ r.0,
        r.1,
      )
  ReadsOn-step left cursor r size on = record {
    count = chunk_of left cursor + on.count;
    in_range = omega (arith, on.in_range);
    from_file =
        rw (segment-append (byte_at fw fdata) cursor (chunk_of left cursor) on.count)
          (ap₂ (λ (a b : List ℕ). a ++ b) (chunk_from_file left cursor size) on.from_file);
    moved = omega (arith, on.moved);
    complete = elim on.complete [ inl all ↦ inl (omega arith) | inr bad ↦ inr bad ];
  }

  read_sectors-ReadsOn :
      (fuel left cursor : ℕ)
      → FullSectors fw
      → left ≤ fuel
      → cursor + left < two32
      → ReadsOn fw fdata left cursor (read_sectors fuel fw fdata left cursor)
  read_sectors-ReadsOn zero left cursor full enough small =
      rw (read_sectors_empty left cursor) record {
        count = 0;
        in_range = omega arith;
        from_file = refl;
        moved = omega arith;
        complete = inl (omega arith);
      }
  read_sectors-ReadsOn (suc fuel) zero cursor full enough small =
      rw (read_sectors_done fuel cursor) record {
        count = 0;
        in_range = omega arith;
        from_file = refl;
        moved = omega arith;
        complete = inl refl;
      }
  read_sectors-ReadsOn (suc fuel) (suc l) cursor full enough small =
      elim (Status-cases (sector_at fw fdata cursor).0) [
        | inl fine ↦
            let d = chunk_of (suc l) cursor in
            let e : add32 cursor d ≡ cursor + d = omega arith in
            rw (read_sectors_step fuel (suc l) cursor (omega arith) fine, e)
              (ReadsOn-step (suc l) cursor _ (full _ _ fine) (
                read_sectors-ReadsOn fuel (suc l - d) (cursor + d) full (omega arith)
                  (omega arith)))
        | inr bad ↦ rw (read_sectors_failed fuel (suc l) cursor bad) record {
          count = 0;
          in_range = omega arith;
          from_file = refl;
          moved = omega arith;
          complete = inr bad;
        }
      ]

-- What ReadFile_ISO9660 of `n` bytes of a file that has not ended gives.
pub record ReadsFile (fw : Firmware) (f : File) (n : ℕ) (r : List ℕ × File) : Type 0 where
  pub count : ℕ
  pub in_range : count ≤ min n (f.internal.size - f.cursor)
  pub from_file : r.0 ≡ segment (byte_at fw f.internal) f.cursor count
  pub moved :
      r.1 ≡ record f { cursor = f.cursor + count; ended = leb f.internal.size (f.cursor + count) }
  pub complete :
      (count ≡ min n (f.internal.size - f.cursor))
      ⊎ ((sector_at fw f.internal (f.cursor + count)).0 ≢ Status.ok)

-- The bytes that a read wants.
abbrev wanted : File → ℕ → ℕ
wanted f n =
    let available = sub32 f.internal.size f.cursor in if ltb available n then available else n

read_file_open :
    (fw : Firmware) (f : File) (n : ℕ)
    → f.ended ≡ false
    → let r = read_sectors (wanted f n) fw f.internal (wanted f n) f.cursor in
      read_file fw f n ≡ (r.0, record f { cursor = r.1; ended = leb f.internal.size r.1 })
unfolding read_file
read_file_open fw f n going = ground arith

read_file_ended : (fw : Firmware) (f : File) (n : ℕ) → f.ended ≡ true → read_file fw f n ≡ ([], f)
unfolding read_file
read_file_ended fw f n over = ground arith

-- ReadFile_ISO9660 of a file below 4 GiB whose cursor is not behind its end, on firmware that reads
-- whole sectors: a file that has ended gives nothing; any other gives the file's bytes from the cursor
-- on, as many as asked for or as are left, or those before a sector that cannot be read; the cursor is
-- then behind them, and the file has ended exactly where it is at the end.
pub read_file-ReadsFile :
    (fw : Firmware) (f : File) (n : ℕ)
    → FullSectors fw
    → f.cursor ≤ f.internal.size
    → f.internal.size < two32
    → ((f.ended ≡ true) × (read_file fw f n ≡ ([], f))) ⊎ ReadsFile fw f n (read_file fw f n)
read_file-ReadsFile fw f n full inside small = elim (Bool-cases f.ended) [
  | inl over ↦ inl (over, read_file_ended fw f n over)
  | inr going ↦
      let want : wanted f n ≡ min n (f.internal.size - f.cursor) = ground arith in
      let on =
        read_sectors-ReadsOn fw f.internal (wanted f n) (wanted f n) f.cursor full (omega arith)
          (ground arith) in
      inr (
        rw (read_file_open fw f n going) record {
          count = on.count;
          in_range = omega (arith, on.in_range);
          from_file = on.from_file;
          moved = rw on.moved refl;
          complete = elim on.complete [
            | inl all ↦ inl (all ∙ want)
            | inr bad ↦ inr (λ fine. bad (rw on.moved fine))
          ];
        })
]
