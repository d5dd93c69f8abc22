-- ===== src/Boot/Iso/Directory/Scan.antt =====
-- What the search of a directory finds.
use dragon_ware.Base.{
  ℕ, zero, suc, ◌+◌, ◌-◌, ◌%◌, ◌≤◌, ◌<◌, ◌≡◌, refl, ap, ◌≢◌, ◌↔◌, inl, inr, Bool-cases, true, false,
  List, [], ◌∷◌, map, arith, ltb, ◌==◌, if◌then◌else◌, length, length-map, bit_and,
}
use dragon_ware.Base.Words.{add32, two32}
use dragon_ware.Text.Search.Laws.{IsText}
use dragon_ware.Text.Case.{tolower, strncasecmp_same}
use dragon_ware.Boot.Disk.{cd_sector_size}
use dragon_ware.Boot.Iso.Directory.{
  DirectoryRecord, byte, record_at, before_version, is_entry, Search, found, not_found, align_up,
  scan,
}

-- The records of a directory of `limit` bytes from an offset on: a record of length 0 fills the rest of a sector.
pub data Records (buf : List ℕ) (limit : ℕ) : ℕ → List DirectoryRecord → Type 0 where
  behind : {offset : ℕ} → limit ≤ offset → Records buf limit offset []
  padding :
      {offset next : ℕ} {rs : List DirectoryRecord}
      → offset < limit
      → byte buf offset ≡ 0
      → offset < next
      → next % cd_sector_size ≡ 0
      → next ≤ offset + cd_sector_size
      → Records buf limit next rs
      → Records buf limit offset rs
  entry :
      {offset next : ℕ} {rs : List DirectoryRecord}
      → offset < limit
      → byte buf offset ≢ 0
      → next ≡ offset + byte buf offset
      → Records buf limit next rs
      → Records buf limit offset (record_at buf offset ∷ rs)

-- A file, not a directory, whose name up to its version is the path, but for case.
abbrev pub Names : List ℕ → DirectoryRecord → Type 0
Names path r =
    (bit_and r.flags 0x02 ≡ 0) × (map tolower path ≡ map tolower (before_version r.file_id))

-- The first of the records that the path names.
pub data FindsFirst (path : List ℕ) : List DirectoryRecord → Search → Type 0 where
  none_left : FindsFirst path [] not_found
  here :
      (r : DirectoryRecord) (rs : List DirectoryRecord)
      → Names path r
      → FindsFirst path (r ∷ rs) (found r)
  there :
      (r : DirectoryRecord) (rs : List DirectoryRecord) {s : Search}
      → ¬ Names path r
      → FindsFirst path rs s
      → FindsFirst path (r ∷ rs) s

is_entry-Names :
    (path : List ℕ) (r : DirectoryRecord) → IsText path → (is_entry path r ≡ true) ↔ Names path r
unfolding is_entry
is_entry-Names path r t = elim (Bool-cases (length path == length (before_version r.file_id))) [
  | inl same ↦
      let e : length path ≡ length (before_version r.file_id) = ground arith in
      let alike = strncasecmp_same path (before_version r.file_id) t e in
      (
        λ k. (ground arith, alike.0 (rw e (ground arith))),
        λ n. let order = alike.1 n.1 in ground arith,
      )
  | inr other ↦ (
    λ k. ground arith,
    λ n.
        let e = ap length n.1 in
        absurd
          (ground (arith, length-map path tolower, length-map (before_version r.file_id) tolower)),
  )
]

module _ (buf : List ℕ) (limit : ℕ) (path : List ℕ) where
  -- One round.
  scan_past :
      (fuel offset : ℕ)
      → ltb offset limit ≡ false
      → scan (suc fuel) buf limit path offset ≡ not_found
  unfolding scan
  scan_past fuel offset h = ground arith

  scan_pad :
      (fuel offset : ℕ)
      → ltb offset limit ≡ true
      → (byte buf offset == 0) ≡ true
      → scan (suc fuel) buf limit path offset
        ≡ scan fuel buf limit path (align_up (add32 offset 1) cd_sector_size)
  unfolding scan
  scan_pad fuel offset h pad = rw (h, pad) refl

  scan_entry :
      (fuel offset : ℕ)
      → ltb offset limit ≡ true
      → (byte buf offset == 0) ≡ false
      → scan (suc fuel) buf limit path offset ≡ (
          if is_entry path (record_at buf offset)
          then found (record_at buf offset)
          else scan fuel buf limit path (add32 offset (byte buf offset)))
  unfolding scan
  scan_entry fuel offset h full = rw (h, full) refl

  module _ (t : IsText path) where
    -- An entry before what the rest of the search finds.
    FindsFirst_entry :
        (r : DirectoryRecord) (rs : List DirectoryRecord) (s : Search)
        → FindsFirst path rs s
        → FindsFirst path (r ∷ rs) (if is_entry path r then found r else s)
    FindsFirst_entry r rs s first = elim (Bool-cases (is_entry path r)) [
      | inl hit ↦ rw hit (FindsFirst.here r rs ((is_entry-Names path r t).0 hit))
      | inr miss ↦
          rw miss (FindsFirst.there r rs (λ n. let e = (is_entry-Names path r t).1 n in cc) first)
    ]

    pub scan-FindsFirst :
        (fuel offset : ℕ)
        → limit - offset < fuel
        → limit + 4096 < two32
        → ((i : ℕ) → byte buf i < 256)
        → (rs : List DirectoryRecord) × Records buf limit offset rs
          × FindsFirst path rs (scan fuel buf limit path offset)
    scan-FindsFirst zero offset enough small bytes = absurd (omega arith)
    scan-FindsFirst (suc fuel) offset enough small bytes = elim (Bool-cases (ltb offset limit)) [
      | inr past ↦
          ([], Records.behind (ground arith), rw (scan_past fuel offset past) FindsFirst.none_left)
      | inl inside ↦
          let lt : offset < limit = ground arith in
          elim (Bool-cases (byte buf offset == 0)) [
            | inl pad ↦
                let next : ℕ = align_up (add32 offset 1) cd_sector_size in
                let (rs, records, first) = scan-FindsFirst fuel next (omega arith) small bytes in
                (
                  rs,
                  Records.padding lt (ground arith) (omega arith) (omega arith) (omega arith)
                      records,
                  rw (scan_pad fuel offset inside pad) first,
                )
            | inr full ↦
                let some_bytes : byte buf offset ≢ 0 = ground arith in
                let next : ℕ = add32 offset (byte buf offset) in
                let e : next ≡ offset + byte buf offset = omega (arith, bytes offset) in
                let (rs, records, first) = scan-FindsFirst fuel next (omega arith) small bytes in
                (
                  record_at buf offset ∷ rs,
                  Records.entry lt some_bytes e records,
                  rw (scan_entry fuel offset inside full)
                      (FindsFirst_entry (record_at buf offset) rs _ first),
                )
          ]
    ]
