-- ===== src/Boot/Iso/Directory/Finds.antt =====
-- What FindDirectoryEntry does on each of its branches.
use dragon_ware.Base.{
  ℕ, zero, suc, ◌+◌, ◌≤◌, ◌<◌, ◌≡◌, refl, subst, Option-cases, ◌≢◌, ◌⊎◌, inl, inr, List, ◌++◌,
  Option, none, some, arith, ◌==◌, if◌then◌else◌, length,
}
use dragon_ware.Text.Search.{char_at, strchr}
use dragon_ware.Text.Search.Laws.{IsText, FindsLast, strchr-FindsLast}
use dragon_ware.Base.Store.{null}
use dragon_ware.Status.{Status, Status-discrete}
use dragon_ware.Boot.Disk.{Firmware, cd_sector_size, read_from_disk_lomem}
use dragon_ware.Boot.Iso.{File}
use dragon_ware.Boot.Iso.Directory.{
  DirectoryRecord, byte, Search, found, scan, opened, read_retrying, find_directory_entry,
}
use dragon_ware.Boot.Iso.Directory.Scan.{Records, FindsFirst, scan-FindsFirst}

-- The result for what the search found; `m` is what kmalloc returned.
abbrev pub answer : ℕ → ℕ → Search → Status × Option File
answer drive m (found r) =
    if m == null then (Status.out_of_memory, none) else (Status.ok, some (opened drive r))
answer drive m _ = (Status.not_found, none)

-- What FindDirectoryEntry does.
pub data FindsEntry (fw : Firmware) (drive : ℕ) (path : List ℕ) (root : DirectoryRecord) (m : ℕ)
    : Status × Option File → Type 0 where
  subdirectory :
      (i : ℕ) → char_at path i ≡ b'/' → FindsEntry fw drive path root m (Status.unsupported, none)
  unreadable :
      (read_from_disk_lomem fw drive root.lba 1).0 ≢ Status.ok
      → FindsEntry fw drive path root m (Status.retry, none)
  searched :
      (rs : List DirectoryRecord) {s : Search}
      → ((i : ℕ) → i ≤ length path → char_at path i ≢ b'/')
      → (read_from_disk_lomem fw drive root.lba 1).0 ≡ Status.ok
      → Records ((read_from_disk_lomem fw drive root.lba 1).1 ++ fw.behind) root.data_length 0 rs
      → FindsFirst path rs s
      → FindsEntry fw drive path root m (answer drive m s)

module _ (fw : Firmware) (drive lba : ℕ) where
  read_retrying_ok :
      (n : ℕ)
      → (read_from_disk_lomem fw drive lba 1).0 ≡ Status.ok
      → read_retrying (suc n) fw drive lba ≡ some (read_from_disk_lomem fw drive lba 1).1
  unfolding read_retrying
  read_retrying_ok n fine = ground arith

  read_retrying_bad :
      (n : ℕ)
      → (read_from_disk_lomem fw drive lba 1).0 ≢ Status.ok
      → read_retrying n fw drive lba ≡ none
  unfolding read_retrying
  read_retrying_bad zero bad = refl
  read_retrying_bad (suc n) bad = ground (arith, read_retrying_bad n bad)

module _ (fw : Firmware) (drive : ℕ) (path : List ℕ) (root : DirectoryRecord) (m : ℕ) where
  find_slash :
      (i : ℕ)
      → strchr path b'/' ≡ some i
      → find_directory_entry fw drive path root m ≡ (Status.unsupported, none)
  unfolding find_directory_entry
  find_slash i e = rw (e, find_directory_entry) refl

  find_unreadable :
      strchr path b'/' ≡ none
      → read_retrying 3 fw drive root.lba ≡ none
      → find_directory_entry fw drive path root m ≡ (Status.retry, none)
  unfolding find_directory_entry
  find_unreadable e e' = ground arith

  find_scan :
      (buf : List ℕ)
      → strchr path b'/' ≡ none
      → read_retrying 3 fw drive root.lba ≡ some buf
      → find_directory_entry fw drive path root m
        ≡ answer drive m (scan (root.data_length + 1) (buf ++ fw.behind) root.data_length path 0)
  unfolding find_directory_entry
  find_scan buf e e' = ground arith

slash_at : (str : List ℕ) (c : ℕ) {i : ℕ} → FindsLast str c (some i) → char_at str i ≡ c
slash_at str c (FindsLast.last_at i lt here behind) = here

no_slash :
    (str : List ℕ) (c : ℕ) → FindsLast str c none → (i : ℕ) → i ≤ length str → char_at str i ≢ c
no_slash str c (FindsLast.absent h) = h

Status-ok? : (s : Status) → (s ≡ Status.ok) ⊎ (s ≢ Status.ok)
Status-ok? s = elim (Status-discrete s Status.ok) [ yes e ↦ inl e | no n ↦ inr n ]

-- FindDirectoryEntry, for a path without a terminator inside and a root directory of at most one sector, of bytes:
-- refuses a path with a slash, and a directory whose sector cannot be read; else it looks through the
-- records that begin in the directory, which the fuel reaches the end of, and opens at its start the first
-- file whose name up to the version is the path but for case, where there is memory; it says that nothing
-- was found exactly where no such record is such a file. A record at the end of the sector may reach into
-- the bytes behind the buffer.
pub find_directory_entry-FindsEntry :
    (fw : Firmware) (drive : ℕ) (path : List ℕ) (root : DirectoryRecord) (m : ℕ)
    → IsText path
    → root.data_length ≤ cd_sector_size
    → ((i : ℕ) → byte ((read_from_disk_lomem fw drive root.lba 1).1 ++ fw.behind) i < 256)
    → FindsEntry fw drive path root m (find_directory_entry fw drive path root m)
find_directory_entry-FindsEntry fw drive path root m t small bytes =
    elim (Option-cases (strchr path b'/')) [
      | inr (i, e) ↦ rw (find_slash fw drive path root m i e) (
          FindsEntry.subdirectory i
            (slash_at path b'/' (subst (FindsLast path b'/') e (strchr-FindsLast path b'/'))))
      | inl e ↦
          let none_in =
            no_slash path b'/' (subst (FindsLast path b'/') e (strchr-FindsLast path b'/')) in
          elim (Status-ok? (read_from_disk_lomem fw drive root.lba 1).0) [
            | inr bad ↦
                rw
                  (find_unreadable fw drive path root m e
                    (read_retrying_bad fw drive root.lba 3 bad))
                  (FindsEntry.unreadable bad)
            | inl fine ↦
                let buf = (read_from_disk_lomem fw drive root.lba 1).1 in
                let (rs, records, first) =
                  scan-FindsFirst (buf ++ fw.behind) root.data_length path t (root.data_length + 1)
                    0 (omega arith) (omega arith) bytes in
                rw
                  (find_scan fw drive path root m buf e (read_retrying_ok fw drive root.lba 2 fine))
                  (FindsEntry.searched rs none_in fine records first)
          ]
    ]
