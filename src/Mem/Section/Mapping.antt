-- ===== src/Mem/Section/Mapping.antt =====
-- What MapSection does to the pages of an address space.
use dragon_ware.Base.{ℕ, ◌+◌, ◌*◌, ◌%◌, ◌≤◌, ◌<◌, ◌≡◌, ◌≢◌, ◌⊎◌, true, false, bit_or}
use dragon_ware.Status.{Status}
use dragon_ware.Mem.Frame.{allocate_frame}
use dragon_ware.Mem.Frame.Spent.{Spent, RunsOut}
use dragon_ware.Mem.Paging.{AddressSpace, page_size, is_present}
use dragon_ware.Mem.Paging.Pages.{pages, page_entry}
use dragon_ware.Mem.Paging.Range.{inside}
use dragon_ware.Mem.Paging.Scan.{all_free}
use dragon_ware.Mem.Section.{Section, Progress, kernel_vm_page, section_flags}

-- A section keeps all but its frames, its base and its count.
pub record SameSection (a b : Section) : Type 0 where
  pub n_pages : b.n_pages ≡ a.n_pages
  pub permissions : b.permissions ≡ a.permissions
  pub address_space : b.address_space ≡ a.address_space
  pub refcnt : b.refcnt ≡ a.refcnt

-- Why the loop over `n` pages from page `i` on fails: memory runs out, a frame that the section has is not
-- aligned, or a page is page 0 or mapped already.
pub data Fails (first n i : ℕ) (s : Progress) : Type 0 where
  no_memory : RunsOut s.space.frames (2 * n) → Fails first n i s
  misaligned :
      (j : ℕ) → i ≤ j → j < i + n → s.section.physframes j % page_size ≢ 0 → Fails first n i s
  no_room :
      (j : ℕ)
      → i ≤ j
      → j < i + n
      → (first + j ≡ 0) ⊎ (is_present (page_entry s.space (first + j)) ≡ true)
      → Fails first n i s

-- What the loop did with the pages from page `i` on.
pub record Laid (first flags n i : ℕ) (s out : Progress) : Type 0 where
  pub same : SameSection s.section out.section
  pub before : (j : ℕ) → j < i → out.section.physframes j ≡ s.section.physframes j
  pub elsewhere :
      (q : ℕ)
      → q < pages
      → inside (first + i) n q ≡ false
      → page_entry out.space q ≡ page_entry s.space q
  pub laid :
      out.fine ≡ true
      → (j : ℕ) → i ≤ j
      → j < i + n
      → (page_entry out.space (first + j) ≡ bit_or (out.section.physframes j) flags)
        × (out.section.physframes j ≢ 0)
  pub failed : out.fine ≡ false → Fails first n i s

-- What the choice of page `i`'s frame does.
record Framed (i : ℕ) (s out : Progress) : Type 0 where
  same : SameSection s.section out.section
  others : (j : ℕ) → j ≢ i → out.section.physframes j ≡ s.section.physframes j
  window : out.space.window ≡ s.space.window
  frames :
      (out.space.frames ≡ s.space.frames) ⊎ (out.space.frames ≡ (allocate_frame s.space.frames).1)
  source :
      (out.section.physframes i ≡ s.section.physframes i)
      ⊎ (out.section.physframes i % page_size ≡ 0)
  none_left : out.fine ≡ false → (allocate_frame s.space.frames).0 ≡ 0
  real : out.fine ≡ true → out.section.physframes i ≢ 0

-- What MapSection does where it returns an address.
pub record SectionMapped (section : Section) (vm : AddressSpace) (first : ℕ)
    (out : Section × AddressSpace) : Type 0 where
  pub low : 4 ≤ first
  pub high : first + section.n_pages ≤ kernel_vm_page
  pub first_run : (q : ℕ) → 4 ≤ q → q < first → all_free vm q section.n_pages ≡ false
  pub were_free : all_free vm first section.n_pages ≡ true
  pub laid :
      (j : ℕ)
      → j < section.n_pages
      → (page_entry out.1 (first + j)
          ≡ bit_or (out.0.physframes j) (section_flags section.permissions))
        × (out.0.physframes j ≢ 0)
  pub elsewhere :
      (q : ℕ)
      → q < pages
      → inside first section.n_pages q ≡ false
      → page_entry out.1 q ≡ page_entry vm q
  pub base : out.0.vmbase ≡ first * page_size
  pub counted : out.0.refcnt ≡ section.refcnt + 1

-- Why MapSection returns 0: there is no run of free pages, or memory runs out, or a frame that the section has
-- is not aligned.
pub data Unmapped (section : Section) (vm : AddressSpace) : Type 0 where
  no_run :
      ((p : ℕ)
        → 4 ≤ p
        → p + section.n_pages ≤ kernel_vm_page
        → all_free vm p section.n_pages ≡ false)
      → Unmapped section vm
  no_memory : RunsOut vm.frames (2 * section.n_pages) → Unmapped section vm
  misaligned :
      (j : ℕ) → j < section.n_pages → section.physframes j % page_size ≢ 0 → Unmapped section vm

-- A result of MapSection, its address first.
abbrev pub SectionResult : Section → AddressSpace → ℕ × (Section × AddressSpace) → Type 0
SectionResult section vm out =
    ((out.0 ≡ 0) × Unmapped section vm)
    ⊎ ((first : ℕ) × (out.0 ≡ first * page_size) × SectionMapped section vm first out.1)
