-- ===== src/Mem/Paging/Pages.antt =====
-- The pages of an address space as a map from page numbers to entries.
use dragon_ware.Base.{
  ℕ, ◌*◌, ◌/◌, ◌%◌, ◌^◌, ◌<◌, ◌≡◌, refl, ◌≢◌, ◌⊎◌, inl, inr, Bool, true, false, Bool-cases, arith,
  not, ◌||◌, ◌==◌, if◌then◌else◌, bit_or,
}
use dragon_ware.Base.Bits.{is_set, bit, bit-bit_or}
use dragon_ware.Base.Store.{update, update_self, update_ne}
use dragon_ware.Status.{Status}
use dragon_ware.Mem.Frame.{allocate_frame}
use dragon_ware.Mem.Paging.{
  AddressSpace, page_size, pd_index, pt_index, directory_at, entry_at, is_present, with_table,
  kernel_pde_flags, user_pde_flags, map_single_page, is_virtual_page_mapped, unmap_single_page,
}

-- The pages below the window.
abbrev pub pages : ℕ
pages = 1023 * 1024

-- The entry that the processor finds for a page, 0 where there is no page table.
abbrev pub entry_in : (ℕ → ℕ) → ℕ → ℕ
entry_in window page = if is_present (window (directory_at (page / 1024))) then window page else 0

abbrev pub page_entry : AddressSpace → ℕ → ℕ
page_entry vm page = entry_in vm.window page

page_index :
    (virt : ℕ) → virt < 2 ^ 32 → entry_at (pd_index virt) (pt_index virt) ≡ virt / page_size
page_index virt h = omega arith

directory_index : (virt : ℕ) → virt < 2 ^ 32 → pd_index virt ≡ virt / page_size / 1024
directory_index virt h = omega arith

-- IsVirtualPageMapped says whether the page's entry is present.
pub is_virtual_page_mapped_lem :
    (vm : AddressSpace) (virt : ℕ)
    → virt < 2 ^ 32
    → is_virtual_page_mapped vm virt ≡ is_present (page_entry vm (virt / page_size))
unfolding is_virtual_page_mapped bit
is_virtual_page_mapped_lem vm virt h =
    rw (page_index virt h, directory_index virt h)
      (elim (Bool-cases (is_present (vm.window (directory_at (virt / page_size / 1024))))) [
        | inl e ↦ rw e refl
        | inr e ↦ rw e refl
      ])

-- Writing a page's entry, where its table is there.
entry_in-update :
    (window : ℕ → ℕ) (page v q : ℕ)
    → page < pages
    → q < pages
    → is_present (window (directory_at (page / 1024))) ≡ true
    → entry_in (update window page v) q ≡ (if q == page then v else entry_in window q)
entry_in-update window page v q hp hq e =
    let dir : update window page v (directory_at (q / 1024)) ≡ window (directory_at (q / 1024)) =
      update_ne window page v (directory_at (q / 1024)) (omega arith) in
    rw dir (elim (Bool-cases (q == page)) [
      | inl same ↦ let eq : q ≡ page = ground arith in rw (same, eq, e) (update_self window page v)
      | inr other ↦ rw (other, update_ne window page v q (ground arith)) refl
    ])

pub present-pde :
    (phys flags : ℕ)
    → is_present (bit_or phys (if is_set flags 2 then user_pde_flags else kernel_pde_flags)) ≡ true
unfolding bit
present-pde phys flags = elim (Bool-cases (is_set flags 2)) [
  | inl e ↦ rw e (ground (arith, bit-bit_or phys user_pde_flags 0))
  | inr e ↦ rw e (ground (arith, bit-bit_or phys kernel_pde_flags 0))
]

-- A new table has no entries, and the other tables are as before.
entry_in-with_table :
    (window : ℕ → ℕ) (pd entry q : ℕ)
    → pd < 1023
    → q < pages
    → is_present (window (directory_at pd)) ≡ false
    → is_present entry ≡ true
    → entry_in (with_table window pd entry) q ≡ entry_in window q
entry_in-with_table window pd entry q hp hq e p = ground arith

with_table-present :
    (window : ℕ → ℕ) (pd entry : ℕ)
    → pd < 1023
    → is_present entry ≡ true
    → is_present (with_table window pd entry (directory_at pd)) ≡ true
with_table-present window pd entry h p = ground arith

-- The arguments of MapSinglePage are fine.
pub record IsUsable (phys virt : ℕ) : Type 0 where
  pub virt_ne : virt ≢ 0
  pub phys_aligned : phys % page_size ≡ 0
  pub virt_aligned : virt % page_size ≡ 0

-- The page table of a page is there.
abbrev pub has_table : AddressSpace → ℕ → Bool
has_table vm page = is_present (vm.window (directory_at (page / 1024)))

-- What mapping the page of `virt` does.
pub data Maps (vm : AddressSpace) (phys virt flags : ℕ) : Status × AddressSpace → Type 0 where
  misused :
      (virt ≡ 0) ⊎ (phys % page_size ≢ 0) ⊎ (virt % page_size ≢ 0)
      → Maps vm phys virt flags (Status.bad_argument, vm)
  no_memory :
      (vm' : AddressSpace)
      → IsUsable phys virt
      → has_table vm (virt / page_size) ≡ false
      → (allocate_frame vm.frames).0 ≡ 0
      → vm'.window ≡ vm.window
      → vm'.frames ≡ (allocate_frame vm.frames).1
      → Maps vm phys virt flags (Status.out_of_memory, vm')
  occupied :
      IsUsable phys virt
      → is_present (page_entry vm (virt / page_size)) ≡ true
      → Maps vm phys virt flags (Status.retry, vm)
  maps :
      (vm' : AddressSpace)
      → IsUsable phys virt
      → is_present (page_entry vm (virt / page_size)) ≡ false
      → ((has_table vm (virt / page_size) ≡ true) × (vm'.frames ≡ vm.frames))
        ⊎ ((has_table vm (virt / page_size) ≡ false)
            × ((allocate_frame vm.frames).0 ≢ 0)
            × (vm'.frames ≡ (allocate_frame vm.frames).1))
      → ((q : ℕ)
          → q < pages
          → page_entry vm' q
            ≡ (if q == virt / page_size then bit_or phys flags else page_entry vm q))
      → Maps vm phys virt flags (Status.ok, vm')

module _ (vm : AddressSpace) (phys virt flags : ℕ) (h : virt < pages * page_size) where
  abbrev page : ℕ
  page = virt / page_size

  -- MapSinglePage once its arguments are fine, by page number.
  map_checked :
      (pd : ℕ)
      → pd ≡ page / 1024
      → IsUsable phys virt
      → let at = page in
        let pdflags = if is_set flags 2 then user_pde_flags else kernel_pde_flags in
        let (new_pt_phys, frames) = allocate_frame vm.frames in
        let created : AddressSpace = record {
          window = with_table vm.window pd (bit_or new_pt_phys pdflags);
          frames = frames;
        } in
        Maps vm phys virt flags (
          if not (is_present (vm.window (directory_at pd)))
          then (if new_pt_phys == 0
              then (Status.out_of_memory, record vm { frames = frames })
              else if is_present (created.window at)
              then (Status.retry, created)
              else (
                Status.ok,
                record created { window = update created.window at (bit_or phys flags) },
              ))
          else if is_present (vm.window at)
          then (Status.retry, vm)
          else (Status.ok, record vm { window = update vm.window at (bit_or phys flags) }))
  unfolding bit
  map_checked pd eq usable =
      let pdflags = if is_set flags 2 then user_pde_flags else kernel_pde_flags in
      let new_pt_phys = (allocate_frame vm.frames).0 in
      let pde = bit_or new_pt_phys pdflags in
      let small : page < pages = omega arith in
      let low : pd < 1023 = omega arith in
      elim (Bool-cases (is_present (vm.window (directory_at pd)))) [
        | inl e ↦
            let there : is_present (vm.window (directory_at (page / 1024))) ≡ true = rw (← eq) e in
            rw e (elim (Bool-cases (is_present (vm.window page))) [
              | inl p ↦ rw p (Maps.occupied usable (rw there p))
              | inr p ↦ rw p (
                  Maps.maps _ usable (rw there p) (inl (there, refl))
                    (λ q k. entry_in-update vm.window page (bit_or phys flags) q small k there))
            ])
        | inr e ↦
            let missing : is_present (vm.window (directory_at (page / 1024))) ≡ false =
              rw (← eq) e in
            rw e (elim (Bool-cases (new_pt_phys == 0)) [
              | inl none_left ↦
                  rw none_left (Maps.no_memory _ usable missing (ground arith) refl refl)
              | inr some_left ↦
                  let window' = with_table vm.window pd pde in
                  let empty : window' page ≡ 0 = ground arith in
                  let shown : is_present (window' (directory_at (page / 1024))) ≡ true =
                    rw (← eq)
                      (with_table-present vm.window pd pde low (present-pde new_pt_phys flags)) in
                  rw (some_left, empty)
                    (Maps.maps _ usable (rw missing refl) (inr (missing, (λ z. ground arith), refl))
                      (λ q k.
                        rw
                          (← entry_in-with_table vm.window pd pde q low k e
                            (present-pde new_pt_phys flags))
                          (entry_in-update window' page (bit_or phys flags) q small k shown)))
            ])
      ]

  -- MapSinglePage on a page below the window of page tables: exactly where the page is the null pointer's
  -- or an address is not aligned, where there is neither a page table nor a frame for one, or where the
  -- page is mapped already, it leaves every page's entry as it is and says so; else the page gets the frame
  -- with the flags, and every other page keeps its entry, also where a page table had to be made. A frame is
  -- taken only for a page table.
  pub map_single_page-Maps : Maps vm phys virt flags (map_single_page vm phys virt flags)
  unfolding map_single_page
  map_single_page-Maps =
      elim (Bool-cases (virt == 0 || not (phys % page_size == 0) || not (virt % page_size == 0))) [
        | inl e ↦ rw e (Maps.misused (ground arith))
        | inr e ↦
            rw (e, page_index virt (omega arith))
              (map_checked (pd_index virt) (directory_index virt (omega arith)) (record {
                virt_ne = λ z. ground arith;
                phys_aligned = ground arith;
                virt_aligned = ground arith;
              }))
      ]

-- UnmapSinglePage clears the entry of a page below the window, if it was mapped, and changes no other.
pub page_entry-unmap_single_page :
    (vm : AddressSpace) (virt q : ℕ)
    → virt < pages * page_size
    → q < pages
    → is_present (page_entry (unmap_single_page vm virt) q)
      ≡ (if q == virt / page_size then false else is_present (page_entry vm q))
unfolding unmap_single_page bit
page_entry-unmap_single_page vm virt q h k =
    let small : virt / page_size < pages = omega arith in
    rw
      (
        is_virtual_page_mapped_lem vm virt (omega arith),
        page_index virt (omega arith),
        directory_index virt (omega arith),
      )
      (elim (Bool-cases (is_present (vm.window (directory_at (virt / page_size / 1024))))) [
        | inr e ↦ rw e (elim (Bool-cases (q == virt / page_size)) [
          | inl same ↦ let eq : q ≡ virt / page_size = ground arith in rw (same, eq, e) refl
          | inr other ↦ rw other refl
        ])
        | inl e ↦ rw e (elim (Bool-cases (is_present (vm.window (virt / page_size)))) [
          | inl p ↦
              rw (p, entry_in-update vm.window (virt / page_size) 0 q small k e)
                (elim (Bool-cases (q == virt / page_size)) [
                  | inl same ↦ rw same refl
                  | inr other ↦ rw other refl
                ])
          | inr p ↦ rw p (elim (Bool-cases (q == virt / page_size)) [
            | inl same ↦ let eq : q ≡ virt / page_size = ground arith in rw (same, eq, e, p) refl
            | inr other ↦ rw other refl
          ])
        ])
      ])
