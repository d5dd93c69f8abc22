-- ===== src/Mem/Paging/Scan.antt =====
-- FindFreePageRange: the search for a run of pages that are not mapped.
use dragon_ware.Base.{
  ℕ, zero, suc, ◌+◌, ◌-◌, ◌*◌, ◌/◌, ◌^◌, ◌≤◌, ◌<◌, ◌≡◌, refl, ◌≢◌, inl, inr, Bool, true, false,
  Bool-cases, arith, not, ◌&&◌, ltb, leb, ◌==◌, if◌then◌else◌,
}
use dragon_ware.Base.Words.{add32}
use dragon_ware.Mem.Paging.{AddressSpace, page_size, is_present, scan_pages, find_free_page_range}
use dragon_ware.Mem.Paging.Pages.{page_entry, is_virtual_page_mapped_lem}

-- A free range of `n` pages from page `p` on.
abbrev pub all_free : AddressSpace → ℕ → ℕ → Bool
all_free vm p zero = true
all_free vm p (suc n) =
    let rest = all_free vm (p + 1) n in not (is_present (page_entry vm p)) && rest

-- What a search for `n` free pages from page `lo` up to page `hi` finds.
pub data Finds (vm : AddressSpace) (lo hi n : ℕ) : ℕ → Type 0 where
  nothing : ((p : ℕ) → lo ≤ p → p + n ≤ hi → all_free vm p n ≡ false) → Finds vm lo hi n 0
  first_range :
      (p : ℕ)
      → lo ≤ p
      → p + n ≤ hi
      → all_free vm p n ≡ true
      → ((q : ℕ) → lo ≤ q → q < p → all_free vm q n ≡ false)
      → Finds vm lo hi n (p * page_size)

-- A range that holds a mapped page is not free.
all_free-mapped :
    (vm : AddressSpace) (n p q : ℕ)
    → p ≤ q
    → q < p + n
    → is_present (page_entry vm q) ≡ true
    → all_free vm p n ≡ false
all_free-mapped vm zero p q a b e = absurd (omega arith)
all_free-mapped vm (suc n) p q a b e = elim (Bool-cases (q == p)) [
  | inl same ↦ let eq : q ≡ p = ground arith in rw (← eq, e) refl
  | inr other ↦ rw (all_free-mapped vm n (p + 1) q (ground arith) (omega arith) e) (ground arith)
]

-- A free range with a free page behind it.
all_free_longer :
    (vm : AddressSpace) (n p : ℕ)
    → all_free vm p n ≡ true
    → is_present (page_entry vm (p + n)) ≡ false
    → all_free vm p (n + 1) ≡ true
all_free_longer vm zero p h e = ground arith
all_free_longer vm (suc n) p h e = ground (arith, all_free_longer vm n (p + 1))

module _ (vm : AddressSpace) (lo hi n : ℕ) (n_ne : n ≢ 0) (hi_in : hi < 2 ^ 20)
    (lo_ne : lo ≢ 0) where
  scan_pages-Finds :
      (fuel page start count : ℕ)
      → hi < page + fuel
      → lo + count ≤ page
      → page ≤ hi
      → count < n
      → (count ≢ 0 → start ≡ (page - count) * page_size)
      → all_free vm (page - count) count ≡ true
      → ((q : ℕ) → lo ≤ q → q < page - count → all_free vm q n ≡ false)
      → Finds vm lo hi n (scan_pages fuel vm (hi * page_size) n (page * page_size) start count)
  unfolding scan_pages
  scan_pages-Finds zero page start count fuel_ok a b c d free before = absurd (omega arith)
  scan_pages-Finds (suc fuel) page start count fuel_ok a b c d free before =
      let here : page * page_size / page_size ≡ page = omega arith in
      rw (is_virtual_page_mapped_lem vm (page * page_size) (omega arith), here)
        (elim (Bool-cases (leb (hi * page_size) (page * page_size))) [
          | inl stop ↦ rw stop (Finds.nothing (λ p k l. before p k (ground arith)))
          | inr go ↦
              let next : add32 (page * page_size) page_size ≡ (page + 1) * page_size =
                ground arith in
              rw (go, next)
                (elim (Bool-cases (is_present (page_entry vm page))) [
                  | inl e ↦ rw e (
                      scan_pages-Finds fuel (page + 1) start 0 (omega arith) (omega arith)
                        (ground arith) (omega arith) (λ ne. absurd (ne refl)) refl
                        (λ q k l. elim (Bool-cases (ltb q (page - count))) [
                          | inl x ↦ before q k (ground arith)
                          | inr x ↦ all_free-mapped vm n q page (ground arith) (ground arith) e
                        ]))
                  | inr e ↦
                      let s = if count == 0 then page * page_size else start in
                      let s_at : s ≡ (page - count) * page_size = ground arith in
                      let last : page - count + count ≡ page = omega arith in
                      let longer : all_free vm (page - count) (count + 1) ≡ true =
                        all_free_longer vm count (page - count) free (rw last e) in
                      rw e (elim (Bool-cases (count + 1 == n)) [
                        | inl done ↦
                            let eq : count + 1 ≡ n = ground arith in
                            rw (done, s_at)
                              (Finds.first_range (page - count) (omega arith) (ground arith)
                                (rw (← eq) longer) before)
                        | inr more ↦
                            let back : page + 1 - (count + 1) ≡ page - count = omega arith in
                            rw more (
                              scan_pages-Finds fuel (page + 1) s (count + 1) (omega arith)
                                (omega arith) (ground arith) (ground arith) (λ ne. rw (back) s_at)
                                (rw back longer) (λ q k l. before q k (omega arith)))
                      ])
                ])
        ])

  -- FindFreePageRange over page-aligned bounds that do not reach the last page, the lower one not 0,
  -- for at least one page, returns the address of the first run of so many unmapped pages between
  -- them, and 0 only where there is none; a round for each page and one more are enough.
  pub find_free_page_range-Finds :
      (fuel : ℕ)
      → hi < lo + fuel
      → lo ≤ hi
      → Finds vm lo hi n (find_free_page_range fuel vm (lo * page_size) (hi * page_size) n)
  unfolding find_free_page_range
  find_free_page_range-Finds fuel h k =
      let some_pages : (n == 0) ≡ false = ground arith in
      let some_start : (lo * page_size == 0) ≡ false = ground arith in
      rw (some_start, some_pages)
        (scan_pages-Finds fuel lo 0 0 (omega arith) (omega arith) k (omega arith)
          (λ ne. absurd (ne refl)) refl (λ q a b. absurd (omega arith)))
