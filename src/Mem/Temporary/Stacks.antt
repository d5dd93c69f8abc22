-- ===== src/Mem/Temporary/Stacks.antt =====
-- GetNextKernelStackAddress, by page number.
use dragon_ware.Base.{
  ℕ, zero, suc, ◌+◌, ◌*◌, ◌/◌, ◌^◌, ◌≤◌, ◌<◌, ◌≡◌, refl, true, false, Option, none, some, arith,
  not, ◌==◌, ltb, Bool-cases, inl, inr,
}
use dragon_ware.Base.Words.{add32, mul32}
use dragon_ware.Mem.Paging.{AddressSpace, page_size}
use dragon_ware.Mem.Paging.Pages.{is_virtual_page_mapped_lem}
use dragon_ware.Mem.Paging.Scan.{all_free}
use dragon_ware.Mem.Temporary.{
  kernel_stack_end, kernel_stack_size_pages, stack_conflict, stack_from,
  get_next_kernel_stack_address,
}

-- The number of places for a stack, and the page at which one begins.
abbrev pub stack_places : ℕ
stack_places = 32760

abbrev pub stack_page : ℕ → ℕ
stack_page k = 0xE0000 + k * kernel_stack_size_pages

-- The place that is taken for a stack.
pub data FindsStack (vm : AddressSpace) (lo : ℕ) : Option ℕ → Type 0 where
  no_place :
      ((k : ℕ)
        → lo ≤ k
        → k < stack_places
        → all_free vm (stack_page k) kernel_stack_size_pages ≡ false)
      → FindsStack vm lo none
  first_place :
      (k : ℕ)
      → lo ≤ k
      → k < stack_places
      → all_free vm (stack_page k) kernel_stack_size_pages ≡ true
      → ((j : ℕ) → lo ≤ j → j < k → all_free vm (stack_page j) kernel_stack_size_pages ≡ false)
      → FindsStack vm lo (some (stack_page k * page_size))

module _ (vm : AddressSpace) where
  -- The conflict is a mapped page of the stack.
  stack_conflict_lem :
      (n i page : ℕ)
      → page + i + n ≤ 2 ^ 20
      → stack_conflict n i vm (page * page_size) ≡ not (all_free vm (page + i) n)
  unfolding stack_conflict
  stack_conflict_lem zero i page h = refl
  stack_conflict_lem (suc n) i page h =
      let at : add32 (page * page_size) (mul32 i page_size) ≡ (page + i) * page_size =
        omega arith in
      let here : (page + i) * page_size / page_size ≡ page + i = omega arith in
      let next : page + (i + 1) ≡ page + i + 1 = omega arith in
      rw
        (
          at,
          is_virtual_page_mapped_lem vm ((page + i) * page_size) (omega arith),
          here,
          stack_conflict_lem n (i + 1) page (omega arith),
          next,
        )
        (ground arith)

  pass_place :
      {lo : ℕ} {r : Option ℕ}
      → all_free vm (stack_page lo) kernel_stack_size_pages ≡ false
      → FindsStack vm (lo + 1) r
      → FindsStack vm lo r
  pass_place {lo} e (FindsStack.no_place f) = FindsStack.no_place (λ k p q.
      elim (Bool-cases (k == lo)) [
        | inl same ↦ let eq : k ≡ lo = ground arith in rw eq e
        | inr other ↦ f k (ground arith) q
      ])
  pass_place {lo} e (FindsStack.first_place k a b c f) =
      FindsStack.first_place k (omega arith) b c (λ j p q. elim (Bool-cases (j == lo)) [
        | inl same ↦ let eq : j ≡ lo = ground arith in rw eq e
        | inr other ↦ f j (ground arith) q
      ])

  stack_from-FindsStack :
      (fuel lo : ℕ)
      → stack_places < lo + fuel
      → lo ≤ stack_places
      → FindsStack vm lo (stack_from fuel vm (stack_page lo * page_size))
  unfolding stack_from
  stack_from-FindsStack zero lo h k = absurd (omega arith)
  stack_from-FindsStack (suc fuel) lo h k =
      let next : add32 (stack_page lo * page_size) (kernel_stack_size_pages * page_size)
          ≡ stack_page (lo + 1) * page_size =
        omega arith in
      let whole : stack_page lo + 0 ≡ stack_page lo = omega arith in
      rw (next, stack_conflict_lem kernel_stack_size_pages 0 (stack_page lo) (omega arith), whole)
        (elim (Bool-cases (ltb kernel_stack_end (stack_page (lo + 1) * page_size))) [
          | inl over ↦ rw over (FindsStack.no_place (λ j p q. absurd (ground arith)))
          | inr inside ↦
              let small : lo < stack_places = ground arith in
              rw inside (elim (Bool-cases (all_free vm (stack_page lo) kernel_stack_size_pages)) [
                | inl e ↦ rw e (
                    FindsStack.first_place lo (omega arith) small e (λ j p q. absurd (omega arith)))
                | inr e ↦
                    rw e (
                      pass_place e
                        (stack_from-FindsStack fuel (lo + 1) (omega arith) (omega arith)))
              ])
        ])

  -- GetNextKernelStackAddress looks at every place of two pages from 0xE0000000 up to 0xEFFF0000, and
  -- returns the first of which no page is mapped; it stops the kernel only where there is none.
  pub get_next_kernel_stack_address-FindsStack : FindsStack vm 0 (get_next_kernel_stack_address vm)
  unfolding get_next_kernel_stack_address
  get_next_kernel_stack_address-FindsStack =
      stack_from-FindsStack 32761 0 (omega arith) (omega arith)
