-- ===== src/Mem/Paging/Range.antt =====
-- Ranges of pages: MapMemoryRange and UnmapMemoryRange.
use dragon_ware.Base.{
  ℕ, zero, suc, ◌+◌, ◌-◌, ◌*◌, ◌/◌, ◌%◌, ◌^◌, ◌≤◌, ◌<◌, ◌≡◌, refl, ap, ◌∙◌, ◌≢◌, ◌⊎◌, inl, inr,
  Bool, true, false, Bool-cases, arith, not, ◌&&◌, ◌||◌, ltb, leb, ◌==◌, if◌then◌else◌, bit_or,
}
use dragon_ware.Base.Words.{add32, mul32}
use dragon_ware.Status.{Status}
use dragon_ware.Mem.Frame.{allocate_frame}
use dragon_ware.Mem.Frame.Spent.{Spent, RunsOut, RunsOut-step}
use dragon_ware.Mem.Paging.{
  AddressSpace, page_size, is_present, map_single_page, unmap_single_page, map_pages,
  map_memory_range, unmap_pages, unmap_memory_range,
}
use dragon_ware.Mem.Paging.Pages.{
  pages, page_entry, is_virtual_page_mapped_lem, Maps, map_single_page-Maps,
  page_entry-unmap_single_page,
}

-- Page `q` is one of the `n` pages from page `first` on.
abbrev pub inside : ℕ → ℕ → ℕ → Bool
inside first n q = leb first q && ltb q (first + n)

-- How many of the `n` pages from page `p` on pass a test.
abbrev pub count_pages : (ℕ → Bool) → ℕ → ℕ → ℕ
count_pages test p zero = 0
count_pages test p (suc n) =
    let rest = count_pages test (p + 1) n in if test p then suc rest else rest

-- Why page `q` is not mapped: the address or the frame is no good, the page is mapped already, or there
-- is no frame for its page table.
pub data Skips (vm : AddressSpace) (phys first k q : ℕ) : Type 0 where
  no_good : (q ≡ 0) ⊎ ((phys + (q - first) * page_size) % page_size ≢ 0) → Skips vm phys first k q
  present : is_present (page_entry vm q) ≡ true → Skips vm phys first k q
  no_table : RunsOut vm.frames k → Skips vm phys first k q

-- What a map of `n` pages, `first` of the address space to the frames of `phys`, did from page `i` on:
-- `done` tells the pages that it mapped.
pub record Mapped (vm : AddressSpace) (phys first flags n i : ℕ) (out : ℕ × AddressSpace)
    : Type 0 where
  pub done : ℕ → Bool
  pub count : out.0 ≡ count_pages done (first + i) n
  pub elsewhere :
      (q : ℕ)
      → q < pages
      → (inside (first + i) n q && done q) ≡ false
      → page_entry out.1 q ≡ page_entry vm q
  pub mapped :
      (q : ℕ)
      → (inside (first + i) n q && done q) ≡ true
      → (q ≢ 0)
        × (is_present (page_entry vm q) ≡ false)
        × (page_entry out.1 q ≡ bit_or (phys + (q - first) * page_size) flags)
  pub skipped : (q : ℕ) → inside (first + i) n q ≡ true → done q ≡ false → Skips vm phys first n q

count_pages_same :
    (f g : ℕ → Bool) (p n : ℕ)
    → ((q : ℕ) → p ≤ q → f q ≡ g q)
    → count_pages f p n ≡ count_pages g p n
count_pages_same f g p zero e = refl
count_pages_same f g p (suc n) e =
    rw (e p (omega arith), count_pages_same f g (p + 1) n (λ q h. e q (omega arith))) refl

Skips-step :
    {vm vm' : AddressSpace} {phys first k q : ℕ}
    → page_entry vm' q ≡ page_entry vm q
    → (vm'.frames ≡ vm.frames) ⊎ (vm'.frames ≡ (allocate_frame vm.frames).1)
    → Skips vm' phys first k q
    → Skips vm phys first (suc k) q
Skips-step same frames (Skips.no_good c) = Skips.no_good c
Skips-step same frames (Skips.present e) = Skips.present (rw (← same) e)
Skips-step same frames (Skips.no_table r) = Skips.no_table (RunsOut-step frames r)

module _ (phys first flags : ℕ) where
  map_pages-Mapped :
      (n i : ℕ) (vm : AddressSpace)
      → first + i + n ≤ pages
      → phys + (i + n) * page_size ≤ 2 ^ 32
      → Mapped vm phys first flags n i (map_pages n i vm phys (first * page_size) flags)
  unfolding map_pages
  map_pages-Mapped zero i vm h k = record {
    done = λ q. false;
    count = refl;
    elsewhere = λ q a b. refl;
    mapped = λ q b. ground arith;
    skipped = λ q b e. absurd (ground arith);
  }
  map_pages-Mapped (suc n) i vm h k =
      let v = add32 (first * page_size) (mul32 i page_size) in
      let p = add32 phys (mul32 i page_size) in
      let v_at : v ≡ (first + i) * page_size = omega arith in
      let p_at : p ≡ phys + i * page_size = omega arith in
      let page : v / page_size ≡ first + i = omega arith in
      let room : first + (i + 1) + n ≤ pages = omega arith in
      let room_frames : phys + (i + 1 + n) * page_size ≤ 2 ^ 32 = omega arith in
      after p v p_at v_at page (map_single_page vm p v flags)
        (map_single_page-Maps vm p v flags (omega arith))
        (λ vm'. map_pages-Mapped n (i + 1) vm' room room_frames)
    where
      -- The first page is passed over, and the address space keeps its pages.
      passed :
          (vm' : AddressSpace)
          → ((q : ℕ) → q < pages → page_entry vm' q ≡ page_entry vm q)
          → (vm'.frames ≡ vm.frames) ⊎ (vm'.frames ≡ (allocate_frame vm.frames).1)
          → Skips vm phys first (suc n) (first + i)
          → {m : ℕ × AddressSpace} → Mapped vm' phys first flags n (i + 1) m
          → Mapped vm phys first flags (suc n) i m
      passed vm' same frames why r = record {
        done = λ q. not (q == first + i) && r.done q;
        count =
            let off : (first + i == first + i) ≡ true = ground arith in
            let at : first + i + 1 ≡ first + (i + 1) = omega arith in
            let rest =
              count_pages_same (λ q. not (q == first + i) && r.done q) r.done (first + (i + 1)) n
                (λ q a. ground arith) in
            rw (off, at, rest) r.count;
        elsewhere = λ q a b. r.elsewhere q a (ground arith) ∙ same q a;
        mapped = λ q b.
            let (ne, free, now) = r.mapped q (ground arith) in
            (ne, rw (← same q (ground arith)) free, now);
        skipped = λ q b e. elim (Bool-cases (q == first + i)) [
          | inl here ↦ let eq : q ≡ first + i = ground arith in rw eq why
          | inr other ↦
              let small : q < pages = ground arith in
              Skips-step (same q small) frames (r.skipped q (ground arith) (ground arith))
        ];
      }

      after :
          (p v : ℕ)
          → p ≡ phys + i * page_size
          → v ≡ (first + i) * page_size
          → v / page_size ≡ first + i
          → (out : Status × AddressSpace) → Maps vm p v flags out
          → ((vm' : AddressSpace)
              → Mapped vm' phys first flags n
                  (i + 1)
                  (map_pages n (i + 1) vm' phys (first * page_size) flags))
          → Mapped vm phys first flags (suc n) i (
              let (status, vm') = out in
              let (m, vm'') = map_pages n (i + 1) vm' phys (first * page_size) flags in
              elim status [ Status.ok ↦ (m + 1, vm'') | _ ↦ (m, vm'') ])
      after p v pe ve page out (Maps.misused c) ih =
          passed vm (λ q k. refl) (inl refl)
            (Skips.no_good (elim c [
              | inl z ↦ inl (omega arith)
              | inr d ↦ elim d [
                | inl ne ↦ inr (λ z. ne (omega arith))
                | inr ne ↦ absurd (ne (omega arith))
              ]
            ]))
            (ih vm)
      after p v pe ve page out (Maps.no_memory vm' usable t c e f) ih =
          passed vm' (λ q k. ground (arith, e)) (inr f)
            (Skips.no_table (record { last = vm.frames; spent = Spent.unspent; none_left = c }))
            (ih vm')
      after p v pe ve page out (Maps.occupied usable c) ih =
          passed vm (λ q k. refl) (inl refl) (Skips.present (rw (← page) c)) (ih vm)
      after p v pe ve page out (Maps.maps vm' usable free frames written) ih =
          let m = ih vm' in
          let spent : (vm'.frames ≡ vm.frames) ⊎ (vm'.frames ≡ (allocate_frame vm.frames).1) =
            elim frames [ inl t ↦ inl t.1 | inr t ↦ inr t.2 ] in
          record {
            done = λ q. q == first + i || m.done q;
            count =
                let on : (first + i == first + i) ≡ true = ground arith in
                let at : first + i + 1 ≡ first + (i + 1) = omega arith in
                let rest =
                  count_pages_same (λ q. q == first + i || m.done q) m.done (first + (i + 1)) n
                    (λ q a. ground arith) in
                rw (on, at, rest) (omega (arith, m.count));
            elsewhere = λ q a b. m.elsewhere q a (ground arith) ∙ ground (arith, written q a);
            mapped = λ q b. elim (Bool-cases (q == first + i)) [
              | inl same ↦
                  let eq : q ≡ first + i = ground arith in
                  let back : (first + i - first) * page_size ≡ i * page_size = omega arith in
                  rw (eq, back, ← pe)
                    (
                      (λ z. usable.virt_ne (omega arith)),
                      rw (← page) free,
                      m.elsewhere (first + i) (omega arith) (ground arith)
                          ∙ ground (arith, written (first + i) (omega arith)),
                    )
              | inr other ↦
                  let (ne, was, now) = m.mapped q (ground arith) in
                  let small : q < pages = ground arith in (ne, ground (arith, written q small), now)
            ];
            skipped = λ q b e.
                let small : q < pages = ground arith in
                let same : page_entry vm' q ≡ page_entry vm q = ground (arith, written q small) in
                Skips-step same spent (m.skipped q (ground arith) (ground arith));
          }

-- MapMemoryRange, on a range below the window of page tables and frames below 4 GiB: the count is that of the
-- pages of the range that it mapped, each of which was free before and has now the frame at its place with
-- the flags; every other page is as it was; and a page of the range is passed over only where it is page 0
-- or its frame is not aligned, where it was mapped before, or where memory for page tables ran out.
pub map_memory_range-Mapped :
    (vm : AddressSpace) (phys first flags n_pages : ℕ)
    → first + n_pages ≤ pages
    → phys + n_pages * page_size ≤ 2 ^ 32
    → Mapped vm phys first flags n_pages 0
        (map_memory_range vm phys (first * page_size) flags n_pages)
unfolding map_memory_range
map_memory_range-Mapped vm phys first flags n_pages h k =
    map_pages-Mapped phys first flags n_pages 0 vm (omega arith) (omega arith)

-- Whether all the `n` pages from page `p` on are mapped.
abbrev pub all_mapped : AddressSpace → ℕ → ℕ → Bool
all_mapped vm p zero = true
all_mapped vm p (suc n) = let rest = all_mapped vm (p + 1) n in is_present (page_entry vm p) && rest

all_mapped-same :
    (n p : ℕ) (vm vm' : AddressSpace)
    → p + n ≤ pages
    → ((q : ℕ) → q < pages → p ≤ q → is_present (page_entry vm' q) ≡ is_present (page_entry vm q))
    → all_mapped vm' p n ≡ all_mapped vm p n
all_mapped-same zero p vm vm' h e = refl
all_mapped-same (suc n) p vm vm' h e =
    rw
      (
        e p (omega arith) (omega arith),
        all_mapped-same n (p + 1) vm vm' (omega arith) (λ q a b. e q a (omega arith)),
      )
      refl

unmap_pages_lem :
    (first n i : ℕ) (vm : AddressSpace)
    → first + i + n ≤ pages
    → let (any, vm') = unmap_pages n i vm (first * page_size) in
      (any ≡ not (all_mapped vm (first + i) n))
      × ((q : ℕ)
          → q < pages
          → is_present (page_entry vm' q)
            ≡ (if inside (first + i) n q then false else is_present (page_entry vm q)))
unfolding unmap_pages
unmap_pages_lem first zero i vm h = (refl, λ q k. ground arith)
unmap_pages_lem first (suc n) i vm h =
    let v = add32 (first * page_size) (mul32 i page_size) in
    let v_at : v ≡ (first + i) * page_size = omega arith in
    let page : v / page_size ≡ first + i = omega arith in
    let vm₁ = unmap_single_page vm v in
    let one : (q : ℕ)
        → q < pages
        → is_present (page_entry vm₁ q)
          ≡ (if q == v / page_size then false else is_present (page_entry vm q)) =
      λ q k. page_entry-unmap_single_page vm v q (omega arith) k in
    let (any, left) = unmap_pages_lem first n (i + 1) vm₁ (omega arith) in
    let (any_hole, left_hole) = unmap_pages_lem first n (i + 1) vm (omega arith) in
    let same =
      all_mapped-same n (first + (i + 1)) vm vm₁ (omega arith) (λ q a b. ground (arith, one q a)) in
    let mapped = is_virtual_page_mapped_lem vm v (omega arith) in
    let at : first + i + 1 ≡ first + (i + 1) = omega arith in
    rw (mapped, page, at)
      (elim (Bool-cases (is_present (page_entry vm (first + i)))) [
        | inl e ↦ rw e (any ∙ ap not same, λ q k. left q k ∙ ground (arith, one q k))
        | inr e ↦ rw e (refl, λ q k. left_hole q k ∙ ground arith)
      ])

-- UnmapMemoryRange on a range below the window says STATUS_OK exactly where all its pages were mapped,
-- STATUS_OUT_OF_BOUNDS otherwise; afterwards none of them is mapped, and all other pages are as before.
pub unmap_memory_range_lem :
    (vm : AddressSpace) (first n_pages : ℕ)
    → first + n_pages ≤ pages
    → let (status, vm') = unmap_memory_range vm (first * page_size) n_pages in
      (status ≡ (if all_mapped vm first n_pages then Status.ok else Status.out_of_bounds))
      × ((q : ℕ)
          → q < pages
          → is_present (page_entry vm' q)
            ≡ (if inside first n_pages q then false else is_present (page_entry vm q)))
unfolding unmap_memory_range
unmap_memory_range_lem vm first n_pages h =
    let (any, left) = unmap_pages_lem first n_pages 0 vm (omega arith) in
    let aligned : first * page_size % page_size ≡ 0 = omega arith in
    let at : first + 0 ≡ first = omega arith in
    rw (aligned, any, at)
      (elim (Bool-cases (all_mapped vm first n_pages)) [
        | inl e ↦ rw e (refl, λ q k. left q k ∙ ground arith)
        | inr e ↦ rw e (refl, λ q k. left q k ∙ ground arith)
      ])
