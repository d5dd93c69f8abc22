-- ===== src/Mem/Regions/Cut.antt =====
-- Which addresses the regions of AddMemoryRegions hold.
use dragon_ware.Base.{
  ℕ, ◌+◌, ◌-◌, ◌≤◌, ◌<◌, ◌≡◌, refl, sym, ap, ap₂, ◌∙◌, ◌*◌, ◌/◌, ◌%◌, inl, inr, Bool, true, false,
  Bool-cases, List, [], ◌∷◌, ◌++◌, map, arith, not, ◌&&◌, ◌||◌, ltb, leb, if◌then◌else◌, length,
  take,
}
use dragon_ware.Base.Words.{two32}
use dragon_ware.Mem.Frame.{MemoryRegion}
use dragon_ware.Mem.Regions.{
  ReservedRegion, MmapEntry, Module, max_mem_regions, max_reserved, max_addressable,
  sort_reserved_chunks, region, add_region, cut_region, is_usable, entry_end, add_entry,
  add_entries, reserve, add_memory_regions, sort_loop,
}
use dragon_ware.Mem.Regions.Sort.{in_reserved, AllFrom, Sorted, sort_loop_lem}

-- An address lies in one of the regions.
abbrev pub in_regions : List MemoryRegion → ℕ → Bool
in_regions [] a = false
in_regions (r ∷ rs) a =
    let rest = in_regions rs a in leb r.start a && ltb a (r.start + r.len) || rest

-- An address lies in a usable entry of the map, as far as the code takes it.
abbrev pub in_entry : MmapEntry → ℕ → Bool
in_entry e a =
    not (leb max_addressable e.addr) && is_usable e.type && leb e.addr a && ltb a (entry_end e)

abbrev pub in_entries : List MmapEntry → ℕ → Bool
in_entries [] a = false
in_entries (e ∷ es) a = let rest = in_entries es a in in_entry e a || rest

in_regions-snoc :
    (rs : List MemoryRegion) (r : MemoryRegion) (a : ℕ)
    → in_regions (rs ++ (r ∷ [])) a
      ≡ (in_regions rs a || (leb r.start a && ltb a (r.start + r.len)))
in_regions-snoc [] r a = ground arith
in_regions-snoc (q ∷ rs) r a = ground (arith, in_regions-snoc rs r a)

length-snoc : (rs : List MemoryRegion) (r : MemoryRegion) → length (rs ++ (r ∷ [])) ≡ length rs + 1
length-snoc [] r = refl
length-snoc (q ∷ rs) r = omega (arith, length-snoc rs r)

-- How a list of regions grew by addresses for which `test` holds, and by all of them while there was
-- room.
record Grew (old new : List MemoryRegion) (test : ℕ → Bool) : Type 0 where
  pub longer : length old ≤ length new
  pub only : (a : ℕ) → in_regions new a ≡ true → (in_regions old a || test a) ≡ true
  pub kept : (a : ℕ) → in_regions old a ≡ true → in_regions new a ≡ true
  pub all :
      length new < max_mem_regions
      → (a : ℕ) → (in_regions old a || test a) ≡ true
      → in_regions new a ≡ true

Grew-none :
    (rs : List MemoryRegion) (test : ℕ → Bool) → ((a : ℕ) → test a ≡ false) → Grew rs rs test
Grew-none rs test f = record {
  longer = omega arith;
  only = λ a h. ground arith;
  kept = λ a h. h;
  all = λ l a h. ground (arith, f a);
}

Grew-add :
    (rs : List MemoryRegion) (r : MemoryRegion)
    → Grew rs (add_region rs r) (λ a. leb r.start a && ltb a (r.start + r.len))
Grew-add rs r = elim (Bool-cases (ltb (length rs) max_mem_regions)) [
  | inl e ↦ rw e (record {
    longer = omega (arith, length-snoc rs r);
    only = λ a h. ground (arith, in_regions-snoc rs r a);
    kept = λ a h. ground (arith, in_regions-snoc rs r a);
    all = λ l a h. ground (arith, in_regions-snoc rs r a);
  })
  | inr e ↦ rw e (record {
    longer = omega arith;
    only = λ a h. ground arith;
    kept = λ a h. h;
    all = λ l a h. absurd (ground arith);
  })
]

Grew-then :
    (old mid new : List MemoryRegion) (p q r : ℕ → Bool)
    → Grew old mid p
    → Grew mid new q
    → ((a : ℕ) → r a ≡ (p a || q a))
    → Grew old new r
Grew-then old mid new p q r f g e = record {
  longer = omega (arith, f.longer, g.longer);
  only = λ a h. ground (arith, g.only a h, f.only a, e a);
  kept = λ a h. g.kept a (f.kept a h);
  all = λ l a h. ground (arith, g.all l a, f.all (omega (arith, g.longer)) a, e a);
}

Grew-same :
    (old new : List MemoryRegion) (p q : ℕ → Bool)
    → Grew old new p
    → ((a : ℕ) → q a ≡ p a)
    → Grew old new q
Grew-same old new p q f e = record {
  longer = f.longer;
  only = λ a h. ground (arith, f.only a h, e a);
  kept = f.kept;
  all = λ l a h. f.all l a (ground (arith, e a));
}

-- The addresses that the cutting of a region from `curr` up to `region_end` keeps.
abbrev kept_by : List ReservedRegion → ℕ → ℕ → ℕ → Bool
kept_by reserved curr region_end a = leb curr a && ltb a region_end && not (in_reserved reserved a)

from_above :
    (lo : ℕ) (rs : List ReservedRegion) (a : ℕ) → AllFrom lo rs → a < lo → in_reserved rs a ≡ false
from_above lo [] a f h = refl
from_above lo (r ∷ rs) a (b, f) h = ground (arith, from_above lo rs a f h)

last_piece :
    (type curr region_end : ℕ) (rs : List MemoryRegion)
    → Grew rs
        (if ltb curr region_end then add_region rs (region type curr region_end) else rs)
        (λ a. leb curr a && ltb a region_end)
last_piece type curr region_end rs = elim (Bool-cases (ltb curr region_end)) [
  | inl e ↦ rw e (
      Grew-same rs (add_region rs (region type curr region_end)) _ _
        (Grew-add rs (region type curr region_end)) (λ a. ground arith))
  | inr e ↦ rw e (Grew-none rs _ (λ a. ground arith))
]

cut_region-Grew :
    (reserved : List ReservedRegion) (type region_end curr : ℕ) (rs : List MemoryRegion)
    → Sorted reserved
    → Grew rs (cut_region reserved type region_end curr rs) (kept_by reserved curr region_end)
unfolding cut_region
cut_region-Grew [] type region_end curr rs s =
    Grew-same rs _ _ _ (last_piece type curr region_end rs) (λ a. ground arith)
cut_region-Grew (r ∷ reserved) type region_end curr rs (from, s) =
    elim (Bool-cases (leb r.stop curr)) [
      | inl e ↦ rw e (
          Grew-same rs _ _ _ (cut_region-Grew reserved type region_end curr rs s)
            (λ a. ground arith))
      | inr e ↦ rw e (elim (Bool-cases (leb region_end r.start)) [
        | inl k ↦ rw k (
            Grew-same rs _ _ _ (last_piece type curr region_end rs)
              (λ a. ground (arith, from_above r.start reserved a from)))
        | inr k ↦ rw k (
            Grew-then rs _ _ _ _ _ (last_piece type curr r.start rs)
              (cut_region-Grew reserved type region_end r.stop _ s)
              (λ a. ground (arith, from_above r.start reserved a from)))
      ])
    ]

-- The addresses that an entry of the map gives.
abbrev entry_keeps : List ReservedRegion → MmapEntry → ℕ → Bool
entry_keeps reserved e a = in_entry e a && not (in_reserved reserved a)

add_entry-Grew :
    (reserved : List ReservedRegion) (e : MmapEntry) (rs : List MemoryRegion)
    → Sorted reserved
    → Grew rs (add_entry reserved e rs) (entry_keeps reserved e)
add_entry-Grew reserved e rs s = elim (Bool-cases (leb max_addressable e.addr)) [
  | inl h ↦ rw h (Grew-none rs _ (λ a. ground arith))
  | inr h ↦ rw h (elim (Bool-cases (is_usable e.type)) [
    | inl u ↦ rw u (
        Grew-same rs _ _ _ (cut_region-Grew reserved e.type (entry_end e) e.addr rs s)
          (λ a. ground arith))
    | inr u ↦ rw u (Grew-none rs _ (λ a. ground arith))
  ])
]

-- A full list of regions grows by what was not looked at.
Grew-full :
    (old new : List MemoryRegion) (p q : ℕ → Bool)
    → Grew old new p
    → max_mem_regions ≤ length new
    → ((a : ℕ) → p a ≡ true → q a ≡ true)
    → Grew old new q
Grew-full old new p q f h k = record {
  longer = f.longer;
  only = λ a x. ground (arith, f.only a x, k a);
  kept = f.kept;
  all = λ l a x. absurd (omega arith);
}

add_entries-Grew :
    (reserved : List ReservedRegion) (entries : List MmapEntry) (rs : List MemoryRegion)
    → Sorted reserved
    → Grew rs
        (add_entries reserved entries rs)
        (λ a. in_entries entries a && not (in_reserved reserved a))
unfolding add_entries
add_entries-Grew reserved [] rs s = Grew-none rs _ (λ a. ground arith)
add_entries-Grew reserved (e ∷ entries) rs s =
    let added = add_entry reserved e rs in
    let one = add_entry-Grew reserved e rs s in
    elim (Bool-cases (not (leb max_addressable e.addr) && leb max_mem_regions (length added))) [
      | inl full ↦
          rw full
            (Grew-full rs added (entry_keeps reserved e) _ one (ground arith) (λ a h. ground arith))
      | inr more ↦ rw more (
          Grew-then rs added _ _ _ _ one (add_entries-Grew reserved entries added s)
            (λ a. ground arith))
    ]

-- What is reserved of the kernel or a module: all its pages.
abbrev pub whole_pages : Module → ReservedRegion
whole_pages m = record { start = m.start / 4096 * 4096; stop = (m.stop + 4095) / 4096 * 4096 }

-- The ends lie at least a page below 4 GiB.
abbrev pub AllBelow : List Module → Type 0
AllBelow [] = Unit
AllBelow (m ∷ ms) = (m.stop ≤ 0xFFFFF000) × AllBelow ms

reserve-whole_pages : (m : Module) → m.stop ≤ 0xFFFFF000 → reserve m ≡ whole_pages m
reserve-whole_pages m h =
    let same : (m.stop + 4095) % two32 ≡ m.stop + 4095 = omega arith in rw same refl

map-whole_pages : (ms : List Module) → AllBelow ms → map reserve ms ≡ map whole_pages ms
map-whole_pages [] h = refl
map-whole_pages (m ∷ ms) (h, hs) =
    ap₂ (λ x xs. x ∷ xs) (reserve-whole_pages m h) (map-whole_pages ms hs)

both_of : (p q : Bool) → (p && not q) ≡ true → (p ≡ true) × (q ≡ false)
both_of p q h = (ground arith, ground arith)

of_both : (p q : Bool) → p ≡ true → q ≡ false → (p && not q) ≡ true
of_both p q h k = ground arith

-- AddMemoryRegions for a kernel and modules that end at least a page below 4 GiB: no address of a region
-- that it makes is in a page of the kernel or of one of the first 63 modules, and each is in a usable
-- entry of the memory map; and where fewer than 64 regions came out, they hold all such addresses. An
-- entry counts up to its last byte, exclusive, and below 4 GiB.
pub add_memory_regions_lem :
    (kernel : Module) (mods : List Module) (entries : List MmapEntry) (a : ℕ)
    → AllBelow (kernel ∷ mods)
    → let regions = add_memory_regions kernel mods entries in
      let reserved = take max_reserved (map whole_pages (kernel ∷ mods)) in
      (in_regions regions a ≡ true
        → (in_entries entries a ≡ true) × (in_reserved reserved a ≡ false))
      × (length regions < max_mem_regions
          → in_entries entries a ≡ true
          → in_reserved reserved a ≡ false
          → in_regions regions a ≡ true)
unfolding add_memory_regions sort_reserved_chunks
add_memory_regions_lem kernel mods entries a below =
    let reserved = take max_reserved (reserve kernel ∷ map reserve mods) in
    let (s, from, same) = sort_loop_lem (length reserved - 1) reserved (omega arith) in
    let g = add_entries-Grew (sort_loop (length reserved - 1) reserved) entries [] s in
    let whole : in_reserved reserved a
        ≡ in_reserved (take max_reserved (map whole_pages (kernel ∷ mods))) a =
      ap (λ (rs : List ReservedRegion). in_reserved (take max_reserved rs) a)
        (map-whole_pages (kernel ∷ mods) below) in
    (
      λ h.
          let (there, free) =
            both_of (in_entries entries a)
              (in_reserved (sort_loop (length reserved - 1) reserved) a) (g.only a h) in
          (there, sym whole ∙ sym (same a) ∙ free),
      λ l e r. g.all l a (
          of_both (in_entries entries a) (in_reserved (sort_loop (length reserved - 1) reserved) a)
            e (same a ∙ whole ∙ r)),
    )
