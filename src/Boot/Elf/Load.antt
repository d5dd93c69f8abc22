-- ===== src/Boot/Elf/Load.antt =====
-- What the loader leaves in memory.
use dragon_ware.Base.{
  ℕ, zero, suc, ◌+◌, ◌-◌, ◌≡◌, ap, ◌∙◌, inl, inr, Bool-cases, List, [], ◌∷◌, arith, ◌&&◌, leb, ltb,
  ◌==◌, if◌then◌else◌, max, length, get_or, replicate, length-replicate, bit_and,
}
use dragon_ware.Base.Words.{add32, sub32, mul32}
use dragon_ware.Base.Arrays.{get_or-replicate}
use dragon_ware.Base.Segments.{segment, length-segment, get_or-segment}
use dragon_ware.Boot.Elf.Memory.{store, store_lem}
use dragon_ware.Boot.Elf.{ElfHeader, ElfProgramSegment, segment_of, segment_size, Loading, place}

module _ (content : ℕ → ℕ) where
  -- The byte at address `a` once a segment is loaded over a byte `v`: the file's, then zeros.
  abbrev pub segment_byte : ElfProgramSegment → ℕ → ℕ → ℕ
  segment_byte s a v =
      if leb s.paddr a && ltb a (s.paddr + s.size)
      then content (s.offset + (a - s.paddr))
      else if leb s.paddr a && ltb a (s.paddr + s.size_mem)
      then 0
      else v

  abbrev pub image_byte : List ElfProgramSegment → ℕ → ℕ → ℕ
  image_byte [] a v = v
  image_byte (s ∷ ss) a v = image_byte ss a (segment_byte s a v)

  -- The offset of the last segment with bit 1 of the flags, a writable one.
  abbrev pub last_offset : List ElfProgramSegment → ℕ → ℕ
  last_offset [] v = v
  last_offset (s ∷ ss) v =
      last_offset ss (if bit_and s.flags 2 == 0 then v else sub32 s.vaddr s.paddr)

  abbrev pub highest : List ElfProgramSegment → ℕ → ℕ
  highest [] v = v
  highest (s ∷ ss) v = highest ss (max v (add32 s.paddr s.size_mem))

  -- The program header table, and its loadable segments, from the i-th on.
  abbrev pub segment_at : ElfHeader → ℕ → ElfProgramSegment
  segment_at h i =
      segment_of (segment content (add32 h.pht_off (mul32 i h.pht_entry_size)) segment_size)

  abbrev pub loadable : ℕ → ElfHeader → ℕ → List ElfProgramSegment
  loadable zero h i = []
  loadable (suc rounds) h i =
      let rest = loadable rounds h (i + 1) in
      if (segment_at h i).type == 1 then segment_at h i ∷ rest else rest

  -- The loop's variables after the segments `ss`.
  pub record Loads (ss : List ElfProgramSegment) (l l' : Loading) : Type 0 where
    pub memory : (a : ℕ) → l'.memory a ≡ image_byte ss a (l.memory a)
    pub loaded : l'.segments_loaded ≡ l.segments_loaded + length ss
    pub offset : l'.virt_offset ≡ last_offset ss l.virt_offset
    pub top : l'.highest_addr_used ≡ highest ss l.highest_addr_used

  zero_byte :
      (s : ElfProgramSegment) (a v : ℕ)
      → (if leb s.paddr a && ltb a (s.paddr + s.size_mem)
          then get_or (replicate s.size_mem 0) (a - s.paddr) 0
          else v)
        ≡ (if leb s.paddr a && ltb a (s.paddr + s.size_mem) then 0 else v)
  zero_byte s a v = ground (arith, get_or-replicate {A = ℕ} s.size_mem (a - s.paddr) 0 0)

  place-memory :
      (s : ElfProgramSegment) (l : Loading) (a : ℕ)
      → (place s (segment content s.offset s.size) l).memory a ≡ segment_byte s a (l.memory a)
  unfolding place
  place-memory s l a =
      let bytes : List ℕ = segment content s.offset s.size in
      let zeros : List ℕ = replicate s.size_mem 0 in
      store_lem (store l.memory s.paddr zeros) s.paddr bytes a
      ∙ (rw (length-segment content s.offset s.size)
          (elim (Bool-cases (leb s.paddr a && ltb a (s.paddr + s.size))) [
            | inl inside ↦
                rw inside (get_or-segment content s.offset s.size (a - s.paddr) (ground arith))
            | inr outside ↦ rw outside (
                store_lem l.memory s.paddr zeros a
                ∙ (rw (length-replicate {A = ℕ} s.size_mem 0) (zero_byte s a (l.memory a))))
          ]))

  pub Loads-step :
      (s : ElfProgramSegment) (ss : List ElfProgramSegment) (l l' : Loading)
      → Loads ss (place s (segment content s.offset s.size) l) l'
      → Loads (s ∷ ss) l l'
  unfolding place
  Loads-step s ss l l' on = record {
    memory = λ a. on.memory a ∙ ap (image_byte ss a) (place-memory s l a);
    loaded = omega (arith, on.loaded);
    offset = on.offset;
    top = on.top ∙ ap (highest ss) (ground arith);
  }
