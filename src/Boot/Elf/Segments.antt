-- ===== src/Boot/Elf/Segments.antt =====
-- The loop over the segments of a file.
use dragon_ware.Base.{
  ℕ, zero, suc, ◌+◌, ◌≡◌, refl, subst, sym, inl, inr, Bool-cases, Option-cases, List, Option, none,
  some, arith, ◌==◌, if◌then◌else◌,
}
use dragon_ware.Base.Words.{add32, mul32}
use dragon_ware.Base.Segments.{segment}
use dragon_ware.Boot.Elf.Reader.{FileReader}
use dragon_ware.Boot.Elf.{
  ElfHeader, ElfProgramSegment, segment_of, segment_size, Loading, place, load_segment,
  load_segments,
}
use dragon_ware.Boot.Elf.Load.{segment_at, loadable, Loads, Loads-step}

module _ (r : FileReader) where
  open r use {State, read, IsOpen, Inside, content, reads}

  -- The tables and the loadable segments lie in the file.
  abbrev pub InFile : ℕ → ElfHeader → ℕ → Type 0
  InFile zero h i = Unit {0}
  InFile (suc rounds) h i =
      Inside (add32 h.pht_off (mul32 i h.pht_entry_size)) segment_size
      × ((segment_at content h i).type ≡ 1
          → Inside (segment_at content h i).offset (segment_at content h i).size)
      × InFile rounds h (i + 1)

  -- One segment, read from the file.
  load_segment-Loads :
      (seg : ElfProgramSegment) (f f' : State) (l l' : Loading)
      → IsOpen f
      → (seg.type ≡ 1 → Inside seg.offset seg.size)
      → load_segment r f seg l ≡ some (l', f')
      → IsOpen f'
        × (l' ≡ (if seg.type == 1 then place seg (segment content seg.offset seg.size) l else l))
  unfolding load_segment
  load_segment-Loads seg f f' l l' opened inside e = elim (Bool-cases (seg.type == 1)) [
    | inr other ↦
        let same : ◌≡◌ {A = Option (Loading × State)} (some (l, f)) (some (l', f')) =
          ground arith in
        (subst IsOpen (cc) opened, rw other (cc))
    | inl load ↦ elim (Option-cases (read f seg.offset seg.size)) [
      | inl out ↦ absurd (ground arith)
      | inr ((bytes, f1), got) ↦
          let same : ◌≡◌ {A = Option (Loading × State)} (some (place seg bytes l, f1))
              (some (l', f')) =
            ground arith in
          let (from_file, open1) =
            reads f f1 seg.offset seg.size bytes opened (inside (ground arith)) got in
          (subst IsOpen (cc) open1, rw (load, ← from_file) (cc))
    ]
  ]

  Loads-next :
      (rounds : ℕ) (h : ElfHeader) (i : ℕ) (l l' : Loading)
      → let s = segment_at content h i in
        Loads content
          (loadable content rounds h (i + 1))
          (if s.type == 1 then place s (segment content s.offset s.size) l else l)
          l'
        → Loads content (loadable content (suc rounds) h i) l l'
  Loads-next rounds h i l l' on =
      let s = segment_at content h i in
      elim (Bool-cases (s.type == 1)) [
        | inl load ↦
            rw load (Loads-step content s (loadable content rounds h (i + 1)) l l' (rw load at on))
        | inr other ↦ rw other (rw other at on)
      ]

  pub load_segments-Loads :
      (rounds : ℕ) (h : ElfHeader) (i : ℕ) (f f' : State) (l l' : Loading)
      → IsOpen f
      → InFile rounds h i
      → load_segments r rounds h i f l ≡ some (l', f')
      → Loads content (loadable content rounds h i) l l'
  unfolding load_segments
  load_segments-Loads zero h i f f' l l' opened inside e =
      let same : l ≡ l' = cc in
      rw (← same) record { memory = λ a. refl; loaded = omega arith; offset = refl; top = refl }
  load_segments-Loads (suc rounds) h i f f' l l' opened (header, body, more) e =
      let at : ℕ = add32 h.pht_off (mul32 i h.pht_entry_size) in
      elim (Option-cases (read f at segment_size)) [
        | inl out ↦ absurd (ground arith)
        | inr ((buf, f1), got) ↦
            let (from_file, open1) = reads f f1 at segment_size buf opened header got in
            elim (Option-cases (load_segment r f1 (segment_of buf) l)) [
              | inl out ↦ absurd (ground arith)
              | inr ((l1, f2), got') ↦
                  let (open2, placed) =
                    load_segment-Loads (segment_of buf) f1 f2 l l1 open1
                      (subst
                        (λ (b : List ℕ).
                          (segment_of b).type ≡ 1
                          → Inside (segment_of b).offset (segment_of b).size)
                        (sym from_file) body)
                      got' in
                  let placed' =
                    subst
                      (λ (b : List ℕ). l1 ≡ (
                        if (segment_of b).type == 1
                        then place (segment_of b)
                            (segment content (segment_of b).offset (segment_of b).size) l
                        else l))
                      from_file placed in
                  let rest =
                    load_segments-Loads rounds h (i + 1) f2 f' l1 l' open2 more (ground arith) in
                  Loads-next rounds h i l l' (
                    subst (λ (x : Loading). Loads content (loadable content rounds h (i + 1)) x l')
                      placed' rest)
            ]
      ]

  -- A read inside the file that makes the boot manager stop.
  pub record Stops : Type 0 where
    pub state : State
    pub cursor : ℕ
    pub count : ℕ
    pub opened : IsOpen state
    pub inside : Inside cursor count
    pub stopped : read state cursor count ≡ none

  load_segment-Stops :
      (seg : ElfProgramSegment) (f : State) (l : Loading)
      → IsOpen f
      → (seg.type ≡ 1 → Inside seg.offset seg.size)
      → load_segment r f seg l ≡ none
      → Stops
  unfolding load_segment
  load_segment-Stops seg f l opened inside e = elim (Bool-cases (seg.type == 1)) [
    | inr other ↦ absurd (ground arith)
    | inl load ↦ elim (Option-cases (read f seg.offset seg.size)) [
      | inl out ↦ record {
        state = f;
        cursor = seg.offset;
        count = seg.size;
        opened = opened;
        inside = inside (ground arith);
        stopped = out;
      }
      | inr ((bytes, f1), got) ↦ absurd (ground arith)
    ]
  ]

  pub load_segments-Stops :
      (rounds : ℕ) (h : ElfHeader) (i : ℕ) (f : State) (l : Loading)
      → IsOpen f
      → InFile rounds h i
      → load_segments r rounds h i f l ≡ none
      → Stops
  unfolding load_segments
  load_segments-Stops zero h i f l opened inside e = absurd (ground arith)
  load_segments-Stops (suc rounds) h i f l opened (header, body, more) e =
      let at : ℕ = add32 h.pht_off (mul32 i h.pht_entry_size) in
      elim (Option-cases (read f at segment_size)) [
        | inl out ↦ record {
          state = f;
          cursor = at;
          count = segment_size;
          opened = opened;
          inside = header;
          stopped = out;
        }
        | inr ((buf, f1), got) ↦
            let (from_file, open1) = reads f f1 at segment_size buf opened header got in
            let body' =
              subst
                (λ (b : List ℕ).
                  (segment_of b).type ≡ 1 → Inside (segment_of b).offset (segment_of b).size)
                (sym from_file) body in
            elim (Option-cases (load_segment r f1 (segment_of buf) l)) [
              | inl out ↦ load_segment-Stops (segment_of buf) f1 l open1 body' out
              | inr ((l1, f2), got') ↦
                  let (open2, placed) =
                    load_segment-Loads (segment_of buf) f1 f2 l l1 open1 body' got' in
                  load_segments-Stops rounds h (i + 1) f2 l1 open2 more (ground arith)
            ]
      ]
