-- ===== src/Mem/Frame/Init.antt =====
-- InitFrameManager: which frames are free once the memory regions are read.
use dragon_ware.Base.{
  ℕ, zero, suc, ◌+◌, ◌*◌, ◌/◌, ◌%◌, ◌^◌, ◌≤◌, ◌<◌, ◌≡◌, refl, ◌∙◌, Bool, true, false, List, [], ◌∷◌,
  arith, ltb, leb, not, some, ◌&&◌, ◌||◌, if◌then◌else◌, replicate, length-replicate, Bool-cases,
  inl, inr, subst,
}
use dragon_ware.Base.Words.{add32}
use dragon_ware.Base.Arrays.{get_or-replicate}
use dragon_ware.Base.Ctz.{bit_full}
use dragon_ware.Mem.Frame.{
  FrameManager, MemoryRegion, frame_size, bitmap_words, full_word, mark_frame_available,
  mark_region, init_region, init_regions, init_frame_manager, blank,
}
use dragon_ware.Mem.Frame.Bitmap.{
  allocated, IsValid, mark_frame_available-IsValid, allocated-mark_frame_available,
}

-- A region that starts on a frame boundary and ends at least a frame below 4 GiB, as a size_t sum
-- that does not wrap.
pub record IsUsual (r : MemoryRegion) : Type 0 where
  pub aligned : r.start % frame_size ≡ 0
  pub fits : r.start + r.len + frame_size < 2 ^ 32

abbrev pub AllUsual : List MemoryRegion → Type 0
AllUsual [] = Unit {0}
AllUsual (r ∷ rs) = IsUsual r × AllUsual rs

-- Frame `k` starts inside the region.
abbrev pub covers : MemoryRegion → ℕ → Bool
covers r k = r.available && leb r.start (k * frame_size) && ltb (k * frame_size) (r.start + r.len)

abbrev pub any_covers : List MemoryRegion → ℕ → Bool
any_covers [] k = false
any_covers (r ∷ rs) k = covers r k || any_covers rs k

-- What the loop over one region leaves, from frame boundary `j`.
record IsMarked (j end : ℕ) (fm fm' : FrameManager) : Type 0 where
  valid : IsValid fm'
  highest : fm'.highest_addr ≡ fm.highest_addr
  frames :
      (k : ℕ)
      → allocated fm'.bitmap k ≡ (
          if ltb 1 k && leb j (k * frame_size) && ltb (k * frame_size) end
          then false
          else allocated fm.bitmap k)

highest-mark_frame_available :
    (fm : FrameManager) (a : ℕ) → (mark_frame_available fm a).highest_addr ≡ fm.highest_addr
unfolding mark_frame_available
highest-mark_frame_available fm a = ground arith

mark_region-IsMarked :
    (fuel j end : ℕ) {fm : FrameManager}
    → IsValid fm
    → j % frame_size ≡ 0
    → end + frame_size < 2 ^ 32
    → end ≤ fm.highest_addr
    → end < j + fuel * frame_size
    → IsMarked j end fm (mark_region fuel j end fm)
unfolding mark_region
mark_region-IsMarked zero j end v a b c d = record {
  valid = v;
  highest = refl;
  frames = λ k. ground arith;
}
mark_region-IsMarked (suc fuel) j end {fm} v a b c d = elim (Bool-cases (ltb j end)) [
  | inl more ↦
      let lt : j < end = ground arith in
      let step =
        mark_region-IsMarked fuel (add32 j frame_size) end {fm = mark_frame_available fm j}
          (mark_frame_available-IsValid v j (omega arith)) (omega arith) b
          (omega (arith, highest-mark_frame_available fm j)) (omega arith) in
      rw more (record {
        valid = step.valid;
        highest = omega (arith, step.highest, highest-mark_frame_available fm j);
        frames =
            λ k. ground (arith, step.frames k, allocated-mark_frame_available v j (omega arith) k);
      })
  | inr done ↦ rw done (record { valid = v; highest = refl; frames = λ k. ground arith })
]

-- The state in which the loop over an available region starts.
abbrev raise : FrameManager → MemoryRegion → FrameManager
raise fm r =
    let end = add32 r.start r.len in
    record fm { highest_addr = if ltb fm.highest_addr end then end else fm.highest_addr }

region-IsMarked :
    {fm : FrameManager} (r : MemoryRegion)
    → IsValid fm
    → IsUsual r
    → IsMarked r.start
        (r.start + r.len)
        (raise fm r)
        (mark_region (r.len / frame_size + 1) r.start (add32 r.start r.len) (raise fm r))
region-IsMarked {fm} r v u =
    let whole : add32 r.start r.len ≡ r.start + r.len = omega arith in
    subst
      (λ e.
        IsMarked r.start e (raise fm r)
          (mark_region (r.len / frame_size + 1) r.start (add32 r.start r.len) (raise fm r)))
      whole
      (mark_region-IsMarked (r.len / frame_size + 1) r.start (add32 r.start r.len)
        (record { all_words = v.all_words; narrow = v.narrow }) u.aligned (omega arith)
        (ground arith) (omega arith))

init_region-IsValid :
    {fm : FrameManager} (r : MemoryRegion) → IsValid fm → IsUsual r → IsValid (init_region fm r)
unfolding init_region
init_region-IsValid r v u = elim (Bool-cases r.available) [
  | inl e ↦ rw e ((region-IsMarked r v u).valid)
  | inr e ↦ rw e v
]

allocated-init_region :
    {fm : FrameManager} (r : MemoryRegion) (k : ℕ)
    → IsValid fm
    → IsUsual r
    → allocated (init_region fm r).bitmap k
      ≡ (if ltb 1 k && covers r k then false else allocated fm.bitmap k)
unfolding init_region
allocated-init_region r k v u = ground (arith, (region-IsMarked r v u).frames k)

allocated-init_regions :
    {fm : FrameManager} (rs : List MemoryRegion) (k : ℕ)
    → IsValid fm
    → AllUsual rs
    → allocated (init_regions fm rs).bitmap k
      ≡ (if ltb 1 k && any_covers rs k then false else allocated fm.bitmap k)
unfolding init_regions
allocated-init_regions [] k v u = ground arith
allocated-init_regions {fm} (r ∷ rs) k v u = ground (
  arith,
  allocated-init_regions {fm = init_region fm r} rs k (init_region-IsValid r v u.0) u.1,
  allocated-init_region r k v u.0,
)

pub init_regions-IsValid :
    {fm : FrameManager} (rs : List MemoryRegion)
    → IsValid fm
    → AllUsual rs
    → IsValid (init_regions fm rs)
unfolding init_regions
init_regions-IsValid [] v u = v
init_regions-IsValid {fm} (r ∷ rs) v u =
    init_regions-IsValid {fm = init_region fm r} rs (init_region-IsValid r v u.0) u.1

full-IsValid :
    (fm : FrameManager) (n w : ℕ)
    → n ≡ bitmap_words
    → w ≡ full_word
    → fm.bitmap ≡ replicate n w
    → IsValid fm
full-IsValid fm n w en ew e = record {
  all_words = rw e (omega (arith, length-replicate n w));
  narrow = λ i. rw e (ground (arith, get_or-replicate n i w 0));
}

full-allocated :
    (n w k : ℕ)
    → n ≡ bitmap_words
    → w ≡ full_word
    → k < bitmap_words * 32
    → allocated (replicate n w) k ≡ true
unfolding allocated
full-allocated n w k en ew h =
    let inside : k / 32 < n = omega arith in
    ground (arith, get_or-replicate n (k / 32) w 0, bit_full (k % 32))

free_where : (c : Bool) {b : Bool} → b ≡ true → (if c then false else b) ≡ not c
free_where true h = refl
free_where false h = h

pub blank-IsValid : IsValid blank
blank-IsValid = full-IsValid blank bitmap_words full_word refl refl refl

-- InitFrameManager over page-aligned regions that end more than 4096 bytes below 4 GiB, at least one of them, leaves a
-- valid state in which a frame is free exactly when it is not one of the first two frames and starts
-- inside an available region: all other frames of the 4 GiB are marked.
pub init_frame_manager_lem :
    (r : MemoryRegion) (rs : List MemoryRegion)
    → AllUsual (r ∷ rs)
    → (fm : FrameManager) × (init_frame_manager (r ∷ rs) ≡ some fm)
      × IsValid fm
      × ((k : ℕ)
          → k < bitmap_words * 32
          → allocated fm.bitmap k ≡ not (ltb 1 k && any_covers (r ∷ rs) k))
unfolding init_frame_manager
init_frame_manager_lem r rs u = (
  init_regions blank (r ∷ rs),
  refl,
  init_regions-IsValid (r ∷ rs) blank-IsValid u,
  λ k h.
      allocated-init_regions (r ∷ rs) k blank-IsValid u
      ∙ free_where (ltb 1 k && any_covers (r ∷ rs) k)
          (full-allocated bitmap_words full_word k refl refl h),
)
