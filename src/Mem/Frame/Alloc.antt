-- ===== src/Mem/Frame/Alloc.antt =====
-- AllocateFrame, AllocateLowMemory and FreeFrame against the set of allocated frames.
use dragon_ware.Base.{
  ℕ, zero, suc, ◌+◌, ◌-◌, ◌*◌, ◌/◌, ◌%◌, ◌^◌, ◌≤◌, ◌<◌, ◌≡◌, refl, ◌≢◌, true, false, List, arith,
  leb, ◌==◌, ◌&&◌, if◌then◌else◌, get_or, ◌⊎◌, inl, inr, Bool-cases,
}
use dragon_ware.Base.Words.{add32, mul32}
use dragon_ware.Base.Ctz.{
  lowest_clear, lowest_clear-lt, bit-lowest_clear, bit_below-lowest_clear, bit_full,
}
use dragon_ware.Mem.Frame.{
  FrameManager, frame_size, bitmap_words, full_word, frame_number, mark_frame_reserved,
  is_frame_allocated, first_free, get_first_free_high_frame, get_first_free_low_frame,
  allocate_frame, allocate_low_memory, free_frame,
}
use dragon_ware.Mem.Frame.Bitmap.{
  allocated, IsValid, mark_frame_reserved-IsValid, allocated-mark_frame_reserved,
  mark_frame_available-IsValid, allocated-mark_frame_available, is_frame_allocated_lem,
}

-- `r` is the address of the lowest free frame from `lo` up to `hi`, frame `k`.
pub record IsLowestFree (bitmap : List ℕ) (lo hi r k : ℕ) : Type 0 where
  pub from : lo ≤ k
  pub below : k < hi
  pub address : r ≡ k * frame_size
  pub free : allocated bitmap k ≡ false
  pub lowest : (j : ℕ) → lo ≤ j → j < k → allocated bitmap j ≡ true

-- No frame from `lo` up to `hi` is free, and `r` is 0.
pub record IsExhausted (bitmap : List ℕ) (lo hi r : ℕ) : Type 0 where
  pub null : r ≡ 0
  pub taken : (j : ℕ) → lo ≤ j → j < hi → allocated bitmap j ≡ true

-- What a search for a free frame finds.
abbrev pub Search : List ℕ → ℕ → ℕ → ℕ → Type 0
Search bitmap lo hi r = ((k : ℕ) × IsLowestFree bitmap lo hi r k) ⊎ IsExhausted bitmap lo hi r

module _ (bitmap : List ℕ) (narrow : (i : ℕ) → get_or bitmap i 0 < 2 ^ 32) where
  taken_in_full_word :
      (i j : ℕ)
      → get_or bitmap i 0 ≡ full_word
      → i * 32 ≤ j
      → j < (i + 1) * 32
      → allocated bitmap j ≡ true
  taken_in_full_word i j e lo hi =
      let at : j / 32 ≡ i = omega arith in
      unfold allocated in rw (at, e) (ground (arith, bit_full (j % 32)))

  -- A full word is skipped.
  skip_full :
      (i hi r : ℕ)
      → get_or bitmap i 0 ≡ full_word
      → Search bitmap ((i + 1) * 32) hi r
      → Search bitmap (i * 32) hi r
  skip_full i hi r e (inl (k, s)) = inl (
    k,
    record {
      from = omega (arith, s.from);
      below = s.below;
      address = s.address;
      free = s.free;
      lowest = λ j p q. ground (arith, s.lowest j, taken_in_full_word i j e p);
    },
  )
  skip_full i hi r e (inr s) = inr (record {
    null = s.null;
    taken = λ j p q. ground (arith, s.taken j, taken_in_full_word i j e p);
  })

  -- In a word that is not full the lowest clear bit is the lowest free frame.
  find_in_word :
      (i hi : ℕ)
      → get_or bitmap i 0 ≢ full_word
      → i < bitmap_words
      → (i + 1) * 32 ≤ hi
      → Search bitmap
          (i * 32)
          hi
          (mul32 (add32 (mul32 i 32) (lowest_clear (get_or bitmap i 0))) frame_size)
  unfolding allocated
  find_in_word i hi room inside h =
      let b = lowest_clear (get_or bitmap i 0) in
      let small : b < 32 = lowest_clear-lt (get_or bitmap i 0) (narrow i) room in
      let word : (i * 32 + b) / 32 ≡ i = omega arith in
      let place : (i * 32 + b) % 32 ≡ b = omega arith in
      inl (
        i * 32 + b,
        record {
          from = omega arith;
          below = omega arith;
          address = omega arith;
          free = rw (word, place, bit-lowest_clear (get_or bitmap i 0) (narrow i) room) refl;
          lowest = λ j p q.
              let at : j / 32 ≡ i = omega arith in
              rw
                (
                  at,
                  bit_below-lowest_clear (get_or bitmap i 0) (narrow i) (j % 32) room (omega arith),
                )
                refl;
        },
      )

  first_free-Search :
      (n i hi : ℕ)
      → i + n ≤ bitmap_words
      → hi ≡ (i + n) * 32
      → Search bitmap (i * 32) hi (first_free n i bitmap)
  unfolding first_free
  first_free-Search zero i hi h e =
      inr (record { null = refl; taken = λ j p q. absurd (omega arith) })
  first_free-Search (suc n) i hi h e = elim (Bool-cases (get_or bitmap i 0 == full_word)) [
    | inl full ↦ rw full (
        skip_full i hi _ (ground arith)
          (first_free-Search n (i + 1) hi (omega arith) (omega arith)))
    | inr room ↦ rw room (find_in_word i hi (λ x. ground arith) (omega arith) (omega arith))
  ]

-- The frames from 1 MiB up are those of the bitmap's words from 8 on.
abbrev pub high_frames : ℕ
high_frames = 256

abbrev pub all_frames : ℕ
all_frames = bitmap_words * 32

module _ {fm : FrameManager} (v : IsValid fm) where
  get_first_free_high_frame-Search :
      Search fm.bitmap high_frames all_frames (get_first_free_high_frame fm)
  unfolding get_first_free_high_frame
  get_first_free_high_frame-Search =
      first_free-Search fm.bitmap v.narrow (bitmap_words - 8) 8 _ (omega arith) refl

  get_first_free_low_frame-Search : Search fm.bitmap 0 high_frames (get_first_free_low_frame fm)
  unfolding get_first_free_low_frame
  get_first_free_low_frame-Search = first_free-Search fm.bitmap v.narrow 8 0 _ (omega arith) refl

-- What an allocation returns and leaves: the lowest free frame of its range, now marked, or 0.
pub record IsAllocation (fm : FrameManager) (lo hi : ℕ) (out : ℕ × FrameManager) : Type 0 where
  pub found : Search fm.bitmap lo hi out.0
  pub marked :
      (k : ℕ)
      → allocated out.1.bitmap k ≡ (if out.0 / frame_size == k then true else allocated fm.bitmap k)
  pub valid : IsValid out.1
  pub highest : out.1.highest_addr ≡ fm.highest_addr

Search-lt : {bitmap : List ℕ} {lo hi r : ℕ} → hi ≤ all_frames → Search bitmap lo hi r → r < 2 ^ 32
Search-lt h (inl (k, s)) = omega (arith, s.below, s.address)
Search-lt h (inr s) = omega (arith, s.null)

highest-mark_frame_reserved :
    (fm : FrameManager) (a : ℕ) → (mark_frame_reserved fm a).highest_addr ≡ fm.highest_addr
unfolding mark_frame_reserved
highest-mark_frame_reserved fm a = refl

mark_found :
    {fm : FrameManager} (lo hi r : ℕ)
    → IsValid fm
    → hi ≤ all_frames
    → Search fm.bitmap lo hi r
    → IsAllocation fm lo hi (r, mark_frame_reserved fm r)
mark_found {fm} lo hi r v h s = record {
  found = s;
  marked = allocated-mark_frame_reserved v r (Search-lt h s);
  valid = mark_frame_reserved-IsValid v r (Search-lt h s);
  highest = highest-mark_frame_reserved fm r;
}

-- On a valid state `AllocateFrame` returns the address of the lowest free frame from 1 MiB up, or 0
-- when every such frame is taken; it marks that frame and no other, and keeps the state valid.
pub allocate_frame-IsAllocation :
    {fm : FrameManager} → IsValid fm → IsAllocation fm high_frames all_frames (allocate_frame fm)
unfolding allocate_frame
allocate_frame-IsAllocation {fm} v =
    mark_found high_frames all_frames (get_first_free_high_frame fm) v (omega arith)
      (get_first_free_high_frame-Search v)

-- On a valid state `AllocateLowMemory` returns the address of the lowest free frame below 1 MiB, or 0
-- when every such frame is taken; it marks that frame and no other, and keeps the state valid.
pub allocate_low_memory-IsAllocation :
    {fm : FrameManager} → IsValid fm → IsAllocation fm 0 high_frames (allocate_low_memory fm)
unfolding allocate_low_memory
allocate_low_memory-IsAllocation {fm} v =
    mark_found 0 high_frames (get_first_free_low_frame fm) v (omega arith)
      (get_first_free_low_frame-Search v)

-- On a valid state `FreeFrame` releases the frame of an address from 8 KiB up to the highest known
-- address, and changes no other frame: below, above, or on a double free, nothing at all changes.
pub allocated-free_frame :
    {fm : FrameManager} (addr : ℕ)
    → IsValid fm
    → addr < 2 ^ 32
    → (k : ℕ)
    → allocated (free_frame fm addr).bitmap k ≡ (
        if frame_number addr == k && leb (2 * frame_size) addr && leb addr fm.highest_addr
        then false
        else allocated fm.bitmap k)
unfolding free_frame
allocated-free_frame {fm} addr v h k =
    ground (arith, is_frame_allocated_lem v addr h, allocated-mark_frame_available v addr h k)

pub free_frame-IsValid :
    {fm : FrameManager} (addr : ℕ) → IsValid fm → addr < 2 ^ 32 → IsValid (free_frame fm addr)
unfolding free_frame
free_frame-IsValid {fm} addr v h = elim (Bool-cases (is_frame_allocated fm addr)) [
  | inl e ↦ rw e (mark_frame_available-IsValid v addr h)
  | inr e ↦ rw e v
]

free_found :
    {fm : FrameManager} (out : ℕ × FrameManager)
    → IsAllocation fm high_frames all_frames out
    → out.0 ≢ 0
    → out.0 ≤ fm.highest_addr
    → (k : ℕ) → allocated (free_frame out.1 out.0).bitmap k ≡ allocated fm.bitmap k
free_found {fm} (r, fm') a some_frame known k = elim a.found [
  | inl (m, s) ↦
      let at : m ≡ r / frame_size = omega (arith, s.address) in
      let free : allocated fm.bitmap (r / frame_size) ≡ false = rw (← at) s.free in
      elim (Bool-cases (r / frame_size == k)) [
        | inl e ↦
            let here : r / frame_size ≡ k = ground arith in
            let was : allocated fm.bitmap k ≡ false = rw (← here) free in
            ground (
              arith,
              s.address,
              s.from,
              s.below,
              a.highest,
              allocated-free_frame r a.valid (Search-lt (omega arith) a.found) k,
              was,
            )
        | inr e ↦
            ground (
              arith,
              allocated-free_frame r a.valid (Search-lt (omega arith) a.found) k,
              a.marked k,
            )
      ]
  | inr s ↦ absurd (some_frame s.null)
]

-- From a valid state, a frame that `AllocateFrame` hands out (not 0, and not above the highest known
-- address) is given back by `FreeFrame`: every frame is then as it was before.
pub free_frame-allocate_frame :
    {fm : FrameManager}
    → IsValid fm
    → (allocate_frame fm).0 ≢ 0
    → (allocate_frame fm).0 ≤ fm.highest_addr
    → (k : ℕ)
    → allocated (free_frame (allocate_frame fm).1 (allocate_frame fm).0).bitmap k
      ≡ allocated fm.bitmap k
free_frame-allocate_frame {fm} v = free_found (allocate_frame fm) (allocate_frame-IsAllocation v)

found_free :
    {bitmap : List ℕ} {lo hi r : ℕ}
    → Search bitmap lo hi r
    → r ≢ 0
    → allocated bitmap (r / frame_size) ≡ false
found_free {r} (inl (k, s)) h =
    let at : k ≡ r / frame_size = omega (arith, s.address) in rw (← at) s.free
found_free (inr s) h = absurd (h s.null)

-- Two allocations in a row from a valid state never return the same frame, unless both fail.
pub allocate_frame_twice_ne :
    {fm : FrameManager}
    → IsValid fm
    → (allocate_frame (allocate_frame fm).1).0 ≢ 0
    → (allocate_frame (allocate_frame fm).1).0 ≢ (allocate_frame fm).0
allocate_frame_twice_ne {fm} v h e =
    let first = allocate_frame-IsAllocation v in
    let second = allocate_frame-IsAllocation first.valid in
    ground (
      arith,
      found_free second.found h,
      first.marked ((allocate_frame (allocate_frame fm).1).0 / frame_size),
    )
