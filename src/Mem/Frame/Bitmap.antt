-- ===== src/Mem/Frame/Bitmap.antt =====
-- The frame manager's state as a set of frames, and what marking a frame does to that set.
use dragon_ware.Base.{
  ℕ, ◌*◌, ◌/◌, ◌%◌, ◌^◌, ◌<◌, ◌≡◌, refl, Bool, true, false, List, arith, ltb, leb, ◌&&◌, ◌==◌,
  Bool-cases, inl, inr, if◌then◌else◌, length, length-set, get_or, set,
}
use dragon_ware.Base.Arrays.{get_or-set}
use dragon_ware.Base.Bits.{
  is_set, set_bit, clear_bit, bit-set_bit, bit-clear_bit, set_bit-lt, clear_bit-lt,
}
use dragon_ware.Mem.Frame.{
  FrameManager, frame_size, bitmap_words, frame_number, mark_frame_available, mark_frame_reserved,
  is_frame_allocated,
}

-- Frame `k` is marked in the bitmap.
unfoldable pub allocated : List ℕ → ℕ → Bool
allocated bitmap k = is_set (get_or bitmap (k / 32) 0) (k % 32)

-- The bitmap has its full length, and its words are 32 bits wide.
pub record IsValid (fm : FrameManager) : Type 0 where
  pub all_words : length fm.bitmap ≡ bitmap_words
  pub narrow : (i : ℕ) → get_or fm.bitmap i 0 < 2 ^ 32

-- A word written to the bitmap changes the frames of that word alone.
module _ {fm : FrameManager} (v : IsValid fm) (i w : ℕ) (inside : i < bitmap_words) where
  allocated-set :
      (k : ℕ)
      → allocated (set fm.bitmap i w) k
        ≡ (if i == k / 32 then is_set w (k % 32) else allocated fm.bitmap k)
  unfolding allocated
  allocated-set k = ground (arith, v.all_words, get_or-set fm.bitmap i w (k / 32) 0)

  set-IsValid : w < 2 ^ 32 → IsValid (record fm { bitmap = set fm.bitmap i w })
  set-IsValid h = record {
    all_words = omega (arith, v.all_words, length-set fm.bitmap i w);
    narrow = λ j. ground (arith, v.all_words, v.narrow j, get_or-set fm.bitmap i w j 0);
  }

module _ {fm : FrameManager} (v : IsValid fm) (addr : ℕ) (here : addr < 2 ^ 32) where
  word : ℕ
  word = get_or fm.bitmap (addr / 4096 / 32) 0

  pub mark_frame_reserved-IsValid : IsValid (mark_frame_reserved fm addr)
  unfolding mark_frame_reserved
  mark_frame_reserved-IsValid =
      set-IsValid v (addr / 4096 / 32) _ (omega arith)
        (set_bit-lt _ _ (v.narrow (addr / 4096 / 32)) (omega arith))

  -- Reserving an address marks its frame, and no other.
  pub allocated-mark_frame_reserved :
      (k : ℕ)
      → allocated (mark_frame_reserved fm addr).bitmap k
        ≡ (if frame_number addr == k then true else allocated fm.bitmap k)
  unfolding mark_frame_reserved allocated word
  allocated-mark_frame_reserved k = ground (
    arith,
    allocated-set v (addr / 4096 / 32) (set_bit word (addr / 4096 % 32)) (omega arith) k,
    bit-set_bit word (addr / 4096 % 32) (k % 32),
  )

  pub mark_frame_available-IsValid : IsValid (mark_frame_available fm addr)
  unfolding mark_frame_available
  mark_frame_available-IsValid = elim (Bool-cases (ltb addr (2 * 4096))) [
    | inl low ↦ rw low v
    | inr high ↦ rw high (elim (Bool-cases (ltb fm.highest_addr addr)) [
      | inl over ↦ rw over v
      | inr fine ↦ rw fine (
          set-IsValid v (addr / 4096 / 32) _ (omega arith)
            (clear_bit-lt _ _ (v.narrow (addr / 4096 / 32))))
    ])
  ]

  -- Making an address available clears the mark of its frame, unless it is below 8 KiB or above the
  -- highest known address; it changes no other frame.
  pub allocated-mark_frame_available :
      (k : ℕ)
      → allocated (mark_frame_available fm addr).bitmap k ≡ (
          if frame_number addr == k && leb (2 * frame_size) addr && leb addr fm.highest_addr
          then false
          else allocated fm.bitmap k)
  unfolding mark_frame_available allocated word
  allocated-mark_frame_available k = ground (
    arith,
    allocated-set v (addr / 4096 / 32) (clear_bit word (addr / 4096 % 32)) (omega arith) k,
    bit-clear_bit word (addr / 4096 % 32) (k % 32),
  )

  pub is_frame_allocated_lem : is_frame_allocated fm addr ≡ allocated fm.bitmap (frame_number addr)
  unfolding is_frame_allocated allocated
  is_frame_allocated_lem = refl
