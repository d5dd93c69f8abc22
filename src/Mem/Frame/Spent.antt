-- ===== src/Mem/Frame/Spent.antt =====
-- The frame allocator over several calls of AllocateFrame.
use dragon_ware.Base.{ℕ, zero, suc, ◌+◌, ◌%◌, ◌≡◌, refl, subst, ◌⊎◌, inl, inr, List, arith}
use dragon_ware.Mem.Frame.{
  FrameManager, frame_size, allocate_frame, first_free, get_first_free_high_frame,
}

-- Frames are aligned.
first_free_aligned : (n i : ℕ) (bitmap : List ℕ) → first_free n i bitmap % frame_size ≡ 0
unfolding first_free
first_free_aligned zero i bitmap = refl
first_free_aligned (suc n) i bitmap = ground (arith, first_free_aligned n (i + 1) bitmap)

pub allocate_frame_aligned : (fm : FrameManager) → (allocate_frame fm).0 % frame_size ≡ 0
unfolding allocate_frame get_first_free_high_frame
allocate_frame_aligned fm = first_free_aligned 32760 8 fm.bitmap

-- A state of the frame allocator after at most `k` allocations.
pub data Spent : FrameManager → ℕ → FrameManager → Type 0 where
  unspent : {frames : FrameManager} {k : ℕ} → Spent frames k frames
  spend :
      {frames : FrameManager} {k : ℕ} {frames' : FrameManager}
      → Spent (allocate_frame frames).1 k frames'
      → Spent frames (suc k) frames'

-- An allocation after at most `k` others fails.
pub record RunsOut (frames : FrameManager) (k : ℕ) : Type 0 where
  pub last : FrameManager
  pub spent : Spent frames k last
  pub none_left : (allocate_frame last).0 ≡ 0

Spent-more :
    {frames frames' : FrameManager} {k : ℕ} → Spent frames k frames' → Spent frames (suc k) frames'
Spent-more Spent.unspent = Spent.unspent
Spent-more (Spent.spend s) = Spent.spend (Spent-more s)

-- Memory that runs out after a step that spent at most a frame.
pub RunsOut-step :
    {frames frames' : FrameManager} {k : ℕ}
    → (frames' ≡ frames) ⊎ (frames' ≡ (allocate_frame frames).1)
    → RunsOut frames' k
    → RunsOut frames (suc k)
RunsOut-step {frames} {k} (inl e) r = record {
  last = r.last;
  spent = Spent-more (subst (λ (f : FrameManager). Spent f k r.last) e r.spent);
  none_left = r.none_left;
}
RunsOut-step {frames} {k} (inr e) r = record {
  last = r.last;
  spent = Spent.spend (subst (λ (f : FrameManager). Spent f k r.last) e r.spent);
  none_left = r.none_left;
}
