-- ===== src/Mem/Temporary/Slots.antt =====
-- The bitmap of the temporary mappings as a set of slots.
use dragon_ware.Base.{
  ℕ, zero, suc, ◌+◌, ◌*◌, ◌/◌, ◌%◌, ◌≤◌, ◌<◌, ◌≡◌, refl, Bool, true, false, Option, none, some,
  arith, ◌==◌, leb, if◌then◌else◌, Bool-cases, inl, inr,
}
use dragon_ware.Base.Bits.{is_set, bit-set_bit, bit-clear_bit, set_bit, clear_bit}
use dragon_ware.Base.Ctz.{bit_full}
use dragon_ware.Base.Store.{update}
use dragon_ware.Mem.Frame.{full_word}
use dragon_ware.Mem.Temporary.{
  tmpmap_max_pages, free_bit, free_slot, find_free_tmp_map_slot, mark_tmp_map_used,
  mark_tmp_map_free, tmp_map_used,
}

-- A slot is in use.
unfoldable pub used : (ℕ → ℕ) → ℕ → Bool
used bitmap i = is_set (bitmap (i / 32)) (i % 32)

-- What a search of the slots from `lo` up to `hi` finds.
pub data FindsSlot (bitmap : ℕ → ℕ) (lo hi : ℕ) : Option ℕ → Type 0 where
  no_slot : ((i : ℕ) → lo ≤ i → i < hi → used bitmap i ≡ true) → FindsSlot bitmap lo hi none
  lowest_slot :
      (k : ℕ)
      → lo ≤ k
      → k < hi
      → used bitmap k ≡ false
      → ((i : ℕ) → lo ≤ i → i < k → used bitmap i ≡ true)
      → FindsSlot bitmap lo hi (some k)

-- What the search of one word finds.
data FindsBit (word lo : ℕ) : Option ℕ → Type 0 where
  no_bit : ((i : ℕ) → lo ≤ i → i < 32 → is_set word i ≡ true) → FindsBit word lo none
  lowest_bit :
      (k : ℕ)
      → lo ≤ k
      → k < 32
      → is_set word k ≡ false
      → ((i : ℕ) → lo ≤ i → i < k → is_set word i ≡ true)
      → FindsBit word lo (some k)

-- A bit that is set is passed over.
skip_bit :
    {word lo : ℕ} {r : Option ℕ}
    → is_set word lo ≡ true
    → FindsBit word (lo + 1) r
    → FindsBit word lo r
skip_bit e (FindsBit.no_bit f) = FindsBit.no_bit (λ i p q. ground (arith, f i))
skip_bit e (FindsBit.lowest_bit k a b c f) =
    FindsBit.lowest_bit k (omega arith) b c (λ i p q. ground (arith, f i))

free_bit-FindsBit : (n lo word : ℕ) → lo + n ≡ 32 → FindsBit word lo (free_bit n lo word)
unfolding free_bit
free_bit-FindsBit zero lo word h = FindsBit.no_bit (λ i p q. absurd (omega arith))
free_bit-FindsBit (suc n) lo word h = elim (Bool-cases (is_set word lo)) [
  | inl e ↦ rw e (skip_bit e (free_bit-FindsBit n (lo + 1) word (omega arith)))
  | inr e ↦
      rw e (FindsBit.lowest_bit lo (omega arith) (omega arith) e (λ i p q. absurd (omega arith)))
]

-- The slots of a word all in use.
used_in_word :
    (bitmap : ℕ → ℕ) (w i : ℕ)
    → ((b : ℕ) → b < 32 → is_set (bitmap w) b ≡ true)
    → w * 32 ≤ i
    → i < (w + 1) * 32
    → used bitmap i ≡ true
unfolding used
used_in_word bitmap w i f p q =
    let at : i / 32 ≡ w = omega arith in rw at (f (i % 32) (omega arith))

-- A word without a free slot is passed over.
skip_word :
    (bitmap : ℕ → ℕ) (w : ℕ) {hi : ℕ} {r : Option ℕ}
    → ((b : ℕ) → b < 32 → is_set (bitmap w) b ≡ true)
    → FindsSlot bitmap ((w + 1) * 32) hi r
    → FindsSlot bitmap (w * 32) hi r
skip_word bitmap w f (FindsSlot.no_slot g) =
    FindsSlot.no_slot (λ i p q. ground (arith, g i, used_in_word bitmap w i f p))
skip_word bitmap w f (FindsSlot.lowest_slot k a b c g) =
    FindsSlot.lowest_slot k (omega arith) b c
      (λ i p q. ground (arith, g i, used_in_word bitmap w i f p))

-- The lowest clear bit of a word is its lowest free slot.
slot_in_word :
    (bitmap : ℕ → ℕ) (w k : ℕ) {hi : ℕ}
    → (w + 1) * 32 ≤ hi
    → k < 32
    → is_set (bitmap w) k ≡ false
    → ((i : ℕ) → 0 ≤ i → i < k → is_set (bitmap w) i ≡ true)
    → FindsSlot bitmap (w * 32) hi (some (w * 32 + k))
unfolding used
slot_in_word bitmap w k inside small clear f =
    let word : (w * 32 + k) / 32 ≡ w = omega arith in
    let place : (w * 32 + k) % 32 ≡ k = omega arith in
    FindsSlot.lowest_slot (w * 32 + k) (omega arith) (omega arith) (rw (word, place) clear)
      (λ i p q. let at : i / 32 ≡ w = omega arith in rw at (f (i % 32) (omega arith) (omega arith)))

free_slot-FindsSlot :
    (n w hi : ℕ) (bitmap : ℕ → ℕ)
    → hi ≡ (w + n) * 32
    → FindsSlot bitmap (w * 32) hi (free_slot n w bitmap)
unfolding free_slot
free_slot-FindsSlot zero w hi bitmap e = FindsSlot.no_slot (λ i p q. absurd (omega arith))
free_slot-FindsSlot (suc n) w hi bitmap e =
    let rest = free_slot-FindsSlot n (w + 1) hi bitmap (omega arith) in
    elim (Bool-cases (bitmap w == full_word)) [
      | inl full ↦ rw full (skip_word bitmap w (λ b p. ground (arith, bit_full b)) rest)
      | inr room ↦ rw room (step (free_bit-FindsBit 32 0 (bitmap w) refl) rest)
    ]
  where
    step :
        {r s : Option ℕ}
        → FindsBit (bitmap w) 0 r
        → FindsSlot bitmap ((w + 1) * 32) hi s
        → FindsSlot bitmap (w * 32) hi (elim r [ some b ↦ some (w * 32 + b) | none ↦ s ])
    step (FindsBit.no_bit f) rest = skip_word bitmap w (λ b p. f b (omega arith) p) rest
    step (FindsBit.lowest_bit k a b c f) rest = slot_in_word bitmap w k (omega arith) b c f

-- FindFreeTmpMapSlot finds the lowest free slot, if there is one.
pub find_free_tmp_map_slot-FindsSlot :
    (bitmap : ℕ → ℕ) → FindsSlot bitmap 0 tmpmap_max_pages (find_free_tmp_map_slot bitmap)
unfolding find_free_tmp_map_slot
find_free_tmp_map_slot-FindsSlot bitmap = free_slot-FindsSlot 32 0 1024 bitmap refl

module _ (bitmap : ℕ → ℕ) (idx : ℕ) (h : idx < tmpmap_max_pages) where
  pub tmp_map_used_lem : tmp_map_used bitmap idx ≡ some (used bitmap idx)
  unfolding tmp_map_used used
  tmp_map_used_lem = let small : leb 1024 idx ≡ false = ground arith in rw small refl

  -- The slots in use once one more is, and once it is free again.
  abbrev pub with_slot : Bool → ℕ → ℕ
  with_slot b = update bitmap (idx / 32) (
      if b
      then set_bit (bitmap (idx / 32)) (idx % 32)
      else clear_bit (bitmap (idx / 32)) (idx % 32))

  pub mark_tmp_map_used_lem : mark_tmp_map_used bitmap idx ≡ some (with_slot true)
  unfolding mark_tmp_map_used
  mark_tmp_map_used_lem = let small : leb 1024 idx ≡ false = ground arith in rw small refl

  pub mark_tmp_map_free_lem : mark_tmp_map_free bitmap idx ≡ some (with_slot false)
  unfolding mark_tmp_map_free
  mark_tmp_map_free_lem = let small : leb 1024 idx ≡ false = ground arith in rw small refl

  pub used-with_slot :
      (b : Bool) (i : ℕ) → used (with_slot b) i ≡ (if i == idx then b else used bitmap i)
  unfolding used
  used-with_slot true i = ground (arith, bit-set_bit (bitmap (idx / 32)) (idx % 32) (i % 32))
  used-with_slot false i = ground (arith, bit-clear_bit (bitmap (idx / 32)) (idx % 32) (i % 32))
