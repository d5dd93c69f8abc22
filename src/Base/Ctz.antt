-- ===== src/Base/Ctz.antt =====
-- `__builtin_ctz`: the index of the lowest set bit of a word; `~x` puts it at the lowest clear bit.
use native.Mathlib.Nat.{pow-suc}
use dragon_ware.Base.{ℕ, zero, suc, ◌-◌, ◌/◌, ◌%◌, ◌^◌, ◌<◌, ◌≡◌, ◌≢◌, arith, ◌==◌, if◌then◌else◌}
use dragon_ware.Base.Bits.{bit, bit-lt-two, bit-zero, complement, bit-complement}

-- The number of trailing zeros of `x`, looking at `w` bits; the builtin leaves `x = 0` undefined.
unfoldable pub ctz : ℕ → ℕ → ℕ
ctz zero x = 0
ctz (suc w) x = let rest = ctz w (x / 2) in if x % 2 == 1 then 0 else suc rest

-- The bit that `__builtin_ctz(~x)` finds in a 32-bit word that is not all ones.
abbrev pub lowest_clear : ℕ → ℕ
lowest_clear x = ctz 32 (complement 32 x)

pub ctz-lt : (w x : ℕ) → x ≢ 0 → x < 2 ^ w → ctz w x < w
unfolding ctz
ctz-lt zero x h k = absurd (h (omega arith))
ctz-lt (suc w) x h k = ground (arith, pow-suc 2 w, ctz-lt w (x / 2))

pub bit-ctz : (w x : ℕ) → x ≢ 0 → x < 2 ^ w → bit x (ctz w x) ≡ 1
unfolding ctz bit
bit-ctz zero x h k = absurd (h (omega arith))
bit-ctz (suc w) x h k = ground (arith, pow-suc 2 w, bit-ctz w (x / 2))

pub bit_below-ctz : (w x j : ℕ) → j < ctz w x → bit x j ≡ 0
unfolding ctz bit
bit_below-ctz zero x j h = absurd (omega arith)
bit_below-ctz (suc w) x zero h = ground arith
bit_below-ctz (suc w) x (suc j) h = ground (arith, bit_below-ctz w (x / 2) j)

module _ (x : ℕ) (word : x < 2 ^ 32) where
  pub lowest_clear-lt : x ≢ 2 ^ 32 - 1 → lowest_clear x < 32
  lowest_clear-lt room = ctz-lt 32 (complement 32 x) (λ e. room (omega arith)) (omega arith)

  pub bit-lowest_clear : x ≢ 2 ^ 32 - 1 → bit x (lowest_clear x) ≡ 0
  bit-lowest_clear room = omega (
    arith,
    bit-complement 32 x (lowest_clear x) word (lowest_clear-lt room),
    bit-lt-two x (lowest_clear x),
    bit-ctz 32 (complement 32 x) (λ e. room (omega arith)) (omega arith),
  )

  pub bit_below-lowest_clear : (j : ℕ) → x ≢ 2 ^ 32 - 1 → j < lowest_clear x → bit x j ≡ 1
  bit_below-lowest_clear j room h = omega (
    arith,
    lowest_clear-lt room,
    bit-complement 32 x j word (omega (arith, lowest_clear-lt room)),
    bit-lt-two x j,
    bit_below-ctz 32 (complement 32 x) j h,
  )

-- Every bit of the full word is set.
pub bit_full : (n : ℕ) → n < 32 → bit (2 ^ 32 - 1) n ≡ 1
bit_full n h = omega (arith, bit-complement 32 0 n (omega arith) h, bit-zero n)
