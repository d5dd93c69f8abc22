-- ===== src/Base/Bits.antt =====
-- Single bits of machine words: what `x & (1 << n)`, `x | (1 << n)` and `x & ~(1 << n)` do to each
-- bit, at every width. `bit x n` is bit `n` of `x`, 0 or 1.
use Prim.Native.Nat.{digits, bitwise, bit_and-bitwise, bit_or-bitwise}
use native.Mathlib.Decide.{ℕ_discrete}
use native.Mathlib.Nat.{le_refl, pow-suc, one-le-pow}
use dragon_ware.Base.{
  ℕ, zero, suc, ◌+◌, ◌-◌, ◌*◌, ◌/◌, ◌%◌, ◌^◌, ◌≤◌, ◌<◌, min, max, bit_and, bit_or, ◌≡◌, refl, ◌≢◌,
  Bool, arith, ◌==◌, if◌then◌else◌,
}

-- Bit `n` of `x`: `(x >> n) & 1`.
unfoldable pub bit : ℕ → ℕ → ℕ
bit x zero = x % 2
bit x (suc n) = bit (x / 2) n

-- `x & (1U << n)` as a truth value.
abbrev pub is_set : ℕ → ℕ → Bool
is_set x n = bit x n == 1

-- The complement of a `w`-bit word.
abbrev pub complement : ℕ → ℕ → ℕ
complement w x = 2 ^ w - 1 - x

module _ (z : ℕ → ℕ) (f : ℕ → ℕ → ℕ) where
  digits_enough : (n m a b : ℕ) → a ≤ n → a ≤ m → digits z f n a b ≡ digits z f m a b
  digits_enough zero zero a b p q = refl
  digits_enough zero (suc m) zero b p q = refl
  digits_enough zero (suc m) (suc a) b p q = absurd (omega arith)
  digits_enough (suc n) zero zero b p q = refl
  digits_enough (suc n) zero (suc a) b p q = absurd (omega arith)
  digits_enough (suc n) (suc m) zero b p q = refl
  digits_enough (suc n) (suc m) (suc a) b p q =
      rw (digits_enough n m (suc a / 2) (b / 2) (omega arith) (omega arith))

  bitwise-halves :
      (a b : ℕ)
      → bitwise z f (suc a) b ≡ bitwise z f (suc a / 2) (b / 2) * 2 + f (suc a % 2) (b % 2)
  bitwise-halves a b =
      omega (arith, digits_enough a (suc a / 2) (suc a / 2) (b / 2) (omega arith) (le_refl _))

bit_or-halves : (a b : ℕ) → bit_or a b ≡ bit_or (a / 2) (b / 2) * 2 + max (a % 2) (b % 2)
bit_or-halves zero b = simp bit_or-bitwise (omega arith)
bit_or-halves (suc a) b = simp bit_or-bitwise (bitwise-halves (λ y. y) max a b)

bit_and-halves : (a b : ℕ) → bit_and a b ≡ bit_and (a / 2) (b / 2) * 2 + min (a % 2) (b % 2)
bit_and-halves zero b = simp bit_and-bitwise (omega arith)
bit_and-halves (suc a) b = simp bit_and-bitwise (bitwise-halves (λ y. 0) min a b)

half_of_digits : (q r : ℕ) → r < 2 → (q * 2 + r) / 2 ≡ q
half_of_digits q r h = omega arith

pub bit-lt-two : (x n : ℕ) → bit x n < 2
unfolding bit
bit-lt-two x zero = omega arith
bit-lt-two x (suc n) = bit-lt-two (x / 2) n

-- `|` and `&` act on each bit.
pub bit-bit_or : (a b n : ℕ) → bit (bit_or a b) n ≡ max (bit a n) (bit b n)
unfolding bit
bit-bit_or a b zero = omega (arith, bit_or-halves a b)
bit-bit_or a b (suc n) =
    rw
      (
        bit_or-halves a b,
        half_of_digits (bit_or (a / 2) (b / 2)) (max (a % 2) (b % 2)) (omega arith),
      )
      (bit-bit_or (a / 2) (b / 2) n)

pub bit-bit_and : (a b n : ℕ) → bit (bit_and a b) n ≡ min (bit a n) (bit b n)
unfolding bit
bit-bit_and a b zero = omega (arith, bit_and-halves a b)
bit-bit_and a b (suc n) =
    rw
      (
        bit_and-halves a b,
        half_of_digits (bit_and (a / 2) (b / 2)) (min (a % 2) (b % 2)) (omega arith),
      )
      (bit-bit_and (a / 2) (b / 2) n)

pub bit-zero : (n : ℕ) → bit 0 n ≡ 0
unfolding bit
bit-zero zero = refl
bit-zero (suc n) = bit-zero n

half_pow : (n : ℕ) → 2 ^ suc n / 2 ≡ 2 ^ n
half_pow n = omega (arith, pow-suc 2 n)

pub bit-pow_self : (n : ℕ) → bit (2 ^ n) n ≡ 1
unfolding bit
bit-pow_self zero = refl
bit-pow_self (suc n) = rw (half_pow n) (bit-pow_self n)

pub bit-pow_ne : (n m : ℕ) → n ≢ m → bit (2 ^ n) m ≡ 0
unfolding bit
bit-pow_ne zero zero h = absurd (h refl)
bit-pow_ne zero (suc m) h = bit-zero m
bit-pow_ne (suc n) zero h = omega (arith, pow-suc 2 n)
bit-pow_ne (suc n) (suc m) h = rw (half_pow n) (bit-pow_ne n m (λ e. h (omega arith)))

half_complement : (w x : ℕ) → x < 2 ^ suc w → complement (suc w) x / 2 ≡ complement w (x / 2)
half_complement w x h = omega (arith, pow-suc 2 w)

pub bit-complement : (w x n : ℕ) → x < 2 ^ w → n < w → bit (complement w x) n ≡ 1 - bit x n
unfolding bit
bit-complement zero x n h k = absurd (omega arith)
bit-complement (suc w) x zero h k = omega (arith, pow-suc 2 w)
bit-complement (suc w) x (suc n) h k =
    rw (half_complement w x h)
      (bit-complement w (x / 2) n (omega (arith, pow-suc 2 w)) (omega arith))

pub bit_or-lt-pow : (w a b : ℕ) → a < 2 ^ w → b < 2 ^ w → bit_or a b < 2 ^ w
bit_or-lt-pow zero a b h k = omega (arith, bit_or-halves a b, zero_or_zero a b h k)
  where
    zero_or_zero : (a b : ℕ) → a < 1 → b < 1 → bit_or (a / 2) (b / 2) ≡ 0
    zero_or_zero zero zero h k = refl
    zero_or_zero zero (suc b) h k = absurd (omega arith)
    zero_or_zero (suc a) b h k = absurd (omega arith)
bit_or-lt-pow (suc w) a b h k = omega (
  arith,
  pow-suc 2 w,
  bit_or-halves a b,
  bit_or-lt-pow w (a / 2) (b / 2) (omega (arith, pow-suc 2 w)) (omega (arith, pow-suc 2 w)),
)

pub bit_and-le : (w a b : ℕ) → a < 2 ^ w → bit_and a b ≤ a
bit_and-le zero zero b h = omega (arith, zero_and b)
  where
    zero_and : (b : ℕ) → bit_and 0 b ≡ 0
    zero_and b = bit_and-bitwise 0 b
bit_and-le zero (suc a) b h = absurd (omega arith)
bit_and-le (suc w) a b h =
    omega (arith, bit_and-halves a b, bit_and-le w (a / 2) (b / 2) (omega (arith, pow-suc 2 w)))

pow-lt-pow : (n w : ℕ) → n < w → 2 ^ n < 2 ^ w
pow-lt-pow n zero h = absurd (omega arith)
pow-lt-pow zero (suc w) h = omega (arith, pow-suc 2 w, one-le-pow w 2 (omega arith))
pow-lt-pow (suc n) (suc w) h = omega (arith, pow-suc 2 w, pow-suc 2 n, pow-lt-pow n w (omega arith))

-- `x |= 1U << n`, `x &= ~(1U << n)` on a 32-bit word.
unfoldable pub set_bit : ℕ → ℕ → ℕ
set_bit x n = bit_or x (2 ^ n)

unfoldable pub clear_bit : ℕ → ℕ → ℕ
clear_bit x n = bit_and x (complement 32 (2 ^ n))

pub bit-set_bit : (x n m : ℕ) → bit (set_bit x n) m ≡ (if n == m then 1 else bit x m)
unfolding set_bit
bit-set_bit x n m = elim (ℕ_discrete n m) [
  | yes e ↦ rw e (ground (arith, bit-bit_or x (2 ^ m) m, bit-pow_self m, bit-lt-two x m))
  | no d ↦ ground (arith, bit-bit_or x (2 ^ n) m, bit-pow_ne n m d)
]

pub bit-clear_bit :
    (x n m : ℕ) → n < 32 → m < 32 → bit (clear_bit x n) m ≡ (if n == m then 0 else bit x m)
unfolding clear_bit
bit-clear_bit x n m hn hm = elim (ℕ_discrete n m) [
  | yes e ↦ rw e (
      ground (
        arith,
        bit-bit_and x (complement 32 (2 ^ m)) m,
        bit-complement 32 (2 ^ m) m (pow-lt-pow m 32 hm) hm,
        bit-pow_self m,
      ))
  | no d ↦ ground (
    arith,
    bit-bit_and x (complement 32 (2 ^ n)) m,
    bit-complement 32 (2 ^ n) m (pow-lt-pow n 32 hn) hm,
    bit-pow_ne n m d,
    bit-lt-two x m,
  )
]

pub set_bit-lt : (x n : ℕ) → x < 2 ^ 32 → n < 32 → set_bit x n < 2 ^ 32
unfolding set_bit
set_bit-lt x n h k = bit_or-lt-pow 32 x (2 ^ n) h (pow-lt-pow n 32 k)

pub clear_bit-lt : (x n : ℕ) → x < 2 ^ 32 → clear_bit x n < 2 ^ 32
unfolding clear_bit
clear_bit-lt x n h = omega (arith, bit_and-le 32 x (complement 32 (2 ^ n)) h)
