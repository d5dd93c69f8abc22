-- ===== src/Base/Words.antt =====
-- Machine words: a w-bit unsigned integer is a number below 2 ^ w, and arithmetic on it wraps.
use dragon_ware.Base.{ℕ, ◌+◌, ◌-◌, ◌*◌, ◌%◌, ◌^◌}

abbrev pub two32 : ℕ
two32 = 2 ^ 32

abbrev pub two64 : ℕ
two64 = 2 ^ 64

-- `uint32_t`, `uintptr_t` and `size_t` arithmetic of the ia32 target.
abbrev pub add32 : ℕ → ℕ → ℕ
add32 a b = (a + b) % two32

abbrev pub sub32 : ℕ → ℕ → ℕ
sub32 a b = (a + two32 - b) % two32

abbrev pub mul32 : ℕ → ℕ → ℕ
mul32 a b = (a * b) % two32
