-- ===== src/Base/Blocks.antt =====
-- Positions in blocks of b values each.
use dragon_ware.Base.{ℕ, ◌+◌, ◌-◌, ◌*◌, ◌/◌, ◌%◌, ◌<◌, ◌≡◌, arith}

pub div_mod : (n b : ℕ) → 0 < b → n ≡ n / b * b + n % b
div_mod n b h = grind arith

pub mod_lt : (n b : ℕ) → 0 < b → n % b < b
mod_lt n b h = omega arith

pub div_in_block : (n b k : ℕ) → 0 < b → n % b + k < b → (n + k) / b ≡ n / b
div_in_block n b k h lt = grind arith

pub mod_in_block : (n b k : ℕ) → 0 < b → n % b + k < b → (n + k) % b ≡ n % b + k
mod_in_block n b k h lt = grind arith

pub div_next_block : (n b : ℕ) → 0 < b → (n + (b - n % b)) / b ≡ n / b + 1
div_next_block n b h = grind arith
