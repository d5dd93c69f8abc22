-- ===== src/Text/Move.antt =====
-- memmove, freestanding/mm/mmutils.c and libc/generic/string.c, on a memory of bytes.
use dragon_ware.Base.{
  ℕ, zero, suc, ◌+◌, ◌-◌, ◌≤◌, ◌≡◌, refl, Bool-cases, inl, inr, arith, ◌&&◌, ◌||◌, leb, ltb, ◌==◌,
  if◌then◌else◌,
}
use dragon_ware.Base.Store.{update}

-- `while (n--) *d++ = *s++`.
unfoldable pub copy_up : ℕ → ℕ → ℕ → (ℕ → ℕ) → ℕ → ℕ
copy_up zero d s m = m
copy_up (suc n) d s m = copy_up n (d + 1) (s + 1) (update m d (m s))

-- `while (n--) *--d = *--s`, where `d` and `s` are the first bytes.
unfoldable pub copy_down : ℕ → ℕ → ℕ → (ℕ → ℕ) → ℕ → ℕ
copy_down zero d s m = m
copy_down (suc n) d s m = copy_down n d s (update m (d + n) (m (s + n)))

unfoldable pub memmove : ℕ → ℕ → ℕ → (ℕ → ℕ) → ℕ → ℕ
memmove dest src n m = if ltb dest src then copy_up n dest src m else copy_down n dest src m

unfoldable pub memmove_libc : ℕ → ℕ → ℕ → (ℕ → ℕ) → ℕ → ℕ
memmove_libc dest src size m =
    if size == 0 || dest == src
    then m
    else if ltb dest src
    then copy_up size dest src m
    else copy_down size dest src m

-- The memory with a run of bytes copied as if from another memory.
abbrev pub moved : ℕ → ℕ → ℕ → (ℕ → ℕ) → ℕ → ℕ
moved dest src n m a = if leb dest a && ltb a (dest + n) then m (src + (a - dest)) else m a

copy_up-moved : (n d s : ℕ) (m : ℕ → ℕ) (a : ℕ) → d ≤ s → copy_up n d s m a ≡ moved d s n m a
unfolding copy_up
copy_up-moved zero d s m a h = ground arith
copy_up-moved (suc n) d s m a h =
    rw (copy_up-moved n (d + 1) (s + 1) (update m d (m s)) a (omega arith)) (ground arith)

copy_down-moved : (n d s : ℕ) (m : ℕ → ℕ) (a : ℕ) → s ≤ d → copy_down n d s m a ≡ moved d s n m a
unfolding copy_down
copy_down-moved zero d s m a h = ground arith
copy_down-moved (suc n) d s m a h =
    rw (copy_down-moved n d s (update m (d + n) (m (s + n))) a h) (ground arith)

-- memmove copies a run of bytes as if through another memory, whether the runs overlap or not, and
-- changes no byte outside the destination; both libraries' versions do.
pub memmove-moved :
    (dest src n : ℕ) (m : ℕ → ℕ) (a : ℕ)
    → (memmove dest src n m a ≡ moved dest src n m a)
      × (memmove_libc dest src n m a ≡ moved dest src n m a)
unfolding memmove memmove_libc
memmove-moved dest src n m a = elim (Bool-cases (ltb dest src)) [
  | inl e ↦ let up = copy_up-moved n dest src m a (ground arith) in (rw (e, up) refl, ground arith)
  | inr e ↦
      let down = copy_down-moved n dest src m a (ground arith) in (rw (e, down) refl, ground arith)
]
