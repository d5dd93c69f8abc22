-- ===== src/Boot/Elf/Memory.antt =====
-- Memory as a function from addresses, and runs of bytes stored to it.
use dragon_ware.Base.{
  ℕ, suc, ◌+◌, ◌-◌, ◌≡◌, inl, inr, Bool-cases, List, [], ◌∷◌, arith, ltb, leb, ◌==◌, ◌&&◌,
  if◌then◌else◌, length, get_or,
}

-- The memory after `bytes` are copied to address `at`.
unfoldable pub store : (ℕ → ℕ) → ℕ → List ℕ → ℕ → ℕ
store m at [] a = m a
store m at (b ∷ bytes) a = if a == at then b else store m (at + 1) bytes a

pub store_lem :
    (m : ℕ → ℕ) (at : ℕ) (bytes : List ℕ) (a : ℕ)
    → store m at bytes a
      ≡ (if leb at a && ltb a (at + length bytes) then get_or bytes (a - at) 0 else m a)
unfolding store
store_lem m at [] a = ground arith
store_lem m at (b ∷ bytes) a = elim (Bool-cases (ltb at a)) [
  | inl behind ↦
      let e : a - at ≡ suc (a - (at + 1)) = ground arith in
      rw e (ground (arith, store_lem m (at + 1) bytes a))
  | inr before ↦ elim (Bool-cases (a == at)) [
    | inl here ↦ let e : a - at ≡ 0 = ground arith in rw e (ground arith)
    | inr ahead ↦ ground (arith, store_lem m (at + 1) bytes a)
  ]
]
