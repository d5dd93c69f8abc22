-- ===== src/Kernel/UserCopy.antt =====
-- The checks of CopyFromUser and CopyToUser, sys/syscall/usercopy.c. Both make the same ones on the
-- user's address, before a memcpy of `n_bytes`.
use dragon_ware.Base.{
  ℕ, ◌+◌, ◌*◌, ◌/◌, ◌≤◌, ◌<◌, ◌≡◌, refl, ◌≢◌, Bool, true, false, not, ◌||◌, arith, ltb,
  if◌then◌else◌,
}
use dragon_ware.Base.Words.{two32, add32}
use dragon_ware.Status.{Status}

-- KERNEL_VM_BASE (sys/ddk/ia32/vmm.h).
abbrev pub kernel_vm_base : ℕ
kernel_vm_base = 0xC0000000

abbrev pub page_size : ℕ
page_size = 4096

abbrev pub is_user_pointer : ℕ → Bool
is_user_pointer addr = ltb addr kernel_vm_base

abbrev pub addition_would_overflow : ℕ → ℕ → Bool
addition_would_overflow n1 n2 = ltb (add32 n1 n2) n1

-- ADDRESS_IS_MAPPED: the page that holds the address is mapped.
abbrev pub address_is_mapped : (ℕ → Bool) → ℕ → Bool
address_is_mapped mapped addr = mapped (addr / page_size * page_size)

-- The status that a copy returns; it copies only where that is STATUS_OK.
unfoldable pub copy_from_user : (ℕ → Bool) → ℕ → ℕ → Status
copy_from_user mapped useraddr n_bytes =
    let enduseraddr = add32 useraddr n_bytes in
    if not (address_is_mapped mapped useraddr) || not (address_is_mapped mapped enduseraddr)
    then Status.bad_argument
    else if addition_would_overflow useraddr n_bytes
    then Status.bad
    else if not (is_user_pointer useraddr) || not (is_user_pointer enduseraddr)
    then Status.bad
    else Status.ok

unfoldable pub copy_to_user : (ℕ → Bool) → ℕ → ℕ → Status
copy_to_user mapped useraddr n_bytes =
    let enduseraddr = add32 useraddr n_bytes in
    if not (address_is_mapped mapped useraddr) || not (address_is_mapped mapped enduseraddr)
    then Status.bad_argument
    else if addition_would_overflow useraddr n_bytes
    then Status.bad
    else if not (is_user_pointer useraddr) || not (is_user_pointer enduseraddr)
    then Status.bad
    else Status.ok

-- What holds of a user buffer that a copy accepts.
pub record InUserSpace (mapped : ℕ → Bool) (addr n : ℕ) : Type 0 where
  pub below : addr + n < kernel_vm_base
  pub first : address_is_mapped mapped addr ≡ true
  pub behind : address_is_mapped mapped (addr + n) ≡ true

module _ (mapped : ℕ → Bool) (addr n : ℕ) (ha : addr < two32) (hn : n < two32) where
  no_wrap : addition_would_overflow addr n ≡ false → add32 addr n ≡ addr + n
  no_wrap h = ground arith

  accepted :
      (e : ℕ)
      → add32 addr n ≡ e
      → (e ≡ addr + n)
      → ltb e kernel_vm_base ≡ true
      → address_is_mapped mapped addr ≡ true
      → address_is_mapped mapped e ≡ true
      → InUserSpace mapped addr n
  accepted e h q b f l = record { below = ground arith; first = f; behind = rw (← q) l }

  -- A copy that CopyFromUser or CopyToUser lets through, with 32-bit arguments, lies below the kernel
  -- with all its bytes, so the address does not wrap, and the pages of its first byte and of the byte
  -- behind its last are mapped.
  pub copy_from_user-InUserSpace :
      copy_from_user mapped addr n ≡ Status.ok → InUserSpace mapped addr n
  unfolding copy_from_user
  copy_from_user-InUserSpace h =
      accepted (add32 addr n) refl (no_wrap (ground arith)) (ground arith) (ground arith)
        (ground arith)

  pub copy_to_user-InUserSpace : copy_to_user mapped addr n ≡ Status.ok → InUserSpace mapped addr n
  unfolding copy_to_user
  copy_to_user-InUserSpace h =
      accepted (add32 addr n) refl (no_wrap (ground arith)) (ground arith) (ground arith)
        (ground arith)

-- A copy, in or out, with 32-bit arguments, of a buffer that ends in kernel memory is refused.
pub copy_of_kernel_memory_refused :
    (mapped : ℕ → Bool) (addr n : ℕ)
    → addr < two32
    → n < two32
    → kernel_vm_base ≤ addr + n
    → (copy_from_user mapped addr n ≢ Status.ok) × (copy_to_user mapped addr n ≢ Status.ok)
copy_of_kernel_memory_refused mapped addr n ha hn k = (
  λ h. omega (arith, (copy_from_user-InUserSpace mapped addr n ha hn h).below),
  λ h. omega (arith, (copy_to_user-InUserSpace mapped addr n ha hn h).below),
)
