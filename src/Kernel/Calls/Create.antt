-- ===== src/Kernel/Calls/Create.antt =====
-- What _DWCreateObject gives to the caller.
use dragon_ware.Base.{ℕ, ◌<◌, ◌≡◌, ◌≢◌, ◌⊎◌, none, ◌==◌, if◌then◌else◌}
use dragon_ware.Base.Store.{null}
use dragon_ware.Kernel.Table.{object_at, max_obj_per_process}
use dragon_ware.Kernel.Table.Slots.{IsTable}
use dragon_ware.Kernel.State.{Kernel, Object, ObjectType, current_process, minus_one}
use dragon_ware.Kernel.Calls.{copied_name}

-- The caller's name, if any, can be copied, and there is memory for the object.
abbrev pub IsGranted : Kernel → ℕ → ℕ → ℕ → Type 0
IsGranted k name copy obj = (copied_name k name copy ≢ none) × (obj ≢ null)

-- The results of a creation: refused with no handle table changed, an object that found no slot, or a
-- new object behind a handle.
pub data CreatedObject (k : Kernel) (name : ℕ) (type : ObjectType) (copy obj : ℕ)
    : ℕ × Kernel → Type 0 where
  refused :
      (k' : Kernel)
      → (copied_name k name copy ≡ none) ⊎ (obj ≡ null)
      → k'.processes ≡ k.processes
      → k'.objects ≡ k.objects
      → CreatedObject k name type copy obj (minus_one, k')
  full :
      (k' : Kernel)
      → IsGranted k name copy obj
      → ((i : ℕ)
          → i < max_obj_per_process
          → object_at (k.processes (current_process k)).handles i ≢ null)
      → (k'.processes (current_process k)).handles ≡ (k.processes (current_process k)).handles
      → CreatedObject k name type copy obj (minus_one, k')
  created :
      (handle : ℕ) (k' : Kernel)
      → IsGranted k name copy obj
      → handle < max_obj_per_process
      → object_at (k.processes (current_process k)).handles handle ≡ null
      → IsTable (k'.processes (current_process k)).handles
      → ((j : ℕ)
          → object_at (k'.processes (current_process k)).handles j
            ≡ (if handle == j then obj else object_at (k.processes (current_process k)).handles j))
      → ((k'.objects obj).type ≡ type)
        × ((k'.objects obj).payload ≡ null)
        × ((k'.objects obj).refcnt ≡ 1)
      → CreatedObject k name type copy obj (handle, k')
