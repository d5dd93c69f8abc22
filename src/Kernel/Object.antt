-- ===== src/Kernel/Object.antt =====
-- Kernel objects, sys/iomgr/object.c: AllocateObject and DeleteObject.
-- kmalloc is a parameter; `fuel` is for the walk along the scheduling list.
pub mod Delete
use dragon_ware.Base.{ℕ, ◌-◌, ◌<◌, ◌≡◌, Bool, true, false, List, ◌∷◌, not, ltb, ◌==◌, if◌then◌else◌}
use dragon_ware.Base.Store.{null, update}
use dragon_ware.Sched.{delete_thread}
use dragon_ware.Mem.Section.{delete_section}
use dragon_ware.Kernel.State.{Kernel, ObjectType, Object, write_object, write_section}
use dragon_ware.Kernel.Port.{delete_port}

-- The object's address is `obj`, null where kmalloc has no memory.
unfoldable pub allocate_object : Kernel → ℕ → ℕ → ObjectType → ℕ × Kernel
allocate_object k obj name type = if obj == null then (null, k) else (
  obj,
  write_object k obj
      (record { type = type; name = name; payload = null; permissions = 0; refcnt = 1 }),
)

-- DeleteSection on the section at `p`.
unfoldable pub delete_section_at : Kernel → ℕ → Kernel
delete_section_at k p =
    let thread_id = (k.sched.threads k.sched.current_thread).id in
    let (gone, left) = delete_section (k.sections p) thread_id k.space in
    let k' = record (write_section k p left.0) { space = left.1 } in
    if gone then record k' { freed = p ∷ k'.freed } else k'

-- The `switch` of DeleteObject on what the object holds.
unfoldable pub delete_payload : ℕ → Kernel → ObjectType → ℕ → Kernel
delete_payload fuel k ObjectType.port p = delete_port k p
delete_payload fuel k ObjectType.section p = delete_section_at k p
delete_payload fuel k ObjectType.thread p = record k { sched = delete_thread fuel k.sched p }
delete_payload fuel k _ p = k

unfoldable pub delete_object : ℕ → Kernel → ℕ → Kernel
delete_object fuel k p =
    let obj = k.objects p in
    let k' = if obj.payload == null then k else delete_payload fuel k obj.type obj.payload in
    if ltb 1 obj.refcnt
    then write_object k p (record obj { refcnt = obj.refcnt - 1 })
    else record k' { freed = p ∷ k'.freed }
