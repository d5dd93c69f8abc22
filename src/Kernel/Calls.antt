-- ===== src/Kernel/Calls.antt =====
-- The system calls on objects, sys/syscall/object.c. kmalloc's results are parameters, the address or
-- the null pointer. Requests on devices and threads are left out.
pub mod Translate
pub mod Create
use dragon_ware.Base.{
  ℕ, zero, suc, ◌+◌, ◌-◌, ◌^◌, ◌<◌, ◌≡◌, Bool, true, false, List, [], ◌∷◌, ◌++◌, Option, none, some,
  not, ◌&&◌, ◌||◌, ltb, leb, ◌==◌, if◌then◌else◌, length, take, min,
}
use dragon_ware.Base.Store.{null, update}
use dragon_ware.Base.Bits.{is_set}
use dragon_ware.Status.{Status}
use dragon_ware.Mem.Section.{allocate_section, map_section}
use dragon_ware.Kernel.Table.{
  HandleTable, max_obj_per_process, object_at, append_to_handle_table, delete_from_handle_table,
}
use dragon_ware.Kernel.State.{
  Kernel, Port, Process, ObjectType, Object, current_process, write_process, write_object,
  write_section, mapped, is_ok, minus_one,
}
use dragon_ware.Kernel.UserCopy.{copy_from_user, copy_to_user, address_is_mapped}
use dragon_ware.Kernel.Port.{create_port, find_port_by_name, max_port_name}
use dragon_ware.Kernel.Object.{allocate_object, delete_object}
use dragon_ware.Kernel.Irq.{register_irq_subscriber, acknowledge_user_irq}
use dragon_ware.Kernel.Ipc.{find_slot}

abbrev pub write_handles : Kernel → ℕ → HandleTable → Kernel
write_handles k process table =
    write_process k process (record (k.processes process) { handles = table })

-- An `int` below 0.
abbrev pub is_negative : ℕ → Bool
is_negative n = leb (2 ^ 31) n

-- The object's name in the kernel: null without a name, or nothing where the call fails. `name` is the
-- user's address, `copy` the result of kmalloc for it.
unfoldable pub copied_name : Kernel → ℕ → ℕ → Option ℕ
copied_name k name copy =
    let strsize = min (length (k.user_names name)) max_port_name + 1 in
    if not (name == null) && address_is_mapped (mapped k) name
    then (if copy == null
        then none
        else if not (is_ok (copy_from_user (mapped k) name strsize))
        then none
        else some copy)
    else some null

-- The copy of the user's name, at most 48 characters of it, in kernel memory.
abbrev pub with_name : Kernel → ℕ → ℕ → Kernel
with_name k name copy = record k {
  names =
      if copy == null
      then k.names
      else update k.names copy (take max_port_name (k.user_names name));
}

-- `_DWCreateObject`: the handle, or -1. `copy` and `obj` are the results of kmalloc.
unfoldable pub create_object : Kernel → ℕ → ObjectType → ℕ → ℕ → ℕ × Kernel
create_object k name type copy obj = elim (copied_name k name copy) [
  | none ↦ (minus_one, (if copy == null then k else record k { freed = copy ∷ k.freed }))
  | some name_real ↦
      let (p, k') = allocate_object (with_name k name name_real) obj name_real type in
      let curr = current_process k' in
      let (index, table) = append_to_handle_table (k'.processes curr).handles p in
      if p == null
      then (minus_one, k')
      else (elim index [ none ↦ minus_one | some i ↦ i ], write_handles k' curr table)
]

-- `_DWDeleteObject`. A handle of 32 or more reads behind the table in the source; callers pass less.
unfoldable pub delete_object_call : ℕ → Kernel → ℕ → Kernel
delete_object_call fuel k handle =
    let current = current_process k in
    let target = object_at (k.processes current).handles handle in
    let name = (k.objects target).name in
    let k₁ = if name == null then k else record k { freed = name ∷ k.freed } in
    let k₂ =
      write_handles k₁ current (delete_from_handle_table (k.processes current).handles handle).1 in
    if is_negative handle then k else if target == null then k else delete_object fuel k₂ target

-- The search of FindProcessByID (sys/task/process.c) along the list of processes.
unfoldable pub find_process : (ℕ → Process) → ℕ → List ℕ → ℕ
find_process processes id [] = null
find_process processes id (p ∷ rest) =
    if (processes p).pid == id then p else find_process processes id rest

unfoldable pub find_process_by_id : Kernel → ℕ → ℕ
find_process_by_id k id = find_process k.processes id k.process_list

-- The handle for the object in the table, -1 where there is no room, the table, and the object.
unfoldable pub adopt : HandleTable → ℕ → Object → Option ℕ × (HandleTable × Object)
adopt table p original =
    let (appended, table') = append_to_handle_table table p in
    elim (find_slot max_obj_per_process 0 table p) [
      | some i ↦ (some i, (table, original))
      | none ↦ elim appended [
        | some i ↦ (some i, (table', record original { refcnt = original.refcnt + 1 }))
        | none ↦ (none, (table', original))
      ]
    ]

-- The end of `_DWTranslateHandle`, with the new handle `i`: the copy to the user, or, where it fails,
-- the handle taken back.
unfoldable pub hand_out : Kernel → ℕ → ℕ → ℕ → ℕ → Status × Kernel
hand_out k this p i save =
    let status = copy_to_user (mapped k) save 4 in
    let obj = k.objects p in
    let k' = write_handles k this (delete_from_handle_table (k.processes this).handles i).1 in
    if is_ok status
    then (Status.ok, record k { user_words = update k.user_words save i })
    else (status, write_object k' p (record obj { refcnt = obj.refcnt - 1 }))

unfoldable pub translate_handle : Kernel → ℕ → ℕ → ℕ → Status × Kernel
translate_handle k of handle_of save =
    let origin = find_process_by_id k of in
    let this = current_process k in
    let p = object_at (k.processes origin).handles handle_of in
    let (i, result) = adopt (k.processes this).handles p (k.objects p) in
    let k' = write_object (write_handles k this result.0) p result.1 in
    let same_status = copy_to_user (mapped k) save 4 in
    if of == 0
    then (Status.bad_argument, k)
    else if leb max_obj_per_process handle_of
    then (Status.bad_argument, k)
    else if origin == this
    then (
      same_status,
      (if is_ok same_status
          then record k { user_words = update k.user_words save handle_of }
          else k),
    )
    else if origin == null
    then (Status.not_found, k)
    else if p == null
    then (Status.not_found, k)
    else elim i [ none ↦ (Status.out_of_memory, k') | some h ↦ hand_out k' this p h save ]
