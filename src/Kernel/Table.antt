-- ===== src/Kernel/Table.antt =====
-- Handle tables, sys/iomgr/object.c: AppendToHandleTable and DeleteFromHandleTable. A table has 32
-- slots for object pointers and a word with one bit for each slot in use.
pub mod Slots
use dragon_ware.Base.{
  ℕ, ◌+◌, ◌≤◌, ◌<◌, ◌≡◌, Bool, List, Option, none, some, ◌==◌, if◌then◌else◌, length, get_or, set,
  replicate,
}
use dragon_ware.Base.Store.{null}
use dragon_ware.Base.Bits.{complement, set_bit, clear_bit}
use dragon_ware.Base.Ctz.{ctz}

-- MAX_OBJ_PER_PROCESS.
abbrev pub max_obj_per_process : ℕ
max_obj_per_process = 32

pub record HandleTable : Type 0 where
  pub objlist : List ℕ
  pub valid_bitmap : ℕ

-- The table of a new process, zeroed by CreateProcess.
abbrev pub empty_table : HandleTable
empty_table = record { objlist = replicate max_obj_per_process null; valid_bitmap = 0 }

abbrev pub object_at : HandleTable → ℕ → ℕ
object_at table index = get_or table.objlist index null

-- The index of the slot taken, `none` for -1.
unfoldable pub append_to_handle_table : HandleTable → ℕ → Option ℕ × HandleTable
append_to_handle_table table obj =
    let free_mask = complement 32 table.valid_bitmap in
    let index = ctz 32 free_mask in
    if free_mask == 0 then (none, table) else (
      some index,
      record {
        objlist = set table.objlist index obj;
        valid_bitmap = set_bit table.valid_bitmap index;
      },
    )

-- Callers pass an index below 32.
unfoldable pub delete_from_handle_table : HandleTable → ℕ → ℕ × HandleTable
delete_from_handle_table table index = (
  object_at table index,
  record {
    objlist = set table.objlist index null;
    valid_bitmap = clear_bit table.valid_bitmap index;
  },
)
