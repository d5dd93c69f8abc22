-- ===== src/Kernel/Table/Slots.antt =====
-- The bitmap of a handle table says which slots hold an object.
use dragon_ware.Base.{
  ℕ, ◌-◌, ◌^◌, ◌<◌, ◌≡◌, refl, ap, ◌≢◌, inl, inr, not, Option, none, some, arith, ◌==◌,
  if◌then◌else◌, length, length-set, set, Bool-cases,
}
use dragon_ware.Base.Store.{null}
use dragon_ware.Base.Bits.{
  bit, is_set, complement, set_bit, bit-set_bit, bit-clear_bit, set_bit-lt, clear_bit-lt, bit-zero,
}
use dragon_ware.Base.Ctz.{
  lowest_clear, lowest_clear-lt, bit-lowest_clear, bit_below-lowest_clear, bit_full,
}
use dragon_ware.Base.Arrays.{get_or-set, get_or-replicate}
use dragon_ware.Kernel.Table.{
  HandleTable, max_obj_per_process, empty_table, object_at, append_to_handle_table,
  delete_from_handle_table,
}

-- The table has 32 slots, its bitmap is a word, and a slot's bit is set exactly when it holds an
-- object.
pub record IsTable (t : HandleTable) : Type 0 where
  pub slots : length t.objlist ≡ max_obj_per_process
  pub word : t.valid_bitmap < 2 ^ 32
  pub marks :
      (i : ℕ) → i < max_obj_per_process → is_set t.valid_bitmap i ≡ not (object_at t i == null)

pub IsTable-empty : IsTable empty_table
IsTable-empty = record {
  slots = refl;
  word = omega arith;
  marks = λ i h. ground (arith, bit-zero i, get_or-replicate 32 i null null);
}

-- What AppendToHandleTable did with a table: it was full and stays, or the lowest empty slot now
-- holds the object and the other slots are as before.
pub data Appended (t : HandleTable) (obj : ℕ) : Option ℕ × HandleTable → Type 0 where
  full : ((i : ℕ) → i < max_obj_per_process → object_at t i ≢ null) → Appended t obj (none, t)
  stored :
      (i : ℕ) (t' : HandleTable)
      → i < max_obj_per_process
      → object_at t i ≡ null
      → ((j : ℕ) → j < i → object_at t j ≢ null)
      → IsTable t'
      → ((j : ℕ) → object_at t' j ≡ (if i == j then obj else object_at t j))
      → Appended t obj (some i, t')

module _ {t : HandleTable} (v : IsTable t) where
  append-IsTable :
      (i obj : ℕ)
      → i < max_obj_per_process
      → obj ≢ null
      → IsTable (record { objlist = set t.objlist i obj; valid_bitmap = set_bit t.valid_bitmap i })
  append-IsTable i obj h real = record {
    slots = omega (arith, v.slots, length-set t.objlist i obj);
    word = set_bit-lt t.valid_bitmap i v.word h;
    marks = λ j k. ground (
      arith,
      v.slots,
      v.marks j k,
      bit-set_bit t.valid_bitmap i j,
      get_or-set t.objlist i obj j 0,
    );
  }

  -- On a well-formed table an object goes into the lowest empty slot, and no other slot changes;
  -- only a table with no empty slot refuses it, and stays as it is.
  pub append_to_handle_table-Appended :
      (obj : ℕ) → obj ≢ null → Appended t obj (append_to_handle_table t obj)
  unfolding append_to_handle_table
  append_to_handle_table-Appended obj real = elim (Bool-cases (complement 32 t.valid_bitmap == 0)) [
    | inl e ↦
        let all : t.valid_bitmap ≡ 2 ^ 32 - 1 = ground (arith, v.word) in
        rw e
          (Appended.full (λ i h. ground (arith, v.marks i h, bit_full i h, ap (λ w. bit w i) all)))
    | inr e ↦
        let room : t.valid_bitmap ≢ 2 ^ 32 - 1 = λ q. ground arith in
        let i = lowest_clear t.valid_bitmap in
        let h = lowest_clear-lt t.valid_bitmap v.word room in
        rw e (
          Appended.stored i _ h
            (ground (arith, v.marks i h, bit-lowest_clear t.valid_bitmap v.word room))
            (λ j k.
              ground (arith, v.marks j, bit_below-lowest_clear t.valid_bitmap v.word j room k))
            (append-IsTable i obj h real)
            (λ j. ground (arith, v.slots, get_or-set t.objlist i obj j 0)))
  ]

  -- On a well-formed table, at an index below 32, DeleteFromHandleTable hands out what the slot held, empties that slot alone, and keeps the table
  -- well formed.
  pub delete_from_handle_table_lem :
      (i : ℕ)
      → i < max_obj_per_process
      → let (target, t') = delete_from_handle_table t i in
        (target ≡ object_at t i)
        × IsTable t'
        × ((j : ℕ) → object_at t' j ≡ (if i == j then null else object_at t j))
  unfolding delete_from_handle_table
  delete_from_handle_table_lem i h = (
    refl,
    record {
      slots = omega (arith, v.slots, length-set t.objlist i null);
      word = clear_bit-lt t.valid_bitmap i v.word;
      marks = λ j k. ground (
        arith,
        v.slots,
        v.marks j k,
        bit-clear_bit t.valid_bitmap i j h k,
        get_or-set t.objlist i null j 0,
      );
    },
    λ j. ground (arith, v.slots, get_or-set t.objlist i null j 0),
  )
