-- ===== src/Kernel/Calls/Translate.antt =====
-- What _DWTranslateHandle gives to the caller.
use dragon_ware.Base.{
  ℕ, zero, suc, ◌+◌, ◌≤◌, ◌<◌, ◌≡◌, refl, ◌≢◌, inl, inr, true, Bool-cases, Option, none, some,
  arith, ◌&&◌, leb, ◌==◌,
}
use dragon_ware.Base.Bits.{is_set}
use dragon_ware.Base.Store.{null, update_self}
use dragon_ware.Status.{Status}
use dragon_ware.Kernel.Table.{HandleTable, object_at, max_obj_per_process, append_to_handle_table}
use dragon_ware.Kernel.Table.Slots.{IsTable, Appended, append_to_handle_table-Appended}
use dragon_ware.Kernel.State.{Kernel, Object, current_process, mapped, is_ok, write_object}
use dragon_ware.Kernel.UserCopy.{copy_to_user}
use dragon_ware.Kernel.Ipc.{find_slot}
use dragon_ware.Kernel.Calls.{adopt, hand_out, translate_handle, find_process_by_id, write_handles}

-- A slot that the search finds holds the object.
pub data FindsSlot (table : HandleTable) (p i n : ℕ) : Option ℕ → Type 0 where
  no_slot : FindsSlot table p i n none
  slot : (j : ℕ) → i ≤ j → j < i + n → object_at table j ≡ p → FindsSlot table p i n (some j)

find_slot-FindsSlot :
    (n i : ℕ) (table : HandleTable) (p : ℕ) → FindsSlot table p i n (find_slot n i table p)
unfolding find_slot
find_slot-FindsSlot zero i table p = FindsSlot.no_slot
find_slot-FindsSlot (suc n) i table p =
    elim (Bool-cases (is_set table.valid_bitmap i && object_at table i == p)) [
      | inl e ↦ rw e (FindsSlot.slot i (omega arith) (omega arith) (ground arith))
      | inr e ↦ rw e (further (find_slot n (i + 1) table p) (find_slot-FindsSlot n (i + 1) table p))
    ]
  where
    further : (r : Option ℕ) → FindsSlot table p (i + 1) n r → FindsSlot table p i (suc n) r
    further none f = FindsSlot.no_slot
    further (some r) (FindsSlot.slot j a b e) = FindsSlot.slot r (omega arith) (omega arith) e

-- The table after the object was adopted: where there is a handle, it is the object's.
pub data Adopted (table : HandleTable) (p : ℕ) : Option ℕ × (HandleTable × Object) → Type 0 where
  no_room : (t : HandleTable) (obj : Object) → Adopted table p (none, (t, obj))
  has :
      (i : ℕ) (t : HandleTable) (obj : Object)
      → i < max_obj_per_process
      → object_at t i ≡ p
      → ((j : ℕ) → object_at table j ≢ null → object_at t j ≡ object_at table j)
      → Adopted table p (some i, (t, obj))

adopt-Adopted :
    (table : HandleTable) (p : ℕ) (obj : Object)
    → IsTable table
    → p ≢ null
    → Adopted table p (adopt table p obj)
unfolding adopt
adopt-Adopted table p obj v ne =
    choose (find_slot max_obj_per_process 0 table p)
      (find_slot-FindsSlot max_obj_per_process 0 table p) (append_to_handle_table table p)
      (append_to_handle_table-Appended v p ne)
  where
    choose :
        (r : Option ℕ)
        → FindsSlot table p 0 max_obj_per_process r
        → (out : Option ℕ × HandleTable) → Appended table p out
        → Adopted table p (elim r as (λ x. Option ℕ × (HandleTable × Object)) [
          | some i ↦ (some i, (table, obj))
          | none ↦ elim out.0 [
            | some i ↦ (some i, (out.1, record obj { refcnt = obj.refcnt + 1 }))
            | none ↦ (none, (out.1, obj))
          ]
        ])
    choose (some r) (FindsSlot.slot j a b e) out app =
        Adopted.has r table obj (omega arith) e (λ j h. refl)
    choose none f out (Appended.full h) = Adopted.no_room table obj
    choose none f out (Appended.stored i t l free low valid written) =
        Adopted.has i t _ l (ground (arith, written i)) (λ j h. ground (arith, written j, free))

-- The caller's word at `save` is a handle, and names the object that the other process's handle names;
-- the caller's other handles are as they were.
pub record Shares (k k' : Kernel) (of handle_of save : ℕ) : Type 0 where
  pub in_table : k'.user_words save < max_obj_per_process
  pub names :
      object_at (k'.processes (current_process k)).handles (k'.user_words save)
      ≡ object_at (k.processes (find_process_by_id k of)).handles handle_of
  pub kept :
      (j : ℕ)
      → object_at (k.processes (current_process k)).handles j ≢ null
      → object_at (k'.processes (current_process k)).handles j
        ≡ object_at (k.processes (current_process k)).handles j

hand_out-Shares :
    (k k' : Kernel) (of handle_of save i : ℕ) (t : HandleTable)
    → i < max_obj_per_process
    → object_at t i ≡ object_at (k.processes (find_process_by_id k of)).handles handle_of
    → ((j : ℕ)
        → object_at (k.processes (current_process k)).handles j ≢ null
        → object_at t j ≡ object_at (k.processes (current_process k)).handles j)
    → (k'.processes (current_process k)).handles ≡ t
    → (p : ℕ) → (hand_out k' (current_process k) p i save).0 ≡ Status.ok
    → Shares k (hand_out k' (current_process k) p i save).1 of handle_of save
unfolding hand_out
hand_out-Shares k k' of handle_of save i t l e kept h p ok =
    elim (Bool-cases (is_ok (copy_to_user (mapped k') save 4))) [
      | inr bad ↦ absurd (ground arith)
      | inl fine ↦ rw fine (record {
        in_table = rw (update_self k'.user_words save i) l;
        names = rw (update_self k'.user_words save i, h) e;
        kept = λ j ne. rw h (kept j ne);
      })
    ]

-- Where _DWTranslateHandle says STATUS_OK, and the caller's handle table is well formed, the caller has
-- a handle, written to its memory, of the object that the other process's handle names (or, translating
-- its own handle, gets that one back), and all its other handles name what they named.
pub translate_handle-Shares :
    (k : Kernel) (of handle_of save : ℕ)
    → IsTable (k.processes (current_process k)).handles
    → (translate_handle k of handle_of save).0 ≡ Status.ok
    → Shares k (translate_handle k of handle_of save).1 of handle_of save
unfolding translate_handle
translate_handle-Shares k of handle_of save v ok =
    let origin = find_process_by_id k of in
    let this = current_process k in
    let p = object_at (k.processes origin).handles handle_of in
    elim (Bool-cases (of == 0)) [
      | inl a ↦ absurd (ground arith)
      | inr a ↦ elim (Bool-cases (leb max_obj_per_process handle_of)) [
        | inl b ↦ absurd (ground arith)
        | inr b ↦ elim (Bool-cases (origin == this)) [
          | inl c ↦
              let same : origin ≡ this = ground arith in
              let fine : is_ok (copy_to_user (mapped k) save 4) ≡ true = ground arith in
              rw (a, b, c, fine)
                (record {
                  in_table = rw (update_self k.user_words save handle_of) (ground arith);
                  names = rw (update_self k.user_words save handle_of, same) refl;
                  kept = λ j ne. refl;
                })
          | inr c ↦ elim (Bool-cases (origin == null)) [
            | inl d ↦ absurd (ground arith)
            | inr d ↦ elim (Bool-cases (p == null)) [
              | inl e ↦ absurd (ground arith)
              | inr e ↦
                  rw (a, b, c, d, e)
                    (adopted (adopt (k.processes this).handles p (k.objects p))
                      (adopt-Adopted (k.processes this).handles p (k.objects p) v (ground arith))
                      (rw (a, b, c, d, e) at ok))
            ]
          ]
        ]
      ]
    ]
  where
    adopted :
        (out : Option ℕ × (HandleTable × Object))
        → Adopted
            (k.processes (current_process k)).handles
            (object_at (k.processes (find_process_by_id k of)).handles handle_of)
            out
        → let k' =
            write_object
              (write_handles k (current_process k) out.1.0)
              (object_at (k.processes (find_process_by_id k of)).handles handle_of)
              out.1.1 in
          let result : Status × Kernel = elim out.0 [
            | none ↦ (Status.out_of_memory, k')
            | some h ↦
                hand_out k'
                  (current_process k)
                  (object_at (k.processes (find_process_by_id k of)).handles handle_of)
                  h
                  save
          ] in
          result.0 ≡ Status.ok → Shares k result.1 of handle_of save
    adopted out (Adopted.no_room t obj) ok = absurd (ground arith)
    adopted out (Adopted.has i t obj l e kept) ok =
        hand_out-Shares k _ of handle_of save i t l e kept
          (rw
            (update_self k.processes (current_process k)
              (record (k.processes (current_process k)) { handles = t }))
            refl)
          _ ok
