-- ===== src/Kernel/Object/Delete.antt =====
-- What deleting an object does to the others.
use dragon_ware.Base.{
  ℕ, ◌-◌, ◌≤◌, ◌<◌, ◌≡◌, refl, ◌≢◌, inl, inr, Bool-cases, List, ◌∷◌, arith, ltb, ◌==◌,
}
use dragon_ware.Base.Store.{null, update_self, update_ne}
use dragon_ware.Kernel.State.{Kernel, ObjectType}
use dragon_ware.Kernel.Port.{delete_port}
use dragon_ware.Kernel.Object.{delete_section_at, delete_payload, delete_object}

-- What DeleteObject does with the object at `p`.
pub data Deleted (k : Kernel) (p : ℕ) (k' : Kernel) : Type 0 where
  still_held :
      1 < (k.objects p).refcnt
      → (k'.objects p).refcnt ≡ (k.objects p).refcnt - 1
      → (k'.objects p).payload ≡ (k.objects p).payload
      → ((q : ℕ) → q ≢ p → k'.objects q ≡ k.objects q)
      → k'.freed ≡ k.freed
      → k'.port_list ≡ k.port_list
      → k'.sched ≡ k.sched
      → Deleted k p k'
  gone :
      (rest : List ℕ)
      → (k.objects p).refcnt ≤ 1
      → k'.freed ≡ p ∷ rest
      → k'.objects ≡ k.objects
      → k'.processes ≡ k.processes
      → Deleted k p k'

delete_payload-objects :
    (fuel : ℕ) (k : Kernel) (type : ObjectType) (p : ℕ)
    → ((delete_payload fuel k type p).objects ≡ k.objects)
      × ((delete_payload fuel k type p).processes ≡ k.processes)
unfolding delete_payload delete_section_at delete_port
delete_payload-objects fuel k ObjectType.unknown p = (refl, refl)
delete_payload-objects fuel k ObjectType.device p = (refl, refl)
delete_payload-objects fuel k ObjectType.port p = (ground arith, ground arith)
delete_payload-objects fuel k ObjectType.section p = (ground arith, ground arith)
delete_payload-objects fuel k ObjectType.thread p = (refl, refl)
delete_payload-objects fuel k ObjectType.invalid p = (refl, refl)

-- DeleteObject of an object that other handles refer to counts it down, and leaves what it holds, the
-- ports, the threads and the other objects; the last deletion frees it, and rewrites no object and no
-- handle table.
pub delete_object-Deleted : (fuel : ℕ) (k : Kernel) (p : ℕ) → Deleted k p (delete_object fuel k p)
unfolding delete_object
delete_object-Deleted fuel k p = elim (Bool-cases (ltb 1 (k.objects p).refcnt)) [
  | inl e ↦ rw e (
      Deleted.still_held (ground arith)
        (rw (update_self k.objects p (record (k.objects p) { refcnt = (k.objects p).refcnt - 1 }))
          refl)
        (rw (update_self k.objects p (record (k.objects p) { refcnt = (k.objects p).refcnt - 1 }))
          refl)
        (λ q ne. update_ne k.objects p _ q ne) refl refl refl)
  | inr e ↦
      let (objects, processes) =
        delete_payload-objects fuel k (k.objects p).type (k.objects p).payload in
      rw e (elim (Bool-cases ((k.objects p).payload == null)) [
        | inl bare ↦ rw bare (Deleted.gone k.freed (ground arith) refl refl refl)
        | inr held ↦ rw held (Deleted.gone _ (ground arith) refl objects processes)
      ])
]
