-- ===== src/Mem/Slab/Tests.antt =====
-- A heap with one slab of 1024-byte objects at 0xC0101000, two of which are free.
use dragon_ware.Base.{
  ℕ, ◌≡◌, refl, ◌≢◌, false, [], ◌∷◌, some, arith, ◌==◌, if◌then◌else◌, replicate,
}
use dragon_ware.Mem.Frame.{blank}
use dragon_ware.Mem.Slab.{
  Slab, Heap, kmalloc, kfree, get_slab_cache_for_size, slab_cache_from, slab_with_room, owner_slab,
  slab_of, slab_on_page,
}
use dragon_ware.Mem.Slab.Objects.{NewSlab, slab_on_page-NewSlab, HasFree, kfree-kmalloc}

abbrev kilobytes : Slab
kilobytes = record {
  free_list = 0xC0101020;
  objstart = 0xC0101020;
  n_objects = 3;
  objsize = 1024;
  next = 0;
}

abbrev heap : Heap
heap = record {
  words = λ q. if q == 0xC0101020 then 0xC0101820 else 0;
  slabs = λ s. kilobytes;
  caches = λ i. if i == 7 then 0xC0101000 else 0;
  heap_bitmap = replicate 4096 1;
  space = record { window = λ i. 0; frames = blank };
  has_pge = false;
}

served : get_slab_cache_for_size 600 ≡ some 7
unfolding get_slab_cache_for_size slab_cache_from
served = refl

first_with_room : slab_with_room 2 heap.slabs (heap.caches 7) ≡ 0xC0101000
unfolding slab_with_room
first_with_room = refl

owner : owner_slab 2 8 heap 0xC0101020 0 ≡ 0xC0101000
unfolding owner_slab slab_of
owner = refl

kfree-kmalloc_example :
    (h' : Heap) × (kmalloc 2 heap 600 ≡ some (0xC0101020, h'))
    × HasFree h' 0xC0101000 (0xC0101820 ∷ [])
    × HasFree (kfree 2 h' 0xC0101020) 0xC0101000 (0xC0101020 ∷ 0xC0101820 ∷ [])
    × ((q : ℕ) → q ≢ 0xC0101020 → (kfree 2 h' 0xC0101020).words q ≡ heap.words q)
kfree-kmalloc_example =
    kfree-kmalloc 2 heap 600 7 0xC0101000 0xC0101020 (0xC0101820 ∷ []) (omega arith) served
      first_with_room (omega arith) (refl, omega arith, (refl, omega arith, refl))
      (omega arith, refl) owner refl

slab_on_page-NewSlab_example :
    (slab : Slab) × (words' : ℕ → ℕ) × (slab_on_page 0xC0102000 8 heap.words ≡ some (slab, words'))
    × NewSlab 0xC0102000 8 heap.words slab words'
slab_on_page-NewSlab_example =
    slab_on_page-NewSlab 0xC0102000 8 heap.words (omega arith) (omega arith) (omega arith)
