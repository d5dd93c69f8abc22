-- ===== src/Mem/Regions/Sort.antt =====
-- The reserved regions in order: sorting leaves the reserved addresses.
use dragon_ware.Base.{
  ℕ, zero, suc, ◌+◌, ◌≤◌, ◌≡◌, refl, ◌∙◌, inl, inr, Bool, false, Bool-cases, List, [], ◌∷◌, arith,
  ◌&&◌, ◌||◌, ltb, leb, length,
}
use dragon_ware.Mem.Regions.{ReservedRegion, exchange, bubble, tail_of, put_front, sort_loop}

-- An address is reserved.
abbrev pub in_reserved : List ReservedRegion → ℕ → Bool
in_reserved [] a = false
in_reserved (r ∷ rs) a = let rest = in_reserved rs a in leb r.start a && ltb a r.stop || rest

-- All of the list starts at `lo` or above.
abbrev pub AllFrom : ℕ → List ReservedRegion → Type 0
AllFrom lo [] = lo ≡ lo
AllFrom lo (r ∷ rs) = (lo ≤ r.start) × AllFrom lo rs

abbrev pub Sorted : List ReservedRegion → Type 0
Sorted [] = 0 ≤ 0
Sorted (r ∷ rs) = AllFrom r.start rs × Sorted rs

pub AllFrom-le : (lo hi : ℕ) (rs : List ReservedRegion) → lo ≤ hi → AllFrom hi rs → AllFrom lo rs
AllFrom-le lo hi [] h a = refl
AllFrom-le lo hi (r ∷ rs) h (b, a) = (omega arith, AllFrom-le lo hi rs h a)

-- The first region starts lowest.
abbrev LeadsAll : List ReservedRegion → Type 0
LeadsAll [] = 0 ≤ 0
LeadsAll (r ∷ rs) = AllFrom r.start rs

exchange-LeadsAll :
    (r : ReservedRegion) (rs : List ReservedRegion) → LeadsAll rs → LeadsAll (exchange r rs)
exchange-LeadsAll r [] l = refl
exchange-LeadsAll r (q ∷ rs) l = elim (Bool-cases (ltb q.start r.start)) [
  | inl e ↦ rw e (ground arith, l)
  | inr e ↦ rw e (ground arith, AllFrom-le r.start q.start rs (ground arith) l)
]

bubble-LeadsAll : (rs : List ReservedRegion) → LeadsAll (bubble rs)
unfolding bubble
bubble-LeadsAll [] = omega arith
bubble-LeadsAll (r ∷ rs) = exchange-LeadsAll r (bubble rs) (bubble-LeadsAll rs)

exchange-AllFrom :
    (lo : ℕ) (r : ReservedRegion) (rs : List ReservedRegion)
    → lo ≤ r.start
    → AllFrom lo rs
    → AllFrom lo (exchange r rs)
exchange-AllFrom lo r [] h a = (h, refl)
exchange-AllFrom lo r (q ∷ rs) h (b, a) = elim (Bool-cases (ltb q.start r.start)) [
  | inl e ↦ rw e (b, (h, a))
  | inr e ↦ rw e (h, (b, a))
]

bubble-AllFrom : (lo : ℕ) (rs : List ReservedRegion) → AllFrom lo rs → AllFrom lo (bubble rs)
unfolding bubble
bubble-AllFrom lo [] a = refl
bubble-AllFrom lo (r ∷ rs) (h, a) = exchange-AllFrom lo r (bubble rs) h (bubble-AllFrom lo rs a)

in_reserved-exchange :
    (r : ReservedRegion) (rs : List ReservedRegion) (a : ℕ)
    → in_reserved (exchange r rs) a ≡ in_reserved (r ∷ rs) a
in_reserved-exchange r [] a = refl
in_reserved-exchange r (q ∷ rs) a = ground arith

in_reserved-bubble :
    (rs : List ReservedRegion) (a : ℕ) → in_reserved (bubble rs) a ≡ in_reserved rs a
unfolding bubble
in_reserved-bubble [] a = refl
in_reserved-bubble (r ∷ rs) a =
    in_reserved-exchange r (bubble rs) a ∙ ground (arith, in_reserved-bubble rs a)

length-bubble : (rs : List ReservedRegion) → length (bubble rs) ≡ length rs
unfolding bubble
length-bubble [] = refl
length-bubble (r ∷ rs) = length-exchange r (bubble rs) ∙ omega (arith, length-bubble rs)
  where
    length-exchange :
        (r : ReservedRegion) (rs : List ReservedRegion) → length (exchange r rs) ≡ length rs + 1
    length-exchange r [] = refl
    length-exchange r (q ∷ rs) = ground arith

pub sort_loop_lem :
    (n : ℕ) (rs : List ReservedRegion)
    → length rs ≤ suc n
    → Sorted (sort_loop n rs)
      × ((lo : ℕ) → AllFrom lo rs → AllFrom lo (sort_loop n rs))
      × ((a : ℕ) → in_reserved (sort_loop n rs) a ≡ in_reserved rs a)
unfolding sort_loop
sort_loop_lem zero [] h = (omega arith, λ lo a. a, λ a. refl)
sort_loop_lem zero (r ∷ []) h = ((refl, omega arith), λ lo a. a, λ a. refl)
sort_loop_lem zero (r ∷ q ∷ rs) h = absurd (omega arith)
sort_loop_lem (suc n) rs h =
    round (bubble rs) (bubble-LeadsAll rs) (λ lo. bubble-AllFrom lo rs) (in_reserved-bubble rs)
      (omega (arith, length-bubble rs)) (λ ts k. sort_loop_lem n ts k)
  where
    round :
        (bs : List ReservedRegion)
        → LeadsAll bs
        → ((lo : ℕ) → AllFrom lo rs → AllFrom lo bs)
        → ((a : ℕ) → in_reserved bs a ≡ in_reserved rs a)
        → length bs ≤ suc (suc n)
        → ((ts : List ReservedRegion)
            → length ts ≤ suc n
            → Sorted (sort_loop n ts)
              × ((lo : ℕ) → AllFrom lo ts → AllFrom lo (sort_loop n ts))
              × ((a : ℕ) → in_reserved (sort_loop n ts) a ≡ in_reserved ts a))
        → Sorted (put_front bs (sort_loop n (tail_of bs)))
          × ((lo : ℕ) → AllFrom lo rs → AllFrom lo (put_front bs (sort_loop n (tail_of bs))))
          × ((a : ℕ) → in_reserved (put_front bs (sort_loop n (tail_of bs))) a ≡ in_reserved rs a)
    round [] l f g k ih =
        let (s, from, same) = ih [] (omega arith) in
        (s, λ lo x. from lo (f lo x), λ a. same a ∙ g a)
    round (b ∷ bs) l f g k ih =
        let (s, from, same) = ih bs (omega arith) in
        (
          (from b.start l, s),
          λ lo x. ((f lo x).0, from lo (f lo x).1),
          λ a. ground (arith, same a, g a),
        )
