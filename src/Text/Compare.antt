-- ===== src/Text/Compare.antt =====
-- strcmp, freestanding/string/string.asm, over the rest of each string; behind its end a string reads as
-- its terminator.
use dragon_ware.Base.{
  ℕ, zero, suc, ◌+◌, ◌<◌, ◌≡◌, refl, ◌↔◌, List, [], ◌∷◌, arith, not, ◌==◌, if◌then◌else◌, length,
  get_or, drop,
}
use dragon_ware.Text.Search.{Order}
use dragon_ware.Text.Search.Laws.{IsText}
use dragon_ware.Text.Case.{difference}

-- The loop, on fuel: the length of the first string and one round more.
unfoldable pub strcmp_loop : ℕ → List ℕ → List ℕ → Order
strcmp_loop zero s1 s2 = Order.same
strcmp_loop (suc fuel) s1 s2 =
    let a = get_or s1 0 0 in
    let b = get_or s2 0 0 in
    let rest = strcmp_loop fuel (drop 1 s1) (drop 1 s2) in
    if not (a == b) then difference a b else if a == 0 then Order.same else rest

unfoldable pub strcmp : List ℕ → List ℕ → Order
strcmp s1 s2 = strcmp_loop (length s1 + 1) s1 s2

strcmp_loop_same :
    (fuel : ℕ) (s1 s2 : List ℕ)
    → IsText s1
    → IsText s2
    → length s1 < fuel
    → (strcmp_loop fuel s1 s2 ≡ Order.same) ↔ (s1 ≡ s2)
unfolding strcmp_loop
strcmp_loop_same zero s1 s2 t u h = absurd (omega arith)
strcmp_loop_same (suc fuel) [] [] t u h = (λ k. refl, λ k. refl)
strcmp_loop_same (suc fuel) [] (d ∷ s2) t (IsText.cons ne u) h =
    (λ k. ground arith, λ k. ground arith)
strcmp_loop_same (suc fuel) (c ∷ s1) [] (IsText.cons ne t) u h =
    (λ k. ground arith, λ k. ground arith)
strcmp_loop_same (suc fuel) (c ∷ s1) (d ∷ s2) (IsText.cons ne t) (IsText.cons ne' u) h =
    let (ahead, back) = strcmp_loop_same fuel s1 s2 t u (omega arith) in
    (λ k. ground arith, λ k. ground arith)

-- strcmp of two strings is 0 exactly where they are the same.
pub strcmp_same : (s1 s2 : List ℕ) → IsText s1 → IsText s2 → (strcmp s1 s2 ≡ Order.same) ↔ (s1 ≡ s2)
unfolding strcmp
strcmp_same s1 s2 t u = strcmp_loop_same (length s1 + 1) s1 s2 t u (omega arith)
