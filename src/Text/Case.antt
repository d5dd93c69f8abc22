-- ===== src/Text/Case.antt =====
-- Comparison without regard to case, freestanding/string: tolower, toupper, strcasecmp, strncasecmp. The
-- loops take the rest of each string; behind its end a string reads as its terminator.
use dragon_ware.Base.{
  ℕ, zero, suc, ◌+◌, ◌-◌, ◌<◌, ◌≡◌, refl, ◌↔◌, List, [], ◌∷◌, map, arith, not, ◌&&◌, leb, ltb, ◌==◌,
  if◌then◌else◌, length, get_or, drop,
}
use dragon_ware.Text.Search.{Order}
use dragon_ware.Text.Search.Laws.{IsText}

unfoldable pub tolower : ℕ → ℕ
tolower c = if leb b'A' c && leb c b'Z' then c + 0x20 else c

unfoldable pub toupper : ℕ → ℕ
toupper c = if leb b'a' c && leb c b'z' then c - 0x20 else c

-- The sign of a - b.
abbrev pub difference : ℕ → ℕ → Order
difference a b = if ltb a b then Order.less else if ltb b a then Order.greater else Order.same

unfoldable pub strncasecmp : List ℕ → List ℕ → ℕ → Order
strncasecmp s1 s2 zero = Order.same
strncasecmp s1 s2 (suc n_chars) =
    let a = tolower (get_or s1 0 0) in
    let b = tolower (get_or s2 0 0) in
    let rest = strncasecmp (drop 1 s1) (drop 1 s2) n_chars in
    if not (a == b) then difference a b else if a == 0 then Order.same else rest

-- The loop of strcasecmp, on fuel: the length of the first string and one round more.
unfoldable pub strcasecmp_loop : ℕ → List ℕ → List ℕ → Order
strcasecmp_loop zero s1 s2 = Order.same
strcasecmp_loop (suc fuel) s1 s2 =
    let a = tolower (get_or s1 0 0) in
    let b = tolower (get_or s2 0 0) in
    let rest = strcasecmp_loop fuel (drop 1 s1) (drop 1 s2) in
    if not (a == b) then difference a b else if a == 0 then Order.same else rest

unfoldable pub strcasecmp : List ℕ → List ℕ → Order
strcasecmp s1 s2 = strcasecmp_loop (length s1 + 1) s1 s2

pub tolower_zero : (c : ℕ) → tolower c ≡ 0 → c ≡ 0
unfolding tolower
tolower_zero c h = ground arith

tolower_nul : tolower 0 ≡ 0
unfolding tolower
tolower_nul = refl

-- Two strings of the same length, the first of them with no terminator inside.
pub strncasecmp_same :
    (s1 s2 : List ℕ)
    → IsText s1
    → length s1 ≡ length s2
    → (strncasecmp s1 s2 (length s1) ≡ Order.same) ↔ (map tolower s1 ≡ map tolower s2)
unfolding strncasecmp
strncasecmp_same [] [] t e = (λ _. refl, λ _. refl)
strncasecmp_same [] (d ∷ s2) t e = absurd (omega arith)
strncasecmp_same (c ∷ s1) [] t e = absurd (omega arith)
strncasecmp_same (c ∷ s1) (d ∷ s2) (IsText.cons ne t) e =
    let (ahead, back) = strncasecmp_same s1 s2 t (omega arith) in
    (λ h. ground (arith, tolower_zero c), λ h. ground (arith, tolower_zero c))

-- The text of an array of characters: those before its terminator.
abbrev pub text_of : List ℕ → List ℕ
text_of [] = []
text_of (c ∷ s) = if c == 0 then [] else c ∷ text_of s

strcasecmp_loop_same :
    (fuel : ℕ) (s1 s2 : List ℕ)
    → length s1 < fuel
    → (strcasecmp_loop fuel s1 s2 ≡ Order.same)
      ↔ (map tolower (text_of s1) ≡ map tolower (text_of s2))
unfolding strcasecmp_loop
strcasecmp_loop_same zero s1 s2 h = absurd (omega arith)
strcasecmp_loop_same (suc fuel) [] [] h = (λ k. refl, λ k. ground (arith, tolower_nul))
strcasecmp_loop_same (suc fuel) [] (d ∷ s2) h = (
  λ k. ground (arith, tolower_zero d, tolower_nul),
  λ k. ground (arith, tolower_zero d, tolower_nul),
)
strcasecmp_loop_same (suc fuel) (c ∷ s1) [] h = (
  λ k. ground (arith, tolower_zero c, tolower_nul),
  λ k. ground (arith, tolower_zero c, tolower_nul),
)
strcasecmp_loop_same (suc fuel) (c ∷ s1) (d ∷ s2) h =
    let (ahead, back) = strcasecmp_loop_same fuel s1 s2 (omega arith) in
    (
      λ k. ground (arith, tolower_zero c, tolower_zero d, tolower_nul),
      λ k. ground (arith, tolower_zero c, tolower_zero d, tolower_nul),
    )

pub strcasecmp_same :
    (s1 s2 : List ℕ)
    → (strcasecmp s1 s2 ≡ Order.same) ↔ (map tolower (text_of s1) ≡ map tolower (text_of s2))
unfolding strcasecmp
strcasecmp_same s1 s2 = strcasecmp_loop_same (length s1 + 1) s1 s2 (omega arith)
