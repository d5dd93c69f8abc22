-- ===== src/Base/Segments.antt =====
-- Runs of values of a function: f a, f (a + 1), ...
use dragon_ware.Base.{
  ℕ, zero, suc, ◌+◌, ◌≤◌, ◌<◌, ◌≡◌, refl, ap, sym, ◌∙◌, List, [], ◌∷◌, ◌++◌, arith, length, get_or,
  take, drop,
}

abbrev pub segment : (ℕ → ℕ) → ℕ → ℕ → List ℕ
segment f a zero = []
segment f a (suc n) = f a ∷ segment f (a + 1) n

pub length-segment : (f : ℕ → ℕ) (a n : ℕ) → length (segment f a n) ≡ n
length-segment f a zero = refl
length-segment f a (suc n) = ap suc (length-segment f (a + 1) n)

pub segment_agree :
    (f g : ℕ → ℕ) (a b n : ℕ)
    → ((k : ℕ) → k < n → f (a + k) ≡ g (b + k))
    → segment f a n ≡ segment g b n
segment_agree f g a b zero h = refl
segment_agree f g a b (suc n) h =
    let first : f a ≡ g b = ground (arith, h 0 (omega arith)) in
    let rest =
      segment_agree f g (a + 1) (b + 1) n (λ k lt. ground (arith, h (suc k) (omega arith))) in
    cc

pub segment-append :
    (f : ℕ → ℕ) (a n m : ℕ) → segment f a (n + m) ≡ segment f a n ++ segment f (a + n) m
segment-append f a zero m = ground arith
segment-append f a (suc n) m =
    let e : suc n + m ≡ suc (n + m) = omega arith in
    let e' : a + suc n ≡ (a + 1) + n = omega arith in
    rw (e, e') (ap (λ t. f a ∷ t) (segment-append f (a + 1) n m))

segment-suc :
    (x : ℕ) (xs : List ℕ) (o n : ℕ)
    → segment (λ k. get_or (x ∷ xs) k 0) (suc o) n ≡ segment (λ k. get_or xs k 0) o n
segment-suc x xs o zero = refl
segment-suc x xs o (suc n) =
    let e : suc o + 1 ≡ suc (o + 1) = omega arith in
    rw e (ap (λ t. get_or xs o 0 ∷ t) (segment-suc x xs (o + 1) n))

pub take-drop :
    (xs : List ℕ) (o n : ℕ)
    → o + n ≤ length xs
    → take n (drop o xs) ≡ segment (λ k. get_or xs k 0) o n
take-drop xs o zero h = refl
take-drop [] zero (suc n) h = absurd (omega arith)
take-drop [] (suc o) (suc n) h = absurd (omega arith)
take-drop (x ∷ xs) zero (suc n) h =
    ap (λ t. x ∷ t) (take-drop xs 0 n (omega arith) ∙ sym (segment-suc x xs 0 n))
take-drop (x ∷ xs) (suc o) (suc n) h =
    take-drop xs o (suc n) (omega arith) ∙ sym (segment-suc x xs o (suc n))

pub take_all : (xs : List ℕ) (n : ℕ) → length xs ≡ n → take n xs ≡ xs
take_all [] zero h = refl
take_all [] (suc n) h = refl
take_all (x ∷ xs) zero h = absurd (omega arith)
take_all (x ∷ xs) (suc n) h = ap (λ t. x ∷ t) (take_all xs n (omega arith))

pub get_or-segment : (f : ℕ → ℕ) (a n k : ℕ) → k < n → get_or (segment f a n) k 0 ≡ f (a + k)
get_or-segment f a zero k h = absurd (omega arith)
get_or-segment f a (suc n) zero h = let e : a + 0 ≡ a = omega arith in rw e refl
get_or-segment f a (suc n) (suc k) h =
    let e : a + suc k ≡ a + 1 + k = omega arith in rw e (get_or-segment f (a + 1) n k (omega arith))
