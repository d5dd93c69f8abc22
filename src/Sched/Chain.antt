-- ===== src/Sched/Chain.antt =====
-- Linked lists of threads: the list of pointers that `next` strings together.
use dragon_ware.Base.{
  ℕ, ◌≡◌, refl, ◌≢◌, Bool, false, ◌||◌, List, [], ◌∷◌, ◌++◌, arith, ◌==◌, if◌then◌else◌,
}
use dragon_ware.Base.Store.{null, update}
use dragon_ware.Sched.{Thread}

module _ (threads : ℕ → Thread) where
  -- From `p` the links lead through `xs` to the null pointer.
  abbrev pub Chain : ℕ → List ℕ → Type 0
  Chain p [] = p ≡ null
  Chain p (x ∷ xs) = (p ≡ x) × (x ≢ null) × Chain (threads x).next xs

abbrev pub NotIn : ℕ → List ℕ → Type 0
NotIn a [] = Unit {0}
NotIn a (x ∷ xs) = (a ≢ x) × NotIn a xs

abbrev pub Distinct : List ℕ → Type 0
Distinct [] = Unit {0}
Distinct (x ∷ xs) = NotIn x xs × Distinct xs

-- Writes that leave the links of `xs` alone keep the chain.
abbrev pub SameLinks : (ℕ → Thread) → (ℕ → Thread) → List ℕ → Type 0
SameLinks m m' [] = Unit {0}
SameLinks m m' (x ∷ xs) = ((m' x).next ≡ (m x).next) × SameLinks m m' xs

pub Chain-SameLinks :
    (m m' : ℕ → Thread) (p : ℕ) (xs : List ℕ) → Chain m p xs → SameLinks m m' xs → Chain m' p xs
Chain-SameLinks m m' p [] c e = c
Chain-SameLinks m m' p (x ∷ xs) (px, ne, c) (e, es) =
    (px, ne, rw e (Chain-SameLinks m m' (m x).next xs c es))

pub SameLinks-update :
    (m : ℕ → Thread) (p : ℕ) (t : Thread) (xs : List ℕ) → NotIn p xs → SameLinks m (update m p t) xs
SameLinks-update m p t [] n = tt
SameLinks-update m p t (x ∷ xs) (ne, n) = (ground arith, SameLinks-update m p t xs n)

pub SameLinks-update_same :
    (m : ℕ → Thread) (p : ℕ) (t : Thread) (xs : List ℕ)
    → t.next ≡ (m p).next
    → SameLinks m (update m p t) xs
SameLinks-update_same m p t [] e = tt
SameLinks-update_same m p t (x ∷ xs) e = (ground arith, SameLinks-update_same m p t xs e)

pub NotIn-append : (a : ℕ) (xs ys : List ℕ) → NotIn a xs → NotIn a ys → NotIn a (xs ++ ys)
NotIn-append a [] ys n k = k
NotIn-append a (x ∷ xs) ys (ne, n) k = (ne, NotIn-append a xs ys n k)

pub Distinct-append_one :
    (xs : List ℕ) (a : ℕ) → Distinct xs → NotIn a xs → Distinct (xs ++ (a ∷ []))
Distinct-append_one [] a d n = (tt, tt)
Distinct-append_one (x ∷ xs) a (n, d) (ne, k) =
    (NotIn-append x xs (a ∷ []) n ((λ e. ne (omega arith)), tt), Distinct-append_one xs a d k)

-- The list without its element `a`.
abbrev pub remove : ℕ → List ℕ → List ℕ
remove a [] = []
remove a (x ∷ xs) = if a == x then xs else x ∷ remove a xs

pub NotIn-remove : (b a : ℕ) (xs : List ℕ) → NotIn b xs → NotIn b (remove a xs)
NotIn-remove b a [] n = tt
NotIn-remove b a (x ∷ xs) (ne, n) = ground (arith, NotIn-remove b a xs n)

pub Distinct-remove : (a : ℕ) (xs : List ℕ) → Distinct xs → Distinct (remove a xs)
Distinct-remove a [] d = tt
Distinct-remove a (x ∷ xs) (n, d) = ground (arith, NotIn-remove x a xs n, Distinct-remove a xs d)

abbrev pub contains : ℕ → List ℕ → Bool
contains a [] = false
contains a (x ∷ xs) = a == x || contains a xs

pub remove_absent : (a : ℕ) (xs : List ℕ) → contains a xs ≡ false → remove a xs ≡ xs
remove_absent a [] h = refl
remove_absent a (x ∷ xs) h = ground (arith, remove_absent a xs)
