-- ===== src/Device/Names.antt =====
-- The names in a path, and the way down a tree of devices by names.
use dragon_ware.Base.{
  ℕ, zero, suc, ◌≤◌, ◌<◌, ◌≡◌, refl, ap, ◌≢◌, inl, inr, Bool-cases, List, [], ◌∷◌, ◌++◌, arith,
  ◌==◌, length, take, drop,
}
use dragon_ware.Base.Store.{null}
use dragon_ware.Text.Search.Laws.{IsText}
use dragon_ware.Device.{DeviceManagerNode, token_size, skip_slashes, token_length}
use dragon_ware.Device.Siblings.{Linked, FirstNamed}

-- No character is a slash.
pub data NoSlashes : List ℕ → Type 0 where
  nil : NoSlashes []
  cons : {c : ℕ} {s : List ℕ} → c ≢ b'/' → NoSlashes s → NoSlashes (c ∷ s)

-- A rest of a path that is empty, or begins with a slash.
pub data Ended : List ℕ → Type 0 where
  at_end : Ended []
  at_slash : {c : ℕ} (s : List ℕ) → c ≡ b'/' → Ended (c ∷ s)

-- The names in a path: the longest parts with no slash.
pub data Names : List ℕ → List (List ℕ) → Type 0 where
  none_left : Names [] []
  slash : {c : ℕ} {s : List ℕ} {ts : List (List ℕ)} → c ≡ b'/' → Names s ts → Names (c ∷ s) ts
  name :
      {s t rest : List ℕ} {ts : List (List ℕ)}
      → s ≡ t ++ rest
      → t ≢ []
      → NoSlashes t
      → Ended rest
      → Names rest ts
      → Names s (t ∷ ts)

module _ (nodes : ℕ → DeviceManagerNode) where
  -- From a node down the names, each of fewer than 100 characters, to the first child of that name; the null pointer
  -- where there is none.
  pub data Descends : ℕ → List (List ℕ) → ℕ → Type 0 where
    arrived : {node : ℕ} → Descends node [] node
    too_long :
        {node : ℕ} {t : List ℕ} {ts : List (List ℕ)}
        → token_size ≤ length t
        → Descends node (t ∷ ts) null
    lost :
        {node : ℕ} {t : List ℕ} {ts : List (List ℕ)} (children : List ℕ)
        → Linked nodes (nodes node).child children
        → FirstNamed nodes t children null
        → Descends node (t ∷ ts) null
    down :
        {node child r : ℕ} {t : List ℕ} {ts : List (List ℕ)} (children : List ℕ)
        → length t < token_size
        → Linked nodes (nodes node).child children
        → FirstNamed nodes t children child
        → child ≢ null
        → Descends child ts r
        → Descends node (t ∷ ts) r

-- Every node's children form a list shorter than the fuel, and every name is a text.
pub record IsTree (siblings : ℕ) (nodes : ℕ → DeviceManagerNode) : Type 0 where
  pub children : ℕ → List ℕ
  pub linked : (p : ℕ) → Linked nodes (nodes p).child (children p)
  pub bounded : (p : ℕ) → length (children p) < siblings
  pub named : (p : ℕ) → IsText (nodes p).name

pub skip_slashes-Names : (s : List ℕ) (ts : List (List ℕ)) → Names (skip_slashes s) ts → Names s ts
unfolding skip_slashes
skip_slashes-Names [] ts n = n
skip_slashes-Names (c ∷ s) ts n = elim (Bool-cases (c == b'/')) [
  | inl e ↦ Names.slash (ground arith) (skip_slashes-Names s ts (rw e at n))
  | inr e ↦ rw e at n
]

pub length-skip_slashes : (s : List ℕ) → length (skip_slashes s) ≤ length s
unfolding skip_slashes
length-skip_slashes [] = omega arith
length-skip_slashes (c ∷ s) = ground (arith, length-skip_slashes s)

pub IsText-skip_slashes : (s : List ℕ) → IsText s → IsText (skip_slashes s)
unfolding skip_slashes
IsText-skip_slashes [] t = t
IsText-skip_slashes (c ∷ s) (IsText.cons ne t) = elim (Bool-cases (c == b'/')) [
  | inl e ↦ rw e (IsText-skip_slashes s t)
  | inr e ↦ rw e (IsText.cons ne t)
]

-- What is left begins with a name.
pub token_positive : (s : List ℕ) → skip_slashes s ≢ [] → 0 < token_length (skip_slashes s)
unfolding skip_slashes token_length
token_positive [] ne = absurd (ne refl)
token_positive (c ∷ s) ne = elim (Bool-cases (c == b'/')) [
  | inl e ↦ rw e (token_positive s (rw e at ne))
  | inr e ↦ rw (e, e) (omega arith)
]

pub take-NoSlashes : (s : List ℕ) → NoSlashes (take (token_length s) s)
unfolding token_length
take-NoSlashes [] = NoSlashes.nil
take-NoSlashes (c ∷ s) = elim (Bool-cases (c == b'/')) [
  | inl e ↦ rw e NoSlashes.nil
  | inr e ↦ rw e (NoSlashes.cons (ground arith) (take-NoSlashes s))
]

pub drop-Ended : (s : List ℕ) → Ended (drop (token_length s) s)
unfolding token_length
drop-Ended [] = Ended.at_end
drop-Ended (c ∷ s) = elim (Bool-cases (c == b'/')) [
  | inl e ↦ rw e (Ended.at_slash s (ground arith))
  | inr e ↦ rw e (drop-Ended s)
]

pub IsText-take : (n : ℕ) (s : List ℕ) → IsText s → IsText (take n s)
IsText-take zero s t = IsText.nil
IsText-take (suc n) [] t = IsText.nil
IsText-take (suc n) (c ∷ s) (IsText.cons ne t) = IsText.cons ne (IsText-take n s t)

pub IsText-drop : (n : ℕ) (s : List ℕ) → IsText s → IsText (drop n s)
IsText-drop zero s t = t
IsText-drop (suc n) [] t = IsText.nil
IsText-drop (suc n) (c ∷ s) (IsText.cons ne t) = IsText-drop n s t

pub length-take_token : (s : List ℕ) → length (take (token_length s) s) ≡ token_length s
unfolding token_length
length-take_token [] = refl
length-take_token (c ∷ s) = elim (Bool-cases (c == b'/')) [
  | inl e ↦ rw e refl
  | inr e ↦ rw e (ap suc (length-take_token s))
]

pub length_zero : (xs : List ℕ) → length xs ≡ 0 → xs ≡ []
length_zero [] e = refl
length_zero (x ∷ xs) e = absurd (omega arith)
