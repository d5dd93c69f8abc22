-- ===== src/Device/Siblings.antt =====
-- Lists of siblings, and the search of a list for a name.
use dragon_ware.Base.{ℕ, zero, suc, ◌<◌, ◌≡◌, refl, ◌≢◌, List, [], ◌∷◌, arith, length}
use dragon_ware.Base.Store.{null}
use dragon_ware.Text.Search.{Order, Order-discrete}
use dragon_ware.Text.Search.Laws.{IsText}
use dragon_ware.Text.Compare.{strcmp, strcmp_same}
use dragon_ware.Device.{DeviceManagerNode, find_sibling}

module _ (nodes : ℕ → DeviceManagerNode) where
  -- From `p` the links lead through `xs` to the null pointer.
  abbrev pub Linked : ℕ → List ℕ → Type 0
  Linked p [] = p ≡ null
  Linked p (x ∷ xs) = (p ≡ x) × (x ≢ null) × Linked (nodes x).next xs

  -- The first of the nodes with a name, or the null pointer.
  pub data FirstNamed (name : List ℕ) : List ℕ → ℕ → Type 0 where
    absent : FirstNamed name [] null
    here : {x : ℕ} {xs : List ℕ} → (nodes x).name ≡ name → FirstNamed name (x ∷ xs) x
    there :
        {x r : ℕ} {xs : List ℕ}
        → (nodes x).name ≢ name
        → FirstNamed name xs r
        → FirstNamed name (x ∷ xs) r

  find_sibling_here :
      (fuel : ℕ) (token : List ℕ) (p : ℕ)
      → p ≢ null
      → strcmp (nodes p).name token ≡ Order.same
      → find_sibling (suc fuel) nodes token p ≡ p
  unfolding find_sibling
  find_sibling_here fuel token p ne e = ground arith

  find_sibling_there :
      (fuel : ℕ) (token : List ℕ) (p : ℕ)
      → p ≢ null
      → strcmp (nodes p).name token ≢ Order.same
      → find_sibling (suc fuel) nodes token p ≡ find_sibling fuel nodes token (nodes p).next
  unfolding find_sibling
  find_sibling_there fuel token p ne other = ground arith

  find_sibling_null : (fuel : ℕ) (token : List ℕ) → find_sibling (suc fuel) nodes token null ≡ null
  unfolding find_sibling
  find_sibling_null fuel token = refl

  pub find_sibling-FirstNamed :
      (fuel : ℕ) (token : List ℕ) (p : ℕ) (xs : List ℕ)
      → ((q : ℕ) → IsText (nodes q).name)
      → IsText token
      → Linked p xs
      → length xs < fuel
      → FirstNamed token xs (find_sibling fuel nodes token p)
  find_sibling-FirstNamed zero token p xs named t l h = absurd (omega arith)
  find_sibling-FirstNamed (suc fuel) token p [] named t l h =
      rw (l, find_sibling_null fuel token) FirstNamed.absent
  find_sibling-FirstNamed (suc fuel) token p (x ∷ xs) named t (e, ne, l) h =
      let same = strcmp_same (nodes x).name token (named x) t in
      rw e (elim (Order-discrete (strcmp (nodes x).name token) Order.same) [
        | yes eq ↦ rw (find_sibling_here fuel token x ne eq) (FirstNamed.here (same.0 eq))
        | no other ↦ rw (find_sibling_there fuel token x ne other) (
            FirstNamed.there (λ n. other (same.1 n))
              (find_sibling-FirstNamed fuel token (nodes x).next xs named t l (omega arith)))
      ])

  pub FirstNamed-mem :
      {name : List ℕ} {xs : List ℕ} {r : ℕ}
      → FirstNamed name xs r
      → r ≢ null
      → (nodes r).name ≡ name
  FirstNamed-mem FirstNamed.absent ne = absurd (ne refl)
  FirstNamed-mem (FirstNamed.here e) ne = e
  FirstNamed-mem (FirstNamed.there n f) ne = FirstNamed-mem f ne
