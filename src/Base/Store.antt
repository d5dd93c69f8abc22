-- ===== src/Base/Store.antt =====
-- Memory that holds records of one type: a function from addresses. Address 0 is `NullPointer`.
use dragon_ware.Base.{ℕ, ◌≡◌, ◌≢◌, arith, ◌==◌, if◌then◌else◌}

abbrev pub null : ℕ
null = 0

module _ {ℓ} {A : Type ℓ} where
  -- The store after a write through pointer `p`.
  abbrev pub update : (ℕ → A) → ℕ → A → ℕ → A
  update f p v q = if p == q then v else f q

  pub update_self : (f : ℕ → A) (p : ℕ) (v : A) → update f p v p ≡ v
  update_self f p v = ground arith

  pub update_ne : (f : ℕ → A) (p : ℕ) (v : A) (q : ℕ) → q ≢ p → update f p v q ≡ f q
  update_ne f p v q h = ground arith
