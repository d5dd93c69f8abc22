-- ===== src/Text/Number/Digits.antt =====
-- A numeral denotes its number.
use native.Mathlib.Nat.{
  pow-suc, div-mul-le_self, mul-le-mul_left, mod-lt, div-le_self, div-add-mod, mul_comm,
}
use dragon_ware.Base.{
  ℕ, zero, suc, ◌+◌, ◌-◌, ◌*◌, ◌/◌, ◌%◌, ◌^◌, ◌≤◌, ◌<◌, ◌≡◌, refl, ap, ◌∙◌, ◌≢◌, inl, inr, Bool,
  true, false, Bool-cases, List, [], ◌∷◌, ◌++◌, arith, ◌||◌, ltb, ◌==◌, if◌then◌else◌, length,
}
use dragon_ware.Text.Number.{digit_char, digits_loop, reversed, itoa, itoa_z, digits_put}

-- The digit that a character stands for.
abbrev pub digit_value : ℕ → ℕ
digit_value c = if ltb c 58 then c - 48 else if ltb c 97 then c - 55 else c - 87

-- A numeral read from the left, `acc` the number so far.
abbrev pub read_number : ℕ → ℕ → List ℕ → ℕ
read_number base acc [] = acc
read_number base acc (c ∷ cs) = read_number base (acc * base + digit_value c) cs

read_number-snoc :
    (base acc : ℕ) (cs : List ℕ) (c : ℕ)
    → read_number base acc (cs ++ (c ∷ [])) ≡ read_number base acc cs * base + digit_value c
read_number-snoc base acc [] c = refl
read_number-snoc base acc (d ∷ cs) c = read_number-snoc base (acc * base + digit_value d) cs c

digit_value-digit_char : (upper : Bool) (d : ℕ) → d < 16 → digit_value (digit_char upper d) ≡ d
digit_value-digit_char true d h = ground arith
digit_value-digit_char false d h = ground arith

-- A quotient is below the power before.
quotient-lt : (value base fuel : ℕ) → 2 ≤ base → value < 2 ^ suc fuel → value / base < 2 ^ fuel
quotient-lt value base fuel h k =
    omega (arith, pow-suc 2 fuel, div-mul-le_self value base, mul-le-mul_left (value / base) h)

remainder-lt : (value base : ℕ) → 2 ≤ base → base ≤ 16 → value % base < 16
remainder-lt value base h k = omega (arith, mod-lt value {m = base} (omega arith))

zero-div : (base : ℕ) → 2 ≤ base → 0 / base ≡ 0
zero-div base h = omega (arith, div-le_self 0 base)

digits_loop-zero : (fuel base : ℕ) (upper : Bool) → digits_loop fuel upper base 0 ≡ []
unfolding digits_loop
digits_loop-zero zero base upper = refl
digits_loop-zero (suc fuel) base upper = refl

module _ (upper : Bool) (base : ℕ) (lo : 2 ≤ base) (hi : base ≤ 16) where
  read_number-digits_loop :
      (fuel value : ℕ)
      → value < 2 ^ fuel
      → read_number base 0 (reversed (digits_loop fuel upper base value)) ≡ value
  unfolding digits_loop
  read_number-digits_loop zero value h = omega arith
  read_number-digits_loop (suc fuel) value h = elim (Bool-cases (value == 0)) [
    | inl e ↦ rw e (ground arith)
    | inr e ↦ rw e (
        read_number-snoc base 0 (reversed (digits_loop fuel upper base (value / base)))
          (digit_char upper (value % base))
        ∙ omega (
          arith,
          ap (λ n. n * base)
              (read_number-digits_loop fuel (value / base) (quotient-lt value base fuel lo h)),
          digit_value-digit_char upper (value % base) (remainder-lt value base lo hi),
          div-add-mod value base,
          mul_comm base (value / base),
        ))
  ]

  digits_loop-leading :
      (fuel value : ℕ)
      → value < 2 ^ fuel
      → value ≢ 0
      → (c : ℕ) × (cs : List ℕ) × (reversed (digits_loop fuel upper base value) ≡ c ∷ cs) × (c ≢ 48)
  unfolding digits_loop
  digits_loop-leading zero value h ne = absurd (omega arith)
  digits_loop-leading (suc fuel) value h ne =
      let some_value : (value == 0) ≡ false = ground arith in
      let d = digit_char upper (value % base) in
      let small = remainder-lt value base lo hi in
      rw some_value (elim (Bool-cases (value / base == 0)) [
        | inl e ↦
            let last : value / base ≡ 0 = ground arith in
            let digit : value % base ≢ 0 =
              omega (arith, div-add-mod value base, ap (λ n. base * n) last) in
            let none_left : digits_loop fuel upper base (value / base) ≡ [] =
              rw last (digits_loop-zero fuel base upper) in
            (d, [], rw none_left refl, leading_digit upper (value % base) small digit)
        | inr e ↦
            let (c, cs, eq, fine) =
              digits_loop-leading fuel (value / base) (quotient-lt value base fuel lo h)
                (ground arith) in
            (c, cs ++ (d ∷ []), rw eq refl, fine)
      ])
    where
      leading_digit : (upper : Bool) (n : ℕ) → n < 16 → n ≢ 0 → digit_char upper n ≢ 48
      leading_digit true n h k = ground arith
      leading_digit false n h k = ground arith

length-snoc : (cs : List ℕ) (c : ℕ) → length (cs ++ (c ∷ [])) ≡ length cs + 1
length-snoc [] c = refl
length-snoc (d ∷ cs) c = omega (arith, length-snoc cs c)

length-reversed : (cs : List ℕ) → length (reversed cs) ≡ length cs
length-reversed [] = refl
length-reversed (c ∷ cs) = omega (arith, length-snoc (reversed cs) c, length-reversed cs)

length-digits_loop-le :
    (fuel value base : ℕ) (upper : Bool) → length (digits_loop fuel upper base value) ≤ fuel
unfolding digits_loop
length-digits_loop-le zero value base upper = omega arith
length-digits_loop-le (suc fuel) value base upper =
    ground (arith, length-digits_loop-le fuel (value / base) base upper)

-- `text` is the numeral of a number, with no leading zero, of at most `width` characters.
pub record IsNumeral (width base value : ℕ) (text : List ℕ) : Type 0 where
  pub denotes : read_number base 0 text ≡ value
  pub fits : length text ≤ width
  pub leading : (c : ℕ) × (cs : List ℕ) × (text ≡ c ∷ cs) × (value ≢ 0 → c ≢ 48)

numeral :
    (upper : Bool) (base width value : ℕ)
    → 2 ≤ base
    → base ≤ 16
    → 1 ≤ width
    → value < 2 ^ width
    → IsNumeral width base value
        (if value == 0 then 48 ∷ [] else reversed (digits_loop width upper base value))
numeral upper base width value lo hi w h = elim (Bool-cases (value == 0)) [
  | inl e ↦
      rw e
        (record { denotes = ground arith; fits = w; leading = (48, [], refl, λ ne. ground arith) })
  | inr e ↦
      let ne : value ≢ 0 = ground arith in
      let (c, cs, eq, fine) = digits_loop-leading upper base lo hi width value h ne in
      rw e (record {
        denotes = read_number-digits_loop upper base lo hi width value h;
        fits = omega (
          arith,
          length-reversed (digits_loop width upper base value),
          length-digits_loop-le width value base upper,
        );
        leading = (c, cs, eq, λ x. fine);
      })
]

module _ (value base : ℕ) (lo : 2 ≤ base) (hi : base ≤ 16) where
  good_base : (ltb base 2 || ltb 16 base) ≡ false
  good_base = ground arith

  -- `itoa` of an unsigned int writes its numeral, which has no leading zero and fits the buffer of 32
  -- characters, in every base from 2 to 16.
  pub itoa-IsNumeral : value < 2 ^ 32 → IsNumeral 32 base value (itoa value base)
  unfolding itoa
  itoa-IsNumeral h = rw good_base (numeral false base 32 value lo hi (omega arith) h)

  -- `itoa_z` and the conversions of `vsnprintf` do the same of an u64 with 64 characters.
  pub itoa_z-IsNumeral : value < 2 ^ 64 → IsNumeral 64 base value (itoa_z value base)
  unfolding itoa_z
  itoa_z-IsNumeral h = rw good_base (numeral false base 64 value lo hi (omega arith) h)

  pub digits_put-IsNumeral :
      (upper : Bool) → value < 2 ^ 64 → IsNumeral 64 base value (digits_put value base upper)
  unfolding digits_put
  digits_put-IsNumeral upper h = rw good_base (numeral upper base 64 value lo hi (omega arith) h)
