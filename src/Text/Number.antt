-- ===== src/Text/Number.antt =====
-- Numerals: itoa, itoa_z and bputud.
pub mod Digits
use dragon_ware.Base.{
  ℕ, zero, suc, ◌+◌, ◌-◌, ◌*◌, ◌/◌, ◌%◌, ◌^◌, ◌≡◌, Bool, true, false, List, [], ◌∷◌, ◌++◌, not,
  ◌||◌, ltb, ◌==◌, if◌then◌else◌,
}

-- `'0' + digit`, or the letter from `'a'` (or `'A'`) on.
abbrev pub digit_char : Bool → ℕ → ℕ
digit_char upper digit =
    if ltb digit 10 then 48 + digit else (if upper then 65 else 97) + digit - 10

-- The loop that divides by the base: the characters of the buffer, the last digit first.
unfoldable pub digits_loop : ℕ → Bool → ℕ → ℕ → List ℕ
digits_loop zero upper base value = []
digits_loop (suc fuel) upper base value =
    let rest = digits_loop fuel upper base (value / base) in
    if value == 0 then [] else digit_char upper (value % base) ∷ rest

-- The loop that copies the buffer from its end.
abbrev pub reversed : List ℕ → List ℕ
reversed [] = []
reversed (c ∷ cs) = reversed cs ++ (c ∷ [])

-- The text that `itoa` leaves in `str`, of an `unsigned int`.
unfoldable pub itoa : ℕ → ℕ → List ℕ
itoa value base =
    if ltb base 2 || ltb 16 base
    then []
    else if value == 0
    then 48 ∷ []
    else reversed (digits_loop 32 false base value)

-- The same of a `u64`.
unfoldable pub itoa_z : ℕ → ℕ → List ℕ
itoa_z value base =
    if ltb base 2 || ltb 16 base
    then []
    else if value == 0
    then 48 ∷ []
    else reversed (digits_loop 64 false base value)

-- The characters that `bputud` puts, in their order.
unfoldable pub digits_put : ℕ → ℕ → Bool → List ℕ
digits_put v base upper =
    if ltb base 2 || ltb 16 base
    then []
    else if v == 0
    then 48 ∷ []
    else reversed (digits_loop 64 upper base v)
