-- ===== src/Text/Tests.antt =====
-- Numerals, formats and searches at small examples.
use dragon_ware.Base.{ℕ, ◌≡◌, refl, true, false, List, [], ◌∷◌, some, arith, replicate}
use dragon_ware.Text.Number.{itoa, digits_put, digits_loop}
use dragon_ware.Text.Number.Digits.{IsNumeral, itoa-IsNumeral}
use dragon_ware.Text.Format.{
  Argument, number, vsnprintf, format_loop, convert, put_all, bputs, bputud,
}
use dragon_ware.Text.Format.Buffer.{formatted, converted, Printed, vsnprintf-Printed}
use dragon_ware.Text.Search.{string_has_prefix, prefix_loop}
use dragon_ware.Text.Search.Laws.{IsText}

-- "%d-%x" of -5 and 255 is "-5-ff"; a buffer of 4 bytes holds "-5-".
abbrev fmt : List ℕ
fmt = 37 ∷ 100 ∷ 45 ∷ 37 ∷ 120 ∷ []

abbrev args : List Argument
args = number 4294967291 ∷ number 255 ∷ []

abbrev shown : List ℕ
shown = 45 ∷ 53 ∷ 45 ∷ 102 ∷ 102 ∷ []

prints : vsnprintf (replicate 4 9) 4 fmt args ≡ some (5, 45 ∷ 53 ∷ 45 ∷ 0 ∷ [])
unfolding vsnprintf format_loop convert put_all bputs bputud digits_put digits_loop
prints = refl

denotes : formatted false fmt args ≡ some shown
unfolding formatted converted digits_put digits_loop
denotes = refl

written : itoa 42 2 ≡ 49 ∷ 48 ∷ 49 ∷ 48 ∷ 49 ∷ 48 ∷ []
unfolding itoa digits_loop
written = refl

itoa-IsNumeral_example : IsNumeral 32 16 255 (itoa 255 16)
itoa-IsNumeral_example = itoa-IsNumeral 255 16 (omega arith) (omega arith) (omega arith)

vsnprintf-Printed_example :
    (out : ℕ × List ℕ) × (vsnprintf (replicate 4 9) 4 fmt args ≡ some out)
    × Printed (replicate 4 9) 4 shown out
vsnprintf-Printed_example =
    vsnprintf-Printed (replicate 4 9) 4 refl (omega arith) fmt args shown denotes (omega arith)

-- "a" has the prefix "ab".
longer_prefix : string_has_prefix (97 ∷ []) (97 ∷ 98 ∷ []) 0 ≡ true
unfolding string_has_prefix prefix_loop
longer_prefix = refl

a-IsText : IsText (97 ∷ [])
a-IsText = IsText.cons (omega arith) IsText.nil
