-- ===== src/Text/Format.antt =====
-- Formatted output: bputc, bputs, bputud and vsnprintf. The variable arguments are a list, in which a
-- number stands for what `va_arg` reads of it, an `int` its 32-bit pattern; reading an argument that
-- is not there, or is of the other kind, is undefined in C, and `none` here. The buffer's `size`
-- bytes are a list.
pub mod Buffer
use dragon_ware.Base.{
  ℕ, zero, suc, ◌+◌, ◌-◌, ◌*◌, ◌/◌, ◌%◌, ◌^◌, ◌≤◌, ◌<◌, ◌≡◌, Bool, true, false, List, [], ◌∷◌, ◌++◌,
  Option, none, some, not, ◌&&◌, ◌||◌, ltb, leb, ◌==◌, if◌then◌else◌, set,
}
use dragon_ware.Base.Words.{add32, two32}
use dragon_ware.Text.Number.{digits_put}

pub data Argument : Type 0 where
  number : ℕ → Argument
  text : Option (List ℕ) → Argument

-- The buffer and `idx`.
pub record Output : Type 0 where
  pub buf : List ℕ
  pub idx : ℕ

abbrev pub bputc : ℕ → ℕ → Output → Output
bputc size c out = record out {
  buf = if ltb 0 size && ltb out.idx (size - 1) then set out.buf out.idx c else out.buf;
  idx = add32 out.idx 1;
}

-- `while (*s) bputc(buf, size, idx, *s++)`.
unfoldable pub put_all : ℕ → List ℕ → Output → Output
put_all size [] out = out
put_all size (c ∷ cs) out = put_all size cs (bputc size c out)

-- "(null)".
abbrev pub null_text : List ℕ
null_text = 40 ∷ 110 ∷ 117 ∷ 108 ∷ 108 ∷ 41 ∷ []

abbrev pub text_or_null : Option (List ℕ) → List ℕ
text_or_null none = null_text
text_or_null (some s) = s

unfoldable pub bputs : ℕ → Option (List ℕ) → Output → Output
bputs size s out = put_all size (text_or_null s) out

unfoldable pub bputud : ℕ → ℕ → ℕ → Bool → Output → Output
bputud size v base upper out = put_all size (digits_put v base upper) out

module _ {ℓ} {A : Type ℓ} where
  abbrev pub next_number : List Argument → (ℕ → List Argument → Option A) → Option A
  next_number (number v ∷ args) k = k v args
  next_number _ k = none

  abbrev pub next_text : List Argument → (Option (List ℕ) → List Argument → Option A) → Option A
  next_text (text s ∷ args) k = k s args
  next_text _ k = none

-- The `switch` on the character behind a `%`.
unfoldable pub convert : ℕ → ℕ → List Argument → Output → Option (Output × List Argument)
convert size f args out =
    if f == 37
    then some (bputc size 37 out, args)
    else if f == 99
    then next_number args (λ c rest. some (bputc size (c % 256) out, rest))
    else if f == 115
    then next_text args (λ s rest. some (bputs size s out, rest))
    else if f == 100 || f == 105
    then next_number args (λ v rest.
      if leb (2 ^ 31) v
      then some (bputud size (two32 - v) 10 false (bputc size 45 out), rest)
      else some (bputud size v 10 false out, rest))
    else if f == 117
    then next_number args (λ v rest. some (bputud size v 10 false out, rest))
    else if f == 120
    then next_number args (λ v rest. some (bputud size v 16 false out, rest))
    else if f == 88
    then next_number args (λ v rest. some (bputud size v 16 true out, rest))
    else if f == 112 || f == 114
    then next_number args
        (λ v rest. some (bputud size v 16 false (bputs size (some (48 ∷ 120 ∷ [])) out), rest))
    else if f == 102
    then some (out, args)
    else some (bputc size f (bputc size 37 out), args)

-- The loop over the format, `escaped` behind a `%`. A format that ends in one ends the loop.
unfoldable pub format_loop : ℕ → Bool → List ℕ → List Argument → Output → Option Output
format_loop size escaped [] args out = some out
format_loop size false (c ∷ fmt) args out =
    if c == 37
    then format_loop size true fmt args out
    else format_loop size false fmt args (bputc size c out)
format_loop size true (c ∷ fmt) args out = elim (convert size c args out) [
  | none ↦ none
  | some (out', rest) ↦ format_loop size false fmt rest out'
]

abbrev pub int_max : ℕ
int_max = 2 ^ 31 - 1

-- The terminator, and the result.
abbrev pub finish : ℕ → Output → ℕ × List ℕ
finish size out = (
  if ltb int_max out.idx then int_max else out.idx,
  if ltb 0 size
      then (if leb size out.idx then set out.buf (size - 1) 0 else set out.buf out.idx 0)
      else out.buf,
)

unfoldable pub vsnprintf : List ℕ → ℕ → List ℕ → List Argument → Option (ℕ × List ℕ)
vsnprintf buf maxsize fmt args =
    elim (format_loop maxsize false fmt args (record { buf = buf; idx = 0 })) [
      | none ↦ none
      | some out ↦ some (finish maxsize out)
    ]
