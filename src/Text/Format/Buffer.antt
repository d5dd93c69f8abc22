-- ===== src/Text/Format/Buffer.antt =====
-- What vsnprintf leaves in its buffer: the formatted text, cut to the buffer's size.
use dragon_ware.Base.{
  ℕ, suc, ◌+◌, ◌-◌, ◌%◌, ◌^◌, ◌≤◌, ◌<◌, ◌≡◌, refl, ap, sym, ◌∙◌, ◌≢◌, inl, inr, Bool, true, false,
  Bool-cases, List, [], ◌∷◌, ◌++◌, Option, none, some, arith, ◌&&◌, ◌||◌, ltb, leb, ◌==◌,
  if◌then◌else◌, length, length-set, get_or, min,
}
use dragon_ware.Base.Words.{add32, two32}
use dragon_ware.Base.Arrays.{get_or-set}
use dragon_ware.Text.Number.{digits_put}
use dragon_ware.Text.Format.{
  Argument, number, text, Output, bputc, put_all, text_or_null, bputs, bputud, next_number,
  next_text, convert, format_loop, int_max, finish, vsnprintf,
}

-- The text of one conversion, and the arguments behind those that it takes.
unfoldable pub converted : ℕ → List Argument → Option (List ℕ × List Argument)
converted f args =
    if f == 37
    then some (37 ∷ [], args)
    else if f == 99
    then next_number args (λ c rest. some (c % 256 ∷ [], rest))
    else if f == 115
    then next_text args (λ s rest. some (text_or_null s, rest))
    else if f == 100 || f == 105
    then next_number args (λ v rest.
      if leb (2 ^ 31) v
      then some (45 ∷ digits_put (two32 - v) 10 false, rest)
      else some (digits_put v 10 false, rest))
    else if f == 117
    then next_number args (λ v rest. some (digits_put v 10 false, rest))
    else if f == 120
    then next_number args (λ v rest. some (digits_put v 16 false, rest))
    else if f == 88
    then next_number args (λ v rest. some (digits_put v 16 true, rest))
    else if f == 112 || f == 114
    then next_number args (λ v rest. some (48 ∷ 120 ∷ digits_put v 16 false, rest))
    else if f == 102
    then some ([], args)
    else some (37 ∷ f ∷ [], args)

abbrev pub prepend : List ℕ → Option (List ℕ) → Option (List ℕ)
prepend cs none = none
prepend cs (some ds) = some (cs ++ ds)

-- The text that a format denotes, with no buffer.
unfoldable pub formatted : Bool → List ℕ → List Argument → Option (List ℕ)
formatted escaped [] args = some []
formatted false (c ∷ fmt) args =
    if c == 37 then formatted true fmt args else prepend (c ∷ []) (formatted false fmt args)
formatted true (c ∷ fmt) args = elim (converted c args) [
  | none ↦ none
  | some (cs, rest) ↦ prepend cs (formatted false fmt rest)
]

put_all_append :
    (size : ℕ) (xs ys : List ℕ) (out : Output)
    → put_all size (xs ++ ys) out ≡ put_all size ys (put_all size xs out)
unfolding put_all
put_all_append size [] ys out = refl
put_all_append size (x ∷ xs) ys out = put_all_append size xs ys (bputc size x out)

abbrev put_converted :
    ℕ → Output → Option (List ℕ × List Argument) → Option (Output × List Argument)
put_converted size out none = none
put_converted size out (some (cs, rest)) = some (put_all size cs out, rest)

convert-converted :
    (size f : ℕ) (args : List Argument) (out : Output)
    → convert size f args out ≡ put_converted size out (converted f args)
unfolding convert converted bputs bputud put_all
convert-converted size f [] out = ground arith
convert-converted size f (number v ∷ args) out = ground arith
convert-converted size f (text s ∷ args) out = ground arith

abbrev put_text : ℕ → Output → Option (List ℕ) → Option Output
put_text size out none = none
put_text size out (some cs) = some (put_all size cs out)

put_text-prepend :
    (size : ℕ) (cs : List ℕ) (t : Option (List ℕ)) (out : Output)
    → put_text size out (prepend cs t) ≡ put_text size (put_all size cs out) t
put_text-prepend size cs none out = refl
put_text-prepend size cs (some ds) out = ap some (put_all_append size cs ds out)

format_loop-formatted :
    (size : ℕ) (escaped : Bool) (fmt : List ℕ) (args : List Argument) (out : Output)
    → format_loop size escaped fmt args out ≡ put_text size out (formatted escaped fmt args)
unfolding format_loop formatted put_all
format_loop-formatted size false [] args out = refl
format_loop-formatted size true [] args out = refl
format_loop-formatted size false (c ∷ fmt) args out = elim (Bool-cases (c == 37)) [
  | inl e ↦ rw e (format_loop-formatted size true fmt args out)
  | inr e ↦ rw e (
      format_loop-formatted size false fmt args (bputc size c out)
      ∙ sym (put_text-prepend size (c ∷ []) (formatted false fmt args) out))
]
format_loop-formatted size true (c ∷ fmt) args out =
    ap
      (λ r. elim r as (λ x. Option Output) [
        | none ↦ none
        | some (out', rest) ↦ format_loop size false fmt rest out'
      ])
      (convert-converted size c args out)
    ∙ (after (converted c args) (λ rest out'. format_loop-formatted size false fmt rest out'))
  where
    after :
        (t : Option (List ℕ × List Argument))
        → ((rest : List Argument) (out' : Output)
            → format_loop size false fmt rest out' ≡ put_text size out' (formatted false fmt rest))
        → (elim (put_converted size out t) as (λ x. Option Output) [
          | none ↦ none
          | some (out', rest) ↦ format_loop size false fmt rest out'
        ])
          ≡ put_text size out (elim t as (λ x. Option (List ℕ)) [
            | none ↦ none
            | some (cs, rest) ↦ prepend cs (formatted false fmt rest)
          ])
    after none ih = refl
    after (some (cs, rest)) ih =
        ih rest (put_all size cs out)
        ∙ sym (put_text-prepend size cs (formatted false fmt rest) out)

-- The bytes after some were put: those that fit, at their places.
put_all-buf :
    (size : ℕ) (cs : List ℕ) (out : Output)
    → length out.buf ≡ size
    → out.idx + length cs < two32
    → ((put_all size cs out).idx ≡ out.idx + length cs)
      × (length (put_all size cs out).buf ≡ size)
      × ((i : ℕ)
          → get_or (put_all size cs out).buf i 0 ≡ (
              if leb out.idx i && ltb i (out.idx + length cs) && ltb i (size - 1)
              then get_or cs (i - out.idx) 0
              else get_or out.buf i 0))
unfolding put_all
put_all-buf size [] out h k = (omega arith, h, λ i. ground arith)
put_all-buf size (c ∷ cs) out h k =
    let next : add32 out.idx 1 ≡ out.idx + 1 = omega arith in
    let len : length (bputc size c out).buf ≡ size = ground (arith, length-set out.buf out.idx c) in
    let (idx, len', bytes) = put_all-buf size cs (bputc size c out) len (omega (arith, k)) in
    (omega (arith, idx), len', λ i. bytes i ∙ put_one c cs i next)
  where
    put_one :
        (c : ℕ) (cs : List ℕ) (i : ℕ)
        → add32 out.idx 1 ≡ out.idx + 1
        → (if leb (add32 out.idx 1) i && ltb i (add32 out.idx 1 + length cs) && ltb i (size - 1)
            then get_or cs (i - add32 out.idx 1) 0
            else get_or (bputc size c out).buf i 0)
          ≡ (if leb out.idx i && ltb i (out.idx + length (c ∷ cs)) && ltb i (size - 1)
              then get_or (c ∷ cs) (i - out.idx) 0
              else get_or out.buf i 0)
    put_one c cs i next = rw next (elim (Bool-cases (i == out.idx)) [
      | inl same ↦ ground (arith, get_or-set out.buf out.idx c i 0)
      | inr other ↦
          let step : leb out.idx i ≡ true
              → get_or (c ∷ cs) (i - out.idx) 0 ≡ get_or cs (i - (out.idx + 1)) 0 =
            λ e. get_or-step c cs (i - out.idx) (i - (out.idx + 1)) (ground arith) in
          ground (arith, get_or-set out.buf out.idx c i 0, step)
    ])
      where
        get_or-step :
            (c : ℕ) (cs : List ℕ) (n m : ℕ) → n ≡ suc m → get_or (c ∷ cs) n 0 ≡ get_or cs m 0
        get_or-step c cs n m e = rw e refl

-- The result of vsnprintf for a text: its length, and the buffer that holds what fits of it, and the
-- terminator, and behind that what it held.
pub record Printed (buf : List ℕ) (size : ℕ) (cs : List ℕ) (out : ℕ × List ℕ) : Type 0 where
  pub count : out.0 ≡ length cs
  pub size_same : length out.1 ≡ size
  pub bytes :
      (i : ℕ)
      → get_or out.1 i 0 ≡ (
          if ltb i (min (length cs) (size - 1))
          then get_or cs i 0
          else if i == min (length cs) (size - 1)
          then 0
          else get_or buf i 0)

module _ (buf : List ℕ) (size : ℕ) (fits : length buf ≡ size) (room : size ≢ 0) where
  finish-Printed :
      (cs : List ℕ)
      → length cs ≤ int_max
      → Printed buf size cs (finish size (put_all size cs (record { buf = buf; idx = 0 })))
  finish-Printed cs h =
      let start : Output = record { buf = buf; idx = 0 } in
      let (idx, len, bytes) = put_all-buf size cs start fits (omega arith) in
      let buf' = (put_all size cs start).buf in
      record {
        count = ground (arith, idx);
        size_same =
            ground (arith, idx, len, length-set buf' (size - 1) 0, length-set buf' (length cs) 0);
        bytes = λ i. ground (
          arith,
          idx,
          len,
          bytes i,
          get_or-set buf' (size - 1) 0 i 0,
          get_or-set buf' (length cs) 0 i 0,
        );
      }

  -- vsnprintf into a buffer of `size` bytes, not 0, where the format and its arguments denote a text of
  -- at most INT_MAX characters: it returns the text's length, and the buffer holds the text, or what
  -- fits of it with room for the terminator, then the terminator, and else what it held.
  pub vsnprintf-Printed :
      (fmt : List ℕ) (args : List Argument) (cs : List ℕ)
      → formatted false fmt args ≡ some cs
      → length cs ≤ int_max
      → (out : ℕ × List ℕ) × (vsnprintf buf size fmt args ≡ some out) × Printed buf size cs out
  unfolding vsnprintf
  vsnprintf-Printed fmt args cs e h =
      let start : Output = record { buf = buf; idx = 0 } in
      let same : format_loop size false fmt args start ≡ some (put_all size cs start) =
        format_loop-formatted size false fmt args start ∙ ap (put_text size start) e in
      (
        finish size (put_all size cs start),
        ap
            (λ r. elim r as (λ x. Option (ℕ × List ℕ)) [
              | none ↦ none
              | some out ↦ some (finish size out)
            ])
            same,
        finish-Printed cs h,
      )
