-- ===== src/Text/Search.antt =====
-- Comparison, copies and searches of strings.
pub mod Laws
use dragon_ware.Base.{
  ℕ, zero, suc, ◌+◌, ◌-◌, ◌≤◌, ◌<◌, ◌≡◌, Bool, true, false, List, [], ◌∷◌, ◌++◌, Option, none, some,
  not, ◌&&◌, ◌||◌, ltb, leb, ◌==◌, if◌then◌else◌, length, get_or, min,
}

-- `s[i]`, the terminator behind the last character.
abbrev pub char_at : List ℕ → ℕ → ℕ
char_at s i = get_or s i 0

-- The loop of strnlen, over the rest of the string.
unfoldable pub strnlen : List ℕ → ℕ → ℕ
strnlen s zero = 0
strnlen [] (suc maxlen) = 0
strnlen (c ∷ s) (suc maxlen) = if c == 0 then 0 else strnlen s maxlen + 1

-- The two loops of strncpy, over the `n` characters left from index `i` on: what they write to `dest`.
unfoldable pub strncpy_fill : ℕ → List ℕ
strncpy_fill zero = []
strncpy_fill (suc n) = 0 ∷ strncpy_fill n

unfoldable pub strncpy : List ℕ → ℕ → ℕ → List ℕ
strncpy src zero i = []
strncpy src (suc n) i =
    let rest = strncpy src n (i + 1) in
    if not (char_at src i == 0) then char_at src i ∷ rest else strncpy_fill (suc n)

-- The results -1, 0 and 1.
pub data Order : Type 0 where
  less same greater : Order

pub Order-discrete : Discrete Order
Order-discrete = hlevel

-- The loop of strncmp, over `rounds` rounds from index `i` on.
unfoldable pub strncmp : List ℕ → List ℕ → ℕ → ℕ → Order
strncmp str1 str2 zero i = Order.same
strncmp str1 str2 (suc rounds) i =
    let ac = char_at str1 i in
    let bc = char_at str2 i in
    let rest = strncmp str1 str2 rounds (i + 1) in
    if ac == 0 && bc == 0
    then Order.same
    else if ltb ac bc
    then Order.less
    else if ltb bc ac
    then Order.greater
    else rest

-- The `while (maxcmp--)` of strchr: the index of the character found.
unfoldable pub strchr_loop : List ℕ → ℕ → ℕ → Option ℕ
strchr_loop str c zero = none
strchr_loop str c (suc maxcmp) =
    let rest = strchr_loop str c maxcmp in if char_at str maxcmp == c then some maxcmp else rest

unfoldable pub strchr : List ℕ → ℕ → Option ℕ
strchr str c = strchr_loop str c (length str + 1)

-- The inner loop of strstr: whether it ends at the end of the needle.
unfoldable pub matches_here : List ℕ → List ℕ → Bool
matches_here h [] = true
matches_here [] (d ∷ n) = false
matches_here (c ∷ h) (d ∷ n) = c == d && matches_here h n

-- The outer loop, at index `i` of the haystack.
unfoldable pub strstr_loop : List ℕ → List ℕ → ℕ → Option ℕ
strstr_loop [] needle i = none
strstr_loop (c ∷ haystack) needle i =
    let rest = strstr_loop haystack needle (i + 1) in
    if matches_here (c ∷ haystack) needle then some i else rest

unfoldable pub strstr : List ℕ → List ℕ → Option ℕ
strstr haystack [] = some 0
strstr haystack (d ∷ needle) = strstr_loop haystack (d ∷ needle) 0

-- The loops of StringHasPrefix, at index `i`. Both test the first characters of the strings for the
-- end at each round.
unfoldable pub prefix_loop : List ℕ → List ℕ → ℕ → ℕ → Bool
prefix_loop str prefix zero i = true
prefix_loop str prefix (suc rounds) i =
    let rest = prefix_loop str prefix rounds (i + 1) in
    if char_at str 0 == 0 || char_at prefix 0 == 0
    then true
    else if not (char_at str i == char_at prefix i)
    then false
    else rest

unfoldable pub string_has_prefix : List ℕ → List ℕ → ℕ → Bool
string_has_prefix str prefix maxcmp =
    if maxcmp == 0
    then prefix_loop str prefix (min (length str) (length prefix)) 0
    else prefix_loop str prefix maxcmp 0
