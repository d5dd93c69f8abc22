-- ===== src/Text/Search/Laws.antt =====
-- What the string routines compute, on strings with no character 0 of their own.
use dragon_ware.Base.{
  ℕ, zero, suc, ◌+◌, ◌≤◌, ◌<◌, ◌≡◌, refl, ap, sym, ◌∙◌, ◌≢◌, ◌↔◌, inl, inr, true, false, Bool-cases,
  List, [], ◌∷◌, ◌++◌, Option, none, some, arith, ◌&&◌, ◌==◌, length, get_or, min, drop,
}
use dragon_ware.Text.Search.{
  char_at, strnlen, strncpy, strncpy_fill, strchr_loop, strchr, matches_here, strstr_loop, strstr,
  Order, strncmp, prefix_loop, string_has_prefix,
}

-- A string of C: no character is 0.
pub data IsText : List ℕ → Type 0 where
  nil : IsText []
  cons : {c : ℕ} {s : List ℕ} → c ≢ 0 → IsText s → IsText (c ∷ s)

pub strnlen_lem : (s : List ℕ) (maxlen : ℕ) → IsText s → strnlen s maxlen ≡ min (length s) maxlen
unfolding strnlen
strnlen_lem s zero t = omega arith
strnlen_lem [] (suc maxlen) t = omega arith
strnlen_lem (c ∷ s) (suc maxlen) (IsText.cons ne t) = ground (arith, strnlen_lem s maxlen t)

-- What strchr finds: the last place of the character, none where it does not occur.
pub data FindsLast (str : List ℕ) (c : ℕ) : Option ℕ → Type 0 where
  absent : ((i : ℕ) → i ≤ length str → char_at str i ≢ c) → FindsLast str c none
  last_at :
      (i : ℕ)
      → i ≤ length str
      → char_at str i ≡ c
      → ((j : ℕ) → i < j → j ≤ length str → char_at str j ≢ c)
      → FindsLast str c (some i)

strchr_loop-FindsLast :
    (str : List ℕ) (c n : ℕ)
    → n ≤ length str + 1
    → ((j : ℕ) → n ≤ j → j ≤ length str → char_at str j ≢ c)
    → FindsLast str c (strchr_loop str c n)
unfolding strchr_loop
strchr_loop-FindsLast str c zero h behind = FindsLast.absent (λ i k. behind i (omega arith) k)
strchr_loop-FindsLast str c (suc n) h behind = elim (Bool-cases (char_at str n == c)) [
  | inl e ↦
      rw e (FindsLast.last_at n (omega arith) (ground arith) (λ j a b. behind j (omega arith) b))
  | inr e ↦ rw e (
      strchr_loop-FindsLast str c n (omega arith) (λ j a b. elim (Bool-cases (j == n)) [
        | inl same ↦ let eq : j ≡ n = ground arith in rw eq (λ q. ground arith)
        | inr other ↦ behind j (ground arith) b
      ]))
]

-- strchr returns the last place where the character occurs, the terminator counted, and the null
-- pointer only where it does not occur at all.
pub strchr-FindsLast : (str : List ℕ) (c : ℕ) → FindsLast str c (strchr str c)
unfolding strchr
strchr-FindsLast str c =
    strchr_loop-FindsLast str c (length str + 1) (omega arith) (λ j a b. absurd (omega arith))

-- The haystack goes on with the needle at index `i`.
abbrev pub OccursAt : List ℕ → List ℕ → ℕ → Type 0
OccursAt haystack needle i = (behind : List ℕ) × (drop i haystack ≡ needle ++ behind)

matches_here-true : (h n : List ℕ) → matches_here h n ≡ true → (behind : List ℕ) × (h ≡ n ++ behind)
unfolding matches_here
matches_here-true h [] e = (h, refl)
matches_here-true [] (d ∷ n) e = ground arith
matches_here-true (c ∷ h) (d ∷ n) e =
    let same : c ≡ d = ground arith in
    let (behind, eq) = matches_here-true h n (ground arith) in (behind, rw (same, eq) refl)

matches_here_append : (n behind : List ℕ) → matches_here (n ++ behind) n ≡ true
unfolding matches_here
matches_here_append [] behind = refl
matches_here_append (d ∷ n) behind = ground (arith, matches_here_append n behind)

-- What a search for the needle from index `i` on finds.
pub data FindsFirst (haystack needle : List ℕ) (i : ℕ) : Option ℕ → Type 0 where
  absent : ((j : ℕ) → ¬ OccursAt haystack needle j) → FindsFirst haystack needle i none
  first_at :
      (k m : ℕ)
      → m ≡ i + k
      → OccursAt haystack needle k
      → ((j : ℕ) → j < k → ¬ OccursAt haystack needle j)
      → FindsFirst haystack needle i (some m)

later :
    (c : ℕ) (h needle : List ℕ) (i : ℕ) (r : Option ℕ)
    → ¬ OccursAt (c ∷ h) needle 0
    → FindsFirst h needle (i + 1) r
    → FindsFirst (c ∷ h) needle i r
later c h needle i none not_here (FindsFirst.absent f) = FindsFirst.absent nowhere
  where
    nowhere : (j : ℕ) → ¬ OccursAt (c ∷ h) needle j
    nowhere zero = not_here
    nowhere (suc j) = f j
later c h needle i (some r) not_here (FindsFirst.first_at k m e at before) =
    FindsFirst.first_at (suc k) m (omega arith) at not_before
  where
    not_before : (j : ℕ) → j < suc k → ¬ OccursAt (c ∷ h) needle j
    not_before zero l = not_here
    not_before (suc j) l = before j (omega arith)

strstr_loop-FindsFirst :
    (h : List ℕ) (d : ℕ) (n : List ℕ) (i : ℕ) → FindsFirst h (d ∷ n) i (strstr_loop h (d ∷ n) i)
unfolding strstr_loop
strstr_loop-FindsFirst [] d n i = FindsFirst.absent (λ j o. nowhere j o)
  where
    nowhere : (j : ℕ) → ¬ OccursAt [] (d ∷ n) j
    nowhere zero (behind, e) = ground arith
    nowhere (suc j) (behind, e) = ground arith
strstr_loop-FindsFirst (c ∷ h) d n i = elim (Bool-cases (matches_here (c ∷ h) (d ∷ n))) [
  | inl e ↦ rw e (
      FindsFirst.first_at 0 i (omega arith) (matches_here-true (c ∷ h) (d ∷ n) e)
        (λ j l. absurd (omega arith)))
  | inr e ↦ rw e (
      later c h (d ∷ n) i (strstr_loop h (d ∷ n) (i + 1)) (misses e)
        (strstr_loop-FindsFirst h d n (i + 1)))
]
  where
    misses : matches_here (c ∷ h) (d ∷ n) ≡ false → ¬ OccursAt (c ∷ h) (d ∷ n) 0
    misses e (behind, eq) =
        let hit : matches_here (c ∷ h) (d ∷ n) ≡ true =
          rw eq (matches_here_append (d ∷ n) behind) in
        ground arith

-- strstr returns the first place where the needle occurs, the start for an empty needle, and the null
-- pointer only where it does not occur.
pub strstr-FindsFirst :
    (haystack needle : List ℕ) → FindsFirst haystack needle 0 (strstr haystack needle)
unfolding strstr
strstr-FindsFirst haystack [] =
    FindsFirst.first_at 0 0 (omega arith) (haystack, refl) (λ j l. absurd (omega arith))
strstr-FindsFirst haystack (d ∷ n) = strstr_loop-FindsFirst haystack d n 0

-- The rounds of the comparison that the strings pass, from index `i` on.
prefix_loop_lem :
    (str prefix : List ℕ) (rounds i : ℕ)
    → char_at str 0 ≢ 0
    → char_at prefix 0 ≢ 0
    → (prefix_loop str prefix rounds i ≡ true)
      ↔ ((j : ℕ) → i ≤ j → j < i + rounds → char_at str j ≡ char_at prefix j)
unfolding prefix_loop
prefix_loop_lem str prefix zero i a b = (λ e j k l. absurd (omega arith), λ f. refl)
prefix_loop_lem str prefix (suc rounds) i a b =
    let (to, from) = prefix_loop_lem str prefix rounds (i + 1) a b in
    (
      λ e j k l. elim (Bool-cases (j == i)) [
        | inl same ↦ let eq : j ≡ i = ground arith in rw eq (ground arith)
        | inr other ↦ to (ground arith) j (ground arith) (omega arith)
      ],
      λ f.
          let here = f i (omega arith) (omega arith) in
          let rest = from (λ j k l. f j (omega arith) (omega arith)) in ground arith,
    )

-- On non-empty strings and with no limit, StringHasPrefix says whether the strings agree as far as
-- both go: so also a string that ends within the prefix has it.
pub string_has_prefix_lem :
    (c d : ℕ) (str prefix : List ℕ)
    → c ≢ 0
    → d ≢ 0
    → (string_has_prefix (c ∷ str) (d ∷ prefix) 0 ≡ true) ↔ (
        (j : ℕ)
        → j < min (length (c ∷ str)) (length (d ∷ prefix))
        → char_at (c ∷ str) j ≡ char_at (d ∷ prefix) j)
unfolding string_has_prefix
string_has_prefix_lem c d str prefix a b =
    let (to, from) =
      prefix_loop_lem (c ∷ str) (d ∷ prefix) (min (length (c ∷ str)) (length (d ∷ prefix))) 0 a b in
    (λ e j l. to e j (omega arith) (omega arith), λ f. from (λ j k l. f j (omega arith)))

zero_behind : (s : List ℕ) (i j : ℕ) → IsText s → i ≤ j → char_at s i ≡ 0 → char_at s j ≡ 0
zero_behind [] i j t h e = refl
zero_behind (c ∷ s) zero j (IsText.cons ne t) h e = absurd (ne e)
zero_behind (c ∷ s) (suc i) zero (IsText.cons ne t) h e = absurd (omega arith)
zero_behind (c ∷ s) (suc i) (suc j) (IsText.cons ne t) h e = zero_behind s i j t (omega arith) e

module _ (a b : List ℕ) (ta : IsText a) (tb : IsText b) where
  strncmp_from :
      (rounds i : ℕ)
      → (strncmp a b rounds i ≡ Order.same)
        ↔ ((j : ℕ) → i ≤ j → j < i + rounds → char_at a j ≡ char_at b j)
  unfolding strncmp
  strncmp_from zero i = (λ e j k l. absurd (omega arith), λ f. refl)
  strncmp_from (suc rounds) i =
      let (to, from) = strncmp_from rounds (i + 1) in
      (
        λ e j k l. elim (Bool-cases (char_at a i == 0 && char_at b i == 0)) [
          | inl ends ↦
              zero_behind a i j ta k (ground arith) ∙ sym (zero_behind b i j tb k (ground arith))
          | inr go ↦ elim (Bool-cases (j == i)) [
            | inl same ↦ let eq : j ≡ i = ground arith in rw eq (ground arith)
            | inr other ↦ to (ground arith) j (ground arith) (omega arith)
          ]
        ],
        λ f.
            let here = f i (omega arith) (omega arith) in
            let rest = from (λ j k l. f j (omega arith) (omega arith)) in ground arith,
      )

  -- strncmp of two strings is 0 exactly where they agree on the first `n` characters, or up to the end
  -- of both.
  pub strncmp_lem :
      (n : ℕ) → (strncmp a b n 0 ≡ Order.same) ↔ ((j : ℕ) → j < n → char_at a j ≡ char_at b j)
  strncmp_lem n =
      let (to, from) = strncmp_from n 0 in
      (λ e j l. to e j (omega arith) (omega arith), λ f. from (λ j k l. f j (omega arith)))

strncpy_fill_lem :
    (n : ℕ) → (length (strncpy_fill n) ≡ n) × ((j : ℕ) → get_or (strncpy_fill n) j 0 ≡ 0)
unfolding strncpy_fill
strncpy_fill_lem zero = (refl, λ j. refl)
strncpy_fill_lem (suc n) =
    let (len, zeros) = strncpy_fill_lem n in (omega (arith, len), all_zero zeros)
  where
    all_zero :
        ((j : ℕ) → get_or (strncpy_fill n) j 0 ≡ 0) → (j : ℕ) → get_or (0 ∷ strncpy_fill n) j 0 ≡ 0
    all_zero zeros zero = refl
    all_zero zeros (suc j) = zeros j

-- strncpy writes `n` characters: the string's, and the terminator from its end on.
pub strncpy_lem :
    (src : List ℕ) (n i : ℕ)
    → IsText src
    → (length (strncpy src n i) ≡ n)
      × ((j : ℕ) → j < n → get_or (strncpy src n i) j 0 ≡ char_at src (i + j))
unfolding strncpy strncpy_fill
strncpy_lem src zero i t = (refl, λ j l. absurd (omega arith))
strncpy_lem src (suc n) i t = elim (Bool-cases (char_at src i == 0)) [
  | inl e ↦ rw e (
    omega (arith, (strncpy_fill_lem n).0),
    λ j l.
        (strncpy_fill_lem (suc n)).1 j
        ∙ sym (zero_behind src i (i + j) t (omega arith) (ground arith)),
  )
  | inr e ↦
      let (len, chars) = strncpy_lem src n (i + 1) t in
      rw e (omega (arith, len), λ j l. step j l chars)
]
  where
    step :
        (j : ℕ)
        → j < suc n
        → ((j : ℕ) → j < n → get_or (strncpy src n (i + 1)) j 0 ≡ char_at src (i + 1 + j))
        → get_or (char_at src i ∷ strncpy src n (i + 1)) j 0 ≡ char_at src (i + j)
    step zero l chars = ap (char_at src) (omega arith)
    step (suc j) l chars = chars j (omega arith) ∙ ap (char_at src) (omega arith)
