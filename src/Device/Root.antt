-- ===== src/Device/Root.antt =====
-- Where the walk along a path begins.
use dragon_ware.Base.{
  ℕ, zero, suc, ◌+◌, ◌-◌, ◌≤◌, ◌<◌, ◌≡◌, refl, subst, ap, sym, ◌∙◌, ◌≢◌, inl, inr, ◌↔◌, Bool,
  Bool-cases, Option-cases, true, false, List, [], ◌∷◌, ◌++◌, none, some, arith, ◌&&◌, ltb, ◌==◌,
  if◌then◌else◌, length, length-append, length-drop, drop,
}
use mathlib.Core.List.{append-nil}
use dragon_ware.Text.Search.{Order, char_at, strncmp, strchr}
use dragon_ware.Text.Search.Laws.{IsText, FindsLast, strchr-FindsLast, strncmp_lem}
use dragon_ware.Device.{after_root}

abbrev pub NoSlash : List ℕ → Type 0
NoSlash s = (j : ℕ) → char_at s j ≢ b'/'

-- The path begins with the root's name and a slash that is its last one; or it is the root's name.
pub record BehindRoot (name start behind : List ℕ) : Type 0 where
  pub named : name ≢ []
  pub split : start ≡ name ++ b'/' ∷ behind
  pub last : NoSlash behind

pub record IsRoot (name start : List ℕ) : Type 0 where
  pub named : name ≢ []
  pub same : start ≡ name
  pub last : NoSlash name

pub data StartsAt (name start : List ℕ) : List ℕ → Type 0 where
  behind_root : {behind : List ℕ} → BehindRoot name start behind → StartsAt name start behind
  at_root : IsRoot name start → StartsAt name start []
  other :
      ((behind : List ℕ) → ¬ BehindRoot name start behind)
      → ¬ IsRoot name start
      → StartsAt name start start

-- Characters of strings.
prefix_of :
    (name s : List ℕ) (i : ℕ)
    → IsText name
    → IsText s
    → i ≤ length s
    → ((j : ℕ) → j < i → char_at s j ≡ char_at name j)
    → char_at name i ≡ 0
    → s ≡ name ++ drop i s
prefix_of [] s zero t u h same ends = refl
prefix_of [] [] (suc i) t u h same ends = absurd (omega arith)
prefix_of [] (d ∷ s) (suc i) t (IsText.cons ne u) h same ends = absurd (ne (same 0 (omega arith)))
prefix_of (c ∷ name) s zero (IsText.cons ne t) u h same ends = absurd (ne ends)
prefix_of (c ∷ name) [] (suc i) t u h same ends = absurd (omega arith)
prefix_of (c ∷ name) (d ∷ s) (suc i) (IsText.cons ne t) (IsText.cons ne' u) h same ends =
    let first : d ≡ c = same 0 (omega arith) in
    let rest = prefix_of name s i t u (omega arith) (λ j lt. same (suc j) (omega arith)) ends in cc

drop-cons : (s : List ℕ) (i : ℕ) → i < length s → drop i s ≡ char_at s i ∷ drop (i + 1) s
drop-cons [] i h = absurd (omega arith)
drop-cons (c ∷ s) zero h = refl
drop-cons (c ∷ s) (suc i) h =
    let e : suc i + 1 ≡ suc (i + 1) = omega arith in rw e (drop-cons s i (omega arith))

drop_all : (s : List ℕ) → drop (length s) s ≡ []
drop_all [] = refl
drop_all (c ∷ s) = drop_all s

char_at-append : (xs ys : List ℕ) (j : ℕ) → char_at (xs ++ ys) (length xs + j) ≡ char_at ys j
char_at-append [] ys j = let e : 0 + j ≡ j = omega arith in rw e refl
char_at-append (x ∷ xs) ys j =
    let e : suc (length xs) + j ≡ suc (length xs + j) = omega arith in rw e (char_at-append xs ys j)

char_at-prefix : (xs ys : List ℕ) (j : ℕ) → j < length xs → char_at (xs ++ ys) j ≡ char_at xs j
char_at-prefix [] ys j h = absurd (omega arith)
char_at-prefix (x ∷ xs) ys zero h = refl
char_at-prefix (x ∷ xs) ys (suc j) h = char_at-prefix xs ys j (omega arith)

char_at_behind : (xs : List ℕ) (j : ℕ) → length xs ≤ j → char_at xs j ≡ 0
char_at_behind [] j h = refl
char_at_behind (x ∷ xs) zero h = absurd (omega arith)
char_at_behind (x ∷ xs) (suc j) h = char_at_behind xs j (omega arith)

drop-append : (xs ys : List ℕ) → drop (length xs) (xs ++ ys) ≡ ys
drop-append [] ys = refl
drop-append (x ∷ xs) ys = drop-append xs ys

char_at-nonzero : (s : List ℕ) (j : ℕ) → IsText s → j < length s → char_at s j ≢ 0
char_at-nonzero [] j t h = absurd (omega arith)
char_at-nonzero (c ∷ s) zero (IsText.cons ne t) h = ne
char_at-nonzero (c ∷ s) (suc j) (IsText.cons ne t) h = char_at-nonzero s j t (omega arith)

-- The tests of the code, for a first part of `n` characters.
abbrev SamePart : List ℕ → List ℕ → ℕ → Type 0
SamePart name start n = (strncmp start name n 0 ≡ Order.same) × (char_at name n ≡ 0)

module _ (name start : List ℕ) (tn : IsText name) (ts : IsText start) where
  SamePart-prefix :
      (n : ℕ) → n ≤ length start → SamePart name start n → start ≡ name ++ drop n start
  SamePart-prefix n h (same, ends) =
      prefix_of name start n tn ts h ((strncmp_lem start name ts tn n).0 same) ends

  SamePart-name : (rest : List ℕ) → start ≡ name ++ rest → SamePart name start (length name)
  SamePart-name rest e = (
    (strncmp_lem start name ts tn (length name)).1 (λ j lt. rw e (char_at-prefix name rest j lt)),
    char_at_behind name (length name) (omega arith),
  )

char_at-drop : (s : List ℕ) (n j : ℕ) → char_at (drop n s) j ≡ char_at s (n + j)
char_at-drop s zero j = let e : 0 + j ≡ j = omega arith in rw e refl
char_at-drop [] (suc n) j = refl
char_at-drop (c ∷ s) (suc n) j =
    let e : suc n + j ≡ suc (n + j) = omega arith in rw e (char_at-drop s n j)

inside_of : (s : List ℕ) (i c : ℕ) → c ≢ 0 → char_at s i ≡ c → i < length s
inside_of [] i c ne e = absurd (omega arith)
inside_of (x ∷ s) zero c ne e = omega arith
inside_of (x ∷ s) (suc i) c ne e = omega (arith, inside_of s i c ne e)

positive : (s : List ℕ) → s ≢ [] → 0 < length s
positive [] ne = absurd (ne refl)
positive (x ∷ s) ne = omega arith

-- The slash found is the one behind the root's name.
last_slash :
    (name behind : List ℕ) (i : ℕ)
    → NoSlash behind
    → FindsLast (name ++ b'/' ∷ behind) b'/' (some i)
    → i ≡ length name
last_slash name behind i none_behind (FindsLast.last_at _ le' here after) =
    let text : List ℕ = name ++ b'/' ∷ behind in
    let size = length-append name (b'/' ∷ behind) in
    let e : length name + 0 ≡ length name = omega arith in
    let slash : char_at text (length name) ≡ b'/' =
      subst (λ (k : ℕ). char_at text k ≡ b'/') e (char_at-append name (b'/' ∷ behind) 0) in
    elim (Bool-cases (ltb i (length name))) [
      | inl before ↦ absurd (after (length name) (ground arith) (omega (arith, size)) slash)
      | inr not_before ↦ elim (Bool-cases (i == length name)) [
        | inl same ↦ ground arith
        | inr differs ↦
            let m : ℕ = i - length name - 1 in
            let at : length name + suc m ≡ i = ground arith in
            let there =
              subst (λ (k : ℕ). char_at text k ≡ char_at behind m) at
                (char_at-append name (b'/' ∷ behind) (suc m)) in
            absurd (none_behind m (sym there ∙ here))
      ]
    ]

module _ (name start : List ℕ) where
  abbrev is_part : ℕ → Bool
  is_part n =
      ltb 0 n
      && (elim (strncmp start name n 0) [ Order.same ↦ true | _ ↦ false ])
      && char_at name n == 0

  is_part_iff : (n : ℕ) → (is_part n ≡ true) ↔ ((0 < n) × SamePart name start n)
  is_part_iff n =
      (λ h. (ground arith, (ground arith, ground arith)), λ h. let e = h.1.0 in rw e (ground arith))

  after_root-some :
      (i : ℕ)
      → strchr start b'/' ≡ some i
      → after_root name start ≡ (if is_part i then drop (i + 1) start else start)
  unfolding after_root
  after_root-some i e = rw (e, after_root) refl

  after_root-none :
      strchr start b'/' ≡ none
      → after_root name start
        ≡ (if is_part (length start) then drop (length start) start else start)
  unfolding after_root
  after_root-none e = rw (e, after_root) refl

  module _ (tn : IsText name) (ts : IsText start) where
    is_part_name : (rest : List ℕ) → name ≢ [] → start ≡ name ++ rest → is_part (length name) ≡ true
    is_part_name rest named e =
        (is_part_iff (length name)).1 (positive name named, SamePart-name name start tn ts rest e)

    StartsAt-some :
        (i : ℕ)
        → strchr start b'/' ≡ some i
        → FindsLast start b'/' (some i)
        → StartsAt name start (after_root name start)
    StartsAt-some i e (FindsLast.last_at _ le' here after) =
        let inside : i < length start = inside_of start i b'/' (omega arith) here in
        elim (Bool-cases (is_part i)) [
          | inl part ↦
              let (more, same) = (is_part_iff i).0 part in
              let split = SamePart-prefix name start tn ts i (omega arith) same in
              rw (after_root-some i e, part)
                (StartsAt.behind_root (record {
                  named = λ none_there.
                      let short =
                        ap length (split ∙ ap (λ (n : List ℕ). n ++ drop i start) none_there) in
                      absurd (omega (arith, length-drop i start));
                  split =
                      split
                      ∙ ap (λ (r : List ℕ). name ++ r)
                          (drop-cons start i inside ∙ ap (λ (c : ℕ). c ∷ drop (i + 1) start) here);
                  last = λ j slash. elim (Bool-cases (ltb (length start) (i + 1 + j))) [
                    | inl past ↦
                        let z = char_at_behind start (i + 1 + j) (ground arith) in
                        absurd (omega (arith, char_at-drop start (i + 1) j))
                    | inr in_text ↦
                        after (i + 1 + j) (omega arith) (ground arith)
                          (sym (char_at-drop start (i + 1) j) ∙ slash)
                  ];
                }))
          | inr part ↦
              rw (after_root-some i e, part)
                (StartsAt.other
                  (λ behind b.
                    let at = last_slash name behind i b.last (
                      subst (λ (s : List ℕ). FindsLast s b'/' (some i)) b.split
                        (FindsLast.last_at i le' here after)) in
                    let whole = is_part_name (b'/' ∷ behind) b.named b.split in
                    absurd (ground arith))
                  (λ r. r.last i (ap (λ (s : List ℕ). char_at s i) (sym r.same) ∙ here)))
        ]

    StartsAt-none :
        strchr start b'/' ≡ none
        → FindsLast start b'/' none
        → StartsAt name start (after_root name start)
    StartsAt-none e (FindsLast.absent none_at) =
        let no_slash : NoSlash start = λ j slash. elim (Bool-cases (ltb (length start) j)) [
          | inl past ↦ let z = char_at_behind start j (ground arith) in absurd (omega arith)
          | inr in_text ↦ none_at j (ground arith) slash
        ] in
        elim (Bool-cases (is_part (length start))) [
          | inl part ↦
              let (more, same) = (is_part_iff (length start)).0 part in
              let split = SamePart-prefix name start tn ts (length start) (omega arith) same in
              let all : start ≡ name =
                split ∙ ap (λ (r : List ℕ). name ++ r) (drop_all start) ∙ append-nil name in
              rw (after_root-none e, part, drop_all start)
                (StartsAt.at_root (record {
                  named =
                      λ none_there. let z = ap length (all ∙ none_there) in absurd (omega arith);
                  same = all;
                  last = subst NoSlash all no_slash;
                }))
          | inr part ↦
              rw (after_root-none e, part)
                (StartsAt.other
                  (λ behind b.
                    let k : length name + 0 ≡ length name = omega arith in
                    no_slash (length name + 0) (
                      ap (λ (s : List ℕ). char_at s (length name + 0)) b.split
                      ∙ char_at-append name (b'/' ∷ behind) 0))
                  (λ r.
                    let whole = is_part_name [] r.named (r.same ∙ sym (append-nil name)) in
                    let z = ap length r.same in absurd (ground arith)))
        ]

    -- GetDeviceFromPath begins behind the root's name exactly where that is all before the last slash, or all.
    pub after_root-StartsAt : StartsAt name start (after_root name start)
    after_root-StartsAt = elim (Option-cases (strchr start b'/')) [
      | inl e ↦ StartsAt-none e (subst (FindsLast start b'/') e (strchr-FindsLast start b'/'))
      | inr (i, e) ↦
          StartsAt-some i e (subst (FindsLast start b'/') e (strchr-FindsLast start b'/'))
    ]
