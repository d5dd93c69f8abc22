-- ===== src/Boot/Fat/Directory/Names.antt =====
-- The names of FAT.
use dragon_ware.Base.{
  ℕ, zero, suc, ◌-◌, ◌≤◌, ◌≡◌, refl, ap, ◌≢◌, false, List, [], ◌∷◌, ◌++◌, map, arith, ◌==◌,
  if◌then◌else◌, take, drop, length, length-append, length-replicate, get_or, replicate, ◌∙◌,
}
use mathlib.Core.List.{append-nil}
use dragon_ware.Base.Segments.{take_all}
use dragon_ware.Text.Case.{toupper}
use dragon_ware.Boot.Fat.Directory.{name_part, fat_entry_to_string}

-- A part of a name: no character is a space.
pub data NoSpace : List ℕ → Type 0 where
  nil : NoSpace []
  cons : {c : ℕ} {s : List ℕ} → c ≢ b' ' → NoSpace s → NoSpace (c ∷ s)

-- A part as the directory holds it, padded with spaces to `n` characters.
abbrev pub padded : ℕ → List ℕ → List ℕ
padded n s = s ++ replicate (n - length s) b' '

name_part_spaces : (n : ℕ) → name_part (replicate n b' ') ≡ []
unfolding name_part
name_part_spaces zero = refl
name_part_spaces (suc n) = refl

name_part_padded :
    (s : List ℕ) (n : ℕ) → NoSpace s → name_part (s ++ replicate n b' ') ≡ map toupper s
unfolding name_part
name_part_padded [] n t = name_part_spaces n
name_part_padded (c ∷ s) n (NoSpace.cons ne t) = ground (arith, name_part_padded s n t)

take-append : (xs ys : List ℕ) (n : ℕ) → length xs ≡ n → take n (xs ++ ys) ≡ xs
take-append [] ys zero e = refl
take-append [] ys (suc n) e = absurd (omega arith)
take-append (x ∷ xs) ys zero e = absurd (omega arith)
take-append (x ∷ xs) ys (suc n) e = ap (λ t. x ∷ t) (take-append xs ys n (omega arith))

drop-append : (xs ys : List ℕ) (n : ℕ) → length xs ≡ n → drop n (xs ++ ys) ≡ ys
drop-append [] ys zero e = refl
drop-append [] ys (suc n) e = absurd (omega arith)
drop-append (x ∷ xs) ys zero e = absurd (omega arith)
drop-append (x ∷ xs) ys (suc n) e = drop-append xs ys n (omega arith)

get_or-drop : (xs : List ℕ) (n : ℕ) → get_or xs n 0 ≡ get_or (drop n xs) 0 0
get_or-drop [] zero = refl
get_or-drop [] (suc n) = refl
get_or-drop (x ∷ xs) zero = refl
get_or-drop (x ∷ xs) (suc n) = get_or-drop xs n

-- A name with its extension, as a user writes it.
abbrev pub written : List ℕ → List ℕ → List ℕ
written base [] = map toupper base
written base (c ∷ ext) = map toupper base ++ b'.' ∷ map toupper (c ∷ ext)

abbrev pub padded_name : List ℕ → List ℕ → List ℕ
padded_name base ext = padded 8 base ++ padded 3 ext

length-padded : (s : List ℕ) (n : ℕ) → length s ≤ n → length (padded n s) ≡ n
length-padded s n h =
    let space : ℕ = b' ' in
    omega (
      arith,
      length-append s (replicate (n - length s) space),
      length-replicate (n - length s) space,
    )

fat_entry_to_string_parts :
    (base ext : List ℕ)
    → length base ≤ 8
    → length ext ≤ 3
    → fat_entry_to_string (padded_name base ext)
      ≡ name_part (padded 8 base)
        ++ (if get_or (padded 3 ext) 0 0 == b' ' then [] else b'.' ∷ name_part (padded 3 ext))
unfolding fat_entry_to_string
fat_entry_to_string_parts base ext h k =
    let size = length-padded base 8 h in
    rw
      (
        take-append (padded 8 base) (padded 3 ext) 8 size,
        get_or-drop (padded_name base ext) 8,
        drop-append (padded 8 base) (padded 3 ext) 8 size,
        take_all (padded 3 ext) 3 (length-padded ext 3 k),
      )
      refl

-- FATEntryToString writes a name of one to eight characters and an extension of at most three, padded
-- with spaces that they do not hold themselves, in upper case and with a point between them, which it leaves
-- out where there is no extension.
pub fat_entry_to_string_lem :
    (base ext : List ℕ)
    → length base ≤ 8
    → length ext ≤ 3
    → NoSpace base
    → NoSpace ext
    → fat_entry_to_string (padded_name base ext) ≡ written base ext
fat_entry_to_string_lem base [] h k t u =
    fat_entry_to_string_parts base [] h k
    ∙ (rw (name_part_padded base (8 - length base) t, append-nil) refl)
fat_entry_to_string_lem base (c ∷ ext) h k t (NoSpace.cons ne u) =
    fat_entry_to_string_parts base (c ∷ ext) h k
    ∙ (let differs : (c == b' ') ≡ false = ground arith in
        rw
          (
            name_part_padded base (8 - length base) t,
            differs,
            name_part_padded (c ∷ ext) (3 - length (c ∷ ext)) (NoSpace.cons ne u),
          )
          refl)
