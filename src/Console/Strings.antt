-- ===== src/Console/Strings.antt =====
-- VGAPrintString and VGAClearAllText on the console's screen.
use dragon_ware.Base.{
  ℕ, suc, ◌+◌, ◌-◌, ◌<◌, ◌≡◌, refl, Bool, true, false, Bool-cases, inl, inr, List, [], ◌∷◌, arith,
  leb, ltb, not, ◌==◌, ◌&&◌, if◌then◌else◌, length, get_or,
}
use dragon_ware.Console.{
  VgaText, vga_get_character_with_color, vga_set_cursor_position, vga_clear_all_text,
  vga_print_character, vga_print_string,
}
use dragon_ware.Console.Screen.{
  places, place_of, position, IsOnScreen, place_of-fill_places, Prints, vga_print_character-Prints,
}

-- A text without newlines and backspaces.
abbrev pub is_plain : List ℕ → Bool
is_plain [] = true
is_plain (c ∷ str) = let rest = is_plain str in not (c == b'\n') && not (c == 8) && rest

-- The screen with a text written from place `p` on.
abbrev pub shows_text : VgaText → ℕ → List ℕ → ℕ → ℕ → ℕ
shows_text s p str color i =
    if leb p i && ltb i (p + length str)
    then vga_get_character_with_color (get_or str (i - p) 0) color
    else place_of s.vgabuffer i

pub record Writes (s : VgaText) (str : List ℕ) (color : ℕ) (s' : VgaText) : Type 0 where
  pub on_screen : IsOnScreen s'
  pub behind : position s' ≡ position s + length str
  pub text : (i : ℕ) → i < places → place_of s'.vgabuffer i ≡ shows_text s (position s) str color i

-- A plain character that does not scroll.
plain_character :
    (s : VgaText) (c color : ℕ)
    → IsOnScreen s
    → (c == b'\n') ≡ false
    → (c == 8) ≡ false
    → position s + 1 < places
    → let s' = vga_print_character s c color in
      IsOnScreen s'
      × (position s' ≡ position s + 1)
      × ((i : ℕ)
          → i < places
          → place_of s'.vgabuffer i ≡ (
              if i == position s
              then vga_get_character_with_color c color
              else place_of s.vgabuffer i))
plain_character s c color v e f h =
    let (on, p) = vga_print_character-Prints s c color v in
    let (at, cells) = go p in (on, at, cells)
  where
    go :
        {s' : VgaText}
        → Prints s c color s'
        → (position s' ≡ position s + 1)
          × ((i : ℕ)
              → i < places
              → place_of s'.vgabuffer i ≡ (
                  if i == position s
                  then vga_get_character_with_color c color
                  else place_of s.vgabuffer i))
    go (Prints.within small at cells) = (ground arith, λ i k. ground (arith, cells i k))
    go (Prints.scrolled big at cells) = absurd (ground arith)

-- The first character and the rest of a text.
later :
    (p : ℕ) (str : List ℕ) (c i color old : ℕ)
    → (if leb (p + 1) i && ltb i (p + 1 + length str)
        then vga_get_character_with_color (get_or str (i - (p + 1)) 0) color
        else if i == p
        then vga_get_character_with_color c color
        else old)
      ≡ (if leb p i && ltb i (p + length (c ∷ str))
          then vga_get_character_with_color (get_or (c ∷ str) (i - p) 0) color
          else old)
later p str c i color old = elim (Bool-cases (i == p)) [
  | inl e ↦
      let before : leb (p + 1) i ≡ false = ground arith in
      let inside : (leb p i && ltb i (p + suc (length str))) ≡ true = ground arith in
      let first : i - p ≡ 0 = ground arith in rw (e, before, inside, first) refl
  | inr e ↦ elim (Bool-cases (ltb p i)) [
    | inl f ↦
        let next : i - p ≡ suc (i - (p + 1)) = ground arith in
        let same : leb (p + 1) i ≡ true = ground arith in
        let same' : leb p i ≡ true = ground arith in
        let reach : ltb i (p + suc (length str)) ≡ ltb i (p + 1 + length str) = ground arith in
        rw (e, next, same, same', reach) refl
    | inr f ↦
        let before : leb (p + 1) i ≡ false = ground arith in
        let before' : leb p i ≡ false = ground arith in rw (e, before, before') refl
  ]
]

-- VGAPrintString of a text without newlines and backspaces, from a cursor on the screen, that ends before
-- the last place writes the text from the cursor on, changes no other place, and leaves the cursor behind it.
pub vga_print_string-Writes :
    (str : List ℕ) (s : VgaText) (color : ℕ)
    → IsOnScreen s
    → is_plain str ≡ true
    → position s + length str < places
    → Writes s str color (vga_print_string s str color)
unfolding vga_print_string
vga_print_string-Writes [] s color v plain h = record {
  on_screen = v;
  behind = omega arith;
  text = λ i k. ground arith;
}
vga_print_string-Writes (c ∷ str) s color v plain h =
    let e : (c == b'\n') ≡ false = ground arith in
    let f : (c == 8) ≡ false = ground arith in
    let (on, at, cells) = plain_character s c color v e f (omega arith) in
    let w =
      vga_print_string-Writes str (vga_print_character s c color) color on (ground arith)
        (omega arith) in
    record {
      on_screen = w.on_screen;
      behind = omega (arith, w.behind);
      text = λ i k. rw (w.text i k, at, cells i k) (later (position s) str c i color _);
    }

-- VGAClearAllText blanks every place in the colour given, and takes the cursor to the first place.
pub vga_clear_all_text_lem :
    (s : VgaText) (colorattr i : ℕ)
    → i < places
    → IsOnScreen (vga_clear_all_text s colorattr)
      × (position (vga_clear_all_text s colorattr) ≡ 0)
      × (place_of (vga_clear_all_text s colorattr).vgabuffer i
          ≡ vga_get_character_with_color b' ' colorattr)
unfolding vga_clear_all_text vga_set_cursor_position
vga_clear_all_text_lem s colorattr i h = (
  record { column = omega arith; row = omega arith; shown = refl },
  refl,
  rw (place_of-fill_places 2000 0 colorattr s.vgabuffer i) (ground arith),
)
