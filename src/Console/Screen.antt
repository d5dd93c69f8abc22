-- ===== src/Console/Screen.antt =====
-- The console's screen as 2000 places in a line.
use dragon_ware.Base.{
  ℕ, zero, suc, ◌+◌, ◌-◌, ◌*◌, ◌/◌, ◌≤◌, ◌<◌, ◌≡◌, refl, true, false, Bool-cases, inl, inr, arith,
  ap, leb, ltb, ◌==◌, ◌&&◌, if◌then◌else◌,
}
use dragon_ware.Text.Move.{memmove_libc, memmove-moved}
use dragon_ware.Console.{
  VgaText, vga_console_width, vga_console_height, vga_get_character_with_color, vga_text_mode_index,
  write_place, vga_set_cursor_position, fill_places, vga_print_char_at, vga_scroll_buffer, draw,
  vga_print_character,
}

abbrev pub places : ℕ
places = vga_console_width * vga_console_height

-- What a place shows.
abbrev pub place_of : (ℕ → ℕ) → ℕ → ℕ
place_of buffer i = buffer (2 * i) + 256 * buffer (2 * i + 1)

abbrev pub position : VgaText → ℕ
position s = vga_text_mode_index s.xpos s.ypos

pub record IsOnScreen (s : VgaText) : Type 0 where
  pub column : s.xpos < vga_console_width
  pub row : s.ypos < vga_console_height
  pub shown : s.cursor ≡ position s

place_of-write_place :
    (buffer : ℕ → ℕ) (index w i : ℕ)
    → place_of (write_place buffer index w) i ≡ (if i == index then w else place_of buffer i)
place_of-write_place buffer index w i = elim (Bool-cases (i == index)) [
  | inl e ↦
      let eq : i ≡ index = ground arith in
      let even : (2 * index + 1 == 2 * index) ≡ false = ground arith in
      let first : (2 * index == 2 * index) ≡ true = ground arith in
      let second : (2 * index + 1 == 2 * index + 1) ≡ true = ground arith in
      rw (e, eq, even, first, second) (omega arith)
  | inr e ↦ rw e (ground arith)
]

pub place_of-fill_places :
    (n j colorattr : ℕ) (buffer : ℕ → ℕ) (i : ℕ)
    → place_of (fill_places n j colorattr buffer) i ≡ (
        if leb j i && ltb i (j + n)
        then vga_get_character_with_color b' ' colorattr
        else place_of buffer i)
unfolding fill_places
place_of-fill_places zero j colorattr buffer i = ground arith
place_of-fill_places (suc n) j colorattr buffer i =
    rw
      (place_of-fill_places n (j + 1) colorattr
        (write_place buffer j (vga_get_character_with_color b' ' colorattr)) i)
      (ground
        (arith, place_of-write_place buffer j (vga_get_character_with_color b' ' colorattr) i))

shifted_byte : (m : ℕ → ℕ) (a b : ℕ) → a < 3840 → b ≡ 160 + a → memmove_libc 0 160 3840 m a ≡ m b
shifted_byte m a b h e =
    let inside : (leb 0 a && ltb a 3840) ≡ true = ground arith in
    let same : 160 + (a - 0) ≡ b = omega arith in
    rw ((memmove-moved 0 160 3840 m a).1, inside, same) refl

-- A scroll moves each row up, and blanks the last.
place_of-vga_scroll_buffer :
    (s : VgaText) (i : ℕ)
    → i < places
    → place_of (vga_scroll_buffer s).vgabuffer i ≡ (
        if ltb i 1920
        then place_of s.vgabuffer (i + 80)
        else vga_get_character_with_color b' ' s.color_attribute)
unfolding vga_scroll_buffer vga_set_cursor_position
place_of-vga_scroll_buffer s i h =
    let shifted : ℕ → ℕ = memmove_libc 0 160 3840 s.vgabuffer in
    rw (place_of-fill_places 80 1920 s.color_attribute shifted i) (elim (Bool-cases (ltb i 1920)) [
      | inl e ↦
          let low : shifted (2 * i) ≡ s.vgabuffer (2 * (i + 80)) =
            shifted_byte s.vgabuffer (2 * i) (2 * (i + 80)) (ground arith) (omega arith) in
          let high : shifted (2 * i + 1) ≡ s.vgabuffer (2 * (i + 80) + 1) =
            shifted_byte s.vgabuffer (2 * i + 1) (2 * (i + 80) + 1) (ground arith) (omega arith) in
          let out : (leb 1920 i && ltb i 2000) ≡ false = ground arith in rw (e, out, low, high) refl
      | inr e ↦ let inside : (leb 1920 i && ltb i 2000) ≡ true = ground arith in rw (e, inside) refl
    ])

vga_scroll_buffer_cursor :
    (s : VgaText) → ((vga_scroll_buffer s).xpos ≡ 0) × ((vga_scroll_buffer s).cursor ≡ 1920)
unfolding vga_scroll_buffer vga_set_cursor_position
vga_scroll_buffer_cursor s = (refl, refl)

-- The place behind a character, the places once it is drawn, and the colour of a blank row.
abbrev pub next_place : VgaText → ℕ → ℕ
next_place s c =
    if c == b'\n'
    then (position s / vga_console_width + 1) * vga_console_width
    else if c == 8
    then position s - 1
    else position s + 1

abbrev pub shows_after : VgaText → ℕ → ℕ → ℕ → ℕ
shows_after s c color i =
    if c == b'\n'
    then place_of s.vgabuffer i
    else if c == 8
    then (if i == position s - 1
        then vga_get_character_with_color b' ' color
        else place_of s.vgabuffer i)
    else if i == position s
    then vga_get_character_with_color c color
    else place_of s.vgabuffer i

abbrev pub last_color : VgaText → ℕ → ℕ → ℕ
last_color s c color = if c == b'\n' then s.color_attribute else color

-- What the `switch` of VGAPrintCharacter does.
record Drawn (s : VgaText) (c color : ℕ) (d : VgaText) : Type 0 where
  column : d.xpos < vga_console_width
  row : d.ypos ≤ vga_console_height
  below : d.ypos ≡ vga_console_height → d.xpos ≡ 0
  at : position d ≡ next_place s c
  attribute : d.color_attribute ≡ last_color s c color
  cells : (i : ℕ) → place_of d.vgabuffer i ≡ shows_after s c color i

module _ (s : VgaText) (color : ℕ) (v : IsOnScreen s) where
  draw-newline : Drawn s b'\n' color (draw s b'\n' color)
  unfolding draw
  draw-newline = record {
    column = omega arith;
    row = omega (arith, v.row);
    below = λ e. refl;
    at = omega (arith, v.column);
    attribute = refl;
    cells = λ i. refl;
  }

  -- The text with a character at the place of another cursor.
  abbrev drawn_at : VgaText → ℕ → VgaText
  drawn_at back c = record back {
    color_attribute = color;
    vgabuffer = write_place back.vgabuffer (position back) (vga_get_character_with_color c color);
  }

  vga_print_char_at-drawn_at :
      (back : VgaText) (c : ℕ)
      → back.xpos < vga_console_width
      → back.ypos < vga_console_height
      → vga_print_char_at back back.xpos back.ypos c color ≡ drawn_at back c
  unfolding vga_print_char_at
  vga_print_char_at-drawn_at back c h k =
      let x : leb vga_console_width back.xpos ≡ false = ground arith in
      let y : leb vga_console_height back.ypos ≡ false = ground arith in rw (x, y) refl

  backspace :
      (back : VgaText)
      → back.xpos < vga_console_width
      → back.ypos < vga_console_height
      → position back ≡ position s - 1
      → back.vgabuffer ≡ s.vgabuffer
      → Drawn s 8 color (vga_print_char_at back back.xpos back.ypos b' ' color)
  backspace back h k at same = rw (vga_print_char_at-drawn_at back b' ' h k) (record {
    column = h;
    row = omega arith;
    below = λ e. absurd (omega arith);
    at = at;
    attribute = refl;
    cells = λ i.
        rw
          (
            place_of-write_place back.vgabuffer (position back)
                (vga_get_character_with_color b' ' color) i,
            at,
            same,
          )
          refl;
  })

  draw-backspace : Drawn s 8 color (draw s 8 color)
  unfolding draw
  draw-backspace = elim (Bool-cases (ltb 0 s.xpos)) [
    | inl e ↦ rw e (
        backspace (record s { xpos = s.xpos - 1 }) (omega (arith, v.column)) v.row (ground arith)
          refl)
    | inr e ↦ rw e (elim (Bool-cases (ltb 0 s.ypos)) [
      | inl f ↦ rw f (
          backspace (record s { ypos = s.ypos - 1; xpos = 79 }) (omega arith) (omega (arith, v.row))
            (ground arith) refl)
      | inr f ↦ rw f (backspace s v.column v.row (ground arith) refl)
    ])
  ]

  draw_other : (c : ℕ) → (c == b'\n') ≡ false → (c == 8) ≡ false → Drawn s c color (draw s c color)
  unfolding draw
  draw_other c e f =
      let cells : (i : ℕ) → place_of (drawn_at s c).vgabuffer i ≡ shows_after s c color i = λ i.
        rw (e, f)
          (place_of-write_place s.vgabuffer (position s) (vga_get_character_with_color c color)
            i) in
      rw (e, f, vga_print_char_at-drawn_at s c v.column v.row)
        (elim (Bool-cases (leb vga_console_width (s.xpos + 1))) [
          | inl g ↦ rw g (record {
            column = omega arith;
            row = omega (arith, v.row);
            below = λ e. refl;
            at = ground (arith, v.column);
            attribute = rw e refl;
            cells = cells;
          })
          | inr g ↦ rw g (record {
            column = ground arith;
            row = omega (arith, v.row);
            below = λ e. absurd (omega (arith, v.row));
            at = ground arith;
            attribute = rw e refl;
            cells = cells;
          })
        ])

  draw-Drawn : (c : ℕ) → Drawn s c color (draw s c color)
  draw-Drawn c = elim (Bool-cases (c == b'\n')) [
    | inl e ↦ let eq : c ≡ b'\n' = ground arith in rw eq draw-newline
    | inr e ↦ elim (Bool-cases (c == 8)) [
      | inl f ↦ let eq : c ≡ 8 = ground arith in rw eq draw-backspace
      | inr f ↦ draw_other c e f
    ]
  ]

-- A character drawn, with the rows moved up where the place behind it is past the end.
pub data Prints (s : VgaText) (c color : ℕ) (s' : VgaText) : Type 0 where
  within :
      next_place s c < places
      → position s' ≡ next_place s c
      → ((i : ℕ) → i < places → place_of s'.vgabuffer i ≡ shows_after s c color i)
      → Prints s c color s'
  scrolled :
      places ≤ next_place s c
      → position s' ≡ next_place s c - vga_console_width
      → ((i : ℕ)
          → i < places
          → place_of s'.vgabuffer i ≡ (
              if ltb (i + vga_console_width) places
              then shows_after s c color (i + vga_console_width)
              else vga_get_character_with_color b' ' (last_color s c color)))
      → Prints s c color s'

-- VGAPrintCharacter from a cursor on the screen leaves the cursor on the screen, where the hardware
-- shows it, and changes the screen like a line of 2000 places: a character is written at the cursor,
-- which goes to the next place; a newline takes it to the next row; a backspace blanks the place before it
-- and goes there, at the first place that place; past the last place the rows move up by one, and the last is
-- blank in the colour that was drawn last.
pub vga_print_character-Prints :
    (s : VgaText) (c color : ℕ)
    → IsOnScreen s
    → IsOnScreen (vga_print_character s c color) × Prints s c color (vga_print_character s c color)
unfolding vga_print_character vga_set_cursor_position
vga_print_character-Prints s c color v =
    let drawn : VgaText = draw s c color in
    let d = draw-Drawn s color v c in
    elim (Bool-cases (leb vga_console_height drawn.ypos)) [
      | inr e ↦
          let on : drawn.ypos < vga_console_height = ground arith in
          rw e (
            record { column = d.column; row = on; shown = omega (arith, d.column) },
            Prints.within (omega (arith, d.column, d.at)) d.at (λ i h. d.cells i),
          )
      | inl e ↦
          let end : drawn.ypos ≡ vga_console_height = ground (arith, d.row) in
          let at : drawn.xpos ≡ 0 = d.below end in
          let (column, cursor) = vga_scroll_buffer_cursor drawn in
          let cells : (i : ℕ)
              → i < places
              → place_of (vga_scroll_buffer drawn).vgabuffer i ≡ (
                  if ltb (i + vga_console_width) places
                  then shows_after s c color (i + vga_console_width)
                  else vga_get_character_with_color b' ' (last_color s c color)) =
            λ i h. elim (Bool-cases (ltb i 1920)) [
              | inl f ↦
                  let near : ltb (i + 80) places ≡ true = ground arith in
                  rw (near, place_of-vga_scroll_buffer drawn i h, f) (d.cells (i + 80))
              | inr f ↦
                  let far : ltb (i + 80) places ≡ false = ground arith in
                  rw (far, place_of-vga_scroll_buffer drawn i h, f)
                    (ap (λ (a : ℕ). vga_get_character_with_color b' ' a) d.attribute)
            ] in
          rw e (
            record { column = omega (arith, column); row = omega arith; shown = omega arith },
            Prints.scrolled (omega (arith, d.at, at, end)) (omega (arith, d.at, at, end)) cells,
          )
    ]
