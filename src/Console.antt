-- ===== src/Console.antt =====
-- The console server's text screen, base/vgacons/driver.c. The VGA buffer is a memory of bytes, two for a
-- place, from the buffer's start on; a write to the cursor's registers is a field.
pub mod Screen
pub mod Strings
pub mod Server
mod Tests
use dragon_ware.Base.{
  ℕ, zero, suc, ◌+◌, ◌-◌, ◌*◌, ◌/◌, ◌%◌, ◌^◌, List, [], ◌∷◌, leb, ltb, ◌==◌, if◌then◌else◌, bit_or,
}
use dragon_ware.Base.Store.{update}
use dragon_ware.Text.Move.{memmove_libc}

abbrev pub vga_console_width : ℕ
vga_console_width = 80

abbrev pub vga_console_height : ℕ
vga_console_height = 25

-- `xpos` and `ypos` are never below 0.
pub record VgaText : Type 0 where
  pub xpos : ℕ
  pub ypos : ℕ
  pub color_attribute : ℕ
  pub vgabuffer : ℕ → ℕ
  pub cursor : ℕ

-- A `char` is signed: a byte from 128 on widens with ones.
unfoldable pub vga_get_character_with_color : ℕ → ℕ → ℕ
vga_get_character_with_color c color =
    bit_or (if ltb c 128 then c else 0xFF00 + c) (color * 256 % 2 ^ 16)

abbrev pub vga_text_mode_index : ℕ → ℕ → ℕ
vga_text_mode_index x y = y * vga_console_width + x

-- `vgabuffer[index] = w`.
abbrev pub write_place : (ℕ → ℕ) → ℕ → ℕ → ℕ → ℕ
write_place buffer index w = update (update buffer (2 * index) (w % 256)) (2 * index + 1) (w / 256)

unfoldable pub vga_set_cursor_position : VgaText → ℕ → ℕ → VgaText
vga_set_cursor_position s x y = record s { cursor = vga_text_mode_index x y % 2 ^ 16 }

-- The loop of VGAClearAllText and of VGAScrollBuffer, from place `i` on.
unfoldable pub fill_places : ℕ → ℕ → ℕ → (ℕ → ℕ) → ℕ → ℕ
fill_places zero i colorattr buffer = buffer
fill_places (suc rounds) i colorattr buffer =
    fill_places rounds (i + 1) colorattr
      (write_place buffer i (vga_get_character_with_color b' ' colorattr))

unfoldable pub vga_clear_all_text : VgaText → ℕ → VgaText
vga_clear_all_text s colorattr =
    vga_set_cursor_position
      (record s {
        vgabuffer = fill_places (vga_console_width * vga_console_height) 0 colorattr s.vgabuffer;
        xpos = 0;
        ypos = 0;
      })
      0 0

unfoldable pub vga_print_char_at : VgaText → ℕ → ℕ → ℕ → ℕ → VgaText
vga_print_char_at s x y c color =
    if leb vga_console_width x then s else if leb vga_console_height y then s else record s {
      color_attribute = color;
      vgabuffer =
          write_place s.vgabuffer (vga_text_mode_index x y) (vga_get_character_with_color c color);
    }

unfoldable pub vga_scroll_buffer : VgaText → VgaText
vga_scroll_buffer s =
    let shifted =
      memmove_libc 0 (2 * vga_console_width) ((vga_console_height - 1) * vga_console_width * 2)
        s.vgabuffer in
    vga_set_cursor_position
      (record s {
        vgabuffer =
            fill_places vga_console_width ((vga_console_height - 1) * vga_console_width)
              s.color_attribute shifted;
        ypos = vga_console_height - 1;
        xpos = 0;
      })
      0 (vga_console_height - 1)

-- The place before the cursor's, to which a backspace goes.
abbrev pub step_back : VgaText → VgaText
step_back s =
    if ltb 0 s.xpos
    then record s { xpos = s.xpos - 1 }
    else if ltb 0 s.ypos
    then record s { ypos = s.ypos - 1; xpos = vga_console_width - 1 }
    else s

abbrev pub step_on : VgaText → VgaText
step_on s =
    if leb vga_console_width (s.xpos + 1)
    then record s { xpos = 0; ypos = s.ypos + 1 }
    else record s { xpos = s.xpos + 1 }

-- The `switch` of VGAPrintCharacter.
unfoldable pub draw : VgaText → ℕ → ℕ → VgaText
draw s c color =
    if c == b'\n'
    then record s { xpos = 0; ypos = s.ypos + 1 }
    else if c == 8
    then vga_print_char_at (step_back s) (step_back s).xpos (step_back s).ypos b' ' color
    else step_on (vga_print_char_at s s.xpos s.ypos c color)

unfoldable pub vga_print_character : VgaText → ℕ → ℕ → VgaText
vga_print_character s c color =
    let drawn = draw s c color in
    if leb vga_console_height drawn.ypos
    then record (vga_scroll_buffer drawn) { ypos = vga_console_height - 1 }
    else vga_set_cursor_position drawn drawn.xpos drawn.ypos

unfoldable pub vga_print_string : VgaText → List ℕ → ℕ → VgaText
vga_print_string s [] color = s
vga_print_string s (c ∷ str) color = vga_print_string (vga_print_character s c color) str color
