-- ===== src/Console/Tests.antt =====
-- A screen of zeros, with the cursor in its last row.
use dragon_ware.Base.{List, Option, none, some, ◌≡◌, refl, [], ◌∷◌, arith}
use dragon_ware.Text.Move.{copy_down, memmove, memmove_libc, moved, memmove-moved}
use dragon_ware.Console.{
  VgaText, vga_get_character_with_color, vga_print_character, vga_print_string, vga_print_char_at,
  draw, vga_set_cursor_position,
}
use dragon_ware.Console.Screen.{IsOnScreen, Prints, position, vga_print_character-Prints}
use dragon_ware.Kernel.State.{Message, minus_one}
use dragon_ware.Console.Server.Claimed.{GoesOn, passed_to, serve-Keeps}
use dragon_ware.Console.Server.{Server, Sent, handle_message, on_claim, serve}
use dragon_ware.Console.Strings.{Writes, vga_print_string-Writes}

abbrev bottom : VgaText
bottom = record { xpos = 79; ypos = 24; color_attribute = 7; vgabuffer = λ i. 0; cursor = 1999 }

bottom-IsOnScreen : IsOnScreen bottom
bottom-IsOnScreen = record { column = omega arith; row = omega arith; shown = refl }

abbrev top : VgaText
top = record { xpos = 78; ypos = 0; color_attribute = 7; vgabuffer = λ i. 0; cursor = 78 }

top-IsOnScreen : IsOnScreen top
top-IsOnScreen = record { column = omega arith; row = omega arith; shown = refl }

wraps : position (vga_print_string top (b'a' ∷ b'b' ∷ b'c' ∷ []) 7) ≡ 81
unfolding vga_print_string vga_print_character draw vga_print_char_at vga_set_cursor_position
wraps = refl

wide_character : vga_get_character_with_color 200 7 ≡ 0xFFC8
unfolding vga_get_character_with_color
wide_character = refl

overlap : memmove 1 0 3 (λ i. i) 3 ≡ 2
unfolding memmove copy_down
overlap = refl

memmove-moved_example :
    (memmove 1 0 3 (λ i. i) 3 ≡ moved 1 0 3 (λ i. i) 3)
    × (memmove_libc 1 0 3 (λ i. i) 3 ≡ moved 1 0 3 (λ i. i) 3)
memmove-moved_example = memmove-moved 1 0 3 (λ i. i) 3

vga_print_character-Prints_example :
    IsOnScreen (vga_print_character bottom b'a' 15)
    × Prints bottom b'a' 15 (vga_print_character bottom b'a' 15)
vga_print_character-Prints_example = vga_print_character-Prints bottom b'a' 15 bottom-IsOnScreen

vga_print_string-Writes_example :
    Writes top (b'a' ∷ b'b' ∷ b'c' ∷ []) 7 (vga_print_string top (b'a' ∷ b'b' ∷ b'c' ∷ []) 7)
vga_print_string-Writes_example =
    vga_print_string-Writes (b'a' ∷ b'b' ∷ b'c' ∷ []) top 7 top-IsOnScreen refl (omega arith)

abbrev request : Message
request = record {
  msgid = 0;
  reply_handle = 3;
  sender = 2;
  type = 0xA4;
  protocol = 0xAF82;
  payload_length = 0;
  reserved = 0;
  payload = [];
}

abbrev key : Message
key = record request { protocol = 0x5E74; payload = b'x' ∷ []; payload_length = 1 }

abbrev idle : Server
idle = record { screen = top; console_controller = minus_one }

abbrev busy : Server
busy = record { screen = top; console_controller = 5 }

abbrev sent_of : Option (Server × List Sent) → List Sent
sent_of none = []
sent_of (some r) = r.1

claimed_once :
    sent_of (serve idle (request ∷ record request { reply_handle = 4 } ∷ []))
    ≡ Sent.answered 3 0xA4 0 ∷ []
unfolding serve handle_message on_claim
claimed_once = refl

serve-Keeps_example : GoesOn 5 (passed_to 5 (request ∷ key ∷ [])) (serve busy (request ∷ key ∷ []))
serve-Keeps_example =
    serve-Keeps (request ∷ key ∷ []) busy top-IsOnScreen refl (omega arith, (omega arith, tt))
