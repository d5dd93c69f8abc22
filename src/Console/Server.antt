-- ===== src/Console/Server.antt =====
-- The message loop of the console server, base/vgacons/console.c: what it does with a message that it received.
-- Its start, which sets up the ports and the screen, is left out.
pub mod Claimed
use dragon_ware.Base.{
  ℕ, ◌+◌, ◌^◌, ◌≡◌, refl, Bool, false, Bool-cases, inl, inr, Option, none, some, List, [], ◌∷◌,
  ◌++◌, ◌∙◌, leb, not, ◌==◌, ◌||◌, if◌then◌else◌, take, get_or,
}
use dragon_ware.Text.Case.{text_of}
use dragon_ware.Kernel.State.{Message, sizeof_header, message_buffer_size}
use dragon_ware.Console.{VgaText, vga_print_character, vga_print_string}
use dragon_ware.Console.Screen.{IsOnScreen, vga_print_character-Prints}

abbrev pub kbd_protocol_v0 : ℕ
kbd_protocol_v0 = 0x5E74

abbrev pub vgacons_protocol_v0 : ℕ
vgacons_protocol_v0 = 0xAF82

abbrev pub vgacons_request_char_draw : ℕ
vgacons_request_char_draw = 0xB8

abbrev pub vgacons_request_string_draw : ℕ
vgacons_request_string_draw = 0xE1

abbrev pub vgacons_claim_console : ℕ
vgacons_claim_console = 0xA4

-- VGAGetColorAttribute(VGATEXT_COLOR_LIGHT_GREY, VGATEXT_COLOR_BLACK).
abbrev pub default_color : ℕ
default_color = 7

-- A handle is a word; from 2 ^ 31 on it is negative.
abbrev pub is_negative : ℕ → Bool
is_negative handle = leb (2 ^ 31) handle

-- A message that the server sends on: to a handle, of a size; or its answer of a type, with one byte.
pub data Sent : Type 0 where
  passed_on : ℕ → Message → ℕ → Sent
  answered : ℕ → ℕ → ℕ → Sent

pub record Server : Type 0 where
  pub screen : VgaText
  pub console_controller : ℕ

abbrev pub with_screen : Server → VgaText → Server
with_screen s screen = record s { screen = screen }

-- A character of the keyboard: drawn, and passed on to the controller.
unfoldable pub on_keyboard : Server → Message → Server × List Sent
on_keyboard s m =
    let c = get_or m.payload 0 0 in
    (
      (if not (c == 8) || is_negative s.console_controller
          then with_screen s (vga_print_character s.screen c default_color)
          else s),
      (if not (is_negative s.console_controller)
          then passed_on s.console_controller m (sizeof_header + m.payload_length) ∷ []
          else []),
    )

-- LogStatus("Client connected.").
abbrev pub client_connected : List ℕ
client_connected =
    b'c' ∷ b'o' ∷ b'n' ∷ b's' ∷ b'o' ∷ b'l' ∷ b'e' ∷ b':' ∷ b' ' ∷ b'C' ∷ b'l' ∷ b'i' ∷ b'e' ∷ b'n'
    ∷ b't' ∷ b' ' ∷ b'c' ∷ b'o' ∷ b'n' ∷ b'n' ∷ b'e' ∷ b'c' ∷ b't' ∷ b'e' ∷ b'd' ∷ b'.' ∷ b'\n' ∷ []

unfoldable pub on_claim : Server → Message → Server × List Sent
on_claim s m =
    if is_negative m.reply_handle
    then (s, [])
    else if not (is_negative s.console_controller)
    then (s, [])
    else (
      record {
        screen = vga_print_string s.screen client_connected default_color;
        console_controller = m.reply_handle;
      },
      answered m.reply_handle m.type 0 ∷ [],
    )

-- The body of the loop for a message that was received. The server's buffer for a text holds 256 bytes; for a
-- payload as long as that, the null byte is written behind it, which is `none`.
unfoldable pub handle_message : Server → Message → Option (Server × List Sent)
handle_message s m =
    if m.protocol == kbd_protocol_v0
    then some (on_keyboard s m)
    else if not (m.protocol == vgacons_protocol_v0)
    then some (s, [])
    else if m.type == vgacons_claim_console
    then some (on_claim s m)
    else if m.type == vgacons_request_string_draw
    then (if leb message_buffer_size m.payload_length
        then none
        else some (
          with_screen s
              (vga_print_string s.screen (text_of (take m.payload_length m.payload)) default_color),
          [],
        ))
    else if m.type == vgacons_request_char_draw
    then some
        (with_screen s (vga_print_character s.screen (get_or m.payload 0 0) default_color), [])
    else some (s, [])

-- The loop over the messages received, in their order.
unfoldable pub serve : Server → List Message → Option (Server × List Sent)
serve s [] = some (s, [])
serve s (m ∷ ms) = elim (handle_message s m) [
  | none ↦ none
  | some (s', sent) ↦ elim (serve s' ms) [
    | none ↦ none
    | some (s'', more) ↦ some (s'', sent ++ more)
  ]
]
