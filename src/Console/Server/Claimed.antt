-- ===== src/Console/Server/Claimed.antt =====
-- What the console server does once a program has claimed the console.
use dragon_ware.Base.{
  ℕ, ◌+◌, ◌≡◌, refl, false, Bool-cases, inl, inr, List, [], ◌∷◌, ◌++◌, Option, none, some, ◌<◌,
  arith, leb, ◌∙◌, ◌==◌, if◌then◌else◌, take, get_or,
}
use dragon_ware.Text.Case.{text_of}
use dragon_ware.Kernel.State.{Message, sizeof_header, message_buffer_size}
use dragon_ware.Console.{VgaText, vga_print_character, vga_print_string}
use dragon_ware.Console.Screen.{IsOnScreen, vga_print_character-Prints}
use dragon_ware.Console.Server.{
  kbd_protocol_v0, vgacons_protocol_v0, vgacons_request_char_draw, vgacons_request_string_draw,
  vgacons_claim_console, default_color, is_negative, Sent, passed_on, Server, on_keyboard, on_claim,
  handle_message, serve,
}

-- The keyboard's messages, passed on to a controller.
abbrev pub passed_to : ℕ → List Message → List Sent
passed_to controller [] = []
passed_to controller (m ∷ ms) =
    let rest = passed_to controller ms in
    if m.protocol == kbd_protocol_v0
    then passed_on controller m (sizeof_header + m.payload_length) ∷ rest
    else rest

vga_print_string-IsOnScreen :
    (str : List ℕ) (s : VgaText) (color : ℕ)
    → IsOnScreen s
    → IsOnScreen (vga_print_string s str color)
unfolding vga_print_string
vga_print_string-IsOnScreen [] s color v = v
vga_print_string-IsOnScreen (c ∷ str) s color v =
    vga_print_string-IsOnScreen str (vga_print_character s c color) color
      (vga_print_character-Prints s c color v).0

-- A claimed console, after a message.
pub record Keeps (controller : ℕ) (sent : List Sent) (r : Server × List Sent) : Type 0 where
  pub on_screen : IsOnScreen r.0.screen
  pub kept : r.0.console_controller ≡ controller
  pub passed : r.1 ≡ sent

-- The server goes on, with that.
pub data GoesOn (controller : ℕ) (sent : List Sent) : Option (Server × List Sent) → Type 0 where
  goes_on : (r : Server × List Sent) → Keeps controller sent r → GoesOn controller sent (some r)

-- Texts to draw leave room for a null byte.
abbrev pub AllShort : List Message → Type 0
AllShort [] = Unit {0}
AllShort (m ∷ ms) = (m.payload_length < message_buffer_size) × AllShort ms

module _ (s : Server) (m : Message) (v : IsOnScreen s.screen)
    (claimed : is_negative s.console_controller ≡ false) where
  on_keyboard-Keeps :
      Keeps s.console_controller
        (passed_on s.console_controller m (sizeof_header + m.payload_length) ∷ [])
        (on_keyboard s m)
  unfolding on_keyboard
  on_keyboard-Keeps = rw claimed (elim (Bool-cases (get_or m.payload 0 0 == 8)) [
    | inl e ↦ rw e (record { on_screen = v; kept = refl; passed = refl })
    | inr e ↦ rw e (record {
      on_screen = (vga_print_character-Prints s.screen (get_or m.payload 0 0) default_color v).0;
      kept = refl;
      passed = refl;
    })
  ])

  on_claim-Keeps : Keeps s.console_controller [] (on_claim s m)
  unfolding on_claim
  on_claim-Keeps = elim (Bool-cases (is_negative m.reply_handle)) [
    | inl e ↦ rw e (record { on_screen = v; kept = refl; passed = refl })
    | inr e ↦ rw (e, claimed) (record { on_screen = v; kept = refl; passed = refl })
  ]

  unchanged : GoesOn s.console_controller [] (some (s, []))
  unchanged = GoesOn.goes_on _ (record { on_screen = v; kept = refl; passed = refl })

  handle_message-GoesOn :
      m.payload_length < message_buffer_size
      → GoesOn s.console_controller (passed_to s.console_controller (m ∷ [])) (handle_message s m)
  unfolding handle_message
  handle_message-GoesOn short = elim (Bool-cases (m.protocol == kbd_protocol_v0)) [
    | inl e ↦ rw e (GoesOn.goes_on _ on_keyboard-Keeps)
    | inr e ↦ rw e (elim (Bool-cases (m.protocol == vgacons_protocol_v0)) [
      | inr f ↦ rw f unchanged
      | inl f ↦ rw f (elim (Bool-cases (m.type == vgacons_claim_console)) [
        | inl g ↦ rw g (GoesOn.goes_on _ on_claim-Keeps)
        | inr g ↦ rw g (elim (Bool-cases (m.type == vgacons_request_string_draw)) [
          | inl h ↦
              let fits : leb message_buffer_size m.payload_length ≡ false = ground arith in
              rw (h, fits)
                (GoesOn.goes_on _ (record {
                  on_screen =
                      vga_print_string-IsOnScreen (text_of (take m.payload_length m.payload))
                        s.screen default_color v;
                  kept = refl;
                  passed = refl;
                }))
          | inr h ↦ rw h (elim (Bool-cases (m.type == vgacons_request_char_draw)) [
            | inl i ↦ rw i (
                GoesOn.goes_on _ (record {
                  on_screen =
                      (vga_print_character-Prints s.screen (get_or m.payload 0 0) default_color
                        v).0;
                  kept = refl;
                  passed = refl;
                }))
            | inr i ↦ rw i unchanged
          ])
        ])
      ])
    ])
  ]

-- What is passed on of a message and of those behind it.
passed_to-append :
    (controller : ℕ) (m : Message) (ms : List Message)
    → passed_to controller (m ∷ []) ++ passed_to controller ms ≡ passed_to controller (m ∷ ms)
passed_to-append controller m ms = elim (Bool-cases (m.protocol == kbd_protocol_v0)) [
  | inl e ↦ rw e refl
  | inr e ↦ rw e refl
]

-- Once a program has claimed the console, the server goes on through all messages whose payloads have less
-- than 256 bytes, and the program keeps the console: all that the server sends from then on is the
-- keyboard's messages, in their order, each once and to that program, and the cursor stays on the screen. So a
-- later claim is not answered at all, though the protocol's description says STATUS_BAD.
pub serve-Keeps :
    (ms : List Message) (s : Server)
    → IsOnScreen s.screen
    → is_negative s.console_controller ≡ false
    → AllShort ms
    → GoesOn s.console_controller (passed_to s.console_controller ms) (serve s ms)
unfolding serve
serve-Keeps [] s v claimed short =
    GoesOn.goes_on _ (record { on_screen = v; kept = refl; passed = refl })
serve-Keeps (m ∷ ms) s v claimed (short, shorts) =
    first (handle_message-GoesOn s m v claimed short)
      (λ q on still. serve-Keeps ms q on still shorts)
  where
    behind :
        {r : Server × List Sent} {out : Option (Server × List Sent)}
        → Keeps s.console_controller (passed_to s.console_controller (m ∷ [])) r
        → GoesOn r.0.console_controller (passed_to r.0.console_controller ms) out
        → GoesOn s.console_controller
            (passed_to s.console_controller (m ∷ ms))
            (elim out [ none ↦ none | some q ↦ some (q.0, r.1 ++ q.1) ])
    behind one (GoesOn.goes_on q rest) = GoesOn.goes_on _ (record {
      on_screen = rest.on_screen;
      kept = rest.kept ∙ one.kept;
      passed = rw (one.passed, rest.passed, one.kept) (passed_to-append s.console_controller m ms);
    })

    first :
        {out : Option (Server × List Sent)}
        → GoesOn s.console_controller (passed_to s.console_controller (m ∷ [])) out
        → ((q : Server)
            → IsOnScreen q.screen
            → is_negative q.console_controller ≡ false
            → GoesOn q.console_controller (passed_to q.console_controller ms) (serve q ms))
        → GoesOn s.console_controller (passed_to s.console_controller (m ∷ ms)) (elim out [
          | none ↦ none
          | some q ↦ elim (serve q.0 ms) [ none ↦ none | some q' ↦ some (q'.0, q.1 ++ q'.1) ]
        ])
    first (GoesOn.goes_on q one) ih = behind one (ih q.0 one.on_screen (rw one.kept claimed))
