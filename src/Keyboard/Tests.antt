-- ===== src/Keyboard/Tests.antt =====
-- The key A.
use ntm_os.Prelude.{◌+◌, ◌<◌, ◌≡◌, refl, arith}
use ntm_os.Keyboard.{g_keyboard_scancode_set_1_size, entry, key_down, key_up, event_char}
use ntm_os.Keyboard.Pairs.{event_char_pairs}

event_char-a : event_char 0x1e ≡ 65
unfolding event_char
event_char-a = refl

event_char_pairs_example :
    (0x1e + 0x80 < g_keyboard_scancode_set_1_size)
    × ((entry 0x1e).keypress ≡ key_down)
    × ((entry (0x1e + 0x80)).keypress ≡ key_up)
    × (event_char 0x1e ≡ event_char (0x1e + 0x80))
event_char_pairs_example = event_char_pairs 0x1e (omega arith)
