-- ===== src/Keyboard/Pairs.antt =====
-- The codes of a key's press and of its release.
use ntm_os.Prelude.{
  ℕ, ◌+◌, ◌%◌, ◌≤◌, ◌<◌, ◌≡◌, ◌&&◌, Bool, true, false, refl, ap, sym, ◌∙◌, arith, leb, ◌==◌,
  all_below, all_below_sound, if◌then◌else◌,
}
use ntm_os.Keyboard.{Keypress, key_down, key_up, entry, event_char, g_keyboard_scancode_set_1_size}

is_up : Keypress → Bool
is_up key_down = false
is_up key_up = true

abbrev paired : ℕ → Bool
paired code =
    ((entry code).keychar == (entry (code + 0x80)).keychar)
    && is_up (entry (code + 0x80)).keypress
    && (if is_up (entry code).keypress then false else true)

pairs_table : all_below 0x59 paired ≡ true
unfolding all_below is_up
pairs_table = refl

pair_lem :
    (c d : ℕ) (k l : Keypress)
    → ((c == d) && is_up l && (if is_up k then false else true)) ≡ true
    → (c ≡ d) × (k ≡ key_down) × (l ≡ key_up)
unfolding is_up
pair_lem c d key_down key_down h = ground arith
pair_lem c d key_down key_up h = (ground arith, refl, refl)
pair_lem c d key_up key_down h = ground arith
pair_lem c d key_up key_up h = ground arith

size_lem : g_keyboard_scancode_set_1_size ≡ 0xd9
size_lem = refl

event_char-entry : (code : ℕ) → code ≤ 0xd8 → event_char code ≡ (entry code).keychar % 256
unfolding event_char
event_char-entry code small = let inside : leb code 0xd8 ≡ true = ground arith in rw inside refl

-- A scan code below 0x59 and the same code with its top bit set are the press and the release of
-- one key, both in the table, and the keyboard interrupt makes the same event character of both.
pub event_char_pairs :
    (code : ℕ)
    → code < 0x59
    → (code + 0x80 < g_keyboard_scancode_set_1_size)
      × ((entry code).keypress ≡ key_down)
      × ((entry (code + 0x80)).keypress ≡ key_up)
      × (event_char code ≡ event_char (code + 0x80))
event_char_pairs code small =
    let (same, pressed, released) =
      pair_lem _ _ _ _ (all_below_sound 0x59 paired code pairs_table small) in
    (
      omega (arith, size_lem),
      pressed,
      released,
      event_char-entry code (omega arith)
          ∙ ap (λ c. c % 256) same
          ∙ sym (event_char-entry (code + 0x80) (omega arith)),
    )
