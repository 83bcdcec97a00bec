-- ===== src/Palette.antt =====
-- The palette of k_vga.c, as the bytes that are sent to the ports of the video card.
pub mod Colours
mod Tests
use ntm_os.Prelude.{ℕ, zero, suc, ◌+◌, ◌-◌, ◌*◌, ◌/◌, List, [], ◌∷◌, get_or, leb, if◌then◌else◌}

-- The loop of `set_palette`, with the rounds left; `k` is where `pRGB` points to in the table.
unfoldable pub send_colours : ℕ → ℕ → (ℕ → ℕ) → List (ℕ × ℕ)
send_colours zero k rgb = []
send_colours (suc n) k rgb =
    (0x3c9, rgb k / 4)
    ∷ (0x3c9, rgb (k + 1) / 4)
    ∷ (0x3c9, rgb (k + 2) / 4)
    ∷ send_colours n (k + 3) rgb

-- `start` and `end` are not negative.
unfoldable pub set_palette : ℕ → ℕ → (ℕ → ℕ) → List (ℕ × ℕ)
set_palette start end rgb =
    (0x3c8, start) ∷ send_colours (if leb start end then end - start + 1 else 0) 0 rgb

unfoldable pub table_rgb : List ℕ
table_rgb =
    0x00 ∷ 0x00 ∷ 0x00 ∷ 0xff ∷ 0x00 ∷ 0x00 ∷ 0x00 ∷ 0xff ∷ 0x00 ∷ 0xff ∷ 0xff ∷ 0x00 ∷ 0x00 ∷ 0x00
    ∷ 0xff ∷ 0xff ∷ 0x00 ∷ 0xff ∷ 0x00 ∷ 0xff ∷ 0xff ∷ 0xff ∷ 0xff ∷ 0xff ∷ 0xc6 ∷ 0xc6 ∷ 0xc6
    ∷ 0x84 ∷ 0x00 ∷ 0x00 ∷ 0x00 ∷ 0x84 ∷ 0x00 ∷ 0x84 ∷ 0x84 ∷ 0x00 ∷ 0x00 ∷ 0x00 ∷ 0x84 ∷ 0x84
    ∷ 0x00 ∷ 0x84 ∷ 0x00 ∷ 0x84 ∷ 0x84 ∷ 0x84 ∷ 0x84 ∷ 0x84 ∷ []

unfoldable pub init_palette : List (ℕ × ℕ)
init_palette = set_palette 0 15 (λ k. get_or table_rgb k 0)
