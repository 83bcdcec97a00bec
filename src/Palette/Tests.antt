-- ===== src/Palette/Tests.antt =====
-- The kernel's palette.
use ntm_os.Prelude.{◌+◌, ◌*◌, ◌≡◌, arith, get_or}
use ntm_os.Palette.{table_rgb, init_palette}
use ntm_os.Palette.Colours.{Dac, dac_outs, set_palette-dac_outs}

abbrev test_dac : Dac
test_dac = record { index = 77; part = 2; colours = λ c. 0 }

-- Green of colour 8 is 0xc6 / 4.
set_palette-dac_outs_example : (dac_outs init_palette test_dac).colours (3 * 8 + 1) ≡ 0x31
unfolding init_palette table_rgb
set_palette-dac_outs_example =
    set_palette-dac_outs 0 15 8 1 (λ k. get_or table_rgb k 0) test_dac (omega arith) (omega arith)
      (omega arith)
