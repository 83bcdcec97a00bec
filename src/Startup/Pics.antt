-- ===== src/Startup/Pics.antt =====
-- The interrupt controllers after the start.
use ntm_os.Prelude.{ℕ, true, ◌≤◌, ◌≡◌, Bool, false, List, [], ◌∷◌, if◌then◌else◌}
use ntm_os.Prelude.Device.{Device}
use ntm_os.Startup.Machine.{Pic, pic_out, is_keyboard, Machine}

abbrev pic_outs : ℕ → List (ℕ × ℕ) → Pic → Pic
pic_outs command [] p = p
pic_outs command ((port, v) ∷ more) p = pic_outs command more (pic_out command port v p)

abbrev no_keyboard : List (ℕ × ℕ) → Bool
no_keyboard [] = true
no_keyboard ((port, v) ∷ more) = if is_keyboard port then false else no_keyboard more

module _ (D : Device) (machine : Machine D) where
  -- A state whose controllers are `p` and `q`, and whose keyboard controller has heard `l`.
  record At (p q : Pic) (l : List (ℕ × ℕ)) (d : D.State) : Type 0 where
    first : machine.pic0 d ≡ p
    second : machine.pic1 d ≡ q
    keyboard : machine.heard d ≡ l
    wait : machine.busy d ≤ machine.longest
