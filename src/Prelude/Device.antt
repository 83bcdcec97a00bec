-- ===== src/Prelude/Device.antt =====
-- The machine's input and output ports. What stands behind a port is a parameter: a device with a
-- state, which a read or a write of a port may change.
use ntm_os.Prelude.Tests.{if◌then◌else◌}
use ntm_os.Prelude.Run.{Run, done, out_of_fuel}
use Prim.Native.Nat.{ℕ, zero, suc}
use mathlib.Core.Bool.{Bool}
use mathlib.Core.List.{List, [], ◌∷◌}

-- `_io_in8`, `_io_in16` and `_io_out8`.
pub record Device : Type 1 where
  pub State : Type 0
  pub in8 : ℕ → State → ℕ × State
  pub in16 : ℕ → State → ℕ × State
  pub out8 : ℕ → ℕ → State → State

module _ (D : Device) where
  -- Bytes sent to ports, in order.
  abbrev pub out_all : List (ℕ × ℕ) → D.State → D.State
  out_all [] d = d
  out_all ((port, v) ∷ more) d = out_all more (D.out8 port v d)

  -- Bytes read from a port, and thrown away.
  unfoldable pub skip : ℕ → ℕ → D.State → D.State
  skip zero port d = d
  skip (suc n) port d = skip n port (D.in8 port d).1

  -- `while (test(_io_in8(port)));`
  unfoldable pub poll_while : (ℕ → Bool) → ℕ → ℕ → D.State → Run D.State
  poll_while test zero port d = out_of_fuel
  poll_while test (suc fuel) port d =
      let (v, d') = D.in8 port d in
      let rest = poll_while test fuel port d' in if test v then rest else done d'
