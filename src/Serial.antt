-- ===== src/Serial.antt =====
-- serial_port.c over a device. A wait for the line has fuel for its looks at the line status.
pub mod Sending
mod Tests
use ntm_os.Prelude.{ℕ, zero, suc, ◌+◌, ◌*◌, ◌/◌, ◌%◌, List, [], ◌∷◌, ◌==◌, if◌then◌else◌}
use ntm_os.Prelude.Int.{ℤ, pos}
use ntm_os.Prelude.Memory.{Memory}
use ntm_os.Prelude.Run.{Run, done, out_of_fuel, ◌>>=◌}
use ntm_os.Prelude.Device.{Device, out_all, poll_while}

unfoldable pub com1_port : ℕ
com1_port = 0x3f8

-- The bytes that `initial_serial` sends before its loopback test.
unfoldable pub serial_setup : ℕ → List (ℕ × ℕ)
serial_setup port =
    (port + 1, 0x00)
    ∷ (port + 3, 0x80)
    ∷ (port + 0, 0x01)
    ∷ (port + 1, 0x00)
    ∷ (port + 3, 0x00)
    ∷ (port + 3, 0x03)
    ∷ (port + 2, 0xc7)
    ∷ (port + 4, 0x0b)
    ∷ (port + 4, 0x1f)
    ∷ (port + 0, 0xae)
    ∷ []

module _ (D : Device) where
  -- The result of the loopback test is overwritten with 0 before it is returned.
  unfoldable pub initial_serial : ℕ → D.State → ℤ × D.State
  initial_serial port d =
      let d' = (D.in8 port (out_all D (serial_setup port) d)).1 in
      (pos 0, D.out8 (port + 4) 0x0f d')

  unfoldable pub serial_received : ℕ → D.State → ℕ × D.State
  serial_received port d = let (v, d') = D.in8 (port + 5) d in (v % 2, d')

  unfoldable pub read_serial : ℕ → ℕ → D.State → Run (ℕ × D.State)
  read_serial fuel port d =
      poll_while D (λ v. v % 2 == 0) fuel (port + 5) d >>= (λ d'. done (D.in8 port d'))

  unfoldable pub is_transmit_empty : ℕ → D.State → ℕ × D.State
  is_transmit_empty port d = let (v, d') = D.in8 (port + 5) d in (32 * (v / 32 % 2), d')

  -- The port takes the low byte of the `int`.
  unfoldable pub write_serial : ℕ → ℕ → ℕ → D.State → Run D.State
  write_serial fuel port value d =
      poll_while D (λ v. 32 * (v / 32 % 2) == 0) fuel (port + 5) d
      >>= (λ d'. done (D.out8 port (value % 256) d'))

  -- The loop of `sp_put_string`, with a bound on its rounds.
  unfoldable pub put_bytes : ℕ → ℕ → Memory → ℕ → D.State → Run D.State
  put_bytes fuel zero m str d = out_of_fuel
  put_bytes fuel (suc n) m str d =
      let rest = write_serial fuel com1_port (m str) d >>= put_bytes fuel n m (str + 1) in
      if m str == 0 then done d else rest

  unfoldable pub sp_put_string : ℕ → ℕ → Memory → ℕ → D.State → Run D.State
  sp_put_string fuel n m str d =
      put_bytes fuel n m str d
      >>= (λ d1. write_serial fuel com1_port 0x0a d1 >>= write_serial fuel com1_port 0x0d)
