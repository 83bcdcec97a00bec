-- ===== src/Serial/Sending.antt =====
-- The text that leaves by the serial port.
use ntm_os.Prelude.{
  ℕ, zero, suc, ◌+◌, ◌-◌, ◌*◌, ◌/◌, ◌%◌, ◌<◌, ◌≤◌, ◌≡◌, ◌≢◌, refl, ap, sym, ◌∙◌, arith, Bool, true,
  false, List, [], ◌∷◌, ◌++◌, ◌==◌, if◌then◌else◌, Bool-cases, inl, inr,
}
use mathlib.Core.List.{append_assoc, append-nil}
use ntm_os.Prelude.Memory.{Memory}
use ntm_os.Prelude.Run.{done, ◌>>=◌}
use ntm_os.Prelude.Device.{Device, poll_while}
use ntm_os.KString.Text.{CString}
use ntm_os.Serial.{com1_port, write_serial, put_bytes, sp_put_string}

-- What the data sheet says of a serial controller at the first port, in so far as the code relies
-- on it: a look at the line status shows bit 5 when the transmitter is empty, which it is after at
-- most `longest` looks that did not, and a byte that it then gets is sent after the earlier ones.
pub record Uart (D : Device) : Type 0 where
  pub sent : D.State → List ℕ
  pub busy : D.State → ℕ
  pub longest : ℕ
  pub status :
      (d : D.State)
      → let (v, d') = D.in8 0x3fd d in
        (v / 32 % 2 ≡ (if busy d == 0 then 1 else 0)) × (sent d' ≡ sent d) × (busy d' ≡ busy d - 1)
  pub byte :
      (v : ℕ) (d : D.State)
      → busy d ≡ 0
      → (sent (D.out8 0x3f8 v d) ≡ sent d ++ (v ∷ [])) × (busy (D.out8 0x3f8 v d) ≤ longest)

-- The low bytes of the `n` cells from `p`.
abbrev pub bytes_at : Memory → ℕ → ℕ → List ℕ
bytes_at m p zero = []
bytes_at m p (suc n) = m p % 256 ∷ bytes_at m (p + 1) n

module _ (D : Device) (uart : Uart D) where
  abbrev full : ℕ → Bool
  full v = 32 * (v / 32 % 2) == 0

  wait_ends :
      (fuel : ℕ) (d : D.State)
      → uart.busy d < fuel
      → (d' : D.State) × (poll_while D full fuel 0x3fd d ≡ done d')
        × (uart.sent d' ≡ uart.sent d)
        × (uart.busy d' ≡ 0)
  unfolding poll_while
  wait_ends zero d enough = absurd (omega arith)
  wait_ends (suc fuel) d enough =
      let (v, d1) = D.in8 0x3fd d in
      let (shown, same, fewer) = uart.status d in
      elim (Bool-cases (uart.busy d == 0)) [
        | inl ready ↦
            let stops : full (D.in8 0x3fd d).0 ≡ false = ground arith in
            ((D.in8 0x3fd d).1, (rw stops refl), same, fewer ∙ ground arith)
        | inr waits ↦
            let goes_on : full (D.in8 0x3fd d).0 ≡ true = ground arith in
            let less : uart.busy (D.in8 0x3fd d).1 < fuel = ground arith in
            let (d', run, kept, empty) = wait_ends fuel (D.in8 0x3fd d).1 less in
            (d', (rw goes_on run), kept ∙ same, empty)
      ]

  -- A byte is sent, and the line is then busy for at most `longest` looks.
  write_serial-Sent :
      (fuel value : ℕ) (d : D.State)
      → uart.busy d < fuel
      → (d' : D.State) × (write_serial D fuel com1_port value d ≡ done d')
        × (uart.sent d' ≡ uart.sent d ++ (value % 256 ∷ []))
        × (uart.busy d' ≤ uart.longest)
  unfolding write_serial com1_port
  write_serial-Sent fuel value d enough =
      let (d1, run, same, empty) = wait_ends fuel d enough in
      let (out, busy) = uart.byte (value % 256) d1 empty in
      (
        D.out8 0x3f8 (value % 256) d1,
        ap (λ r. r >>= (λ d'. done (D.out8 0x3f8 (value % 256) d'))) run,
        out ∙ ap (λ l. l ++ (value % 256 ∷ [])) same,
        busy,
      )

  put_bytes-Sent :
      (fuel rounds n : ℕ) (m : Memory) (str : ℕ) (d : D.State)
      → uart.longest < fuel
      → uart.busy d ≤ uart.longest
      → n < rounds
      → CString m str n
      → (d' : D.State) × (put_bytes D fuel rounds m str d ≡ done d')
        × (uart.sent d' ≡ uart.sent d ++ bytes_at m str n)
        × (uart.busy d' ≤ uart.longest)
  unfolding put_bytes
  put_bytes-Sent fuel zero n m str d enough busy more text = absurd (omega arith)
  put_bytes-Sent fuel (suc rounds) zero m str d enough busy more text =
      let here : str ≡ str + 0 = omega arith in
      let stops : m str == 0 ≡ true = ap (λ b. b == 0) (ap m here ∙ text.end) in
      (d, (rw stops refl), sym (append-nil (uart.sent d)), busy)
  put_bytes-Sent fuel (suc rounds) (suc n) m str d enough busy more text =
      let here : str + 0 ≡ str = omega arith in
      let some_byte : m str ≢ 0 = λ e. text.bytes 0 (omega arith) (ap m here ∙ e) in
      let goes_on : m str == 0 ≡ false = ground arith in
      let shift : (i : ℕ) → str + 1 + i ≡ str + suc i = λ i. omega arith in
      let tail : CString m (str + 1) n = record {
        bytes = λ i less zero. text.bytes (suc i) (omega arith) (sym (ap m (shift i)) ∙ zero);
        end = ap m (shift n) ∙ text.end;
      } in
      let (d1, run, out, busy1) = write_serial-Sent fuel (m str) d (omega arith) in
      let (d', rest, outs, busy') =
        put_bytes-Sent fuel rounds n m (str + 1) d1 enough busy1 (omega arith) tail in
      (
        d',
        (rw goes_on (ap (λ r. r >>= put_bytes D fuel rounds m (str + 1)) run ∙ rest)),
        outs
            ∙ ap (λ l. l ++ bytes_at m (str + 1) n) out
            ∙ append_assoc (uart.sent d) (m str % 256 ∷ []) (bytes_at m (str + 1) n),
        busy',
      )

-- If the transmitter of the first port is empty again after fewer looks at its status than the fuel
-- of a wait, sp_put_string of a string of `n` bytes ends after at most `n` + 1 rounds, and has sent
-- the low bytes of the string in their order, a line feed, and a carriage return, behind what was
-- sent before.
pub sp_put_string-Sent :
    (D : Device) (uart : Uart D) (fuel rounds n : ℕ) (m : Memory) (str : ℕ) (d : D.State)
    → uart.longest < fuel
    → uart.busy d ≤ uart.longest
    → n < rounds
    → CString m str n
    → (d' : D.State) × (sp_put_string D fuel rounds m str d ≡ done d')
      × (uart.sent d' ≡ uart.sent d ++ bytes_at m str n ++ (0x0a ∷ 0x0d ∷ []))
unfolding sp_put_string
sp_put_string-Sent D uart fuel rounds n m str d enough busy more text =
    let (d1, run1, out1, busy1) =
      put_bytes-Sent D uart fuel rounds n m str d enough busy more text in
    let (d2, run2, out2, busy2) = write_serial-Sent D uart fuel 0x0a d1 (omega arith) in
    let (d3, run3, out3, busy3) = write_serial-Sent D uart fuel 0x0d d2 (omega arith) in
    let last = write_serial D fuel com1_port 0x0d in
    (
      d3,
      ap (λ r. r >>= (λ d1. write_serial D fuel com1_port 0x0a d1 >>= last)) run1
          ∙ ap (λ r. r >>= last) run2
          ∙ run3,
      out3
          ∙ ap (λ l. l ++ (0x0d ∷ [])) (out2 ∙ ap (λ l. l ++ (0x0a ∷ [])) out1)
          ∙ append_assoc (uart.sent d ++ bytes_at m str n) (0x0a ∷ []) (0x0d ∷ []),
    )
