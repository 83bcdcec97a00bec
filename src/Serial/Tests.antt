-- ===== src/Serial/Tests.antt =====
-- A transmitter that takes two looks at its status for a byte, and a run on it.
use ntm_os.Prelude.{
  ℕ, ◌-◌, ◌≡◌, ◌≤◌, ◌/◌, ◌%◌, refl, arith, List, [], ◌∷◌, ◌++◌, ◌==◌, if◌then◌else◌,
}
use ntm_os.Prelude.Int.{pos}
use ntm_os.Prelude.Memory.{Memory}
use ntm_os.Prelude.Run.{done}
use ntm_os.Prelude.Device.{Device, poll_while}
use ntm_os.KString.Text.{CString}
use ntm_os.Serial.{initial_serial, read_serial, serial_received, sp_put_string}
use ntm_os.Serial.Sending.{Uart, sp_put_string-Sent}

record LineState : Type 0 where
  sent : List ℕ
  busy : ℕ

abbrev test_line : Device
test_line = record {
  State = LineState;
  in8 = λ port s. (if s.busy == 0 then 0x21 else 0, record s { busy = s.busy - 1 });
  in16 = λ port s. (0, s);
  out8 = λ port v s. if port == 0x3f8 then record { sent = s.sent ++ (v ∷ []); busy = 2 } else s;
}

status_shown : (n : ℕ) → (if n == 0 then 0x21 else 0) / 32 % 2 ≡ (if n == 0 then 1 else 0)
status_shown n = ground arith

two_fits : 2 ≤ 2
two_fits = omega arith

abbrev test_uart : Uart test_line
test_uart = record {
  sent = λ s. s.sent;
  busy = λ s. s.busy;
  longest = 2;
  status = λ d. (status_shown d.busy, refl, refl);
  byte = λ v d ready. (refl, two_fits);
}

abbrev text : Memory
text a = if a == 100 then 0x4f else if a == 101 then 0x4b else 0

text-CString : CString text 100 2
text-CString = record { bytes = λ i less. ground arith; end = refl }

abbrev idle : LineState
idle = record { sent = []; busy = 0 }

sp_put_string-Sent_example :
    (d' : LineState) × (sp_put_string test_line 3 3 text 100 idle ≡ done d')
    × (d'.sent ≡ 0x4f ∷ 0x4b ∷ 0x0a ∷ 0x0d ∷ [])
sp_put_string-Sent_example =
    sp_put_string-Sent test_line test_uart 3 3 2 text 100 idle (omega arith) (omega arith)
      (omega arith) text-CString

initial_serial_test : (initial_serial test_line 0x3f8 idle).0 ≡ pos 0
unfolding initial_serial
initial_serial_test = refl

serial_received_test : (serial_received test_line 0x3f8 idle).0 ≡ 1
unfolding serial_received
serial_received_test = refl

read_serial_test :
    read_serial test_line 2 0x3f8 (record { sent = []; busy = 1 })
    ≡ done (0x21, record { sent = []; busy = 0 })
unfolding read_serial poll_while
read_serial_test = refl
