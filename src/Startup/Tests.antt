-- ===== src/Startup/Tests.antt =====
-- A machine with two interrupt controllers, and stubs, and runs on them.
use ntm_os.Prelude.{◌≡◌, refl, arith, ℕ, ◌-◌, List, [], ◌∷◌, ◌++◌, ◌||◌, ◌==◌, if◌then◌else◌}
use ntm_os.Prelude.Device.{Device}
use ntm_os.Startup.{Stubs, initial_idt}
use ntm_os.Startup.Gates.{gate_of, Are32Bit, initial_idt-gate_of}
use ntm_os.Startup.Machine.{Pic, pic_out, Machine}

abbrev test_stubs : Stubs
test_stubs = record {
  int20h = 0x80100000;
  int21h = 0x80100100;
  int24h = 0x80100200;
  int27h = 0x80100300;
  int2ch = 0x80100400;
  int80h = 0x80100500;
}

test_stubs-Are32Bit : Are32Bit test_stubs
test_stubs-Are32Bit = record {
  int20h = omega arith;
  int21h = omega arith;
  int24h = omega arith;
  int27h = omega arith;
  int2ch = omega arith;
  int80h = omega arith;
}

initial_idt-gate_of_example :
    gate_of (initial_idt test_stubs (λ a. 7)).0 0x21
    ≡ record { offset = 0x80100100; selector = 8; attr = 0x8e }
initial_idt-gate_of_example =
    initial_idt-gate_of test_stubs (λ a. 7) 0x21 test_stubs-Are32Bit (omega arith)

record MachineState : Type 0 where
  pic0 : Pic
  pic1 : Pic
  heard : List (ℕ × ℕ)
  busy : ℕ

-- The keyboard controller is busy for two looks after a byte.
abbrev keyboard_out : ℕ → ℕ → MachineState → MachineState
keyboard_out port v s =
    if (port == 0x60) || (port == 0x64)
    then (if s.busy == 0
        then record s { heard = s.heard ++ ((port, v) ∷ []); busy = 2 }
        else record s { busy = 2 })
    else s

abbrev test_device : Device
test_device = record {
  State = MachineState;
  in8 = λ port s.
      (if s.busy == 0 then 0 else 2, if port == 0x64 then record s { busy = s.busy - 1 } else s);
  in16 = λ port s. (0, s);
  out8 = λ port v s. record (keyboard_out port v s) {
    pic0 = pic_out 0x20 port v s.pic0;
    pic1 = pic_out 0xa0 port v s.pic1;
  };
}

abbrev test_machine : Machine test_device
test_machine = record {
  pic0 = λ s. s.pic0;
  pic1 = λ s. s.pic1;
  heard = λ s. s.heard;
  busy = λ s. s.busy;
  longest = 2;
  out0 = λ port v d. refl;
  out1 = λ port v d. refl;
  in0 = λ port d. ground arith;
  in1 = λ port d. ground arith;
  look = λ d. (ground arith, refl, refl);
  accepts = λ port v d keyboard ready. (ground arith, ground arith);
  other_out = λ port v d other. (ground arith, ground arith);
  other_in = λ port d other. (ground arith, ground arith);
}

abbrev unknown_pic : Pic
unknown_pic = record { base = 8; mask = 0; waits_for = 3 }

abbrev unknown_state : MachineState
unknown_state = record { pic0 = unknown_pic; pic1 = unknown_pic; heard = []; busy = 1 }
