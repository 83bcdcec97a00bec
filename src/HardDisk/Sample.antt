-- ===== src/HardDisk/Sample.antt =====
-- A drive at the primary ports, for examples.
use ntm_os.Prelude.{
  ℕ, ◌+◌, ◌-◌, ◌*◌, ◌/◌, ◌%◌, ◌≤◌, ◌≡◌, ◌&&◌, ltb, arith, inl, refl, true, ◌==◌, if◌then◌else◌,
}
use ntm_os.Prelude.Memory.{Memory}
use ntm_os.Prelude.Device.{Device}
use ntm_os.HardDisk.Drive.{Registers, Drive, IsPrompt, lba, sectors}

-- Word `k` of the disk is `k`, in 16 bits; the last word of every sector is a signature.
abbrev pub test_disk : ℕ → ℕ
test_disk k = if k % 256 == 255 then 0xaa55 else k % 65536

pub record DriveState : Type 0 where
  pub registers : Registers
  pub next : ℕ
  pub left : ℕ
  pub busy : ℕ

-- Bits 7, 6 and 3 of the status: busy, ready, and with data.
abbrev pub drive_status : DriveState → ℕ
drive_status s = if s.busy == 0 then (if ltb 0 s.left then 0x58 else 0x50) else 0x80

abbrev pub drive_in8 : ℕ → DriveState → ℕ × DriveState
drive_in8 port s =
    if port == 0x1f7 then (drive_status s, record s { busy = s.busy - 1 }) else (0, s)

abbrev pub drive_in16 : ℕ → DriveState → ℕ × DriveState
drive_in16 port s = (test_disk s.next, record s { next = s.next + 1; left = s.left - 1 })

abbrev pub set_register : ℕ → ℕ → Registers → Registers
set_register port v r =
    if port == 0x1f6
    then record r { head = v }
    else if port == 0x1f2
    then record r { count = v }
    else if port == 0x1f3
    then record r { lo = v }
    else if port == 0x1f4
    then record r { mid = v }
    else if port == 0x1f5
    then record r { hi = v }
    else r

abbrev pub drive_out8 : ℕ → ℕ → DriveState → DriveState
drive_out8 port v s =
    if port == 0x1f7
    then record s { next = 256 * lba s.registers; left = 256 * sectors s.registers; busy = 7 }
    else record s { registers = set_register port v s.registers }

abbrev pub test_device : Device
test_device = record { State = DriveState; in8 = drive_in8; in16 = drive_in16; out8 = drive_out8 }

pub status_bits :
    (s : DriveState)
    → (drive_status s / 128 % 2 ≡ (if s.busy == 0 then 0 else 1))
      × (drive_status s / 8 % 2 ≡ (if (s.busy == 0) && ltb 0 s.left then 1 else 0))
status_bits s = (ground arith, ground arith)

pub status_without_error : (s : DriveState) → s.busy ≡ 0 → drive_status s % 2 ≡ 0
status_without_error s idle = ground arith

pub stays_idle : (n k : ℕ) → n ≡ 0 → n ≤ (if k == 0 then 0 else 0)
stays_idle n k idle = ground arith

pub seven_looks : 7 ≤ 7
seven_looks = omega arith

-- The drive is busy for seven looks after a command, and does not pause between two sectors.
abbrev pub test_drive : Drive test_device 0x1f0 true
test_drive = record {
  disk = test_disk;
  registers = λ s. s.registers;
  next = λ s. s.next;
  left = λ s. s.left;
  busy = λ s. s.busy;
  latency = 7;
  gap = 0;
  out_head = λ v d idle. (refl, idle);
  out_count = λ v d idle. (refl, idle);
  out_lo = λ v d idle. (refl, idle);
  out_mid = λ v d idle. (refl, idle);
  out_hi = λ v d idle. (refl, idle);
  start = λ d idle lba_mode selected. (refl, refl, seven_looks);
  status = λ d. ((status_bits d).0, (status_bits d).1, refl, refl, refl);
  no_error = λ d idle. status_without_error d idle;
  word = λ d some idle. (refl, refl, refl, stays_idle d.busy ((d.next + 1) % 256) idle);
}

abbrev pub test_state : DriveState
test_state = record {
  registers = record { head = 0; count = 0; lo = 0; mid = 0; hi = 0 };
  next = 0;
  left = 0;
  busy = 0;
}

pub test_state-IsPrompt : (num : ℕ) → IsPrompt test_drive num test_state
test_state-IsPrompt num = record { idle = refl; in_time = omega arith; stays = inl refl }

-- A structure at 4096 for the drive at 0x1f0, which is present and primary.
abbrev pub test_memory : Memory
test_memory a =
    if a == 4096
    then 0xf0
    else if a == 4097
    then 1
    else if a == 4100
    then 1
    else if a == 4104
    then 1
    else 0
