-- ===== src/HardDisk/Tests.antt =====
-- Runs on a drive at the primary ports.
use ntm_os.Prelude.{ℕ, ◌+◌, ◌-◌, ◌≡◌, refl, arith, true, if◌then◌else◌}
use ntm_os.Prelude.Memory.{Memory, in_range, read_word}
use ntm_os.Prelude.Run.{done, out_of_fuel}
use ntm_os.Prelude.Device.{Device}
use ntm_os.HardDisk.{read_half, is_primary, ata_pio_lba_read, ata_detect_hdd}
use ntm_os.HardDisk.Drive.{disk_byte}
use ntm_os.HardDisk.Read.{Answers, ata_pio_lba_read-Contents, ata_pio_lba_read-ends}
use ntm_os.HardDisk.Detect.{Detected, ata_detect_hdd-Detected}
use ntm_os.HardDisk.Sample.{
  test_disk, DriveState, test_device, test_drive, test_state, test_state-IsPrompt, test_memory,
}

ata_pio_lba_read-Contents_example :
    (m' : Memory) × (d' : DriveState) × (ata_pio_lba_read test_device 1 4096 8192 3 2 test_memory
        test_state
      ≡ done (1024, m', d'))
    × ((a : ℕ)
        → m' a ≡ (
            if in_range 8192 1024 a
            then disk_byte test_disk (1536 + (a - 8192))
            else test_memory a))
unfolding read_half is_primary read_word
ata_pio_lba_read-Contents_example =
    ata_pio_lba_read-Contents test_device 0x1f0 true test_drive 1 4096 8192 3 2 test_memory
      test_state (test_state-IsPrompt 2) (omega arith) (omega arith) refl refl (omega arith)
      (omega arith) (omega arith) (omega arith)

-- A drive that reports an error for ever.
abbrev failed_device : Device
failed_device = record test_device { in8 = λ port s. (0x51, s) }

failed_device-Answers : Answers failed_device (read_half test_memory 4096 + 7) 1
unfolding Answers
failed_device-Answers d = refl

ata_pio_lba_read-ends_example :
    ata_pio_lba_read failed_device 1000 4096 8192 3 2 test_memory test_state ≡ out_of_fuel
ata_pio_lba_read-ends_example =
    ata_pio_lba_read-ends failed_device 1000 4096 8192 3 2 1 test_memory test_state (omega arith)
      (omega arith) (omega arith) failed_device-Answers

ata_detect_hdd-Detected_example :
    Detected test_device 0x1f0 8192 test_memory
      (ata_detect_hdd test_device 1 0x1f0 true 8192 test_memory test_state)
ata_detect_hdd-Detected_example =
    ata_detect_hdd-Detected test_device 1 0x1f0 8192 true test_memory test_state (omega arith)
