-- ===== src/HardDisk/Drive.antt =====
-- What the code relies on of an ATA drive, from the ATA standard.
use ntm_os.Prelude.{
  ℕ, ◌+◌, ◌-◌, ◌*◌, ◌/◌, ◌%◌, ◌^◌, ◌≤◌, ◌<◌, ◌≡◌, ◌⊎◌, ◌&&◌, ltb, Bool, ◌==◌, if◌then◌else◌,
}
use ntm_os.Prelude.Device.{Device}

-- The registers by which a drive is told what to read.
pub record Registers : Type 0 where
  pub head : ℕ
  pub count : ℕ
  pub lo : ℕ
  pub mid : ℕ
  pub hi : ℕ

-- The sector that the registers address, and how many sectors they ask for.
abbrev pub lba : Registers → ℕ
lba r = r.head % 16 * 2 ^ 24 + r.hi * 2 ^ 16 + r.mid * 2 ^ 8 + r.lo

abbrev pub sectors : Registers → ℕ
sectors r = if r.count == 0 then 256 else r.count

-- What the ATA standard says of a drive at the ports from `base` on, in so far as the code relies
-- on it. Word `k` of the disk is `disk k`, and a read that is under way is at word `next`, with
-- `left` words left. A drive is busy for the next `busy` looks at its status: at most `latency` after
-- a command, and at most `gap` after the last word of a sector. Bit 7 of the status (BSY) says that
-- it is busy, and bit 3 (DRQ) that it is not and has data. It takes its registers and gives data only
-- when it is not busy; the error bit means something only then, and it meets with no error.
pub record Drive (D : Device) (base : ℕ) (primary : Bool) : Type 0 where
  pub disk : ℕ → ℕ
  pub registers : D.State → Registers
  pub next : D.State → ℕ
  pub left : D.State → ℕ
  pub busy : D.State → ℕ
  pub latency : ℕ
  pub gap : ℕ
  pub out_head :
      (v : ℕ) (d : D.State)
      → busy d ≡ 0
      → (registers (D.out8 (base + 6) v d) ≡ record (registers d) { head = v })
        × (busy (D.out8 (base + 6) v d) ≡ 0)
  pub out_count :
      (v : ℕ) (d : D.State)
      → busy d ≡ 0
      → (registers (D.out8 (base + 2) v d) ≡ record (registers d) { count = v })
        × (busy (D.out8 (base + 2) v d) ≡ 0)
  pub out_lo :
      (v : ℕ) (d : D.State)
      → busy d ≡ 0
      → (registers (D.out8 (base + 3) v d) ≡ record (registers d) { lo = v })
        × (busy (D.out8 (base + 3) v d) ≡ 0)
  pub out_mid :
      (v : ℕ) (d : D.State)
      → busy d ≡ 0
      → (registers (D.out8 (base + 4) v d) ≡ record (registers d) { mid = v })
        × (busy (D.out8 (base + 4) v d) ≡ 0)
  pub out_hi :
      (v : ℕ) (d : D.State)
      → busy d ≡ 0
      → (registers (D.out8 (base + 5) v d) ≡ record (registers d) { hi = v })
        × (busy (D.out8 (base + 5) v d) ≡ 0)
  pub start :
      (d : D.State)
      → busy d ≡ 0
      → (registers d).head / 64 % 2 ≡ 1
      → (registers d).head / 16 % 2 ≡ (if primary then 0 else 1)
      → (next (D.out8 (base + 7) 0x20 d) ≡ 256 * lba (registers d))
        × (left (D.out8 (base + 7) 0x20 d) ≡ 256 * sectors (registers d))
        × (busy (D.out8 (base + 7) 0x20 d) ≤ latency)
  pub status :
      (d : D.State)
      → let (v, d') = D.in8 (base + 7) d in
        (v / 128 % 2 ≡ (if busy d == 0 then 0 else 1))
        × (v / 8 % 2 ≡ (if (busy d == 0) && ltb 0 (left d) then 1 else 0))
        × (next d' ≡ next d)
        × (left d' ≡ left d)
        × (busy d' ≡ busy d - 1)
  pub no_error : (d : D.State) → busy d ≡ 0 → (D.in8 (base + 7) d).0 % 2 ≡ 0
  pub word :
      (d : D.State)
      → 0 < left d
      → busy d ≡ 0
      → let (v, d') = D.in16 base d in
        (v ≡ disk (next d))
        × (next d' ≡ next d + 1)
        × (left d' ≡ left d - 1)
        × (busy d' ≤ (if (next d + 1) % 256 == 0 then gap else 0))

-- The drive is fast enough for a read of `num` sectors that does not look at BSY and DRQ: it is not
-- busy before, is ready within the ten looks at the status whose value the code throws away, and
-- then stays ready, or only one sector is read.
pub record IsPrompt {D : Device} {base : ℕ} {primary : Bool} (drive : Drive D base primary)
    (num : ℕ) (d : D.State) : Type 0 where
  pub idle : drive.busy d ≡ 0
  pub in_time : drive.latency ≤ 10
  pub stays : (drive.gap ≡ 0) ⊎ (num ≡ 1)

-- Byte `i` of the disk: a word has its low byte first.
abbrev pub disk_byte : (ℕ → ℕ) → ℕ → ℕ
disk_byte disk i = if i % 2 == 0 then disk (i / 2) % 256 else disk (i / 2) / 256 % 256
