-- ===== src/HardDisk/Read.antt =====
-- Reading sectors from an ATA drive.
use ntm_os.Prelude.{
  ℕ, zero, suc, ◌+◌, ◌-◌, ◌*◌, ◌/◌, ◌%◌, ◌^◌, ◌≤◌, ◌<◌, ◌≡◌, ◌≢◌, ◌⊎◌, refl, ap, ap₂, sym, ◌∙◌,
  arith, Bool, Bool-cases, true, false, inl, inr, ◌||◌, nonzero, ◌==◌, if◌then◌else◌,
}
use mathlib.Core.Path.{subst}
use ntm_os.Prelude.Memory.{Memory, write, write_half, in_range}
use ntm_os.Prelude.Run.{Run, done, panic, out_of_fuel, ◌>>=◌}
use ntm_os.Prelude.Device.{Device, skip, poll_while}
use ntm_os.HardDisk.Drive.{Registers, lba, sectors, Drive, IsPrompt, disk_byte}
use ntm_os.HardDisk.{
  drive_head_value, and_test, is_present_offset, read_half, is_primary, read_words, transfer,
  send_read, pio_read, ata_pio_lba_read,
}

module _ (D : Device) where
  pub poll_stops :
      (test : ℕ → Bool) (fuel port : ℕ) (d : D.State)
      → 0 < fuel
      → test (D.in8 port d).0 ≡ false
      → poll_while D test fuel port d ≡ done (D.in8 port d).1
  unfolding poll_while
  poll_stops test zero port d enough stop = absurd (omega arith)
  poll_stops test (suc fuel) port d enough stop = rw stop refl

-- The word `k` at `p`, followed by the next `n` words.
pub word_step :
    (disk : ℕ → ℕ) (m : Memory) (n p q k a : ℕ)
    → q ≡ p + 2
    → (if in_range q (2 * n) a
        then disk_byte disk (2 * (k + 1) + (a - q))
        else write_half m p (disk k) a)
      ≡ (if in_range p (2 * suc n) a then disk_byte disk (2 * k + (a - p)) else m a)
unfolding write_half write
word_step disk m n p q k a e =
    let even : (2 * k + (p - p)) / 2 ≡ k = omega arith in
    let odd : (2 * k + (p + 1 - p)) / 2 ≡ k = omega arith in
    let later : q ≤ a → 2 * (k + 1) + (a - q) ≡ 2 * k + (a - p) = λ h. omega arith in ground arith

-- `256 * num` words are `512 * num` bytes.
same_bytes :
    (disk : ℕ → ℕ) (m : Memory) (buff sector num a : ℕ)
    → (if in_range (buff + 2 * 0) (2 * (num * 256)) a
        then disk_byte disk (2 * (256 * sector) + (a - (buff + 2 * 0)))
        else m a)
      ≡ (if in_range buff (512 * num) a then disk_byte disk (512 * sector + (a - buff)) else m a)
same_bytes disk m buff sector num a =
    let at : 2 * (256 * sector) + (a - (buff + 2 * 0)) ≡ 512 * sector + (a - buff) = omega arith in
    ground arith

drive_head_value_lem :
    (primary : Bool) (sector : ℕ)
    → (drive_head_value primary sector / 64 % 2 ≡ 1)
      × (drive_head_value primary sector / 16 % 2 ≡ (if primary then 0 else 1))
      × (drive_head_value primary sector % 16 ≡ sector / 2 ^ 24 % 16)
unfolding drive_head_value
drive_head_value_lem true sector = (omega arith, omega arith, omega arith)
drive_head_value_lem false sector = (ground arith, ground arith, ground arith)

module _ (D : Device) (base : ℕ) (primary : Bool) (drive : Drive D base primary) where
  skip_status :
      (n : ℕ) (d : D.State)
      → (drive.next (skip D n (base + 7) d) ≡ drive.next d)
        × (drive.left (skip D n (base + 7) d) ≡ drive.left d)
        × (drive.busy (skip D n (base + 7) d) ≡ drive.busy d - n)
  unfolding skip
  skip_status zero d = (refl, refl, omega arith)
  skip_status (suc n) d =
      let (_, _, same_next, same_left, fewer) = drive.status d in
      let (e, f, g) = skip_status n (D.in8 (base + 7) d).1 in
      (e ∙ same_next, f ∙ same_left, g ∙ omega arith)

  -- The `n` words from the next one on are in one sector, or the drive does not pause between two.
  read_words_lem :
      (n i buff : ℕ) (m : Memory) (d : D.State) (a : ℕ)
      → n ≤ drive.left d
      → (0 < n → drive.busy d ≡ 0)
      → (drive.gap ≡ 0) ⊎ (drive.next d % 256 + n ≤ 256)
      → (read_words D n i base buff m d).0 a ≡ (
          if in_range (buff + 2 * i) (2 * n) a
          then disk_byte drive.disk (2 * drive.next d + (a - (buff + 2 * i)))
          else m a)
  unfolding read_words
  read_words_lem zero i buff m d a enough ready stays = ground arith
  read_words_lem (suc n) i buff m d a enough ready stays =
      let (value, moved, fewer, pause) = drive.word d (omega arith) (ready (omega arith)) in
      let m' = write_half m (buff + 2 * i) (D.in16 base d).0 in
      let ready' : 0 < n → drive.busy (D.in16 base d).1 ≡ 0 =
        λ some. elim stays [ inl none ↦ ground arith | inr inside ↦ ground arith ] in
      let stays' : (drive.gap ≡ 0) ⊎ (drive.next (D.in16 base d).1 % 256 + n ≤ 256) = elim stays [
        | inl none ↦ inl none
        | inr inside ↦
            let here : (drive.next d + 1) % 256 + n ≤ 256 = omega arith in
            inr (subst (λ k. k % 256 + n ≤ 256) (sym moved) here)
      ] in
      let rest = read_words_lem n (i + 1) buff m' (D.in16 base d).1 a (omega arith) ready' stays' in
      rest
      ∙ ap₂
          (λ k v.
            if in_range (buff + 2 * (i + 1)) (2 * n) a
            then disk_byte drive.disk (2 * k + (a - (buff + 2 * (i + 1))))
            else write_half m (buff + 2 * i) v a)
          moved value
      ∙ word_step drive.disk m n (buff + 2 * i) (buff + 2 * (i + 1)) (drive.next d) a (omega arith)

  -- The registers when the command is sent, and that the drive waits for it.
  registers_sent :
      (head count lo mid hi : ℕ) (d : D.State)
      → drive.busy d ≡ 0
      → let d' = D.out8 (base + 5) hi (
          D.out8
            (base + 4)
            mid
            (D.out8 (base + 3) lo (D.out8 (base + 2) count (D.out8 (base + 6) head d)))) in
        (drive.registers d' ≡ record { head = head; count = count; lo = lo; mid = mid; hi = hi })
        × (drive.busy d' ≡ 0)
  registers_sent head count lo mid hi d idle =
      let d1 = D.out8 (base + 6) head d in
      let d2 = D.out8 (base + 2) count d1 in
      let d3 = D.out8 (base + 3) lo d2 in
      let d4 = D.out8 (base + 4) mid d3 in
      let (r1, idle1) = drive.out_head head d idle in
      let (r2, idle2) = drive.out_count count d1 idle1 in
      let (r3, idle3) = drive.out_lo lo d2 idle2 in
      let (r4, idle4) = drive.out_mid mid d3 idle3 in
      let (r5, idle5) = drive.out_hi hi d4 idle4 in
      let e2 = r2 ∙ ap {A = Registers} (λ r. record r { count = count }) r1 in
      let e3 = r3 ∙ ap {A = Registers} (λ r. record r { lo = lo }) e2 in
      let e4 = r4 ∙ ap {A = Registers} (λ r. record r { mid = mid }) e3 in
      (r5 ∙ ap {A = Registers} (λ r. record r { hi = hi }) e4, idle5)

  send_read_lem :
      (sector num : ℕ) (d : D.State)
      → drive.busy d ≡ 0
      → sector < 2 ^ 28
      → 0 < num
      → num ≤ 256
      → (drive.next (send_read D base primary sector num d) ≡ 256 * sector)
        × (drive.left (send_read D base primary sector num d) ≡ 256 * num)
        × (drive.busy (send_read D base primary sector num d) ≤ drive.latency)
  unfolding send_read
  send_read_lem sector num d idle small some_sector fits =
      let head = drive_head_value primary sector in
      let (lba_mode, selects, low_bits) = drive_head_value_lem primary sector in
      let d' = D.out8 (base + 5) (sector / 2 ^ 16 % 256) (
        D.out8 (base + 4) (sector / 2 ^ 8 % 256) (
          D.out8 (base + 3) (sector % 256)
            (D.out8 (base + 2) (num % 256) (D.out8 (base + 6) head d)))) in
      let (sent, waits) =
        registers_sent head (num % 256) (sector % 256) (sector / 2 ^ 8 % 256)
          (sector / 2 ^ 16 % 256) d idle in
      let (e, f, g) =
        drive.start d' waits (ap (λ r. r.head / 64 % 2) sent ∙ lba_mode)
          (ap (λ r. r.head / 16 % 2) sent ∙ selects) in
      (
        e
            ∙ ap (λ r. 256 * lba r) sent
            ∙ ap
                (λ h.
                  256
                  * (h * 2 ^ 24
                      + sector / 2 ^ 16 % 256 * 2 ^ 16
                      + sector / 2 ^ 8 % 256 * 2 ^ 8
                      + sector % 256))
                low_bits
            ∙ omega arith,
        f ∙ ap (λ r. 256 * sectors r) sent ∙ ground arith,
        g,
      )

  transfer_lem :
      (buff num : ℕ) (m : Memory) (d : D.State)
      → num ≤ 256
      → let (m', d') = read_words D (num * 256) 0 base buff m d in
        transfer D base buff num m d ≡ (512 * num, m', d')
  unfolding transfer
  transfer_lem buff num m d fits =
      let words : num * 256 % 2 ^ 32 ≡ num * 256 = omega arith in
      let bytes : num * 256 * 2 % 2 ^ 32 ≡ 512 * num = omega arith in
      ap (λ w. let (m', d') = read_words D w 0 base buff m d in (w * 2 % 2 ^ 32, m', d')) words
      ∙ ap (λ b. let (m', d') = read_words D (num * 256) 0 base buff m d in (b, m', d')) bytes

  in_time_zero : (n : ℕ) → n ≤ drive.latency → drive.latency ≤ 10 → n - 10 ≡ 0
  in_time_zero n soon in_time = omega arith

  pio_read-Contents :
      (fuel buff sector num : ℕ) (m : Memory) (d : D.State)
      → IsPrompt drive num d
      → 0 < fuel
      → sector < 2 ^ 28
      → 0 < num
      → num ≤ 256
      → (m' : Memory) × (d' : D.State) × (pio_read D fuel base primary buff sector num m d
          ≡ done (512 * num, m', d'))
        × ((a : ℕ)
            → m' a ≡ (
                if in_range buff (512 * num) a
                then disk_byte drive.disk (512 * sector + (a - buff))
                else m a))
  unfolding pio_read and_test
  pio_read-Contents fuel buff sector num m d prompt enough small some_sector fits =
      let port = base + 7 in
      let d' = send_read D base primary sector num d in
      let (at, many0, soon) = send_read_lem sector num d prompt.idle small some_sector fits in
      let d0 = skip D 10 port d' in
      let (e0, f0, g0) = skip_status 10 d' in
      let idle0 : drive.busy d0 ≡ 0 = g0 ∙ in_time_zero (drive.busy d') soon prompt.in_time in
      let d1 = (D.in8 port d0).1 in
      let (_, _, e1, f1, g1) = drive.status d0 in
      let d2 = (D.in8 port d1).1 in
      let (_, _, e2, f2, g2) = drive.status d1 in
      let idle2 : drive.busy d2 ≡ 0 = omega arith in
      let bsy_stops =
        poll_stops D (λ v. nonzero (v % 2)) fuel port d0 enough
          (ap nonzero (drive.no_error d0 idle0)) in
      let drq_stops = poll_stops D (λ v. nonzero 0) fuel port d1 enough refl in
      let out = read_words D (num * 256) 0 base buff m d2 in
      let moved = e2 ∙ e1 ∙ e0 ∙ at in
      let many = f2 ∙ f1 ∙ f0 ∙ many0 in
      let stays : (drive.gap ≡ 0) ⊎ (drive.next d2 % 256 + num * 256 ≤ 256) = elim prompt.stays [
        | inl none ↦ inl none
        | inr one ↦
            let at_start : 256 * sector % 256 + num * 256 ≤ 256 = omega arith in
            inr (subst (λ k. k % 256 + num * 256 ≤ 256) (sym moved) at_start)
      ] in
      let run =
        ap
          (λ r. r >>= λ d1. poll_while D (λ v. nonzero 0) fuel port d1 >>= λ d2.
            done (transfer D base buff num m d2))
          bsy_stops
        ∙ ap (λ r. r >>= λ d2. done (transfer D base buff num m d2)) drq_stops
        ∙ ap done (transfer_lem buff num m d2 fits) in
      (
        out.0,
        out.1,
        run,
        λ a.
            read_words_lem (num * 256) 0 buff m d2 a (omega arith) (λ some. idle2) stays
            ∙ ap
                (λ k.
                  if in_range (buff + 2 * 0) (2 * (num * 256)) a
                  then disk_byte drive.disk (2 * k + (a - (buff + 2 * 0)))
                  else m a)
                moved
            ∙ same_bytes drive.disk m buff sector num a,
      )

-- For a drive that answers as the standard says, meets with no error, and is idle, a read of 1 to
-- 256 sectors below the 28-bit limit returns the number of bytes, if the drive has its data ready
-- within ten looks at its status, and does not pause between two sectors or only one is read. It
-- leaves the sectors' bytes in the buffer, in their order on the disk, and all other memory as it
-- was. The drive is the one that the structure at `hdd` names, which is present.
pub ata_pio_lba_read-Contents :
    (D : Device) (base : ℕ) (primary : Bool) (drive : Drive D base primary)
    (fuel hdd buff sector num : ℕ) (m : Memory) (d : D.State)
    → IsPrompt drive num d
    → hdd ≢ 0
    → m (hdd + is_present_offset) ≢ 0
    → read_half m hdd ≡ base
    → is_primary m hdd ≡ primary
    → 0 < fuel
    → sector < 2 ^ 28
    → 0 < num
    → num ≤ 256
    → (m' : Memory) × (d' : D.State) × (ata_pio_lba_read D fuel hdd buff sector num m d
        ≡ done (512 * num, m', d'))
      × ((a : ℕ)
          → m' a ≡ (
              if in_range buff (512 * num) a
              then disk_byte drive.disk (512 * sector + (a - buff))
              else m a))
unfolding ata_pio_lba_read
ata_pio_lba_read-Contents D base primary drive fuel hdd buff sector num m d prompt some_hdd present
      at_base selects enough small some_sector fits =
    let (m', d', run, contents) =
      pio_read-Contents D base primary drive fuel buff sector num m d prompt enough small
        some_sector fits in
    let there : (hdd == 0) || (m (hdd + is_present_offset) == 0) ≡ false = ground arith in
    let started =
      ap₂ (λ b t. if t then panic else pio_read D fuel b (is_primary m hdd) buff sector num m d)
        at_base there in
    (m', d', started ∙ ap (λ p. pio_read D fuel base p buff sector num m d) selects ∙ run, contents)

-- `Answers D port bit`: all that the port ever gives has `bit` as its lowest bit.
unfoldable pub Answers : (D : Device) → ℕ → ℕ → Type 0
Answers D port bit = (d : D.State) → (D.in8 port d).0 % 2 ≡ bit

poll_runs_out :
    (D : Device) (test : ℕ → Bool) (fuel port : ℕ) (d : D.State)
    → ((d : D.State) → test (D.in8 port d).0 ≡ true)
    → poll_while D test fuel port d ≡ out_of_fuel
unfolding poll_while
poll_runs_out D test zero port d h = refl
poll_runs_out D test (suc fuel) port d h =
    ap (λ t. if t then poll_while D test fuel port (D.in8 port d).1 else done (D.in8 port d).1)
      (h d)
    ∙ poll_runs_out D test fuel port (D.in8 port d).1 h

-- What a read waits for is bit 0 of the status, and nothing else. With a device that keeps it clear,
-- busy or not, the read of any sectors ends after two more looks at the status, and takes the words
-- that the device then gives. With a device that keeps it set, no fuel is enough.
pub ata_pio_lba_read-ends :
    (D : Device) (fuel hdd buff sector num bit : ℕ) (m : Memory) (d : D.State)
    → hdd ≢ 0
    → m (hdd + is_present_offset) ≢ 0
    → 0 < fuel
    → Answers D (read_half m hdd + 7) bit
    → ata_pio_lba_read D fuel hdd buff sector num m d ≡ (
        if bit == 0
        then done (
            transfer D (read_half m hdd) buff num m (
              skip D 12
                (read_half m hdd + 7)
                (send_read D (read_half m hdd) (is_primary m hdd) sector num d)))
        else out_of_fuel)
unfolding ata_pio_lba_read pio_read and_test Answers skip
ata_pio_lba_read-ends D fuel hdd buff sector num bit m d some_hdd present enough answers =
    let base = read_half m hdd in
    let port = base + 7 in
    let there : (hdd == 0) || (m (hdd + is_present_offset) == 0) ≡ false = ground arith in
    let d0 = skip D 10 port (send_read D base (is_primary m hdd) sector num d) in
    let started =
      ap (λ t. if t then panic else pio_read D fuel base (is_primary m hdd) buff sector num m d)
        there in
    let after_busy : D.State → Run (ℕ × Memory × D.State) = λ d1.
      poll_while D (λ v. nonzero 0) fuel port d1 >>= λ d2. done (transfer D base buff num m d2) in
    let read = done (
      transfer D base buff num m
        (skip D 12 port (send_read D base (is_primary m hdd) sector num d))) in
    let chosen = λ (t : Bool). if t then read else out_of_fuel in
    elim (Bool-cases (bit == 0)) [
      | inl clear ↦
          let is_zero : (n : ℕ) → n % 2 ≡ bit → nonzero (n % 2) ≡ false = λ n e. ground arith in
          started
          ∙ ap (λ r. r >>= after_busy)
              (poll_stops D (λ v. nonzero (v % 2)) fuel port d0 enough
                (is_zero (D.in8 port d0).0 (answers d0)))
          ∙ ap (λ r. r >>= λ d2. done (transfer D base buff num m d2))
              (poll_stops D (λ v. nonzero 0) fuel port (D.in8 port d0).1 enough refl)
          ∙ ap chosen (sym clear)
      | inr set ↦
          let is_one : (n : ℕ) → n % 2 ≡ bit → nonzero (n % 2) ≡ true = λ n e. ground arith in
          started
          ∙ ap (λ r. r >>= after_busy)
              (poll_runs_out D (λ v. nonzero (v % 2)) fuel port d0
                (λ d. is_one (D.in8 port d).0 (answers d)))
          ∙ ap chosen (sym set)
    ]
