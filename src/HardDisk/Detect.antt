-- ===== src/HardDisk/Detect.antt =====
-- Finding the disks.
use ntm_os.Prelude.{
  ℕ, zero, suc, ◌+◌, ◌-◌, ◌*◌, ◌/◌, ◌%◌, ◌<◌, ◌≡◌, refl, ap, ap₂, sym, ◌∙◌, arith, Bool, true,
  false, ◌&&◌, nonzero, ◌==◌, if◌then◌else◌,
}
use mathlib.Core.Path.{subst}
use ntm_os.Prelude.Int.{ℤ, pos, negsuc}
use ntm_os.Prelude.Memory.{Memory, write_half, in_range}
use ntm_os.Prelude.Run.{Run, done, ◌>>=◌}
use ntm_os.Prelude.Device.{Device, skip, poll_while}
use ntm_os.HardDisk.{
  and_test, hdd_size, n_max_hdd, read_words, send_identify, identify, ata_detect_hdd,
}
use ntm_os.HardDisk.Drive.{disk_byte}
use ntm_os.HardDisk.Read.{word_step, poll_stops}

module _ (D : Device) where
  -- The words that a port gives from now on.
  unfoldable pub port_word : ℕ → D.State → ℕ → ℕ
  port_word port d zero = (D.in16 port d).0
  port_word port d (suc k) = port_word port (D.in16 port d).1 k

  port_word_next :
      (port : ℕ) (d : D.State) (x y : ℕ)
      → x ≡ 2 + y
      → disk_byte (port_word port (D.in16 port d).1) y ≡ disk_byte (port_word port d) x
  unfolding port_word
  port_word_next port d x y e =
      let half : x / 2 ≡ suc (y / 2) = omega arith in
      let parity : x % 2 ≡ y % 2 = omega arith in
      ap₂ (λ r w. if r == 0 then w % 256 else w / 256 % 256) (sym parity)
        (sym (ap (port_word port d) half))

  -- The words that a port gives stand in memory in their order, and nothing else changes.
  read_words-Data :
      (n i port buff : ℕ) (m : Memory) (d : D.State) (a : ℕ)
      → (read_words D n i port buff m d).0 a ≡ (
          if in_range (buff + 2 * i) (2 * n) a
          then disk_byte (port_word port d) (a - (buff + 2 * i))
          else m a)
  unfolding read_words port_word
  read_words-Data zero i port buff m d a = ground arith
  read_words-Data (suc n) i port buff m d a =
      let m' = write_half m (buff + 2 * i) (D.in16 port d).0 in
      let no_words : 2 * 0 + (a - (buff + 2 * i)) ≡ a - (buff + 2 * i) = omega arith in
      let rest = read_words-Data n (i + 1) port buff m' (D.in16 port d).1 a in
      rest
      ∙ ap (λ b. if in_range (buff + 2 * (i + 1)) (2 * n) a then b else m' a)
          (port_word_next port d (2 * (0 + 1) + (a - (buff + 2 * (i + 1))))
            (a - (buff + 2 * (i + 1))) (omega arith))
      ∙ word_step (port_word port d) m n (buff + 2 * i) (buff + 2 * (i + 1)) 0 a (omega arith)
      ∙ ap
          (λ x.
            if in_range (buff + 2 * i) (2 * suc n) a then disk_byte (port_word port d) x else m a)
          no_words

  -- A detection on `port` with its data at `buff` ends: with −1 and memory unchanged, or with 0 and
  -- the 256 words that the port gave in the state `at`.
  pub data Detected (port buff : ℕ) (m : Memory) : Run (ℤ × Memory × D.State) → Type 0 where
    absent : (d : D.State) → Detected port buff m (done (negsuc 0, m, d))
    present :
        (at d : D.State) (m' : Memory)
        → ((a : ℕ)
            → m' a
              ≡ (if in_range buff 512 a then disk_byte (port_word port at) (a - buff) else m a))
        → Detected port buff m (done (pos 0, m', d))

  read_words-Detected :
      (port buff : ℕ) (m : Memory) (d : D.State)
      → let (m', d') = read_words D 256 0 port buff m d in
        Detected port buff m (done (pos 0, m', d'))
  read_words-Detected port buff m d =
      let (m', d') = read_words D 256 0 port buff m d in
      let from_start : buff + 2 * 0 ≡ buff = omega arith in
      Detected.present d d' m' (λ a.
        read_words-Data 256 0 port buff m d a
        ∙ ap (λ p. if in_range p 512 a then disk_byte (port_word port d) (a - p) else m a)
            from_start)

  identify-Detected :
      (fuel port buff : ℕ) (m : Memory) (d : D.State)
      → 0 < fuel
      → Detected port buff m (identify D fuel port buff m d)
  unfolding identify and_test
  identify-Detected fuel port buff m d enough =
      let (lba_mid, d1) = D.in8 (port + 4) d in
      let (lba_hi, d2) = D.in8 (port + 5) d1 in
      let ready = poll_stops D (λ v. nonzero 0) fuel (port + 7) d2 enough refl in
      elim (nonzero lba_mid && nonzero lba_hi)
        as (λ t. Detected port buff m (
          if t
          then done (negsuc 0, m, d2)
          else poll_while D (λ v. nonzero 0) fuel (port + 7) d2 >>= λ d3.
              let (m', d4) = read_words D 256 0 port buff m d3 in done (pos 0, m', d4))) [
                | true ↦ Detected.absent d2
                | false ↦
                    subst
                      (λ r. Detected port buff m (
                        r >>= λ d3.
                        let (m', d4) = read_words D 256 0 port buff m d3 in done (pos 0, m', d4)))
                      (sym ready) (read_words-Detected port buff m (D.in8 (port + 7) d2).1)
              ]

  -- With any device, and one look at the status allowed, the detection of a disk ends. It finds
  -- none and leaves memory alone, or it writes the 256 words that the port gives, 512 bytes, and
  -- changes nothing else.
  pub ata_detect_hdd-Detected :
      (fuel port buff : ℕ) (primary : Bool) (m : Memory) (d : D.State)
      → 0 < fuel
      → Detected port buff m (ata_detect_hdd D fuel port primary buff m d)
  unfolding ata_detect_hdd and_test
  ata_detect_hdd-Detected fuel port buff primary m d enough =
      let (s, d1) = D.in8 (port + 7) (skip D 10 (port + 7) (send_identify D port primary d)) in
      let d2 = (D.in8 (port + 7) d1).1 in
      let idle = poll_stops D (λ v. nonzero 0) fuel (port + 7) d1 enough refl in
      subst
        (λ r.
          Detected port buff m
            (r >>= λ d2. if s == 0 then done (negsuc 0, m, d2) else identify D fuel port buff m d2))
        (sym idle)
        (elim (s == 0)
          as (λ t.
            Detected port buff m
              (if t then done (negsuc 0, m, d2) else identify D fuel port buff m d2)) [
                | true ↦ Detected.absent d2
                | false ↦ identify-Detected fuel port buff m d2 enough
              ])

module _ (D : Device) where
  -- `Within hdds m r`: the call returned, and changed no memory but the table of disks at `hdds`.
  pub Within : ℕ → Memory → Run (Memory × D.State) → Type 0
  Within hdds m r =
      (m' : Memory) × (d' : D.State) × (r ≡ done (m', d'))
      × ((a : ℕ) → in_range hdds (n_max_hdd * hdd_size) a ≡ false → m' a ≡ m a)
