-- ===== src/FileSystem/Partitions.antt =====
-- The partition that is read from a disk.
use ntm_os.Prelude.{
  ℕ, zero, suc, ◌+◌, ◌-◌, ◌*◌, ◌<◌, ◌≤◌, ◌≡◌, ◌≢◌, ◌⊎◌, inl, inr, sym, Bool-cases, refl, ap, ap₂,
  ◌∙◌, arith, Bool, true, false, ◌||◌, ◌&&◌, ltb, ◌==◌, if◌then◌else◌,
}
use mathlib.Core.Path.{subst}
use ntm_os.Prelude.Memory.{Memory, read_word, in_range}
use ntm_os.Prelude.Run.{Run, done, panic, ◌>>=◌}
use ntm_os.Prelude.Device.{Device}
use ntm_os.HardDisk.{is_present_offset, read_half, is_primary}
use ntm_os.HardDisk.Drive.{Drive, IsPrompt, disk_byte}
use ntm_os.HardDisk.Read.{ata_pio_lba_read-Contents}
use ntm_os.FileSystem.{
  Partition, entry_at, choose_entry, n_max_partitions, partition_of, read_mbr, parse_mbr,
}

-- `Holds m p n image`: the `n` bytes at `p` are those of the image.
abbrev pub Holds : Memory → ℕ → ℕ → (ℕ → ℕ) → Type 0
Holds m p n image = (k : ℕ) → k < n → m (p + k) ≡ image k

pub read_word-Holds :
    (m : Memory) (p n k : ℕ) (image : ℕ → ℕ)
    → Holds m p n image
    → k + 4 ≤ n
    → read_word m (p + k) ≡ read_word image k
unfolding read_word
read_word-Holds m p n k image holds fits =
    let byte : (b : ℕ) → b < 4 → m (p + k + b) ≡ image (k + b) =
      λ b hb. ap m (omega arith) ∙ holds (k + b) (omega arith) in
    let first : m (p + k) ≡ image k = holds k (omega arith) in
    omega (arith, first, byte 1 (omega arith), byte 2 (omega arith), byte 3 (omega arith))

choose_entry-Holds :
    (n i mbr : ℕ) (m image : Memory)
    → Holds m mbr 512 image
    → i + n ≤ 4
    → choose_entry n i mbr m ≡ choose_entry n i 0 image
unfolding choose_entry entry_at
choose_entry-Holds zero i mbr m image holds fits = refl
choose_entry-Holds (suc n) i mbr m image holds fits =
    let status : m (mbr + 446 + 16 * i) ≡ image (0 + 446 + 16 * i) =
      ap m (omega arith) ∙ holds (446 + 16 * i) (omega arith) ∙ ap image (omega arith) in
    ap₂ (λ s rest. if ltb s 1 || ltb 0x7f s then i else rest) status
      (choose_entry-Holds n (i + 1) mbr m image holds (omega arith))

choose_entry_below : (n i mbr : ℕ) (m : Memory) → 0 < i + n → i + n ≤ 4 → choose_entry n i mbr m < 4
unfolding choose_entry
choose_entry_below zero i mbr m some fits = omega arith
choose_entry_below (suc n) i mbr m some fits =
    ground (arith, choose_entry_below n (i + 1) mbr m (omega arith) (omega arith))

-- The partition table means the same wherever it is in memory.
read_mbr-Holds :
    (hdd mbr : ℕ) (m image : Memory)
    → Holds m mbr 512 image
    → read_mbr hdd mbr m ≡ read_mbr hdd 0 image
unfolding read_mbr partition_of entry_at
read_mbr-Holds hdd mbr m image holds =
    let j = choose_entry n_max_partitions 0 0 image in
    let same = choose_entry-Holds 4 0 mbr m image holds (omega arith) in
    let below = choose_entry_below 4 0 0 image (omega arith) (omega arith) in
    let at : mbr + 446 + 16 * j ≡ mbr + (446 + 16 * j) = omega arith in
    let type : m (mbr + 446 + 16 * j + 4) ≡ image (0 + 446 + 16 * j + 4) =
      ap m (omega arith) ∙ holds (446 + 16 * j + 4) (omega arith) ∙ ap image (omega arith) in
    let start : read_word m (mbr + 446 + 16 * j + 8) ≡ read_word image (0 + 446 + 16 * j + 8) =
      ap (read_word m) (omega arith)
      ∙ read_word-Holds m mbr 512 (446 + 16 * j + 8) image holds (omega arith)
      ∙ ap (read_word image) (omega arith) in
    let size : read_word m (mbr + 446 + 16 * j + 12) ≡ read_word image (0 + 446 + 16 * j + 12) =
      ap (read_word m) (omega arith)
      ∙ read_word-Holds m mbr 512 (446 + 16 * j + 12) image holds (omega arith)
      ∙ ap (read_word image) (omega arith) in
    let first : m (mbr + 510) ≡ image 510 = holds 510 (omega arith) in
    let second : m (mbr + 510 + 1) ≡ image 511 = ap m (omega arith) ∙ holds 511 (omega arith) in
    let table = (image 510 == 0x55) && (image 511 == 0xaa) in
    let found : ℕ → ℕ → ℕ → Run Partition = λ type start size.
      if table
      then done (record { hdd = hdd; type = type; start_lba = start; num_sectors = size })
      else panic in
    ap₂
      (λ x y.
        if (x == 0x55) && (y == 0xaa)
        then done (partition_of hdd (entry_at mbr (choose_entry n_max_partitions 0 mbr m)) m)
        else panic)
      first second
    ∙ ap
        (λ i.
          found (m (mbr + 446 + 16 * i + 4)) (read_word m (mbr + 446 + 16 * i + 8))
            (read_word m (mbr + 446 + 16 * i + 12)))
        same
    ∙ ap
        (λ k.
          found k (read_word m (mbr + 446 + 16 * j + 8)) (read_word m (mbr + 446 + 16 * j + 12)))
        type
    ∙ ap₂ (found (image (0 + 446 + 16 * j + 4))) start size

-- An entry of the partition table of the disk whose status lets `parse_mbr` take it.
abbrev pub takes : (ℕ → ℕ) → ℕ → Bool
takes image i = (image (446 + 16 * i) == 0) || ltb 0x7f (image (446 + 16 * i))

-- Entry `j` is the first that may be taken, or the first one of the table if there is none.
pub data Chosen (image : ℕ → ℕ) : ℕ → Type 0 where
  first_taken :
      (j : ℕ)
      → j < 4
      → takes image j ≡ true
      → ((l : ℕ) → l < j → takes image l ≡ false)
      → Chosen image j
  no_other : ((l : ℕ) → l < 4 → takes image l ≡ false) → Chosen image 0

-- What the first sector of a disk means.
pub data Parsed (hdd : ℕ) (image : ℕ → ℕ) : Run Partition → Type 0 where
  no_signature : (image 510 ≢ 0x55) ⊎ (image 511 ≢ 0xaa) → Parsed hdd image panic
  of_entry :
      (j : ℕ)
      → image 510 ≡ 0x55
      → image 511 ≡ 0xaa
      → Chosen image j
      → Parsed hdd image (
          done (record {
            hdd = hdd;
            type = image (446 + 16 * j + 4);
            start_lba = read_word image (446 + 16 * j + 8);
            num_sectors = read_word image (446 + 16 * j + 12);
          }))

choose_entry-Chosen :
    (n i : ℕ) (image : ℕ → ℕ)
    → i + n ≡ 4
    → ((l : ℕ) → l < i → takes image l ≡ false)
    → Chosen image (choose_entry n i 0 image)
unfolding choose_entry entry_at
choose_entry-Chosen zero i image all before = no_other λ l less. before l (omega arith)
choose_entry-Chosen (suc n) i image all before =
    let status = image (446 + 16 * i) in
    let rest = choose_entry n (i + 1) 0 image in
    let test = ltb status 1 || ltb 0x7f status in
    elim (Bool-cases test) [
      | inl taken ↦
          subst (Chosen image) (ap {A = Bool} (λ b. if b then i else rest) (sym taken))
            (first_taken i (omega arith) (ground arith) before)
      | inr not_taken ↦
          subst (Chosen image) (ap {A = Bool} (λ b. if b then i else rest) (sym not_taken)) (
            choose_entry-Chosen n (i + 1) image (omega arith) λ l less. elim (Bool-cases (l == i)) [
              | inl here ↦
                  let is_here : i ≡ l = ground arith in
                  subst (λ l. takes image l ≡ false) is_here (ground arith)
              | inr earlier ↦ before l (ground arith)
            ])
    ]

read_mbr-Parsed : (hdd : ℕ) (image : ℕ → ℕ) → Parsed hdd image (read_mbr hdd 0 image)
unfolding read_mbr partition_of entry_at
read_mbr-Parsed hdd image =
    let j = choose_entry n_max_partitions 0 0 image in
    let chosen : Chosen image j =
      choose_entry-Chosen 4 0 image refl (λ l less. absurd (omega arith)) in
    let p : Partition = record {
      hdd = hdd;
      type = image (446 + 16 * j + 4);
      start_lba = read_word image (446 + 16 * j + 8);
      num_sectors = read_word image (446 + 16 * j + 12);
    } in
    let outcome = λ (b : Bool). if b then done p else panic in
    let signed = (image 510 == 0x55) && (image 511 == 0xaa) in
    elim (Bool-cases signed) [
      | inl both ↦
          subst (Parsed hdd image) (ap outcome (sym both))
            (of_entry j (ground arith) (ground arith) chosen)
      | inr not_both ↦
          subst (Parsed hdd image) (ap outcome (sym not_both))
            (elim (Bool-cases (image 510 == 0x55)) [
              | inl has_first ↦ no_signature (inr (λ e. ground arith))
              | inr wrong_first ↦ no_signature (inl (λ e. ground arith))
            ])
    ]

-- For a drive that answers as the standard says, meets with no error, is idle and has its data
-- ready within ten looks at its status, and that is present, parse_mbr panics if the first sector
-- of the disk does not end with the bytes 0x55 and 0xaa. Otherwise it returns the type, the first
-- sector and the number of sectors of an entry of the partition table in that sector: the first
-- one whose status is 0 or above 0x7f, or the first one of the table if there is none. It changes
-- no memory but the 512 bytes of its buffer.
pub parse_mbr-Parsed :
    (D : Device) (base : ℕ) (primary : Bool) (drive : Drive D base primary) (fuel hdd mbr : ℕ)
    (m : Memory) (d : D.State)
    → IsPrompt drive 1 d
    → hdd ≢ 0
    → m (hdd + is_present_offset) ≢ 0
    → read_half m hdd ≡ base
    → is_primary m hdd ≡ primary
    → 0 < fuel
    → (m' : Memory) × (d' : D.State) × (r : Run Partition) × (parse_mbr D fuel hdd mbr m d
        ≡ (r >>= λ p. done (p, m', d')))
      × Parsed hdd (disk_byte drive.disk) r
      × ((a : ℕ) → in_range mbr 512 a ≡ false → m' a ≡ m a)
unfolding parse_mbr
parse_mbr-Parsed D base primary drive fuel hdd mbr m d prompt some_hdd present at_base selects
      enough =
    let (m', d', run, contents) =
      ata_pio_lba_read-Contents D base primary drive fuel hdd mbr 0 1 m d prompt some_hdd present
        at_base selects enough (omega arith) (omega arith) (omega arith) in
    let holds : Holds m' mbr 512 (disk_byte drive.disk) = λ k hk.
      let inside : in_range mbr (512 * 1) (mbr + k) ≡ true = ground arith in
      let from : 512 * 0 + (mbr + k - mbr) ≡ k = omega arith in
      contents (mbr + k)
      ∙ ap (λ b. if b then disk_byte drive.disk (512 * 0 + (mbr + k - mbr)) else m (mbr + k)) inside
      ∙ ap (disk_byte drive.disk) from in
    (
      m',
      d',
      read_mbr hdd 0 (disk_byte drive.disk),
      ap (λ r. r >>= (λ r. let (_, m', d') = r in read_mbr hdd mbr m' >>= (λ p. done (p, m', d'))))
            run
          ∙ ap (λ r. r >>= (λ p. done (p, m', d')))
              (read_mbr-Holds hdd mbr m' (disk_byte drive.disk) holds),
      read_mbr-Parsed hdd (disk_byte drive.disk),
      λ a out.
          contents a ∙ ap (λ b. if b then disk_byte drive.disk (512 * 0 + (a - mbr)) else m a) out,
    )
