-- ===== src/HardDisk.antt =====
-- The hard disks of harddisk.c, behind the ports of a device. `g_hdd_devices` stands in memory at
-- `hdds`, with the packed layout that kernel_types.h sets for the code behind it. The messages that
-- `ata_detect` prints are left out.
pub mod Drive
pub mod Read
pub mod Detect
pub mod Sample
mod Tests
use ntm_os.Prelude.{
  ℕ, zero, suc, ◌+◌, ◌*◌, ◌/◌, ◌%◌, ◌^◌, Bool, true, false, ◌||◌, ◌&&◌, List, [], ◌∷◌, nonzero, ltb,
  ◌==◌, if◌then◌else◌,
}
use ntm_os.Prelude.Int.{ℤ, pos, negsuc}
use ntm_os.Prelude.Memory.{Memory, write, write_half, read_word, write_word, fill}
use ntm_os.Prelude.Run.{Run, done, panic, ◌>>=◌}
use ntm_os.Prelude.Device.{Device, out_all, skip, poll_while}

abbrev pub sector_count_register_offset : ℕ
sector_count_register_offset = 2

abbrev pub lba_lo_register_offset : ℕ
lba_lo_register_offset = 3

abbrev pub lba_mid_register_offset : ℕ
lba_mid_register_offset = 4

abbrev pub lba_hi_register_offset : ℕ
lba_hi_register_offset = 5

abbrev pub drive_head_register_offset : ℕ
drive_head_register_offset = 6

abbrev pub status_register_offset : ℕ
status_register_offset = 7

abbrev pub drq : ℕ
drq = 2 ^ 3

abbrev pub bsy : ℕ
bsy = 2 ^ 7

-- `v & c`, where `c` is a comparison: 0 or 1. `==` and `!=` bind tighter than `&`.
unfoldable pub and_test : ℕ → Bool → ℕ
and_test v c = if c then v % 2 else 0

abbrev pub n_max_hdd : ℕ
n_max_hdd = 4

-- `hdd_device_t`: the size, and where its fields are.
abbrev pub hdd_size : ℕ
hdd_size = 279

-- `uint16_t io_port_base`, an `int is_primary`, three flags, the two sector counts, and the data.
abbrev pub is_primary_offset : ℕ
is_primary_offset = 4

abbrev pub is_present_offset : ℕ
is_present_offset = 8

abbrev pub is_lba28_support_offset : ℕ
is_lba28_support_offset = 9

abbrev pub is_lba48_support_offset : ℕ
is_lba48_support_offset = 10

abbrev pub n_sector_lba28_offset : ℕ
n_sector_lba28_offset = 11

abbrev pub n_sector_lba48_offset : ℕ
n_sector_lba48_offset = 15

abbrev pub identify_words_offset : ℕ
identify_words_offset = 23

-- `uint16_t`
unfoldable pub read_half : Memory → ℕ → ℕ
read_half m p = m p + 256 * m (p + 1)

-- `hdd->is_primary`, as a truth value.
unfoldable pub is_primary : Memory → ℕ → Bool
is_primary m hdd = nonzero (read_word m (hdd + is_primary_offset))

-- The `drive_head_value` of a read, in 8 bits. Bit 4 is not set by the first line.
unfoldable pub drive_head_value : Bool → ℕ → ℕ
drive_head_value primary sector =
    let value = sector / 2 ^ 24 % 16 + 0xe0 in
    if primary then value else if value / 16 % 2 == 0 then value + 0x10 else value

module _ (D : Device) where
  -- `for (i = ...) buff[i] = _io_in16(port);`, with the rounds left.
  unfoldable pub read_words : ℕ → ℕ → ℕ → ℕ → Memory → D.State → Memory × D.State
  read_words zero i port buff m d = (m, d)
  read_words (suc n) i port buff m d =
      let (v, d') = D.in16 port d in
      read_words n (i + 1) port buff (write_half m (buff + 2 * i) v) d'

  -- The registers that `ata_pio_lba_read` writes, and the command.
  unfoldable pub send_read : ℕ → Bool → ℕ → ℕ → D.State → D.State
  send_read port primary sector num_sectors = out_all D (
      (port + drive_head_register_offset, drive_head_value primary sector)
      ∷ (port + sector_count_register_offset, num_sectors % 256)
      ∷ (port + lba_lo_register_offset, sector % 256)
      ∷ (port + lba_mid_register_offset, sector / 2 ^ 8 % 256)
      ∷ (port + lba_hi_register_offset, sector / 2 ^ 16 % 256)
      ∷ (port + status_register_offset, 0x20)
      ∷ [])

  -- The words of the sectors, and the result, an `int`, as a 32-bit number.
  unfoldable pub transfer : ℕ → ℕ → ℕ → Memory → D.State → ℕ × Memory × D.State
  transfer port buff num_sectors m d =
      let total_words = num_sectors * 256 % 2 ^ 32 in
      let (m', d') = read_words total_words 0 port buff m d in (total_words * 2 % 2 ^ 32, m', d')

  -- From the command to the last word.
  unfoldable pub pio_read : ℕ → ℕ → Bool → ℕ → ℕ → ℕ → Memory → D.State → Run (ℕ × Memory × D.State)
  pio_read fuel port primary buff sector num_sectors m d =
      let status = port + status_register_offset in
      let sent = skip D 10 status (send_read port primary sector num_sectors d) in
      poll_while D (λ v. nonzero (and_test v (if bsy == 0 then false else true))) fuel status sent
      >>= λ d1. poll_while D (λ v. nonzero (and_test v (drq == 0))) fuel status d1 >>= λ d2.
          done (transfer port buff num_sectors m d2)

  unfoldable pub ata_pio_lba_read :
      ℕ → ℕ → ℕ → ℕ → ℕ → Memory → D.State → Run (ℕ × Memory × D.State)
  ata_pio_lba_read fuel hdd buff sector num_sectors m d =
      if (hdd == 0) || (m (hdd + is_present_offset) == 0)
      then panic
      else pio_read fuel (read_half m hdd) (is_primary m hdd) buff sector num_sectors m d

  unfoldable pub ata_pio_lba_write : ℕ → ℕ → ℕ → ℕ → ℤ
  ata_pio_lba_write hdd buff sector num_sectors = negsuc 0

  unfoldable pub send_identify : ℕ → Bool → D.State → D.State
  send_identify port primary = out_all D (
      (port + drive_head_register_offset, if primary then 0xa0 else 0xb0)
      ∷ (port + sector_count_register_offset, 0)
      ∷ (port + lba_lo_register_offset, 0)
      ∷ (port + lba_mid_register_offset, 0)
      ∷ (port + lba_hi_register_offset, 0)
      ∷ (port + status_register_offset, 0xec)
      ∷ [])

  -- After the two waits of `ata_detect_hdd` for the status and for the signature.
  unfoldable pub identify : ℕ → ℕ → ℕ → Memory → D.State → Run (ℤ × Memory × D.State)
  identify fuel port buff m d =
      let (lba_mid, d1) = D.in8 (port + lba_mid_register_offset) d in
      let (lba_hi, d2) = D.in8 (port + lba_hi_register_offset) d1 in
      if nonzero lba_mid && nonzero lba_hi
      then done (negsuc 0, m, d2)
      else poll_while D (λ v. nonzero (and_test v (drq == 0))) fuel (port + status_register_offset)
          d2
        >>= λ d3. let (m', d4) = read_words 256 0 port buff m d3 in done (pos 0, m', d4)

  unfoldable pub ata_detect_hdd : ℕ → ℕ → Bool → ℕ → Memory → D.State → Run (ℤ × Memory × D.State)
  ata_detect_hdd fuel port primary buff m d =
      let status = port + status_register_offset in
      let (s, d1) = D.in8 status (skip D 10 status (send_identify port primary d)) in
      poll_while D (λ v. nonzero (and_test v (bsy == 1))) fuel status d1 >>= λ d2.
      if s == 0 then done (negsuc 0, m, d2) else identify fuel port buff m d2

-- The two sector counts, from the data.
unfoldable pub record_lba28 : ℕ → Memory → Memory
record_lba28 hdd m =
    let n_sectors = read_word m (hdd + identify_words_offset + 60) in
    let m' = write_word m (hdd + n_sector_lba28_offset) n_sectors in
    if n_sectors == 0 then m' else write m' (hdd + is_lba28_support_offset) 1

unfoldable pub record_lba48 : ℕ → Memory → Memory
record_lba48 hdd m =
    let low = read_word m (hdd + identify_words_offset + 100) in
    let high = read_word m (hdd + identify_words_offset + 104) in
    let m' =
      write_word (write_word m (hdd + n_sector_lba48_offset) low) (hdd + n_sector_lba48_offset + 4)
        high in
    if (low == 0) && (high == 0) then m' else write m' (hdd + is_lba48_support_offset) 1

-- The device at `hdd` was found at `port`: its fields are set.
unfoldable pub record_hdd : ℕ → ℕ → Memory → Memory
record_hdd hdd port m =
    let m1 = write (write_half m hdd port) (hdd + is_present_offset) 1 in
    record_lba48 hdd (record_lba28 hdd (write_word m1 (hdd + is_primary_offset) 1))

-- The first loop of `ata_detect`, with the rounds left.
unfoldable pub clear_present : ℕ → ℕ → ℕ → Memory → Memory
clear_present zero i hdds m = m
clear_present (suc n) i hdds m =
    clear_present n (i + 1) hdds (write m (hdds + i * hdd_size + is_present_offset) 0)

module _ (D : Device) where
  -- The second loop, over the ports left; `n` disks are found.
  unfoldable pub scan_ports : ℕ → List ℕ → ℕ → ℕ → Memory → D.State → Run (Memory × D.State)
  scan_ports fuel [] n hdds m d = done (m, d)
  scan_ports fuel (port ∷ ports) n hdds m d =
      let hdd = hdds + n * hdd_size in
      ata_detect_hdd D fuel port true (hdd + identify_words_offset) m d >>= λ r.
      let (ret, m', d') = r in
      elim ret [
        | pos zero ↦ scan_ports fuel ports (n + 1) hdds (record_hdd hdd port m') d'
        | _ ↦ scan_ports fuel ports n hdds m' d'
      ]

  unfoldable pub ata_detect : ℕ → ℕ → Memory → D.State → Run (Memory × D.State)
  ata_detect fuel hdds m d =
      scan_ports fuel (0x1f0 ∷ 0x170 ∷ []) 0 hdds (clear_present n_max_hdd 0 hdds m) d
