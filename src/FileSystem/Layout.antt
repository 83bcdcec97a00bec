-- ===== src/FileSystem/Layout.antt =====
-- The layout of a FAT16 partition, and reading its sectors.
use ntm_os.Prelude.{
  ℕ, ◌+◌, ◌-◌, ◌*◌, ◌/◌, ◌%◌, ◌^◌, ◌<◌, ◌≤◌, ◌≡◌, ◌≢◌, refl, ap, ◌∙◌, arith, Bool, leb, ne→==,
  if◌then◌else◌,
}
use mathlib.Core.Path.{subst}
use native.Mathlib.Nat.{div-mul-le_self, lt-mul-div-succ, mul_comm}
use ntm_os.Prelude.Memory.{Memory, read_word, in_range}
use ntm_os.Prelude.Run.{done, panic, undefined}
use ntm_os.Prelude.Device.{Device}
use ntm_os.HardDisk.{is_present_offset, read_half, is_primary, ata_pio_lba_read}
use ntm_os.HardDisk.Drive.{Drive, IsPrompt, disk_byte}
use ntm_os.HardDisk.Read.{ata_pio_lba_read-Contents}
use ntm_os.FileSystem.{
  Partition, partition_read, Regions, regions_of, byte_per_sector, reserved_sectors,
  number_of_fat_copies, number_of_root_entries, sectors_per_fat, large_number_of_sectors,
}

-- The regions follow each other without a gap, up to sector `n`. There is room in them for the
-- `reserved` sectors, for the `fats` sectors of the FAT copies, and for `entries` entries of 32 bytes
-- in sectors of `bytes` bytes, if these fill their last sector: the remainder is left out.
pub record Contiguous (g : Regions) (reserved fats entries bytes n : ℕ) : Type 0 where
  pub from_start : g.reserved_region_start ≡ 0
  pub reserved_size : g.reserved_region_size ≡ reserved
  pub fat : g.fat_region_start ≡ g.reserved_region_start + g.reserved_region_size
  pub fat_size : g.fat_region_size ≡ fats
  pub root : g.root_directory_region_start ≡ g.fat_region_start + g.fat_region_size
  pub whole_sectors : g.root_directory_region_size * bytes ≤ entries * 32
  pub less_than_sector : entries * 32 < (g.root_directory_region_size + 1) * bytes
  pub data_start :
      g.data_region_start ≡ g.root_directory_region_start + g.root_directory_region_size
  pub data_end : g.data_region_start + g.data_region_size ≡ n

-- From a boot sector of bytes, with some bytes in a sector, and whose count of sectors, in its
-- 32-bit field, is not below what the first three regions take, the regions are computed, and
-- follow each other without a gap up to that count. The first has the reserved sectors, the second
-- the sectors of all the copies of the FAT, and the root directory as many sectors as its entries of
-- 32 bytes fill: entries behind the last full sector are left out.
pub regions_of-Contiguous :
    (m : Memory) (bs : ℕ)
    → ((a : ℕ) → m a < 256)
    → byte_per_sector m bs ≢ 0
    → reserved_sectors m bs
        + number_of_fat_copies m bs * sectors_per_fat m bs
        + number_of_root_entries m bs * 32 / byte_per_sector m bs
      ≤ large_number_of_sectors m bs
    → (g : Regions) × (regions_of m bs ≡ done g)
      × Contiguous g
          (reserved_sectors m bs)
          (number_of_fat_copies m bs * sectors_per_fat m bs)
          (number_of_root_entries m bs)
          (byte_per_sector m bs)
          (large_number_of_sectors m bs)
unfolding regions_of large_number_of_sectors read_word
regions_of-Contiguous m bs bytes some_bytes fits =
    let reserved = reserved_sectors m bs in
    let fat = number_of_fat_copies m bs * sectors_per_fat m bs in
    let root = number_of_root_entries m bs * 32 / byte_per_sector m bs in
    let large = large_number_of_sectors m bs in
    let b0 = bytes (bs + 32) in
    let b1 = bytes (bs + 32 + 1) in
    let b2 = bytes (bs + 32 + 2) in
    let b3 = bytes (bs + 32 + 3) in
    let small : large < 2 ^ 32 = omega arith in
    let divisor : 0 < byte_per_sector m bs = omega arith in
    let root_end : number_of_root_entries m bs * 32 < (root + 1) * byte_per_sector m bs =
      subst (λ n. number_of_root_entries m bs * 32 < n) (mul_comm (byte_per_sector m bs) (root + 1))
        (lt-mul-div-succ (number_of_root_entries m bs * 32) divisor) in
    let used = (reserved + fat + root) % 2 ^ 32 in
    let g : Regions = record {
      reserved_region_start = 0;
      fat_region_start = reserved;
      root_directory_region_start = (reserved + fat) % 2 ^ 32;
      data_region_start = used;
      reserved_region_size = reserved;
      fat_region_size = fat;
      root_directory_region_size = root;
      data_region_size = (large + 2 ^ 32 - used) % 2 ^ 32;
    } in
    (
      g,
      ap (λ b. if b then undefined else done g) (ne→== (byte_per_sector m bs) 0 some_bytes),
      record {
        from_start = refl;
        reserved_size = refl;
        fat = omega arith;
        fat_size = refl;
        root = omega arith;
        whole_sectors = div-mul-le_self (number_of_root_entries m bs * 32) (byte_per_sector m bs);
        less_than_sector = root_end;
        data_start = omega arith;
        data_end = omega arith;
      },
    )

-- For a drive that answers as the standard says, meets with no error, and is idle, a read of 1 to
-- 256 sectors of a partition panics if they reach to the last sector of the partition or behind
-- it. Otherwise it leaves the bytes of the sectors, counted from the start of the partition, in
-- the buffer, and all other memory as it was, if the drive has its data ready within ten looks at
-- its status, and does not pause between two sectors or only one is read. The sectors lie below
-- the 28-bit limit, and the drive is present.
pub partition_read-Contents :
    (D : Device) (base : ℕ) (primary : Bool) (drive : Drive D base primary) (fuel : ℕ)
    (p : Partition) (buff sector num : ℕ) (m : Memory) (d : D.State)
    → IsPrompt drive num d
    → p.hdd ≢ 0
    → m (p.hdd + is_present_offset) ≢ 0
    → read_half m p.hdd ≡ base
    → is_primary m p.hdd ≡ primary
    → 0 < fuel
    → p.start_lba + sector < 2 ^ 28
    → 0 < num
    → num ≤ 256
    → (m' : Memory) × (d' : D.State) × (partition_read D fuel p buff sector num m d
        ≡ (if leb p.num_sectors (sector + num) then panic else done (512 * num, m', d')))
      × ((a : ℕ)
          → m' a ≡ (
              if in_range buff (512 * num) a
              then disk_byte drive.disk (512 * (p.start_lba + sector) + (a - buff))
              else m a))
unfolding partition_read
partition_read-Contents D base primary drive fuel p buff sector num m d prompt some_hdd present
      at_base selects enough small some_sector fits =
    let (m', d', run, contents) =
      ata_pio_lba_read-Contents D base primary drive fuel p.hdd buff (p.start_lba + sector) num m d
        prompt some_hdd present at_base selects enough small some_sector fits in
    let no_wrap : (sector + num) % 2 ^ 32 ≡ sector + num = omega arith in
    let at : (p.start_lba + sector) % 2 ^ 32 ≡ p.start_lba + sector = omega arith in
    (
      m',
      d',
      ap
            (λ n.
              if leb p.num_sectors n
              then panic
              else ata_pio_lba_read D fuel p.hdd buff ((p.start_lba + sector) % 2 ^ 32) num m d)
            no_wrap
          ∙ ap
              (λ s.
                if leb p.num_sectors (sector + num)
                then panic
                else ata_pio_lba_read D fuel p.hdd buff s num m d)
              at
          ∙ ap (λ r. if leb p.num_sectors (sector + num) then panic else r) run,
      contents,
    )
